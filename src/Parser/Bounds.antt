-- ===== src/Parser/Bounds.antt =====
-- The indices in a graph that was parsed (src/parser.cpp, src/graph.cpp): the loops of src/executor.cpp
-- follow them without a test.

use catalyst_build_executor.Base.{
  get_elem?-lt-length, ℕ, zero, suc, ◌<◌, ◌≡◌, refl, sym, ap, subst, Bytes, List, [], ◌∷◌, Option,
  none, some, length, All, Memᴰ, get_elem?,
}
use catalyst_build_executor.Domain.{BuildStep, FileSystem, ok}
use catalyst_build_executor.Graph.{Node, BuildGraph}
use catalyst_build_executor.Graph.Ids.{edges_of, step_of}
use catalyst_build_executor.Graph.Invariant.{IsGraph}
use catalyst_build_executor.Builder.{Builder, empty_builder}
use catalyst_build_executor.Parser.{parse_manifest}
use catalyst_build_executor.Parser.Lines.{parse_manifest-IsGraph}
use catalyst_build_executor.Topo.Order.{IsGraph-EdgesInRange}

-- The index of the step of a node, if there is one, is one into the steps.
abbrev pub IsStepId : List BuildStep → Option ℕ → Type 0
IsStepId steps none = Unit
IsStepId steps (some s) = s < length steps

-- All indices of a node are in range.
pub record IsInRange (g : BuildGraph) (node : Node) : Type 0 where
  pub edges : All (λ j. j < length g.nodes) node.out_edges
  pub step : IsStepId g.steps node.step_id

module _ {ℓ ℓ'} {A : Type ℓ} (P : A → Type ℓ') where
  All_of_mem : (xs : List A) → ((x : A) → Memᴰ x xs → P x) → All P xs
  All_of_mem [] h = tt
  All_of_mem (x ∷ xs) h = (h x (Memᴰ.head refl), All_of_mem xs (λ y m. h y (Memᴰ.tail m)))

  All_of_index : (xs : List A) → ((i : ℕ) (x : A) → get_elem? xs i ≡ some x → P x) → All P xs
  All_of_index [] h = tt
  All_of_index (x ∷ xs) h = (h zero x refl, All_of_index xs (λ i y e. h (suc i) y e))

module _ (g : BuildGraph) (v : IsGraph g) where
  step_of-in_range : (i : ℕ) (id : Option ℕ) → step_of g.nodes i ≡ id → IsStepId g.steps id
  step_of-in_range i none e = tt
  step_of-in_range i (some s) e = get_elem?-lt-length g.steps s ((v.made i s).0 e).at

  node-IsInRange : (i : ℕ) (node : Node) → get_elem? g.nodes i ≡ some node → IsInRange g node
  node-IsInRange i node e =
      let same : edges_of g.nodes i ≡ node.out_edges =
        ap (λ o. elim o [ none ↦ [] | some n ↦ n.out_edges ]) e in
      record {
        edges =
            All_of_mem (λ j. j < length g.nodes) node.out_edges
              (λ j m. IsGraph-EdgesInRange g v i j (subst (λ es. Memᴰ j es) (sym same) m));
        step =
            step_of-in_range i node.step_id
              (ap (λ o. elim o [ none ↦ none | some n ↦ n.step_id ]) e);
      }

-- Whatever the files hold, a manifest that parses leaves a graph in which each edge is the index of a
-- node and each producer the index of a step.
pub parse_manifest-IsInRange :
    (fs : FileSystem) (path : Bytes) (b : Builder)
    → parse_manifest fs path empty_builder ≡ ok b
    → All (IsInRange b.graph) b.graph.nodes
parse_manifest-IsInRange fs path b e =
    All_of_index (IsInRange b.graph) b.graph.nodes
      (node-IsInRange b.graph (parse_manifest-IsGraph fs path b e))
