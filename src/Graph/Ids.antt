-- ===== src/Graph/Ids.antt =====
-- Nodes and their index: a path has one node, and the index finds it.
use catalyst_build_executor.Base.{
  ℕ, ◌≡◌, refl, ◌⊎◌, inl, inr, Bytes, List, [], ◌∷◌, ◌++◌, Option, none, some, length, get_elem?,
  lookup, emplace, lookup-emplace, get_elem?-concat, get_elem?-length, ◌==◌, if◌then◌else◌,
  bytes_eq, bytes_eq_iff, bytes_eq_refl, arith, Option-cases,
}
use catalyst_build_executor.Graph.{Node, BuildGraph, get_or_create_node, BuildStep}

-- The path, the edges and the producing step of a node; outside the nodes there is none.
abbrev pub path_of : List Node → ℕ → Option Bytes
path_of ns i = elim (get_elem? ns i) [ none ↦ none | some n ↦ some n.path ]

abbrev pub edges_of : List Node → ℕ → List ℕ
edges_of ns i = elim (get_elem? ns i) [ none ↦ [] | some n ↦ n.out_edges ]

abbrev pub step_of : List Node → ℕ → Option ℕ
step_of ns i = elim (get_elem? ns i) [ none ↦ none | some n ↦ n.step_id ]

-- The step that makes the file of a node.
abbrev pub step_at : BuildGraph → ℕ → Option BuildStep
step_at g node_idx = elim (step_of g.nodes node_idx) [
  | none ↦ none
  | some id ↦ get_elem? g.steps id
]

-- The index and the nodes are inverse to one another.
pub record IsIndexed (ns : List Node) (index : List (Bytes × ℕ)) : Type 0 where
  pub sound : (p : Bytes) (i : ℕ) → lookup p index ≡ some i → path_of ns i ≡ some p
  pub complete : (p : Bytes) (i : ℕ) → path_of ns i ≡ some p → lookup p index ≡ some i

abbrev new_node : Bytes → Node
new_node path = record { path = path; out_edges = []; step_id = none }

module _ (ns : List Node) (path : Bytes) (i : ℕ) where
  path_of-concat :
      path_of (ns ++ new_node path ∷ []) i ≡ (if i == length ns then some path else path_of ns i)
  path_of-concat = ground (arith, get_elem?-concat ns (new_node path) i)

  edges_of-concat : edges_of (ns ++ new_node path ∷ []) i ≡ edges_of ns i
  edges_of-concat = ground (arith, get_elem?-concat ns (new_node path) i, get_elem?-length ns)

  step_of-concat : step_of (ns ++ new_node path ∷ []) i ≡ step_of ns i
  step_of-concat = ground (arith, get_elem?-concat ns (new_node path) i, get_elem?-length ns)

path_of-length : (ns : List Node) → path_of ns (length ns) ≡ none
path_of-length ns = ground (arith, get_elem?-length ns)

-- What `get_or_create_node` promises: `id` is the node of `path`, and nothing else changed but
-- the node and its entry of the index, where there were none.
pub record Created (path : Bytes) (g : BuildGraph) (id : ℕ) (g' : BuildGraph) : Type 0 where
  pub indexed : IsIndexed g'.nodes g'.index
  pub found : lookup path g'.index ≡ some id
  pub kept : (q : Bytes) (i : ℕ) → lookup q g.index ≡ some i → lookup q g'.index ≡ some i
  pub added :
      (q : Bytes) (i : ℕ) → lookup q g'.index ≡ some i → (lookup q g.index ≡ some i) ⊎ (q ≡ path)
  pub edges : (i : ℕ) → edges_of g'.nodes i ≡ edges_of g.nodes i
  pub producers : (i : ℕ) → step_of g'.nodes i ≡ step_of g.nodes i
  pub steps : g'.steps ≡ g.steps
  pub resources : g'.resources ≡ g.resources

module _ (path : Bytes) (g : BuildGraph) (h : IsIndexed g.nodes g.index)
    (new : lookup path g.index ≡ none) where
  open g use {nodes, index}

  lookup-new :
      (q : Bytes)
      → lookup q (emplace path (length nodes) index)
        ≡ (if bytes_eq path q then some (length nodes) else lookup q index)
  lookup-new q = ground (arith, lookup-emplace path q (length nodes) index)

  IsIndexed-new : IsIndexed (nodes ++ new_node path ∷ []) (emplace path (length nodes) index)
  IsIndexed-new = record {
    sound = λ q i e. ground (
      arith,
      lookup-new q,
      bytes_eq_iff path q,
      path_of-concat nodes path i,
      path_of-length nodes,
      h.sound q i,
    );
    complete = λ q i e.
        ground
          (arith, lookup-new q, bytes_eq_iff path q, path_of-concat nodes path i, h.complete q i);
  }

  Created-new :
      Created path g (length nodes) (record g {
        nodes = nodes ++ new_node path ∷ [];
        index = emplace path (length nodes) index;
      })
  Created-new = record {
    indexed = IsIndexed-new;
    found = rw (lookup-new path) (rw (bytes_eq_refl path));
    kept = λ q i e. ground (arith, lookup-new q, bytes_eq_iff path q);
    added = λ q i e. ground (arith, lookup-new q, bytes_eq_iff path q);
    edges = edges_of-concat nodes path;
    producers = step_of-concat nodes path;
    steps = refl;
    resources = refl;
  }

-- Looking a path up or creating it returns its node. The nodes and the index still agree, each
-- path that had an identifier keeps it, and only the asked path gains one; no edge and no
-- producer changes.
pub get_or_create_node-Created :
    (path : Bytes) (g : BuildGraph)
    → IsIndexed g.nodes g.index
    → Created path g (get_or_create_node path g).0 (get_or_create_node path g).1
unfolding get_or_create_node
get_or_create_node-Created path g h = elim (Option-cases (lookup path g.index)) [
  | inl new ↦ rw (new, get_or_create_node) (Created-new path g h new)
  | inr (id, old) ↦
      rw (old, get_or_create_node)
        (record {
          indexed = h;
          found = old;
          kept = λ q i e. e;
          added = λ q i e. inl e;
          edges = λ i. refl;
          producers = λ i. refl;
          steps = refl;
          resources = refl;
        })
]
