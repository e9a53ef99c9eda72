-- ===== src/Binary/Reload.antt =====
-- The graph that comes back of a manifest's binary cache.

use mathlib.Core.List.{append_assoc, append-nil}
use catalyst_build_executor.Base.{
  ℕ, zero, suc, ◌+◌, ◌≡◌, refl, sym, ap, ◌∙◌, subst, inl, inr, Bytes, List, [], ◌∷◌, ◌++◌, Option,
  none, some, map, arith, if◌then◌else◌, Bool-cases, Option-cases, bytes_eq, bytes_eq_iff, lookup,
  emplace, lookup-emplace, eq_of_some,
}
use catalyst_build_executor.Domain.{BuildStep, Definitions}
use catalyst_build_executor.Graph.{Node, add_resource}
use catalyst_build_executor.Graph.Ids.{path_of, IsIndexed}
use catalyst_build_executor.Builder.{Builder, empty_builder, add_definition, builder_add_resource}
use catalyst_build_executor.Binary.Reader.{push_node, push_step}
use catalyst_build_executor.Binary.Writer.{emit_bin}
use catalyst_build_executor.Binary.Items.{reloaded_step, push_definitions, push_nodes, push_steps}
use catalyst_build_executor.Binary.RoundTrip.{reloaded}

-- No key stands twice.
abbrev pub IsMap : Definitions → Type 0
IsMap [] = Unit
IsMap ((k, v) ∷ ds) = (lookup k ds ≡ none) × IsMap ds

pub IsMap-emplace : (k v : Bytes) (ds : Definitions) → IsMap ds → IsMap (emplace k v ds)
unfolding lookup emplace
IsMap-emplace k v [] h = (refl, tt)
IsMap-emplace k v ((j, w) ∷ ds) h = elim (Bool-cases (bytes_eq j k)) [
  | inl same ↦ rw (same, emplace) h
  | inr differ ↦
      rw (differ, emplace)
        (
          ground (arith, lookup-emplace k j v ds, bytes_eq_iff k j, bytes_eq_iff j k, h.0),
          IsMap-emplace k v ds h.1,
        )
]

lookup-middle :
    (k v j : Bytes) (m ds : Definitions) → j ≡ k → lookup j (m ++ (k, v) ∷ ds) ≡ none → ⊥
unfolding lookup
lookup-middle k v j [] ds e h = ground (arith, bytes_eq_iff k j)
lookup-middle k v j ((i, w) ∷ m) ds e h =
    ground (arith, bytes_eq_iff i j, lookup-middle k v j m ds e)

emplace-new :
    (k v : Bytes) (m ds : Definitions) → IsMap (m ++ (k, v) ∷ ds) → emplace k v m ≡ m ++ (k, v) ∷ []
unfolding emplace lookup
emplace-new k v [] ds h = refl
emplace-new k v ((j, w) ∷ m) ds h = elim (Bool-cases (bytes_eq j k)) [
  | inl same ↦ absurd (lookup-middle k v j m ds ((bytes_eq_iff j k).0 same) h.0)
  | inr differ ↦ rw (differ, emplace) (ap (λ l. (j, w) ∷ l) (emplace-new k v m ds h.1))
]

push_definitions-map :
    (ds : Definitions) (b : Builder)
    → IsMap (b.definitions ++ ds)
    → push_definitions ds b ≡ record b { definitions = b.definitions ++ ds }
unfolding add_definition
push_definitions-map [] b h =
    ap (λ l. record b { definitions = l }) (sym (append-nil b.definitions))
push_definitions-map ((k, v) ∷ ds) b h =
    let e = emplace-new k v b.definitions ds h in
    ap (λ m. push_definitions ds (record b { definitions = m })) e
    ∙ push_definitions-map ds (record b { definitions = b.definitions ++ (k, v) ∷ [] })
        (subst IsMap (sym (append_assoc b.definitions ((k, v) ∷ []) ds)) h)
    ∙ ap (λ l. record b { definitions = l }) (append_assoc b.definitions ((k, v) ∷ []) ds)

abbrev emplace_all : ℕ → List Node → List (Bytes × ℕ) → List (Bytes × ℕ)
emplace_all i [] index = index
emplace_all i (n ∷ ns) index = emplace_all (suc i) ns (emplace n.path i index)

push_nodes-graph :
    (i : ℕ) (ns : List Node) (b : Builder)
    → push_nodes i ns b ≡ record b {
      graph = record b.graph {
        nodes = b.graph.nodes ++ ns;
        index = emplace_all i ns b.graph.index;
      };
    }
push_nodes-graph i [] b =
    ap (λ l. record b { graph = record b.graph { nodes = l } }) (sym (append-nil b.graph.nodes))
push_nodes-graph i (n ∷ ns) b =
    push_nodes-graph (suc i) ns (push_node i n b)
    ∙ ap
        (λ l. record b {
          graph = record b.graph {
            nodes = l;
            index = emplace_all (suc i) ns (emplace n.path i b.graph.index);
          };
        })
        (append_assoc b.graph.nodes (n ∷ []) ns)

push_steps-graph :
    (steps : List BuildStep) (b : Builder)
    → push_steps steps b ≡ record b { graph = record b.graph { steps = b.graph.steps ++ steps } }
push_steps-graph [] b =
    ap (λ l. record b { graph = record b.graph { steps = l } }) (sym (append-nil b.graph.steps))
push_steps-graph (x ∷ steps) b =
    push_steps-graph steps (push_step x b)
    ∙ ap (λ l. record b { graph = record b.graph { steps = l } })
        (append_assoc b.graph.steps (x ∷ []) steps)

-- The first node of a path, counted from `i`.
first_at : ℕ → Bytes → List Node → Option ℕ
first_at i q [] = none
first_at i q (n ∷ ns) = if bytes_eq n.path q then some i else first_at (suc i) q ns

abbrev or_else_some : Option ℕ → Option ℕ → Option ℕ
or_else_some none o = o
or_else_some (some x) o = some x

lookup-emplace_all :
    (i : ℕ) (ns : List Node) (index : List (Bytes × ℕ)) (q : Bytes)
    → lookup q (emplace_all i ns index) ≡ or_else_some (lookup q index) (first_at i q ns)
unfolding first_at
lookup-emplace_all i [] index q = ground arith
lookup-emplace_all i (n ∷ ns) index q =
    lookup-emplace_all (suc i) ns (emplace n.path i index) q
    ∙ ground (arith, lookup-emplace n.path q i index, bytes_eq_iff n.path q)

first_at-some :
    (i : ℕ) (q : Bytes) (ns : List Node) (k : ℕ)
    → first_at i q ns ≡ some k
    → (j : ℕ) × (k ≡ i + j) × (path_of ns j ≡ some q)
unfolding first_at
first_at-some i q [] k e = cc
first_at-some i q (n ∷ ns) k e = elim (Bool-cases (bytes_eq n.path q)) [
  | inl same ↦ (
    0,
    (let k_is_i : k ≡ i = sym (eq_of_some (rw same at e)) in omega arith),
    ap some ((bytes_eq_iff n.path q).0 same),
  )
  | inr differ ↦
      let (j, at_j, found) = first_at-some (suc i) q ns k (rw differ at e) in
      (suc j, omega arith, found)
]

first_at-none :
    (i : ℕ) (q : Bytes) (ns : List Node)
    → first_at i q ns ≡ none
    → (j : ℕ) → path_of ns j ≡ some q
    → ⊥
unfolding first_at
first_at-none i q [] e j found = cc
first_at-none i q (n ∷ ns) e zero found = ground (arith, bytes_eq_iff n.path q)
first_at-none i q (n ∷ ns) e (suc j) found = elim (Bool-cases (bytes_eq n.path q)) [
  | inl same ↦ cc (rw same at e)
  | inr differ ↦ first_at-none (suc i) q ns (rw differ at e) j found
]

first_at-lookup :
    (ns : List Node) (index : List (Bytes × ℕ)) (q : Bytes)
    → IsIndexed ns index
    → first_at 0 q ns ≡ lookup q index
first_at-lookup ns index q v = elim (Option-cases (first_at 0 q ns)) [
  | inl missing ↦ elim (Option-cases (lookup q index)) [
    | inl unknown ↦ missing ∙ sym unknown
    | inr (k, known) ↦ absurd (first_at-none 0 q ns missing k (v.sound q k known))
  ]
  | inr (k, found) ↦
      let (j, at_j, path) = first_at-some 0 q ns k found in
      found ∙ ap some (omega arith) ∙ sym (v.complete q j path)
]

-- What the reader makes of the file that was written for `b`, in an empty builder.
pub record Reloaded (b b' : Builder) : Type 0 where
  pub definitions : b'.definitions ≡ b.definitions
  pub nodes : b'.graph.nodes ≡ b.graph.nodes
  pub steps : b'.graph.steps ≡ map reloaded_step b.graph.steps
  pub index : (q : Bytes) → lookup q b'.graph.index ≡ lookup q b.graph.index
  pub resources : b'.graph.resources ≡ emit_bin b ∷ []

pub reloaded-Reloaded :
    (b : Builder)
    → IsMap b.definitions
    → IsIndexed b.graph.nodes b.graph.index
    → Reloaded b (builder_add_resource (emit_bin b) (reloaded b empty_builder))
unfolding builder_add_resource add_resource first_at lookup
reloaded-Reloaded b distinct indexed =
    let start = push_definitions-map b.definitions empty_builder distinct in
    let middle = push_nodes-graph 0 b.graph.nodes (push_definitions b.definitions empty_builder) in
    let last =
      push_steps-graph (map reloaded_step b.graph.steps)
        (push_nodes 0 b.graph.nodes (push_definitions b.definitions empty_builder)) in
    rw (last, middle, start)
      (record {
        definitions = refl;
        nodes = refl;
        steps = refl;
        index = λ q.
            lookup-emplace_all 0 b.graph.nodes [] q
            ∙ first_at-lookup b.graph.nodes b.graph.index q indexed;
        resources = refl;
      })
