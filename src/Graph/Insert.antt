-- ===== src/Graph/Insert.antt =====
-- What one call of `add_step` does to the graph.
use catalyst_build_executor.Base.{
  ℕ, ◌≡◌, refl, ap, ◌∙◌, ◌⊎◌, ◌↔◌, Bytes, List, [], ◌∷◌, ◌++◌, none, some, modify, lookup, arith,
  foldl, length, ◌==◌, if◌then◌else◌, Memᴰ, codes,
}
use catalyst_build_executor.Domain.{BuildStep, FileSystem, file, absent, unreadable, is_compiler}
use catalyst_build_executor.Depfile.Fold.{dep_names}
use catalyst_build_executor.Graph.{
  BuildGraph, get_or_create_node, push_optional, add_edge, depfile_callback, parse_inputs, or_empty,
}
use catalyst_build_executor.Graph.Inputs.{push_names}
use catalyst_build_executor.Graph.Ids.{edges_of, step_of, IsIndexed}
use catalyst_build_executor.Graph.Edges.{Extends, Extends-nil, Extends-append, add_edges-Extends}

-- All that a step depends on, in the order in which the edges are made.
abbrev pub prerequisites : BuildStep → List Bytes
prerequisites b = or_empty b.depfile_inputs ++ (b.parsed_inputs ++ or_empty b.opaque_inputs)

-- The names that the depfile of a step gives, if the step has one.
unfoldable pub depfile_names : FileSystem → BuildStep → List Bytes
depfile_names fs step =
    if is_compiler step.tool
    then elim (fs (step.output ++ codes ".d")) [
      | absent ↦ []
      | unreadable ↦ []
      | file content ↦ dep_names content
    ]
    else []

-- The step as it is stored.
unfoldable pub stored_step : FileSystem → BuildStep → BuildStep
stored_step fs step =
    let parsed = parse_inputs step in
    record parsed { depfile_inputs = push_names parsed.depfile_inputs (depfile_names fs parsed) }

-- `h` is `g` with a step for `out`, its edges, and the nodes that they need.
pub record Inserted (b : BuildStep) (out : ℕ) (g h : BuildGraph) : Type 0 where
  pub steps : h.steps ≡ g.steps ++ b ∷ []
  pub indexed : IsIndexed h.nodes h.index
  pub kept : (q : Bytes) (i : ℕ) → lookup q g.index ≡ some i → lookup q h.index ≡ some i
  pub added :
      (q : Bytes) (i : ℕ)
      → lookup q h.index ≡ some i
      → (lookup q g.index ≡ some i) ⊎ Memᴰ q (b.output ∷ prerequisites b)
  pub output : lookup b.output h.index ≡ some out
  pub fresh : step_of g.nodes out ≡ none
  pub found : (q : Bytes) → Memᴰ q (prerequisites b) → (i : ℕ) × (lookup q h.index ≡ some i)
  pub edges :
      (i j : ℕ)
      → Memᴰ j (edges_of h.nodes i) ↔ (
          Memᴰ j (edges_of g.nodes i)
          ⊎ (j ≡ out) × ((p : Bytes) × Memᴰ p (prerequisites b) × (lookup p h.index ≡ some i)))
  pub producers :
      (i : ℕ) → step_of h.nodes i ≡ (if i == out then some (length g.steps) else step_of g.nodes i)

add_edge-steps : (out : ℕ) (p : Bytes) (g : BuildGraph) → (add_edge out g p).steps ≡ g.steps
unfolding add_edge get_or_create_node
add_edge-steps out p g = ground arith

pub add_edges-steps :
    (out : ℕ) (ps : List Bytes) (g : BuildGraph) → (foldl (add_edge out) g ps).steps ≡ g.steps
add_edges-steps out [] g = refl
add_edges-steps out (p ∷ ps) g = add_edges-steps out ps (add_edge out g p) ∙ add_edge-steps out p g

abbrev pub push_depfile : Bytes → BuildStep → BuildStep
push_depfile fn b = record b { depfile_inputs = push_optional fn b.depfile_inputs }

modify-append_length :
    (xs : List BuildStep) (b : BuildStep) (f : BuildStep → BuildStep)
    → modify (xs ++ b ∷ []) (length xs) f ≡ xs ++ f b ∷ []
modify-append_length [] b f = refl
modify-append_length (x ∷ xs) b f = ap (λ l. x ∷ l) (modify-append_length xs b f)

-- The callbacks write into the last step, and nowhere else among the steps.
pub callbacks-steps :
    (out : ℕ) (xs : List BuildStep) (b : BuildStep) (names : List Bytes) (g : BuildGraph)
    → g.steps ≡ xs ++ b ∷ []
    → (foldl (depfile_callback out (length xs)) g names).steps
      ≡ xs ++ record b { depfile_inputs = push_names b.depfile_inputs names } ∷ []
unfolding depfile_callback
callbacks-steps out xs b [] g e = e
callbacks-steps out xs b (n ∷ names) g e =
    callbacks-steps out xs (push_depfile n b) names (depfile_callback out (length xs) g n) (
      ap (λ l. modify l (length xs) (push_depfile n)) (add_edge-steps out n g ∙ e)
      ∙ modify-append_length xs b (push_depfile n))

-- Steps and resources play no part in `Extends`.
pub Extends-with :
    {out : ℕ} {ps : List Bytes} {g h : BuildGraph} (st : List BuildStep) (rs : List Bytes)
    → Extends out ps g h
    → Extends out ps g (record h { steps = st; resources = rs })
Extends-with st rs x = record {
  indexed = x.indexed;
  kept = x.kept;
  added = x.added;
  found = x.found;
  edges = x.edges;
  producers = x.producers;
}

pub Extends-from :
    {out : ℕ} {ps : List Bytes} (g : BuildGraph) {h : BuildGraph} (st : List BuildStep)
    (rs : List Bytes)
    → Extends out ps (record g { steps = st; resources = rs }) h
    → Extends out ps g h
Extends-from g st rs x = record {
  indexed = x.indexed;
  kept = x.kept;
  added = x.added;
  found = x.found;
  edges = x.edges;
  producers = x.producers;
}

pub callbacks-Extends :
    (out id : ℕ) (names : List Bytes) (g : BuildGraph)
    → IsIndexed g.nodes g.index
    → Extends out names g (foldl (depfile_callback out id) g names)
unfolding depfile_callback
callbacks-Extends out id [] g h = Extends-nil out g h
callbacks-Extends out id (n ∷ names) g h =
    let one = add_edges-Extends out (n ∷ []) g h in
    let first = Extends-with (depfile_callback out id g n).steps (add_edge out g n).resources one in
    Extends-append first
      (callbacks-Extends out id names (depfile_callback out id g n) first.indexed)
