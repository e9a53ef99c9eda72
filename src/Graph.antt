-- ===== src/Graph.antt =====
-- src/graph.cpp and include/cbe/graph.hpp: the dependency graph and the operations that build it.
pub mod Ids
pub mod Edges
pub mod Inputs
pub mod Insert
pub mod Step
pub mod Invariant
pub mod Duplicate
use catalyst_build_executor.Base.{
  ℕ, ◌+◌, Bool, true, false, ◌||◌, Bytes, List, [], ◌∷◌, ◌++◌, Option, none, some, codes, bytes_eq,
  starts_with, length, get_elem?, modify, drop, foldl, lookup, emplace, if◌then◌else◌,
}
use catalyst_build_executor.Domain.{
  BuildStep, FileSystem, Result, ok, unexpected, thrown, ◌>>=◌, duplicate_producer, is_compiler,
}
use catalyst_build_executor.Fields.{for_each_field}
use catalyst_build_executor.Depfile.{parse_depfile}

pub record Node : Type 0 where
  pub path : Bytes
  pub out_edges : List ℕ
  pub step_id : Option ℕ

-- `resources` holds the contents of the files that are kept mapped.
pub record BuildGraph : Type 0 where
  pub nodes : List Node
  pub steps : List BuildStep
  pub index : List (Bytes × ℕ)
  pub resources : List Bytes

abbrev pub empty_graph : BuildGraph
empty_graph = record { nodes = []; steps = []; index = []; resources = [] }

unfoldable pub get_or_create_node : Bytes → BuildGraph → ℕ × BuildGraph
get_or_create_node path g = elim (lookup path g.index) [
  | some id ↦ (id, g)
  | none ↦
      let id = length g.nodes in
      (
        id,
        record g {
          nodes = g.nodes ++ record { path = path; out_edges = []; step_id = none } ∷ [];
          index = emplace path id g.index;
        },
      )
]

unfoldable pub add_resource : BuildGraph → Bytes → BuildGraph
add_resource g res = record g { resources = g.resources ++ res ∷ [] }

-- `if (!o) o.emplace(); o->push_back(x);`
abbrev pub push_optional : Bytes → Option (List Bytes) → Option (List Bytes)
push_optional x none = some (x ∷ [])
push_optional x (some xs) = some (xs ++ x ∷ [])

-- What `add_step` does with a field that is not empty.
unfoldable pub add_input : BuildStep → Bytes → BuildStep
add_input step in_path =
    if starts_with in_path (codes "!")
    then record step { opaque_inputs = push_optional (drop 1 in_path) step.opaque_inputs }
    else record step { parsed_inputs = step.parsed_inputs ++ in_path ∷ [] }

unfoldable pub parse_inputs : BuildStep → BuildStep
parse_inputs step = for_each_field add_input step step.inputs

abbrev pub push_edge : ℕ → Node → Node
push_edge out_id n = record n { out_edges = n.out_edges ++ out_id ∷ [] }

-- `in_id = get_or_create_node(in_path); nodes_[in_id].out_edges.push_back(out_id);`
unfoldable pub add_edge : ℕ → BuildGraph → Bytes → BuildGraph
add_edge out_id g in_path =
    let (in_id, g') = get_or_create_node in_path g in
    record g' { nodes = modify g'.nodes in_id (push_edge out_id) }

-- `depfile_parse_callback`: `step` is the last step of the graph, at index `step_id`.
unfoldable pub depfile_callback : (out_id step_id : ℕ) → BuildGraph → Bytes → BuildGraph
depfile_callback out_id step_id g fn =
    let g' = add_edge out_id g fn in
    record g' {
      steps =
          modify g'.steps step_id
            (λ b. record b { depfile_inputs = push_optional fn b.depfile_inputs });
    }

abbrev pub has_step : BuildGraph → ℕ → Bool
has_step g id = elim (get_elem? g.nodes id) [
  | none ↦ false
  | some n ↦ elim n.step_id [ none ↦ false | some _ ↦ true ]
]

abbrev pub or_empty : Option (List Bytes) → List Bytes
or_empty none = []
or_empty (some xs) = xs

-- The part of `add_step` behind the check for a second producer.
unfoldable pub insert_step : FileSystem → ℕ → BuildStep → BuildGraph → Result (ℕ × BuildGraph)
insert_step fs out_id step g =
    let step_id = length g.steps in
    let stored = record g {
      steps = g.steps ++ step ∷ [];
      nodes = modify g.nodes out_id (λ n. record n { step_id = some step_id });
    } in
    (if is_compiler step.tool
      then parse_depfile (depfile_callback out_id step_id) fs add_resource
          (step.output ++ codes ".d") stored
      else ok stored)
    >>= λ g'. ok (
      step_id,
      foldl (add_edge out_id) (foldl (add_edge out_id) g' step.parsed_inputs)
          (or_empty step.opaque_inputs),
    )

-- `BuildGraph::add_step`. On an error the caller gives the graph up, so it is not returned.
unfoldable pub add_step : FileSystem → BuildStep → BuildGraph → Result (ℕ × BuildGraph)
add_step fs step g =
    let (out_id, g') = get_or_create_node step.output g in
    if has_step g' out_id
    then unexpected (duplicate_producer step.output)
    else insert_step fs out_id (parse_inputs step) g'
