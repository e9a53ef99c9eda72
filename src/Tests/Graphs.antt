-- ===== src/Tests/Graphs.antt =====
-- The theorems on the graph and its order, on the sample.
use catalyst_build_executor.Base.{
  All, ℕ, ◌≡◌, refl, ◌↔◌, List, [], ◌++◌, none, codes, length, split_on,
}
use catalyst_build_executor.Domain.{BuildStep, Result, ok, unexpected, Error, duplicate_producer}
use catalyst_build_executor.Graph.{
  BuildGraph, empty_graph, add_step, get_or_create_node, parse_inputs,
}
use catalyst_build_executor.Graph.Ids.{Created, get_or_create_node-Created}
use catalyst_build_executor.Graph.Inputs.{parse_inputs_lem, push_names, opaque_fields, plain_fields}
use catalyst_build_executor.Graph.Insert.{Inserted, stored_step}
use catalyst_build_executor.Graph.Step.{add_step-Inserted}
use catalyst_build_executor.Graph.Invariant.{IsGraph, add_step-IsGraph, empty_graph-IsGraph}
use catalyst_build_executor.Graph.Duplicate.{HasProducer, add_step-duplicate}
use catalyst_build_executor.Parser.{new_step}
use catalyst_build_executor.Parser.Bounds.{IsInRange, parse_manifest-IsInRange}
use catalyst_build_executor.Parser.Lines.{parse_manifest-IsGraph}
use catalyst_build_executor.Topo.{topo_sort}
use catalyst_build_executor.Topo.Colours.{Walk}
use catalyst_build_executor.Topo.Order.{Sorts, topo_sort-Sorts, topo_sort_iff, IsGraph-EdgesInRange}
use catalyst_build_executor.Tests.Samples.{disk, built, program, parse-manifest}

parse_manifest-IsGraph_example : IsGraph built.graph
parse_manifest-IsGraph_example = parse_manifest-IsGraph disk (codes "m") built parse-manifest

abbrev compile : BuildStep
compile = new_step (codes "cc") (codes "a.c,!r.png") (codes "a.o")

abbrev added_graph : Result (ℕ × BuildGraph) → BuildGraph
added_graph (ok r) = r.1
added_graph _ = empty_graph

compiled : BuildGraph
unfolding program
compiled = added_graph (add_step disk compile empty_graph)

add_step-compile : add_step disk compile empty_graph ≡ ok (0, compiled)
unfolding compiled
add_step-compile = refl

add_step-IsGraph_example : IsGraph compiled
add_step-IsGraph_example =
    add_step-IsGraph disk compile empty_graph 0 compiled empty_graph-IsGraph refl add_step-compile

add_step-Inserted_example :
    (0 ≡ length empty_graph.steps)
    × ((out : ℕ) × Inserted (stored_step disk compile) out empty_graph compiled)
add_step-Inserted_example =
    add_step-Inserted disk compile empty_graph empty_graph-IsGraph.indexed 0 compiled refl
      add_step-compile

add_step-duplicate_example :
    ((e : Error)
      → add_step disk compile compiled ≡ unexpected e
      → e ≡ duplicate_producer compile.output)
    × ((add_step disk compile compiled ≡ unexpected (duplicate_producer compile.output))
        ↔ HasProducer compiled compile.output)
add_step-duplicate_example = add_step-duplicate disk compile compiled add_step-IsGraph_example

get_or_create_node-Created_example :
    Created
      (codes "x")
      compiled
      (get_or_create_node (codes "x") compiled).0
      (get_or_create_node (codes "x") compiled).1
get_or_create_node-Created_example =
    get_or_create_node-Created (codes "x") compiled add_step-IsGraph_example.indexed

parse_inputs_lem_example : parse_inputs compile ≡ record compile {
  opaque_inputs = push_names none (opaque_fields (split_on b',' compile.inputs));
  parsed_inputs = [] ++ plain_fields (split_on b',' compile.inputs);
}
parse_inputs_lem_example = parse_inputs_lem compile

topo_sort-Sorts_example : Sorts built.graph.nodes (topo_sort built.graph)
topo_sort-Sorts_example =
    topo_sort-Sorts built.graph (IsGraph-EdgesInRange built.graph parse_manifest-IsGraph_example)

topo_sort_iff_example :
    ((order : List ℕ) × (topo_sort built.graph ≡ ok order))
    ↔ ((i : ℕ) → ¬ Walk built.graph.nodes i i)
topo_sort_iff_example =
    topo_sort_iff built.graph (IsGraph-EdgesInRange built.graph parse_manifest-IsGraph_example)

parse_manifest-IsInRange_example : All (IsInRange built.graph) built.graph.nodes
parse_manifest-IsInRange_example = parse_manifest-IsInRange disk (codes "m") built parse-manifest
