-- ===== src/Topo.antt =====
-- `BuildGraph::topo_sort` (src/graph.cpp, lines 203 to 234): depth-first search with three colours.
-- The recursion takes fuel. `Topo.Dfs` proves that one unit for each node is enough.
pub mod Colours
pub mod Dfs
pub mod Order
use mathlib.Core.List.{reverse}
use catalyst_build_executor.Base.{
  ℕ, zero, suc, Bytes, List, [], ◌∷◌, ◌++◌, Option, none, some, length, get_or, get_elem?, modify,
  replicate, range_from,
}
use catalyst_build_executor.Domain.{
  Result, ok, unexpected, thrown, ◌>>=◌, cycle_detected, out_of_fuel,
}
use catalyst_build_executor.Graph.{Node, BuildGraph}
use catalyst_build_executor.Graph.Ids.{edges_of, path_of}

pub data Status : Type 0 where
  unstarted working finished : Status

-- The variables that `dfs` captures.
pub record Search : Type 0 where
  pub status : List Status
  pub order : List ℕ

-- `status[v]`. Every edge leads to a node, so the value outside the vector is not read.
abbrev pub status_of : Search → ℕ → Status
status_of s v = get_or s.status v finished

abbrev pub mark : ℕ → Status → Search → Search
mark u c s = record s { status = modify s.status u (λ _. c) }

module _ (nodes : List Node) where
  -- `nodes_[v].path`
  abbrev pub node_path : ℕ → Bytes
  node_path v = elim (get_elem? nodes v) [ none ↦ [] | some n ↦ n.path ]

  -- The loop over the edges of a node; `recur` is the recursive call.
  unfoldable pub visit_edges : (ℕ → Search → Result Search) → List ℕ → Search → Result Search
  visit_edges recur [] s = ok s
  visit_edges recur (v ∷ vs) s = elim (status_of s v) [
    | unstarted ↦ recur v s >>= λ s'. visit_edges recur vs s'
    | working ↦ unexpected (cycle_detected (node_path v))
    | finished ↦ visit_edges recur vs s
  ]

  unfoldable pub dfs : ℕ → ℕ → Search → Result Search
  dfs zero u s = thrown out_of_fuel
  dfs (suc fuel) u s = visit_edges (dfs fuel) (edges_of nodes u) (mark u working s) >>= λ s'.
      let s'' = mark u finished s' in ok (record s'' { order = s''.order ++ u ∷ [] })

  -- The loop over all nodes.
  unfoldable pub visit_roots : (ℕ → Search → Result Search) → List ℕ → Search → Result Search
  visit_roots recur [] s = ok s
  visit_roots recur (i ∷ is) s = elim (status_of s i) [
    | unstarted ↦ recur i s >>= λ s'. visit_roots recur is s'
    | working ↦ visit_roots recur is s
    | finished ↦ visit_roots recur is s
  ]

  abbrev pub fresh_search : Search
  fresh_search = record { status = replicate (length nodes) unstarted; order = [] }

unfoldable pub topo_sort : BuildGraph → Result (List ℕ)
topo_sort g =
    visit_roots g.nodes (dfs g.nodes (length g.nodes)) (range_from 0 (length g.nodes))
      (fresh_search g.nodes)
    >>= λ s. ok (reverse s.order)
