-- ===== src/Scheduler/Order.antt =====
-- The order in which the pool processes the nodes.
use mathlib.Core.List.Memᴰ
use native.Mathlib.Decide.{ℕ_discrete}
use catalyst_build_executor.Base.{
  lt_or_ge, ℕ, zero, suc, ◌+◌, ◌≤◌, ◌<◌, ◌≡◌, ap, inl, inr, Bool, Bytes, List, [], ◌∷◌, ◌++◌,
  length, get_or, range_from, occ, occ_of_mem, occ-range_from, sum_of-le, arith, Memᴰ,
}
use catalyst_build_executor.Graph.{BuildGraph, Node}
use catalyst_build_executor.Graph.Ids.{edges_of}
use catalyst_build_executor.Topo.Order.{EdgesInRange}
use catalyst_build_executor.Scheduler.{
  thread_count, Event, started, ended, System, queued, Step, take_task, leave, sleep, finish, Run,
  begin, next, spurious, busy, running,
}
use catalyst_build_executor.Scheduler.Workers.{busy_nodes, occ-swap}
use catalyst_build_executor.Scheduler.Invariant.{launched, succeeded, failed, Inv, queued-append}
use catalyst_build_executor.Scheduler.Reached.{Run-Inv, thread_count-pos}

-- A node is taken once, when all nodes with an edge to it have ended well; and what ends was
-- taken and had not ended. The last event stands first.
abbrev pub IsOrdered : List Node → List Event → Type 0
IsOrdered nodes [] = Unit
IsOrdered nodes (started v ∷ tr) =
    (occ v (launched tr) ≡ 0)
    × ((u : ℕ) → Memᴰ v (edges_of nodes u) → occ u (succeeded tr) ≡ 1)
    × IsOrdered nodes tr
IsOrdered nodes (ended u code ∷ tr) =
    (occ u (launched tr) ≡ 1) × (occ u (succeeded tr) + occ u (failed tr) ≡ 0) × IsOrdered nodes tr

pub lt_of_edge : (nodes : List Node) (u v : ℕ) → Memᴰ v (edges_of nodes u) → u < length nodes
lt_of_edge [] u v m = absurd (Memᴰ.not-nil m)
lt_of_edge (n ∷ ns) zero v m = omega arith
lt_of_edge (n ∷ ns) (suc u) v m = omega (arith, lt_of_edge ns u v m)

module _ (g : BuildGraph) (tr : List Event) (s : System) (h : Inv g tr s) where
  -- A node is taken at most once, and only nodes of the graph are.
  pub launched-range : (v : ℕ) → occ v (launched tr) ≤ occ v (range_from 0 (length g.nodes))
  launched-range v =
      let r = h.ready v in
      let (inside, below, above) = occ-range_from v 0 (length g.nodes) in
      elim (lt_or_ge v (length g.nodes)) [
        | inl lt ↦ elim (ℕ_discrete (get_or s.pool.in_degrees v 0) 0) [
          | yes z ↦ omega (arith, inside, r.due)
          | no p ↦ omega (arith, r.not_due)
        ]
        | inr ge ↦ omega (arith, r.outside)
      ]

  pub range-le-one : (v : ℕ) → occ v (range_from 0 (length g.nodes)) ≤ 1
  range-le-one v =
      let (inside, below, above) = occ-range_from v 0 (length g.nodes) in
      elim (lt_or_ge v (length g.nodes)) [
        | inl lt ↦ omega (arith, inside)
        | inr ge ↦ omega (arith, above)
      ]

  -- The prerequisites of a node whose degree is 0 have all ended well.
  pub prerequisites_done :
      (v u : ℕ)
      → v < length g.nodes
      → get_or s.pool.in_degrees v 0 ≡ 0
      → Memᴰ v (edges_of g.nodes u)
      → occ u (succeeded tr) ≡ 1
  prerequisites_done v u lt z m = elim (ℕ_discrete (occ u (succeeded tr)) 0) [
    | no p ↦ omega (arith, h.held u, launched-range u, range-le-one u)
    | yes out ↦ absurd (
        omega (
          arith,
          (h.ready v).degree lt,
          occ_of_mem v (edges_of g.nodes u) m,
          sum_of-le (λ w. occ v (edges_of g.nodes w)) (u ∷ succeeded tr)
              (range_from 0 (length g.nodes))
              (λ w. elim (ℕ_discrete u w) [
                | yes e ↦
                    ground
                      (arith, (occ-range_from w 0 (length g.nodes)).0, lt_of_edge g.nodes u v m)
                | no d ↦ ground (arith, h.held w, launched-range w)
              ]),
        ))
  ]

  -- A queued node was not taken, and its degree is 0.
  pub queued-due :
      (v : ℕ)
      → 0 < occ v (queued s.pool.ready_queue)
      → (occ v (launched tr) ≡ 0) × (v < length g.nodes) × (get_or s.pool.in_degrees v 0 ≡ 0)
  queued-due v is_queued =
      let r = h.ready v in
      let lt : v < length g.nodes = elim (lt_or_ge v (length g.nodes)) [
        | inl less ↦ less
        | inr ge ↦ absurd (omega (arith, r.outside ge))
      ] in
      let z : get_or s.pool.in_degrees v 0 ≡ 0 =
        elim (ℕ_discrete (get_or s.pool.in_degrees v 0) 0) [
          | yes zero_now ↦ zero_now
          | no p ↦ absurd (omega (arith, r.not_due (omega arith)))
        ] in
      (omega (arith, r.due lt z), lt, z)

module _ (estimator : Bytes → ℕ) (g : BuildGraph) (in_range : EdgesInRange g.nodes)
    (keep_going : Bool) where
  Step-IsOrdered :
      {tr es : List Event} {s s' : System}
      → Step estimator g keep_going s es s'
      → Inv g tr s
      → IsOrdered g.nodes tr
      → IsOrdered g.nodes (es ++ tr)
  Step-IsOrdered {tr = tr} {s = s} (take_task xs ys l r t e q top) h o =
      let (fresh, lt, z) = queued-due g tr s h t.node_idx (
        ground
          (arith, ap (λ q. occ t.node_idx (queued q)) q, queued-append t.node_idx l (t ∷ r))) in
      (fresh, λ u m. prerequisites_done g tr s h t.node_idx u lt z m, o)
  Step-IsOrdered (leave xs ys e over empty) h o = o
  Step-IsOrdered (sleep xs ys e over) h o = o
  Step-IsOrdered {tr = tr} {s = s} (finish xs ys ws' u code e n) h o =
      let b : 0 < occ u (busy_nodes s.workers) =
        ground (arith, ap (λ ws. occ u (busy_nodes ws)) e, occ-swap xs ys (busy u) running u) in
      let one = launched-range g tr s h u in
      let most = range-le-one g tr s h u in (omega (arith, h.held u), omega (arith, h.held u), o)

  -- In every run of the pool, with any number of workers at any interleaving and with any exit
  -- codes, a node is taken at most once, and only after each node with an edge to it has ended with
  -- code 0; and each end belongs to a node that was taken and had not ended. Every edge of the
  -- graph leads to a node.
  pub Run-IsOrdered :
      (jobs hardware : ℕ) {tr : List Event} {s : System}
      → Run estimator g keep_going (thread_count jobs hardware) tr s
      → IsOrdered g.nodes tr
  Run-IsOrdered jobs hardware begin = tt
  Run-IsOrdered jobs hardware (next r st) =
      Step-IsOrdered st
        (Run-Inv estimator g in_range keep_going (thread_count jobs hardware)
          (thread_count-pos jobs hardware) r)
        (Run-IsOrdered jobs hardware r)
  Run-IsOrdered jobs hardware (spurious xs ys r e) = Run-IsOrdered jobs hardware r
