-- ===== src/Scheduler/Outcome.antt =====
-- What `execute` returns when all workers have left.
use mathlib.Core.List.Memᴰ
use native.Mathlib.Decide.{ℕ_discrete}
use catalyst_build_executor.Base.{
  lt_or_ge, sum_of-le_where, ℕ, ◌≤◌, ◌<◌, ◌≡◌, refl, ap, subst, ◌↔◌, ◌⊎◌, inl, inr, Bool, Bytes,
  List, [], ◌∷◌, length, get_or, range_from, occ, mem_of_occ, occ-range_from, sum_of-le,
  length-sum_of, length-range_from, arith, ◌==◌, if◌then◌else◌, Bool-cases, Memᴰ, List-cases,
}
use catalyst_build_executor.Domain.{ok, unexpected, build_failed, build_stalled}
use catalyst_build_executor.Graph.{BuildGraph, Node}
use catalyst_build_executor.Graph.Ids.{edges_of}
use catalyst_build_executor.Topo.Colours.{Walk, IsTopological}
use catalyst_build_executor.Topo.Order.{EdgesInRange, Sorts, topo_sort-Sorts, topo_sort_iff}
use catalyst_build_executor.Scheduler.{
  thread_count, Task, Event, System, queued, Run, execute_result,
}
use catalyst_build_executor.Scheduler.Workers.{busy_nodes, runners, sleepers}
use catalyst_build_executor.Scheduler.Invariant.{succeeded, failed, Inv}
use catalyst_build_executor.Scheduler.Reached.{Run-Inv, thread_count-pos}
use catalyst_build_executor.Scheduler.Order.{launched-range, range-le-one, lt_of_edge}

occ_of_empty : (v : ℕ) (xs : List ℕ) → length xs ≡ 0 → occ v xs ≡ 0
occ_of_empty v [] e = refl
occ_of_empty v (x ∷ xs) e = absurd (omega arith)

queued_of_empty : (v : ℕ) (q : List Task) → length q ≡ 0 → occ v (queued q) ≡ 0
queued_of_empty v [] e = refl
queued_of_empty v (t ∷ q) e = absurd (omega arith)

edge_in_order :
    (nodes : List Node) (xs : List ℕ)
    → IsTopological nodes xs
    → (u : ℕ) → Memᴰ u xs
    → (j : ℕ) → Memᴰ j (edges_of nodes u)
    → Memᴰ j xs
edge_in_order nodes [] sorted u m j e = absurd (Memᴰ.not-nil m)
edge_in_order nodes (x ∷ xs) sorted u m j e = elim (Memᴰ.cases_cons m) [
  | inl is_x ↦ Memᴰ.tail (sorted.0 j (rw is_x at e))
  | inr later ↦ Memᴰ.tail (edge_in_order nodes xs sorted.2 u later j e)
]

-- No node of a topological order has an edge to the first one.
first_has_no_edge :
    (nodes : List Node) (x : ℕ) (xs : List ℕ)
    → IsTopological nodes (x ∷ xs)
    → (u : ℕ) → Memᴰ u (x ∷ xs)
    → ¬ Memᴰ x (edges_of nodes u)
first_has_no_edge nodes x xs sorted u m e = elim (Memᴰ.cases_cons m) [
  | inl is_x ↦ sorted.1 (sorted.0 x (rw is_x at e))
  | inr later ↦ sorted.1 (edge_in_order nodes xs sorted.2 u later x e)
]

-- All workers have left.
abbrev pub IsJoined : System → Type 0
IsJoined s =
    (runners s.workers ≡ 0) × (sleepers s.workers ≡ 0) × (length (busy_nodes s.workers) ≡ 0)

-- Each node of the graph has ended with code 0.
abbrev pub AllSucceeded : BuildGraph → List Event → Type 0
AllSucceeded g tr = (v : ℕ) → v < length g.nodes → occ v (succeeded tr) ≡ 1

module _ (g : BuildGraph) (tr : List Event) (s : System) (h : Inv g tr s) where
  succeeded-range : (v : ℕ) → occ v (succeeded tr) ≤ occ v (range_from 0 (length g.nodes))
  succeeded-range v = omega (arith, h.held v, launched-range g tr s h v)

  length-succeeded : length (succeeded tr) ≤ length g.nodes
  length-succeeded = omega (
    arith,
    sum_of-le (λ _. 1) (succeeded tr) (range_from 0 (length g.nodes)) succeeded-range,
    length-sum_of (succeeded tr),
    length-sum_of (range_from 0 (length g.nodes)),
    length-range_from 0 (length g.nodes),
  )

  AllSucceeded-length : AllSucceeded g tr → length (succeeded tr) ≡ length g.nodes
  AllSucceeded-length all = omega (
    arith,
    length-succeeded,
    sum_of-le (λ _. 1) (range_from 0 (length g.nodes)) (succeeded tr)
        (λ v. elim (lt_or_ge v (length g.nodes)) [
          | inl lt ↦ omega (arith, all v lt, range-le-one g tr s h v)
          | inr ge ↦ omega (arith, (occ-range_from v 0 (length g.nodes)).2)
        ]),
    length-sum_of (succeeded tr),
    length-sum_of (range_from 0 (length g.nodes)),
    length-range_from 0 (length g.nodes),
  )

  length-AllSucceeded : length (succeeded tr) ≡ length g.nodes → AllSucceeded g tr
  length-AllSucceeded e v lt = elim (ℕ_discrete (occ v (succeeded tr)) 0) [
    | no some_time ↦ omega (arith, succeeded-range v, range-le-one g tr s h v)
    | yes never ↦ absurd (
        omega (
          arith,
          sum_of-le (λ _. 1) (v ∷ succeeded tr) (range_from 0 (length g.nodes))
              (λ w. elim (ℕ_discrete v w) [
                | yes same ↦ ground (arith, (occ-range_from w 0 (length g.nodes)).0)
                | no differ ↦ ground (arith, succeeded-range w)
              ]),
          length-sum_of (succeeded tr),
          length-sum_of (range_from 0 (length g.nodes)),
          length-range_from 0 (length g.nodes),
        ))
  ]

  -- With a failure, some node has not ended well.
  AllSucceeded-failed : AllSucceeded g tr → length (failed tr) ≡ 0
  AllSucceeded-failed all = elim (List-cases (failed tr)) [
    | inl e ↦ ap length e
    | inr (u, rest, e) ↦
        let bad : 0 < occ u (failed tr) = ground (arith, ap (occ u) e) in
        let range = range-le-one g tr s h u in
        let most = launched-range g tr s h u in
        absurd (elim (lt_or_ge u (length g.nodes)) [
          | inl lt ↦ omega (arith, h.held u, all u lt)
          | inr ge ↦ omega (arith, h.held u, (h.ready u).outside ge)
        ])
  ]

  -- With no failure, the result depends on the count of the nodes that have ended.
  execute_result-quiet :
      length (failed tr) ≡ 0
      → execute_result (length g.nodes) s.pool
        ≡ (if length (succeeded tr) == length g.nodes then ok tt else unexpected build_stalled)
  unfolding execute_result
  execute_result-quiet e = elim (Bool-cases s.pool.error_occurred) [
    | inl err ↦ absurd (omega (arith, h.bad err))
    | inr fine ↦ rw (fine, (h.quiet fine).1) refl
  ]

  execute_result-bad :
      0 < length (failed tr) → execute_result (length g.nodes) s.pool ≡ unexpected build_failed
  unfolding execute_result
  execute_result-bad p = elim (Bool-cases s.pool.error_occurred) [
    | inl err ↦ rw err refl
    | inr fine ↦ absurd (omega (arith, h.quiet fine))
  ]

  -- Of a queue that is empty, in a pool without busy workers: a node whose degree is 0 has ended.
  module _ (no_busy : length (busy_nodes s.workers) ≡ 0) (no_task : length s.pool.ready_queue ≡ 0)
      (no_failure : length (failed tr) ≡ 0) where
    zero-succeeded :
        (v : ℕ) → v < length g.nodes → get_or s.pool.in_degrees v 0 ≡ 0 → occ v (succeeded tr) ≡ 1
    zero-succeeded v lt z = omega (
      arith,
      (h.ready v).due lt z,
      h.held v,
      occ_of_empty v (busy_nodes s.workers) no_busy,
      occ_of_empty v (failed tr) no_failure,
      queued_of_empty v s.pool.ready_queue no_task,
    )

    -- The first node of an order has degree 0, if all nodes outside the order have ended.
    zero-first :
        (x : ℕ) (xs : List ℕ)
        → IsTopological g.nodes (x ∷ xs)
        → x < length g.nodes
        → ((u : ℕ) → u < length g.nodes → Memᴰ u (x ∷ xs) ⊎ (occ u (succeeded tr) ≡ 1))
        → get_or s.pool.in_degrees x 0 ≡ 0
    zero-first x xs sorted lt before = omega (
      arith,
      (h.ready x).degree lt,
      sum_of-le_where (λ u. occ x (edges_of g.nodes u)) (range_from 0 (length g.nodes))
          (succeeded tr)
          (λ u p.
            let m = mem_of_occ x (edges_of g.nodes u) p in
            elim (before u (lt_of_edge g.nodes u x m)) [
              | inl listed ↦ absurd (first_has_no_edge g.nodes x xs sorted u listed m)
              | inr done ↦ omega (arith, range-le-one g tr s h u)
            ]),
    )

    -- The nodes of an order have ended if all the nodes before them have.
    order-succeeded :
        (order : List ℕ)
        → IsTopological g.nodes order
        → ((u : ℕ) → Memᴰ u order → u < length g.nodes)
        → ((u : ℕ) → u < length g.nodes → Memᴰ u order ⊎ (occ u (succeeded tr) ≡ 1))
        → (v : ℕ) → Memᴰ v order
        → occ v (succeeded tr) ≡ 1
    order-succeeded [] sorted bound before v m = absurd (Memᴰ.not-nil m)
    order-succeeded (x ∷ xs) sorted bound before v m =
        let z = zero-first x xs sorted (bound x (Memᴰ.head refl)) before in
        let done = zero-succeeded x (bound x (Memᴰ.head refl)) z in
        elim (Memᴰ.cases_cons m) [
          | inl is_x ↦ rw is_x done
          | inr later ↦
              order-succeeded xs sorted.2 (λ u m'. bound u (Memᴰ.tail m'))
                (λ u lt. elim (before u lt) [
                  | inr old ↦ inr old
                  | inl listed ↦ elim (Memᴰ.cases_cons listed) [
                    | inl is_x ↦ inr (rw is_x done)
                    | inr m' ↦ inl m'
                  ]
                ])
                v later
        ]

  Joined-result :
      IsJoined s
      → ((execute_result (length g.nodes) s.pool ≡ ok tt) ↔ AllSucceeded g tr)
        × ((execute_result (length g.nodes) s.pool ≡ unexpected build_failed)
            ↔ (0 < length (failed tr)))
  Joined-result joined = elim (lt_or_ge 0 (length (failed tr))) [
    | inl bad ↦ (
      (λ e. cc (e, execute_result-bad bad), λ all. absurd (omega (arith, AllSucceeded-failed all))),
      (λ e. bad, λ p. execute_result-bad bad),
    )
    | inr fine ↦
        let quiet = execute_result-quiet (omega arith) in
        (
          (
            λ e. length-AllSucceeded (ground (arith, quiet)),
            λ all. ground (arith, quiet, AllSucceeded-length all),
          ),
          (λ e. ground (arith, quiet), λ p. absurd (omega arith)),
        )
  ]

  Joined-acyclic :
      (order : List ℕ)
      → IsTopological g.nodes order
      → ((v : ℕ) → Memᴰ v order ↔ (v < length g.nodes))
      → IsJoined s
      → length (failed tr) ≡ 0
      → AllSucceeded g tr
  Joined-acyclic order sorted all joined fine v lt =
      order-succeeded joined.2
        (let empty : length s.pool.ready_queue ≡ 0 = elim (lt_or_ge 0 (length s.pool.ready_queue)) [
          | inl some_task ↦ absurd (omega (arith, h.served some_task, h.active, joined.0, joined.2))
          | inr none_left ↦ omega arith
        ] in
          empty)
        fine order sorted (λ u m. (all u).0 m) (λ u bound. inl ((all u).1 bound)) v ((all v).1 lt)

module _ (estimator : Bytes → ℕ) (g : BuildGraph) (in_range : EdgesInRange g.nodes)
    (keep_going : Bool) (jobs hardware : ℕ) where
  -- When all workers have left, the build succeeds exactly if each node has ended with code 0, and
  -- it reports a failed build exactly if some node has ended with another code. Every edge of
  -- the graph leads to a node.
  pub Run-result :
      {tr : List Event} {s : System}
      → Run estimator g keep_going (thread_count jobs hardware) tr s
      → IsJoined s
      → ((execute_result (length g.nodes) s.pool ≡ ok tt) ↔ AllSucceeded g tr)
        × ((execute_result (length g.nodes) s.pool ≡ unexpected build_failed)
            ↔ (0 < length (failed tr)))
  Run-result {tr = tr} {s = s} r joined =
      Joined-result g tr s
        (Run-Inv estimator g in_range keep_going (thread_count jobs hardware)
          (thread_count-pos jobs hardware) r)
        joined

  -- On a graph without a cycle no node is left behind: when all workers have left and no node
  -- has failed, each node has ended with code 0, and the build succeeds. Every edge of the graph
  -- leads to a node.
  pub Run-acyclic :
      {tr : List Event} {s : System}
      → ((i : ℕ) → ¬ Walk g.nodes i i)
      → Run estimator g keep_going (thread_count jobs hardware) tr s
      → IsJoined s
      → length (failed tr) ≡ 0
      → AllSucceeded g tr × (execute_result (length g.nodes) s.pool ≡ ok tt)
  Run-acyclic {tr = tr} {s = s} no_cycle r joined fine =
      let h =
        Run-Inv estimator g in_range keep_going (thread_count jobs hardware)
          (thread_count-pos jobs hardware) r in
      let (order, e) = (topo_sort_iff g in_range).1 no_cycle in
      let (sorted, all) = subst (Sorts g.nodes) e (topo_sort-Sorts g in_range) in
      let done = Joined-acyclic g tr s h order sorted all joined fine in
      (done, (Joined-result g tr s h joined).0.1 done)
