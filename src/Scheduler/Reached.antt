-- ===== src/Scheduler/Reached.antt =====
-- The invariant of the pool holds in every state that the workers reach.
use native.Mathlib.Decide.{ℕ_discrete}
use catalyst_build_executor.Base.{
  ℕ, zero, suc, ◌+◌, ◌<◌, ◌≡◌, refl, ap, Bool, Bytes, List, [], ◌∷◌, foldl, length, get_or,
  replicate, range_from, occ, occ-range_from, arith, ◌==◌, if◌then◌else◌,
}
use catalyst_build_executor.Graph.{BuildGraph}
use catalyst_build_executor.Topo.Order.{EdgesInRange}
use catalyst_build_executor.Scheduler.{
  thread_count, Task, running, sleeping, System, Event, queued, push_ready, push_root, initial_pool,
  initial_system, Run, begin, next, spurious, count_in_degrees,
}
use catalyst_build_executor.Scheduler.Degrees.{get_or-count_in_degrees, length-count_in_degrees}
use catalyst_build_executor.Scheduler.Workers.{busy_nodes, runners, sleepers}
use catalyst_build_executor.Scheduler.Invariant.{Inv}
use catalyst_build_executor.Scheduler.Steps.{Inv-Step, Inv-swap}

module _ (estimator : Bytes → ℕ) (g : BuildGraph) (in_range : EdgesInRange g.nodes) where
  queued-push_roots :
      (d : List ℕ) (is : List ℕ) (q : List Task) (v : ℕ)
      → occ v (queued (foldl (push_root estimator g d) q is))
        ≡ (if get_or d v 0 == 0 then occ v is else 0) + occ v (queued q)
  unfolding push_ready
  queued-push_roots d [] q v = ground arith
  queued-push_roots d (i ∷ is) q v = elim (ℕ_discrete i v) [
    | yes same ↦ ground (arith, queued-push_roots d is (push_root estimator g d q i) v)
    | no differ ↦ ground (arith, queued-push_roots d is (push_root estimator g d q i) v)
  ]

  busy_nodes-replicate : (n : ℕ) → busy_nodes (replicate n running) ≡ []
  busy_nodes-replicate zero = refl
  busy_nodes-replicate (suc n) = busy_nodes-replicate n

  sleepers-replicate : (n : ℕ) → sleepers (replicate n running) ≡ 0
  sleepers-replicate zero = refl
  sleepers-replicate (suc n) = sleepers-replicate n

  runners-replicate : (n : ℕ) → runners (replicate n running) ≡ n
  runners-replicate zero = refl
  runners-replicate (suc n) = ap suc (runners-replicate n)

  Inv-initial : (threads : ℕ) → 0 < threads → Inv g [] (initial_system estimator g threads)
  unfolding initial_pool
  Inv-initial threads some_thread =
      let d = count_in_degrees g.nodes in
      let pushed = queued-push_roots d (range_from 0 (length g.nodes)) [] in
      record {
        size = length-count_in_degrees g.nodes;
        ready = λ v. record {
          degree = λ lt. omega (arith, get_or-count_in_degrees g.nodes v lt);
          due = λ lt z. ground (arith, pushed v, (occ-range_from v 0 (length g.nodes)).0);
          not_due = λ p. ground (arith, pushed v);
          outside = λ ge. ground (arith, pushed v, (occ-range_from v 0 (length g.nodes)).2);
        };
        held = λ v. omega (arith, ap (occ v) (busy_nodes-replicate threads));
        active = omega (arith, ap length (busy_nodes-replicate threads));
        quiet = λ c. omega arith;
        bad = λ c. cc;
        awake = λ c. omega (arith, sleepers-replicate threads);
        served = λ c. omega (arith, runners-replicate threads);
      }

  -- The invariant holds in every state that the workers reach.
  pub Run-Inv :
      (keep_going : Bool) (threads : ℕ)
      → 0 < threads
      → {tr : List Event} {s : System} → Run estimator g keep_going threads tr s
      → Inv g tr s
  Run-Inv keep_going threads some_thread begin = Inv-initial threads some_thread
  Run-Inv keep_going threads some_thread (next r st) =
      Inv-Step estimator g in_range keep_going st (Run-Inv keep_going threads some_thread r)
  Run-Inv keep_going threads some_thread {tr = tr} (spurious {s = s} xs ys r e) =
      Inv-swap estimator g in_range tr s xs ys sleeping running
        (Run-Inv keep_going threads some_thread r) e refl (λ a. absurd (omega arith))
        (λ a. omega arith)

pub thread_count-pos : (jobs hardware : ℕ) → 0 < thread_count jobs hardware
thread_count-pos (suc jobs) hardware = omega arith
thread_count-pos zero (suc hardware) = omega arith
thread_count-pos zero zero = omega arith
