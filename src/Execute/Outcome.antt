-- ===== src/Execute/Outcome.antt =====
-- What `execute` (src/executor.cpp) returns.
use catalyst_build_executor.Base.{
  lt_or_ge, ℕ, ◌<◌, ◌≡◌, refl, ap, ◌↔◌, ◌⊎◌, inl, inr, Bool, Bytes, List, length, arith,
}
use catalyst_build_executor.Domain.{Result, ok, unexpected, build_failed}
use catalyst_build_executor.Graph.{BuildGraph}
use catalyst_build_executor.Rebuild.{PathOrder, Clock}
use catalyst_build_executor.Rebuild.Cached.{}
use catalyst_build_executor.Scheduler.{Event}
use catalyst_build_executor.Scheduler.Invariant.{failed}
use catalyst_build_executor.Scheduler.Outcome.{AllSucceeded, Run-result, Run-acyclic}
use catalyst_build_executor.Topo.Colours.{Walk}
use catalyst_build_executor.Topo.Order.{EdgesInRange}
use catalyst_build_executor.Execute.{
  Counted, prepare, Executes, stopped, raised, without_nodes, pooled,
}

-- On a graph without a cycle, whose edges all lead to nodes, once the preparation is done: every execution ends
-- with success or with a failed build. It is a success exactly if each node has ended with code 0, and
-- a failed build exactly if some node has ended with another code. So the build is never reported
-- to be stalled.
pub Executes-result :
    (order : PathOrder) (mtime : Clock) (exists : Bytes → Bool) (build_file build_log_file : Bytes)
    (can_log : Bool) (estimator : Bytes → ℕ) (keep_going : Bool) (jobs hardware : ℕ)
    (g : BuildGraph) (c : Counted) {tr : List Event} {r : Result (Unit {0})}
    → EdgesInRange g.nodes
    → ((i : ℕ) → ¬ Walk g.nodes i i)
    → prepare order mtime exists build_file build_log_file can_log g ≡ ok c
    → Executes order mtime exists build_file build_log_file can_log estimator keep_going jobs
        hardware g tr r
    → ((r ≡ ok tt) ⊎ (r ≡ unexpected build_failed))
      × ((r ≡ ok tt) ↔ AllSucceeded g tr)
      × ((r ≡ unexpected build_failed) ↔ (0 < length (failed tr)))
Executes-result order mtime exists build_file log can_log estimator keep_going jobs hardware g c
      in_range acyclic ready (stopped e stop) =
    cc
Executes-result order mtime exists build_file log can_log estimator keep_going jobs hardware g c
      in_range acyclic ready (raised e stop) =
    cc
Executes-result order mtime exists build_file log can_log estimator keep_going jobs hardware g c
      in_range acyclic ready (without_nodes c' same none_there) =
    (
      inl refl,
      (λ e w lt. absurd (omega (arith, ap length none_there)), λ all. refl),
      (λ e. cc, λ p. absurd (omega arith)),
    )
Executes-result order mtime exists build_file log can_log estimator keep_going jobs hardware g c
      in_range acyclic ready (pooled c' {tr = tr'} same some_node run joined) =
    let (success, failure) = Run-result estimator g in_range keep_going jobs hardware run joined in
    (
      elim (lt_or_ge 0 (length (failed tr'))) [
        | inl bad ↦ inr (failure.1 bad)
        | inr fine ↦
            inl
              (Run-acyclic estimator g in_range keep_going jobs hardware acyclic run joined
                (omega arith)).1
      ],
      success,
      failure,
    )
