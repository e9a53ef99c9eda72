-- ===== src/Tests/Scheduling.antt =====
-- The theorems on the pool of workers, on a graph of two nodes and one worker.
use mathlib.Core.List.Memᴰ
use catalyst_build_executor.Base.{
  true, ◌⊎◌, ℕ, zero, suc, ◌<◌, ◌≡◌, refl, Bytes, List, [], ◌∷◌, none, some, false, arith, length,
  codes, ◌↔◌,
}
use catalyst_build_executor.Domain.{ok, unexpected, build_failed, ◌>>=◌}
use catalyst_build_executor.Graph.{BuildGraph}
use catalyst_build_executor.Parser.{new_step}
use catalyst_build_executor.Topo.{topo_sort, visit_roots, dfs, visit_edges}
use catalyst_build_executor.Topo.Order.{EdgesInRange, topo_sort_iff}
use catalyst_build_executor.Scheduler.{
  System, Pool, exited, busy, Event, started, ended, Run, begin, next, take_task, finish, leave,
  count_in_degrees, initial_pool, push_ready, release_edge, complete_task, execute_result,
}
use catalyst_build_executor.Scheduler.Order.{IsOrdered, Run-IsOrdered}
use catalyst_build_executor.Scheduler.Progress.{CanStep, Run-progress}
use catalyst_build_executor.Scheduler.Invariant.{failed}
use catalyst_build_executor.Tests.Building.{paths, paths-IsClockOf}
use catalyst_build_executor.Rebuild.{needs_rebuild}
use catalyst_build_executor.Execute.{Counted, prepare, count_nodes, count_step, pooled}
use catalyst_build_executor.Execute.Count.{counts_of, prepared, prepare-due}
use catalyst_build_executor.Execute.Outcome.{Executes-result}
use catalyst_build_executor.Scheduler.Outcome.{AllSucceeded, Run-result, Run-acyclic}

abbrev two_nodes : BuildGraph
two_nodes = record {
  nodes =
      record { path = codes "a.c"; out_edges = 1 ∷ []; step_id = none }
      ∷ record { path = codes "a.o"; out_edges = []; step_id = some 0 }
      ∷ [];
  steps = new_step (codes "cc") (codes "a.c") (codes "a.o") ∷ [];
  index = (codes "a.c", 0) ∷ (codes "a.o", 1) ∷ [];
  resources = [];
}

abbrev size_estimate : Bytes → ℕ
size_estimate p = length p

abbrev first_pool : Pool
first_pool = record {
  in_degrees = 0 ∷ 1 ∷ [];
  ready_queue = [];
  completed_count = 0;
  error_occurred = false;
  active_workers = 1;
}

abbrev second_pool : Pool
second_pool = record {
  in_degrees = 0 ∷ 0 ∷ [];
  ready_queue = [];
  completed_count = 1;
  error_occurred = false;
  active_workers = 1;
}

abbrev last_pool : Pool
last_pool = record {
  in_degrees = 0 ∷ 0 ∷ [];
  ready_queue = [];
  completed_count = 2;
  error_occurred = false;
  active_workers = 0;
}

abbrev half_trace : List Event
half_trace = started 1 ∷ ended 0 0 ∷ started 0 ∷ []

abbrev full_trace : List Event
full_trace = ended 1 0 ∷ half_trace

abbrev half_system : System
half_system = record { pool = second_pool; workers = busy 1 ∷ [] }

abbrev full_system : System
full_system = record { pool = last_pool; workers = exited ∷ [] }

half-Run : Run size_estimate two_nodes false 1 half_trace half_system
unfolding initial_pool count_in_degrees push_ready release_edge complete_task
half-Run =
    next (next (next begin (take_task [] [] [] [] _ refl refl tt)) (finish [] [] _ 0 0 refl refl))
      (take_task [] [] [] [] _ refl refl tt)

full-Run : Run size_estimate two_nodes false 1 full_trace full_system
unfolding complete_task
full-Run = next (next half-Run (finish [] [] _ 1 0 refl refl)) (leave [] [] refl refl refl)

two_nodes-EdgesInRange : EdgesInRange two_nodes.nodes
two_nodes-EdgesInRange zero j m = rw (Memᴰ.eq_of_singleton m) (omega arith)
two_nodes-EdgesInRange (suc zero) j m = absurd (Memᴰ.not-nil m)
two_nodes-EdgesInRange (suc (suc i)) j m = absurd (Memᴰ.not-nil m)

Run-IsOrdered_example : IsOrdered two_nodes.nodes full_trace
Run-IsOrdered_example =
    Run-IsOrdered size_estimate two_nodes two_nodes-EdgesInRange false 0 1 full-Run

Run-progress_example : CanStep size_estimate two_nodes false half_system
Run-progress_example =
    Run-progress size_estimate two_nodes false 0 1 half_system two_nodes-EdgesInRange half-Run
      (omega arith)

Run-result_example :
    ((execute_result 2 last_pool ≡ ok tt) ↔ AllSucceeded two_nodes full_trace)
    × ((execute_result 2 last_pool ≡ unexpected build_failed) ↔ (0 < length (failed full_trace)))
Run-result_example =
    Run-result size_estimate two_nodes two_nodes-EdgesInRange false 0 1 full-Run (refl, refl, refl)

two_nodes-sorted : topo_sort two_nodes ≡ ok (0 ∷ 1 ∷ [])
unfolding topo_sort visit_roots dfs visit_edges
two_nodes-sorted = refl

Run-acyclic_example : AllSucceeded two_nodes full_trace × (execute_result 2 last_pool ≡ ok tt)
Run-acyclic_example =
    Run-acyclic size_estimate two_nodes two_nodes-EdgesInRange false 0 1
      ((topo_sort_iff two_nodes two_nodes-EdgesInRange).0 (0 ∷ 1 ∷ [], two_nodes-sorted)) full-Run
      (refl, refl, refl) refl

-- On a file system without files the one step is to be built.
abbrev counted : Counted
counted = record { steps_to_build = 1; final_output_name = codes "a.o"; cache = [] }

two_nodes-prepared :
    prepare paths (λ p. none) (λ p. false) (codes "m") [] false two_nodes ≡ ok counted
unfolding prepare count_nodes count_step needs_rebuild
two_nodes-prepared = refl

prepare-due_example :
    (prepare paths (λ p. none) (λ p. false) (codes "m") (codes "log") true two_nodes >>= counts_of)
    ≡ prepared paths (λ p. none) (λ p. false) (codes "m") (codes "log") true two_nodes
prepare-due_example =
    prepare-due paths (λ p. none) (λ p. false) (codes "m") (paths-IsClockOf (λ p. none))
      (codes "log") true two_nodes

Executes-result_example :
    ((execute_result 2 last_pool ≡ ok tt) ⊎ (execute_result 2 last_pool ≡ unexpected build_failed))
    × ((execute_result 2 last_pool ≡ ok tt) ↔ AllSucceeded two_nodes full_trace)
    × ((execute_result 2 last_pool ≡ unexpected build_failed) ↔ (0 < length (failed full_trace)))
Executes-result_example =
    Executes-result paths (λ p. none) (λ p. false) (codes "m") [] false size_estimate false 0 1
      two_nodes counted two_nodes-EdgesInRange
      ((topo_sort_iff two_nodes two_nodes-EdgesInRange).0 (0 ∷ 1 ∷ [], two_nodes-sorted))
      two_nodes-prepared
      (pooled counted two_nodes-prepared (omega arith) full-Run (refl, refl, refl))
