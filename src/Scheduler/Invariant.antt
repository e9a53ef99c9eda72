-- ===== src/Scheduler/Invariant.antt =====
-- What holds of the pool in every state that the workers can reach.

use catalyst_build_executor.Base.{
  ℕ, zero, suc, ◌+◌, ◌≤◌, ◌<◌, ◌≡◌, true, false, List, [], ◌∷◌, ◌++◌, length, get_or, range_from,
  occ, arith,
}
use catalyst_build_executor.Graph.{BuildGraph}
use catalyst_build_executor.Scheduler.{Task, System, Event, started, ended, queued}
use catalyst_build_executor.Scheduler.Degrees.{preds}
use catalyst_build_executor.Scheduler.Workers.{busy_nodes, runners, sleepers}

-- The nodes that were taken, that ended well and that failed, in a list of events.
abbrev pub launched : List Event → List ℕ
launched [] = []
launched (started u ∷ tr) = u ∷ launched tr
launched (ended u code ∷ tr) = launched tr

abbrev pub succeeded : List Event → List ℕ
succeeded [] = []
succeeded (started u ∷ tr) = succeeded tr
succeeded (ended u zero ∷ tr) = u ∷ succeeded tr
succeeded (ended u (suc code) ∷ tr) = succeeded tr

abbrev pub failed : List Event → List ℕ
failed [] = []
failed (started u ∷ tr) = failed tr
failed (ended u zero ∷ tr) = failed tr
failed (ended u (suc code) ∷ tr) = u ∷ failed tr

-- The nodes and the vector: the degree of a node counts its edges from nodes that have not ended
-- well, and a node is taken or queued, once, exactly when its degree is 0.
pub record Ready (g : BuildGraph) (tr : List Event) (d : List ℕ) (q : List Task) (v : ℕ)
    : Type 0 where
  pub degree :
      v < length g.nodes
      → get_or d v 0 + preds g.nodes v (succeeded tr)
        ≡ preds g.nodes v (range_from 0 (length g.nodes))
  pub due : v < length g.nodes → get_or d v 0 ≡ 0 → occ v (launched tr) + occ v (queued q) ≡ 1
  pub not_due : 0 < get_or d v 0 → occ v (launched tr) + occ v (queued q) ≡ 0
  pub outside : length g.nodes ≤ v → occ v (launched tr) + occ v (queued q) ≡ 0

pub record Inv (g : BuildGraph) (tr : List Event) (s : System) : Type 0 where
  pub size : length s.pool.in_degrees ≡ length g.nodes
  pub ready : (v : ℕ) → Ready g tr s.pool.in_degrees s.pool.ready_queue v
  pub held :
      (v : ℕ)
      → occ v (launched tr)
        ≡ occ v (busy_nodes s.workers) + (occ v (succeeded tr) + occ v (failed tr))
  pub active : s.pool.active_workers ≡ length (busy_nodes s.workers)
  pub quiet :
      s.pool.error_occurred ≡ false
      → (length (failed tr) ≡ 0) × (s.pool.completed_count ≡ length (succeeded tr))
  pub bad : s.pool.error_occurred ≡ true → 0 < length (failed tr)
  pub awake : 0 < sleepers s.workers → 0 < s.pool.active_workers
  pub served : 0 < length s.pool.ready_queue → 0 < runners s.workers + s.pool.active_workers

pub queued-append :
    (v : ℕ) (l r : List Task) → occ v (queued (l ++ r)) ≡ occ v (queued l) + occ v (queued r)
queued-append v [] r = omega arith
queued-append v (t ∷ l) r = omega (arith, queued-append v l r)
