-- ===== src/Scheduler.antt =====
-- `Executor::execute` (src/executor.cpp): the thread pool that runs the steps. The workers share a
-- mutex, so what a worker does between locking and unlocking is one step. What it does outside,
-- `process_step`, has a step for its end only: its exit code is the environment's choice.
-- `wait` on the condition variable is a state of its own, `sleeping`.
pub mod Degrees
pub mod Neighbours
pub mod Workers
pub mod Invariant
pub mod Steps
pub mod Reached
pub mod Order
pub mod Progress
pub mod Outcome
use catalyst_build_executor.Base.{
  ℕ, zero, suc, ◌+◌, ◌-◌, Bool, true, false, ◌||◌, ◌&&◌, not, ◌≡◌, ◌≤◌, Bytes, List, [], ◌∷◌, ◌++◌,
  none, some, map, foldl, length, get_or, get_elem?, modify, replicate, range_from, All, ◌==◌, leb,
  if◌then◌else◌,
}
use catalyst_build_executor.Domain.{Result, ok, unexpected, build_failed, build_stalled}
use catalyst_build_executor.Graph.{Node, BuildGraph}
use catalyst_build_executor.Graph.Ids.{edges_of, step_of}

pub record Task : Type 0 where
  pub node_idx : ℕ
  pub estimate : ℕ

-- The variables that the mutex guards. The priority queue is a list in no order.
pub record Pool : Type 0 where
  pub in_degrees : List ℕ
  pub ready_queue : List Task
  pub completed_count : ℕ
  pub error_occurred : Bool
  pub active_workers : ℕ

-- `running` stands before the wait and outside it: the worker will lock the mutex. `busy` has
-- a node to process.
pub data Worker : Type 0 where
  running sleeping exited : Worker
  busy : (node_idx : ℕ) → Worker

pub record System : Type 0 where
  pub pool : Pool
  pub workers : List Worker

-- What can be seen from outside: a node is taken, and its processing ends with a code.
pub data Event : Type 0 where
  started : (node_idx : ℕ) → Event
  ended : (node_idx code : ℕ) → Event

abbrev pub count_edge : List ℕ → ℕ → List ℕ
count_edge in_degrees out = modify in_degrees out suc

abbrev pub count_node : List ℕ → Node → List ℕ
count_node in_degrees node = foldl count_edge in_degrees node.out_edges

-- The loops that fill `in_degrees`.
unfoldable pub count_in_degrees : List Node → List ℕ
count_in_degrees nodes = foldl count_node (replicate (length nodes) 0) nodes

abbrev pub queued : List Task → List ℕ
queued q = map (λ t. t.node_idx) q

-- The condition under which `wait` returns.
abbrev pub wait_over : (total_nodes : ℕ) → Pool → Bool
wait_over total_nodes p =
    not (leb (length p.ready_queue) 0)
    || (p.completed_count == total_nodes || p.active_workers == 0)

-- `top()` of the priority queue: no other task has a larger estimate.
abbrev pub IsTop : Task → List Task → Type 0
IsTop t others = All (λ other. other.estimate ≤ t.estimate) others

abbrev pub wake : Worker → Worker
wake sleeping = running
wake running = running
wake exited = exited
wake (busy u) = busy u

-- `notify_one`: some sleeping worker wakes, if there is one.
pub data NotifyOne (ws : List Worker) : List Worker → Type 0 where
  woken : (xs ys : List Worker) → ws ≡ xs ++ sleeping ∷ ys → NotifyOne ws (xs ++ running ∷ ys)
  nobody : map wake ws ≡ ws → NotifyOne ws ws

abbrev pub NotifyMany : ℕ → List Worker → List Worker → Type 0
NotifyMany zero ws ws' = ws ≡ ws'
NotifyMany (suc k) ws ws' = (mid : List Worker) × NotifyOne ws mid × NotifyMany k mid ws'

-- Whether `notify_all` is called when a task has ended; if not, `notify_one` is, once for each task
-- that became ready.
abbrev pub notifies_all : (total_nodes new_work_count : ℕ) → Pool → Bool
notifies_all total_nodes new_work_count p =
    (p.completed_count == total_nodes || (p.error_occurred || p.active_workers == 0))
    || (not (new_work_count == 1) && leb 10 new_work_count)

abbrev pub Notified : (total_nodes new_work_count : ℕ) → Pool → List Worker → List Worker → Type 0
Notified total_nodes new_work_count p ws ws' =
    if notifies_all total_nodes new_work_count p
    then map wake ws ≡ ws'
    else NotifyMany new_work_count ws ws'

-- The loop over the neighbours of a node that is done.
pub record Release : Type 0 where
  pub in_degrees : List ℕ
  pub ready_queue : List Task
  pub new_work_count : ℕ

module _ (estimator : Bytes → ℕ) (g : BuildGraph) where
  -- `push_ready`; the nodes without a step are leaves of the graph, with estimate 0.
  abbrev pub estimate_of : ℕ → ℕ
  estimate_of idx = elim (step_of g.nodes idx) [
    | none ↦ 0
    | some id ↦ elim (get_elem? g.steps id) [ none ↦ 0 | some step ↦ estimator step.output ]
  ]

  unfoldable pub push_ready : ℕ → List Task → List Task
  push_ready idx q = record { node_idx = idx; estimate = estimate_of idx } ∷ q

  -- The loop that pushes the nodes without prerequisites.
  abbrev pub push_root : List ℕ → List Task → ℕ → List Task
  push_root in_degrees q i = if get_or in_degrees i 0 == 0 then push_ready i q else q

  unfoldable pub initial_pool : Pool
  initial_pool =
      let in_degrees = count_in_degrees g.nodes in
      record {
        in_degrees = in_degrees;
        ready_queue = foldl (push_root in_degrees) [] (range_from 0 (length g.nodes));
        completed_count = 0;
        error_occurred = false;
        active_workers = 0;
      }

  abbrev pub initial_system : (thread_count : ℕ) → System
  initial_system thread_count = record {
    pool = initial_pool;
    workers = replicate thread_count running;
  }

  -- `in_degrees[neighbor]--`, and a push at 0. The test is made on the old value, which stays
  -- right for the value 0, where the source's int becomes -1.
  unfoldable pub release_edge : Release → ℕ → Release
  release_edge r neighbor =
      let in_degrees' = modify r.in_degrees neighbor (λ d. d - 1) in
      if get_or r.in_degrees neighbor 0 == 1
      then record {
        in_degrees = in_degrees';
        ready_queue = push_ready neighbor r.ready_queue;
        new_work_count = suc r.new_work_count;
      }
      else record r { in_degrees = in_degrees' }

  abbrev pub release : ℕ → Pool → Release
  release u p =
      foldl release_edge
        (record { in_degrees = p.in_degrees; ready_queue = p.ready_queue; new_work_count = 0 })
        (edges_of g.nodes u)

  -- The second locked block of the worker: the pool after it, and `new_work_count`.
  unfoldable pub complete_task : (keep_going : Bool) → (u code : ℕ) → Pool → Pool × ℕ
  complete_task keep_going u zero p =
      let r = release u p in
      (
        record {
          in_degrees = r.in_degrees;
          ready_queue = r.ready_queue;
          completed_count = p.completed_count + 1;
          error_occurred = p.error_occurred;
          active_workers = p.active_workers - 1;
        },
        r.new_work_count,
      )
  complete_task keep_going u (suc code) p = (
    record p {
      completed_count = if keep_going then p.completed_count + 1 else length g.nodes;
      error_occurred = true;
      active_workers = p.active_workers - 1;
    },
    0,
  )

  module _ (keep_going : Bool) where
    pub data Step (s : System) : List Event → System → Type 0 where
      take_task :
          (xs ys : List Worker) (before behind : List Task) (t : Task)
          → s.workers ≡ xs ++ running ∷ ys
          → s.pool.ready_queue ≡ before ++ t ∷ behind
          → IsTop t (before ++ behind)
          → Step s (started t.node_idx ∷ []) (record {
            pool = record s.pool {
              ready_queue = before ++ behind;
              active_workers = s.pool.active_workers + 1;
            };
            workers = xs ++ busy t.node_idx ∷ ys;
          })
      leave :
          (xs ys : List Worker)
          → s.workers ≡ xs ++ running ∷ ys
          → wait_over (length g.nodes) s.pool ≡ true
          → s.pool.ready_queue ≡ []
          → Step s [] (record s { workers = xs ++ exited ∷ ys })
      sleep :
          (xs ys : List Worker)
          → s.workers ≡ xs ++ running ∷ ys
          → wait_over (length g.nodes) s.pool ≡ false
          → Step s [] (record s { workers = xs ++ sleeping ∷ ys })
      finish :
          (xs ys ws' : List Worker) (u code : ℕ)
          → s.workers ≡ xs ++ busy u ∷ ys
          → Notified
              (length g.nodes)
              (complete_task keep_going u code s.pool).1
              (complete_task keep_going u code s.pool).0
              (xs ++ running ∷ ys)
              ws'
          → Step s
              (ended u code ∷ [])
              (record { pool = (complete_task keep_going u code s.pool).0; workers = ws' })

    -- The reachable states, each with the events up to it, the last one first. A sleeping worker may
    -- wake without a notification.
    pub data Run (thread_count : ℕ) : List Event → System → Type 0 where
      begin : Run thread_count [] (initial_system thread_count)
      next :
          {tr es : List Event} {s s' : System}
          → Run thread_count tr s
          → Step s es s'
          → Run thread_count (es ++ tr) s'
      spurious :
          {tr : List Event} {s : System} (xs ys : List Worker)
          → Run thread_count tr s
          → s.workers ≡ xs ++ sleeping ∷ ys
          → Run thread_count tr (record s { workers = xs ++ running ∷ ys })

-- What `execute` returns when all workers are joined.
unfoldable pub execute_result : (total_nodes : ℕ) → Pool → Result (Unit {0})
execute_result total_nodes p =
    if p.error_occurred
    then unexpected build_failed
    else if p.completed_count == total_nodes
    then ok tt
    else unexpected build_stalled

-- `thread_count`: the number of jobs, or that of the processors where it is 0, at least 1.
abbrev pub thread_count : (jobs hardware_concurrency : ℕ) → ℕ
thread_count (suc jobs) hardware_concurrency = suc jobs
thread_count zero (suc hardware) = suc hardware
thread_count zero zero = 1
