-- ===== src/Scheduler/Progress.antt =====
-- The pool does not get stuck: while a worker has not left, some worker can move.
use catalyst_build_executor.Base.{
  lt_or_ge, ⊎_elim, ℕ, zero, suc, ◌+◌, ◌≤◌, ◌<◌, ◌≡◌, refl, sym, ap, ◌∙◌, subst, ◌⊎◌, inl, inr,
  Bool, Bytes, List, [], ◌∷◌, ◌++◌, map, length, arith, Bool-cases, List-cases,
}
use catalyst_build_executor.Graph.{BuildGraph}
use catalyst_build_executor.Topo.Order.{EdgesInRange}
use catalyst_build_executor.Scheduler.{
  thread_count, Task, Pool, Worker, running, sleeping, exited, busy, Event, System, IsTop,
  wait_over, wake, NotifyOne, woken, nobody, NotifyMany, notifies_all, Notified, complete_task,
  Step, take_task, leave, sleep, finish, Run,
}
use catalyst_build_executor.Scheduler.Workers.{busy_nodes, runners, sleepers}
use catalyst_build_executor.Scheduler.Reached.{Run-Inv, thread_count-pos}

abbrev Splits {ℓ} : {A : Type ℓ} → List A → A → Type ℓ
Splits ws w = (xs ys : List _) × (ws ≡ xs ++ w ∷ ys)

Splits-cons {ℓ} : {A : Type ℓ} (x : A) {ws : List A} {w : A} → Splits ws w → Splits (x ∷ ws) w
Splits-cons x (xs, ys, e) = (x ∷ xs, ys, ap (λ l. x ∷ l) e)

runner : (ws : List Worker) → 0 < runners ws → Splits ws running
runner [] h = absurd (omega arith)
runner (running ∷ ws) h = ([], ws, refl)
runner (sleeping ∷ ws) h = Splits-cons sleeping (runner ws h)
runner (exited ∷ ws) h = Splits-cons exited (runner ws h)
runner (busy u ∷ ws) h = Splits-cons (busy u) (runner ws h)

busy_worker : (ws : List Worker) → 0 < length (busy_nodes ws) → (u : ℕ) × Splits ws (busy u)
busy_worker [] h = absurd (omega arith)
busy_worker (running ∷ ws) h = let (u, sp) = busy_worker ws h in (u, Splits-cons running sp)
busy_worker (sleeping ∷ ws) h = let (u, sp) = busy_worker ws h in (u, Splits-cons sleeping sp)
busy_worker (exited ∷ ws) h = let (u, sp) = busy_worker ws h in (u, Splits-cons exited sp)
busy_worker (busy u ∷ ws) h = (u, ([], ws, refl))

sleeper : (ws : List Worker) → Splits ws sleeping ⊎ (map wake ws ≡ ws)
sleeper [] = inr refl
sleeper (running ∷ ws) =
    ⊎_elim (λ sp. inl (Splits-cons running sp)) (λ e. inr (ap (λ l. running ∷ l) e)) (sleeper ws)
sleeper (sleeping ∷ ws) = inl ([], ws, refl)
sleeper (exited ∷ ws) =
    ⊎_elim (λ sp. inl (Splits-cons exited sp)) (λ e. inr (ap (λ l. exited ∷ l) e)) (sleeper ws)
sleeper (busy u ∷ ws) =
    ⊎_elim (λ sp. inl (Splits-cons (busy u) sp)) (λ e. inr (ap (λ l. busy u ∷ l) e)) (sleeper ws)

NotifyOne-works : (ws : List Worker) → (ws' : List Worker) × NotifyOne ws ws'
NotifyOne-works ws = elim (sleeper ws) [
  | inl (xs, ys, e) ↦ (xs ++ running ∷ ys, woken xs ys e)
  | inr e ↦ (ws, nobody e)
]

NotifyMany-works : (k : ℕ) (ws : List Worker) → (ws' : List Worker) × NotifyMany k ws ws'
NotifyMany-works zero ws = (ws, refl)
NotifyMany-works (suc k) ws =
    let (mid, one) = NotifyOne-works ws in
    let (ws', rest) = NotifyMany-works k mid in (ws', (mid, one, rest))

Notified-works :
    (total_nodes k : ℕ) (p : Pool) (ws : List Worker)
    → (ws' : List Worker) × Notified total_nodes k p ws ws'
Notified-works total_nodes k p ws = elim (Bool-cases (notifies_all total_nodes k p)) [
  | inl all ↦ (map wake ws, rw all refl)
  | inr few ↦ let (ws', n) = NotifyMany-works k ws in (ws', rw few n)
]

IsTop-weaken :
    (t u : Task) (others : List Task) → t.estimate ≤ u.estimate → IsTop t others → IsTop u others
IsTop-weaken t u [] h top = tt
IsTop-weaken t u (o ∷ others) h top = (omega (arith, top.0), IsTop-weaken t u others h top.1)

IsTop-insert :
    (t top : Task) (l r : List Task)
    → top.estimate ≤ t.estimate
    → IsTop top (l ++ r)
    → IsTop t (l ++ top ∷ r)
IsTop-insert t top [] r h is_top = (h, IsTop-weaken top t r h is_top)
IsTop-insert t top (o ∷ l) r h is_top = (omega (arith, is_top.0), IsTop-insert t top l r h is_top.1)

-- A queue that is not empty has a top.
queue-IsTop :
    (t : Task) (q : List Task)
    → (l r : List Task) × (top : Task) × (t ∷ q ≡ l ++ top ∷ r) × IsTop top (l ++ r)
queue-IsTop t [] = ([], [], t, refl, tt)
queue-IsTop t (u ∷ q) =
    let (l, r, top, e, is_top) = queue-IsTop u q in
    elim (lt_or_ge top.estimate t.estimate) [
      | inl less ↦ (
        [],
        u ∷ q,
        t,
        refl,
        subst (IsTop t) (sym e) (IsTop-insert t top l r (omega arith) is_top),
      )
      | inr ge ↦ (t ∷ l, r, top, ap (λ x. t ∷ x) e, (ge, is_top))
    ]

module _ (estimator : Bytes → ℕ) (g : BuildGraph) (keep_going : Bool) where
  abbrev pub CanStep : System → Type 0
  CanStep s = (es : List Event) × (s' : System) × Step estimator g keep_going s es s'

  runner-steps : (s : System) → 0 < runners s.workers → CanStep s
  runner-steps s h =
      let (xs, ys, e) = runner s.workers h in
      elim (Bool-cases (wait_over (length g.nodes) s.pool)) [
        | inr waits ↦ (_, _, sleep xs ys e waits)
        | inl over ↦ elim (List-cases s.pool.ready_queue) [
          | inl empty ↦ (_, _, leave xs ys e over empty)
          | inr (t, q, filled) ↦
              let (l, r, top, split, is_top) = queue-IsTop t q in
              (_, _, take_task xs ys l r top e (filled ∙ split) is_top)
        ]
      ]

  busy-steps : (s : System) → 0 < length (busy_nodes s.workers) → CanStep s
  busy-steps s h =
      let (u, (xs, ys, e)) = busy_worker s.workers h in
      let (ws', n) =
        Notified-works (length g.nodes) (complete_task estimator g keep_going u 0 s.pool).1
          (complete_task estimator g keep_going u 0 s.pool).0 (xs ++ running ∷ ys) in
      (_, _, finish xs ys ws' u 0 e n)

  -- In every state of a run in which some worker has not left, some worker can make a step
  -- other than a spurious wake-up: the workers do not all sleep. Every edge of the graph
  -- leads to a node.
  pub Run-progress :
      (jobs hardware : ℕ) {tr : List Event} (s : System)
      → EdgesInRange g.nodes
      → Run estimator g keep_going (thread_count jobs hardware) tr s
      → 0 < runners s.workers + (sleepers s.workers + length (busy_nodes s.workers))
      → CanStep s
  Run-progress jobs hardware s in_range r left =
      let h =
        Run-Inv estimator g in_range keep_going (thread_count jobs hardware)
          (thread_count-pos jobs hardware) r in
      elim (lt_or_ge 0 (runners s.workers)) [
        | inl some_runner ↦ runner-steps s some_runner
        | inr no_runner ↦ busy-steps s (elim (lt_or_ge 0 (sleepers s.workers)) [
          | inl some_sleeper ↦ omega (arith, h.awake some_sleeper, h.active)
          | inr no_sleeper ↦ omega arith
        ])
      ]
