-- ===== src/Scheduler/Workers.antt =====
-- The workers of the pool: how many stand in each state, and what a notification changes.
use catalyst_build_executor.Base.{
  ℕ, zero, suc, ◌+◌, ◌≤◌, ◌≡◌, refl, sym, ap, ◌∙◌, subst, inl, inr, true, List, [], ◌∷◌, ◌++◌, map,
  length, occ, occ-append, length-append, arith, Bool-cases,
}
use catalyst_build_executor.Scheduler.{
  Worker, running, sleeping, exited, busy, Pool, wake, NotifyOne, woken, nobody, NotifyMany,
  notifies_all, Notified,
}

abbrev pub busy_nodes : List Worker → List ℕ
busy_nodes [] = []
busy_nodes (running ∷ ws) = busy_nodes ws
busy_nodes (sleeping ∷ ws) = busy_nodes ws
busy_nodes (exited ∷ ws) = busy_nodes ws
busy_nodes (busy u ∷ ws) = u ∷ busy_nodes ws

abbrev pub runners : List Worker → ℕ
runners [] = 0
runners (running ∷ ws) = suc (runners ws)
runners (sleeping ∷ ws) = runners ws
runners (exited ∷ ws) = runners ws
runners (busy u ∷ ws) = runners ws

abbrev pub sleepers : List Worker → ℕ
sleepers [] = 0
sleepers (running ∷ ws) = sleepers ws
sleepers (sleeping ∷ ws) = suc (sleepers ws)
sleepers (exited ∷ ws) = sleepers ws
sleepers (busy u ∷ ws) = sleepers ws

pub busy_nodes-append :
    (xs ys : List Worker) → busy_nodes (xs ++ ys) ≡ busy_nodes xs ++ busy_nodes ys
busy_nodes-append [] ys = refl
busy_nodes-append (running ∷ xs) ys = busy_nodes-append xs ys
busy_nodes-append (sleeping ∷ xs) ys = busy_nodes-append xs ys
busy_nodes-append (exited ∷ xs) ys = busy_nodes-append xs ys
busy_nodes-append (busy u ∷ xs) ys = ap (λ l. u ∷ l) (busy_nodes-append xs ys)

pub runners-append : (xs ys : List Worker) → runners (xs ++ ys) ≡ runners xs + runners ys
runners-append [] ys = omega arith
runners-append (running ∷ xs) ys = omega (arith, runners-append xs ys)
runners-append (sleeping ∷ xs) ys = runners-append xs ys
runners-append (exited ∷ xs) ys = runners-append xs ys
runners-append (busy u ∷ xs) ys = runners-append xs ys

pub sleepers-append : (xs ys : List Worker) → sleepers (xs ++ ys) ≡ sleepers xs + sleepers ys
sleepers-append [] ys = omega arith
sleepers-append (running ∷ xs) ys = sleepers-append xs ys
sleepers-append (sleeping ∷ xs) ys = omega (arith, sleepers-append xs ys)
sleepers-append (exited ∷ xs) ys = sleepers-append xs ys
sleepers-append (busy u ∷ xs) ys = sleepers-append xs ys

-- A worker of the pool changes its state.
module _ (xs ys : List Worker) (w w' : Worker) where
  abbrev pub before_swap : List Worker
  before_swap = xs ++ w ∷ ys

  abbrev pub after_swap : List Worker
  after_swap = xs ++ w' ∷ ys

  split :
      (x : Worker)
      → busy_nodes (xs ++ x ∷ ys) ≡ busy_nodes xs ++ (busy_nodes (x ∷ []) ++ busy_nodes ys)
  split x =
      busy_nodes-append xs (x ∷ ys) ∙ ap (λ l. busy_nodes xs ++ l) (busy_nodes-append (x ∷ []) ys)

  occ-split :
      (v : ℕ) (x : Worker)
      → occ v (busy_nodes (xs ++ x ∷ ys))
        ≡ occ v (busy_nodes xs) + (occ v (busy_nodes (x ∷ [])) + occ v (busy_nodes ys))
  occ-split v x =
      ap (occ v) (split x)
      ∙ omega (
        arith,
        occ-append v (busy_nodes xs) (busy_nodes (x ∷ []) ++ busy_nodes ys),
        occ-append v (busy_nodes (x ∷ [])) (busy_nodes ys),
      )

  length-split :
      (x : Worker)
      → length (busy_nodes (xs ++ x ∷ ys))
        ≡ length (busy_nodes xs) + (length (busy_nodes (x ∷ [])) + length (busy_nodes ys))
  length-split x =
      ap length (split x)
      ∙ omega (
        arith,
        length-append (busy_nodes xs) (busy_nodes (x ∷ []) ++ busy_nodes ys),
        length-append (busy_nodes (x ∷ [])) (busy_nodes ys),
      )

  pub occ-swap :
      (v : ℕ)
      → occ v (busy_nodes after_swap) + occ v (busy_nodes (w ∷ []))
        ≡ occ v (busy_nodes before_swap) + occ v (busy_nodes (w' ∷ []))
  occ-swap v = omega (arith, occ-split v w, occ-split v w')

  pub busy-swap :
      length (busy_nodes after_swap) + length (busy_nodes (w ∷ []))
      ≡ length (busy_nodes before_swap) + length (busy_nodes (w' ∷ []))
  busy-swap = omega (arith, length-split w, length-split w')

  pub runners-swap : runners after_swap + runners (w ∷ []) ≡ runners before_swap + runners (w' ∷ [])
  runners-swap = omega (
    arith,
    runners-append xs (w ∷ ys),
    runners-append xs (w' ∷ ys),
    runners-append (w ∷ []) ys,
    runners-append (w' ∷ []) ys,
  )

  pub sleepers-swap :
      sleepers after_swap + sleepers (w ∷ []) ≡ sleepers before_swap + sleepers (w' ∷ [])
  sleepers-swap = omega (
    arith,
    sleepers-append xs (w ∷ ys),
    sleepers-append xs (w' ∷ ys),
    sleepers-append (w ∷ []) ys,
    sleepers-append (w' ∷ []) ys,
  )

-- The nodes of the busy workers stay, and no worker falls asleep or leaves.
pub record Wakes (ws ws' : List Worker) : Type 0 where
  pub nodes : busy_nodes ws' ≡ busy_nodes ws
  pub fewer : sleepers ws' ≤ sleepers ws
  pub more : runners ws ≤ runners ws'

Wakes-refl : (ws : List Worker) → Wakes ws ws
Wakes-refl ws = record { nodes = refl; fewer = omega arith; more = omega arith }

busy_nodes-wake : (ws : List Worker) → busy_nodes (map wake ws) ≡ busy_nodes ws
busy_nodes-wake [] = refl
busy_nodes-wake (running ∷ ws) = busy_nodes-wake ws
busy_nodes-wake (sleeping ∷ ws) = busy_nodes-wake ws
busy_nodes-wake (exited ∷ ws) = busy_nodes-wake ws
busy_nodes-wake (busy u ∷ ws) = ap (λ l. u ∷ l) (busy_nodes-wake ws)

pub sleepers-wake : (ws : List Worker) → sleepers (map wake ws) ≡ 0
sleepers-wake [] = refl
sleepers-wake (running ∷ ws) = sleepers-wake ws
sleepers-wake (sleeping ∷ ws) = sleepers-wake ws
sleepers-wake (exited ∷ ws) = sleepers-wake ws
sleepers-wake (busy u ∷ ws) = sleepers-wake ws

runners-wake : (ws : List Worker) → runners ws ≤ runners (map wake ws)
runners-wake [] = omega arith
runners-wake (running ∷ ws) = omega (arith, runners-wake ws)
runners-wake (sleeping ∷ ws) = omega (arith, runners-wake ws)
runners-wake (exited ∷ ws) = runners-wake ws
runners-wake (busy u ∷ ws) = runners-wake ws

pub Wakes-woken : (xs ys : List Worker) → Wakes (xs ++ sleeping ∷ ys) (xs ++ running ∷ ys)
Wakes-woken xs ys = record {
  nodes = busy_nodes-append xs (running ∷ ys) ∙ sym (busy_nodes-append xs (sleeping ∷ ys));
  fewer = omega (arith, sleepers-append xs (sleeping ∷ ys), sleepers-append xs (running ∷ ys));
  more = omega (arith, runners-append xs (sleeping ∷ ys), runners-append xs (running ∷ ys));
}

NotifyOne-Wakes : {ws ws' : List Worker} → NotifyOne ws ws' → Wakes ws ws'
NotifyOne-Wakes {ws = ws} (woken xs ys e) = rw e (Wakes-woken xs ys)
NotifyOne-Wakes {ws = ws} (nobody e) = Wakes-refl ws

NotifyMany-Wakes : (k : ℕ) (ws ws' : List Worker) → NotifyMany k ws ws' → Wakes ws ws'
NotifyMany-Wakes zero ws ws' e = subst (Wakes ws) e (Wakes-refl ws)
NotifyMany-Wakes (suc k) ws ws' (mid, one, rest) =
    let a = NotifyOne-Wakes one in
    let b = NotifyMany-Wakes k mid ws' rest in
    record {
      nodes = b.nodes ∙ a.nodes;
      fewer = omega (arith, a.fewer, b.fewer);
      more = omega (arith, a.more, b.more);
    }

module _ (total_nodes k : ℕ) (p : Pool) (ws ws' : List Worker) where
  pub Notified-Wakes : Notified total_nodes k p ws ws' → Wakes ws ws'
  Notified-Wakes n = elim (Bool-cases (notifies_all total_nodes k p)) [
    | inl all ↦ subst (Wakes ws) (rw all at n) (record {
      nodes = busy_nodes-wake ws;
      fewer = omega (arith, sleepers-wake ws);
      more = runners-wake ws;
    })
    | inr few ↦ NotifyMany-Wakes k ws ws' (rw few at n)
  ]

  -- When the last busy worker has ended, no worker sleeps.
  pub sleepers-Notified : p.active_workers ≡ 0 → Notified total_nodes k p ws ws' → sleepers ws' ≡ 0
  sleepers-Notified e n =
      let all : notifies_all total_nodes k p ≡ true = ground arith in
      subst (λ l. sleepers l ≡ 0) (rw all at n) (sleepers-wake ws)
