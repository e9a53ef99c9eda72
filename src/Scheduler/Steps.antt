-- ===== src/Scheduler/Steps.antt =====
-- Each step of a worker keeps the invariant of the pool.
use native.Mathlib.Decide.{ℕ_discrete}
use catalyst_build_executor.Base.{
  lt_or_ge, ⊎_elim, ℕ, zero, suc, ◌+◌, ◌≤◌, ◌<◌, ◌≡◌, refl, ap, ◌∙◌, ◌⊎◌, inl, inr, Bool, Bytes,
  List, [], ◌∷◌, ◌++◌, length, get_or, range_from, occ, mem_of_occ, occ-range_from, sum_of-le,
  arith,
}
use catalyst_build_executor.Graph.{BuildGraph}
use catalyst_build_executor.Graph.Ids.{edges_of}
use catalyst_build_executor.Topo.Order.{EdgesInRange}
use catalyst_build_executor.Scheduler.{
  Task, Pool, Worker, running, sleeping, exited, busy, System, Event, started, ended, queued,
  release, complete_task, Step, take_task, leave, sleep, finish, Notified,
}
use catalyst_build_executor.Scheduler.Neighbours.{
  Released, release-Released, release-size, get_or-outside,
}
use catalyst_build_executor.Scheduler.Workers.{
  busy_nodes, runners, sleepers, sleepers-append, runners-append, occ-swap, busy-swap, runners-swap,
  sleepers-swap, Notified-Wakes, sleepers-Notified,
}
use catalyst_build_executor.Scheduler.Invariant.{launched, succeeded, Ready, Inv, queued-append}

module _ (estimator : Bytes → ℕ) (g : BuildGraph) (in_range : EdgesInRange g.nodes) where
  -- No node has ended well more often than it stands in the graph, a busy one included.
  pub occ-busy-range :
      (tr : List Event) (s : System) (u v : ℕ)
      → Inv g tr s
      → 0 < occ u (busy_nodes s.workers)
      → occ v (u ∷ succeeded tr) ≤ occ v (range_from 0 (length g.nodes))
  occ-busy-range tr s u v h b =
      let r = h.ready v in
      let (inside, below, above) = occ-range_from v 0 (length g.nodes) in
      let held = h.held v in
      let once : occ v (u ∷ succeeded tr) ≤ occ v (launched tr) = ground arith in
      elim (lt_or_ge v (length g.nodes)) [
        | inl lt ↦ elim (ℕ_discrete (get_or s.pool.in_degrees v 0) 0) [
          | yes z ↦ omega (arith, inside, r.due)
          | no p ↦ omega (arith, r.not_due)
        ]
        | inr ge ↦ omega (arith, r.outside)
      ]

  -- Each edge of a busy node is still counted.
  pub occ-edges-le :
      (tr : List Event) (s : System) (u v : ℕ)
      → Inv g tr s
      → 0 < occ u (busy_nodes s.workers)
      → occ v (edges_of g.nodes u) ≤ get_or s.pool.in_degrees v 0
  occ-edges-le tr s u v h b = elim (lt_or_ge v (length g.nodes)) [
    | inl lt ↦ omega (
      arith,
      (h.ready v).degree lt,
      sum_of-le (λ w. occ v (edges_of g.nodes w)) (u ∷ succeeded tr) (range_from 0 (length g.nodes))
          (λ w. occ-busy-range tr s u w h b),
    )
    | inr ge ↦ elim (ℕ_discrete (occ v (edges_of g.nodes u)) 0) [
      | yes z ↦ omega arith
      | no p ↦ absurd (omega (arith, in_range u v (mem_of_occ v _ (omega arith))))
    ]
  ]

  Ready-success :
      (tr : List Event) (s : System) (u v : ℕ)
      → Inv g tr s
      → 0 < occ u (busy_nodes s.workers)
      → Ready g
          (ended u 0 ∷ tr)
          (release estimator g u s.pool).in_degrees
          (release estimator g u s.pool).ready_queue
          v
  Ready-success tr s u v h b =
      let r = h.ready v in
      let out : Released estimator g (edges_of g.nodes u)
          (record {
            in_degrees = s.pool.in_degrees;
            ready_queue = s.pool.ready_queue;
            new_work_count = 0;
          })
          (release estimator g u s.pool) v =
        release-Released estimator g (edges_of g.nodes u) _ v (occ-edges-le tr s u v h b) in
      record {
        degree = λ lt. omega (arith, r.degree lt, out.degree);
        due = λ lt z. elim (ℕ_discrete (occ v (edges_of g.nodes u)) 0) [
          | yes none_here ↦ omega (arith, out.kept none_here, out.degree, r.due lt)
          | no some_here ↦ omega (arith, out.pushed (omega arith) z, out.degree, r.not_due)
        ];
        not_due = λ p. omega (arith, out.waits p, out.degree, r.not_due);
        outside = λ ge. omega (
          arith,
          r.outside ge,
          out.kept (
              omega (
                arith,
                occ-edges-le tr s u v h b,
                get_or-outside s.pool.in_degrees v (omega (arith, h.size)),
              )),
        );
      }

  -- A worker that changes its state, where the pool stays.
  pub Inv-swap :
      (tr : List Event) (s : System) (xs ys : List Worker) (w w' : Worker)
      → Inv g tr s
      → s.workers ≡ xs ++ w ∷ ys
      → busy_nodes (w ∷ []) ≡ busy_nodes (w' ∷ [])
      → (0 < sleepers (w' ∷ []) → 0 < sleepers (w ∷ []) ⊎ (0 < s.pool.active_workers))
      → (0 < length s.pool.ready_queue → runners (w ∷ []) ≤ runners (w' ∷ []))
      → Inv g tr (record s { workers = xs ++ w' ∷ ys })
  Inv-swap tr s xs ys w w' h e same asleep serve = record {
    size = h.size;
    ready = h.ready;
    held = λ v. omega (
      arith,
      h.held v,
      ap (λ ws. occ v (busy_nodes ws)) e,
      occ-swap xs ys w w' v,
      ap (occ v) same,
    );
    active = omega (
      arith,
      h.active,
      ap (λ ws. length (busy_nodes ws)) e,
      busy-swap xs ys w w',
      ap length same,
    );
    quiet = h.quiet;
    bad = h.bad;
    awake = λ p. elim (lt_or_ge 0 (sleepers (w' ∷ []))) [
      | inl now ↦
          ⊎_elim
            (λ before. h.awake (
              omega
                (arith, ap sleepers e, sleepers-append xs (w ∷ ys), sleepers-append (w ∷ []) ys)))
            (λ a. a) (asleep now)
      | inr not_now ↦ h.awake (omega (arith, ap sleepers e, sleepers-swap xs ys w w'))
    ];
    served = λ p. omega (arith, h.served p, ap runners e, runners-swap xs ys w w', serve p);
  }

  Inv-take :
      (tr : List Event) (s : System) (xs ys : List Worker) (l r : List Task) (t : Task)
      → Inv g tr s
      → s.workers ≡ xs ++ running ∷ ys
      → s.pool.ready_queue ≡ l ++ t ∷ r
      → Inv g (started t.node_idx ∷ tr) (record {
        pool = record s.pool { ready_queue = l ++ r; active_workers = s.pool.active_workers + 1 };
        workers = xs ++ busy t.node_idx ∷ ys;
      })
  Inv-take tr s xs ys l r t h e q =
      let moved : (v : ℕ)
          → occ v (queued s.pool.ready_queue) ≡ occ v (t.node_idx ∷ []) + occ v (queued (l ++ r)) =
        λ v.
          omega
            (arith, ap (λ q. occ v (queued q)) q, queued-append v l (t ∷ r), queued-append v l r) in
      record {
        size = h.size;
        ready = λ v.
            let a = h.ready v in
            record {
              degree = a.degree;
              due = λ lt z. omega (arith, a.due lt z, moved v);
              not_due = λ p. omega (arith, a.not_due p, moved v);
              outside = λ ge. omega (arith, a.outside ge, moved v);
            };
        held = λ v. omega (
          arith,
          h.held v,
          ap (λ ws. occ v (busy_nodes ws)) e,
          occ-swap xs ys running (busy t.node_idx) v,
        );
        active = omega (
          arith,
          h.active,
          ap (λ ws. length (busy_nodes ws)) e,
          busy-swap xs ys running (busy t.node_idx),
        );
        quiet = h.quiet;
        bad = h.bad;
        awake = λ p. omega arith;
        served = λ p. omega arith;
      }

  -- What the end of a task does to the workers, with `p` the pool after it.
  record Finishes (s : System) (u : ℕ) (ws' : List Worker) (p : Pool) : Type 0 where
    pub nodes : (v : ℕ) → occ v (busy_nodes ws') + occ v (u ∷ []) ≡ occ v (busy_nodes s.workers)
    pub fewer : length (busy_nodes ws') + 1 ≡ length (busy_nodes s.workers)
    pub runs : 0 < runners ws'
    pub awake : 0 < sleepers ws' → 0 < p.active_workers

  module _ (s : System) (xs ys ws' : List Worker) (u k : ℕ) (p : Pool)
      (e : s.workers ≡ xs ++ busy u ∷ ys)
      (n : Notified (length g.nodes) k p (xs ++ running ∷ ys) ws') where
    occ-finish : (v : ℕ) → occ v (busy_nodes ws') + occ v (u ∷ []) ≡ occ v (busy_nodes s.workers)
    occ-finish v =
        let w = Notified-Wakes _ k p _ ws' n in
        omega (
          arith,
          ap (occ v) w.nodes,
          occ-swap xs ys (busy u) running v,
          ap (λ ws. occ v (busy_nodes ws)) e,
        )

    busy-finish : length (busy_nodes ws') + 1 ≡ length (busy_nodes s.workers)
    busy-finish =
        let w = Notified-Wakes _ k p _ ws' n in
        omega (
          arith,
          ap length w.nodes,
          busy-swap xs ys (busy u) running,
          ap (λ ws. length (busy_nodes ws)) e,
        )

    runners-finish : 0 < runners ws'
    runners-finish =
        let w = Notified-Wakes _ k p _ ws' n in
        omega (arith, w.more, runners-append xs (running ∷ ys))

    awake-finish : 0 < sleepers ws' → 0 < p.active_workers
    awake-finish asleep = elim (lt_or_ge 0 p.active_workers) [
      | inl some_active ↦ some_active
      | inr no_active ↦ absurd (omega (arith, sleepers-Notified _ k p _ ws' (omega arith) n))
    ]

    finish-Finishes : Finishes s u ws' p
    finish-Finishes = record {
      nodes = occ-finish;
      fewer = busy-finish;
      runs = runners-finish;
      awake = awake-finish;
    }

  Inv-finish :
      (keep_going : Bool) (tr : List Event) (s : System) (ws' : List Worker) (u code : ℕ)
      → Inv g tr s
      → Finishes s u ws' (complete_task estimator g keep_going u code s.pool).0
      → Inv g
          (ended u code ∷ tr)
          (record { pool = (complete_task estimator g keep_going u code s.pool).0; workers = ws' })
  unfolding complete_task
  Inv-finish keep_going tr s ws' u zero h f = record {
    size = release-size estimator g (edges_of g.nodes u) _ ∙ h.size;
    ready = λ v. Ready-success tr s u v h (ground (arith, f.nodes u));
    held = λ v. omega (arith, h.held v, f.nodes v);
    active = omega (arith, h.active, f.fewer);
    quiet = λ c. omega (arith, h.quiet c);
    bad = h.bad;
    awake = f.awake;
    served = λ c. omega (arith, f.runs);
  }
  Inv-finish keep_going tr s ws' u (suc code) h f = record {
    size = h.size;
    ready = λ v.
        let a = h.ready v in
        record { degree = a.degree; due = a.due; not_due = a.not_due; outside = a.outside };
    held = λ v. omega (arith, h.held v, f.nodes v);
    active = omega (arith, h.active, f.fewer);
    quiet = λ c. cc;
    bad = λ c. omega arith;
    awake = f.awake;
    served = λ c. omega (arith, f.runs);
  }

  pub Inv-Step :
      (keep_going : Bool) {tr es : List Event} {s s' : System}
      → Step estimator g keep_going s es s'
      → Inv g tr s
      → Inv g (es ++ tr) s'
  Inv-Step keep_going {tr = tr} {s = s} (take_task xs ys l r t e q top) h =
      Inv-take tr s xs ys l r t h e q
  Inv-Step keep_going {tr = tr} {s = s} (leave xs ys e over empty) h =
      Inv-swap tr s xs ys running exited h e refl (λ a. absurd (omega arith))
        (λ a. absurd (omega (arith, ap length empty)))
  Inv-Step keep_going {tr = tr} {s = s} (sleep xs ys e over) h =
      Inv-swap tr s xs ys running sleeping h e refl (λ a. ground arith) (λ a. ground arith)
  Inv-Step keep_going {tr = tr} {s = s} (finish xs ys ws' u code e n) h =
      Inv-finish keep_going tr s ws' u code h (
        finish-Finishes s xs ys ws' u (complete_task estimator g keep_going u code s.pool).1
          (complete_task estimator g keep_going u code s.pool).0 e n)
