-- ===== src/Rebuild/Remember.antt =====
-- What the cache of src/executor_stat_cache.cpp has read once it answers for ever: a step that was found
-- to be up to date is found so again, whatever is written to its inputs.
use catalyst_build_executor.Base.{
  ℕ, ◌≡◌, refl, sym, ap, ◌∙◌, subst, inl, inr, Bool, true, false, Bytes, List, [], ◌∷◌, ◌++◌,
  Option, none, some, All, arith, Bool-cases, Option-cases, eq_of_some,
}
use catalyst_build_executor.Domain.{BuildStep, Result, ok}
use catalyst_build_executor.Graph.{or_empty}
use catalyst_build_executor.Rebuild.{
  PathOrder, Entry, Cache, Clock, entry_at, insert_at, refresh, get_or_update, is_changed,
  changed_since, any_changed, or_else, inputs_changed, needs_rebuild,
}

-- The order of paths is strict and total up to equality, and equal paths are ordered alike.
pub record IsStrict (order : PathOrder) : Type 0 where
  pub irrefl : (p : Bytes) → order.less p p ≡ false
  pub trans :
      (p q r : Bytes) → order.less p q ≡ true → order.less q r ≡ true → order.less p r ≡ true
  pub conn : (p q : Bytes) → order.less p q ≡ false → order.less q p ≡ false → order.same p q ≡ true
  pub same_less :
      (p q : Bytes)
      → order.same p q ≡ true
      → (x : Bytes) → (order.less p x ≡ order.less q x) × (order.less x p ≡ order.less x q)

module _ (order : PathOrder) (laws : IsStrict order) where
  same_refl : (p : Bytes) → order.same p p ≡ true
  same_refl p = laws.conn p p (laws.irrefl p) (laws.irrefl p)

  same_sym : (p q : Bytes) → order.same p q ≡ true → order.same q p ≡ true
  same_sym p q h =
      laws.conn q p ((laws.same_less p q h q).1 ∙ laws.irrefl q)
        ((laws.same_less p q h q).0 ∙ laws.irrefl q)

  same_trans :
      (p q r : Bytes) → order.same p q ≡ true → order.same q r ≡ true → order.same p r ≡ true
  same_trans p q r h h' =
      laws.conn p r ((laws.same_less p q h r).0 ∙ (laws.same_less q r h' r).0 ∙ laws.irrefl r)
        ((laws.same_less p q h r).1 ∙ (laws.same_less q r h' r).1 ∙ laws.irrefl r)

-- The files that `needs_rebuild` looks at, in this order.
abbrev pub inputs_of : Bytes → BuildStep → List Bytes
inputs_of build_file step =
    build_file
    ∷ (or_empty step.depfile_inputs ++ (or_empty step.opaque_inputs ++ step.parsed_inputs))

or_else_cong :
    (r : Bool × Cache) (f g : Cache → Bool × Cache)
    → ((c : Cache) → f c ≡ g c)
    → or_else r f ≡ or_else r g
or_else_cong (true, c) f g same = refl
or_else_cong (false, c) f g same = same c

or_else_assoc :
    (r : Bool × Cache) (f g : Cache → Bool × Cache)
    → or_else (or_else r f) g ≡ or_else r (λ c. or_else (f c) g)
or_else_assoc (true, c) f g = refl
or_else_assoc (false, c) f g = refl

module _ (order : PathOrder) (mtime : Clock) where
  -- The cache answers for a path with an entry that it holds.
  pub record IsHit (p : Bytes) (cache : Cache) (time : Option ℕ) : Type 0 where
    pub entry : Entry
    pub there : entry_at order mtime p cache ≡ some entry
    pub path : order.same entry.path p ≡ true
    pub answer : entry.time ≡ time

  abbrev pub Keeps : Cache → Cache → Type 0
  Keeps c c' = (p : Bytes) (time : Option ℕ) → IsHit p c time → IsHit p c' time

  IsHit-get :
      (p : Bytes) (c : Cache) (time : Option ℕ)
      → IsHit p c time
      → get_or_update order mtime p c ≡ (time, c)
  unfolding get_or_update
  IsHit-get p c time h = rw (h.there, get_or_update) (rw (h.path) (ap (λ o. (o, c)) (h.answer)))

  -- What a loop that finds no change has read.
  abbrev pub IsFresh : ℕ → Cache → Bytes → Type 0
  IsFresh t c p = (time : Option ℕ) × IsHit p c time × (is_changed order mtime time t ≡ false)

  any_changed-append :
      (ps qs : List Bytes) (t : ℕ) (c : Cache)
      → any_changed order mtime (ps ++ qs) t c
        ≡ or_else (any_changed order mtime ps t c) (any_changed order mtime qs t)
  unfolding any_changed
  any_changed-append [] qs t c = refl
  any_changed-append (p ∷ ps) qs t c =
      or_else_cong (changed_since order mtime p t c) _ _ (any_changed-append ps qs t)
      ∙ sym (
          or_else_assoc (changed_since order mtime p t c) (any_changed order mtime ps t)
            (any_changed order mtime qs t))

  -- The checks are one loop over the files.
  inputs_changed-any_changed :
      (build_file : Bytes) (step : BuildStep) (t : ℕ) (c : Cache)
      → inputs_changed order mtime build_file step t c
        ≡ any_changed order mtime (inputs_of build_file step) t c
  unfolding inputs_changed any_changed
  inputs_changed-any_changed build_file step t c =
      let opaque = or_empty step.opaque_inputs in
      let depfile = or_empty step.depfile_inputs in
      or_else_cong (changed_since order mtime build_file t c) _ _ (λ c₁.
        or_else_cong (any_changed order mtime depfile t c₁) _ _
          (λ c₂. sym (any_changed-append opaque step.parsed_inputs t c₂))
        ∙ sym (any_changed-append depfile (opaque ++ step.parsed_inputs) t c₁))

  module _ (laws : IsStrict order) where
    entry_at-insert_at :
        (p : Bytes) (time : Option ℕ) (c : Cache)
        → entry_at order mtime p (insert_at order mtime p (record { path = p; time = time }) c)
          ≡ some (record { path = p; time = time })
    unfolding entry_at insert_at
    entry_at-insert_at p time [] = ground (arith, laws.irrefl p)
    entry_at-insert_at p time (x ∷ c) = ground (arith, laws.irrefl p, entry_at-insert_at p time c)

    entry_at-same :
        (p q : Bytes) (c : Cache)
        → order.same p q ≡ true
        → entry_at order mtime p c ≡ entry_at order mtime q c
    unfolding entry_at
    entry_at-same p q [] h = refl
    entry_at-same p q (x ∷ c) h =
        ground (arith, entry_at-same p q c h, (laws.same_less p q h x.path).1)

    less_of_other :
        (p q : Bytes) → order.same q p ≡ false → order.less p q ≡ false → order.less q p ≡ true
    less_of_other p q other not_less = elim (Bool-cases (order.less q p)) [
      | inl less ↦ less
      | inr not_more ↦ cc (laws.conn q p not_more not_less, other)
    ]

    -- Another path that is inserted does not hide an entry.
    entry_at-insert_other :
        (p q : Bytes) (time : Option ℕ) (c : Cache) (e : Entry)
        → entry_at order mtime p c ≡ some e
        → order.same e.path p ≡ true
        → order.same q p ≡ false
        → entry_at order mtime p (insert_at order mtime q (record { path = q; time = time }) c)
          ≡ some e
    unfolding entry_at insert_at
    entry_at-insert_other p q time [] e found same other = cc
    entry_at-insert_other p q time (x ∷ c) e found same other =
        elim (Bool-cases (order.less x.path p)) [
          | inl lower ↦
              let found' : entry_at order mtime p c ≡ some e = ground (arith, found) in
              ground (
                arith,
                entry_at-insert_other p q time c e found' same other,
                less_of_other p q other,
                laws.trans x.path p q lower,
              )
          | inr there ↦
              let is_x : some x ≡ some e = ground (arith, found) in
              let at_p : order.same x.path p ≡ true =
                ap (λ y. order.same y.path p) (eq_of_some is_x) ∙ same in
              ground (arith, is_x, less_of_other p q other, (laws.same_less x.path p at_p q).0)
        ]

    IsHit-get_fresh :
        (p : Bytes) (c : Cache)
        → IsHit p (insert_at order mtime p (record { path = p; time = mtime p }) c) (mtime p)
    IsHit-get_fresh p c = record {
      entry = record { path = p; time = mtime p };
      there = entry_at-insert_at p (mtime p) c;
      path = same_refl order laws p;
      answer = refl;
    }

    other_path :
        (p q : Bytes) (c : Cache) (time : Option ℕ)
        → IsHit q c time
        → ((e : Entry) → entry_at order mtime p c ≡ some e → order.same e.path p ≡ false)
        → order.same p q ≡ false
    other_path p q c time h misses = elim (Bool-cases (order.same p q)) [
      | inr other ↦ other
      | inl same ↦
          let miss = misses h.entry (entry_at-same p q c same ∙ h.there) in
          let hit =
            same_trans order laws h.entry.path q p (h.path) (same_sym order laws p q same) in
          cc (miss, hit)
    ]

    refresh-IsHit :
        (p : Bytes) (c : Cache)
        → ((e : Entry) → entry_at order mtime p c ≡ some e → order.same e.path p ≡ false)
        → IsHit p (refresh order mtime p c).1 (mtime p) × Keeps c (refresh order mtime p c).1
    refresh-IsHit p c misses = (
      IsHit-get_fresh p c,
      λ q time h. record {
        entry = h.entry;
        there =
            entry_at-insert_other q p (mtime p) c h.entry h.there h.path
              (other_path p q c time h misses);
        path = h.path;
        answer = h.answer;
      },
    )

    -- After a question the cache answers for the path, and it keeps what it had.
    get-IsHit :
        (p : Bytes) (c : Cache)
        → IsHit p (get_or_update order mtime p c).1 (get_or_update order mtime p c).0
          × Keeps c (get_or_update order mtime p c).1
    unfolding get_or_update
    get-IsHit p c = elim (Option-cases (entry_at order mtime p c)) [
      | inl absent ↦ rw (absent, get_or_update) (refresh-IsHit p c (λ e found. cc))
      | inr (e, found) ↦ elim (Bool-cases (order.same e.path p)) [
        | inl hit ↦
            rw (found, get_or_update)
              (rw hit
                (record { entry = e; there = found; path = hit; answer = refl }, λ q time h. h))
        | inr miss ↦
            rw (found, get_or_update)
              (rw miss (
                refresh-IsHit p c (λ e' found'.
                  ap (λ x. order.same x.path p) (eq_of_some (sym found' ∙ found)) ∙ miss)))
      ]
    ]

    any_changed-Keeps :
        (ps : List Bytes) (t : ℕ) (c : Cache) → Keeps c (any_changed order mtime ps t c).1
    unfolding any_changed changed_since
    any_changed-Keeps [] t c = λ q time h. h
    any_changed-Keeps (p ∷ ps) t c =
        let keeps = (get-IsHit p c).1 in
        let c' = (get_or_update order mtime p c).1 in
        elim (Bool-cases (is_changed order mtime (get_or_update order mtime p c).0 t)) [
          | inl changed ↦ rw changed keeps
          | inr same ↦ rw same (λ q time h. any_changed-Keeps ps t c' q time (keeps q time h))
        ]

    any_changed-IsFresh :
        (ps : List Bytes) (t : ℕ) (c c' : Cache)
        → any_changed order mtime ps t c ≡ (false, c')
        → All (IsFresh t c') ps
    unfolding any_changed changed_since
    any_changed-IsFresh [] t c c' e = tt
    any_changed-IsFresh (p ∷ ps) t c c' e =
        let (hit, keeps) = get-IsHit p c in
        let c₁ = (get_or_update order mtime p c).1 in
        elim (Bool-cases (is_changed order mtime (get_or_update order mtime p c).0 t)) [
          | inl changed ↦ cc (rw changed at e)
          | inr same ↦
              let rest : any_changed order mtime ps t c₁ ≡ (false, c') = rw same at e in
              (
                (
                  (get_or_update order mtime p c).0,
                  subst (λ d. IsHit p d (get_or_update order mtime p c).0) (ap (λ r. r.1) rest)
                      (any_changed-Keeps ps t c₁ p (get_or_update order mtime p c).0 hit),
                  same,
                ),
                any_changed-IsFresh ps t c₁ c' rest,
              )
        ]

module _ (order : PathOrder) (mtime mtime' : Clock) where
  entry_at-clock : (p : Bytes) (c : Cache) → entry_at order mtime p c ≡ entry_at order mtime' p c
  unfolding entry_at
  entry_at-clock p [] = refl
  entry_at-clock p (x ∷ c) = ground (arith, entry_at-clock p c)

  is_changed-clock :
      (time : Option ℕ) (t : ℕ) → is_changed order mtime time t ≡ is_changed order mtime' time t
  is_changed-clock none t = refl
  is_changed-clock (some u) t = refl

  changed_since-again :
      (p : Bytes) (t : ℕ) (c : Cache)
      → IsFresh order mtime t c p
      → changed_since order mtime' p t c ≡ (false, c)
  unfolding changed_since
  changed_since-again p t c (time, hit, fresh) =
      let hit' : IsHit order mtime' p c time = record {
        entry = hit.entry;
        there = sym (entry_at-clock p c) ∙ hit.there;
        path = hit.path;
        answer = hit.answer;
      } in
      ap (λ r. (is_changed order mtime' r.0 t, r.1)) (IsHit-get order mtime' p c time hit')
      ∙ ap (λ b. (b, c)) (sym (is_changed-clock time t) ∙ fresh)

  any_changed-again :
      (ps : List Bytes) (t : ℕ) (c : Cache)
      → All (IsFresh order mtime t c) ps
      → any_changed order mtime' ps t c ≡ (false, c)
  unfolding any_changed
  any_changed-again [] t c h = refl
  any_changed-again (p ∷ ps) t c (h, hs) =
      ap (λ r. or_else r (any_changed order mtime' ps t)) (changed_since-again p t c h)
      ∙ any_changed-again ps t c hs

IsFresh-Keeps :
    (order : PathOrder) (mtime : Clock) (t : ℕ) (c c' : Cache)
    → Keeps order mtime c c'
    → (ps : List Bytes) → All (IsFresh order mtime t c) ps
    → All (IsFresh order mtime t c') ps
IsFresh-Keeps order mtime t c c' keeps [] h = tt
IsFresh-Keeps order mtime t c c' keeps (p ∷ ps) ((time, hit, fresh), hs) =
    ((time, keeps p time hit, fresh), IsFresh-Keeps order mtime t c c' keeps ps hs)

module _ (order : PathOrder) (laws : IsStrict order) (mtime : Clock) (exists : Bytes → Bool)
    (build_file : Bytes) where
  needs_rebuild-false :
      (step : BuildStep) (c c' : Cache)
      → ◌≡◌ {A = Result (Bool × Cache)}
          (needs_rebuild order mtime exists build_file step c)
          (ok (false, c'))
      → (t : ℕ) × (exists step.output ≡ true)
        × (mtime step.output ≡ some t)
        × All (IsFresh order mtime t c') (inputs_of build_file step)
  unfolding needs_rebuild
  needs_rebuild-false step c c' e = elim (Bool-cases (exists step.output)) [
    | inr gone ↦ cc (rw gone at e)
    | inl there ↦ elim (Option-cases (mtime step.output)) [
      | inl no_time ↦ cc (rw no_time at (rw there at e))
      | inr (t, at_t) ↦
          let checks : inputs_changed order mtime build_file step t c ≡ (false, c') =
            cc (rw at_t at (rw there at e)) in
          (
            t,
            there,
            at_t,
            any_changed-IsFresh order mtime laws (inputs_of build_file step) t c c'
                (sym (inputs_changed-any_changed order mtime build_file step t c) ∙ checks),
          )
    ]
  ]

  -- A step that was up to date is found to be up to date again while its output stays as it is, with
  -- any times of the inputs, by a cache that keeps what was read. The order of paths is a strict
  -- total order up to their equality.
  pub needs_rebuild-again :
      (mtime' : Clock) (exists' : Bytes → Bool) (step : BuildStep) (c c' c'' : Cache)
      → ◌≡◌ {A = Result (Bool × Cache)}
          (needs_rebuild order mtime exists build_file step c)
          (ok (false, c'))
      → Keeps order mtime c' c''
      → exists' step.output ≡ exists step.output
      → mtime' step.output ≡ mtime step.output
      → ◌≡◌ {A = Result (Bool × Cache)}
          (needs_rebuild order mtime' exists' build_file step c'')
          (ok (false, c''))
  unfolding needs_rebuild
  needs_rebuild-again mtime' exists' step c c' c'' e keeps same_output same_time =
      let (t, there, at_t, fresh) = needs_rebuild-false step c c' e in
      rw (same_output, there)
        (rw (same_time, at_t)
          (ap ok (
            inputs_changed-any_changed order mtime' build_file step t c''
            ∙ any_changed-again order mtime mtime' (inputs_of build_file step) t c''
                (IsFresh-Keeps order mtime t c' c'' keeps (inputs_of build_file step) fresh))))

  -- Each call of `needs_rebuild` keeps what the cache has read.
  pub needs_rebuild-Keeps :
      (step : BuildStep) (c : Cache) (r : Bool × Cache)
      → needs_rebuild order mtime exists build_file step c ≡ ok r
      → Keeps order mtime c r.1
  unfolding needs_rebuild
  needs_rebuild-Keeps step c r e = elim (Bool-cases (exists step.output)) [
    | inr gone ↦
        let same : (true, c) ≡ r = cc (rw gone at e) in
        subst (λ q. Keeps order mtime c q.1) same (λ p time h. h)
    | inl there ↦ elim (Option-cases (mtime step.output)) [
      | inl no_time ↦ cc (rw no_time at (rw there at e))
      | inr (t, at_t) ↦
          let checks : inputs_changed order mtime build_file step t c ≡ r =
            cc (rw at_t at (rw there at e)) in
          subst (λ q. Keeps order mtime c q.1)
            (sym (inputs_changed-any_changed order mtime build_file step t c) ∙ checks)
            (any_changed-Keeps order mtime laws (inputs_of build_file step) t c)
    ]
  ]
