-- ===== src/Rebuild/Cached.antt =====
-- The cache does not show: a step is rebuilt exactly if something it depends on is at least as
-- new as its output.

use catalyst_build_executor.Base.{
  ℕ, Bool, true, false, ◌||◌, ◌≡◌, refl, ap, ◌∙◌, Bytes, List, [], ◌∷◌, none, some, All, arith,
  if◌then◌else◌, Bool-cases, Option-cases, inl, inr, not, ltb, sym,
}
use catalyst_build_executor.Domain.{BuildStep, Error, Result, ok, unexpected, thrown, cannot_map}
use catalyst_build_executor.Graph.{or_empty}
use catalyst_build_executor.Rebuild.{
  PathOrder, Entry, Cache, Clock, IsClockOf, entry_at, insert_at, get_or_update, is_changed,
  changed_since, any_changed, or_else, inputs_changed, needs_rebuild,
}

module _ (order : PathOrder) (mtime : Clock) where
  -- Each entry holds the time that the file system has for its path.
  abbrev pub IsTruthful : Cache → Type 0
  IsTruthful = All (λ e. e.time ≡ mtime e.path)

  entry_at-truthful :
      (p : Bytes) (cache : Cache) (e : Entry)
      → IsTruthful cache
      → entry_at order mtime p cache ≡ some e
      → e.time ≡ mtime e.path
  unfolding entry_at
  entry_at-truthful p [] e t h = cc
  entry_at-truthful p (x ∷ xs) e t h = ground (arith, entry_at-truthful p xs e t.1)

  insert_at-IsTruthful :
      (p : Bytes) (new : Entry) (cache : Cache)
      → new.time ≡ mtime new.path
      → IsTruthful cache
      → IsTruthful (insert_at order mtime p new cache)
  unfolding insert_at
  insert_at-IsTruthful p new [] h t = (h, tt)
  insert_at-IsTruthful p new (x ∷ xs) h t = elim (Bool-cases (order.less x.path p)) [
    | inl lower ↦ rw lower (t.0, insert_at-IsTruthful p new xs h t.1)
    | inr there ↦ rw there (h, t)
  ]

  abbrev Answers : {A : Type 0} → A → A × Cache → Type 0
  Answers a r = (r.0 ≡ a) × IsTruthful r.1

  get_or_update-Answers :
      IsClockOf order mtime
      → (p : Bytes) (cache : Cache) → IsTruthful cache
      → Answers (mtime p) (get_or_update order mtime p cache)
  unfolding get_or_update
  get_or_update-Answers one_file p cache t = elim (Option-cases (entry_at order mtime p cache)) [
    | inl absent ↦ rw (absent, get_or_update) (refl, insert_at-IsTruthful p _ cache refl t)
    | inr (e, found) ↦ elim (Bool-cases (order.same e.path p)) [
      | inl hit ↦
          rw (found, get_or_update)
            (rw hit (entry_at-truthful p cache e t found ∙ one_file e.path p hit, t))
      | inr miss ↦ rw (found, get_or_update) (rw miss (refl, insert_at-IsTruthful p _ cache refl t))
    ]
  ]

  -- A file is out of date for an output: it is missing, or written no earlier.
  abbrev pub stale : ℕ → Bytes → Bool
  stale output_time p = elim (mtime p) [
    | none ↦ true
    | some input_time ↦ not (ltb input_time output_time)
  ]

  is_changed-stale :
      (output_time : ℕ) (p : Bytes)
      → stale output_time p ≡ is_changed order mtime (mtime p) output_time
  is_changed-stale output_time p = ground arith

  abbrev pub any_stale : ℕ → List Bytes → Bool
  any_stale output_time [] = false
  any_stale output_time (p ∷ ps) = stale output_time p || any_stale output_time ps

  changed_since-Answers :
      IsClockOf order mtime
      → (p : Bytes) (t : ℕ) (cache : Cache) → IsTruthful cache
      → Answers (stale t p) (changed_since order mtime p t cache)
  unfolding changed_since
  changed_since-Answers one_file p t cache h =
      let (e, h') = get_or_update-Answers one_file p cache h in
      (ap (λ o. is_changed order mtime o t) e ∙ sym (is_changed-stale t p), h')

  or_else-Answers :
      (a b : Bool) (r : Bool × Cache) (f : Cache → Bool × Cache)
      → Answers a r
      → ((c : Cache) → IsTruthful c → Answers b (f c))
      → Answers (a || b) (or_else r f)
  or_else-Answers a b (true, c) f (e, h) next = rw (← e) (refl, h)
  or_else-Answers a b (false, c) f (e, h) next = rw (← e) (next c h)

  any_changed-Answers :
      IsClockOf order mtime
      → (ps : List Bytes) (t : ℕ) (cache : Cache) → IsTruthful cache
      → Answers (any_stale t ps) (any_changed order mtime ps t cache)
  unfolding any_changed
  any_changed-Answers one_file [] t cache h = (refl, h)
  any_changed-Answers one_file (p ∷ ps) t cache h =
      or_else-Answers (stale t p) (any_stale t ps) (changed_since order mtime p t cache) _
        (changed_since-Answers one_file p t cache h)
        (λ c h'. any_changed-Answers one_file ps t c h')

  -- What `needs_rebuild` decides, without a cache.
  abbrev pub must_rebuild : (Bytes → Bool) → Bytes → BuildStep → Result Bool
  must_rebuild exists build_file step =
      if exists step.output
      then elim (mtime step.output) [
        | none ↦ thrown (cannot_map step.output)
        | some t ↦ ok (
            stale t build_file
            || (any_stale t (or_empty step.depfile_inputs)
                || (any_stale t (or_empty step.opaque_inputs) || any_stale t step.parsed_inputs)))
      ]
      else ok true

  inputs_changed-Answers :
      IsClockOf order mtime
      → (build_file : Bytes) (step : BuildStep) (t : ℕ) (cache : Cache) → IsTruthful cache
      → Answers
          (stale t build_file
            || (any_stale t (or_empty step.depfile_inputs)
                || (any_stale t (or_empty step.opaque_inputs) || any_stale t step.parsed_inputs)))
          (inputs_changed order mtime build_file step t cache)
  unfolding inputs_changed
  inputs_changed-Answers one_file build_file step t cache h =
      or_else-Answers _ _ _ _ (changed_since-Answers one_file build_file t cache h) (λ c₁ h₁.
        or_else-Answers _ _ _ _
          (any_changed-Answers one_file (or_empty step.depfile_inputs) t c₁ h₁)
          (λ c₂ h₂.
            or_else-Answers _ _ _ _
              (any_changed-Answers one_file (or_empty step.opaque_inputs) t c₂ h₂)
              (λ c₃ h₃. any_changed-Answers one_file step.parsed_inputs t c₃ h₃)))

  abbrev pub IsDecision : Result Bool → Result (Bool × Cache) → Type 0
  IsDecision (ok b) (ok r) = Answers b r
  IsDecision (thrown e) (thrown e') = e ≡ e'
  IsDecision _ _ = ⊥

  -- What holds of a decision and what the code computes for it.
  pub IsDecision_cases {ℓ} :
      (P : Result Bool → Result (Bool × Cache) → Type ℓ)
      → ((b : Bool) (r : Bool × Cache) → r.0 ≡ b → IsTruthful r.1 → P (ok b) (ok r))
      → ((e e' : Error) → e ≡ e' → P (thrown e) (thrown e'))
      → (d : Result Bool) (r : Result (Bool × Cache)) → IsDecision d r
      → P d r
  IsDecision_cases P decided failed (ok b) (ok r) h = decided b r h.0 h.1
  IsDecision_cases P decided failed (ok b) (unexpected e) h = absurd h
  IsDecision_cases P decided failed (ok b) (thrown e) h = absurd h
  IsDecision_cases P decided failed (unexpected e) (ok r) h = absurd h
  IsDecision_cases P decided failed (unexpected e) (unexpected e') h = absurd h
  IsDecision_cases P decided failed (unexpected e) (thrown e') h = absurd h
  IsDecision_cases P decided failed (thrown e) (ok r) h = absurd h
  IsDecision_cases P decided failed (thrown e) (unexpected e') h = absurd h
  IsDecision_cases P decided failed (thrown e) (thrown e') h = failed e e' h

  -- Equal paths name one file. With a cache that holds nothing false, a step is rebuilt exactly if its output is missing, or the manifest, a
  -- name of its depfile, an opaque or a plain input is missing or at least as new as the output;
  -- and the cache still holds nothing false.
  pub needs_rebuild-must_rebuild :
      IsClockOf order mtime
      → (exists : Bytes → Bool) (build_file : Bytes) (step : BuildStep) (cache : Cache)
      → IsTruthful cache
      → IsDecision
          (must_rebuild exists build_file step)
          (needs_rebuild order mtime exists build_file step cache)
  unfolding needs_rebuild
  needs_rebuild-must_rebuild one_file exists build_file step cache h =
      elim (Bool-cases (exists step.output)) [
        | inr gone ↦ rw gone (refl, h)
        | inl there ↦ elim (Option-cases (mtime step.output)) [
          | inl e ↦ rw (there, e) refl
          | inr (t, e) ↦ rw (there, e) (inputs_changed-Answers one_file build_file step t cache h)
        ]
      ]
