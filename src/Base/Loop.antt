-- ===== src/Base/Loop.antt =====
-- `while` loops: a round of the body is a function that returns the next state, or `none` where
-- the loop is left.
use Prim.Native.Nat.{ℕ, zero, suc, ◌≤◌, ◌<◌}
use mathlib.Core.Path.{◌≡◌, refl}
use mathlib.Core.Logic.{inl, inr}
use mathlib.Core.Option.{Option, none, some}
use native.Mathlib.Omega.{arith}
use catalyst_build_executor.Base.Tests.{Option-cases}

module _ {ℓ} {S : Type ℓ} where
  unfoldable pub iterate : (S → Option S) → ℕ → S → S
  iterate body zero s = s
  iterate body (suc fuel) s = elim (body s) [ none ↦ s | some s' ↦ iterate body fuel s' ]

  pub iterate_stop :
      (body : S → Option S) (fuel : ℕ) (s : S) → body s ≡ none → iterate body fuel s ≡ s
  unfolding iterate
  iterate_stop body zero s e = refl
  iterate_stop body (suc fuel) s e = rw (e, iterate)

  pub iterate_next :
      (body : S → Option S) (fuel : ℕ) (s : S) {s' : S}
      → body s ≡ some s'
      → iterate body (suc fuel) s ≡ iterate body fuel s'
  unfolding iterate
  iterate_next body fuel s e = rw (e, iterate)

  module _ (body : S → Option S) (measure : S → ℕ)
      (shrinks : (s s' : S) → body s ≡ some s' → measure s' < measure s) where
    -- With a falling measure, fuel up to the measure brings the loop to its end.
    pub iterate_ends : (fuel : ℕ) (s : S) → measure s ≤ fuel → body (iterate body fuel s) ≡ none
    unfolding iterate
    iterate_ends zero s h = elim (Option-cases (body s)) [
      | inl e ↦ e
      | inr (s', e) ↦ absurd (omega (arith, shrinks s s' e))
    ]
    iterate_ends (suc fuel) s h = elim (Option-cases (body s)) [
      | inl e ↦ rw (e, iterate) e
      | inr (s', e) ↦ rw (e, iterate) (iterate_ends fuel s' (omega (arith, shrinks s s' e)))
    ]

  -- A property that each round keeps holds of the final state.
  pub iterate_inv {κ} :
      (P : S → Type κ) (body : S → Option S)
      → ((s s' : S) → body s ≡ some s' → P s → P s')
      → (fuel : ℕ) (s : S) → P s
      → P (iterate body fuel s)
  unfolding iterate
  iterate_inv P body keep zero s p = p
  iterate_inv P body keep (suc fuel) s p = elim (Option-cases (body s)) [
    | inl e ↦ rw (e, iterate) p
    | inr (s', e) ↦ rw (e, iterate) (iterate_inv P body keep fuel s' (keep s s' e p))
  ]
