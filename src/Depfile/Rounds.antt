-- ===== src/Depfile/Rounds.antt =====
-- The loops of the depfile reader come to their end: each round takes at least one byte.
use native.Mathlib.Decide.{ℕ_discrete}
use catalyst_build_executor.Base.Loop.{
  iterate, iterate_ends, iterate_inv, iterate_stop, iterate_next,
}
use catalyst_build_executor.Base.{
  ℕ, ◌≤◌, ◌<◌, ◌≡◌, refl, Bytes, [], ◌∷◌, none, some, length, arith, Option-cases, inl, inr, ◌≢◌,
}
use catalyst_build_executor.Depfile.{
  backslash, skip_round, skip_whitespace, Scan, plain_round, escaped_round, extract_escaped,
  extract_token, deliver, depfile_at, depfile_round,
}

skip_round-shrinks : (s s' : Bytes) → skip_round s ≡ some s' → length s' < length s
unfolding skip_round
skip_round-shrinks [] s' e = cc
skip_round-shrinks (c ∷ []) s' e = ground arith
skip_round-shrinks (c ∷ d ∷ []) s' e = ground arith
skip_round-shrinks (c ∷ d ∷ b ∷ s) s' e = ground arith

pub skip_whitespace-stops : (s : Bytes) → skip_round (skip_whitespace s) ≡ none
unfolding skip_whitespace
skip_whitespace-stops s =
    iterate_ends skip_round length skip_round-shrinks (length s) s (omega arith)

pub length-skip_whitespace-le : (s : Bytes) → length (skip_whitespace s) ≤ length s
unfolding skip_whitespace
length-skip_whitespace-le s =
    iterate_inv (λ t. length t ≤ length s) skip_round
      (λ t t' e h. omega (arith, skip_round-shrinks t t' e)) (length s) s (omega arith)

pub plain_round-shrinks : (x x' : Scan) → plain_round x ≡ some x' → length x'.1 < length x.1
unfolding plain_round
plain_round-shrinks (t, []) x' e = cc
plain_round-shrinks (t, c ∷ s) x' e = ground arith

pub escaped_round-shrinks : (x x' : Scan) → escaped_round x ≡ some x' → length x'.1 < length x.1
unfolding escaped_round
escaped_round-shrinks (t, []) x' e = cc
escaped_round-shrinks (t, c ∷ []) x' e = ground arith
escaped_round-shrinks (t, c ∷ d ∷ s) x' e = ground arith

length-plain-le : (fuel : ℕ) (x : Scan) → length (iterate plain_round fuel x).1 ≤ length x.1
length-plain-le fuel x =
    iterate_inv (λ y. length y.1 ≤ length x.1) plain_round
      (λ y y' e h. omega (arith, plain_round-shrinks y y' e)) fuel x (omega arith)

length-escaped-le : (fuel : ℕ) (x : Scan) → length (iterate escaped_round fuel x).1 ≤ length x.1
length-escaped-le fuel x =
    iterate_inv (λ y. length y.1 ≤ length x.1) escaped_round
      (λ y y' e h. omega (arith, escaped_round-shrinks y y' e)) fuel x (omega arith)

length-extract_escaped-le : (x : Scan) → length (extract_escaped x).1 ≤ length x.1
unfolding extract_escaped
length-extract_escaped-le (t, []) = omega arith
length-extract_escaped-le (t, c ∷ s) = ground (arith, length-escaped-le (length (c ∷ s)) (t, c ∷ s))

-- Where the blanks are skipped, a scan takes a plain byte, or it stands at an escape.
first_plain :
    (c : ℕ) (s : Bytes)
    → skip_round (c ∷ s) ≡ none
    → c ≢ backslash
    → plain_round ([], c ∷ s) ≡ some (c ∷ [], s)
unfolding skip_round plain_round
first_plain c [] e h = ground arith
first_plain c (d ∷ s) e h = ground arith

plain-backslash : (s : Bytes) → plain_round ([], backslash ∷ s) ≡ none
unfolding plain_round
plain-backslash s = refl

escaped-backslash :
    (s : Bytes) → skip_round (backslash ∷ s) ≡ none → escaped_round ([], backslash ∷ s) ≢ none
unfolding skip_round escaped_round
escaped-backslash [] e h = cc
escaped-backslash (d ∷ s) e h = ground arith

extract-plain-shrinks :
    (c : ℕ) (s : Bytes)
    → plain_round ([], c ∷ s) ≡ some (c ∷ [], s)
    → length (extract_token (c ∷ s)).1 < length (c ∷ s)
unfolding extract_token
extract-plain-shrinks c s p = rw (iterate_next plain_round (length s) ([], c ∷ s) p) (
    omega (
      arith,
      length-extract_escaped-le (iterate plain_round (length s) (c ∷ [], s)),
      length-plain-le (length s) (c ∷ [], s),
    ))

extract-escaped-shrinks :
    (s : Bytes)
    → skip_round (backslash ∷ s) ≡ none
    → length (extract_token (backslash ∷ s)).1 < length (backslash ∷ s)
unfolding extract_token extract_escaped
extract-escaped-shrinks s e = elim (Option-cases (escaped_round ([], backslash ∷ s))) [
  | inl stop ↦ absurd (escaped-backslash s e stop)
  | inr (x, p) ↦
      rw (iterate_stop plain_round (length (backslash ∷ s)) ([], backslash ∷ s) (plain-backslash s))
        (rw (iterate_next escaped_round (length s) ([], backslash ∷ s) p) (
          omega
            (arith, length-escaped-le (length s) x, escaped_round-shrinks ([], backslash ∷ s) x p)))
]

-- Every round of the main loop takes a byte: behind blanks stands a token.
pub extract_token-shrinks :
    (c : ℕ) (s : Bytes)
    → skip_round (c ∷ s) ≡ none
    → length (extract_token (c ∷ s)).1 < length (c ∷ s)
extract_token-shrinks c s e = elim (ℕ_discrete c backslash) [
  | yes p ↦ rw p (extract-escaped-shrinks s (rw p at e))
  | no n ↦ extract-plain-shrinks c s (first_plain c s e n)
]

module _ {ℓ} {S : Type ℓ} (callback : S → Bytes → S) where
  length-deliver : (s : S) (x : Scan) → (deliver callback s x).1 ≡ x.1
  length-deliver s ([], ptr) = refl
  length-deliver s (c ∷ t, ptr) = refl

  depfile_at-shrinks :
      (s : S) (ptr : Bytes) {x' : S × Bytes}
      → skip_round ptr ≡ none
      → depfile_at callback s ptr ≡ some x'
      → length x'.1 < length ptr
  depfile_at-shrinks s [] stop e = cc
  depfile_at-shrinks s (c ∷ ptr) stop e =
      ground (arith, length-deliver s (extract_token (c ∷ ptr)), extract_token-shrinks c ptr stop)

  pub depfile_round-shrinks :
      (x x' : S × Bytes) → depfile_round callback x ≡ some x' → length x'.1 < length x.1
  unfolding depfile_round
  depfile_round-shrinks (s, []) x' e = cc
  depfile_round-shrinks (s, c ∷ ptr) x' e = omega (
    arith,
    depfile_at-shrinks s (skip_whitespace (c ∷ ptr)) (skip_whitespace-stops (c ∷ ptr)) e,
    length-skip_whitespace-le (c ∷ ptr),
  )

  -- The main loop ends by itself: with the length of the text as fuel no round is left to do.
  pub depfile_loop_ends :
      (s : S) (ptr : Bytes)
      → depfile_round callback (iterate (depfile_round callback) (length ptr) (s, ptr)) ≡ none
  depfile_loop_ends s ptr =
      iterate_ends (depfile_round callback) (λ x. length x.1) depfile_round-shrinks (length ptr)
        (s, ptr) (omega arith)
