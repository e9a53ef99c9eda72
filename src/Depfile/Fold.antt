-- ===== src/Depfile/Fold.antt =====
-- The reader calls back once for each name, whatever the callback does: it is a fold over the
-- list of names that the text holds.
use mathlib.Core.List.{foldl-append}
use mathlib.Core.Option
use catalyst_build_executor.Base.Loop.{iterate}
use catalyst_build_executor.Base.{
  ℕ, zero, suc, ◌+◌, ◌≡◌, refl, ap, Bytes, List, [], ◌∷◌, ◌++◌, some, foldl, find, drop, length,
  Option-cases, inl, inr, sym,
}
use catalyst_build_executor.Depfile.{
  skip_whitespace, extract_token, Scan, deliver, depfile_at, depfile_round, depfile_loop,
  parse_content,
}

abbrev snoc : List Bytes → Bytes → List Bytes
snoc xs x = xs ++ x ∷ []

-- The names in a dependency file.
pub dep_names : Bytes → List Bytes
dep_names content = parse_content snoc [] content

module _ {ℓ} {S : Type ℓ} (callback : S → Bytes → S) (start : S) where
  deliver-fold :
      (xs : List Bytes) (x : Scan)
      → deliver callback (foldl callback start xs) x
        ≡ (foldl callback start (deliver snoc xs x).0, (deliver snoc xs x).1)
  deliver-fold xs ([], ptr) = refl
  deliver-fold xs (c ∷ t, ptr) =
      ap (λ s. (s, ptr)) (sym (foldl-append callback start xs ((c ∷ t) ∷ [])))

  abbrev both : List Bytes × Bytes → S × Bytes
  both (xs, ptr) = (foldl callback start xs, ptr)

  round_at-fold :
      (xs : List Bytes) (ptr : Bytes)
      → depfile_at callback (foldl callback start xs) ptr ≡ Option.map both (depfile_at snoc xs ptr)
  round_at-fold xs [] = refl
  round_at-fold xs (c ∷ ptr) = ap some (deliver-fold xs (extract_token (c ∷ ptr)))

  round-fold :
      (x : List Bytes × Bytes)
      → depfile_round callback (both x) ≡ Option.map both (depfile_round snoc x)
  unfolding depfile_round
  round-fold (xs, []) = refl
  round-fold (xs, c ∷ ptr) = round_at-fold xs (skip_whitespace (c ∷ ptr))

  loop-fold :
      (fuel : ℕ) (x : List Bytes × Bytes)
      → iterate (depfile_round callback) fuel (both x) ≡ both (iterate (depfile_round snoc) fuel x)
  unfolding iterate
  loop-fold zero x = refl
  loop-fold (suc fuel) x = elim (Option-cases (depfile_round snoc x)) [
    | inl e ↦ rw (round-fold x, iterate) (rw (e, iterate))
    | inr (y, e) ↦ rw (round-fold x, iterate) (rw (e, iterate) (loop-fold fuel y))
  ]

  pub parse_content-fold :
      (content : Bytes)
      → parse_content callback start content ≡ foldl callback start (dep_names content)
  unfolding dep_names parse_content depfile_loop
  parse_content-fold content = elim (Option-cases (find b':' content)) [
    | inl e ↦ rw (e, parse_content)
    | inr (i, e) ↦
        rw (e, parse_content)
          (ap (λ x. x.0) (loop-fold (length (drop (i + 1) content)) ([], drop (i + 1) content)))
  ]
