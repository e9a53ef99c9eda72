-- ===== src/Fields/Loop.antt =====
-- The loop, and its meaning as a fold over the fields.
use catalyst_build_executor.Base.Loop.{iterate}
use catalyst_build_executor.Base.{
  ℕ, zero, suc, ◌≤◌, ◌≡◌, refl, ◌∙◌, sym, Bytes, [], ◌∷◌, Option, none, some, length, arith, foldl,
  split_first, split_on, inl, inr, split_on-split_first, length-split_first-lt,
}

module _ {ℓ} {S : Type ℓ} (add : S → Bytes → S) where
  -- `if (in_path.empty()) continue;`
  abbrev pub add_field : S → Bytes → S
  add_field s [] = s
  add_field s (c ∷ path) = add s (c ∷ path)

  -- One round of `while (!remaining.empty())`.
  unfoldable pub field_round : S × Bytes → Option (S × Bytes)
  field_round (s, []) = none
  field_round (s, c ∷ r) =
      let (in_path, remaining) = split_first b',' (c ∷ r) in some (add_field s in_path, remaining)

  unfoldable pub for_each_field : S → Bytes → S
  for_each_field s inputs = (iterate field_round (length inputs) (s, inputs)).0

  foldl-split_on :
      (c : ℕ) (s : S) (t : Bytes)
      → foldl add_field s (split_on c t)
        ≡ foldl add_field (add_field s (split_first c t).0) (split_on c (split_first c t).1)
  unfolding split_on
  foldl-split_on c s t = elim (split_on-split_first c t) [
    | inl (e, empty) ↦ rw (e, empty)
    | inr e ↦ rw e
  ]

  field_loop :
      (fuel : ℕ) (s : S) (t : Bytes)
      → length t ≤ fuel
      → (iterate field_round fuel (s, t)).0 ≡ foldl add_field s (split_on b',' t)
  unfolding iterate field_round split_on
  field_loop zero s [] room = refl
  field_loop (suc fuel) s [] room = refl
  field_loop zero s (c ∷ t) room = absurd (omega arith)
  field_loop (suc fuel) s (c ∷ t) room =
      field_loop fuel _ (split_first b',' (c ∷ t)).1 (omega (arith, length-split_first-lt b',' c t))
      ∙ sym (foldl-split_on b',' s (c ∷ t))

  -- The loop treats the fields between the commas in order, and passes over the empty ones.
  pub for_each_field_lem :
      (s : S) (inputs : Bytes) → for_each_field s inputs ≡ foldl add_field s (split_on b',' inputs)
  unfolding for_each_field
  for_each_field_lem s inputs = field_loop (length inputs) s inputs (omega arith)
