-- ===== src/WorkEstimate/RoundTrip.antt =====
-- A file of estimates (src/work_estimate.cpp) that is written in the format that the source's comment
-- gives, one line `<file_path>|<estimate_as_int>` for each path, is read as what was written.
use mathlib.Core.List.Memᴰ
use catalyst_build_executor.Base.{
  split_on-append, find-append, find-append_self, drop-append_self, substr-append_left, ℕ, suc, ◌≤◌,
  ◌≡◌, refl, sym, ap, ◌∙◌, subst, ◌⊎◌, inl, inr, true, false, Bytes, List, [], ◌∷◌, ◌++◌, none,
  some, map, All, arith, Bool-cases, Memᴰ, bytes_eq, bytes_eq_iff, split_on, substr, find,
}
use catalyst_build_executor.Chars.{
  is_digit, size_max, decimal, decimal_digits-digits, from_chars-decimal,
}
use catalyst_build_executor.WorkEstimate.{
  EstimateEntry, entry_of, entries, load, number_of, get_work_estimate,
}
use catalyst_build_executor.WorkEstimate.Least.{lesser, least_value, get_work_estimate-least_value}

abbrev pub line_of : Bytes × ℕ → Bytes
line_of pair = pair.0 ++ b'|' ∷ decimal pair.1

abbrev pub file_of : List (Bytes × ℕ) → Bytes
file_of [] = []
file_of (pair ∷ pairs) = line_of pair ++ 0x0a ∷ file_of pairs

-- The path holds no separator, and the number fits.
abbrev pub IsWritable : Bytes × ℕ → Type 0
IsWritable pair = (find b'|' pair.0 ≡ none) × (find 0x0a pair.0 ≡ none) × (pair.1 ≤ size_max)

abbrev pub entry_for : Bytes × ℕ → EstimateEntry
entry_for pair = record { path = pair.0; value = decimal pair.1 }

find-digits :
    (c : ℕ) (s : Bytes) → is_digit c ≡ false → All (λ d. is_digit d ≡ true) s → find c s ≡ none
unfolding find
find-digits c [] n h = refl
find-digits c (d ∷ s) n h = ground (arith, find-digits c s n h.1, h.0)

find-decimal : (n : ℕ) → find 0x0a (decimal n) ≡ none
unfolding decimal
find-decimal n = find-digits 0x0a (decimal n) refl (decimal_digits-digits (suc n) n (omega arith))

find-line_of : (pair : Bytes × ℕ) → IsWritable pair → find 0x0a (line_of pair) ≡ none
unfolding find
find-line_of (p, n) h = find-append 0x0a p (b'|' ∷ decimal n) h.1 (ground (arith, find-decimal n))

entry_of-cut :
    (p v : Bytes)
    → find b'|' p ≡ none
    → entry_of (p ++ b'|' ∷ v) ≡ some (record { path = p; value = v })
unfolding entry_of find substr
entry_of-cut [] v h = refl
entry_of-cut (c ∷ p) v h =
    rw
      (
        entry_of,
        find-append_self b'|' (c ∷ p) v h,
        substr-append_left (c ∷ p) (b'|' ∷ v),
        drop-append_self b'|' (c ∷ p) v,
      )
      refl

entries-file_of :
    (pairs : List (Bytes × ℕ))
    → All IsWritable pairs
    → entries (split_on 0x0a (file_of pairs)) ≡ map entry_for pairs
unfolding entries split_on entry_of
entries-file_of [] h = refl
entries-file_of (pair ∷ pairs) (h, hs) =
    rw
      (
        split_on-append 0x0a (line_of pair) (file_of pairs) (find-line_of pair h),
        entries,
        entry_of-cut pair.0 (decimal pair.1) h.0,
      )
      (ap (λ es. entry_for pair ∷ es) (entries-file_of pairs hs))

lesser_self : (v : Bytes) → lesser v (some v) ≡ v
lesser_self v = ground arith

-- The value of a path of which every line holds the same number.
least_value-lines :
    (pairs : List (Bytes × ℕ)) (path : Bytes) (n : ℕ)
    → ((m : ℕ) → Memᴰ (path, m) pairs → m ≡ n)
    → (least_value path (map entry_for pairs) ≡ none)
      ⊎ (least_value path (map entry_for pairs) ≡ some (decimal n))
least_value-lines [] path n h = inl refl
least_value-lines ((p, m) ∷ pairs) path n h =
    let rest = least_value-lines pairs path n (λ k at_k. h k (Memᴰ.tail at_k)) in
    elim (Bool-cases (bytes_eq p path)) [
      | inr differ ↦ rw differ rest
      | inl same ↦
          let e : m ≡ n = h m (Memᴰ.head (ap (λ q. (q, m)) (sym ((bytes_eq_iff p path).0 same)))) in
          rw (same, e)
            (elim rest [
              | inl absent ↦ inr (ap some (ap (lesser (decimal n)) absent))
              | inr present ↦
                  inr (ap some (ap (lesser (decimal n)) present ∙ lesser_self (decimal n)))
            ])
    ]

least_value-line :
    (pairs : List (Bytes × ℕ)) (path : Bytes) (n : ℕ)
    → Memᴰ (path, n) pairs
    → ((m : ℕ) → Memᴰ (path, m) pairs → m ≡ n)
    → least_value path (map entry_for pairs) ≡ some (decimal n)
least_value-line [] path n at_n h = absurd (Memᴰ.not-nil at_n)
least_value-line ((p, m) ∷ pairs) path n at_n h =
    elim (least_value-lines ((p, m) ∷ pairs) path n h) [
      | inr present ↦ present
      | inl absent ↦ elim (Memᴰ.cases_cons at_n) [
        | inl here ↦
            let same = (bytes_eq_iff p path).1 (sym (ap (λ q. q.0) here)) in
            ground (arith, absent, same)
        | inr behind ↦
            let rest = least_value-line pairs path n behind (λ k at_k. h k (Memᴰ.tail at_k)) in
            ground (arith, absent, rest)
      ]
    ]

number_of-decimal : (n : ℕ) → n ≤ size_max → number_of (some (decimal n)) ≡ n
number_of-decimal n h = ap (λ o. elim o [ none ↦ 0 | some val ↦ val ]) (from_chars-decimal n h)

n_fits :
    (pairs : List (Bytes × ℕ)) {path : Bytes} {n : ℕ}
    → All IsWritable pairs
    → Memᴰ (path, n) pairs
    → n ≤ size_max
n_fits [] h at_n = absurd (Memᴰ.not-nil at_n)
n_fits ((p, m) ∷ pairs) {path} {n} (h, hs) at_n = elim (Memᴰ.cases_cons at_n) [
  | inl here ↦ subst (λ k. k ≤ size_max) (sym (ap (λ q. q.1) here)) h.2
  | inr behind ↦ n_fits pairs hs behind
]

-- Lines are written for paths without `|` and line break and for numbers of 64 bits. Where all lines of a
-- path hold the same number, and there is such a line, this number is its estimate.
pub get_work_estimate-file_of :
    (pairs : List (Bytes × ℕ)) (path : Bytes) (n : ℕ)
    → All IsWritable pairs
    → Memᴰ (path, n) pairs
    → ((m : ℕ) → Memᴰ (path, m) pairs → m ≡ n)
    → get_work_estimate (load (some (file_of pairs))) path ≡ n
unfolding load
get_work_estimate-file_of pairs path n h at_n only =
    get_work_estimate-least_value (entries (split_on 0x0a (file_of pairs))) path
    ∙ ap (λ es. number_of (least_value path es)) (entries-file_of pairs h)
    ∙ ap number_of (least_value-line pairs path n at_n only)
    ∙ number_of-decimal n (n_fits pairs h at_n)
