-- ===== src/Base/Text.antt =====
-- `std::string_view` as a list of bytes, and maps with such keys (`std::unordered_map`) as
-- association lists.
use Prim.Native.Nat.{ℕ, zero, suc, ◌+◌, ◌<◌}
use Prim.Native.String.{String}
use Prim.Native.Char.{code}
use mathlib.Core.Path.{◌≡◌, refl, ap, ◌∙◌}
use mathlib.Core.Logic.{◌↔◌, ◌⊎◌, inl, inr}
use mathlib.Core.Bool.{Bool, true, false, ◌&&◌}
use mathlib.Core.Option
use mathlib.Core.Option.{Option, none, some}
use mathlib.Core.List.{List, [], ◌∷◌, ◌++◌}
use native.Mathlib.Omega.{arith}
use catalyst_build_executor.Base.Tests.{◌==◌, if◌then◌else◌, Option-cases}
use catalyst_build_executor.Base.Lists.{length, take, drop, length-drop}

abbrev pub Bytes : Type 0
Bytes = List ℕ

abbrev pub codes : String → Bytes
codes String.[] = []
codes (String.◌∷◌ c s) = code c ∷ codes s

-- `a == b` on string views.
unfoldable pub bytes_eq : Bytes → Bytes → Bool
bytes_eq [] [] = true
bytes_eq (a ∷ s) (b ∷ t) = a == b && bytes_eq s t
bytes_eq _ _ = false

pub bytes_eq_iff : (s t : Bytes) → (bytes_eq s t ≡ true) ↔ (s ≡ t)
unfolding bytes_eq
bytes_eq_iff [] [] = ground arith
bytes_eq_iff (a ∷ s) (b ∷ t) = ground (arith, bytes_eq_iff s t)
bytes_eq_iff [] (b ∷ t) = ground arith
bytes_eq_iff (a ∷ s) [] = ground arith

pub bytes_eq_refl : (s : Bytes) → bytes_eq s s ≡ true
bytes_eq_refl s = (bytes_eq_iff s s).1 refl

-- `s.starts_with(p)`
unfoldable pub starts_with : Bytes → Bytes → Bool
starts_with s [] = true
starts_with [] (_ ∷ _) = false
starts_with (a ∷ s) (b ∷ p) = a == b && starts_with s p

-- `s.find(c)`: the first position of a byte, `none` for npos.
unfoldable pub find : ℕ → Bytes → Option ℕ
find c [] = none
find c (b ∷ s) = if b == c then some 0 else Option.map suc (find c s)

pub find-append_self :
    (c : ℕ) (s t : Bytes) → find c s ≡ none → find c (s ++ c ∷ t) ≡ some (length s)
unfolding find
find-append_self c [] t h = ground arith
find-append_self c (b ∷ s) t h = ground (arith, find-append_self c s t)

pub drop-append_self : (c : ℕ) (s t : Bytes) → drop (length s + 1) (s ++ c ∷ t) ≡ t
drop-append_self c [] t = refl
drop-append_self c (b ∷ s) t =
    ap (λ n. drop n (b ∷ (s ++ c ∷ t)))
      (let e : length (b ∷ s) + 1 ≡ suc (length s + 1) = omega arith in e)
    ∙ drop-append_self c s t

-- `s.find(c, pos)`
unfoldable pub find_from : ℕ → Bytes → ℕ → Option ℕ
find_from c s pos = Option.map (λ i. pos + i) (find c (drop pos s))

-- `s.substr(pos, n)` and `s.substr(pos)`, where pos is at most the size.
unfoldable pub substr : Bytes → ℕ → ℕ → Bytes
substr s pos n = take n (drop pos s)

pub substr-append_left : (s t : Bytes) → substr (s ++ t) 0 (length s) ≡ s
unfolding substr
substr-append_left [] t = refl
substr-append_left (c ∷ s) t = ap (λ x. c ∷ x) (substr-append_left s t)

module _ {ℓ} {V : Type ℓ} where
  unfoldable pub lookup : Bytes → List (Bytes × V) → Option V
  lookup k [] = none
  lookup k ((j, v) ∷ m) = if bytes_eq j k then some v else lookup k m

  -- `m.emplace(k, v)`: a key that is there keeps its value.
  unfoldable pub emplace : Bytes → V → List (Bytes × V) → List (Bytes × V)
  emplace k v [] = (k, v) ∷ []
  emplace k v ((j, w) ∷ m) = if bytes_eq j k then (j, w) ∷ m else (j, w) ∷ emplace k v m

  pub lookup-emplace :
      (k j : Bytes) (v : V) (m : List (Bytes × V))
      → lookup j (emplace k v m)
        ≡ (if bytes_eq k j then some (Option.get_or (lookup k m) v) else lookup j m)
  unfolding lookup emplace
  lookup-emplace k j v [] = refl
  lookup-emplace k j v ((i, w) ∷ m) =
      ground (arith, bytes_eq_iff k j, bytes_eq_iff i k, bytes_eq_iff i j, lookup-emplace k j v m)

-- The first piece of a text that is cut at each byte `c`, and the text behind it: the lines
-- `pos = s.find(c)` with the two substrings, where npos leaves nothing.
unfoldable pub split_first : ℕ → Bytes → Bytes × Bytes
split_first c s = elim (find c s) [ none ↦ (s, []) | some i ↦ (substr s 0 i, drop (i + 1) s) ]

abbrev pub cons_head : ℕ → List Bytes → List Bytes
cons_head b [] = (b ∷ []) ∷ []
cons_head b (f ∷ fs) = (b ∷ f) ∷ fs

-- All the pieces, by one pass over the bytes.
unfoldable pub split_on : ℕ → Bytes → List Bytes
split_on c [] = [] ∷ []
split_on c (b ∷ s) = if b == c then [] ∷ split_on c s else cons_head b (split_on c s)

find-eq-none-split_on : (c : ℕ) (s : Bytes) → find c s ≡ none → split_on c s ≡ s ∷ []
unfolding find split_on
find-eq-none-split_on c [] e = refl
find-eq-none-split_on c (b ∷ s) e = ground (arith, find-eq-none-split_on c s)

find-eq-some-split_on :
    (c : ℕ) (s : Bytes) (i : ℕ)
    → find c s ≡ some i
    → split_on c s ≡ take i s ∷ split_on c (drop (suc i) s)
unfolding find split_on
find-eq-some-split_on c [] i e = cc
find-eq-some-split_on c (b ∷ s) zero e = ground (arith, find-eq-some-split_on c s zero)
find-eq-some-split_on c (b ∷ s) (suc i) e = ground (arith, find-eq-some-split_on c s i)

pub split_on-append :
    (c : ℕ) (s t : Bytes) → find c s ≡ none → split_on c (s ++ c ∷ t) ≡ s ∷ split_on c t
unfolding find split_on
split_on-append c [] t h = ground arith
split_on-append c (b ∷ s) t h = ground (arith, split_on-append c s t)

pub find-append : (c : ℕ) (s t : Bytes) → find c s ≡ none → find c t ≡ none → find c (s ++ t) ≡ none
unfolding find
find-append c [] t h h' = h'
find-append c (b ∷ s) t h h' = ground (arith, find-append c s t)

pub split_on-split_first :
    (c : ℕ) (s : Bytes)
    → (split_on c s ≡ (split_first c s).0 ∷ []) × ((split_first c s).1 ≡ [])
      ⊎ (split_on c s ≡ (split_first c s).0 ∷ split_on c (split_first c s).1)
unfolding split_first substr
split_on-split_first c s = elim (Option-cases (find c s)) [
  | inl e ↦ rw (e, split_first) (inl (find-eq-none-split_on c s e, refl))
  | inr (i, e) ↦
      rw (e, split_first)
        (inr (
          find-eq-some-split_on c s i e
          ∙ (let n : suc i ≡ i + 1 = omega arith in ap (λ n. take i s ∷ split_on c (drop n s)) n)))
]

-- Behind the first piece the text is shorter.
pub length-split_first-lt :
    (c b : ℕ) (s : Bytes) → length (split_first c (b ∷ s)).1 < length (b ∷ s)
unfolding split_first
length-split_first-lt c b s = elim (Option-cases (find c (b ∷ s))) [
  | inl e ↦ rw (e, split_first) (omega arith)
  | inr (i, e) ↦ rw (e, split_first) (omega (arith, length-drop (i + 1) (b ∷ s)))
]
