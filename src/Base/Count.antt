-- ===== src/Base/Count.antt =====
-- How often a number stands in a list, and sums over the elements of a list.
use Prim.Native.Nat.{ℕ, zero, suc, ◌+◌, ◌≤◌, ◌<◌}
use mathlib.Core.Path.{◌≡◌, refl, sym}
use mathlib.Core.Logic.{inl, inr}
use mathlib.Core.List.{List, [], ◌∷◌, ◌++◌, Memᴰ}
use mathlib.Core.List.Memᴰ
use native.Mathlib.Decide.{ℕ_discrete}
use native.Mathlib.Omega.{arith}
use catalyst_build_executor.Base.Tests.{◌==◌, if◌then◌else◌}
use catalyst_build_executor.Base.Lists.{length, range_from}

-- The number of times a number stands in a list.
abbrev pub occ : ℕ → List ℕ → ℕ
occ v [] = 0
occ v (x ∷ xs) = (if x == v then 1 else 0) + occ v xs

abbrev pub sum_of : (ℕ → ℕ) → List ℕ → ℕ
sum_of f [] = 0
sum_of f (x ∷ xs) = f x + sum_of f xs

pub occ-append : (v : ℕ) (xs ys : List ℕ) → occ v (xs ++ ys) ≡ occ v xs + occ v ys
occ-append v [] ys = omega arith
occ-append v (x ∷ xs) ys = omega (arith, occ-append v xs ys)

pub occ_of_mem : (v : ℕ) (xs : List ℕ) → Memᴰ v xs → 0 < occ v xs
occ_of_mem v [] m = absurd (Memᴰ.not-nil m)
occ_of_mem v (x ∷ xs) m = elim (Memᴰ.cases_cons m) [
  | inl e ↦ ground arith
  | inr m' ↦ omega (arith, occ_of_mem v xs m')
]

pub mem_of_occ : (v : ℕ) (xs : List ℕ) → 0 < occ v xs → Memᴰ v xs
mem_of_occ v [] h = absurd (omega arith)
mem_of_occ v (x ∷ xs) h = elim (ℕ_discrete x v) [
  | yes e ↦ Memᴰ.head (sym e)
  | no n ↦ Memᴰ.tail (mem_of_occ v xs (ground arith))
]

pub occ-range_from :
    (v k n : ℕ)
    → (k ≤ v → v < k + n → occ v (range_from k n) ≡ 1)
      × (v < k → occ v (range_from k n) ≡ 0)
      × (k + n ≤ v → occ v (range_from k n) ≡ 0)
occ-range_from v k zero = (λ a b. absurd (omega arith), λ a. refl, λ a. refl)
occ-range_from v k (suc n) =
    let (inside, below, above) = occ-range_from v (suc k) n in
    (
      λ a b. elim (ℕ_discrete k v) [
        | yes e ↦ ground (arith, below)
        | no d ↦ ground (arith, inside)
      ],
      λ a. ground (arith, below),
      λ a. ground (arith, above),
    )

abbrev erase_one : ℕ → List ℕ → List ℕ
erase_one x [] = []
erase_one x (y ∷ ys) = if y == x then ys else y ∷ erase_one x ys

occ-erase_one :
    (x v : ℕ) (ys : List ℕ)
    → 0 < occ x ys
    → (if x == v then 1 else 0) + occ v (erase_one x ys) ≡ occ v ys
occ-erase_one x v [] h = absurd (omega arith)
occ-erase_one x v (y ∷ ys) h = ground (arith, occ-erase_one x v ys)

sum_of-erase_one :
    (f : ℕ → ℕ) (x : ℕ) (ys : List ℕ) → 0 < occ x ys → f x + sum_of f (erase_one x ys) ≡ sum_of f ys
sum_of-erase_one f x [] h = absurd (omega arith)
sum_of-erase_one f x (y ∷ ys) h = elim (ℕ_discrete y x) [
  | yes e ↦ ground arith
  | no n ↦ ground (arith, sum_of-erase_one f x ys)
]

-- A list with no more of each element that counts has no larger sum.
pub sum_of-le_where :
    (f : ℕ → ℕ) (xs ys : List ℕ)
    → ((v : ℕ) → 0 < f v → occ v xs ≤ occ v ys)
    → sum_of f xs ≤ sum_of f ys
sum_of-le_where f [] ys h = omega arith
sum_of-le_where f (x ∷ xs) ys h = elim (ℕ_discrete (f x) 0) [
  | yes z ↦ omega (arith, sum_of-le_where f xs ys (λ v p. omega (arith, h v p)))
  | no n ↦
      let has : 0 < occ x ys = ground (arith, h x) in
      omega (
        arith,
        sum_of-erase_one f x ys has,
        sum_of-le_where f xs (erase_one x ys)
            (λ v p. omega (arith, h v p, occ-erase_one x v ys has)),
      )
]

pub sum_of-le :
    (f : ℕ → ℕ) (xs ys : List ℕ) → ((v : ℕ) → occ v xs ≤ occ v ys) → sum_of f xs ≤ sum_of f ys
sum_of-le f xs ys h = sum_of-le_where f xs ys (λ v p. h v)

pub length-sum_of : (xs : List ℕ) → sum_of (λ _. 1) xs ≡ length xs
length-sum_of [] = refl
length-sum_of (x ∷ xs) = omega (arith, length-sum_of xs)

pub length-range_from : (k n : ℕ) → length (range_from k n) ≡ n
length-range_from k zero = refl
length-range_from k (suc n) = omega (arith, length-range_from (suc k) n)
