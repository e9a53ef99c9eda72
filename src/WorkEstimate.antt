-- ===== src/WorkEstimate.antt =====
-- src/work_estimate.cpp and include/cbe/work_estimate.hpp: the estimates of the steps, which the
-- scheduler asks for. The texts are the bytes of the mapped file, on a system without CRLF lines.
pub mod Least
pub mod RoundTrip
use catalyst_build_executor.Base.{
  lt_or_ge, ⊎_elim, sum_of-le_where, ℕ, zero, suc, ◌+◌, ◌-◌, ◌≤◌, ◌<◌, ◌≡◌, refl, sym, ap, ◌∙◌,
  subst, ◌↔◌, ◌⊎◌, inl, inr, ◌≢◌, Bool, true, false, ◌&&◌, ◌||◌, not, Bytes, List, [], ◌∷◌, ◌++◌,
  Option, none, some, map, foldl, length, get_or, modify, replicate, range_from, All, occ, sum_of,
  occ-append, occ_of_mem, mem_of_occ, occ-range_from, sum_of-le, length-sum_of, length-range_from,
  length-append, length-modify, length-replicate, arith, ◌==◌, leb, ltb, if◌then◌else◌, Bool-cases,
  Option-cases, Memᴰ, Memᴰ-append, get_or-modify, List-cases, codes, bytes_eq, bytes_eq_iff, lookup,
  emplace, lookup-emplace, split_on, starts_with, drop, take, substr, find, find_from, get_elem?,
  Memᴰ-cons, Memᴰ-nil, eq_of_some, ==_iff,
}
use catalyst_build_executor.Chars.{from_chars}

-- `EstimateEntry`
pub record EstimateEntry : Type 0 where
  pub path : Bytes
  pub value : Bytes

-- `operator<` of texts
unfoldable pub bytes_less : Bytes → Bytes → Bool
bytes_less s [] = false
bytes_less [] (b ∷ t) = true
bytes_less (a ∷ s) (b ∷ t) =
    let rest = bytes_less s t in if ltb a b then true else if ltb b a then false else rest

-- The order that `operator<=>` makes: by the path, then by the value.
unfoldable pub entry_less : EstimateEntry → EstimateEntry → Bool
entry_less x y = bytes_less x.path y.path || (bytes_eq x.path y.path && bytes_less x.value y.value)

-- What the loop makes of a line.
unfoldable pub entry_of : Bytes → Option EstimateEntry
entry_of [] = none
entry_of (c ∷ line) = elim (find b'|' (c ∷ line)) [
  | none ↦ none
  | some pipe_pos ↦
      some (record { path = substr (c ∷ line) 0 pipe_pos; value = drop (pipe_pos + 1) (c ∷ line) })
]

abbrev pub push_some {ℓ} : {A : Type ℓ} → Option A → List A → List A
push_some none xs = xs
push_some (some x) xs = x ∷ xs

-- The loop over the lines. The empty piece behind the last line break is no line of the
-- source, and like an empty line it makes no entry.
unfoldable pub entries : List Bytes → List EstimateEntry
entries [] = []
entries (line ∷ lines) = push_some (entry_of line) (entries lines)

-- `std::ranges::sort`
unfoldable pub insert_entry : EstimateEntry → List EstimateEntry → List EstimateEntry
insert_entry e [] = e ∷ []
insert_entry e (x ∷ xs) =
    let rest = insert_entry e xs in if entry_less x e then x ∷ rest else e ∷ x ∷ xs

unfoldable pub sort : List EstimateEntry → List EstimateEntry
sort [] = []
sort (e ∷ es) = insert_entry e (sort es)

-- The constructor, with the content of the file; where it cannot be mapped there are no entries.
unfoldable pub load : Option Bytes → List EstimateEntry
load none = []
load (some content) = sort (entries (split_on 0x0a content))

-- `std::ranges::lower_bound` by the path
unfoldable pub lower_bound : Bytes → List EstimateEntry → Option EstimateEntry
lower_bound path [] = none
lower_bound path (e ∷ es) =
    let rest = lower_bound path es in if bytes_less e.path path then rest else some e

abbrev pub value_of : Bytes → Option EstimateEntry → Option Bytes
value_of path none = none
value_of path (some e) = if bytes_eq e.path path then some e.value else none

-- The number at the start of a value, and 0 where there is none.
abbrev pub number_of : Option Bytes → ℕ
number_of none = 0
number_of (some value) = elim (from_chars value) [ none ↦ 0 | some val ↦ val ]

-- `getWorkEstimate`
unfoldable pub get_work_estimate : List EstimateEntry → Bytes → ℕ
get_work_estimate estimates path = number_of (value_of path (lower_bound path estimates))
