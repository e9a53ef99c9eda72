-- ===== src/MappedFile.antt =====
-- `MappedFile` (include/cbe/file_handle.hpp) on Linux: what it asks of the system, call by call, and what
-- it holds. The answers of the system are parameters.
pub mod Release
use catalyst_build_executor.Base.{
  lt_or_ge, ⊎_elim, sum_of-le_where, ℕ, zero, suc, ◌+◌, ◌-◌, ◌≤◌, ◌<◌, ◌≡◌, refl, sym, ap, ◌∙◌,
  subst, ◌↔◌, ◌⊎◌, inl, inr, ◌≢◌, Bool, true, false, ◌&&◌, ◌||◌, not, Bytes, List, [], ◌∷◌, ◌++◌,
  Option, none, some, map, foldl, length, get_or, modify, replicate, range_from, All, occ, sum_of,
  occ-append, occ_of_mem, mem_of_occ, occ-range_from, sum_of-le, length-sum_of, length-range_from,
  length-append, length-modify, length-replicate, arith, ◌==◌, leb, ltb, if◌then◌else◌, Bool-cases,
  Option-cases, Memᴰ, Memᴰ-append, get_or-modify, List-cases, codes, bytes_eq, bytes_eq_iff, lookup,
  emplace, lookup-emplace, split_on, starts_with, drop, take, substr, find, find_from, get_elem?,
  Memᴰ-cons, Memᴰ-nil, eq_of_some, ==_iff,
}
use catalyst_build_executor.Domain.{Result, ok, unexpected, thrown, cannot_map}

-- What `open`, `fstat` and `mmap` answer; `none` stands for -1 and MAP_FAILED.
pub record Kernel : Type 0 where
  pub open_file : (path : Bytes) → Option ℕ
  pub size_of : (file_descriptor : ℕ) → Option ℕ
  pub mmap : (file_descriptor file_size : ℕ) → (populate : Bool) → Option ℕ

-- The calls that succeed in taking or giving back something.
pub data Call : Type 0 where
  opened closed : (file_descriptor : ℕ) → Call
  mapped unmapped : (address size : ℕ) → Call

-- `file_data` is 0 for nullptr.
pub record MappedFile : Type 0 where
  pub file_descriptor : Option ℕ
  pub file_data : ℕ
  pub file_size : ℕ

-- The constructor behind `mmap`, behind `fstat` and behind `open`, by their answers.
abbrev pub after_mmap : Bytes → (fd size : ℕ) → Option ℕ → Result MappedFile × List Call
after_mmap path fd size none = (thrown (cannot_map path), opened fd ∷ closed fd ∷ [])
after_mmap path fd size (some addr) = (
  ok (record { file_descriptor = some fd; file_data = addr; file_size = size }),
  opened fd ∷ mapped addr size ∷ [],
)

abbrev pub after_stat :
    Kernel → Bytes → (populate : Bool) → (fd : ℕ) → Option ℕ → Result MappedFile × List Call
after_stat k path populate fd none = (thrown (cannot_map path), opened fd ∷ closed fd ∷ [])
after_stat k path populate fd (some zero) =
    (ok (record { file_descriptor = some fd; file_data = 0; file_size = 0 }), opened fd ∷ [])
after_stat k path populate fd (some (suc n)) =
    after_mmap path fd (suc n) (k.mmap fd (suc n) populate)

abbrev pub after_open :
    Kernel → Bytes → (populate : Bool) → Option ℕ → Result MappedFile × List Call
after_open k path populate none = (thrown (cannot_map path), [])
after_open k path populate (some fd) = after_stat k path populate fd (k.size_of fd)

-- The constructor.
unfoldable pub construct : Kernel → Bytes → (populate : Bool) → Result MappedFile × List Call
construct k path populate = after_open k path populate (k.open_file path)

-- `MappedUnfaultedFile`
abbrev pub construct_unfaulted : Kernel → Bytes → Result MappedFile × List Call
construct_unfaulted k path = construct k path false

abbrev pub unmap_data : MappedFile → List Call
unmap_data m = if m.file_data == 0 then [] else unmapped m.file_data m.file_size ∷ []

abbrev pub close_descriptor : Option ℕ → List Call
close_descriptor none = []
close_descriptor (some fd) = closed fd ∷ []

-- The destructor.
unfoldable pub destroy : MappedFile → List Call
destroy m = unmap_data m ++ close_descriptor m.file_descriptor

-- The text that is in memory at the address.
unfoldable pub content : (memory : ℕ → ℕ → Bytes) → MappedFile → Bytes
content memory m = if m.file_data == 0 then [] else memory m.file_data m.file_size

-- The move constructor, `= default`: each member is copied into the new object, and the one that is
-- moved from keeps its own.
abbrev pub move : MappedFile → MappedFile × MappedFile
move other = (
  record {
    file_descriptor = other.file_descriptor;
    file_data = other.file_data;
    file_size = other.file_size;
  },
  other,
)
