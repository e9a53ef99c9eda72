-- ===== src/Domain.antt =====
-- include/cbe/domain.hpp and include/cbe/utility.hpp: the build step, the definitions, and
-- results. An error message that the source formats is a constructor with what it formats.
use catalyst_build_executor.Base.{Bytes, List, Option, ◌≡◌, refl, Bool, ◌||◌, bytes_eq, codes}

pub record BuildStep : Type 0 where
  pub tool : Bytes
  pub inputs : Bytes
  pub output : Bytes
  pub opaque_inputs : Option (List Bytes)
  pub depfile_inputs : Option (List Bytes)
  pub parsed_inputs : List Bytes

abbrev pub Definitions : Type 0
Definitions = List (Bytes × Bytes)

pub data Error : Type 0 where
  duplicate_producer : (output : Bytes) → Error
  cycle_detected : (path : Bytes) → Error
  missing_first_pipe : (line : Bytes) → Error
  missing_second_pipe : (line : Bytes) → Error
  cannot_map : (path : Bytes) → Error
  cannot_map_bin : (path : Bytes) → Error
  bin_too_small : Error
  bin_invalid_magic : Error
  bin_strings_too_large : Error
  empty_command : Error
  build_failed : Error
  build_stalled : Error
  cannot_open_log : (path : Bytes) → Error
  missing_argument : (arg : Bytes) → Error
  invalid_job_count : (arg : Bytes) → Error
  unknown_tool : (tool : Bytes) → Error
  unknown_argument : (arg : Bytes) → Error
  no_message : Error
  -- No value of the program: it reads memory outside of a mapped file, and its behaviour is undefined.
  invalid_read : Error
  -- No value of the program: a recursion of the model ran out of fuel. It is proved not to occur.
  out_of_fuel : Error

-- `Result<T>`, with a third outcome for a C++ exception that leaves the function.
pub data Result {ℓ} (A : Type ℓ) : Type ℓ where
  ok : A → Result A
  unexpected : Error → Result A
  thrown : Error → Result A

infixl 5 ◌>>=◌
abbrev pub ◌>>=◌ {ℓ ℓ'} : {S : Type ℓ} {T : Type ℓ'} → Result S → (S → Result T) → Result T
thrown e >>= next = thrown e
unexpected e >>= next = unexpected e
ok s >>= next = next s

-- A chain that succeeds has a first part that succeeds.
pub >>=-eq-ok {ℓ ℓ'} :
    {S : Type ℓ} {T : Type ℓ'} (r : Result S) (next : S → Result T) {t : T}
    → (r >>= next) ≡ ok t
    → (s : S) × (r ≡ ok s) × (next s ≡ ok t)
>>=-eq-ok (thrown e) next eq = cc
>>=-eq-ok (unexpected e) next eq = cc
>>=-eq-ok (ok s) next eq = (s, refl, eq)

-- What the file system has under a path: nothing, something that cannot be opened or mapped, or
-- a file with its bytes.
pub data FileView : Type 0 where
  absent : FileView
  unreadable : FileView
  file : Bytes → FileView

abbrev pub FileSystem : Type 0
FileSystem = Bytes → FileView

-- The tools that have a depfile.
abbrev pub is_compiler : Bytes → Bool
is_compiler tool = bytes_eq tool (codes "cc") || bytes_eq tool (codes "cxx")
