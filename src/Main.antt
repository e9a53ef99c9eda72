-- ===== src/Main.antt =====
-- `main` (src/cbe.cpp): from the arguments to the exit code. A place is what the process sees of the file
-- system from its working directory. `execute` starts the threads, whose runs are a relation, and
-- is a parameter here: what it returns or throws. An exception that leaves
-- `main` is `thrown`.
pub mod Stages
pub mod Overrides
pub mod Exit
use catalyst_build_executor.Base.{
  lt_or_ge, ⊎_elim, sum_of-le_where, ℕ, zero, suc, ◌+◌, ◌-◌, ◌≤◌, ◌<◌, ◌≡◌, refl, sym, ap, ◌∙◌,
  subst, ◌↔◌, ◌⊎◌, inl, inr, ◌≢◌, Bool, true, false, ◌&&◌, ◌||◌, not, Bytes, List, [], ◌∷◌, ◌++◌,
  Option, none, some, map, foldl, length, get_or, modify, replicate, range_from, All, occ, sum_of,
  occ-append, occ_of_mem, mem_of_occ, occ-range_from, sum_of-le, length-sum_of, length-range_from,
  length-append, length-modify, length-replicate, arith, ◌==◌, leb, ltb, if◌then◌else◌, Bool-cases,
  Option-cases, Memᴰ, Memᴰ-append, get_or-modify, List-cases, codes, bytes_eq, bytes_eq_iff, lookup,
  emplace, lookup-emplace, split_on, starts_with, drop, take, substr, find, find_from, get_elem?,
  Memᴰ-cons, Memᴰ-nil, eq_of_some, ==_iff,
}
use catalyst_build_executor.Domain.{FileSystem, Result, ok, unexpected, thrown, ◌>>=◌, no_message}
use catalyst_build_executor.Builder.{Builder, empty_builder, add_definition}
use catalyst_build_executor.Parser.Cached.{exists, parse}
use catalyst_build_executor.Rebuild.{PathOrder, Clock}
use catalyst_build_executor.Cli.{ExecutorConfig, CliArgs, cli_args}
use catalyst_build_executor.Tools.Clean.{Existing, clean}
use catalyst_build_executor.Tools.Listing.{emit_commands, emit_compdb}
use catalyst_build_executor.Tools.Dot.{emit_graph}

pub record Place : Type 0 where
  pub directory : Bytes
  pub fs : FileSystem
  pub mtime : Clock
  pub can_write : Bool
  pub removable : Bytes → Bool

-- The files that `std::filesystem::exists` reports.
abbrev pub existing : Place → Existing
existing place = λ path. exists (place.fs path)

-- The calls of `add_definition` for the overrides.
unfoldable pub with_overrides : List (Bytes × Bytes) → Builder → Builder
with_overrides [] b = b
with_overrides ((variable, value) ∷ ds) b = with_overrides ds (add_definition variable value b)

-- `auto _ = …`: an error is dropped; `if (!res) return 1;`
abbrev pub ignored {ℓ} : {A : Type ℓ} → Result A → Result ℕ
ignored (ok x) = ok 0
ignored (unexpected e) = ok 0
ignored (thrown e) = thrown e

abbrev pub checked {ℓ} : {A : Type ℓ} → Result A → Result ℕ
checked (ok x) = ok 0
checked (unexpected e) = ok 1
checked (thrown e) = thrown e

module _ (order : PathOrder) (enter : Bytes → Option Place) (start : Place)
    (execute : Place → ExecutorConfig → Builder → Result (Unit {0})) where
  -- The chain of tools.
  unfoldable pub run_tool : CliArgs → Place → Builder → Result ℕ
  run_tool par place b =
      let config = par.config in
      if par.compdb
      then ignored (emit_compdb place.directory b)
      else if par.graph
      then ignored (emit_graph order place.mtime (existing place) config.build_file b.graph).1
      else if par.commands
      then ignored (emit_commands b)
      else if config.clean
      then checked (clean place.removable b.graph (existing place))
      else checked (execute place config b)

  -- What is done with the result of the parser.
  abbrev pub after_parse : CliArgs → Place → Result (Builder × Option Bytes) → Result ℕ
  after_parse par place (ok parsed) =
      run_tool par place (with_overrides par.definition_overrides parsed.0)
  after_parse par place (unexpected e) = ok 1
  after_parse par place (thrown e) = thrown e

  -- From the check of the build file on.
  unfoldable pub run_in : CliArgs → Place → Result ℕ
  run_in par place =
      if exists (place.fs par.config.build_file)
      then after_parse par place
          (parse place.fs place.mtime place.can_write par.config.build_file empty_builder)
      else ok 1

  -- `current_path(work_dir)`, which is skipped for the default.
  abbrev pub working_place : Bytes → Option Place
  working_place work_dir = if bytes_eq work_dir (codes ".") then some start else enter work_dir

  abbrev pub run_at : CliArgs → Option Place → Result ℕ
  run_at par none = ok 1
  run_at par (some place) = run_in par place

  abbrev pub after_args : Result CliArgs → Result ℕ
  after_args (ok par) = run_at par (working_place par.work_dir)
  after_args (unexpected no_message) = ok 0
  after_args (unexpected _) = ok 1
  after_args (thrown e) = thrown e

  -- `main`
  unfoldable pub main : List Bytes → Result ℕ
  main argv = after_args (cli_args argv)
