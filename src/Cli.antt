-- ===== src/Cli.antt =====
-- src/cli_args.cpp and include/cbe/cli_args.hpp: the arguments of the command, with the estimates
-- and the logging built in. The arguments stand behind the program's name in `argv`.
pub mod RoundTrip
use catalyst_build_executor.Base.{
  ℕ, zero, suc, ◌+◌, ◌-◌, ◌≤◌, ◌<◌, ◌≡◌, refl, sym, ap, ◌∙◌, subst, ◌↔◌, ◌⊎◌, inl, inr, ◌≢◌, Bool,
  true, false, ◌&&◌, ◌||◌, not, Bytes, List, [], ◌∷◌, ◌++◌, Option, none, some, map, foldl, length,
  get_or, modify, replicate, range_from, All, occ, sum_of, occ-append, occ_of_mem, mem_of_occ,
  occ-range_from, sum_of-le, length-sum_of, length-range_from, length-append, length-modify,
  length-replicate, arith, ◌==◌, leb, ltb, if◌then◌else◌, Bool-cases, Option-cases, Memᴰ,
  Memᴰ-append, get_or-modify, List-cases, codes, bytes_eq, bytes_eq_iff, lookup, emplace,
  lookup-emplace, split_on, starts_with, drop, take, substr, find, find_from, get_elem?, Memᴰ-cons,
  Memᴰ-nil, eq_of_some, ==_iff,
}
use catalyst_build_executor.Domain.{
  Result, ok, unexpected, ◌>>=◌, no_message, missing_argument, invalid_job_count, unknown_tool,
  unknown_argument,
}
use catalyst_build_executor.Chars.{from_chars}

-- `ExecutorConfig`
pub record ExecutorConfig : Type 0 where
  pub dry_run : Bool
  pub clean : Bool
  pub silent : Bool
  pub keep_going : Bool
  pub jobs : ℕ
  pub build_file : Bytes
  pub estimates_file : Bytes
  pub build_log_file : Bytes

pub record CliArgs : Type 0 where
  pub config : ExecutorConfig
  pub compdb : Bool
  pub graph : Bool
  pub commands : Bool
  pub work_dir : Bytes
  pub definition_overrides : List (Bytes × Bytes)

abbrev pub default_config : ExecutorConfig
default_config = record {
  dry_run = false;
  clean = false;
  silent = false;
  keep_going = false;
  jobs = 0;
  build_file = codes "catalyst.build";
  estimates_file = codes "catalyst.estimates";
  build_log_file = [];
}

abbrev pub default_args : CliArgs
default_args = record {
  config = default_config;
  compdb = false;
  graph = false;
  commands = false;
  work_dir = codes ".";
  definition_overrides = [];
}

-- The tests of the loop, in their order.
pub data Arg : Type 0 where
  help version work_dir build_file estimates build_log jobs dry_run tool silent keep_going : Arg
  definition : (variable value : Bytes) → Arg
  unknown : Arg

-- `std::ranges::find(arg, '=')`, with what stands before and behind it.
abbrev pub override_of : Bytes → Arg
override_of arg = elim (find b'=' arg) [
  | none ↦ Arg.unknown
  | some pos ↦ definition (substr arg 0 pos) (drop (pos + 1) arg)
]

unfoldable pub arg_of : Bytes → Arg
arg_of arg =
    if bytes_eq arg (codes "-h") || bytes_eq arg (codes "--help")
    then Arg.help
    else if bytes_eq arg (codes "-v") || bytes_eq arg (codes "--version")
    then Arg.version
    else if bytes_eq arg (codes "-C")
    then Arg.work_dir
    else if bytes_eq arg (codes "-f")
    then Arg.build_file
    else if bytes_eq arg (codes "--estimates")
    then Arg.estimates
    else if bytes_eq arg (codes "--build-log") || bytes_eq arg (codes "--error-log")
    then Arg.build_log
    else if bytes_eq arg (codes "-j") || bytes_eq arg (codes "--jobs")
    then Arg.jobs
    else if bytes_eq arg (codes "-n") || bytes_eq arg (codes "--dry-run")
    then Arg.dry_run
    else if bytes_eq arg (codes "-t")
    then Arg.tool
    else if bytes_eq arg (codes "-s") || bytes_eq arg (codes "--silent")
    then Arg.silent
    else if bytes_eq arg (codes "-k") || bytes_eq arg (codes "--keep-going")
    then Arg.keep_going
    else override_of arg

abbrev pub with_config : ExecutorConfig → CliArgs → CliArgs
with_config config par = record par { config = config }

abbrev pub set_jobs : Bytes → CliArgs → Result CliArgs
set_jobs value par = elim (from_chars value) [
  | none ↦ unexpected (invalid_job_count value)
  | some n ↦ ok (with_config (record par.config { jobs = n }) par)
]

unfoldable pub set_tool : Bytes → CliArgs → Result CliArgs
set_tool name par =
    if bytes_eq name (codes "clean")
    then ok (with_config (record par.config { clean = true }) par)
    else if bytes_eq name (codes "compdb")
    then ok (record par { compdb = true })
    else if bytes_eq name (codes "graph")
    then ok (record par { graph = true })
    else if bytes_eq name (codes "commands")
    then ok (record par { commands = true })
    else unexpected (unknown_tool name)

-- What an argument does to the options, with the value that it takes, if it takes one.
abbrev pub takes_value : Arg → Bool
takes_value Arg.work_dir = true
takes_value Arg.build_file = true
takes_value Arg.estimates = true
takes_value Arg.build_log = true
takes_value Arg.jobs = true
takes_value Arg.tool = true
takes_value Arg.help = false
takes_value Arg.version = false
takes_value Arg.dry_run = false
takes_value Arg.silent = false
takes_value Arg.keep_going = false
takes_value (definition variable value) = false
takes_value Arg.unknown = false

unfoldable pub set_value : Arg → Bytes → CliArgs → Result CliArgs
set_value Arg.work_dir value par = ok (record par { work_dir = value })
set_value Arg.build_file value par = ok (with_config (record par.config { build_file = value }) par)
set_value Arg.estimates value par =
    ok (with_config (record par.config { estimates_file = value }) par)
set_value Arg.build_log value par =
    ok (with_config (record par.config { build_log_file = value }) par)
set_value Arg.jobs value par = set_jobs value par
set_value Arg.tool value par = set_tool value par
set_value _ value par = ok par

-- `-h` and `-v` print and end with an empty message.
unfoldable pub set_flag : (arg : Bytes) → Arg → CliArgs → Result CliArgs
set_flag arg Arg.help par = unexpected no_message
set_flag arg Arg.version par = unexpected no_message
set_flag arg Arg.dry_run par = ok (with_config (record par.config { dry_run = true }) par)
set_flag arg Arg.silent par = ok (with_config (record par.config { silent = true }) par)
set_flag arg Arg.keep_going par = ok (with_config (record par.config { keep_going = true }) par)
set_flag arg (definition variable value) par =
    ok (record par { definition_overrides = par.definition_overrides ++ (variable, value) ∷ [] })
set_flag arg Arg.unknown par = unexpected (unknown_argument arg)
set_flag arg _ par = ok par

-- The loop over the arguments.
unfoldable pub parse_loop : List Bytes → CliArgs → Result CliArgs
parse_loop [] par = ok par
parse_loop (arg ∷ []) par =
    if takes_value (arg_of arg)
    then unexpected (missing_argument arg)
    else set_flag arg (arg_of arg) par
parse_loop (arg ∷ value ∷ rest) par = elim (takes_value (arg_of arg)) [
  | true ↦ set_value (arg_of arg) value par >>= λ par'. parse_loop rest par'
  | false ↦ set_flag arg (arg_of arg) par >>= λ par'. parse_loop (value ∷ rest) par'
]

-- `cliArgs`
unfoldable pub cli_args : List Bytes → Result CliArgs
cli_args argv = parse_loop argv default_args
