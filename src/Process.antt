-- ===== src/Process.antt =====
-- What a worker does with a node outside of the lock: `process_step` (src/executor.cpp) and
-- `process_exec` (src/process_exec.cpp). The start of a process is a parameter, as are the times
-- of the files. An exit code is the pattern of the source's int in 32 bits.
use catalyst_build_executor.Base.{
  ℕ, ◌≡◌, refl, subst, inl, inr, Bool, true, false, ◌&&◌, not, Bytes, List, [], ◌∷◌, ◌++◌, Option,
  none, some, ◌==◌, if◌then◌else◌, Bool-cases, codes,
}
use catalyst_build_executor.Domain.{BuildStep, Result, ok, unexpected, thrown, ◌>>=◌, empty_command}
use catalyst_build_executor.Graph.{BuildGraph}
use catalyst_build_executor.Graph.Ids.{step_at}
use catalyst_build_executor.Commands.{Toolchain, Files, build_command_args}
use catalyst_build_executor.Rebuild.{PathOrder, Cache, IsClockOf, needs_rebuild}
use catalyst_build_executor.Rebuild.Cached.{
  IsTruthful, must_rebuild, IsDecision_cases, needs_rebuild-must_rebuild,
}

-- What is set of `reproc::options`: whether the output goes to pipes instead of the parent's, the working
-- directory, and the variables that extend the environment.
pub record Options : Type 0 where
  pub piped : Bool
  pub working_directory : Option Bytes
  pub extra : Option (List Bytes)

-- `reproc::run`: the status, or none for an error code, and the output that the sinks are given.
abbrev pub Launcher : Type 0
Launcher = Options → List Bytes → Option ℕ × Bytes

abbrev pub env_strings : List (Bytes × Bytes) → List Bytes
env_strings [] = []
env_strings ((key, value) ∷ env) = (key ++ b'=' ∷ value) ∷ env_strings env

abbrev pub options_of :
    Option Bytes → Option (List (Bytes × Bytes)) → (capture_output : Bool) → Options
options_of working_dir env capture_output = record {
  piped = capture_output;
  working_directory = working_dir;
  extra = elim env [ none ↦ none | some vars ↦ some (env_strings vars) ];
}

abbrev pub minus_one : ℕ
minus_one = 4294967295

abbrev pub status_or_minus_one : Option ℕ → ℕ
status_or_minus_one none = minus_one
status_or_minus_one (some status) = status

-- `process_exec`: the exit code and the captured output.
unfoldable pub process_exec :
    Launcher
    → List Bytes
    → (working_dir : Option Bytes) → (env : Option (List (Bytes × Bytes))) → (capture_output : Bool)
    → Result (ℕ × Bytes)
process_exec run [] working_dir env capture_output = unexpected empty_command
process_exec run (program ∷ args) working_dir env capture_output =
    let (status, output) = run (options_of working_dir env capture_output) (program ∷ args) in
    ok (status_or_minus_one status, if capture_output then output else [])

-- The code that `process_step` makes of it.
abbrev pub code_of : Result (ℕ × Bytes) → ℕ
code_of (ok r) = r.0
code_of (unexpected e) = 1
code_of (thrown e) = 1

-- `if (output.back() != '\n') log_file << '\n';`
abbrev pub ends_line : Bytes → Bool
ends_line [] = false
ends_line (c ∷ []) = c == 0x0a
ends_line (c ∷ d ∷ s) = ends_line (d ∷ s)

-- What is written to the log for a step.
abbrev pub log_text : BuildStep → (output : Bytes) → Bytes
log_text step output =
    codes "=== "
    ++ step.tool
    ++ codes " -> "
    ++ step.output
    ++ codes " ===\n"
    ++ output
    ++ (if ends_line output then [] else 0x0a ∷ [])
    ++ 0x0a ∷ []

-- `capture_output && !output.empty()`, where the log can be opened.
abbrev pub log_of : (can_log capture_output : Bool) → BuildStep → Bytes → Option Bytes
log_of can_log capture_output step [] = none
log_of can_log capture_output step (c ∷ output) =
    if capture_output && can_log then some (log_text step (c ∷ output)) else none

abbrev pub logged_of :
    (can_log capture_output : Bool) → BuildStep → Result (ℕ × Bytes) → Option Bytes
logged_of can_log capture_output step (ok r) = log_of can_log capture_output step r.1
logged_of can_log capture_output step (unexpected e) = none
logged_of can_log capture_output step (thrown e) = none

-- What `process_step` returns, with the cache that it leaves, the command that it ran, the response
-- file that it wrote, and what it appended to the log.
pub record Processed : Type 0 where
  pub code : ℕ
  pub cache : Cache
  pub command : Option (List Bytes)
  pub written : Option (Bytes × Bytes)
  pub logged : Option Bytes

abbrev pub idle : Cache → Processed
idle cache = record { code = 0; cache = cache; command = none; written = none; logged = none }

abbrev pub is_empty : Bytes → Bool
is_empty [] = true
is_empty (c ∷ s) = false

status_or_minus_one_lem :
    (status : Option ℕ)
    → status_or_minus_one status ≡ elim status [ none ↦ minus_one | some code ↦ code ]
status_or_minus_one_lem none = refl
status_or_minus_one_lem (some code) = refl

log_of-captured :
    (can_log capture_output : Bool) (step : BuildStep) (output : Bytes)
    → log_of can_log capture_output step (if capture_output then output else []) ≡ (
        if capture_output && can_log && not (is_empty output)
        then some (log_text step output)
        else none)
log_of-captured can_log false step [] = refl
log_of-captured true true step [] = refl
log_of-captured false true step [] = refl
log_of-captured can_log false step (c ∷ output) = refl
log_of-captured true true step (c ∷ output) = refl
log_of-captured false true step (c ∷ output) = refl

module _ (order : PathOrder) (fs : Files) (run : Launcher) (build_file : Bytes) (tc : Toolchain)
    (dry_run : Bool) (build_log_file : Bytes) (can_log : Bool) where
  abbrev pub capture_output : Bool
  capture_output = not (is_empty build_log_file)

  -- The part for a step that is to be rebuilt.
  unfoldable pub run_step : BuildStep → Cache → Processed
  run_step step cache =
      if dry_run
      then idle cache
      else (let (args, written) = build_command_args fs build_file tc false step in
          let res = process_exec run args none none capture_output in
          record {
            code = code_of res;
            cache = cache;
            command = some args;
            written = written;
            logged = logged_of can_log capture_output step res;
          })

  -- The body of `process_step` for a node with a step.
  unfoldable pub process_known : BuildStep → Cache → Result Processed
  process_known step cache = needs_rebuild order fs.mtime fs.exists build_file step cache >>= λ r.
      ok (if r.0 then run_step step r.1 else idle r.1)

  unfoldable pub process_step : BuildGraph → ℕ → Cache → Result Processed
  process_step g node_idx cache = elim (step_at g node_idx) [
    | none ↦ ok (idle cache)
    | some step ↦ process_known step cache
  ]

  -- What a step should do, decided without a cache: its command, and the code and the output of that.
  abbrev pub expected_command : Bool → BuildStep → Option (List Bytes)
  expected_command rebuild step =
      if rebuild && not dry_run
      then some (build_command_args fs build_file tc false step).0
      else none

  abbrev pub expected_written : Bool → BuildStep → Option (Bytes × Bytes)
  expected_written rebuild step =
      if rebuild && not dry_run then (build_command_args fs build_file tc false step).1 else none

  abbrev pub plain_options : Options
  plain_options = record { piped = capture_output; working_directory = none; extra = none }

  abbrev pub expected_code : Option (List Bytes) → ℕ
  expected_code none = 0
  expected_code (some []) = 1
  expected_code (some (program ∷ args)) = elim (run plain_options (program ∷ args)).0 [
    | none ↦ minus_one
    | some status ↦ status
  ]

  -- The log takes what the command prints, where a log is asked for and the command prints.
  abbrev pub expected_log : Option (List Bytes) → BuildStep → Option Bytes
  expected_log none step = none
  expected_log (some []) step = none
  expected_log (some (program ∷ args)) step =
      let output = (run plain_options (program ∷ args)).1 in
      if capture_output && can_log && not (is_empty output)
      then some (log_text step output)
      else none

  abbrev pub IsProcessed : BuildStep → Result Bool → Result Processed → Type 0
  IsProcessed step (ok rebuild) (ok p) =
      (p.command ≡ expected_command rebuild step)
      × (p.code ≡ expected_code (expected_command rebuild step))
      × (p.written ≡ expected_written rebuild step)
      × (p.logged ≡ expected_log (expected_command rebuild step) step)
      × IsTruthful order fs.mtime p.cache
  IsProcessed step (thrown e) (thrown e') = e ≡ e'
  IsProcessed step _ _ = ⊥

  code_of-process_exec :
      (args : List Bytes)
      → code_of (process_exec run args none none capture_output) ≡ expected_code (some args)
  unfolding process_exec
  code_of-process_exec [] = refl
  code_of-process_exec (program ∷ args) =
      status_or_minus_one_lem (run plain_options (program ∷ args)).0

  logged_of-process_exec :
      (step : BuildStep) (args : List Bytes)
      → logged_of can_log capture_output step (process_exec run args none none capture_output)
        ≡ expected_log (some args) step
  unfolding process_exec
  logged_of-process_exec step [] = refl
  logged_of-process_exec step (program ∷ args) =
      log_of-captured can_log capture_output step (run plain_options (program ∷ args)).1

  run_step-IsProcessed :
      (step : BuildStep) (rebuild : Bool) (cache : Cache)
      → IsTruthful order fs.mtime cache
      → IsProcessed step (ok rebuild) (ok (if rebuild then run_step step cache else idle cache))
  unfolding run_step
  run_step-IsProcessed step false cache h = (refl, refl, refl, refl, h)
  run_step-IsProcessed step true cache h = elim (Bool-cases dry_run) [
    | inl dry ↦ rw dry (refl, refl, refl, refl, h)
    | inr real ↦ rw real (
      refl,
      code_of-process_exec (build_command_args fs build_file tc false step).0,
      refl,
      logged_of-process_exec step (build_command_args fs build_file tc false step).0,
      h,
    )
  ]

  -- Equal paths name one file. With a cache that holds nothing false, the command of a step is run exactly if the step must be
  -- rebuilt and this is no dry run; then the code is that of the command, 1 for an empty
  -- command and -1 where it could not be started, and otherwise it is 0. The response file of the command is
  -- written with it, and its output goes to the log where there is one. The cache still holds nothing false.
  pub process_known-IsProcessed :
      IsClockOf order fs.mtime
      → (step : BuildStep) (cache : Cache) → IsTruthful order fs.mtime cache
      → IsProcessed step
          (must_rebuild order fs.mtime fs.exists build_file step)
          (process_known step cache)
  unfolding process_known
  process_known-IsProcessed one_file step cache h =
      IsDecision_cases order fs.mtime
        (λ d r. IsProcessed step d (r >>= λ q. ok (if q.0 then run_step step q.1 else idle q.1)))
        (λ rebuild r same t.
          subst (λ b. IsProcessed step (ok b) (ok (if r.0 then run_step step r.1 else idle r.1)))
            same (run_step-IsProcessed step r.0 r.1 t))
        (λ e e' same. same) (must_rebuild order fs.mtime fs.exists build_file step)
        (needs_rebuild order fs.mtime fs.exists build_file step cache)
        (needs_rebuild-must_rebuild order fs.mtime one_file fs.exists build_file step cache h)
