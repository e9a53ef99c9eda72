-- ===== src/Main/Overrides.antt =====
-- What `main` (src/cbe.cpp) makes of the overrides.
use catalyst_build_executor.Base.{
  ◌≤◌, ◌≡◌, refl, sym, ap, ◌∙◌, Bytes, List, [], ◌∷◌, Option, none, some, All, arith, if◌then◌else◌,
  lookup, emplace, find,
}
use catalyst_build_executor.Domain.{Result, ok}
use catalyst_build_executor.Builder.{Builder, empty_builder, add_definition}
use catalyst_build_executor.Chars.{size_max}
use catalyst_build_executor.Cli.{ExecutorConfig, CliArgs}
use catalyst_build_executor.Cli.RoundTrip.{words_of}
use catalyst_build_executor.Parser.Cached.{exists, parse}
use catalyst_build_executor.Rebuild.{PathOrder}
use catalyst_build_executor.Main.{Place, with_overrides, run_in, run_tool, working_place, main}
use catalyst_build_executor.Main.Stages.{main-words_of, run_in-parsed}

emplace_known : (k v w : Bytes) (m : List (Bytes × Bytes)) → lookup k m ≡ some w → emplace k v m ≡ m
unfolding lookup emplace
emplace_known k v w [] h = cc
emplace_known k v w ((j, u) ∷ m) h = ground (arith, emplace_known k v w m)

-- The builder has a definition of the name.
abbrev pub IsDefined : Builder → Bytes × Bytes → Type 0
IsDefined b d = (old : Bytes) × (lookup d.0 b.definitions ≡ some old)

with_overrides_known :
    (ds : List (Bytes × Bytes)) (b : Builder) → All (IsDefined b) ds → with_overrides ds b ≡ b
unfolding with_overrides add_definition
with_overrides_known [] b h = refl
with_overrides_known ((variable, value) ∷ ds) b ((old, h), hs) =
    ap (λ defs. with_overrides ds (record b { definitions = defs }))
      (emplace_known variable value old b.definitions h)
    ∙ with_overrides_known ds b hs

module _ (order : PathOrder) (enter : Bytes → Option Place) (start : Place)
    (execute : Place → ExecutorConfig → Builder → Result (Unit {0})) where
  bare : CliArgs → CliArgs
  bare par = record par { definition_overrides = [] }

  run_tool-bare :
      (par : CliArgs) (place : Place) (b : Builder)
      → run_tool order enter start execute par place b
        ≡ run_tool order enter start execute (bare par) place b
  unfolding run_tool bare
  run_tool-bare par place b = refl

  run_in-bare :
      (par : CliArgs) (place : Place) (b : Builder) (cache : Option Bytes)
      → parse place.fs place.mtime place.can_write par.config.build_file empty_builder
        ≡ ok (b, cache)
      → All (IsDefined b) par.definition_overrides
      → run_in order enter start execute par place
        ≡ run_in order enter start execute (bare par) place
  unfolding bare with_overrides
  run_in-bare par place b cache parsed known =
      run_in-parsed order enter start execute par place b cache parsed
      ∙ ap (λ r. if exists (place.fs par.config.build_file) then r else ok 1)
          (ap (run_tool order enter start execute par place)
              (with_overrides_known par.definition_overrides b known)
            ∙ run_tool-bare par place b)
      ∙ sym (run_in-parsed order enter start execute (bare par) place b cache parsed)

  -- The overrides of the command line change nothing of what `main` returns where the manifest, or the
  -- cache that is read in its place, defines all their names. The number of jobs has 64 bits, no
  -- name of an override holds a '=', and the working directory can be entered.
  pub main_without_overrides :
      (par : CliArgs) (place : Place) (b : Builder) (cache : Option Bytes)
      → par.config.jobs ≤ size_max
      → All (λ d. find b'=' d.0 ≡ none) par.definition_overrides
      → working_place order enter start execute par.work_dir ≡ some place
      → parse place.fs place.mtime place.can_write par.config.build_file empty_builder
        ≡ ok (b, cache)
      → All (IsDefined b) par.definition_overrides
      → main order enter start execute (words_of par)
        ≡ main order enter start execute (words_of (record par { definition_overrides = [] }))
  unfolding bare
  main_without_overrides par place b cache small plain entered parsed known =
      main-words_of order enter start execute par place small plain entered
      ∙ run_in-bare par place b cache parsed known
      ∙ sym (
          main-words_of order enter start execute (record par { definition_overrides = [] }) place
            small tt entered)
