-- ===== src/Main/Stages.antt =====
-- The stages of `main` (src/cbe.cpp) for a command line that gives the options.
use catalyst_build_executor.Base.{
  ◌≤◌, ◌≡◌, ap, ◌∙◌, Bytes, Option, none, some, All, if◌then◌else◌, find,
}
use catalyst_build_executor.Domain.{Result, ok}
use catalyst_build_executor.Builder.{Builder, empty_builder}
use catalyst_build_executor.Chars.{size_max}
use catalyst_build_executor.Cli.{ExecutorConfig, CliArgs}
use catalyst_build_executor.Cli.RoundTrip.{words_of, cli_args-words_of}
use catalyst_build_executor.Parser.Cached.{exists, parse}
use catalyst_build_executor.Rebuild.{PathOrder}
use catalyst_build_executor.Main.{
  Place, with_overrides, run_in, run_at, run_tool, working_place, after_args, main, after_parse,
}

module _ (order : PathOrder) (enter : Bytes → Option Place) (start : Place)
    (execute : Place → ExecutorConfig → Builder → Result (Unit {0})) where
  pub main-words_of :
      (par : CliArgs) (place : Place)
      → par.config.jobs ≤ size_max
      → All (λ d. find b'=' d.0 ≡ none) par.definition_overrides
      → working_place order enter start execute par.work_dir ≡ some place
      → main order enter start execute (words_of par) ≡ run_in order enter start execute par place
  unfolding main
  main-words_of par place small plain entered =
      ap (after_args order enter start execute) (cli_args-words_of par small plain)
      ∙ ap (run_at order enter start execute par) entered

  -- What follows when the manifest was parsed.
  pub run_in-parsed :
      (par : CliArgs) (place : Place) (b : Builder) (cache : Option Bytes)
      → parse place.fs place.mtime place.can_write par.config.build_file empty_builder
        ≡ ok (b, cache)
      → run_in order enter start execute par place ≡ (
          if exists (place.fs par.config.build_file)
          then run_tool order enter start execute par place
              (with_overrides par.definition_overrides b)
          else ok 1)
  unfolding run_in
  run_in-parsed par place b cache parsed =
      ap
        (λ r.
          if exists (place.fs par.config.build_file)
          then after_parse order enter start execute par place r
          else ok 1)
        parsed
