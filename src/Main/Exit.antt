-- ===== src/Main/Exit.antt =====
-- What `main` (src/cbe.cpp) makes of the errors of the tools that print.
use catalyst_build_executor.Base.{
  ℕ, ◌≤◌, ◌≡◌, refl, sym, ◌∙◌, subst, true, ◌&&◌, ◌||◌, not, Bytes, List, [], ◌∷◌, Option, none,
  some, All, arith, find,
}
use catalyst_build_executor.Domain.{Result, ok, unexpected, thrown, ◌>>=◌}
use catalyst_build_executor.Builder.{Builder, empty_builder, add_definition}
use catalyst_build_executor.Chars.{size_max}
use catalyst_build_executor.Cli.{ExecutorConfig, CliArgs}
use catalyst_build_executor.Cli.RoundTrip.{words_of}
use catalyst_build_executor.Parser.Cached.{exists, parse}
use catalyst_build_executor.Rebuild.{PathOrder}
use catalyst_build_executor.Main.{Place, with_overrides, run_tool, working_place, main}
use catalyst_build_executor.Main.Stages.{main-words_of, run_in-parsed}
use catalyst_build_executor.Domain.{thrown}
use catalyst_build_executor.Topo.{topo_sort}
use catalyst_build_executor.Topo.Order.{Sorts, topo_sort-Sorts, IsGraph-EdgesInRange}
use catalyst_build_executor.Graph.{Node}
use catalyst_build_executor.Graph.Invariant.{IsGraph}
use catalyst_build_executor.Parser.Lines.{parse_manifest-IsGraph}
use catalyst_build_executor.Parser.Cached.{parse-written}
use catalyst_build_executor.Tools.Listing.{emit_commands, emit_compdb}
use catalyst_build_executor.Main.{ignored, run_tool}

graph-with_overrides :
    (ds : List (Bytes × Bytes)) (b : Builder) → (with_overrides ds b).graph ≡ b.graph
unfolding with_overrides add_definition
graph-with_overrides [] b = refl
graph-with_overrides ((variable, value) ∷ ds) b =
    graph-with_overrides ds (add_definition variable value b)

-- No exception leaves what is made of a sorted graph.
ignored-sorted {ℓ} :
    {A : Type ℓ} (nodes : List Node) (f : List ℕ → A) (r : Result (List ℕ))
    → Sorts nodes r
    → ignored (r >>= λ order. ok (f order)) ≡ ok 0
ignored-sorted nodes f (ok order) h = refl
ignored-sorted nodes f (unexpected e) h = refl
ignored-sorted nodes f (thrown e) h = absurd h

ignored-emit_compdb :
    (cwd : Bytes) (b : Builder) → IsGraph b.graph → ignored (emit_compdb cwd b) ≡ ok 0
unfolding emit_compdb
ignored-emit_compdb cwd b v =
    ignored-sorted b.graph.nodes _ (topo_sort b.graph)
      (topo_sort-Sorts b.graph (IsGraph-EdgesInRange b.graph v))

ignored-emit_commands : (b : Builder) → IsGraph b.graph → ignored (emit_commands b) ≡ ok 0
unfolding emit_commands
ignored-emit_commands b v =
    ignored-sorted b.graph.nodes _ (topo_sort b.graph)
      (topo_sort-Sorts b.graph (IsGraph-EdgesInRange b.graph v))

module _ (order : PathOrder) (enter : Bytes → Option Place) (start : Place)
    (execute : Place → ExecutorConfig → Builder → Result (Unit {0})) where
  run_tool-listing :
      (par : CliArgs) (place : Place) (b : Builder)
      → IsGraph b.graph
      → par.compdb || (not par.graph && par.commands) ≡ true
      → run_tool order enter start execute par place b ≡ ok 0
  unfolding run_tool
  run_tool-listing par place b v listing =
      ground (arith, listing, ignored-emit_compdb place.directory b v, ignored-emit_commands b v)

  -- With `-t compdb`, or `-t commands` and not `-t graph`, a manifest that was parsed and not read from
  -- a cache always gives the exit code 0, a cycle in it included. The conditions on the options are those
  -- under which a command line gives them, and the build file exists.
  pub main-listing :
      (par : CliArgs) (place : Place) (b : Builder) (content : Bytes)
      → par.config.jobs ≤ size_max
      → All (λ d. find b'=' d.0 ≡ none) par.definition_overrides
      → working_place order enter start execute par.work_dir ≡ some place
      → exists (place.fs par.config.build_file) ≡ true
      → parse place.fs place.mtime place.can_write par.config.build_file empty_builder
        ≡ ok (b, some content)
      → par.compdb || (not par.graph && par.commands) ≡ true
      → main order enter start execute (words_of par) ≡ ok 0
  main-listing par place b content small plain entered there parsed listing =
      main-words_of order enter start execute par place small plain entered
      ∙ run_in-parsed order enter start execute par place b (some content) parsed
      ∙ rw there (
          run_tool-listing par place (with_overrides par.definition_overrides b)
            (subst IsGraph (sym (graph-with_overrides par.definition_overrides b)) (
              parse_manifest-IsGraph place.fs par.config.build_file b (
                parse-written place.fs place.mtime place.can_write par.config.build_file content b
                  parsed)))
            listing)
