-- ===== src/Tests/Commanding.antt =====
-- The theorems on the arguments, on `main`, on the tools, on the work estimates and on mapped files, on samples.
use mathlib.Core.List.Memᴰ
use catalyst_build_executor.Base.{
  ℕ, ◌≡◌, refl, ap, inl, inr, true, false, Bytes, List, [], ◌∷◌, ◌++◌, Option, none, some, length,
  All, arith, Memᴰ, codes, bytes_eq, find,
}
use catalyst_build_executor.Domain.{BuildStep, unexpected, thrown, Result, ok}
use catalyst_build_executor.Cli.{CliArgs, default_args, default_config, cli_args}
use catalyst_build_executor.Cli.RoundTrip.{words_of, cli_args-words_of}
use catalyst_build_executor.Main.{Place, main}
use catalyst_build_executor.Main.Overrides.{IsDefined, main_without_overrides}
use catalyst_build_executor.Main.Exit.{main-listing}
use catalyst_build_executor.Process.{
  Launcher, process_known, IsProcessed, process_known-IsProcessed,
}
use catalyst_build_executor.Rebuild.Cached.{must_rebuild}
use catalyst_build_executor.Tools.Clean.{Existing, clean, left_of, targets, clean-left_of}
use catalyst_build_executor.Tools.Dot.{emit_graph}
use catalyst_build_executor.Tools.Dot.Text.{picture, framed, emit_graph-picture}
use catalyst_build_executor.Topo.{topo_sort, visit_roots, dfs, visit_edges}
use catalyst_build_executor.WorkEstimate.{EstimateEntry, sort, load, number_of, get_work_estimate}
use catalyst_build_executor.WorkEstimate.Least.{least_value, get_work_estimate-least_value}
use catalyst_build_executor.WorkEstimate.RoundTrip.{file_of, IsWritable, get_work_estimate-file_of}
use catalyst_build_executor.MappedFile.{
  Kernel, Call, opened, mapped, MappedFile, construct, destroy, move,
}
use catalyst_build_executor.MappedFile.Release.{
  IsReleased, IsReleasedTwice, lifetime, construct-IsReleased, move_releases_twice,
}
use catalyst_build_executor.Tests.Samples.{disk, built, program}
use catalyst_build_executor.Tests.Building.{paths, paths-IsClockOf, link, tools}
use catalyst_build_executor.Tests.Building
use catalyst_build_executor.Tests.Caching.{clock, cache, first_run}

abbrev gcc : List (Bytes × Bytes)
gcc = (codes "cc", codes "gcc") ∷ []

-- `cbe -f m -j 4 -t compdb cc=gcc`
abbrev request : CliArgs
request = record default_args {
  config = record default_config { build_file = codes "m"; jobs = 4 };
  compdb = true;
  definition_overrides = gcc;
}

abbrev here : Place
here = record {
  directory = codes "/w";
  fs = disk;
  mtime = clock;
  can_write = true;
  removable = λ p. true;
}

plain : All (λ d. find b'=' d.0 ≡ none) gcc
unfolding find
plain = (refl, tt)

defined : All (IsDefined built) gcc
unfolding program
defined = ((codes "clang", refl), tt)

abbrev entering : Bytes → Option Place
entering p = none

cli_args-words_of_example : cli_args (words_of request) ≡ ok request
cli_args-words_of_example = cli_args-words_of request (omega arith) plain

main_without_overrides_example :
    main paths entering here (λ p c b. ok tt) (words_of request)
    ≡ main paths entering here
        (λ p c b. ok tt)
        (words_of (record request { definition_overrides = [] }))
unfolding bytes_eq
main_without_overrides_example =
    main_without_overrides paths entering here (λ p c b. ok tt) request here built (some cache)
      (omega arith) plain refl first_run defined

main-listing_example : main paths entering here (λ p c b. ok tt) (words_of request) ≡ ok 0
unfolding bytes_eq
main-listing_example =
    main-listing paths entering here (λ p c b. ok tt) request here built cache (omega arith) plain
      refl refl first_run refl

-- A linker that ends with the status 3.
abbrev linker : Launcher
linker options args = (some 3, codes "ld: not found")

process_known-IsProcessed_example :
    IsProcessed paths Building.disk linker
      (codes "m")
      tools
      false
      (codes "log")
      true
      link
      (must_rebuild paths Building.disk.mtime Building.disk.exists (codes "m") link)
      (process_known paths Building.disk linker (codes "m") tools false (codes "log") true link [])
process_known-IsProcessed_example =
    process_known-IsProcessed paths Building.disk linker (codes "m") tools false (codes "log") true
      (paths-IsClockOf Building.disk.mtime) link [] tt

all_removable : (steps : List BuildStep) → All (λ step. true ≡ true) steps
all_removable [] = tt
all_removable (step ∷ steps) = (refl, all_removable steps)

clean-left_of_example :
    (files' : Existing) × (clean (λ p. true) built.graph (λ p. true) ≡ ok files')
    × ((q : Bytes)
        → files' q ≡ left_of (λ p. true) (targets (λ p. true) built.graph.steps) (λ p. true) q)
clean-left_of_example =
    clean-left_of (λ p. true) built.graph (λ p. true) (all_removable built.graph.steps)

unfoldable sorting : Unit {0}
unfolding program topo_sort visit_roots dfs visit_edges
sorting = tt

abbrev order_of : Result (List ℕ) → List ℕ
order_of (ok order) = order
order_of (unexpected e) = []
order_of (thrown e) = []

emit_graph-picture_example :
    emit_graph paths clock (λ p. true) (codes "m") built.graph
    ≡ framed paths clock
        (λ p. true)
        (codes "m")
        (picture paths clock (λ p. true) (codes "m") built.graph.steps 0 built.graph.nodes)
emit_graph-picture_example =
    emit_graph-picture paths clock (λ p. true) (codes "m") (paths-IsClockOf clock) built.graph

-- Two lines for one path: the least text counts, not the least number.
abbrev twice : List EstimateEntry
twice =
    record { path = codes "app"; value = codes "9" }
    ∷ record { path = codes "app"; value = codes "10" }
    ∷ []

get_work_estimate-least_value_example :
    get_work_estimate (sort twice) (codes "app") ≡ number_of (least_value (codes "app") twice)
get_work_estimate-least_value_example = get_work_estimate-least_value twice (codes "app")

abbrev estimates : List (Bytes × ℕ)
estimates = (codes "a.out", 20) ∷ (codes "app", 7) ∷ []

estimates-IsWritable : All IsWritable estimates
unfolding find
estimates-IsWritable = ((refl, refl, omega arith), ((refl, refl, omega arith), tt))

only_seven : (m : ℕ) → Memᴰ (codes "app", m) estimates → m ≡ 7
only_seven m h = elim (Memᴰ.cases_cons h) [
  | inl now ↦
      let e : length (codes "app") ≡ length (codes "a.out") = ap (λ q. length q.0) now in
      absurd (cc)
  | inr behind ↦ elim (Memᴰ.cases_cons behind) [
    | inl now ↦ ap (λ q. q.1) now
    | inr none_left ↦ absurd (Memᴰ.not-nil none_left)
  ]
]

get_work_estimate-file_of_example :
    get_work_estimate (load (some (file_of estimates))) (codes "app") ≡ 7
get_work_estimate-file_of_example =
    get_work_estimate-file_of estimates (codes "app") 7 estimates-IsWritable
      (Memᴰ.tail (Memᴰ.head refl)) only_seven

-- A system that has one file of ten bytes.
abbrev kernel : Kernel
kernel = record {
  open_file = λ path. some 3;
  size_of = λ fd. some 10;
  mmap = λ fd size populate. some 4096;
}

construct-IsReleased_example : IsReleased (lifetime (construct kernel (codes "m") true))
construct-IsReleased_example = construct-IsReleased kernel (codes "m") true (λ d n. cc)

abbrev mapping : MappedFile
mapping = record { file_descriptor = some 3; file_data = 4096; file_size = 10 }

constructed :
    ◌≡◌ {A = Result MappedFile × List Call}
      (construct kernel (codes "m") true)
      (ok mapping, opened 3 ∷ mapped 4096 10 ∷ [])
unfolding construct
constructed = refl

move_releases_twice_example :
    IsReleasedTwice
      (opened 3 ∷ mapped 4096 10 ∷ (destroy (move mapping).0 ++ destroy (move mapping).1))
move_releases_twice_example =
    move_releases_twice kernel (codes "m") true mapping (opened 3 ∷ mapped 4096 10 ∷ []) (λ d n. cc)
      constructed
