-- ===== src/Tests/Caching.antt =====
-- The theorems on the binary cache, on the sample.
use catalyst_build_executor.Base.{
  ℕ, ◌≤◌, ◌≡◌, refl, ◌↔◌, true, Bytes, Option, none, some, length, All, arith, if◌then◌else◌, codes,
  bytes_eq,
}
use catalyst_build_executor.Domain.{FileSystem, file, ok, thrown, invalid_read}
use catalyst_build_executor.Builder.{Builder, empty_builder}
use catalyst_build_executor.Parser.Cached.{parse, parse_twice, parse_from}
use catalyst_build_executor.Binary.Format.{add_string, le_bytes, uint64_max}
use catalyst_build_executor.Binary.Reader.{bin_path, parse_bin, parse_bin_content}
use catalyst_build_executor.Binary.Writer.{
  emit_bin, emit_definitions, emit_nodes, emit_node, emit_steps, emit_step, emit_strings,
  emit_depfile_inputs, write_header,
}
use catalyst_build_executor.Binary.Reload.{Reloaded}
use catalyst_build_executor.Binary.Cache.{HasNoOpaque, parse_bin-steps_iff}
use catalyst_build_executor.Binary.Malformed.{parse_bin_content-short}
use catalyst_build_executor.Tests.Samples.{disk, built, program}
use catalyst_build_executor.Graph.Invariant.{IsGraph}
use catalyst_build_executor.Parser.Lines.{parse_manifest-IsGraph}
use catalyst_build_executor.Tests.Samples.{parse-manifest}

pub cache : Bytes
cache = emit_bin built

abbrev second_disk : FileSystem
second_disk path = if bytes_eq path bin_path then file cache else disk path

abbrev pub clock : Bytes → Option ℕ
clock path = if bytes_eq path bin_path then some 7 else some 5

unfoldable writer : Unit {0}
unfolding program cache emit_bin emit_definitions emit_nodes emit_node emit_steps emit_step
    emit_strings emit_depfile_inputs add_string le_bytes parse parse_from
writer = tt

cache-small : length cache ≤ uint64_max
unfolding writer
cache-small = omega arith

pub first_run : parse disk clock true (codes "m") empty_builder ≡ ok (built, some cache)
unfolding writer
first_run = refl

pub built-IsGraph : IsGraph built.graph
built-IsGraph = parse_manifest-IsGraph disk (codes "m") built parse-manifest

parse_twice_example :
    (b' : Builder) × (parse second_disk clock true (codes "m") empty_builder ≡ ok (b', none))
    × Reloaded built b'
unfolding bytes_eq
parse_twice_example =
    parse_twice disk second_disk clock clock true (codes "m") cache built 7 5 first_run refl refl
      refl (omega arith) cache-small

parse_bin-steps_iff_example :
    (b' : Builder) × (parse_bin second_disk empty_builder ≡ ok b')
    × ((b'.graph.steps ≡ built.graph.steps) ↔ All HasNoOpaque built.graph.steps)
unfolding bytes_eq emit_bin cache
parse_bin-steps_iff_example =
    parse_bin-steps_iff disk second_disk (codes "m") built parse-manifest refl cache-small

parse_bin_content-short_example :
    parse_bin_content
      (write_header
        (record { num_definitions = 1; num_nodes = 2; num_steps = 3; strings_size = 0 }))
      empty_builder
    ≡ thrown invalid_read
parse_bin_content-short_example =
    parse_bin_content-short 0 2 3 empty_builder (omega arith) (omega arith) (omega arith)
