-- ===== src/Tests/Samples.antt =====
-- A manifest with a compilation and a link, the dependency file that a compiler left, and what the code makes of them.
use catalyst_build_executor.Base.Loop.{iterate}
use catalyst_build_executor.Base.{
  ◌≡◌, refl, Bytes, ◌∷◌, ◌++◌, codes, bytes_eq, if◌then◌else◌, find, find_from, substr, starts_with,
  split_first, lookup, emplace,
}
use catalyst_build_executor.Domain.{FileSystem, absent, file, Result, ok}
use catalyst_build_executor.Depfile.{
  skip_round, skip_whitespace, plain_round, escaped_round, extract_escaped, extract_token,
  depfile_round, depfile_loop, parse_content, parse_depfile,
}
use catalyst_build_executor.Graph.{
  add_step, get_or_create_node, add_resource, parse_inputs, add_input, add_edge, depfile_callback,
  insert_step,
}
use catalyst_build_executor.Fields.{field_round, for_each_field}
use catalyst_build_executor.Builder.{
  Builder, empty_builder, add_definition, builder_add_step, builder_add_resource,
}
use catalyst_build_executor.Parser.{parse_def, parse_step, parse_line, parse_lines, parse_manifest}

abbrev pub manifest : Bytes
manifest =
    codes "DEF|cc|clang"
    ++ 0x0a ∷ codes "cc|a.c,!r.png|a.o"
    ++ 0x0d ∷ 0x0a ∷ codes "# link"
    ++ 0x0a ∷ codes "ld|a.o|app"

abbrev pub depfile : Bytes
depfile = codes "a.o: a.c h.h"

abbrev pub disk : FileSystem
disk path =
    if bytes_eq path (codes "m")
    then file manifest
    else if bytes_eq path (codes "a.o.d")
    then file depfile
    else absent

abbrev pub or_empty_builder : Result Builder → Builder
or_empty_builder (ok b) = b
or_empty_builder _ = empty_builder

pub built : Builder
built = or_empty_builder (parse_manifest disk (codes "m") empty_builder)

unfoldable pub program : Unit {0}
unfolding parse_manifest parse_lines parse_line parse_step parse_def builder_add_step
    builder_add_resource add_definition add_step add_resource get_or_create_node parse_inputs
    add_input add_edge depfile_callback insert_step for_each_field field_round skip_round
    skip_whitespace plain_round escaped_round extract_escaped extract_token depfile_round
    depfile_loop parse_content parse_depfile bytes_eq find find_from substr starts_with split_first
    lookup emplace iterate built
program = tt

pub parse-manifest : parse_manifest disk (codes "m") empty_builder ≡ ok built
unfolding program
parse-manifest = refl
