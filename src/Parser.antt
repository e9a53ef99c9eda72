-- ===== src/Parser.antt =====
-- src/parser.cpp: the text manifest.
pub mod Lines
pub mod Print
mod Columns
pub mod Reading
pub mod Bounds
pub mod Cached
use catalyst_build_executor.Base.{
  ℕ, zero, suc, ◌+◌, ◌-◌, Bytes, List, [], ◌∷◌, Option, none, some, find, find_from, substr, drop,
  length, starts_with, codes, ◌==◌, if◌then◌else◌, split_first,
}
use catalyst_build_executor.Domain.{
  BuildStep, FileSystem, FileView, absent, unreadable, file, Result, ok, unexpected, ◌>>=◌,
  missing_first_pipe, missing_second_pipe, cannot_map,
}
use catalyst_build_executor.Builder.{
  Builder, add_definition, builder_add_step, builder_add_resource,
}

unfoldable pub parse_def : Bytes → Builder → Result Builder
parse_def line b = elim (find b'|' line) [
  | none ↦ unexpected (missing_first_pipe line)
  | some first ↦ elim (find_from b'|' line (first + 1)) [
    | none ↦ unexpected (missing_second_pipe line)
    | some second ↦
        ok (
          add_definition (substr line (first + 1) (second - (first + 1))) (drop (second + 1) line)
            b)
  ]
]

abbrev pub new_step : Bytes → Bytes → Bytes → BuildStep
new_step tool inputs output = record {
  tool = tool;
  inputs = inputs;
  output = output;
  opaque_inputs = none;
  depfile_inputs = none;
  parsed_inputs = [];
}

unfoldable pub parse_step : FileSystem → Bytes → Builder → Result Builder
parse_step fs line b = elim (find b'|' line) [
  | none ↦ unexpected (missing_first_pipe line)
  | some first ↦ elim (find_from b'|' line (first + 1)) [
    | none ↦ unexpected (missing_second_pipe line)
    | some second ↦
        builder_add_step fs
          (new_step (substr line 0 first) (substr line (first + 1) (second - (first + 1)))
            (drop (second + 1) line))
          b
  ]
]

-- `if (!line.empty() && line.back() == '\r') line.remove_suffix(1);`
abbrev pub strip_cr : Bytes → Bytes
strip_cr [] = []
strip_cr (c ∷ []) = if c == 0x0d then [] else c ∷ []
strip_cr (c ∷ d ∷ s) = c ∷ strip_cr (d ∷ s)

-- The body of the loop for one line: empty, a comment, a definition or a step.
unfoldable pub parse_line : FileSystem → Bytes → Builder → Result Builder
parse_line fs [] b = ok b
parse_line fs (c ∷ s) b =
    if starts_with (c ∷ s) (codes "#")
    then ok b
    else if starts_with (c ∷ s) (codes "DEF|")
    then parse_def (c ∷ s) b
    else parse_step fs (c ∷ s) b

-- The loop over the lines; the text is what stands from `start` on. Each round takes a byte at
-- least, so the length of the text is enough fuel (`Parser.Lines`).
unfoldable pub parse_lines : FileSystem → ℕ → Bytes → Builder → Result Builder
parse_lines fs zero content b = ok b
parse_lines fs (suc fuel) [] b = ok b
parse_lines fs (suc fuel) (c ∷ s) b =
    let (line, rest) = split_first 0x0a (c ∷ s) in
    parse_line fs (strip_cr line) b >>= λ b'. parse_lines fs fuel rest b'

-- `parse` where the binary cache is not used: the file is mapped and kept, and its lines are
-- parsed.
unfoldable pub parse_manifest : FileSystem → Bytes → Builder → Result Builder
parse_manifest fs path b = elim (fs path) [
  | absent ↦ unexpected (cannot_map path)
  | unreadable ↦ unexpected (cannot_map path)
  | file content ↦ parse_lines fs (length content) content (builder_add_resource content b)
]
