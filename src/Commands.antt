-- ===== src/Commands.antt =====
-- src/executor.cpp: the command lines of the steps. The source builds them in three places, for
-- compile_commands.json (`buildCompdb`), for `-t commands` (`emit_commands`) and for a
-- build (`execute`), and each place has its function here.
pub mod Agree
use catalyst_build_executor.Base.{
  ℕ, Bool, true, false, ◌&&◌, Bytes, List, [], ◌∷◌, ◌++◌, Option, none, some, codes, bytes_eq, ltb,
  length, if◌then◌else◌,
}
use catalyst_build_executor.Domain.{BuildStep}
use catalyst_build_executor.Builder.{Builder, definition_words}

-- The definitions that `execute` reads, split at blanks.
pub record Toolchain : Type 0 where
  pub cc : List Bytes
  pub cxx : List Bytes
  pub cflags : List Bytes
  pub cxxflags : List Bytes
  pub ldflags : List Bytes
  pub ldlibs : List Bytes

unfoldable pub toolchain : Builder → Toolchain
toolchain b = record {
  cc = definition_words b (codes "cc");
  cxx = definition_words b (codes "cxx");
  cflags = definition_words b (codes "cflags");
  cxxflags = definition_words b (codes "cxxflags");
  ldflags = definition_words b (codes "ldflags");
  ldlibs = definition_words b (codes "ldlibs");
}

-- `add_parts`: the parts that are not empty are appended.
abbrev pub add_parts : List Bytes → List Bytes → List Bytes
add_parts args [] = args
add_parts args ([] ∷ parts) = add_parts args parts
add_parts args ((c ∷ part) ∷ parts) = add_parts (args ++ (c ∷ part) ∷ []) parts

-- From `-MMD` to the output: the lines that `buildCompdb` has twice, for `cc` and for `cxx`.
abbrev pub compdb_tail : BuildStep → List Bytes
compdb_tail step =
    (codes "-MMD" ∷ codes "-MF" ∷ (step.output ++ codes ".d") ∷ codes "-c" ∷ [])
    ++ (step.parsed_inputs ++ codes "-o" ∷ step.output ∷ [])

-- The body of the loop of `buildCompdb` for one step: the field "arguments", for a compilation.
unfoldable pub compdb_args : Toolchain → BuildStep → Option (List Bytes)
compdb_args tc step =
    if bytes_eq step.tool (codes "cc")
    then some (add_parts (add_parts [] tc.cc) tc.cflags ++ compdb_tail step)
    else if bytes_eq step.tool (codes "cxx")
    then some (add_parts (add_parts [] tc.cxx) tc.cxxflags ++ compdb_tail step)
    else none

-- From `-MMD` to the output: the lines that `emit_commands` has twice, for `cc` and for `cxx`.
abbrev pub preview_tail : BuildStep → List Bytes
preview_tail step =
    (codes "-MMD" ∷ codes "-MF" ∷ (step.output ++ codes ".d") ∷ codes "-c" ∷ [])
    ++ (step.parsed_inputs ++ codes "-o" ∷ step.output ∷ [])

-- `build_command_args_internal` of `emit_commands`.
unfoldable pub preview_args : Toolchain → BuildStep → List Bytes
preview_args tc step =
    if bytes_eq step.tool (codes "cc")
    then add_parts (add_parts [] tc.cc) tc.cflags ++ preview_tail step
    else if bytes_eq step.tool (codes "cxx")
    then add_parts (add_parts [] tc.cxx) tc.cxxflags ++ preview_tail step
    else if bytes_eq step.tool (codes "ld")
    then add_parts [] tc.cxx ++ (step.parsed_inputs ++ codes "-o" ∷ step.output ∷ [])
    else if bytes_eq step.tool (codes "ar")
    then (codes "ar" ∷ codes "rcs" ∷ step.output ∷ []) ++ step.parsed_inputs
    else if bytes_eq step.tool (codes "sld")
    then add_parts [] tc.cxx
      ++ (codes "-shared" ∷ (step.parsed_inputs ++ codes "-o" ∷ step.output ∷ []))
    else []

-- The clock and the names of the file system, as the executor asks for them: `mtime` is `none`
-- where `last_write_time` reports an error, and `rsp_path` is `replace_extension(".rsp")`.
pub record Files : Type 0 where
  pub exists : Bytes → Bool
  pub mtime : Bytes → Option ℕ
  pub rsp_path : Bytes → Bytes

-- `isNewer`
unfoldable pub is_newer : Files → Bytes → Bytes → Bool
is_newer fs new_file old_file = elim (fs.mtime new_file) [
  | none ↦ true
  | some new_time ↦ elim (fs.mtime old_file) [ none ↦ true | some old_time ↦ ltb old_time new_time ]
]

-- `rsp_content`: each input and a newline.
abbrev pub rsp_content : List Bytes → Bytes
rsp_content [] = []
rsp_content (input ∷ inputs) = input ++ 0x0a ∷ rsp_content inputs

abbrev pub rsp_threshold : ℕ
rsp_threshold = 50

-- Whether the link command goes through a response file, and the file that is written for it.
unfoldable pub response_file :
    Files → (build_file : Bytes) → (dry_run : Bool) → BuildStep → Bool × Option (Bytes × Bytes)
response_file fs build_file dry_run step =
    let path = fs.rsp_path step.output in
    if fs.exists path && is_newer fs path build_file
    then (true, none)
    else if ltb rsp_threshold (length step.parsed_inputs)
    then (true, if dry_run then none else some (path, rsp_content step.parsed_inputs))
    else (false, none)

abbrev pub link_inputs : Files → BuildStep → Bool → List Bytes
link_inputs fs step true = (0x40 ∷ fs.rsp_path step.output) ∷ []
link_inputs fs step false = step.parsed_inputs

-- The branch of `build_command_args` for a link step.
unfoldable pub link_command :
    Files
    → (build_file : Bytes) → Toolchain
    → (dry_run : Bool) → BuildStep
    → List Bytes × Option (Bytes × Bytes)
link_command fs build_file tc dry_run step =
    let (use_rsp, written) = response_file fs build_file dry_run step in
    (
      add_parts
          (add_parts
            (add_parts [] tc.cxx ++ (link_inputs fs step use_rsp ++ codes "-o" ∷ step.output ∷ []))
            tc.ldflags)
          tc.ldlibs,
      written,
    )

-- From `-MMD` to the output: the lines that `execute` has twice, for `cc` and for `cxx`.
abbrev pub compile_tail : BuildStep → List Bytes
compile_tail step =
    (codes "-MMD" ∷ codes "-MF" ∷ (step.output ++ codes ".d") ∷ codes "-c" ∷ [])
    ++ (step.parsed_inputs ++ codes "-o" ∷ step.output ∷ [])

-- `build_command_args` of `execute`: the arguments, and the response file that was written.
unfoldable pub build_command_args :
    Files
    → (build_file : Bytes) → Toolchain
    → (dry_run : Bool) → BuildStep
    → List Bytes × Option (Bytes × Bytes)
build_command_args fs build_file tc dry_run step =
    if bytes_eq step.tool (codes "cc")
    then (add_parts (add_parts [] tc.cc) tc.cflags ++ compile_tail step, none)
    else if bytes_eq step.tool (codes "cxx")
    then (add_parts (add_parts [] tc.cxx) tc.cxxflags ++ compile_tail step, none)
    else if bytes_eq step.tool (codes "ld")
    then link_command fs build_file tc dry_run step
    else if bytes_eq step.tool (codes "ar")
    then ((codes "ar" ∷ codes "rcs" ∷ step.output ∷ []) ++ step.parsed_inputs, none)
    else if bytes_eq step.tool (codes "sld")
    then (
      add_parts [] tc.cxx
          ++ (codes "-shared" ∷ (step.parsed_inputs ++ codes "-o" ∷ step.output ∷ [])),
      none,
    )
    else ([], none)
