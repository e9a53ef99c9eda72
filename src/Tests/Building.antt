-- ===== src/Tests/Building.antt =====
-- The theorems on commands and on rebuilding, on samples.
use catalyst_build_executor.Base.{
  ap, ◌≡◌, refl, true, false, [], ◌∷◌, ◌++◌, none, some, codes, bytes_eq, bytes_eq_iff,
  if◌then◌else◌, replicate,
}
use catalyst_build_executor.Domain.{BuildStep, is_compiler}
use catalyst_build_executor.Commands.{
  Toolchain, Files, preview_args, compdb_args, build_command_args, response_file, link_command,
}
use catalyst_build_executor.Commands.Agree.{
  build_command_args-preview_args, compdb_args-preview_args, build_command_args-expected_file,
  link_flags, linked_step, expected_file, unlines,
}
use catalyst_build_executor.Rebuild.{PathOrder, Clock, IsClockOf, needs_rebuild}
use catalyst_build_executor.Rebuild.Cached.{must_rebuild, IsDecision, needs_rebuild-must_rebuild}
use catalyst_build_executor.Parser.{new_step}

abbrev pub link : BuildStep
link = record (new_step (codes "ld") (codes "a.o") (codes "app")) {
  parsed_inputs = codes "a.o" ∷ [];
}

abbrev wide_link : BuildStep
wide_link = record link { parsed_inputs = replicate 51 (codes "a.o") }

abbrev pub tools : Toolchain
tools = record {
  cc = codes "clang" ∷ [];
  cxx = codes "clang++" ∷ [];
  cflags = [];
  cxxflags = codes "-O2" ∷ [];
  ldflags = codes "-L." ∷ [];
  ldlibs = codes "-lm" ∷ [];
}

abbrev pub disk : Files
disk = record { exists = λ p. false; mtime = λ p. some 5; rsp_path = λ p. p ++ codes ".rsp" }

build_command_args-preview_args_example :
    (build_command_args disk (codes "m") tools false wide_link).0
    ≡ preview_args tools (linked_step disk (codes "m") wide_link) ++ link_flags tools wide_link
build_command_args-preview_args_example =
    build_command_args-preview_args disk (codes "m") tools false wide_link

compdb_args-preview_args_example :
    compdb_args tools link
    ≡ (if is_compiler link.tool then some (preview_args tools link) else none)
compdb_args-preview_args_example = compdb_args-preview_args tools link

build_command_args-expected_file_example :
    (build_command_args disk (codes "m") tools false wide_link).1
    ≡ expected_file disk (codes "m") wide_link false
build_command_args-expected_file_example =
    build_command_args-expected_file disk (codes "m") tools false wide_link

-- What is written for the wide link: a file, with 51 lines.
wide_file :
    (build_command_args disk (codes "m") tools false wide_link).1
    ≡ some (codes "app.rsp", unlines (replicate 51 (codes "a.o")))
unfolding build_command_args link_command response_file bytes_eq
wide_file = refl

-- Paths that are equal if their bytes are; with this order every path is looked for at the front.
abbrev pub paths : PathOrder
paths = record { less = λ p q. false; same = bytes_eq }

pub paths-IsClockOf : (mtime : Clock) → IsClockOf paths mtime
paths-IsClockOf mtime p q same = ap mtime ((bytes_eq_iff p q).0 same)

needs_rebuild-must_rebuild_example :
    IsDecision paths disk.mtime
      (must_rebuild paths disk.mtime (λ p. true) (codes "m") link)
      (needs_rebuild paths disk.mtime (λ p. true) (codes "m") link [])
needs_rebuild-must_rebuild_example =
    needs_rebuild-must_rebuild paths disk.mtime (paths-IsClockOf disk.mtime) (λ p. true) (codes "m")
      link [] tt
