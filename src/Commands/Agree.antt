-- ===== src/Commands/Agree.antt =====
-- What the three places that build command lines have in common, and where they differ.
use mathlib.Core.List.{append_assoc, append-nil}
use catalyst_build_executor.Base.{
  ℕ, ◌≡◌, refl, sym, ap, ◌∙◌, inl, inr, Bool, true, false, ◌&&◌, ◌||◌, not, Bytes, List, [], ◌∷◌,
  ◌++◌, Option, none, some, foldl, length, arith, leb, ltb, if◌then◌else◌, Bool-cases, codes,
  bytes_eq, bytes_eq_iff,
}
use catalyst_build_executor.Domain.{BuildStep, is_compiler}
use catalyst_build_executor.Commands.{
  Toolchain, add_parts, compdb_args, preview_args, build_command_args, Files, response_file,
  link_command, link_inputs, is_newer, rsp_content,
}

-- The parts that are not empty.
abbrev pub nonempty : List Bytes → List Bytes
nonempty [] = []
nonempty ([] ∷ parts) = nonempty parts
nonempty ((c ∷ part) ∷ parts) = (c ∷ part) ∷ nonempty parts

pub add_parts-append : (args parts : List Bytes) → add_parts args parts ≡ args ++ nonempty parts
add_parts-append args [] = sym (append-nil args)
add_parts-append args ([] ∷ parts) = add_parts-append args parts
add_parts-append args ((c ∷ part) ∷ parts) =
    add_parts-append (args ++ (c ∷ part) ∷ []) parts
    ∙ append_assoc args ((c ∷ part) ∷ []) (nonempty parts)

-- What a link step's command has at its end, in a build.
abbrev pub link_flags : Toolchain → BuildStep → List Bytes
link_flags tc step =
    if bytes_eq step.tool (codes "ld") then nonempty tc.ldflags ++ nonempty tc.ldlibs else []

-- compile_commands.json has exactly the compilations, with the arguments that `-t commands` prints.
pub compdb_args-preview_args :
    (tc : Toolchain) (step : BuildStep)
    → compdb_args tc step ≡ (if is_compiler step.tool then some (preview_args tc step) else none)
unfolding compdb_args preview_args
compdb_args-preview_args tc step = ground arith

other_tool : (t a b : Bytes) → bytes_eq t a ≡ true → bytes_eq a b ≡ false → bytes_eq t b ≡ false
other_tool t a b same differ = ap (λ x. bytes_eq x b) ((bytes_eq_iff t a).0 same) ∙ differ

ld-other :
    (bytes_eq (codes "ld") (codes "cc") ≡ false) × (bytes_eq (codes "ld") (codes "cxx") ≡ false)
unfolding bytes_eq
ld-other = (refl, refl)

-- A file is there and counts as newer than the manifest: it has no time, or the manifest has none, or
-- its time is the later one.
abbrev pub is_later : Option ℕ → Option ℕ → Bool
is_later none old_time = true
is_later (some new_time) none = true
is_later (some new_time) (some old_time) = not (leb new_time old_time)

-- The text with each input on a line.
abbrev pub unlines : List Bytes → Bytes
unlines inputs = foldl (λ text input. text ++ (input ++ 0x0a ∷ [])) [] inputs

unlines-append :
    (text : Bytes) (inputs : List Bytes)
    → foldl (λ text input. text ++ (input ++ 0x0a ∷ [])) text inputs ≡ text ++ rsp_content inputs
unlines-append text [] = sym (append-nil text)
unlines-append text (input ∷ inputs) =
    unlines-append (text ++ (input ++ 0x0a ∷ [])) inputs
    ∙ append_assoc text (input ++ 0x0a ∷ []) (rsp_content inputs)
    ∙ ap (λ s. text ++ s) (append_assoc input (0x0a ∷ []) (rsp_content inputs))

is_newer-is_later :
    (fs : Files) (new_file old_file : Bytes)
    → is_newer fs new_file old_file ≡ is_later (fs.mtime new_file) (fs.mtime old_file)
unfolding is_newer
is_newer-is_later fs new_file old_file = go (fs.mtime new_file) (fs.mtime old_file)
  where
    go :
        (new_time old_time : Option ℕ)
        → elim new_time [ none ↦ true | some t ↦ elim old_time [ none ↦ true | some u ↦ ltb u t ] ]
          ≡ is_later new_time old_time
    go none old_time = refl
    go (some t) none = refl
    go (some t) (some u) = ground arith

module _ (fs : Files) (build_file : Bytes) (step : BuildStep) where
  -- A response file is there that can be used, and a link has too many inputs for its command.
  abbrev pub has_usable : Bool
  has_usable =
      fs.exists (fs.rsp_path step.output)
      && is_later (fs.mtime (fs.rsp_path step.output)) (fs.mtime build_file)

  abbrev pub has_many : Bool
  has_many = not (leb (length step.parsed_inputs) 50)

  -- The step whose command is run: a link may have a response file in place of its inputs.
  abbrev pub linked_step : BuildStep
  linked_step =
      if bytes_eq step.tool (codes "ld") && (has_usable || has_many)
      then record step { parsed_inputs = (0x40 ∷ fs.rsp_path step.output) ∷ [] }
      else step

  -- What is written for the step.
  abbrev pub expected_file : Bool → Option (Bytes × Bytes)
  expected_file dry_run =
      if bytes_eq step.tool (codes "ld") && (has_many && (not has_usable && not dry_run))
      then some (fs.rsp_path step.output, unlines step.parsed_inputs)
      else none

module _ (fs : Files) (build_file : Bytes) (tc : Toolchain) (dry_run : Bool)
    (step : BuildStep) where
  uses_response_file :
      (response_file fs build_file dry_run step).0
      ≡ (has_usable fs build_file step || has_many fs build_file step)
  unfolding response_file
  uses_response_file = ground (arith, is_newer-is_later fs (fs.rsp_path step.output) build_file)

  written_response_file : (response_file fs build_file dry_run step).1 ≡ (
      if has_many fs build_file step && (not (has_usable fs build_file step) && not dry_run)
      then some (fs.rsp_path step.output, unlines step.parsed_inputs)
      else none)
  unfolding response_file
  written_response_file = ground (
    arith,
    is_newer-is_later fs (fs.rsp_path step.output) build_file,
    unlines-append [] step.parsed_inputs,
  )

  link_command-parts :
      (link_command fs build_file tc dry_run step).0
      ≡ (add_parts [] tc.cxx
          ++ (link_inputs fs step (has_usable fs build_file step || has_many fs build_file step)
              ++ codes "-o" ∷ step.output ∷ []))
        ++ (nonempty tc.ldflags ++ nonempty tc.ldlibs)
  unfolding link_command
  link_command-parts = rw uses_response_file (
      add_parts-append _ tc.ldlibs
      ∙ ap (λ l. l ++ nonempty tc.ldlibs) (add_parts-append _ tc.ldflags)
      ∙ append_assoc _ (nonempty tc.ldflags) (nonempty tc.ldlibs))

  linked_step-ld :
      bytes_eq step.tool (codes "ld") ≡ true
      → linked_step fs build_file step ≡ record step {
        parsed_inputs =
            link_inputs fs step (has_usable fs build_file step || has_many fs build_file step);
      }
  linked_step-ld is_ld =
      rw is_ld (go (has_usable fs build_file step || has_many fs build_file step))
    where
      go :
          (u : Bool)
          → (if u
              then record step { parsed_inputs = (0x40 ∷ fs.rsp_path step.output) ∷ [] }
              else step)
            ≡ record step { parsed_inputs = link_inputs fs step u }
      go true = refl
      go false = refl

  -- A build runs the command that `-t commands` prints, for each tool, with two differences for a link: it
  -- names a response file in place of the inputs if a usable one is there or the inputs are more than
  -- 50, and it has the linker's flags and libraries behind it, which are not printed.
  pub build_command_args-preview_args :
      (build_command_args fs build_file tc dry_run step).0
      ≡ preview_args tc (linked_step fs build_file step) ++ link_flags tc step
  unfolding build_command_args preview_args
  build_command_args-preview_args = elim (Bool-cases (bytes_eq step.tool (codes "ld"))) [
    | inl is_ld ↦
        let not_cc = other_tool step.tool (codes "ld") (codes "cc") is_ld ld-other.0 in
        let not_cxx = other_tool step.tool (codes "ld") (codes "cxx") is_ld ld-other.1 in
        let uses = has_usable fs build_file step || has_many fs build_file step in
        let built : (build_command_args fs build_file tc dry_run step).0
            ≡ (link_command fs build_file tc dry_run step).0 =
          rw (not_cc, not_cxx, is_ld) refl in
        let printed : preview_args tc (record step { parsed_inputs = link_inputs fs step uses })
            ≡ add_parts [] tc.cxx ++ (link_inputs fs step uses ++ codes "-o" ∷ step.output ∷ []) =
          rw (not_cc, not_cxx, is_ld) refl in
        let flags : link_flags tc step ≡ nonempty tc.ldflags ++ nonempty tc.ldlibs =
          rw is_ld refl in
        cc (built, link_command-parts, printed, flags, linked_step-ld is_ld)
    | inr not_ld ↦ rw (not_ld, append-nil) (ground arith)
  ]

  -- A response file is written exactly for a link with more than 50 inputs, if no usable one is there and
  -- this is no dry run; it holds each input on a line. Nothing else is ever written.
  pub build_command_args-expected_file :
      (build_command_args fs build_file tc dry_run step).1
      ≡ expected_file fs build_file step dry_run
  unfolding build_command_args link_command
  build_command_args-expected_file = elim (Bool-cases (bytes_eq step.tool (codes "ld"))) [
    | inl is_ld ↦
        let not_cc = other_tool step.tool (codes "ld") (codes "cc") is_ld ld-other.0 in
        let not_cxx = other_tool step.tool (codes "ld") (codes "cxx") is_ld ld-other.1 in
        rw (not_cc, not_cxx, is_ld) written_response_file
    | inr not_ld ↦ rw not_ld (ground arith)
  ]
