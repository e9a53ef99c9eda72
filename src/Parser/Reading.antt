-- ===== src/Parser/Reading.antt =====
-- The parser (src/parser.cpp) on a manifest that is printed entry by entry.
use catalyst_build_executor.Base.{
  ℕ, ◌≡◌, ◌≢◌, refl, ap, ◌∙◌, Bool, true, false, ◌||◌, not, Bytes, List, [], ◌∷◌, ◌++◌, none, All,
  arith, length, if◌then◌else◌, codes, starts_with, find, split_on, split_on-append, find-append,
}
use catalyst_build_executor.Domain.{FileSystem, file, ◌>>=◌}
use catalyst_build_executor.Builder.{Builder, builder_add_resource}
use catalyst_build_executor.Parser.{strip_cr, parse_line, parse_manifest}
use catalyst_build_executor.Parser.Lines.{parse_each, parse_lines_lem, >>=-ext}
use catalyst_build_executor.Parser.Columns.{
  parse_step-fields, parse_def-fields, parse_without_pipe, parse_one_pipe, starts_with-field,
  starts_with-hash, parse_line-if, no_pipe,
}
use catalyst_build_executor.Parser.Print.{
  ManifestEntry, blank, comment, definition, build, without_pipe, with_one_pipe, entry_text,
  with_ending, print_manifest, ends_in_cr, IsSeparate, IsPrintable, enter, enter_each,
}

not-nil : (s t : Bytes) (c : ℕ) → s ++ c ∷ t ≢ []
not-nil [] t c e = cc
not-nil (d ∷ s) t c e = cc

both_ways : {A : Type 0} (b : Bool) (x y z : A) → x ≡ z → y ≡ z → (if b then x else y) ≡ z
both_ways true x y z h h' = h
both_ways false x y z h h' = h'

-- Each entry does what it stands for.
parse_line-enter :
    (fs : FileSystem) (entry : ManifestEntry) (b : Builder)
    → IsSeparate entry
    → parse_line fs (entry_text entry) b ≡ enter fs entry b
unfolding parse_line starts_with
parse_line-enter fs blank b h = refl
parse_line-enter fs (comment text) b h = refl
parse_line-enter fs (definition key value) b h = parse_def-fields key value b h
parse_line-enter fs (build tool inputs output) b (h, h', hash, def) =
    parse_line-if fs (tool ++ b'|' ∷ (inputs ++ b'|' ∷ output)) b (not-nil tool _ b'|')
      (starts_with-hash tool (inputs ++ b'|' ∷ output) hash)
    ∙ (let e : starts_with (tool ++ b'|' ∷ (inputs ++ b'|' ∷ output)) (codes "DEF|") ≡ false =
          starts_with-field tool (codes "DEF") (inputs ++ b'|' ∷ output) h no_pipe ∙ def in
        rw e (parse_step-fields fs tool inputs output b h h'))
parse_line-enter fs (without_pipe text) b (h, h', hash) =
    let (d, s) = parse_without_pipe fs text b h' in
    parse_line-if fs text b h hash ∙ both_ways (starts_with text (codes "DEF|")) _ _ _ d s
parse_line-enter fs (with_one_pipe left right) b (h, h', hash) =
    let (d, s) = parse_one_pipe fs left right b h h' in
    parse_line-if fs (left ++ b'|' ∷ right) b (not-nil left right b'|')
      (starts_with-hash left right hash)
    ∙ both_ways (starts_with (left ++ b'|' ∷ right) (codes "DEF|")) _ _ _ d s

strip_cr-append_cr : (s : Bytes) → strip_cr (s ++ 0x0d ∷ []) ≡ s
strip_cr-append_cr [] = refl
strip_cr-append_cr (c ∷ []) = refl
strip_cr-append_cr (c ∷ d ∷ s) = ap (λ t. c ∷ t) (strip_cr-append_cr (d ∷ s))

strip_cr-unchanged : (s : Bytes) → not (ends_in_cr s) ≡ true → strip_cr s ≡ s
strip_cr-unchanged [] h = refl
strip_cr-unchanged (c ∷ []) h = ground arith
strip_cr-unchanged (c ∷ d ∷ s) h = ap (λ t. c ∷ t) (strip_cr-unchanged (d ∷ s) h)

strip_cr-with_ending :
    (crlf : Bool) (s : Bytes)
    → (crlf || not (ends_in_cr s)) ≡ true
    → strip_cr (with_ending crlf s) ≡ s
strip_cr-with_ending true s h = strip_cr-append_cr s
strip_cr-with_ending false s h = strip_cr-unchanged s h

find-with_ending :
    (crlf : Bool) (s : Bytes) → find 0x0a s ≡ none → find 0x0a (with_ending crlf s) ≡ none
unfolding find
find-with_ending true s h = find-append 0x0a s (0x0d ∷ []) h refl
find-with_ending false s h = h

parse_each-print :
    (fs : FileSystem) (entries : List (ManifestEntry × Bool)) (b : Builder)
    → All IsPrintable entries
    → parse_each fs (split_on 0x0a (print_manifest entries)) b ≡ enter_each fs entries b
unfolding split_on parse_line
parse_each-print fs [] b h = refl
parse_each-print fs ((entry, crlf) ∷ entries) b ((separate, one_line, ending), hs) =
    ap (λ lines. parse_each fs lines b)
      (split_on-append 0x0a (with_ending crlf (entry_text entry)) (print_manifest entries)
        (find-with_ending crlf (entry_text entry) one_line))
    ∙ ap
        (λ line.
          parse_line fs line b >>= λ b'. parse_each fs (split_on 0x0a (print_manifest entries)) b')
        (strip_cr-with_ending crlf (entry_text entry) ending)
    ∙ ap (λ r. r >>= λ b'. parse_each fs (split_on 0x0a (print_manifest entries)) b')
        (parse_line-enter fs entry b separate)
    ∙ >>=-ext (enter fs entry b) (λ b'. parse_each-print fs entries b' hs)

-- A manifest that holds printed entries, each line ending in "\n" or "\r\n", is read as these
-- entries in order: blank lines and comments do nothing, a definition is added, a step is added
-- with its tool, inputs and output, and at the first line with less than two pipes the error that
-- names the line and the pipe is returned. An entry holds no line break, and no '\r' at its end
-- where the line ends in "\n"; it holds no pipe before its last part, or none at all where the
-- line has less than two; no text but a comment begins with '#', no tool is `DEF`, and a line
-- without a pipe is not empty.
pub parse_manifest-print :
    (fs : FileSystem) (path : Bytes) (entries : List (ManifestEntry × Bool)) (b : Builder)
    → All IsPrintable entries
    → fs path ≡ file (print_manifest entries)
    → parse_manifest fs path b
      ≡ enter_each fs entries (builder_add_resource (print_manifest entries) b)
unfolding parse_manifest
parse_manifest-print fs path entries b h at_path =
    let content = print_manifest entries in
    rw (at_path, parse_manifest)
      (parse_lines_lem fs (length content) content (builder_add_resource content b) (omega arith)
        ∙ parse_each-print fs entries (builder_add_resource content b) h)
