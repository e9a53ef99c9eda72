-- ===== src/Parser/Print.antt =====
-- A manifest (src/parser.cpp) that is printed entry by entry is read as its entries, malformed ones
-- included. The printer knows nothing of the parser.
use catalyst_build_executor.Base.{
  ◌≡◌, ◌≢◌, Bool, true, false, ◌||◌, not, Bytes, List, [], ◌∷◌, ◌++◌, none, ◌==◌, codes, bytes_eq,
  starts_with, find,
}
use catalyst_build_executor.Domain.{
  FileSystem, Result, ok, unexpected, ◌>>=◌, missing_first_pipe, missing_second_pipe,
}
use catalyst_build_executor.Builder.{Builder, add_definition, builder_add_step}
use catalyst_build_executor.Parser.{}

-- The lines that a manifest can have.
pub data ManifestEntry : Type 0 where
  blank : ManifestEntry
  comment : (text : Bytes) → ManifestEntry
  definition : (key value : Bytes) → ManifestEntry
  build : (tool inputs output : Bytes) → ManifestEntry
  without_pipe : (text : Bytes) → ManifestEntry
  with_one_pipe : (left right : Bytes) → ManifestEntry

abbrev pub entry_text : ManifestEntry → Bytes
entry_text blank = []
entry_text (comment text) = b'#' ∷ text
entry_text (definition key value) = codes "DEF" ++ b'|' ∷ (key ++ b'|' ∷ value)
entry_text (build tool inputs output) = tool ++ b'|' ∷ (inputs ++ b'|' ∷ output)
entry_text (without_pipe text) = text
entry_text (with_one_pipe left right) = left ++ b'|' ∷ right

-- A line may end in "\r\n".
abbrev pub with_ending : (crlf : Bool) → Bytes → Bytes
with_ending true text = text ++ 0x0d ∷ []
with_ending false text = text

abbrev pub print_manifest : List (ManifestEntry × Bool) → Bytes
print_manifest [] = []
print_manifest ((entry, crlf) ∷ entries) =
    with_ending crlf (entry_text entry) ++ 0x0a ∷ print_manifest entries

abbrev pub ends_in_cr : Bytes → Bool
ends_in_cr [] = false
ends_in_cr (c ∷ []) = c == 0x0d
ends_in_cr (c ∷ d ∷ s) = ends_in_cr (d ∷ s)

-- The parts hold no pipe and do not look like another entry.
abbrev pub IsSeparate : ManifestEntry → Type 0
IsSeparate blank = Unit
IsSeparate (comment text) = Unit
IsSeparate (definition key value) = find b'|' key ≡ none
IsSeparate (build tool inputs output) =
    (find b'|' tool ≡ none)
    × (find b'|' inputs ≡ none)
    × (starts_with tool (codes "#") ≡ false)
    × (bytes_eq tool (codes "DEF") ≡ false)
IsSeparate (without_pipe text) =
    (text ≢ []) × (find b'|' text ≡ none) × (starts_with text (codes "#") ≡ false)
IsSeparate (with_one_pipe left right) =
    (find b'|' left ≡ none) × (find b'|' right ≡ none) × (starts_with left (codes "#") ≡ false)

-- The text stands on one line, and it does not end in a '\r' that would count as the line's.
abbrev pub IsPrintable : ManifestEntry × Bool → Type 0
IsPrintable (entry, crlf) =
    IsSeparate entry
    × (find 0x0a (entry_text entry) ≡ none)
    × ((crlf || not (ends_in_cr (entry_text entry))) ≡ true)

-- What an entry does.
abbrev pub enter : FileSystem → ManifestEntry → Builder → Result Builder
enter fs blank b = ok b
enter fs (comment text) b = ok b
enter fs (definition key value) b = ok (add_definition key value b)
enter fs (build tool inputs output) b =
    builder_add_step fs
      (record {
        tool = tool;
        inputs = inputs;
        output = output;
        opaque_inputs = none;
        depfile_inputs = none;
        parsed_inputs = [];
      })
      b
enter fs (without_pipe text) b = unexpected (missing_first_pipe text)
enter fs (with_one_pipe left right) b = unexpected (missing_second_pipe (left ++ b'|' ∷ right))

abbrev pub enter_each : FileSystem → List (ManifestEntry × Bool) → Builder → Result Builder
enter_each fs [] b = ok b
enter_each fs ((entry, crlf) ∷ entries) b = enter fs entry b >>= λ b'. enter_each fs entries b'
