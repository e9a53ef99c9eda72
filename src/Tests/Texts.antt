-- ===== src/Tests/Texts.antt =====
-- The theorems on manifests and dependency files, on samples.
use catalyst_build_executor.Base.Loop.{iterate}
use catalyst_build_executor.Base.{
  ◌≡◌, refl, Bytes, List, [], ◌∷◌, ◌++◌, none, codes, foldl, map, find, arith, All, Bool, true,
  false, starts_with, bytes_eq,
}
use catalyst_build_executor.Depfile.{parse_content, depfile_round}
use catalyst_build_executor.Depfile.Print.{
  plain, escaped, blank, continued_crlf, Entry, IsEntry, pieces, print_name, print_depfile,
}
use catalyst_build_executor.Depfile.Tokens.{parse_content-print}
use catalyst_build_executor.Depfile.Rounds.{depfile_loop_ends}
use catalyst_build_executor.Domain.{FileSystem, file}
use catalyst_build_executor.Builder.{empty_builder, builder_add_resource}
use catalyst_build_executor.Parser.{parse_manifest}
use catalyst_build_executor.Parser.Print.{
  ManifestEntry, comment, definition, build, without_pipe, with_one_pipe, print_manifest,
  IsPrintable, enter_each,
}
use catalyst_build_executor.Parser.Print
use catalyst_build_executor.Parser.Reading.{parse_manifest-print}

abbrev snoc : List Bytes → Bytes → List Bytes
snoc names name = names ++ name ∷ []

-- `o: a\ b \⏎ c`
abbrev entries : List Entry
entries =
    record {
      first_gap = blank 0x20;
      more_gaps = [];
      first_piece = plain b'a';
      more_pieces = escaped 0x20 ∷ plain b'b' ∷ [];
    }
    ∷ record {
      first_gap = blank 0x20;
      more_gaps = continued_crlf ∷ blank 0x20 ∷ [];
      first_piece = plain b'c';
      more_pieces = [];
    }
    ∷ []

entries-IsEntry : All IsEntry entries
entries-IsEntry = (
  record {
    gaps_valid = (refl, tt);
    pieces_valid = ((refl, omega arith), (refl, ((refl, omega arith), tt)));
  },
  (record { gaps_valid = (refl, (tt, (refl, tt))); pieces_valid = ((refl, omega arith), tt) }, tt),
)

no_colon : find b':' (codes "o") ≡ none
unfolding find
no_colon = refl

parse_content-print_example :
    parse_content snoc [] (print_depfile (codes "o") entries (blank 0x0a ∷ []))
    ≡ foldl snoc [] (map (λ e. print_name (pieces e)) entries)
parse_content-print_example =
    parse_content-print snoc (codes "o") entries (blank 0x0a ∷ []) [] no_colon entries-IsEntry
      (refl, tt)

depfile_loop_ends_example :
    depfile_round snoc (iterate (depfile_round snoc) 4 ([], codes " a b")) ≡ none
depfile_loop_ends_example = depfile_loop_ends snoc [] (codes " a b")

abbrev lines : List (ManifestEntry × Bool)
lines =
    (comment (codes " rules"), false)
    ∷ (definition (codes "cc") (codes "g++|x"), true)
    ∷ (Print.blank, true)
    ∷ (build (codes "cc") (codes "a.c,b.h") (codes "a.o"), true)
    ∷ (build (codes "ld") (codes "a.o") (codes "app"), false)
    ∷ (with_one_pipe (codes "ld") (codes "app"), false)
    ∷ (without_pipe (codes "end"), false)
    ∷ []

lines-IsPrintable : All IsPrintable lines
unfolding find starts_with bytes_eq
lines-IsPrintable = (
  (tt, refl, refl),
  (
    (refl, refl, refl),
    (
      (tt, refl, refl),
      (
        ((refl, refl, refl, refl), refl, refl),
        (
          ((refl, refl, refl, refl), refl, refl),
          (((refl, refl, refl), refl, refl), ((((λ e. cc), refl, refl), refl, refl), tt)),
        ),
      ),
    ),
  ),
)

abbrev lines_disk : FileSystem
lines_disk path = file (print_manifest lines)

parse_manifest-print_example :
    parse_manifest lines_disk (codes "m") empty_builder
    ≡ enter_each lines_disk lines (builder_add_resource (print_manifest lines) empty_builder)
parse_manifest-print_example =
    parse_manifest-print lines_disk (codes "m") lines empty_builder lines-IsPrintable refl
