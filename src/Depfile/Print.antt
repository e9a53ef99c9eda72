-- ===== src/Depfile/Print.antt =====
-- The text of a dependency file, as a compiler writes it: what the reader is measured by.
use catalyst_build_executor.Base.{ℕ, ◌≢◌, ◌≡◌, true, false, Bytes, List, [], ◌∷◌, ◌++◌, All}
use catalyst_build_executor.Depfile.{backslash, is_blank, is_newline}

-- A file name is a row of plain bytes and escaped ones, as in `a\ b`.
pub data Piece : Type 0 where
  plain escaped : ℕ → Piece

abbrev pub IsPiece : Piece → Type 0
IsPiece (plain c) = (is_blank c ≡ false) × (c ≢ backslash)
IsPiece (escaped c) = is_newline c ≡ false

abbrev pub print_name : List Piece → Bytes
print_name [] = []
print_name (plain c ∷ ps) = c ∷ print_name ps
print_name (escaped c ∷ ps) = backslash ∷ c ∷ print_name ps

-- Between names stand blanks and line continuations.
pub data Gap : Type 0 where
  blank : ℕ → Gap
  continued_lf continued_crlf : Gap

abbrev pub IsGap : Gap → Type 0
IsGap (blank c) = is_blank c ≡ true
IsGap continued_lf = Unit
IsGap continued_crlf = Unit

abbrev pub print_gaps : List Gap → Bytes
print_gaps [] = []
print_gaps (blank c ∷ gs) = c ∷ print_gaps gs
print_gaps (continued_lf ∷ gs) = backslash ∷ 0x0a ∷ print_gaps gs
print_gaps (continued_crlf ∷ gs) = backslash ∷ 0x0d ∷ 0x0a ∷ print_gaps gs

-- A prerequisite with the gaps in front of it, one at least.
pub record Entry : Type 0 where
  pub first_gap : Gap
  pub more_gaps : List Gap
  pub first_piece : Piece
  pub more_pieces : List Piece

abbrev pub gaps : Entry → List Gap
gaps e = e.first_gap ∷ e.more_gaps

abbrev pub pieces : Entry → List Piece
pieces e = e.first_piece ∷ e.more_pieces

pub record IsEntry (e : Entry) : Type 0 where
  pub gaps_valid : All IsGap (gaps e)
  pub pieces_valid : All IsPiece (pieces e)

abbrev pub print_entries : List Entry → List Gap → Bytes
print_entries [] trailing = print_gaps trailing
print_entries (e ∷ es) trailing =
    print_gaps (gaps e) ++ (print_name (pieces e) ++ print_entries es trailing)

-- `target: names`
abbrev pub print_depfile : Bytes → List Entry → List Gap → Bytes
print_depfile target es trailing = target ++ b':' ∷ print_entries es trailing
