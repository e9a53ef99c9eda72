-- ===== src/Depfile/Tokens.antt =====
-- The reader finds the names that were printed, in order.
use mathlib.Core.List.{append_assoc, append-nil}
use catalyst_build_executor.Base.Loop.{iterate, iterate_stop, iterate_next}
use catalyst_build_executor.Base.{
  ℕ, zero, suc, ◌≤◌, ◌≡◌, refl, ap, ◌∙◌, sym, true, Bytes, List, [], ◌∷◌, ◌++◌, none, some, length,
  length-append, arith, All, map, foldl, find, find-append_self, drop-append_self,
}
use catalyst_build_executor.Depfile.{
  backslash, is_blank, skip_round, skip_whitespace, plain_round, escaped_round, extract_escaped,
  extract_token, deliver, depfile_at, depfile_round, depfile_loop, parse_content,
}
use catalyst_build_executor.Depfile.Print.{
  Piece, plain, escaped, IsPiece, print_name, Gap, blank, continued_lf, continued_crlf, IsGap,
  print_gaps, Entry, gaps, pieces, IsEntry, print_entries, print_depfile,
}

-- Here a name ends: neither loop of the scan takes what stands at the pointer.
abbrev IsEnd : Bytes → Type 0
IsEnd rest = (t : Bytes) → (plain_round (t, rest) ≡ none) × (escaped_round (t, rest) ≡ none)

escaped_round-plain :
    (t : Bytes) (c : ℕ) (s : Bytes)
    → IsPiece (plain c)
    → escaped_round (t, c ∷ s) ≡ some (t ++ c ∷ [], s)
unfolding escaped_round
escaped_round-plain t c [] h = ground arith
escaped_round-plain t c (d ∷ s) h = ground arith

escaped_round-escaped :
    (t : Bytes) (c : ℕ) (s : Bytes)
    → IsPiece (escaped c)
    → escaped_round (t, backslash ∷ c ∷ s) ≡ some (t ++ backslash ∷ c ∷ [], s)
unfolding escaped_round
escaped_round-escaped t c s h = rw h

plain_round-plain :
    (t : Bytes) (c : ℕ) (s : Bytes)
    → IsPiece (plain c)
    → plain_round (t, c ∷ s) ≡ some (t ++ c ∷ [], s)
unfolding plain_round
plain_round-plain t c s h = ground arith

plain_round-backslash : (t s : Bytes) → plain_round (t, backslash ∷ s) ≡ none
unfolding plain_round
plain_round-backslash t s = refl

module _ (rest : Bytes) (ends : IsEnd rest) where
  escaped_run :
      (ps : List Piece) (fuel : ℕ) (t : Bytes)
      → All IsPiece ps
      → length (print_name ps) ≤ fuel
      → iterate escaped_round fuel (t, print_name ps ++ rest) ≡ (t ++ print_name ps, rest)
  escaped_run [] fuel t h room =
      iterate_stop escaped_round fuel (t, rest) (ends t).1
      ∙ ap (λ x. (x, rest)) (sym (append-nil t))
  escaped_run (plain c ∷ ps) zero t h room = absurd (omega arith)
  escaped_run (plain c ∷ ps) (suc fuel) t h room =
      iterate_next escaped_round fuel (t, c ∷ (print_name ps ++ rest))
        (escaped_round-plain t c (print_name ps ++ rest) h.0)
      ∙ escaped_run ps fuel (t ++ c ∷ []) h.1 (omega arith)
      ∙ ap (λ x. (x, rest)) (append_assoc t (c ∷ []) (print_name ps))
  escaped_run (escaped c ∷ ps) zero t h room = absurd (omega arith)
  escaped_run (escaped c ∷ ps) (suc fuel) t h room =
      iterate_next escaped_round fuel (t, backslash ∷ c ∷ (print_name ps ++ rest))
        (escaped_round-escaped t c (print_name ps ++ rest) h.0)
      ∙ escaped_run ps fuel (t ++ backslash ∷ c ∷ []) h.1 (omega arith)
      ∙ ap (λ x. (x, rest)) (append_assoc t (backslash ∷ c ∷ []) (print_name ps))

  extract_escaped-end :
      (r : Bytes) (t : Bytes) → escaped_round (t, r) ≡ none → extract_escaped (t, r) ≡ (t, r)
  unfolding extract_escaped
  extract_escaped-end [] t h = refl
  extract_escaped-end (c ∷ s) t h =
      ground (arith, iterate_stop escaped_round (length (c ∷ s)) (t, c ∷ s) h)

  extract_run :
      (ps : List Piece) (fuel : ℕ) (t : Bytes)
      → All IsPiece ps
      → length (print_name ps) ≤ fuel
      → extract_escaped (iterate plain_round fuel (t, print_name ps ++ rest))
        ≡ (t ++ print_name ps, rest)
  unfolding extract_escaped
  extract_run [] fuel t h room =
      ap extract_escaped (iterate_stop plain_round fuel (t, rest) (ends t).0)
      ∙ extract_escaped-end rest t (ends t).1
      ∙ ap (λ x. (x, rest)) (sym (append-nil t))
  extract_run (plain c ∷ ps) zero t h room = absurd (omega arith)
  extract_run (plain c ∷ ps) (suc fuel) t h room =
      ap extract_escaped (
        iterate_next plain_round fuel (t, c ∷ (print_name ps ++ rest))
          (plain_round-plain t c (print_name ps ++ rest) h.0))
      ∙ extract_run ps fuel (t ++ c ∷ []) h.1 (omega arith)
      ∙ ap (λ x. (x, rest)) (append_assoc t (c ∷ []) (print_name ps))
  extract_run (escaped c ∷ ps) fuel t h room =
      ap extract_escaped (iterate_stop plain_round fuel _ (plain_round-backslash t _))
      ∙ escaped_run (escaped c ∷ ps) (length (print_name (escaped c ∷ ps) ++ rest)) t h
          (omega (arith, length-append (print_name (escaped c ∷ ps)) rest))

  extract_token-name :
      (ps : List Piece)
      → All IsPiece ps
      → extract_token (print_name ps ++ rest) ≡ (print_name ps, rest)
  unfolding extract_token
  extract_token-name ps h =
      extract_run ps (length (print_name ps ++ rest)) [] h
        (omega (arith, length-append (print_name ps) rest))

IsEnd-nil : IsEnd []
unfolding plain_round escaped_round
IsEnd-nil t = (refl, refl)

IsEnd-gaps : (g : Gap) (rest : Bytes) → IsGap g → IsEnd (print_gaps (g ∷ []) ++ rest)
unfolding plain_round escaped_round
IsEnd-gaps (blank c) [] h t = (ground arith, ground arith)
IsEnd-gaps (blank c) (d ∷ s) h t = (ground arith, ground arith)
IsEnd-gaps continued_lf rest h t = (refl, refl)
IsEnd-gaps continued_crlf rest h t = (refl, refl)

skip_round-blank : (c : ℕ) (s : Bytes) → is_blank c ≡ true → skip_round (c ∷ s) ≡ some s
unfolding skip_round
skip_round-blank c [] h = ground arith
skip_round-blank c (d ∷ s) h = ground arith

skip_round-lf : (s : Bytes) → skip_round (backslash ∷ 0x0a ∷ s) ≡ some s
unfolding skip_round
skip_round-lf s = refl

skip_round-crlf : (s : Bytes) → skip_round (backslash ∷ 0x0d ∷ 0x0a ∷ s) ≡ some s
unfolding skip_round
skip_round-crlf s = refl

skip_run :
    (gs : List Gap) (rest : Bytes) (fuel : ℕ)
    → All IsGap gs
    → skip_round rest ≡ none
    → length (print_gaps gs) ≤ fuel
    → iterate skip_round fuel (print_gaps gs ++ rest) ≡ rest
skip_run [] rest fuel h stop room = iterate_stop skip_round fuel rest stop
skip_run (blank c ∷ gs) rest zero h stop room = absurd (omega arith)
skip_run (continued_lf ∷ gs) rest zero h stop room = absurd (omega arith)
skip_run (continued_crlf ∷ gs) rest zero h stop room = absurd (omega arith)
skip_run (blank c ∷ gs) rest (suc fuel) h stop room =
    iterate_next skip_round fuel _ (skip_round-blank c (print_gaps gs ++ rest) h.0)
    ∙ skip_run gs rest fuel h.1 stop (omega arith)
skip_run (continued_lf ∷ gs) rest (suc fuel) h stop room =
    iterate_next skip_round fuel _ (skip_round-lf _) ∙ skip_run gs rest fuel h.1 stop (omega arith)
skip_run (continued_crlf ∷ gs) rest (suc fuel) h stop room =
    iterate_next skip_round fuel _ (skip_round-crlf _)
    ∙ skip_run gs rest fuel h.1 stop (omega arith)

skip_whitespace-gaps :
    (gs : List Gap) (rest : Bytes)
    → All IsGap gs
    → skip_round rest ≡ none
    → skip_whitespace (print_gaps gs ++ rest) ≡ rest
unfolding skip_whitespace
skip_whitespace-gaps gs rest h stop =
    skip_run gs rest (length (print_gaps gs ++ rest)) h stop
      (omega (arith, length-append (print_gaps gs) rest))

skip_round-plain : (c : ℕ) (s : Bytes) → IsPiece (plain c) → skip_round (c ∷ s) ≡ none
unfolding skip_round
skip_round-plain c [] h = ground arith
skip_round-plain c (d ∷ s) h = ground arith

skip_round-name :
    (p : Piece) (ps : List Piece) (rest : Bytes)
    → IsPiece p
    → skip_round (print_name (p ∷ ps) ++ rest) ≡ none
unfolding skip_round
skip_round-name (plain c) ps rest h = skip_round-plain c (print_name ps ++ rest) h
skip_round-name (escaped c) ps rest h = ground arith

IsEnd-entries :
    (es : List Entry) (trailing : List Gap)
    → All IsEntry es
    → All IsGap trailing
    → IsEnd (print_entries es trailing)
IsEnd-entries [] [] h ht = IsEnd-nil
IsEnd-entries [] (blank c ∷ gs) h ht = IsEnd-gaps (blank c) (print_gaps gs) ht.0
IsEnd-entries [] (continued_lf ∷ gs) h ht = IsEnd-gaps continued_lf (print_gaps gs) tt
IsEnd-entries [] (continued_crlf ∷ gs) h ht = IsEnd-gaps continued_crlf (print_gaps gs) tt
IsEnd-entries (e ∷ es) trailing h ht = go e.first_gap (h.0).gaps_valid.0
  where
    go :
        (g : Gap)
        → IsGap g
        → IsEnd
            (print_gaps (g ∷ e.more_gaps) ++ (print_name (pieces e) ++ print_entries es trailing))
    go (blank c) v = IsEnd-gaps (blank c) _ v
    go continued_lf v = IsEnd-gaps continued_lf _ v
    go continued_crlf v = IsEnd-gaps continued_crlf _ v

-- Each name is printed with at least one byte.
length-print_name-pos : (p : Piece) (ps : List Piece) → 1 ≤ length (print_name (p ∷ ps))
length-print_name-pos (plain c) ps = omega arith
length-print_name-pos (escaped c) ps = omega arith

length-entry :
    (e : Entry) (rest : Bytes)
    → suc (length rest) ≤ length (print_gaps (gaps e) ++ (print_name (pieces e) ++ rest))
length-entry e rest = omega (
  arith,
  length-append (print_gaps (gaps e)) (print_name (pieces e) ++ rest),
  length-append (print_name (pieces e)) rest,
  length-print_name-pos e.first_piece e.more_pieces,
)

module _ {ℓ} {S : Type ℓ} (callback : S → Bytes → S) where
  depfile_round-skip :
      (s : S) (ptr : Bytes)
      → depfile_round callback (s, ptr) ≡ depfile_at callback s (skip_whitespace ptr)
  unfolding depfile_round skip_whitespace iterate
  depfile_round-skip s [] = refl
  depfile_round-skip s (c ∷ ptr) = refl

  depfile_at-name :
      (s : S) (p : Piece) (ps : List Piece) (rest : Bytes)
      → extract_token (print_name (p ∷ ps) ++ rest) ≡ (print_name (p ∷ ps), rest)
      → depfile_at callback s (print_name (p ∷ ps) ++ rest)
        ≡ some (callback s (print_name (p ∷ ps)), rest)
  depfile_at-name s (plain c) ps rest e = ap (λ x. some (deliver callback s x)) e
  depfile_at-name s (escaped c) ps rest e = ap (λ x. some (deliver callback s x)) e

  depfile_round-entry :
      (s : S) (e : Entry) (rest : Bytes)
      → IsEntry e
      → IsEnd rest
      → depfile_round callback (s, print_gaps (gaps e) ++ (print_name (pieces e) ++ rest))
        ≡ some (callback s (print_name (pieces e)), rest)
  depfile_round-entry s e rest v ends =
      depfile_round-skip s _
      ∙ ap (depfile_at callback s) (
          skip_whitespace-gaps (gaps e) _ v.gaps_valid
            (skip_round-name e.first_piece e.more_pieces rest v.pieces_valid.0))
      ∙ depfile_at-name s e.first_piece e.more_pieces rest
          (extract_token-name rest ends (pieces e) v.pieces_valid)

  depfile_round-trailing :
      (s : S) (gs : List Gap) → All IsGap gs → depfile_round callback (s, print_gaps gs) ≡ none
  unfolding skip_round
  depfile_round-trailing s gs h =
      depfile_round-skip s (print_gaps gs)
      ∙ ap (depfile_at callback s) (
          ap skip_whitespace (sym (append-nil (print_gaps gs))) ∙ skip_whitespace-gaps gs [] h refl)

  depfile_entries :
      (es : List Entry) (trailing : List Gap) (fuel : ℕ) (s : S)
      → All IsEntry es
      → All IsGap trailing
      → length (print_entries es trailing) ≤ fuel
      → (iterate (depfile_round callback) fuel (s, print_entries es trailing)).0
        ≡ foldl callback s (map (λ e. print_name (pieces e)) es)
  depfile_entries [] trailing fuel s h ht room =
      ap (λ x. x.0)
        (iterate_stop (depfile_round callback) fuel (s, print_gaps trailing)
          (depfile_round-trailing s trailing ht))
  depfile_entries (e ∷ es) trailing zero s h ht room =
      absurd (omega (arith, length-entry e (print_entries es trailing)))
  depfile_entries (e ∷ es) trailing (suc fuel) s h ht room =
      ap (λ x. x.0)
        (iterate_next (depfile_round callback) fuel (s, print_entries (e ∷ es) trailing)
          (depfile_round-entry s e (print_entries es trailing) h.0
            (IsEnd-entries es trailing h.1 ht)))
      ∙ depfile_entries es trailing fuel (callback s (print_name (pieces e))) h.1 ht
          (omega (arith, length-entry e (print_entries es trailing)))

  -- Reading a printed dependency file hands the callback each prerequisite, in order and as it
  -- was printed, escapes included, for any gaps of blanks and line continuations. The target
  -- holds no colon.
  pub parse_content-print :
      (target : Bytes) (es : List Entry) (trailing : List Gap) (s : S)
      → find b':' target ≡ none
      → All IsEntry es
      → All IsGap trailing
      → parse_content callback s (print_depfile target es trailing)
        ≡ foldl callback s (map (λ e. print_name (pieces e)) es)
  unfolding parse_content depfile_loop
  parse_content-print target es trailing s h he ht =
      rw (find-append_self b':' target (print_entries es trailing) h, parse_content)
        (rw (drop-append_self b':' target (print_entries es trailing))
          (depfile_entries es trailing _ s he ht (omega arith)))
