-- ===== src/Depfile.antt =====
-- src/graph.cpp, lines 29 to 132: the reader of Makefile dependency files. A pointer into the
-- mapped file is the list of bytes from it to the end. Each loop has one round as a function, and
-- the number of bytes left as fuel.
pub mod Rounds
pub mod Tokens
pub mod Print
pub mod Fold
use catalyst_build_executor.Base.Loop.{iterate}
use catalyst_build_executor.Base.{
  ℕ, ◌+◌, Bool, ◌||◌, not, ◌&&◌, Bytes, [], ◌∷◌, ◌++◌, Option, none, some, ◌==◌, leb, if◌then◌else◌,
  find, drop, length,
}
use catalyst_build_executor.Domain.{
  Result, ok, thrown, cannot_map, FileSystem, absent, unreadable, file,
}

-- '\\'
abbrev pub backslash : ℕ
backslash = 0x5c

-- `c <= ' '` on an unsigned char
abbrev pub is_blank : ℕ → Bool
is_blank c = leb c 0x20

abbrev pub is_newline : ℕ → Bool
is_newline c = c == 0x0a || c == 0x0d

-- `if (ptr < end && *ptr == c) ptr++`
abbrev pub skip_if : ℕ → Bytes → Bytes
skip_if c [] = []
skip_if c (b ∷ s) = if b == c then s else b ∷ s

-- One round of the loop of `skipWhitespace`; `none` where it breaks.
unfoldable pub skip_round : Bytes → Option Bytes
skip_round [] = none
skip_round (c ∷ []) = if is_blank c then some [] else none
skip_round (c ∷ d ∷ s) =
    if not (is_blank c) && not (c == backslash)
    then none
    else if is_blank c
    then some (d ∷ s)
    else if is_newline d
    then some (skip_if 0x0a (skip_if 0x0d (d ∷ s)))
    else none

unfoldable pub skip_whitespace : Bytes → Bytes
skip_whitespace ptr = iterate skip_round (length ptr) ptr

-- The token so far, and the pointer behind it.
abbrev pub Scan : Type 0
Scan = Bytes × Bytes

-- One round of the first loop of `extractToken`.
unfoldable pub plain_round : Scan → Option Scan
plain_round (token, []) = none
plain_round (token, c ∷ s) =
    if is_blank c || c == backslash then none else some (token ++ c ∷ [], s)

-- One round of the second loop. Behind a dangling backslash the pointer is at the end, so the
-- source's `break` is the loop's test in the next round.
unfoldable pub escaped_round : Scan → Option Scan
escaped_round (token, []) = none
escaped_round (token, c ∷ []) =
    if c == backslash
    then some (token ++ c ∷ [], [])
    else if is_blank c
    then none
    else some (token ++ c ∷ [], [])
escaped_round (token, c ∷ d ∷ s) =
    if c == backslash
    then if is_newline d then none else some (token ++ c ∷ d ∷ [], s)
    else if is_blank c
    then none
    else some (token ++ c ∷ [], d ∷ s)

-- The branch on `*ptr == '\\'` behind the first loop.
unfoldable pub extract_escaped : Scan → Scan
extract_escaped (token, []) = (token, [])
extract_escaped (token, c ∷ s) =
    if c == backslash then iterate escaped_round (length (c ∷ s)) (token, c ∷ s) else (token, c ∷ s)

unfoldable pub extract_token : Bytes → Scan
extract_token ptr = extract_escaped (iterate plain_round (length ptr) ([], ptr))

module _ {ℓ} {S : Type ℓ} (callback : S → Bytes → S) where
  abbrev pub deliver : S → Scan → S × Bytes
  deliver s ([], ptr) = (s, ptr)
  deliver s (c ∷ token, ptr) = (callback s (c ∷ token), ptr)

  -- One round of the main loop of `parseDepfile`: the callback's state and the pointer.
  abbrev pub depfile_at : S → Bytes → Option (S × Bytes)
  depfile_at s [] = none
  depfile_at s (c ∷ ptr) = some (deliver s (extract_token (c ∷ ptr)))

  unfoldable pub depfile_round : S × Bytes → Option (S × Bytes)
  depfile_round (s, []) = none
  depfile_round (s, c ∷ ptr) = depfile_at s (skip_whitespace (c ∷ ptr))

  unfoldable pub depfile_loop : S → Bytes → S
  depfile_loop s ptr = (iterate depfile_round (length ptr) (s, ptr)).0

  -- `content` behind the first colon.
  unfoldable pub parse_content : S → Bytes → S
  parse_content s content = elim (find b':' content) [
    | none ↦ s
    | some i ↦ depfile_loop s (drop (i + 1) content)
  ]

  unfoldable pub parse_depfile : FileSystem → (S → Bytes → S) → Bytes → S → Result S
  parse_depfile fs add_resource path s = elim (fs path) [
    | absent ↦ ok s
    | unreadable ↦ thrown (cannot_map path)
    | file content ↦ ok (parse_content (add_resource s content) content)
  ]
