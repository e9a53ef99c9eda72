-- ===== src/Parser/Lines.antt =====
-- Parsing a manifest is treating its lines in order, and it builds a well-formed graph.
use catalyst_build_executor.Base.{
  ℕ, zero, suc, ◌≤◌, ◌≡◌, refl, ◌∙◌, sym, inl, inr, Bytes, List, [], ◌∷◌, length, arith,
  split_first, split_on, split_on-split_first, length-split_first-lt, Option-cases, find, find_from,
  Bool-cases, starts_with, codes, subst, ◌+◌, ◌++◌,
}
use catalyst_build_executor.Domain.{
  FileSystem, FileView, absent, unreadable, file, Result, ok, unexpected, thrown, ◌>>=◌, >>=-eq-ok,
}
use catalyst_build_executor.Graph.{add_step, add_resource}
use catalyst_build_executor.Graph.Invariant.{
  IsGraph, add_step-IsGraph, empty_graph-IsGraph, IsGraph-with,
}
use catalyst_build_executor.Builder.{
  Builder, empty_builder, builder_add_step, add_definition, builder_add_resource,
}
use catalyst_build_executor.Parser.{
  strip_cr, parse_line, parse_lines, parse_def, parse_step, new_step, parse_manifest,
}

-- The lines one after the other, up to the first error.
abbrev pub parse_each : FileSystem → List Bytes → Builder → Result Builder
parse_each fs [] b = ok b
parse_each fs (line ∷ lines) b = parse_line fs (strip_cr line) b >>= λ b'. parse_each fs lines b'

parse_each-split :
    (fs : FileSystem) (s : Bytes) (b : Builder)
    → parse_each fs (split_on 0x0a s) b ≡ (
        parse_line fs (strip_cr (split_first 0x0a s).0) b >>= λ b'.
        parse_each fs (split_on 0x0a (split_first 0x0a s).1) b')
unfolding split_on parse_line
parse_each-split fs s b = elim (split_on-split_first 0x0a s) [
  | inl (e, empty) ↦ rw (e, empty)
  | inr e ↦ rw e
]

pub >>=-ext :
    (r : Result Builder) {f g : Builder → Result Builder}
    → ((b : Builder) → f b ≡ g b)
    → (r >>= f) ≡ (r >>= g)
>>=-ext (ok b) h = h b
>>=-ext (unexpected e) h = refl
>>=-ext (thrown e) h = refl

-- The loop parses each line between two newlines, without the '\r' at its end, in order and up
-- to the first error.
pub parse_lines_lem :
    (fs : FileSystem) (fuel : ℕ) (content : Bytes) (b : Builder)
    → length content ≤ fuel
    → parse_lines fs fuel content b ≡ parse_each fs (split_on 0x0a content) b
unfolding parse_lines split_on parse_line
parse_lines_lem fs zero [] b room = refl
parse_lines_lem fs (suc fuel) [] b room = refl
parse_lines_lem fs zero (c ∷ s) b room = absurd (omega arith)
parse_lines_lem fs (suc fuel) (c ∷ s) b room =
    >>=-ext (parse_line fs (strip_cr (split_first 0x0a (c ∷ s)).0) b) (λ b'.
      parse_lines_lem fs fuel (split_first 0x0a (c ∷ s)).1 b'
        (omega (arith, length-split_first-lt 0x0a c s)))
    ∙ sym (parse_each-split fs (c ∷ s) b)

pub P-of_eq {ℓ} : (P : Builder → Type ℓ) {b b' : Builder} → ok b ≡ ok b' → P b → P b'
P-of_eq P {b} {b'} e v = subst P (let e' : b ≡ b' = cc in e') v

-- A property of the builder that each definition and each step keeps is kept by the parser.
module _ {ℓ} (P : Builder → Type ℓ) (fs : FileSystem)
    (keep_def : (key value : Bytes) (b : Builder) → P b → P (add_definition key value b))
    (keep_step : (tool inputs output : Bytes) (b b' : Builder)
      → P b
      → builder_add_step fs (new_step tool inputs output) b ≡ ok b'
      → P b') where
  parse_def_inv : (line : Bytes) (b b' : Builder) → P b → parse_def line b ≡ ok b' → P b'
  unfolding parse_def
  parse_def_inv line b b' v e = elim (Option-cases (find b'|' line)) [
    | inl no_first ↦ cc (rw (no_first, parse_def) at e)
    | inr (first, at_first) ↦ elim (Option-cases (find_from b'|' line (first + 1))) [
      | inl no_second ↦ cc (rw (no_second, parse_def) at (rw (at_first, parse_def) at e))
      | inr (second, at_second) ↦
          P-of_eq P (rw (at_second, parse_def) at (rw (at_first, parse_def) at e))
            (keep_def _ _ b v)
    ]
  ]

  parse_step_inv : (line : Bytes) (b b' : Builder) → P b → parse_step fs line b ≡ ok b' → P b'
  unfolding parse_step
  parse_step_inv line b b' v e = elim (Option-cases (find b'|' line)) [
    | inl no_first ↦ cc (rw (no_first, parse_step) at e)
    | inr (first, at_first) ↦ elim (Option-cases (find_from b'|' line (first + 1))) [
      | inl no_second ↦ cc (rw (no_second, parse_step) at (rw (at_first, parse_step) at e))
      | inr (second, at_second) ↦
          keep_step _ _ _ b b' v (rw (at_second, parse_step) at (rw (at_first, parse_step) at e))
    ]
  ]

  parse_line_inv : (line : Bytes) (b b' : Builder) → P b → parse_line fs line b ≡ ok b' → P b'
  unfolding parse_line
  parse_line_inv [] b b' v e = P-of_eq P e v
  parse_line_inv (c ∷ s) b b' v e = elim (Bool-cases (starts_with (c ∷ s) (codes "#"))) [
    | inl comment ↦ P-of_eq P (rw comment at e) v
    | inr other ↦ elim (Bool-cases (starts_with (c ∷ s) (codes "DEF|"))) [
      | inl is_def ↦ parse_def_inv (c ∷ s) b b' v (rw (other, is_def) at e)
      | inr is_step ↦ parse_step_inv (c ∷ s) b b' v (rw (other, is_step) at e)
    ]
  ]

  parse_each_inv :
      (lines : List Bytes) (b b' : Builder) → P b → parse_each fs lines b ≡ ok b' → P b'
  parse_each_inv [] b b' v e = P-of_eq P e v
  parse_each_inv (line ∷ lines) b b' v e =
      let (m, first, rest) = >>=-eq-ok (parse_line fs (strip_cr line) b) _ e in
      parse_each_inv lines m b' (parse_line_inv (strip_cr line) b m v first) rest

  pub parse_manifest_inv :
      (keep_resource : (res : Bytes) (b : Builder) → P b → P (builder_add_resource res b))
      (path : Bytes) (b b' : Builder)
      → P b
      → parse_manifest fs path b ≡ ok b'
      → P b'
  unfolding parse_manifest
  parse_manifest_inv keep_resource path b b' v e = go (fs path) refl
    where
      go : (view : FileView) → fs path ≡ view → P b'
      go absent e' = cc (rw (e', parse_manifest) at e)
      go unreadable e' = cc (rw (e', parse_manifest) at e)
      go (file content) e' =
          parse_each_inv (split_on 0x0a content) (builder_add_resource content b) b'
            (keep_resource content b v)
            (sym (
                parse_lines_lem fs (length content) content (builder_add_resource content b)
                  (omega arith))
              ∙ (rw (e', parse_manifest) at e))

builder_add_step-IsGraph :
    (fs : FileSystem) (tool inputs output : Bytes) (b b' : Builder)
    → IsGraph b.graph
    → builder_add_step fs (new_step tool inputs output) b ≡ ok b'
    → IsGraph b'.graph
unfolding builder_add_step
builder_add_step-IsGraph fs tool inputs output b b' v e =
    let ((id, h), added, same) =
      >>=-eq-ok (add_step fs (new_step tool inputs output) b.graph) _ e in
    P-of_eq (λ x. IsGraph x.graph) same
      (add_step-IsGraph fs (new_step tool inputs output) b.graph id h v refl added)

-- Whatever the files hold, a manifest that parses leaves a graph whose nodes, edges and producers
-- are exactly those of its steps.
pub parse_manifest-IsGraph :
    (fs : FileSystem) (path : Bytes) (b : Builder)
    → parse_manifest fs path empty_builder ≡ ok b
    → IsGraph b.graph
unfolding add_definition builder_add_resource add_resource
parse_manifest-IsGraph fs path b e =
    parse_manifest_inv (λ x. IsGraph x.graph) fs (λ key value x v. v) (builder_add_step-IsGraph fs)
      (λ res x v. IsGraph-with x.graph (x.graph.resources ++ res ∷ []) v) path empty_builder b
      empty_graph-IsGraph e
