-- ===== src/Parser/Columns.antt =====
-- The columns that `parse_def` and `parse_step` (src/parser.cpp) cut out of a line.
use catalyst_build_executor.Base.{
  ℕ, zero, suc, ◌+◌, ◌-◌, ◌≡◌, ◌≢◌, refl, sym, ap, ◌∙◌, inl, inr, false, Bytes, [], ◌∷◌, ◌++◌, none,
  some, arith, length, drop, if◌then◌else◌, Option-cases, codes, bytes_eq, starts_with, find,
  find_from, substr, find-append_self, drop-append_self, substr-append_left,
}
use catalyst_build_executor.Domain.{
  FileSystem, ok, unexpected, missing_first_pipe, missing_second_pipe,
}
use catalyst_build_executor.Builder.{Builder, add_definition, builder_add_step}
use catalyst_build_executor.Parser.{new_step, parse_def, parse_step, parse_line}

-- The fields of a line.
abbrev empty : Bytes
empty = []

drop_nil : (n : ℕ) → drop n empty ≡ empty
drop_nil zero = refl
drop_nil (suc n) = refl

drop_add : (m n : ℕ) (s : Bytes) → drop (m + n) s ≡ drop n (drop m s)
drop_add zero n s = ap (λ k. drop k s) (let e : zero + n ≡ n = omega arith in e)
drop_add (suc m) n [] = drop_nil (suc m + n) ∙ sym (drop_nil n)
drop_add (suc m) n (c ∷ s) =
    ap (λ k. drop k (c ∷ s)) (let e : suc m + n ≡ suc (m + n) = omega arith in e) ∙ drop_add m n s

find_from-field :
    (a s : Bytes)
    → find_from b'|' (a ++ b'|' ∷ s) (length a + 1)
      ≡ (elim (find b'|' s) [ none ↦ none | some i ↦ some (length a + 1 + i) ])
unfolding find_from
find_from-field a s =
    rw (drop-append_self b'|' a s)
      (elim (Option-cases (find b'|' s)) [ inl e ↦ rw e refl | inr (i, e) ↦ rw e refl ])

substr-field :
    (a x s : Bytes)
    → substr (a ++ b'|' ∷ (x ++ s)) (length a + 1) (length a + 1 + length x - (length a + 1)) ≡ x
unfolding substr
substr-field a x s =
    let n : length a + 1 + length x - (length a + 1) ≡ length x = omega arith in
    rw (n, drop-append_self b'|' a (x ++ s)) (substr-append_left x s)

drop-field : (a x y : Bytes) → drop (length a + 1 + length x + 1) (a ++ b'|' ∷ (x ++ b'|' ∷ y)) ≡ y
drop-field a x y =
    ap (λ n. drop n (a ++ b'|' ∷ (x ++ b'|' ∷ y)))
      (let e : length a + 1 + length x + 1 ≡ length a + 1 + (length x + 1) = omega arith in e)
    ∙ drop_add (length a + 1) (length x + 1) (a ++ b'|' ∷ (x ++ b'|' ∷ y))
    ∙ ap (drop (length x + 1)) (drop-append_self b'|' a (x ++ b'|' ∷ y))
    ∙ drop-append_self b'|' x y

pub parse_step-fields :
    (fs : FileSystem) (tool inputs output : Bytes) (b : Builder)
    → find b'|' tool ≡ none
    → find b'|' inputs ≡ none
    → parse_step fs (tool ++ b'|' ∷ (inputs ++ b'|' ∷ output)) b
      ≡ builder_add_step fs (new_step tool inputs output) b
unfolding parse_step
parse_step-fields fs tool inputs output b h h' =
    rw
      (
        find-append_self b'|' tool (inputs ++ b'|' ∷ output) h,
        parse_step,
        find_from-field tool (inputs ++ b'|' ∷ output),
        find-append_self b'|' inputs output h',
        substr-append_left tool (b'|' ∷ (inputs ++ b'|' ∷ output)),
        substr-field tool inputs (b'|' ∷ output),
        drop-field tool inputs output,
      )
      refl

pub no_pipe : find b'|' (codes "DEF") ≡ none
unfolding find
no_pipe = refl

pub parse_def-fields :
    (key value : Bytes) (b : Builder)
    → find b'|' key ≡ none
    → parse_def (codes "DEF" ++ b'|' ∷ (key ++ b'|' ∷ value)) b ≡ ok (add_definition key value b)
unfolding parse_def
parse_def-fields key value b h =
    rw
      (
        find-append_self b'|' (codes "DEF") (key ++ b'|' ∷ value) no_pipe,
        parse_def,
        find_from-field (codes "DEF") (key ++ b'|' ∷ value),
        find-append_self b'|' key value h,
        substr-field (codes "DEF") key (b'|' ∷ value),
        drop-field (codes "DEF") key value,
      )
      refl

pub parse_without_pipe :
    (fs : FileSystem) (s : Bytes) (b : Builder)
    → find b'|' s ≡ none
    → (parse_def s b ≡ unexpected (missing_first_pipe s))
      × (parse_step fs s b ≡ unexpected (missing_first_pipe s))
unfolding parse_def parse_step
parse_without_pipe fs s b h = (rw (h, parse_def) refl, rw (h, parse_step) refl)

pub parse_one_pipe :
    (fs : FileSystem) (left right : Bytes) (b : Builder)
    → find b'|' left ≡ none
    → find b'|' right ≡ none
    → (parse_def (left ++ b'|' ∷ right) b ≡ unexpected (missing_second_pipe (left ++ b'|' ∷ right)))
      × (parse_step fs (left ++ b'|' ∷ right) b
          ≡ unexpected (missing_second_pipe (left ++ b'|' ∷ right)))
unfolding parse_def parse_step
parse_one_pipe fs left right b h h' = (
  rw (find-append_self b'|' left right h, parse_def, find_from-field left right, h') refl,
  rw (find-append_self b'|' left right h, parse_step, find_from-field left right, h') refl,
)

-- How a line begins.
pub starts_with-field :
    (a p s : Bytes)
    → find b'|' a ≡ none
    → find b'|' p ≡ none
    → starts_with (a ++ b'|' ∷ s) (p ++ b'|' ∷ []) ≡ bytes_eq a p
unfolding starts_with bytes_eq find
starts_with-field [] [] s h h' = refl
starts_with-field [] (d ∷ p) s h h' = ground (arith)
starts_with-field (c ∷ a) [] s h h' = ground (arith)
starts_with-field (c ∷ a) (d ∷ p) s h h' = ground (arith, starts_with-field a p s)

pub starts_with-hash :
    (a s : Bytes)
    → starts_with a (codes "#") ≡ false
    → starts_with (a ++ b'|' ∷ s) (codes "#") ≡ false
unfolding starts_with
starts_with-hash [] s h = refl
starts_with-hash (c ∷ a) s h = h

-- A line that is neither empty nor a comment.
pub parse_line-if :
    (fs : FileSystem) (s : Bytes) (b : Builder)
    → s ≢ []
    → starts_with s (codes "#") ≡ false
    → parse_line fs s b
      ≡ (if starts_with s (codes "DEF|") then parse_def s b else parse_step fs s b)
unfolding parse_line
parse_line-if fs [] b h h' = absurd (h refl)
parse_line-if fs (c ∷ s) b h h' = rw h' refl
