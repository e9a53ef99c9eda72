-- ===== src/Binary/Strings.antt =====
-- Numbers and strings of the format are read as they were written.
use mathlib.Core.List.{append_assoc, append-nil}
use catalyst_build_executor.Base.{
  ◌*◌, ◌/◌, ◌%◌, ℕ, zero, suc, ◌+◌, ◌≤◌, ◌<◌, ◌≡◌, refl, sym, ap, ◌∙◌, subst, inl, inr, Bytes, List,
  [], ◌∷◌, ◌++◌, none, some, length, All, length-append, arith, Bool-cases, Option-cases, bytes_eq,
  bytes_eq_iff, lookup, emplace, lookup-emplace, take, substr, eq_of_some,
}
use catalyst_build_executor.Domain.{Result, ok, ◌>>=◌}
use catalyst_build_executor.Binary.Format.{
  StringRef, StringBuffer, empty_strings, add_string, le_bytes, read_le, read_u64, uint64_max,
  write_u64, write_ref, read_ref,
}
use catalyst_build_executor.Binary.Reader.{read_sv, read_many}
use catalyst_build_executor.Binary.Writer.{write_all}

abbrev pub pow256 : ℕ → ℕ
pow256 zero = 1
pow256 (suc k) = 256 * pow256 k

pub read_le-le_bytes :
    (k x : ℕ) (rest : Bytes) → x < pow256 k → read_le k (le_bytes k x ++ rest) ≡ ok (x, rest)
unfolding read_le le_bytes
read_le-le_bytes zero x rest h = ap (λ n. ok (n, rest)) (omega arith)
read_le-le_bytes (suc k) x rest h =
    rw (read_le-le_bytes k (x / 256) rest (omega arith))
      (ap (λ n. ok (n, rest)) (let e : x % 256 + 256 * (x / 256) ≡ x = omega arith in e))

abbrev pub IsU64 : ℕ → Type 0
IsU64 x = x ≤ uint64_max

-- A number of 64 bits is read as it was written, whatever stands behind it.
pub read_u64-write_u64 :
    (x : ℕ) (rest : Bytes) → IsU64 x → read_u64 (write_u64 x ++ rest) ≡ ok (x, rest)
read_u64-write_u64 x rest h = read_le-le_bytes 8 x rest (omega arith)

pub read_ref-write_ref :
    (ref : StringRef) (rest : Bytes)
    → IsU64 ref.offset
    → IsU64 ref.len
    → read_ref (write_ref ref ++ rest) ≡ ok (ref, rest)
read_ref-write_ref ref rest h h' =
    rw (append_assoc (write_u64 ref.offset) (write_u64 ref.len) rest) (
      rw (read_u64-write_u64 ref.offset (write_u64 ref.len ++ rest) h)
        (rw (read_u64-write_u64 ref.len rest h') refl))

pub read_many-write_all :
    (xs : List ℕ) (rest : Bytes)
    → All IsU64 xs
    → read_many read_u64 (length xs) (write_all xs ++ rest) ≡ ok (xs, rest)
unfolding read_many
read_many-write_all [] rest h = refl
read_many-write_all (x ∷ xs) rest h = rw (append_assoc (write_u64 x) (write_all xs) rest) (
    rw (read_u64-write_u64 x (write_all xs ++ rest) h.0)
      (rw (read_many-write_all xs rest h.1) refl))

-- The strings only grow.
abbrev pub Ext : Bytes → Bytes → Type 0
Ext d d' = (more : Bytes) × (d' ≡ d ++ more)

pub Ext-refl : (d : Bytes) → Ext d d
Ext-refl d = ([], sym (append-nil d))

pub Ext-trans : (a b c : Bytes) → Ext a b → Ext b c → Ext a c
Ext-trans a b c (m, e) (n, f) = (m ++ n, f ∙ ap (λ x. x ++ n) e ∙ append_assoc a m n)

take-append : (n : ℕ) (s t : Bytes) → n ≤ length s → take n (s ++ t) ≡ take n s
take-append zero s t h = refl
take-append (suc n) [] t h = absurd (omega arith)
take-append (suc n) (c ∷ s) t h = ap (λ x. c ∷ x) (take-append n s t (omega arith))

substr-append : (s t : Bytes) (o n : ℕ) → o + n ≤ length s → substr (s ++ t) o n ≡ substr s o n
unfolding substr
substr-append s t zero n h = take-append n s t (omega arith)
substr-append [] t (suc o) n h = absurd (omega arith)
substr-append (c ∷ s) t (suc o) n h = substr-append s t o n (omega arith)

take_all : (s : Bytes) → take (length s) s ≡ s
take_all [] = refl
take_all (c ∷ s) = ap (λ x. c ∷ x) (take_all s)

substr-append_right : (s t : Bytes) → substr (s ++ t) (length s) (length t) ≡ t
unfolding substr
substr-append_right [] t = take_all t
substr-append_right (c ∷ s) t = substr-append_right s t

-- The string stands in the strings where the reference points.
pub record Stored (strings sv : Bytes) (ref : StringRef) : Type 0 where
  pub within : ref.offset + ref.len ≤ length strings
  pub at : substr strings ref.offset ref.len ≡ sv

pub Stored-Ext : (d d' sv : Bytes) (ref : StringRef) → Ext d d' → Stored d sv ref → Stored d' sv ref
Stored-Ext d d' sv ref (more, e) st =
    subst (λ x. Stored x sv ref) (sym e)
      (record {
        within = omega (arith, st.within, length-append d more);
        at = substr-append d more ref.offset ref.len st.within ∙ st.at;
      })

pub read_sv-Stored :
    (strings sv : Bytes) (ref : StringRef) (rest : Bytes)
    → IsU64 (length strings)
    → Stored strings sv ref
    → read_sv strings (write_ref ref ++ rest) ≡ ok (sv, rest)
unfolding read_sv
read_sv-Stored strings sv ref rest small st =
    rw (read_ref-write_ref ref rest (omega (arith, st.within)) (omega (arith, st.within)))
      (ground (arith, st.within, st.at))

-- Each string of the cache stands where the cache says.
abbrev pub IsBuffer : StringBuffer → Type 0
IsBuffer sb =
    (sv : Bytes) (ref : StringRef)
    → lookup sv sb.buffer_cache ≡ some ref
    → Stored sb.buffer_data sv ref

pub empty_strings-IsBuffer : IsBuffer empty_strings
unfolding lookup
empty_strings-IsBuffer sv ref e = cc

-- From one state of the strings to a later one, with a property of all strings that come of it.
pub record Writes (sb sb' : StringBuffer) (P : Bytes → Type 0) : Type 0 where
  pub kept : IsBuffer sb'
  pub grown : Ext sb.buffer_data sb'.buffer_data
  pub reads : (strings : Bytes) → Ext sb'.buffer_data strings → IsU64 (length strings) → P strings

pub Writes-then :
    {sb sb' sb'' : StringBuffer} {P Q : Bytes → Type 0}
    → Writes sb sb' P
    → Writes sb' sb'' Q
    → Writes sb sb'' (λ strings. P strings × Q strings)
Writes-then a b = record {
  kept = b.kept;
  grown = Ext-trans _ _ _ a.grown b.grown;
  reads = λ s x small. (a.reads s (Ext-trans _ _ _ b.grown x) small, b.reads s x small);
}

pub Writes-map :
    {sb sb' : StringBuffer} {P Q : Bytes → Type 0}
    → ((strings : Bytes) → P strings → Q strings)
    → Writes sb sb' P
    → Writes sb sb' Q
Writes-map f a = record {
  kept = a.kept;
  grown = a.grown;
  reads = λ s x small. f s (a.reads s x small);
}

pub Writes-nothing :
    (sb : StringBuffer) {P : Bytes → Type 0}
    → IsBuffer sb
    → ((strings : Bytes) → P strings)
    → Writes sb sb P
Writes-nothing sb v p = record {
  kept = v;
  grown = Ext-refl sb.buffer_data;
  reads = λ s x small. p s;
}

-- The reader gives the value for the bytes, and leaves what stands behind them.
abbrev pub ReadsAs {ℓ} : {A : Type ℓ} → (Bytes → Result (A × Bytes)) → Bytes → A → Type ℓ
ReadsAs read bytes x = (rest : Bytes) → read (bytes ++ rest) ≡ ok (x, rest)

-- One reader after the other.
pub read-then {ℓ κ} :
    {A : Type ℓ} {B : Type κ} (read : Bytes → Result (A × Bytes)) (bytes more : Bytes) (x : A)
    (next : A × Bytes → Result B)
    → ReadsAs read bytes x
    → (rest : Bytes) → (read ((bytes ++ more) ++ rest) >>= next) ≡ next (x, more ++ rest)
read-then read bytes more x next h rest =
    rw (append_assoc bytes more rest) (ap (λ r. r >>= next) (h (more ++ rest)))

module _ (sv : Bytes) (sb : StringBuffer) (v : IsBuffer sb) where
  -- A string that is new.
  abbrev new_ref : StringRef
  new_ref = record { offset = length sb.buffer_data; len = length sv }

  Stored-new : Stored (sb.buffer_data ++ sv) sv new_ref
  Stored-new = record {
    within = omega (arith, length-append sb.buffer_data sv);
    at = substr-append_right sb.buffer_data sv;
  }

  IsBuffer-new :
      lookup sv sb.buffer_cache ≡ none
      → IsBuffer (record {
        buffer_data = sb.buffer_data ++ sv;
        buffer_cache = emplace sv new_ref sb.buffer_cache;
      })
  IsBuffer-new new q ref e = elim (Bool-cases (bytes_eq sv q)) [
    | inl same ↦
        let is_sv : sv ≡ q = (bytes_eq_iff sv q).0 same in
        let is_new : new_ref ≡ ref =
          eq_of_some (ground (arith, lookup-emplace sv q new_ref sb.buffer_cache)) in
        subst (λ r. Stored (sb.buffer_data ++ sv) q r) is_new
          (subst (λ x. Stored (sb.buffer_data ++ sv) x new_ref) is_sv Stored-new)
    | inr differ ↦
        Stored-Ext sb.buffer_data (sb.buffer_data ++ sv) q ref (sv, refl)
          (v q ref (ground (arith, lookup-emplace sv q new_ref sb.buffer_cache)))
  ]

  pub add_string-Writes :
      Writes sb
        (add_string sv sb).1
        (λ strings. ReadsAs (read_sv strings) (write_ref (add_string sv sb).0) sv)
  unfolding add_string
  add_string-Writes = elim (Option-cases (lookup sv sb.buffer_cache)) [
    | inl new ↦
        rw (new, add_string)
          (record {
            kept = IsBuffer-new new;
            grown = (sv, refl);
            reads = λ s x small rest.
                read_sv-Stored s sv new_ref rest small (Stored-Ext _ s sv new_ref x Stored-new);
          })
    | inr (ref, old) ↦
        rw (old, add_string)
          (record {
            kept = v;
            grown = Ext-refl sb.buffer_data;
            reads = λ s x small rest.
                read_sv-Stored s sv ref rest small (Stored-Ext _ s sv ref x (v sv ref old));
          })
  ]
