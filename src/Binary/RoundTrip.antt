-- ===== src/Binary/RoundTrip.antt =====
-- The whole file: what `parse_bin` makes of the bytes that `emit_bin` writes.
use mathlib.Core.List.{append_assoc}
use catalyst_build_executor.Base.{
  if_true, if_false, ◌/◌, ℕ, zero, suc, ◌+◌, ◌-◌, ◌≡◌, refl, sym, ap, ◌∙◌, true, Bytes, [], ◌∷◌,
  ◌++◌, map, length, All, length-append, arith, ltb, if◌then◌else◌, starts_with, drop,
}
use catalyst_build_executor.Domain.{Result, ok, unexpected, ◌>>=◌, bin_strings_too_large}
use catalyst_build_executor.Builder.{Builder, builder_add_resource}
use catalyst_build_executor.Binary.Format.{
  empty_strings, read_u64, write_u64, le_bytes, BinHeader, magic, header_size,
}
use catalyst_build_executor.Binary.Reader.{
  read_definitions, read_nodes, read_header, read_tables, parse_bin_content,
}
use catalyst_build_executor.Binary.Writer.{
  emit_definitions, emit_nodes, emit_steps, write_header, emit_bin,
}
use catalyst_build_executor.Binary.Strings.{
  IsU64, Writes-then, ReadsAs, Ext-refl, read-then, read_u64-write_u64, empty_strings-IsBuffer,
}
use catalyst_build_executor.Binary.Items.{
  IsSmallNode, IsSmallStep, reloaded_step, push_definitions, push_nodes, push_steps,
  emit_definitions-Writes, emit_nodes-Writes, emit_steps-Writes,
}

-- The strings of the file.
abbrev pub strings_of : Builder → Bytes
strings_of b =
    let sb₁ = (emit_definitions b.definitions empty_strings).1 in
    let sb₂ = (emit_nodes b.graph.nodes sb₁).1 in (emit_steps b.graph.steps sb₂).1.buffer_data

abbrev pub header_of : Builder → BinHeader
header_of b = record {
  num_definitions = length b.definitions;
  num_nodes = length b.graph.nodes;
  num_steps = length b.graph.steps;
  strings_size = length (strings_of b);
}

-- The numbers of the builder fit into 64 bits.
pub record IsSmall (b : Builder) : Type 0 where
  pub definitions : IsU64 (length b.definitions)
  pub count_nodes : IsU64 (length b.graph.nodes)
  pub count_steps : IsU64 (length b.graph.steps)
  pub strings : IsU64 (length (strings_of b))
  pub nodes : All IsSmallNode b.graph.nodes
  pub steps : All IsSmallStep b.graph.steps

-- What the reader pushes onto a builder, of what was written of `b`.
abbrev pub reloaded : Builder → Builder → Builder
reloaded b onto =
    push_steps (map reloaded_step b.graph.steps)
      (push_nodes 0 b.graph.nodes (push_definitions b.definitions onto))

pub length-le_bytes : (k x : ℕ) → length (le_bytes k x) ≡ k
unfolding le_bytes
length-le_bytes zero x = refl
length-le_bytes (suc k) x = omega (arith, length-le_bytes k (x / 256))

abbrev numbers : BinHeader → Bytes
numbers h =
    write_u64 h.num_definitions
    ++ (write_u64 h.num_nodes ++ (write_u64 h.num_steps ++ write_u64 h.strings_size))

length-numbers : (h : BinHeader) → length (numbers h) ≡ 32
length-numbers h = omega (
  arith,
  length-append (write_u64 h.num_definitions)
      (write_u64 h.num_nodes ++ (write_u64 h.num_steps ++ write_u64 h.strings_size)),
  length-append (write_u64 h.num_nodes) (write_u64 h.num_steps ++ write_u64 h.strings_size),
  length-append (write_u64 h.num_steps) (write_u64 h.strings_size),
  length-le_bytes 8 h.num_definitions,
  length-le_bytes 8 h.num_nodes,
  length-le_bytes 8 h.num_steps,
  length-le_bytes 8 h.strings_size,
)

read_header-numbers :
    (h : BinHeader)
    → IsU64 h.num_definitions
    → IsU64 h.num_nodes
    → IsU64 h.num_steps
    → IsU64 h.strings_size
    → ReadsAs read_header (numbers h) h
read_header-numbers h d n t z rest =
    read-then read_u64 (write_u64 h.num_definitions) _ h.num_definitions _
      (λ r. read_u64-write_u64 h.num_definitions r d) rest
    ∙ read-then read_u64 (write_u64 h.num_nodes) _ h.num_nodes _
        (λ r. read_u64-write_u64 h.num_nodes r n) rest
    ∙ read-then read_u64 (write_u64 h.num_steps) _ h.num_steps _
        (λ r. read_u64-write_u64 h.num_steps r t) rest
    ∙ rw (read_u64-write_u64 h.strings_size rest z) refl

pub length-write_header : (h : BinHeader) → length (write_header h) ≡ 40
length-write_header h = omega (arith, length-append magic (numbers h), length-numbers h)

drop-append_length : (s t : Bytes) → drop (length s) (s ++ t) ≡ t
drop-append_length [] t = refl
drop-append_length (c ∷ s) t = drop-append_length s t

-- A file with a header, tables and strings.
module _ (h : BinHeader) (tables strings : Bytes) (b : Builder)
    (size : h.strings_size ≡ length strings) where
  abbrev content : Bytes
  content = write_header h ++ (tables ++ strings)

  length-content : length content ≡ 40 + (length tables + length strings)
  length-content = omega (
    arith,
    length-append (write_header h) (tables ++ strings),
    length-write_header h,
    length-append tables strings,
  )

  starts_with-magic : starts_with content magic ≡ true
  unfolding starts_with
  starts_with-magic = refl

  strings-content : drop (length content - h.strings_size) content ≡ strings
  strings-content =
      let e : length content - h.strings_size ≡ length (write_header h ++ tables) =
        omega
          (arith, length-content, length-append (write_header h) tables, length-write_header h) in
      rw (e, sym (append_assoc (write_header h) tables strings))
        (drop-append_length (write_header h ++ tables) strings)

  pub parse_bin_content-header :
      IsU64 h.num_definitions
      → IsU64 h.num_nodes
      → IsU64 h.num_steps
      → IsU64 h.strings_size
      → parse_bin_content content b ≡ read_tables content strings h (tables ++ strings) b
  unfolding parse_bin_content
  parse_bin_content-header d n t z =
      if_false (ltb (length content) header_size) _ _ (ground (arith, length-content))
      ∙ if_true (starts_with content magic) _ _ starts_with-magic
      ∙ ap (λ r. r >>= after_header) (read_header-numbers h d n t z (tables ++ strings))
      ∙ if_false (ltb (length content - header_size) h.strings_size) _ _
          (ground (arith, length-content))
      ∙ ap (λ s. read_tables content s h (tables ++ strings) b) strings-content
    where
      after_header : BinHeader × Bytes → Result Builder
      after_header r =
          if ltb (length content - header_size) r.0.strings_size
          then unexpected bin_strings_too_large
          else read_tables content (drop (length content - r.0.strings_size) content) r.0 r.1 b

unfoldable pub tables_of : Builder → Bytes
tables_of b =
    let (definitions, sb₁) = emit_definitions b.definitions empty_strings in
    let (nodes, sb₂) = emit_nodes b.graph.nodes sb₁ in
    definitions ++ (nodes ++ (emit_steps b.graph.steps sb₂).0)

pub emit_bin-parts :
    (b : Builder) → emit_bin b ≡ write_header (header_of b) ++ (tables_of b ++ strings_of b)
unfolding emit_bin tables_of
emit_bin-parts b =
    let (definitions, sb₁) = emit_definitions b.definitions empty_strings in
    let (nodes, sb₂) = emit_nodes b.graph.nodes sb₁ in
    let (steps, sb₃) = emit_steps b.graph.steps sb₂ in
    ap (λ t. write_header (header_of b) ++ t)
      (sym (
        append_assoc definitions (nodes ++ steps) sb₃.buffer_data
        ∙ ap (λ t. definitions ++ t) (append_assoc nodes steps sb₃.buffer_data)))

pub parse_bin_content-emit_bin :
    (b onto : Builder)
    → IsSmall b
    → parse_bin_content (emit_bin b) onto ≡ ok (builder_add_resource (emit_bin b) (reloaded b onto))
unfolding read_tables tables_of
parse_bin_content-emit_bin b onto small =
    let (definitions, sb₁) = emit_definitions b.definitions empty_strings in
    let (nodes, sb₂) = emit_nodes b.graph.nodes sb₁ in
    let (steps, sb₃) = emit_steps b.graph.steps sb₂ in
    let s = strings_of b in
    let w₁ = emit_definitions-Writes b.definitions empty_strings empty_strings-IsBuffer in
    let w₂ = emit_nodes-Writes b.graph.nodes 0 sb₁ w₁.kept small.nodes in
    let w₃ = emit_steps-Writes b.graph.steps sb₂ w₂.kept small.steps in
    let ((reads₁, reads₂), reads₃) =
      (Writes-then (Writes-then w₁ w₂) w₃).reads s (Ext-refl s) small.strings in
    ap (λ c. parse_bin_content c onto) (emit_bin-parts b)
    ∙ parse_bin_content-header (header_of b) (tables_of b) s onto refl small.definitions
        small.count_nodes small.count_steps small.strings
    ∙ read-then (λ p. read_definitions s (length b.definitions) p onto) definitions (nodes ++ steps)
        (push_definitions b.definitions onto) _ (reads₁ onto) s
    ∙ read-then (λ p. read_nodes s (length b.graph.nodes) 0 p (push_definitions b.definitions onto))
        nodes steps (push_nodes 0 b.graph.nodes (push_definitions b.definitions onto)) _
        (reads₂ (push_definitions b.definitions onto)) s
    ∙ ap
        (λ r. r >>= λ q.
          ok (builder_add_resource (write_header (header_of b) ++ (tables_of b ++ s)) q.0))
        (reads₃ (push_nodes 0 b.graph.nodes (push_definitions b.definitions onto)) s)
    ∙ ap (λ c. ok (builder_add_resource c (reloaded b onto))) (sym (emit_bin-parts b))
