-- ===== src/Binary/Reader.antt =====
-- `parse_bin` (src/binary.cpp). The vectors' `reserve` with a count of the file is left out: it throws
-- where the count is larger than a vector can be.
use catalyst_build_executor.Base.{
  ℕ, zero, suc, ◌+◌, ◌-◌, Bytes, List, [], ◌∷◌, ◌++◌, Option, none, some, length, ◌==◌, leb, ltb,
  if◌then◌else◌, codes, emplace, starts_with, drop, substr,
}
use catalyst_build_executor.Domain.{
  BuildStep, FileSystem, absent, unreadable, file, Result, ok, unexpected, thrown, ◌>>=◌,
  cannot_map_bin, bin_too_small, bin_invalid_magic, bin_strings_too_large, invalid_read,
}
use catalyst_build_executor.Graph.{Node}
use catalyst_build_executor.Fields.{for_each_field}
use catalyst_build_executor.Builder.{Builder, add_definition, builder_add_resource}
use catalyst_build_executor.Binary.Format.{
  StringRef, read_u64, uint64_max, read_ref, BinHeader, magic, header_size,
}

-- `get_sv`: a view of the strings. The source makes the view without a test; one that leaves the
-- strings is undefined.
abbrev pub get_sv : (strings : Bytes) → StringRef → Result Bytes
get_sv strings ref =
    if leb (ref.offset + ref.len) (length strings)
    then ok (substr strings ref.offset ref.len)
    else thrown invalid_read

-- A reference and its string.
unfoldable pub read_sv : (strings : Bytes) → Bytes → Result (Bytes × Bytes)
read_sv strings ptr = read_ref ptr >>= λ r. get_sv strings r.0 >>= λ sv. ok (sv, r.1)

-- A loop that pushes `n` values into a vector.
unfoldable pub read_many {ℓ} :
    {A : Type ℓ} → (Bytes → Result (A × Bytes)) → ℕ → Bytes → Result (List A × Bytes)
read_many read zero ptr = ok ([], ptr)
read_many read (suc n) ptr = read ptr >>= λ r. read_many read n r.1 >>= λ q. ok (r.0 ∷ q.0, q.1)

-- The loop over the definitions.
unfoldable pub read_definitions : (strings : Bytes) → ℕ → Bytes → Builder → Result (Builder × Bytes)
read_definitions strings zero ptr b = ok (b, ptr)
read_definitions strings (suc n) ptr b = read_sv strings ptr >>= λ k.
    read_sv strings k.1 >>= λ v. read_definitions strings n v.1 (add_definition k.0 v.0 b)

abbrev pub step_id_of : ℕ → Option ℕ
step_id_of raw = if raw == uint64_max then none else some raw

-- The body of the loop over the nodes, up to the node.
unfoldable pub read_node : (strings : Bytes) → Bytes → Result (Node × Bytes)
read_node strings ptr = read_sv strings ptr >>= λ path. read_u64 path.1 >>= λ step_id_raw.
    read_u64 step_id_raw.1 >>= λ num_out_edges.
    read_many read_u64 num_out_edges.0 num_out_edges.1 >>= λ out_edges. ok (
      record { path = path.0; out_edges = out_edges.0; step_id = step_id_of step_id_raw.0 },
      out_edges.1,
    )

-- `nodes_.push_back(node); index_.emplace(path, i);`
abbrev pub push_node : ℕ → Node → Builder → Builder
push_node i node b = record b {
  graph = record b.graph {
    nodes = b.graph.nodes ++ node ∷ [];
    index = emplace node.path i b.graph.index;
  };
}

-- The loop over the nodes, from node `i` on.
unfoldable pub read_nodes :
    (strings : Bytes) → ℕ → (i : ℕ) → Bytes → Builder → Result (Builder × Bytes)
read_nodes strings zero i ptr b = ok (b, ptr)
read_nodes strings (suc n) i ptr b =
    read_node strings ptr >>= λ r. read_nodes strings n (suc i) r.1 (push_node i r.0 b)

-- `depfile_inputs`: the count is the largest number where there are none.
unfoldable pub read_depfile_inputs :
    (strings : Bytes) → Bytes → Result (Option (List Bytes) × Bytes)
read_depfile_inputs strings ptr = read_u64 ptr >>= λ count.
    if count.0 == uint64_max
    then ok (none, count.1)
    else (read_many (read_sv strings) count.0 count.1 >>= λ r. ok (some r.0, r.1))

-- The loop over the fields of `inputs`; each field that is not empty is pushed.
unfoldable pub all_inputs : Bytes → List Bytes
all_inputs inputs = for_each_field (λ xs x. xs ++ x ∷ []) [] inputs

unfoldable pub read_step : (strings : Bytes) → Bytes → Result (BuildStep × Bytes)
read_step strings ptr = read_sv strings ptr >>= λ tool. read_sv strings tool.1 >>= λ inputs.
    read_sv strings inputs.1 >>= λ output. read_depfile_inputs strings output.1 >>= λ depfile. ok (
      record {
        tool = tool.0;
        inputs = inputs.0;
        output = output.0;
        opaque_inputs = none;
        depfile_inputs = depfile.0;
        parsed_inputs = all_inputs inputs.0;
      },
      depfile.1,
    )

abbrev pub push_step : BuildStep → Builder → Builder
push_step step b = record b { graph = record b.graph { steps = b.graph.steps ++ step ∷ [] } }

-- The loop over the steps.
unfoldable pub read_steps : (strings : Bytes) → ℕ → Bytes → Builder → Result (Builder × Bytes)
read_steps strings zero ptr b = ok (b, ptr)
read_steps strings (suc n) ptr b =
    read_step strings ptr >>= λ r. read_steps strings n r.1 (push_step r.0 b)

abbrev pub read_header : Bytes → Result (BinHeader × Bytes)
read_header s = read_u64 s >>= λ d. read_u64 d.1 >>= λ n. read_u64 n.1 >>= λ t.
    read_u64 t.1 >>= λ z.
    ok (record { num_definitions = d.0; num_nodes = n.0; num_steps = t.0; strings_size = z.0 }, z.1)

-- The three loops, and the file that stays mapped.
unfoldable pub read_tables :
    (content strings : Bytes) → BinHeader → Bytes → Builder → Result Builder
read_tables content strings header ptr b =
    read_definitions strings header.num_definitions ptr b >>= λ d.
    read_nodes strings header.num_nodes 0 d.1 d.0 >>= λ n.
    read_steps strings header.num_steps n.1 n.0 >>= λ s. ok (builder_add_resource content s.0)

-- `parse_bin` on the content of the file.
unfoldable pub parse_bin_content : Bytes → Builder → Result Builder
parse_bin_content content b =
    if ltb (length content) header_size
    then unexpected bin_too_small
    else if starts_with content magic
    then (read_header (drop 8 content) >>= λ h.
        if ltb (length content - header_size) h.0.strings_size
        then unexpected bin_strings_too_large
        else read_tables content (drop (length content - h.0.strings_size) content) h.0 h.1 b)
    else unexpected bin_invalid_magic

abbrev pub bin_path : Bytes
bin_path = codes ".catalyst.bin"

unfoldable pub parse_bin : FileSystem → Builder → Result Builder
parse_bin fs b = elim (fs bin_path) [
  | absent ↦ unexpected (cannot_map_bin bin_path)
  | unreadable ↦ unexpected (cannot_map_bin bin_path)
  | file content ↦ parse_bin_content content b
]
