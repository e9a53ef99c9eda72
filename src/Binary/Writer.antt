-- ===== src/Binary/Writer.antt =====
-- `emit_bin` (src/binary.cpp). The definitions are written in the order of the model's list.
use catalyst_build_executor.Base.{ℕ, Bytes, List, [], ◌∷◌, ◌++◌, Option, none, some, length}
use catalyst_build_executor.Domain.{BuildStep, Definitions}
use catalyst_build_executor.Graph.{Node}
use catalyst_build_executor.Builder.{Builder}
use catalyst_build_executor.Binary.Format.{
  StringBuffer, empty_strings, add_string, uint64_max, write_u64, write_ref, BinHeader, magic,
}

-- The loops of `emit_bin`: the bytes that they write, and the strings afterwards.
unfoldable pub emit_definitions : Definitions → StringBuffer → Bytes × StringBuffer
emit_definitions [] sb = ([], sb)
emit_definitions ((k, v) ∷ ds) sb =
    let (key, sb₁) = add_string k sb in
    let (val, sb₂) = add_string v sb₁ in
    let (rest, sb₃) = emit_definitions ds sb₂ in (write_ref key ++ (write_ref val ++ rest), sb₃)

abbrev pub write_all : List ℕ → Bytes
write_all [] = []
write_all (x ∷ xs) = write_u64 x ++ write_all xs

abbrev pub step_id_raw : Option ℕ → ℕ
step_id_raw none = uint64_max
step_id_raw (some id) = id

unfoldable pub emit_node : Node → StringBuffer → Bytes × StringBuffer
emit_node node sb =
    let (path, sb') = add_string node.path sb in
    (
      write_ref path
          ++ (write_u64 (step_id_raw node.step_id)
              ++ (write_u64 (length node.out_edges) ++ write_all node.out_edges)),
      sb',
    )

unfoldable pub emit_nodes : List Node → StringBuffer → Bytes × StringBuffer
emit_nodes [] sb = ([], sb)
emit_nodes (node ∷ nodes) sb =
    let (bytes, sb') = emit_node node sb in
    let (rest, sb'') = emit_nodes nodes sb' in (bytes ++ rest, sb'')

unfoldable pub emit_strings : List Bytes → StringBuffer → Bytes × StringBuffer
emit_strings [] sb = ([], sb)
emit_strings (x ∷ xs) sb =
    let (ref, sb') = add_string x sb in
    let (rest, sb'') = emit_strings xs sb' in (write_ref ref ++ rest, sb'')

unfoldable pub emit_depfile_inputs : Option (List Bytes) → StringBuffer → Bytes × StringBuffer
emit_depfile_inputs none sb = (write_u64 uint64_max, sb)
emit_depfile_inputs (some xs) sb =
    let (bytes, sb') = emit_strings xs sb in (write_u64 (length xs) ++ bytes, sb')

unfoldable pub emit_step : BuildStep → StringBuffer → Bytes × StringBuffer
emit_step step sb =
    let (tool, sb₁) = add_string step.tool sb in
    let (inputs, sb₂) = add_string step.inputs sb₁ in
    let (output, sb₃) = add_string step.output sb₂ in
    let (depfile, sb₄) = emit_depfile_inputs step.depfile_inputs sb₃ in
    (write_ref tool ++ (write_ref inputs ++ (write_ref output ++ depfile)), sb₄)

unfoldable pub emit_steps : List BuildStep → StringBuffer → Bytes × StringBuffer
emit_steps [] sb = ([], sb)
emit_steps (step ∷ steps) sb =
    let (bytes, sb') = emit_step step sb in
    let (rest, sb'') = emit_steps steps sb' in (bytes ++ rest, sb'')

abbrev pub write_header : BinHeader → Bytes
write_header h =
    magic
    ++ (write_u64 h.num_definitions
        ++ (write_u64 h.num_nodes ++ (write_u64 h.num_steps ++ write_u64 h.strings_size)))

-- The bytes that `emit_bin` writes, in a file that it could open.
unfoldable pub emit_bin : Builder → Bytes
emit_bin b =
    let (definitions, sb₁) = emit_definitions b.definitions empty_strings in
    let (nodes, sb₂) = emit_nodes b.graph.nodes sb₁ in
    let (steps, sb₃) = emit_steps b.graph.steps sb₂ in
    write_header (record {
      num_definitions = length b.definitions;
      num_nodes = length b.graph.nodes;
      num_steps = length b.graph.steps;
      strings_size = length sb₃.buffer_data;
    })
    ++ (definitions ++ (nodes ++ (steps ++ sb₃.buffer_data)))
