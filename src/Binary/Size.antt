-- ===== src/Binary/Size.antt =====
-- A file below 2 ^ 64 bytes has room for its numbers.

use catalyst_build_executor.Base.{
  ◌*◌, get_elem?-lt-length, ℕ, zero, suc, ◌+◌, ◌≤◌, ◌<◌, ◌≡◌, refl, ap, ◌∙◌, subst, inl, inr, Bytes,
  List, [], ◌∷◌, ◌++◌, Option, none, some, length, All, length-append, arith, Option-cases, Memᴰ,
  get_elem?, eq_of_some,
}
use catalyst_build_executor.Domain.{BuildStep, Definitions}
use catalyst_build_executor.Graph.{Node, BuildGraph}
use catalyst_build_executor.Graph.Ids.{edges_of, step_of}
use catalyst_build_executor.Graph.Invariant.{IsGraph}
use catalyst_build_executor.Topo.Order.{IsGraph-EdgesInRange}
use catalyst_build_executor.Builder.{Builder}
use catalyst_build_executor.Binary.Format.{
  StringRef, StringBuffer, empty_strings, add_string, uint64_max, write_u64, write_ref,
}
use catalyst_build_executor.Binary.Writer.{
  write_all, step_id_raw, emit_definitions, emit_node, emit_nodes, emit_strings,
  emit_depfile_inputs, emit_step, emit_steps, emit_bin, write_header,
}
use catalyst_build_executor.Binary.Strings.{IsU64}
use catalyst_build_executor.Binary.Items.{IsSmallNode, IsSmallList, IsSmallStep}
use catalyst_build_executor.Binary.RoundTrip.{
  IsSmall, length-le_bytes, header_of, tables_of, strings_of, emit_bin-parts, length-write_header,
}

length-write_ref : (ref : StringRef) → length (write_ref ref) ≡ 16
length-write_ref ref = omega (
  arith,
  length-append (write_u64 ref.offset) (write_u64 ref.len),
  length-le_bytes 8 ref.offset,
  length-le_bytes 8 ref.len,
)

length-write_all : (xs : List ℕ) → length (write_all xs) ≡ 8 * length xs
length-write_all [] = omega arith
length-write_all (x ∷ xs) =
    omega
      (arith, length-append (write_u64 x) (write_all xs), length-le_bytes 8 x, length-write_all xs)

length-emit_definitions :
    (ds : Definitions) (sb : StringBuffer) → length ds ≤ length (emit_definitions ds sb).0
unfolding emit_definitions
length-emit_definitions [] sb = omega arith
length-emit_definitions ((k, v) ∷ ds) sb =
    let (key, sb₁) = add_string k sb in
    let (val, sb₂) = add_string v sb₁ in
    let others = (emit_definitions ds sb₂).0 in
    omega (
      arith,
      length-append (write_ref key) (write_ref val ++ others),
      length-append (write_ref val) others,
      length-write_ref key,
      length-emit_definitions ds sb₂,
    )

length-emit_node :
    (n : Node) (sb : StringBuffer) → length (emit_node n sb).0 ≡ 32 + 8 * length n.out_edges
unfolding emit_node
length-emit_node n sb =
    let path = write_ref (add_string n.path sb).0 in
    let id = write_u64 (step_id_raw n.step_id) in
    let count = write_u64 (length n.out_edges) in
    let edges = write_all n.out_edges in
    omega (
      arith,
      length-append path (id ++ (count ++ edges)),
      length-append id (count ++ edges),
      length-append count edges,
      length-write_ref (add_string n.path sb).0,
      length-le_bytes 8 (step_id_raw n.step_id),
      length-le_bytes 8 (length n.out_edges),
      length-write_all n.out_edges,
    )

-- The nodes and the edges of each are no more than the bytes.
emit_nodes-size :
    (bound : ℕ) (ns : List Node) (sb : StringBuffer)
    → length (emit_nodes ns sb).0 ≤ bound
    → (length ns ≤ length (emit_nodes ns sb).0) × All (λ n. length n.out_edges ≤ bound) ns
unfolding emit_nodes
emit_nodes-size bound [] sb h = (omega arith, tt)
emit_nodes-size bound (n ∷ ns) sb h =
    let one = length-emit_node n sb in
    let sum = length-append (emit_node n sb).0 (emit_nodes ns (emit_node n sb).1).0 in
    let (count, all) = emit_nodes-size bound ns (emit_node n sb).1 (omega arith) in
    (omega arith, (omega arith, all))

length-emit_strings :
    (xs : List Bytes) (sb : StringBuffer) → 16 * length xs ≡ length (emit_strings xs sb).0
unfolding emit_strings
length-emit_strings [] sb = omega arith
length-emit_strings (x ∷ xs) sb = omega (
  arith,
  length-append (write_ref (add_string x sb).0) (emit_strings xs (add_string x sb).1).0,
  length-write_ref (add_string x sb).0,
  length-emit_strings xs (add_string x sb).1,
)

emit_depfile_inputs-size :
    (o : Option (List Bytes)) (sb : StringBuffer)
    → length (emit_depfile_inputs o sb).0 ≤ uint64_max
    → IsSmallList o
unfolding emit_depfile_inputs
emit_depfile_inputs-size none sb h = tt
emit_depfile_inputs-size (some xs) sb h = omega (
  arith,
  length-append (write_u64 (length xs)) (emit_strings xs sb).0,
  length-le_bytes 8 (length xs),
  length-emit_strings xs sb,
)

emit_steps-size :
    (steps : List BuildStep) (sb : StringBuffer)
    → length (emit_steps steps sb).0 ≤ uint64_max
    → (length steps ≤ length (emit_steps steps sb).0) × All IsSmallStep steps
unfolding emit_steps emit_step
emit_steps-size [] sb h = (omega arith, tt)
emit_steps-size (step ∷ steps) sb h =
    let (tool, sb₁) = add_string step.tool sb in
    let (inputs, sb₂) = add_string step.inputs sb₁ in
    let (output, sb₃) = add_string step.output sb₂ in
    let depfile = (emit_depfile_inputs step.depfile_inputs sb₃).0 in
    let a = length-append (write_ref tool) (write_ref inputs ++ (write_ref output ++ depfile)) in
    let b = length-append (write_ref inputs) (write_ref output ++ depfile) in
    let c = length-append (write_ref output) depfile in
    let d = length-write_ref tool in
    let sb₄ = (emit_depfile_inputs step.depfile_inputs sb₃).1 in
    let sum = length-append (emit_step step sb).0 (emit_steps steps sb₄).0 in
    let (count, all) = emit_steps-size steps sb₄ (omega arith) in
    (omega arith, (emit_depfile_inputs-size step.depfile_inputs sb₃ (omega arith), all))

All_of_get {ℓ κ} :
    {A : Type ℓ} (P : A → Type κ) (xs : List A)
    → ((i : ℕ) (x : A) → get_elem? xs i ≡ some x → P x)
    → All P xs
All_of_get P [] h = tt
All_of_get P (x ∷ xs) h = (h 0 x refl, All_of_get P xs (λ i y e. h (suc i) y e))

All_of_mem : (P : ℕ → Type 0) (xs : List ℕ) → ((x : ℕ) → Memᴰ x xs → P x) → All P xs
All_of_mem P [] h = tt
All_of_mem P (x ∷ xs) h = (h x (Memᴰ.head refl), All_of_mem P xs (λ y m. h y (Memᴰ.tail m)))

All-get {ℓ κ} :
    {A : Type ℓ} (P : A → Type κ) (xs : List A) (i : ℕ) (x : A)
    → All P xs
    → get_elem? xs i ≡ some x
    → P x
All-get P [] i x h e = cc
All-get P (y ∷ xs) zero x h e = subst P (eq_of_some e) h.0
All-get P (y ∷ xs) (suc i) x h e = All-get P xs i x h.1 e

-- The numbers of a node are indices of nodes and of steps.
IsGraph-IsSmallNode :
    (g : BuildGraph)
    → IsGraph g
    → length g.nodes ≤ uint64_max
    → length g.steps ≤ uint64_max
    → (i : ℕ) (n : Node) → get_elem? g.nodes i ≡ some n
    → length n.out_edges ≤ uint64_max
    → IsSmallNode n
IsGraph-IsSmallNode g v few_nodes few_steps i n e few_edges =
    let below : (id : ℕ) → n.step_id ≡ some id → id < length g.steps =
      λ id made. get_elem?-lt-length g.steps id ((v.made i id).0 (rw (e, step_of) made)).at in
    (
      elim (Option-cases n.step_id) [
        | inl no_step ↦ rw no_step (omega arith)
        | inr (id, made) ↦ rw made (omega (arith, below id made))
      ],
      λ full. omega (arith, below uint64_max full),
      few_edges,
      All_of_mem IsU64 n.out_edges
          (λ j m. omega (arith, IsGraph-EdgesInRange g v i j (rw (e, edges_of) m))),
    )

-- In a graph, each number of a node is an index or a count of the graph.
pub emit_bin-IsSmall :
    (b : Builder) → IsGraph b.graph → length (emit_bin b) ≤ uint64_max → IsSmall b
unfolding tables_of
emit_bin-IsSmall b v h =
    let (definitions, sb₁) = emit_definitions b.definitions empty_strings in
    let (nodes, sb₂) = emit_nodes b.graph.nodes sb₁ in
    let (steps, sb₃) = emit_steps b.graph.steps sb₂ in
    let whole =
      ap length (emit_bin-parts b)
      ∙ length-append (write_header (header_of b)) (tables_of b ++ strings_of b) in
    let header = length-write_header (header_of b) in
    let parts = length-append (tables_of b) (strings_of b) in
    let table = length-append definitions (nodes ++ steps) in
    let last = length-append nodes steps in
    let count = length-emit_definitions b.definitions empty_strings in
    let (node_count, few_edges) = emit_nodes-size uint64_max b.graph.nodes sb₁ (omega arith) in
    let (step_count, few_names) = emit_steps-size b.graph.steps sb₂ (omega arith) in
    record {
      definitions = omega arith;
      count_nodes = omega arith;
      count_steps = omega arith;
      strings = omega arith;
      nodes = All_of_get IsSmallNode b.graph.nodes (λ i n e.
          IsGraph-IsSmallNode b.graph v (omega arith) (omega arith) i n e
            (All-get (λ n. length n.out_edges ≤ uint64_max) b.graph.nodes i n few_edges e));
      steps = few_names;
    }
