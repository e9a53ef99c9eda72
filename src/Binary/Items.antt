-- ===== src/Binary/Items.antt =====
-- The tables of the file: what the reader makes of the bytes that were written for a definition, a
-- node and a step.

use native.Mathlib.Decide.{ℕ_discrete}
use catalyst_build_executor.Base.{
  if_false, ℕ, suc, ◌≤◌, ◌<◌, ◌≡◌, refl, ap, ◌∙◌, ◌≢◌, Bytes, List, [], ◌∷◌, ◌++◌, Option, none,
  some, map, length, All, arith, ◌==◌,
}
use catalyst_build_executor.Domain.{BuildStep, Definitions, ok, ◌>>=◌}
use catalyst_build_executor.Graph.{Node}
use catalyst_build_executor.Builder.{Builder, add_definition}
use catalyst_build_executor.Binary.Format.{
  StringBuffer, add_string, read_u64, uint64_max, write_u64, write_ref,
}
use catalyst_build_executor.Binary.Reader.{
  read_sv, read_many, read_definitions, read_node, read_nodes, read_step, read_steps,
  read_depfile_inputs, all_inputs, push_node, push_step, step_id_of,
}
use catalyst_build_executor.Binary.Writer.{
  write_all, step_id_raw, emit_definitions, emit_node, emit_nodes, emit_strings,
  emit_depfile_inputs, emit_step, emit_steps,
}
use catalyst_build_executor.Binary.Strings.{
  IsU64, IsBuffer, Writes, Writes-then, Writes-map, Writes-nothing, ReadsAs, add_string-Writes,
  read-then, read_u64-write_u64, read_many-write_all,
}

-- The numbers of a node fit into 64 bits, and a step's index is not the mark for none.
abbrev pub IsSmallNode : Node → Type 0
IsSmallNode n =
    (step_id_raw n.step_id ≤ uint64_max)
    × (n.step_id ≢ some uint64_max)
    × IsU64 (length n.out_edges)
    × All IsU64 n.out_edges

abbrev pub IsSmallList : Option (List Bytes) → Type 0
IsSmallList none = Unit
IsSmallList (some xs) = length xs < uint64_max

abbrev pub IsSmallStep : BuildStep → Type 0
IsSmallStep step = IsSmallList step.depfile_inputs

-- What comes back of a step: its opaque inputs are gone, and each field of the inputs is a plain one.
abbrev pub reloaded_step : BuildStep → BuildStep
reloaded_step step = record step { opaque_inputs = none; parsed_inputs = all_inputs step.inputs }

step_id_of-step_id_raw : (o : Option ℕ) → o ≢ some uint64_max → step_id_of (step_id_raw o) ≡ o
step_id_of-step_id_raw none h = refl
step_id_of-step_id_raw (some id) h = elim (ℕ_discrete id uint64_max) [
  | yes e ↦ absurd (h (ap some e))
  | no n ↦ ground arith
]

emit_node-Writes :
    (node : Node) (sb : StringBuffer)
    → IsBuffer sb
    → IsSmallNode node
    → Writes sb
        (emit_node node sb).1
        (λ strings. ReadsAs (read_node strings) (emit_node node sb).0 node)
unfolding emit_node read_node
emit_node-Writes node sb v (id_fits, id_plain, count_fits, edges_fit) =
    let id = write_u64 (step_id_raw node.step_id) in
    let count = write_u64 (length node.out_edges) in
    let edges = write_all node.out_edges in
    Writes-map
      (λ strings reads rest.
        read-then (read_sv strings) (write_ref (add_string node.path sb).0) (id ++ (count ++ edges))
          node.path _ reads rest
        ∙ read-then read_u64 id (count ++ edges) (step_id_raw node.step_id) _
            (λ r. read_u64-write_u64 (step_id_raw node.step_id) r id_fits) rest
        ∙ read-then read_u64 count edges (length node.out_edges) _
            (λ r. read_u64-write_u64 (length node.out_edges) r count_fits) rest
        ∙ rw (read_many-write_all node.out_edges rest edges_fit) (
            ap (λ (o : Option ℕ). ok (record node { step_id = o }, rest))
              (step_id_of-step_id_raw node.step_id id_plain)))
      (add_string-Writes node.path sb v)

emit_strings-Writes :
    (xs : List Bytes) (sb : StringBuffer)
    → IsBuffer sb
    → Writes sb
        (emit_strings xs sb).1
        (λ strings. ReadsAs (read_many (read_sv strings) (length xs)) (emit_strings xs sb).0 xs)
unfolding emit_strings read_many
emit_strings-Writes [] sb v = Writes-nothing sb v (λ strings rest. refl)
emit_strings-Writes (x ∷ xs) sb v =
    let first = add_string-Writes x sb v in
    let others = emit_strings-Writes xs (add_string x sb).1 first.kept in
    Writes-map
      (λ strings (one, more) rest.
        read-then (read_sv strings) (write_ref (add_string x sb).0)
          (emit_strings xs (add_string x sb).1).0 x _ one rest
        ∙ ap (λ r. r >>= λ q. ok (x ∷ q.0, q.1)) (more rest))
      (Writes-then first others)

emit_depfile_inputs-Writes :
    (o : Option (List Bytes)) (sb : StringBuffer)
    → IsBuffer sb
    → IsSmallList o
    → Writes sb
        (emit_depfile_inputs o sb).1
        (λ strings. ReadsAs (read_depfile_inputs strings) (emit_depfile_inputs o sb).0 o)
unfolding emit_depfile_inputs read_depfile_inputs
emit_depfile_inputs-Writes none sb v small =
    Writes-nothing sb v (λ strings rest. rw (read_u64-write_u64 uint64_max rest (omega arith)) refl)
emit_depfile_inputs-Writes (some xs) sb v small =
    Writes-map
      (λ strings reads rest.
        read-then read_u64 (write_u64 (length xs)) (emit_strings xs sb).0 (length xs) _
          (λ r. read_u64-write_u64 (length xs) r (omega arith)) rest
        ∙ if_false (length xs == uint64_max) _ _ (ground arith)
        ∙ ap (λ r. r >>= λ q. ok (some q.0, q.1)) (reads rest))
      (emit_strings-Writes xs sb v)

emit_step-Writes :
    (step : BuildStep) (sb : StringBuffer)
    → IsBuffer sb
    → IsSmallStep step
    → Writes sb
        (emit_step step sb).1
        (λ strings. ReadsAs (read_step strings) (emit_step step sb).0 (reloaded_step step))
unfolding emit_step read_step
emit_step-Writes step sb v small =
    let (tool, sb₁) = add_string step.tool sb in
    let (inputs, sb₂) = add_string step.inputs sb₁ in
    let (output, sb₃) = add_string step.output sb₂ in
    let depfile = (emit_depfile_inputs step.depfile_inputs sb₃).0 in
    let a = add_string-Writes step.tool sb v in
    let b = add_string-Writes step.inputs sb₁ a.kept in
    let c = add_string-Writes step.output sb₂ b.kept in
    let d = emit_depfile_inputs-Writes step.depfile_inputs sb₃ c.kept small in
    Writes-map
      (λ strings (((one, two), three), four) rest.
        read-then (read_sv strings) (write_ref tool)
          (write_ref inputs ++ (write_ref output ++ depfile)) step.tool _ one rest
        ∙ read-then (read_sv strings) (write_ref inputs) (write_ref output ++ depfile) step.inputs _
            two rest
        ∙ read-then (read_sv strings) (write_ref output) depfile step.output _ three rest
        ∙ ap (λ r. r >>= λ q. ok (record (reloaded_step step) { depfile_inputs = q.0 }, q.1))
            (four rest))
      (Writes-then (Writes-then (Writes-then a b) c) d)

-- The loops push what was written, in order.
abbrev pub push_definitions : Definitions → Builder → Builder
push_definitions [] b = b
push_definitions ((k, v) ∷ ds) b = push_definitions ds (add_definition k v b)

abbrev pub push_nodes : ℕ → List Node → Builder → Builder
push_nodes i [] b = b
push_nodes i (n ∷ ns) b = push_nodes (suc i) ns (push_node i n b)

abbrev pub push_steps : List BuildStep → Builder → Builder
push_steps [] b = b
push_steps (step ∷ steps) b = push_steps steps (push_step step b)

pub emit_definitions-Writes :
    (ds : Definitions) (sb : StringBuffer)
    → IsBuffer sb
    → Writes sb (emit_definitions ds sb).1 (λ strings.
      (b : Builder)
      → ReadsAs
          (λ s. read_definitions strings (length ds) s b)
          (emit_definitions ds sb).0
          (push_definitions ds b))
unfolding emit_definitions read_definitions
emit_definitions-Writes [] sb v = Writes-nothing sb v (λ strings b rest. refl)
emit_definitions-Writes ((k, w) ∷ ds) sb v =
    let (key, sb₁) = add_string k sb in
    let (val, sb₂) = add_string w sb₁ in
    let others = (emit_definitions ds sb₂).0 in
    let a = add_string-Writes k sb v in
    let c = add_string-Writes w sb₁ a.kept in
    Writes-map
      (λ strings ((one, two), more) b rest.
        read-then (read_sv strings) (write_ref key) (write_ref val ++ others) k _ one rest
        ∙ read-then (read_sv strings) (write_ref val) others w _ two rest
        ∙ more (add_definition k w b) rest)
      (Writes-then (Writes-then a c) (emit_definitions-Writes ds sb₂ c.kept))

pub emit_nodes-Writes :
    (ns : List Node) (i : ℕ) (sb : StringBuffer)
    → IsBuffer sb
    → All IsSmallNode ns
    → Writes sb (emit_nodes ns sb).1 (λ strings.
      (b : Builder)
      → ReadsAs
          (λ s. read_nodes strings (length ns) i s b)
          (emit_nodes ns sb).0
          (push_nodes i ns b))
unfolding emit_nodes read_nodes
emit_nodes-Writes [] i sb v small = Writes-nothing sb v (λ strings b rest. refl)
emit_nodes-Writes (n ∷ ns) i sb v small =
    let a = emit_node-Writes n sb v small.0 in
    let sb' = (emit_node n sb).1 in
    Writes-map
      (λ strings (one, more) b rest.
        read-then (read_node strings) (emit_node n sb).0 (emit_nodes ns sb').0 n _ one rest
        ∙ more (push_node i n b) rest)
      (Writes-then a (emit_nodes-Writes ns (suc i) sb' a.kept small.1))

pub emit_steps-Writes :
    (steps : List BuildStep) (sb : StringBuffer)
    → IsBuffer sb
    → All IsSmallStep steps
    → Writes sb (emit_steps steps sb).1 (λ strings.
      (b : Builder)
      → ReadsAs
          (λ s. read_steps strings (length steps) s b)
          (emit_steps steps sb).0
          (push_steps (map reloaded_step steps) b))
unfolding emit_steps read_steps
emit_steps-Writes [] sb v small = Writes-nothing sb v (λ strings b rest. refl)
emit_steps-Writes (step ∷ steps) sb v small =
    let a = emit_step-Writes step sb v small.0 in
    let sb' = (emit_step step sb).1 in
    Writes-map
      (λ strings (one, more) b rest.
        read-then (read_step strings) (emit_step step sb).0 (emit_steps steps sb').0
          (reloaded_step step) _ one rest
        ∙ more (push_step (reloaded_step step) b) rest)
      (Writes-then a (emit_steps-Writes steps sb' a.kept small.1))
