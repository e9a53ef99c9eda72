-- ===== src/Tools/Listing.antt =====
-- `Executor::emit_commands` and `Executor::emit_compdb` (src/executor.cpp): what they print for the nodes,
-- in the order of the sort. The JSON text of an entry is the library's.

use catalyst_build_executor.Base.{
  ℕ, ◌≡◌, refl, ap, inl, inr, Bytes, List, [], ◌∷◌, ◌++◌, Option, none, some, Option-cases,
  get_elem?,
}
use catalyst_build_executor.Domain.{BuildStep, Result, ok, ◌>>=◌}
use catalyst_build_executor.Graph.{Node, BuildGraph}
use catalyst_build_executor.Graph.Ids.{step_of, step_at}
use catalyst_build_executor.Builder.{Builder}
use catalyst_build_executor.Commands.{Toolchain, toolchain, preview_args, compdb_args}
use catalyst_build_executor.Topo.{topo_sort}

-- `args[i] << (i == args.size() - 1 ? "" : " ")`
abbrev pub join_words : List Bytes → Bytes
join_words [] = []
join_words (word ∷ []) = word
join_words (word ∷ next ∷ words) = word ++ 0x20 ∷ join_words (next ∷ words)

abbrev pub command_line : Toolchain → BuildStep → Bytes
command_line tc step = join_words (preview_args tc step) ++ 0x0a ∷ []

-- An entry of compile_commands.json; there is no file where a step has no inputs.
pub record CompdbEntry : Type 0 where
  pub directory : Bytes
  pub arguments : List Bytes
  pub source_file : Option Bytes
  pub output : Bytes

abbrev pub first_of : List Bytes → Option Bytes
first_of [] = none
first_of (x ∷ xs) = some x

abbrev pub compdb_entry : (cwd : Bytes) → Toolchain → BuildStep → Option CompdbEntry
compdb_entry cwd tc step = elim (compdb_args tc step) [
  | none ↦ none
  | some args ↦ some (record {
    directory = cwd;
    arguments = args;
    source_file = first_of step.parsed_inputs;
    output = step.output;
  })
]

-- The two loops: what stands there for the step of a node, before what follows.
abbrev pub push_line : Toolchain → Option BuildStep → Bytes → Bytes
push_line tc none rest = rest
push_line tc (some step) rest = command_line tc step ++ rest

abbrev pub cons_some {ℓ} : {A : Type ℓ} → Option A → List A → List A
cons_some none xs = xs
cons_some (some x) xs = x ∷ xs

abbrev pub push_entry :
    (cwd : Bytes) → Toolchain → Option BuildStep → List CompdbEntry → List CompdbEntry
push_entry cwd tc none rest = rest
push_entry cwd tc (some step) rest = cons_some (compdb_entry cwd tc step) rest

unfoldable pub print_commands : Toolchain → BuildGraph → List ℕ → Bytes
print_commands tc g [] = []
print_commands tc g (i ∷ order) = push_line tc (step_at g i) (print_commands tc g order)

unfoldable pub build_compdb : (cwd : Bytes) → Toolchain → BuildGraph → List ℕ → List CompdbEntry
build_compdb cwd tc g [] = []
build_compdb cwd tc g (i ∷ order) = push_entry cwd tc (step_at g i) (build_compdb cwd tc g order)

unfoldable pub emit_commands : Builder → Result Bytes
emit_commands b = topo_sort b.graph >>= λ order. ok (print_commands (toolchain b) b.graph order)

unfoldable pub emit_compdb : (cwd : Bytes) → Builder → Result (List CompdbEntry)
emit_compdb cwd b = topo_sort b.graph >>= λ order. ok (build_compdb cwd (toolchain b) b.graph order)

-- The steps of the nodes of an order.
abbrev pub step_ids : List Node → List ℕ → List ℕ
step_ids nodes [] = []
step_ids nodes (i ∷ order) = cons_some (step_of nodes i) (step_ids nodes order)

-- The lines and the entries of a list of steps.
abbrev pub lines_of : Toolchain → List BuildStep → List ℕ → Bytes
lines_of tc steps [] = []
lines_of tc steps (s ∷ ids) = push_line tc (get_elem? steps s) (lines_of tc steps ids)

abbrev pub entries_of : (cwd : Bytes) → Toolchain → List BuildStep → List ℕ → List CompdbEntry
entries_of cwd tc steps [] = []
entries_of cwd tc steps (s ∷ ids) =
    push_entry cwd tc (get_elem? steps s) (entries_of cwd tc steps ids)

step_at-made :
    (g : BuildGraph) (i : ℕ) {s : ℕ}
    → step_of g.nodes i ≡ some s
    → step_at g i ≡ get_elem? g.steps s
step_at-made g i made = ap (λ o. elim o [ none ↦ none | some id ↦ get_elem? g.steps id ]) made

step_at-none : (g : BuildGraph) (i : ℕ) → step_of g.nodes i ≡ none → step_at g i ≡ none
step_at-none g i made = ap (λ o. elim o [ none ↦ none | some id ↦ get_elem? g.steps id ]) made

pub print_commands-lines_of :
    (tc : Toolchain) (g : BuildGraph) (order : List ℕ)
    → print_commands tc g order ≡ lines_of tc g.steps (step_ids g.nodes order)
unfolding print_commands
print_commands-lines_of tc g [] = refl
print_commands-lines_of tc g (i ∷ order) =
    let same = print_commands-lines_of tc g order in
    elim (Option-cases (step_of g.nodes i)) [
      | inl made ↦ rw (made, step_at-none g i made) same
      | inr (s, made) ↦
          rw (made, step_at-made g i made) (ap (push_line tc (get_elem? g.steps s)) same)
    ]

pub build_compdb-entries_of :
    (cwd : Bytes) (tc : Toolchain) (g : BuildGraph) (order : List ℕ)
    → build_compdb cwd tc g order ≡ entries_of cwd tc g.steps (step_ids g.nodes order)
unfolding build_compdb
build_compdb-entries_of cwd tc g [] = refl
build_compdb-entries_of cwd tc g (i ∷ order) =
    let same = build_compdb-entries_of cwd tc g order in
    elim (Option-cases (step_of g.nodes i)) [
      | inl made ↦ rw (made, step_at-none g i made) same
      | inr (s, made) ↦
          rw (made, step_at-made g i made) (ap (push_entry cwd tc (get_elem? g.steps s)) same)
    ]
