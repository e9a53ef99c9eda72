-- ===== src/Execute/Count.antt =====
-- What `execute` (src/executor.cpp) counts before the threads start.
use catalyst_build_executor.Base.{
  ℕ, ◌+◌, ◌≡◌, refl, sym, ap, ◌∙◌, Bool, true, false, Bytes, List, [], ◌∷◌, Option, none, some,
  length, arith, ◌==◌, if◌then◌else◌,
}
use catalyst_build_executor.Domain.{
  BuildStep, Result, ok, unexpected, thrown, ◌>>=◌, cannot_open_log,
}
use catalyst_build_executor.Graph.{Node, BuildGraph}
use catalyst_build_executor.Rebuild.{PathOrder, Cache, Clock, IsClockOf, needs_rebuild}
use catalyst_build_executor.Rebuild.Cached.{
  IsTruthful, must_rebuild, IsDecision_cases, needs_rebuild-must_rebuild,
}
use catalyst_build_executor.Tools.Dot.{step_of_node}
use catalyst_build_executor.Execute.{
  Counted, nothing_counted, final_name, count_step, count_nodes, prepare,
}

-- What can be seen of the counting.
abbrev pub counts_of : Counted → Result (ℕ × Bytes)
counts_of c = ok (c.steps_to_build, c.final_output_name)

abbrev pub with_name : Bytes → ℕ → Result (ℕ × Bytes)
with_name name n = ok (n, name)

-- The outputs of the steps whose file nothing needs, in the order of the nodes.
abbrev pub unneeded_outputs : List BuildStep → List Node → List Bytes
unneeded_outputs steps [] = []
unneeded_outputs steps (node ∷ nodes) = elim (step_of_node steps node) [
  | none ↦ unneeded_outputs steps nodes
  | some step ↦
      if length node.out_edges == 0
      then step.output ∷ unneeded_outputs steps nodes
      else unneeded_outputs steps nodes
]

-- The last of some texts, or one that is given.
abbrev pub last_or : Bytes → List Bytes → Bytes
last_or name [] = name
last_or name (x ∷ xs) = last_or x xs

-- What the loop keeps as the name.
abbrev name_after : Option BuildStep → Node → Bytes → Bytes
name_after none node name = name
name_after (some step) node name = final_name node.out_edges step.output name

abbrev last_output : List BuildStep → List Node → Bytes → Bytes
last_output steps [] name = name
last_output steps (node ∷ nodes) name =
    last_output steps nodes (name_after (step_of_node steps node) node name)

final_name-length :
    (out_edges : List ℕ) (output name : Bytes) (xs : List Bytes)
    → last_or (final_name out_edges output name) xs
      ≡ last_or name (if length out_edges == 0 then output ∷ xs else xs)
final_name-length [] output name xs = refl
final_name-length (j ∷ out_edges) output name xs = ground arith

last_output-last_or :
    (steps : List BuildStep) (nodes : List Node) (name : Bytes)
    → last_output steps nodes name ≡ last_or name (unneeded_outputs steps nodes)
last_output-last_or steps [] name = refl
last_output-last_or steps (node ∷ nodes) name =
    last_output-last_or steps nodes (name_after (step_of_node steps node) node name)
    ∙ go (step_of_node steps node)
  where
    go :
        (found : Option BuildStep)
        → last_or (name_after found node name) (unneeded_outputs steps nodes)
          ≡ last_or name (elim found [
            | none ↦ unneeded_outputs steps nodes
            | some step ↦
                if length node.out_edges == 0
                then step.output ∷ unneeded_outputs steps nodes
                else unneeded_outputs steps nodes
          ])
    go none = refl
    go (some step) =
        final_name-length node.out_edges step.output name (unneeded_outputs steps nodes)

module _ (order : PathOrder) (mtime : Clock) (exists : Bytes → Bool) (build_file : Bytes) where
  -- The number of the nodes whose step must be rebuilt, decided without a cache.
  abbrev pub is_due : Option BuildStep → Result Bool
  is_due none = ok false
  is_due (some step) = must_rebuild order mtime exists build_file step

  abbrev pub due : List BuildStep → List Node → Result ℕ
  due steps [] = ok 0
  due steps (node ∷ nodes) = is_due (step_of_node steps node) >>= λ b.
      due steps nodes >>= λ n. ok ((if b then 1 else 0) + n)

  abbrev expected : ℕ → Bytes → Result ℕ → Result (ℕ × Bytes)
  expected k name r = r >>= λ n. ok (k + n, name)

  abbrev plus : Bool → Result ℕ → Result ℕ
  plus b r = r >>= λ n. ok ((if b then 1 else 0) + n)

  expected-plus :
      (k : ℕ) (b : Bool) (name : Bytes) (r : Result ℕ)
      → expected (if b then k + 1 else k) name r ≡ expected k name (plus b r)
  expected-plus k true name (ok n) = ap (λ m. ok (m, name)) (omega arith)
  expected-plus k false name (ok n) = ap (λ m. ok (m, name)) (omega arith)
  expected-plus k b name (unexpected e) = refl
  expected-plus k b name (thrown e) = refl

  -- A node is counted, and what follows counts on.
  count_step-plus :
      IsClockOf order mtime
      → (step : Option BuildStep) (node : Node) (c : Counted) (next : Counted → Result Counted)
        (name : Bytes → Bytes) (rest : Result ℕ)
      → IsTruthful order mtime c.cache
      → ((c' : Counted)
          → IsTruthful order mtime c'.cache
          → (next c' >>= counts_of) ≡ expected c'.steps_to_build (name c'.final_output_name) rest)
      → (count_step order mtime exists build_file step node c >>= next >>= counts_of)
        ≡ expected c.steps_to_build
            (name (name_after step node c.final_output_name))
            (is_due step >>= λ b. plus b rest)
  unfolding count_step
  count_step-plus one_file none node c next name rest h ih =
      ih c h ∙ expected-plus c.steps_to_build false (name c.final_output_name) rest
  count_step-plus one_file (some step) node c next name rest h ih =
      let final = final_name node.out_edges step.output c.final_output_name in
      let counted : Bool × Cache → Counted = λ r. record {
        steps_to_build = if r.0 then c.steps_to_build + 1 else c.steps_to_build;
        final_output_name = final;
        cache = r.1;
      } in
      IsDecision_cases order mtime
        (λ d r.
          (r >>= (λ q. ok (counted q)) >>= next >>= counts_of)
          ≡ expected c.steps_to_build (name final) (d >>= λ b. plus b rest))
        (λ b r same t.
          ih (counted r) t
          ∙ expected-plus c.steps_to_build r.0 (name final) rest
          ∙ ap (λ x. expected c.steps_to_build (name final) (plus x rest)) same)
        (λ e e' same. ap thrown (sym same)) (must_rebuild order mtime exists build_file step)
        (needs_rebuild order mtime exists build_file step c.cache)
        (needs_rebuild-must_rebuild order mtime one_file exists build_file step c.cache h)

  count_nodes-due :
      IsClockOf order mtime
      → (steps : List BuildStep) (nodes : List Node) (c : Counted) → IsTruthful order mtime c.cache
      → (count_nodes order mtime exists build_file steps nodes c >>= counts_of)
        ≡ expected c.steps_to_build (last_output steps nodes c.final_output_name) (due steps nodes)
  unfolding count_nodes
  count_nodes-due one_file steps [] c h = ap (λ m. ok (m, c.final_output_name)) (omega arith)
  count_nodes-due one_file steps (node ∷ nodes) c h =
      count_step-plus one_file (step_of_node steps node) node c
        (count_nodes order mtime exists build_file steps nodes) (last_output steps nodes)
        (due steps nodes) h (count_nodes-due one_file steps nodes)

  expected-zero : (name : Bytes) (r : Result ℕ) → expected 0 name r ≡ (r >>= with_name name)
  expected-zero name (ok n) = ap (λ m. ok (m, name)) (omega arith)
  expected-zero name (unexpected e) = refl
  expected-zero name (thrown e) = refl

  -- What the preparation gives: for a log that has a name and cannot be opened, an error.
  abbrev pub prepared :
      (build_log_file : Bytes) → (can_log : Bool) → BuildGraph → Result (ℕ × Bytes)
  prepared (c ∷ name) false g = unexpected (cannot_open_log (c ∷ name))
  prepared (c ∷ name) true g =
      due g.steps g.nodes >>= with_name (last_or [] (unneeded_outputs g.steps g.nodes))
  prepared [] can_log g =
      due g.steps g.nodes >>= with_name (last_or [] (unneeded_outputs g.steps g.nodes))

  -- The number of steps to build is that of the nodes whose step must be rebuilt, and the final output is that
  -- of the last step whose file nothing needs. It is an error if a log is asked for that cannot be
  -- opened; otherwise what one of the decisions throws is thrown. Equal paths name one file.
  pub prepare-due :
      IsClockOf order mtime
      → (build_log_file : Bytes) (can_log : Bool) (g : BuildGraph)
      → (prepare order mtime exists build_file build_log_file can_log g >>= counts_of)
        ≡ prepared build_log_file can_log g
  unfolding prepare
  prepare-due one_file build_log_file can_log g = go build_log_file can_log
    where
      counts :
          (count_nodes order mtime exists build_file g.steps g.nodes nothing_counted >>= counts_of)
          ≡ (due g.steps g.nodes >>= with_name (last_or [] (unneeded_outputs g.steps g.nodes)))
      counts =
          count_nodes-due one_file g.steps g.nodes nothing_counted tt
          ∙ expected-zero (last_output g.steps g.nodes []) (due g.steps g.nodes)
          ∙ ap (λ name. due g.steps g.nodes >>= with_name name)
              (last_output-last_or g.steps g.nodes [])

      go :
          (log : Bytes) (can_log : Bool)
          → (prepare order mtime exists build_file log can_log g >>= counts_of)
            ≡ prepared log can_log g
      go [] true = counts
      go [] false = counts
      go (c ∷ name) true = counts
      go (c ∷ name) false = refl
