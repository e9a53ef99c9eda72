-- ===== src/Graph/Step.antt =====
-- `add_step` meets its description: on success the step is inserted, and it fails on a second
-- producer only.

use catalyst_build_executor.Base.{
  ℕ, ◌≡◌, refl, ◌∙◌, sym, subst, ◌⊎◌, inl, inr, Bytes, List, [], ◌∷◌, ◌++◌, some, modify, arith,
  foldl, length, Bool-cases, ◌==◌, if◌then◌else◌, codes, get_elem?-modify, ap, none, lookup, Memᴰ,
  ◌↔◌, false,
}
use catalyst_build_executor.Domain.{
  BuildStep, FileSystem, FileView, file, absent, unreadable, Result, ok, is_compiler, >>=-eq-ok,
}
use catalyst_build_executor.Depfile.{parse_depfile}
use catalyst_build_executor.Depfile.Fold.{dep_names, parse_content-fold}
use catalyst_build_executor.Graph.{
  BuildGraph, add_resource, depfile_callback, insert_step, or_empty, add_edge, has_step,
  get_or_create_node, parse_inputs, add_step,
}
use catalyst_build_executor.Graph.Inputs.{push_names, or_empty-push_names, parse_inputs_lem}
use catalyst_build_executor.Graph.Ids.{
  path_of, edges_of, step_of, IsIndexed, Created, get_or_create_node-Created,
}
use catalyst_build_executor.Graph.Edges.{Extends, add_edges-Extends, Extends-append}
use catalyst_build_executor.Graph.Insert.{
  depfile_names, callbacks-steps, callbacks-Extends, Extends-from, add_edges-steps, prerequisites,
  Inserted, stored_step,
}

FileView-cases :
    (v : FileView) → (v ≡ absent) ⊎ (v ≡ unreadable) ⊎ ((content : Bytes) × (v ≡ file content))
FileView-cases absent = inl refl
FileView-cases unreadable = inr (inl refl)
FileView-cases (file content) = inr (inr (content, refl))

abbrev with_names : BuildStep → List Bytes → BuildStep
with_names b names = record b { depfile_inputs = push_names b.depfile_inputs names }

module _ (fs : FileSystem) (out : ℕ) (step : BuildStep) (g : BuildGraph)
    (indexed : IsIndexed g.nodes g.index) where
  abbrev stored : BuildGraph
  stored = record g {
    steps = g.steps ++ step ∷ [];
    nodes = modify g.nodes out (λ n. record n { step_id = some (length g.steps) });
  }

  path_of-stored : (i : ℕ) → path_of stored.nodes i ≡ path_of g.nodes i
  path_of-stored i =
      ground
        (arith, get_elem?-modify g.nodes out (λ n. record n { step_id = some (length g.steps) }) i)

  edges_of-stored : (i : ℕ) → edges_of stored.nodes i ≡ edges_of g.nodes i
  edges_of-stored i =
      ground
        (arith, get_elem?-modify g.nodes out (λ n. record n { step_id = some (length g.steps) }) i)

  step_of-stored :
      {p : Bytes}
      → path_of g.nodes out ≡ some p
      → (i : ℕ)
      → step_of stored.nodes i ≡ (if i == out then some (length g.steps) else step_of g.nodes i)
  step_of-stored h i =
      ground
        (arith, get_elem?-modify g.nodes out (λ n. record n { step_id = some (length g.steps) }) i)

  IsIndexed-stored : IsIndexed stored.nodes stored.index
  IsIndexed-stored = record {
    sound = λ q i e. path_of-stored i ∙ indexed.sound q i e;
    complete = λ q i e. indexed.complete q i (sym (path_of-stored i) ∙ e);
  }

  -- Between storing the step and adding its own inputs.
  record Read (names : List Bytes) (g' : BuildGraph) : Type 0 where
    extends : Extends out names stored g'
    steps : g'.steps ≡ g.steps ++ with_names step names ∷ []

  Read-names :
      (names : List Bytes) (rs : List Bytes)
      → Read names
          (foldl (depfile_callback out (length g.steps)) (record stored { resources = rs }) names)
  Read-names names rs = record {
    extends = Extends-from stored stored.steps rs (
        callbacks-Extends out (length g.steps) names (record stored { resources = rs })
          IsIndexed-stored);
    steps = callbacks-steps out g.steps step names (record stored { resources = rs }) refl;
  }

  abbrev read_depfile : Result BuildGraph
  read_depfile =
      if is_compiler step.tool
      then parse_depfile (depfile_callback out (length g.steps)) fs add_resource
          (step.output ++ codes ".d") stored
      else ok stored

  ok-injective : {a b : BuildGraph} → ok a ≡ ok b → a ≡ b
  ok-injective e = cc

  read_depfile-Read : (g' : BuildGraph) → read_depfile ≡ ok g' → Read (depfile_names fs step) g'
  unfolding depfile_names parse_depfile add_resource
  read_depfile-Read g' e = elim (Bool-cases (is_compiler step.tool)) [
    | inl compiles ↦ elim (FileView-cases (fs (step.output ++ codes ".d"))) [
      | inl none_there ↦
          rw (compiles, none_there)
            (subst (Read []) (ok-injective (rw (compiles, none_there, parse_depfile) at e))
              (Read-names [] g.resources))
      | inr (inl bad) ↦ cc (rw (compiles, bad, parse_depfile) at e)
      | inr (inr (content, there)) ↦
          rw (compiles, there)
            (subst (Read (dep_names content))
              (ok-injective (rw (compiles, there, parse_depfile) at e))
              (rw (parse_content-fold (depfile_callback out (length g.steps)) _ content)
                (Read-names (dep_names content) (g.resources ++ content ∷ []))))
    ]
    | inr other ↦
        rw other (subst (Read []) (ok-injective (rw other at e)) (Read-names [] g.resources))
  ]

  module _ {p : Bytes} (at_out : path_of g.nodes out ≡ some p) (id : ℕ) (h : BuildGraph) where
    insert_step-eq-ok :
        insert_step fs out step g ≡ ok (id, h)
        → (g' : BuildGraph) × Read (depfile_names fs step) g'
          × (id ≡ length g.steps)
          × (h
              ≡ foldl
                  (add_edge out)
                  (foldl (add_edge out) g' step.parsed_inputs)
                  (or_empty step.opaque_inputs))
    unfolding insert_step
    insert_step-eq-ok e =
        let (g', read, rest) = >>=-eq-ok read_depfile _ e in (g', read_depfile-Read g' read, cc, cc)

    -- Each name of the depfile, each parsed and each opaque input gets its edge.
    abbrev all_names : List Bytes
    all_names = depfile_names fs step ++ (step.parsed_inputs ++ or_empty step.opaque_inputs)

    insert_step-Extends :
        insert_step fs out step g ≡ ok (id, h)
        → Extends out all_names stored h
          × (h.steps ≡ g.steps ++ with_names step (depfile_names fs step) ∷ [])
          × (id ≡ length g.steps)
    insert_step-Extends e =
        let (g', read, id_eq, h_eq) = insert_step-eq-ok e in
        let g₁ = foldl (add_edge out) g' step.parsed_inputs in
        let first = add_edges-Extends out step.parsed_inputs g' read.extends.indexed in
        let second = add_edges-Extends out (or_empty step.opaque_inputs) g₁ first.indexed in
        (
          subst (Extends out all_names stored) (sym h_eq)
              (Extends-append read.extends (Extends-append first second)),
          ap (λ x. x.steps) h_eq
              ∙ add_edges-steps out (or_empty step.opaque_inputs) g₁
              ∙ add_edges-steps out step.parsed_inputs g'
              ∙ read.steps,
          id_eq,
        )

-- What `insert_step` adds to the graph that holds the node of the output.
module _ (fs : FileSystem) (step b : BuildStep) (g g₁ h : BuildGraph) (out id : ℕ)
    (no_names : b.depfile_inputs ≡ none) (same_output : b.output ≡ step.output)
    (c : Created step.output g out g₁) (fresh : step_of g₁.nodes out ≡ none)
    (done : insert_step fs out b g₁ ≡ ok (id, h)) where
  abbrev final : BuildStep
  final = with_names b (depfile_names fs b)

  at_out : path_of g₁.nodes out ≡ some step.output
  at_out = c.indexed.sound step.output out c.found

  extends : Extends out (prerequisites final) (stored fs out b g₁ c.indexed) h
  extends =
      subst
        (λ l.
          Extends out (l ++ (b.parsed_inputs ++ or_empty b.opaque_inputs))
            (stored fs out b g₁ c.indexed) h)
        (sym (
          or_empty-push_names b.depfile_inputs (depfile_names fs b)
          ∙ ap (λ o. or_empty o ++ depfile_names fs b) no_names))
        (insert_step-Extends fs out b g₁ c.indexed at_out id h done).0

  inserted : Inserted final out g h
  inserted =
      let (_, steps, _) = insert_step-Extends fs out b g₁ c.indexed at_out id h done in
      record {
        steps = steps ∙ ap (λ l. l ++ final ∷ []) c.steps;
        indexed = extends.indexed;
        kept = λ q i e. extends.kept q i (c.kept q i e);
        added = λ q i e. elim (extends.added q i e) [
          | inr m ↦ inr (Memᴰ.tail m)
          | inl mid ↦ elim (c.added q i mid) [
            | inl old ↦ inl old
            | inr is_output ↦ inr (Memᴰ.head (is_output ∙ sym same_output))
          ]
        ];
        output = extends.kept b.output out (ap (λ p. lookup p g₁.index) same_output ∙ c.found);
        fresh = sym (c.producers out) ∙ fresh;
        found = extends.found;
        edges = λ i j.
            subst
              (λ l. Memᴰ j (edges_of h.nodes i) ↔ (
                Memᴰ j l
                ⊎ (j ≡ out)
                  × ((p : Bytes) × Memᴰ p (prerequisites final) × (lookup p h.index ≡ some i))))
              (edges_of-stored fs out b g₁ c.indexed i ∙ c.edges i) (extends.edges i j);
        producers = λ i. ground (
          arith,
          extends.producers i,
          step_of-stored fs out b g₁ c.indexed at_out i,
          c.steps,
          c.producers i,
        );
      }

has_step-false : (g : BuildGraph) (i : ℕ) → has_step g i ≡ false → step_of g.nodes i ≡ none
has_step-false g i e = ground arith

module _ (fs : FileSystem) (step : BuildStep) (g : BuildGraph)
    (indexed : IsIndexed g.nodes g.index) where
  abbrev node : ℕ × BuildGraph
  node = get_or_create_node step.output g

  parse_inputs-keeps :
      ((parse_inputs step).depfile_inputs ≡ step.depfile_inputs)
      × ((parse_inputs step).output ≡ step.output)
  parse_inputs-keeps = (
    ap (λ x. x.depfile_inputs) (parse_inputs_lem step),
    ap (λ x. x.output) (parse_inputs_lem step),
  )

  -- Where `add_step` succeeds, the parsed step stands behind the others, under the index that is
  -- returned. Its output has a node, which had no producer, and the new edges lead there
  -- from the nodes of the step's prerequisites: those of the depfile, the plain and the opaque ones.
  -- A step comes with no depfile inputs.
  pub add_step-Inserted :
      (id : ℕ) (h : BuildGraph)
      → step.depfile_inputs ≡ none
      → add_step fs step g ≡ ok (id, h)
      → (id ≡ length g.steps) × ((out : ℕ) × Inserted (stored_step fs step) out g h)
  unfolding add_step stored_step
  add_step-Inserted id h no_names e = elim (Bool-cases (has_step node.1 node.0)) [
    | inl taken ↦ cc (rw taken at e)
    | inr free ↦
        let c = get_or_create_node-Created step.output g indexed in
        let done : insert_step fs node.0 (parse_inputs step) node.1 ≡ ok (id, h) = rw free at e in
        (
          (insert_step-Extends fs node.0 (parse_inputs step) node.1 c.indexed
                (c.indexed.sound step.output node.0 c.found) id h done).2
              ∙ ap length c.steps,
          (
            node.0,
            inserted fs step (parse_inputs step) g node.1 h node.0 id
                (parse_inputs-keeps.0 ∙ no_names) parse_inputs-keeps.1 c
                (has_step-false node.1 node.0 free) done,
          ),
        )
  ]
