-- ===== src/Binary/Cache.antt =====
-- The binary cache of a manifest: what a second run reads instead of the text.
use mathlib.Core.List.{append_assoc, append-nil}
use catalyst_build_executor.Base.{
  ◌≤◌, ◌≡◌, refl, sym, ap, ◌∙◌, subst, ◌↔◌, inl, inr, Bytes, List, [], ◌∷◌, ◌++◌, none, some, map,
  foldl, length, All, arith, Bool-cases, List-cases, codes, split_on, starts_with,
}
use catalyst_build_executor.Domain.{BuildStep, FileSystem, file, ok, >>=-eq-ok}
use catalyst_build_executor.Fields.{add_field, for_each_field_lem}
use catalyst_build_executor.Graph.{add_resource, add_step}
use catalyst_build_executor.Graph.Inputs.{
  opaque_fields, plain_fields, push_names, parse_inputs_lem, nil-bang,
}
use catalyst_build_executor.Graph.Insert.{stored_step}
use catalyst_build_executor.Graph.Step.{add_step-Inserted}
use catalyst_build_executor.Graph.Invariant.{
  IsGraph, add_step-IsGraph, empty_graph-IsGraph, IsGraph-with,
}
use catalyst_build_executor.Builder.{
  Builder, empty_builder, add_definition, builder_add_resource, builder_add_step,
}
use catalyst_build_executor.Parser.{new_step, parse_manifest}
use catalyst_build_executor.Parser.Lines.{parse_manifest_inv, P-of_eq}
use catalyst_build_executor.Binary.Format.{uint64_max}
use catalyst_build_executor.Binary.Reader.{bin_path, parse_bin, all_inputs}
use catalyst_build_executor.Binary.Writer.{emit_bin}
use catalyst_build_executor.Binary.Items.{reloaded_step}
use catalyst_build_executor.Binary.RoundTrip.{reloaded, parse_bin_content-emit_bin}
use catalyst_build_executor.Binary.Size.{emit_bin-IsSmall}
use catalyst_build_executor.Binary.Reload.{IsMap, IsMap-emplace, Reloaded, reloaded-Reloaded}

abbrev pub fields_of : BuildStep → List Bytes
fields_of step = split_on b',' step.inputs

-- The inputs of a step are sorted as its text says.
pub record IsParsed (step : BuildStep) : Type 0 where
  pub opaque : step.opaque_inputs ≡ push_names none (opaque_fields (fields_of step))
  pub plain : step.parsed_inputs ≡ plain_fields (fields_of step)

pub record WellFormed (b : Builder) : Type 0 where
  pub graph : IsGraph b.graph
  pub definitions : IsMap b.definitions
  pub steps : All IsParsed b.graph.steps

stored_step-IsParsed :
    (fs : FileSystem) (tool inputs output : Bytes)
    → IsParsed (stored_step fs (new_step tool inputs output))
unfolding stored_step
stored_step-IsParsed fs tool inputs output =
    let e = parse_inputs_lem (new_step tool inputs output) in
    record { opaque = rw e refl; plain = rw e refl }

All-append {ℓ κ} :
    {A : Type ℓ} (P : A → Type κ) (xs ys : List A) → All P xs → All P ys → All P (xs ++ ys)
All-append P [] ys hx hy = hy
All-append P (x ∷ xs) ys hx hy = (hx.0, All-append P xs ys hx.1 hy)

builder_add_step-WellFormed :
    (fs : FileSystem) (tool inputs output : Bytes) (b b' : Builder)
    → WellFormed b
    → builder_add_step fs (new_step tool inputs output) b ≡ ok b'
    → WellFormed b'
unfolding builder_add_step
builder_add_step-WellFormed fs tool inputs output b b' v e =
    let step = new_step tool inputs output in
    let ((id, h), added, same) = >>=-eq-ok (add_step fs step b.graph) _ e in
    let (at_end, (out, inserted)) =
      add_step-Inserted fs step b.graph v.graph.indexed id h refl added in
    P-of_eq WellFormed same (record {
      graph = add_step-IsGraph fs step b.graph id h v.graph refl added;
      definitions = v.definitions;
      steps = subst (All IsParsed) (sym inserted.steps) (
          All-append IsParsed b.graph.steps (stored_step fs step ∷ []) v.steps
            (stored_step-IsParsed fs tool inputs output, tt));
    })

pub parse_manifest-WellFormed :
    (fs : FileSystem) (path : Bytes) (b : Builder)
    → parse_manifest fs path empty_builder ≡ ok b
    → WellFormed b
unfolding add_definition builder_add_resource add_resource
parse_manifest-WellFormed fs path b e =
    parse_manifest_inv WellFormed fs
      (λ key value x v. record {
        graph = v.graph;
        definitions = IsMap-emplace key value x.definitions v.definitions;
        steps = v.steps;
      })
      (builder_add_step-WellFormed fs)
      (λ res x v. record {
        graph = IsGraph-with x.graph (x.graph.resources ++ res ∷ []) v.graph;
        definitions = v.definitions;
        steps = v.steps;
      })
      path empty_builder b (record { graph = empty_graph-IsGraph; definitions = tt; steps = tt }) e

abbrev push_back : List Bytes → Bytes → List Bytes
push_back xs x = xs ++ x ∷ []

fold-snoc :
    (fs acc : List Bytes)
    → opaque_fields fs ≡ []
    → foldl (add_field push_back) acc fs ≡ acc ++ plain_fields fs
fold-snoc [] acc e = sym (append-nil acc)
fold-snoc ([] ∷ fs) acc e = fold-snoc fs acc (ground (arith, nil-bang))
fold-snoc ((c ∷ f) ∷ fs) acc e = elim (Bool-cases (starts_with (c ∷ f) (codes "!"))) [
  | inl bang ↦ cc (rw bang at e)
  | inr plain ↦ rw plain (
      fold-snoc fs (acc ++ (c ∷ f) ∷ []) (rw plain at e)
      ∙ append_assoc acc ((c ∷ f) ∷ []) (plain_fields fs))
]

push_names-none :
    (x : Bytes) (xs : List Bytes) → (ys : List Bytes) × (push_names none (x ∷ xs) ≡ some ys)
push_names-none x xs = go xs (x ∷ [])
  where
    go : (xs ys : List Bytes) → (zs : List Bytes) × (push_names (some ys) xs ≡ some zs)
    go [] ys = (ys, refl)
    go (z ∷ xs) ys = go xs (ys ++ z ∷ [])

-- A step of a manifest is reloaded as it was exactly if no field of its inputs is opaque.
reloaded_step-same_iff :
    (step : BuildStep)
    → IsParsed step
    → (reloaded_step step ≡ step) ↔ (opaque_fields (fields_of step) ≡ [])
unfolding all_inputs
reloaded_step-same_iff step v = (
  λ same. elim (List-cases (opaque_fields (fields_of step))) [
    | inl nothing ↦ nothing
    | inr (x, xs, e) ↦
        let (ys, names) = push_names-none x xs in
        cc (ap (λ s. s.opaque_inputs) same, v.opaque, e, names)
  ],
  λ nothing.
      let no_opaque : none ≡ step.opaque_inputs = sym (v.opaque ∙ ap (push_names none) nothing) in
      let all_plain : all_inputs step.inputs ≡ step.parsed_inputs =
        for_each_field_lem push_back [] step.inputs
        ∙ fold-snoc (fields_of step) [] nothing
        ∙ sym v.plain in
      ap (λ o. record (reloaded_step step) { opaque_inputs = o }) no_opaque
      ∙ ap (λ l. record step { parsed_inputs = l }) all_plain,
)

-- After a manifest was parsed and its cache was written, reading the cache gives the same
-- definitions, nodes, edges and producers, and the steps without their opaque inputs. The file of
-- the cache is shorter than 2 ^ 64 bytes.
pub parse_bin-manifest :
    (fs fs' : FileSystem) (path : Bytes) (b : Builder)
    → parse_manifest fs path empty_builder ≡ ok b
    → fs' bin_path ≡ file (emit_bin b)
    → length (emit_bin b) ≤ uint64_max
    → (b' : Builder) × (parse_bin fs' empty_builder ≡ ok b') × Reloaded b b'
unfolding parse_bin
parse_bin-manifest fs fs' path b parsed written small =
    let v = parse_manifest-WellFormed fs path b parsed in
    (
      builder_add_resource (emit_bin b) (reloaded b empty_builder),
      rw (written, parse_bin)
          (parse_bin_content-emit_bin b empty_builder (emit_bin-IsSmall b v.graph small)),
      reloaded-Reloaded b v.definitions v.graph.indexed,
    )

abbrev pub HasNoOpaque : BuildStep → Type 0
HasNoOpaque step = opaque_fields (fields_of step) ≡ []

map-reloaded_step_iff :
    (steps : List BuildStep)
    → All IsParsed steps
    → (map reloaded_step steps ≡ steps) ↔ All HasNoOpaque steps
map-reloaded_step_iff [] v = (λ e. tt, λ h. refl)
map-reloaded_step_iff (step ∷ steps) (v, vs) =
    let here = reloaded_step-same_iff step v in
    let rest = map-reloaded_step_iff steps vs in
    (
      λ e.
          let same : reloaded_step step ≡ step = cc in
          let others : map reloaded_step steps ≡ steps = cc in (here.0 same, rest.0 others),
      λ (h, hs).
          ap (λ x. x ∷ map reloaded_step steps) (here.1 h) ∙ ap (λ xs. step ∷ xs) (rest.1 hs),
    )

-- After a manifest was parsed and its cache was written, reading the cache succeeds, and it gives the steps
-- as the text did exactly if no field of the inputs of any step is opaque. The file of the cache
-- is shorter than 2 ^ 64 bytes.
pub parse_bin-steps_iff :
    (fs fs' : FileSystem) (path : Bytes) (b : Builder)
    → parse_manifest fs path empty_builder ≡ ok b
    → fs' bin_path ≡ file (emit_bin b)
    → length (emit_bin b) ≤ uint64_max
    → (b' : Builder) × (parse_bin fs' empty_builder ≡ ok b')
      × ((b'.graph.steps ≡ b.graph.steps) ↔ All HasNoOpaque b.graph.steps)
parse_bin-steps_iff fs fs' path b parsed written small =
    let v = parse_manifest-WellFormed fs path b parsed in
    let (b', reads, back) = parse_bin-manifest fs fs' path b parsed written small in
    let same = map-reloaded_step_iff b.graph.steps v.steps in
    (b', reads, (λ e. same.0 (sym (back.steps) ∙ e), λ h. back.steps ∙ same.1 h))
