-- ===== src/Graph/Duplicate.antt =====
-- When `add_step` refuses a step.
use catalyst_build_executor.Base.{
  ℕ, ◌≡◌, refl, ap, ◌∙◌, sym, inl, inr, ◌↔◌, Bytes, Option, none, some, get_elem?, lookup, arith,
  true, Memᴰ, Bool-cases, eq_of_some,
}
use catalyst_build_executor.Domain.{BuildStep, FileSystem, unexpected, duplicate_producer, Error}
use catalyst_build_executor.Depfile.{parse_depfile}
use catalyst_build_executor.Graph.{
  BuildGraph, add_step, insert_step, has_step, get_or_create_node, parse_inputs,
}
use catalyst_build_executor.Graph.Ids.{step_of, Created, get_or_create_node-Created}
use catalyst_build_executor.Graph.Invariant.{IsGraph}

-- A step of the graph with a given output.
pub record HasProducer (g : BuildGraph) (output : Bytes) : Type 0 where
  pub id : ℕ
  pub step : BuildStep
  pub at : get_elem? g.steps id ≡ some step
  pub same : step.output ≡ output

has_step-some : (g : BuildGraph) (i s : ℕ) → step_of g.nodes i ≡ some s → has_step g i ≡ true
has_step-some g i s e = ground arith

step_of-has_step :
    (g : BuildGraph) (i : ℕ) → has_step g i ≡ true → (s : ℕ) × (step_of g.nodes i ≡ some s)
step_of-has_step g i e = go (step_of g.nodes i) refl
  where
    go : (o : Option ℕ) → step_of g.nodes i ≡ o → (s : ℕ) × (step_of g.nodes i ≡ some s)
    go none e' = absurd (ground arith)
    go (some s) e' = (s, e')

parse_depfile-ne-unexpected :
    {S : Type 0} (cb : S → Bytes → S) (fs : FileSystem) (res : S → Bytes → S) (p : Bytes) (s : S)
    (e : Error)
    → parse_depfile cb fs res p s ≡ unexpected e
    → ⊥
unfolding parse_depfile
parse_depfile-ne-unexpected cb fs res p s e h = ground arith

insert_step-ne-unexpected :
    (fs : FileSystem) (out : ℕ) (b : BuildStep) (g : BuildGraph) (e : Error)
    → insert_step fs out b g ≡ unexpected e
    → ⊥
unfolding insert_step parse_depfile
insert_step-ne-unexpected fs out b g e h = ground arith

module _ (fs : FileSystem) (step : BuildStep) (g : BuildGraph) (v : IsGraph g) where
  abbrev out : ℕ
  out = (get_or_create_node step.output g).0

  abbrev g₁ : BuildGraph
  g₁ = (get_or_create_node step.output g).1

  created : Created step.output g out g₁
  created = get_or_create_node-Created step.output g v.indexed

  taken-HasProducer : has_step g₁ out ≡ true → HasProducer g step.output
  taken-HasProducer taken =
      let (s, e) = step_of-has_step g₁ out taken in
      let m = (v.made out s).0 (sym (created.producers out) ∙ e) in
      record {
        id = s;
        step = m.step;
        at = m.at;
        same = eq_of_some (
            sym (created.indexed.sound m.step.output out (created.kept m.step.output out m.to))
            ∙ created.indexed.sound step.output out created.found);
      }

  HasProducer-taken : HasProducer g step.output → has_step g₁ out ≡ true
  HasProducer-taken p =
      let (i, l) = v.known p.id p.step p.step.output p.at (Memᴰ.head refl) in
      let m = (v.made i p.id).1 (record { step = p.step; at = p.at; to = l }) in
      let at_out : i ≡ out = eq_of_some (
        sym (created.kept step.output i (ap (λ q. lookup q g.index) (sym p.same) ∙ l))
        ∙ created.found) in
      has_step-some g₁ out p.id
        (created.producers out ∙ ap (λ k. step_of g.nodes k) (sym at_out) ∙ m)

  -- `add_step` reports a duplicate producer exactly if a step of the graph already has
  -- the same output; it has no other error value.
  pub add_step-duplicate :
      ((e : Error) → add_step fs step g ≡ unexpected e → e ≡ duplicate_producer step.output)
      × ((add_step fs step g ≡ unexpected (duplicate_producer step.output))
          ↔ HasProducer g step.output)
  unfolding add_step
  add_step-duplicate = (
    λ e h. elim (Bool-cases (has_step g₁ out)) [
      | inl taken ↦ cc (rw taken at h)
      | inr free ↦ absurd (insert_step-ne-unexpected fs out (parse_inputs step) g₁ e (rw free at h))
    ],
    (
      λ h. elim (Bool-cases (has_step g₁ out)) [
        | inl taken ↦ taken-HasProducer taken
        | inr free ↦
            absurd (insert_step-ne-unexpected fs out (parse_inputs step) g₁ _ (rw free at h))
      ],
      λ p. rw (HasProducer-taken p),
    ),
  )
