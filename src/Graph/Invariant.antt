-- ===== src/Graph/Invariant.antt =====
-- The invariant of the graph: its nodes, edges and producers are what its steps say.
use mathlib.Core.List.Memᴰ
use native.Mathlib.Decide.{ℕ_discrete}
use catalyst_build_executor.Base.{
  ℕ, ◌≡◌, refl, ap, ◌∙◌, sym, subst, ◌⊎◌, inl, inr, ◌↔◌, Bytes, [], ◌∷◌, none, some, get_elem?,
  lookup, arith, length, Memᴰ, get_elem?-concat, get_elem?-append_left, get_elem?-append_length,
  ◌≢◌, eq_of_some, List,
}
use catalyst_build_executor.Domain.{BuildStep, FileSystem, ok}
use catalyst_build_executor.Graph.{BuildGraph, empty_graph, add_step}
use catalyst_build_executor.Graph.Ids.{edges_of, step_of, IsIndexed}
use catalyst_build_executor.Graph.Insert.{prerequisites, Inserted}
use catalyst_build_executor.Graph.Step.{add_step-Inserted}

-- Some step lists the path of node `i` among its prerequisites, and its output is node `j`.
pub record IsListed (g : BuildGraph) (i j : ℕ) : Type 0 where
  pub id : ℕ
  pub step : BuildStep
  pub path : Bytes
  pub at : get_elem? g.steps id ≡ some step
  pub from : lookup path g.index ≡ some i
  pub to : lookup step.output g.index ≡ some j
  pub needs : Memᴰ path (prerequisites step)

-- The step at index `s` makes the file of node `i`.
pub record IsMadeBy (g : BuildGraph) (i s : ℕ) : Type 0 where
  pub step : BuildStep
  pub at : get_elem? g.steps s ≡ some step
  pub to : lookup step.output g.index ≡ some i

pub record IsGraph (g : BuildGraph) : Type 0 where
  pub indexed : IsIndexed g.nodes g.index
  pub known :
      (s : ℕ) (b : BuildStep) (p : Bytes)
      → get_elem? g.steps s ≡ some b
      → Memᴰ p (b.output ∷ prerequisites b)
      → (i : ℕ) × (lookup p g.index ≡ some i)
  pub edges : (i j : ℕ) → Memᴰ j (edges_of g.nodes i) ↔ IsListed g i j
  pub made : (i s : ℕ) → (step_of g.nodes i ≡ some s) ↔ IsMadeBy g i s

pub empty_graph-IsGraph : IsGraph empty_graph
unfolding lookup
empty_graph-IsGraph = record {
  indexed = record { sound = λ p i e. cc; complete = λ p i e. cc };
  known = λ s b p e m. cc;
  edges = λ i j. (λ m. absurd (Memᴰ.not-nil m), λ l. cc (l.at));
  made = λ i s. (λ e. cc, λ l. cc (l.at));
}

-- The files that are kept mapped play no part.
pub IsGraph-with :
    (g : BuildGraph) (rs : List Bytes) → IsGraph g → IsGraph (record g { resources = rs })
IsGraph-with g rs v = record {
  indexed = v.indexed;
  known = v.known;
  edges = λ i j. (
    λ m.
        let l = (v.edges i j).0 m in
        record {
          id = l.id;
          step = l.step;
          path = l.path;
          at = l.at;
          from = l.from;
          to = l.to;
          needs = l.needs;
        },
    λ l. (v.edges i j).1 (record {
      id = l.id;
      step = l.step;
      path = l.path;
      at = l.at;
      from = l.from;
      to = l.to;
      needs = l.needs;
    }),
  );
  made = λ i s. (
    λ e. let l = (v.made i s).0 e in record { step = l.step; at = l.at; to = l.to },
    λ l. (v.made i s).1 (record { step = l.step; at = l.at; to = l.to }),
  );
}

module _ {b : BuildStep} {out : ℕ} {g h : BuildGraph} (v : IsGraph g) (n : Inserted b out g h) where
  -- The node of a path that the old graph knows is the same in the new one.
  same_node :
      (p : Bytes) (i : ℕ)
      → (i' : ℕ) × (lookup p g.index ≡ some i')
      → lookup p h.index ≡ some i
      → lookup p g.index ≡ some i
  same_node p i (i', old) new = cc (old, new, n.kept p i' old)

  old_or_new :
      (s : ℕ) (c : BuildStep)
      → get_elem? h.steps s ≡ some c
      → (get_elem? g.steps s ≡ some c) ⊎ (s ≡ length g.steps) × (c ≡ b)
  old_or_new s c e = ground (arith, n.steps, get_elem?-concat g.steps b s)

  old_step : (s : ℕ) (c : BuildStep) → get_elem? g.steps s ≡ some c → get_elem? h.steps s ≡ some c
  old_step s c e = rw n.steps (get_elem?-append_left g.steps (b ∷ []) s e)

  new_step : get_elem? h.steps (length g.steps) ≡ some b
  new_step = rw n.steps (get_elem?-append_length g.steps b)

  known_after :
      (s : ℕ) (c : BuildStep) (p : Bytes)
      → get_elem? h.steps s ≡ some c
      → Memᴰ p (c.output ∷ prerequisites c)
      → (i : ℕ) × (lookup p h.index ≡ some i)
  known_after s c p e m = elim (old_or_new s c e) [
    | inl old ↦ let (i, l) = v.known s c p old m in (i, n.kept p i l)
    | inr (_, is_new) ↦ known_new p (subst (λ x. Memᴰ p (x.output ∷ prerequisites x)) is_new m)
  ]
    where
      known_new :
          (q : Bytes) → Memᴰ q (b.output ∷ prerequisites b) → (i : ℕ) × (lookup q h.index ≡ some i)
      known_new q m' = elim (Memᴰ.cases_cons m') [
        | inl is_output ↦ (out, ap (λ x. lookup x h.index) is_output ∙ n.output)
        | inr needs ↦ n.found q needs
      ]

  edges_sound : (i j : ℕ) → Memᴰ j (edges_of h.nodes i) → IsListed h i j
  edges_sound i j m = elim ((n.edges i j).0 m) [
    | inl old ↦
        let l = (v.edges i j).0 old in
        record {
          id = l.id;
          step = l.step;
          path = l.path;
          at = old_step l.id l.step l.at;
          from = n.kept l.path i l.from;
          to = n.kept l.step.output j l.to;
          needs = l.needs;
        }
    | inr (to_out, (p, needs, from)) ↦ record {
      id = length g.steps;
      step = b;
      path = p;
      at = new_step;
      from = from;
      to = n.output ∙ ap some (sym to_out);
      needs = needs;
    }
  ]

  edges_complete : (i j : ℕ) → IsListed h i j → Memᴰ j (edges_of h.nodes i)
  edges_complete i j l = elim (old_or_new l.id l.step l.at) [
    | inl old ↦
        let listed : IsListed g i j = record {
          id = l.id;
          step = l.step;
          path = l.path;
          at = old;
          from = same_node l.path i (v.known l.id l.step l.path old (Memᴰ.tail l.needs)) l.from;
          to =
              same_node l.step.output j (v.known l.id l.step l.step.output old (Memᴰ.head refl))
                l.to;
          needs = l.needs;
        } in
        (n.edges i j).1 (inl ((v.edges i j).1 listed))
    | inr (_, is_new) ↦ (n.edges i j).1 (
        inr (
          cc (n.output, l.to, is_new),
          (l.path, subst (λ x. Memᴰ l.path (prerequisites x)) is_new l.needs, l.from),
        ))
  ]

  made_out : (i : ℕ) → i ≡ out → step_of h.nodes i ≡ some (length g.steps)
  made_out i e = ground (arith, n.producers i)

  made_other : (i : ℕ) → i ≢ out → step_of h.nodes i ≡ step_of g.nodes i
  made_other i e = ground (arith, n.producers i)

  made_sound : (i s : ℕ) → step_of h.nodes i ≡ some s → IsMadeBy h i s
  made_sound i s e = elim (ℕ_discrete i out) [
    | yes at_out ↦
        let s_eq : length g.steps ≡ s = cc (made_out i at_out, e) in
        record {
          step = b;
          at = subst (λ k. get_elem? h.steps k ≡ some b) s_eq new_step;
          to = n.output ∙ ap some (sym at_out);
        }
    | no other ↦
        let l = (v.made i s).0 (sym (made_other i other) ∙ e) in
        record { step = l.step; at = old_step s l.step l.at; to = n.kept l.step.output i l.to }
  ]

  made_complete : (i s : ℕ) → IsMadeBy h i s → step_of h.nodes i ≡ some s
  made_complete i s l = elim (old_or_new s l.step l.at) [
    | inr (is_last, is_new) ↦ made_out i (cc (n.output, l.to, is_new)) ∙ ap some (sym is_last)
    | inl old ↦
        let m : step_of g.nodes i ≡ some s = (v.made i s).1 (record {
          step = l.step;
          at = old;
          to = same_node l.step.output i (v.known s l.step l.step.output old (Memᴰ.head refl)) l.to;
        }) in
        made_other i (λ at_out. cc (n.fresh, m, at_out)) ∙ m
  ]

  Inserted-IsGraph : IsGraph h
  Inserted-IsGraph = record {
    indexed = n.indexed;
    known = known_after;
    edges = λ i j. (edges_sound i j, edges_complete i j);
    made = λ i s. (made_sound i s, made_complete i s);
  }

-- `add_step` keeps the invariant: afterwards too the index and the nodes agree, there is an
-- edge exactly where a step lists a prerequisite, and a node is marked as produced exactly by the step
-- whose output it is.
pub add_step-IsGraph :
    (fs : FileSystem) (step : BuildStep) (g : BuildGraph) (id : ℕ) (h : BuildGraph)
    → IsGraph g
    → step.depfile_inputs ≡ none
    → add_step fs step g ≡ ok (id, h)
    → IsGraph h
add_step-IsGraph fs step g id h v no_names e =
    Inserted-IsGraph v (add_step-Inserted fs step g v.indexed id h no_names e).1.1

-- No two steps of such a graph make the same file.
pub IsGraph-unique_producer :
    (g : BuildGraph) (s t : ℕ) (b c : BuildStep)
    → IsGraph g
    → get_elem? g.steps s ≡ some b
    → get_elem? g.steps t ≡ some c
    → b.output ≡ c.output
    → s ≡ t
IsGraph-unique_producer g s t b c v at_s at_t same =
    let (i, l) = v.known s b b.output at_s (Memᴰ.head refl) in
    let m = (v.made i s).1 (record { step = b; at = at_s; to = l }) in
    let m' =
      (v.made i t).1
        (record { step = c; at = at_t; to = ap (λ p. lookup p g.index) (sym same) ∙ l }) in
    eq_of_some (sym m ∙ m')
