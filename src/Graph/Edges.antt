-- ===== src/Graph/Edges.antt =====
-- `add_edge` and its loops: which edges the graph has after them.
use mathlib.Core.List.Memᴰ
use catalyst_build_executor.Base.{
  ℕ, ◌≡◌, refl, ap, ◌∙◌, sym, subst, ◌⊎◌, inl, inr, ◌↔◌, ⊎_elim, Bytes, List, [], ◌∷◌, ◌++◌, some,
  modify, lookup, arith, foldl, Memᴰ, Memᴰ-append, get_elem?-modify, Memᴰ-concat, Memᴰ-nil,
}
use catalyst_build_executor.Graph.{Node, BuildGraph, get_or_create_node, push_edge, add_edge}
use catalyst_build_executor.Graph.Ids.{
  path_of, edges_of, step_of, IsIndexed, Created, get_or_create_node-Created,
}

module _ (ns : List Node) (id out : ℕ) (i : ℕ) where
  path_of-push : path_of (modify ns id (push_edge out)) i ≡ path_of ns i
  path_of-push = ground (arith, get_elem?-modify ns id (push_edge out) i)

  step_of-push : step_of (modify ns id (push_edge out)) i ≡ step_of ns i
  step_of-push = ground (arith, get_elem?-modify ns id (push_edge out) i)

  mem-edges_of-push :
      {p : Bytes}
      → path_of ns id ≡ some p
      → (j : ℕ)
      → Memᴰ j (edges_of (modify ns id (push_edge out)) i)
        ↔ (Memᴰ j (edges_of ns i) ⊎ (j ≡ out) × (i ≡ id))
  mem-edges_of-push e j =
      ground (arith, get_elem?-modify ns id (push_edge out) i, Memᴰ-concat j out (edges_of ns i))

-- `g'` is `g` with an edge to `out` from the node of each path of a list, which are created
-- where they are not there.
pub record Extends (out : ℕ) (paths : List Bytes) (g g' : BuildGraph) : Type 0 where
  pub indexed : IsIndexed g'.nodes g'.index
  pub kept : (q : Bytes) (i : ℕ) → lookup q g.index ≡ some i → lookup q g'.index ≡ some i
  pub added :
      (q : Bytes) (i : ℕ) → lookup q g'.index ≡ some i → (lookup q g.index ≡ some i) ⊎ Memᴰ q paths
  pub found : (q : Bytes) → Memᴰ q paths → (i : ℕ) × (lookup q g'.index ≡ some i)
  pub edges :
      (i j : ℕ)
      → Memᴰ j (edges_of g'.nodes i) ↔ (
          Memᴰ j (edges_of g.nodes i)
          ⊎ (j ≡ out) × ((p : Bytes) × Memᴰ p paths × (lookup p g'.index ≡ some i)))
  pub producers : (i : ℕ) → step_of g'.nodes i ≡ step_of g.nodes i

pub Extends-nil : (out : ℕ) (g : BuildGraph) → IsIndexed g.nodes g.index → Extends out [] g g
Extends-nil out g h = record {
  indexed = h;
  kept = λ q i e. e;
  added = λ q i e. inl e;
  found = λ q m. absurd (Memᴰ-nil q m);
  edges = λ i j. (inl, ⊎_elim (λ m. m) (λ new. absurd (Memᴰ-nil new.1.0 new.1.1)));
  producers = λ i. refl;
}

module _ (out : ℕ) (path : Bytes) (g : BuildGraph) (id : ℕ) (g' : BuildGraph)
    (c : Created path g id g') where
  push_forward :
      (i j : ℕ)
      → Memᴰ j (edges_of (modify g'.nodes id (push_edge out)) i)
      → Memᴰ j (edges_of g.nodes i)
        ⊎ (j ≡ out) × ((p : Bytes) × Memᴰ p (path ∷ []) × (lookup p g'.index ≡ some i))
  push_forward i j m =
      elim ((mem-edges_of-push g'.nodes id out i (c.indexed.sound path id c.found) j).0 m) [
        | inl old ↦ inl (subst (Memᴰ j) (c.edges i) old)
        | inr (e, at_id) ↦ inr (e, (path, Memᴰ.head refl, c.found ∙ ap some (sym at_id)))
      ]

  push_backward :
      (i j : ℕ)
      → Memᴰ j (edges_of g.nodes i)
        ⊎ (j ≡ out) × ((p : Bytes) × Memᴰ p (path ∷ []) × (lookup p g'.index ≡ some i))
      → Memᴰ j (edges_of (modify g'.nodes id (push_edge out)) i)
  push_backward i j (inl old) =
      (mem-edges_of-push g'.nodes id out i (c.indexed.sound path id c.found) j).1
        (inl (subst (Memᴰ j) (sym (c.edges i)) old))
  push_backward i j (inr (e, (p, m, l))) =
      (mem-edges_of-push g'.nodes id out i (c.indexed.sound path id c.found) j).1
        (inr (e, cc (Memᴰ.eq_of_singleton m, c.found, l)))

  Extends-push :
      Extends out (path ∷ []) g (record g' { nodes = modify g'.nodes id (push_edge out) })
  Extends-push = record {
    indexed = record {
      sound = λ q i e. path_of-push g'.nodes id out i ∙ c.indexed.sound q i e;
      complete = λ q i e. c.indexed.complete q i (sym (path_of-push g'.nodes id out i) ∙ e);
    };
    kept = c.kept;
    added = λ q i e. ⊎_elim inl (λ new. inr (Memᴰ.head new)) (c.added q i e);
    found = λ q m. (id, ap (λ p. lookup p g'.index) (Memᴰ.eq_of_singleton m) ∙ c.found);
    edges = λ i j. (push_forward i j, push_backward i j);
    producers = λ i. step_of-push g'.nodes id out i ∙ c.producers i;
  }

Extends-one :
    (out : ℕ) (path : Bytes) (g : BuildGraph)
    → IsIndexed g.nodes g.index
    → Extends out (path ∷ []) g (add_edge out g path)
unfolding add_edge
Extends-one out path g h =
    Extends-push out path g (get_or_create_node path g).0 (get_or_create_node path g).1
      (get_or_create_node-Created path g h)

module _ {out : ℕ} {ps qs : List Bytes} {g g₁ g₂ : BuildGraph} (a : Extends out ps g g₁)
    (b : Extends out qs g₁ g₂) where
  found_append : (q : Bytes) → Memᴰ q ps ⊎ Memᴰ q qs → (i : ℕ) × (lookup q g₂.index ≡ some i)
  found_append q (inl m) = let (i, e) = a.found q m in (i, b.kept q i e)
  found_append q (inr m) = b.found q m

  edges_backward :
      (i j : ℕ) (p : Bytes)
      → j ≡ out
      → Memᴰ p ps ⊎ Memᴰ p qs
      → lookup p g₂.index ≡ some i
      → Memᴰ j (edges_of g₂.nodes i)
  edges_backward i j p e (inl m) l =
      let (i', l') = a.found p m in
      let same : lookup p g₁.index ≡ some i = cc (l', l, b.kept p i' l') in
      (b.edges i j).1 (inl ((a.edges i j).1 (inr (e, (p, m, same)))))
  edges_backward i j p e (inr m) l = (b.edges i j).1 (inr (e, (p, m, l)))

  edges_forward :
      (i j : ℕ)
      → Memᴰ j (edges_of g₂.nodes i)
      → Memᴰ j (edges_of g.nodes i)
        ⊎ (j ≡ out) × ((p : Bytes) × Memᴰ p (ps ++ qs) × (lookup p g₂.index ≡ some i))
  edges_forward i j m = elim ((b.edges i j).0 m) [
    | inr (e, (p, mp, l)) ↦ inr (e, (p, (Memᴰ-append p ps qs).1 (inr mp), l))
    | inl m' ↦ elim ((a.edges i j).0 m') [
      | inl old ↦ inl old
      | inr (e, (p, mp, l)) ↦ inr (e, (p, (Memᴰ-append p ps qs).1 (inl mp), b.kept p i l))
    ]
  ]

  pub Extends-append : Extends out (ps ++ qs) g g₂
  Extends-append = record {
    indexed = b.indexed;
    kept = λ q i e. b.kept q i (a.kept q i e);
    added = λ q i e. elim (b.added q i e) [
      | inr m ↦ inr ((Memᴰ-append q ps qs).1 (inr m))
      | inl e' ↦ elim (a.added q i e') [
        | inl e'' ↦ inl e''
        | inr m ↦ inr ((Memᴰ-append q ps qs).1 (inl m))
      ]
    ];
    found = λ q m. found_append q ((Memᴰ-append q ps qs).0 m);
    edges = λ i j. (
      edges_forward i j,
      ⊎_elim (λ m. (b.edges i j).1 (inl ((a.edges i j).1 (inl m))))
          (λ (e, (p, m, l)). edges_backward i j p e ((Memᴰ-append p ps qs).0 m) l),
    );
    producers = λ i. b.producers i ∙ a.producers i;
  }

-- The loops over the inputs of a step.
pub add_edges-Extends :
    (out : ℕ) (ps : List Bytes) (g : BuildGraph)
    → IsIndexed g.nodes g.index
    → Extends out ps g (foldl (add_edge out) g ps)
add_edges-Extends out [] g h = Extends-nil out g h
add_edges-Extends out (p ∷ ps) g h =
    let first = Extends-one out p g h in
    Extends-append first (add_edges-Extends out ps (add_edge out g p) first.indexed)
