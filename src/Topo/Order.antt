-- ===== src/Topo/Order.antt =====
-- `topo_sort` lists every node once, with each edge leading forward, exactly if there is no cycle.
use mathlib.Core.List.Memᴰ
use mathlib.Core.List.{reverse}
use native.Mathlib.Decide.{ℕ_discrete}
use catalyst_build_executor.Base.{
  ℕ, zero, suc, ◌≤◌, ◌<◌, ◌≡◌, refl, ap, subst, ◌↔◌, inl, inr, List, [], ◌∷◌, length, arith, Memᴰ,
  replicate, get_or, range_from, ◌+◌, length-replicate, Bytes, some,
}
use catalyst_build_executor.Domain.{Result, ok, unexpected, thrown, ◌>>=◌}
use catalyst_build_executor.Graph.{Node, BuildGraph}
use catalyst_build_executor.Graph.Ids.{edges_of, path_of}
use catalyst_build_executor.Graph.Invariant.{IsGraph}
use catalyst_build_executor.Topo.{
  Status, unstarted, working, finished, Search, status_of, dfs, visit_roots, fresh_search,
  topo_sort,
}
use catalyst_build_executor.Topo.Colours.{
  white, Walk, edge, step, Inv, IsTopological, Grows, Grows-refl,
}
use catalyst_build_executor.Topo.Dfs.{IsCycle, Post, Post-bind, Post-weaken, Promise, dfs-Post}

abbrev pub EdgesInRange : List Node → Type 0
EdgesInRange nodes = (i j : ℕ) → Memᴰ j (edges_of nodes i) → j < length nodes

module _ (nodes : List Node) (fuel : ℕ) (d : ℕ → Search → Result Search)
    (promise : Promise nodes fuel d) where
  abbrev Finished : List ℕ → Search → Type 0
  Finished vs t = (j : ℕ) → Memᴰ j vs → status_of t j ≡ finished

  abbrev Rests : Search → Type 0
  Rests s = (w : ℕ) → ¬ (status_of s w ≡ working)

  abbrev Rooted : List ℕ → Type 0
  Rooted vs =
      (s : Search)
      → Inv nodes s
      → white s.status ≤ fuel
      → Rests s
      → Post nodes (Finished vs) s (visit_roots nodes d vs s)

  Finished-cons :
      (v : ℕ) (vs : List ℕ) (t : Search)
      → status_of t v ≡ finished
      → Finished vs t
      → Finished (v ∷ vs) t
  Finished-cons v vs t e rest j m = elim (Memᴰ.cases_cons m) [
    | inl is_v ↦ rw is_v e
    | inr m' ↦ rest j m'
  ]

  root_rest :
      (v : ℕ) (vs : List ℕ) (s t : Search)
      → Rooted vs
      → white s.status ≤ fuel
      → Rests s
      → Inv nodes t
      → Grows s t
      → status_of t v ≡ finished
      → Post nodes (Finished (v ∷ vs)) t (visit_roots nodes d vs t)
  root_rest v vs s t rest room quiet i g e =
      grow (visit_roots nodes d vs t)
        (rest t i (omega (arith, g.fewer)) (λ w busy. quiet w (g.open_before w busy)))
    where
      grow : (x : Result Search) → Post nodes (Finished vs) t x → Post nodes (Finished (v ∷ vs)) t x
      grow (ok a) (ia, ga, fa) = (ia, ga, Finished-cons v vs a (ga.closed v e) fa)
      grow (unexpected a) p = p
      grow (thrown a) p = p

  root_cons :
      (v : ℕ) (vs : List ℕ) (s : Search) (c : Status)
      → status_of s v ≡ c
      → Rooted vs
      → Inv nodes s
      → white s.status ≤ fuel
      → Rests s
      → Post nodes (Finished (v ∷ vs)) s (visit_roots nodes d (v ∷ vs) s)
  unfolding visit_roots
  root_cons v vs s unstarted e rest i room quiet =
      rw (e, visit_roots)
        (Post-bind nodes (λ t. status_of t v ≡ finished) (Finished (v ∷ vs)) s (d v s) _
          (promise v s i e room (λ w busy. absurd (quiet w busy)))
          (λ t it g fin.
            Post-weaken nodes (Finished (v ∷ vs)) s t (visit_roots nodes d vs t) g
              (root_rest v vs s t rest room quiet it g fin)))
  root_cons v vs s working e rest i room quiet = absurd (quiet v e)
  root_cons v vs s finished e rest i room quiet =
      rw (e, visit_roots) (root_rest v vs s s rest room quiet i (Grows-refl s) e)

  pub visit_roots-Post : (vs : List ℕ) → Rooted vs
  unfolding visit_roots
  visit_roots-Post [] s i room quiet = (i, Grows-refl s, λ j m. absurd (Memᴰ.not-nil m))
  visit_roots-Post (v ∷ vs) s i room quiet =
      root_cons v vs s (status_of s v) refl (visit_roots-Post vs) i room quiet

get_or-replicate : (n w : ℕ) → get_or (replicate n unstarted) w finished ≡ working → ⊥
get_or-replicate zero w e = cc
get_or-replicate (suc n) zero e = cc
get_or-replicate (suc n) (suc w) e = get_or-replicate n w e

get_or-replicate_finished :
    (n w : ℕ) → w < n → get_or (replicate n unstarted) w finished ≡ finished → ⊥
get_or-replicate_finished zero w h e = absurd (omega arith)
get_or-replicate_finished (suc n) zero h e = cc
get_or-replicate_finished (suc n) (suc w) h e = get_or-replicate_finished n w (omega arith) e

white-replicate : (n : ℕ) → white (replicate n unstarted) ≡ n
white-replicate zero = refl
white-replicate (suc n) = ap suc (white-replicate n)

Memᴰ-range_from : (n i v : ℕ) → i ≤ v → v < i + n → Memᴰ v (range_from i n)
Memᴰ-range_from zero i v h l = absurd (omega arith)
Memᴰ-range_from (suc n) i v h l = elim (ℕ_discrete v i) [
  | yes e ↦ Memᴰ.head e
  | no e ↦ Memᴰ.tail (Memᴰ-range_from n (suc i) v (omega arith) (omega arith))
]

module _ (nodes : List Node) where
  fresh_search-Inv : Inv nodes (fresh_search nodes)
  fresh_search-Inv = record {
    size = length-replicate (length nodes) unstarted;
    listed = λ v h. (
      λ e. absurd (get_or-replicate_finished (length nodes) v h e),
      λ m. absurd (Memᴰ.not-nil m),
    );
    in_range = λ v m. absurd (Memᴰ.not-nil m);
    sorted = tt;
  }

  -- What the result of the sort says.
  abbrev pub Sorts : Result (List ℕ) → Type 0
  Sorts (ok order) = IsTopological nodes order × ((v : ℕ) → Memᴰ v order ↔ (v < length nodes))
  Sorts (unexpected e) = IsCycle nodes e
  Sorts (thrown e) = ⊥

  Post-all :
      (r : Result Search)
      → Post nodes
          (λ t. (j : ℕ) → Memᴰ j (range_from 0 (length nodes)) → status_of t j ≡ finished)
          (fresh_search nodes)
          r
      → Post nodes
          (λ t. (v : ℕ) → v < length nodes → status_of t v ≡ finished)
          (fresh_search nodes)
          r
  Post-all (ok t) (i, g, fin) =
      (i, g, λ v h. fin v (Memᴰ-range_from (length nodes) 0 v (omega arith) (omega arith)))
  Post-all (unexpected e) p = p
  Post-all (thrown e) p = p

  Post-Sorts :
      (r : Result Search)
      → Post nodes
          (λ t. (v : ℕ) → v < length nodes → status_of t v ≡ finished)
          (fresh_search nodes)
          r
      → Sorts (r >>= λ s. ok (reverse s.order))
  Post-Sorts (ok t) (i, g, fin) = (i.sorted, λ v. (i.in_range v, λ h. (i.listed v h).0 (fin v h)))
  Post-Sorts (unexpected e) p = p
  Post-Sorts (thrown e) p = p

-- The sort returns: an order in which each node stands once and every edge leads from an earlier to a
-- later node, or an error that names a node on a cycle. Every edge of the graph leads to a node.
pub topo_sort-Sorts : (g : BuildGraph) → EdgesInRange g.nodes → Sorts g.nodes (topo_sort g)
unfolding topo_sort
topo_sort-Sorts g in_range = Post-Sorts g.nodes _ (
    Post-all g.nodes _ (
      visit_roots-Post g.nodes (length g.nodes) (dfs g.nodes (length g.nodes))
        (dfs-Post g.nodes in_range (length g.nodes)) (range_from 0 (length g.nodes))
        (fresh_search g.nodes) (fresh_search-Inv g.nodes)
        (omega (arith, white-replicate (length g.nodes)))
        (λ w e. get_or-replicate (length g.nodes) w e)))

module _ (nodes : List Node) where
  edge_stays :
      (xs : List ℕ) (i j : ℕ)
      → IsTopological nodes xs
      → Memᴰ i xs
      → Memᴰ j (edges_of nodes i)
      → Memᴰ j xs
  edge_stays [] i j t m e = absurd (Memᴰ.not-nil m)
  edge_stays (x ∷ xs) i j t m e = elim (Memᴰ.cases_cons m) [
    | inl is_x ↦ Memᴰ.tail (t.0 j (rw is_x at e))
    | inr m' ↦ Memᴰ.tail (edge_stays xs i j t.2 m' e)
  ]

  walk_stays :
      {i k : ℕ} (xs : List ℕ) → IsTopological nodes xs → Memᴰ i xs → Walk nodes i k → Memᴰ k xs
  walk_stays {i} {k} xs t m (edge e) = edge_stays xs i k t m e
  walk_stays {i} {k} xs t m (step {j} e w) = walk_stays xs t (edge_stays xs i j t m e) w

  -- From the first node of a list every walk goes on behind it.
  walk_leaves : {x k : ℕ} (xs : List ℕ) → IsTopological nodes (x ∷ xs) → Walk nodes x k → Memᴰ k xs
  walk_leaves {x} {k} xs t (edge e) = t.0 k e
  walk_leaves {x} {k} xs t (step {j} e w) = walk_stays xs t.2 (t.0 j e) w

  pub IsTopological-acyclic :
      (xs : List ℕ) (i : ℕ) → IsTopological nodes xs → Memᴰ i xs → ¬ Walk nodes i i
  IsTopological-acyclic [] i t m w = Memᴰ.not-nil m
  IsTopological-acyclic (x ∷ xs) i t m w = elim (Memᴰ.cases_cons m) [
    | inl is_x ↦ t.1 (walk_leaves xs t (subst (λ k. Walk nodes k k) is_x w))
    | inr m' ↦ IsTopological-acyclic xs i t.2 m' w
  ]

module _ (g : BuildGraph) (in_range : EdgesInRange g.nodes) where
  Walk-end_lt : {i k : ℕ} → Walk g.nodes i k → k < length g.nodes
  Walk-end_lt {i} {k} (edge m) = in_range i k m
  Walk-end_lt (step m w) = Walk-end_lt w

  topo_sort-eq-ok : ((i : ℕ) → ¬ Walk g.nodes i i) → (order : List ℕ) × (topo_sort g ≡ ok order)
  topo_sort-eq-ok acyclic = go (topo_sort g) refl (topo_sort-Sorts g in_range)
    where
      go :
          (r : Result (List ℕ))
          → topo_sort g ≡ r
          → Sorts g.nodes r
          → (order : List ℕ) × (topo_sort g ≡ ok order)
      go (ok order) e s = (order, e)
      go (unexpected _) e s = absurd (acyclic s.at s.walk)
      go (thrown _) e s = absurd s

  topo_sort-acyclic : (order : List ℕ) (i : ℕ) → topo_sort g ≡ ok order → ¬ Walk g.nodes i i
  topo_sort-acyclic order i e w =
      let (sorted, all) = subst (Sorts g.nodes) e (topo_sort-Sorts g in_range) in
      IsTopological-acyclic g.nodes order i sorted ((all i).1 (Walk-end_lt w)) w

  -- The sort succeeds exactly on the graphs without a cycle. Every edge leads to a node.
  pub topo_sort_iff : ((order : List ℕ) × (topo_sort g ≡ ok order)) ↔ ((i : ℕ) → ¬ Walk g.nodes i i)
  topo_sort_iff = (λ (order, e) i. topo_sort-acyclic order i e, topo_sort-eq-ok)

pub lt-length_of_path :
    (nodes : List Node) (i : ℕ) {p : Bytes} → path_of nodes i ≡ some p → i < length nodes
lt-length_of_path [] i e = cc
lt-length_of_path (n ∷ nodes) zero e = omega arith
lt-length_of_path (n ∷ nodes) (suc i) e = omega (arith, lt-length_of_path nodes i e)

-- In a graph that `add_step` built every edge leads to a node.
pub IsGraph-EdgesInRange : (g : BuildGraph) → IsGraph g → EdgesInRange g.nodes
IsGraph-EdgesInRange g v i j m =
    let l = (v.edges i j).0 m in lt-length_of_path g.nodes j (v.indexed.sound l.step.output j l.to)
