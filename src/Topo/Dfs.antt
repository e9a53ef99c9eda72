-- ===== src/Topo/Dfs.antt =====
-- What one call of `dfs` does: it closes its node and what is below it, or it finds a cycle.
use mathlib.Core.List.Memᴰ
use catalyst_build_executor.Base.{
  ℕ, zero, suc, ◌≤◌, ◌<◌, ◌≡◌, refl, ◌⊎◌, inl, inr, List, [], ◌∷◌, length, arith, Memᴰ,
  if◌then◌else◌, ◌++◌, ◌==◌,
}
use catalyst_build_executor.Domain.{Result, ok, unexpected, thrown, ◌>>=◌, Error, cycle_detected}
use catalyst_build_executor.Graph.{Node}
use catalyst_build_executor.Graph.Ids.{edges_of}
use catalyst_build_executor.Topo.{
  Status, unstarted, working, finished, Search, status_of, mark, node_path, visit_edges, dfs,
}
use catalyst_build_executor.Topo.Colours.{
  white, Walk, edge, Walk-snoc, Inv, Grows, Grows-refl, Grows-trans, Inv-open, white-open, open_now,
  open_cases, closed_search, Inv-close, status_of-mark, lt-length_of_unstarted, white-finish,
}

module _ (nodes : List Node) where
  -- A cycle error names a node that lies on a cycle.
  pub record IsCycle (e : Error) : Type 0 where
    pub at : ℕ
    pub names : e ≡ cycle_detected (node_path nodes at)
    pub walk : Walk nodes at at

  -- The postcondition of a part of the search that starts at `s`: `Q` of the state that it returns.
  abbrev pub Post : (Search → Type 0) → Search → Result Search → Type 0
  Post Q s (ok t) = Inv nodes t × Grows s t × Q t
  Post Q s (unexpected e) = IsCycle e
  Post Q s (thrown e) = ⊥

  pub Post-bind :
      (Q R : Search → Type 0) (s : Search) (r : Result Search) (f : Search → Result Search)
      → Post Q s r
      → ((t : Search) → Inv nodes t → Grows s t → Q t → Post R s (f t))
      → Post R s (r >>= f)
  Post-bind Q R s (ok t) f (i, g, q) next = next t i g q
  Post-bind Q R s (unexpected e) f p next = p
  Post-bind Q R s (thrown e) f p next = absurd p

  pub Post-weaken :
      (Q : Search → Type 0) (s t : Search) (r : Result Search) → Grows s t → Post Q t r → Post Q s r
  Post-weaken Q s t (ok u) g (i, g', q) = (i, Grows-trans g g', q)
  Post-weaken Q s t (unexpected e) g p = p
  Post-weaken Q s t (thrown e) g p = p

  -- What `dfs` promises with a given fuel, below the open nodes.
  abbrev pub Promise : ℕ → (ℕ → Search → Result Search) → Type 0
  Promise fuel d =
      (v : ℕ) (s : Search)
      → Inv nodes s
      → status_of s v ≡ unstarted
      → white s.status ≤ fuel
      → ((w : ℕ) → status_of s w ≡ working → Walk nodes w v)
      → Post (λ t. status_of t v ≡ finished) s (d v s)

  abbrev AllFinished : List ℕ → Search → Type 0
  AllFinished vs t = (j : ℕ) → Memᴰ j vs → status_of t j ≡ finished

  module _ (fuel : ℕ) (d : ℕ → Search → Result Search) (promise : Promise fuel d) (u : ℕ) where
    abbrev Stack : Search → Type 0
    Stack s = (w : ℕ) → status_of s w ≡ working → (w ≡ u) ⊎ Walk nodes w u

    abbrev IsBelow : List ℕ → Type 0
    IsBelow vs = (j : ℕ) → Memᴰ j vs → Memᴰ j (edges_of nodes u)

    -- What the loop over edges promises of the edges that are left.
    abbrev Visits : List ℕ → Type 0
    Visits vs =
        (s : Search)
        → IsBelow vs
        → Inv nodes s
        → white s.status ≤ fuel
        → Stack s
        → Post (AllFinished vs) s (visit_edges nodes d vs s)

    reaches :
        (v : ℕ) (s : Search)
        → Memᴰ v (edges_of nodes u)
        → Stack s
        → (w : ℕ) → status_of s w ≡ working
        → Walk nodes w v
    reaches v s e stack w busy = elim (stack w busy) [
      | inl is_u ↦ rw is_u (edge e)
      | inr walk ↦ Walk-snoc walk e
    ]

    AllFinished-cons :
        (v : ℕ) (vs : List ℕ) (t : Search)
        → status_of t v ≡ finished
        → AllFinished vs t
        → AllFinished (v ∷ vs) t
    AllFinished-cons v vs t e rest j m = elim (Memᴰ.cases_cons m) [
      | inl is_v ↦ rw is_v e
      | inr m' ↦ rest j m'
    ]

    -- Behind a closed node the loop goes on.
    visit_rest :
        (v : ℕ) (vs : List ℕ) (s t : Search)
        → Visits vs
        → IsBelow (v ∷ vs)
        → white s.status ≤ fuel
        → Stack s
        → Inv nodes t
        → Grows s t
        → status_of t v ≡ finished
        → Post (AllFinished (v ∷ vs)) t (visit_edges nodes d vs t)
    visit_rest v vs s t rest below room stack i g e =
        let r =
          rest t (λ j m. below j (Memᴰ.tail m)) i (omega (arith, g.fewer))
            (λ w busy. stack w (g.open_before w busy)) in
        grow (visit_edges nodes d vs t) r
      where
        grow : (x : Result Search) → Post (AllFinished vs) t x → Post (AllFinished (v ∷ vs)) t x
        grow (ok a) (ia, ga, fa) = (ia, ga, AllFinished-cons v vs a (ga.closed v e) fa)
        grow (unexpected a) p = p
        grow (thrown a) p = p

    visit_cons :
        (v : ℕ) (vs : List ℕ) (s : Search) (c : Status)
        → status_of s v ≡ c
        → Visits vs
        → IsBelow (v ∷ vs)
        → Inv nodes s
        → white s.status ≤ fuel
        → Stack s
        → Post (AllFinished (v ∷ vs)) s (visit_edges nodes d (v ∷ vs) s)
    unfolding visit_edges
    visit_cons v vs s unstarted e rest below i room stack =
        rw (e, visit_edges)
          (Post-bind (λ t. status_of t v ≡ finished) (AllFinished (v ∷ vs)) s (d v s) _
            (promise v s i e room (reaches v s (below v (Memᴰ.head refl)) stack))
            (λ t it g fin.
              Post-weaken (AllFinished (v ∷ vs)) s t (visit_edges nodes d vs t) g
                (visit_rest v vs s t rest below room stack it g fin)))
    visit_cons v vs s working e rest below i room stack =
        rw (e, visit_edges)
          (record { at = v; names = refl; walk = reaches v s (below v (Memᴰ.head refl)) stack v e })
    visit_cons v vs s finished e rest below i room stack =
        rw (e, visit_edges) (visit_rest v vs s s rest below room stack i (Grows-refl s) e)

    visit_edges-Post : (vs : List ℕ) → Visits vs
    unfolding visit_edges
    visit_edges-Post [] s below i room stack = (i, Grows-refl s, λ j m. absurd (Memᴰ.not-nil m))
    visit_edges-Post (v ∷ vs) s below i room stack =
        visit_cons v vs s (status_of s v) refl (visit_edges-Post vs) below i room stack

  module _ (in_range : (i j : ℕ) → Memᴰ j (edges_of nodes i) → j < length nodes) where
    module _ (u : ℕ) (s t : Search) (i : Inv nodes s) (new : status_of s u ≡ unstarted)
        (it : Inv nodes t) (g : Grows (mark u working s) t)
        (fin : AllFinished (edges_of nodes u) t) where
      lt : u < length nodes
      lt = omega (arith, lt-length_of_unstarted s.status u new, i.size)

      busy : status_of t u ≡ working
      busy = g.open_after u (open_now nodes s u i new)

      abbrev after : Search
      after = closed_search nodes t u it busy lt (λ j m. (fin j m, in_range u j m))

      status_after : (w : ℕ) → status_of after w ≡ (if u == w then finished else status_of t w)
      status_after w = status_of-mark t u finished w (omega (arith, lt, it.size))

      status_open :
          (w : ℕ) → status_of (mark u working s) w ≡ (if u == w then working else status_of s w)
      status_open w = status_of-mark s u working w (omega (arith, lt, i.size))

      Grows-closed : Grows s after
      Grows-closed = record {
        open_before = λ w e. ground (arith, status_after w, status_open w, g.open_before w);
        open_after = λ w e. ground (arith, status_after w, status_open w, g.open_after w, new);
        closed = λ w e. ground (arith, status_after w, status_open w, g.closed w, new);
        fewer = omega (arith, white-finish t.status u, g.fewer, white-open nodes s u i new);
      }

      close-Post : Post (λ x. status_of x u ≡ finished) s (ok after)
      close-Post = (
        Inv-close nodes t u it busy lt (λ j m. (fin j m, in_range u j m)),
        Grows-closed,
        ground (arith, status_after u),
      )

    abbrev close : ℕ → Search → Result Search
    close u t = let t' = mark u finished t in ok (record t' { order = t'.order ++ u ∷ [] })

    finish :
        (u : ℕ) (s : Search) (r : Result Search)
        → Inv nodes s
        → status_of s u ≡ unstarted
        → Post (AllFinished (edges_of nodes u)) (mark u working s) r
        → Post (λ x. status_of x u ≡ finished) s (r >>= close u)
    finish u s (ok t) i new (it, g, fin) = close-Post u s t i new it g fin
    finish u s (unexpected e) i new p = p
    finish u s (thrown e) i new p = p

    -- With one unit of fuel for each white node, `dfs` closes its node or names a cycle.
    pub dfs-Post : (fuel : ℕ) → Promise fuel (dfs nodes fuel)
    unfolding dfs
    dfs-Post zero v s i new room stack = absurd (omega (arith, white-open nodes s v i new))
    dfs-Post (suc fuel) u s i new room stack =
        finish u s (visit_edges nodes (dfs nodes fuel) (edges_of nodes u) (mark u working s)) i new
          (visit_edges-Post fuel (dfs nodes fuel) (dfs-Post fuel) u (edges_of nodes u)
            (mark u working s) (λ j m. m) (Inv-open nodes s u i new)
            (omega (arith, white-open nodes s u i new))
            (λ w e. elim (open_cases nodes s u i new w e) [
              | inl is_u ↦ inl is_u
              | inr old ↦ inr (stack w old)
            ]))
