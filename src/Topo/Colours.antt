-- ===== src/Topo/Colours.antt =====
-- The colours of the search, and how many nodes are still white.
use mathlib.Core.List.Memᴰ
use mathlib.Core.List.{reverse, reverse-append}
use catalyst_build_executor.Base.{
  ℕ, zero, suc, ◌≤◌, ◌<◌, ◌≡◌, ap, ◌↔◌, List, [], ◌∷◌, length, get_or, modify, arith, Memᴰ,
  Memᴰ-cons, length-modify, if◌then◌else◌, ◌∙◌, ◌⊎◌, ◌==◌, get_or-modify, ◌++◌, inl, inr,
}
use catalyst_build_executor.Graph.{Node}
use catalyst_build_executor.Graph.Ids.{edges_of}
use catalyst_build_executor.Topo.{Status, unstarted, working, finished, Search, status_of, mark}

abbrev pub white : List Status → ℕ
white [] = 0
white (unstarted ∷ cs) = suc (white cs)
white (working ∷ cs) = white cs
white (finished ∷ cs) = white cs

white-start :
    (cs : List Status) (u : ℕ)
    → get_or cs u finished ≡ unstarted
    → suc (white (modify cs u (λ _. working))) ≡ white cs
white-start [] u e = cc
white-start (c ∷ cs) zero e = ground arith
white-start (unstarted ∷ cs) (suc u) e = ap suc (white-start cs u e)
white-start (working ∷ cs) (suc u) e = white-start cs u e
white-start (finished ∷ cs) (suc u) e = white-start cs u e

pub white-finish : (cs : List Status) (u : ℕ) → white (modify cs u (λ _. finished)) ≤ white cs
white-finish [] u = omega arith
white-finish (unstarted ∷ cs) zero = omega arith
white-finish (working ∷ cs) zero = omega arith
white-finish (finished ∷ cs) zero = omega arith
white-finish (unstarted ∷ cs) (suc u) = omega (arith, white-finish cs u)
white-finish (working ∷ cs) (suc u) = white-finish cs u
white-finish (finished ∷ cs) (suc u) = white-finish cs u

pub lt-length_of_unstarted :
    (cs : List Status) (u : ℕ) → get_or cs u finished ≡ unstarted → u < length cs
lt-length_of_unstarted [] u e = cc
lt-length_of_unstarted (c ∷ cs) zero e = omega arith
lt-length_of_unstarted (c ∷ cs) (suc u) e = omega (arith, lt-length_of_unstarted cs u e)

-- Walks along edges, of one edge at least.
pub data Walk (nodes : List Node) : ℕ → ℕ → Type 0 where
  edge : {i j : ℕ} → Memᴰ j (edges_of nodes i) → Walk nodes i j
  step : {i j k : ℕ} → Memᴰ j (edges_of nodes i) → Walk nodes j k → Walk nodes i k

pub Walk-snoc :
    {nodes : List Node} {i j k : ℕ} → Walk nodes i j → Memᴰ k (edges_of nodes j) → Walk nodes i k
Walk-snoc (edge e) e' = step e (edge e')
Walk-snoc (step e w) e' = step e (Walk-snoc w e')

module _ (nodes : List Node) where
  -- Of each node in the list, all edges lead to nodes behind it, and no node comes twice.
  abbrev pub IsTopological : List ℕ → Type 0
  IsTopological [] = Unit
  IsTopological (x ∷ xs) =
      ((j : ℕ) → Memᴰ j (edges_of nodes x) → Memᴰ j xs) × (¬ Memᴰ x xs) × IsTopological xs

  pub record Inv (s : Search) : Type 0 where
    pub size : length s.status ≡ length nodes
    pub listed : (v : ℕ) → v < length nodes → (status_of s v ≡ finished) ↔ Memᴰ v (reverse s.order)
    pub in_range : (v : ℕ) → Memᴰ v (reverse s.order) → v < length nodes
    pub sorted : IsTopological (reverse s.order)

-- What stays as it is, from one state of the search to a later one.
pub record Grows (s t : Search) : Type 0 where
  pub open_before : (w : ℕ) → status_of t w ≡ working → status_of s w ≡ working
  pub open_after : (w : ℕ) → status_of s w ≡ working → status_of t w ≡ working
  pub closed : (w : ℕ) → status_of s w ≡ finished → status_of t w ≡ finished
  pub fewer : white t.status ≤ white s.status

pub Grows-refl : (s : Search) → Grows s s
Grows-refl s = record {
  open_before = λ w e. e;
  open_after = λ w e. e;
  closed = λ w e. e;
  fewer = omega arith;
}

pub Grows-trans : {s t u : Search} → Grows s t → Grows t u → Grows s u
Grows-trans a b = record {
  open_before = λ w e. a.open_before w (b.open_before w e);
  open_after = λ w e. b.open_after w (a.open_after w e);
  closed = λ w e. b.closed w (a.closed w e);
  fewer = omega (arith, a.fewer, b.fewer);
}

pub status_of-mark :
    (s : Search) (u : ℕ) (c : Status) (w : ℕ)
    → u < length s.status
    → status_of (mark u c s) w ≡ (if u == w then c else status_of s w)
status_of-mark s u c w h = get_or-modify s.status u (λ _. c) w finished h

module _ (nodes : List Node) (s : Search) (u : ℕ) (v : Inv nodes s)
    (new : status_of s u ≡ unstarted) where
  u-lt : u < length s.status
  u-lt = lt-length_of_unstarted s.status u new

  -- A node is opened: no node is listed that was not, and there is one white node less.
  pub Inv-open : Inv nodes (mark u working s)
  Inv-open = record {
    size = length-modify s.status u (λ _. working) ∙ v.size;
    listed = λ w h. ground (arith, status_of-mark s u working w u-lt, v.listed w h, new);
    in_range = v.in_range;
    sorted = v.sorted;
  }

  pub white-open : suc (white (mark u working s).status) ≡ white s.status
  white-open = white-start s.status u new

  pub open_now : status_of (mark u working s) u ≡ working
  open_now = ground (arith, status_of-mark s u working u u-lt)

  pub open_cases :
      (w : ℕ) → status_of (mark u working s) w ≡ working → (w ≡ u) ⊎ (status_of s w ≡ working)
  open_cases w e = ground (arith, status_of-mark s u working w u-lt)

-- A node is closed when all its edges lead to listed nodes.
module _ (nodes : List Node) (s : Search) (u : ℕ) (v : Inv nodes s) (busy : status_of s u ≡ working)
    (lt : u < length nodes)
    (done : (j : ℕ)
      → Memᴰ j (edges_of nodes u)
      → status_of s j ≡ finished × (j < length nodes)) where
  abbrev pub closed_search : Search
  closed_search = let s' = mark u finished s in record s' { order = s'.order ++ u ∷ [] }

  reverse-closed : reverse closed_search.order ≡ u ∷ reverse s.order
  reverse-closed = reverse-append s.order (u ∷ [])

  listed_closed :
      (w : ℕ)
      → w < length nodes
      → (status_of closed_search w ≡ finished) ↔ Memᴰ w (u ∷ reverse s.order)
  listed_closed w h = ground (
    arith,
    status_of-mark s u finished w (omega (arith, v.size)),
    v.listed w h,
    Memᴰ-cons w u (reverse s.order),
  )

  pub Inv-close : Inv nodes closed_search
  Inv-close = record {
    size = length-modify s.status u (λ _. finished) ∙ v.size;
    listed = λ w h. rw reverse-closed (listed_closed w h);
    in_range = λ w m. elim (Memᴰ.cases_cons (rw reverse-closed at m)) [
      | inl is_u ↦ rw is_u lt
      | inr old ↦ v.in_range w old
    ];
    sorted = rw reverse-closed (
      λ j m. let (fin, h) = done j m in (v.listed j h).0 fin,
      λ m. cc (busy, (v.listed u lt).1 m),
      v.sorted,
    );
  }
