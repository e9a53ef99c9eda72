-- ===== src/Scheduler/Degrees.antt =====
-- The vector `in_degrees`: how it is filled, and what the loop over the neighbours does to it.
use catalyst_build_executor.Base.{
  ℕ, zero, suc, ◌+◌, ◌<◌, ◌≡◌, refl, ap, ◌∙◌, subst, List, [], ◌∷◌, foldl, length, get_or, modify,
  replicate, range_from, occ, sum_of, length-modify, length-replicate, arith, ◌==◌, if◌then◌else◌,
}
use catalyst_build_executor.Graph.{Node}
use catalyst_build_executor.Graph.Ids.{edges_of}
use catalyst_build_executor.Scheduler.{count_edge, count_node, count_in_degrees}

abbrev pub preds : List Node → ℕ → List ℕ → ℕ
preds nodes v us = sum_of (λ u. occ v (edges_of nodes u)) us

get_or-modify_in :
    (xs : List ℕ) (i : ℕ) (f : ℕ → ℕ) (j : ℕ)
    → j < length xs
    → get_or (modify xs i f) j 0 ≡ (if i == j then f (get_or xs j 0) else get_or xs j 0)
get_or-modify_in [] i f j h = absurd (omega arith)
get_or-modify_in (x ∷ xs) zero f zero h = refl
get_or-modify_in (x ∷ xs) zero f (suc j) h = ground arith
get_or-modify_in (x ∷ xs) (suc i) f zero h = ground arith
get_or-modify_in (x ∷ xs) (suc i) f (suc j) h = ground (arith, get_or-modify_in xs i f j)

length-count_edges : (es d : List ℕ) → length (foldl count_edge d es) ≡ length d
length-count_edges [] d = refl
length-count_edges (e ∷ es) d = length-count_edges es (modify d e suc) ∙ length-modify d e suc

length-count_nodes : (nodes : List Node) (d : List ℕ) → length (foldl count_node d nodes) ≡ length d
length-count_nodes [] d = refl
length-count_nodes (n ∷ ns) d =
    length-count_nodes ns (count_node d n) ∙ length-count_edges n.out_edges d

get_or-count_edges :
    (es d : List ℕ) (v : ℕ)
    → v < length d
    → get_or (foldl count_edge d es) v 0 ≡ get_or d v 0 + occ v es
get_or-count_edges [] d v h = omega arith
get_or-count_edges (e ∷ es) d v h = ground (
  arith,
  get_or-count_edges es (modify d e suc) v (omega (arith, length-modify d e suc)),
  get_or-modify_in d e suc v h,
)

abbrev total : ℕ → List Node → ℕ
total v [] = 0
total v (n ∷ ns) = occ v n.out_edges + total v ns

get_or-count_nodes :
    (nodes : List Node) (d : List ℕ) (v : ℕ)
    → v < length d
    → get_or (foldl count_node d nodes) v 0 ≡ get_or d v 0 + total v nodes
get_or-count_nodes [] d v h = omega arith
get_or-count_nodes (n ∷ ns) d v h = omega (
  arith,
  get_or-count_nodes ns (count_node d n) v (omega (arith, length-count_edges n.out_edges d)),
  get_or-count_edges n.out_edges d v h,
)

total-sum_of :
    (v : ℕ) (nodes : List Node) (k : ℕ) (f : ℕ → ℕ)
    → ((i : ℕ) → f (k + i) ≡ occ v (edges_of nodes i))
    → total v nodes ≡ sum_of f (range_from k (length nodes))
total-sum_of v [] k f h = refl
total-sum_of v (n ∷ ns) k f h = omega (
  arith,
  (let e : f k ≡ occ v n.out_edges = subst (λ j. f j ≡ occ v n.out_edges) (omega arith) (h 0) in e),
  total-sum_of v ns (suc k) f
      (λ i. subst (λ j. f j ≡ occ v (edges_of ns i)) (omega arith) (h (suc i))),
)

get_or-replicate_zero : (n v : ℕ) → get_or {A = ℕ} (replicate n 0) v 0 ≡ 0
get_or-replicate_zero zero v = refl
get_or-replicate_zero (suc n) zero = refl
get_or-replicate_zero (suc n) (suc v) = get_or-replicate_zero n v

-- The vector counts, for each node, the edges that lead to it.
pub get_or-count_in_degrees :
    (nodes : List Node) (v : ℕ)
    → v < length nodes
    → get_or (count_in_degrees nodes) v 0 ≡ preds nodes v (range_from 0 (length nodes))
unfolding count_in_degrees
get_or-count_in_degrees nodes v h = omega (
  arith,
  get_or-count_nodes nodes (replicate (length nodes) 0) v
      (omega (arith, length-replicate {A = ℕ} (length nodes) 0)),
  get_or-replicate_zero (length nodes) v,
  total-sum_of v nodes 0 (λ u. occ v (edges_of nodes u))
      (λ i. ap (λ j. occ v (edges_of nodes j)) (let e : 0 + i ≡ i = omega arith in e)),
)

pub length-count_in_degrees : (nodes : List Node) → length (count_in_degrees nodes) ≡ length nodes
unfolding count_in_degrees
length-count_in_degrees nodes =
    length-count_nodes nodes _ ∙ length-replicate {A = ℕ} (length nodes) 0
