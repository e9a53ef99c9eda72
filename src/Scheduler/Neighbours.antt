-- ===== src/Scheduler/Neighbours.antt =====
-- The loop over the neighbours of a node that is done: each edge is taken off the vector, and a
-- node becomes ready exactly when its last edge is.
use catalyst_build_executor.Base.{
  ℕ, zero, suc, ◌+◌, ◌-◌, ◌≤◌, ◌<◌, ◌≡◌, refl, ◌∙◌, Bytes, List, [], ◌∷◌, foldl, length, get_or,
  modify, occ, length-modify, arith, ◌==◌, if◌then◌else◌,
}
use native.Mathlib.Decide.{ℕ_discrete}
use catalyst_build_executor.Graph.{BuildGraph}
use catalyst_build_executor.Scheduler.{Release, queued, push_ready, release_edge}

pub get_or-outside : (d : List ℕ) (v : ℕ) → length d ≤ v → get_or d v 0 ≡ 0
get_or-outside [] v h = refl
get_or-outside (x ∷ d) zero h = absurd (omega arith)
get_or-outside (x ∷ d) (suc v) h = get_or-outside d v (omega arith)

pub get_or-decrement :
    (d : List ℕ) (e v : ℕ)
    → get_or (modify d e (λ x. x - 1)) v 0 ≡ (if e == v then get_or d v 0 - 1 else get_or d v 0)
get_or-decrement [] e v = ground arith
get_or-decrement (x ∷ d) zero zero = refl
get_or-decrement (x ∷ d) zero (suc v) = ground arith
get_or-decrement (x ∷ d) (suc e) zero = ground arith
get_or-decrement (x ∷ d) (suc e) (suc v) = ground (arith, get_or-decrement d e v)

module _ (estimator : Bytes → ℕ) (g : BuildGraph) where
  -- What the loop over `es` does to a node: its degree falls by the edges to it, and it is pushed
  -- once if that brings the degree to 0.
  pub record Released (es : List ℕ) (r r' : Release) (v : ℕ) : Type 0 where
    pub degree : get_or r'.in_degrees v 0 + occ v es ≡ get_or r.in_degrees v 0
    pub kept : occ v es ≡ 0 → occ v (queued r'.ready_queue) ≡ occ v (queued r.ready_queue)
    pub pushed :
        0 < occ v es
        → get_or r'.in_degrees v 0 ≡ 0
        → occ v (queued r'.ready_queue) ≡ occ v (queued r.ready_queue) + 1
    pub waits :
        0 < get_or r'.in_degrees v 0 → occ v (queued r'.ready_queue) ≡ occ v (queued r.ready_queue)

  release_edge-degree :
      (r : Release) (e v : ℕ)
      → get_or (release_edge estimator g r e).in_degrees v 0
        ≡ (if e == v then get_or r.in_degrees v 0 - 1 else get_or r.in_degrees v 0)
  unfolding release_edge
  release_edge-degree r e v = ground (arith, get_or-decrement r.in_degrees e v)

  release_edge-queued :
      (r : Release) (e v : ℕ)
      → occ v (queued (release_edge estimator g r e).ready_queue)
        ≡ (if get_or r.in_degrees e 0 == 1 then (if e == v then 1 else 0) else 0)
          + occ v (queued r.ready_queue)
  unfolding release_edge push_ready
  release_edge-queued r e v = ground arith

  release_edge-size :
      (r : Release) (e : ℕ) → length (release_edge estimator g r e).in_degrees ≡ length r.in_degrees
  unfolding release_edge
  release_edge-size r e = ground (arith, length-modify r.in_degrees e (λ x. x - 1))

  pub release-size :
      (es : List ℕ) (r : Release)
      → length (foldl (release_edge estimator g) r es).in_degrees ≡ length r.in_degrees
  release-size [] r = refl
  release-size (e ∷ es) r = release-size es _ ∙ release_edge-size r e

  pub release-Released :
      (es : List ℕ) (r : Release) (v : ℕ)
      → occ v es ≤ get_or r.in_degrees v 0
      → Released es r (foldl (release_edge estimator g) r es) v
  release-Released [] r v h = record {
    degree = omega arith;
    kept = λ e. refl;
    pushed = λ a b. absurd (omega arith);
    waits = λ a. refl;
  }
  release-Released (e ∷ es) r v h =
      let d = release_edge-degree r e v in
      let q = release_edge-queued r e v in
      let rest = release-Released es (release_edge estimator g r e) v (ground (arith, d)) in
      elim (ℕ_discrete e v) [
        | yes same ↦ elim (ℕ_discrete (get_or r.in_degrees e 0) 1) [
          | yes last ↦ record {
            degree = ground (arith, rest.degree);
            kept = λ a. ground arith;
            pushed = λ a b. ground (arith, rest.kept, rest.degree);
            waits = λ a. ground (arith, rest.degree);
          }
          | no more ↦ record {
            degree = ground (arith, rest.degree);
            kept = λ a. ground arith;
            pushed = λ a b. ground (arith, rest.pushed, rest.degree);
            waits = λ a. ground (arith, rest.waits);
          }
        ]
        | no differ ↦ record {
          degree = ground (arith, rest.degree);
          kept = λ a. ground (arith, rest.kept);
          pushed = λ a b. ground (arith, rest.pushed);
          waits = λ a. ground (arith, rest.waits);
        }
      ]
