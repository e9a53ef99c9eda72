-- ===== src/Execute/Stale.antt =====
-- The steps that `execute` (src/executor.cpp) found to be up to date when it counted are not run, since
-- the cache of the counting is the one that the workers ask.
use mathlib.Core.List.Memᴰ
use catalyst_build_executor.Base.{
  ◌≡◌, sym, ap, ◌∙◌, subst, inl, inr, Bool, false, ◌&&◌, not, Bytes, List, [], ◌∷◌, Option, none,
  some, if◌then◌else◌, Bool-cases, Memᴰ, eq_of_some,
}
use catalyst_build_executor.Domain.{BuildStep, Result, ok, unexpected, thrown, ◌>>=◌, >>=-eq-ok}
use catalyst_build_executor.Graph.{Node, BuildGraph}
use catalyst_build_executor.Commands.{Files, Toolchain}
use catalyst_build_executor.Process.{is_empty, Launcher, idle, run_step, process_known}
use catalyst_build_executor.Rebuild.{PathOrder, Cache, Clock, IsClockOf, needs_rebuild}
use catalyst_build_executor.Rebuild.Cached.{
  IsTruthful, must_rebuild, IsDecision, needs_rebuild-must_rebuild,
}
use catalyst_build_executor.Rebuild.Remember.{
  IsStrict, Keeps, needs_rebuild-again, needs_rebuild-Keeps,
}
use catalyst_build_executor.Tools.Dot.{step_of_node}
use catalyst_build_executor.Execute.{Counted, nothing_counted, count_step, count_nodes, prepare}

module _ (order : PathOrder) (laws : IsStrict order) (mtime : Clock)
    (one_file : IsClockOf order mtime) (exists : Bytes → Bool) (build_file : Bytes) where
  record IsCounted (found : Option BuildStep) (c c' : Counted) : Type 0 where
    keeps : Keeps order mtime c.cache c'.cache
    truthful : IsTruthful order mtime c'.cache
    asked :
        (step : BuildStep)
        → found ≡ some step
        → must_rebuild order mtime exists build_file step ≡ ok false
        → ◌≡◌ {A = Result (Bool × Cache)}
            (needs_rebuild order mtime exists build_file step c.cache)
            (ok (false, c'.cache))

  IsDecision-ok :
      (d : Result Bool) (r : Bool × Cache)
      → IsDecision order mtime d (ok r)
      → IsTruthful order mtime r.1 × (d ≡ ok false → r.0 ≡ false)
  IsDecision-ok (ok b) r h = (h.1, λ e. cc)
  IsDecision-ok (unexpected e) r h = absurd h
  IsDecision-ok (thrown e) r h = absurd h

  count_step-IsCounted :
      (found : Option BuildStep) (node : Node) (c c' : Counted)
      → IsTruthful order mtime c.cache
      → count_step order mtime exists build_file found node c ≡ ok c'
      → IsCounted found c c'
  unfolding count_step
  count_step-IsCounted none node c c' h e =
      let same : c.cache ≡ c'.cache = cc in
      record {
        keeps = subst (Keeps order mtime c.cache) same (λ p time hit. hit);
        truthful = subst (IsTruthful order mtime) same h;
        asked = λ step none_there. cc;
      }
  count_step-IsCounted (some step) node c c' h e =
      let (r, decided, made) =
        >>=-eq-ok (needs_rebuild order mtime exists build_file step c.cache) _ e in
      let same : r.1 ≡ c'.cache = cc in
      let (honest, answer) = IsDecision-ok (must_rebuild order mtime exists build_file step) r (
        subst (IsDecision order mtime (must_rebuild order mtime exists build_file step)) decided
          (needs_rebuild-must_rebuild order mtime one_file exists build_file step c.cache h)) in
      record {
        keeps =
            subst (Keeps order mtime c.cache) same
              (needs_rebuild-Keeps order laws mtime exists build_file step c.cache r decided);
        truthful = subst (IsTruthful order mtime) same honest;
        asked = λ step' is_step fresh.
            let is_same : step ≡ step' = eq_of_some is_step in
            let no : r.0 ≡ false =
              answer (ap (must_rebuild order mtime exists build_file) is_same ∙ fresh) in
            ap (λ x. needs_rebuild order mtime exists build_file x c.cache) (sym is_same)
            ∙ decided
            ∙ (let e' : ◌≡◌ {A = Bool × Cache} r (false, c'.cache) = cc in ap ok e');
      }

  count_nodes-Keeps :
      (steps : List BuildStep) (nodes : List Node) (c c' : Counted)
      → IsTruthful order mtime c.cache
      → count_nodes order mtime exists build_file steps nodes c ≡ ok c'
      → Keeps order mtime c.cache c'.cache
  unfolding count_nodes
  count_nodes-Keeps steps [] c c' h e =
      let same : c.cache ≡ c'.cache = cc in
      subst (Keeps order mtime c.cache) same (λ p time hit. hit)
  count_nodes-Keeps steps (node ∷ nodes) c c' h e =
      let (c₁, first, rest) =
        >>=-eq-ok (count_step order mtime exists build_file (step_of_node steps node) node c) _ e in
      let counted = count_step-IsCounted (step_of_node steps node) node c c₁ h first in
      λ p time hit.
        count_nodes-Keeps steps nodes c₁ c' counted.truthful rest p time (counted.keeps p time hit)

  -- The step was asked for, and the cache at the end still holds what was read.
  count_nodes-asked :
      (steps : List BuildStep) (nodes : List Node) (c c' : Counted) (node : Node) (step : BuildStep)
      → IsTruthful order mtime c.cache
      → count_nodes order mtime exists build_file steps nodes c ≡ ok c'
      → Memᴰ node nodes
      → step_of_node steps node ≡ some step
      → must_rebuild order mtime exists build_file step ≡ ok false
      → (before after : Cache) × (◌≡◌ {A = Result (Bool × Cache)}
          (needs_rebuild order mtime exists build_file step before)
          (ok (false, after)))
        × Keeps order mtime after c'.cache
  unfolding count_nodes
  count_nodes-asked steps [] c c' node step h e m is_step fresh = absurd (Memᴰ.not-nil m)
  count_nodes-asked steps (first_node ∷ nodes) c c' node step h e m is_step fresh =
      let (c₁, first, rest) =
        >>=-eq-ok
          (count_step order mtime exists build_file (step_of_node steps first_node) first_node c) _
          e in
      let counted = count_step-IsCounted (step_of_node steps first_node) first_node c c₁ h first in
      elim (Memᴰ.cases_cons m) [
        | inl same ↦
            let at_first = ap (step_of_node steps) (sym same) ∙ is_step in
            (
              c.cache,
              c₁.cache,
              counted.asked step at_first fresh,
              count_nodes-Keeps steps nodes c₁ c' counted.truthful rest,
            )
        | inr behind ↦
            count_nodes-asked steps nodes c₁ c' node step counted.truthful rest behind is_step fresh
      ]

  -- A step that was up to date when the steps were counted is not run in this execution while its output
  -- stays as it is, even if its inputs have been rebuilt in the meantime and are newer than the
  -- output: the cache still has their old times. Equal paths name one file, and the order of
  -- paths is a strict total order up to their equality.
  pub process_known-stale :
      (build_log_file : Bytes) (can_log : Bool) (g : BuildGraph) (c : Counted) (node : Node)
      (step : BuildStep) (later : Files) (run : Launcher) (tc : Toolchain) (dry_run : Bool)
      → prepare order mtime exists build_file build_log_file can_log g ≡ ok c
      → Memᴰ node g.nodes
      → step_of_node g.steps node ≡ some step
      → must_rebuild order mtime exists build_file step ≡ ok false
      → later.exists step.output ≡ exists step.output
      → later.mtime step.output ≡ mtime step.output
      → process_known order later run build_file tc dry_run build_log_file can_log step c.cache
        ≡ ok (idle c.cache)
  unfolding prepare process_known
  process_known-stale log can_log g c node step later run tc dry_run prepared m is_step fresh
        same_output same_time =
      let counted : count_nodes order mtime exists build_file g.steps g.nodes nothing_counted
          ≡ ok c =
        elim (Bool-cases (not (is_empty log) && not can_log)) [
          | inl stop ↦ cc (rw stop at prepared)
          | inr go_on ↦ rw go_on at prepared
        ] in
      let (before, after, asked, keeps) =
        count_nodes-asked g.steps g.nodes nothing_counted c node step tt counted m is_step fresh in
      ap
        (λ r. r >>= λ q. ok (
          if q.0
          then run_step order later run build_file tc dry_run log can_log step q.1
          else idle q.1))
        (needs_rebuild-again order laws mtime exists build_file later.mtime later.exists step before
          after c.cache asked keeps same_output same_time)
