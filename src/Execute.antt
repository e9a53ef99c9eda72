-- ===== src/Execute.antt =====
-- `Executor::execute` (src/executor.cpp) as a whole: the log file is opened, the steps that are to be
-- rebuilt are counted, and the pool runs, if there is a node. While the steps are
-- counted, the files stay as they are.
pub mod Count
pub mod Outcome
pub mod Stale
use catalyst_build_executor.Base.{
  lt_or_ge, ⊎_elim, sum_of-le_where, ℕ, zero, suc, ◌+◌, ◌-◌, ◌≤◌, ◌<◌, ◌≡◌, refl, sym, ap, ◌∙◌,
  subst, ◌↔◌, ◌⊎◌, inl, inr, ◌≢◌, Bool, true, false, ◌&&◌, ◌||◌, not, Bytes, List, [], ◌∷◌, ◌++◌,
  Option, none, some, map, foldl, length, get_or, modify, replicate, range_from, All, occ, sum_of,
  occ-append, occ_of_mem, mem_of_occ, occ-range_from, sum_of-le, length-sum_of, length-range_from,
  length-append, length-modify, length-replicate, arith, ◌==◌, leb, ltb, if◌then◌else◌, Bool-cases,
  Option-cases, Memᴰ, Memᴰ-append, get_or-modify, List-cases, codes, bytes_eq, bytes_eq_iff, lookup,
  emplace, lookup-emplace, split_on, starts_with, drop, take, substr, find, find_from, get_elem?,
  Memᴰ-cons, Memᴰ-nil, eq_of_some, ==_iff,
}
use catalyst_build_executor.Domain.{
  BuildStep, Error, Result, ok, unexpected, thrown, ◌>>=◌, cannot_open_log,
}
use catalyst_build_executor.Graph.{Node, BuildGraph}
use catalyst_build_executor.Process.{is_empty}
use catalyst_build_executor.Rebuild.{PathOrder, Cache, Clock, needs_rebuild}
use catalyst_build_executor.Scheduler.{Event, System, Run, thread_count, execute_result}
use catalyst_build_executor.Scheduler.Outcome.{IsJoined}
use catalyst_build_executor.Tools.Dot.{step_of_node}

-- `steps_to_build`, `final_output_name` and `stat_cache`
pub record Counted : Type 0 where
  pub steps_to_build : ℕ
  pub final_output_name : Bytes
  pub cache : Cache

abbrev pub nothing_counted : Counted
nothing_counted = record { steps_to_build = 0; final_output_name = []; cache = [] }

-- `if (node.out_edges.empty()) final_output_name = step.output;`
abbrev pub final_name : List ℕ → (output name : Bytes) → Bytes
final_name [] output name = output
final_name (j ∷ out_edges) output name = name

module _ (order : PathOrder) (mtime : Clock) (exists : Bytes → Bool) (build_file : Bytes) where
  -- The body of the loop that counts.
  unfoldable pub count_step : Option BuildStep → Node → Counted → Result Counted
  count_step none node c = ok c
  count_step (some step) node c = needs_rebuild order mtime exists build_file step c.cache >>= λ r.
      ok (record {
        steps_to_build = if r.0 then c.steps_to_build + 1 else c.steps_to_build;
        final_output_name = final_name node.out_edges step.output c.final_output_name;
        cache = r.1;
      })

  unfoldable pub count_nodes : List BuildStep → List Node → Counted → Result Counted
  count_nodes steps [] c = ok c
  count_nodes steps (node ∷ nodes) c =
      count_step (step_of_node steps node) node c >>= λ c'. count_nodes steps nodes c'

  -- What comes before the threads; the log is opened where it has a name.
  unfoldable pub prepare : (build_log_file : Bytes) → (can_log : Bool) → BuildGraph → Result Counted
  prepare build_log_file can_log g =
      if not (is_empty build_log_file) && not can_log
      then unexpected (cannot_open_log build_log_file)
      else count_nodes g.steps g.nodes nothing_counted

  -- The executions, each with the events of its pool and what `execute` returns.
  module _ (build_log_file : Bytes) (can_log : Bool) (estimator : Bytes → ℕ) (keep_going : Bool)
      (jobs hardware : ℕ) (g : BuildGraph) where
    pub data Executes : List Event → Result (Unit {0}) → Type 0 where
      stopped :
          (e : Error) → prepare build_log_file can_log g ≡ unexpected e → Executes [] (unexpected e)
      raised : (e : Error) → prepare build_log_file can_log g ≡ thrown e → Executes [] (thrown e)
      without_nodes :
          (c : Counted)
          → prepare build_log_file can_log g ≡ ok c
          → g.nodes ≡ []
          → Executes [] (ok tt)
      pooled :
          (c : Counted) {tr : List Event} {s : System}
          → prepare build_log_file can_log g ≡ ok c
          → 0 < length g.nodes
          → Run estimator g keep_going (thread_count jobs hardware) tr s
          → IsJoined s
          → Executes tr (execute_result (length g.nodes) s.pool)
