-- ===== src/Rebuild.antt =====
-- `StatCache` (src/executor_stat_cache.cpp) and `Executor::needs_rebuild` (src/executor.cpp). The
-- cache is used by one thread at a time here; `lower_bound` finds the place of a path in a sorted
-- vector. A path is the text it was made of; the order and the equality of paths are those of
-- `std::filesystem::path`, parameters of the model.
pub mod Cached
pub mod Remember
use mathlib.Core.Option
use catalyst_build_executor.Base.{
  ℕ, Bool, true, false, ◌≡◌, ◌↔◌, Bytes, List, [], ◌∷◌, ◌++◌, Option, none, some, leb,
  if◌then◌else◌,
}
use catalyst_build_executor.Domain.{BuildStep, Result, ok, thrown, cannot_map}
use catalyst_build_executor.Graph.{or_empty}

-- `operator<` and `operator==` of paths. Different texts can be equal as paths (`a//b` and `a/b`).
pub record PathOrder : Type 0 where
  pub less : Bytes → Bytes → Bool
  pub same : Bytes → Bytes → Bool

-- `time` is `none` where the entry holds an error code.
pub record Entry : Type 0 where
  pub path : Bytes
  pub time : Option ℕ

abbrev pub Cache : Type 0
Cache = List Entry

-- What `last_write_time` reports.
abbrev pub Clock : Type 0
Clock = Bytes → Option ℕ

-- Equal paths name one file.
abbrev pub IsClockOf : PathOrder → Clock → Type 0
IsClockOf order mtime = (p q : Bytes) → order.same p q ≡ true → mtime p ≡ mtime q

-- `if (check) return true;` and then what follows, with the cache that the check left.
abbrev pub or_else : Bool × Cache → (Cache → Bool × Cache) → Bool × Cache
or_else (true, cache) rest = (true, cache)
or_else (false, cache) rest = rest cache

module _ (order : PathOrder) (mtime : Clock) where
  open order use {less, same}

  -- The entry at `lower_bound(cache, p)`.
  unfoldable pub entry_at : Bytes → Cache → Option Entry
  entry_at p [] = none
  entry_at p (e ∷ es) = if less e.path p then entry_at p es else some e

  -- `cache.insert(lower_bound(cache, p), e)`
  unfoldable pub insert_at : Bytes → Entry → Cache → Cache
  insert_at p new [] = new ∷ []
  insert_at p new (e ∷ es) = if less e.path p then e ∷ insert_at p new es else new ∷ e ∷ es

  abbrev pub refresh : Bytes → Cache → Option ℕ × Cache
  refresh p cache = (mtime p, insert_at p (record { path = p; time = mtime p }) cache)

  unfoldable pub get_or_update : Bytes → Cache → Option ℕ × Cache
  get_or_update p cache = elim (entry_at p cache) [
    | none ↦ refresh p cache
    | some e ↦ if same e.path p then (e.time, cache) else refresh p cache
  ]

  -- A missing input counts as changed.
  abbrev pub is_changed : Option ℕ → ℕ → Bool
  is_changed none output_time = true
  is_changed (some input_time) output_time = leb output_time input_time

  unfoldable pub changed_since : Bytes → ℕ → Cache → Bool × Cache
  changed_since input output_time cache =
      let (time, cache') = get_or_update input cache in (is_changed time output_time, cache')

  -- A loop over inputs that returns true at the first changed one.
  unfoldable pub any_changed : List Bytes → ℕ → Cache → Bool × Cache
  any_changed [] output_time cache = (false, cache)
  any_changed (p ∷ ps) output_time cache =
      or_else (changed_since p output_time cache) (λ cache'. any_changed ps output_time cache')

  -- The checks behind the time of the output: the manifest, the depfile's names, the opaque and
  -- the plain inputs.
  unfoldable pub inputs_changed : (build_file : Bytes) → BuildStep → ℕ → Cache → Bool × Cache
  inputs_changed build_file step output_time cache =
      or_else (changed_since build_file output_time cache) (λ c₁.
        or_else (any_changed (or_empty step.depfile_inputs) output_time c₁) (λ c₂.
          or_else (any_changed (or_empty step.opaque_inputs) output_time c₂)
            (λ c₃. any_changed step.parsed_inputs output_time c₃)))

  -- `last_write_time` without an error code throws where there is none.
  unfoldable pub needs_rebuild :
      (exists : Bytes → Bool) → (build_file : Bytes) → BuildStep → Cache → Result (Bool × Cache)
  needs_rebuild exists build_file step cache =
      if exists step.output
      then elim (mtime step.output) [
        | none ↦ thrown (cannot_map step.output)
        | some output_time ↦ ok (inputs_changed build_file step output_time cache)
      ]
      else ok (true, cache)
