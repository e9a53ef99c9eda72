-- ===== src/Tests/Staleness.antt =====
-- The theorem on the steps that are not run again, on a link whose object is rebuilt meanwhile.

use catalyst_build_executor.Base.{
  ℕ, ◌≡◌, refl, ap, true, false, Bytes, [], ◌∷◌, ◌++◌, Option, none, some, if◌then◌else◌, Memᴰ,
  codes, bytes_eq, bytes_eq_iff,
}
use catalyst_build_executor.Domain.{ok}
use catalyst_build_executor.Graph.{Node, BuildGraph}
use catalyst_build_executor.Commands.{Files}
use catalyst_build_executor.Process.{Launcher, idle, process_known}
use catalyst_build_executor.Rebuild.{
  PathOrder, entry_at, insert_at, get_or_update, changed_since, any_changed, inputs_changed,
  needs_rebuild,
}
use catalyst_build_executor.Rebuild.Remember.{IsStrict}
use catalyst_build_executor.WorkEstimate.{bytes_less}
use catalyst_build_executor.WorkEstimate.Least.{
  bytes_less_irrefl, bytes_less_trans, bytes_less_conn,
}
use catalyst_build_executor.Execute.{Counted, count_step, count_nodes, prepare}
use catalyst_build_executor.Execute.Stale.{process_known-stale}
use catalyst_build_executor.Tests.Building.{link, tools}

abbrev by_bytes : PathOrder
by_bytes = record { less = bytes_less; same = bytes_eq }

by_bytes-IsStrict : IsStrict by_bytes
by_bytes-IsStrict = record {
  irrefl = bytes_less_irrefl;
  trans = bytes_less_trans;
  conn = λ p q h h'. (bytes_eq_iff p q).1 (bytes_less_conn p q h h');
  same_less = λ p q h x.
      let e = (bytes_eq_iff p q).0 h in (ap (λ y. bytes_less y x) e, ap (λ y. bytes_less x y) e);
}

abbrev app : Node
app = record { path = codes "app"; out_edges = []; step_id = some 0 }

abbrev linked : BuildGraph
linked = record {
  nodes = record { path = codes "a.o"; out_edges = 1 ∷ []; step_id = none } ∷ app ∷ [];
  steps = link ∷ [];
  index = (codes "a.o", 0) ∷ (codes "app", 1) ∷ [];
  resources = [];
}

-- The program is newer than its object, until the object is rebuilt.
abbrev times : (object : ℕ) → Bytes → Option ℕ
times object path =
    if bytes_eq path (codes "app")
    then some 5
    else if bytes_eq path (codes "a.o")
    then some object
    else some 3

abbrev later : Files
later = record { exists = λ p. true; mtime = times 9; rsp_path = λ p. p ++ codes ".rsp" }

abbrev counted : Counted
counted = record {
  steps_to_build = 0;
  final_output_name = codes "app";
  cache =
      record { path = codes "a.o"; time = some 3 }
      ∷ record { path = codes "m"; time = some 3 }
      ∷ [];
}

unfoldable counting : Unit {0}
unfolding prepare count_nodes count_step needs_rebuild inputs_changed any_changed changed_since
    get_or_update entry_at insert_at bytes_less bytes_eq
counting = tt

prepared : prepare by_bytes (times 3) (λ p. true) (codes "m") [] false linked ≡ ok counted
unfolding counting
prepared = refl

abbrev runner : Launcher
runner options args = (some 0, [])

process_known-stale_example :
    process_known by_bytes later runner (codes "m") tools false [] false link counted.cache
    ≡ ok (idle counted.cache)
unfolding bytes_eq
process_known-stale_example =
    process_known-stale by_bytes by_bytes-IsStrict (times 3)
      (λ p q same. ap (times 3) ((bytes_eq_iff p q).0 same)) (λ p. true) (codes "m") [] false linked
      counted app link later runner tools false prepared (Memᴰ.tail (Memᴰ.head refl)) refl refl refl
      refl
