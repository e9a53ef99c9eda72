-- ===== src/Tools/Dot.antt =====
-- `Executor::emit_graph` (src/executor.cpp): the DOT text of the graph, with the nodes coloured by what
-- would be rebuilt. The loop passes the cache of file times from node to node. The result is the text
-- that was printed, up to an exception if there is one, and how the function ends. No `step_id`
-- outside the steps is followed.
pub mod Text
use catalyst_build_executor.Base.{
  lt_or_ge, ⊎_elim, sum_of-le_where, ℕ, zero, suc, ◌+◌, ◌-◌, ◌≤◌, ◌<◌, ◌≡◌, refl, sym, ap, ◌∙◌,
  subst, ◌↔◌, ◌⊎◌, inl, inr, ◌≢◌, Bool, true, false, ◌&&◌, ◌||◌, not, Bytes, List, [], ◌∷◌, ◌++◌,
  Option, none, some, map, foldl, length, get_or, modify, replicate, range_from, All, occ, sum_of,
  occ-append, occ_of_mem, mem_of_occ, occ-range_from, sum_of-le, length-sum_of, length-range_from,
  length-append, length-modify, length-replicate, arith, ◌==◌, leb, ltb, if◌then◌else◌, Bool-cases,
  Option-cases, Memᴰ, Memᴰ-append, get_or-modify, List-cases, codes, bytes_eq, bytes_eq_iff, lookup,
  emplace, lookup-emplace, split_on, starts_with, drop, take, substr, find, find_from, get_elem?,
  Memᴰ-cons, Memᴰ-nil, eq_of_some, ==_iff,
}
use catalyst_build_executor.Domain.{BuildStep, Result, ok, unexpected, thrown, ◌>>=◌}
use catalyst_build_executor.Graph.{Node, BuildGraph}
use catalyst_build_executor.Chars.{decimal}
use catalyst_build_executor.Rebuild.{PathOrder, Cache, Clock, needs_rebuild}
use catalyst_build_executor.Rebuild.Cached.{
  IsTruthful, must_rebuild, IsDecision_cases, needs_rebuild-must_rebuild,
}

abbrev pub prologue : Bytes
prologue =
    codes "digraph catalyst_build {\n"
    ++ codes "  rankdir=LR;\n"
    ++ codes "  node [shape=box, style=filled, fontname=\"Helvetica\"];\n"

-- `0.9 0.9 0.9` is for a file that no step makes.
abbrev pub source_color : Bytes
source_color = codes "0.9 0.9 0.9"

abbrev pub rebuild_color : Bool → Bytes
rebuild_color b = if b then codes "green" else codes "white"

abbrev pub node_line : ℕ → Bytes → (color : Bytes) → Bytes
node_line i path color =
    codes "  n"
    ++ (decimal i
        ++ (codes " [label=\""
            ++ (path ++ (codes "\", fillcolor=\"" ++ (color ++ codes "\"];\n")))))

abbrev pub edge_lines : ℕ → List ℕ → Bytes
edge_lines i [] = []
edge_lines i (target_idx ∷ targets) =
    codes "  n"
    ++ (decimal i
        ++ (codes " -> n" ++ (decimal target_idx ++ (codes ";\n" ++ edge_lines i targets))))

-- What the body of the loop prints for a node.
abbrev pub node_text : ℕ → Node → (color : Bytes) → Bytes
node_text i node color = node_line i node.path color ++ edge_lines i node.out_edges

abbrev pub step_of_node : List BuildStep → Node → Option BuildStep
step_of_node steps node = elim node.step_id [ none ↦ none | some id ↦ get_elem? steps id ]

-- What was printed, and how the printing ended.
abbrev pub Printed : Type 0
Printed = Bytes × Result (Unit {0})

-- The body of the loop, with what follows: an exception in the choice of the colour ends it.
abbrev pub print_after : Result (Bytes × Cache) → ℕ → Node → (Cache → Printed) → Printed
print_after (ok r) i node rest = (node_text i node r.0 ++ (rest r.1).0, (rest r.1).1)
print_after (unexpected e) i node rest = ([], unexpected e)
print_after (thrown e) i node rest = ([], thrown e)

-- What stands around the loop; the last brace is printed when the loop has come to its end.
abbrev pub closing : Result (Unit {0}) → Bytes
closing (ok u) = codes "}\n"
closing (unexpected e) = []
closing (thrown e) = []

abbrev pub enclose : Printed → Printed
enclose printed = (prologue ++ (printed.0 ++ closing printed.1), printed.1)

module _ (order : PathOrder) (mtime : Clock) (exists : Bytes → Bool) (build_file : Bytes) where
  unfoldable pub node_color : Option BuildStep → Cache → Result (Bytes × Cache)
  node_color none cache = ok (source_color, cache)
  node_color (some step) cache =
      needs_rebuild order mtime exists build_file step cache >>= λ r. ok (rebuild_color r.0, r.1)

  unfoldable pub print_nodes : List BuildStep → ℕ → List Node → Cache → Printed
  print_nodes steps i [] cache = ([], ok tt)
  print_nodes steps i (node ∷ nodes) cache =
      print_after (node_color (step_of_node steps node) cache) i node
        (λ cache'. print_nodes steps (suc i) nodes cache')

  unfoldable pub emit_graph : BuildGraph → Printed
  emit_graph g = enclose (print_nodes g.steps 0 g.nodes [])
