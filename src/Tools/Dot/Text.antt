-- ===== src/Tools/Dot/Text.antt =====
-- What `Executor::emit_graph` (src/executor.cpp) prints, written out without the cache.
use catalyst_build_executor.Base.{
  ℕ, suc, ◌≡◌, refl, sym, ap, ◌∙◌, Bool, true, false, Bytes, List, [], ◌∷◌, ◌++◌, Option, none,
  some, if◌then◌else◌, codes,
}
use mathlib.Core.List.{append_assoc}
use catalyst_build_executor.Domain.{BuildStep, Result, ok, unexpected, thrown, ◌>>=◌}
use catalyst_build_executor.Graph.{Node, BuildGraph}
use catalyst_build_executor.Chars.{decimal}
use catalyst_build_executor.Rebuild.{PathOrder, Cache, Clock, IsClockOf, needs_rebuild}
use catalyst_build_executor.Rebuild.Cached.{
  IsTruthful, must_rebuild, IsDecision_cases, needs_rebuild-must_rebuild,
}
use catalyst_build_executor.Tools.Dot.{
  edge_lines, node_text, node_color, rebuild_color, step_of_node, Printed, print_after, print_nodes,
  enclose, emit_graph,
}

abbrev pub flat : List Bytes → Bytes
flat [] = []
flat (piece ∷ pieces) = piece ++ flat pieces

-- What a node is in the picture: a file that no step makes, one that must be rebuilt, one that must not.
pub data Mark : Type 0 where
  source due fresh : Mark

abbrev pub paint : Mark → Bytes
paint source = codes "0.9 0.9 0.9"
paint due = codes "green"
paint fresh = codes "white"

-- The pieces of the lines of a node and of its edges.
abbrev pub edge_pieces : ℕ → List ℕ → List Bytes
edge_pieces i [] = []
edge_pieces i (j ∷ js) =
    codes "  n" ∷ decimal i ∷ codes " -> n" ∷ decimal j ∷ codes ";\n" ∷ edge_pieces i js

abbrev pub node_pieces : ℕ → Node → (color : Bytes) → List Bytes
node_pieces i node color =
    codes "  n"
    ∷ decimal i
    ∷ codes " [label=\""
    ∷ node.path
    ∷ codes "\", fillcolor=\""
    ∷ color
    ∷ codes "\"];\n"
    ∷ edge_pieces i node.out_edges

abbrev pub start : Bytes
start =
    codes
      "digraph catalyst_build {\n  rankdir=LR;\n  node [shape=box, style=filled, fontname=\"Helvetica\"];\n"

edge_lines-flat : (i : ℕ) (js : List ℕ) → edge_lines i js ≡ flat (edge_pieces i js)
edge_lines-flat i [] = refl
edge_lines-flat i (j ∷ js) =
    ap
      (λ rest.
        codes "  n" ++ (decimal i ++ (codes " -> n" ++ (decimal j ++ (codes ";\n" ++ rest)))))
      (edge_lines-flat i js)

node_text-flat :
    (i : ℕ) (node : Node) (color : Bytes) → node_text i node color ≡ flat (node_pieces i node color)
node_text-flat i node color = simp (append_assoc, edge_lines-flat i node.out_edges)

color-paint : (a b : Bool) → a ≡ b → rebuild_color a ≡ paint (if b then due else fresh)
color-paint a true same = rw same refl
color-paint a false same = rw same refl

-- The marks of the nodes, up to the first decision that throws, with how the decisions end.
module _ (order : PathOrder) (mtime : Clock) (exists : Bytes → Bool) (build_file : Bytes) where
  abbrev pub mark_of : Option BuildStep → Result Mark
  mark_of none = ok source
  mark_of (some step) =
      must_rebuild order mtime exists build_file step >>= λ b. ok (if b then due else fresh)

  abbrev pub marked : Result Mark → ℕ → Node → Printed → Printed
  marked (ok mark) i node rest = (flat (node_pieces i node (paint mark)) ++ rest.0, rest.1)
  marked (unexpected e) i node rest = ([], unexpected e)
  marked (thrown e) i node rest = ([], thrown e)

  abbrev pub picture : List BuildStep → ℕ → List Node → Printed
  picture steps i [] = ([], ok tt)
  picture steps i (node ∷ nodes) =
      marked (mark_of (step_of_node steps node)) i node (picture steps (suc i) nodes)

  -- The picture, with its frame: the last brace stands if all nodes are drawn.
  abbrev pub framed : Printed → Printed
  framed (text, ok u) = (start ++ (text ++ codes "}\n"), ok tt)
  framed (text, unexpected e) = (start ++ (text ++ []), unexpected e)
  framed (text, thrown e) = (start ++ (text ++ []), thrown e)

  -- What stands behind a colour.
  mark_of-node_color :
      IsClockOf order mtime
      → (i : ℕ) (node : Node) (step : Option BuildStep) (cache : Cache) (next : Cache → Printed)
        (rest : Printed)
      → IsTruthful order mtime cache
      → ((cache' : Cache) → IsTruthful order mtime cache' → next cache' ≡ rest)
      → print_after (node_color order mtime exists build_file step cache) i node next
        ≡ marked (mark_of step) i node rest
  unfolding node_color
  mark_of-node_color one_file i node none cache next rest h ih =
      let e : node_text i node (paint source) ≡ flat (node_pieces i node (paint source)) =
        node_text-flat i node (paint source) in
      let n : next cache ≡ rest = ih cache h in cc
  mark_of-node_color one_file i node (some step) cache next rest h ih =
      IsDecision_cases order mtime
        (λ d r.
          print_after (r >>= λ q. ok (rebuild_color q.0, q.1)) i node next
          ≡ marked (d >>= λ b. ok (if b then due else fresh)) i node rest)
        (λ b r same t.
          let n : next r.1 ≡ rest = ih r.1 t in
          let color : rebuild_color r.0 ≡ paint (if b then due else fresh) =
            color-paint r.0 b same in
          let text : node_text i node (rebuild_color r.0)
              ≡ flat (node_pieces i node (paint (if b then due else fresh))) =
            ap (node_text i node) color ∙ node_text-flat i node _ in
          cc)
        (λ e e' same. ap (λ x. ([], thrown x)) (sym same))
        (must_rebuild order mtime exists build_file step)
        (needs_rebuild order mtime exists build_file step cache)
        (needs_rebuild-must_rebuild order mtime one_file exists build_file step cache h)

  print_nodes-picture :
      IsClockOf order mtime
      → (steps : List BuildStep) (i : ℕ) (nodes : List Node) (cache : Cache)
      → IsTruthful order mtime cache
      → print_nodes order mtime exists build_file steps i nodes cache ≡ picture steps i nodes
  unfolding print_nodes
  print_nodes-picture one_file steps i [] cache h = refl
  print_nodes-picture one_file steps i (node ∷ nodes) cache h =
      mark_of-node_color one_file i node (step_of_node steps node) cache
        (print_nodes order mtime exists build_file steps (suc i) nodes)
        (picture steps (suc i) nodes) h (print_nodes-picture one_file steps (suc i) nodes)

  enclose-framed : (printed : Printed) → enclose printed ≡ framed printed
  enclose-framed (text, ok u) = refl
  enclose-framed (text, unexpected e) = refl
  enclose-framed (text, thrown e) = refl

  -- The picture is printed as if no time were cached: each node in its place with its path, grey if
  -- no step makes it, green if its step must be rebuilt and white if it must not, followed by its
  -- edges. If one of these decisions throws, the nodes before it are printed, neither the node nor
  -- the last brace is, and the exception leaves the function. Equal paths name one
  -- file.
  pub emit_graph-picture :
      IsClockOf order mtime
      → (g : BuildGraph)
      → emit_graph order mtime exists build_file g ≡ framed (picture g.steps 0 g.nodes)
  unfolding emit_graph
  emit_graph-picture one_file g =
      ap enclose (print_nodes-picture one_file g.steps 0 g.nodes [] tt)
      ∙ enclose-framed (picture g.steps 0 g.nodes)
