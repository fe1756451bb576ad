-- ===== src/Workbench/Views/Reported.antt =====
-- How a report is shown: the tree, the table and the graph.
use lcl_fastapi.Prelude.{Text, Option, none, some, List, [], ◌∷◌, ◌≡◌, refl, ap, ◌∙◌, map}
use lcl_fastapi.Highlight.Pattern.{CharTables}
use lcl_fastapi.Workbench.{Report, Page, entries, edge_row, display}
use lcl_fastapi.Workbench.Tree.{Node, Details, ast_node, outline, preorder, outline-ast_node}
use lcl_fastapi.Workbench.Graph.{Picture, draw_graph}
use lcl_fastapi.Workbench.Graph.Drawn.{IsDrawn, draw_graph-IsDrawn}

abbrev pub outlined : List (Text × Details) → List (Text × List (Text × Text))
outlined ds = map (λ (name, d). (name, outline d)) ds

abbrev pub expected : List (Text × Node) → List (Text × List (Text × Text))
expected ns = map (λ (name, n). (name, preorder n)) ns

-- The tree shows every node of the report, the table its dependencies, and the picture is their graph.
abbrev pub ReportShown :
    Option Report → List (Text × Details) → List (List Text) → Option Picture → Type 0
ReportShown none tree edges graph = Unit
ReportShown (some r) tree edges graph =
    (outlined tree ≡ expected (entries r.analysis))
    × (edges ≡ map edge_row r.analysis.dependencies)
    × (g : Picture) × (graph ≡ some g)
    × IsDrawn r.analysis.dependencies g

outlined-map :
    (u : CharTables) (ns : List (Text × Node))
    → outlined (map (λ (name, n). (name, ast_node u n)) ns) ≡ expected ns
outlined-map u [] = refl
outlined-map u ((name, n) ∷ ns) =
    ap (λ x. (name, x) ∷ outlined (map (λ (name, n). (name, ast_node u n)) ns))
      (outline-ast_node u n)
    ∙ ap (λ xs. (name, preorder n) ∷ xs) (outlined-map u ns)

module _ (u : CharTables) where
  pub display-shown :
      (r : Report) (p : Page) → let q = display u r p in ReportShown q.report q.tree q.edges q.graph
  unfolding display
  display-shown r p = (
    outlined-map u (entries r.analysis),
    refl,
    draw_graph r.analysis.dependencies,
    refl,
    draw_graph-IsDrawn r.analysis.dependencies,
  )
