-- ===== src/Workbench/Tree.antt =====
-- `astNode` of examples/playground/playground_service/static/app.js: the syntax tree that the
-- service sends, drawn as nested details with highlighted sources.
use lcl_fastapi.Prelude.{ℕ, Text, codes, decimal, List, [], ◌∷◌, ◌++◌, ◌≡◌, refl, ap, ◌∙◌}
use lcl_fastapi.Highlight.Pattern.{CharTables}
use lcl_fastapi.Highlight.Lexer.{string}
use lcl_fastapi.Highlight.Markup.{Highlighted, html, highlight}
use lcl_fastapi.Highlight.Markup.Reader.{read, outside, shown}
use lcl_fastapi.Highlight.Markup.Reading.{highlight-Shows}

mutual
  -- A node of the syntax tree: kind, line, column, source and children.
  pub data Node : Type 0 where
    node : Text → ℕ → ℕ → Text → Nodes → Node

  pub data Nodes : Type 0 where
    no_nodes : Nodes
    more_nodes : Node → Nodes → Nodes

mutual
  -- The element that is drawn: the summary, the highlighted code, and the elements inside.
  pub data Details : Type 0 where
    details : Text → Highlighted → Drawn → Details

  pub data Drawn : Type 0 where
    nothing_drawn : Drawn
    more_drawn : Details → Drawn → Drawn

-- node.kind + " · " + line + ":" + column
abbrev pub summary : Text → ℕ → ℕ → Text
summary kind line column = kind ++ (codes " · " ++ (decimal line ++ (codes ":" ++ decimal column)))

unfoldable mutual
  pub ast_node : CharTables → Node → Details
  ast_node u (node kind line column source children) =
      details (summary kind line column) (highlight u (string source)) (ast_nodes u children)

  pub ast_nodes : CharTables → Nodes → Drawn
  ast_nodes u no_nodes = nothing_drawn
  ast_nodes u (more_nodes n ns) = more_drawn (ast_node u n) (ast_nodes u ns)

-- The text that a code element shows.
abbrev pub visible_text : Highlighted → Text
visible_text (html out) = shown (read outside out)
visible_text _ = []

-- The summaries and texts that the elements show, and those of the tree, from the root on.
abbrev mutual
  pub outline : Details → List (Text × Text)
  outline (details s code inside) = (s, visible_text code) ∷ outlines inside

  pub outlines : Drawn → List (Text × Text)
  outlines nothing_drawn = []
  outlines (more_drawn d ds) = outline d ++ outlines ds

abbrev mutual
  pub preorder : Node → List (Text × Text)
  preorder (node kind line column source children) =
      (summary kind line column, source) ∷ preorders children

  pub preorders : Nodes → List (Text × Text)
  preorders no_nodes = []
  preorders (more_nodes n ns) = preorder n ++ preorders ns

visible_text-highlight : (u : CharTables) (s : Text) → visible_text (highlight u (string s)) ≡ s
visible_text-highlight u s =
    let (out, done, shows) = highlight-Shows u s in ap visible_text done ∙ shows.text_kept

mutual
  unfolding ast_node

  outline_of : (u : CharTables) (n : Node) → outline (ast_node u n) ≡ preorder n
  outline_of u (node kind line column source children) =
      rw (visible_text-highlight u source)
        (ap (λ x. (summary kind line column, source) ∷ x) (outlines-ast_nodes u children))

  outlines-ast_nodes : (u : CharTables) (ns : Nodes) → outlines (ast_nodes u ns) ≡ preorders ns
  outlines-ast_nodes u no_nodes = refl
  outlines-ast_nodes u (more_nodes n ns) = rw (outline_of u n, outlines-ast_nodes u ns) refl

-- The drawn tree shows each node of the syntax tree once, from the root on: its kind and position,
-- and in the highlighted code exactly its source.
pub outline-ast_node : (u : CharTables) (n : Node) → outline (ast_node u n) ≡ preorder n
outline-ast_node u n = outline_of u n
