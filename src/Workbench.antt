-- ===== src/Workbench.antt =====
-- The page of examples/playground/playground_service/static/app.js: the program, the buttons Parse
-- and Evaluate, what is shown of a report, and the answers of the service. A listener that awaits an
-- answer is two events.
pub mod Api
pub mod Tabs
pub mod Tree
pub mod Graph
pub mod Events
pub mod Turns
pub mod Views
use lcl_fastapi.Playback
use lcl_fastapi.Highlight.Editor
use lcl_fastapi.Prelude.{
  ℕ, zero, suc, Text, codes, same_text, Bool, true, false, not, Option, none, some, List, [], ◌∷◌,
  ◌++◌, map, if◌then◌else◌,
}
use lcl_fastapi.Highlight.Pattern.{CharTables}
use lcl_fastapi.Playback.{Player, stop, clear}
use lcl_fastapi.Workbench.Api.{Answer, returned, thrown}
use lcl_fastapi.Workbench.Tabs.{Tab, tab}
use lcl_fastapi.Workbench.Tree.{Node, Details, ast_node}
use lcl_fastapi.Workbench.Graph.{Dependency, Picture, draw_graph}

-- The texts of the two areas.
pub record Program : Type 0 where
  pub source : Text
  pub expression : Text

-- What the service found in a program: the trees of its names and of the expression, and the
-- dependencies.
pub record Analysis : Type 0 where
  pub ast : List (Text × Node)
  pub expression_ast : Node
  pub dependencies : List Dependency

-- A report, with the program that it is of.
pub record Report : Type 0 where
  pub program : Program
  pub analysis : Analysis

-- What the service gives of an evaluation without an error, and the trace.
pub record Evaluation : Type 0 where
  pub trace : List Text
  pub result_type : Text
  pub result_repr : Text
  pub truncated : Bool

-- The variables of the script and what the page shows. `parsing` is the program of the request
-- underway, and `evaluating` counts the evaluations underway. A message is an error or not.
pub record Page : Type 0 where
  pub session : Option Text
  pub source_area : Editor.Page
  pub expression_area : Editor.Page
  pub report : Option Report
  pub tree : List (Text × Details)
  pub edges : List (List Text)
  pub graph : Option Picture
  pub tabs : List Tab
  pub result : Text
  pub session_status : Text
  pub evaluate_disabled : Bool
  pub parse_disabled : Bool
  pub message : Text × Bool
  pub player : Player
  pub parsing : Option Program
  pub evaluating : ℕ

abbrev pub program_of : Page → Program
program_of p = record { source = p.source_area.value; expression = p.expression_area.value }

abbrev pub has_report : Option Report → Bool
has_report none = false
has_report (some r) = true

abbrev pub show_message : Text → Bool → Page → Page
show_message text error p = record p { message = (text, error) }

-- {...ast, "<expression>": expression_ast}
unfoldable pub with_entry : Text → Node → List (Text × Node) → List (Text × Node)
with_entry name n [] = (name, n) ∷ []
with_entry name n ((other, m) ∷ ast) =
    let later = with_entry name n ast in
    if same_text name other then (name, n) ∷ ast else (other, m) ∷ later

abbrev pub entries : Analysis → List (Text × Node)
entries a = with_entry (codes "<expression>") a.expression_ast a.ast

abbrev pub edge_row : Dependency → List Text
edge_row e = e.source ∷ e.target ∷ e.kind ∷ []

-- data.trace_truncated ? ... : ...
abbrev pub complete_text : Bool → Text
complete_text true = codes "Evaluation complete. Trace display capped at 2,000 events."
complete_text false = codes "Evaluation complete. Step through the actual native trace."

-- `evaluation` on the page.
unfoldable pub show_evaluation : Option Text → Evaluation → Page → Page
show_evaluation none e p = record p {
  player = Playback.evaluation e.trace p.player;
  result = e.result_type ++ (codes ": " ++ e.result_repr);
  tabs = tab Tabs.trace p.tabs;
  message = (complete_text e.truncated, false);
}
show_evaluation (some m) e p = record p {
  player = Playback.evaluation e.trace p.player;
  result = m;
  tabs = tab Tabs.trace p.tabs;
  message = (m, true);
}

module _ (u : CharTables) where
  unfoldable pub display : Report → Page → Page
  display r p = record p {
    report = some r;
    tree = map (λ (name, n). (name, ast_node u n)) (entries r.analysis);
    edges = map edge_row r.analysis.dependencies;
    graph = some (draw_graph r.analysis.dependencies);
    evaluate_disabled = false;
  }

  -- The `try` of the Parse listener, after the answer to the program that was sent.
  unfoldable pub answer_parse : Program → Answer Analysis → Page → Page
  answer_parse sent (returned none a) p =
      let q = display (record { program = sent; analysis = a }) p in
      record q {
        player = clear q.player;
        tabs = tab Tabs.ast q.tabs;
        message =
            (codes "Parsed successfully. Evaluate to record values and cache behavior.", false);
      }
  answer_parse sent (returned (some m) a) p = show_message m true p
  answer_parse sent (thrown m) p = show_message m true p

  -- `finally` enables Parse again.
  unfoldable pub parse_answered : Option Program → Answer Analysis → Page → Page
  parse_answered none a p = p
  parse_answered (some sent) a p = record (answer_parse sent a p) {
    parse_disabled = false;
    parsing = none;
  }

  unfoldable pub refresh_editors : Page → Page
  refresh_editors p = record p {
    source_area = Editor.update u p.source_area;
    expression_area = Editor.update u p.expression_area;
  }

  abbrev pub set_program : Program → Page → Page
  set_program program p = record p {
    source_area = record (p.source_area) { value = program.source };
    expression_area = record (p.expression_area) { value = program.expression };
  }

-- The `try` and the `catch` of the Evaluate listener.
unfoldable pub answer_evaluate : Answer Evaluation → Page → Page
answer_evaluate (returned error e) p = show_evaluation error e p
answer_evaluate (thrown m) p = show_message m true p

-- `finally` enables Evaluate where there is a report.
unfoldable pub evaluate_answered : ℕ → Answer Evaluation → Page → Page
evaluate_answered zero a p = p
evaluate_answered (suc n) a p =
    let q = answer_evaluate a p in
    record q { evaluate_disabled = not (has_report q.report); evaluating = n }
