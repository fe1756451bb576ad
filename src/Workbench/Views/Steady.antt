-- ===== src/Workbench/Views/Steady.antt =====
-- The areas, the tabs and the report after the answers of the service.
use lcl_fastapi.Prelude.{ℕ, zero, suc, Text, Option, none, some, List}
use lcl_fastapi.Highlight.Pattern.{CharTables}
use lcl_fastapi.Highlight.Editor
use lcl_fastapi.Highlight.Editor.Mirror.{Mirrors, update-Mirrors}
use lcl_fastapi.Workbench.{
  Program, Analysis, Report, Evaluation, Page, display, answer_parse, show_evaluation,
  parse_answered, answer_evaluate, evaluate_answered, refresh_editors, set_program,
}
use lcl_fastapi.Workbench.Api.{Answer, returned, thrown}
use lcl_fastapi.Workbench.Tree.{Details}
use lcl_fastapi.Workbench.Graph.{Picture}
use lcl_fastapi.Workbench.Tabs.{Tab, IsOneTab, tab-IsOneTab}
use lcl_fastapi.Workbench.Events.{restore_evaluation, greet}
use lcl_fastapi.Workbench.Views.Reported.{ReportShown, display-shown}

-- The part of the page that shows the texts and the report.
pub record View : Type 0 where
  pub source_area : Editor.Page
  pub expression_area : Editor.Page
  pub tabs : List Tab
  pub report : Option Report
  pub tree : List (Text × Details)
  pub edges : List (List Text)
  pub graph : Option Picture

abbrev pub view : Page → View
view p = record {
  source_area = p.source_area;
  expression_area = p.expression_area;
  tabs = p.tabs;
  report = p.report;
  tree = p.tree;
  edges = p.edges;
  graph = p.graph;
}

module _ (u : CharTables) where
  -- Both areas are highlighted with their text, one tab is shown, and the report, if there is one.
  pub record IsSteady (v : View) : Type 0 where
    pub source : Mirrors u v.source_area
    pub expression : Mirrors u v.expression_area
    pub one_tab : IsOneTab v.tabs
    pub report : ReportShown v.report v.tree v.edges v.graph

  abbrev pub IsInStep : Page → Type 0
  IsInStep p = IsSteady (view p)

  -- An area with another text, updated.
  pub set-Mirrors :
      (text : Text) (p : Editor.Page)
      → Mirrors u p
      → Mirrors u (Editor.update u (record p { value = text }))
  set-Mirrors text p m =
      update-Mirrors u (record p { value = text }) m.backdrop m.attached_to m.listens.0 m.listens.1
        m.listens.2

  pub again-Mirrors : (p : Editor.Page) → Mirrors u p → Mirrors u (Editor.update u p)
  again-Mirrors p m = set-Mirrors p.value p m

  show_evaluation-IsInStep :
      (m : Option Text) (e : Evaluation) (p : Page) → IsInStep p → IsInStep (show_evaluation m e p)
  unfolding show_evaluation
  show_evaluation-IsInStep none e p h = record {
    source = h.source;
    expression = h.expression;
    one_tab = tab-IsOneTab _ p.tabs h.one_tab;
    report = h.report;
  }
  show_evaluation-IsInStep (some m) e p h = record {
    source = h.source;
    expression = h.expression;
    one_tab = tab-IsOneTab _ p.tabs h.one_tab;
    report = h.report;
  }

  answer_parse-IsInStep :
      (sent : Program) (a : Answer Analysis) (p : Page)
      → IsInStep p
      → IsInStep (answer_parse u sent a p)
  unfolding answer_parse display
  answer_parse-IsInStep sent (returned none a) p h = record {
    source = h.source;
    expression = h.expression;
    one_tab = tab-IsOneTab _ p.tabs h.one_tab;
    report = display-shown u (record { program = sent; analysis = a }) p;
  }
  answer_parse-IsInStep sent (returned (some m) a) p h = h
  answer_parse-IsInStep sent (thrown m) p h = h

  pub parse_answered-IsInStep :
      (o : Option Program) (a : Answer Analysis) (p : Page)
      → IsInStep p
      → IsInStep (parse_answered u o a p)
  unfolding parse_answered
  parse_answered-IsInStep none a p h = h
  parse_answered-IsInStep (some sent) a p h = answer_parse-IsInStep sent a p h

  answer_evaluate-IsInStep :
      (a : Answer Evaluation) (p : Page) → IsInStep p → IsInStep (answer_evaluate a p)
  unfolding answer_evaluate
  answer_evaluate-IsInStep (returned m e) p h = show_evaluation-IsInStep m e p h
  answer_evaluate-IsInStep (thrown m) p h = h

  pub evaluate_answered-IsInStep :
      (n : ℕ) (a : Answer Evaluation) (p : Page) → IsInStep p → IsInStep (evaluate_answered n a p)
  unfolding evaluate_answered
  evaluate_answered-IsInStep zero a p h = h
  evaluate_answered-IsInStep (suc n) a p h = answer_evaluate-IsInStep a p h

  pub greet-IsInStep : (p : Page) → IsInStep p → IsInStep (greet u p)
  unfolding greet refresh_editors
  greet-IsInStep p h = record {
    source = again-Mirrors p.source_area h.source;
    expression = again-Mirrors p.expression_area h.expression;
    one_tab = h.one_tab;
    report = h.report;
  }

  pub restored-IsInStep :
      (o : Option (Option Text × Evaluation)) (r : Report) (program : Program) (p : Page)
      → IsInStep p
      → IsInStep (greet u (restore_evaluation o (display u r (set_program u program p))))
  unfolding greet refresh_editors restore_evaluation show_evaluation display
  restored-IsInStep none r program p h = record {
    source = set-Mirrors program.source p.source_area h.source;
    expression = set-Mirrors program.expression p.expression_area h.expression;
    one_tab = h.one_tab;
    report = display-shown u r (set_program u program p);
  }
  restored-IsInStep (some (none, e)) r program p h = record {
    source = set-Mirrors program.source p.source_area h.source;
    expression = set-Mirrors program.expression p.expression_area h.expression;
    one_tab = tab-IsOneTab _ p.tabs h.one_tab;
    report = display-shown u r (set_program u program p);
  }
  restored-IsInStep (some (some m, e)) r program p h = record {
    source = set-Mirrors program.source p.source_area h.source;
    expression = set-Mirrors program.expression p.expression_area h.expression;
    one_tab = tab-IsOneTab _ p.tabs h.one_tab;
    report = display-shown u r (set_program u program p);
  }
