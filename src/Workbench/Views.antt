-- ===== src/Workbench/Views.antt =====
-- What the page shows: the highlighted areas, the tabs, and the report.
pub mod Reported
pub mod Steady
use lcl_fastapi.Prelude.{
  Text, Bool, true, false, Option, none, some, List, [], ◌∷◌, ◌++◌, ◌≡◌, ◌∙◌, if◌then◌else◌,
}
use lcl_fastapi.Playback.{Player}
use lcl_fastapi.Highlight.Pattern.{CharTables}
use lcl_fastapi.Highlight.Editor
use lcl_fastapi.Highlight.Editor.Mirror.{handle-Mirrors, wrap_up-Mirrors}
use lcl_fastapi.Workbench.{Program, Page, refresh_editors}
use lcl_fastapi.Workbench.Api.{Answer, returned, thrown, api}
use lcl_fastapi.Workbench.Tabs.{tab-IsOneTab, first_tabs-IsOneTab}
use lcl_fastapi.Workbench.Events.{
  click_new_session, new_session_answer, renewed, reload, samples, Kept, Event, click_parse,
  parse_answer, click_evaluate, evaluate_answer, edit_source, edit_expression, load_sample,
  start_answer, click_tab, play, changed, restored, created, start_from, previous_of, started,
  handle, handle_all, opened, plain_area,
}
use lcl_fastapi.Workbench.Views.Steady.{
  IsInStep, set-Mirrors, parse_answered-IsInStep, evaluate_answered-IsInStep, greet-IsInStep,
  restored-IsInStep,
}

module _ (u : CharTables) where
  start_from-IsInStep :
      (o : Option (Option Kept)) (new : Answer Text) (p : Page)
      → IsInStep u p
      → IsInStep u (start_from u o new p)
  unfolding start_from created restored
  start_from-IsInStep none (returned e id) p h =
      greet-IsInStep u _
        (record { source = h.source; expression = h.expression; one_tab = h.one_tab; report = tt })
  start_from-IsInStep none (thrown m) p h = h
  start_from-IsInStep (some none) new p h = greet-IsInStep u p h
  start_from-IsInStep (some (some kept)) new p h =
      restored-IsInStep u kept.evaluation _ kept.program p h

  opened-IsSteady :
      (program : Program) (session : Option Text) (player : Player)
      → IsInStep u (opened u program session player)
  unfolding opened
  opened-IsSteady program session player = record {
    source = wrap_up-Mirrors u (plain_area u program.source);
    expression = wrap_up-Mirrors u (plain_area u program.expression);
    one_tab = first_tabs-IsOneTab;
    report = tt;
  }

  renewed-IsInStep :
      (a : Answer Text) (program : Program) (player : Player) (p : Page)
      → IsInStep u p
      → IsInStep u (renewed u a program player p)
  unfolding renewed reload created
  renewed-IsInStep (returned e id) program player p h = opened-IsSteady program (some id) player
  renewed-IsInStep (thrown m) program player p h = h

  -- A click on a button does nothing to the areas, the tabs and the report.
  if-IsInStep :
      (b : Bool) (p q : Page) → IsInStep u p → IsInStep u q → IsInStep u (if b then p else q)
  if-IsInStep true p q h k = h
  if-IsInStep false p q h k = k

  handle-IsInStep : (e : Event) (p : Page) → IsInStep u p → IsInStep u (handle u e p)
  unfolding handle changed started refresh_editors
  handle-IsInStep click_parse p h = if-IsInStep p.parse_disabled p _ h h
  handle-IsInStep (parse_answer f) p h = parse_answered-IsInStep u p.parsing (api f) p h
  handle-IsInStep click_evaluate p h = if-IsInStep p.evaluate_disabled p _ h h
  handle-IsInStep (evaluate_answer f) p h = evaluate_answered-IsInStep u p.evaluating (api f) p h
  handle-IsInStep (edit_source text) p h = record {
    source = handle-Mirrors u (Editor.input text) p.source_area h.source;
    expression = h.expression;
    one_tab = h.one_tab;
    report = h.report;
  }
  handle-IsInStep (edit_expression text) p h = record {
    source = h.source;
    expression = handle-Mirrors u (Editor.input text) p.expression_area h.expression;
    one_tab = h.one_tab;
    report = h.report;
  }
  handle-IsInStep (load_sample s) p h = record {
    source = set-Mirrors u (samples s).source p.source_area h.source;
    expression = set-Mirrors u (samples s).expression p.expression_area h.expression;
    one_tab = h.one_tab;
    report = h.report;
  }
  handle-IsInStep (start_answer stored new) p h =
      start_from-IsInStep (previous_of stored) (api new) p h
  handle-IsInStep click_new_session p h = h
  handle-IsInStep (new_session_answer new program player) p h =
      renewed-IsInStep (api new) program player p h
  handle-IsInStep (click_tab n) p h = record {
    source = h.source;
    expression = h.expression;
    one_tab = tab-IsOneTab n p.tabs h.one_tab;
    report = h.report;
  }
  handle-IsInStep (play e) p h = h

  handle_all-IsInStep : (es : List Event) (p : Page) → IsInStep u p → IsInStep u (handle_all u es p)
  unfolding handle_all
  handle_all-IsInStep [] p h = h
  handle_all-IsInStep (e ∷ es) p h = handle_all-IsInStep es (handle u e p) (handle-IsInStep e p h)

  -- Whatever the user and the service do: each area stands over its highlighted text, one tab is
  -- selected and its panel alone is shown, and while there is a report, the tree shows each of its
  -- nodes, the table its dependencies, and the picture is the graph of them.
  pub opened-IsInStep :
      (program : Program) (session : Option Text) (player : Player) (es : List Event)
      → IsInStep u (handle_all u es (opened u program session player))
  opened-IsInStep program session player es =
      handle_all-IsInStep es _ (opened-IsSteady program session player)
