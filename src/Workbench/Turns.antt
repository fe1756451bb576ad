-- ===== src/Workbench/Turns.antt =====
-- When the buttons of the page are enabled.
pub mod Standing
pub mod Current
use lcl_fastapi.Prelude.{
  ℕ, zero, suc, Text, Bool, true, false, not, Option, none, some, List, [], ◌∷◌, ◌≡◌, refl, arith,
  ◌⊎◌, inl, inr, if◌then◌else◌,
}
use lcl_fastapi.Playback
use lcl_fastapi.Playback.{Player}
use lcl_fastapi.Highlight.Pattern.{CharTables}
use lcl_fastapi.Highlight.Editor
use lcl_fastapi.Workbench.{
  Program, Analysis, Report, Evaluation, Page, has_report, display, answer_parse, show_evaluation,
  parse_answered, answer_evaluate, evaluate_answered, refresh_editors,
}
use lcl_fastapi.Workbench.Api.{Answer, returned, thrown, api}
use lcl_fastapi.Workbench.Events.{
  click_new_session, new_session_answer, renewed, reload, Kept, Event, click_parse, parse_answer,
  click_evaluate, evaluate_answer, edit_source, edit_expression, load_sample, start_answer,
  click_tab, play, restore_evaluation, changed, greet, restored, created, start_from, previous_of,
  started, handle, handle_all, opened,
}

abbrev pub is_underway : Option Program → Bool
is_underway none = false
is_underway (some sent) = true

-- Evaluate is disabled or there is a report, and Parse is disabled exactly while a request is underway.
pub record IsReady (p : Page) : Type 0 where
  pub evaluate : (p.evaluate_disabled ≡ true) ⊎ (has_report p.report ≡ true)
  pub parse : p.parse_disabled ≡ is_underway p.parsing

evaluate-lem : (r : Option Report) → (not (has_report r) ≡ true) ⊎ (has_report r ≡ true)
evaluate-lem none = inl refl
evaluate-lem (some r) = inr refl

show_evaluation-IsReady :
    (m : Option Text) (e : Evaluation) (p : Page) → IsReady p → IsReady (show_evaluation m e p)
unfolding show_evaluation
show_evaluation-IsReady none e p h = record { evaluate = h.evaluate; parse = h.parse }
show_evaluation-IsReady (some m) e p h = record { evaluate = h.evaluate; parse = h.parse }

restore_evaluation-IsReady :
    (o : Option (Option Text × Evaluation)) (p : Page)
    → IsReady p
    → IsReady (restore_evaluation o p)
unfolding restore_evaluation
restore_evaluation-IsReady none p h = h
restore_evaluation-IsReady (some (m, e)) p h = show_evaluation-IsReady m e p h

evaluate_answered-IsReady :
    (n : ℕ) (a : Answer Evaluation) (p : Page) → IsReady p → IsReady (evaluate_answered n a p)
unfolding evaluate_answered answer_evaluate
evaluate_answered-IsReady zero a p h = h
evaluate_answered-IsReady (suc n) (returned m e) p h = record {
  evaluate = evaluate-lem (show_evaluation m e p).report;
  parse = (show_evaluation-IsReady m e p h).parse;
}
evaluate_answered-IsReady (suc n) (thrown m) p h = record {
  evaluate = evaluate-lem p.report;
  parse = h.parse;
}

module _ (u : CharTables) where
  parse_answered-IsReady :
      (o : Option Program) (a : Answer Analysis) (p : Page)
      → p.parsing ≡ o
      → IsReady p
      → IsReady (parse_answered u o a p)
  unfolding parse_answered answer_parse display
  parse_answered-IsReady none a p e h = h
  parse_answered-IsReady (some sent) (returned none a) p e h = record {
    evaluate = inr refl;
    parse = refl;
  }
  parse_answered-IsReady (some sent) (returned (some m) a) p e h = record {
    evaluate = h.evaluate;
    parse = refl;
  }
  parse_answered-IsReady (some sent) (thrown m) p e h = record {
    evaluate = h.evaluate;
    parse = refl;
  }

  greet-IsReady : (p : Page) → IsReady p → IsReady (greet u p)
  unfolding greet refresh_editors
  greet-IsReady p h = record { evaluate = h.evaluate; parse = h.parse }

  display-IsReady : (r : Report) (p : Page) → IsReady p → IsReady (display u r p)
  unfolding display
  display-IsReady r p h = record { evaluate = inr refl; parse = h.parse }

  start_from-IsReady :
      (o : Option (Option Kept)) (new : Answer Text) (p : Page)
      → IsReady p
      → IsReady (start_from u o new p)
  unfolding start_from created restored
  start_from-IsReady none (returned e id) p h =
      greet-IsReady _ (record { evaluate = inl refl; parse = h.parse })
  start_from-IsReady none (thrown m) p h = record { evaluate = h.evaluate; parse = h.parse }
  start_from-IsReady (some none) new p h = greet-IsReady p h
  start_from-IsReady (some (some kept)) new p h = greet-IsReady _ (
      restore_evaluation-IsReady kept.evaluation _
        (display-IsReady _ _ (record { evaluate = h.evaluate; parse = h.parse })))

  renewed-IsReady :
      (a : Answer Text) (program : Program) (player : Player) (p : Page)
      → IsReady p
      → IsReady (renewed u a program player p)
  unfolding renewed reload created opened
  renewed-IsReady (returned e id) program player p h = record { evaluate = inl refl; parse = refl }
  renewed-IsReady (thrown m) program player p h = record { evaluate = h.evaluate; parse = h.parse }

  handle-IsReady : (e : Event) (p : Page) → IsReady p → IsReady (handle u e p)
  unfolding handle changed started refresh_editors
  handle-IsReady click_parse p h = record {
    evaluate = ground (arith, h.evaluate);
    parse = ground (arith, h.parse);
  }
  handle-IsReady (parse_answer f) p h = parse_answered-IsReady p.parsing (api f) p refl h
  handle-IsReady click_evaluate p h = record {
    evaluate = ground (arith, h.evaluate);
    parse = ground (arith, h.parse);
  }
  handle-IsReady (evaluate_answer f) p h = evaluate_answered-IsReady p.evaluating (api f) p h
  handle-IsReady (edit_source text) p h = record { evaluate = inl refl; parse = h.parse }
  handle-IsReady (edit_expression text) p h = record { evaluate = inl refl; parse = h.parse }
  handle-IsReady (load_sample s) p h = record { evaluate = inl refl; parse = h.parse }
  handle-IsReady (start_answer stored new) p h =
      start_from-IsReady (previous_of stored) (api new) p h
  handle-IsReady click_new_session p h = record { evaluate = h.evaluate; parse = h.parse }
  handle-IsReady (new_session_answer new program player) p h =
      renewed-IsReady (api new) program player p h
  handle-IsReady (click_tab n) p h = record { evaluate = h.evaluate; parse = h.parse }
  handle-IsReady (play e) p h = record { evaluate = h.evaluate; parse = h.parse }

  handle_all-IsReady : (es : List Event) (p : Page) → IsReady p → IsReady (handle_all u es p)
  unfolding handle_all
  handle_all-IsReady [] p h = h
  handle_all-IsReady (e ∷ es) p h = handle_all-IsReady es (handle u e p) (handle-IsReady e p h)

  -- Whatever the user and the service do, in any order: Evaluate is enabled only where there is a
  -- report, and Parse is disabled exactly while a request to parse is underway.
  pub opened-IsReady :
      (program : Program) (session : Option Text) (player : Player) (es : List Event)
      → IsReady (handle_all u es (opened u program session player))
  unfolding opened
  opened-IsReady program session player es =
      handle_all-IsReady es _ (record { evaluate = inl refl; parse = refl })
