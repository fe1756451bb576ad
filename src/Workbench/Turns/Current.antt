-- ===== src/Workbench/Turns/Current.antt =====
-- Which program the report is of, when the user waits for the answers and when not.
use lcl_fastapi.Prelude.{
  suc, Text, true, false, Option, none, some, List, [], ◌∷◌, ◌≡◌, refl, arith, inl, inr, Bool-cases,
}
use lcl_fastapi.Playback
use lcl_fastapi.Playback.{Player}
use lcl_fastapi.Highlight.Pattern.{CharTables}
use lcl_fastapi.Highlight.Editor
use lcl_fastapi.Workbench.{
  Program, Analysis, Evaluation, Page, program_of, display, answer_parse, parse_answered,
  evaluate_answered, refresh_editors,
}
use lcl_fastapi.Workbench.Api.{Fetched, Answer, returned, thrown, api}
use lcl_fastapi.Workbench.Tabs.{TabName}
use lcl_fastapi.Workbench.Events.{
  click_new_session, new_session_answer, renewed, reload, Sample, Kept, Event, click_parse,
  parse_answer, click_evaluate, evaluate_answer, edit_source, edit_expression, load_sample,
  start_answer, click_tab, play, changed, greet, restored, created, start_from, previous_of,
  started, handle, handle_all, opened,
}
use lcl_fastapi.Workbench.Turns.Standing.{
  reported, IsOfThePage, IsCurrent, disabled-IsIdle, restore_evaluation-IsCurrent,
  evaluate_answered-IsCurrent,
}

-- What a user does who waits for each answer.
pub data Turn : Type 0 where
  parse_turn : Fetched Analysis → Turn
  evaluate_turn : Fetched Evaluation → Turn
  source_turn : Text → Turn
  expression_turn : Text → Turn
  sample_turn : Sample → Turn
  start_turn : Option (Fetched (Option Kept)) → Fetched Text → Turn
  new_session_turn : Fetched Text → Program → Player → Turn
  tab_turn : TabName → Turn
  play_turn : Playback.Event → Turn

abbrev turn_events : Turn → List Event → List Event
turn_events (parse_turn a) es = click_parse ∷ parse_answer a ∷ es
turn_events (evaluate_turn a) es = click_evaluate ∷ evaluate_answer a ∷ es
turn_events (source_turn text) es = edit_source text ∷ es
turn_events (expression_turn text) es = edit_expression text ∷ es
turn_events (sample_turn s) es = load_sample s ∷ es
turn_events (start_turn stored new) es = start_answer stored new ∷ es
turn_events (new_session_turn new program player) es =
    click_new_session ∷ new_session_answer new program player ∷ es
turn_events (tab_turn n) es = click_tab n ∷ es
turn_events (play_turn e) es = play e ∷ es

abbrev pub events : List Turn → List Event
events [] = []
events (t ∷ ts) = turn_events t (events ts)

module _ (u : CharTables) where
  greet-IsCurrent : (p : Page) → IsCurrent p → IsCurrent (greet u p)
  unfolding greet refresh_editors Editor.update Editor.sync
  greet-IsCurrent p h = h

  start_from-IsCurrent :
      (o : Option (Option Kept)) (new : Answer Text) (p : Page)
      → IsCurrent p
      → IsCurrent (start_from u o new p)
  unfolding start_from created restored display
  start_from-IsCurrent none (returned e id) p h = greet-IsCurrent _ (disabled-IsIdle _ _ _ h)
  start_from-IsCurrent none (thrown m) p h = h
  start_from-IsCurrent (some none) new p h = greet-IsCurrent p h
  start_from-IsCurrent (some (some kept)) new p h = greet-IsCurrent _ (
      restore_evaluation-IsCurrent kept.evaluation _ (record {
        evaluate = inr refl;
        nothing_parsing = h.nothing_parsing;
        nothing_evaluating = h.nothing_evaluating;
      }))

  parse_answered-IsCurrent :
      (a : Answer Analysis) (p : Page)
      → p.evaluate_disabled ≡ true
      → p.evaluating ≡ 0
      → IsCurrent (parse_answered u (some (program_of p)) a p)
  unfolding parse_answered answer_parse display
  parse_answered-IsCurrent (returned none a) p d e = record {
    evaluate = inr refl;
    nothing_parsing = (refl, refl);
    nothing_evaluating = e;
  }
  parse_answered-IsCurrent (returned (some m) a) p d e = record {
    evaluate = inl d;
    nothing_parsing = (refl, refl);
    nothing_evaluating = e;
  }
  parse_answered-IsCurrent (thrown m) p d e = record {
    evaluate = inl d;
    nothing_parsing = (refl, refl);
    nothing_evaluating = e;
  }

  parse_turn-IsCurrent :
      (f : Fetched Analysis) (p : Page)
      → IsCurrent p
      → IsCurrent (handle u (parse_answer f) (handle u click_parse p))
  unfolding handle
  parse_turn-IsCurrent f p h = rw h.nothing_parsing.0 (
      parse_answered-IsCurrent (api f)
        (record p {
          player = Playback.stop p.player;
          parse_disabled = true;
          evaluate_disabled = true;
          parsing = some (program_of p);
        })
        refl h.nothing_evaluating)

  evaluate_turn-IsCurrent :
      (f : Fetched Evaluation) (p : Page)
      → IsCurrent p
      → IsCurrent (handle u (evaluate_answer f) (handle u click_evaluate p))
  unfolding handle evaluate_answered
  evaluate_turn-IsCurrent f p h = elim (Bool-cases p.evaluate_disabled) [
    | inl d ↦
        rw (d, h.nothing_evaluating)
          (record {
            evaluate = inl refl;
            nothing_parsing = h.nothing_parsing;
            nothing_evaluating = refl;
          })
    | inr d ↦ rw d (
        evaluate_answered-IsCurrent (api f) p.evaluating
          (record p { evaluate_disabled = true; evaluating = suc p.evaluating })
          (enabled d h.evaluate) h.nothing_parsing h.nothing_evaluating)
  ]
    where
      enabled :
          p.evaluate_disabled ≡ false → IsOfThePage p → reported p.report ≡ some (program_of p)
      enabled d e = ground (arith, d, e)

  opened-IsIdle :
      (program : Program) (session : Option Text) (player : Player)
      → IsCurrent (opened u program session player)
  unfolding opened
  opened-IsIdle program session player = record {
    evaluate = inl refl;
    nothing_parsing = (refl, refl);
    nothing_evaluating = refl;
  }

  renewed-IsCurrent :
      (a : Answer Text) (program : Program) (player : Player) (p : Page)
      → IsCurrent p
      → IsCurrent (renewed u a program player p)
  unfolding renewed reload created
  renewed-IsCurrent (returned e id) program player p h = opened-IsIdle program (some id) player
  renewed-IsCurrent (thrown m) program player p h = h

  turn-IsCurrent :
      (t : Turn) (p : Page) → IsCurrent p → IsCurrent (handle_all u (turn_events t []) p)
  unfolding handle_all handle changed started refresh_editors
  turn-IsCurrent (parse_turn f) p h = parse_turn-IsCurrent f p h
  turn-IsCurrent (evaluate_turn f) p h = evaluate_turn-IsCurrent f p h
  turn-IsCurrent (source_turn text) p h = disabled-IsIdle _ _ _ h
  turn-IsCurrent (expression_turn text) p h = disabled-IsIdle _ _ _ h
  turn-IsCurrent (sample_turn s) p h = disabled-IsIdle _ _ _ h
  turn-IsCurrent (start_turn stored new) p h =
      start_from-IsCurrent (previous_of stored) (api new) p h
  turn-IsCurrent (new_session_turn new program player) p h =
      renewed-IsCurrent (api new) program player _ h
  turn-IsCurrent (tab_turn n) p h = h
  turn-IsCurrent (play_turn e) p h = h

  handle_all-turn_events :
      (t : Turn) (es : List Event) (p : Page)
      → handle_all u (turn_events t es) p ≡ handle_all u es (handle_all u (turn_events t []) p)
  unfolding handle_all
  handle_all-turn_events (parse_turn f) es p = refl
  handle_all-turn_events (evaluate_turn f) es p = refl
  handle_all-turn_events (source_turn text) es p = refl
  handle_all-turn_events (expression_turn text) es p = refl
  handle_all-turn_events (sample_turn s) es p = refl
  handle_all-turn_events (start_turn stored new) es p = refl
  handle_all-turn_events (new_session_turn new program player) es p = refl
  handle_all-turn_events (tab_turn n) es p = refl
  handle_all-turn_events (play_turn e) es p = refl

  events-IsCurrent :
      (ts : List Turn) (p : Page) → IsCurrent p → IsCurrent (handle_all u (events ts) p)
  unfolding handle_all
  events-IsCurrent [] p h = h
  events-IsCurrent (t ∷ ts) p h =
      rw (handle_all-turn_events t (events ts) p) (events-IsCurrent ts _ (turn-IsCurrent t p h))

  -- As long as the user waits for each answer: whenever Evaluate is enabled, the report shown is of
  -- the program on the page.
  pub opened-current :
      (program : Program) (session : Option Text) (player : Player) (ts : List Turn)
      → IsOfThePage (handle_all u (events ts) (opened u program session player))
  opened-current program session player ts =
      (events-IsCurrent ts _ (opened-IsIdle program session player)).evaluate

  value-handle :
      (p : Editor.Page) (text : Text) → (Editor.handle u (Editor.input text) p).value ≡ text
  unfolding Editor.handle Editor.notify Editor.update Editor.sync
  value-handle p text = ground arith

  -- A user who edits the source while a request to parse is underway gets, with an answer without an
  -- error, an enabled Evaluate and the report of the program that was sent, while the page has the
  -- edited source.
  pub edit-underway :
      (p : Page) (text : Text) (f : Fetched Analysis) (a : Analysis)
      → p.parse_disabled ≡ false
      → api f ≡ returned none a
      → ((handle_all u (click_parse ∷ edit_source text ∷ parse_answer f ∷ []) p).evaluate_disabled
          ≡ false)
        × (reported (handle_all u (click_parse ∷ edit_source text ∷ parse_answer f ∷ []) p).report
            ≡ some (program_of p))
        × ((program_of
              (handle_all u (click_parse ∷ edit_source text ∷ parse_answer f ∷ []) p)).source
            ≡ text)
  unfolding handle_all handle parse_answered answer_parse display changed
  edit-underway p text f a h answer = rw (h, answer) (refl, refl, value-handle p.source_area text)
