-- ===== src/Workbench/Events.antt =====
-- The listeners of the page, its samples and `start`.
use lcl_fastapi.Playback
use lcl_fastapi.Highlight.Editor
use lcl_fastapi.Prelude.{
  suc, Text, codes, true, false, Option, none, some, List, [], ◌∷◌, ◌++◌, if◌then◌else◌, take,
}
use lcl_fastapi.Highlight.Pattern.{CharTables}
use lcl_fastapi.Playback.{Player, stop}
use lcl_fastapi.Workbench.{
  Program, Analysis, Evaluation, Page, program_of, show_message, show_evaluation, display,
  parse_answered, refresh_editors, set_program, evaluate_answered,
}
use lcl_fastapi.Workbench.Api.{Fetched, Answer, returned, thrown, api}
use lcl_fastapi.Workbench.Tabs.{TabName, tab, first_tabs}

pub data Sample : Type 0 where
  catalog conditional error : Sample

unfoldable pub samples : Sample → Program
samples catalog = record {
  source =
      codes
        "__LCL_VERSION__: 1\n\n# Inputs\nprice: 12\nquantity: 3\n\n# Derived value\ntotal: price * quantity";
  expression = codes "total + 5";
}
samples conditional = record {
  source =
      codes
        "__LCL_VERSION__: 1\n\n# Branch inputs\nchoose_left: True\nleft: 42\nright: 1 / 0\n\n# Lazy branch selection\nanswer: left if choose_left else right";
  expression = codes "answer";
}
samples error = record {
  source =
      codes "__LCL_VERSION__: 1\n\n# Circular definitions\nfirst: second + 1\nsecond: first + 1";
  expression = codes "first";
}

-- What a session holds: a program with its analysis, and the last evaluation, an error or not.
pub record Kept : Type 0 where
  pub program : Program
  pub analysis : Analysis
  pub evaluation : Option (Option Text × Evaluation)

-- `start_answer` is `start` with what the service says: of the stored session, if there is one,
-- and of a new session, if one is asked for.
pub data Event : Type 0 where
  click_parse : Event
  parse_answer : Fetched Analysis → Event
  click_evaluate : Event
  evaluate_answer : Fetched Evaluation → Event
  edit_source : Text → Event
  edit_expression : Text → Event
  load_sample : Sample → Event
  start_answer : Option (Fetched (Option Kept)) → Fetched Text → Event
  click_new_session : Event
  new_session_answer : Fetched Text → Program → Player → Event
  click_tab : TabName → Event
  play : Playback.Event → Event

unfoldable pub session_text : Option Text → Text
session_text none = []
session_text (some id) = codes "Session · " ++ take 8 id

-- await api("/" + session).catch(() => null)
unfoldable pub previous_of : Option (Fetched (Option Kept)) → Option (Option Kept)
previous_of none = none
previous_of (some f) = elim (api f) [ returned e kept ↦ some kept | thrown m ↦ none ]

unfoldable pub restore_evaluation : Option (Option Text × Evaluation) → Page → Page
restore_evaluation none p = p
restore_evaluation (some (m, e)) p = show_evaluation m e p

-- What both listeners on an area do besides the editor's.
unfoldable pub changed : Page → Page
changed p = record p {
  evaluate_disabled = true;
  player = stop p.player;
  message = (codes "Source changed. Parse again before evaluating.", false);
}

module _ (u : CharTables) where
  -- refreshEditors() and the status, at the end of `start`
  unfoldable pub greet : Page → Page
  greet p = record (refresh_editors u p) { session_status = session_text p.session }

  unfoldable pub restored : Option Kept → Page → Page
  restored none p = p
  restored (some kept) p = restore_evaluation kept.evaluation (
      display u (record { program = kept.program; analysis = kept.analysis })
        (set_program u kept.program p))

  -- The answer to the request for a new session.
  unfoldable pub created : Answer Text → Page → Page
  created (returned e id) p =
      greet (record p { session = some id; report = none; evaluate_disabled = true })
  created (thrown m) p = show_message m true p

  unfoldable pub start_from : Option (Option Kept) → Answer Text → Page → Page
  start_from none new p = created new p
  start_from (some kept) new p = greet (restored kept p)

  unfoldable pub started : Option (Fetched (Option Kept)) → Fetched Text → Page → Page
  unfolding start_from created restored restore_evaluation previous_of greet session_text
  started stored new p = start_from (previous_of stored) (api new) p

  -- A text area of the page before the script: the tag, the text, and nothing attached.
  abbrev pub plain_area : Text → Editor.Page
  plain_area text = record {
    tag_name = codes "TEXTAREA";
    value = text;
    wrap = none;
    scroll_top = 0;
    scroll_left = 0;
    on_input = false;
    on_scroll = false;
    backdrop = none;
  }

  -- The page when the script has attached the editors.
  unfoldable pub opened : Program → Option Text → Player → Page
  opened program session player = record {
    session = session;
    source_area = Editor.wrap_up u (plain_area program.source);
    expression_area = Editor.wrap_up u (plain_area program.expression);
    report = none;
    tree = [];
    edges = [];
    graph = none;
    tabs = first_tabs;
    result = codes "No evaluation yet.";
    session_status = codes "Opening session…";
    evaluate_disabled = true;
    parse_disabled = false;
    message = (codes "Parse your source to explore its structure.", false);
    player = player;
    parsing = none;
    evaluating = 0;
  }

  -- location.reload(): the page is opened again, with the stored session.
  unfoldable pub reload : Program → Player → Page → Page
  unfolding opened
  reload program player p = opened program p.session player

  -- start(true) after the answer to the request for a new session; what the browser restores of the
  -- page when it is loaded again is given.
  unfoldable pub renewed : Answer Text → Program → Player → Page → Page
  unfolding created reload
  renewed (returned e id) program player p = reload program player (created (returned e id) p)
  renewed (thrown m) program player p = created (thrown m) p

  -- A disabled button fires nothing, and an answer comes only to a request underway.
  unfoldable pub handle : Event → Page → Page
  handle click_parse p = if p.parse_disabled then p else record p {
    player = stop p.player;
    parse_disabled = true;
    evaluate_disabled = true;
    parsing = some (program_of p);
  }
  handle (parse_answer f) p = parse_answered u p.parsing (api f) p
  handle click_evaluate p =
      if p.evaluate_disabled
      then p
      else record p { evaluate_disabled = true; evaluating = suc p.evaluating }
  handle (evaluate_answer f) p = evaluate_answered p.evaluating (api f) p
  handle (edit_source text) p =
      changed (record p { source_area = Editor.handle u (Editor.input text) p.source_area })
  handle (edit_expression text) p =
      changed (record p { expression_area = Editor.handle u (Editor.input text) p.expression_area })
  handle (load_sample s) p = record (refresh_editors u (set_program u (samples s) p)) {
    evaluate_disabled = true;
    message = (codes "Sample loaded. Parse to start a new Frame.", false);
  }
  handle (start_answer stored new) p = started stored new p
  handle click_new_session p = record p { player = stop p.player }
  handle (new_session_answer new program player) p = renewed (api new) program player p
  handle (click_tab n) p = record p { tabs = tab n p.tabs }
  handle (play e) p = record p { player = Playback.handle e p.player }

  unfoldable pub handle_all : List Event → Page → Page
  handle_all [] p = p
  handle_all (e ∷ es) p = handle_all es (handle e p)
