-- ===== src/Tests/Page.antt =====
-- The highlighter and the trace player of the playground at concrete inputs.
use lcl_fastapi.Prelude.{
  ℕ, Text, codes, same_text, Bool, true, false, ◌||◌, none, List, [], ◌∷◌, ◌≡◌, refl, within,
}
use lcl_fastapi.Highlight.Token.{Token}
use lcl_fastapi.Highlight.Pattern.{CharTables}
use lcl_fastapi.Highlight.Editor
use lcl_fastapi.Highlight.Editor.{
  Page, attached, already_highlighted, attach, destroy, input, scroll, wrap_up,
}
use lcl_fastapi.Highlight.Editor.Mirror.{Mirrors, attach-Mirrors, destroy-attach}
use lcl_fastapi.Playback
use lcl_fastapi.Playback.{Player, text_or_none, click_play, click_previous}
use lcl_fastapi.Playback.Cursor.{pos, negsuc, event_at}
use lcl_fastapi.Playback.Order.{ticks, play-ticks, click_previous-rewound}

abbrev pub is_ascii_letter : ℕ → Bool
is_ascii_letter c = within b'a' b'z' c || within b'A' b'Z' c

abbrev pub ascii : CharTables
ascii = record {
  id_start = is_ascii_letter;
  id_continue = λ c. is_ascii_letter c || within b'0' b'9' c;
}

abbrev source : Text
source = codes "if a<1: 'b\nc"

abbrev area : Page
area = record {
  tag_name = codes "TEXTAREA";
  value = codes "x = 1";
  wrap = none;
  scroll_top = 3;
  scroll_left = 0;
  on_input = false;
  on_scroll = false;
  backdrop = none;
}

abbrev edits : List Editor.Event
edits = input (codes "x = 2") ∷ scroll 7 1 ∷ []

attach-area : attach ascii area ≡ attached (wrap_up ascii area) none
unfolding attach same_text
attach-area = refl

attach-Mirrors_example : Mirrors ascii (Editor.handle_all ascii edits (wrap_up ascii area))
attach-Mirrors_example = attach-Mirrors ascii area edits attach-area

destroy-attach_example :
    let p' = Editor.handle_all ascii edits (wrap_up ascii area) in
    let r = destroy ascii none p' in
    (r.wrap ≡ none)
    × (r.backdrop ≡ none)
    × (r.on_input ≡ false)
    × (r.on_scroll ≡ false)
    × (r.value ≡ p'.value)
    × (attach ascii r ≡ attached (wrap_up ascii r) none)
    × (attach ascii p' ≡ already_highlighted)
destroy-attach_example = destroy-attach ascii area edits attach-area

-- Three events, at the last of them.
abbrev pub player : Player
player = record {
  trace = codes "a" ∷ codes "b" ∷ codes "c" ∷ [];
  cursor = pos 2;
  playing = false;
  position = (pos 3, 3);
  shown = codes "c";
  slider = pos 2;
  previous_disabled = false;
  next_disabled = true;
  play_disabled = false;
  slider_disabled = false;
  slider_max = 2;
}

play-ticks_example :
    ((Playback.handle_all (click_play ∷ ticks 3) player).cursor ≡ pos 2)
    × ((Playback.handle_all (click_play ∷ ticks 3) player).playing ≡ false)
    × ((Playback.handle_all (click_play ∷ ticks 3) player).trace ≡ player.trace)
    × ((Playback.handle_all (click_play ∷ ticks 3) player).shown
        ≡ text_or_none (event_at player.trace (pos 2)))
    × ((Playback.handle_all (click_play ∷ ticks 3) player).position ≡ (pos 3, 3))
play-ticks_example = play-ticks player 0 2 refl refl refl refl

click_previous-rewound_example :
    ((Playback.handle_all (click_play ∷ click_previous ∷ []) player).cursor ≡ negsuc 1)
    × (event_at player.trace (Playback.handle_all (click_play ∷ click_previous ∷ []) player).cursor
        ≡ [])
click_previous-rewound_example =
    click_previous-rewound player 1 player.trace refl refl refl refl refl
