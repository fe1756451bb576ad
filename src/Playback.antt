-- ===== src/Playback.antt =====
-- The trace player of examples/playground/playground_service/static/app.js: `stop`, `step`,
-- `evaluation` and the listeners of the player's buttons, slider and timer. The page's texts are in
-- Workbench.
pub mod Cursor
pub mod Order
use lcl_fastapi.Prelude.{
  ℕ, ◌+◌, ◌-◌, Text, codes, Bool, true, false, List, [], ◌∷◌, ◌==◌, if◌then◌else◌, length, ◌||◌,
}
use lcl_fastapi.Playback.Cursor.{ℤ, pos, negsuc, next, previous, at_end, at_start, event_at}

-- `trace`, `cursor` and `timer`, and what the page shows of them.
pub record Player : Type 0 where
  pub trace : List Text
  pub cursor : ℤ
  pub playing : Bool
  pub position : ℤ × ℕ
  pub shown : Text
  pub slider : ℤ
  pub previous_disabled : Bool
  pub next_disabled : Bool
  pub play_disabled : Bool
  pub slider_disabled : Bool
  pub slider_max : ℕ

-- clearInterval(timer); timer = null
abbrev pub stop : Player → Player
stop p = record p { playing = false }

is_empty : List Text → Bool
is_empty [] = true
is_empty (e ∷ es) = false

-- trace.length ? `${cursor + 1} / ${trace.length}` : "0 / 0"
unfoldable pub position_of : List Text → ℤ → ℤ × ℕ
position_of [] c = (pos 0, 0)
position_of trace c = (next c, length trace)

-- trace[cursor] || "No events captured."
unfoldable pub text_or_none : Text → Text
text_or_none [] = codes "No events captured."
text_or_none t = t

unfoldable pub step : Player → Player
unfolding position_of text_or_none
step p =
    let shown = record p {
      position = position_of p.trace p.cursor;
      shown = text_or_none (event_at p.trace p.cursor);
      slider = p.cursor;
      previous_disabled = at_start p.cursor;
      next_disabled = at_end p.cursor (length p.trace);
    } in
    if at_end p.cursor (length p.trace) then stop shown else shown

-- `evaluation`, without the texts of the result: a new trace from its first event.
unfoldable pub evaluation : List Text → Player → Player
unfolding is_empty step
evaluation trace p = step (record p {
  trace = trace;
  cursor = pos 0;
  playing = false;
  play_disabled = is_empty trace;
  slider_disabled = is_empty trace;
  slider_max = length trace - 1;
})

-- trace = []; step()
unfoldable pub clear : Player → Player
unfolding step
clear p = step (record p { trace = [] })

-- What the user does with the player, and what the timer does.
pub data Event : Type 0 where
  click_previous click_next click_play : Event
  move_slider : ℕ → Event
  timer : Event

-- if (cursor >= trace.length - 1) cursor = -1
rewound : Player → ℤ
rewound p = if at_end p.cursor (length p.trace) then negsuc 0 else p.cursor

-- A disabled control fires nothing, and the timer only fires while it is set.
unfoldable pub handle : Event → Player → Player
unfolding step rewound
handle click_previous p =
    if p.previous_disabled
    then p
    else step (record p { playing = false; cursor = previous p.cursor })
handle click_next p =
    if p.next_disabled then p else step (record p { playing = false; cursor = next p.cursor })
handle (move_slider n) p =
    if p.slider_disabled then p else step (record p { playing = false; cursor = pos n })
handle click_play p =
    if p.play_disabled
    then p
    else if p.playing
    then stop p
    else record p { cursor = rewound p; playing = true }
handle timer p = if p.playing then step (record p { cursor = next p.cursor }) else p

unfoldable pub handle_all : List Event → Player → Player
handle_all [] p = p
handle_all (e ∷ es) p = handle_all es (handle e p)
