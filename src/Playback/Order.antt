-- ===== src/Playback/Order.antt =====
-- What playing a trace shows, and where the cursor can be.
use lcl_fastapi.Prelude.{
  ℕ, zero, suc, ◌+◌, Text, true, false, List, [], ◌∷◌, ◌≡◌, refl, arith, leb, if◌then◌else◌,
  if_true, subst, sym, length, Bool-cases, inl, inr, ◌∙◌, ap,
}
use lcl_fastapi.Playback.Cursor.{pos, negsuc, next, previous, at_end, event_at}
use lcl_fastapi.Playback.{
  Player, step, Event, click_previous, click_play, timer, rewound, text_or_none, position_of,
  handle, handle_all,
}

abbrev pub ticks : ℕ → List Event
ticks zero = []
ticks (suc n) = timer ∷ ticks n

-- The page shows the event at the cursor, or says that there is none, and the cursor's position on
-- the slider and in the text beside it.
pub record IsShown (p : Player) : Type 0 where
  pub event : p.shown ≡ text_or_none (event_at p.trace p.cursor)
  pub position : p.position ≡ position_of p.trace p.cursor
  pub slider : p.slider ≡ p.cursor

IsShown-step : (p : Player) → IsShown (step p)
unfolding step
IsShown-step p = elim (Bool-cases (at_end p.cursor (length p.trace))) [
  | inl e ↦ rw e (record { event = refl; position = refl; slider = refl })
  | inr e ↦ rw e (record { event = refl; position = refl; slider = refl })
]

-- One tick before the last event shows the next event and goes on, or stops at the last one.
handle-timer :
    (p : Player) (c : ℕ)
    → p.playing ≡ true
    → next p.cursor ≡ pos c
    → ((handle timer p).cursor ≡ pos c)
      × ((handle timer p).trace ≡ p.trace)
      × ((handle timer p).playing ≡ (if leb (length p.trace) (c + 1) then false else true))
unfolding handle step
handle-timer p c h e = ground (arith, h, e)

IsShown-timer : (p : Player) → p.playing ≡ true → IsShown (handle timer p)
unfolding handle
IsShown-timer p h =
    subst IsShown (sym (if_true p.playing (step (record p { cursor = next p.cursor })) p h))
      (IsShown-step (record p { cursor = next p.cursor }))

click_play-handle :
    (p : Player)
    → p.play_disabled ≡ false
    → p.playing ≡ false
    → handle click_play p ≡ record p { cursor = rewound p; playing = true }
unfolding handle
click_play-handle p en still = rw (en, still)

-- From a running player, as many ticks as there are events left show the last event and stop.
handle_all-ticks :
    (d : ℕ) (p : Player) (c : ℕ)
    → p.playing ≡ true
    → next p.cursor ≡ pos c
    → c + d + 1 ≡ length p.trace
    → ((handle_all (ticks (suc d)) p).cursor ≡ pos (c + d))
      × ((handle_all (ticks (suc d)) p).playing ≡ false)
      × ((handle_all (ticks (suc d)) p).trace ≡ p.trace)
      × IsShown (handle_all (ticks (suc d)) p)
unfolding handle_all
handle_all-ticks zero p c h e len =
    let (a, t, b) = handle-timer p c h e in
    (a ∙ ap pos (omega arith), ground (arith, a, b, t), t, IsShown-timer p h)
handle_all-ticks (suc d) p c h e len =
    let (a, t, b) = handle-timer p c h e in
    let q = handle timer p in
    let go =
      handle_all-ticks d q (suc c) (ground (arith, b)) (rw a refl) (omega (arith, ap length t)) in
    (go.0 ∙ ap pos (omega arith), go.1, go.2 ∙ t, go.3)

-- What the page shows of a player at the last event of a trace.
IsShown-at :
    (p : Player) (trace : List Text) (n : ℕ)
    → p.trace ≡ trace
    → p.cursor ≡ pos n
    → suc n ≡ length trace
    → IsShown p
    → (p.shown ≡ text_or_none (event_at trace (pos n)))
      × (p.position ≡ (pos (length trace), length trace))
unfolding position_of
IsShown-at p [] n t e len h = absurd (omega (arith, len))
IsShown-at p (x ∷ trace) n t e len h = (
  h.event
      ∙ ap (λ u. text_or_none (event_at u p.cursor)) t
      ∙ ap (λ u. text_or_none (event_at (x ∷ trace) u)) e,
  h.position
      ∙ ap (λ u. position_of u p.cursor) t
      ∙ ap (λ u. position_of (x ∷ trace) u) e
      ∙ ap (λ u. (pos u, length (x ∷ trace))) len,
)

-- Play, pressed before the last event, or at it, which starts again from the first: after one tick
-- for each event that is left, the page shows the last event of the trace, or says that none was
-- captured if its text is empty, and the last position; the cursor is at it and the player has
-- stopped.
pub play-ticks :
    (p : Player) (c d : ℕ)
    → p.play_disabled ≡ false
    → p.playing ≡ false
    → next (if at_end p.cursor (length p.trace) then negsuc 0 else p.cursor) ≡ pos c
    → c + d + 1 ≡ length p.trace
    → let q = handle_all (click_play ∷ ticks (suc d)) p in
      (q.cursor ≡ pos (c + d))
      × (q.playing ≡ false)
      × (q.trace ≡ p.trace)
      × (q.shown ≡ text_or_none (event_at p.trace (pos (c + d))))
      × (q.position ≡ (pos (length p.trace), length p.trace))
unfolding handle_all
play-ticks p c d en still e len =
    rw (click_play-handle p en still, handle_all)
      (let q : Player = record p { cursor = rewound p; playing = true } in
        let (at, stopped, same, shown) = handle_all-ticks d q c refl (unfold rewound in e) len in
        let (event, position) =
          IsShown-at (handle_all (ticks (suc d)) q) p.trace (c + d) same at (omega (arith, len))
            shown in
        (at, stopped, same, event, position))

cursor-step : (p : Player) → (step p).cursor ≡ p.cursor
unfolding step
cursor-step p = ground arith

rewound_at_end :
    (p : Player) (c : ℕ) → p.cursor ≡ pos c → length p.trace ≡ suc c → rewound p ≡ negsuc 0
unfolding rewound
rewound_at_end p c at len = ground arith

cursor-click_previous :
    (p : Player)
    → p.previous_disabled ≡ false
    → (handle click_previous p).cursor ≡ previous p.cursor
unfolding handle
cursor-click_previous p up =
    rw up (cursor-step (record p { playing = false; cursor = previous p.cursor }))

-- Play pressed at the last of two or more events sets the cursor to -1 and leaves Previous enabled:
-- pressed before the first tick, Previous moves the cursor to -2, where the trace has no event.
pub click_previous-rewound :
    (p : Player) (c : ℕ) (trace : List Text)
    → p.cursor ≡ pos (suc c)
    → length p.trace ≡ suc (suc c)
    → p.play_disabled ≡ false
    → p.playing ≡ false
    → p.previous_disabled ≡ false
    → ((handle_all (click_play ∷ click_previous ∷ []) p).cursor ≡ negsuc 1)
      × (event_at trace (handle_all (click_play ∷ click_previous ∷ []) p).cursor ≡ [])
unfolding handle_all
click_previous-rewound p c trace at len en still up =
    let q : Player = record p { cursor = rewound p; playing = true } in
    let e : (handle click_previous (handle click_play p)).cursor ≡ negsuc 1 =
      ap (λ x. (handle click_previous x).cursor) (click_play-handle p en still)
      ∙ cursor-click_previous q up
      ∙ ap previous (rewound_at_end p (suc c) at len) in
    (e, rw e (unfold event_at in refl))
