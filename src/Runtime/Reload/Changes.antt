-- ===== src/Runtime/Reload/Changes.antt =====
-- One worker retires at a time, and no change is lost.
use Prim.Native.String.{String}
use lcl_fastapi.Prelude.{
  Text, Bool, true, false, not, ◌&&◌, ◌||◌, Option, none, some, List, [], ◌∷◌, ◌≡◌, ◌⊎◌, refl, ap,
  ◌∙◌, arith, Has, All, any, Bool-cases, inl, inr, if_true, if_false,
}
use lcl_fastapi.Runtime.State.Value.{Record}
use lcl_fastapi.Runtime.State.Identity.{ProcessTable, is_live}
use lcl_fastapi.Runtime.Observer.{live_workers}
use lcl_fastapi.Runtime.Reload.{
  Location, Poll, ReloadWatcher, Outcome, retired, is_retiring, is_asked, ask, retire_first,
  accept_change, advance, tick,
}

-- What a tick keeps: the worker that is retiring, unless it is not live any more, and a pending
-- change, unless a worker was asked to retire.
record Keeps (poll : Poll) (w v : ReloadWatcher) (o : Outcome) : Type 0 where
  kept : (v.retiring ≡ w.retiring) ⊎ (is_retiring poll.table w.retiring ≡ false)
  asked :
      (r : Record)
      → o ≡ retired r
      → (v.retiring ≡ some r) × (is_retiring poll.table w.retiring ≡ false)
  pending : w.pending ≡ true → (v.pending ≡ true) ⊎ ((r : Record) × (o ≡ retired r))

same_record : (r q : Record) → retired r ≡ retired q → r ≡ q
same_record r q h = cc

ask-Keeps :
    (uvicorn : Bool) (poll : Poll) (worker : Record) (w : ReloadWatcher)
    → is_retiring poll.table w.retiring ≡ false
    → Keeps poll w
        (ask uvicorn poll worker (record w { retiring = none })).0
        (ask uvicorn poll worker (record w { retiring = none })).1
unfolding ask
ask-Keeps uvicorn poll worker w h = elim (Bool-cases (is_asked uvicorn poll worker)) [
  | inl e ↦ rw e (record {
    kept = inr h;
    asked = λ r q. (ap some (same_record worker r q), h);
    pending = λ p. inr (worker, refl);
  })
  | inr e ↦ rw e (record { kept = inr h; asked = λ r q. cc; pending = λ p. inl p })
]

retire_first-Keeps :
    (uvicorn : Bool) (poll : Poll) (workers : List Record) (w : ReloadWatcher)
    → is_retiring poll.table w.retiring ≡ false
    → Keeps poll w (retire_first uvicorn poll workers w).0 (retire_first uvicorn poll workers w).1
unfolding retire_first
retire_first-Keeps uvicorn poll [] w h = record {
  kept = inl refl;
  asked = λ r q. cc;
  pending = λ p. inl p;
}
retire_first-Keeps uvicorn poll (worker ∷ workers) w h =
    elim (Bool-cases (w.pending && not poll.shutdown_later)) [
      | inl e ↦ rw e (ask-Keeps uvicorn poll worker w h)
      | inr e ↦ rw e (record { kept = inr h; asked = λ r q. cc; pending = λ p. inl p })
    ]

module _ (roots : List (List Text)) (uvicorn : Bool) (service_id : String) where
  advance-Keeps :
      (poll : Poll) (o : Option (List Location)) (w : ReloadWatcher)
      → Keeps poll w
          (advance roots uvicorn service_id poll o w).0
          (advance roots uvicorn service_id poll o w).1
  unfolding advance
  advance-Keeps poll none w = record { kept = inl refl; asked = λ r q. cc; pending = λ p. inl p }
  advance-Keeps poll (some changes) w = elim (Bool-cases (is_retiring poll.table w.retiring)) [
    | inl e ↦ rw e (record { kept = inl refl; asked = λ r q. cc; pending = λ p. inl (still p) })
    | inr e ↦
        let k =
          retire_first-Keeps uvicorn poll (live_workers poll.table service_id poll.files)
            (record w { started = true; pending = w.pending || any (accept_change roots) changes })
            e in
        rw e (record { kept = k.kept; asked = k.asked; pending = λ p. k.pending (still p) })
  ]
    where
      still : w.pending ≡ true → (w.pending || any (accept_change roots) changes) ≡ true
      still p = ground (arith, p)

  tick-Keeps :
      (poll : Poll) (w : ReloadWatcher)
      → Keeps poll w
          (tick roots uvicorn service_id poll w).0
          (tick roots uvicorn service_id poll w).1
  unfolding tick
  tick-Keeps poll w = elim (Bool-cases (not poll.owner || poll.shutdown)) [
    | inl e ↦ rw e (record { kept = inl refl; asked = λ r q. cc; pending = λ p. inl p })
    | inr e ↦ rw e (advance-Keeps poll poll.changes w)
  ]

  unfoldable pub run : List Poll → ReloadWatcher → ReloadWatcher × List Outcome
  run [] w = (w, [])
  run (poll ∷ polls) w =
      let (v, o) = tick roots uvicorn service_id poll w in
      let (last, os) = run polls v in (last, o ∷ os)

  -- The worker is the one that is retiring, or it has ended.
  abbrev IsSettled : ProcessTable → Record → ReloadWatcher → Type 0
  IsSettled table r w = (w.retiring ≡ some r) ⊎ (is_live table r ≡ false)

  -- A worker that was not live in a tick is not live at the end.
  abbrev pub StaysEnded : ProcessTable → Record → Poll → Type 0
  StaysEnded table r poll = is_live poll.table r ≡ false → is_live table r ≡ false

  ended :
      (table : ProcessTable) (r : Record) (poll : Poll) (w : ReloadWatcher)
      → StaysEnded table r poll
      → w.retiring ≡ some r
      → is_retiring poll.table w.retiring ≡ false
      → is_live table r ≡ false
  unfolding is_retiring
  ended table r poll w f e h = f (rw e at h)

  tick-IsSettled :
      (table : ProcessTable) (r : Record) (poll : Poll) (w : ReloadWatcher)
      → StaysEnded table r poll
      → IsSettled table r w
      → IsSettled table r (tick roots uvicorn service_id poll w).0
  tick-IsSettled table r poll w f (inr gone) = inr gone
  tick-IsSettled table r poll w f (inl e) = elim (tick-Keeps poll w).kept [
    | inl same ↦ inl (same ∙ e)
    | inr off ↦ inr (ended table r poll w f e off)
  ]

  run-IsSettled :
      (table : ProcessTable) (r : Record) (polls : List Poll) (w : ReloadWatcher)
      → All (StaysEnded table r) polls
      → IsSettled table r w ⊎ Has (run polls w).1 (retired r)
      → IsSettled table r (run polls w).0
  unfolding run
  run-IsSettled table r [] w f (inl h) = h
  run-IsSettled table r [] w f (inr h) = absurd h
  run-IsSettled table r (poll ∷ polls) w f (inl h) =
      run-IsSettled table r polls _ f.1 (inl (tick-IsSettled table r poll w f.0 h))
  run-IsSettled table r (poll ∷ polls) w f (inr (inl e)) =
      run-IsSettled table r polls _ f.1 (inl (inl ((tick-Keeps poll w).asked r e).0))
  run-IsSettled table r (poll ∷ polls) w f (inr (inr h)) = run-IsSettled table r polls _ f.1 (inr h)

  -- When a tick asks a worker to retire, every worker that an earlier tick asked has ended, if a
  -- process that has ended does not come back: one worker retires at a time.
  pub tick-alone :
      (polls : List Poll) (poll : Poll) (w : ReloadWatcher) (earlier later : Record)
      → All (StaysEnded poll.table earlier) polls
      → Has (run polls w).1 (retired earlier)
      → (tick roots uvicorn service_id poll (run polls w).0).1 ≡ retired later
      → is_live poll.table earlier ≡ false
  tick-alone polls poll w earlier later f h e =
      elim (run-IsSettled poll.table earlier polls w f (inr h)) [
        | inl retiring ↦
            ended poll.table earlier poll (run polls w).0 (λ gone. gone) retiring
              ((tick-Keeps poll (run polls w).0).asked later e).1
        | inr gone ↦ gone
      ]

  run-pending :
      (polls : List Poll) (w : ReloadWatcher)
      → w.pending ≡ true
      → ((run polls w).0.pending ≡ true) ⊎ ((r : Record) × Has (run polls w).1 (retired r))
  unfolding run
  run-pending [] w p = inl p
  run-pending (poll ∷ polls) w p = elim ((tick-Keeps poll w).pending p) [
    | inr (r, e) ↦ inr (r, inl e)
    | inl still ↦ elim (run-pending polls _ still) [ inl q ↦ inl q | inr (r, h) ↦ inr (r, inr h) ]
  ]

  tick-asks :
      (poll : Poll) (w : ReloadWatcher) (changes : List Location) (worker : Record)
      (others : List Record)
      → w.pending ≡ true
      → poll.owner ≡ true
      → poll.shutdown ≡ false
      → poll.shutdown_later ≡ false
      → poll.changes ≡ some changes
      → is_retiring poll.table w.retiring ≡ false
      → live_workers poll.table service_id poll.files ≡ worker ∷ others
      → is_asked uvicorn poll worker ≡ true
      → tick roots uvicorn service_id poll w
        ≡ (record { pending = false; started = true; retiring = some worker }, retired worker)
  unfolding tick advance retire_first ask
  tick-asks poll w changes worker others p owner up later seen free live asked =
      let next = record w {
        started = true;
        pending = w.pending || any (accept_change roots) changes;
      } in
      if_false (not poll.owner || poll.shutdown) _ _ (ground (arith, owner, up))
      ∙ ap (λ o. advance roots uvicorn service_id poll o w) seen
      ∙ if_false (is_retiring poll.table w.retiring) _ _ free
      ∙ ap (λ ws. retire_first uvicorn poll ws next) live
      ∙ if_true (next.pending && not poll.shutdown_later) _ _ (ground (arith, p, later))
      ∙ if_true (is_asked uvicorn poll worker) _ _ asked

  -- A change that is pending is not lost: after any ticks, a worker was asked to retire since, or a
  -- tick of the owner without a shutdown, with no worker retiring and with a live one, asks the first
  -- live one, unless it ended before it could be asked.
  pub tick-retires :
      (polls : List Poll) (poll : Poll) (w : ReloadWatcher) (changes : List Location)
      (worker : Record) (others : List Record)
      → w.pending ≡ true
      → poll.owner ≡ true
      → poll.shutdown ≡ false
      → poll.shutdown_later ≡ false
      → poll.changes ≡ some changes
      → is_retiring poll.table (run polls w).0.retiring ≡ false
      → live_workers poll.table service_id poll.files ≡ worker ∷ others
      → is_asked uvicorn poll worker ≡ true
      → ((r : Record) × Has (run polls w).1 (retired r))
        ⊎ (((tick roots uvicorn service_id poll (run polls w).0).1 ≡ retired worker)
            × ((tick roots uvicorn service_id poll (run polls w).0).0.retiring ≡ some worker)
            × ((tick roots uvicorn service_id poll (run polls w).0).0.pending ≡ false))
  tick-retires polls poll w changes worker others p owner up later seen free live asked =
      elim (run-pending polls w p) [
        | inr h ↦ inl h
        | inl q ↦
            let e =
              tick-asks poll (run polls w).0 changes worker others q owner up later seen free live
                asked in
            inr (
              ap (λ (x : ReloadWatcher × Outcome). x.1) e,
              ap (λ (x : ReloadWatcher × Outcome). x.0.retiring) e,
              ap (λ (x : ReloadWatcher × Outcome). x.0.pending) e,
            )
      ]
