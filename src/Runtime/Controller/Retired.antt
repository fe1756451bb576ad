-- ===== src/Runtime/Controller/Retired.antt =====
-- A process whose background work has ended is not killed for what its journal said before.
use Prim.Native.String.{String}
use lcl_fastapi.Prelude.{
  ℕ, suc, ◌⊎◌, Text, Bool, true, Option, some, List, [], ◌∷◌, ◌++◌, ◌≡◌, refl, sym, ap, ◌∙◌, subst,
  arith, ◌==◌, Has, All, inl, inr,
}
use lcl_fastapi.Runtime.State.Value.{Record, get, has_key}
use lcl_fastapi.Runtime.State.Identity.{Identity, identity_record}
use lcl_fastapi.Background.Journal.{
  Events, stop_or_retire, pid_of, is_retired, put_stopping, pop_stopping,
}
use lcl_fastapi.Background.Writer.{
  Fields, plain, deadline, retired, fields_record, put, merge, event_record, numbered, complete,
  flush,
}
use lcl_fastapi.Background.Writer.Lines.{consume}
use lcl_fastapi.Background.Writer.Carried.{
  Step, emitting, flushing, reading, emitted, run, IsFaithful, new_journal, run-flushed,
}
use lcl_fastapi.Background.Writer.Delivered.{one_lines}
use lcl_fastapi.Runtime.Controller.{Retirement, ControllerLog, World, read_journal, background_tick}
use lcl_fastapi.Runtime.Controller.Names.{Names}
use lcl_fastapi.Runtime.Controller.Tick.{by_journal, by_retirement, background_tick-KillsTargets}
use lcl_fastapi.Runtime.Controller.Announced.{
  IsQuiet, written, stopping-take_line, quiet-stopping, read_journal-some,
}

==_refl : (n : ℕ) → (n == n) ≡ true
==_refl n = ground arith

module _ (i : Identity) (service_id : String) where
  -- No process is stopping, or this one alone.
  abbrev IsAlone : List (ℕ × Record) → Type 0
  IsAlone s = (s ≡ []) ⊎ ((r : Record) × (s ≡ (i.pid, r) ∷ []))

  stop_or_retire-IsAlone :
      (n level : ℕ) (message : String) (fields : Fields) (s : List (ℕ × Record))
      → IsAlone s
      → let r = written i service_id n level message fields in
        IsAlone (stop_or_retire (pid_of r) r s)
  unfolding put event_record merge identity_record fields_record get has_key stop_or_retire pid_of
      is_retired put_stopping pop_stopping
  stop_or_retire-IsAlone n level message plain s h = h
  stop_or_retire-IsAlone n level message (deadline t) s (inl e) = rw e (inr (_, refl))
  stop_or_retire-IsAlone n level message (deadline t) s (inr (q, e)) =
      rw (e, ==_refl i.pid) (inr (_, refl))
  stop_or_retire-IsAlone n level message retired s (inl e) = rw e (inl refl)
  stop_or_retire-IsAlone n level message retired s (inr (q, e)) = rw (e, ==_refl i.pid) (inl refl)

  stop_or_retire-retired :
      (n level : ℕ) (message : String) (s : List (ℕ × Record))
      → IsAlone s
      → let r = written i service_id n level message retired in stop_or_retire (pid_of r) r s ≡ []
  unfolding put event_record merge identity_record fields_record get has_key stop_or_retire pid_of
      is_retired put_stopping pop_stopping
  stop_or_retire-retired n level message s (inl e) = rw e refl
  stop_or_retire-retired n level message s (inr (q, e)) = rw (e, ==_refl i.pid) refl

  module _ (encode : Record → Text) (decode : Text → Option Record) where
    -- After the mark of the end no process is stopping.
    ended :
        (n : ℕ) (before after : List Step) (level : ℕ) (message : String) (e : Events)
        → IsAlone e.stopping
        → All IsQuiet after
        → All
            (IsFaithful encode decode service_id)
            (numbered n (emitted i service_id (before ++ emitting level message retired ∷ after)))
        → (consume encode decode service_id
            (numbered n (emitted i service_id (before ++ emitting level message retired ∷ after)))
            e).stopping
          ≡ []
    unfolding numbered emitted consume
    ended n [] after level message e h q f =
        quiet-stopping i service_id encode decode (suc n) after _ q f.1
        ∙ stopping-take_line i service_id encode decode (suc n) level message retired e f.0.1
        ∙ stop_or_retire-retired (suc n) level message e.stopping h
    ended n (flushing ∷ before) after level message e h q f =
        ended n before after level message e h q f
    ended n (reading ∷ before) after level message e h q f =
        ended n before after level message e h q f
    ended n (emitting l m fields ∷ before) after level message e h q f =
        ended (suc n) before after level message _
          (subst IsAlone
            (sym (stopping-take_line i service_id encode decode (suc n) l m fields e f.0.1))
            (stop_or_retire-IsAlone (suc n) l m fields e.stopping h))
          q f.1

-- A process whose background manager has announced that it is done, and nothing but plain events since,
-- is not killed by a tick of the controller, whatever deadline it announced before: even if the tick
-- is a forced one and the process still runs. The controller must not have been asked to retire it,
-- and starts at the journal's beginning with no stopping process; each record is written on one line
-- and read back as it was.
pub background_tick-spared :
    (encode : Record → Text) (decode : Text → Option Record) (service_id : String) (i : Identity)
    (before after : List Step) (level : ℕ) (message : String) (e : Events) (c : ControllerLog)
    (world : World) (force : Bool)
    → e.offset ≡ 0
    → e.stopping ≡ []
    → All
        (IsFaithful encode decode service_id)
        (numbered 0 (emitted i service_id (before ++ emitting level message retired ∷ after)))
    → All IsQuiet after
    → c.background
      ≡ (run encode decode service_id
          (before ++ emitting level message retired ∷ after)
          (new_journal encode decode service_id i, e)).1
    → world.journal
      ≡ some
          (flush encode complete
            (run encode decode service_id
              (before ++ emitting level message retired ∷ after)
              (new_journal encode decode service_id i, e)).0).file
    → ((r : Retirement) → Has c.retirements r → ¬ Names r.worker i)
    → ¬ Has (background_tick decode service_id world force c).killed i
background_tick-spared encode decode service_id i before after level message e c world force at none
      faithful quiet heard file kept killed =
    let steps = before ++ emitting level message retired ∷ after in
    let rs = numbered 0 (emitted i service_id steps) in
    let events : read_journal decode service_id world.journal c.background
        ≡ consume encode decode service_id rs e =
      read_journal-some decode service_id world.journal c.background (sym heard) file
      ∙ run-flushed encode decode service_id i steps e at
          (one_lines encode decode service_id rs faithful) in
    let empty =
      ap (λ (x : Events). x.stopping) events
      ∙ ended i service_id encode decode 0 before after level message e (inl none) quiet faithful in
    let kills = background_tick-KillsTargets decode service_id world force c in
    elim (kills.only i killed).0 [
      | by_journal pid r there live over names ↦ subst (λ s. Has s (pid, r)) empty there
      | by_retirement r there live over names ↦ kept r there names
    ]
