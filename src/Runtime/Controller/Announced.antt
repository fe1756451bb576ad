-- ===== src/Runtime/Controller/Announced.antt =====
-- A process that announces a stop and does not end in time is killed by the controller.
use Prim.Native.String.{String}
use text.Mathlib.TextPositions.{eq_refl}
use lcl_fastapi.Prelude.{
  ℕ, suc, ◌≤◌, ◌<◌, Text, Bool, true, ◌||◌, Option, some, List, [], ◌∷◌, ◌++◌, ◌≡◌, refl, sym, ap,
  ◌∙◌, subst, arith, ◌==◌, leb, Has, All, Bool-cases, inl, inr,
}
use lcl_fastapi.Runtime.State.Value.{int, float, str, Record, get, has_key, value_eq, numeric}
use lcl_fastapi.Runtime.State.Identity.{
  Identity, Runs, identity_record, valid_pid, valid_time, is_live-running, valid_pid-int,
}
use lcl_fastapi.Background.Journal.{
  Events, read, take_line, take_record, stop_or_retire, pid_of, is_retired, put_stopping,
}
use lcl_fastapi.Background.Expiry.{deadline_of}
use lcl_fastapi.Background.Writer.{
  Fields, plain, deadline, retired, fields_record, put, merge, event_record, numbered, complete,
  line, flush,
}
use lcl_fastapi.Background.Writer.Lines.{consume}
use lcl_fastapi.Background.Writer.Carried.{
  Step, emitting, flushing, reading, emitted, run, new_journal, IsFaithful, run-flushed,
}
use lcl_fastapi.Background.Writer.Delivered.{one_lines}
use lcl_fastapi.Runtime.Controller.{ControllerLog, World, read_journal, background_tick}
use lcl_fastapi.Runtime.Controller.Names.{Names}
use lcl_fastapi.Runtime.Controller.Kills.{Holds}
use lcl_fastapi.Runtime.Controller.Tick.{by_journal, background_tick-KillsTargets}

-- Nothing but plain events: neither another deadline nor the end.
abbrev pub IsQuiet : Step → Type 0
IsQuiet (emitting level message plain) = Unit
IsQuiet (emitting level message _) = ⊥
IsQuiet flushing = Unit
IsQuiet reading = Unit

Has-put_stopping :
    (pid : ℕ) (r : Record) (s : List (ℕ × Record)) → Has (put_stopping pid r s) (pid, r)
unfolding put_stopping
Has-put_stopping pid r [] = inl refl
Has-put_stopping pid r ((other, q) ∷ s) = elim (Bool-cases (pid == other)) [
  | inl e ↦ rw e (inl refl)
  | inr e ↦ rw e (inr (Has-put_stopping pid r s))
]

module _ (i : Identity) (service_id : String) where
  -- The record of an event with its number.
  abbrev pub written : ℕ → ℕ → String → Fields → Record
  written n level message fields =
      put (event_record i service_id level message fields) "sequence" (int n)

  written-start :
      (n level : ℕ) (message : String) (fields : Fields)
      → value_eq (get (written n level message fields) "service_id") (str service_id) ≡ true
  unfolding put event_record merge identity_record fields_record get value_eq
  written-start n level message plain = eq_refl service_id
  written-start n level message (deadline t) = eq_refl service_id
  written-start n level message retired = eq_refl service_id

  stop_or_retire-deadline :
      (n level : ℕ) (message : String) (t : ℕ) (s : List (ℕ × Record))
      → let r = written n level message (deadline t) in
        (stop_or_retire (pid_of r) r s ≡ put_stopping i.pid r s)
        × (deadline_of r ≡ t)
        × (get r "pid" ≡ int i.pid)
        × (get r "process_create_time" ≡ float i.created)
  unfolding put event_record merge identity_record fields_record get has_key stop_or_retire pid_of
      is_retired deadline_of numeric
  stop_or_retire-deadline n level message t s = (refl, refl, refl, refl)

  pub stop_or_retire-plain :
      (n level : ℕ) (message : String) (s : List (ℕ × Record))
      → let r = written n level message plain in stop_or_retire (pid_of r) r s ≡ s
  unfolding put event_record merge identity_record fields_record get has_key stop_or_retire pid_of
      is_retired
  stop_or_retire-plain n level message s = refl

  module _ (encode : Record → Text) (decode : Text → Option Record) where
    pub stopping-take_line :
        (n level : ℕ) (message : String) (fields : Fields) (e : Events)
        → decode (line encode (written n level message fields))
          ≡ some (written n level message fields)
        → let r = written n level message fields in
          (take_line decode service_id (line encode r) e).stopping
          ≡ stop_or_retire (pid_of r) r e.stopping
    unfolding take_line take_record
    stopping-take_line n level message fields e d =
        rw (d, written-start n level message fields) refl

    pub quiet-stopping :
        (n : ℕ) (steps : List Step) (e : Events)
        → All IsQuiet steps
        → All (IsFaithful encode decode service_id) (numbered n (emitted i service_id steps))
        → (consume encode decode service_id (numbered n (emitted i service_id steps)) e).stopping
          ≡ e.stopping
    unfolding numbered emitted consume
    quiet-stopping n [] e q f = refl
    quiet-stopping n (flushing ∷ steps) e q f = quiet-stopping n steps e q.1 f
    quiet-stopping n (reading ∷ steps) e q f = quiet-stopping n steps e q.1 f
    quiet-stopping n (emitting level message plain ∷ steps) e q f =
        quiet-stopping (suc n) steps _ q.1 f.1
        ∙ stopping-take_line (suc n) level message plain e f.0.1
        ∙ stop_or_retire-plain (suc n) level message e.stopping
    quiet-stopping n (emitting level message (deadline t) ∷ steps) e q f = absurd q.0
    quiet-stopping n (emitting level message retired ∷ steps) e q f = absurd q.0

    -- The announced deadline is among the stopping processes.
    announced :
        (n : ℕ) (before after : List Step) (level : ℕ) (message : String) (t : ℕ) (e : Events)
        → All IsQuiet after
        → All (IsFaithful encode decode service_id) (
            numbered n
              (emitted i service_id (before ++ emitting level message (deadline t) ∷ after)))
        → (k : ℕ) × Has
            (consume encode decode service_id
              (numbered n
                (emitted i service_id (before ++ emitting level message (deadline t) ∷ after)))
              e).stopping
            (i.pid, written k level message (deadline t))
    unfolding numbered emitted consume
    announced n [] after level message t e q f =
        let r = written (suc n) level message (deadline t) in
        (
          suc n,
          subst (λ s. Has s (i.pid, r))
              (sym (
                quiet-stopping (suc n) after _ q f.1
                ∙ stopping-take_line (suc n) level message (deadline t) e f.0.1
                ∙ (stop_or_retire-deadline (suc n) level message t e.stopping).0))
              (Has-put_stopping i.pid r e.stopping),
        )
    announced n (flushing ∷ before) after level message t e q f =
        announced n before after level message t e q f
    announced n (reading ∷ before) after level message t e q f =
        announced n before after level message t e q f
    announced n (emitting l m fields ∷ before) after level message t e q f =
        announced (suc n) before after level message t _ q f.1

pub read_journal-some :
    (decode : Text → Option Record) (service_id : String) (journal : Option Text) (heard : Events)
    {text : Text} {e : Events}
    → e ≡ heard
    → journal ≡ some text
    → read_journal decode service_id journal heard ≡ read decode service_id text e
unfolding read_journal
read_journal-some decode service_id journal heard h f = rw f (ap (read decode service_id _) (sym h))

-- A background manager announces in the journal until when it stops. Where its process still runs at
-- a tick of the controller at that time or later, and has not said since that it is done, the tick
-- kills it, if the kill is allowed: whatever the threads emitted before and since, and however the
-- flushes and the controller's reads fell. This is for a controller that starts at the journal's
-- beginning, and where each record is written on one line and read back as it was.
pub background_tick-announced :
    (encode : Record → Text) (decode : Text → Option Record) (service_id : String) (i : Identity)
    (before after : List Step) (level : ℕ) (message : String) (t : ℕ) (e : Events)
    (c : ControllerLog) (world : World) (force : Bool)
    → 0 < i.pid
    → e.offset ≡ 0
    → All
        (IsFaithful encode decode service_id)
        (numbered 0 (emitted i service_id (before ++ emitting level message (deadline t) ∷ after)))
    → All IsQuiet after
    → c.background
      ≡ (run encode decode service_id
          (before ++ emitting level message (deadline t) ∷ after)
          (new_journal encode decode service_id i, e)).1
    → world.journal
      ≡ some
          (flush encode complete
            (run encode decode service_id
              (before ++ emitting level message (deadline t) ∷ after)
              (new_journal encode decode service_id i, e)).0).file
    → Runs world.seen i
    → Holds world.acting i
    → ((j : Identity) → world.allowed j ≡ true)
    → t ≤ world.time
    → Has (background_tick decode service_id world force c).killed i
background_tick-announced encode decode service_id i before after level message t e c world force
      pos at faithful quiet heard file runs held allowed late =
    let steps = before ++ emitting level message (deadline t) ∷ after in
    let rs = numbered 0 (emitted i service_id steps) in
    let (k, there) =
      announced i service_id encode decode 0 before after level message t e quiet faithful in
    let (_, due, pid, created) = stop_or_retire-deadline i service_id k level message t [] in
    let events : read_journal decode service_id world.journal c.background
        ≡ consume encode decode service_id rs e =
      read_journal-some decode service_id world.journal c.background (sym heard) file
      ∙ run-flushed encode decode service_id i steps e at
          (one_lines encode decode service_id rs faithful) in
    let kills = background_tick-KillsTargets decode service_id world force c in
    let names : Names (written i service_id k level message (deadline t)) i = record {
      pid = ap valid_pid pid ∙ valid_pid-int i.pid pos;
      created = ap valid_time created ∙ (unfold valid_time in refl);
    } in
    kills.every (kills.ends allowed) i
      (by_journal i.pid (written i service_id k level message (deadline t))
        (subst
          (λ (x : Events).
            Has x.stopping (i.pid, written i service_id k level message (deadline t)))
          (sym events) there)
        (is_live-running world.seen _ i names.pid names.created runs)
        (overdue (deadline_of (written i service_id k level message (deadline t))) due) names)
      held
  where
    overdue : (d : ℕ) → d ≡ t → (force || leb d world.time) ≡ true
    overdue d h = ground (arith, h, late)
