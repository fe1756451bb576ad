-- ===== src/Background/Removal/Ended.antt =====
-- When a journal is removed, and what is removed with it.
use Prim.Native.String.{String}
use lcl_fastapi.Prelude.{
  ℕ, ◌<◌, Text, false, Option, none, some, List, [], ◌∷◌, ◌++◌, ◌≡◌, refl, sym, ap, ◌∙◌, subst, All,
  All-split, append_assoc, inl, inr,
}
use lcl_fastapi.Runtime.State.Value.{int, str, Record}
use lcl_fastapi.Runtime.State.Identity.{Identity, ProcessTable, Runs}
use lcl_fastapi.Background.Journal.{Events, read}
use lcl_fastapi.Background.Writer.{BackgroundJournal, Fields, emit, numbered, complete, flush}
use lcl_fastapi.Background.Writer.Lines.{consume, numbered-append}
use lcl_fastapi.Background.Writer.Carried.{
  Step, emitting, flushing, emitted, messages, run, step, IsFaithful, new_journal, run-flushed,
}
use lcl_fastapi.Background.Writer.Delivered.{one_lines, read-flush, numbered-start, emitted-IsTyped}
use lcl_fastapi.Background.Removal.{
  has_ended, collect, read_again, emitted-append, messages-append, run-append, Tells,
  take_line-Tells, consume-Tells, identity-consume, Tells-live, Tells-ended,
}

module _ (encode : Record → Text) (decode : Text → Option Record) (service_id : String) where
  -- The journal and what was heard of it, after some steps and one more flush.
  abbrev flushed : Identity → List Step → Events → BackgroundJournal × Events
  flushed i steps e =
      let s = run encode decode service_id steps (new_journal encode decode service_id i, e) in
      (flush encode complete s.0, s.1)

  -- The journal of a running process with a PID above 0 is not removed after a flush and a read, however
  -- its events, flushes and reads followed each other before and whatever it has written since. This is for a controller that starts at
  -- the journal's beginning, and where each record is written on one line and read back as it was.
  pub collect-kept :
      (i : Identity) (steps : List Step) (e : Events) (table : ProcessTable) (late : Text)
      → 0 < i.pid
      → e.offset ≡ 0
      → e.identity ≡ none
      → All (IsFaithful encode decode service_id) (numbered 0 (emitted i service_id steps))
      → Runs table i
      → (collect encode decode service_id table
          (flushed i steps e).0.file
          late
          (flushed i steps e).1).1
        ≡ some late
  unfolding collect
  collect-kept i steps e table late pos at fresh faithful runs =
      let rs = numbered 0 (emitted i service_id steps) in
      let heard =
        run-flushed encode decode service_id i steps e at
          (one_lines encode decode service_id rs faithful) in
      let known =
        identity-consume encode decode service_id i rs e faithful
          (numbered-start encode decode service_id i 0 steps)
          (emitted-IsTyped encode decode service_id i 0 steps) fresh in
      let live : has_ended table (consume encode decode service_id rs e).identity ≡ false =
        elim known [
          | inl n ↦ rw n (unfold has_ended in refl)
          | inr t ↦ Tells-live encode decode service_id i table _ pos runs t
        ] in
      let kept = ap (λ (x : Events). has_ended table x.identity) heard ∙ live in rw kept refl

  told :
      (i : Identity) (l : ℕ) (m : String) (f : Fields) (steps : List Step) (e : Events)
      → All
          (IsFaithful encode decode service_id)
          (numbered 0 (emitted i service_id (emitting l m f ∷ steps)))
      → Tells encode decode service_id i
          (consume encode decode service_id
            (numbered 0 (emitted i service_id (emitting l m f ∷ steps)))
            e).identity
  unfolding numbered emitted consume
  told i l m f steps e faithful =
      let start = numbered-start encode decode service_id i 0 (emitting l m f ∷ steps) in
      let typed = emitted-IsTyped encode decode service_id i 0 (emitting l m f ∷ steps) in
      consume-Tells encode decode service_id i (numbered 1 (emitted i service_id steps)) _
        faithful.1 start.1 typed.1
        (take_line-Tells encode decode service_id i _ e faithful.0.1 start.0 typed.0)

  -- The records of the first steps are read back if all are.
  IsFaithful-first :
      (i : Identity) (xs ys : List Step)
      → All (IsFaithful encode decode service_id) (numbered 0 (emitted i service_id (xs ++ ys)))
      → All (IsFaithful encode decode service_id) (numbered 0 (emitted i service_id xs))
  IsFaithful-first i xs ys h =
      (All-split (IsFaithful encode decode service_id) (numbered 0 (emitted i service_id xs)) _ (
        subst (All (IsFaithful encode decode service_id))
          (ap (numbered 0) (emitted-append i service_id xs ys)
            ∙ numbered-append 0 (emitted i service_id xs) (emitted i service_id ys))
          h)).0

  -- What the file tells that was flushed once more after the reading.
  read-late :
      (i : Identity) (steps : List Step) (level : ℕ) (message : String) (fields : Fields)
      (e : Events)
      → e.offset ≡ 0
      → All (IsFaithful encode decode service_id) (
          numbered 0
            (emitted i service_id (steps ++ flushing ∷ emitting level message fields ∷ [])))
      → (read decode service_id
          (flush encode complete (emit level message fields (flushed i steps e).0)).file
          (flushed i steps e).1).events
        ≡ (e.events ++ messages steps) ++ (int level, str message) ∷ []
  unfolding run step messages
  read-late i steps level message fields e at faithful =
      let more = flushing ∷ emitting level message fields ∷ [] in
      ap (λ s. (read decode service_id (flush encode complete s.0).file s.1).events)
        (sym (
          run-append encode decode service_id steps more
            (new_journal encode decode service_id i, e)))
      ∙ read-flush encode decode service_id i (steps ++ more) e at faithful
      ∙ ap (λ ms. e.events ++ ms) (messages-append steps more)
      ∙ sym (append_assoc e.events (messages steps) ((int level, str message) ∷ []))

  -- A process whose journal has been read emits and flushes one more event, so that the file has it,
  -- and ends before the controller looks whether it lives: the controller then removes the file, with
  -- only the events of before the reading heard, and hears no more at its next call. A read of the
  -- file as it was at the removal would have heard the late event too. This is for a
  -- journal with an event before, of a process with a PID above 0 that no other process has got, for a
  -- controller that starts at the journal's beginning, and where each record is written on one line
  -- and read back as it was.
  pub collect-lost :
      (i : Identity) (l : ℕ) (m : String) (f : Fields) (steps : List Step) (level : ℕ)
      (message : String) (fields : Fields) (e : Events) (table : ProcessTable)
      → 0 < i.pid
      → e.offset ≡ 0
      → All (IsFaithful encode decode service_id) (
          numbered 0 (
            emitted i service_id
              ((emitting l m f ∷ steps) ++ flushing ∷ emitting level message fields ∷ [])))
      → table i.pid ≡ none
      → let (j, heard) = flushed i (emitting l m f ∷ steps) e in
        let late = (flush encode complete (emit level message fields j)).file in
        let (after, left) = collect encode decode service_id table j.file late heard in
        (left ≡ none)
        × (after.events ≡ e.events ++ messages (emitting l m f ∷ steps))
        × ((read_again encode decode service_id left after).events ≡ after.events)
        × ((read decode service_id late heard).events
            ≡ (e.events ++ messages (emitting l m f ∷ steps)) ++ (int level, str message) ∷ [])
  unfolding collect
  collect-lost i l m f steps level message fields e table pos at faithful gone =
      let first = emitting l m f ∷ steps in
      let ok = IsFaithful-first i first (flushing ∷ emitting level message fields ∷ []) faithful in
      let heard =
        run-flushed encode decode service_id i first e at
          (one_lines encode decode service_id (numbered 0 (emitted i service_id first)) ok) in
      let ended =
        ap (λ (x : Events). has_ended table x.identity) heard
        ∙ Tells-ended encode decode service_id i table _ pos gone (told i l m f steps e ok) in
      rw ended (
        refl,
        read-flush encode decode service_id i first e at ok,
        unfold read_again in refl,
        read-late i first level message fields e at faithful,
      )
