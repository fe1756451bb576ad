-- ===== src/Background/Removal.antt =====
-- The end of the loop of `read` of BackgroundEvents in src/lcl_fastapi/background/journal.py: a
-- journal is removed when the process of its last record has ended.
pub mod Ended
use Prim.Native.String.{String}
use lcl_fastapi.Prelude.{
  ◌+◌, ◌<◌, Text, Bool, true, false, not, Option, none, some, List, [], ◌∷◌, ◌++◌, ◌≡◌, refl, ap,
  ◌∙◌, if◌then◌else◌, All, ◌⊎◌, inl, inr,
}
use lcl_fastapi.Runtime.State.Value.{int, str, Record, get, value_eq}
use lcl_fastapi.Runtime.State.Identity.{
  Identity, ProcessTable, Runs, is_live, is_live-running, is_live-ended, valid_pid, valid_time,
  valid_pid-int,
}
use lcl_fastapi.Background.Journal.{Events, read, take_line, take_record}
use lcl_fastapi.Background.Writer.{BackgroundJournal, event_record, line}
use lcl_fastapi.Background.Writer.Lines.{consume}
use lcl_fastapi.Background.Writer.Typed.{IsTyped}
use lcl_fastapi.Background.Writer.Carried.{
  Step, emitting, flushing, reading, emitted, messages, run, step, IsFaithful,
}

-- last is not None and not is_live(last)
unfoldable pub has_ended : ProcessTable → Option Record → Bool
has_ended table none = false
has_ended table (some r) = not (is_live table r)

pub emitted-append :
    (i : Identity) (service_id : String) (xs ys : List Step)
    → emitted i service_id (xs ++ ys) ≡ emitted i service_id xs ++ emitted i service_id ys
unfolding emitted
emitted-append i service_id [] ys = refl
emitted-append i service_id (emitting level message fields ∷ xs) ys =
    ap (λ rs. event_record i service_id level message fields ∷ rs)
      (emitted-append i service_id xs ys)
emitted-append i service_id (flushing ∷ xs) ys = emitted-append i service_id xs ys
emitted-append i service_id (reading ∷ xs) ys = emitted-append i service_id xs ys

pub messages-append : (xs ys : List Step) → messages (xs ++ ys) ≡ messages xs ++ messages ys
unfolding messages
messages-append [] ys = refl
messages-append (emitting level message fields ∷ xs) ys =
    ap (λ ms. (int level, str message) ∷ ms) (messages-append xs ys)
messages-append (flushing ∷ xs) ys = messages-append xs ys
messages-append (reading ∷ xs) ys = messages-append xs ys

module _ (encode : Record → Text) (decode : Text → Option Record) (service_id : String) where
  -- What is heard, and what the directory then has at the path: `file` is what the file has up to the
  -- last readline, `late` what it has when its process is looked up in `table` and it is unlinked. No
  -- lock keeps the process from writing between the two.
  unfoldable pub collect : ProcessTable → Text → Text → Events → Events × Option Text
  unfolding has_ended
  collect table file late e =
      let after = read decode service_id file e in
      if has_ended table after.identity
      then (record after { offset = 0; identity = none }, none)
      else (after, some late)

  -- The next call: the file is read if the directory still has it.
  unfoldable pub read_again : Option Text → Events → Events
  read_again none e = e
  read_again (some file) e = read decode service_id file e

  pub run-append :
      (xs ys : List Step) (s : BackgroundJournal × Events)
      → run encode decode service_id (xs ++ ys) s
        ≡ run encode decode service_id ys (run encode decode service_id xs s)
  unfolding run
  run-append [] ys s = refl
  run-append (x ∷ xs) ys s = run-append xs ys (step encode decode service_id x s)

  module _ (i : Identity) where
    -- The last record heard is one of this process.
    abbrev pub Tells : Option Record → Type 0
    Tells x = (r : Record) × (x ≡ some r) × IsTyped i service_id r

    pub take_line-Tells :
        (r : Record) (e : Events)
        → decode (line encode r) ≡ some r
        → value_eq (get r "service_id") (str service_id) ≡ true
        → IsTyped i service_id r
        → Tells (take_line decode service_id (line encode r) e).identity
    unfolding take_line take_record
    take_line-Tells r e d s t = rw (d, s) (r, refl, t)

    pub consume-Tells :
        (rs : List Record) (e : Events)
        → All (IsFaithful encode decode service_id) rs
        → All (λ r. value_eq (get r "service_id") (str service_id) ≡ true) rs
        → All (IsTyped i service_id) rs
        → Tells e.identity
        → Tells (consume encode decode service_id rs e).identity
    unfolding consume
    consume-Tells [] e f s t h = h
    consume-Tells (r ∷ rs) e f s t h =
        consume-Tells rs _ f.1 s.1 t.1 (take_line-Tells r e f.0.1 s.0 t.0)

    -- What is heard after any records but none at all.
    pub identity-consume :
        (rs : List Record) (e : Events)
        → All (IsFaithful encode decode service_id) rs
        → All (λ r. value_eq (get r "service_id") (str service_id) ≡ true) rs
        → All (IsTyped i service_id) rs
        → e.identity ≡ none
        → ((consume encode decode service_id rs e).identity ≡ none)
          ⊎ Tells (consume encode decode service_id rs e).identity
    unfolding consume
    identity-consume [] e f s t h = inl h
    identity-consume (r ∷ rs) e f s t h =
        inr (consume-Tells rs _ f.1 s.1 t.1 (take_line-Tells r e f.0.1 s.0 t.0))

    pub Tells-live :
        (table : ProcessTable) (x : Option Record)
        → 0 < i.pid
        → Runs table i
        → Tells x
        → has_ended table x ≡ false
    unfolding has_ended
    Tells-live table x pos runs (r, e, t) =
        rw
          (
            e,
            is_live-running table r i (ap valid_pid t.pid ∙ valid_pid-int i.pid pos)
                (ap valid_time t.created ∙ (unfold valid_time in refl)) runs,
          )
          refl

    pub Tells-ended :
        (table : ProcessTable) (x : Option Record)
        → 0 < i.pid
        → table i.pid ≡ none
        → Tells x
        → has_ended table x ≡ true
    unfolding has_ended
    Tells-ended table x pos gone (r, e, t) =
        rw
          (
            e,
            is_live-ended table r i (ap valid_pid t.pid ∙ valid_pid-int i.pid pos)
                (ap valid_time t.created ∙ (unfold valid_time in refl)) gone,
          )
          refl
