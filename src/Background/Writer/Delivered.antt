-- ===== src/Background/Writer/Delivered.antt =====
-- Every event of a background manager reaches the controller once, in order.
use Prim.Native.String.{String}
use text.Mathlib.TextPositions.{eq_refl}
use lcl_fastapi.Prelude.{
  ℕ, suc, Text, true, Option, List, [], ◌∷◌, ◌++◌, ◌≡◌, refl, sym, ap, ◌∙◌, append_assoc,
  append-nil, All, map,
}
use lcl_fastapi.Runtime.State.Value.{int, str, Record, get, value_eq}
use lcl_fastapi.Runtime.State.Identity.{Identity}
use lcl_fastapi.Background.Journal.{Events, read, take_line, take_record}
use lcl_fastapi.Background.Writer.{numbered, complete, line, flush}
use lcl_fastapi.Background.Writer.Lines.{IsOneLine, consume}
use lcl_fastapi.Background.Writer.Typed.{IsTyped, put-IsTyped, put-told}
use lcl_fastapi.Background.Writer.Carried.{
  Step, emitting, flushing, reading, emitted, messages, run, IsFaithful, new_journal, run-flushed,
}

module _ (encode : Record → Text) (decode : Text → Option Record) (service_id : String) where
  events-consume :
      (rs : List Record) (e : Events)
      → All (IsFaithful encode decode service_id) rs
      → All (λ r. value_eq (get r "service_id") (str service_id) ≡ true) rs
      → (consume encode decode service_id rs e).events
        ≡ e.events ++ map (λ r. (get r "level", get r "message")) rs
  unfolding consume take_line take_record
  events-consume [] e f h = sym (append-nil e.events)
  events-consume (r ∷ rs) e f h =
      events-consume rs (take_line decode service_id (line encode r) e) f.1 h.1
      ∙ rw (f.0.1, h.0)
          (append_assoc e.events ((get r "level", get r "message") ∷ [])
            (map (λ r. (get r "level", get r "message")) rs))

  -- What the records of the steps say, and of which start they are.
  numbered-messages :
      (i : Identity) (n : ℕ) (steps : List Step)
      → (map (λ r. (get r "level", get r "message")) (numbered n (emitted i service_id steps))
          ≡ messages steps)
        × All
            (λ r. value_eq (get r "service_id") (str service_id) ≡ true)
            (numbered n (emitted i service_id steps))
        × All (IsTyped i service_id) (numbered n (emitted i service_id steps))
  unfolding numbered emitted messages
  numbered-messages i n [] = (refl, tt, tt)
  numbered-messages i n (flushing ∷ steps) = numbered-messages i n steps
  numbered-messages i n (reading ∷ steps) = numbered-messages i n steps
  numbered-messages i n (emitting level message fields ∷ steps) =
      let (said, start, typed) = numbered-messages i (suc n) steps in
      let t = put-IsTyped i service_id level message fields (suc n) in
      (
        ap
              (λ x.
                x
                ∷ map (λ r. (get r "level", get r "message"))
                    (numbered (suc n) (emitted i service_id steps)))
              (put-told i service_id level message fields (suc n))
            ∙ ap (λ xs. (int level, str message) ∷ xs) said,
        (rw t.start (unfold value_eq in rw (eq_refl service_id) refl), start),
        (t, typed),
      )

  pub numbered-start :
      (i : Identity) (n : ℕ) (steps : List Step)
      → All
          (λ r. value_eq (get r "service_id") (str service_id) ≡ true)
          (numbered n (emitted i service_id steps))
  numbered-start i n steps = (numbered-messages i n steps).1

  pub one_lines :
      (rs : List Record)
      → All (IsFaithful encode decode service_id) rs
      → All (IsOneLine encode decode service_id) rs
  one_lines [] h = tt
  one_lines (r ∷ rs) h = (h.0.0, one_lines rs h.1)

  -- Every record that a process writes to its journal has the values that the controller converts, of
  -- the right types, whatever the threads emit: an integer level, a text, the process's PID and
  -- creation time, a number as deadline if there is one, and a Boolean as mark of the end if there is
  -- one.
  pub emitted-IsTyped :
      (i : Identity) (n : ℕ) (steps : List Step)
      → All (IsTyped i service_id) (numbered n (emitted i service_id steps))
  emitted-IsTyped i n steps = (numbered-messages i n steps).2

  -- However the threads' events, the flushes of the manager and the reads of the controller follow
  -- each other: after one more flush and read, the controller has logged every event that was ever
  -- emitted, each once and in the order of the emissions, and no other of this journal. This is for a
  -- controller that starts at the journal's beginning, and where each record is written on one line
  -- and read back as it was.
  pub read-flush :
      (i : Identity) (steps : List Step) (e : Events)
      → e.offset ≡ 0
      → All (IsFaithful encode decode service_id) (numbered 0 (emitted i service_id steps))
      → (read decode service_id
          (flush encode complete
            (run encode decode service_id steps (new_journal encode decode service_id i, e)).0).file
          (run encode decode service_id steps (new_journal encode decode service_id i, e)).1).events
        ≡ e.events ++ messages steps
  read-flush i steps e at faithful =
      let rs = numbered 0 (emitted i service_id steps) in
      let (said, start, typed) = numbered-messages i 0 steps in
      ap (λ (x : Events). x.events)
        (run-flushed encode decode service_id i steps e at (one_lines rs faithful))
      ∙ events-consume rs e faithful start
      ∙ ap (λ xs. e.events ++ xs) said
