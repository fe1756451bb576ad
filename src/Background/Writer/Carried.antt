-- ===== src/Background/Writer/Carried.antt =====
-- What the file of a journal holds and the controller has heard of, through any order of events,
-- flushes and reads.
use Prim.Native.String.{String}
use lcl_fastapi.Prelude.{
  All-split, ℕ, ◌+◌, Text, Option, some, List, [], ◌∷◌, ◌++◌, ◌≡◌, refl, sym, ap, ◌∙◌, subst, arith,
  length, length-append, append_assoc, append-nil, All,
}
use lcl_fastapi.Runtime.State.Value.{Value, int, str, Record}
use lcl_fastapi.Runtime.State.Identity.{Identity}
use lcl_fastapi.Background.Journal.{Events, read}
use lcl_fastapi.Background.Writer.{
  BackgroundJournal, Fields, event_record, emit, numbered, complete, appended, line, lines, flush,
}
use lcl_fastapi.Background.Writer.Lines.{
  numbered-append, length-numbered, IsOneLine, consume, consume-append, read-lines, lines-append,
  offset-consume,
}

-- What the threads of the process, its manager and the controller do, in any order.
pub data Step : Type 0 where
  emitting : ℕ → String → Fields → Step
  flushing : Step
  reading : Step

-- The records that the steps put into the queue.
unfoldable pub emitted : Identity → String → List Step → List Record
emitted i service_id [] = []
emitted i service_id (emitting level message fields ∷ steps) =
    event_record i service_id level message fields ∷ emitted i service_id steps
emitted i service_id (flushing ∷ steps) = emitted i service_id steps
emitted i service_id (reading ∷ steps) = emitted i service_id steps

-- The levels and messages of the steps.
unfoldable pub messages : List Step → List (Value × Value)
messages [] = []
messages (emitting level message fields ∷ steps) = (int level, str message) ∷ messages steps
messages (flushing ∷ steps) = messages steps
messages (reading ∷ steps) = messages steps

module _ (encode : Record → Text) (decode : Text → Option Record) (service_id : String) where
  unfoldable pub step : Step → BackgroundJournal × Events → BackgroundJournal × Events
  step (emitting level message fields) (j, e) = (emit level message fields j, e)
  step flushing (j, e) = (flush encode complete j, e)
  step reading (j, e) = (j, read decode service_id j.file e)

  unfoldable pub run : List Step → BackgroundJournal × Events → BackgroundJournal × Events
  run [] s = s
  run (x ∷ steps) s = run steps (step x s)

  -- The controller has heard of a beginning of the lines that were written.
  record Carries (written : List Record) (e₀ : Events) (s : BackgroundJournal × Events)
      : Type 0 where
    done : List Record
    rest : List Record
    file : s.0.file ≡ lines encode done ++ lines encode rest
    heard : s.1 ≡ consume encode decode service_id done e₀
    all : written ≡ done ++ rest
    count : s.0.sequence ≡ length written

  flush-Carries :
      (written : List Record) (e₀ : Events) (j : BackgroundJournal) (e : Events)
      → Carries written e₀ (j, e)
      → Carries (written ++ numbered j.sequence j.queue) e₀ (flush encode complete j, e)
  unfolding flush appended
  flush-Carries written e₀ j e c = record {
    done = c.done;
    rest = c.rest ++ numbered j.sequence j.queue;
    file =
        ap (λ t. t ++ lines encode (numbered j.sequence j.queue)) c.file
        ∙ append_assoc (lines encode c.done) (lines encode c.rest) _
        ∙ ap (λ t. lines encode c.done ++ t)
            (sym (lines-append encode decode service_id c.rest (numbered j.sequence j.queue)));
    heard = c.heard;
    all =
        ap (λ rs. rs ++ numbered j.sequence j.queue) c.all
        ∙ append_assoc c.done c.rest (numbered j.sequence j.queue);
    count = omega (
      arith,
      c.count,
      length-append written (numbered j.sequence j.queue),
      length-numbered j.sequence j.queue,
    );
  }

  read-written :
      (written : List Record) (e₀ : Events) (j : BackgroundJournal) (e : Events)
      → e₀.offset ≡ 0
      → All (IsOneLine encode decode service_id) written
      → Carries written e₀ (j, e)
      → read decode service_id j.file e ≡ consume encode decode service_id written e₀
  read-written written e₀ j e at ok c =
      let (first, second) =
        All-split (IsOneLine encode decode service_id) c.done c.rest
          (subst (All (IsOneLine encode decode service_id)) c.all ok) in
      let place : e.offset ≡ length (lines encode c.done) =
        ap (λ (x : Events). x.offset) c.heard
        ∙ offset-consume encode decode service_id c.done e₀
        ∙ (omega (arith, at)) in
      ap (λ t. read decode service_id t e) c.file
      ∙ read-lines encode decode service_id (lines encode c.done) c.rest e place second
      ∙ ap (consume encode decode service_id c.rest) c.heard
      ∙ sym (consume-append encode decode service_id c.done c.rest e₀)
      ∙ ap (λ rs. consume encode decode service_id rs e₀) (sym c.all)

  read-Carries :
      (written : List Record) (e₀ : Events) (j : BackgroundJournal) (e : Events)
      → e₀.offset ≡ 0
      → All (IsOneLine encode decode service_id) written
      → Carries written e₀ (j, e)
      → Carries written e₀ (j, read decode service_id j.file e)
  read-Carries written e₀ j e at ok c = record {
    done = written;
    rest = [];
    file =
        c.file
        ∙ sym (lines-append encode decode service_id c.done c.rest)
        ∙ ap (lines encode) (sym c.all)
        ∙ sym (append-nil (lines encode written))
        ∙ (unfold lines in refl);
    heard = read-written written e₀ j e at ok c;
    all = sym (append-nil written);
    count = c.count;
  }

  -- json.dumps writes the record on one line, and json.loads reads it back.
  abbrev pub IsFaithful : Record → Type 0
  IsFaithful r = IsOneLine encode decode service_id r × (decode (line encode r) ≡ some r)

  run-Carries :
      (steps : List Step) (written : List Record) (e₀ : Events) (j : BackgroundJournal) (e : Events)
      → e₀.offset ≡ 0
      → All
          (IsOneLine encode decode service_id)
          (written ++ numbered j.sequence (j.queue ++ emitted j.identity j.service_id steps))
      → Carries written e₀ (j, e)
      → (after : List Record) × Carries after e₀ (run steps (j, e))
        × (after ++ numbered (run steps (j, e)).0.sequence (run steps (j, e)).0.queue
            ≡ written ++ numbered j.sequence (j.queue ++ emitted j.identity j.service_id steps))
  unfolding run emitted step emit flush
  run-Carries [] written e₀ j e at ok c =
      (written, c, ap (λ q. written ++ numbered j.sequence q) (sym (append-nil j.queue)))
  run-Carries (emitting level message fields ∷ steps) written e₀ j e at ok c =
      let r = event_record j.identity j.service_id level message fields in
      let same : (j.queue ++ r ∷ []) ++ emitted j.identity j.service_id steps
          ≡ j.queue ++ r ∷ emitted j.identity j.service_id steps =
        append_assoc j.queue (r ∷ []) (emitted j.identity j.service_id steps) in
      let whole = ap (λ q. written ++ numbered j.sequence q) same in
      let (after, k, total) =
        run-Carries steps written e₀ (emit level message fields j) e at
          (subst (All (IsOneLine encode decode service_id)) (sym whole) ok)
          (record {
            done = c.done;
            rest = c.rest;
            file = c.file;
            heard = c.heard;
            all = c.all;
            count = c.count;
          }) in
      (after, k, total ∙ whole)
  run-Carries (flushing ∷ steps) written e₀ j e at ok c =
      let new = numbered j.sequence j.queue in
      let later = emitted j.identity j.service_id steps in
      let whole : (written ++ new) ++ numbered (j.sequence + length j.queue) later
          ≡ written ++ numbered j.sequence (j.queue ++ later) =
        append_assoc written new _
        ∙ ap (λ x. written ++ x) (sym (numbered-append j.sequence j.queue later)) in
      let (after, k, total) =
        run-Carries steps (written ++ new) e₀ (flush encode complete j) e at
          (subst (All (IsOneLine encode decode service_id)) (sym whole) ok)
          (flush-Carries written e₀ j e c) in
      (after, k, total ∙ whole)
  run-Carries (reading ∷ steps) written e₀ j e at ok c =
      run-Carries steps written e₀ j (read decode service_id j.file e) at ok (
        read-Carries written e₀ j e at
          (All-split (IsOneLine encode decode service_id) written _ ok).0 c)

  -- A journal that is made by a new process, before its file exists.
  abbrev pub new_journal : Identity → BackgroundJournal
  new_journal i = record {
    identity = i;
    service_id = service_id;
    queue = [];
    sequence = 0;
    file = [];
  }

  pub run-flushed :
      (i : Identity) (steps : List Step) (e : Events)
      → e.offset ≡ 0
      → All (IsOneLine encode decode service_id) (numbered 0 (emitted i service_id steps))
      → let (j, e') = run steps (new_journal i, e) in
        read decode service_id (flush encode complete j).file e'
        ≡ consume encode decode service_id (numbered 0 (emitted i service_id steps)) e
  run-flushed i steps e at ok =
      let start : Carries [] e (new_journal i, e) = record {
        done = [];
        rest = [];
        file = unfold lines in refl;
        heard = unfold consume in refl;
        all = refl;
        count = refl;
      } in
      let (after, c, total) = run-Carries steps [] e (new_journal i) e at ok start in
      let j = (run steps (new_journal i, e)).0 in
      let flushed = flush-Carries after e j (run steps (new_journal i, e)).1 c in
      read-written _ e (flush encode complete j) _ at
        (subst (All (IsOneLine encode decode service_id)) (sym total) ok) flushed
      ∙ ap (λ rs. consume encode decode service_id rs e) total
