-- ===== src/Tests/Journals.antt =====
-- The journal of a process at a concrete run: events, flushes and reads.
use lcl_fastapi.Prelude.{
  none, Text, inl, inr, codes, Option, none, some, false, List, [], ◌∷◌, ◌++◌, ◌≡◌, refl,
  if◌then◌else◌, contains, Has, All, arith, true,
}
use lcl_fastapi.Runtime.State.Value.{Value, Record, str, int, get, value_eq}
use lcl_fastapi.Runtime.State.Identity.{Identity, Process, ProcessTable, Runs, identity_record}
use lcl_fastapi.Background.Journal.{Events, read}
use lcl_fastapi.Background.Removal.{collect, read_again}
use lcl_fastapi.Background.Journals.{BackgroundEvents, place_of, read_all}
use lcl_fastapi.Background.Journals.Aborted.{Readable, journals, alone, all_alone, read_all-lost}
use lcl_fastapi.Background.Removal.Ended.{collect-kept, collect-lost}
use lcl_fastapi.Background.Writer.{
  emit, retired, BackgroundJournal, plain, deadline, event_record, put, merge, fields_record,
  numbered, line, flush, complete,
}
use lcl_fastapi.Background.Writer.Carried.{
  Step, emitting, flushing, reading, emitted, messages, run, IsFaithful, new_journal,
}
use lcl_fastapi.Background.Writer.Delivered.{read-flush}
use lcl_fastapi.Runtime.Controller.{ControllerLog, World, background_tick}
use lcl_fastapi.Runtime.Controller.Retired.{background_tick-spared}
use lcl_fastapi.Runtime.Controller.Announced.{background_tick-announced}

abbrev process : Identity
process = record { pid = 7; created = 100 }

-- The second event is emitted after a read that comes before the first flush.
abbrev before : List Step
before = emitting 20 "started" plain ∷ reading ∷ flushing ∷ []

abbrev after : List Step
after = flushing ∷ reading ∷ []

abbrev steps : List Step
steps = before ++ emitting 30 "stopping" (deadline 800) ∷ after

abbrev first : Record
first = put (event_record process "s1" 20 "started" plain) "sequence" (int 1)

abbrev second : Record
second = put (event_record process "s1" 30 "stopping" (deadline 800)) "sequence" (int 2)

-- Two texts for the two records.
abbrev encode : Record → Text
encode r = if value_eq (get r "sequence") (int 1) then b'1' ∷ [] else b'2' ∷ []

abbrev decode : Text → Option Record
decode text = if contains text b'1' then some first else some second

abbrev nothing : Events
nothing = record { offset = 0; identity = none; events = []; stopping = [] }

faithful : All (IsFaithful encode decode "s1") (numbered 0 (emitted process "s1" steps))
unfolding numbered emitted put event_record merge identity_record fields_record line contains get
    value_eq
faithful = ((refl, refl), ((refl, refl), tt))

read-flush_example :
    (read decode "s1"
      (flush encode complete
        (run encode decode "s1" steps (new_journal encode decode "s1" process, nothing)).0).file
      (run encode decode "s1" steps (new_journal encode decode "s1" process, nothing)).1).events
    ≡ nothing.events ++ messages steps
read-flush_example = read-flush encode decode "s1" process steps nothing refl faithful

messages_run : messages steps ≡ (int 20, str "started") ∷ (int 30, str "stopping") ∷ []
unfolding messages
messages_run = refl

abbrev controller : ControllerLog
controller = record {
  background = (run encode decode "s1" steps (new_journal encode decode "s1" process, nothing)).1;
  retirements = [];
}

abbrev started : Process
started = record { create_time = 100; zombie = false }

abbrev world : World
world = record {
  seen = λ pid. some started;
  acting = λ pid. some started;
  time = 900;
  now = 60;
  journal =
      some
        (flush encode complete
          (run encode decode "s1" steps (new_journal encode decode "s1" process, nothing)).0).file;
  allowed = λ i. true;
}

runs : Runs world.seen process
runs = record { process = started; found = refl; same_start = refl; not_zombie = refl }

background_tick-announced_example :
    Has (background_tick decode "s1" world false controller).killed process
background_tick-announced_example =
    background_tick-announced encode decode "s1" process before after 30 "stopping" 800 nothing
      controller world false (omega arith) refl faithful (tt, (tt, tt)) refl refl runs
      (started, refl, refl) (λ j. refl) (omega arith)

-- The manager tells that it is done.
abbrev last_steps : List Step
last_steps = (emitting 20 "started" plain ∷ []) ++ emitting 20 "retired" retired ∷ flushing ∷ []

abbrev last : Record
last = put (event_record process "s1" 20 "retired" retired) "sequence" (int 2)

abbrev decode_last : Text → Option Record
decode_last text = if contains text b'1' then some first else some last

last-IsFaithful :
    All (IsFaithful encode decode_last "s1") (numbered 0 (emitted process "s1" last_steps))
unfolding numbered emitted put event_record merge identity_record fields_record line contains get
    value_eq
last-IsFaithful = ((refl, refl), ((refl, refl), tt))

abbrev last_state : BackgroundJournal × Events
last_state =
    run encode decode_last "s1" last_steps (new_journal encode decode_last "s1" process, nothing)

abbrev last_controller : ControllerLog
last_controller = record { background = last_state.1; retirements = [] }

abbrev last_world : World
last_world = record world { journal = some (flush encode complete last_state.0).file }

background_tick-spared_example :
    ¬ Has (background_tick decode_last "s1" last_world true last_controller).killed process
background_tick-spared_example =
    background_tick-spared encode decode_last "s1" process (emitting 20 "started" plain ∷ [])
      (flushing ∷ []) 20 "retired" nothing last_controller last_world true refl refl last-IsFaithful
      (tt, tt) refl refl (λ r there names. there)

abbrev written : BackgroundJournal × Events
written = run encode decode "s1" steps (new_journal encode decode "s1" process, nothing)

-- While the process runs, its journal stays, with what was appended since the reading.
collect-kept_example :
    (collect encode decode "s1" world.seen
      (flush encode complete written.0).file
      (codes "{}\n")
      written.1).1
    ≡ some (codes "{}\n")
collect-kept_example =
    collect-kept encode decode "s1" process steps nothing world.seen (codes "{}\n") (omega arith)
      refl refl faithful runs

abbrev no_process : ProcessTable
no_process pid = none

late-IsFaithful : All (IsFaithful encode decode_last "s1") (
    numbered 0 (
      emitted process "s1"
        ((emitting 20 "started" plain ∷ []) ++ flushing ∷ emitting 20 "retired" retired ∷ [])))
unfolding numbered emitted put event_record merge identity_record fields_record line contains get
    value_eq
late-IsFaithful = ((refl, refl), ((refl, refl), tt))

-- The journal after the first event, and what was heard before it was flushed.
abbrev before_end : BackgroundJournal × Events
before_end = (
  flush encode complete
      (run encode decode_last "s1" (emitting 20 "started" plain ∷ [])
        (new_journal encode decode_last "s1" process, nothing)).0,
  (run encode decode_last "s1" (emitting 20 "started" plain ∷ [])
      (new_journal encode decode_last "s1" process, nothing)).1,
)

abbrev late_file : Text
late_file = (flush encode complete (emit 20 "retired" retired before_end.0)).file

abbrev at_end : Events × Option Text
at_end = collect encode decode_last "s1" no_process before_end.0.file late_file before_end.1

collect-lost_example :
    (at_end.1 ≡ none)
    × (at_end.0.events ≡ [] ++ messages (emitting 20 "started" plain ∷ []))
    × ((read_again encode decode_last "s1" at_end.1 at_end.0).events ≡ at_end.0.events)
    × ((read decode_last "s1" late_file before_end.1).events
        ≡ ([] ++ messages (emitting 20 "started" plain ∷ [])) ++ (int 20, str "retired") ∷ [])
collect-lost_example =
    collect-lost encode decode_last "s1" process 20 "started" plain [] 20 "retired" retired nothing
      no_process (omega arith) refl late-IsFaithful refl

-- The journal of another process, of which nothing is decoded here, is read before.
abbrev two_files : List Readable
two_files = ("6.jsonl", [], []) ∷ ("7.jsonl", before_end.0.file, late_file) ∷ []

abbrev no_events : BackgroundEvents
no_events = record { places = λ path. record { offset = 0; identity = none }; stopping = [] }

abbrev sweep : BackgroundEvents × Option (List (Value × Value))
sweep = read_all encode decode_last "s1" no_process (journals two_files) no_events

abbrev broken_sweep : BackgroundEvents × Option (List (Value × Value))
broken_sweep =
    read_all encode decode_last "s1" no_process (journals two_files ++ ("8.jsonl", none) ∷ [])
      no_events

read_all-lost_example :
    (sweep.1 ≡ some (all_alone encode decode_last "s1" no_process two_files no_events.places))
    × (broken_sweep.1 ≡ none)
    × (broken_sweep.0 ≡ sweep.0)
    × (broken_sweep.0.places "7.jsonl"
        ≡ place_of (
            alone encode decode_last "s1" no_process before_end.0.file late_file
              (no_events.places "7.jsonl")))
read_all-lost_example =
    read_all-lost encode decode_last "s1" no_process two_files "8.jsonl" [] no_events "7.jsonl"
      before_end.0.file late_file (((refl, refl), tt), (tt, tt)) (inr (inl refl))
