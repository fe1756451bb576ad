-- ===== src/Tests/Control.antt =====
-- The controller at concrete inputs.
use lcl_fastapi.Prelude.{
  Text, true, false, Option, none, some, List, [], ◌∷◌, ◌++◌, ◌≡◌, ◌↔◌, refl, Has, inl, arith, ◌==◌,
  if◌then◌else◌,
}
use lcl_fastapi.Runtime.State.Value.{Record, str, get, value_eq, int, float}
use lcl_fastapi.Runtime.State.Identity.{
  Identity, ProcessTable, identity_record, is_live, is_live_at, Runs, valid_pid, valid_time,
}
use lcl_fastapi.Runtime.Controller.{
  Retirement, ControllerLog, World, background_tick, read_journal, retire, set_default, same_key,
}
use lcl_fastapi.Runtime.Controller.Names.{Names}
use lcl_fastapi.Runtime.Controller.Tick.{KillsTargets, background_tick-KillsTargets}
use lcl_fastapi.Runtime.Controller.Drained.{Event, retiring, run, step, background_tick-drained}
use lcl_fastapi.Runtime.Controller.Once.{Named}
use lcl_fastapi.Runtime.Observer.{Found, tick, live_workers}
use lcl_fastapi.Runtime.Observer.Log.{replay}
use lcl_fastapi.Runtime.Observer.Ticks
use lcl_fastapi.Runtime.Observer.Ticks.{replay-run}

abbrev worker : Identity
worker = record { pid = 7; created = 100 }

-- Process 7 runs, and 8 has another creation time than its record.
abbrev table : ProcessTable
table pid =
    if pid == 7
    then some (record { create_time = 100; zombie = false })
    else if pid == 8
    then some (record { create_time = 300; zombie = false })
    else none

abbrev world : World
world = record {
  seen = table;
  acting = table;
  time = 900;
  now = 60;
  journal = none;
  allowed = λ i. true;
}

abbrev decode : Text → Option Record
decode line = none

abbrev start : ControllerLog
start = record {
  background = record {
    offset = 0;
    identity = none;
    events = [];
    stopping =
        (8, ("pid", int 8) ∷ ("process_create_time", float 200) ∷ ("deadline", float 800) ∷ [])
        ∷ [];
  };
  retirements = [];
}

background_tick-KillsTargets_example :
    KillsTargets world false
      (read_journal decode "s1" none start.background)
      start
      (background_tick decode "s1" world false start)
background_tick-KillsTargets_example = background_tick-KillsTargets decode "s1" world false start

abbrev events : List Event
events = retiring 10 (identity_record worker ∷ []) ∷ retiring 20 (identity_record worker ∷ []) ∷ []

worker-Names : Names (identity_record worker) worker
unfolding identity_record valid_pid valid_time get
worker-Names = record { pid = refl; created = refl }

abbrev retired : Retirement
retired = record { worker = identity_record worker; deadline = 40 }

retired-there : Has (run decode "s1" 30 events start).retirements retired
unfolding run step retire set_default identity_record same_key value_eq get
retired-there = inl refl

worker-live : is_live table (identity_record worker) ≡ true
unfolding is_live is_live_at identity_record valid_pid valid_time get
worker-live = refl

background_tick-drained_example :
    ((background_tick decode "s1" world false
        (run decode "s1" 30 events start)).controller.retirements
      ≡ [])
    × Has (background_tick decode "s1" world false (run decode "s1" 30 events start)).killed worker
background_tick-drained_example =
    background_tick-drained decode "s1" 30 20 events start world false retired worker refl
      (omega arith, (omega arith, tt)) (omega arith) (λ i. refl) retired-there worker-Names
      worker-live (record { create_time = 100; zombie = false }, refl, refl)

-- Two workers, of which the second is of the PID's process before.
abbrev file : Identity → Record
file i = ("service_id", str "s1") ∷ identity_record i

abbrev found : Found
found = record {
  table = table;
  files = file worker ∷ file (record { pid = 8; created = 200 }) ∷ [];
  now = 60;
}

replay-run_example :
    (replay
        ((Ticks.run "s1" 5 ((false, found) ∷ []) (record { workers = []; deadline = 0 })).1
          ++ (tick "s1" 5 true found
              (Ticks.run "s1" 5 ((false, found) ∷ []) (record { workers = []; deadline = 0 })).0).1)
        (λ m. false)
        7
      ≡ true)
    ↔ ((i : Identity) × Named (live_workers table "s1" found.files) i × Runs table i × (i.pid ≡ 7))
replay-run_example =
    replay-run "s1" 5 ((false, found) ∷ []) found (record { workers = []; deadline = 0 }) 7 refl
