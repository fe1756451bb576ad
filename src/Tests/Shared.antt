-- ===== src/Tests/Shared.antt =====
-- The shared logging target at concrete inputs.
use lcl_fastapi.Background.Journal.{Events, read}
use lcl_fastapi.Background.Journal.Once.{read_after, read_after-once}
use lcl_fastapi.Prelude.{
  Text, codes, Option, none, ◌++◌, ◌==◌, if◌then◌else◌, true, false, some, [], ◌∷◌, ◌≡◌, refl,
  arith,
}
use lcl_fastapi.Runtime.State.Value.{Record, int, str, bool}
use lcl_fastapi.Verbose.Storage.{
  FileVerboseState, read_target, write_target, read_target-write_target,
}
use lcl_fastapi.Verbose.Control.{Disk, published, accepted, update}
use lcl_fastapi.Verbose.Steps.{World, update_step, read_step, Reach, begin, next}
use lcl_fastapi.Verbose.Agreement.{Reach-agree, Reach-update}
use lcl_fastapi.Prelude.{List, ◌↔◌, Has, map}
use lcl_fastapi.Runtime.State.Value.{get, value_eq}
use lcl_fastapi.Runtime.State.Identity.{
  ProcessTable, Runs, identity_record, is_live, is_live_at, valid_pid, valid_time,
}
use lcl_fastapi.Verbose.Observations.{
  controller, api, FileVerboseProcess, observation, role_of, role_text, time_of, process_of,
  observed, insert, insert_if, process_observations,
}
use lcl_fastapi.Verbose.Observations.Listed.{
  IsAscending, Observed, file_of, shown, process_observations-shown,
}

abbrev disk : Disk
disk = record { readable = true; publication = published }

abbrev quiet : FileVerboseState
quiet = record { enabled = false; revision = 0 }

abbrev loud : FileVerboseState
loud = record { enabled = true; revision = 1 }

abbrev first_world : World
first_world = record { file = write_target "s1" quiet; caches = λ pid. quiet; pending = [] }

-- Process 3 has read the target and not observed it when process 4 changes it.
abbrev read_world : World
read_world = record first_world { pending = quiet ∷ [] }

abbrev changed_world : World
changed_world = record read_world {
  file = (update disk "s1" (bool true) quiet (write_target "s1" quiet)).2;
  caches = λ pid.
      if 4 == pid then (update disk "s1" (bool true) quiet (write_target "s1" quiet)).1 else quiet;
}

changed_world-Reach : Reach "s1" false changed_world
changed_world-Reach =
    next (next begin (read_step quiet (read_target-write_target "s1" quiet)))
      (update_step disk 4 true)

Reach-agree_example : (changed_world.caches 3).enabled ≡ (changed_world.caches 5).enabled
Reach-agree_example = Reach-agree "s1" false 3 5 changed_world-Reach refl

Reach-update_example :
    (t : FileVerboseState) × (t.enabled ≡ false)
    × ((update disk "s1" (bool false) (changed_world.caches 3) changed_world.file).0 ≡ accepted t)
    × (read_target "s1"
          (update disk "s1" (bool false) (changed_world.caches 3) changed_world.file).2
        ≡ some t)
Reach-update_example = Reach-update "s1" false disk 3 false changed_world-Reach refl refl

-- Two journal lines, of which the first reading finds one and a half.
abbrev decode : Text → Option Record
decode line =
    some (("service_id", str "s1") ∷ ("level", int 20) ∷ ("message", str "m") ∷ ("pid", int 4) ∷ [])

abbrev no_events : Events
no_events = record { offset = 0; identity = none; events = []; stopping = [] }

read_after-once_example :
    read_after decode "s1" (codes "{1}\n{") (codes "2" ∷ codes "}\n" ∷ []) no_events
    ≡ read decode "s1" (codes "{1}\n{" ++ (codes "2" ++ (codes "}\n" ++ []))) no_events
read_after-once_example =
    read_after-once decode "s1" (codes "{1}\n{") (codes "2" ∷ codes "}\n" ∷ []) no_events
      (omega arith)

-- An API process and a controller that run, in the files after one of another start.
abbrev observers : List Observed
observers =
    record {
      identity = record { pid = 9; created = 50 };
      service_id = "s0";
      role = api;
      state = loud;
      time = 1;
    }
    ∷ record {
      identity = record { pid = 8; created = 50 };
      service_id = "s1";
      role = api;
      state = loud;
      time = 2;
    }
    ∷ record {
      identity = record { pid = 5; created = 50 };
      service_id = "s1";
      role = controller;
      state = quiet;
      time = 1;
    }
    ∷ []

abbrev everyone : ProcessTable
everyone pid = some (record { create_time = 50; zombie = false })

process_observations-shown_example :
    IsAscending (process_observations everyone "s1" (map file_of observers))
    × ((x : FileVerboseProcess)
        → Has (process_observations everyone "s1" (map file_of observers)) x ↔ (
            (o : Observed) × Has observers o
            × (value_eq (str o.service_id) (str "s1") ≡ true)
            × Runs everyone o.identity
            × (shown o ≡ x)))
process_observations-shown_example =
    process_observations-shown everyone "s1" observers
      (omega arith, (omega arith, (omega arith, tt)))

-- Both are listed, the lower PID first.
listed :
    map
      (λ (p : FileVerboseProcess). p.pid)
      (process_observations everyone "s1" (map file_of observers))
    ≡ 5 ∷ 8 ∷ []
unfolding process_observations observed insert_if insert observation role_of role_text time_of
    process_of identity_record is_live is_live_at valid_pid valid_time get value_eq
listed = refl
