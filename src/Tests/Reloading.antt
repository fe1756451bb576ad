-- ===== src/Tests/Reloading.antt =====
-- The reload watcher at concrete inputs.
use lcl_fastapi.Prelude.{
  ℕ, Text, codes, same_text, true, false, none, some, List, [], ◌∷◌, ◌≡◌, ◌⊎◌, refl, Has, any, inl,
  ◌==◌, if◌then◌else◌,
}
use lcl_fastapi.Runtime.State.Value.{Record, str, get, value_eq}
use lcl_fastapi.Runtime.State.Identity.{
  ProcessTable, identity_record, is_live, is_live_at, valid_pid, valid_time,
}
use lcl_fastapi.Runtime.Observer.{live_workers}
use lcl_fastapi.Runtime.Reload.{
  Poll, ReloadWatcher, retired, is_retiring, is_asked, is_relative_to, accept_change, ask,
  retire_first, advance, tick,
}
use lcl_fastapi.Runtime.Reload.Changes.{run, tick-alone, tick-retires}

-- The first worker runs before the change, the second after it.
abbrev only : ℕ → ProcessTable
only n pid = if pid == n then some (record { create_time = 100; zombie = false }) else none

abbrev worker : ℕ → Record
worker n = ("service_id", str "s1") ∷ identity_record (record { pid = n; created = 100 })

abbrev roots : List (List Text)
roots = (codes "srv" ∷ []) ∷ []

abbrev poll : ℕ → Poll
poll n = record {
  owner = true;
  shutdown = false;
  shutdown_later = false;
  changes = some (record { parts = codes "srv" ∷ codes "a.py" ∷ []; suffix = codes ".py" } ∷ []);
  table = only n;
  acting = only n;
  files = worker n ∷ [];
}

abbrev start : ReloadWatcher
start = record { pending = false; started = false; retiring = none }

first : Has (run roots true "s1" (poll 7 ∷ []) start).1 (retired (worker 7))
unfolding run tick advance retire_first ask is_asked is_retiring accept_change is_relative_to any
    same_text live_workers is_live is_live_at valid_pid valid_time get value_eq identity_record
first = inl refl

second :
    (tick roots true "s1" (poll 8) (run roots true "s1" (poll 7 ∷ []) start).0).1
    ≡ retired (worker 8)
unfolding run tick advance retire_first ask is_asked is_retiring accept_change is_relative_to any
    same_text live_workers is_live is_live_at valid_pid valid_time get value_eq identity_record
second = refl

ended : is_live (only 8) (worker 7) ≡ false
unfolding is_live is_live_at valid_pid valid_time get identity_record
ended = refl

tick-alone_example : is_live (only 8) (worker 7) ≡ false
tick-alone_example =
    tick-alone roots true "s1" (poll 7 ∷ []) (poll 8) start (worker 7) (worker 8) ((λ h. ended), tt)
      first second

abbrev changed : ReloadWatcher
changed = record { pending = true; started = true; retiring = none }

found : live_workers (only 7) "s1" (worker 7 ∷ []) ≡ worker 7 ∷ []
unfolding live_workers is_live is_live_at valid_pid valid_time get value_eq identity_record
found = refl

tick-retires_example :
    ((r : Record) × Has (run roots true "s1" [] changed).1 (retired r))
    ⊎ (((tick roots true "s1" (poll 7) (run roots true "s1" [] changed).0).1 ≡ retired (worker 7))
        × ((tick roots true "s1" (poll 7) (run roots true "s1" [] changed).0).0.retiring
            ≡ some (worker 7))
        × ((tick roots true "s1" (poll 7) (run roots true "s1" [] changed).0).0.pending ≡ false))
unfolding run is_retiring is_asked
tick-retires_example =
    tick-retires roots true "s1" [] (poll 7) changed
      (record { parts = codes "srv" ∷ codes "a.py" ∷ []; suffix = codes ".py" } ∷ []) (worker 7) []
      refl refl refl refl refl refl found refl
