-- ===== src/Tests/Files.antt =====
-- State files and worker numbers at concrete inputs.
use lcl_fastapi.Prelude.{
  ℕ, ◌+◌, ◌≤◌, ◌≢◌, Text, codes, true, false, none, some, [], ◌∷◌, ◌≡◌, refl, inl, All, ◌==◌,
  if◌then◌else◌,
}
use lcl_fastapi.Runtime.State.Value.{int, get}
use lcl_fastapi.Runtime.State.Identity.{Process, ProcessTable, Identity, identity_record, is_live}
use lcl_fastapi.Runtime.State.Files.{ReadAttempt, denied, decoded}
use lcl_fastapi.Runtime.State.Atomic.{
  complete, Directory, Calls, replaced, ReplaceAttempt, temporary_name, atomic_write,
}
use lcl_fastapi.Runtime.State.Atomic.Seen.{IsSeen, Ends, atomic_write-IsSeen, atomic_write-Ends}
use lcl_fastapi.Settings.{worker_settings, integer_value, acquire-worker_settings}
use lcl_fastapi.Runtime.Lease.{
  value_error, Leases, Access, written, WorkerIdLease, acquire, scan, checked_range,
}
use lcl_fastapi.Runtime.Lease.Allocation.{Allocates, acquire-Allocates}
use lcl_fastapi.Runtime.Lease.Ownership.{World, acquire_step, Reach, start, next, Reach-exclusive}

abbrev worker : Identity
worker = record { pid = 7; created = 40 }

abbrev process_of_7 : Process
process_of_7 = record { create_time = 40; zombie = false }

-- One process runs.
abbrev table : ProcessTable
table pid = if pid == 7 then some process_of_7 else none

-- Denied twice, then read.
abbrev busy : ℕ → ReadAttempt
busy n = if n == 2 then decoded (identity_record worker) else denied

abbrev calls : Calls
calls = record {
  made = true;
  written = true;
  replacing = λ n. if n == 0 then ReplaceAttempt.denied else replaced;
  unlinked = true;
}

abbrev directory : Directory
directory n = some (complete [])

abbrev file_name : Text
file_name = codes "lease"

atomic_write-IsSeen_example :
    All
      (IsSeen file_name (temporary_name file_name (codes "0a")) (identity_record worker) directory)
      (atomic_write true calls file_name (codes "0a") (identity_record worker) directory).1
atomic_write-IsSeen_example =
    atomic_write-IsSeen true calls file_name (codes "0a") (identity_record worker) directory

atomic_write-Ends_example :
    Ends file_name
      (temporary_name file_name (codes "0a"))
      (identity_record worker)
      directory
      (atomic_write true calls file_name (codes "0a") (identity_record worker) directory)
atomic_write-Ends_example =
    atomic_write-Ends true calls file_name (codes "0a") (identity_record worker) directory

-- The file of number 5 has the identity of a process that has ended.
abbrev leases : Leases
leases n = if n == 5 then identity_record (record { pid = 7; created = 39 }) else []

abbrev access : Access
access = record { readable = λ n. true; writing = written }

acquire-Allocates_example :
    Allocates table access worker
      (int 5)
      (int 2)
      leases
      (acquire table access worker (int 5) (int 2) leases)
acquire-Allocates_example = acquire-Allocates table access worker (int 5) (int 2) leases

worker_runs : is_live table (identity_record worker) ≡ true
unfolding is_live identity_record get
worker_runs = refl

abbrev lease_of_5 : WorkerIdLease
lease_of_5 = record { worker_id = 5; identity = worker }

-- The world after the worker has taken number 5 over.
abbrev leased_world : World
leased_world = record {
  table = table;
  leases = (acquire table access worker (int 5) (int 2) leases).1;
  held = lease_of_5 ∷ [];
}

leased_world-Reach : Reach leased_world
unfolding acquire scan is_live identity_record get checked_range
leased_world-Reach =
    next (start table leases) (acquire_step access worker (int 5) (int 2) worker_runs)

Reach-exclusive_example :
    (lease_of_5.identity.pid ≡ worker.pid) × (lease_of_5.identity.created ≡ worker.created)
Reach-exclusive_example =
    Reach-exclusive lease_of_5 lease_of_5 leased_world-Reach (inl refl) (inl refl) worker_runs
      worker_runs refl

accepted :
    worker_settings (int 2) (int 5) (int 4)
    ≡ some (record { workers = 2; worker_id_base = 5; worker_id_count = 4 })
unfolding worker_settings integer_value
accepted = refl

acquire-worker_settings_example :
    (1 ≤ 2)
    × (2 ≤ 4)
    × (5 + 4 ≤ 1024)
    × ((acquire table access worker (int 5) (int 4) leases).0 ≢ value_error)
acquire-worker_settings_example =
    acquire-worker_settings (int 2) (int 5) (int 4)
      (record { workers = 2; worker_id_base = 5; worker_id_count = 4 }) table access worker leases
      accepted
