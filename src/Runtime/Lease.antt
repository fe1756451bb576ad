-- ===== src/Runtime/Lease.antt =====
-- src/lcl_fastapi/runtime/lease.py: Snowflake worker numbers, one file each, and `cleanup_stale` of
-- src/lcl_fastapi/runtime/service.py on those files. The lock leases.lock makes each operation one
-- step. What reading and writing the files reports is a parameter.
pub mod Allocation
pub mod Ownership
use lcl_fastapi.Prelude.{
  ℕ, zero, suc, ◌+◌, Bool, Option, none, some, [], ◌∷◌, ◌==◌, leb, if◌then◌else◌,
}
use lcl_fastapi.Runtime.State.Value.{Value, int, Record, record_eq}
use lcl_fastapi.Runtime.State.Identity.{Identity, identity_record, ProcessTable, is_live}

-- What `read_state` returns for each number's file; an absent file gives the empty dictionary.
abbrev pub Leases : Type 0
Leases = ℕ → Record

abbrev pub store : ℕ → Record → Leases → Leases
store k r leases n = if k == n then r else leases n

-- What the claim of a number comes to: the process's own identity cannot be read; the write raises and
-- the file is as it was; it succeeds; or it raises after the file has its new content.
pub data Writing : Type 0 where
  unidentified not_written written written_and_raised : Writing

-- Which files can be read, and what becomes of the write.
pub record Access : Type 0 where
  pub readable : ℕ → Bool
  pub writing : Writing

pub record WorkerIdLease : Type 0 where
  pub worker_id : ℕ
  pub identity : Identity

pub data Acquired : Type 0 where
  leased : WorkerIdLease → Acquired
  value_error runtime_error os_error psutil_error : Acquired

-- The checks on the range: a base and a positive count, both of type int, within 1024 numbers.
unfoldable pub checked_range : Value → Value → Option (ℕ × ℕ)
checked_range (int base) (int (suc n)) =
    if leb (base + suc n) 1024 then some (base, suc n) else none
checked_range _ _ = none

unfoldable pub claim : Writing → ℕ → Identity → Leases → Acquired × Leases
claim unidentified k i leases = (psutil_error, leases)
claim not_written k i leases = (os_error, leases)
claim written k i leases =
    (leased (record { worker_id = k; identity = i }), store k (identity_record i) leases)
claim written_and_raised k i leases = (os_error, store k (identity_record i) leases)

-- for worker_id in range(...), from `k` on for the numbers left
unfoldable pub scan : ProcessTable → Access → Identity → ℕ → ℕ → Leases → Acquired × Leases
unfolding claim
scan table access i zero k leases = (runtime_error, leases)
scan table access i (suc left) k leases =
    let later = scan table access i left (suc k) leases in
    if access.readable k
    then (if is_live table (leases k) then later else claim access.writing k i leases)
    else (os_error, leases)

scan_range : ProcessTable → Access → Identity → Option (ℕ × ℕ) → Leases → Acquired × Leases
scan_range table access i none leases = (value_error, leases)
scan_range table access i (some (base, count)) leases = scan table access i count base leases

unfoldable pub acquire :
    ProcessTable → Access → Identity → Value → Value → Leases → Acquired × Leases
unfolding scan_range
acquire table access i base count leases =
    scan_range table access i (checked_range base count) leases

-- The file goes only if it still holds this lease's identity.
unfoldable pub release : WorkerIdLease → Leases → Leases
release lease leases =
    if record_eq (leases lease.worker_id) (identity_record lease.identity)
    then store lease.worker_id [] leases
    else leases

-- The part of `cleanup_stale` over the directory of leases.
unfoldable pub cleanup_leases : ProcessTable → Leases → Leases
cleanup_leases table leases n = if is_live table (leases n) then leases n else []
