-- ===== src/Background/Expiry.antt =====
-- `expired` and `terminate_background_process` of src/lcl_fastapi/background/journal.py.
use lcl_fastapi.Prelude.{
  ℕ, Bool, not, ◌||◌, Option, none, some, List, [], ◌∷◌, ◌==◌, leb, if◌then◌else◌, map,
}
use lcl_fastapi.Runtime.State.Value.{numeric, Record, get}
use lcl_fastapi.Runtime.State.Identity.{
  Identity, Process, ProcessTable, valid_pid, valid_time, is_live,
}

-- for key, value in list(items): one that is not live is deleted, one that is due is deleted and
-- taken, the others stay. What stays, and what is taken.
unfoldable pub sweep : {A : Type 0} → (A → Bool) → (A → Bool) → List A → List A × List A
sweep live due [] = ([], [])
sweep live due (a ∷ rest) =
    let (left, taken) = sweep live due rest in
    if not (live a) then (left, taken) else if due a then (left, a ∷ taken) else (a ∷ left, taken)

-- float(str(record["deadline"])), which `emit` always writes as a time
unfoldable pub deadline_of : Record → ℕ
deadline_of r = elim (numeric (get r "deadline")) [ none ↦ 0 | some t ↦ t ]

-- What is left of `stopping`, and the records to terminate, at a time of the wall clock.
unfoldable pub expired :
    ProcessTable → ℕ → Bool → List (ℕ × Record) → List (ℕ × Record) × List Record
expired table time force stopping =
    let (left, taken) =
      sweep (λ (pid, r). is_live table r) (λ (pid, r). force || leb (deadline_of r) time)
        stopping in
    (left, map (λ (pid, r). r) taken)

-- The process that is killed: the one with the record's PID, if it has the record's creation time.
unfoldable pub same_process : Option Process → Identity → Option Identity
same_process none i = none
same_process (some p) i = if p.create_time == i.created then some i else none

unfoldable pub terminate_at : ProcessTable → Option ℕ → Option ℕ → Option Identity
terminate_at table (some pid) (some created) =
    same_process (table pid) (record { pid = pid; created = created })
terminate_at table _ _ = none

-- The record of a live process has a PID and a creation time.
unfoldable pub terminate_background_process : ProcessTable → Record → Option Identity
unfolding terminate_at
terminate_background_process table r =
    terminate_at table (valid_pid (get r "pid")) (valid_time (get r "process_create_time"))
