-- ===== src/Runtime/State/Identity.antt =====
-- `process_identity` and `is_live` of src/lcl_fastapi/runtime/state.py.
use Prim.Native.Nat.{◌*◌}
use lcl_fastapi.Prelude.{
  ℕ, zero, suc, ◌<◌, Bool, true, false, ◌&&◌, not, Option, none, some, [], ◌∷◌, ◌≡◌, refl, arith,
  ◌==◌, Option-cases, inl, inr, ◌↔◌,
}
use lcl_fastapi.Runtime.State.Value.{Value, int, float, Record, get, second}

-- What psutil reports of a process.
pub record Process : Type 0 where
  pub create_time : ℕ
  pub zombie : Bool

-- The operating system's processes by PID; `none` is any psutil.Error.
abbrev pub ProcessTable : Type 0
ProcessTable = ℕ → Option Process

-- A process, now or in the past: PIDs are used again, with another creation time.
pub record Identity : Type 0 where
  pub pid : ℕ
  pub created : ℕ

-- The dictionary that `process_identity` returns and the state files hold.
unfoldable pub identity_record : Identity → Record
identity_record i = ("pid", int i.pid) ∷ ("process_create_time", float i.created) ∷ []

-- type(pid) is not int or pid <= 0
unfoldable pub valid_pid : Value → Option ℕ
valid_pid (int (suc n)) = some (suc n)
valid_pid _ = none

-- type(created) in {int, float}; a negative time equals no creation time.
unfoldable pub valid_time : Value → Option ℕ
valid_time (int n) = some (n * second)
valid_time (float t) = some t
valid_time _ = none

process_matches : Option Process → ℕ → Bool
process_matches none created = false
process_matches (some p) created = p.create_time == created && not p.zombie

unfoldable pub is_live_at : ProcessTable → Option ℕ → Option ℕ → Bool
unfolding process_matches
is_live_at table (some pid) (some created) = process_matches (table pid) created
is_live_at table _ _ = false

unfoldable pub is_live : ProcessTable → Record → Bool
unfolding valid_pid valid_time is_live_at
is_live table record' =
    is_live_at table (valid_pid (get record' "pid"))
      (valid_time (get record' "process_create_time"))

-- A process is running, under this PID and since this time.
pub record Runs (table : ProcessTable) (i : Identity) : Type 0 where
  pub process : Process
  pub found : table i.pid ≡ some process
  pub same_start : process.create_time ≡ i.created
  pub not_zombie : process.zombie ≡ false

pub valid_pid-int : (n : ℕ) → 0 < n → valid_pid (int n) ≡ some n
unfolding valid_pid
valid_pid-int zero h = absurd (omega arith)
valid_pid-int (suc n) h = refl

process_matches→Runs :
    (table : ProcessTable) (i : Identity) (p : Process)
    → table i.pid ≡ some p
    → process_matches (some p) i.created ≡ true
    → Runs table i
unfolding process_matches
process_matches→Runs table i p e h = record {
  process = p;
  found = e;
  same_start = ground arith;
  not_zombie = ground arith;
}

-- The process that a live record names is running.
pub is_live-Runs :
    (table : ProcessTable) (r : Record) (i : Identity)
    → valid_pid (get r "pid") ≡ some i.pid
    → valid_time (get r "process_create_time") ≡ some i.created
    → is_live table r ≡ true
    → Runs table i
unfolding is_live
is_live-Runs table r i p t =
    rw (p, t, is_live_at)
      (λ live. elim (Option-cases (table i.pid)) [
        | inl e ↦ absurd (clash (ap_match e) live)
        | inr (q, e) ↦ process_matches→Runs table i q e (rw e at live)
      ])
  where
    ap_match : table i.pid ≡ none → process_matches (table i.pid) i.created ≡ false
    ap_match e = rw e (unfold process_matches in refl)

    clash : {b : Bool} → b ≡ false → b ≡ true → ⊥
    clash f h = cc

pub is_live-running :
    (table : ProcessTable) (r : Record) (i : Identity)
    → valid_pid (get r "pid") ≡ some i.pid
    → valid_time (get r "process_create_time") ≡ some i.created
    → Runs table i
    → is_live table r ≡ true
unfolding is_live
is_live-running table r i p t runs =
    rw (p, t, is_live_at, runs.found)
      (unfold process_matches in ground (arith, runs.same_start, runs.not_zombie))

pub is_live-ended :
    (table : ProcessTable) (r : Record) (i : Identity)
    → valid_pid (get r "pid") ≡ some i.pid
    → valid_time (get r "process_create_time") ≡ some i.created
    → table i.pid ≡ none
    → is_live table r ≡ false
unfolding is_live
is_live-ended table r i p t gone = rw (p, t, is_live_at, gone) (unfold process_matches in refl)

-- A record of a process with a positive PID is live exactly while that very process runs: not when
-- its PID is free, not when another process has the PID, and not as a zombie.
pub is_live_iff :
    (table : ProcessTable) (i : Identity)
    → 0 < i.pid
    → (is_live table (identity_record i) ≡ true) ↔ Runs table i
unfolding is_live identity_record get valid_time
is_live_iff table i h =
    rw (valid_pid-int i.pid h, is_live_at)
      (
        λ live. elim (Option-cases (table i.pid)) [
          | inl e ↦ absurd (ground (arith, live, e))
          | inr (p, e) ↦ process_matches→Runs table i p e (rw e at live)
        ],
        λ r. rw r.found (unfold process_matches in ground (arith, r.same_start, r.not_zombie)),
      )
