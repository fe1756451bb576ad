-- ===== src/Settings.antt =====
-- The workers' settings in src/lcl_fastapi/config.py: `integer_value` and the checks on the number of
-- workers and on their Snowflake numbers.
use lcl_fastapi.Prelude.{
  ℕ, zero, suc, ◌+◌, ◌-◌, ◌≤◌, Option, none, some, ◌≡◌, ◌≢◌, refl, arith, within, if◌then◌else◌,
  Bool-cases, inl, inr, sym, subst,
}
use lcl_fastapi.Runtime.State.Value.{Value, int}
use lcl_fastapi.Runtime.State.Identity.{Identity, ProcessTable, is_live}
use lcl_fastapi.Runtime.Lease.{
  Leases, Access, Acquired, Writing, unidentified, not_written, written, written_and_raised,
  value_error, claim, scan, acquire,
}
use lcl_fastapi.Runtime.Lease.Allocation.{acquire-scan}

-- `none` is the ValueError.
unfoldable pub integer_value : Value → ℕ → ℕ → Option ℕ
integer_value (int n) minimum maximum = if within minimum maximum n then some n else none
integer_value _ minimum maximum = none

pub record WorkerSettings : Type 0 where
  pub workers : ℕ
  pub worker_id_base : ℕ
  pub worker_id_count : ℕ

counted : ℕ → ℕ → Option ℕ → Option WorkerSettings
counted workers base none = none
counted workers base (some count) =
    some (record { workers = workers; worker_id_base = base; worker_id_count = count })

based : ℕ → Value → Option ℕ → Option WorkerSettings
unfolding counted
based workers count none = none
based workers count (some base) = counted workers base (integer_value count workers (1024 - base))

numbered : Value → Value → Option ℕ → Option WorkerSettings
unfolding based
numbered base count none = none
numbered base count (some workers) = based workers count (integer_value base 0 1023)

-- `server.workers`, `snowflake.worker_id_base` and `snowflake.worker_id_count`.
unfoldable pub worker_settings : Value → Value → Value → Option WorkerSettings
unfolding numbered
worker_settings workers base count = numbered base count (integer_value workers 1 1024)

integer_value_bounds :
    (v : Value) (minimum maximum : ℕ) (n : ℕ)
    → integer_value v minimum maximum ≡ some n
    → (minimum ≤ n) × (n ≤ maximum)
unfolding integer_value
integer_value_bounds (int m) minimum maximum n h = ground arith
integer_value_bounds _ minimum maximum n h = cc

record IsSound (s : WorkerSettings) : Type 0 where
  workers : (1 ≤ s.workers) × (s.workers ≤ 1024)
  base : s.worker_id_base ≤ 1023
  count : (s.workers ≤ s.worker_id_count) × (s.worker_id_count ≤ 1024 - s.worker_id_base)

counted-IsSound :
    (w b : ℕ) (o : Option ℕ) (s : WorkerSettings)
    → (1 ≤ w) × (w ≤ 1024)
    → b ≤ 1023
    → ((n : ℕ) → o ≡ some n → (w ≤ n) × (n ≤ 1024 - b))
    → counted w b o ≡ some s
    → IsSound s
unfolding counted
counted-IsSound w b none s hw hb hc e = cc
counted-IsSound w b (some n) s hw hb hc e = record {
  workers = ground (arith, hw, e);
  base = ground (arith, hb, e);
  count = ground (arith, hc n refl, e);
}

based-IsSound :
    (w : ℕ) (count : Value) (o : Option ℕ) (s : WorkerSettings)
    → (1 ≤ w) × (w ≤ 1024)
    → ((n : ℕ) → o ≡ some n → n ≤ 1023)
    → based w count o ≡ some s
    → IsSound s
unfolding based
based-IsSound w count none s hw hb e = cc
based-IsSound w count (some b) s hw hb e =
    counted-IsSound w b _ s hw (hb b refl) (integer_value_bounds count w (1024 - b)) e

numbered-IsSound :
    (base count : Value) (o : Option ℕ) (s : WorkerSettings)
    → ((n : ℕ) → o ≡ some n → (1 ≤ n) × (n ≤ 1024))
    → numbered base count o ≡ some s
    → IsSound s
unfolding numbered
numbered-IsSound base count none s h e = cc
numbered-IsSound base count (some w) s h e =
    based-IsSound w count _ s (h w refl) (λ n q. (integer_value_bounds base 0 1023 n q).1) e

claim-ne :
    (writing : Writing) (k : ℕ) (i : Identity) (leases : Leases)
    → (claim writing k i leases).0 ≢ value_error
unfolding claim
claim-ne unidentified k i leases = λ h. cc
claim-ne not_written k i leases = λ h. cc
claim-ne written k i leases = λ h. cc
claim-ne written_and_raised k i leases = λ h. cc

scan-ne :
    (table : ProcessTable) (access : Access) (i : Identity) (left k : ℕ) (leases : Leases)
    → (scan table access i left k leases).0 ≢ value_error
unfolding scan
scan-ne table access i zero k leases = λ h. cc
scan-ne table access i (suc left) k leases = elim (Bool-cases (access.readable k)) [
  | inr e ↦ rw e (λ h. cc)
  | inl e ↦ elim (Bool-cases (is_live table (leases k))) [
    | inl f ↦ rw (e, f) (scan-ne table access i left (suc k) leases)
    | inr f ↦ rw (e, f) (claim-ne access.writing k i leases)
  ]
]

-- Accepted settings have one worker at least, as many Snowflake numbers as workers at least, and all
-- these numbers within the 1024; `acquire` never refuses their range.
pub acquire-worker_settings :
    (workers base count : Value) (s : WorkerSettings) (table : ProcessTable) (access : Access)
    (i : Identity) (leases : Leases)
    → worker_settings workers base count ≡ some s
    → (1 ≤ s.workers)
      × (s.workers ≤ s.worker_id_count)
      × (s.worker_id_base + s.worker_id_count ≤ 1024)
      × ((acquire table access i (int s.worker_id_base) (int s.worker_id_count) leases).0
          ≢ value_error)
unfolding worker_settings
acquire-worker_settings workers base count s table access i leases h =
    let sound = numbered-IsSound base count _ s (integer_value_bounds workers 1 1024) h in
    (sound.workers.0, sound.count.0, omega (arith, sound.base, sound.count), ranged s sound)
  where
    ranged :
        (s : WorkerSettings)
        → IsSound s
        → (acquire table access i (int s.worker_id_base) (int s.worker_id_count) leases).0
          ≢ value_error
    ranged s h =
        subst (λ (x : Acquired × Leases). x.0 ≢ value_error)
          (sym (
            acquire-scan table access i s.worker_id_base s.worker_id_count leases
              (omega (arith, h.workers, h.count)) (omega (arith, h.base, h.count))))
          (scan-ne table access i s.worker_id_count s.worker_id_base leases)
