-- ===== src/Runtime/Lease/Allocation.antt =====
-- Which number `acquire` hands out, and when it hands out none.
use lcl_fastapi.Prelude.{
  ℕ, zero, suc, ◌+◌, ◌≤◌, ◌<◌, true, false, none, some, ◌≡◌, refl, arith, Bool-cases, Option-cases,
  inl, inr,
}
use lcl_fastapi.Runtime.State.Value.{Value, int}
use lcl_fastapi.Runtime.State.Identity.{Identity, identity_record, ProcessTable, is_live}
use lcl_fastapi.Runtime.Lease.{
  scan_range, Leases, store, Access, Acquired, leased, value_error, runtime_error, os_error,
  psutil_error, Writing, unidentified, not_written, written, written_and_raised, checked_range,
  claim, scan, acquire,
}

abbrev pub AllLive : ProcessTable → Leases → ℕ → ℕ → Type 0
AllLive table leases k zero = Unit
AllLive table leases k (suc n) = (is_live table (leases k) ≡ true) × AllLive table leases (suc k) n

-- The claim of the number `w` raises: nothing has changed, or, where the error came after the write,
-- its file alone has the identity.
pub data Raises (writing : Writing) (i : Identity) (leases : Leases) (w : ℕ)
    (result : Acquired × Leases) : Type 0 where
  no_identity :
      writing ≡ unidentified → result ≡ (psutil_error, leases) → Raises writing i leases w result
  no_write : writing ≡ not_written → result ≡ (os_error, leases) → Raises writing i leases w result
  late_error :
      writing ≡ written_and_raised
      → result ≡ (os_error, store w (identity_record i) leases)
      → Raises writing i leases w result

-- The result of a scan of `n` numbers from `k`: the first number whose file has no live owner is
-- leased; or all have one; or a file could not be read before that; or the claim of the first number
-- raises, and its file may have the caller's identity all the same.
pub data Scanned (table : ProcessTable) (access : Access) (i : Identity) (leases : Leases) (k n : ℕ)
    (result : Acquired × Leases) : Type 0 where
  found :
      (m w : ℕ)
      → m < n
      → w ≡ k + m
      → AllLive table leases k m
      → is_live table (leases w) ≡ false
      → access.writing ≡ written
      → result
        ≡ (leased (record { worker_id = w; identity = i }), store w (identity_record i) leases)
      → Scanned table access i leases k n result
  exhausted :
      AllLive table leases k n
      → result ≡ (runtime_error, leases)
      → Scanned table access i leases k n result
  unreadable :
      (m w : ℕ)
      → m < n
      → w ≡ k + m
      → AllLive table leases k m
      → access.readable w ≡ false
      → result ≡ (os_error, leases)
      → Scanned table access i leases k n result
  unclaimed :
      (m w : ℕ)
      → m < n
      → w ≡ k + m
      → AllLive table leases k m
      → is_live table (leases w) ≡ false
      → Raises access.writing i leases w result
      → Scanned table access i leases k n result

module _ (table : ProcessTable) (access : Access) (i : Identity) (leases : Leases) where
  Scanned-live :
      (k n : ℕ) {result : Acquired × Leases}
      → is_live table (leases k) ≡ true
      → Scanned table access i leases (suc k) n result
      → Scanned table access i leases k (suc n) result
  Scanned-live k n live (found m w lt at before free wr eq) =
      found (suc m) w (omega arith) (omega arith) (live, before) free wr eq
  Scanned-live k n live (exhausted before eq) = exhausted (live, before) eq
  Scanned-live k n live (unreadable m w lt at before shut eq) =
      unreadable (suc m) w (omega arith) (omega arith) (live, before) shut eq
  Scanned-live k n live (unclaimed m w lt at before free why) =
      unclaimed (suc m) w (omega arith) (omega arith) (live, before) free why

  Scanned-claim :
      (k n : ℕ) (writing : Writing)
      → access.writing ≡ writing
      → is_live table (leases k) ≡ false
      → Scanned table access i leases k (suc n) (claim writing k i leases)
  unfolding claim
  Scanned-claim k n written w free = found 0 k (omega arith) (omega arith) tt free w refl
  Scanned-claim k n unidentified w free =
      unclaimed 0 k (omega arith) (omega arith) tt free (no_identity w refl)
  Scanned-claim k n not_written w free =
      unclaimed 0 k (omega arith) (omega arith) tt free (no_write w refl)
  Scanned-claim k n written_and_raised w free =
      unclaimed 0 k (omega arith) (omega arith) tt free (late_error w refl)

  pub scan-Scanned : (n k : ℕ) → Scanned table access i leases k n (scan table access i n k leases)
  unfolding scan
  scan-Scanned zero k = exhausted tt refl
  scan-Scanned (suc n) k = elim (Bool-cases (access.readable k)) [
    | inl r ↦ elim (Bool-cases (is_live table (leases k))) [
      | inl live ↦ rw (r, live) (Scanned-live k n live (scan-Scanned n (suc k)))
      | inr free ↦ rw (r, free) (Scanned-claim k n access.writing refl free)
    ]
    | inr r ↦ rw r (unreadable 0 k (omega arith) (omega arith) tt r refl)
  ]

-- A range of worker numbers.
abbrev pub IsRange : Value → Value → Type 0
IsRange base count = (b : ℕ) × (n : ℕ) × (base ≡ int b) × (count ≡ int n) × (0 < n) × (b + n ≤ 1024)

-- What `acquire` promises of a base and a count.
pub data Allocates (table : ProcessTable) (access : Access) (i : Identity) (base count : Value)
    (leases : Leases) (result : Acquired × Leases) : Type 0 where
  refused :
      ¬ IsRange base count
      → result ≡ (value_error, leases)
      → Allocates table access i base count leases result
  scanned :
      (b n : ℕ)
      → base ≡ int b
      → count ≡ int n
      → 0 < n
      → b + n ≤ 1024
      → Scanned table access i leases b n result
      → Allocates table access i base count leases result

checked_range-some :
    (base count : Value) {b n : ℕ}
    → checked_range base count ≡ some (b, n)
    → (base ≡ int b) × (count ≡ int n) × (0 < n) × (b + n ≤ 1024)
unfolding checked_range
checked_range-some (int b) (int (suc n)) h = ground arith
checked_range-some _ _ h = ground arith

checked_range-none : (base count : Value) → checked_range base count ≡ none → ¬ IsRange base count
checked_range-none base count h (b, zero, eb, en, pos, fits) = omega arith
checked_range-none base count h (b, suc n, eb, en, pos, fits) =
    unfold checked_range in ground (arith, h, eb, en, fits)

-- Within a valid range `acquire` looks for a number.
pub acquire-scan :
    (table : ProcessTable) (access : Access) (i : Identity) (base count : ℕ) (leases : Leases)
    → 1 ≤ count
    → base + count ≤ 1024
    → acquire table access i (int base) (int count) leases ≡ scan table access i count base leases
unfolding acquire scan_range checked_range
acquire-scan table access i base zero leases pos fits = absurd (omega arith)
acquire-scan table access i base (suc n) leases pos fits = ground (arith, fits)

-- `acquire` refuses a range that is no pair of integers, is empty or passes 1024, and changes
-- nothing; within a valid range it takes the first number whose file has no live owner and stores
-- the caller's identity there and nowhere else; it raises a runtime error, changing nothing, only
-- when every number of the range has a live owner; where a file before cannot be read, or the
-- process's own identity cannot, it raises and changes nothing; and where the write of the first number
-- raises, nothing has changed, or that number's file alone has the caller's identity.
pub acquire-Allocates :
    (table : ProcessTable) (access : Access) (i : Identity) (base count : Value) (leases : Leases)
    → Allocates table access i base count leases (acquire table access i base count leases)
unfolding acquire
acquire-Allocates table access i base count leases =
    elim (Option-cases (checked_range base count)) [
      | inl e ↦ refused (checked_range-none base count e) (rw e)
      | inr ((b, n), e) ↦
          let (eb, en, pos, fits) = checked_range-some base count e in
          rw e (scanned b n eb en pos fits (scan-Scanned table access i leases n b))
    ]
