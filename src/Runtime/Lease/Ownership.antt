-- ===== src/Runtime/Lease/Ownership.antt =====
-- The worker numbers of running processes, over any interleaving of the operations on leases with
-- processes that start and end.
use lcl_fastapi.Prelude.{
  ℕ, Bool, true, false, ◌&&◌, List, [], ◌∷◌, ◌≡◌, refl, sym, ap, ◌∙◌, arith, ◌==◌, if◌then◌else◌,
  Bool-cases, inl, inr, ◌⊎◌, ==_iff, subst, All,
}
use lcl_fastapi.Runtime.State.Value.{Value, Record, record_eq}
use lcl_fastapi.Runtime.State.Identity.{Identity, identity_record, ProcessTable, is_live}
use lcl_fastapi.Runtime.Lease.{
  Leases, store, Access, WorkerIdLease, Acquired, leased, acquire, release, cleanup_leases,
}
use lcl_fastapi.Runtime.Lease.Allocation.{
  found, exhausted, unreadable, unclaimed, no_identity, no_write, late_error, Allocates, refused,
  scanned, acquire-Allocates,
}

-- The processes, the files, and the leases that were acquired and not yet released.
pub record World : Type 0 where
  pub table : ProcessTable
  pub leases : Leases
  pub held : List WorkerIdLease

same_lease : WorkerIdLease → WorkerIdLease → Bool
same_lease a b =
    a.worker_id == b.worker_id
    && (a.identity.pid == b.identity.pid && a.identity.created == b.identity.created)

pub drop_held : WorkerIdLease → List WorkerIdLease → List WorkerIdLease
drop_held l [] = []
drop_held l (a ∷ held) = let rest = drop_held l held in if same_lease a l then rest else a ∷ rest

abbrev pub gain : Acquired → List WorkerIdLease → List WorkerIdLease
gain (leased l) held = l ∷ held
gain _ held = held

-- A held lease whose owner runs.
abbrev runs : ProcessTable → WorkerIdLease → Bool
runs table l = is_live table (identity_record l.identity)

-- Processes come and go, and no owner that had ended runs again: a new process with its PID has
-- another creation time.
abbrev pub NoReturn : ProcessTable → ProcessTable → WorkerIdLease → Type 0
NoReturn before after l = (runs after l ≡ false) ⊎ (runs before l ≡ true)

pub data Step (w : World) : World → Type 0 where
  acquire_step :
      (access : Access) (i : Identity) (base count : Value)
      → is_live w.table (identity_record i) ≡ true
      → Step w (record w {
        leases = (acquire w.table access i base count w.leases).1;
        held = gain (acquire w.table access i base count w.leases).0 w.held;
      })
  release_step :
      (l : WorkerIdLease)
      → Step w (record w { leases = release l w.leases; held = drop_held l w.held })
  cleanup_step : Step w (record w { leases = cleanup_leases w.table w.leases })
  processes_step :
      (after : ProcessTable)
      → All (NoReturn w.table after) w.held
      → Step w (record w { table = after })

-- Any number of steps from a start where nothing is held.
pub data Reach : World → Type 0 where
  start :
      (table : ProcessTable) (leases : Leases)
      → Reach (record { table = table; leases = leases; held = [] })
  next : {w v : World} → Reach w → Step w v → Reach v

-- The file of a held number has its owner's identity, unless the owner has ended.
abbrev Keeps : ProcessTable → Leases → WorkerIdLease → Type 0
Keeps table leases l = (runs table l ≡ false) ⊎ (leases l.worker_id ≡ identity_record l.identity)

abbrev IsOwned : World → Type 0
IsOwned w = All (Keeps w.table w.leases) w.held

-- A write to a number whose file has no live owner disturbs no held lease.
store-Keeps :
    (table : ProcessTable) (leases : Leases) (k : ℕ) (r : Record) (held : List WorkerIdLease)
    → is_live table (leases k) ≡ false
    → All (Keeps table leases) held
    → All (Keeps table (store k r leases)) held
store-Keeps table leases k r [] free h = tt
store-Keeps table leases k r (l ∷ held) free (o, h) =
    (go (Bool-cases (k == l.worker_id)) o, store-Keeps table leases k r held free h)
  where
    go :
        ((k == l.worker_id) ≡ true) ⊎ ((k == l.worker_id) ≡ false)
        → Keeps table leases l
        → Keeps table (store k r leases) l
    go same (inl dead) = inl dead
    go (inl same) (inr e) = inl (rw (← e, ← (==_iff k l.worker_id).0 same) free)
    go (inr other) (inr e) = inr (rw other e)

acquire-IsOwned :
    (w : World) (access : Access) (i : Identity) (base count : Value)
    → IsOwned w
    → All
        (Keeps w.table (acquire w.table access i base count w.leases).1)
        (gain (acquire w.table access i base count w.leases).0 w.held)
acquire-IsOwned w access i base count h =
    go (acquire w.table access i base count w.leases)
      (acquire-Allocates w.table access i base count w.leases)
  where
    go :
        (result : Acquired × Leases)
        → Allocates w.table access i base count w.leases result
        → All (Keeps w.table result.1) (gain result.0 w.held)
    go result (refused _ e) = rw e h
    go result (scanned b n _ _ _ _ (found m k _ _ _ free _ e)) = rw e (
      inr (rw ((==_iff k k).1 refl) refl),
      store-Keeps w.table w.leases k (identity_record i) w.held free h,
    )
    go result (scanned b n _ _ _ _ (exhausted _ e)) = rw e h
    go result (scanned b n _ _ _ _ (unreadable m k _ _ _ _ e)) = rw e h
    go result (scanned b n _ _ _ _ (unclaimed m k _ _ _ free (no_identity _ e))) = rw e h
    go result (scanned b n _ _ _ _ (unclaimed m k _ _ _ free (no_write _ e))) = rw e h
    go result (scanned b n _ _ _ _ (unclaimed m k _ _ _ free (late_error _ e))) =
        rw e (store-Keeps w.table w.leases k (identity_record i) w.held free h)

-- Equal identity records are of the same process.
identity_record-eq :
    (i j : Identity)
    → record_eq (identity_record i) (identity_record j) ≡ true
    → (i.pid ≡ j.pid) × (i.created ≡ j.created)
unfolding record_eq identity_record
identity_record-eq i j h = ground arith

release-Keeps :
    (table : ProcessTable) (leases : Leases) (l a : WorkerIdLease)
    → same_lease a l ≡ false
    → Keeps table leases a
    → Keeps table (release l leases) a
unfolding release
release-Keeps table leases l a other (inl dead) = inl dead
release-Keeps table leases l a other (inr e) =
    elim (Bool-cases (record_eq (leases l.worker_id) (identity_record l.identity))) [
      | inl own ↦ elim (Bool-cases (l.worker_id == a.worker_id)) [
        | inl same ↦
            let k : l.worker_id ≡ a.worker_id = (==_iff l.worker_id a.worker_id).0 same in
            let own' : record_eq (identity_record a.identity) (identity_record l.identity) ≡ true =
              rw (← e, ← k) own in
            let (p, c) = identity_record-eq a.identity l.identity own' in
            absurd (unfold same_lease in ground (arith, other, k, p, c))
        | inr ne ↦ inr (rw (own, ne) e)
      ]
      | inr alien ↦ inr (rw alien e)
    ]

release-IsOwned :
    (table : ProcessTable) (leases : Leases) (l : WorkerIdLease) (held : List WorkerIdLease)
    → All (Keeps table leases) held
    → All (Keeps table (release l leases)) (drop_held l held)
unfolding drop_held
release-IsOwned table leases l [] h = tt
release-IsOwned table leases l (a ∷ held) (o, h) = elim (Bool-cases (same_lease a l)) [
  | inl same ↦ rw same (release-IsOwned table leases l held h)
  | inr other ↦
      rw other (release-Keeps table leases l a other o, release-IsOwned table leases l held h)
]

cleanup-IsOwned :
    (table : ProcessTable) (leases : Leases) (held : List WorkerIdLease)
    → All (Keeps table leases) held
    → All (Keeps table (cleanup_leases table leases)) held
cleanup-IsOwned table leases [] h = tt
cleanup-IsOwned table leases (a ∷ held) (o, h) =
    (go o (Bool-cases (runs table a)), cleanup-IsOwned table leases held h)
  where
    go :
        Keeps table leases a
        → (runs table a ≡ true) ⊎ (runs table a ≡ false)
        → Keeps table (cleanup_leases table leases) a
    go o (inr dead) = inl dead
    go (inl dead) (inl live) = inl dead
    go (inr e) (inl live) = inr (unfold cleanup_leases in rw (e, live) refl)

processes-IsOwned :
    (before after : ProcessTable) (leases : Leases) (held : List WorkerIdLease)
    → All (NoReturn before after) held
    → All (Keeps before leases) held
    → All (Keeps after leases) held
processes-IsOwned before after leases [] n h = tt
processes-IsOwned before after leases (a ∷ held) (n, ns) (o, h) =
    (go n o, processes-IsOwned before after leases held ns h)
  where
    go : NoReturn before after a → Keeps before leases a → Keeps after leases a
    go n (inr e) = inr e
    go (inl ended) o = inl ended
    go (inr ran) (inl dead) = absurd (cc (ran, dead))

Step-IsOwned : {w v : World} → Step w v → IsOwned w → IsOwned v
Step-IsOwned {w} (acquire_step access i base count live) h = acquire-IsOwned w access i base count h
Step-IsOwned {w} (release_step l) h = release-IsOwned w.table w.leases l w.held h
Step-IsOwned {w} cleanup_step h = cleanup-IsOwned w.table w.leases w.held h
Step-IsOwned {w} (processes_step after n) h = processes-IsOwned w.table after w.leases w.held n h

Reach-IsOwned : {w : World} → Reach w → IsOwned w
Reach-IsOwned (start table leases) = tt
Reach-IsOwned (next r s) = Step-IsOwned s (Reach-IsOwned r)

-- The lease is one of those held.
abbrev pub Holds : List WorkerIdLease → WorkerIdLease → Type 0
Holds [] l = ⊥
Holds (a ∷ held) l = (a ≡ l) ⊎ Holds held l

Holds-Keeps :
    (table : ProcessTable) (leases : Leases) (held : List WorkerIdLease) (l : WorkerIdLease)
    → All (Keeps table leases) held
    → Holds held l
    → Keeps table leases l
Holds-Keeps table leases (a ∷ held) l (o, h) (inl e) = subst (Keeps table leases) e o
Holds-Keeps table leases (a ∷ held) l (o, h) (inr m) = Holds-Keeps table leases held l h m
Holds-Keeps table leases [] l h m = absurd m

Keeps-live :
    (table : ProcessTable) (leases : Leases) (l : WorkerIdLease)
    → runs table l ≡ true
    → Keeps table leases l
    → leases l.worker_id ≡ identity_record l.identity
Keeps-live table leases l live (inl dead) = absurd (cc (live, dead))
Keeps-live table leases l live (inr e) = e

identity_record-injective :
    (i j : Identity)
    → identity_record i ≡ identity_record j
    → (i.pid ≡ j.pid) × (i.created ≡ j.created)
unfolding identity_record
identity_record-injective i j e = ground arith

-- Two running processes never hold one worker number: after any steps of acquiring, releasing,
-- cleaning up, starting and ending, of leases held by running owners, two with the same number are of
-- the same process. A process that has ended never runs again with its PID and creation time.
pub Reach-exclusive :
    {w : World} (a b : WorkerIdLease)
    → Reach w
    → Holds w.held a
    → Holds w.held b
    → is_live w.table (identity_record a.identity) ≡ true
    → is_live w.table (identity_record b.identity) ≡ true
    → a.worker_id ≡ b.worker_id
    → (a.identity.pid ≡ b.identity.pid) × (a.identity.created ≡ b.identity.created)
Reach-exclusive {w} a b r ha hb la lb e =
    let owned = Reach-IsOwned r in
    let ka = Keeps-live w.table w.leases a la (Holds-Keeps w.table w.leases w.held a owned ha) in
    let kb = Keeps-live w.table w.leases b lb (Holds-Keeps w.table w.leases w.held b owned hb) in
    identity_record-injective a.identity b.identity (sym ka ∙ ap w.leases e ∙ kb)
