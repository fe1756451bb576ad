-- ===== src/Verbose/Consistent.antt =====
-- What stays true of the target, the caches and the pending targets.
use Prim.Native.String.{String}
use native.Mathlib.Numerals.{add-one}
use lcl_fastapi.Prelude.{
  ℕ, zero, suc, ◌≤◌, Bool, true, false, not, some, List, [], ◌∷◌, ◌≡◌, refl, ap, ◌∙◌, arith, ◌==◌,
  leb, All, Bool-cases, inl, inr, ◌⊎◌, subst,
}
use lcl_fastapi.Runtime.State.Value.{bool, Record}
use lcl_fastapi.Verbose.Storage.{FileVerboseState, read_target, read_target-write_target}
use lcl_fastapi.Verbose.Control.{Disk, observe, requested, same_flag, update, update-Leaves}
use lcl_fastapi.Verbose.Steps.{
  World, cache_of, Pending, Step, Reach, update_step, read_step, observe_step, begin, next,
  start_process,
}

-- Each revision is a change of the flag, so the flag of a revision is determined.
abbrev pub flag_at : Bool → ℕ → Bool
flag_at initial zero = initial
flag_at initial (suc n) = not (flag_at initial n)

-- A state that belongs to the first `n` revisions.
pub record Belongs (initial : Bool) (n : ℕ) (s : FileVerboseState) : Type 0 where
  pub not_ahead : s.revision ≤ n
  pub flag : s.enabled ≡ flag_at initial s.revision

pub record IsConsistent (service_id : String) (initial : Bool) (w : World) : Type 0 where
  pub target : FileVerboseState
  pub readable : read_target service_id w.file ≡ some target
  pub flag : target.enabled ≡ flag_at initial target.revision
  pub cached : (pid : ℕ) → Belongs initial target.revision (w.caches pid)
  pub waiting : All (Belongs initial target.revision) w.pending

module _ (initial : Bool) where
  Belongs-le : (n m : ℕ) (s : FileVerboseState) → n ≤ m → Belongs initial n s → Belongs initial m s
  Belongs-le n m s h b = record { not_ahead = omega arith; flag = b.flag }

  All-Belongs-le :
      (n m : ℕ) (ss : List FileVerboseState)
      → n ≤ m
      → All (Belongs initial n) ss
      → All (Belongs initial m) ss
  All-Belongs-le n m [] h a = tt
  All-Belongs-le n m (s ∷ ss) h (b, a) = (Belongs-le n m s h b, All-Belongs-le n m ss h a)

  Pending-Belongs :
      (n : ℕ) (ss : List FileVerboseState) (s : FileVerboseState)
      → All (Belongs initial n) ss
      → Pending ss s
      → Belongs initial n s
  Pending-Belongs n [] s a p = absurd p
  Pending-Belongs n (t ∷ ss) s (b, a) (inl e) = subst (Belongs initial n) e b
  Pending-Belongs n (t ∷ ss) s (b, a) (inr p) = Pending-Belongs n ss s a p

  observe-Belongs :
      (n : ℕ) (c s : FileVerboseState)
      → Belongs initial n c
      → Belongs initial n s
      → Belongs initial n (observe c s)
  unfolding observe
  observe-Belongs n c s hc hs = elim (Bool-cases (leb c.revision s.revision)) [
    | inl e ↦ rw e hs
    | inr e ↦ rw e hc
  ]

  cache_of-Belongs :
      (n pid : ℕ) (s : FileVerboseState) (caches : ℕ → FileVerboseState)
      → Belongs initial n s
      → ((p : ℕ) → Belongs initial n (caches p))
      → (p : ℕ) → Belongs initial n (cache_of pid s caches p)
  cache_of-Belongs n pid s caches hs hc p = elim (Bool-cases (pid == p)) [
    | inl e ↦ rw e hs
    | inr e ↦ rw e (hc p)
  ]

  -- The requested target follows the one before it.
  requested-flag :
      (enabled : Bool) (t : FileVerboseState)
      → t.enabled ≡ flag_at initial t.revision
      → (requested enabled t).enabled ≡ flag_at initial (requested enabled t).revision
  requested-flag enabled t h = elim (Bool-cases (same_flag enabled t.enabled)) [
    | inl e ↦ rw e (same enabled t.enabled e ∙ h)
    | inr e ↦ rw (e, add-one t.revision) (differ enabled t.enabled e ∙ ap not h)
  ]
    where
      same : (a b : Bool) → same_flag a b ≡ true → a ≡ b
      same a b h = ground arith

      differ : (a b : Bool) → same_flag a b ≡ false → a ≡ not b
      differ a b h = ground arith

  module _ (service_id : String) where
    read-Belongs :
        (file : Record) (t s : FileVerboseState)
        → read_target service_id file ≡ some t
        → read_target service_id file ≡ some s
        → t.enabled ≡ flag_at initial t.revision
        → Belongs initial t.revision s
    read-Belongs file t s ht hs fl =
        let e : t ≡ s = cc in
        subst (Belongs initial t.revision) e (record { not_ahead = omega arith; flag = fl })

    requested-IsConsistent :
        (w : World) (pid : ℕ) (enabled : Bool) (file : Record) (s : FileVerboseState)
        (c : IsConsistent service_id initial w)
        → read_target service_id file ≡ some (requested enabled c.target)
        → (s ≡ requested enabled c.target) ⊎ (s ≡ w.caches pid)
        → IsConsistent service_id initial
            (record w { file = file; caches = cache_of pid s w.caches })
    requested-IsConsistent w pid enabled file s c readable is =
        let t = c.target in
        let t' : FileVerboseState = requested enabled t in
        let grows : t.revision ≤ t'.revision = ground arith in
        let fl = requested-flag enabled t c.flag in
        let before : (p : ℕ) → Belongs initial t'.revision (w.caches p) =
          λ p. Belongs-le t.revision t'.revision (w.caches p) grows (c.cached p) in
        record {
          target = t';
          readable = readable;
          flag = fl;
          cached =
              cache_of-Belongs t'.revision pid s w.caches
                (elim is [
                  | inl e ↦ rw e (record { not_ahead = omega arith; flag = fl })
                  | inr e ↦ rw e (before pid)
                ])
                before;
          waiting = All-Belongs-le t.revision t'.revision w.pending grows c.waiting;
        }

    unchanged-IsConsistent :
        (w : World) (pid : ℕ) (file : Record) (s : FileVerboseState)
        → IsConsistent service_id initial w
        → s ≡ w.caches pid
        → file ≡ w.file
        → IsConsistent service_id initial
            (record w { file = file; caches = cache_of pid s w.caches })
    unchanged-IsConsistent w pid file s c es ef = record {
      target = c.target;
      readable = rw ef c.readable;
      flag = c.flag;
      cached = cache_of-Belongs c.target.revision pid s w.caches (rw es (c.cached pid)) c.cached;
      waiting = c.waiting;
    }

    update-IsConsistent :
        (w : World) (disk : Disk) (pid : ℕ) (enabled : Bool)
        → IsConsistent service_id initial w
        → IsConsistent service_id initial (record w {
          file = (update disk service_id (bool enabled) (w.caches pid) w.file).2;
          caches =
              cache_of pid (update disk service_id (bool enabled) (w.caches pid) w.file).1 w.caches;
        })
    update-IsConsistent w disk pid enabled c =
        elim (update-Leaves disk service_id enabled (w.caches pid) c.target w.file c.readable) [
          | inl (es, ef) ↦ unchanged-IsConsistent w pid _ _ c es ef
          | inr (es, ef) ↦ requested-IsConsistent w pid enabled _ _ c ef es
        ]

    Step-IsConsistent :
        {w v : World}
        → Step service_id w v
        → IsConsistent service_id initial w
        → IsConsistent service_id initial v
    Step-IsConsistent {w} (start_process pid s e) c = record {
      target = c.target;
      readable = c.readable;
      flag = c.flag;
      cached =
          cache_of-Belongs c.target.revision pid s w.caches
            (read-Belongs w.file c.target s c.readable e c.flag) c.cached;
      waiting = c.waiting;
    }
    Step-IsConsistent {w} (read_step s e) c = record {
      target = c.target;
      readable = c.readable;
      flag = c.flag;
      cached = c.cached;
      waiting = (read-Belongs w.file c.target s c.readable e c.flag, c.waiting);
    }
    Step-IsConsistent {w} (observe_step pid s p) c = record {
      target = c.target;
      readable = c.readable;
      flag = c.flag;
      cached =
          cache_of-Belongs c.target.revision pid (observe (w.caches pid) s) w.caches
            (observe-Belongs c.target.revision (w.caches pid) s (c.cached pid)
              (Pending-Belongs c.target.revision w.pending s c.waiting p))
            c.cached;
      waiting = c.waiting;
    }
    Step-IsConsistent {w} (update_step disk pid enabled) c =
        update-IsConsistent w disk pid enabled c

    pub Reach-IsConsistent :
        {w : World} → Reach service_id initial w → IsConsistent service_id initial w
    Reach-IsConsistent begin = record {
      target = record { enabled = initial; revision = 0 };
      readable = read_target-write_target service_id (record { enabled = initial; revision = 0 });
      flag = refl;
      cached = λ pid. record { not_ahead = omega arith; flag = refl };
      waiting = tt;
    }
    Reach-IsConsistent (next r s) = Step-IsConsistent s (Reach-IsConsistent r)
