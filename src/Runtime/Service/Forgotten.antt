-- ===== src/Runtime/Service/Forgotten.antt =====
-- What the exit of a start leaves.
use Prim.Native.String.{String}
use text.Mathlib.TextPositions.{eq_refl}
use lcl_fastapi.Prelude.{
  ℕ, zero, suc, ◌⊎◌, Bool, true, false, Option, none, some, List, [], ◌∷◌, ◌++◌, ◌≡◌, refl, sym, ap,
  subst, subst, ◌∙◌, arith, All, inl, inr, Bool-cases,
}
use lcl_fastapi.Runtime.State.Value.{Record, get, value_eq}
use lcl_fastapi.Runtime.State.Identity.{ProcessTable, identity_record, is_live}
use lcl_fastapi.Runtime.Lease.{Leases, cleanup_leases}
use lcl_fastapi.Runtime.Service.{
  Directory, Start, service_record, is_of, cleanup_stale, forget, Operation, perform, prepare,
  publish, announce, enter, withdraw, exit, service_runtime,
}

-- Operations that keep a property of the directory.
abbrev Keep : (Directory → Type 0) → Operation → Type 0
Keep P o = (d : Directory) → P d → P (o d)

perform-keeps :
    (P : Directory → Type 0) (os : List Operation) (failure : Option (ℕ × Bool)) (d : Directory)
    → All (Keep P) os
    → P d
    → P (perform os failure d).0
unfolding perform
perform-keeps P [] failure d h p = p
perform-keeps P (o ∷ os) none d h p = perform-keeps P os none (o d) h.1 (h.0 d p)
perform-keeps P (o ∷ os) (some (zero, true)) d h p = h.0 d p
perform-keeps P (o ∷ os) (some (zero, false)) d h p = p
perform-keeps P (o ∷ os) (some (suc n, took)) d h p =
    perform-keeps P os (some (n, took)) (o d) h.1 (h.0 d p)

-- One operation leads from a property that the ones before it keep to one that the later ones keep.
perform-turns :
    (P Q : Directory → Type 0) (os : List Operation) (o : Operation) (qs : List Operation)
    (failure : Option (ℕ × Bool)) (d : Directory)
    → All (Keep P) os
    → ((e : Directory) → P e → Q (o e))
    → All (Keep Q) qs
    → P d
    → ((P (perform (os ++ o ∷ qs) failure d).0) × ((perform (os ++ o ∷ qs) failure d).1 ≡ false))
      ⊎ Q (perform (os ++ o ∷ qs) failure d).0
unfolding perform
perform-turns P Q [] o qs none d h turn k p = inr (perform-keeps Q qs none (o d) k (turn d p))
perform-turns P Q [] o qs (some (zero, true)) d h turn k p = inr (turn d p)
perform-turns P Q [] o qs (some (zero, false)) d h turn k p = inl (p, refl)
perform-turns P Q [] o qs (some (suc n, took)) d h turn k p =
    inr (perform-keeps Q qs (some (n, took)) (o d) k (turn d p))
perform-turns P Q (x ∷ os) o qs none d h turn k p =
    perform-turns P Q os o qs none (x d) h.1 turn k (h.0 d p)
perform-turns P Q (x ∷ os) o qs (some (zero, true)) d h turn k p = inl (h.0 d p, refl)
perform-turns P Q (x ∷ os) o qs (some (zero, false)) d h turn k p = inl (p, refl)
perform-turns P Q (x ∷ os) o qs (some (suc n, took)) d h turn k p =
    perform-turns P Q os o qs (some (n, took)) (x d) h.1 turn k (h.0 d p)

-- No file is of the start with the given identifier.
pub record IsForeign (service_id : String) (d : Directory) : Type 0 where
  pub runtime : is_of service_id d.runtime ≡ false
  pub shutdown : is_of service_id d.shutdown ≡ false
  pub control : is_of service_id d.control ≡ false
  pub observations : All (λ r. is_of service_id r ≡ false) d.observations

-- The file of the PID is the one of before, and the reload marker too, unless it is gone.
pub record IsAsBefore (d e : Directory) : Type 0 where
  pub pid_file : e.pid_file ≡ d.pid_file
  pub reload : (e.reload ≡ d.reload) ⊎ (e.reload ≡ [])

again :
    {service_id : String} (d e : Directory)
    → IsForeign service_id d
    → e.runtime ≡ d.runtime
    → e.shutdown ≡ d.shutdown
    → e.control ≡ d.control
    → e.observations ≡ d.observations
    → IsForeign service_id e
again {service_id} d e h r s c o = record {
  runtime = ap (is_of service_id) r ∙ h.runtime;
  shutdown = ap (is_of service_id) s ∙ h.shutdown;
  control = ap (is_of service_id) c ∙ h.control;
  observations = subst (All (λ q. is_of service_id q ≡ false)) (sym o) h.observations;
}

module _ (s : Start) where
  -- Nothing of this start, and the PID file and the reload marker of before.
  IsBefore : Directory → Directory → Type 0
  IsBefore d e = IsForeign s.service_id e × IsAsBefore d e

  prepare-IsBefore : (d : Directory) → All (Keep (IsBefore d)) (prepare s)
  unfolding prepare is_of get value_eq IsBefore
  prepare-IsBefore b = (
    (λ d (h, k). (
      record {
        runtime = h.runtime;
        shutdown = refl;
        control = h.control;
        observations = h.observations;
      },
      record { pid_file = k.pid_file; reload = k.reload },
    )),
    (
      (λ d (h, k).
          (again d _ h refl refl refl refl, record { pid_file = k.pid_file; reload = inr refl })),
      (
        (λ d (h, k).
            (again d _ h refl refl refl refl, record { pid_file = k.pid_file; reload = k.reload })),
        (
          (λ d h. h),
          (
            (λ d (h, k). (
              again d _ h refl refl refl refl,
              record { pid_file = k.pid_file; reload = k.reload },
            )),
            tt,
          ),
        ),
      ),
    ),
  )

  abbrev IsOwn : Directory → Type 0
  IsOwn d = is_of s.service_id d.runtime ≡ true

  publish-IsOwn : (d : Directory) → IsOwn (publish s d)
  unfolding publish service_record identity_record is_of get value_eq
  publish-IsOwn d = eq_refl s.service_id

  announce-IsOwn : All (Keep IsOwn) (announce s)
  unfolding announce
  announce-IsOwn = ((λ d h. h), ((λ d h. h), ((λ d h. h), tt)))

  forget-all : (rs : List Record) → All (λ r. is_of s.service_id r ≡ false) (forget s.service_id rs)
  unfolding forget
  forget-all [] = tt
  forget-all (r ∷ rs) = elim (Bool-cases (is_of s.service_id r)) [
    | inl e ↦ rw e (forget-all rs)
    | inr e ↦ rw e (e, forget-all rs)
  ]

  -- What is left of the directory: nothing of this start, and no token.
  pub record IsForgotten (d : Directory) : Type 0 where
    pub foreign : IsForeign s.service_id d
    pub token : d.token ≡ none

  -- What else the exit of a start that had published its identity leaves.
  pub record IsWithdrawn (table : ProcessTable) (d : Directory) : Type 0 where
    pub reload : d.reload ≡ []
    pub pid_file : d.pid_file ≡ none
    pub leases : (n : ℕ) → (d.leases n ≡ []) ⊎ (is_live table (d.leases n) ≡ true)
    pub workers : (n : ℕ) → (d.workers n ≡ []) ⊎ (is_live table (d.workers n) ≡ true)

  cleanup_leases-live :
      (table : ProcessTable) (leases : Leases) (n : ℕ)
      → (cleanup_leases table leases n ≡ [])
        ⊎ (is_live table (cleanup_leases table leases n) ≡ true)
  unfolding cleanup_leases
  cleanup_leases-live table leases n = elim (Bool-cases (is_live table (leases n))) [
    | inl e ↦ rw e (inr e)
    | inr e ↦ rw e (inl refl)
  ]

  exit-foreign :
      (table : ProcessTable) (b d : Directory)
      → IsBefore b d
      → IsForgotten (exit true table s.service_id none d).0
        × IsAsBefore b (exit true table s.service_id none d).0
  unfolding exit perform IsBefore
  exit-foreign table b d (h, k) = rw h.runtime (
    record { foreign = again d _ h refl refl refl refl; token = refl },
    record { pid_file = k.pid_file; reload = k.reload },
  )

  exit-own :
      (table : ProcessTable) (d : Directory)
      → IsOwn d
      → IsForgotten (exit true table s.service_id none d).0
        × IsWithdrawn table (exit true table s.service_id none d).0
  unfolding exit perform withdraw cleanup_stale
  exit-own table d h = rw h (
    record {
      foreign = record {
        runtime = unfold is_of get value_eq in refl;
        shutdown = unfold is_of get value_eq in refl;
        control = unfold is_of get value_eq in refl;
        observations = forget-all d.observations;
      };
      token = refl;
    },
    record {
      reload = refl;
      pid_file = refl;
      leases = cleanup_leases-live table d.leases;
      workers = cleanup_leases-live table d.workers;
    },
  )

-- A start whose identifier no file had before leaves nothing of itself, at whatever operation its
-- entry fails, before or after the operation's effect, and however its body ends, as long as the body
-- leaves the identity in runtime.json alone and no operation of the exit fails: no identity, shutdown
-- request, logging target, observation or token. After a complete entry there is no reload marker and
-- no file of the PID either, and the leases and observations that are left are of running processes.
-- After an entry that failed, that holds too, or else the file of the PID is as it was before the
-- start, and the reload marker is as before or gone.
pub service_runtime-IsForgotten :
    (s : Start) (table : ProcessTable) (on_entry : Option (ℕ × Bool))
    (body : Directory → Directory × Bool) (d : Directory)
    → IsForeign s.service_id d
    → ((e : Directory) → is_of s.service_id (body e).0.runtime ≡ is_of s.service_id e.runtime)
    → let end = (service_runtime s table on_entry body true none d).0 in
      IsForgotten s end
      × ((enter s on_entry d).1 ≡ true → IsWithdrawn s table end)
      × (IsWithdrawn s table end ⊎ IsAsBefore d end)
unfolding service_runtime enter
service_runtime-IsForgotten s table on_entry body d foreign keeps =
    elim (perform-turns (IsBefore s d) (IsOwn s) (prepare s) (publish s) (announce s) on_entry d
      (prepare-IsBefore s d) (λ e h. publish-IsOwn s e) (announce-IsOwn s)
      (unfold IsBefore in (foreign, record { pid_file = refl; reload = inl refl }))) [
        | inl (p, stopped) ↦
            let no : (enter s on_entry d).1 ≡ false = stopped in
            let (f, k) = exit-foreign s table d (enter s on_entry d).0 p in
            rw no (f, (λ h. absurd (ground (arith, h))), inr k)
        | inr own ↦ elim (Bool-cases (enter s on_entry d).1) [
          | inl e ↦
              let (f, w) =
                exit-own s table (body (enter s on_entry d).0).0
                  (keeps (enter s on_entry d).0 ∙ own) in
              rw e (f, (λ h. w), inl w)
          | inr e ↦
              let (f, w) = exit-own s table (enter s on_entry d).0 own in rw e (f, (λ h. w), inl w)
        ]
      ]
