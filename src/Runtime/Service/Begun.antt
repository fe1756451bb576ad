-- ===== src/Runtime/Service/Begun.antt =====
-- What the body of a start finds.
use lcl_fastapi.Prelude.{
  ℕ, zero, suc, ◌<◌, Bool, true, false, ◌||◌, Option, none, some, List, [], ◌∷◌, ◌++◌, ◌≡◌, refl,
  sym, subst, arith,
}
use lcl_fastapi.Runtime.State.Value.{get, value_eq}
use lcl_fastapi.Runtime.State.Identity.{
  ProcessTable, Runs, identity_record, is_live, is_live-running, valid_pid-int, valid_time,
}
use lcl_fastapi.Verbose.Storage.{read_target, read_target-write_target}
use text.Mathlib.TextPositions.{eq_refl}
use lcl_fastapi.Verbose.Steps.{Reach, begin}
use lcl_fastapi.Runtime.Service.{
  Directory, Start, service_record, is_of, shutdown_requested, Operation, perform, prepare, publish,
  announce, enter,
}

perform_complete :
    (os : List Operation) (failure : Option (ℕ × Bool)) (d : Directory)
    → (perform os failure d).1 ≡ true
    → (perform os failure d).0 ≡ (perform os none d).0
unfolding perform
perform_complete [] failure d h = refl
perform_complete (o ∷ os) none d h = refl
perform_complete (o ∷ os) (some (zero, took)) d h = absurd (ground (arith, h))
perform_complete (o ∷ os) (some (suc n, took)) d h = perform_complete os (some (n, took)) (o d) h

-- The files of a start whose entry is complete.
pub record HasBegun (s : Start) (table : ProcessTable) (d : Directory) : Type 0 where
  pub no_shutdown : shutdown_requested s.service_id d ≡ false
  pub no_reload : d.reload ≡ []
  pub own : is_of s.service_id d.runtime ≡ true
  pub live : 0 < s.identity.pid → Runs table s.identity → is_live table d.runtime ≡ true
  pub target :
      read_target s.service_id d.control
      ≡ some (record { enabled = s.file_verbose || s.verbose; revision = 0 })
  pub token : d.token ≡ some s.secret
  pub pid_file : d.pid_file ≡ some s.identity.pid

entered-HasBegun :
    (s : Start) (table : ProcessTable) (d : Directory) → HasBegun s table (enter s none d).0
unfolding enter perform prepare publish announce
entered-HasBegun s table d = record {
  no_shutdown = unfold shutdown_requested is_of get value_eq in refl;
  no_reload = refl;
  own = unfold is_of service_record identity_record get value_eq in eq_refl s.service_id;
  live = λ pos runs.
      is_live-running table (service_record s) s.identity
        (unfold service_record identity_record get in valid_pid-int s.identity.pid pos)
        (unfold service_record identity_record get valid_time in refl) runs;
  target =
      read_target-write_target s.service_id
        (record { enabled = s.file_verbose || s.verbose; revision = 0 });
  token = refl;
  pid_file = refl;
}

-- Whatever an earlier start has left in the directory, an entry that is complete leaves to the body no
-- shutdown request of this start and no reload marker, an identity of this start that its running
-- process keeps live, the target of the file logging that the settings ask for with the revision 0,
-- and its token and PID.
pub enter-HasBegun :
    (s : Start) (table : ProcessTable) (failure : Option (ℕ × Bool)) (d : Directory)
    → (enter s failure d).1 ≡ true
    → HasBegun s table (enter s failure d).0
unfolding enter
enter-HasBegun s table failure d h =
    subst (HasBegun s table)
      (sym (perform_complete (prepare s ++ publish s ∷ announce s) failure d h))
      (entered-HasBegun s table d)

-- The target that a complete entry leaves is where the steps of the start's processes begin.
pub enter-Reach :
    (s : Start) (failure : Option (ℕ × Bool)) (d : Directory)
    → (enter s failure d).1 ≡ true
    → Reach s.service_id (s.file_verbose || s.verbose) (record {
      file = (enter s failure d).0.control;
      caches = λ pid. record { enabled = s.file_verbose || s.verbose; revision = 0 };
      pending = [];
    })
unfolding enter
enter-Reach s failure d h =
    subst
      (λ (e : Directory). Reach s.service_id (s.file_verbose || s.verbose) (record {
        file = e.control;
        caches = λ pid. record { enabled = s.file_verbose || s.verbose; revision = 0 };
        pending = [];
      }))
      (sym (perform_complete (prepare s ++ publish s ∷ announce s) failure d h))
      (unfold perform prepare publish announce in begin)
