-- ===== src/Runtime/Service.antt =====
-- `service_runtime`, `cleanup_stale` and `shutdown_requested` of src/lcl_fastapi/runtime/service.py,
-- under the lock service.lock. A record is what `read_state` gives of a file, which is empty for an
-- absent one.
pub mod Forgotten
pub mod Begun
use Prim.Native.String.{String}
use lcl_fastapi.Prelude.{
  ℕ, zero, suc, Bool, true, false, ◌||◌, Option, none, some, List, [], ◌∷◌, ◌++◌, if◌then◌else◌,
}
use lcl_fastapi.Runtime.State.Value.{str, Record, get, value_eq}
use lcl_fastapi.Runtime.State.Identity.{Identity, ProcessTable, identity_record}
use lcl_fastapi.Runtime.Lease.{Leases, cleanup_leases}
use lcl_fastapi.Verbose.Storage.{write_target}

-- The files of the state directory, and the file of the PID. `workers` are the observations of the
-- workers and `observations` those of the logging control.
pub record Directory : Type 0 where
  pub runtime : Record
  pub shutdown : Record
  pub reload : Record
  pub control : Record
  pub token : Option String
  pub pid_file : Option ℕ
  pub observations : List Record
  pub workers : Leases
  pub leases : Leases

-- What a start takes from its settings, and the texts that it draws; `details` are the entries of
-- the identity that no one compares.
pub record Start : Type 0 where
  pub identity : Identity
  pub service_id : String
  pub details : Record
  pub file_verbose : Bool
  pub verbose : Bool
  pub secret : String

unfoldable pub service_record : Start → Record
unfolding identity_record
service_record s = identity_record s.identity ++ ("service_id", str s.service_id) ∷ s.details

-- record.get("service_id") == service_id
unfoldable pub is_of : String → Record → Bool
is_of service_id r = value_eq (get r "service_id") (str service_id)

unfoldable pub shutdown_requested : String → Directory → Bool
unfolding is_of
shutdown_requested service_id d = is_of service_id d.shutdown

unfoldable pub cleanup_stale : ProcessTable → Directory → Directory
cleanup_stale table d = record d {
  workers = cleanup_leases table d.workers;
  leases = cleanup_leases table d.leases;
}

-- for observation in ...glob("*.json")
unfoldable pub forget : String → List Record → List Record
forget service_id [] = []
forget service_id (r ∷ rs) =
    let rest = forget service_id rs in if is_of service_id r then rest else r ∷ rest

abbrev pub Operation : Type 0
Operation = Directory → Directory

-- One operation after the other. An OSError ends them: the number of the one that raises it, and
-- whether it had its effect before.
unfoldable pub perform : List Operation → Option (ℕ × Bool) → Directory → Directory × Bool
perform [] failure d = (d, true)
perform (o ∷ os) none d = perform os none (o d)
perform (o ∷ os) (some (zero, took)) d = (if took then o d else d, false)
perform (o ∷ os) (some (suc n, took)) d = perform os (some (n, took)) (o d)

-- An empty file where there is none.
touch : Option String → Option String
touch none = some ""
touch (some t) = some t

-- The operations up to the publication of the identity: the markers of an earlier start, and the
-- token, which is made, restricted and written.
unfoldable pub prepare : Start → List Operation
unfolding touch
prepare s =
    (λ d. record d { shutdown = [] })
    ∷ (λ d. record d { reload = [] })
    ∷ (λ d. record d { token = touch d.token })
    ∷ (λ d. d)
    ∷ (λ d. record d { token = some s.secret })
    ∷ []

unfoldable pub publish : Start → Operation
unfolding service_record
publish s d = record d { runtime = service_record s }

-- The target of the file logging, and the directory and the file of the PID.
unfoldable pub announce : Start → List Operation
announce s =
    (λ d. record d {
      control =
          write_target s.service_id
            (record { enabled = s.file_verbose || s.verbose; revision = 0 });
    })
    ∷ (λ d. d)
    ∷ (λ d. record d { pid_file = some s.identity.pid })
    ∷ []

unfoldable pub enter : Start → Option (ℕ × Bool) → Directory → Directory × Bool
unfolding perform prepare publish announce
enter s failure d = perform (prepare s ++ publish s ∷ announce s) failure d

-- What is removed if runtime.json is of this start.
unfoldable pub withdraw : ProcessTable → String → List Operation
withdraw table service_id =
    cleanup_stale table
    ∷ (λ d. record d { runtime = [] })
    ∷ (λ d. record d { shutdown = [] })
    ∷ (λ d. record d { reload = [] })
    ∷ (λ d. record d { control = [] })
    ∷ (λ d. record d { observations = forget service_id d.observations })
    ∷ (λ d. record d { pid_file = none })
    ∷ []

-- The `finally`, which a forked child skips.
unfoldable pub exit :
    Bool → ProcessTable → String → Option (ℕ × Bool) → Directory → Directory × Bool
unfolding perform is_of withdraw
exit false table service_id failure d = (d, true)
exit true table service_id failure d =
    let own = if is_of service_id d.runtime then withdraw table service_id else [] in
    perform (own ++ (λ e. record e { token = none }) ∷ []) failure d

-- The body runs only after a complete entry; the `finally` runs in any case. The flag is false where
-- an exception leaves.
unfoldable pub service_runtime :
    Start
    → ProcessTable
    → Option (ℕ × Bool)
    → (Directory → Directory × Bool)
    → Bool
    → Option (ℕ × Bool)
    → Directory
    → Directory × Bool
unfolding enter exit
service_runtime s table on_entry body creator on_exit d =
    let (entered, complete) = enter s on_entry d in
    let (after, returned) = if complete then body entered else (entered, false) in
    let (end, clean) = exit creator table s.service_id on_exit after in
    (end, if returned then clean else false)
