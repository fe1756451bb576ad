-- ===== src/Verbose/Observations.antt =====
-- `process_observations` and `status` of src/lcl_fastapi/verbose, with the file that `observe` writes:
-- what each process of a start has observed of the shared target.
pub mod Listed
use Prim.Native.Nat.{◌*◌}
use Prim.Native.String.{String}
use text.Mathlib.Text.{◌==◌ as str_eq}
use lcl_fastapi.Prelude.{
  ℕ, Bool, not, ◌||◌, Option, none, some, List, [], ◌∷◌, ◌++◌, leb, if◌then◌else◌,
}
use lcl_fastapi.Runtime.State.Value.{Value, int, float, bool, str, Record, get, value_eq, second}
use lcl_fastapi.Runtime.State.Identity.{Identity, ProcessTable, identity_record, is_live, valid_pid}
use lcl_fastapi.Verbose.Storage.{FileVerboseState, read_target}

pub data Role : Type 0 where
  controller : Role
  api : Role

pub record FileVerboseProcess : Type 0 where
  pub role : Role
  pub pid : ℕ
  pub enabled : Bool
  pub revision : ℕ
  pub observed_at : ℕ

unfoldable pub role_text : Role → String
role_text controller = "controller"
role_text api = "api"

-- What `observe` writes for its process.
unfoldable pub observation : Identity → String → Role → FileVerboseState → ℕ → Record
unfolding identity_record role_text
observation i service_id role s time =
    identity_record i
    ++ ("service_id", str service_id)
      ∷ ("role", str (role_text role))
      ∷ ("enabled", bool s.enabled)
      ∷ ("revision", int s.revision)
      ∷ ("observed_at", float time)
      ∷ []

-- role not in ("controller", "api")
unfoldable pub role_of : Value → Option Role
role_of (str s) =
    if str_eq s "controller" then some controller else if str_eq s "api" then some api else none
role_of _ = none

-- type(observed_at) in (int, float), in the unit of a float
unfoldable pub time_of : Value → Option ℕ
time_of (int n) = some (n * second)
time_of (float t) = some t
time_of _ = none

unfoldable pub process_of :
    Option Role → Option ℕ → Value → Value → Option ℕ → Option FileVerboseProcess
process_of (some role) (some pid) (bool b) (int n) (some t) =
    some (record { role = role; pid = pid; enabled = b; revision = n; observed_at = t })
process_of _ _ _ _ _ = none

-- The process of a record of this start, if it is live and its observation is well formed.
unfoldable pub observed : ProcessTable → String → Record → Option FileVerboseProcess
unfolding role_of time_of process_of
observed table service_id r =
    if not (value_eq (get r "service_id") (str service_id)) || not (is_live table r)
    then none
    else process_of (role_of (get r "role")) (valid_pid (get r "pid")) (get r "enabled")
        (get r "revision") (time_of (get r "observed_at"))

unfoldable pub insert : FileVerboseProcess → List FileVerboseProcess → List FileVerboseProcess
insert p [] = p ∷ []
insert p (q ∷ qs) = let later = insert p qs in if leb p.pid q.pid then p ∷ q ∷ qs else q ∷ later

unfoldable pub insert_if :
    Option FileVerboseProcess → List FileVerboseProcess → List FileVerboseProcess
unfolding insert
insert_if none qs = qs
insert_if (some p) qs = insert p qs

-- The loop over the files, and sorted(result, key=lambda item: item.pid).
unfoldable pub process_observations : ProcessTable → String → List Record → List FileVerboseProcess
unfolding observed insert_if
process_observations table service_id [] = []
process_observations table service_id (r ∷ rs) =
    insert_if (observed table service_id r) (process_observations table service_id rs)

pub record FileVerboseStatus : Type 0 where
  pub enabled : Bool
  pub revision : ℕ
  pub processes : List FileVerboseProcess

unfoldable pub status : ProcessTable → String → Record → List Record → Option FileVerboseStatus
unfolding read_target process_observations
status table service_id file observations = elim (read_target service_id file) [
  | none ↦ none
  | some s ↦ some (record {
    enabled = s.enabled;
    revision = s.revision;
    processes = process_observations table service_id observations;
  })
]
