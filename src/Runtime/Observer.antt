-- ===== src/Runtime/Observer.antt =====
-- `live_workers` of src/lcl_fastapi/runtime/state.py and the observation in `tick` of ControllerLog in
-- src/lcl_fastapi/runtime/controller.py, after its background_tick. The warning of the verbose
-- control is left out. A set of keys has the order of its dictionary.
pub mod Log
pub mod Known
pub mod Live
pub mod Ticks
use Prim.Native.String.{String}
use lcl_fastapi.Prelude.{
  ℕ, ◌+◌, Bool, true, false, not, ◌&&◌, Option, none, some, List, [], ◌∷◌, ◌++◌, ltb, if◌then◌else◌,
  length,
}
use lcl_fastapi.Runtime.State.Value.{Value, str, Record, get, value_eq}
use lcl_fastapi.Runtime.State.Identity.{ProcessTable, is_live}
use lcl_fastapi.Runtime.Controller.{same_key, each_once}

-- `files` are the records of the directory's files in their order.
unfoldable pub live_workers : ProcessTable → String → List Record → List Record
live_workers table service_id [] = []
live_workers table service_id (r ∷ files) =
    let rest = live_workers table service_id files in
    if value_eq (get r "service_id") (str service_id) && is_live table r then r ∷ rest else rest

-- The messages of an observation; a worker's PID, and its log files.
pub data Message : Type 0 where
  heartbeat : ℕ → Message
  worker_down : Value → Message
  worker_up : Value → Message
  log_rotate : Value → Value → Message

-- workers.get(key), for the key of a record
unfoldable pub find : Record → List Record → Option Record
find r [] = none
find r (q ∷ qs) = let later = find r qs in if same_key r q then some q else later

unfoldable pub down : Record → Option Record → List Message
down r none = worker_down (get r "pid") ∷ []
down r (some q) = []

-- for key in self.workers.keys() - current.keys()
unfoldable pub downs : List Record → List Record → List Message
downs [] current = []
downs (r ∷ rs) current = down r (find r current) ++ downs rs current

unfoldable pub change : Record → Option Record → List Message
change r none = worker_up (get r "pid") ∷ []
change r (some q) =
    if value_eq (get r "log_files") (get q "log_files")
    then []
    else log_rotate (get r "pid") (get r "log_files") ∷ []

-- for key, worker in current.items()
unfoldable pub changes : List Record → List Record → List Message
changes [] old = []
changes (r ∷ rs) old = change r (find r old) ++ changes rs old

-- `workers` and `deadline` of the controller.
pub record Watch : Type 0 where
  pub workers : List Record
  pub deadline : ℕ

-- What a tick finds: the processes, the files of the workers, and the monotonic clock.
pub record Found : Type 0 where
  pub table : ProcessTable
  pub files : List Record
  pub now : ℕ

module _ (service_id : String) (interval : ℕ) where
  unfoldable pub observe : Found → Watch → Watch × List Message
  observe found w =
      let current = each_once [] (live_workers found.table service_id found.files) in
      (
        record { workers = current; deadline = found.now + interval },
        heartbeat (length current) ∷ downs w.workers current ++ changes current w.workers,
      )

  unfoldable pub tick : Bool → Found → Watch → Watch × List Message
  unfolding observe
  tick force found w = if not force && ltb found.now w.deadline then (w, []) else observe found w
