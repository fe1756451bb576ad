-- ===== src/Runtime/Reload.antt =====
-- `accept_change` and `tick` of ReloadWatcher in src/lcl_fastapi/runtime/reload.py. What watchfiles,
-- pathlib and the system report during a tick is the parameter Poll.
pub mod Changes
use Prim.Native.String.{String}
use lcl_fastapi.Prelude.{
  Text, codes, same_text, Bool, true, false, not, ◌&&◌, ◌||◌, Option, none, some, List, [], ◌∷◌,
  any, if◌then◌else◌,
}
use lcl_fastapi.Runtime.State.Value.{Record}
use lcl_fastapi.Runtime.State.Identity.{Identity, ProcessTable, is_live}
use lcl_fastapi.Background.Expiry.{terminate_background_process}
use lcl_fastapi.Runtime.Observer.{live_workers}

-- A resolved path: its parts, and the suffix of the last.
pub record Location : Type 0 where
  pub parts : List Text
  pub suffix : Text

-- path.is_relative_to(root)
unfoldable pub is_relative_to : List Text → List Text → Bool
is_relative_to parts [] = true
is_relative_to [] (r ∷ root) = false
is_relative_to (p ∷ parts) (r ∷ root) = same_text p r && is_relative_to parts root

unfoldable pub accept_change : List (List Text) → Location → Bool
accept_change roots path =
    same_text path.suffix (codes ".py") && any (is_relative_to path.parts) roots

-- Whether this process is the owner, whether a shutdown is requested at the start and before a
-- retirement, the changes or the end of the watch, the processes when the workers are looked at and
-- when one is signalled, and the workers' files.
pub record Poll : Type 0 where
  pub owner : Bool
  pub shutdown : Bool
  pub shutdown_later : Bool
  pub changes : Option (List Location)
  pub table : ProcessTable
  pub acting : ProcessTable
  pub files : List Record

pub record ReloadWatcher : Type 0 where
  pub pending : Bool
  pub started : Bool
  pub retiring : Option Record

-- What a tick did: nothing more, a worker whose deadline was armed but that had ended, a worker that
-- was asked to retire, or the RuntimeError of a watch that ended.
pub data Outcome : Type 0 where
  idle : Outcome
  vanished : Record → Outcome
  retired : Record → Outcome
  runtime_error : Outcome

-- self.retiring is not None and is_live(self.retiring)
unfoldable pub is_retiring : ProcessTable → Option Record → Bool
is_retiring table none = false
is_retiring table (some r) = is_live table r

-- Under uvicorn the worker finds a file, under gunicorn it gets a signal if it is the same process.
unfoldable pub is_asked : Bool → Poll → Record → Bool
is_asked true poll worker = true
is_asked false poll worker = elim (terminate_background_process poll.acting worker) [
  | none ↦ false
  | some i ↦ true
]

unfoldable pub ask : Bool → Poll → Record → ReloadWatcher → ReloadWatcher × Outcome
ask uvicorn poll worker w =
    if is_asked uvicorn poll worker
    then (record w { retiring = some worker; pending = false }, retired worker)
    else (w, vanished worker)

unfoldable pub retire_first : Bool → Poll → List Record → ReloadWatcher → ReloadWatcher × Outcome
retire_first uvicorn poll [] w = (w, idle)
retire_first uvicorn poll (worker ∷ workers) w =
    if w.pending && not poll.shutdown_later
    then ask uvicorn poll worker (record w { retiring = none })
    else (record w { retiring = none }, idle)

module _ (roots : List (List Text)) (uvicorn : Bool) (service_id : String) where
  unfoldable pub advance : Poll → Option (List Location) → ReloadWatcher → ReloadWatcher × Outcome
  advance poll none w = (w, runtime_error)
  advance poll (some changes) w =
      let seen = record w {
        started = true;
        pending = w.pending || any (accept_change roots) changes;
      } in
      if is_retiring poll.table w.retiring
      then (seen, idle)
      else retire_first uvicorn poll (live_workers poll.table service_id poll.files) seen

  unfoldable pub tick : Poll → ReloadWatcher → ReloadWatcher × Outcome
  tick poll w = if not poll.owner || poll.shutdown then (w, idle) else advance poll poll.changes w
