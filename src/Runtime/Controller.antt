-- ===== src/Runtime/Controller.antt =====
-- `retire` and `background_tick` of ControllerLog in src/lcl_fastapi/runtime/controller.py: which
-- processes the controller kills. Times are of the monotonic clock, and of the wall clock in the
-- deadlines that the processes write themselves.
pub mod Sweep
pub mod Names
pub mod Once
pub mod Kills
pub mod Tick
pub mod Drained
pub mod Announced
pub mod Retired
use Prim.Native.String.{String}
use lcl_fastapi.Prelude.{
  ℕ, ◌+◌, Text, Bool, true, false, ◌&&◌, ◌||◌, Option, none, some, List, [], ◌∷◌, ◌++◌, leb,
  if◌then◌else◌, map,
}
use lcl_fastapi.Runtime.State.Value.{Record, get, value_eq}
use lcl_fastapi.Runtime.State.Identity.{Identity, ProcessTable, is_live}
use lcl_fastapi.Background.Journal.{Events, read}
use lcl_fastapi.Background.Expiry.{sweep, expired, terminate_background_process}

pub record Retirement : Type 0 where
  pub worker : Record
  pub deadline : ℕ

-- `background` and `retirements`, in the order of their insertion.
pub record ControllerLog : Type 0 where
  pub background : Events
  pub retirements : List Retirement

-- (record["pid"], record["process_create_time"])
unfoldable pub same_key : Record → Record → Bool
same_key a b =
    value_eq (get a "pid") (get b "pid")
    && value_eq (get a "process_create_time") (get b "process_create_time")

-- self.retirements.setdefault(key, (worker, deadline))
unfoldable pub set_default : Retirement → List Retirement → List Retirement
set_default r [] = r ∷ []
set_default r (q ∷ qs) =
    let later = set_default r qs in if same_key r.worker q.worker then q ∷ qs else q ∷ later

-- `workers` is the one record given or what `live_workers` returns.
unfoldable pub retire : ℕ → ℕ → List Record → ControllerLog → ControllerLog
retire timeout now [] c = c
retire timeout now (w ∷ ws) c = retire timeout now ws (record c {
  retirements = set_default (record { worker = w; deadline = now + timeout }) c.retirements;
})

-- {key: r for r in records}: each key at its first place with its last record.
unfoldable pub put_record : Record → List Record → List Record
put_record r [] = r ∷ []
put_record r (q ∷ qs) = let later = put_record r qs in if same_key r q then r ∷ qs else q ∷ later

unfoldable pub each_once : List Record → List Record → List Record
each_once seen [] = seen
each_once seen (r ∷ rs) = each_once (put_record r seen) rs

-- What the system reports during a tick: the processes when they are looked at and when they are
-- killed, the clocks, what the journal holds if it can be read, and whose kill is denied.
pub record World : Type 0 where
  pub seen : ProcessTable
  pub acting : ProcessTable
  pub time : ℕ
  pub now : ℕ
  pub journal : Option Text
  pub allowed : Identity → Bool

-- An AccessDenied ends the kills.
unfoldable pub kill_first : World → Option Identity → List Identity × Bool → List Identity × Bool
kill_first world none later = later
kill_first world (some i) (killed, done) =
    if world.allowed i then (i ∷ killed, done) else ([], false)

-- for record in expired: the processes killed, and whether the loop came to its end.
unfoldable pub terminate_all : World → List Record → List Identity × Bool
terminate_all world [] = ([], true)
terminate_all world (r ∷ rs) =
    kill_first world (terminate_background_process world.acting r) (terminate_all world rs)

-- The records that are logged as timeouts and then terminated, also if the log fails.
pub record Ticked : Type 0 where
  pub controller : ControllerLog
  pub logged : List Record
  pub killed : List Identity
  pub done : Bool

module _ (decode : Text → Option Record) (service_id : String) where
  -- An OSError of the journal is logged, and nothing is read.
  unfoldable pub read_journal : Option Text → Events → Events
  read_journal none e = e
  read_journal (some file) e = read decode service_id file e

  unfoldable pub background_tick : World → Bool → ControllerLog → Ticked
  unfolding read_journal
  background_tick world force c =
      let events = read_journal world.journal c.background in
      let (stopping, stopped) = expired world.seen world.time force events.stopping in
      let (retirements, retired) =
        sweep (λ (r : Retirement). is_live world.seen r.worker)
          (λ (r : Retirement). force || leb r.deadline world.now) c.retirements in
      let records = each_once [] (stopped ++ map (λ (r : Retirement). r.worker) retired) in
      let (killed, done) = terminate_all world records in
      record {
        controller = record {
          background = record events { stopping = stopping };
          retirements = retirements;
        };
        logged = records;
        killed = killed;
        done = done;
      }
