-- ===== src/Background/Worker.antt =====
-- `WorkerThread` of src/lcl_fastapi/background/thread.py: the thread of one background worker, with
-- its attempts and restarts. What the entry, its resources and the stop event do is an argument.
pub mod Lifecycle
pub mod Loop
pub mod Restarts
use lcl_fastapi.Prelude.{
  ℕ, suc, ◌+◌, ◌-◌, Bool, true, false, not, ◌||◌, List, [], ◌∷◌, ◌++◌, if◌then◌else◌,
}

pub data Status : Type 0 where
  starting : Status
  running : Status
  completed : Status
  stopped : Status
  failed : Status
  restarting : Status

-- logging.INFO, logging.WARNING and logging.ERROR
abbrev pub info : ℕ
info = 20

abbrev pub warning : ℕ
warning = 30

abbrev pub error : ℕ
error = 40

-- What `transition` emits, less the texts.
pub record Diagnostic : Type 0 where
  pub level : ℕ
  pub status : Status
  pub attempt : ℕ

pub data Ready : Type 0 where
  pending : Ready
  initialized : Ready
  refused : Ready

-- `record`, the futures, and what was emitted.
pub record WorkerThread : Type 0 where
  pub status : Status
  pub attempts : ℕ
  pub restarts : ℕ
  pub ready : Ready
  pub done : Bool
  pub emitted : List Diagnostic

unfoldable pub new_thread : WorkerThread
new_thread = record {
  status = starting;
  attempts = 0;
  restarts = 0;
  ready = pending;
  done = false;
  emitted = [];
}

-- max(0, attempt - 1) is the subtraction of natural numbers.
unfoldable pub transition : Status → ℕ → ℕ → WorkerThread → WorkerThread
transition status attempt level w = record w {
  status = status;
  attempts = attempt;
  restarts = attempt - 1;
  emitted = w.emitted ++ record { level = level; status = status; attempt = attempt } ∷ [];
}

-- How the entry ends: it returns, is cancelled, raises an Exception that is logged, or raises what
-- is no Exception or cannot be logged.
pub data Entry : Type 0 where
  returned : Entry
  cancelled : Entry
  raised : Entry
  escaped : Entry

-- What an attempt meets: whether the stop event is set before it, whether its scope is entered, how
-- the entry ends, whether the bridge and the scope close, and whether a stop comes in the delay.
pub record Attempt : Type 0 where
  pub stop_before : Bool
  pub entered : Bool
  pub entry : Entry
  pub closed : Bool
  pub stop_in_delay : Bool

-- Whether an exception leaves the attempt, and the level of a restart.
pub data Ended : Type 0 where
  orderly : ℕ → Ended
  broken : Ended

unfoldable pub after_entry : Entry → ℕ → WorkerThread → Ended × WorkerThread
unfolding transition
after_entry returned n w = (orderly info, transition completed n info w)
after_entry cancelled n w = (orderly info, transition stopped n info w)
after_entry raised n w = (orderly warning, transition failed n error w)
after_entry escaped n w = (broken, w)

-- An exception of the clean-up takes the place of what was before.
unfoldable pub after_close : Bool → Ended × WorkerThread → Ended × WorkerThread
after_close true s = s
after_close false (ended, w) = (broken, w)

unfoldable pub attempt : Attempt → ℕ → WorkerThread → Ended × WorkerThread
unfolding after_entry after_close transition
attempt a n w =
    let started = transition running n info w in
    if a.entered then after_close a.closed (after_entry a.entry n started) else (broken, started)

-- Where the loop stands after the attempts given: it waits for the next, it was left, or an
-- exception left it; with the number of the last attempt.
pub data Standing : Type 0 where
  waiting : Standing
  left : Standing
  thrown : Standing

-- What follows an attempt: the end, or the rest of the loop after the transition of a restart.
unfoldable pub go_on :
    Bool
    → Ended
    → ℕ
    → (WorkerThread → Standing × ℕ × WorkerThread)
    → WorkerThread
    → Standing × ℕ × WorkerThread
unfolding transition
go_on ends broken n rest w = (thrown, n, w)
go_on true (orderly level) n rest w = (left, n, w)
go_on false (orderly level) n rest w = rest (transition restarting n level w)

-- while not self.stop_event.is_set()
unfoldable pub loop : Bool → List Attempt → ℕ → WorkerThread → Standing × ℕ × WorkerThread
unfolding attempt go_on
loop auto_restart [] n w = (waiting, n, w)
loop auto_restart (a ∷ later) n w =
    let (ended, after) = attempt a (suc n) w in
    let rest =
      go_on (not auto_restart || a.stop_in_delay) ended (suc n) (loop auto_restart later (suc n))
        after in
    if a.stop_before then (left, n, w) else rest

-- `except BaseException` and the `finally` with `done`: what happens when the thread's resources and
-- its runner are closed, which may raise.
unfoldable pub finish : Bool → Standing × ℕ × WorkerThread → WorkerThread
unfolding transition
finish closed (waiting, n, w) = w
finish closed (left, n, w) = record (if closed then w else transition failed n error w) {
  done = true;
}
finish closed (thrown, n, w) = record (transition failed n error w) { done = true }

-- `initialized` is whether `initialize` gives the worker's context; an error of it, or of the
-- runner before it, is what `ready` tells.
unfoldable pub run : Bool → Bool → List Attempt → Bool → WorkerThread → WorkerThread
unfolding loop finish
run auto_restart false attempts closed w = record w { ready = refused; done = true }
run auto_restart true attempts closed w =
    finish closed (loop auto_restart attempts 0 (record w { ready = initialized }))
