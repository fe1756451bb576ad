-- ===== src/Background/Worker/Lifecycle.antt =====
-- What a worker's log says: the lifecycle that its diagnostics follow.
use lcl_fastapi.Prelude.{
  ℕ, suc, ◌-◌, Bool, true, false, not, ◌||◌, Bool-cases, List, [], ◌∷◌, ◌++◌, ◌≡◌, refl, sym, arith,
  inl, inr,
}
use lcl_fastapi.Background.Worker.{
  Status, starting, running, completed, stopped, failed, restarting, info, warning, error,
  Diagnostic, WorkerThread, new_thread, transition, Entry, returned, cancelled, raised, escaped,
  Attempt, Ended, orderly, broken, after_entry, after_close, attempt, Standing, waiting, left,
  thrown, go_on, loop, finish, run,
}

-- Where a worker is: at a status of an attempt, or its thread has broken off at an attempt.
pub data Place : Type 0 where
  at : Status → ℕ → Place
  broken_off : ℕ → Place

abbrev pub status_of : Place → Status
status_of (at s n) = s
status_of (broken_off n) = failed

abbrev pub attempt_of : Place → ℕ
attempt_of (at s n) = n
attempt_of (broken_off n) = n

-- From which statuses an attempt starts.
pub data CanStart : Status → ℕ → Type 0 where
  at_first : CanStart starting 0
  again : {n : ℕ} → CanStart restarting n

-- How an attempt ends, and the level of the restart after it.
pub data IsEnd : ℕ → Status → ℕ → Type 0 where
  by_return : IsEnd info completed info
  by_cancel : IsEnd info stopped info
  by_error : IsEnd error failed warning

-- The next diagnostic of a worker with the given policy, and where the worker is then. Only the last
-- rule leads to a broken thread, and no rule leads on from there.
pub data Follows (auto_restart : Bool) : Place → Diagnostic → Place → Type 0 where
  starts :
      {s : Status} {n : ℕ}
      → CanStart s n
      → Follows auto_restart
          (at s n)
          (record { level = info; status = running; attempt = suc n })
          (at running (suc n))
  ends :
      {level : ℕ} {s : Status} {n later : ℕ}
      → IsEnd level s later
      → Follows auto_restart
          (at running n)
          (record { level = level; status = s; attempt = n })
          (at s n)
  restarts :
      {level : ℕ} {s : Status} {n later : ℕ}
      → auto_restart ≡ true
      → IsEnd level s later
      → Follows auto_restart
          (at s n)
          (record { level = later; status = restarting; attempt = n })
          (at restarting n)
  breaks :
      {s : Status} {n : ℕ}
      → Follows auto_restart
          (at s n)
          (record { level = error; status = failed; attempt = n })
          (broken_off n)

-- A log that leads from the start of the thread to a place.
pub data Log (auto_restart : Bool) : List Diagnostic → Place → Type 0 where
  nothing : Log auto_restart [] (at starting 0)
  logged :
      {ds : List Diagnostic} {d : Diagnostic} {p q : Place}
      → Log auto_restart ds p
      → Follows auto_restart p d q
      → Log auto_restart (ds ++ d ∷ []) q

-- The log of the worker leads to a place, which is what a snapshot tells.
pub record IsAt (auto_restart : Bool) (w : WorkerThread) (p : Place) : Type 0 where
  pub log : Log auto_restart w.emitted p
  pub status : w.status ≡ status_of p
  pub attempts : w.attempts ≡ attempt_of p
  pub restarts : w.restarts ≡ attempt_of p - 1

module _ (auto_restart : Bool) where
  transition-IsAt :
      (s : Status) (n level : ℕ) (w : WorkerThread) (p q : Place)
      → Follows auto_restart p (record { level = level; status = s; attempt = n }) q
      → status_of q ≡ s
      → attempt_of q ≡ n
      → IsAt auto_restart w p
      → IsAt auto_restart (transition s n level w) q
  unfolding transition
  transition-IsAt s n level w p q f es en h = record {
    log = logged h.log f;
    status = sym es;
    attempts = sym en;
    restarts = omega (arith, en);
  }

  -- After an attempt: the worker is at its end, or an exception leaves it at some status.
  abbrev IsAfter : ℕ → Ended → WorkerThread → Type 0
  IsAfter n (orderly later) w =
      (level : ℕ) × (s : Status) × IsEnd level s later × IsAt auto_restart w (at s n)
  IsAfter n broken w = (s : Status) × IsAt auto_restart w (at s n)

  after_entry-IsAfter :
      (e : Entry) (n : ℕ) (w : WorkerThread)
      → IsAt auto_restart w (at running n)
      → IsAfter n (after_entry e n w).0 (after_entry e n w).1
  unfolding after_entry
  after_entry-IsAfter returned n w h =
      (info, completed, by_return, transition-IsAt _ _ _ w _ _ (ends by_return) refl refl h)
  after_entry-IsAfter cancelled n w h =
      (info, stopped, by_cancel, transition-IsAt _ _ _ w _ _ (ends by_cancel) refl refl h)
  after_entry-IsAfter raised n w h =
      (error, failed, by_error, transition-IsAt _ _ _ w _ _ (ends by_error) refl refl h)
  after_entry-IsAfter escaped n w h = (running, h)

  after_close-IsAfter :
      (closed : Bool) (n : ℕ) (ended : Ended) (w : WorkerThread)
      → IsAfter n ended w
      → IsAfter n (after_close closed (ended, w)).0 (after_close closed (ended, w)).1
  unfolding after_close
  after_close-IsAfter true n ended w h = h
  after_close-IsAfter false n (orderly later) w (level, s, e, h) = (s, h)
  after_close-IsAfter false n broken w h = h

  attempt-IsAfter :
      (a : Attempt) (s : Status) (n : ℕ) (w : WorkerThread)
      → CanStart s n
      → IsAt auto_restart w (at s n)
      → IsAfter (suc n) (attempt a (suc n) w).0 (attempt a (suc n) w).1
  unfolding attempt
  attempt-IsAfter a s n w can h = elim (Bool-cases a.entered) [
    | inl e ↦ rw e (
        after_close-IsAfter a.closed (suc n) _ _
          (after_entry-IsAfter a.entry (suc n) (transition running (suc n) info w) start))
    | inr e ↦ rw e (running, start)
  ]
    where
      start : IsAt auto_restart (transition running (suc n) info w) (at running (suc n))
      start = transition-IsAt _ _ _ w _ _ (starts can) refl refl h

  -- Where the loop stands, with the number of the last attempt.
  abbrev pub IsStanding : Standing × ℕ × WorkerThread → Type 0
  IsStanding (_, n, w) = (s : Status) × IsAt auto_restart w (at s n)

  go_on-IsStanding :
      (over : Bool) (ended : Ended) (n : ℕ) (rest : WorkerThread → Standing × ℕ × WorkerThread)
      (w : WorkerThread)
      → (over ≡ false → auto_restart ≡ true)
      → ((v : WorkerThread) → IsAt auto_restart v (at restarting n) → IsStanding (rest v))
      → IsAfter n ended w
      → IsStanding (go_on over ended n rest w)
  unfolding go_on
  go_on-IsStanding over broken n rest w automatic later h = h
  go_on-IsStanding true (orderly level) n rest w automatic later (l, s, end, h) = (s, h)
  go_on-IsStanding false (orderly level) n rest w automatic later (l, s, end, h) =
      later _ (transition-IsAt _ _ _ w _ _ (restarts (automatic refl) end) refl refl h)

  pub loop-IsStanding :
      (attempts : List Attempt) (s : Status) (n : ℕ) (w : WorkerThread)
      → CanStart s n
      → IsAt auto_restart w (at s n)
      → IsStanding (loop auto_restart attempts n w)
  unfolding loop
  loop-IsStanding [] s n w can h = (s, h)
  loop-IsStanding (a ∷ later) s n w can h = elim (Bool-cases a.stop_before) [
    | inl e ↦ rw e (s, h)
    | inr e ↦ rw e (
        go_on-IsStanding (not auto_restart || a.stop_in_delay) _ (suc n) _ _
          (λ e. ground (arith, e)) (λ v k. loop-IsStanding later restarting (suc n) v again k)
          (attempt-IsAfter a s n w can h))
  ]

  done-IsAt :
      (w : WorkerThread) (p : Place)
      → IsAt auto_restart w p
      → IsAt auto_restart (record w { done = true }) p
  done-IsAt w p h = record {
    log = h.log;
    status = h.status;
    attempts = h.attempts;
    restarts = h.restarts;
  }

  finish-IsAt :
      (closed : Bool) (s : Standing × ℕ × WorkerThread)
      → IsStanding s
      → (p : Place) × IsAt auto_restart (finish closed s) p
  unfolding finish
  finish-IsAt closed (waiting, n, w) (s, h) = (at s n, h)
  finish-IsAt true (left, n, w) (s, h) = (at s n, done-IsAt w _ h)
  finish-IsAt false (left, n, w) (s, h) =
      (broken_off n, done-IsAt _ _ (transition-IsAt _ _ _ w _ _ breaks refl refl h))
  finish-IsAt closed (thrown, n, w) (s, h) =
      (broken_off n, done-IsAt _ _ (transition-IsAt _ _ _ w _ _ breaks refl refl h))

  -- Whatever the entry, its resources and the stop event do: the worker's log follows the lifecycle of
  -- its policy, and a snapshot tells the status, the attempt and the restarts of its last line. So no
  -- attempt starts before the one before it has ended and a restart was announced, a worker without
  -- automatic restart never restarts, and nothing follows a failure of the thread.
  pub run-IsAt :
      (initialized : Bool) (attempts : List Attempt) (closed : Bool)
      → (p : Place) × IsAt auto_restart (run auto_restart initialized attempts closed new_thread) p
  unfolding run new_thread
  run-IsAt false attempts closed =
      (at starting 0, record { log = nothing; status = refl; attempts = refl; restarts = refl })
  run-IsAt true attempts closed = finish-IsAt closed _ (
      loop-IsStanding attempts starting 0 _ at_first
        (record { log = nothing; status = refl; attempts = refl; restarts = refl }))
