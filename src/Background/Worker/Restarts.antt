-- ===== src/Background/Worker/Restarts.antt =====
-- When the thread of a worker ends, and when it restarts.
use lcl_fastapi.Prelude.{
  ◌+◌, ℕ, suc, ◌≤◌, Bool, true, false, not, ◌||◌, Bool-cases, List, ◌∷◌, ◌++◌, ◌≡◌, refl, ap, ◌∙◌,
  subst, arith, inl, inr, length,
}
use lcl_fastapi.Background.Worker.{
  starting, restarting, WorkerThread, new_thread, transition, Attempt, Standing, waiting, left,
  thrown, loop, finish, run, initialized,
}
use lcl_fastapi.Background.Worker.Lifecycle.{IsStanding, loop-IsStanding, at_first, nothing}
use lcl_fastapi.Background.Worker.Loop.{
  any_last, has_ended, loop-later, loop-has_ended, loop-steady, loop-stopped,
}

module _ (auto_restart : Bool) where
  finish-done :
      (closed : Bool) (s : Standing × ℕ × WorkerThread)
      → has_ended s.0 ≡ true
      → (finish closed s).done ≡ true
  unfolding finish
  finish-done closed (waiting, n, w) h = ground (arith, h)
  finish-done closed (left, n, w) h = refl
  finish-done closed (thrown, n, w) h = refl

  finish-attempts :
      (closed : Bool) (s : Standing × ℕ × WorkerThread)
      → IsStanding auto_restart s
      → (finish closed s).attempts ≡ s.1
  unfolding finish transition
  finish-attempts closed (waiting, n, w) (s, h) = h.attempts
  finish-attempts true (left, n, w) (s, h) = h.attempts
  finish-attempts false (left, n, w) (s, h) = refl
  finish-attempts closed (thrown, n, w) (s, h) = refl

  finish-waiting :
      (closed : Bool) (s : Standing × ℕ × WorkerThread) (n : ℕ) (w : WorkerThread)
      → s ≡ (waiting, 1 + n, w)
      → IsStanding auto_restart s
      → ((finish closed s).status ≡ w.status)
        × ((finish closed s).attempts ≡ suc n)
        × ((finish closed s).restarts ≡ n)
        × ((finish closed s).done ≡ w.done)
  unfolding finish
  finish-waiting closed s n w e h =
      let (place, there) = subst (IsStanding auto_restart) e h in
      let attempts = there.attempts in
      let restarts = there.restarts in
      rw e (refl, omega (arith, attempts), omega (arith, restarts), refl)

  -- The thread when `initialize` has given the context.
  abbrev ready_thread : WorkerThread
  ready_thread = record new_thread { ready = initialized }

  ready-IsStanding :
      (attempts : List Attempt)
      → IsStanding auto_restart (loop auto_restart attempts 0 ready_thread)
  ready-IsStanding attempts =
      loop-IsStanding auto_restart attempts starting 0 ready_thread at_first (
        unfold new_thread in
        record { log = nothing; status = refl; attempts = refl; restarts = refl })

  -- The thread sets `done` exactly if it cannot be initialized, or with the first attempt that is the
  -- last: before which it is stopped, whose scope is not entered or not closed, whose entry ends with
  -- more than an Exception, in whose delay it is stopped, or after which its policy restarts nothing.
  pub run-done :
      (ready : Bool) (attempts : List Attempt) (closed : Bool)
      → (run auto_restart ready attempts closed new_thread).done
        ≡ (not ready || any_last auto_restart attempts)
  unfolding run new_thread
  run-done false attempts closed = refl
  run-done true attempts closed = elim (Bool-cases (any_last auto_restart attempts)) [
    | inl l ↦
        finish-done closed _ (loop-has_ended auto_restart attempts 0 ready_thread l)
        ∙ (ground (arith, l))
    | inr l ↦
        let (v, e, _, d) = loop-steady auto_restart attempts 0 ready_thread l in
        ap (λ s. (finish closed s).done) e ∙ (unfold finish in d) ∙ (ground (arith, l))
  ]

  -- Once the stop event is set, the thread ends, whatever would come later, and no attempt starts
  -- that had not started before.
  pub run-stopped :
      (before : List Attempt) (a : Attempt) (after : List Attempt) (closed : Bool)
      → a.stop_before ≡ true
      → ((run auto_restart true (before ++ a ∷ after) closed new_thread).done ≡ true)
        × ((run auto_restart true (before ++ a ∷ after) closed new_thread).attempts ≤ length before)
  unfolding run
  run-stopped before a after closed s =
      let (end, number) = loop-stopped auto_restart before a after 0 ready_thread s in
      let count =
        finish-attempts closed (loop auto_restart (before ++ a ∷ after) 0 ready_thread)
          (ready-IsStanding (before ++ a ∷ after)) in
      (finish-done closed _ end, omega (arith, number, count))

  -- With automatic restart, a worker whose entry returns, is cancelled or raises an Exception, any
  -- number of times, is restarted each time: after one or more such attempts, with their scopes
  -- entered and closed and no stop before them or in their delays, it is about to restart, has counted
  -- them all, and the thread has not ended.
  pub run-restarted :
      (a : Attempt) (later : List Attempt) (closed : Bool)
      → any_last auto_restart (a ∷ later) ≡ false
      → let w = run auto_restart true (a ∷ later) closed new_thread in
        (w.status ≡ restarting)
        × (w.attempts ≡ length (a ∷ later))
        × (w.restarts ≡ length later)
        × (w.done ≡ false)
  unfolding run transition
  run-restarted a later closed h =
      let (level, v, first, done) =
        loop-later auto_restart a later 0 ready_thread (ground (arith, h)) in
      let (u, on, status, same) =
        loop-steady auto_restart later 1 (transition restarting 1 level v) (ground (arith, h)) in
      let (s, n, r, d) =
        finish-waiting closed (loop auto_restart (a ∷ later) 0 ready_thread) (length later) u
          (first ∙ on) (ready-IsStanding (a ∷ later)) in
      (s ∙ status refl, n, r, d ∙ same ∙ done ∙ (unfold new_thread in refl))
