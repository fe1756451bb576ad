-- ===== src/Tests/Workers.antt =====
-- The thread of a background worker at concrete runs.
use lcl_fastapi.Prelude.{true, false, not, ◌||◌, [], ◌∷◌, ◌≡◌, refl}
use lcl_fastapi.Background.Worker.{
  restarting, Entry, returned, raised, cancelled, Attempt, new_thread, run,
}
use lcl_fastapi.Background.Worker.Lifecycle.{Place, IsAt, run-IsAt}
use lcl_fastapi.Background.Worker.Loop.{any_last}
use lcl_fastapi.Background.Worker.Restarts.{run-done, run-restarted}

abbrev quick : Entry → Attempt
quick e = record {
  stop_before = false;
  entered = true;
  entry = e;
  closed = true;
  stop_in_delay = false;
}

abbrev halt : Attempt
halt = record (quick returned) { stop_before = true }

run-IsAt_example :
    (p : Place) × IsAt true (run true true (quick raised ∷ halt ∷ []) false new_thread) p
run-IsAt_example = run-IsAt true true (quick raised ∷ halt ∷ []) false

run-done_example :
    (run false true (quick cancelled ∷ []) true new_thread).done
    ≡ (not true || any_last false (quick cancelled ∷ []))
run-done_example = run-done false true (quick cancelled ∷ []) true

run-restarted_example :
    let w = run true true (quick raised ∷ quick returned ∷ []) true new_thread in
    (w.status ≡ restarting) × (w.attempts ≡ 2) × (w.restarts ≡ 1) × (w.done ≡ false)
run-restarted_example = run-restarted true (quick raised) (quick returned ∷ []) true refl
