-- ===== src/Runtime/Observer/Ticks.antt =====
-- After every tick the log tells the PIDs of the live workers.
use Prim.Native.String.{String}
use lcl_fastapi.Prelude.{
  ℕ, Bool, true, false, not, ◌&&◌, ◌||◌, List, [], ◌∷◌, ◌++◌, ◌≡◌, ◌↔◌, sym, ap, ◌∙◌, subst, ltb,
  Bool-cases, inl, inr, length,
}
use lcl_fastapi.Runtime.State.Value.{Record}
use lcl_fastapi.Runtime.State.Identity.{Identity, Runs}
use lcl_fastapi.Runtime.Controller.{each_once}
use lcl_fastapi.Runtime.Controller.Once.{Named, AllNamed, Named-nil}
use lcl_fastapi.Runtime.Observer.{
  live_workers, Message, heartbeat, downs, changes, Watch, Found, observe, tick,
}
use lcl_fastapi.Runtime.Observer.Log.{
  take_message, replay, replay-append, missing, replay-downs, replay-changes,
}
use lcl_fastapi.Runtime.Observer.Known.{Knows, changed, known-changed, changed-known}
use lcl_fastapi.Runtime.Observer.Live.{
  live_workers-live, Named-Runs, Named-current, current-AllNamed, current-one_each,
}

module _ (service_id : String) (interval : ℕ) where
  observe-Knows :
      (found : Found) (w : Watch) (pids : ℕ → Bool)
      → Knows pids w.workers
      → Knows
          (replay (observe service_id interval found w).1 pids)
          (observe service_id interval found w).0.workers
  unfolding observe
  observe-Knows found w pids k =
      let rs = live_workers found.table service_id found.files in
      let live = live_workers-live found.table service_id found.files in
      let current = each_once [] rs in
      let all = current-AllNamed found.table rs live in
      record {
        known = λ n.
            let e = log w.workers current n in
            (
              λ h. known-changed pids w.workers current n k all (sym e ∙ h),
              λ h. e ∙ changed-known pids w.workers current n k all h,
            );
        named = all;
        one_each = current-one_each found.table rs live;
      }
    where
      log :
          (old current : List Record) (n : ℕ)
          → replay (heartbeat (length current) ∷ downs old current ++ changes current old) pids n
            ≡ changed pids old current n
      log old current n =
          unfold replay take_message changed in
          (replay-append (downs old current) (changes current old) pids n
            ∙ replay-changes current old (replay (downs old current) pids) n
            ∙ ap (λ b. missing current old n || b) (replay-downs old current pids n))

  tick-Knows :
      (force : Bool) (found : Found) (w : Watch) (pids : ℕ → Bool)
      → Knows pids w.workers
      → Knows
          (replay (tick service_id interval force found w).1 pids)
          (tick service_id interval force found w).0.workers
  unfolding tick
  tick-Knows force found w pids k = elim (Bool-cases (not force && ltb found.now w.deadline)) [
    | inl e ↦ rw e (unfold replay in k)
    | inr e ↦ rw e (observe-Knows found w pids k)
  ]

  -- The ticks of a start with all that they log.
  unfoldable pub run : List (Bool × Found) → Watch → Watch × List Message
  run [] w = (w, [])
  run ((force, found) ∷ es) w =
      let (v, ms) = tick service_id interval force found w in
      let (last, ns) = run es v in (last, ms ++ ns)

  run-Knows :
      (es : List (Bool × Found)) (w : Watch) (pids : ℕ → Bool)
      → Knows pids w.workers
      → Knows (replay (run es w).1 pids) (run es w).0.workers
  unfolding run
  run-Knows [] w pids k = unfold replay in k
  run-Knows ((force, found) ∷ es) w pids k =
      let (v, ms) = tick service_id interval force found w in
      let later = run-Knows es v (replay ms pids) (tick-Knows force found w pids k) in
      record {
        known = λ n.
            let e = replay-append ms (run es v).1 pids n in
            (λ h. (later.known n).0 (sym e ∙ h), λ h. e ∙ (later.known n).1 h);
        named = later.named;
        one_each = later.one_each;
      }

  -- Whoever reads the log of a start from its beginning, adds the PID of each "worker up" and takes
  -- away that of each "worker down", has after a forced tick exactly the PIDs of the workers whose
  -- files `live_workers` finds then, whatever ticks were before: also where a PID was given again.
  pub replay-run :
      (es : List (Bool × Found)) (found : Found) (w : Watch) (n : ℕ)
      → w.workers ≡ []
      → (replay
            ((run es w).1 ++ (tick service_id interval true found (run es w).0).1)
            (λ m. false)
            n
          ≡ true)
        ↔ ((i : Identity) × Named (live_workers found.table service_id found.files) i
            × Runs found.table i
            × (i.pid ≡ n))
  unfolding tick observe
  replay-run es found w n empty =
      let rs = live_workers found.table service_id found.files in
      let live = live_workers-live found.table service_id found.files in
      let before = run-Knows es w (λ m. false) (start empty) in
      let after = observe-Knows found (run es w).0 (replay (run es w).1 (λ m. false)) before in
      let e =
        replay-append (run es w).1 (observe service_id interval found (run es w).0).1 (λ m. false)
          n in
      (
        λ h.
            let (i, at, p) = (after.known n).0 (sym e ∙ h) in
            let there = (Named-current found.table rs live i).0 at in
            (i, there, Named-Runs found.table rs live i there, p),
        λ (i, at, runs, p).
            e ∙ (after.known n).1 (i, (Named-current found.table rs live i).1 at, p),
      )
    where
      start : w.workers ≡ [] → Knows (λ m. false) w.workers
      start h = subst (Knows (λ m. false)) (sym h) (record {
        known = λ m. (λ f. cc, λ (i, at, p). absurd (Named-nil i at));
        named = unfold AllNamed in tt;
        one_each = λ i j hi hj p. absurd (Named-nil i hi);
      })
