-- ===== src/Background/Worker/Loop.antt =====
-- The loop of a worker's attempts: which attempt is the last, and how the loop goes on from the others.
use lcl_fastapi.Prelude.{
  ◌⊎◌, ℕ, suc, ◌+◌, ◌≤◌, Bool, true, false, not, ◌||◌, Bool-cases, List, [], ◌∷◌, ◌++◌, ◌≡◌, refl,
  sym, ap, ◌∙◌, subst, arith, inl, inr, length,
}
use lcl_fastapi.Background.Worker.{
  running, restarting, info, warning, WorkerThread, transition, Entry, returned, cancelled, raised,
  escaped, Attempt, Ended, orderly, broken, after_entry, after_close, attempt, Standing, waiting,
  left, thrown, go_on, loop,
}

-- The entry ends in a way that the loop survives.
abbrev is_survived : Entry → Bool
is_survived returned = true
is_survived cancelled = true
is_survived raised = true
is_survived escaped = false

-- Whether the thread ends with this attempt, or before it.
abbrev pub is_last : Bool → Attempt → Bool
is_last auto_restart a =
    a.stop_before
    || not a.entered
    || not (is_survived a.entry)
    || not a.closed
    || not auto_restart
    || a.stop_in_delay

abbrev pub any_last : Bool → List Attempt → Bool
any_last auto_restart [] = false
any_last auto_restart (a ∷ later) = is_last auto_restart a || any_last auto_restart later

-- The result of an attempt that lets the loop go on.
after_close-orderly :
    (entry : Entry) (closed : Bool) (n : ℕ) (w : WorkerThread)
    → is_survived entry ≡ true
    → closed ≡ true
    → (level : ℕ) × ((after_close closed (after_entry entry n w)).0 ≡ orderly level)
unfolding after_close after_entry
after_close-orderly returned closed n w s c = rw c (info, refl)
after_close-orderly cancelled closed n w s c = rw c (info, refl)
after_close-orderly raised closed n w s c = rw c (warning, refl)
after_close-orderly escaped closed n w s c = ground (arith, s)

after_close-broken :
    (entry : Entry) (closed : Bool) (n : ℕ) (w : WorkerThread)
    → (not (is_survived entry) || not closed) ≡ true
    → (after_close closed (after_entry entry n w)).0 ≡ broken
unfolding after_close after_entry
after_close-broken returned false n w h = refl
after_close-broken cancelled false n w h = refl
after_close-broken raised false n w h = refl
after_close-broken escaped false n w h = refl
after_close-broken escaped true n w h = refl
after_close-broken returned true n w h = ground (arith, h)
after_close-broken cancelled true n w h = ground (arith, h)
after_close-broken raised true n w h = ground (arith, h)

abbrev pub has_ended : Standing → Bool
has_ended waiting = false
has_ended left = true
has_ended thrown = true

go_on-ends :
    (over : Bool) (ended : Ended) (n : ℕ) (rest : WorkerThread → Standing × ℕ × WorkerThread)
    (w : WorkerThread)
    → (over ≡ true) ⊎ (ended ≡ broken)
    → (has_ended (go_on over ended n rest w).0 ≡ true) × ((go_on over ended n rest w).1 ≡ n)
unfolding go_on
go_on-ends over broken n rest w h = (refl, refl)
go_on-ends true (orderly level) n rest w h = (refl, refl)
go_on-ends false (orderly level) n rest w (inl e) = ground (arith, e)
go_on-ends false (orderly level) n rest w (inr e) = ground (arith, e)

-- An attempt leaves the future as it is.
after_close-done :
    (entry : Entry) (closed : Bool) (n : ℕ) (w : WorkerThread)
    → (after_close closed (after_entry entry n w)).1.done ≡ w.done
unfolding after_close after_entry transition
after_close-done returned true n w = refl
after_close-done returned false n w = refl
after_close-done cancelled true n w = refl
after_close-done cancelled false n w = refl
after_close-done raised true n w = refl
after_close-done raised false n w = refl
after_close-done escaped true n w = refl
after_close-done escaped false n w = refl

module _ (auto_restart : Bool) where
  pub loop-later :
      (a : Attempt) (later : List Attempt) (n : ℕ) (w : WorkerThread)
      → is_last auto_restart a ≡ false
      → (level : ℕ) × (v : WorkerThread) × (loop auto_restart (a ∷ later) n w
          ≡ loop auto_restart later (suc n) (transition restarting (suc n) level v))
        × (v.done ≡ w.done)
  unfolding loop go_on attempt transition
  loop-later a later n w h =
      let (level, e) =
        after_close-orderly a.entry a.closed (suc n) (transition running (suc n) info w)
          (ground (arith, h)) (ground (arith, h)) in
      let before : a.stop_before ≡ false = ground (arith, h) in
      let entered : a.entered ≡ true = ground (arith, h) in
      let on : (not auto_restart || a.stop_in_delay) ≡ false = ground (arith, h) in
      (
        level,
        (attempt a (suc n) w).1,
        rw (before, entered, e, on) refl,
        rw entered (after_close-done a.entry a.closed (suc n) (transition running (suc n) info w)),
      )

  -- An attempt that is the last leaves the loop, with the number before it if it is not started.
  loop-last :
      (a : Attempt) (later : List Attempt) (n : ℕ) (w : WorkerThread)
      → is_last auto_restart a ≡ true
      → (has_ended (loop auto_restart (a ∷ later) n w).0 ≡ true)
        × ((loop auto_restart (a ∷ later) n w).1 ≤ suc n)
        × (a.stop_before ≡ true → (loop auto_restart (a ∷ later) n w).1 ≤ n)
  unfolding loop attempt
  loop-last a later n w h = elim (Bool-cases a.stop_before) [
    | inl s ↦ rw s (refl, omega arith, λ e. omega arith)
    | inr s ↦
        let (end, number) =
          go_on-ends (not auto_restart || a.stop_in_delay) (attempt a (suc n) w).0 (suc n)
            (loop auto_restart later (suc n)) (attempt a (suc n) w).1 (why s) in
        rw s (end, omega (arith, number), λ e. absurd (ground (arith, e)))
  ]
    where
      why :
          a.stop_before ≡ false
          → ((not auto_restart || a.stop_in_delay) ≡ true) ⊎ ((attempt a (suc n) w).0 ≡ broken)
      why s = elim (Bool-cases (not auto_restart || a.stop_in_delay)) [
        | inl o ↦ inl o
        | inr o ↦ inr (elim (Bool-cases a.entered) [
          | inl e ↦
              rw e (after_close-broken a.entry a.closed (suc n) _ (ground (arith, s, o, e, h)))
          | inr e ↦ rw e refl
        ])
      ]

  pub loop-has_ended :
      (attempts : List Attempt) (n : ℕ) (w : WorkerThread)
      → any_last auto_restart attempts ≡ true
      → has_ended (loop auto_restart attempts n w).0 ≡ true
  loop-has_ended [] n w h = ground (arith, h)
  loop-has_ended (a ∷ later) n w h = elim (Bool-cases (is_last auto_restart a)) [
    | inl l ↦ (loop-last a later n w l).0
    | inr l ↦
        let (level, v, e, _) = loop-later a later n w l in
        ap (λ s. has_ended s.0) e
        ∙ loop-has_ended later (suc n) (transition restarting (suc n) level v)
            (ground (arith, h, l))
  ]

  -- The loop over attempts of which none is the last.
  pub loop-steady :
      (attempts : List Attempt) (n : ℕ) (w : WorkerThread)
      → any_last auto_restart attempts ≡ false
      → (v : WorkerThread) × (loop auto_restart attempts n w ≡ (waiting, n + length attempts, v))
        × (w.status ≡ restarting → v.status ≡ restarting)
        × (v.done ≡ w.done)
  unfolding transition
  loop-steady [] n w h =
      let e : n ≡ n + 0 = omega arith in
      (w, (unfold loop in ap (λ k. (waiting, k, w)) e), λ s. s, refl)
  loop-steady (a ∷ later) n w h =
      let (level, v, first, done) = loop-later a later n w (ground (arith, h)) in
      let (u, on, status, same) =
        loop-steady later (suc n) (transition restarting (suc n) level v) (ground (arith, h)) in
      let e : suc n + length later ≡ n + suc (length later) = omega arith in
      (u, first ∙ on ∙ ap (λ k. (waiting, k, u)) e, λ s. status refl, same ∙ done)

  -- The loop ends with the first attempt before which a stop is seen, or earlier.
  pub loop-stopped :
      (before : List Attempt) (a : Attempt) (after : List Attempt) (n : ℕ) (w : WorkerThread)
      → a.stop_before ≡ true
      → (has_ended (loop auto_restart (before ++ a ∷ after) n w).0 ≡ true)
        × ((loop auto_restart (before ++ a ∷ after) n w).1 ≤ n + length before)
  loop-stopped [] a after n w s =
      let (end, _, number) = loop-last a after n w (ground (arith, s)) in
      let least = number s in (end, omega (arith, least))
  loop-stopped (b ∷ before) a after n w s = elim (Bool-cases (is_last auto_restart b)) [
    | inl l ↦
        let (end, number, _) = loop-last b (before ++ a ∷ after) n w l in
        (end, omega (arith, number))
    | inr l ↦
        let (level, v, e, _) = loop-later b (before ++ a ∷ after) n w l in
        let (end, number) =
          loop-stopped before a after (suc n) (transition restarting (suc n) level v) s in
        (
          ap (λ s. has_ended s.0) e ∙ end,
          subst (λ s. s.1 ≤ n + suc (length before)) (sym e) (omega (arith, number)),
        )
  ]
