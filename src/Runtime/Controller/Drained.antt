-- ===== src/Runtime/Controller/Drained.antt =====
-- No retired process outlives its deadline by more than a tick.
use Prim.Native.String.{String}
use lcl_fastapi.Prelude.{
  ℕ, ◌+◌, ◌≤◌, Text, Bool, true, false, ◌||◌, Option, List, [], ◌∷◌, ◌≡◌, refl, subst, arith, leb,
  Has, All, inl, inr, Bool-cases,
}
use lcl_fastapi.Runtime.State.Value.{Record}
use lcl_fastapi.Runtime.State.Identity.{Identity, is_live}
use lcl_fastapi.Runtime.Controller.{
  Retirement, ControllerLog, World, same_key, set_default, retire, background_tick,
}
use lcl_fastapi.Runtime.Controller.Names.{Names}
use lcl_fastapi.Runtime.Controller.Kills.{Holds}
use lcl_fastapi.Runtime.Controller.Tick.{by_retirement, background_tick-KillsTargets}

-- `retiring` is `retire` at a time of the monotonic clock.
pub data Event : Type 0 where
  retiring : ℕ → List Record → Event
  ticking : World → Bool → Event

-- The retirements are of a time not after the given one.
abbrev pub IsBefore : ℕ → Event → Type 0
IsBefore t (retiring now workers) = now ≤ t
IsBefore t (ticking world force) = Unit

abbrev DueBy : ℕ → List Retirement → Type 0
DueBy t rs = (r : Retirement) → Has rs r → r.deadline ≤ t

set_default-DueBy :
    (t : ℕ) (r : Retirement) (rs : List Retirement)
    → r.deadline ≤ t
    → DueBy t rs
    → DueBy t (set_default r rs)
unfolding set_default
set_default-DueBy t r [] h hs =
    λ q at. elim at [ inl e ↦ subst (λ (x : Retirement). x.deadline ≤ t) e h | inr k ↦ absurd k ]
set_default-DueBy t r (q ∷ qs) h hs = elim (Bool-cases (same_key r.worker q.worker)) [
  | inl e ↦ rw e hs
  | inr e ↦ rw e (λ x at. elim at [
    | inl k ↦ hs x (inl k)
    | inr k ↦ set_default-DueBy t r qs h (λ y there. hs y (inr there)) x k
  ])
]

retire-DueBy :
    (timeout now t : ℕ) (ws : List Record) (c : ControllerLog)
    → now ≤ t
    → DueBy (t + timeout) c.retirements
    → DueBy (t + timeout) (retire timeout now ws c).retirements
unfolding retire
retire-DueBy timeout now t [] c h hs = hs
retire-DueBy timeout now t (w ∷ ws) c h hs = retire-DueBy timeout now t ws _ h (
    set_default-DueBy (t + timeout) (record { worker = w; deadline = now + timeout }) c.retirements
      (omega (arith, h)) hs)

nothing_left : (rs : List Retirement) → ((r : Retirement) → ¬ Has rs r) → rs ≡ []
nothing_left [] h = refl
nothing_left (r ∷ rs) h = absurd (h r (inl refl))

module _ (decode : Text → Option Record) (service_id : String) (timeout : ℕ) where
  unfoldable pub step : Event → ControllerLog → ControllerLog
  step (retiring now workers) c = retire timeout now workers c
  step (ticking world force) c = (background_tick decode service_id world force c).controller

  unfoldable pub run : List Event → ControllerLog → ControllerLog
  run [] c = c
  run (e ∷ es) c = run es (step e c)

  run-DueBy :
      (t : ℕ) (es : List Event) (c : ControllerLog)
      → All (IsBefore t) es
      → DueBy (t + timeout) c.retirements
      → DueBy (t + timeout) (run es c).retirements
  unfolding run step
  run-DueBy t [] c a h = h
  run-DueBy t (retiring now ws ∷ es) c a h =
      run-DueBy t es _ a.1 (retire-DueBy timeout now t ws c a.0 h)
  run-DueBy t (ticking world force ∷ es) c a h = run-DueBy t es _ a.1 (λ r at.
      h r (((background_tick-KillsTargets decode service_id world force c).waiting r).0 at).0)

  -- After any retirements up to a time and any ticks, a tick at that time plus the timeout or later
  -- leaves no retirement behind, and, where no kill is denied, it kills a retired process that was
  -- seen running and still has its PID.
  pub background_tick-drained :
      (t : ℕ) (es : List Event) (c : ControllerLog) (world : World) (force : Bool) (r : Retirement)
      (i : Identity)
      → c.retirements ≡ []
      → All (IsBefore t) es
      → t + timeout ≤ world.now
      → ((j : Identity) → world.allowed j ≡ true)
      → Has (run es c).retirements r
      → Names r.worker i
      → is_live world.seen r.worker ≡ true
      → Holds world.acting i
      → ((background_tick decode service_id world force (run es c)).controller.retirements ≡ [])
        × Has (background_tick decode service_id world force (run es c)).killed i
  background_tick-drained t es c world force r i empty a late allowed has names live held =
      let due : DueBy (t + timeout) (run es c).retirements =
        run-DueBy t es c a (λ r at. absurd (subst (λ rs. Has rs r) empty at)) in
      let kills = background_tick-KillsTargets decode service_id world force (run es c) in
      (
        nothing_left _ (λ q at.
            let (there, runs, waits) = (kills.waiting q).0 at in
            clash (overdue q (due q there)) waits),
        kills.every (kills.ends allowed) i (by_retirement r has live (overdue r (due r has)) names)
            held,
      )
    where
      overdue :
          (r : Retirement) → r.deadline ≤ t + timeout → (force || leb r.deadline world.now) ≡ true
      overdue r h = ground (arith, late, h)

      clash : {b : Bool} → b ≡ true → b ≡ false → ⊥
      clash p q = cc
