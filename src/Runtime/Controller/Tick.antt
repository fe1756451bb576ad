-- ===== src/Runtime/Controller/Tick.antt =====
-- What a whole tick of the controller kills, and what it leaves.
use Prim.Native.String.{String}
use lcl_fastapi.Prelude.{
  ℕ, Text, Bool, true, false, ◌||◌, Option, List, [], ◌∷◌, ◌++◌, ◌≡◌, ◌↔◌, refl, sym, subst, leb,
  Has, All, inl, inr, map,
}
use lcl_fastapi.Runtime.State.Value.{Record}
use lcl_fastapi.Runtime.State.Identity.{Identity, is_live}
use lcl_fastapi.Background.Journal.{Events}
use lcl_fastapi.Background.Expiry.{sweep, expired, deadline_of}
use lcl_fastapi.Runtime.Controller.{
  Retirement, ControllerLog, World, Ticked, each_once, terminate_all, read_journal, background_tick,
}
use lcl_fastapi.Runtime.Controller.Sweep.{Has-map, Has-append, taken_iff, left_iff}
use lcl_fastapi.Runtime.Controller.Names.{Names, is_live-Names}
use lcl_fastapi.Runtime.Controller.Once.{
  Named, AllNamed, Named-nil, Named-each_once, each_once-NamedOnce,
}
use lcl_fastapi.Runtime.Controller.Kills.{Holds, Distinct, Kills, terminate_all-Kills}

-- The process was seen running, it was asked to stop, in the journal or by `retire`, and its
-- deadline is over or the tick is a forced one.
pub data IsTarget (world : World) (force : Bool) (events : Events) (c : ControllerLog)
    : Identity → Type 0 where
  by_journal :
      {i : Identity} (pid : ℕ) (r : Record)
      → Has events.stopping (pid, r)
      → is_live world.seen r ≡ true
      → (force || leb (deadline_of r) world.time) ≡ true
      → Names r i
      → IsTarget world force events c i
  by_retirement :
      {i : Identity} (r : Retirement)
      → Has c.retirements r
      → is_live world.seen r.worker ≡ true
      → (force || leb r.deadline world.now) ≡ true
      → Names r.worker i
      → IsTarget world force events c i

-- Killed are the targets that still run, each once, and all of them unless a kill is denied; left are
-- the retirements of running processes whose deadline is to come.
pub record KillsTargets (world : World) (force : Bool) (events : Events) (c : ControllerLog)
    (t : Ticked) : Type 0 where
  pub only :
      (i : Identity) → Has t.killed i → IsTarget world force events c i × Holds world.acting i
  pub every :
      t.done ≡ true
      → (i : Identity) → IsTarget world force events c i
      → Holds world.acting i
      → Has t.killed i
  pub ends : ((i : Identity) → world.allowed i ≡ true) → t.done ≡ true
  pub once : Distinct t.killed
  pub waiting :
      (r : Retirement)
      → Has t.controller.retirements r ↔ (
          Has c.retirements r
          × (is_live world.seen r.worker ≡ true)
          × ((force || leb r.deadline world.now) ≡ false))

All-intro : {A : Type 0} (P : A → Type 0) (xs : List A) → ((x : A) → Has xs x → P x) → All P xs
All-intro P [] h = tt
All-intro P (x ∷ xs) h = (h x (inl refl), All-intro P xs (λ y at. h y (inr at)))

module _ (world : World) (force : Bool) (events : Events) (c : ControllerLog) where
  abbrev stopped : List Record
  stopped = (expired world.seen world.time force events.stopping).1

  abbrev retired : List Retirement
  retired =
      (sweep (λ (r : Retirement). is_live world.seen r.worker)
        (λ (r : Retirement). force || leb r.deadline world.now) c.retirements).1

  abbrev workers : List Record
  workers = map (λ (r : Retirement). r.worker) retired

  stopped_iff :
      (r : Record)
      → Has stopped r ↔ (
          (pid : ℕ) × Has events.stopping (pid, r)
          × (is_live world.seen r ≡ true)
          × ((force || leb (deadline_of r) world.time) ≡ true))
  unfolding expired
  stopped_iff r =
      let (pairs, pairs_back) = Has-map (λ ((pid, r) : ℕ × Record). r) _ r in
      (
        λ h.
            let ((pid, q), at, e) = pairs h in
            let (has, live, due) = (taken_iff _ _ events.stopping (pid, q)).0 at in
            (
              pid,
              subst (λ r. Has events.stopping (pid, r)) e has,
              subst (λ r. is_live world.seen r ≡ true) e live,
              subst (λ r. (force || leb (deadline_of r) world.time) ≡ true) e due,
            ),
        λ (pid, has, live, due).
            pairs_back
              ((pid, r), (taken_iff _ _ events.stopping (pid, r)).1 (has, live, due), refl),
      )

  workers_iff :
      (r : Record)
      → Has workers r ↔ (
          (q : Retirement) × Has c.retirements q
          × (is_live world.seen q.worker ≡ true)
          × ((force || leb q.deadline world.now) ≡ true)
          × (q.worker ≡ r))
  workers_iff r =
      let (pairs, pairs_back) = Has-map (λ (q : Retirement). q.worker) retired r in
      (
        λ h.
            let (q, at, e) = pairs h in
            let (has, live, due) = (taken_iff _ _ c.retirements q).0 at in (q, has, live, due, e),
        λ (q, has, live, due, e).
            pairs_back (q, (taken_iff _ _ c.retirements q).1 (has, live, due), e),
      )

  records-AllNamed : AllNamed (stopped ++ workers)
  unfolding AllNamed
  records-AllNamed = All-intro _ (stopped ++ workers) (λ r h.
      elim ((Has-append stopped workers r).0 h) [
        | inl a ↦ let (pid, at, live, due) = (stopped_iff r).0 a in is_live-Names world.seen r live
        | inr b ↦
            let (q, at, live, due, e) = (workers_iff r).0 b in
            is_live-Names world.seen r (subst (λ r. is_live world.seen r ≡ true) e live)
      ])

  Named-IsTarget : (i : Identity) → Named (stopped ++ workers) i ↔ IsTarget world force events c i
  unfolding Named
  Named-IsTarget i = (
    λ (r, h, n). elim ((Has-append stopped workers r).0 h) [
      | inl a ↦ let (pid, at, live, due) = (stopped_iff r).0 a in by_journal pid r at live due n
      | inr b ↦
          let (q, at, live, due, e) = (workers_iff r).0 b in
          by_retirement q at live due (subst (λ r. Names r i) (sym e) n)
    ],
    λ t. back t,
  )
    where
      back :
          {i : Identity}
          → IsTarget world force events c i
          → (r : Record) × Has (stopped ++ workers) r × Names r i
      back (by_journal pid r at live due n) =
          (r, (Has-append stopped workers r).1 (inl ((stopped_iff r).1 (pid, at, live, due))), n)
      back (by_retirement q at live due n) = (
        q.worker,
        (Has-append stopped workers q.worker).1
            (inr ((workers_iff q.worker).1 (q, at, live, due, refl))),
        n,
      )

  records-Kills :
      let records = each_once [] (stopped ++ workers) in
      let result = terminate_all world records in
      ((i : Identity) → Named records i ↔ IsTarget world force events c i)
      × Kills world records result
      × Distinct result.0
  records-Kills =
      let all = records-AllNamed in
      let (once, named) =
        each_once-NamedOnce [] (stopped ++ workers) (unfold AllNamed in tt) all tt in
      let kills = terminate_all-Kills world (each_once [] (stopped ++ workers)) named in
      (λ i. targets i all, kills, kills.once once)
    where
      targets :
          (i : Identity)
          → AllNamed (stopped ++ workers)
          → Named (each_once [] (stopped ++ workers)) i ↔ IsTarget world force events c i
      targets i all =
          let (there, back) =
            Named-each_once [] (stopped ++ workers) i (unfold AllNamed in tt) all in
          let (target, named) = Named-IsTarget i in
          (
            λ h. elim (there h) [ inl k ↦ absurd (Named-nil i k) | inr k ↦ target k ],
            λ h. back (inr (named h)),
          )

-- A tick first reads the journal. Then it kills exactly the processes that were seen running, were
-- asked to stop in the journal or by `retire`, and whose deadline is over or the tick is forced, as
-- far as they still have their PID: a process that got the PID since is never killed, none is killed
-- twice, and none is left out unless a kill is denied. What stays retired are the running processes
-- whose deadline is to come.
pub background_tick-KillsTargets :
    (decode : Text → Option Record) (service_id : String) (world : World) (force : Bool)
    (c : ControllerLog)
    → KillsTargets world force
        (read_journal decode service_id world.journal c.background)
        c
        (background_tick decode service_id world force c)
unfolding background_tick
background_tick-KillsTargets decode service_id world force c =
    let events = read_journal decode service_id world.journal c.background in
    let (target, kills, once) = records-Kills world force events c in
    record {
      only = λ i h. let (named, held) = kills.only i h in ((target i).0 named, held);
      every = λ d i t held. kills.every d i ((target i).1 t) held;
      ends = kills.ends;
      once = once;
      waiting = left_iff _ _ c.retirements;
    }
