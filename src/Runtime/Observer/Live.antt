-- ===== src/Runtime/Observer/Live.antt =====
-- The dictionary of the live workers.
use Prim.Native.String.{String}
use lcl_fastapi.Prelude.{
  true, ◌&&◌, Option, some, List, [], ◌∷◌, ◌≡◌, ◌↔◌, sym, ap, ◌∙◌, subst, arith, Has, All,
  Bool-cases, inl, inr,
}
use lcl_fastapi.Runtime.State.Value.{str, Record, get, value_eq}
use lcl_fastapi.Runtime.State.Identity.{
  Identity, Process, ProcessTable, is_live, Runs, is_live-Runs,
}
use lcl_fastapi.Runtime.Controller.{each_once}
use lcl_fastapi.Runtime.Controller.Names.{is_live-Names}
use lcl_fastapi.Runtime.Controller.Once.{
  Named, AllNamed, Named-nil, Named-each_once, each_once-NamedOnce,
}
use lcl_fastapi.Runtime.Observer.{live_workers}

-- What `live_workers` gives are records of running processes.
pub live_workers-live :
    (table : ProcessTable) (service_id : String) (files : List Record)
    → All (λ (r : Record). is_live table r ≡ true) (live_workers table service_id files)
unfolding live_workers
live_workers-live table service_id [] = tt
live_workers-live table service_id (r ∷ files) =
    let rest = live_workers-live table service_id files in
    elim (Bool-cases (value_eq (get r "service_id") (str service_id) && is_live table r)) [
      | inl e ↦ rw e (ground (arith, e), rest)
      | inr e ↦ rw e rest
    ]

All-Has : {A : Type 0} (P : A → Type 0) (xs : List A) (x : A) → All P xs → Has xs x → P x
All-Has P [] x a h = absurd h
All-Has P (y ∷ ys) x a (inl e) = subst P e a.0
All-Has P (y ∷ ys) x a (inr h) = All-Has P ys x a.1 h

module _ (table : ProcessTable) (rs : List Record)
    (live : All (λ (r : Record). is_live table r ≡ true) rs) where
  live-AllNamed : (qs : List Record) → All (λ (r : Record). is_live table r ≡ true) qs → AllNamed qs
  unfolding AllNamed
  live-AllNamed [] a = tt
  live-AllNamed (q ∷ qs) a = (is_live-Names table q a.0, live-AllNamed qs a.1)

  pub Named-Runs : (i : Identity) → Named rs i → Runs table i
  unfolding Named
  Named-Runs i (r, h, n) =
      is_live-Runs table r i n.pid n.created (All-Has (λ r. is_live table r ≡ true) rs r live h)

  pub Named-current : (i : Identity) → Named (each_once [] rs) i ↔ Named rs i
  Named-current i =
      let (there, back) = Named-each_once [] rs i (unfold AllNamed in tt) (live-AllNamed rs live) in
      (λ h. elim (there h) [ inl k ↦ absurd (Named-nil i k) | inr k ↦ k ], λ h. back (inr h))

  pub current-AllNamed : AllNamed (each_once [] rs)
  current-AllNamed =
      (each_once-NamedOnce [] rs (unfold AllNamed in tt) (live-AllNamed rs live) tt).1

  -- Two running processes with one PID are one.
  pub current-one_each :
      (i j : Identity)
      → Named (each_once [] rs) i
      → Named (each_once [] rs) j
      → i.pid ≡ j.pid
      → i ≡ j
  current-one_each i j hi hj e =
      let a = Named-Runs i ((Named-current i).0 hi) in
      let b = Named-Runs j ((Named-current j).0 hj) in
      same i j e a.found b.found a.same_start b.same_start
    where
      same :
          {p q : Process} (i j : Identity)
          → i.pid ≡ j.pid
          → table i.pid ≡ some p
          → table j.pid ≡ some q
          → p.create_time ≡ i.created
          → q.create_time ≡ j.created
          → i ≡ j
      same {p} {q} i j e a b c d =
          let found : ◌≡◌ {A = Option Process} (some p) (some q) = sym a ∙ ap table e ∙ b in
          ground (arith, found, c, d, e)
