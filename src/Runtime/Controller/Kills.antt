-- ===== src/Runtime/Controller/Kills.antt =====
-- Which processes a tick of the controller kills.
use lcl_fastapi.Prelude.{
  Bool, true, false, Option, none, some, List, [], ◌∷◌, ◌≡◌, refl, sym, ◌∙◌, subst, arith, Has,
  Bool-cases, inl, inr,
}
use lcl_fastapi.Runtime.State.Value.{Record}
use lcl_fastapi.Runtime.State.Identity.{Identity, Process, ProcessTable}
use lcl_fastapi.Background.Expiry.{same_process, terminate_at, terminate_background_process}
use lcl_fastapi.Runtime.Controller.{World, kill_first, terminate_all}
use lcl_fastapi.Runtime.Controller.Names.{Names}
use lcl_fastapi.Runtime.Controller.Once.{Named, AllNamed, NamedOnce, Named-nil, Named-cons}

-- The very process has its PID, also as a zombie.
abbrev pub Holds : ProcessTable → Identity → Type 0
Holds table i = (p : Process) × (table i.pid ≡ some p) × (p.create_time ≡ i.created)

abbrev pub Distinct : List Identity → Type 0
Distinct [] = Unit
Distinct (i ∷ is) = (¬ Has is i) × Distinct is

same_process-some :
    (o : Option Process) (i k : Identity)
    → same_process o i ≡ some k
    → (k ≡ i) × (p : Process) × (o ≡ some p) × (p.create_time ≡ i.created)
unfolding same_process
same_process-some none i k h = cc
same_process-some (some p) i k h = (ground (arith, h), p, refl, ground (arith, h))

terminate-same_process :
    (table : ProcessTable) (r : Record) (i : Identity)
    → Names r i
    → terminate_background_process table r ≡ same_process (table i.pid) i
unfolding terminate_background_process terminate_at
terminate-same_process table r i n = rw (n.pid, n.created) refl

terminate-Holds :
    (table : ProcessTable) (r : Record) (i : Identity)
    → Names r i
    → Holds table i
    → terminate_background_process table r ≡ some i
terminate-Holds table r i n (p, e, c) =
    terminate-same_process table r i n ∙ (unfold same_process in rw e (ground (arith, c)))

-- The kills of a list of records.
pub record Kills (world : World) (rs : List Record) (result : List Identity × Bool) : Type 0 where
  pub only : (i : Identity) → Has result.0 i → Named rs i × Holds world.acting i
  pub every : result.1 ≡ true → (i : Identity) → Named rs i → Holds world.acting i → Has result.0 i
  pub once : NamedOnce rs → Distinct result.0
  pub ends : ((i : Identity) → world.allowed i ≡ true) → result.1 ≡ true

module _ (world : World) (r : Record) (i : Identity) (n : Names r i) (rs : List Record) where
  -- The process of the record is not there any more.
  Kills-none :
      (later : List Identity × Bool)
      → ¬ Holds world.acting i
      → Kills world rs later
      → Kills world (r ∷ rs) later
  Kills-none later gone k = record {
    only = λ j h. let (named, held) = k.only j h in ((Named-cons r rs i j n).1 (inr named), held);
    every = λ d j named held. elim ((Named-cons r rs i j n).0 named) [
      | inl e ↦ absurd (gone (subst (Holds world.acting) e held))
      | inr old ↦ k.every d j old held
    ];
    once = λ o. k.once o.1;
    ends = k.ends;
  }

  Kills-some :
      (later : List Identity × Bool)
      → Holds world.acting i
      → Kills world rs later
      → Kills world (r ∷ rs) (i ∷ later.0, later.1)
  Kills-some later held k = record {
    only = λ j h. elim h [
      | inl e ↦ ((Named-cons r rs i j n).1 (inl (sym e)), subst (Holds world.acting) e held)
      | inr at ↦ let (named, there) = k.only j at in ((Named-cons r rs i j n).1 (inr named), there)
    ];
    every = λ d j named there. elim ((Named-cons r rs i j n).0 named) [
      | inl e ↦ inl (sym e)
      | inr old ↦ inr (k.every d j old there)
    ];
    once = λ o. (λ h. o.0 i n (k.only i h).0, k.once o.1);
    ends = k.ends;
  }

  Kills-denied : (j : Identity) → world.allowed j ≡ false → Kills world (r ∷ rs) ([], false)
  Kills-denied j deny = record {
    only = λ j h. absurd h;
    every = λ d. cc;
    once = λ o. tt;
    ends = λ a. cc (a j, deny);
  }

  kill_first-Kills :
      (o : Option Identity) (later : List Identity × Bool)
      → terminate_background_process world.acting r ≡ o
      → Kills world rs later
      → Kills world (r ∷ rs) (kill_first world o later)
  unfolding kill_first
  kill_first-Kills none later e k =
      Kills-none later (λ held. cc (terminate-Holds world.acting r i n held, e)) k
  kill_first-Kills (some j) later e k =
      let (same, p, at, created) =
        same_process-some _ i j (sym (terminate-same_process world.acting r i n) ∙ e) in
      elim (Bool-cases (world.allowed j)) [
        | inl may ↦ rw (may, same) (Kills-some later (p, at, created) k)
        | inr deny ↦ rw deny (Kills-denied j deny)
      ]

pub terminate_all-Kills :
    (world : World) (rs : List Record) → AllNamed rs → Kills world rs (terminate_all world rs)
unfolding terminate_all AllNamed
terminate_all-Kills world [] a = record {
  only = λ i h. absurd h;
  every = λ d i named held. absurd (Named-nil i named);
  once = λ o. tt;
  ends = λ a. refl;
}
terminate_all-Kills world (r ∷ rs) ((i, n), a) =
    kill_first-Kills world r i n rs _ _ refl (terminate_all-Kills world rs a)
