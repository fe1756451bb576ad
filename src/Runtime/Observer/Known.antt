-- ===== src/Runtime/Observer/Known.antt =====
-- What a reader knows of the workers, and an observation's changes.
use lcl_fastapi.Prelude.{
  ℕ, Bool, true, false, not, ◌&&◌, ◌||◌, List, [], ◌∷◌, ◌≡◌, ◌↔◌, ◌⊎◌, refl, sym, ap, ◌∙◌, subst,
  arith, Bool-cases, inl, inr,
}
use lcl_fastapi.Runtime.State.Value.{Record, get}
use lcl_fastapi.Runtime.State.Identity.{Identity}
use lcl_fastapi.Runtime.Controller.Names.{Names}
use lcl_fastapi.Runtime.Controller.Once.{Named, AllNamed, Named-nil, Named-cons}
use lcl_fastapi.Runtime.Observer.Log.{is_pid, is_pid_at, missing_at, missing, find-cases}

is_pid_iff :
    (r : Record) (i : Identity) (n : ℕ) → Names r i → (is_pid (get r "pid") n ≡ true) ↔ (i.pid ≡ n)
unfolding is_pid_at
is_pid_iff r i n names = rw names.pid (ground arith)

-- The PID is of a process in the first list that is not in the second.
missing_iff :
    (rs other : List Record) (n : ℕ)
    → AllNamed rs
    → AllNamed other
    → (missing rs other n ≡ true) ↔ ((i : Identity) × Named rs i × (¬ Named other i) × (i.pid ≡ n))
unfolding missing AllNamed
missing_iff [] other n a b = (λ h. cc, λ (i, h, k, e). absurd (Named-nil i h))
missing_iff (r ∷ rs) other n ((i, m), a) b =
    let (there, back) = missing_iff rs other n a b in
    let (pid, pid_back) = is_pid_iff r i n m in
    elim (find-cases r i other m b) [
      | inl (f, absent) ↦
          rw (f, missing_at)
            (
              λ h. elim (either _ _ h) [
                | inl k ↦ (i, (Named-cons r rs i i m).1 (inl refl), absent, pid k)
                | inr k ↦
                    let (j, at, out, e) = there k in (j, (Named-cons r rs i j m).1 (inr at), out, e)
              ],
              λ (j, at, out, e). elim ((Named-cons r rs i j m).0 at) [
                | inl same ↦ left _ _ (pid_back (ap (λ (x : Identity). x.pid) (sym same) ∙ e))
                | inr old ↦ right _ _ (back (j, old, out, e))
              ],
            )
      | inr (q, f, present) ↦
          rw (f, missing_at)
            (
              λ h. let (j, at, out, e) = there h in (j, (Named-cons r rs i j m).1 (inr at), out, e),
              λ (j, at, out, e). elim ((Named-cons r rs i j m).0 at) [
                | inl same ↦ absurd (out (subst (Named other) (sym same) present))
                | inr old ↦ back (j, old, out, e)
              ],
            )
    ]
  where
    either : (a b : Bool) → (a || b) ≡ true → (a ≡ true) ⊎ (b ≡ true)
    either true b h = inl refl
    either false b h = inr h

    left : (a b : Bool) → a ≡ true → (a || b) ≡ true
    left a b h = ground (arith, h)

    right : (a b : Bool) → b ≡ true → (a || b) ≡ true
    right a b h = ground (arith, h)

-- The reader knows the PIDs of the workers, which are of different processes.
pub record Knows (pids : ℕ → Bool) (rs : List Record) : Type 0 where
  pub known : (n : ℕ) → (pids n ≡ true) ↔ ((i : Identity) × Named rs i × (i.pid ≡ n))
  pub named : AllNamed rs
  pub one_each : (i j : Identity) → Named rs i → Named rs j → i.pid ≡ j.pid → i ≡ j

present_or_absent :
    (rs other : List Record) (i : Identity)
    → AllNamed other
    → Named rs i
    → (¬ Named other i) ⊎ Named other i
unfolding Named
present_or_absent rs other i a (r, h, n) = elim (find-cases r i other n a) [
  | inl (f, absent) ↦ inl absent
  | inr (q, f, present) ↦ inr present
]

-- The change from the old workers to the current ones, read in the log.
module _ (pids : ℕ → Bool) (old current : List Record) (n : ℕ) where
  unfoldable pub changed : Bool
  changed = missing current old n || (not (missing old current n) && pids n)

  pub known-changed :
      Knows pids old
      → AllNamed current
      → changed ≡ true
      → (i : Identity) × Named current i × (i.pid ≡ n)
  unfolding changed
  known-changed k a h = elim (Bool-cases (missing current old n)) [
    | inl f ↦ let (i, at, out, e) = (missing_iff current old n a k.named).0 f in (i, at, e)
    | inr f ↦
        let (i, at, e) = (k.known n).0 (ground (arith, f, h)) in
        elim (present_or_absent old current i a at) [
          | inl absent ↦ absurd (
              clash (missing current old n) (missing old current n) f h
                ((missing_iff old current n k.named a).1 (i, at, absent, e)))
          | inr present ↦ (i, present, e)
        ]
  ]
    where
      clash : (b c : Bool) → b ≡ false → (b || (not c && pids n)) ≡ true → c ≡ true → ⊥
      clash b c f h g = ground (arith, f, h, g)

  pub changed-known :
      Knows pids old
      → AllNamed current
      → (i : Identity) × Named current i × (i.pid ≡ n)
      → changed ≡ true
  unfolding changed
  changed-known k a (i, at, e) = elim (present_or_absent current old i k.named at) [
    | inl absent ↦
        first (missing current old n) _ ((missing_iff current old n a k.named).1 (i, at, absent, e))
    | inr before ↦ elim (Bool-cases (missing old current n)) [
      | inl g ↦
          let (j, was, out, q) = (missing_iff old current n k.named a).0 g in
          absurd (out (subst (Named current) (k.one_each i j before was (e ∙ sym q)) at))
      | inr g ↦
          second (missing current old n) (missing old current n) g ((k.known n).1 (i, before, e))
    ]
  ]
    where
      first : (b c : Bool) → b ≡ true → (b || c) ≡ true
      first b c h = ground (arith, h)

      second : (b c : Bool) → c ≡ false → pids n ≡ true → (b || (not c && pids n)) ≡ true
      second b c g h = ground (arith, g, h)
