-- ===== src/Runtime/Observer/Log.antt =====
-- A reader of the controller's log knows the workers.
use lcl_fastapi.Prelude.{
  ℕ, Bool, true, false, not, ◌&&◌, ◌||◌, Option, none, some, List, [], ◌∷◌, ◌++◌, ◌≡◌, ◌⊎◌, refl,
  ◌∙◌, arith, ◌==◌, Bool-cases, inl, inr, if◌then◌else◌,
}
use lcl_fastapi.Runtime.State.Value.{Value, Record, get, value_eq}
use lcl_fastapi.Runtime.State.Identity.{Identity, valid_pid}
use lcl_fastapi.Runtime.Controller.{same_key}
use lcl_fastapi.Runtime.Controller.Names.{Names, same_key_iff}
use lcl_fastapi.Runtime.Controller.Once.{Named, AllNamed, Named-nil, Named-cons}
use lcl_fastapi.Runtime.Observer.{
  Message, heartbeat, worker_down, worker_up, log_rotate, find, down, downs, change, changes,
}

unfoldable pub is_pid_at : Option ℕ → ℕ → Bool
is_pid_at none n = false
is_pid_at (some m) n = m == n

abbrev pub is_pid : Value → ℕ → Bool
is_pid v n = is_pid_at (valid_pid v) n

-- What a reader knows who takes the PIDs of the workers up and away again.
unfoldable pub take_message : Message → (ℕ → Bool) → ℕ → Bool
unfolding is_pid_at
take_message (worker_down v) pids n = if is_pid v n then false else pids n
take_message (worker_up v) pids n = if is_pid v n then true else pids n
take_message (heartbeat k) pids n = pids n
take_message (log_rotate v files) pids n = pids n

unfoldable pub replay : List Message → (ℕ → Bool) → ℕ → Bool
replay [] pids n = pids n
replay (m ∷ ms) pids n = replay ms (take_message m pids) n

pub replay-append :
    (ms ns : List Message) (pids : ℕ → Bool) (n : ℕ)
    → replay (ms ++ ns) pids n ≡ replay ns (replay ms pids) n
unfolding replay
replay-append [] ns pids n = refl
replay-append (m ∷ ms) ns pids n = replay-append ms ns (take_message m pids) n

-- Whether a record of the list has the PID and is not in the other list.
unfoldable pub missing_at : Record → ℕ → Option Record → Bool
missing_at r n none = is_pid (get r "pid") n
missing_at r n (some q) = false

unfoldable pub missing : List Record → List Record → ℕ → Bool
unfolding missing_at
missing [] other n = false
missing (r ∷ rs) other n = missing_at r n (find r other) || missing rs other n

replay-down :
    (r : Record) (o : Option Record) (pids : ℕ → Bool) (n : ℕ)
    → replay (down r o) pids n ≡ (not (missing_at r n o) && pids n)
unfolding replay down take_message missing_at
replay-down r none pids n = ground arith
replay-down r (some q) pids n = refl

pub replay-downs :
    (rs current : List Record) (pids : ℕ → Bool) (n : ℕ)
    → replay (downs rs current) pids n ≡ (not (missing rs current n) && pids n)
unfolding downs missing
replay-downs [] current pids n = unfold replay in refl
replay-downs (r ∷ rs) current pids n =
    replay-append (down r (find r current)) (downs rs current) pids n
    ∙ ground (
      arith,
      replay-downs rs current (replay (down r (find r current)) pids) n,
      replay-down r (find r current) pids n,
    )

replay-change :
    (r : Record) (o : Option Record) (pids : ℕ → Bool) (n : ℕ)
    → replay (change r o) pids n ≡ (missing_at r n o || pids n)
unfolding replay change take_message missing_at
replay-change r none pids n = ground arith
replay-change r (some q) pids n =
    elim (Bool-cases (value_eq (get r "log_files") (get q "log_files"))) [
      | inl e ↦ rw e refl
      | inr e ↦ rw e refl
    ]

pub replay-changes :
    (rs old : List Record) (pids : ℕ → Bool) (n : ℕ)
    → replay (changes rs old) pids n ≡ (missing rs old n || pids n)
unfolding changes missing
replay-changes [] old pids n = unfold replay in refl
replay-changes (r ∷ rs) old pids n =
    replay-append (change r (find r old)) (changes rs old) pids n
    ∙ ground (
      arith,
      replay-changes rs old (replay (change r (find r old)) pids) n,
      replay-change r (find r old) pids n,
    )

-- A record of the process is in the list, or none.
pub find-cases :
    (r : Record) (i : Identity) (rs : List Record)
    → Names r i
    → AllNamed rs
    → ((find r rs ≡ none) × ¬ Named rs i) ⊎ ((q : Record) × (find r rs ≡ some q) × Named rs i)
unfolding find AllNamed
find-cases r i [] n a = inl (refl, Named-nil i)
find-cases r i (q ∷ qs) n ((j, m), a) =
    let (there, back) = Named-cons q qs j i m in
    elim (Bool-cases (same_key r q)) [
      | inl e ↦ inr (q, rw e refl, back (inl ((same_key_iff r q i j n m).0 e)))
      | inr e ↦ elim (find-cases r i qs n a) [
        | inl (f, absent) ↦ inl (
          rw e f,
          λ h. elim (there h) [
            | inl same ↦ cc ((same_key_iff r q i j n m).1 same, e)
            | inr k ↦ absent k
          ],
        )
        | inr (p, f, k) ↦ inr (p, rw e f, back (inr k))
      ]
    ]
