-- ===== src/Runtime/Controller/Names.antt =====
-- The processes that records name, and the dictionary that names each once.
use Prim.Native.Nat.{◌*◌}
use lcl_fastapi.Prelude.{
  ℕ, zero, suc, true, Option, none, some, ◌≡◌, ◌↔◌, refl, sym, subst, arith, ==_iff,
}
use lcl_fastapi.Runtime.State.Value.{
  Value, null, bool, int, negative, float, str, other, Record, get, numeric, value_eq, same_number,
  second,
}
use lcl_fastapi.Runtime.State.Identity.{
  Identity, ProcessTable, valid_pid, valid_time, is_live, is_live_at,
}
use lcl_fastapi.Runtime.Controller.{same_key}

-- The record is of the process.
pub record Names (r : Record) (i : Identity) : Type 0 where
  pub pid : valid_pid (get r "pid") ≡ some i.pid
  pub created : valid_time (get r "process_create_time") ≡ some i.created

valid_pid-some : (v : Value) (n : ℕ) → valid_pid v ≡ some n → v ≡ int n
unfolding valid_pid
valid_pid-some null n h = cc
valid_pid-some (bool b) n h = cc
valid_pid-some (int zero) n h = cc
valid_pid-some (int (suc m)) n h = cc
valid_pid-some (negative m) n h = cc
valid_pid-some (float t) n h = cc
valid_pid-some (str s) n h = cc
valid_pid-some (other s) n h = cc

value_eq-pid : (a b : ℕ) → (value_eq (int a) (int b) ≡ true) ↔ (a ≡ b)
unfolding value_eq numeric same_number
value_eq-pid a b = ground arith

-- A time is an integer or a float.
data IsTime : Value → ℕ → Type 0 where
  whole : (n : ℕ) → IsTime (int n) (n * second)
  steps : (t : ℕ) → IsTime (float t) t

valid_time-IsTime : (v : Value) (t : ℕ) → valid_time v ≡ some t → IsTime v t
unfolding valid_time
valid_time-IsTime null n h = cc
valid_time-IsTime (bool b) n h = cc
valid_time-IsTime (int m) n h = subst (IsTime (int m)) (ground (arith, h)) (whole m)
valid_time-IsTime (negative m) n h = cc
valid_time-IsTime (float t) n h = subst (IsTime (float t)) (ground (arith, h)) (steps t)
valid_time-IsTime (str s) n h = cc
valid_time-IsTime (other s) n h = cc

value_eq-time : {v w : Value} {a b : ℕ} → IsTime v a → IsTime w b → (value_eq v w ≡ true) ↔ (a ≡ b)
unfolding value_eq numeric same_number
value_eq-time (whole m) (whole n) = ==_iff _ _
value_eq-time (whole m) (steps t) = ==_iff _ _
value_eq-time (steps t) (whole n) = ==_iff _ _
value_eq-time (steps s) (steps t) = ==_iff _ _

is_live_at-some :
    (table : ProcessTable) (o p : Option ℕ)
    → is_live_at table o p ≡ true
    → ((n : ℕ) × (o ≡ some n)) × ((t : ℕ) × (p ≡ some t))
unfolding is_live_at
is_live_at-some table none p h = cc
is_live_at-some table (some n) none h = cc
is_live_at-some table (some n) (some t) h = ((n, refl), (t, refl))

-- A record of a live process names one.
pub is_live-Names :
    (table : ProcessTable) (r : Record) → is_live table r ≡ true → (i : Identity) × Names r i
unfolding is_live
is_live-Names table r h =
    let ((n, p), (t, q)) = is_live_at-some table _ _ h in
    (record { pid = n; created = t }, record { pid = p; created = q })

-- Records that name processes have the same key exactly where it is the same process.
pub same_key_iff :
    (r q : Record) (i j : Identity) → Names r i → Names q j → (same_key r q ≡ true) ↔ (i ≡ j)
unfolding same_key
same_key_iff r q i j m n =
    let pids : (value_eq (get r "pid") (get q "pid") ≡ true) ↔ (i.pid ≡ j.pid) =
      subst (λ v. (value_eq v (get q "pid") ≡ true) ↔ (i.pid ≡ j.pid))
        (sym (valid_pid-some _ _ m.pid))
        (subst (λ v. (value_eq (int i.pid) v ≡ true) ↔ (i.pid ≡ j.pid))
          (sym (valid_pid-some _ _ n.pid)) (value_eq-pid i.pid j.pid)) in
    let times = value_eq-time (valid_time-IsTime _ _ m.created) (valid_time-IsTime _ _ n.created) in
    (λ h. ground (arith, pids, times, h), λ e. ground (arith, pids, times, e))

pub identity_unique : (r : Record) (i j : Identity) → Names r i → Names r j → i ≡ j
identity_unique r i j m n = ground (arith, m.pid, n.pid, m.created, n.created)
