-- ===== src/Runtime/State/Files.antt =====
-- `read_state` and `atomic_write` of src/lcl_fastapi/runtime/state.py, over what each system call
-- reports. An attempt that is denied is made again on Windows, three times at most.
use lcl_fastapi.Prelude.{
  ℕ, zero, suc, ◌+◌, Bool, true, false, ◌&&◌, ◌||◌, not, [], ◌≡◌, refl, arith, ◌==◌, if◌then◌else◌,
}
use lcl_fastapi.Runtime.State.Value.{Record}

pub data Failure : Type 0 where
  permission_error os_error : Failure

-- `retrying` is the loop cut short: its fuel ran out.
pub data Outcome (A : Type 0) : Type 0 where
  ok : A → Outcome A
  raised : Failure → Outcome A
  retrying : Outcome A

-- What `json.loads(path.read_text())` does: the file is missing, is no JSON, holds a dictionary or
-- another value, may not be read now, or cannot be read.
pub data ReadAttempt : Type 0 where
  missing invalid not_dict denied failed : ReadAttempt
  decoded : Record → ReadAttempt

-- One round of the loop; `again` is what the further rounds give.
answer_read : Bool → Outcome Record → ℕ → ReadAttempt → Outcome Record
answer_read win32 again attempts (decoded r) = ok r
answer_read win32 again attempts missing = ok []
answer_read win32 again attempts invalid = ok []
answer_read win32 again attempts not_dict = ok []
answer_read win32 again attempts failed = raised os_error
answer_read win32 again attempts denied =
    if not win32 || attempts + 1 == 3 then raised permission_error else again

-- The loop, at the attempt numbered `attempts` from 0.
read_loop : Bool → (ℕ → ReadAttempt) → ℕ → ℕ → Outcome Record
read_loop win32 env zero attempts = retrying
read_loop win32 env (suc fuel) attempts =
    let again = read_loop win32 env fuel (attempts + 1) in
    answer_read win32 again attempts (env attempts)

-- Three rounds of fuel; `env` says what each attempt meets.
unfoldable pub read_state : Bool → (ℕ → ReadAttempt) → Outcome Record
unfolding read_loop answer_read
read_state win32 env = read_loop win32 env 3 0

-- What an attempt that is not denied returns.
abbrev pub settled : ReadAttempt → Outcome Record
settled (decoded r) = ok r
settled failed = raised os_error
settled denied = raised permission_error
settled _ = ok []

abbrev pub is_denied : ReadAttempt → Bool
is_denied denied = true
is_denied _ = false

-- The first of three attempts that is not denied, or the third.
abbrev pub first_settled : (ℕ → ReadAttempt) → ReadAttempt
first_settled env =
    if is_denied (env 0) then (if is_denied (env 1) then env 2 else env 1) else env 0

answer_read-settled :
    (win32 : Bool) (again : Outcome Record) (n : ℕ) (a : ReadAttempt)
    → answer_read win32 again n a
      ≡ (if is_denied a && not (not win32 || n + 1 == 3) then again else settled a)
unfolding answer_read
answer_read-settled win32 again n denied = ground arith
answer_read-settled win32 again n _ = refl

-- `read_state` always returns or raises. On Windows the result is that of the first of three
-- attempts that is not denied, and a permission error if all are; elsewhere the first attempt decides.
pub read_state-settled :
    (win32 : Bool) (env : ℕ → ReadAttempt)
    → read_state win32 env ≡ settled (if win32 then first_settled env else env 0)
unfolding read_state
read_state-settled true env =
    rw
      (
        answer_read-settled true _ 0 (env 0),
        answer_read-settled true _ 1 (env 1),
        answer_read-settled true _ 2 (env 2),
      )
      (ground arith)
read_state-settled false env = rw (answer_read-settled false _ 0 (env 0)) (ground arith)
