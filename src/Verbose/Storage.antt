-- ===== src/Verbose/Storage.antt =====
-- src/lcl_fastapi/verbose/types.py and `read_target`, `write_target` of
-- src/lcl_fastapi/verbose/storage.py, over the dictionary that `read_state` gives.
use Prim.Native.String.{String}
use text.Mathlib.TextPositions.{eq_refl}
use lcl_fastapi.Prelude.{ℕ, Bool, not, Option, none, some, [], ◌∷◌, ◌≡◌, refl, if◌then◌else◌}
use lcl_fastapi.Runtime.State.Value.{Value, bool, int, str, Record, get, value_eq}

-- A nonnegative revision, by its type.
pub record FileVerboseState : Type 0 where
  pub enabled : Bool
  pub revision : ℕ

-- type(enabled) is bool, type(revision) is int and revision >= 0
target_of : Value → Value → Option FileVerboseState
target_of (bool b) (int n) = some (record { enabled = b; revision = n })
target_of _ _ = none

-- `none` is the OSError for state that is absent, malformed or of another start.
unfoldable pub read_target : String → Record → Option FileVerboseState
unfolding target_of get value_eq
read_target service_id r =
    if not (value_eq (get r "service_id") (str service_id))
    then none
    else target_of (get r "enabled") (get r "revision")

-- The dictionary that `write_target` gives to `atomic_write`.
unfoldable pub write_target : String → FileVerboseState → Record
write_target service_id s =
    ("service_id", str service_id) ∷ ("enabled", bool s.enabled) ∷ ("revision", int s.revision) ∷ []

-- A written target is read back.
pub read_target-write_target :
    (service_id : String) (s : FileVerboseState)
    → read_target service_id (write_target service_id s) ≡ some s
unfolding read_target write_target
read_target-write_target service_id s = rw (eq_refl service_id) refl
