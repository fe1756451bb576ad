-- ===== src/Runtime/State/Value.antt =====
-- JSON values of state files as Python holds them, and the dictionaries made of them.
use Prim.Native.Nat.{◌*◌, ◌^◌}
use Prim.Native.String.{String}
use text.Mathlib.Text.{◌==◌ as str_eq}
use lcl_fastapi.Prelude.{
  ℕ, Bool, true, false, ◌&&◌, Option, none, some, List, [], ◌∷◌, ◌==◌, if◌then◌else◌, length,
}

-- `negative n` is the integer -(n + 1). A `float` counts steps of 2 ^ -22 seconds, the distance of
-- doubles near the present Unix time. `other` holds the text of any further value.
pub data Value : Type 0 where
  null : Value
  bool : Bool → Value
  int : ℕ → Value
  negative : ℕ → Value
  float : ℕ → Value
  str : String → Value
  other : String → Value

abbrev pub second : ℕ
second = 2 ^ 22

-- A dictionary with string keys, each key once.
abbrev pub Record : Type 0
Record = List (String × Value)

-- record.get(key)
unfoldable pub get : Record → String → Value
get [] key = null
get ((k, v) ∷ r) key = if str_eq k key then v else get r key

-- A number that Python compares by its value; `True` is 1.
unfoldable pub numeric : Value → Option ℕ
numeric (bool true) = some second
numeric (bool false) = some 0
numeric (int n) = some (n * second)
numeric (float t) = some t
numeric _ = none

unfoldable pub same_number : Option ℕ → Option ℕ → Bool
same_number (some a) (some b) = a == b
same_number _ _ = false

-- Python's `==`.
unfoldable pub value_eq : Value → Value → Bool
unfolding numeric same_number
value_eq null null = true
value_eq (negative a) (negative b) = a == b
value_eq (str a) (str b) = str_eq a b
value_eq (other a) (other b) = str_eq a b
value_eq a b = same_number (numeric a) (numeric b)

unfoldable pub has_key : Record → String → Bool
has_key [] key = false
has_key ((k, v) ∷ r) key = if str_eq k key then true else has_key r key

agrees : Record → Record → Bool
agrees [] b = true
agrees ((k, v) ∷ r) b = has_key b k && value_eq v (get b k) && agrees r b

-- `==` of two dictionaries.
unfoldable pub record_eq : Record → Record → Bool
unfolding agrees has_key value_eq get
record_eq a b = length a == length b && agrees a b
