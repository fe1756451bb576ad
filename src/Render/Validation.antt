-- ===== src/Render/Validation.antt =====
-- src/lcl_fastapi/render/validation.py. The texts of the diagnostics are left out.
use lcl_fastapi.Prelude.{
  ℕ, ◌≤◌, Text, Bool, true, false, ◌&&◌, ◌||◌, [], ◌∷◌, ◌≡◌, arith, ◌==◌, leb, within,
  if◌then◌else◌, all,
}

-- A materialised LCL value. `negative n` is the integer -(n + 1).
pub data ConfigValue : Type 0 where
  text : Text → ConfigValue
  integer : ℕ → ConfigValue
  negative : ℕ → ConfigValue
  boolean : Bool → ConfigValue
  other : ConfigValue

pub data Checked (A : Type 0) : Type 0 where
  ok : A → Checked A
  value_error : Checked A

infixl 5 ◌>>=◌
abbrev pub ◌>>=◌ : {A B : Type 0} → Checked A → (A → Checked B) → Checked B
ok a >>= f = f a
value_error >>= f = value_error

abbrev pub require : Bool → Checked (Unit {0})
require true = ok tt
require false = value_error

infixl 5 ◌>>◌
abbrev pub ◌>>◌ : {B : Type 0} → Checked (Unit {0}) → Checked B → Checked B
m >> n = m >>= λ _. n

-- not value or any(ord(char) < 32 for char in value)
abbrev pub is_printable : ℕ → Bool
is_printable c = leb 32 c

abbrev pub is_nonempty : Text → Bool
is_nonempty [] = false
is_nonempty (c ∷ t) = true

unfoldable pub text_value : ConfigValue → Checked Text
text_value (text t) = if is_nonempty t && all is_printable t then ok t else value_error
text_value _ = value_error

unfoldable pub integer_value : ConfigValue → ℕ → ℕ → Checked ℕ
integer_value (integer n) minimum maximum = if within minimum maximum n then ok n else value_error
integer_value _ minimum maximum = value_error

abbrev pub is_word : ℕ → Bool
is_word c = within b'A' b'Z' c || within b'a' b'z' c || within b'0' b'9' c || c == b'_'

-- [A-Za-z0-9_][A-Za-z0-9_.-]*
unfoldable pub is_identifier : Text → Bool
is_identifier [] = false
is_identifier (c ∷ t) = is_word c && all (λ d. is_word d || d == b'.' || d == b'-') t

unfoldable pub identifier : ConfigValue → Checked Text
identifier v = do t ← text_value v; require (is_identifier t); ok t

-- PurePosixPath(result).is_absolute()
unfoldable pub is_absolute : Text → Bool
is_absolute [] = false
is_absolute (c ∷ t) = c == b'/'

unfoldable pub absolute_path : ConfigValue → Checked Text
absolute_path v = do t ← text_value v; require (is_absolute t); ok t

-- A text that a check lets through has no character below 32.
pub text_value-printable :
    (v : ConfigValue) {t : Text} → text_value v ≡ ok t → all is_printable t ≡ true
unfolding text_value
text_value-printable (text s) h = ground arith
text_value-printable _ h = cc

pub text_value-eq-ok : (v : ConfigValue) {t : Text} → text_value v ≡ ok t → v ≡ text t
unfolding text_value
text_value-eq-ok (text s) h = ground arith
text_value-eq-ok _ h = cc

pub identifier-printable :
    (v : ConfigValue) {t : Text} → identifier v ≡ ok t → all is_printable t ≡ true
unfolding identifier
identifier-printable v h = text_value-printable v (ground arith)

pub absolute_path-printable :
    (v : ConfigValue) {t : Text} → absolute_path v ≡ ok t → all is_printable t ≡ true
unfolding absolute_path
absolute_path-printable v h = text_value-printable v (ground arith)

pub integer_value_bounds :
    (v : ConfigValue) (minimum maximum : ℕ) {n : ℕ}
    → integer_value v minimum maximum ≡ ok n
    → (minimum ≤ n) × (n ≤ maximum) × (v ≡ integer n)
unfolding integer_value
integer_value_bounds (integer m) minimum maximum h = ground arith
integer_value_bounds _ minimum maximum h = ground arith
