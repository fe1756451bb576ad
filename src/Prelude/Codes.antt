-- ===== src/Prelude/Codes.antt =====
-- Text as its code points.
use Prim.Native.Nat.{ℕ, zero, suc, ◌+◌, ◌/◌, ◌%◌}
use Prim.Native.Char.{code}
use Prim.Native.String.{String}
use mathlib.Core.Path.{◌≡◌}
use mathlib.Core.Logic.{◌↔◌}
use mathlib.Core.Bool.{Bool, true, false, ◌&&◌, ◌||◌}
use mathlib.Core.List.{List, [], ◌∷◌, ◌++◌}
use native.Mathlib.Omega.{arith}
use lcl_fastapi.Prelude.Tests.{◌==◌, ltb, if◌then◌else◌}

abbrev pub Text : Type 0
Text = List ℕ

-- The code points of a literal.
abbrev pub codes : String → Text
codes String.[] = []
codes (String.◌∷◌ c s) = code c ∷ codes s

-- Equality of texts.
unfoldable pub same_text : Text → Text → Bool
same_text [] [] = true
same_text (x ∷ xs) (y ∷ ys) = x == y && same_text xs ys
same_text _ _ = false

pub same_text_iff : (s t : Text) → (same_text s t ≡ true) ↔ (s ≡ t)
unfolding same_text
same_text_iff (x ∷ s) (y ∷ t) = ground (arith, same_text_iff s t)
same_text_iff _ _ = ground arith

-- One character of a class, or one text of a list.
unfoldable pub contains : Text → ℕ → Bool
contains [] c = false
contains (d ∷ ds) c = c == d || contains ds c

unfoldable pub member : List Text → Text → Bool
unfolding same_text
member [] s = false
member (t ∷ ts) s = same_text s t || member ts s

-- "\n".join(lines)
unfoldable pub join_lines : List Text → Text
join_lines [] = []
join_lines (l ∷ []) = l
join_lines (l ∷ m ∷ ls) = l ++ b'\n' ∷ join_lines (m ∷ ls)

-- The decimal digits of a number.
unfoldable pub digits : ℕ → ℕ → Text → Text
digits zero n acc = acc
digits (suc f) n acc =
    let acc' : Text = (b'0' + n % 10) ∷ acc in
    let more = digits f (n / 10) acc' in if ltb n 10 then acc' else more

unfoldable pub decimal : ℕ → Text
unfolding digits
decimal n = digits (suc n) n []
