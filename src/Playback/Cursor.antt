-- ===== src/Playback/Cursor.antt =====
-- The integer `cursor` of the trace player and its comparisons.
use lcl_fastapi.Prelude.{ℕ, zero, suc, ◌+◌, Text, Bool, true, ◌&&◌, List, [], ◌∷◌, ◌==◌, leb}

-- `negsuc n` is -(n + 1).
pub data ℤ : Type 0 where
  pos : ℕ → ℤ
  negsuc : ℕ → ℤ

abbrev pub next : ℤ → ℤ
next (pos n) = pos (suc n)
next (negsuc zero) = pos 0
next (negsuc (suc n)) = negsuc n

abbrev pub previous : ℤ → ℤ
previous (pos zero) = negsuc 0
previous (pos (suc n)) = pos n
previous (negsuc n) = negsuc (suc n)

-- cursor <= 0
abbrev pub at_start : ℤ → Bool
at_start (pos n) = n == 0
at_start (negsuc n) = true

-- cursor >= trace.length - 1
abbrev pub at_end : ℤ → ℕ → Bool
at_end (pos n) len = leb len (n + 1)
at_end (negsuc n) len = len == 0 && n == 0

nth : List Text → ℕ → Text
nth [] n = []
nth (e ∷ es) zero = e
nth (e ∷ es) (suc n) = nth es n

-- trace[cursor], or the empty text for `undefined`
unfoldable pub event_at : List Text → ℤ → Text
unfolding nth
event_at trace (pos n) = nth trace n
event_at trace (negsuc n) = []
