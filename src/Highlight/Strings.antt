-- ===== src/Highlight/Strings.antt =====
-- The `string` alternative of the pattern in lcl-highlight.js.
use lcl_fastapi.Prelude.{
  ℕ, Text, codes, Bool, true, false, ◌&&◌, ◌||◌, none, some, [], ◌∷◌, ◌≡◌, refl, arith, ◌==◌,
  if◌then◌else◌, contains,
}
use lcl_fastapi.Highlight.Match.{
  Match, ◌or_else◌, prepend, then_match, one, Splits, Advances, or_else-Splits, or_else-Advances,
  prepend-Splits, then_match-Splits, then_match-Advances, one-Splits, one-Advances,
}

abbrev is_line_break : ℕ → Bool
is_line_break c = c == b'\r' || c == b'\n'

-- Three quotation marks `q` at the position.
close_triple : ℕ → Text → Match
close_triple q (c ∷ d ∷ e ∷ s) =
    if c == q && (d == q && e == q) then some (c ∷ d ∷ e ∷ [], s) else none
close_triple q _ = none

-- (?:\\[\s\S]|(?!qqq)[^\\])*?(?:qqq|$). The lazy loop tries the end first, and its two
-- alternatives exclude one another, so it never goes back to an earlier choice.
triple_rest : ℕ → Text → Match
triple_rest q [] = some ([], [])
triple_rest q (c ∷ []) = if c == b'\\' then none else some (c ∷ [], [])
triple_rest q (c ∷ d ∷ s) =
    let escaped = prepend (c ∷ d ∷ []) (triple_rest q s) in
    let plain = prepend (c ∷ []) (triple_rest q (d ∷ s)) in
    close_triple q (c ∷ d ∷ s) or_else (if c == b'\\' then escaped else plain)

-- (?:\\[\s\S]|[^q\\\r\n])*(?:q|(?=\r|\n|$)). What the greedy loop has taken begins with neither `q`
-- nor a line break, so giving characters back never lets the end match.
line_rest : ℕ → Text → Match
line_rest q [] = some ([], [])
line_rest q (c ∷ []) =
    if c == q
    then some (c ∷ [], [])
    else if is_line_break c
    then some ([], c ∷ [])
    else if c == b'\\'
    then none
    else some (c ∷ [], [])
line_rest q (c ∷ d ∷ s) =
    let escaped = prepend (c ∷ d ∷ []) (line_rest q s) in
    let plain = prepend (c ∷ []) (line_rest q (d ∷ s)) in
    if c == q
    then some (c ∷ [], d ∷ s)
    else if is_line_break c
    then some ([], c ∷ d ∷ s)
    else if c == b'\\'
    then escaped
    else plain

triple : ℕ → Text → Match
triple q s = then_match (close_triple q s) (triple_rest q)

line : ℕ → Text → Match
line q s = then_match (one (λ c. c == q) s) (line_rest q)

quoted : Text → Match
quoted s = triple b'"' s or_else (triple b'\'' s or_else (line b'"' s or_else line b'\'' s))

is_prefix : ℕ → Bool
is_prefix = contains (codes "rRbBfF")

-- (?:[rRbBfF]{1,2})? takes two letters if it can, and else one, and else none.
prefixed : Text → Match
prefixed s = then_match (one is_prefix s) quoted

unfoldable pub string_literal : Text → Match
unfolding close_triple triple_rest line_rest triple line quoted is_prefix prefixed contains one
    then_match prepend
string_literal s = then_match (one is_prefix s) prefixed or_else (prefixed s or_else quoted s)

close_triple-Splits : (q : ℕ) (s : Text) → Splits s (close_triple q s)
unfolding close_triple
close_triple-Splits q (c ∷ d ∷ e ∷ s) = ground arith
close_triple-Splits q _ = tt

close_triple-Advances : (q : ℕ) (s : Text) → Advances (close_triple q s)
unfolding close_triple
close_triple-Advances q (c ∷ d ∷ e ∷ s) = ground arith
close_triple-Advances q _ = tt

if-Splits :
    (b : Bool) (s : Text) (m n : Match) → Splits s m → Splits s n → Splits s (if b then m else n)
if-Splits true s m n hm hn = hm
if-Splits false s m n hm hn = hn

triple_rest-Splits : (q : ℕ) (s : Text) → Splits s (triple_rest q s)
unfolding triple_rest
triple_rest-Splits q [] = refl
triple_rest-Splits q (c ∷ []) = ground arith
triple_rest-Splits q (c ∷ d ∷ s) =
    or_else-Splits (c ∷ d ∷ s) (close_triple q (c ∷ d ∷ s)) _ (close_triple-Splits q (c ∷ d ∷ s)) (
      if-Splits (c == b'\\') (c ∷ d ∷ s) _ _
        (prepend-Splits (c ∷ d ∷ []) s (triple_rest q s) (triple_rest-Splits q s))
        (prepend-Splits (c ∷ []) (d ∷ s) (triple_rest q (d ∷ s)) (triple_rest-Splits q (d ∷ s))))

line_rest-Splits : (q : ℕ) (s : Text) → Splits s (line_rest q s)
unfolding line_rest
line_rest-Splits q [] = refl
line_rest-Splits q (c ∷ []) = ground arith
line_rest-Splits q (c ∷ d ∷ s) = if-Splits (c == q) (c ∷ d ∷ s) _ _ refl (
    if-Splits (is_line_break c) (c ∷ d ∷ s) _ _ refl (
      if-Splits (c == b'\\') (c ∷ d ∷ s) _ _
        (prepend-Splits (c ∷ d ∷ []) s (line_rest q s) (line_rest-Splits q s))
        (prepend-Splits (c ∷ []) (d ∷ s) (line_rest q (d ∷ s)) (line_rest-Splits q (d ∷ s)))))

triple-Splits : (q : ℕ) (s : Text) → Splits s (triple q s)
unfolding triple
triple-Splits q s =
    then_match-Splits s (close_triple q s) (triple_rest q) (close_triple-Splits q s)
      (triple_rest-Splits q)

line-Splits : (q : ℕ) (s : Text) → Splits s (line q s)
unfolding line
line-Splits q s =
    then_match-Splits s (one _ s) (line_rest q) (one-Splits (λ c. c == q) s) (line_rest-Splits q)

quoted-Splits : (s : Text) → Splits s (quoted s)
unfolding quoted
quoted-Splits s = or_else-Splits s (triple b'"' s) _ (triple-Splits b'"' s) (
    or_else-Splits s (triple b'\'' s) _ (triple-Splits b'\'' s)
      (or_else-Splits s (line b'"' s) _ (line-Splits b'"' s) (line-Splits b'\'' s)))

prefixed-Splits : (s : Text) → Splits s (prefixed s)
unfolding prefixed
prefixed-Splits s =
    then_match-Splits s (one is_prefix s) quoted (one-Splits is_prefix s) quoted-Splits

pub string_literal-Splits : (s : Text) → Splits s (string_literal s)
unfolding string_literal
string_literal-Splits s =
    or_else-Splits s (then_match (one is_prefix s) prefixed) _
      (then_match-Splits s (one is_prefix s) prefixed (one-Splits is_prefix s) prefixed-Splits)
      (or_else-Splits s (prefixed s) (quoted s) (prefixed-Splits s) (quoted-Splits s))

line-Advances : (q : ℕ) (s : Text) → Advances (line q s)
unfolding line
line-Advances q s = then_match-Advances (one _ s) (line_rest q) (one-Advances (λ c. c == q) s)

triple-Advances : (q : ℕ) (s : Text) → Advances (triple q s)
unfolding triple
triple-Advances q s =
    then_match-Advances (close_triple q s) (triple_rest q) (close_triple-Advances q s)

quoted-Advances : (s : Text) → Advances (quoted s)
unfolding quoted
quoted-Advances s = or_else-Advances (triple b'"' s) _ (triple-Advances b'"' s) (
    or_else-Advances (triple b'\'' s) _ (triple-Advances b'\'' s)
      (or_else-Advances (line b'"' s) _ (line-Advances b'"' s) (line-Advances b'\'' s)))

pub string_literal-Advances : (s : Text) → Advances (string_literal s)
unfolding string_literal
string_literal-Advances s =
    or_else-Advances (then_match (one is_prefix s) prefixed) _
      (then_match-Advances (one is_prefix s) prefixed (one-Advances is_prefix s))
      (or_else-Advances (prefixed s) (quoted s)
        (then_match-Advances (one is_prefix s) quoted (one-Advances is_prefix s))
        (quoted-Advances s))

unfinished_string : string_literal (codes "f\"a\\\"b\nc") ≡ some (codes "f\"a\\\"b", codes "\nc")
unfolding string_literal
unfinished_string = refl
