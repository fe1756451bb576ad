-- ===== src/Highlight/Match.antt =====
-- Regular-expression matching at a position: what an alternative of the pattern takes from the
-- input that is left. The combinators follow the operators of the pattern, in its order.
use lcl_fastapi.Prelude.{
  ℕ, Text, Bool, Option, none, some, [], ◌∷◌, ◌++◌, ◌≡◌, ◌≢◌, refl, ap, arith, ◌∙◌, subst,
  if◌then◌else◌, append_assoc, take_while, drop_while, take_while-append-drop_while,
}

-- The text taken and the text left; `none` when the alternative does not match.
abbrev pub Match : Type 0
Match = Option (Text × Text)

-- `a|b`
infixr 20 ◌or_else◌
abbrev pub ◌or_else◌ : Match → Match → Match
none or_else n = n
(some m) or_else n = some m

-- What was taken before, and then the rest of the sequence.
unfoldable pub prepend : Text → Match → Match
prepend t none = none
prepend t (some (u, r)) = some (t ++ u, r)

-- `ab`
unfoldable pub then_match : Match → (Text → Match) → Match
then_match none k = none
then_match (some (t, r)) k = prepend t (k r)

-- `a?`
unfoldable pub optional : (Text → Match) → Text → Match
optional m s = m s or_else some ([], s)

-- `c`, one character of a class
unfoldable pub one : (ℕ → Bool) → Text → Match
one p [] = none
one p (c ∷ s) = if p c then some (c ∷ [], s) else none

-- `c*`
unfoldable pub many : (ℕ → Bool) → Text → Match
many p s = some (take_while p s, drop_while p s)

-- `cd*`
unfoldable pub one_many : (ℕ → Bool) → (ℕ → Bool) → Text → Match
unfolding one many then_match
one_many p q s = then_match (one p s) (many q)

-- `c+`
unfoldable pub some_of : (ℕ → Bool) → Text → Match
unfolding one_many
some_of p = one_many p p

-- A match takes a beginning of the input and leaves what follows.
abbrev pub Splits : Text → Match → Type 0
Splits s none = Unit
Splits s (some (t, r)) = t ++ r ≡ s

-- A match takes at least one character.
abbrev pub Advances : Match → Type 0
Advances none = Unit
Advances (some (t, r)) = t ≢ []

pub or_else-Splits : (s : Text) (m n : Match) → Splits s m → Splits s n → Splits s (m or_else n)
or_else-Splits s none n hm hn = hn
or_else-Splits s (some m) n hm hn = hm

pub or_else-Advances : (m n : Match) → Advances m → Advances n → Advances (m or_else n)
or_else-Advances none n hm hn = hn
or_else-Advances (some m) n hm hn = hm

pub prepend-Splits : (t s : Text) (m : Match) → Splits s m → Splits (t ++ s) (prepend t m)
unfolding prepend
prepend-Splits t s none h = tt
prepend-Splits t s (some (u, r)) h = append_assoc t u r ∙ ap (λ x. t ++ x) h

pub then_match-Splits :
    (s : Text) (m : Match) (k : Text → Match)
    → Splits s m
    → ((r : Text) → Splits r (k r))
    → Splits s (then_match m k)
unfolding then_match
then_match-Splits s none k h hk = tt
then_match-Splits s (some (t, r)) k h hk =
    subst (λ x. Splits x (prepend t (k r))) h (prepend-Splits t r (k r) (hk r))

pub optional-Splits : (m : Text → Match) (s : Text) → Splits s (m s) → Splits s (optional m s)
unfolding optional
optional-Splits m s h = or_else-Splits s (m s) (some ([], s)) h refl

pub one-Splits : (p : ℕ → Bool) (s : Text) → Splits s (one p s)
unfolding one
one-Splits p [] = tt
one-Splits p (c ∷ s) = ground arith

pub many-Splits : (p : ℕ → Bool) (s : Text) → Splits s (many p s)
unfolding many
many-Splits p s = take_while-append-drop_while p s

pub one_many-Splits : (p q : ℕ → Bool) (s : Text) → Splits s (one_many p q s)
unfolding one_many
one_many-Splits p q s = then_match-Splits s (one p s) (many q) (one-Splits p s) (many-Splits q)

pub one-Advances : (p : ℕ → Bool) (s : Text) → Advances (one p s)
unfolding one
one-Advances p [] = tt
one-Advances p (c ∷ s) = ground arith

-- A sequence that begins with a character advances.
pub then_match-Advances : (m : Match) (k : Text → Match) → Advances m → Advances (then_match m k)
unfolding then_match prepend
then_match-Advances m k h = ground arith
