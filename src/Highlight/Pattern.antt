-- ===== src/Highlight/Pattern.antt =====
-- The pattern of lcl-highlight.js but for its `string` group, and the choice between the groups.
pub mod Takes
use lcl_fastapi.Prelude
use lcl_fastapi.Prelude.{
  ℕ, Text, codes, Bool, ◌&&◌, ◌||◌, Option, none, some, List, [], ◌∷◌, ◌++◌, ◌≡◌, refl, ap, arith,
  ◌==◌, if◌then◌else◌, within, contains, member, map, not,
}
use lcl_fastapi.Highlight.Token.{
  Kind, space, comment, string, number, name, operator, punctuation, text, keyword, Token, keywords,
}
use lcl_fastapi.Highlight.Match.{
  Match, ◌or_else◌, prepend, then_match, optional, one, many, one_many, some_of, Splits, Advances,
  or_else-Splits, or_else-Advances, then_match-Splits, then_match-Advances, optional-Splits,
  one-Splits, one-Advances, many-Splits, one_many-Splits,
}
use lcl_fastapi.Highlight.Strings.{string_literal, string_literal-Splits, string_literal-Advances}

-- The Unicode properties that the pattern names, from the engine's tables.
pub record CharTables : Type 0 where
  pub id_start : ℕ → Bool
  pub id_continue : ℕ → Bool

-- \s
unfoldable pub is_space : ℕ → Bool
is_space c =
    within 9 13 c
    || c == 32
    || c == 0xa0
    || c == 0x1680
    || within 0x2000 0x200a c
    || c == 0x2028
    || c == 0x2029
    || c == 0x202f
    || c == 0x205f
    || c == 0x3000
    || c == 0xfeff

abbrev is_digit : ℕ → Bool
is_digit = within b'0' b'9'

abbrev is_digits : ℕ → Bool
is_digits c = is_digit c || c == b'_'

abbrev is_hex : ℕ → Bool
is_hex c = is_digits c || within b'a' b'f' c || within b'A' b'F' c

abbrev is_char : ℕ → ℕ → Bool
is_char d c = c == d

whitespace : Text → Match
whitespace = some_of is_space

-- #[^\r\n]*
abbrev in_line : ℕ → Bool
in_line c = not (c == b'\r' || c == b'\n')

line_comment : Text → Match
line_comment = one_many (is_char b'#') in_line

-- 0[xX][\da-fA-F_]+ and its like: the marks, and the digits behind them.
radix : Text → (ℕ → Bool) → Text → Match
radix marks p s =
    then_match (one (is_char b'0') s) λ r. then_match (one (contains marks) r) (some_of p)

-- \.[\d_]*
fraction : Text → Match
fraction = one_many (is_char b'.') is_digits

-- \d[\d_]*(?:\.[\d_]*)?
whole : Text → Match
whole s = then_match (one_many is_digit is_digits s) (optional fraction)

-- \.\d[\d_]*
point : Text → Match
point s = then_match (one (is_char b'.') s) (one_many is_digit is_digits)

-- [eE][+-]?[\d_]+; with a sign that no digit follows, the sign cannot be given up either.
exponent : Text → Match
exponent s =
    then_match (one (contains (codes "eE")) s)
      λ r. then_match (optional (one (contains (codes "+-"))) r) (some_of is_digits)

decimal : Text → Match
decimal s = then_match (whole s or_else point s) (optional exponent)

numeral : Text → Match
numeral s =
    radix (codes "xX") is_hex s
    or_else (radix (codes "bB") (contains (codes "01_")) s
        or_else (radix (codes "oO") (contains (codes "01234567_")) s or_else decimal s))

-- \*\*|\/\/|<<|>>|<=|>=|==|!=|\?\.|\?\?|->
operator_pairs : List Text
operator_pairs =
    map codes ("**" ∷ "//" ∷ "<<" ∷ ">>" ∷ "<=" ∷ ">=" ∷ "==" ∷ "!=" ∷ "?." ∷ "??" ∷ "->" ∷ [])

pair_of : List Text → Text → Match
pair_of ps (c ∷ d ∷ s) = if member ps (c ∷ d ∷ []) then some (c ∷ d ∷ [], s) else none
pair_of ps _ = none

operator_sign : Text → Match
operator_sign s = pair_of operator_pairs s or_else one (contains (codes "+-*/%@&|^~<>=")) s

punctuation_sign : Text → Match
punctuation_sign = one (contains (codes "()[]{},.:"))

-- [\s\S]
anything : Text → Match
anything = one (λ c. Bool.true)

-- What a group took, with the group's name, and the text left.
abbrev pub Found : Type 0
Found = Option (Token × Text)

abbrev tag : Kind → Match → Found
tag k none = none
tag k (some (t, r)) = some (record { kind = k; content = t }, r)

infixr 20 ◌or_found◌
abbrev ◌or_found◌ : Found → Found → Found
none or_found n = n
(some m) or_found n = some m

-- if (kind === "name" && keywords.has(match[0])) kind = "keyword"
name_kind : Text → Kind
name_kind t = if member keywords t then keyword else name

tag_name : Match → Found
tag_name none = none
tag_name (some (t, r)) = some (record { kind = name_kind t; content = t }, r)

module _ (u : CharTables) where
  -- [_\p{ID_Start}][_\p{ID_Continue}]*
  identifier : Text → Match
  identifier = one_many (λ c. c == b'_' || u.id_start c) (λ c. c == b'_' || u.id_continue c)

  -- One step of `pattern.exec` at the input left: the first group that matches.
  unfoldable pub next_token : Text → Found
  unfolding whitespace is_space line_comment string_literal numeral radix decimal whole point
      fraction exponent identifier operator_sign operator_pairs pair_of punctuation_sign anything
      tag_name name_kind one_many some_of one many then_match prepend optional contains member
      keywords Prelude.take_while Prelude.drop_while
  next_token s =
      tag space (whitespace s)
      or_found (tag comment (line_comment s)
          or_found (tag string (string_literal s)
              or_found (tag number (numeral s)
                  or_found (tag_name (identifier s)
                      or_found (tag operator (operator_sign s)
                          or_found (tag punctuation (punctuation_sign s)
                              or_found (tag text (anything s))))))))
