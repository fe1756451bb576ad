-- ===== src/Highlight/Pattern/Takes.antt =====
-- What a step of the pattern takes, for every group.
use lcl_fastapi.Prelude.{
  ℕ, Text, codes, Bool, true, false, none, some, List, [], ◌∷◌, ◌++◌, ◌≡◌, ◌≢◌, refl, arith,
  Bool-cases, inl, inr, member, all, take_while,
}
use lcl_fastapi.Highlight.Token.{
  Kind, space, comment, string, number, name, operator, punctuation, text, keyword, keywords,
}
use lcl_fastapi.Highlight.Match.{
  Match, ◌or_else◌, then_match, optional, one, many, one_many, some_of, Splits, Advances, prepend,
  or_else-Splits, or_else-Advances, then_match-Splits, then_match-Advances, optional-Splits,
  one-Splits, one-Advances, one_many-Splits,
}
use lcl_fastapi.Highlight.Strings.{string_literal, string_literal-Splits, string_literal-Advances}
use lcl_fastapi.Highlight.Pattern.{
  CharTables, is_space, is_digits, is_digit, is_hex, is_char, in_line, whitespace, line_comment,
  radix, fraction, whole, point, exponent, decimal, numeral, pair_of, operator_pairs, operator_sign,
  punctuation_sign, anything, Found, tag, ◌or_found◌, name_kind, tag_name, identifier, next_token,
}

abbrev is_name_kind : Kind → Bool
is_name_kind name = true
is_name_kind keyword = true
is_name_kind _ = false

-- A name is a keyword exactly when the set has it, and a comment ends at the line break.
abbrev pub KindFits : Kind → Text → Type 0
KindFits name t = member keywords t ≡ false
KindFits keyword t = member keywords t ≡ true
KindFits comment t = all in_line t ≡ true
KindFits _ t = Unit

-- A token is a nonempty beginning of the input, and its kind fits its text.
abbrev pub TakesToken : Text → Found → Type 0
TakesToken s none = Unit
TakesToken s (some (t, r)) = (t.content ++ r ≡ s) × (t.content ≢ []) × KindFits t.kind t.content

abbrev Fits : Kind → Match → Type 0
Fits k none = Unit
Fits k (some (t, r)) = KindFits k t

abbrev Takes : Text → Match → Type 0
Takes s m = Splits s m × Advances m

one_many-Takes : (p q : ℕ → Bool) (s : Text) → Takes s (one_many p q s)
one_many-Takes p q s = (
  one_many-Splits p q s,
  unfold one_many in then_match-Advances (one p s) (many q) (one-Advances p s),
)

one-Takes : (p : ℕ → Bool) (s : Text) → Takes s (one p s)
one-Takes p s = (one-Splits p s, one-Advances p s)

radix-Takes : (marks : Text) (p : ℕ → Bool) (s : Text) → Takes s (radix marks p s)
unfolding radix some_of
radix-Takes marks p s = (
  then_match-Splits s (one _ s) _ (one-Splits _ s)
      (λ r. then_match-Splits r (one _ r) _ (one-Splits _ r) (one_many-Splits p p)),
  then_match-Advances (one _ s) _ (one-Advances _ s),
)

whole-Takes : (s : Text) → Takes s (whole s)
unfolding whole fraction
whole-Takes s =
    let (sp, ad) = one_many-Takes is_digit is_digits s in
    (
      then_match-Splits s (one_many _ _ s) _ sp
          (λ r. optional-Splits fraction r (one_many-Splits _ _ r)),
      then_match-Advances (one_many _ _ s) _ ad,
    )

point-Takes : (s : Text) → Takes s (point s)
unfolding point
point-Takes s = (
  then_match-Splits s (one _ s) _ (one-Splits _ s) (one_many-Splits _ _),
  then_match-Advances (one _ s) _ (one-Advances _ s),
)

exponent-Splits : (s : Text) → Splits s (exponent s)
unfolding exponent some_of
exponent-Splits s = then_match-Splits s (one _ s) _ (one-Splits _ s) λ r.
    then_match-Splits r (optional _ r) _ (optional-Splits _ r (one-Splits _ r))
      (one_many-Splits _ _)

or_else-Takes : (s : Text) (m n : Match) → Takes s m → Takes s n → Takes s (m or_else n)
or_else-Takes s m n (hs, ha) (ks, ka) = (or_else-Splits s m n hs ks, or_else-Advances m n ha ka)

decimal-Takes : (s : Text) → Takes s (decimal s)
unfolding decimal
decimal-Takes s =
    let (sp, ad) = or_else-Takes s (whole s) (point s) (whole-Takes s) (point-Takes s) in
    (
      then_match-Splits s (whole s or_else point s) _ sp
          (λ r. optional-Splits exponent r (exponent-Splits r)),
      then_match-Advances (whole s or_else point s) _ ad,
    )

numeral-Takes : (s : Text) → Takes s (numeral s)
unfolding numeral
numeral-Takes s = or_else-Takes s _ _ (radix-Takes (codes "xX") is_hex s) (
    or_else-Takes s _ _ (radix-Takes (codes "bB") _ s)
      (or_else-Takes s _ (decimal s) (radix-Takes (codes "oO") _ s) (decimal-Takes s)))

pair_of-Takes : (ps : List Text) (s : Text) → Takes s (pair_of ps s)
unfolding pair_of
pair_of-Takes ps (c ∷ d ∷ s) = ground arith
pair_of-Takes ps _ = (tt, tt)

operator_sign-Takes : (s : Text) → Takes s (operator_sign s)
unfolding operator_sign
operator_sign-Takes s = or_else-Takes s _ _ (pair_of-Takes operator_pairs s) (one-Takes _ s)

or_found-TakesToken :
    (s : Text) (m n : Found) → TakesToken s m → TakesToken s n → TakesToken s (m or_found n)
or_found-TakesToken s none n hm hn = hn
or_found-TakesToken s (some m) n hm hn = hm

tag-TakesToken : (k : Kind) (s : Text) (m : Match) → Takes s m → Fits k m → TakesToken s (tag k m)
tag-TakesToken k s none h f = tt
tag-TakesToken k s (some (t, r)) h f = (h.0, h.1, f)

name_kind-KindFits : (t : Text) → KindFits (name_kind t) t
unfolding name_kind
name_kind-KindFits t = elim (Bool-cases (member keywords t)) [ inl e ↦ rw e e | inr e ↦ rw e e ]

tag_name-TakesToken : (s : Text) (m : Match) → Takes s m → TakesToken s (tag_name m)
unfolding tag_name
tag_name-TakesToken s none h = tt
tag_name-TakesToken s (some (t, r)) h = (h.0, h.1, name_kind-KindFits t)

all-take_while : (p : ℕ → Bool) (s : Text) → all p (take_while p s) ≡ true
unfolding all take_while
all-take_while p [] = refl
all-take_while p (c ∷ s) = ground (arith, all-take_while p s)

line_comment-Fits : (s : Text) → Fits comment (line_comment s)
unfolding line_comment one_many one many then_match prepend all
line_comment-Fits [] = tt
line_comment-Fits (c ∷ s) = ground (arith, all-take_while in_line s)

free-Fits : (k : Kind) (m : Match) → ((t : Text) → KindFits k t) → Fits k m
free-Fits k none h = tt
free-Fits k (some (t, r)) h = h t

whitespace-Takes : (s : Text) → Takes s (whitespace s)
unfolding whitespace some_of
whitespace-Takes s = one_many-Takes is_space is_space s

line_comment-Takes : (s : Text) → Takes s (line_comment s)
unfolding line_comment
line_comment-Takes s = one_many-Takes (is_char b'#') in_line s

punctuation_sign-Takes : (s : Text) → Takes s (punctuation_sign s)
unfolding punctuation_sign
punctuation_sign-Takes s = one-Takes _ s

anything-Takes : (s : Text) → Takes s (anything s)
unfolding anything
anything-Takes s = one-Takes _ s

module _ (u : CharTables) where
  identifier-Takes : (s : Text) → Takes s (identifier u s)
  unfolding identifier
  identifier-Takes s = one_many-Takes _ _ s

  pub next_token-TakesToken : (s : Text) → TakesToken s (next_token u s)
  unfolding next_token
  next_token-TakesToken s =
      or_found-TakesToken s (tag space (whitespace s)) _
        (tag-TakesToken space s (whitespace s) (whitespace-Takes s) (free-Fits space _ λ t. tt))
        (or_found-TakesToken s (tag comment (line_comment s)) _
          (tag-TakesToken comment s (line_comment s) (line_comment-Takes s) (line_comment-Fits s))
          (or_found-TakesToken s (tag string (string_literal s)) _
            (tag-TakesToken string s (string_literal s)
              (string_literal-Splits s, string_literal-Advances s) (free-Fits string _ λ t. tt))
            (or_found-TakesToken s (tag number (numeral s)) _
              (tag-TakesToken number s (numeral s) (numeral-Takes s) (free-Fits number _ λ t. tt))
              (or_found-TakesToken s (tag_name (identifier u s)) _
                (tag_name-TakesToken s (identifier u s) (identifier-Takes s))
                (or_found-TakesToken s (tag operator (operator_sign s)) _
                  (tag-TakesToken operator s (operator_sign s) (operator_sign-Takes s)
                    (free-Fits operator _ λ t. tt))
                  (or_found-TakesToken s (tag punctuation (punctuation_sign s)) _
                    (tag-TakesToken punctuation s (punctuation_sign s) (punctuation_sign-Takes s)
                      (free-Fits punctuation _ λ t. tt))
                    (tag-TakesToken text s (anything s) (anything-Takes s)
                      (free-Fits text _ λ t. tt))))))))

  or_found-ne-none : (m n : Found) → n ≢ none → m or_found n ≢ none
  or_found-ne-none none n h = h
  or_found-ne-none (some m) n h = λ e. cc

  -- `exec` finds a token at every place but the end of the input.
  pub next_token-ne-none : (c : ℕ) (s : Text) → next_token u (c ∷ s) ≢ none
  unfolding next_token
  next_token-ne-none c s = or_found-ne-none (tag space (whitespace (c ∷ s))) _ (
      or_found-ne-none (tag comment (line_comment (c ∷ s))) _ (
        or_found-ne-none (tag string (string_literal (c ∷ s))) _ (
          or_found-ne-none (tag number (numeral (c ∷ s))) _ (
            or_found-ne-none (tag_name (identifier u (c ∷ s))) _ (
              or_found-ne-none (tag operator (operator_sign (c ∷ s))) _
                (or_found-ne-none (tag punctuation (punctuation_sign (c ∷ s))) _ (λ e. cc)))))))

  pub next_token-nil : next_token u [] ≡ none
  unfolding next_token
  next_token-nil = refl
