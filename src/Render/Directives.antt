-- ===== src/Render/Directives.antt =====
-- How a reader of a configuration file finds what it says, stated apart from the renderers of
-- src/lcl_fastapi/render/nginx.py and src/lcl_fastapi/render/systemd.py.
use lcl_fastapi.Render.Quote.{replace}
use lcl_fastapi.Prelude.{
  ℕ, Text, codes, Bool, true, false, not, ◌&&◌, Option, none, some, List, [], ◌∷◌, ◌++◌, ◌==◌, ◌≡◌,
  refl, if◌then◌else◌, drop_while, same_text, All, Bool-cases, inl, inr, ==_iff, sym, ap, ◌∙◌,
}

-- What follows a word at the beginning of a text.
unfoldable pub after : Text → Text → Option Text
after [] t = some t
after (c ∷ word) [] = none
after (c ∷ word) (d ∷ t) = let rest = after word t in if c == d then rest else none

in_front : Option Text → List Text → List Text
in_front none ts = ts
in_front (some t) ts = t ∷ ts

-- What follows a word on the lines that begin with it after their blanks, in order.
unfoldable pub values : Text → List Text → List Text
unfolding in_front
values word [] = []
values word (l ∷ ls) = in_front (after word (drop_while (λ c. c == b' ') l)) (values word ls)

-- The lines after one line, and the lines before the first of a kind.
unfoldable pub lines_after : Text → List Text → List Text
lines_after line [] = []
lines_after line (l ∷ ls) = let rest = lines_after line ls in if same_text l line then ls else rest

unfoldable pub lines_before : (Text → Bool) → List Text → List Text
lines_before p [] = []
lines_before p (l ∷ ls) = let rest = lines_before p ls in if p l then [] else l ∷ rest

-- The lines of a block from its first line to a closing line.
abbrev pub block : Text → Text → List Text → List Text
block opening closing ls = lines_before (λ l. same_text l closing) (lines_after opening ls)

-- The lines of a section of a unit, up to the next section.
abbrev pub section : Text → List Text → List Text
section name ls = lines_before begins_section (lines_after name ls)
  where
    begins_section : Text → Bool
    begins_section [] = false
    begins_section (c ∷ t) = c == b'['

-- Whether a backslash that no other one escapes ends the text, after one or not.
unfoldable pub ends_escaped : Bool → Text → Bool
ends_escaped escaped [] = escaped
ends_escaped escaped (c ∷ t) = ends_escaped (not escaped && c == b'\\') t

abbrev pub all_but_last : Text → Text
all_but_last [] = []
all_but_last (c ∷ []) = []
all_but_last (c ∷ d ∷ t) = c ∷ all_but_last (d ∷ t)

abbrev pub continued : Text → List Text → List Text
continued l [] = l ∷ []
continued l (m ∷ ms) = (all_but_last l ++ b' ' ∷ m) ∷ ms

-- A line of a unit that ends in such a backslash goes on in the next line, with a blank for the
-- backslash. Comments are taken as other lines: a rendered unit has one, in its first line.
unfoldable pub joined : List Text → List Text
joined [] = []
joined (l ∷ ls) =
    let rest = joined ls in if ends_escaped false l then continued l rest else l ∷ rest

pub joined-same : (ls : List Text) → All (λ l. ends_escaped false l ≡ false) ls → joined ls ≡ ls
unfolding joined
joined-same [] h = refl
joined-same (l ∷ ls) (h, hs) = rw (h, joined-same ls hs) refl

-- A line that goes on, with the lines below it that do not.
pub joined-third :
    (a b c : Text) (ls : List Text)
    → ends_escaped false a ≡ false
    → ends_escaped false b ≡ false
    → ends_escaped false c ≡ true
    → All (λ l. ends_escaped false l ≡ false) ls
    → joined (a ∷ b ∷ c ∷ ls) ≡ a ∷ b ∷ continued c ls
unfolding joined
joined-third a b c ls ha hb hc h = rw (ha, hb, hc, joined-same ls h) refl

plus : ℕ → Option Text → Option Text
plus c none = none
plus c (some t) = some (c ∷ t)

-- What a value of a unit says: a percent sign stands for itself only if it is doubled.
unfoldable pub percent : Text → Option Text
unfolding plus
percent [] = some []
percent (c ∷ []) = if c == b'%' then none else some (c ∷ [])
percent (c ∷ d ∷ t) =
    let rest = percent t in
    let later = percent (d ∷ t) in
    if c == b'%' then (if d == b'%' then plus b'%' rest else none) else plus c later

percent-plain : (c : ℕ) (t : Text) → (c == b'%') ≡ false → percent (c ∷ t) ≡ plus c (percent t)
unfolding percent plus
percent-plain c [] h = rw h
percent-plain c (d ∷ t) h = rw h

percent-pair : (t : Text) → percent (b'%' ∷ b'%' ∷ t) ≡ plus b'%' (percent t)
unfolding percent
percent-pair t = refl

pub percent-replace : (s : Text) → percent (replace b'%' (codes "%%") s) ≡ some s
unfolding replace plus
percent-replace [] = unfold percent in refl
percent-replace (c ∷ s) = elim (Bool-cases (c == b'%')) [
  | inl e ↦
      let same = (==_iff c b'%').0 e in
      rw e (
        percent-pair (replace b'%' (codes "%%") s)
        ∙ ap (plus b'%') (percent-replace s)
        ∙ ap (λ x. some (x ∷ s)) (sym same))
  | inr e ↦ rw e (percent-plain c (replace b'%' (codes "%%") s) e ∙ ap (plus c) (percent-replace s))
]

ends_escaped-pair :
    (escaped : Bool) (s t : Text)
    → ends_escaped false t ≡ ends_escaped false s
    → ends_escaped escaped (b'%' ∷ b'%' ∷ t) ≡ ends_escaped escaped (b'%' ∷ s)
unfolding ends_escaped
ends_escaped-pair true s t h = h
ends_escaped-pair false s t h = h

-- Doubling percent signs changes nothing about the end.
pub ends_escaped-replace :
    (escaped : Bool) (s : Text)
    → ends_escaped escaped (replace b'%' (codes "%%") s) ≡ ends_escaped escaped s
unfolding replace ends_escaped
ends_escaped-replace escaped [] = refl
ends_escaped-replace escaped (c ∷ s) = elim (Bool-cases (c == b'%')) [
  | inl e ↦
      let same = (==_iff c b'%').0 e in
      rw e (
        ends_escaped-pair escaped s (replace b'%' (codes "%%") s) (ends_escaped-replace false s)
        ∙ ap (λ x. ends_escaped escaped (x ∷ s)) (sym same))
  | inr e ↦ rw e (ends_escaped-replace (not escaped && c == b'\\') s)
]
