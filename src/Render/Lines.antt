-- ===== src/Render/Lines.antt =====
-- Texts made of lines, and the decimal digits of a number.
use Prim.Native.Nat.{◌/◌, ◌%◌}
use lcl_fastapi.Prelude.{
  digits, decimal, join_lines, ℕ, zero, suc, ◌+◌, Text, codes, true, List, [], ◌∷◌, ◌++◌, ◌≡◌, refl,
  ap, ◌∙◌, arith, ◌==◌, if◌then◌else◌, all, all-append, All, Bool-cases, inl, inr,
}
use lcl_fastapi.Render.Validation.{is_printable}
use lcl_fastapi.Render.Quote.{replace, in_quotes, escape_nginx, escape_systemd, systemd_quote}

abbrev in_first : ℕ → List Text → List Text
in_first c [] = (c ∷ []) ∷ []
in_first c (l ∷ ls) = (c ∷ l) ∷ ls

-- The lines that a reader of the file finds.
unfoldable pub split_lines : Text → List Text
split_lines [] = [] ∷ []
split_lines (c ∷ s) = let rest = split_lines s in if c == b'\n' then [] ∷ rest else in_first c rest

abbrev pub IsLine : Text → Type 0
IsLine l = all is_printable l ≡ true

split_lines-append : (l s : Text) → IsLine l → split_lines (l ++ b'\n' ∷ s) ≡ l ∷ split_lines s
unfolding split_lines all
split_lines-append [] s h = refl
split_lines-append (c ∷ l) s h = ground (arith, split_lines-append l s)

split_lines_self : (l : Text) → IsLine l → split_lines l ≡ l ∷ []
unfolding split_lines all
split_lines_self [] h = refl
split_lines_self (c ∷ l) h = ground (arith, split_lines_self l)

-- Lines without control characters are read back one for one.
pub split_lines-join_lines :
    (l : Text) (ls : List Text) → All IsLine (l ∷ ls) → split_lines (join_lines (l ∷ ls)) ≡ l ∷ ls
unfolding join_lines
split_lines-join_lines l [] h = split_lines_self l h.0
split_lines-join_lines l (m ∷ ls) h =
    split_lines-append l (join_lines (m ∷ ls)) h.0
    ∙ ap (λ x. l ∷ x) (split_lines-join_lines m ls h.1)

digits-IsLine : (f n : ℕ) (acc : Text) → IsLine acc → IsLine (digits f n acc)
unfolding digits all
digits-IsLine zero n acc h = h
digits-IsLine (suc f) n acc h = ground (arith, digits-IsLine f (n / 10) ((b'0' + n % 10) ∷ acc), h)

pub decimal-IsLine : (n : ℕ) → IsLine (decimal n)
unfolding decimal
decimal-IsLine n = digits-IsLine (suc n) n [] (unfold all in refl)

IsLine-cons : (c : ℕ) (s : Text) → IsLine (c ∷ s) → (is_printable c ≡ true) × IsLine s
IsLine-cons c s h = unfold all in ground arith

cons-IsLine : (c : ℕ) (s : Text) → is_printable c ≡ true → IsLine s → IsLine (c ∷ s)
unfolding all
cons-IsLine c s hc hs = ground arith

-- Replacing and quoting keep a text on one line.
pub replace-IsLine : (c : ℕ) (by s : Text) → IsLine by → IsLine s → IsLine (replace c by s)
unfolding replace
replace-IsLine c by [] hb h = h
replace-IsLine c by (d ∷ s) hb h =
    let later = replace-IsLine c by s hb (IsLine-cons d s h).1 in
    elim (Bool-cases (d == c)) [
      | inl e ↦ rw e (all-append is_printable by (replace c by s) hb later)
      | inr e ↦ rw e (cons-IsLine d (replace c by s) (IsLine-cons d s h).0 later)
    ]

in_quotes-IsLine : (s : Text) → IsLine s → IsLine (in_quotes s)
unfolding all
in_quotes-IsLine s h = all-append is_printable s (b'"' ∷ []) h refl

pub quoted_nginx-IsLine : (s : Text) → IsLine s → IsLine (in_quotes (escape_nginx s))
unfolding escape_nginx all
quoted_nginx-IsLine s h =
    let s1 = replace b'\\' (codes "\\\\") s in
    let h1 = replace-IsLine b'\\' (codes "\\\\") s refl h in
    in_quotes-IsLine (escape_nginx s) (replace-IsLine b'"' (codes "\\\"") s1 refl h1)

pub systemd_quote-IsLine : (s : Text) → IsLine s → IsLine (systemd_quote s)
unfolding systemd_quote escape_systemd all
systemd_quote-IsLine s h =
    let s1 = replace b'\\' (codes "\\\\") s in
    let h1 = replace-IsLine b'\\' (codes "\\\\") s refl h in
    let s2 = replace b'"' (codes "\\\"") s1 in
    let h2 = replace-IsLine b'"' (codes "\\\"") s1 refl h1 in
    let s3 = replace b'%' (codes "%%") s2 in
    let h3 = replace-IsLine b'%' (codes "%%") s2 refl h2 in
    in_quotes-IsLine (escape_systemd s) (replace-IsLine b'$' (codes "$$") s3 refl h3)
