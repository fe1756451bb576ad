-- ===== src/Render/Systemd/Ends.antt =====
-- How the lines of `render_systemd` in src/lcl_fastapi/render/systemd.py end.
use Prim.Native.Nat.{◌/◌, ◌%◌}
use lcl_fastapi.Prelude.{
  digits, decimal, ℕ, zero, suc, ◌+◌, Text, codes, Bool, true, false, not, ◌||◌, ◌&&◌, All, List,
  [], ◌∷◌, ◌++◌, ◌≡◌, refl, ap, ◌∙◌, arith, ◌==◌, ==_iff, ltb, all, Bool-cases, inl, inr,
}
use lcl_fastapi.Render.Validation.{ConfigValue, ok, is_word, is_identifier, identifier}
use lcl_fastapi.Render.Quote.{replace, in_quotes, escape_systemd, systemd_quote}
use lcl_fastapi.Render.Directives.{ends_escaped, ends_escaped-replace}
use lcl_fastapi.Render.Systemd.{ends_in, is_trimmed, executable, systemd_lines}

-- A text that ends in another sign than a backslash does not go on in the next line.
ends_escaped-other :
    (escaped : Bool) (c : ℕ) (t : Text)
    → ends_in b'\\' (c ∷ t) ≡ false
    → ends_escaped escaped (c ∷ t) ≡ false
unfolding ends_escaped
ends_escaped-other true c [] h = refl
ends_escaped-other false c [] h = h
ends_escaped-other escaped c (d ∷ t) h = ends_escaped-other (not escaped && c == b'\\') d t h

pub ends_escaped-not : (t : Text) → ends_in b'\\' t ≡ false → ends_escaped false t ≡ false
unfolding ends_escaped
ends_escaped-not [] h = refl
ends_escaped-not (c ∷ t) h = ends_escaped-other false c t h

pub ends_in-append :
    (s : Text) (c : ℕ) (t : Text)
    → ends_in b'\\' (c ∷ t) ≡ false
    → ends_in b'\\' (s ++ c ∷ t) ≡ false
ends_in-append [] c t h = h
ends_in-append (d ∷ []) c t h = h
ends_in-append (d ∷ e ∷ s) c t h = ends_in-append (e ∷ s) c t h

-- A key with its value ends as the value does.
pub ends_in-entry :
    (key value : Text)
    → ends_in b'\\' value ≡ false
    → ends_escaped false (key ++ b'=' ∷ value) ≡ false
ends_in-entry key [] h = ends_escaped-not _ (ends_in-append key b'=' [] refl)
ends_in-entry key (c ∷ t) h = ends_escaped-not _ (ends_in-append key b'=' (c ∷ t) h)

ends_in-all : (p : ℕ → Bool) (t : Text) → p b'\\' ≡ false → all p t ≡ true → ends_in b'\\' t ≡ false
unfolding all
ends_in-all p [] backslash h = refl
ends_in-all p (c ∷ []) backslash h = elim (Bool-cases (c == b'\\')) [
  | inl e ↦ let same = ap p ((==_iff c b'\\').0 e) in absurd (ground (arith, h, backslash, same))
  | inr e ↦ e
]
ends_in-all p (c ∷ d ∷ t) backslash h = ends_in-all p (d ∷ t) backslash (ground (arith, h))

abbrev in_identifier : ℕ → Bool
in_identifier d = is_word d || d == b'.' || d == b'-'

pub is_identifier-ends_in : (t : Text) → is_identifier t ≡ true → ends_in b'\\' t ≡ false
unfolding is_identifier all
is_identifier-ends_in (c ∷ t) h =
    ends_in-all in_identifier (c ∷ t) refl (unfold all in ground (arith, h))
is_identifier-ends_in [] h = refl

digits-ends_in :
    (f n : ℕ) (c : ℕ) (acc : Text)
    → ends_in b'\\' (c ∷ acc) ≡ false
    → ends_in b'\\' (digits f n (c ∷ acc)) ≡ false
unfolding digits
digits-ends_in zero n c acc h = h
digits-ends_in (suc f) n c acc h = elim (Bool-cases (ltb n 10)) [
  | inl e ↦ rw e h
  | inr e ↦ rw e (digits-ends_in f (n / 10) (b'0' + n % 10) (c ∷ acc) h)
]

pub decimal-ends_in : (n : ℕ) → ends_in b'\\' (decimal n) ≡ false
unfolding decimal digits
decimal-ends_in n =
    let digit : ends_in b'\\' ((b'0' + n % 10) ∷ []) ≡ false = ground arith in
    elim (Bool-cases (ltb n 10)) [
      | inl e ↦ rw e digit
      | inr e ↦ rw e (digits-ends_in n (n / 10) (b'0' + n % 10) [] digit)
    ]

quoted-ends_in : (s t : Text) → ends_in b'\\' (s ++ in_quotes t) ≡ false
quoted-ends_in s t = ends_in-append s b'"' (t ++ b'"' ∷ []) (ends_in-append (b'"' ∷ t) b'"' [] refl)

-- A command ends in a quotation mark.
pub command-ends_in :
    (s t : Text)
    → ends_in b'\\' (systemd_quote s ++ (codes " serve -o config " ++ systemd_quote t)) ≡ false
unfolding systemd_quote
command-ends_in s t =
    ends_in-append (in_quotes (escape_systemd s)) b' '
      (codes "serve -o config " ++ in_quotes (escape_systemd t))
      (quoted-ends_in (codes " serve -o config ") (escape_systemd t))

pub identifier-ends_in :
    (v : ConfigValue) {t : Text} → identifier v ≡ ok t → ends_in b'\\' t ≡ false
unfolding identifier
identifier-ends_in v {t} h = is_identifier-ends_in t (ground (arith, h))

-- The lines below the description.
abbrev pub below : List Text → List Text
below (a ∷ b ∷ c ∷ ls) = ls
below _ = []

pub description_line-ends :
    (d : Text)
    → ends_escaped false (codes "Description=" ++ replace b'%' (codes "%%") d)
      ≡ ends_escaped false d
unfolding ends_escaped
description_line-ends d = ends_escaped-replace false d

directory_line-ends :
    (d : Text)
    → is_trimmed d ≡ true
    → ends_escaped false (codes "WorkingDirectory=" ++ replace b'%' (codes "%%") d) ≡ false
unfolding ends_escaped is_trimmed
directory_line-ends d h = ends_escaped-replace false d ∙ ends_escaped-not d (ground (arith, h))

pub below_lines-same :
    (name description user group directory config restart : Text) (delay : ℕ)
    → ends_in b'\\' user ≡ false
    → ends_in b'\\' group ≡ false
    → is_trimmed directory ≡ true
    → ends_in b'\\' restart ≡ false
    → All
        (λ l. ends_escaped false l ≡ false)
        (below (systemd_lines name description user group directory config restart delay))
below_lines-same name description user group directory config restart delay hu hg hd hr = (
  here _ refl,
  (
    here _ refl,
    (
      here _ refl,
      (
        here _ refl,
        (
          ends_in-entry (codes "User") user hu,
          (
            ends_in-entry (codes "Group") group hg,
            (
              directory_line-ends directory hd,
              (
                ends_in-entry (codes "ExecStart") _ (command-ends_in (executable directory) config),
                (
                  ends_in-entry (codes "Restart") restart hr,
                  (
                    ends_in-entry (codes "RestartSec") (decimal delay) (decimal-ends_in delay),
                    (here _ refl, (here _ refl, (here _ refl, (here _ refl, (here _ refl, tt))))),
                  ),
                ),
              ),
            ),
          ),
        ),
      ),
    ),
  ),
)
  where
    here : (t : Text) → ends_in b'\\' t ≡ false → ends_escaped false t ≡ false
    here t h = ends_escaped-not t h
