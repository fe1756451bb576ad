-- ===== src/Render/Reader.antt =====
-- How Nginx and systemd read a quoted argument, and that they read back what was quoted.
use lcl_fastapi.Prelude.{
  ℕ, Text, codes, false, Option, none, some, [], ◌∷◌, ◌++◌, ◌≡◌, ◌≢◌, refl, ap, ◌∙◌, arith, ◌==◌,
  if◌then◌else◌, contains, append_assoc, Bool-cases, inl, inr,
}
use lcl_fastapi.Render.Validation.{ok}
use lcl_fastapi.Render.Quote.{
  replace, in_quotes, escape_nginx, nginx_quote, escape_systemd, systemd_quote,
}

-- The argument and what follows its closing quotation mark; `none` if it is not a plain text.
abbrev pub Read : Type 0
Read = Option (Text × Text)

abbrev push : ℕ → Read → Read
push c none = none
push c (some (t, rest)) = some (c ∷ t, rest)

-- ngx_conf_read_token: in quotes, a backslash before a quotation mark or a backslash is dropped.
nginx_escape : ℕ → Read → Read
nginx_escape c later = if c == b'"' then push c later else if c == b'\\' then push c later else none

unfoldable pub nginx_body : Text → Read
unfolding nginx_escape
nginx_body [] = none
nginx_body (c ∷ []) = if c == b'"' then some ([], []) else none
nginx_body (c ∷ d ∷ s) =
    let plain = push c (nginx_body (d ∷ s)) in
    let escaped = nginx_escape d (nginx_body s) in
    if c == b'"'
    then some ([], d ∷ s)
    else if c == b'\\'
    then escaped
    else if c == b'$'
    then none
    else plain

unfoldable pub read_nginx : Text → Read
unfolding nginx_body
read_nginx [] = none
read_nginx (c ∷ s) = if c == b'"' then nginx_body s else none

-- systemd.service, "Quoting" and "Command lines": a backslash escapes; `%%` and `$$` stand for one
-- character, and a single `%` or `$` begins an expansion.
systemd_pair : ℕ → ℕ → Read → Read
systemd_pair c d later =
    if c == b'\\'
    then (if d == b'"' then push d later else if d == b'\\' then push d later else none)
    else if d == c
    then push d later
    else none

unfoldable pub systemd_body : Text → Read
unfolding systemd_pair contains
systemd_body [] = none
systemd_body (c ∷ []) = if c == b'"' then some ([], []) else none
systemd_body (c ∷ d ∷ s) =
    let plain = push c (systemd_body (d ∷ s)) in
    let pair = systemd_pair c d (systemd_body s) in
    if c == b'"' then some ([], d ∷ s) else if contains (codes "\\%$") c then pair else plain

unfoldable pub read_systemd : Text → Read
unfolding systemd_body
read_systemd [] = none
read_systemd (c ∷ s) = if c == b'"' then systemd_body s else none

-- The escape of one character.
abbrev nginx_char : ℕ → Text
nginx_char c = if c == b'\\' then codes "\\\\" else if c == b'"' then codes "\\\"" else c ∷ []

escape_nginx-cons : (c : ℕ) (s : Text) → escape_nginx (c ∷ s) ≡ nginx_char c ++ escape_nginx s
unfolding escape_nginx replace
escape_nginx-cons c s = elim (Bool-cases (c == b'\\')) [
  | inl e ↦ rw e refl
  | inr e ↦ elim (Bool-cases (c == b'"')) [ inl q ↦ rw (e, q) refl | inr q ↦ rw (e, q) refl ]
]

abbrev systemd_char : ℕ → Text
systemd_char c =
    if c == b'\\'
    then codes "\\\\"
    else if c == b'"'
    then codes "\\\""
    else if c == b'%'
    then codes "%%"
    else if c == b'$'
    then codes "$$"
    else c ∷ []

escape_systemd-cons :
    (c : ℕ) (s : Text) → escape_systemd (c ∷ s) ≡ systemd_char c ++ escape_systemd s
unfolding escape_systemd replace
escape_systemd-cons c s = elim (Bool-cases (c == b'\\')) [
  | inl e ↦ rw e refl
  | inr e ↦ elim (Bool-cases (c == b'"')) [
    | inl q ↦ rw (e, q) refl
    | inr q ↦ elim (Bool-cases (c == b'%')) [
      | inl r ↦ rw (e, q, r) refl
      | inr r ↦ elim (Bool-cases (c == b'$')) [
        | inl d ↦ rw (e, q, r, d) refl
        | inr d ↦ rw (e, q, r, d) refl
      ]
    ]
  ]
]

-- What a closing quotation mark and more follow is not empty.
append-ne-nil : (s t : Text) (c : ℕ) → s ++ c ∷ t ≢ []
append-ne-nil [] t c = λ e. cc
append-ne-nil (d ∷ s) t c = λ e. cc

nginx_body-char :
    (c : ℕ) (later : Text)
    → later ≢ []
    → (c == b'$') ≡ false
    → nginx_body (nginx_char c ++ later) ≡ push c (nginx_body later)
unfolding nginx_body
nginx_body-char c [] ne h = absurd (ne refl)
nginx_body-char c (d ∷ s) ne h = ground arith

systemd_body-char :
    (c : ℕ) (later : Text)
    → later ≢ []
    → systemd_body (systemd_char c ++ later) ≡ push c (systemd_body later)
unfolding systemd_body
systemd_body-char c [] ne = absurd (ne refl)
systemd_body-char c (d ∷ s) ne = ground arith

nginx_close : (rest : Text) → nginx_body (b'"' ∷ rest) ≡ some ([], rest)
unfolding nginx_body
nginx_close [] = refl
nginx_close (c ∷ rest) = refl

systemd_close : (rest : Text) → systemd_body (b'"' ∷ rest) ≡ some ([], rest)
unfolding systemd_body
systemd_close [] = refl
systemd_close (c ∷ rest) = refl

nginx_body-escape :
    (s rest : Text)
    → contains s b'$' ≡ false
    → nginx_body (escape_nginx s ++ b'"' ∷ rest) ≡ some (s, rest)
nginx_body-escape [] rest h = unfold escape_nginx replace in nginx_close rest
nginx_body-escape (c ∷ s) rest h =
    let (h0, h1) = no_dollar c s h in
    rw (escape_nginx-cons c s, append_assoc (nginx_char c) (escape_nginx s) (b'"' ∷ rest))
      (nginx_body-char c (escape_nginx s ++ b'"' ∷ rest) (append-ne-nil (escape_nginx s) rest b'"')
          h0
        ∙ ap (push c) (nginx_body-escape s rest h1))
  where
    no_dollar :
        (c : ℕ) (s : Text)
        → contains (c ∷ s) b'$' ≡ false
        → ((c == b'$') ≡ false) × (contains s b'$' ≡ false)
    no_dollar c s h = unfold contains in ground arith

systemd_body-escape :
    (s rest : Text) → systemd_body (escape_systemd s ++ b'"' ∷ rest) ≡ some (s, rest)
systemd_body-escape [] rest = unfold escape_systemd replace in systemd_close rest
systemd_body-escape (c ∷ s) rest =
    rw (escape_systemd-cons c s, append_assoc (systemd_char c) (escape_systemd s) (b'"' ∷ rest))
      (systemd_body-char c (escape_systemd s ++ b'"' ∷ rest)
          (append-ne-nil (escape_systemd s) rest b'"')
        ∙ ap (push c) (systemd_body-escape s rest))

pub nginx_quote-eq-ok :
    (value quoted : Text)
    → nginx_quote value ≡ ok quoted
    → (contains value b'$' ≡ false) × (quoted ≡ in_quotes (escape_nginx value))
unfolding nginx_quote
nginx_quote-eq-ok value quoted h = ground arith

-- Nginx reads the argument that `nginx_quote` writes as the text that was quoted, and goes on behind
-- it, whatever the text holds and whatever follows.
pub read_nginx-nginx_quote :
    (value quoted rest : Text)
    → nginx_quote value ≡ ok quoted
    → read_nginx (quoted ++ rest) ≡ some (value, rest)
read_nginx-nginx_quote value quoted rest h =
    let (plain, e) = nginx_quote-eq-ok value quoted h in
    rw e (
      unfold read_nginx in
      rw (append_assoc (escape_nginx value) (b'"' ∷ []) rest) (nginx_body-escape value rest plain))

-- systemd reads the argument that `systemd_quote` writes as the text that was quoted, with no
-- specifier or variable expanded, and goes on behind it.
pub read_systemd-systemd_quote :
    (value rest : Text) → read_systemd (systemd_quote value ++ rest) ≡ some (value, rest)
read_systemd-systemd_quote value rest =
    unfold read_systemd systemd_quote in
    rw (append_assoc (escape_systemd value) (b'"' ∷ []) rest) (systemd_body-escape value rest)
