-- ===== src/Render/Quote.antt =====
-- `nginx_quote` of src/lcl_fastapi/render/nginx.py and `systemd_quote` of
-- src/lcl_fastapi/render/systemd.py.
use lcl_fastapi.Prelude.{ℕ, Text, codes, [], ◌∷◌, ◌++◌, ◌==◌, if◌then◌else◌, contains}
use lcl_fastapi.Render.Validation.{Checked, ok, value_error}

-- value.replace(c, by), for one character `c`
unfoldable pub replace : ℕ → Text → Text → Text
replace c by [] = []
replace c by (d ∷ s) = (if d == c then by else d ∷ []) ++ replace c by s

abbrev pub in_quotes : Text → Text
in_quotes s = b'"' ∷ (s ++ b'"' ∷ [])

unfoldable pub escape_nginx : Text → Text
escape_nginx value = replace b'"' (codes "\\\"") (replace b'\\' (codes "\\\\") value)

unfoldable pub nginx_quote : Text → Checked Text
nginx_quote value = if contains value b'$' then value_error else ok (in_quotes (escape_nginx value))

unfoldable pub escape_systemd : Text → Text
escape_systemd value =
    replace b'$' (codes "$$")
      (replace b'%' (codes "%%") (replace b'"' (codes "\\\"") (replace b'\\' (codes "\\\\") value)))

unfoldable pub systemd_quote : Text → Text
systemd_quote value = in_quotes (escape_systemd value)
