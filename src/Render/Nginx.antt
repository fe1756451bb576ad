-- ===== src/Render/Nginx.antt =====
-- `NginxSettings` and `render_nginx` of src/lcl_fastapi/render/nginx.py.
use lcl_fastapi.Prelude.{
  decimal, join_lines, ℕ, ◌≤◌, some, Text, codes, Bool, true, ◌||◌, ◌&&◌, List, [], ◌∷◌, ◌++◌, ◌≡◌,
  length, ◌==◌, all,
}
use lcl_fastapi.Render.Validation.{
  ConfigValue, text, integer, Checked, ok, ◌>>=◌, ◌>>◌, require, text_value, integer_value,
  absolute_path, is_nonempty, is_word,
}
use lcl_fastapi.Render.Quote.{nginx_quote}
use lcl_fastapi.Render.Reader.{read_nginx}
use lcl_fastapi.Render.Directives.{values, block}
use lcl_fastapi.Render.Lines.{split_lines}

pub record NginxSettings : Type 0 where
  pub server_name : ConfigValue
  pub listen_port : ConfigValue
  pub service_port : ConfigValue
  pub certificate : ConfigValue
  pub certificate_key : ConfigValue

-- [A-Za-z0-9_.*-]+
unfoldable pub is_server_name : Text → Bool
is_server_name t = is_nonempty t && all (λ c. is_word c || c == b'.' || c == b'*' || c == b'-') t

-- The lines of the server block, with the checked name, ports and quoted paths.
abbrev pub nginx_lines : Text → ℕ → ℕ → Text → Text → List Text
nginx_lines name listen port certificate key =
    codes "server {"
    ∷ (codes "    listen " ++ (decimal listen ++ codes " ssl;"))
    ∷ (codes "    server_name " ++ (name ++ codes ";"))
    ∷ (codes "    ssl_certificate " ++ (certificate ++ codes ";"))
    ∷ (codes "    ssl_certificate_key " ++ (key ++ codes ";"))
    ∷ []
    ∷ codes "    location = /_lcl/shutdown { return 404; }"
    ∷ codes "    location = /_lcl/logging/verbose { return 404; }"
    ∷ []
    ∷ codes "    location / {"
    ∷ (codes "        proxy_pass http://127.0.0.1:" ++ (decimal port ++ codes ";"))
    ∷ codes "        proxy_http_version 1.1;"
    ∷ codes "        proxy_set_header Host              $host;"
    ∷ codes "        proxy_set_header X-Real-IP         $remote_addr;"
    ∷ codes "        proxy_set_header X-Forwarded-For   $proxy_add_x_forwarded_for;"
    ∷ codes "        proxy_set_header X-Forwarded-Proto $scheme;"
    ∷ codes "        proxy_set_header X-Forwarded-Host  $host;"
    ∷ codes "        proxy_set_header Connection \"\";"
    ∷ codes "    }"
    ∷ codes "}"
    ∷ []
    ∷ []

unfoldable pub quoted_path : ConfigValue → Checked Text
quoted_path v = do path ← absolute_path v; nginx_quote path

unfoldable pub render_nginx : NginxSettings → Checked Text
render_nginx s = do
  name ← text_value s.server_name
  require (is_server_name name)
  listen ← integer_value s.listen_port 1 65535
  port ← integer_value s.service_port 1 65535
  certificate ← quoted_path s.certificate
  key ← quoted_path s.certificate_key
  ok (join_lines (nginx_lines name listen port certificate key))

-- The lines of the server block, and those of its location for all other requests.
abbrev pub server : List Text → List Text
server ls = block (codes "server {") (codes "}") ls

abbrev pub proxied : List Text → List Text
proxied ls = block (codes "    location / {") (codes "    }") (server ls)

-- What a reader finds in the lines of a server block: its directives with their values, each as
-- often as it stands there, and the directives of the location that passes requests on.
pub record NginxServer (name : Text) (listen port : ℕ) (certificate key : Text) (ls : List Text)
    : Type 0 where
  pub blocks : values (codes "server ") ls ≡ codes "{" ∷ []
  pub listens : values (codes "listen ") (server ls) ≡ (decimal listen ++ codes " ssl;") ∷ []
  pub names : values (codes "server_name ") (server ls) ≡ (name ++ codes ";") ∷ []
  pub certificates : values (codes "ssl_certificate ") (server ls) ≡ (certificate ++ codes ";") ∷ []
  pub keys : values (codes "ssl_certificate_key ") (server ls) ≡ (key ++ codes ";") ∷ []
  pub locations :
      values (codes "location ") (server ls)
      ≡ codes "= /_lcl/shutdown { return 404; }"
        ∷ codes "= /_lcl/logging/verbose { return 404; }"
        ∷ codes "/ {"
        ∷ []
  pub passes :
      values (codes "proxy_pass ") (proxied ls)
      ≡ (codes "http://127.0.0.1:" ++ (decimal port ++ codes ";")) ∷ []
  pub version : values (codes "proxy_http_version ") (proxied ls) ≡ codes "1.1;" ∷ []
  pub headers :
      values (codes "proxy_set_header ") (proxied ls)
      ≡ codes "Host              $host;"
        ∷ codes "X-Real-IP         $remote_addr;"
        ∷ codes "X-Forwarded-For   $proxy_add_x_forwarded_for;"
        ∷ codes "X-Forwarded-Proto $scheme;"
        ∷ codes "X-Forwarded-Host  $host;"
        ∷ codes "Connection \"\";"
        ∷ []
  pub inside : length (proxied ls) ≡ 8
  pub size : length ls ≡ 21

-- What a rendered server block holds.
pub record NginxFile (s : NginxSettings) (out : Text) : Type 0 where
  pub name : Text
  pub listen : ℕ
  pub port : ℕ
  pub certificate : Text
  pub key : Text
  pub quoted_certificate : Text
  pub quoted_key : Text
  pub name_checked : (s.server_name ≡ text name) × (is_server_name name ≡ true)
  pub listen_checked : (s.listen_port ≡ integer listen) × (1 ≤ listen) × (listen ≤ 65535)
  pub port_checked : (s.service_port ≡ integer port) × (1 ≤ port) × (port ≤ 65535)
  pub certificate_checked :
      (absolute_path s.certificate ≡ ok certificate)
      × (read_nginx (quoted_certificate ++ codes ";") ≡ some (certificate, codes ";"))
  pub key_checked :
      (absolute_path s.certificate_key ≡ ok key)
      × (read_nginx (quoted_key ++ codes ";") ≡ some (key, codes ";"))
  pub read : NginxServer name listen port quoted_certificate quoted_key (split_lines out)
