-- ===== src/Render/Systemd.antt =====
-- `SystemdSettings` and `render_systemd` of src/lcl_fastapi/render/systemd.py. A restart policy that
-- is not a text is a ValueError here, where a list or a map is a TypeError of the set test.
pub mod Ends
pub mod Reading
pub mod Unit
use lcl_fastapi.Prelude.{
  decimal, join_lines, ℕ, ◌≤◌, Text, codes, Bool, false, ◌||◌, ◌&&◌, not, List, [], ◌∷◌, ◌++◌, ◌≡◌,
  ◌==◌, if◌then◌else◌, within, drop_while, same_text, member,
}
use lcl_fastapi.Render.Validation.{
  ConfigValue, text, Checked, ok, value_error, ◌>>=◌, ◌>>◌, require, text_value, integer_value,
  absolute_path, identifier,
}
use lcl_fastapi.Render.Quote.{replace, systemd_quote}

pub record SystemdSettings : Type 0 where
  pub service_name : ConfigValue
  pub description : ConfigValue
  pub user : ConfigValue
  pub group : ConfigValue
  pub working_directory : ConfigValue
  pub config_path : ConfigValue
  pub restart : ConfigValue
  pub restart_seconds : ConfigValue

abbrev pub restart_policies : List Text
restart_policies =
    codes "no"
    ∷ codes "always"
    ∷ codes "on-success"
    ∷ codes "on-failure"
    ∷ codes "on-abnormal"
    ∷ codes "on-watchdog"
    ∷ codes "on-abort"
    ∷ []

-- str.isspace, for one character
abbrev pub is_blank : ℕ → Bool
is_blank c =
    within 9 13 c
    || within 28 32 c
    || c == 133
    || c == 160
    || c == 5760
    || within 8192 8202 c
    || c == 8232
    || c == 8233
    || c == 8239
    || c == 8287
    || c == 12288

unfoldable keep : (ℕ → Bool) → ℕ → Text → Text
keep p c [] = if p c then [] else c ∷ []
keep p c (d ∷ rest) = c ∷ d ∷ rest

-- str.rstrip
unfoldable pub rstrip : (ℕ → Bool) → Text → Text
unfolding keep
rstrip p [] = []
rstrip p (c ∷ t) = keep p c (rstrip p t)

abbrev pub strip : (ℕ → Bool) → Text → Text
strip p t = rstrip p (drop_while p t)

abbrev pub ends_in : ℕ → Text → Bool
ends_in c [] = false
ends_in c (d ∷ []) = d == c
ends_in c (d ∷ e ∷ t) = ends_in c (e ∷ t)

-- directory != directory.strip() or directory.endswith("\\")
unfoldable pub is_trimmed : Text → Bool
is_trimmed d = same_text d (strip is_blank d) && not (ends_in b'\\' d)

unfoldable pub restart_policy : ConfigValue → Checked Text
restart_policy (text t) = if member restart_policies t then ok t else value_error
restart_policy _ = value_error

abbrev pub executable : Text → Text
executable directory = rstrip (λ c. c == b'/') directory ++ codes "/.venv/bin/lcl-fastapi"

-- The lines of the unit, with the checked settings.
abbrev pub systemd_lines : Text → Text → Text → Text → Text → Text → Text → ℕ → List Text
systemd_lines name description user group directory config restart delay =
    (codes "# " ++ (name ++ codes ".service"))
    ∷ codes "[Unit]"
    ∷ (codes "Description=" ++ replace b'%' (codes "%%") description)
    ∷ codes "After=network.target"
    ∷ []
    ∷ codes "[Service]"
    ∷ codes "Type=simple"
    ∷ (codes "User=" ++ user)
    ∷ (codes "Group=" ++ group)
    ∷ (codes "WorkingDirectory=" ++ replace b'%' (codes "%%") directory)
    ∷ (codes "ExecStart="
        ++ (systemd_quote (executable directory)
            ++ (codes " serve -o config " ++ systemd_quote config)))
    ∷ (codes "Restart=" ++ restart)
    ∷ (codes "RestartSec=" ++ decimal delay)
    ∷ codes "KillMode=mixed"
    ∷ []
    ∷ codes "[Install]"
    ∷ codes "WantedBy=multi-user.target"
    ∷ []
    ∷ []

unfoldable pub render_systemd : SystemdSettings → Checked Text
render_systemd s = do
  name ← identifier s.service_name
  description ← text_value s.description
  user ← identifier s.user
  group ← identifier s.group
  directory ← absolute_path s.working_directory
  require (is_trimmed directory)
  config ← absolute_path s.config_path
  restart ← restart_policy s.restart
  delay ← integer_value s.restart_seconds 0 86400
  ok (join_lines (systemd_lines name description user group directory config restart delay))
