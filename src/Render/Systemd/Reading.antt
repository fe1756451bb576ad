-- ===== src/Render/Systemd/Reading.antt =====
-- What systemd reads in the lines of `render_systemd` in src/lcl_fastapi/render/systemd.py.
use lcl_fastapi.Prelude.{
  decimal, ℕ, some, Text, codes, List, [], ◌∷◌, ◌++◌, ◌≡◌, refl, sym, ap, ◌∙◌, length, drop_while,
  same_text, append-nil,
}
use lcl_fastapi.Render.Quote.{replace, systemd_quote}
use lcl_fastapi.Render.Reader.{read_systemd, read_systemd-systemd_quote}
use lcl_fastapi.Render.Directives.{
  values, after, lines_after, lines_before, section, percent, percent-replace,
}
use lcl_fastapi.Render.Systemd.{executable, systemd_lines}

abbrev service : List Text → List Text
service ls = section (codes "[Service]") ls

-- What systemd finds in the lines of a unit: the sections, and in each its entries with their values,
-- each as often as it stands there.
pub record SystemdUnit (description user group directory config restart : Text) (delay : ℕ)
    (ls : List Text) : Type 0 where
  pub sections : values (codes "[") ls ≡ codes "Unit]" ∷ codes "Service]" ∷ codes "Install]" ∷ []
  pub description_read :
      (v : Text) × (values (codes "Description=") (section (codes "[Unit]") ls) ≡ v ∷ [])
      × (percent v ≡ some description)
  pub after_network :
      values (codes "After=") (section (codes "[Unit]") ls) ≡ codes "network.target" ∷ []
  pub types : values (codes "Type=") (service ls) ≡ codes "simple" ∷ []
  pub users : values (codes "User=") (service ls) ≡ user ∷ []
  pub groups : values (codes "Group=") (service ls) ≡ group ∷ []
  pub directory_read :
      (v : Text) × (values (codes "WorkingDirectory=") (service ls) ≡ v ∷ [])
      × (percent v ≡ some directory)
  pub command_read :
      (v : Text) × (w : Text) × (values (codes "ExecStart=") (service ls) ≡ v ∷ [])
      × (read_systemd v ≡ some (executable directory, codes " serve -o config " ++ w))
      × (read_systemd w ≡ some (config, []))
  pub restarts : values (codes "Restart=") (service ls) ≡ restart ∷ []
  pub delays : values (codes "RestartSec=") (service ls) ≡ decimal delay ∷ []
  pub kill_modes : values (codes "KillMode=") (service ls) ≡ codes "mixed" ∷ []
  pub wanted_by :
      values (codes "WantedBy=") (section (codes "[Install]") ls) ≡ codes "multi-user.target" ∷ []
  pub size : length ls ≡ 18

pub systemd_lines-SystemdUnit :
    (name description user group directory config restart : Text) (delay : ℕ)
    → SystemdUnit description user group directory config restart delay
        (systemd_lines name description user group directory config restart delay)
unfolding values after lines_after lines_before drop_while same_text
systemd_lines-SystemdUnit name description user group directory config restart delay = record {
  sections = refl;
  description_read = (replace b'%' (codes "%%") description, refl, percent-replace description);
  after_network = refl;
  types = refl;
  users = refl;
  groups = refl;
  directory_read = (replace b'%' (codes "%%") directory, refl, percent-replace directory);
  command_read = (
    systemd_quote (executable directory) ++ (codes " serve -o config " ++ systemd_quote config),
    systemd_quote config,
    refl,
    read_systemd-systemd_quote (executable directory)
        (codes " serve -o config " ++ systemd_quote config),
    ap read_systemd (sym (append-nil (systemd_quote config)))
        ∙ read_systemd-systemd_quote config [],
  );
  restarts = refl;
  delays = refl;
  kill_modes = refl;
  wanted_by = refl;
  size = refl;
}
