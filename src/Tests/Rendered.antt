-- ===== src/Tests/Rendered.antt =====
-- The rendered files at concrete inputs.
use lcl_fastapi.Prelude.{join_lines, Text, codes, [], ◌≡◌, refl, all, drop_while, same_text, member}
use lcl_fastapi.Render.Validation.{
  text, integer, ok, text_value, integer_value, absolute_path, is_absolute, is_identifier,
  identifier,
}
use lcl_fastapi.Render.Nginx.{NginxSettings, nginx_lines}
use lcl_fastapi.Render.Systemd.{
  SystemdSettings, restart_policy, is_trimmed, rstrip, systemd_lines, render_systemd,
}
use lcl_fastapi.Render.Systemd.Unit.{render_systemd-swallowed}
use lcl_fastapi.Render.Directives.{values, section, joined, ends_escaped}
use lcl_fastapi.Render.Lines.{split_lines}

abbrev sharp : Text
sharp = codes "/srv/a\"b\\c"

abbrev site : NginxSettings
site = record {
  server_name = text (codes "a.example");
  listen_port = integer 443;
  service_port = integer 8000;
  certificate = text (codes "/c.pem");
  certificate_key = text (codes "/k.pem");
}

abbrev site_file : Text
site_file =
    join_lines (nginx_lines (codes "a.example") 443 8000 (codes "\"/c.pem\"") (codes "\"/k.pem\""))

abbrev unit : SystemdSettings
unit = record {
  service_name = text (codes "orders");
  description = text (codes "Orders, 100%");
  user = text (codes "www");
  group = text (codes "www");
  working_directory = text (codes "/srv/orders/");
  config_path = text (codes "/etc/orders.lcl");
  restart = text (codes "on-failure");
  restart_seconds = integer 5;
}

abbrev unit_file : Text
unit_file = join_lines (
    systemd_lines (codes "orders") (codes "Orders, 100%") (codes "www") (codes "www")
      (codes "/srv/orders/") (codes "/etc/orders.lcl") (codes "on-failure") 5)

-- The same unit with a backslash at the end of its description.
abbrev long_unit : SystemdSettings
long_unit = record unit { description = text (codes "Orders\\") }

abbrev long_unit_file : Text
long_unit_file = join_lines (
    systemd_lines (codes "orders") (codes "Orders\\") (codes "www") (codes "www")
      (codes "/srv/orders/") (codes "/etc/orders.lcl") (codes "on-failure") 5)

render_long_unit : render_systemd long_unit ≡ ok long_unit_file
unfolding render_systemd text_value integer_value identifier is_identifier absolute_path is_absolute
    restart_policy is_trimmed rstrip drop_while same_text member all
render_long_unit = refl

render_systemd-swallowed_example :
    values (codes "After=") (section (codes "[Unit]") (joined (split_lines long_unit_file))) ≡ []
render_systemd-swallowed_example =
    render_systemd-swallowed long_unit long_unit_file (codes "Orders\\") refl
      (unfold ends_escaped in refl) render_long_unit
