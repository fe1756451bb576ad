-- ===== src/Render/Systemd/Unit.antt =====
-- The units that `render_systemd` writes.
use lcl_fastapi.Prelude.{
  join_lines, ℕ, ◌≤◌, Text, codes, Bool, true, false, drop_while, List, [], ◌∷◌, ◌++◌, ◌≡◌, refl,
  ap, ◌∙◌, subst, sym, arith, ◌==◌, all, all-append, All, same_text, same_text_iff, member,
  Bool-cases, inl, inr,
}
use lcl_fastapi.Render.Validation.{
  ConfigValue, text, integer, ok, text_value, integer_value, absolute_path, identifier,
  is_printable, text_value-printable, text_value-eq-ok, absolute_path-printable,
  identifier-printable, integer_value_bounds,
}
use lcl_fastapi.Render.Quote.{replace, systemd_quote}
use lcl_fastapi.Render.Lines.{
  split_lines, IsLine, split_lines-join_lines, decimal-IsLine, replace-IsLine, systemd_quote-IsLine,
}
use lcl_fastapi.Render.Directives.{
  values, after, lines_after, lines_before, section, joined, joined-third, ends_escaped,
}
use lcl_fastapi.Render.Systemd.Ends.{
  ends_escaped-not, ends_in-append, identifier-ends_in, below, below_lines-same,
  description_line-ends,
}
use lcl_fastapi.Render.Systemd.Reading.{SystemdUnit}
use lcl_fastapi.Render.Systemd.{
  ends_in, SystemdSettings, restart_policies, restart_policy, keep, rstrip, is_trimmed, executable,
  systemd_lines, render_systemd,
}

-- The settings of a rendered unit, which passed the checks.
pub record SystemdChecked (s : SystemdSettings) (d u g dir cfg policy : Text) (seconds : ℕ)
    : Type 0 where
  pub names : (identifier s.user ≡ ok u) × (identifier s.group ≡ ok g)
  pub description : (text_value s.description ≡ ok d) × (s.description ≡ text d)
  pub directory : (absolute_path s.working_directory ≡ ok dir) × (is_trimmed dir ≡ true)
  pub restart : (s.restart ≡ text policy) × (member restart_policies policy ≡ true)
  pub delay : (s.restart_seconds ≡ integer seconds) × (seconds ≤ 86400)
  pub config : absolute_path s.config_path ≡ ok cfg

-- What a rendered unit holds.
pub record SystemdFile (s : SystemdSettings) (out : Text) : Type 0 where
  pub description : Text
  pub user : Text
  pub group : Text
  pub directory : Text
  pub config : Text
  pub restart : Text
  pub delay : ℕ
  pub checked : SystemdChecked s description user group directory config restart delay
  pub read :
      SystemdUnit description user group directory config restart delay (joined (split_lines out))

text-injective : {t u : Text} → text t ≡ text u → t ≡ u
text-injective h = ground (arith, h)

rstrip-all : (p q : ℕ → Bool) (t : Text) → all q t ≡ true → all q (rstrip p t) ≡ true
unfolding rstrip all keep
rstrip-all p q [] h = refl
rstrip-all p q (c ∷ t) h = keep-all (rstrip p t) (rstrip-all p q t (ground arith))
  where
    keep-all : (r : Text) → all q r ≡ true → all q (keep p c r) ≡ true
    keep-all [] k = ground arith
    keep-all (d ∷ r) k = ground arith

member-All : (P : Text → Type 0) (ts : List Text) (s : Text) → All P ts → member ts s ≡ true → P s
unfolding member
member-All P [] s a h = cc
member-All P (t ∷ ts) s a h = elim (Bool-cases (same_text s t)) [
  | inl e ↦ subst P (sym ((same_text_iff s t).0 e)) a.0
  | inr e ↦ member-All P ts s a.1 (ground arith)
]

restart_policy-eq-ok :
    (v : ConfigValue) {t : Text}
    → restart_policy v ≡ ok t
    → (v ≡ text t) × (member restart_policies t ≡ true)
unfolding restart_policy
restart_policy-eq-ok (text t) h = ground arith
restart_policy-eq-ok _ h = cc

policy-IsLine : (t : Text) → member restart_policies t ≡ true → IsLine t
policy-IsLine t h =
    member-All IsLine restart_policies t
      (unfold all in (refl, (refl, (refl, (refl, (refl, (refl, (refl, tt)))))))) h

render_systemd-eq-ok :
    (s : SystemdSettings) {out : Text}
    → render_systemd s ≡ ok out
    → (name : Text) × (description : Text) × (user : Text) × (group : Text) × (directory : Text)
      × (config : Text) × (restart : Text) × (delay : ℕ) × (identifier s.service_name ≡ ok name)
      × (text_value s.description ≡ ok description)
      × (identifier s.user ≡ ok user)
      × (identifier s.group ≡ ok group)
      × (absolute_path s.working_directory ≡ ok directory)
      × (is_trimmed directory ≡ true)
      × (absolute_path s.config_path ≡ ok config)
      × (restart_policy s.restart ≡ ok restart)
      × (integer_value s.restart_seconds 0 86400 ≡ ok delay)
      × (out
          ≡ join_lines (systemd_lines name description user group directory config restart delay))
unfolding render_systemd
render_systemd-eq-ok s h = ground arith

percent-IsLine : (s : Text) → IsLine s → IsLine (replace b'%' (codes "%%") s)
percent-IsLine s h = replace-IsLine b'%' (codes "%%") s (unfold all in refl) h

command-IsLine :
    (directory config : Text)
    → IsLine directory
    → IsLine config
    → IsLine (
        systemd_quote (executable directory) ++ (codes " serve -o config " ++ systemd_quote config))
command-IsLine directory config hd hc =
    all-append is_printable (systemd_quote (executable directory)) _
      (systemd_quote-IsLine (executable directory) (
        all-append is_printable (rstrip (λ c. c == b'/') directory) _
          (rstrip-all (λ c. c == b'/') is_printable directory hd) (unfold all in refl)))
      (unfold all in systemd_quote-IsLine config hc)

framed : (head tail : Text) → IsLine head → IsLine tail → IsLine (head ++ tail)
framed head tail h t = all-append is_printable head tail h t

systemd_lines-IsLine :
    (name description user group directory config restart : Text) (delay : ℕ)
    → IsLine name
    → IsLine description
    → IsLine user
    → IsLine group
    → IsLine directory
    → IsLine config
    → IsLine restart
    → All IsLine (systemd_lines name description user group directory config restart delay)
unfolding all
systemd_lines-IsLine name description user group directory config restart delay hn he hu hg hd hc
      hr =
    (
      framed name (codes ".service") hn refl,
      (
        refl,
        (
          percent-IsLine description he,
          (
            refl,
            (
              refl,
              (
                refl,
                (
                  refl,
                  (
                    hu,
                    (
                      hg,
                      (
                        percent-IsLine directory hd,
                        (
                          command-IsLine directory config hd hc,
                          (hr, (decimal-IsLine delay, (refl, (refl, (refl, (refl, (refl, tt))))))),
                        ),
                      ),
                    ),
                  ),
                ),
              ),
            ),
          ),
        ),
      ),
    )

-- The lines of the file that was rendered.
split_lines-render_systemd :
    (s : SystemdSettings) {out : Text}
    → render_systemd s ≡ ok out
    → (name : Text) × (description : Text) × (user : Text) × (group : Text) × (directory : Text)
      × (config : Text) × (restart : Text) × (delay : ℕ) × SystemdChecked s description user group
          directory config restart delay
      × (split_lines out ≡ systemd_lines name description user group directory config restart delay)
split_lines-render_systemd s h =
    let (
      name, description, user, group, directory, config, restart, delay, en, ee, eu, eg, ed, tr, ec,
      er, el, eo,
    ) =
      render_systemd-eq-ok s h in
    let (same, policy) = restart_policy-eq-ok s.restart er in
    let (lower, upper, number) = integer_value_bounds s.restart_seconds 0 86400 el in
    (
      name,
      description,
      user,
      group,
      directory,
      config,
      restart,
      delay,
      record {
        names = (eu, eg);
        description = (ee, text_value-eq-ok s.description ee);
        directory = (ed, tr);
        restart = (same, policy);
        delay = (number, upper);
        config = ec;
      },
      ap split_lines eo
          ∙ (split_lines-join_lines _ _ (
              systemd_lines-IsLine name description user group directory config restart delay
                (identifier-printable s.service_name en) (text_value-printable s.description ee)
                (identifier-printable s.user eu) (identifier-printable s.group eg)
                (absolute_path-printable s.working_directory ed)
                (absolute_path-printable s.config_path ec) (policy-IsLine restart policy))),
    )

-- The lines below the description do not go on in the next ones.
below-same :
    (s : SystemdSettings) (name description user group directory config restart : Text) (delay : ℕ)
    → SystemdChecked s description user group directory config restart delay
    → All
        (λ l. ends_escaped false l ≡ false)
        (below (systemd_lines name description user group directory config restart delay))
below-same s name description user group directory config restart delay c =
    below_lines-same name description user group directory config restart delay
      (identifier-ends_in s.user c.names.0) (identifier-ends_in s.group c.names.1) c.directory.1
      (member-All (λ p. ends_in b'\\' p ≡ false) restart_policies restart
        (refl, (refl, (refl, (refl, (refl, (refl, (refl, tt))))))) c.restart.1)

-- A description that ends in a backslash that no other one escapes swallows the next line: systemd then
-- finds no `After` entry in the section of the unit that `render_systemd` wrote.
pub render_systemd-swallowed :
    (s : SystemdSettings) (out d : Text)
    → s.description ≡ text d
    → ends_escaped false d ≡ true
    → render_systemd s ≡ ok out
    → values (codes "After=") (section (codes "[Unit]") (joined (split_lines out))) ≡ []
unfolding values after lines_after lines_before drop_while same_text
render_systemd-swallowed s out d told ends h =
    let (name, description, user, group, directory, config, restart, delay, c, eo) =
      split_lines-render_systemd s h in
    let same : description ≡ d = text-injective (sym c.description.1 ∙ told) in
    let lines = systemd_lines name description user group directory config restart delay in
    ap (λ ls. values (codes "After=") (section (codes "[Unit]") ls))
      (ap joined eo
        ∙ joined-third _ _ _ (below lines)
            (ends_escaped-not _ (ends_in-append (codes "# " ++ name) b'.' (codes "service") refl))
            (unfold ends_escaped in refl)
            (description_line-ends description ∙ ap (ends_escaped false) same ∙ ends)
            (below-same s name description user group directory config restart delay c))
    ∙ refl
