-- ===== src/Verbose/Process.antt =====
-- The control of one process in src/lcl_fastapi/verbose/control.py: the warnings of `refresh_warning`
-- and the slot that holds the active control.
use lcl_fastapi.Prelude.{
  ℕ, ◌≤◌, Text, codes, not, Option, none, some, List, [], ◌∷◌, ◌++◌, ◌≡◌, map, refl, ap, ◌∙◌, arith,
  ◌==◌, if◌then◌else◌, Bool-cases, inl, inr, same_text,
}
use lcl_fastapi.Verbose.Storage.{FileVerboseState}
use lcl_fastapi.Verbose.Control.{observe}

pub record FileVerboseControl : Type 0 where
  pub pid : ℕ
  pub state : FileVerboseState
  pub last_error : Text

-- What a refresh meets: the target is not read, or it is read and the observation is not written, each
-- with the text of the OSError, or both succeed.
pub data Refresh : Type 0 where
  unread : Text → Refresh
  unpublished : FileVerboseState → Text → Refresh
  refreshed : FileVerboseState → Refresh

abbrev pub error_of : Refresh → Option Text
error_of (unread e) = some e
error_of (unpublished s e) = some e
error_of (refreshed s) = none

unfoldable pub refresh : Refresh → FileVerboseControl → FileVerboseControl
refresh (unread e) c = c
refresh (unpublished s e) c = record c { state = observe c.state s }
refresh (refreshed s) c = record c { state = observe c.state s }

-- "file verbose refresh failed: " and the error
unfoldable pub failure_message : Text → Text
failure_message e = codes "file verbose refresh failed: " ++ e

unfoldable pub warn : Option Text → FileVerboseControl → Text × FileVerboseControl
unfolding failure_message
warn none c = ([], record c { last_error = [] })
warn (some e) c = (
  if not (same_text (failure_message e) c.last_error) then failure_message e else [],
  record c { last_error = failure_message e },
)

unfoldable pub refresh_warning : Refresh → FileVerboseControl → Text × FileVerboseControl
unfolding refresh warn
refresh_warning r c = warn (error_of r) (refresh r c)

-- `active_control` while the body of `use_file_control` runs, and after it.
unfoldable pub use_file_control :
    {A : Type 0}
    → FileVerboseControl
    → (Option FileVerboseControl → A)
    → Option FileVerboseControl
    → A × Option FileVerboseControl
use_file_control control body previous = (body (some control), previous)

-- None is the RuntimeError outside a scope, and in a process that inherited the slot by a fork.
unfoldable pub current_file_control : ℕ → Option FileVerboseControl → Option FileVerboseControl
current_file_control pid none = none
current_file_control pid (some c) = if c.pid == pid then some c else none

unfoldable pub run : List Refresh → FileVerboseControl → List Text × FileVerboseControl
unfolding refresh_warning
run [] c = ([], c)
run (r ∷ rs) c =
    let (warning, after) = refresh_warning r c in
    let (later, end) = run rs after in
    (if same_text warning [] then later else warning ∷ later, end)

-- The failures that differ from the refresh just before them.
abbrev changes : Option Text → List (Option Text) → List Text
changes before [] = []
changes before (none ∷ later) = changes none later
changes none (some e ∷ later) = failure_message e ∷ changes (some e) later
changes (some b) (some e ∷ later) =
    if same_text (failure_message e) (failure_message b)
    then changes (some e) later
    else failure_message e ∷ changes (some e) later

abbrev last_text : Option Text → Text
last_text none = []
last_text (some e) = failure_message e

abbrev report : Text → List Text → List Text
report warning later = if same_text warning [] then later else warning ∷ later

report-failure :
    (e : Text) (later : List Text) → report (failure_message e) later ≡ failure_message e ∷ later
unfolding failure_message same_text
report-failure e later = refl

warn-changes :
    (o before : Option Text) (c : FileVerboseControl) (later : List (Option Text))
    → c.last_error ≡ last_text before
    → report (warn o c).0 (changes o later) ≡ changes before (o ∷ later)
unfolding warn same_text
warn-changes none before c later h = refl
warn-changes (some e) none c later h = rw h (unfold failure_message in refl)
warn-changes (some e) (some b) c later h =
    rw h (elim (Bool-cases (same_text (failure_message e) (failure_message b))) [
      | inl s ↦ rw s refl
      | inr s ↦ rw s (report-failure e (changes (some e) later))
    ])

last_error-warn : (o : Option Text) (c : FileVerboseControl) → (warn o c).1.last_error ≡ last_text o
unfolding warn
last_error-warn none c = refl
last_error-warn (some e) c = refl

last_error-refresh :
    (r : Refresh) (c : FileVerboseControl) → (refresh r c).last_error ≡ c.last_error
unfolding refresh
last_error-refresh (unread e) c = refl
last_error-refresh (unpublished s e) c = refl
last_error-refresh (refreshed s) c = refl

run-changes :
    (rs : List Refresh) (c : FileVerboseControl) (before : Option Text)
    → c.last_error ≡ last_text before
    → (run rs c).0 ≡ changes before (map error_of rs)
unfolding run
run-changes [] c before h = refl
run-changes (r ∷ rs) c before h =
    ap (report (warn (error_of r) (refresh r c)).0) (
      run-changes rs (warn (error_of r) (refresh r c)).1 (error_of r)
        (last_error-warn (error_of r) (refresh r c)))
    ∙ warn-changes (error_of r) before (refresh r c) (map error_of rs) (last_error-refresh r c ∙ h)

warn-state : (o : Option Text) (c : FileVerboseControl) → (warn o c).1.state ≡ c.state
unfolding warn
warn-state none c = refl
warn-state (some e) c = refl

refresh-le :
    (r : Refresh) (c : FileVerboseControl) → c.state.revision ≤ (refresh r c).state.revision
unfolding refresh observe
refresh-le (unread e) c = omega arith
refresh-le (unpublished s e) c = ground arith
refresh-le (refreshed s) c = ground arith

run-le :
    (rs : List Refresh) (c : FileVerboseControl) → c.state.revision ≤ (run rs c).1.state.revision
unfolding run
run-le [] c = omega arith
run-le (r ∷ rs) c =
    let after = (warn (error_of r) (refresh r c)).1 in
    let one = refresh-le r c in
    let same = ap (λ (s : FileVerboseState). s.revision) (warn-state (error_of r) (refresh r c)) in
    let more = run-le rs after in omega (arith, one, same, more)

-- Through any refreshes of a process whose control was just made, failing or not: a failure is warned
-- of exactly if the refresh just before it did not fail with the same text, and the revision that the
-- process knows never falls.
pub refresh_warning-changes :
    (rs : List Refresh) (c : FileVerboseControl)
    → c.last_error ≡ []
    → ((run rs c).0 ≡ changes none (map error_of rs))
      × (c.state.revision ≤ (run rs c).1.state.revision)
refresh_warning-changes rs c fresh = (run-changes rs c none fresh, run-le rs c)
