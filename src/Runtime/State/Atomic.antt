-- ===== src/Runtime/State/Atomic.antt =====
-- `atomic_write` of src/lcl_fastapi/runtime/state.py, with every state of the directory that another
-- process can see in between.
pub mod Seen
use lcl_fastapi.Prelude.{
  ℕ, zero, suc, ◌+◌, ◌<◌, Text, codes, Bool, true, false, ◌||◌, not, Option, none, some, List, [],
  ◌∷◌, ◌++◌, ◌≡◌, ◌≢◌, refl, sym, ap, ◌∙◌, arith, ◌==◌, if◌then◌else◌, same_text, same_text_iff,
  length, length-append, All, ◌⊎◌, inl, inr, Bool-cases,
}
use lcl_fastapi.Runtime.State.Value.{Record}
use lcl_fastapi.Runtime.State.Files.{
  Failure, permission_error, os_error, Outcome, ok, raised, retrying,
}

-- A complete JSON text of a dictionary, or a part of one.
pub data Content : Type 0 where
  complete : Record → Content
  torn : Content

-- The files of a directory, by name.
abbrev pub Directory : Type 0
Directory = Text → Option Content

abbrev pub put : Text → Option Content → Directory → Directory
put name content d other = if same_text name other then content else d other

-- What `os.replace` does at one attempt.
pub data ReplaceAttempt : Type 0 where
  replaced denied failed : ReplaceAttempt

-- What the system calls of one `atomic_write` report: the directory made, the text written, each attempt to replace,
-- and the removal of the temporary file.
pub record Calls : Type 0 where
  pub made : Bool
  pub written : Bool
  pub replacing : ℕ → ReplaceAttempt
  pub unlinked : Bool

-- path.with_name(f".{path.name}.{uuid4().hex}.tmp")
unfoldable pub temporary_name : Text → Text → Text
temporary_name name uuid = b'.' ∷ (name ++ (b'.' ∷ (uuid ++ codes ".tmp")))

replace_round : Bool → Outcome (Unit {0}) → ℕ → ReplaceAttempt → Outcome (Unit {0})
replace_round win32 again attempts replaced = ok tt
replace_round win32 again attempts failed = raised os_error
replace_round win32 again attempts denied =
    if not win32 || attempts + 1 == 3 then raised permission_error else again

replace_loop : Bool → (ℕ → ReplaceAttempt) → ℕ → ℕ → Outcome (Unit {0})
replace_loop win32 env zero attempts = retrying
replace_loop win32 env (suc fuel) attempts =
    let again = replace_loop win32 env fuel (attempts + 1) in
    replace_round win32 again attempts (env attempts)

-- The outcome with the directories from the first to the last, each after a system call.
abbrev pub Run : Type 0
Run = Outcome (Unit {0}) × List Directory

-- temporary.unlink(missing_ok=True); a failure here is raised in place of the outcome.
unlink : Text → Bool → Outcome (Unit {0}) → Directory → Run
unlink temporary true outcome d = (outcome, put temporary none d ∷ [])
unlink temporary false outcome d = (raised os_error, d ∷ [])

-- After the text is written: on a replacement the temporary file's content moves to the name.
replace : Text → Text → Record → Bool → Outcome (Unit {0}) → Directory → Run
replace name temporary value unlinked (ok u) d =
    let moved = put temporary none (put name (some (complete value)) d) in
    let (outcome, later) = unlink temporary unlinked (ok u) moved in (outcome, moved ∷ later)
replace name temporary value unlinked (raised e) d = unlink temporary unlinked (raised e) d
replace name temporary value unlinked retrying d = (retrying, [])

write_text : Bool → (ℕ → ReplaceAttempt) → Text → Text → Record → Bool → Bool → Directory → Run
write_text win32 env name temporary value unlinked true d =
    let ready = put temporary (some (complete value)) d in
    let (outcome, later) =
      replace name temporary value unlinked (replace_loop win32 env 3 0) ready in
    (outcome, put temporary (some torn) d ∷ ready ∷ later)
write_text win32 env name temporary value unlinked false d =
    let (outcome, later) =
      unlink temporary unlinked (raised os_error) (put temporary (some torn) d) in
    (outcome, put temporary (some torn) d ∷ later)

unfoldable pub atomic_write : Bool → Calls → Text → Text → Record → Directory → Run
unfolding write_text replace unlink replace_loop replace_round
atomic_write win32 calls name uuid value d =
    if calls.made
    then write_text win32 calls.replacing name (temporary_name name uuid) value calls.unlinked
        calls.written d
    else (raised os_error, [])

pub temporary_name-ne : (name uuid : Text) → same_text (temporary_name name uuid) name ≡ false
unfolding temporary_name
temporary_name-ne name uuid = elim (Bool-cases (same_text (temporary_name name uuid) name)) [
  | inl e ↦ absurd (
      omega (
        arith,
        ap length ((same_text_iff (temporary_name name uuid) name).0 e),
        length-append name (b'.' ∷ (uuid ++ codes ".tmp")),
      ))
  | inr e ↦ e
]
