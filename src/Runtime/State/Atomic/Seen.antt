-- ===== src/Runtime/State/Atomic/Seen.antt =====
-- What other processes see of a file while `atomic_write` replaces it.
use lcl_fastapi.Prelude.{
  ℕ, Text, Bool, true, false, ◌||◌, List, [], ◌∷◌, ◌≡◌, refl, Bool-cases, arith, ◌≢◌, if◌then◌else◌,
  same_text, same_text_iff, All, ◌⊎◌, inl, inr, none, some,
}
use lcl_fastapi.Runtime.State.Value.{Record}
use lcl_fastapi.Runtime.State.Files.{Failure, Outcome, ok, raised, retrying, os_error}
use lcl_fastapi.Runtime.State.Atomic.{
  complete, torn, Directory, put, ReplaceAttempt, Calls, Run, temporary_name, temporary_name-ne,
  replace_round, replace_loop, unlink, replace, write_text, atomic_write,
}

-- A directory as another process may find it: the name has what it had or the whole new value, and
-- every other name but the temporary one has what it had.
pub record IsSeen (name temporary : Text) (value : Record) (before now : Directory) : Type 0 where
  pub whole : (now name ≡ before name) ⊎ (now name ≡ some (complete value))
  pub others :
      (n : Text) → now n ≡ (if same_text name n || same_text temporary n then now n else before n)

module _ (name temporary : Text) (value : Record) (apart : same_text temporary name ≡ false) where
  IsSeen-put :
      (before now : Directory) (content : _)
      → IsSeen name temporary value before now
      → IsSeen name temporary value before (put temporary content now)
  IsSeen-put before now content h = record {
    whole = ground (arith, h.whole);
    others = λ n. ground (arith, h.others n);
  }

  IsSeen-moved :
      (before now : Directory)
      → IsSeen name temporary value before now
      → IsSeen name temporary value before
          (put temporary none (put name (some (complete value)) now))
  IsSeen-moved before now h = record {
    whole = inr (rw apart (rw ((same_text_iff name name).1 refl) refl));
    others = λ n. ground (arith, h.others n);
  }

  abbrev AllSeen : Directory → Run → Type 0
  AllSeen before (outcome, ds) = All (IsSeen name temporary value before) ds

  unlink-AllSeen :
      (before now : Directory) (b : Bool) (o : Outcome (Unit {0}))
      → IsSeen name temporary value before now
      → AllSeen before (unlink temporary b o now)
  unfolding unlink
  unlink-AllSeen before now true o h = (IsSeen-put before now none h, tt)
  unlink-AllSeen before now false o h = (h, tt)

  replace-AllSeen :
      (before now : Directory) (b : Bool) (o : Outcome (Unit {0}))
      → IsSeen name temporary value before now
      → AllSeen before (replace name temporary value b o now)
  unfolding replace
  replace-AllSeen before now b (ok u) h =
      let m = IsSeen-moved before now h in (m, unlink-AllSeen before _ b (ok u) m)
  replace-AllSeen before now b (raised e) h = unlink-AllSeen before now b (raised e) h
  replace-AllSeen before now b retrying h = tt

  write_text-AllSeen :
      (win32 : Bool) (env : ℕ → ReplaceAttempt) (unlinked written : Bool) (d : Directory)
      → AllSeen d (write_text win32 env name temporary value unlinked written d)
  unfolding write_text
  write_text-AllSeen win32 env unlinked true d =
      let ready = IsSeen-put d d (some (complete value)) start in
      (IsSeen-put d d (some torn) start, (ready, replace-AllSeen d _ unlinked _ ready))
    where
      start : IsSeen name temporary value d d
      start = record { whole = inl refl; others = λ n. ground arith }
  write_text-AllSeen win32 env unlinked false d =
      let begun = IsSeen-put d d (some torn) start in
      (begun, unlink-AllSeen d _ unlinked (raised os_error) begun)
    where
      start : IsSeen name temporary value d d
      start = record { whole = inl refl; others = λ n. ground arith }

-- At every moment of an `atomic_write`, failing or not, whoever reads the file finds the old content
-- or the complete new value, never a part of it, and no other file but the temporary one changes.
pub atomic_write-IsSeen :
    (win32 : Bool) (calls : Calls) (name uuid : Text) (value : Record) (d : Directory)
    → All
        (IsSeen name (temporary_name name uuid) value d)
        (atomic_write win32 calls name uuid value d).1
unfolding atomic_write
atomic_write-IsSeen win32 calls name uuid value d = elim (Bool-cases calls.made) [
  | inl e ↦ rw e (
      write_text-AllSeen name (temporary_name name uuid) value (temporary_name-ne name uuid) win32
        calls.replacing calls.unlinked calls.written d)
  | inr e ↦ rw e tt
]

abbrev pub last : Directory → List Directory → Directory
last d [] = d
last d (e ∷ es) = last e es

same_text_refl : (t : Text) → same_text t t ≡ true
same_text_refl t = (same_text_iff t t).1 refl

replace_loop-settled :
    (win32 : Bool) (env : ℕ → ReplaceAttempt) → replace_loop win32 env 3 0 ≢ retrying
unfolding replace_loop replace_round
replace_loop-settled win32 env = ground arith

-- What a run ends with: the whole value and no temporary file, or an error.
abbrev pub Ends : Text → Text → Record → Directory → Run → Type 0
Ends name temporary value d (outcome, ds) =
    ((outcome ≡ ok tt) × (last d ds name ≡ some (complete value)) × (last d ds temporary ≡ none))
    ⊎ ((e : Failure) × (outcome ≡ raised e))

module _ (name temporary : Text) (value : Record) (apart : same_text temporary name ≡ false) where
  replace-Ends :
      (b : Bool) (o : Outcome (Unit {0})) (d : Directory)
      → o ≢ retrying
      → Ends name temporary value d (replace name temporary value b o d)
  unfolding replace unlink
  replace-Ends true (ok u) d h =
      inl (refl, rw (apart, same_text_refl name) refl, rw (same_text_refl temporary) refl)
  replace-Ends false (ok u) d h = inr (os_error, refl)
  replace-Ends true (raised e) d h = inr (e, refl)
  replace-Ends false (raised e) d h = inr (os_error, refl)
  replace-Ends b retrying d h = absurd (h refl)

  raised-Ends :
      (b : Bool) (d : Directory)
      → Ends name temporary value d (unlink temporary b (raised os_error) d)
  unfolding unlink
  raised-Ends true d = inr (os_error, refl)
  raised-Ends false d = inr (os_error, refl)

  write_text-Ends :
      (win32 : Bool) (env : ℕ → ReplaceAttempt) (unlinked written : Bool) (d : Directory)
      → Ends name temporary value d (write_text win32 env name temporary value unlinked written d)
  unfolding write_text
  write_text-Ends win32 env unlinked true d =
      replace-Ends unlinked (replace_loop win32 env 3 0) (put temporary (some (complete value)) d)
        (replace_loop-settled win32 env)
  write_text-Ends win32 env unlinked false d = raised-Ends unlinked (put temporary (some torn) d)

-- `atomic_write` always returns or raises, and where it returns, the file holds the whole new value
-- and no temporary file is left.
pub atomic_write-Ends :
    (win32 : Bool) (calls : Calls) (name uuid : Text) (value : Record) (d : Directory)
    → Ends name (temporary_name name uuid) value d (atomic_write win32 calls name uuid value d)
unfolding atomic_write
atomic_write-Ends win32 calls name uuid value d = elim (Bool-cases calls.made) [
  | inl e ↦ rw e (
      write_text-Ends name (temporary_name name uuid) value (temporary_name-ne name uuid) win32
        calls.replacing calls.unlinked calls.written d)
  | inr e ↦ rw e (inr (os_error, refl))
]
