-- ===== src/Verbose/Observations/Listed.antt =====
-- Which processes the status lists.
use Prim.Native.String.{String}
use mathlib.Core.Option.{some-injective}
use lcl_fastapi.Prelude.{
  ℕ, ◌≤◌, ◌<◌, ◌↔◌, ◌⊎◌, true, not, ◌||◌, Option, none, some, List, [], ◌∷◌, ◌≡◌, refl, sym, ap,
  ◌∙◌, subst, arith, leb, Has, All, Bool-cases, inl, inr, map,
}
use lcl_fastapi.Runtime.State.Value.{str, Record, get, value_eq}
use lcl_fastapi.Runtime.State.Identity.{
  Identity, ProcessTable, Runs, identity_record, is_live, is_live_iff, valid_pid-int,
}
use lcl_fastapi.Runtime.Controller.Sweep.{Has-map}
use lcl_fastapi.Verbose.Storage.{FileVerboseState}
use lcl_fastapi.Verbose.Observations.{
  Role, controller, api, FileVerboseProcess, role_text, observation, role_of, time_of, process_of,
  observed, insert, insert_if, process_observations,
}

abbrev pub IsAscending : List FileVerboseProcess → Type 0
IsAscending [] = Unit
IsAscending (p ∷ qs) = All (λ (q : FileVerboseProcess). p.pid ≤ q.pid) qs × IsAscending qs

Has-insert :
    (p : FileVerboseProcess) (qs : List FileVerboseProcess) (x : FileVerboseProcess)
    → Has (insert p qs) x ↔ ((p ≡ x) ⊎ Has qs x)
unfolding insert
Has-insert p [] x = (λ h. h, λ h. h)
Has-insert p (q ∷ qs) x =
    let (there, back) = Has-insert p qs x in
    elim (Bool-cases (leb p.pid q.pid)) [
      | inl e ↦ rw e (λ h. h, λ h. h)
      | inr e ↦ rw e (
        λ h. elim h [
          | inl k ↦ inr (inl k)
          | inr k ↦ elim (there k) [ inl m ↦ inl m | inr m ↦ inr (inr m) ]
        ],
        λ h. elim h [
          | inl k ↦ inr (back (inl k))
          | inr k ↦ elim k [ inl m ↦ inl m | inr m ↦ inr (back (inr m)) ]
        ],
      )
    ]

All-insert :
    (n : ℕ) (p : FileVerboseProcess) (qs : List FileVerboseProcess)
    → n ≤ p.pid
    → All (λ (q : FileVerboseProcess). n ≤ q.pid) qs
    → All (λ (q : FileVerboseProcess). n ≤ q.pid) (insert p qs)
unfolding insert
All-insert n p [] h a = (h, tt)
All-insert n p (q ∷ qs) h (b, a) = elim (Bool-cases (leb p.pid q.pid)) [
  | inl e ↦ rw e (h, (b, a))
  | inr e ↦ rw e (b, All-insert n p qs h a)
]

below :
    (n m : ℕ) (qs : List FileVerboseProcess)
    → n ≤ m
    → All (λ (q : FileVerboseProcess). m ≤ q.pid) qs
    → All (λ (q : FileVerboseProcess). n ≤ q.pid) qs
below n m [] h a = tt
below n m (q ∷ qs) h (b, a) = (omega (arith, h, b), below n m qs h a)

insert-IsAscending :
    (p : FileVerboseProcess) (qs : List FileVerboseProcess)
    → IsAscending qs
    → IsAscending (insert p qs)
unfolding insert
insert-IsAscending p [] h = (tt, tt)
insert-IsAscending p (q ∷ qs) (a, h) = elim (Bool-cases (leb p.pid q.pid)) [
  | inl e ↦
      let l : p.pid ≤ q.pid = ground (arith, e) in rw e ((l, below p.pid q.pid qs l a), (a, h))
  | inr e ↦
      let l : q.pid ≤ p.pid = ground (arith, e) in
      rw e (All-insert q.pid p qs l a, insert-IsAscending p qs h)
]

insert_if-IsAscending :
    (o : Option FileVerboseProcess) (qs : List FileVerboseProcess)
    → IsAscending qs
    → IsAscending (insert_if o qs)
unfolding insert_if
insert_if-IsAscending none qs h = h
insert_if-IsAscending (some p) qs h = insert-IsAscending p qs h

process_observations-IsAscending :
    (table : ProcessTable) (service_id : String) (rs : List Record)
    → IsAscending (process_observations table service_id rs)
unfolding process_observations
process_observations-IsAscending table service_id [] = tt
process_observations-IsAscending table service_id (r ∷ rs) =
    insert_if-IsAscending (observed table service_id r) _
      (process_observations-IsAscending table service_id rs)

Has-insert_if :
    (o : Option FileVerboseProcess) (qs : List FileVerboseProcess) (x : FileVerboseProcess)
    → Has (insert_if o qs) x ↔ ((o ≡ some x) ⊎ Has qs x)
unfolding insert_if
Has-insert_if none qs x =
    (λ h. inr h, λ h. elim h [ inl e ↦ absurd (ground (arith, e)) | inr k ↦ k ])
Has-insert_if (some p) qs x =
    let (there, back) = Has-insert p qs x in
    (
      λ h. elim (there h) [ inl e ↦ inl (ap some e) | inr k ↦ inr k ],
      λ h. elim h [ inl e ↦ back (inl (some-injective p x e)) | inr k ↦ back (inr k) ],
    )

Has-process_observations :
    (table : ProcessTable) (service_id : String) (rs : List Record) (x : FileVerboseProcess)
    → Has (process_observations table service_id rs) x
      ↔ ((r : Record) × Has rs r × (observed table service_id r ≡ some x))
unfolding process_observations
Has-process_observations table service_id [] x = (λ h. absurd h, λ (r, h, e). h)
Has-process_observations table service_id (r ∷ rs) x =
    let (there, back) =
      Has-insert_if (observed table service_id r) (process_observations table service_id rs) x in
    let (on, again) = Has-process_observations table service_id rs x in
    (
      λ h. elim (there h) [
        | inl e ↦ (r, inl refl, e)
        | inr k ↦ let (q, at, e) = on k in (q, inr at, e)
      ],
      λ (q, h, e). elim h [
        | inl same ↦ back (inl (ap (observed table service_id) same ∙ e))
        | inr k ↦ back (inr (again (q, k, e)))
      ],
    )

-- What a process has observed, in its file.
pub record Observed : Type 0 where
  pub identity : Identity
  pub service_id : String
  pub role : Role
  pub state : FileVerboseState
  pub time : ℕ

abbrev pub file_of : Observed → Record
file_of o = observation o.identity o.service_id o.role o.state o.time

All-at :
    (files : List Observed) (o : Observed)
    → All (λ (q : Observed). 0 < q.identity.pid) files
    → Has files o
    → 0 < o.identity.pid
All-at [] o a h = absurd h
All-at (q ∷ files) o (p, a) h = elim h [
  | inl e ↦ subst (λ (z : Observed). 0 < z.identity.pid) e p
  | inr k ↦ All-at files o a k
]

-- The entry of the status for it.
abbrev pub shown : Observed → FileVerboseProcess
shown o = record {
  role = o.role;
  pid = o.identity.pid;
  enabled = o.state.enabled;
  revision = o.state.revision;
  observed_at = o.time;
}

role_of-role_text : (role : Role) → role_of (str (role_text role)) ≡ some role
unfolding role_of role_text
role_of-role_text controller = refl
role_of-role_text api = refl

live-file_of :
    (table : ProcessTable) (o : Observed)
    → is_live table (file_of o) ≡ is_live table (identity_record o.identity)
unfolding is_live observation identity_record get
live-file_of table o = refl

observed-eq-some :
    (table : ProcessTable) (service_id : String) (o : Observed)
    → 0 < o.identity.pid
    → value_eq (str o.service_id) (str service_id) ≡ true
    → is_live table (file_of o) ≡ true
    → observed table service_id (file_of o) ≡ some (shown o)
unfolding observed observation identity_record get time_of process_of
observed-eq-some table service_id o pos own live =
    rw (own, live, role_of-role_text o.role, valid_pid-int o.identity.pid pos) refl

observed-eq-none :
    (table : ProcessTable) (service_id : String) (o : Observed)
    → (not (value_eq (str o.service_id) (str service_id)) || not (is_live table (file_of o))) ≡ true
    → observed table service_id (file_of o) ≡ none
unfolding observed observation identity_record get
observed-eq-none table service_id o h = rw h refl

observed-file_of :
    (table : ProcessTable) (service_id : String) (o : Observed) (x : FileVerboseProcess)
    → 0 < o.identity.pid
    → (observed table service_id (file_of o) ≡ some x) ↔ (
        (value_eq (str o.service_id) (str service_id) ≡ true)
        × Runs table o.identity
        × (shown o ≡ x))
observed-file_of table service_id o x pos =
    let (runs, lives) = is_live_iff table o.identity pos in
    (
      λ e.
          elim (Bool-cases (
            not (value_eq (str o.service_id) (str service_id))
            || not (is_live table (file_of o)))) [
              | inl hidden ↦
                  let nothing = observed-eq-none table service_id o hidden in
                  absurd (ground (arith, e, nothing))
              | inr ok ↦
                  let own : value_eq (str o.service_id) (str service_id) ≡ true =
                    ground (arith, ok) in
                  let live : is_live table (file_of o) ≡ true = ground (arith, ok) in
                  (
                    own,
                    runs (sym (live-file_of table o) ∙ live),
                    some-injective (shown o) x
                        (sym (observed-eq-some table service_id o pos own live) ∙ e),
                  )
            ],
      λ (own, r, e).
          observed-eq-some table service_id o pos own (live-file_of table o ∙ lives r) ∙ ap some e,
    )

-- The status lists, ascending by their PIDs, exactly the processes of the start that still run, each
-- with what it observed: for the files that any processes of any starts have written, whichever of
-- them have ended since, and though others may have got their PIDs, all above 0.
pub process_observations-shown :
    (table : ProcessTable) (service_id : String) (files : List Observed)
    → All (λ (o : Observed). 0 < o.identity.pid) files
    → IsAscending (process_observations table service_id (map file_of files))
      × ((x : FileVerboseProcess)
          → Has (process_observations table service_id (map file_of files)) x ↔ (
              (o : Observed) × Has files o
              × (value_eq (str o.service_id) (str service_id) ≡ true)
              × Runs table o.identity
              × (shown o ≡ x)))
process_observations-shown table service_id files pos = (
  process_observations-IsAscending table service_id (map file_of files),
  λ x.
      let (there, back) = Has-process_observations table service_id (map file_of files) x in
      (
        λ h.
            let (r, at, e) = there h in
            let (o, in_files, same) = (Has-map file_of files r).0 at in
            let (own, runs, is) =
              (observed-file_of table service_id o x (All-at files o pos in_files)).0
                (ap (observed table service_id) same ∙ e) in
            (o, in_files, own, runs, is),
        λ (o, in_files, own, runs, is). back (
          file_of o,
          (Has-map file_of files (file_of o)).1 (o, in_files, refl),
          (observed-file_of table service_id o x (All-at files o pos in_files)).1 (own, runs, is),
        ),
      ),
)
