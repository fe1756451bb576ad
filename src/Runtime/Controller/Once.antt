-- ===== src/Runtime/Controller/Once.antt =====
-- The dictionary that takes each process once, and the kills over it.
use lcl_fastapi.Prelude.{
  List, [], ◌∷◌, ◌≡◌, ◌↔◌, ◌⊎◌, refl, sym, ◌∙◌, subst, Has, All, Bool-cases, inl, inr,
}
use lcl_fastapi.Runtime.State.Value.{Record}
use lcl_fastapi.Runtime.State.Identity.{Identity}
use lcl_fastapi.Runtime.Controller.{same_key, put_record, each_once}
use lcl_fastapi.Runtime.Controller.Names.{Names, identity_unique, same_key_iff}

-- One of the records is of the process.
unfoldable pub Named : List Record → Identity → Type 0
Named rs i = (r : Record) × Has rs r × Names r i

unfoldable pub AllNamed : List Record → Type 0
AllNamed rs = All (λ (r : Record). (i : Identity) × Names r i) rs

-- No process stands twice.
abbrev pub NamedOnce : List Record → Type 0
NamedOnce [] = Unit
NamedOnce (r ∷ rs) = ((i : Identity) → Names r i → ¬ Named rs i) × NamedOnce rs

pub Named-nil : (x : Identity) → ¬ Named [] x
unfolding Named
Named-nil x (r, h, n) = h

pub Named-cons :
    (r : Record) (rs : List Record) (i x : Identity)
    → Names r i
    → Named (r ∷ rs) x ↔ ((x ≡ i) ⊎ Named rs x)
unfolding Named
Named-cons r rs i x n = (
  λ (q, h, m). elim h [
    | inl e ↦ inl (identity_unique q x i m (subst (λ y. Names y i) e n))
    | inr k ↦ inr (q, k, m)
  ],
  λ h. elim h [
    | inl e ↦ (r, inl refl, subst (Names r) (sym e) n)
    | inr k ↦ let (q, at, m) = k in (q, inr at, m)
  ],
)

Named-put_record :
    (r : Record) (i : Identity) (rs : List Record) (x : Identity)
    → Names r i
    → AllNamed rs
    → Named (put_record r rs) x ↔ ((x ≡ i) ⊎ Named rs x)
unfolding put_record AllNamed
Named-put_record r i [] x n a = Named-cons r [] i x n
Named-put_record r i (q ∷ qs) x n ((j, m), a) =
    let (there, back) = Named-put_record r i qs x n a in
    let (old, old_back) = Named-cons q qs j x m in
    elim (Bool-cases (same_key r q)) [
      | inl e ↦
          let same = (same_key_iff r q i j n m).0 e in
          let (new, new_back) = Named-cons r qs i x n in
          rw e (
            λ h. elim (new h) [ inl k ↦ inl k | inr k ↦ inr (old_back (inr k)) ],
            λ h. elim h [
              | inl k ↦ new_back (inl k)
              | inr k ↦ elim (old k) [
                | inl k2 ↦ new_back (inl (k2 ∙ sym same))
                | inr k2 ↦ new_back (inr k2)
              ]
            ],
          )
      | inr e ↦
          let (new, new_back) = Named-cons q (put_record r qs) j x m in
          rw e (
            λ h. elim (new h) [
              | inl k ↦ inr (old_back (inl k))
              | inr k ↦ elim (there k) [ inl k2 ↦ inl k2 | inr k2 ↦ inr (old_back (inr k2)) ]
            ],
            λ h. elim h [
              | inl k ↦ new_back (inr (back (inl k)))
              | inr k ↦ elim (old k) [
                | inl k2 ↦ new_back (inl k2)
                | inr k2 ↦ new_back (inr (back (inr k2)))
              ]
            ],
          )
    ]

put_record-All :
    (P : Record → Type 0) (r : Record) (rs : List Record) → P r → All P rs → All P (put_record r rs)
unfolding put_record
put_record-All P r [] h hs = (h, tt)
put_record-All P r (q ∷ qs) h hs = elim (Bool-cases (same_key r q)) [
  | inl e ↦ rw e (h, hs.1)
  | inr e ↦ rw e (hs.0, put_record-All P r qs h hs.1)
]

put_record-NamedOnce :
    (r : Record) (i : Identity) (rs : List Record)
    → Names r i
    → AllNamed rs
    → NamedOnce rs
    → NamedOnce (put_record r rs)
unfolding put_record AllNamed
put_record-NamedOnce r i [] n a o = (λ k m named. Named-nil k named, tt)
put_record-NamedOnce r i (q ∷ qs) n ((j, m), a) (o, os) = elim (Bool-cases (same_key r q)) [
  | inl e ↦ rw e (
    λ k l.
        o k (subst (Names q) (sym ((same_key_iff r q i j n m).0 e) ∙ identity_unique r i k n l) m),
    os,
  )
  | inr e ↦ rw e (
    λ k l named. elim ((Named-put_record r i qs k n a).0 named) [
      | inl same ↦ cc ((same_key_iff r q i j n m).1 (sym same ∙ identity_unique q k j l m), e)
      | inr old ↦ o k l old
    ],
    put_record-NamedOnce r i qs n a os,
  )
]

-- The dictionary has the same processes as the list.
pub Named-each_once :
    (seen rs : List Record) (x : Identity)
    → AllNamed seen
    → AllNamed rs
    → Named (each_once seen rs) x ↔ (Named seen x ⊎ Named rs x)
unfolding each_once AllNamed
Named-each_once seen [] x s a =
    (λ h. inl h, λ h. elim h [ inl k ↦ k | inr k ↦ absurd (Named-nil x k) ])
Named-each_once seen (r ∷ rs) x s ((i, n), a) =
    let (there, back) =
      Named-each_once (put_record r seen) rs x (put_record-All _ r seen (i, n) s) a in
    let (put, put_back) = Named-put_record r i seen x n s in
    let (new, new_back) = Named-cons r rs i x n in
    (
      λ h. elim (there h) [
        | inl k ↦ elim (put k) [ inl k2 ↦ inr (new_back (inl k2)) | inr k2 ↦ inl k2 ]
        | inr k ↦ inr (new_back (inr k))
      ],
      λ h. elim h [
        | inl k ↦ back (inl (put_back (inr k)))
        | inr k ↦ elim (new k) [ inl k2 ↦ back (inl (put_back (inl k2))) | inr k2 ↦ back (inr k2) ]
      ],
    )

pub each_once-NamedOnce :
    (seen rs : List Record)
    → AllNamed seen
    → AllNamed rs
    → NamedOnce seen
    → NamedOnce (each_once seen rs) × AllNamed (each_once seen rs)
unfolding each_once AllNamed
each_once-NamedOnce seen [] s a o = (o, s)
each_once-NamedOnce seen (r ∷ rs) s ((i, n), a) o =
    each_once-NamedOnce (put_record r seen) rs (put_record-All _ r seen (i, n) s) a
      (put_record-NamedOnce r i seen n s o)
