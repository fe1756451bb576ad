-- ===== src/Runtime/Controller/Sweep.antt =====
-- What a sweep leaves and takes, and the identities of the records.
use lcl_fastapi.Prelude.{
  Bool, true, false, not, List, [], ◌∷◌, ◌++◌, ◌≡◌, ◌↔◌, ◌⊎◌, refl, sym, ap, ◌∙◌, map, Has,
  Has-append-left, Has-append-right, Bool-cases, inl, inr,
}
use lcl_fastapi.Background.Expiry.{sweep}

pub Has-map :
    {A B : Type 0} (f : A → B) (xs : List A) (y : B)
    → Has (map f xs) y ↔ ((x : A) × Has xs x × (f x ≡ y))
Has-map f [] y = (λ h. absurd h, λ (x, h, e). h)
Has-map f (x ∷ xs) y =
    let (there, back) = Has-map f xs y in
    (
      λ h. elim h [ inl e ↦ (x, inl refl, e) | inr k ↦ let (z, at, e) = there k in (z, inr at, e) ],
      λ (z, h, e). elim h [ inl q ↦ inl (ap f q ∙ e) | inr k ↦ inr (back (z, k, e)) ],
    )

pub Has-append : {A : Type 0} (xs ys : List A) (x : A) → Has (xs ++ ys) x ↔ (Has xs x ⊎ Has ys x)
Has-append [] ys x = (λ h. inr h, λ h. elim h [ inl k ↦ absurd k | inr k ↦ k ])
Has-append (y ∷ xs) ys x =
    let (there, back) = Has-append xs ys x in
    (
      λ h. elim h [
        | inl e ↦ inl (inl e)
        | inr k ↦ elim (there k) [ inl a ↦ inl (inr a) | inr b ↦ inr b ]
      ],
      λ h. elim h [
        | inl k ↦ Has-append-left (y ∷ xs) ys x k
        | inr k ↦ Has-append-right (y ∷ xs) ys x k
      ],
    )

module _ {A : Type 0} (live due : A → Bool) where
  -- A head that a test turns down is not the element that passes it.
  other :
      (f : A → Bool) (b : Bool) (y x : A) (rest : Type 0)
      → f y ≡ not b
      → f x ≡ b
      → (y ≡ x) ⊎ rest
      → rest
  other f true y x rest e h (inl q) = absurd (cc (ap f q, e, h))
  other f false y x rest e h (inl q) = absurd (cc (ap f q, e, h))
  other f b y x rest e h (inr k) = k

  -- Taken are the live ones that are due.
  pub taken_iff :
      (xs : List A) (x : A)
      → Has (sweep live due xs).1 x ↔ (Has xs x × (live x ≡ true) × (due x ≡ true))
  unfolding sweep
  taken_iff [] x = (λ h. absurd h, λ (h, l, d). h)
  taken_iff (y ∷ ys) x =
      let (there, back) = taken_iff ys x in
      elim (Bool-cases (live y)) [
        | inr e ↦ rw e (
          λ h. let (at, l, d) = there h in (inr at, l, d),
          λ (h, l, d). back (other live true y x (Has ys x) e l h, l, d),
        )
        | inl e ↦ elim (Bool-cases (due y)) [
          | inl d ↦
              rw (e, d)
                (
                  λ h. elim h [
                    | inl q ↦ (inl q, ap live (sym q) ∙ e, ap due (sym q) ∙ d)
                    | inr k ↦ let (at, l, d) = there k in (inr at, l, d)
                  ],
                  λ (h, l, d). elim h [ inl q ↦ inl q | inr k ↦ inr (back (k, l, d)) ],
                )
          | inr n ↦
              rw (e, n)
                (
                  λ h. let (at, l, d) = there h in (inr at, l, d),
                  λ (h, l, d). back (other due true y x (Has ys x) n d h, l, d),
                )
        ]
      ]

  -- Left are the live ones that are not due.
  pub left_iff :
      (xs : List A) (x : A)
      → Has (sweep live due xs).0 x ↔ (Has xs x × (live x ≡ true) × (due x ≡ false))
  unfolding sweep
  left_iff [] x = (λ h. absurd h, λ (h, l, d). h)
  left_iff (y ∷ ys) x =
      let (there, back) = left_iff ys x in
      elim (Bool-cases (live y)) [
        | inr e ↦ rw e (
          λ h. let (at, l, d) = there h in (inr at, l, d),
          λ (h, l, d). back (other live true y x (Has ys x) e l h, l, d),
        )
        | inl e ↦ elim (Bool-cases (due y)) [
          | inr n ↦
              rw (e, n)
                (
                  λ h. elim h [
                    | inl q ↦ (inl q, ap live (sym q) ∙ e, ap due (sym q) ∙ n)
                    | inr k ↦ let (at, l, d) = there k in (inr at, l, d)
                  ],
                  λ (h, l, d). elim h [ inl q ↦ inl q | inr k ↦ inr (back (k, l, d)) ],
                )
          | inl d ↦
              rw (e, d)
                (
                  λ h. let (at, l, d) = there h in (inr at, l, d),
                  λ (h, l, n). back (other due false y x (Has ys x) d n h, l, n),
                )
        ]
      ]
