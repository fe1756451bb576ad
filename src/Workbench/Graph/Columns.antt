-- ===== src/Workbench/Graph/Columns.antt =====
-- The two columns of names in a graph.
use Prim.Native.Nat.{◌*◌}
use lcl_fastapi.Prelude.{
  ℕ, suc, ◌+◌, ◌≤◌, ◌<◌, Text, same_text, same_text_iff, member, true, false, some, List, [], ◌∷◌,
  ◌≡◌, refl, sym, ◌∙◌, subst, length, arith, All, Has, Bool-cases, inl, inr,
}
use lcl_fastapi.Workbench.Graph.{Label, unique_after, index_of, labels_from}

-- No name stands twice.
abbrev pub Distinct : List Text → Type 0
Distinct [] = Unit
Distinct (t ∷ ts) = (member ts t ≡ false) × Distinct ts

pub index_of-there :
    (x k : ℕ) (ts : List Text) (t : Text)
    → member ts t ≡ true
    → (i : ℕ) × (index_of ts t ≡ some i)
      × Has (labels_from x k ts) (record { x = x; y = 40 + (k + i) * 50; text = t })
unfolding index_of labels_from member
index_of-there x k [] t h = cc
index_of-there x k (u ∷ us) t h = elim (Bool-cases (same_text t u)) [
  | inl e ↦ (
    0,
    rw e refl,
    inl (
        place x (40 + k * 50) (40 + (k + 0) * 50) u t (omega arith)
          (sym ((same_text_iff t u).0 e))),
  )
  | inr e ↦
      let (i, at, there) = index_of-there x (suc k) us t (ground (arith, e, h)) in
      (
        suc i,
        rw (e, at) refl,
        inr (
            subst (λ y. Has (labels_from x (suc k) us) (record { x = x; y = y; text = t }))
              (omega arith) there),
      )
]
  where
    place :
        (x y z : ℕ) (s t : Text)
        → y ≡ z
        → s ≡ t
        → ◌≡◌ {A = Label} (record { x = x; y = y; text = s }) (record { x = x; y = z; text = t })
    place x y z s t e f = ground (arith, e, f)

-- A name that was seen and one that was not are different.
apart :
    (seen : List Text) (t u : Text)
    → member seen t ≡ false
    → member seen u ≡ true
    → same_text t u ≡ false
apart seen t u n m = elim (Bool-cases (same_text t u)) [
  | inl e ↦ absurd (clash (subst (λ x. member seen x ≡ false) ((same_text_iff t u).0 e) n) m)
  | inr e ↦ e
]
  where
    clash : member seen u ≡ false → member seen u ≡ true → ⊥
    clash p q = cc

member-cons :
    (u : Text) (us : List Text) (t : Text) → same_text t u ≡ false → member us t ≡ member (u ∷ us) t
unfolding member
member-cons u us t e = rw e refl

pub member-unique_after :
    (seen ts : List Text) (t : Text)
    → member seen t ≡ false
    → member ts t ≡ true
    → member (unique_after seen ts) t ≡ true
unfolding member unique_after
member-unique_after seen [] t n h = cc
member-unique_after seen (u ∷ us) t n h = elim (Bool-cases (member seen u)) [
  | inl m ↦ rw m (member-unique_after seen us t n (member-cons u us t (apart seen t u n m) ∙ h))
  | inr m ↦ elim (Bool-cases (same_text t u)) [
    | inl e ↦ rw (m, e) refl
    | inr e ↦
        rw (m, e)
          (member-unique_after (u ∷ seen) us t (sym (member-cons u seen t e) ∙ n)
            (member-cons u us t e ∙ h))
  ]
]

symmetric : (t u : Text) → same_text u t ≡ false → same_text t u ≡ false
symmetric t u h = elim (Bool-cases (same_text t u)) [
  | inl e ↦ cc (h, (same_text_iff u t).1 (sym ((same_text_iff t u).0 e)))
  | inr e ↦ e
]

pub seen_first : (u : Text) (seen : List Text) → member (u ∷ seen) u ≡ true
unfolding member
seen_first u seen = rw ((same_text_iff u u).1 refl) refl

unique_after-fresh :
    (seen ts : List Text) (t : Text)
    → member seen t ≡ true
    → member (unique_after seen ts) t ≡ false
unfolding member unique_after
unique_after-fresh seen [] t h = refl
unique_after-fresh seen (u ∷ us) t h = elim (Bool-cases (member seen u)) [
  | inl m ↦ rw m (unique_after-fresh seen us t h)
  | inr m ↦
      rw (m, symmetric t u (apart seen u t m h))
        (unique_after-fresh (u ∷ seen) us t (ground (arith, h)))
]

pub unique_after-Distinct : (seen ts : List Text) → Distinct (unique_after seen ts)
unfolding unique_after
unique_after-Distinct seen [] = tt
unique_after-Distinct seen (u ∷ us) = elim (Bool-cases (member seen u)) [
  | inl m ↦ rw m (unique_after-Distinct seen us)
  | inr m ↦
      rw m (
        unique_after-fresh (u ∷ seen) us u (seen_first u seen),
        unique_after-Distinct (u ∷ seen) us,
      )
]

pub labels_from-within :
    (x k h : ℕ) (ts : List Text)
    → x < 620
    → (k + length ts) * 50 + 30 ≤ h
    → All (λ (l : Label). (l.x < 620) × (l.y + 40 ≤ h)) (labels_from x k ts)
unfolding labels_from
labels_from-within x k h [] w b = tt
labels_from-within x k h (t ∷ ts) w b =
    ((w, omega arith), labels_from-within x (suc k) h ts w (omega arith))
