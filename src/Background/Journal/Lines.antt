-- ===== src/Background/Journal/Lines.antt =====
-- Lines and offsets of a journal that grows.
use lcl_fastapi.Prelude.{
  ℕ, zero, suc, ◌+◌, ◌≤◌, Text, true, false, [], ◌∷◌, ◌++◌, ◌≡◌, refl, sym, ap, ◌∙◌, arith, ◌==◌,
  length, length-append, Bool-cases, inl, inr,
}
use lcl_fastapi.Background.Journal.{readline, ends_line, drop}

pub readline-split : (b : Text) → (readline b).0 ++ (readline b).1 ≡ b
unfolding readline
readline-split [] = refl
readline-split (c ∷ s) = elim (Bool-cases (c == b'\n')) [
  | inl e ↦ rw e refl
  | inr e ↦ rw e (ap (λ x. c ∷ x) (readline-split s))
]

pub readline-le : (c : ℕ) (s : Text) → length (readline (c ∷ s)).1 ≤ length s
readline-le c s =
    unfold readline in
    elim (Bool-cases (c == b'\n')) [
      | inl e ↦ rw e (omega arith)
      | inr e ↦
          rw e (
            omega
              (arith, ap length (readline-split s), length-append (readline s).0 (readline s).1))
    ]

pub ends_line-cons :
    (c : ℕ) (l : Text) → (c == b'\n') ≡ false → ends_line (c ∷ l) ≡ true → ends_line l ≡ true
unfolding ends_line
ends_line-cons c [] e h = ground (arith, e, h)
ends_line-cons c (d ∷ l) e h = h

pub readline-append :
    (b g : Text)
    → ends_line (readline b).0 ≡ true
    → readline (b ++ g) ≡ ((readline b).0, (readline b).1 ++ g)
unfolding readline
readline-append [] g h = absurd (unfold ends_line in cc (h))
readline-append (c ∷ s) g h = elim (Bool-cases (c == b'\n')) [
  | inl e ↦ rw e refl
  | inr e ↦ rw (e, readline-append s g (ends_line-cons c (readline s).0 e (rw e at h))) refl
]

pub drop-append : (n : ℕ) (f g : Text) → n ≤ length f → drop n (f ++ g) ≡ drop n f ++ g
unfolding drop
drop-append zero f g h = refl
drop-append (suc n) [] g h = absurd (omega arith)
drop-append (suc n) (c ∷ f) g h = drop-append n f g (omega arith)

pub drop-nil : (n : ℕ) → drop n [] ≡ []
unfolding drop
drop-nil zero = refl
drop-nil (suc n) = refl

pub drop-add : (m n : ℕ) (f : Text) → drop (m + n) f ≡ drop n (drop m f)
unfolding drop
drop-add zero n f = let z : 0 + n ≡ n = omega arith in ap (λ k. drop k f) z
drop-add (suc m) n [] = drop-nil (suc m + n) ∙ sym (drop-nil n)
drop-add (suc m) n (c ∷ f) =
    let z : suc m + n ≡ suc (m + n) = omega arith in ap (λ k. drop k (c ∷ f)) z ∙ drop-add m n f

pub drop-length : (l x : Text) → drop (length l) (l ++ x) ≡ x
unfolding drop
drop-length [] x = refl
drop-length (c ∷ l) x = drop-length l x

pub length-drop : (n : ℕ) (f : Text) → n ≤ length f → n + length (drop n f) ≡ length f
unfolding drop
length-drop zero f h = omega arith
length-drop (suc n) [] h = absurd (omega arith)
length-drop (suc n) (c ∷ f) h = omega (arith, length-drop n f (omega arith))
