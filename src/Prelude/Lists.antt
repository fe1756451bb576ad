-- ===== src/Prelude/Lists.antt =====
-- Lists over the native numbers, under the library's names, and lists split by a Boolean test.
use Prim.Native.Nat.{ℕ, zero, suc, ◌+◌}
use mathlib.Core.Path.{◌≡◌, refl}
use mathlib.Core.Logic.{◌⊎◌, inl, inr}
use mathlib.Core.Bool.{Bool, true, false, ◌&&◌, ◌||◌}
use mathlib.Core.List.{List, [], ◌∷◌, ◌++◌}
use native.Mathlib.Omega.{arith}
use lcl_fastapi.Prelude.Tests.{if◌then◌else◌}

module _ {ℓ} {A : Type ℓ} where
  abbrev pub length : List A → ℕ
  length [] = 0
  length (x ∷ xs) = suc (length xs)

  pub length-append : (xs ys : List A) → length (xs ++ ys) ≡ length xs + length ys
  length-append [] ys = omega arith
  length-append (x ∷ xs) ys = omega (arith, length-append xs ys)

  abbrev pub take : ℕ → List A → List A
  take zero xs = []
  take (suc n) [] = []
  take (suc n) (x ∷ xs) = x ∷ take n xs

  -- The longest beginning whose elements pass the test, and what follows it.
  unfoldable pub take_while : (A → Bool) → List A → List A
  take_while p [] = []
  take_while p (x ∷ xs) = let rest = take_while p xs in if p x then x ∷ rest else []

  unfoldable pub drop_while : (A → Bool) → List A → List A
  drop_while p [] = []
  drop_while p (x ∷ xs) = let rest = drop_while p xs in if p x then rest else x ∷ xs

  pub take_while-append-drop_while :
      (p : A → Bool) (xs : List A) → take_while p xs ++ drop_while p xs ≡ xs
  unfolding take_while drop_while
  take_while-append-drop_while p [] = refl
  take_while-append-drop_while p (x ∷ xs) = ground (arith, take_while-append-drop_while p xs)

  unfoldable pub all : (A → Bool) → List A → Bool
  all p [] = true
  all p (x ∷ xs) = p x && all p xs

  pub all-append :
      (p : A → Bool) (s t : List A) → all p s ≡ true → all p t ≡ true → all p (s ++ t) ≡ true
  unfolding all
  all-append p [] t hs ht = ht
  all-append p (c ∷ s) t hs ht = ground (arith, all-append p s t)

  unfoldable pub any : (A → Bool) → List A → Bool
  any p [] = false
  any p (x ∷ xs) = p x || any p xs

-- A predicate by recursion, which the tactics read and build.
abbrev pub All {ℓ κ} : {A : Type ℓ} → (A → Type κ) → List A → Type κ
All P [] = Unit
All P (x ∷ xs) = P x × All P xs

pub All-append {ℓ κ} :
    {A : Type ℓ} (P : A → Type κ) (xs ys : List A) → All P xs → All P ys → All P (xs ++ ys)
All-append P [] ys hx hy = hy
All-append P (x ∷ xs) ys hx hy = (hx.0, All-append P xs ys hx.1 hy)

pub All-split {ℓ κ} :
    {A : Type ℓ} (P : A → Type κ) (xs ys : List A) → All P (xs ++ ys) → All P xs × All P ys
All-split P [] ys h = (tt, h)
All-split P (x ∷ xs) ys (a, h) = let (l, r) = All-split P xs ys h in ((a, l), r)

-- The element is one of the list.
abbrev pub Has : {A : Type 0} → List A → A → Type 0
Has [] x = ⊥
Has (y ∷ ys) x = (y ≡ x) ⊎ Has ys x

pub Has-append-left : {A : Type 0} (xs ys : List A) (x : A) → Has xs x → Has (xs ++ ys) x
Has-append-left [] ys x h = absurd h
Has-append-left (y ∷ xs) ys x (inl e) = inl e
Has-append-left (y ∷ xs) ys x (inr h) = inr (Has-append-left xs ys x h)

pub Has-append-right : {A : Type 0} (xs ys : List A) (x : A) → Has ys x → Has (xs ++ ys) x
Has-append-right [] ys x h = h
Has-append-right (y ∷ xs) ys x h = inr (Has-append-right xs ys x h)
