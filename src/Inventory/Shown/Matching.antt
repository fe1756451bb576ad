-- ===== src/Inventory/Shown/Matching.antt =====
-- `includes`, the test of the filter, and an independent description of it.
use lcl_fastapi.Prelude.{
  ℕ, Text, true, [], ◌∷◌, ◌++◌, ◌≡◌, ◌↔◌, refl, sym, ap, arith, Bool-cases, inl, inr, subst,
}
use lcl_fastapi.Inventory.{begins, includes}

-- The text stands somewhere in the other.
abbrev pub Holds : Text → Text → Type 0
Holds s t = (a : Text) × (b : Text) × (s ≡ a ++ (t ++ b))

begins-some : (s t : Text) → begins s t ≡ true → (b : Text) × (s ≡ t ++ b)
unfolding begins
begins-some s [] h = (s, refl)
begins-some [] (c ∷ t) h = cc
begins-some (d ∷ s) (c ∷ t) h =
    let (b, e) = begins-some s t (ground arith) in (b, ground (arith, e, h))

begins-append : (t b : Text) → begins (t ++ b) t ≡ true
unfolding begins
begins-append [] b = refl
begins-append (c ∷ t) b = ground (arith, begins-append t b)

includes-Holds : (s t : Text) → includes s t ≡ true → Holds s t
unfolding includes
includes-Holds [] t h = let (b, e) = begins-some [] t h in ([], b, e)
includes-Holds (d ∷ s) t h = elim (Bool-cases (begins (d ∷ s) t)) [
  | inl e ↦ let (b, q) = begins-some (d ∷ s) t e in ([], b, q)
  | inr e ↦
      let (a, b, q) = includes-Holds s t (ground (arith, e, h)) in (d ∷ a, b, ap (λ x. d ∷ x) q)
]

begins-includes : (s t : Text) → begins s t ≡ true → includes s t ≡ true
unfolding includes
begins-includes [] t h = h
begins-includes (d ∷ s) t h = rw h refl

includes-append : (a t b : Text) → includes (a ++ (t ++ b)) t ≡ true
includes-append [] t b = begins-includes (t ++ b) t (begins-append t b)
includes-append (d ∷ a) t b = unfold-includes d (a ++ (t ++ b)) t (includes-append a t b)
  where
    unfold-includes : (d : ℕ) (s t : Text) → includes s t ≡ true → includes (d ∷ s) t ≡ true
    unfold-includes d s t h = unfold includes in ground (arith, h)

-- The test of the filter finds a text exactly where it stands.
pub includes_iff : (s t : Text) → (includes s t ≡ true) ↔ Holds s t
includes_iff s t = (
  includes-Holds s t,
  λ (a, b, e). subst (λ x. includes x t ≡ true) (sym e) (includes-append a t b),
)
