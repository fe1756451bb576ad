-- ===== src/Highlight/Lexer/Lossless.antt =====
-- `tokenize` ends, and its tokens are the source, cut into pieces.
use lcl_fastapi.Prelude.{
  ℕ, zero, suc, ◌<◌, Text, some, List, [], ◌∷◌, ◌++◌, ◌≡◌, ◌≢◌, refl, ap, ◌∙◌, arith, length,
  length-append, Option-cases, inl, inr, All,
}
use lcl_fastapi.Highlight.Token.{Token}
use lcl_fastapi.Highlight.Pattern.{CharTables, next_token}
use lcl_fastapi.Highlight.Pattern.Takes.{
  KindFits, TakesToken, next_token-TakesToken, next_token-ne-none, next_token-nil,
}
use lcl_fastapi.Highlight.Lexer.{Tokens, tokens, string, exec_loop, tokenize}

-- The texts of the tokens, one after another.
abbrev pub contents : List Token → Text
contents [] = []
contents (t ∷ ts) = t.content ++ contents ts

-- A token holds text, and its kind fits it.
abbrev pub IsWhole : Token → Type 0
IsWhole t = (t.content ≢ []) × KindFits t.kind t.content

-- The tokens of a source: nothing lost, nothing added, no token empty.
pub record Cuts (source : Text) (ts : List Token) : Type 0 where
  pub lossless : contents ts ≡ source
  pub whole : All IsWhole ts

Cuts-cons :
    (source rest : Text) (t : Token) (ts : List Token)
    → TakesToken source (some (t, rest))
    → Cuts rest ts
    → Cuts source (t ∷ ts)
Cuts-cons source rest t ts h c = record {
  lossless = ap (λ x. t.content ++ x) c.lossless ∙ h.0;
  whole = ((h.1, h.2), c.whole);
}

length-ne-nil : (s : Text) → s ≢ [] → 0 < length s
length-ne-nil [] h = absurd (h refl)
length-ne-nil (c ∷ s) h = omega arith

rest-lt :
    (source rest : Text) (t : Token)
    → TakesToken source (some (t, rest))
    → length rest < length source
rest-lt source rest t h =
    omega (arith, ap length h.0, length-append t.content rest, length-ne-nil t.content h.1)

abbrev Done : Text → Tokens → Type 0
Done source r = (ts : List Token) × (r ≡ tokens ts) × Cuts source ts

module _ (u : CharTables) where
  exec_loop-Done : (fuel : ℕ) (s : Text) → length s < fuel → Done s (exec_loop u fuel s)
  unfolding exec_loop
  exec_loop-Done zero s h = absurd (omega arith)
  exec_loop-Done (suc fuel) [] h =
      ([], rw (next_token-nil u, exec_loop), record { lossless = refl; whole = tt })
  exec_loop-Done (suc fuel) (c ∷ s) h = elim (Option-cases (next_token u (c ∷ s))) [
    | inl e ↦ absurd (next_token-ne-none u c s e)
    | inr ((t, rest), e) ↦
        let takes : TakesToken (c ∷ s) (some (t, rest)) =
          rw e at (next_token-TakesToken u (c ∷ s)) in
        let (ts, done, cuts) =
          exec_loop-Done fuel rest (omega (arith, rest-lt (c ∷ s) rest t takes)) in
        (t ∷ ts, rw (e, exec_loop) (rw done), Cuts-cons (c ∷ s) rest t ts takes cuts)
  ]

  pub tokenize-Cuts :
      (source : Text)
      → (ts : List Token) × (tokenize u (string source) ≡ tokens ts) × Cuts source ts
  unfolding tokenize
  tokenize-Cuts source = exec_loop-Done (suc (length source)) source (omega arith)
