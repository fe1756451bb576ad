-- ===== src/Background/Writer/Lines.antt =====
-- The controller's reading of whole lines, and the numbers of the records.
use Prim.Native.String.{String}
use lcl_fastapi.Prelude.{
  ℕ, zero, suc, ◌+◌, ◌≤◌, ◌<◌, Text, true, false, Option, List, [], ◌∷◌, ◌++◌, ◌≡◌, refl, sym, ap,
  ◌∙◌, arith, ◌==◌, length, length-append, append_assoc, contains, All,
}
use lcl_fastapi.Runtime.State.Value.{Record, int}
use lcl_fastapi.Background.Journal.{Events, readline, ends_line, drop, take_line, read_loop, read}
use lcl_fastapi.Background.Journal.Lines.{drop-length}
use lcl_fastapi.Background.Journal.Once.{offset-take_line}
use lcl_fastapi.Background.Writer.{line, lines, numbered, put}

readline-append_line :
    (t g : Text)
    → contains t b'\n' ≡ false
    → readline ((t ++ b'\n' ∷ []) ++ g) ≡ (t ++ b'\n' ∷ [], g)
unfolding readline contains
readline-append_line [] g h = refl
readline-append_line (c ∷ t) g h = rw (apart c h, readline-append_line t g (later c h)) refl
  where
    apart : (c : ℕ) → contains (c ∷ t) b'\n' ≡ false → (c == b'\n') ≡ false
    apart c h = unfold contains in ground (arith, h)

    later : (c : ℕ) → contains (c ∷ t) b'\n' ≡ false → contains t b'\n' ≡ false
    later c h = unfold contains in ground (arith, h)

ends_line-append : (t : Text) → ends_line (t ++ b'\n' ∷ []) ≡ true
unfolding ends_line
ends_line-append [] = refl
ends_line-append (c ∷ []) = refl
ends_line-append (c ∷ d ∷ t) = ends_line-append (d ∷ t)

pub numbered-append :
    (n : ℕ) (rs qs : List Record)
    → numbered n (rs ++ qs) ≡ numbered n rs ++ numbered (n + length rs) qs
unfolding numbered
numbered-append n [] qs = let e : n ≡ n + 0 = omega arith in ap (λ k. numbered k qs) e
numbered-append n (r ∷ rs) qs =
    let e : suc n + length rs ≡ n + suc (length rs) = omega arith in
    ap (λ xs. put r "sequence" (int (suc n)) ∷ xs)
      (numbered-append (suc n) rs qs ∙ ap (λ k. numbered (suc n) rs ++ numbered k qs) e)

pub length-numbered : (n : ℕ) (rs : List Record) → length (numbered n rs) ≡ length rs
unfolding numbered
length-numbered n [] = refl
length-numbered n (r ∷ rs) = omega (arith, length-numbered (suc n) rs)

module _ (encode : Record → Text) (decode : Text → Option Record) (service_id : String) where
  -- What json.dumps writes stands on one line.
  abbrev pub IsOneLine : Record → Type 0
  IsOneLine r = contains (encode r) b'\n' ≡ false

  unfoldable pub consume : List Record → Events → Events
  consume [] e = e
  consume (r ∷ rs) e = consume rs (take_line decode service_id (line encode r) e)

  pub consume-append :
      (rs qs : List Record) (e : Events) → consume (rs ++ qs) e ≡ consume qs (consume rs e)
  unfolding consume
  consume-append [] qs e = refl
  consume-append (r ∷ rs) qs e = consume-append rs qs _

  read_loop-lines :
      (rs : List Record) (f : ℕ) (e : Events)
      → All IsOneLine rs
      → length (lines encode rs) < f
      → read_loop decode service_id f (lines encode rs) e ≡ consume rs e
  unfolding read_loop lines consume
  read_loop-lines rs zero e h less = absurd (omega arith)
  read_loop-lines [] (suc f) e h less = unfold readline ends_line in refl
  read_loop-lines (r ∷ rs) (suc f) e h less =
      rw (split r (lines encode rs) h.0, ended r)
        (read_loop-lines rs f (take_line decode service_id (line encode r) e) h.1
          (omega (arith, less, shorter r (lines encode rs))))
    where
      split :
          (r : Record) (g : Text) → IsOneLine r → readline (line encode r ++ g) ≡ (line encode r, g)
      split r g h = unfold line in readline-append_line (encode r) g h

      ended : (r : Record) → ends_line (line encode r) ≡ true
      ended r = unfold line in ends_line-append (encode r)

      shorter : (r : Record) (g : Text) → suc (length g) ≤ length (line encode r ++ g)
      shorter r g =
          unfold line in
          omega
            (arith, length-append (encode r ++ b'\n' ∷ []) g, length-append (encode r) (b'\n' ∷ []))

  -- A read takes the lines that were appended since the offset.
  pub read-lines :
      (before : Text) (rs : List Record) (e : Events)
      → e.offset ≡ length before
      → All IsOneLine rs
      → read decode service_id (before ++ lines encode rs) e ≡ consume rs e
  unfolding read
  read-lines before rs e at h =
      let rest : drop e.offset (before ++ lines encode rs) ≡ lines encode rs =
        ap (λ n. drop n (before ++ lines encode rs)) at ∙ drop-length before (lines encode rs) in
      ap (λ b. read_loop decode service_id (suc (length b)) b e) rest
      ∙ read_loop-lines rs (suc (length (lines encode rs))) e h (omega arith)

  pub lines-append :
      (rs qs : List Record) → lines encode (rs ++ qs) ≡ lines encode rs ++ lines encode qs
  unfolding lines
  lines-append [] qs = refl
  lines-append (r ∷ rs) qs =
      ap (λ t. line encode r ++ t) (lines-append rs qs)
      ∙ sym (append_assoc (line encode r) (lines encode rs) (lines encode qs))

  pub offset-consume :
      (rs : List Record) (e : Events) → (consume rs e).offset ≡ e.offset + length (lines encode rs)
  unfolding consume lines
  offset-consume [] e = omega arith
  offset-consume (r ∷ rs) e = omega (
    arith,
    offset-consume rs (take_line decode service_id (line encode r) e),
    offset-take_line decode service_id (line encode r) e,
    length-append (line encode r) (lines encode rs),
  )
