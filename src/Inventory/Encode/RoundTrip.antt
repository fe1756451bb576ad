-- ===== src/Inventory/Encode/RoundTrip.antt =====
-- The path of a request is read back as the path that was encoded.
use Prim.Native.Nat.{◌/◌, ◌%◌}
use lcl_fastapi.Prelude.{
  All, ℕ, ◌<◌, Text, Bool, true, false, ◌||◌, Option, none, some, List, [], ◌∷◌, ◌++◌, ◌≡◌, refl,
  sym, ap, ◌∙◌, arith, ◌==◌, if◌then◌else◌, contains, all, all-append, Bool-cases, inl, inr,
  append_assoc,
}
use lcl_fastapi.Inventory.Encode.{
  utf8, percent, hex_digit, is_unreserved, is_surrogate, encode_char, encode_uri_component,
  split_path, encode_each, join_path, joined, encode_path,
}
use lcl_fastapi.Inventory.Encode.Decode.{
  push, prepend, unpercent, decode, decode_from, read_path, decode-utf8, unpercent-percent,
  utf8-bytes,
}

-- A code point that is no half of a surrogate pair.
abbrev pub IsScalar : ℕ → Type 0
IsScalar c = (c < 0x110000) × (is_surrogate c ≡ false)

-- What can stand in the path of a request: no question mark, number sign or blank.
abbrev pub is_path_char : ℕ → Bool
is_path_char c = is_unreserved c || c == b'/' || c == b'%'

slash : (c : ℕ) (t u : Text) → (c == b'/') ≡ true → t ≡ u → c ∷ t ≡ b'/' ∷ u
slash c t u h e = ground (arith, h, e)

-- The path, encoded character by character.
unfoldable encoded : Text → Text
encoded [] = []
encoded (c ∷ s) = (if c == b'/' then c ∷ [] else encode_char c) ++ encoded s

-- The segments of a path and what they are encoded to.
record Parts (s t : Text) : Type 0 where
  first : Text
  others : List Text
  first_encoded : Text
  others_encoded : List Text
  cut : split_path s ≡ first ∷ others
  first_done : encode_uri_component first ≡ some first_encoded
  others_done : encode_each others ≡ some others_encoded
  put_together : t ≡ join_path (first_encoded ∷ others_encoded)

join_path-first :
    (t u : Text) (us : List Text) → join_path ((t ++ u) ∷ us) ≡ t ++ join_path (u ∷ us)
unfolding join_path
join_path-first t u [] = refl
join_path-first t u (v ∷ us) = append_assoc t u (b'/' ∷ join_path (v ∷ us))

encode_each-cons :
    (t : Text) (ts : List Text) {u : Text} {us : List Text}
    → encode_uri_component t ≡ some u
    → encode_each ts ≡ some us
    → encode_each (t ∷ ts) ≡ some (u ∷ us)
unfolding encode_each
encode_each-cons t ts h k = ground (arith, h, k)

encode_uri_component-cons :
    (c : ℕ) (s : Text) {t : Text}
    → is_surrogate c ≡ false
    → encode_uri_component s ≡ some t
    → encode_uri_component (c ∷ s) ≡ some (encode_char c ++ t)
unfolding encode_uri_component
encode_uri_component-cons c s h k = ground (arith, h, k)

encoded-Parts : (s : Text) → All IsScalar s → Parts s (encoded s)
unfolding encoded split_path encode_uri_component encode_each join_path
encoded-Parts [] h = record {
  first = [];
  others = [];
  first_encoded = [];
  others_encoded = [];
  cut = refl;
  first_done = refl;
  others_done = refl;
  put_together = refl;
}
encoded-Parts (c ∷ s) h =
    let p = encoded-Parts s h.1 in
    elim (Bool-cases (c == b'/')) [
      | inl q ↦ record {
        first = [];
        others = p.first ∷ p.others;
        first_encoded = [];
        others_encoded = p.first_encoded ∷ p.others_encoded;
        cut = rw (q, p.cut) refl;
        first_done = refl;
        others_done = encode_each-cons p.first p.others p.first_done p.others_done;
        put_together = rw q (slash c (encoded s) _ q p.put_together);
      }
      | inr q ↦ record {
        first = c ∷ p.first;
        others = p.others;
        first_encoded = encode_char c ++ p.first_encoded;
        others_encoded = p.others_encoded;
        cut = rw (q, p.cut) refl;
        first_done = encode_uri_component-cons c p.first h.0.1 p.first_done;
        others_done = p.others_done;
        put_together = rw q (
            ap (λ x. encode_char c ++ x) p.put_together
            ∙ sym (join_path-first (encode_char c) p.first_encoded p.others_encoded));
      }
    ]

encode_path-encoded : (s : Text) → All IsScalar s → encode_path s ≡ some (encoded s)
unfolding encode_path encode_each
encode_path-encoded s h =
    let p = encoded-Parts s h in
    ap (λ x. joined (encode_each x)) p.cut
    ∙ ap joined (encode_each-cons p.first p.others p.first_done p.others_done)
    ∙ ap some (sym p.put_together)

unpercent-plain :
    (c : ℕ) (t : Text) → (c == b'%') ≡ false → unpercent (c ∷ t) ≡ push c (unpercent t)
unfolding unpercent
unpercent-plain c [] h = rw h refl
unpercent-plain c (d ∷ []) h = rw h refl
unpercent-plain c (d ∷ e ∷ t) h = rw h refl

unreserved : (c : ℕ) → is_unreserved c ≡ true → (c < 0x80) × ((c == b'%') ≡ false)
unfolding is_unreserved contains
unreserved c h = ground arith

unreserved-prepend :
    (c : ℕ) (o : Option (List ℕ)) → is_unreserved c ≡ true → push c o ≡ prepend (utf8 c) o
unreserved-prepend c none h = refl
unreserved-prepend c (some bs) h = unfold utf8 in ground (arith, unreserved c h)

unpercent-encode_char :
    (c : ℕ) (t : Text)
    → c < 0x110000
    → unpercent (encode_char c ++ t) ≡ prepend (utf8 c) (unpercent t)
unfolding encode_char
unpercent-encode_char c t h = elim (Bool-cases (is_unreserved c)) [
  | inl e ↦ rw e (unpercent-plain c t (unreserved c e).1 ∙ unreserved-prepend c (unpercent t) e)
  | inr e ↦ rw e (unpercent-percent (utf8 c) t (utf8-bytes c h))
]

abbrev bytes : Text → List ℕ
bytes [] = []
bytes (c ∷ s) = utf8 c ++ bytes s

decode-bytes : (s : Text) → All IsScalar s → decode (bytes s) ≡ some s
decode-bytes [] h = unfold decode_from in refl
decode-bytes (c ∷ s) h = rw (decode-utf8 c (bytes s) h.0.0, decode-bytes s h.1) refl

not_percent : (c : ℕ) → (c == b'/') ≡ true → (c == b'%') ≡ false
not_percent c q = ground (arith, q)

slash_bytes : (c : ℕ) (bs : List ℕ) → (c == b'/') ≡ true → c ∷ bs ≡ utf8 c ++ bs
unfolding utf8
slash_bytes c bs q = ground (arith, q)

hex_digit-path_char : (n : ℕ) → n < 16 → is_path_char (hex_digit n) ≡ true
unfolding is_unreserved contains
hex_digit-path_char n h = ground arith

all-cons :
    (c : ℕ) (s : Text)
    → is_path_char c ≡ true
    → all is_path_char s ≡ true
    → all is_path_char (c ∷ s) ≡ true
unfolding all
all-cons c s h k = ground (arith, h, k)

unpercent-encoded : (s : Text) → All IsScalar s → unpercent (encoded s) ≡ some (bytes s)
unfolding encoded
unpercent-encoded [] h = unfold unpercent in refl
unpercent-encoded (c ∷ s) h = elim (Bool-cases (c == b'/')) [
  | inl q ↦ rw q (
      unpercent-plain c (encoded s) (not_percent c q)
      ∙ ap (push c) (unpercent-encoded s h.1)
      ∙ ap some (slash_bytes c (bytes s) q))
  | inr q ↦
      rw q (
        unpercent-encode_char c (encoded s) h.0.0 ∙ ap (prepend (utf8 c)) (unpercent-encoded s h.1))
]

percent-path_char : (bs : List ℕ) → All (λ b. b < 256) bs → all is_path_char (percent bs) ≡ true
unfolding percent
percent-path_char [] h = unfold all in refl
percent-path_char (b ∷ bs) h = all-cons b'%' _ (unfold is_unreserved contains in refl) (
    all-cons _ _ (hex_digit-path_char (b / 16) (omega (arith, h.0)))
      (all-cons _ _ (hex_digit-path_char (b % 16) (omega arith)) (percent-path_char bs h.1)))

encode_char-path_char : (c : ℕ) → c < 0x110000 → all is_path_char (encode_char c) ≡ true
unfolding encode_char
encode_char-path_char c h = elim (Bool-cases (is_unreserved c)) [
  | inl e ↦ rw e (all-cons c [] (ground (arith, e)) (unfold all in refl))
  | inr e ↦ rw e (percent-path_char (utf8 c) (utf8-bytes c h))
]

encoded-path_char : (s : Text) → All IsScalar s → all is_path_char (encoded s) ≡ true
unfolding encoded
encoded-path_char [] h = unfold all in refl
encoded-path_char (c ∷ s) h = elim (Bool-cases (c == b'/')) [
  | inl q ↦ rw q (all-cons c (encoded s) (ground (arith, q)) (encoded-path_char s h.1))
  | inr q ↦ rw q (
      all-append is_path_char (encode_char c) (encoded s) (encode_char-path_char c h.0.0)
        (encoded-path_char s h.1))
]

read_path-some : (t : Text) {bs : List ℕ} → unpercent t ≡ some bs → read_path t ≡ decode bs
unfolding read_path
read_path-some t h = ground (arith, h)

-- A path of whole characters is always encoded. The result has no question mark, number sign, blank
-- or other character that ends the path of a request, and a server that undoes the percent signs and
-- reads UTF-8 has the path again, character for character.
pub read_path-encode_path :
    (path : Text)
    → All IsScalar path
    → (t : Text) × (encode_path path ≡ some t)
      × (all is_path_char t ≡ true)
      × (read_path t ≡ some path)
read_path-encode_path path h = (
  encoded path,
  encode_path-encoded path h,
  encoded-path_char path h,
  read_path-some (encoded path) (unpercent-encoded path h) ∙ decode-bytes path h,
)
