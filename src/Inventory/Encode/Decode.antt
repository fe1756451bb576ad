-- ===== src/Inventory/Encode/Decode.antt =====
-- A server's reading of a request's path, percent signs and UTF-8, independently of the encoding.
use Prim.Native.Nat.{◌*◌, ◌/◌, ◌%◌}
use lcl_fastapi.Prelude.{
  All, zero, suc, ℕ, ◌+◌, ◌-◌, ◌<◌, Text, Option, none, some, List, [], ◌∷◌, ◌++◌, ◌≡◌, refl, arith,
  ◌==◌, ltb, within, if◌then◌else◌,
}
use lcl_fastapi.Inventory.Encode.{utf8, percent, hex_digit}

abbrev pub push : ℕ → Option (List ℕ) → Option (List ℕ)
push b none = none
push b (some bs) = some (b ∷ bs)

-- The value of a hexadecimal digit.
abbrev pub digit : ℕ → ℕ
digit c = if within b'0' b'9' c then c - b'0' else c - b'7'

abbrev pub prepend : List ℕ → Option (List ℕ) → Option (List ℕ)
prepend bs none = none
prepend bs (some cs) = some (bs ++ cs)

-- Percent signs with two digits are bytes; other characters are themselves.
unfoldable pub unpercent : Text → Option (List ℕ)
unpercent [] = some []
unpercent (c ∷ d ∷ e ∷ s) =
    let coded = unpercent s in
    let plain = unpercent (d ∷ e ∷ s) in
    if c == b'%' then push (digit d * 16 + digit e) coded else push c plain
unpercent (c ∷ s) = let rest = unpercent s in if c == b'%' then none else push c rest

-- Bytes read as UTF-8: how many more the character takes, and its bits so far.
unfoldable pub decode_from : ℕ → ℕ → List ℕ → Option Text
decode_from zero bits [] = some []
decode_from (suc n) bits [] = none
decode_from zero bits (b ∷ bs) =
    let one = decode_from 0 0 bs in
    let two = decode_from 1 (b - 0xc0) bs in
    let three = decode_from 2 (b - 0xe0) bs in
    let four = decode_from 3 (b - 0xf0) bs in
    if ltb b 0x80
    then push b one
    else if ltb b 0xe0
    then two
    else if ltb b 0xf0
    then three
    else four
decode_from (suc zero) bits (b ∷ bs) = push (bits * 64 + (b - 0x80)) (decode_from 0 0 bs)
decode_from (suc (suc n)) bits (b ∷ bs) = decode_from (suc n) (bits * 64 + (b - 0x80)) bs

abbrev pub decode : List ℕ → Option Text
decode bs = decode_from 0 0 bs

-- The path that the text of a request stands for.
unfoldable pub read_path : Text → Option Text
read_path t = elim (unpercent t) [ none ↦ none | some bs ↦ decode bs ]

two_bytes : (c : ℕ) → ((0xc0 + c / 64) - 0xc0) * 64 + ((0x80 + c % 64) - 0x80) ≡ c
two_bytes c = omega arith

three_bytes :
    (c : ℕ)
    → (((0xe0 + c / 4096) - 0xe0) * 64 + ((0x80 + (c / 64) % 64) - 0x80)) * 64
        + ((0x80 + c % 64) - 0x80)
      ≡ c
three_bytes c = omega arith

four_bytes :
    (c : ℕ)
    → ((((0xf0 + c / 262144) - 0xf0) * 64 + ((0x80 + (c / 4096) % 64) - 0x80)) * 64
            + ((0x80 + (c / 64) % 64) - 0x80))
          * 64
        + ((0x80 + c % 64) - 0x80)
      ≡ c
four_bytes c = omega arith

pub decode-utf8 : (c : ℕ) (bs : List ℕ) → c < 0x110000 → decode (utf8 c ++ bs) ≡ push c (decode bs)
unfolding decode_from utf8
decode-utf8 c bs h = ground (arith, two_bytes c, three_bytes c, four_bytes c)

digit-hex_digit : (n : ℕ) → n < 16 → digit (hex_digit n) ≡ n
digit-hex_digit n h = ground arith

prepend_nil : (o : Option (List ℕ)) → o ≡ prepend [] o
prepend_nil none = refl
prepend_nil (some cs) = refl

push-prepend :
    (b : ℕ) (bs : List ℕ) (o : Option (List ℕ)) → push b (prepend bs o) ≡ prepend (b ∷ bs) o
push-prepend b bs none = refl
push-prepend b bs (some cs) = refl

pub unpercent-percent :
    (bs : List ℕ) (t : Text)
    → All (λ b. b < 256) bs
    → unpercent (percent bs ++ t) ≡ prepend bs (unpercent t)
unfolding unpercent percent
unpercent-percent [] t h = prepend_nil (unpercent t)
unpercent-percent (b ∷ bs) t h =
    let e : digit (hex_digit (b / 16)) * 16 + digit (hex_digit (b % 16)) ≡ b = omega (
      arith,
      h.0,
      digit-hex_digit (b / 16) (omega (arith, h.0)),
      digit-hex_digit (b % 16) (omega arith),
    ) in
    rw (e, unpercent-percent bs t h.1) (push-prepend b bs (unpercent t))

pub utf8-bytes : (c : ℕ) → c < 0x110000 → All (λ b. b < 256) (utf8 c)
unfolding utf8
utf8-bytes c h = ground arith
