-- ===== src/Inventory/Encode.antt =====
-- `path.split("/").map(encodeURIComponent).join("/")`, with which the directory monitor's page
-- examples/directory_monitor/directory_service/static/app.js makes the paths of its requests.
pub mod Decode
pub mod RoundTrip
use Prim.Native.Nat.{◌/◌, ◌%◌}
use lcl_fastapi.Prelude.{
  ℕ, ◌+◌, ◌-◌, Text, codes, Bool, ◌||◌, Option, none, some, List, [], ◌∷◌, ◌++◌, ◌==◌, ltb, within,
  if◌then◌else◌, contains,
}

-- The bytes of a code point in UTF-8.
unfoldable pub utf8 : ℕ → List ℕ
utf8 c =
    if ltb c 0x80
    then c ∷ []
    else if ltb c 0x800
    then (0xc0 + c / 64) ∷ (0x80 + c % 64) ∷ []
    else if ltb c 0x10000
    then (0xe0 + c / 4096) ∷ (0x80 + (c / 64) % 64) ∷ (0x80 + c % 64) ∷ []
    else (0xf0 + c / 262144)
      ∷ (0x80 + (c / 4096) % 64)
      ∷ (0x80 + (c / 64) % 64)
      ∷ (0x80 + c % 64)
      ∷ []

abbrev pub hex_digit : ℕ → ℕ
hex_digit n = if ltb n 10 then b'0' + n else b'7' + n

unfoldable pub percent : List ℕ → Text
percent [] = []
percent (b ∷ bs) = b'%' ∷ hex_digit (b / 16) ∷ hex_digit (b % 16) ∷ percent bs

-- The characters that encodeURIComponent leaves as they are.
unfoldable pub is_unreserved : ℕ → Bool
is_unreserved c =
    within b'A' b'Z' c || within b'a' b'z' c || within b'0' b'9' c || contains (codes "-_.!~*'()") c

-- Half of a surrogate pair, which a JavaScript string can hold alone.
abbrev pub is_surrogate : ℕ → Bool
is_surrogate c = within 0xd800 0xdfff c

unfoldable pub encode_char : ℕ → Text
encode_char c = if is_unreserved c then c ∷ [] else percent (utf8 c)

-- `none` is the URIError.
unfoldable pub encode_uri_component : Text → Option Text
encode_uri_component [] = some []
encode_uri_component (c ∷ s) =
    let later = encode_uri_component s in
    if is_surrogate c then none else elim later [ none ↦ none | some t ↦ some (encode_char c ++ t) ]

abbrev pub in_first : ℕ → List Text → List Text
in_first c [] = (c ∷ []) ∷ []
in_first c (l ∷ ls) = (c ∷ l) ∷ ls

-- path.split("/")
unfoldable pub split_path : Text → List Text
split_path [] = [] ∷ []
split_path (c ∷ s) = let rest = split_path s in if c == b'/' then [] ∷ rest else in_first c rest

unfoldable pub encode_each : List Text → Option (List Text)
encode_each [] = some []
encode_each (t ∷ ts) = elim (encode_uri_component t) [
  | none ↦ none
  | some u ↦ elim (encode_each ts) [ none ↦ none | some us ↦ some (u ∷ us) ]
]

-- segments.join("/")
unfoldable pub join_path : List Text → Text
join_path [] = []
join_path (t ∷ []) = t
join_path (t ∷ u ∷ ts) = t ++ b'/' ∷ join_path (u ∷ ts)

abbrev pub joined : Option (List Text) → Option Text
joined none = none
joined (some ts) = some (join_path ts)

unfoldable pub encode_path : Text → Option Text
encode_path path = joined (encode_each (split_path path))
