-- ===== src/Highlight/Markup/Reader.antt =====
-- A reader of markup, independent of the highlighter: what a browser takes a text to be.
use lcl_fastapi.Prelude.{ℕ, Text, codes, List, [], ◌∷◌, ◌++◌, ◌==◌, if◌then◌else◌, same_text, map}

-- A character of text, or a tag with what stands between its brackets.
pub data Piece : Type 0 where
  char : ℕ → Piece
  tag : Text → Piece

pub data Mode : Type 0 where
  outside : Mode
  in_tag in_entity : Text → Mode

-- The character that a reference such as `&lt;` stands for; an unknown one is left as it is.
unfoldable pub reference : Text → Text
unfolding same_text
reference name =
    if same_text name (codes "amp")
    then b'&' ∷ []
    else if same_text name (codes "lt")
    then b'<' ∷ []
    else if same_text name (codes "gt")
    then b'>' ∷ []
    else if same_text name (codes "quot")
    then b'"' ∷ []
    else if same_text name (codes "#39")
    then b'\'' ∷ []
    else b'&' ∷ (name ++ b';' ∷ [])

unfoldable pub step : Mode → ℕ → List Piece × Mode
unfolding reference
step outside c =
    if c == b'<'
    then ([], in_tag [])
    else if c == b'&'
    then ([], in_entity [])
    else (char c ∷ [], outside)
step (in_tag t) c = if c == b'>' then (tag t ∷ [], outside) else ([], in_tag (t ++ c ∷ []))
step (in_entity t) c =
    if c == b';' then (map char (reference t), outside) else ([], in_entity (t ++ c ∷ []))

unfoldable pub read : Mode → Text → List Piece
unfolding step
read m [] = []
read m (c ∷ s) = (step m c).0 ++ read (step m c).1 s

-- The text that is shown: the pieces without their tags.
abbrev pub shown : List Piece → Text
shown [] = []
shown (char c ∷ ps) = c ∷ shown ps
shown (tag t ∷ ps) = shown ps

abbrev pub tags : List Piece → List Text
tags [] = []
tags (char c ∷ ps) = tags ps
tags (tag t ∷ ps) = t ∷ tags ps
