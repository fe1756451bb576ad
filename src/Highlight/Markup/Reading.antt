-- ===== src/Highlight/Markup/Reading.antt =====
-- What a browser reads in the output of `highlight`.
use lcl_fastapi.Prelude.{
  ℕ, Text, codes, Bool, true, ◌||◌, not, List, [], ◌∷◌, ◌++◌, ◌≡◌, refl, sym, ap, ◌∙◌, arith, ◌==◌,
  map, append_assoc, all, all-append,
}
use lcl_fastapi.Highlight.Token.{Kind, space, text, Token, kind_name}
use lcl_fastapi.Highlight.Pattern.{CharTables}
use lcl_fastapi.Highlight.Lexer.{Value}
use lcl_fastapi.Highlight.Lexer.Lossless.{contents, Cuts, tokenize-Cuts}
use lcl_fastapi.Highlight.Markup.{escape_char, escape, markup, join, html, render_tokens, highlight}
use lcl_fastapi.Highlight.Markup.Reader.{Piece, char, tag, outside, read, shown}

-- An escaped character is read back as that character.
read-escape_char :
    (c : ℕ) (rest : Text) → read outside (escape_char c ++ rest) ≡ char c ∷ read outside rest
unfolding read escape_char
read-escape_char c rest = ground arith

read-escape : (s rest : Text) → read outside (escape s ++ rest) ≡ map char s ++ read outside rest
unfolding escape
read-escape [] rest = refl
read-escape (c ∷ s) rest =
    rw append_assoc
      (read-escape_char c (escape s ++ rest) ∙ ap (λ x. char c ∷ x) (read-escape s rest))

-- The pieces that a token is meant to be: its text, in a span of its kind.
abbrev opening : Kind → Text
opening k = codes "span class=\"lcl-" ++ (kind_name k ++ codes "\"")

abbrev in_span : Kind → List Piece → List Piece
in_span k ps = tag (opening k) ∷ (ps ++ tag (codes "/span") ∷ [])

abbrev pub kind_pieces : Kind → List Piece → List Piece
kind_pieces space ps = ps
kind_pieces text ps = ps
kind_pieces k ps = in_span k ps

abbrev pub pieces : List Token → List Piece
pieces [] = []
pieces (t ∷ ts) = kind_pieces t.kind (map char t.content) ++ pieces ts

read-close :
    (s rest : Text)
    → read outside ((escape s ++ codes "</span>") ++ rest)
      ≡ (map char s ++ tag (codes "/span") ∷ []) ++ read outside rest
unfolding read
read-close s rest = rw (append_assoc (escape s) (codes "</span>") rest) (
    read-escape s (codes "</span>" ++ rest)
    ∙ sym (append_assoc (map char s) (tag (codes "/span") ∷ []) (read outside rest)))

read-markup :
    (k : Kind) (s rest : Text)
    → read outside (markup k (escape s) ++ rest) ≡ kind_pieces k (map char s) ++ read outside rest
unfolding markup kind_name read
read-markup space s rest = read-escape s rest
read-markup text s rest = read-escape s rest
read-markup k s rest = ap (λ x. tag (opening k) ∷ x) (read-close s rest)

read-join : (ts : List Token) → read outside (join ts) ≡ pieces ts
unfolding join
read-join [] = unfold read in refl
read-join (t ∷ ts) =
    read-markup t.kind t.content (join ts)
    ∙ ap (λ x. kind_pieces t.kind (map char t.content) ++ x) (read-join ts)

shown-chars : (s : Text) (ps : List Piece) → shown (map char s ++ ps) ≡ s ++ shown ps
shown-chars [] ps = refl
shown-chars (c ∷ s) ps = ap (λ x. c ∷ x) (shown-chars s ps)

shown-kind_pieces :
    (k : Kind) (s : Text) (ps : List Piece)
    → shown (kind_pieces k (map char s) ++ ps) ≡ s ++ shown ps
shown-kind_pieces space s ps = shown-chars s ps
shown-kind_pieces text s ps = shown-chars s ps
shown-kind_pieces k s ps = rw append_assoc (shown-chars s (tag (codes "/span") ∷ ps))

shown-pieces : (ts : List Token) → shown (pieces ts) ≡ contents ts
shown-pieces [] = refl
shown-pieces (t ∷ ts) =
    shown-kind_pieces t.kind t.content (pieces ts) ∙ ap (λ x. t.content ++ x) (shown-pieces ts)

-- The output for a source, with the tokens that it was made from.
pub record Shows (source out : Text) : Type 0 where
  pub made_from : List Token
  pub cuts : Cuts source made_from
  pub structure : read outside out ≡ pieces made_from
  pub text_kept : shown (read outside out) ≡ source

module _ (u : CharTables) where
  pub highlight-Shows :
      (source : Text)
      → (out : Text) × (highlight u (Value.string source) ≡ html out) × Shows source out
  unfolding highlight render_tokens
  highlight-Shows source =
      let (ts, done, cuts) = tokenize-Cuts u source in
      (
        join ts,
        rw done,
        record {
          made_from = ts;
          cuts = cuts;
          structure = read-join ts;
          text_kept = ap shown (read-join ts) ∙ shown-pieces ts ∙ cuts.lossless;
        },
      )

-- The characters that can end an attribute or begin markup.
abbrev pub is_plain : ℕ → Bool
is_plain c = not (c == b'<' || c == b'>' || c == b'"' || c == b'\'')

escape_char-plain : (c : ℕ) → all is_plain (escape_char c) ≡ true
unfolding all escape_char
escape_char-plain c = ground arith

-- An escaped text has no angle bracket and no quotation mark.
pub escape-plain : (s : Text) → all is_plain (escape s) ≡ true
unfolding escape
escape-plain [] = unfold all in refl
escape-plain (c ∷ s) =
    all-append is_plain (escape_char c) (escape s) (escape_char-plain c) (escape-plain s)
