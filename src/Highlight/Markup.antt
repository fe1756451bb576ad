-- ===== src/Highlight/Markup.antt =====
-- `highlight` of lcl-highlight.js.
pub mod Reader
pub mod Reading
use lcl_fastapi.Prelude.{ℕ, Text, codes, List, [], ◌∷◌, ◌++◌, ◌==◌, if◌then◌else◌}
use lcl_fastapi.Highlight.Token.{Kind, space, text, Token, kind_name}
use lcl_fastapi.Highlight.Pattern.{CharTables}
use lcl_fastapi.Highlight.Lexer.{Value, Tokens, tokens, tokenize}

-- The table of replacements of [&<>"'].
unfoldable pub escape_char : ℕ → Text
escape_char c =
    if c == b'&'
    then codes "&amp;"
    else if c == b'<'
    then codes "&lt;"
    else if c == b'>'
    then codes "&gt;"
    else if c == b'"'
    then codes "&quot;"
    else if c == b'\''
    then codes "&#39;"
    else c ∷ []

unfoldable pub escape : Text → Text
escape [] = []
escape (c ∷ s) = escape_char c ++ escape s

-- `<span class="lcl-${kind}">${escaped}</span>`
abbrev pub span : Kind → Text → Text
span k escaped =
    codes "<span class=\"lcl-" ++ (kind_name k ++ (codes "\">" ++ (escaped ++ codes "</span>")))

unfoldable pub markup : Kind → Text → Text
markup space escaped = escaped
markup text escaped = escaped
markup k escaped = span k escaped

unfoldable pub join : List Token → Text
join [] = []
join (t ∷ ts) = markup t.kind (escape t.content) ++ join ts

pub data Highlighted : Type 0 where
  html : Text → Highlighted
  type_error : Highlighted
  running_on : Highlighted

unfoldable pub render_tokens : Tokens → Highlighted
render_tokens (tokens ts) = html (join ts)
render_tokens Tokens.type_error = Highlighted.type_error
render_tokens Tokens.running_on = Highlighted.running_on

unfoldable pub highlight : CharTables → Value → Highlighted
highlight u source = render_tokens (tokenize u source)
