-- ===== src/Highlight/Lexer.antt =====
-- `tokenize` of lcl-highlight.js.
pub mod Lossless
use lcl_fastapi.Prelude.{ℕ, zero, suc, Text, Option, none, some, List, [], ◌∷◌, length}
use lcl_fastapi.Highlight.Token.{Token}
use lcl_fastapi.Highlight.Pattern.{CharTables, Found, next_token}

-- The argument: a text, or a value of another type.
pub data Value : Type 0 where
  string : Text → Value
  other : Value

-- `running_on` says that the fuel did not reach the end of the loop.
pub data Tokens : Type 0 where
  tokens : List Token → Tokens
  type_error : Tokens
  running_on : Tokens

abbrev pub push : Token → Tokens → Tokens
push t (tokens ts) = tokens (t ∷ ts)
push t type_error = type_error
push t running_on = running_on

module _ (u : CharTables) where
  -- while ((match = pattern.exec(source)) !== null)
  unfoldable pub exec_loop : ℕ → Text → Tokens
  exec_loop zero s = running_on
  exec_loop (suc fuel) s = elim (next_token u s) [
    | none ↦ tokens []
    | some (t, rest) ↦ push t (exec_loop fuel rest)
  ]

  -- Each round takes a character at least, so the length and one more is fuel enough.
  unfoldable pub tokenize : Value → Tokens
  unfolding exec_loop
  tokenize (string source) = exec_loop (suc (length source)) source
  tokenize other = type_error
