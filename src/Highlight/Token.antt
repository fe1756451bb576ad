-- ===== src/Highlight/Token.antt =====
-- Token kinds, tokens and the keyword set of lcl-highlight.js.
use Prim.Native.String.{String}
use lcl_fastapi.Prelude.{Text, codes, List, [], ◌∷◌, map}

-- The named groups of the pattern, and `keyword`, which a name may become.
pub data Kind : Type 0 where
  space comment string number name operator punctuation text keyword : Kind

pub record Token : Type 0 where
  pub kind : Kind
  pub content : Text

-- The spelling of a kind in a class name.
unfoldable pub kind_name : Kind → Text
kind_name space = codes "space"
kind_name comment = codes "comment"
kind_name string = codes "string"
kind_name number = codes "number"
kind_name name = codes "name"
kind_name operator = codes "operator"
kind_name punctuation = codes "punctuation"
kind_name text = codes "text"
kind_name keyword = codes "keyword"

keyword_words : List String
keyword_words =
    "and" ∷ "or" ∷ "not" ∷ "if" ∷ "else" ∷ "for" ∷ "in" ∷ "is" ∷ "true" ∷ "false" ∷ "none" ∷ "True"
    ∷ "False" ∷ "None" ∷ "raise" ∷ "try" ∷ "except" ∷ "finally" ∷ "assert" ∷ "with" ∷ "as" ∷ "using"
    ∷ "import" ∷ "FRAME_PROXY" ∷ "NEED_OVERRIDE" ∷ "RUNTIME_OVERRIDE" ∷ []

unfoldable pub keywords : List Text
unfolding keyword_words
keywords = map codes keyword_words
