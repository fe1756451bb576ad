-- ===== src/Workbench/Api.antt =====
-- `api` of examples/playground/playground_service/static/app.js: what a request to the service gives
-- back or throws.
use lcl_fastapi.Prelude.{Text, codes, Bool, not, ◌&&◌, Option, none, some, if◌then◌else◌}

-- The JSON of a response: the message of its error, a detail that is a text, and the rest.
pub record Response (A : Type 0) : Type 0 where
  pub ok : Bool
  pub error : Option Text
  pub detail : Option Text
  pub body : A

-- What fetch and response.json() do: a response, or an exception with its message.
pub data Fetched (A : Type 0) : Type 0 where
  response : Response A → Fetched A
  exception : Text → Fetched A

-- What `api` does: the error that the body has and the body, or an exception.
pub data Answer (A : Type 0) : Type 0 where
  returned : Option Text → A → Answer A
  thrown : Text → Answer A

abbrev pub has_error : Option Text → Bool
has_error none = Bool.false
has_error (some m) = Bool.true

abbrev pub detail_text : Option Text → Text
detail_text none = codes "Request rejected"
detail_text (some d) = d

unfoldable pub api : {A : Type 0} → Fetched A → Answer A
api (response r) =
    if not r.ok && not (has_error r.error)
    then thrown (detail_text r.detail)
    else returned r.error r.body
api (exception m) = thrown m
