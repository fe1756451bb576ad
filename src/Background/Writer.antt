-- ===== src/Background/Writer.antt =====
-- `BackgroundJournal` of src/lcl_fastapi/background/journal.py: the queue of events and the lines
-- that `flush` appends to the file. What json.dumps gives for a record is the parameter `encode`.
pub mod Typed
pub mod Lines
pub mod Carried
pub mod Delivered
use Prim.Native.String.{String}
use text.Mathlib.Text.{◌==◌ as str_eq}
use lcl_fastapi.Prelude.{ℕ, suc, ◌+◌, Text, true, List, [], ◌∷◌, ◌++◌, if◌then◌else◌, length, take}
use lcl_fastapi.Runtime.State.Value.{Value, int, bool, float, str, Record}
use lcl_fastapi.Runtime.State.Identity.{Identity, identity_record}

-- The process, the start that it belongs to, the queue, and what the file holds.
pub record BackgroundJournal : Type 0 where
  pub identity : Identity
  pub service_id : String
  pub queue : List Record
  pub sequence : ℕ
  pub file : Text

-- What the manager gives as further fields: nothing, the deadline of a stop, or the mark of its end.
pub data Fields : Type 0 where
  plain : Fields
  deadline : ℕ → Fields
  retired : Fields

unfoldable pub fields_record : Fields → Record
fields_record plain = []
fields_record (deadline t) = ("deadline", float t) ∷ []
fields_record retired = ("retired", bool true) ∷ []

-- record | {key: value}
unfoldable pub put : Record → String → Value → Record
put [] key value = (key, value) ∷ []
put ((k, v) ∷ r) key value =
    let rest = put r key value in if str_eq k key then (k, value) ∷ r else (k, v) ∷ rest

unfoldable pub merge : Record → Record → Record
unfolding put
merge r [] = r
merge r ((k, v) ∷ s) = merge (put r k v) s

-- {**self.identity, "level": level, "message": message, **fields}, for the levels, messages and fields
-- of the manager and its threads; other keywords and other types of values are not modelled.
unfoldable pub event_record : Identity → String → ℕ → String → Fields → Record
unfolding merge identity_record
event_record i service_id level message fields = merge (identity_record i) (
    ("service_id", str service_id)
    ∷ ("level", int level)
    ∷ ("message", str message)
    ∷ fields_record fields)

unfoldable pub emit : ℕ → String → Fields → BackgroundJournal → BackgroundJournal
unfolding event_record
emit level message fields j = record j {
  queue = j.queue ++ event_record j.identity j.service_id level message fields ∷ [];
}

-- The records of the queue with their numbers, after the number given.
unfoldable pub numbered : ℕ → List Record → List Record
numbered n [] = []
numbered n (r ∷ rs) = put r "sequence" (int (suc n)) ∷ numbered (suc n) rs

-- What an append does: all of it, or a beginning of it before an OSError.
pub data Append : Type 0 where
  complete : Append
  failed : ℕ → Append

unfoldable pub appended : Append → Text → Text
appended complete text = text
appended (failed n) text = take n text

module _ (encode : Record → Text) where
  -- json.dumps(event) + "\n"
  unfoldable pub line : Record → Text
  line r = encode r ++ b'\n' ∷ []

  unfoldable pub lines : List Record → Text
  lines [] = []
  lines (r ∷ rs) = line r ++ lines rs

  -- An empty queue writes nothing; the queue is empty also after an error.
  unfoldable pub flush : Append → BackgroundJournal → BackgroundJournal
  unfolding lines numbered appended
  flush append j = record j {
    queue = [];
    sequence = j.sequence + length j.queue;
    file = j.file ++ appended append (lines (numbered j.sequence j.queue));
  }
