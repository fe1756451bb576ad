-- ===== src/Background/Journal.antt =====
-- `BackgroundEvents` of src/lcl_fastapi/background/journal.py: the controller's reading of one
-- journal, and its list of stopping processes. What json.loads gives for a line is the parameter
-- `decode`, `none` for a ValueError or for a value that is not a dictionary.
pub mod Lines
pub mod Once
use Prim.Native.String.{String}
use lcl_fastapi.Prelude.{
  ℕ, zero, suc, ◌+◌, Text, Bool, true, false, not, Option, none, some, List, [], ◌∷◌, ◌++◌, ◌==◌,
  leb, if◌then◌else◌, length,
}
use lcl_fastapi.Runtime.State.Value.{Value, int, bool, float, str, Record, get, has_key, value_eq}
use lcl_fastapi.Runtime.State.Identity.{ProcessTable, is_live}

-- The offset and the last identity of one journal, what `read` has returned so far as levels and
-- messages, and the records of stopping processes by PID.
pub record Events : Type 0 where
  pub offset : ℕ
  pub identity : Option Record
  pub events : List (Value × Value)
  pub stopping : List (ℕ × Record)

-- stream.readline(): up to a line break, or to the end
unfoldable pub readline : Text → Text × Text
readline [] = ([], [])
readline (c ∷ s) =
    let (line, rest) = readline s in if c == b'\n' then (c ∷ [], s) else (c ∷ line, rest)

-- line.endswith(b"\n")
unfoldable pub ends_line : Text → Bool
ends_line [] = false
ends_line (c ∷ []) = c == b'\n'
ends_line (c ∷ d ∷ s) = ends_line (d ∷ s)

-- self.stopping[pid] = record
unfoldable pub put_stopping : ℕ → Record → List (ℕ × Record) → List (ℕ × Record)
put_stopping pid r [] = (pid, r) ∷ []
put_stopping pid r ((other, q) ∷ stopping) =
    let later = put_stopping pid r stopping in
    if pid == other then (pid, r) ∷ stopping else (other, q) ∷ later

-- self.stopping.pop(pid, None)
unfoldable pub pop_stopping : ℕ → List (ℕ × Record) → List (ℕ × Record)
pop_stopping pid [] = []
pop_stopping pid ((other, q) ∷ stopping) =
    let later = pop_stopping pid stopping in if pid == other then stopping else (other, q) ∷ later

-- int(record["pid"]), which `emit` always writes
unfoldable pub pid_of : Record → ℕ
pid_of r = elim (get r "pid") [ int n ↦ n | _ ↦ 0 ]

unfoldable pub is_retired : Value → Bool
is_retired (bool b) = b
is_retired _ = false

unfoldable pub stop_or_retire : ℕ → Record → List (ℕ × Record) → List (ℕ × Record)
unfolding put_stopping pop_stopping
stop_or_retire pid r stopping =
    let added = if has_key r "deadline" then put_stopping pid r stopping else stopping in
    if is_retired (get r "retired") then pop_stopping pid added else added

-- int(record["level"]), str(record["message"]) and int(record["pid"]) are the values themselves: this is
-- for records as the writer makes them. What a missing key or a value of another type raises is not
-- modelled.
unfoldable pub take_record : String → Option Record → Events → Events
take_record service_id none e = e
take_record service_id (some r) e =
    if value_eq (get r "service_id") (str service_id)
    then record e {
      identity = some r;
      events = e.events ++ (get r "level", get r "message") ∷ [];
      stopping = stop_or_retire (pid_of r) r e.stopping;
    }
    else e

unfoldable pub drop : ℕ → Text → Text
drop zero s = s
drop (suc n) [] = []
drop (suc n) (c ∷ s) = drop n s

module _ (decode : Text → Option Record) (service_id : String) where
  unfoldable pub take_line : Text → Events → Events
  unfolding take_record pid_of stop_or_retire is_retired
  take_line line e =
      take_record service_id (decode line) (record e { offset = e.offset + length line })

  -- while line := stream.readline()
  unfoldable pub read_loop : ℕ → Text → Events → Events
  read_loop zero bytes e = e
  read_loop (suc fuel) bytes e =
      let (line, rest) = readline bytes in
      let later = read_loop fuel rest (take_line line e) in if ends_line line then later else e

  -- The part of `read` that consumes one journal; a round takes a byte at least.
  unfoldable pub read : Text → Events → Events
  unfolding read_loop drop
  read file e = let bytes = drop e.offset file in read_loop (suc (length bytes)) bytes e
