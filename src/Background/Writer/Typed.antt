-- ===== src/Background/Writer/Typed.antt =====
-- The values in the records that `flush` writes have the types that their readers convert.
use Prim.Native.String.{String}
use lcl_fastapi.Prelude.{ℕ, Bool, true, false, ◌≡◌, ◌⊎◌, inl, inr, refl}
use lcl_fastapi.Runtime.State.Value.{Value, int, bool, float, str, Record, get, has_key, null}
use lcl_fastapi.Runtime.State.Identity.{Identity, identity_record}
use lcl_fastapi.Background.Writer.{
  Fields, plain, deadline, retired, fields_record, put, merge, event_record,
}

-- int(record["level"]), str(record["message"]), int(record["pid"]), record["process_create_time"] and
-- float(str(record["deadline"])) find an integer, a text, the process and a time, and "retired" is a
-- Boolean or missing.
pub record IsTyped (i : Identity) (service_id : String) (r : Record) : Type 0 where
  pub level : ℕ
  pub message : String
  pub pid : get r "pid" ≡ int i.pid
  pub created : get r "process_create_time" ≡ float i.created
  pub start : get r "service_id" ≡ str service_id
  pub has_level : get r "level" ≡ int level
  pub has_message : get r "message" ≡ str message
  pub due : (has_key r "deadline" ≡ false) ⊎ ((t : ℕ) × (get r "deadline" ≡ float t))
  pub ended : (get r "retired" ≡ null) ⊎ ((b : Bool) × (get r "retired" ≡ bool b))

pub put-IsTyped :
    (i : Identity) (service_id : String) (level : ℕ) (message : String) (fields : Fields) (n : ℕ)
    → IsTyped i service_id (put (event_record i service_id level message fields) "sequence" (int n))
unfolding put event_record merge identity_record fields_record get has_key
put-IsTyped i service_id level message plain n = record {
  level = level;
  message = message;
  pid = refl;
  created = refl;
  start = refl;
  has_level = refl;
  has_message = refl;
  due = inl refl;
  ended = inl refl;
}
put-IsTyped i service_id level message (deadline t) n = record {
  level = level;
  message = message;
  pid = refl;
  created = refl;
  start = refl;
  has_level = refl;
  has_message = refl;
  due = inr (t, refl);
  ended = inl refl;
}
put-IsTyped i service_id level message retired n = record {
  level = level;
  message = message;
  pid = refl;
  created = refl;
  start = refl;
  has_level = refl;
  has_message = refl;
  due = inl refl;
  ended = inr (true, refl);
}

pub put-told :
    (i : Identity) (service_id : String) (level : ℕ) (message : String) (fields : Fields) (n : ℕ)
    → let r = put (event_record i service_id level message fields) "sequence" (int n) in
      ◌≡◌ {A = Value × Value} (get r "level", get r "message") (int level, str message)
unfolding put event_record merge identity_record fields_record get
put-told i service_id level message plain n = refl
put-told i service_id level message (deadline t) n = refl
put-told i service_id level message retired n = refl
