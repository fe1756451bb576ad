-- ===== src/Background/Journals.antt =====
-- `read` of BackgroundEvents in src/lcl_fastapi/background/journal.py over all journals of its
-- directory, with the offsets and identities that it keeps for each.
pub mod Parts
pub mod Aborted
use Prim.Native.String.{String}
use text.Mathlib.Text.{◌==◌ as str_eq}
use lcl_fastapi.Prelude.{ℕ, Text, Option, none, some, List, [], ◌∷◌, ◌++◌, if◌then◌else◌}
use lcl_fastapi.Runtime.State.Value.{Value, Record}
use lcl_fastapi.Runtime.State.Identity.{ProcessTable}
use lcl_fastapi.Background.Journal.{Events}
use lcl_fastapi.Background.Removal.{collect}

pub record Place : Type 0 where
  pub offset : ℕ
  pub identity : Option Record

-- A path without an entry has the offset 0 and no identity.
pub record BackgroundEvents : Type 0 where
  pub places : String → Place
  pub stopping : List (ℕ × Record)

-- A journal at a path: what it has when it is read, and what when it is looked at for its removal, as
-- for `collect`; `none` is an OSError when it is opened.
abbrev pub Journal : Type 0
Journal = String × Option (Text × Text)

unfoldable pub store : String → Place → (String → Place) → String → Place
store path place places other = if str_eq path other then place else places other

abbrev pub place_of : Events → Place
place_of e = record { offset = e.offset; identity = e.identity }

abbrev pub start_of : Place → List (ℕ × Record) → Events
start_of p stopping = record {
  offset = p.offset;
  identity = p.identity;
  events = [];
  stopping = stopping;
}

-- The events of a journal come before those of the later ones, if none of them raises.
unfoldable pub followed :
    List (Value × Value)
    → BackgroundEvents × Option (List (Value × Value))
    → BackgroundEvents × Option (List (Value × Value))
followed events (s, none) = (s, none)
followed events (s, some later) = (s, some (events ++ later))

module _ (encode : Record → Text) (decode : Text → Option Record) (service_id : String) where
  -- for path in sorted(...), for the journals in their order: what is kept, and what is returned;
  -- `none` is the OSError.
  unfoldable pub read_all :
      ProcessTable
      → List Journal
      → BackgroundEvents
      → BackgroundEvents × Option (List (Value × Value))
  unfolding collect store followed
  read_all table [] s = (s, some [])
  read_all table ((path, none) ∷ files) s = (s, none)
  read_all table ((path, some (text, late)) ∷ files) s =
      let (after, left) =
        collect encode decode service_id table text late (start_of (s.places path) s.stopping) in
      followed after.events (
        read_all table files
          (record { places = store path (place_of after) s.places; stopping = after.stopping }))
