-- ===== src/Inventory/Events.antt =====
-- The listeners of the directory monitor's page, `refresh` and the stream of events.
use lcl_fastapi.Prelude.{
  Text, codes, Bool, true, false, ◌||◌, Option, none, some, List, [], ◌∷◌, ◌++◌, if◌then◌else◌,
}
use lcl_fastapi.Inventory.{Engine, Snapshot, Page, render, href, is_empty}
use lcl_fastapi.Inventory.Encode.{encode_path}

-- The answer to a refresh: a snapshot, a status that is not ok, or an exception of the request.
pub data Refreshed : Type 0 where
  snapshot : Snapshot → Refreshed
  unavailable : Refreshed
  failed : Text → Refreshed

-- The answer to an upload: created, refused with a detail or without, or an exception.
pub data Uploaded : Type 0 where
  created : Uploaded
  refused : Text → Uploaded
  failed : Text → Uploaded

pub data Event : Type 0 where
  type_filter : Text → Event
  refresh_answer : Refreshed → Event
  choose_file : Option Text → Event
  type_destination : Text → Event
  submit : Event
  upload_answer : Uploaded → Event
  open_stream : Event
  inventory : Snapshot → Event
  break_stream : Event
  page_hide : Event

abbrev pub report : Text → Bool → Page → Page
report text error p = record p { message = (text, error) }

-- body.detail || "Upload failed"
abbrev pub detail_or : Text → Text
detail_or [] = codes "Upload failed"
detail_or (c ∷ t) = c ∷ t

unfoldable pub chosen_file : Option Text → Page → Page
chosen_file none p = record p { chosen = none }
chosen_file (some name) p = record p { chosen = some name; destination = name }

unfoldable pub uploaded : Text → Uploaded → Page → Page
uploaded name created p =
    report
      (codes "Created "
        ++ (name ++ codes ". The background scan will publish its statistics shortly."))
      false p
uploaded name (refused detail) p = report (detail_or detail) true p
uploaded name (Uploaded.failed text) p = report text true p

-- `finally` enables the button again.
unfoldable pub upload_answered : Option Text → Uploaded → Page → Page
upload_answered none a p = p
upload_answered (some name) a p = record (uploaded name a p) {
  upload_disabled = false;
  uploading = none;
}

abbrev pub is_none : Option Text → Bool
is_none none = true
is_none (some t) = false

module _ (engine : Engine) where
  -- An exception of `render` is caught in `refresh`.
  unfoldable pub rendered_or_reported : Page × Bool → Page
  rendered_or_reported (p, true) = p
  rendered_or_reported (p, false) = report engine.uri_error true p

  unfoldable pub refreshed : Refreshed → Page → Page
  unfolding rendered_or_reported
  refreshed (snapshot s) p = rendered_or_reported (render engine s p)
  refreshed unavailable p = report (codes "Snapshot unavailable") true p
  refreshed (Refreshed.failed text) p = report text true p

  -- The listener of `submit`, up to its request.
  unfoldable pub send : Option Text → Page → Page
  send none p = report engine.uri_error true p
  send (some t) p = record p {
    upload_disabled = true;
    uploading = some p.destination;
    requests = href t ∷ p.requests;
  }

  -- The form is submitted by its button, with a file chosen and a destination; a closed stream
  -- brings nothing.
  unfoldable pub handle : Event → Page → Page
  handle (type_filter text) p = (render engine p.snapshot (record p { filter = text })).0
  handle (refresh_answer a) p = refreshed a p
  handle (choose_file name) p = chosen_file name p
  handle (type_destination text) p = record p { destination = text }
  handle submit p =
      if p.upload_disabled || is_none p.chosen || is_empty p.destination
      then p
      else send (encode_path p.destination) p
  handle (upload_answer a) p = upload_answered p.uploading a p
  handle open_stream p =
      if p.closed then p else record p { connection = codes "● Live updates connected" }
  handle (inventory s) p = if p.closed then p else (render engine s p).0
  handle break_stream p = if p.closed then p else record p { connection = codes "Reconnecting…" }
  handle page_hide p = record p { closed = true }

  unfoldable pub handle_all : List Event → Page → Page
  handle_all [] p = p
  handle_all (e ∷ es) p = handle_all es (handle e p)
