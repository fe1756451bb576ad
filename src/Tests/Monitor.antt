-- ===== src/Tests/Monitor.antt =====
-- The directory monitor's page at concrete inputs.
use lcl_fastapi.Prelude.{
  ◌<◌, Text, codes, true, false, none, some, List, [], ◌∷◌, ◌≡◌, refl, All, all, arith, decimal,
}
use lcl_fastapi.Inventory.{Engine, Entry, Snapshot, Page}
use lcl_fastapi.Inventory.Events.{
  Event, snapshot, refresh_answer, submit, upload_answer, inventory, type_filter, handle,
  handle_all, created,
}
use lcl_fastapi.Inventory.Encode.{encode_path}
use lcl_fastapi.Inventory.Encode.Decode.{read_path}
use lcl_fastapi.Inventory.Encode.RoundTrip.{IsScalar, is_path_char, read_path-encode_path}
use lcl_fastapi.Inventory.Shown.{IsShown, view, inventory-IsShown}
use lcl_fastapi.Inventory.Upload.{refresh-inventory}

-- ä/b c
abbrev path : Text
path = 0xe4 ∷ codes "/b c"

path-IsScalar : All IsScalar path
path-IsScalar = (
  (omega arith, refl),
  ((omega arith, refl), ((omega arith, refl), ((omega arith, refl), ((omega arith, refl), tt)))),
)

read_path-encode_path_example :
    (t : Text) × (encode_path path ≡ some t)
    × (all is_path_char t ≡ true)
    × (read_path t ≡ some path)
read_path-encode_path_example = read_path-encode_path path path-IsScalar

-- A browser whose users see the plain digits, over names in small letters.
abbrev engine : Engine
engine = record {
  lower = λ t. t;
  number_text = decimal;
  time_text = decimal;
  uri_error = codes "URI malformed";
}

abbrev entries : List Entry
entries =
    record { path = path; kind = codes "file"; bytes = 3; modified_ns = 5 }
    ∷ record { path = codes "d"; kind = codes "directory"; bytes = 0; modified_ns = 6 }
    ∷ []

abbrev before : Snapshot
before = record { entries = entries; errors = []; truncated = false; revision = 7 }

abbrev after : Snapshot
after = record { entries = entries; errors = codes "denied" ∷ []; truncated = true; revision = 8 }

abbrev page : Page
page = record {
  snapshot = record { entries = []; errors = []; truncated = false; revision = 0 };
  filter = codes "b";
  file_count = 0;
  dir_count = 0;
  bytes = [];
  revision = 0;
  rows = [];
  empty_hidden = false;
  empty = [];
  message = ([], false);
  connection = [];
  closed = false;
  chosen = some (codes "b");
  destination = path;
  upload_disabled = false;
  uploading = none;
  requests = [];
}

abbrev later : List Event
later = type_filter (codes "d") ∷ inventory after ∷ submit ∷ upload_answer created ∷ []

inventory-IsShown_example :
    IsShown engine (view (handle_all engine (refresh_answer (snapshot before) ∷ later) page))
inventory-IsShown_example =
    inventory-IsShown engine page (refresh_answer (snapshot before)) later tt (
      (path-IsScalar, (((omega arith, refl), tt), tt)),
      (tt, ((path-IsScalar, (((omega arith, refl), tt), tt)), (tt, (tt, tt)))),
    )

refresh-inventory_example :
    ((handle engine (inventory after) page).revision ≡ 8)
    × ((handle_all engine (inventory after ∷ refresh_answer (snapshot before) ∷ []) page).revision
        < 8)
refresh-inventory_example = refresh-inventory engine page after before refl (omega arith)
