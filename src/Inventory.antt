-- ===== src/Inventory.antt =====
-- The directory monitor's page, examples/directory_monitor/directory_service/static/app.js. A
-- listener that awaits an answer is two events. The service's answers are the events' contents; the
-- sizes are numbers whose sum a double holds exactly.
pub mod Encode
pub mod Events
pub mod Shown
pub mod Upload
use lcl_fastapi.Prelude.{
  ℕ, zero, suc, ◌+◌, ◌-◌, Text, codes, same_text, join_lines, Bool, true, false, not, ◌&&◌, ◌||◌,
  Option, none, some, List, [], ◌∷◌, ◌++◌, ◌==◌, if◌then◌else◌, length, all,
}
use lcl_fastapi.Inventory.Encode.{encode_path}

-- What the browser does with Unicode, the user's language and the time zone: toLowerCase,
-- toLocaleString of a number and of a time in nanoseconds, and the message of a URIError.
pub record Engine : Type 0 where
  pub lower : Text → Text
  pub number_text : ℕ → Text
  pub time_text : ℕ → Text
  pub uri_error : Text

pub record Entry : Type 0 where
  pub path : Text
  pub kind : Text
  pub bytes : ℕ
  pub modified_ns : ℕ

pub record Snapshot : Type 0 where
  pub entries : List Entry
  pub errors : List Text
  pub truncated : Bool
  pub revision : ℕ

-- A row of the table: the cells, and the reference of the link.
pub record Row : Type 0 where
  pub cells : List Text
  pub link : Option Text

pub record Page : Type 0 where
  pub snapshot : Snapshot
  pub filter : Text
  pub file_count : ℕ
  pub dir_count : ℕ
  pub bytes : Text
  pub revision : ℕ
  pub rows : List Row
  pub empty_hidden : Bool
  pub empty : Text
  pub message : Text × Bool
  pub connection : Text
  pub closed : Bool
  pub chosen : Option Text
  pub destination : Text
  pub upload_disabled : Bool
  pub uploading : Option Text
  pub requests : List Text

abbrev pub is_file : Entry → Bool
is_file e = same_text e.kind (codes "file")

unfoldable pub keep : (Entry → Bool) → List Entry → List Entry
keep f [] = []
keep f (e ∷ es) = let rest = keep f es in if f e then e ∷ rest else rest

unfoldable pub total_bytes : List Entry → ℕ
total_bytes [] = 0
total_bytes (e ∷ es) = e.bytes + total_bytes es

unfoldable pub begins : Text → Text → Bool
begins s [] = true
begins [] (c ∷ t) = false
begins (d ∷ s) (c ∷ t) = d == c && begins s t

-- s.includes(t)
unfoldable pub includes : Text → Text → Bool
includes [] t = begins [] t
includes (d ∷ s) t = begins (d ∷ s) t || includes s t

abbrev pub is_empty : {A : Type 0} → List A → Bool
is_empty [] = true
is_empty (x ∷ xs) = false

-- `filter(Boolean)` of texts
unfoldable pub nonempty : List Text → List Text
nonempty [] = []
nonempty ([] ∷ ts) = nonempty ts
nonempty ((c ∷ t) ∷ ts) = (c ∷ t) ∷ nonempty ts

abbrev pub href : Text → Text
href t = codes "/api/files/" ++ t

-- The message about a partial snapshot, if it is one.
unfoldable pub note : Snapshot → Page → Page
note latest p =
    if latest.truncated || not (is_empty latest.errors)
    then record p {
      message = (
        join_lines (
            nonempty (
              (if latest.truncated
                then codes "Entry limit reached: this snapshot is partial."
                else [])
              ∷ latest.errors)),
        true,
      );
    }
    else p

module _ (engine : Engine) where
  cells : Entry → List Text
  cells e = e.path ∷ e.kind ∷ engine.number_text e.bytes ∷ engine.time_text e.modified_ns ∷ []

  file_row : Entry → Option Text → Option Row
  file_row e none = none
  file_row e (some t) = some (record { cells = cells e; link = some (href t) })

  -- `none` is the URIError of a file's path.
  row : Entry → Option Row
  unfolding file_row cells
  row e =
      if is_file e
      then file_row e (encode_path e.path)
      else some (record { cells = cells e; link = none })

  before : Option Row → List Row × Bool → List Row × Bool
  before none later = ([], false)
  before (some r) (rs, done) = (r ∷ rs, done)

  -- visible.forEach(...): the rows that were appended, and whether it came to its end.
  unfoldable pub rows_of : List Entry → List Row × Bool
  unfolding row before
  rows_of [] = ([], true)
  rows_of (e ∷ es) = before (row e) (rows_of es)

  unfoldable pub visible : Text → List Entry → List Entry
  visible filter es = keep (λ e. includes (engine.lower e.path) (engine.lower filter)) es

  finish : Snapshot → Bool → Page → Page × Bool
  finish latest false p = (p, false)
  finish latest true p = (
    note latest (record p {
      empty_hidden = not (is_empty p.rows);
      empty =
          if is_empty latest.entries
          then codes "This directory is empty. Upload a file to begin."
          else codes "No paths match this filter.";
    }),
    true,
  )

  -- The page, and whether `render` returned.
  unfoldable pub render : Snapshot → Page → Page × Bool
  unfolding finish
  render latest p =
      let files = keep is_file latest.entries in
      let (rows, done) = rows_of (visible p.filter latest.entries) in
      finish latest done (record p {
        snapshot = latest;
        file_count = length files;
        dir_count = length latest.entries - length files;
        bytes = engine.number_text (total_bytes files);
        revision = latest.revision;
        rows = rows;
      })
