-- ===== src/Inventory/Shown.antt =====
-- What the page shows of the snapshot, after any events.
pub mod Matching
pub mod Rows
use lcl_fastapi.Prelude.{
  ℕ, suc, ◌+◌, ◌-◌, ◌≤◌, Text, codes, Bool, true, false, not, Option, none, some, List, [], ◌∷◌,
  ◌++◌, ◌≡◌, ◌≢◌, ◌↔◌, refl, sym, ap, ◌∙◌, arith, if◌then◌else◌, if_true, if_false, length, All,
  Bool-cases, inl, inr, ◌⊎◌, subst,
}
use lcl_fastapi.Inventory.{
  Engine, Entry, Snapshot, Row, Page, is_file, keep, begins, includes, is_empty, note, href, cells,
  file_row, row, before, rows_of, visible, finish, render, total_bytes,
}
use lcl_fastapi.Inventory.Events.{
  Refreshed, snapshot, unavailable, Event, type_filter, refresh_answer, choose_file,
  type_destination, submit, upload_answer, open_stream, inventory, break_stream, page_hide,
  rendered_or_reported, refreshed, handle, handle_all, chosen_file, uploaded, created, refused,
  upload_answered, send, Uploaded,
}
use lcl_fastapi.Inventory.Encode.{encode_path}
use lcl_fastapi.Inventory.Encode.Decode.{read_path}
use lcl_fastapi.Inventory.Encode.RoundTrip.{IsScalar, read_path-encode_path}
use lcl_fastapi.Inventory.Shown.Rows.{Lists, IsWhole, rows_of-Lists}

-- The part of the page that `render` writes, with the snapshot and the filter.
pub record View : Type 0 where
  pub snapshot : Snapshot
  pub filter : Text
  pub file_count : ℕ
  pub dir_count : ℕ
  pub bytes : Text
  pub revision : ℕ
  pub rows : List Row
  pub empty_hidden : Bool
  pub empty : Text

abbrev pub view : Page → View
view p = record {
  snapshot = p.snapshot;
  filter = p.filter;
  file_count = p.file_count;
  dir_count = p.dir_count;
  bytes = p.bytes;
  revision = p.revision;
  rows = p.rows;
  empty_hidden = p.empty_hidden;
  empty = p.empty;
}

-- The entries have so many files and so many others, and the files so many bytes.
pub data Counts : List Entry → ℕ → ℕ → ℕ → Type 0 where
  nothing : Counts [] 0 0 0
  a_file :
      (e : Entry) {es : List Entry} {files dirs bytes : ℕ}
      → is_file e ≡ true
      → Counts es files dirs bytes
      → Counts (e ∷ es) (suc files) dirs (e.bytes + bytes)
  other :
      (e : Entry) {es : List Entry} {files dirs bytes : ℕ}
      → is_file e ≡ false
      → Counts es files dirs bytes
      → Counts (e ∷ es) files (suc dirs) bytes

-- What the page shows: the snapshot's revision, counts and bytes, the rows of the filter, and the line
-- that stands in for an empty table.
pub record IsShown (engine : Engine) (v : View) : Type 0 where
  pub revision : v.revision ≡ v.snapshot.revision
  pub counts :
      (b : ℕ) × Counts v.snapshot.entries v.file_count v.dir_count b
      × (v.bytes ≡ engine.number_text b)
  pub rows : Lists engine v.filter v.snapshot.entries v.rows
  pub empty_hidden : (v.empty_hidden ≡ true) ↔ (v.rows ≢ [])
  pub empty : v.empty ≡ (
      if is_empty v.snapshot.entries
      then codes "This directory is empty. Upload a file to begin."
      else codes "No paths match this filter.")
  pub whole : IsWhole v.snapshot.entries

length-keep : (f : Entry → Bool) (es : List Entry) → length (keep f es) ≤ length es
unfolding keep
length-keep f [] = omega arith
length-keep f (e ∷ es) = ground (arith, length-keep f es)

recount :
    {es : List Entry} {files bytes : ℕ} (dirs others : ℕ)
    → dirs ≡ others
    → Counts es files dirs bytes
    → Counts es files others bytes
recount {es} {files} {bytes} dirs others h c = subst (λ d. Counts es files d bytes) h c

Counts-keep :
    (es : List Entry)
    → Counts es
        (length (keep is_file es))
        (length es - length (keep is_file es))
        (total_bytes (keep is_file es))
unfolding keep total_bytes
Counts-keep [] = nothing
Counts-keep (e ∷ es) = elim (Bool-cases (is_file e)) [
  | inl f ↦ rw f (recount _ _ (omega arith) (a_file e f (Counts-keep es)))
  | inr f ↦ rw f (recount _ _ (omega (arith, length-keep is_file es)) (other e f (Counts-keep es)))
]

is_empty_iff : {A : Type 0} (xs : List A) → (not (is_empty xs) ≡ true) ↔ (xs ≢ [])
is_empty_iff [] = (λ h. cc, λ h. absurd (h refl))
is_empty_iff (x ∷ xs) = (λ h e. cc, λ h. refl)

module _ (engine : Engine) where
  view-note : (s : Snapshot) (p : Page) → view (note s p) ≡ view p
  unfolding note
  view-note s p = ground arith

  pub render-IsShown :
      (s : Snapshot) (p : Page)
      → IsWhole s.entries
      → IsShown engine (view (render engine s p).0) × ((render engine s p).1 ≡ true)
  unfolding render finish
  render-IsShown s p h =
      let (rs, done, lists) = rows_of-Lists engine p.filter s.entries h in
      rw done (
        subst (IsShown engine) (sym (view-note s _)) (record {
          revision = refl;
          counts = (total_bytes (keep is_file s.entries), Counts-keep s.entries, refl);
          rows = lists;
          empty_hidden = is_empty_iff rs;
          empty = refl;
          whole = h;
        }),
        refl,
      )

  -- The snapshots that an event brings have paths of whole characters.
  abbrev pub IsWholeEvent : Event → Type 0
  IsWholeEvent (inventory s) = IsWhole s.entries
  IsWholeEvent (refresh_answer (snapshot s)) = IsWhole s.entries
  IsWholeEvent _ = Unit

  rendered-IsShown :
      (r : Page × Bool)
      → IsShown engine (view r.0)
      → IsShown engine (view (rendered_or_reported engine r))
  unfolding rendered_or_reported
  rendered-IsShown (p, true) h = h
  rendered-IsShown (p, false) h = h

  -- The event brings the page a snapshot: an open page takes those of its stream, any page the answer
  -- to a refresh.
  abbrev pub Brings : Page → Event → Type 0
  Brings p (inventory s) = p.closed ≡ false
  Brings p (refresh_answer (snapshot s)) = Unit
  Brings p _ = ⊥

  unchanged : (p q : Page) → IsShown engine (view p) → view q ≡ view p → IsShown engine (view q)
  unchanged p q h e = subst (IsShown engine) (sym e) h

  view-send : (o : Option Text) (p : Page) → view (send engine o p) ≡ view p
  unfolding send
  view-send none p = refl
  view-send (some t) p = refl

  view-upload_answered :
      (o : Option Text) (a : Uploaded) (p : Page) → view (upload_answered o a p) ≡ view p
  unfolding upload_answered uploaded
  view-upload_answered none a p = refl
  view-upload_answered (some name) created p = refl
  view-upload_answered (some name) (refused d) p = refl
  view-upload_answered (some name) (Uploaded.failed t) p = refl

  view-chosen_file : (o : Option Text) (p : Page) → view (chosen_file o p) ≡ view p
  unfolding chosen_file
  view-chosen_file none p = refl
  view-chosen_file (some name) p = refl

  pub handle_inventory-IsShown :
      (s : Snapshot) (p : Page)
      → p.closed ≡ false
      → IsWhole s.entries
      → IsShown engine (view (handle engine (inventory s) p))
  unfolding handle
  handle_inventory-IsShown s p c w =
      subst (λ q. IsShown engine (view q)) (sym (if_false p.closed p (render engine s p).0 c))
        (render-IsShown s p w).0

  handle-IsShown :
      (e : Event) (p : Page)
      → IsWholeEvent e
      → IsShown engine (view p)
      → IsShown engine (view (handle engine e p))
  unfolding handle refreshed
  handle-IsShown (type_filter text) p w h =
      (render-IsShown p.snapshot (record p { filter = text }) h.whole).0
  handle-IsShown (refresh_answer (snapshot s)) p w h =
      rendered-IsShown (render engine s p) (render-IsShown s p w).0
  handle-IsShown (refresh_answer unavailable) p w h = h
  handle-IsShown (refresh_answer (Refreshed.failed t)) p w h = h
  handle-IsShown (inventory s) p w h = elim (Bool-cases p.closed) [
    | inl c ↦
        unchanged p (handle engine (inventory s) p) h
          (ap view (if_true p.closed p (render engine s p).0 c))
    | inr c ↦ handle_inventory-IsShown s p c w
  ]
  handle-IsShown (choose_file name) p w h =
      unchanged p (chosen_file name p) h (view-chosen_file name p)
  handle-IsShown (type_destination t) p w h = h
  handle-IsShown submit p w h =
      unchanged p (handle engine submit p) h
        (ground (arith, view-send (encode_path p.destination) p))
  handle-IsShown (upload_answer a) p w h =
      unchanged p (upload_answered p.uploading a p) h (view-upload_answered p.uploading a p)
  handle-IsShown open_stream p w h = unchanged p (handle engine open_stream p) h (ground arith)
  handle-IsShown break_stream p w h = unchanged p (handle engine break_stream p) h (ground arith)
  handle-IsShown page_hide p w h = h

  handle_first-IsShown :
      (e : Event) (p : Page)
      → Brings p e
      → IsWholeEvent e
      → IsShown engine (view (handle engine e p))
  unfolding handle refreshed
  handle_first-IsShown (inventory s) p b w = handle_inventory-IsShown s p b w
  handle_first-IsShown (refresh_answer (snapshot s)) p b w =
      rendered-IsShown (render engine s p) (render-IsShown s p w).0
  handle_first-IsShown (type_filter _) p b w = elim b [ ]
  handle_first-IsShown (refresh_answer unavailable) p b w = elim b [ ]
  handle_first-IsShown (refresh_answer (Refreshed.failed _)) p b w = elim b [ ]
  handle_first-IsShown (choose_file _) p b w = elim b [ ]
  handle_first-IsShown (type_destination _) p b w = elim b [ ]
  handle_first-IsShown submit p b w = elim b [ ]
  handle_first-IsShown (upload_answer _) p b w = elim b [ ]
  handle_first-IsShown open_stream p b w = elim b [ ]
  handle_first-IsShown break_stream p b w = elim b [ ]
  handle_first-IsShown page_hide p b w = elim b [ ]

  handle_all-IsShown :
      (es : List Event) (p : Page)
      → All IsWholeEvent es
      → IsShown engine (view p)
      → IsShown engine (view (handle_all engine es p))
  unfolding handle_all
  handle_all-IsShown [] p w h = h
  handle_all-IsShown (e ∷ es) p w h =
      handle_all-IsShown es (handle engine e p) w.1 (handle-IsShown e p w.0 h)

-- Once a page has a first snapshot, from the stream of an open page or as the answer to a refresh,
-- and after any further events, where all snapshots have paths of whole characters: the revision is
-- the snapshot's; the first count is the number of its files, the second the number of its other
-- entries, and the bytes are the sum of the files' sizes as the browser writes it; the rows are
-- exactly the entries whose path has the filter's text, in order, each with its path and kind, and
-- with a link that a server reads as that path for a file alone; and the line for an empty table is
-- hidden exactly when there is a row, and says whether the directory or the filter is empty.
pub inventory-IsShown :
    (engine : Engine) (p : Page) (first : Event) (es : List Event)
    → Brings engine p first
    → All (IsWholeEvent engine) (first ∷ es)
    → IsShown engine (view (handle_all engine (first ∷ es) p))
unfolding handle_all
inventory-IsShown engine p first es b w =
    handle_all-IsShown engine es (handle engine first p) w.1
      (handle_first-IsShown engine first p b w.0)
