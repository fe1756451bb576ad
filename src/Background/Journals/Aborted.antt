-- ===== src/Background/Journals/Aborted.antt =====
-- What `read` of src/lcl_fastapi/background/journal.py keeps and returns of journals that can be read,
-- and of an error in between.
use Prim.Native.String.{String}
use text.Mathlib.Text.{◌==◌ as str_eq}
use text.Mathlib.TextPositions.{eq_refl}
use lcl_fastapi.Prelude.{
  ℕ, Text, false, Option, none, some, List, [], ◌∷◌, ◌++◌, ◌≡◌, refl, sym, ap, ◌∙◌, subst, Has, All,
  inl, inr,
}
use lcl_fastapi.Runtime.State.Value.{Value, Record}
use lcl_fastapi.Runtime.State.Identity.{ProcessTable}
use lcl_fastapi.Background.Journal.{Events}
use lcl_fastapi.Background.Removal.{collect}
use lcl_fastapi.Background.Journals.Parts.{Part, part_of, part-collect}
use lcl_fastapi.Background.Journals.{
  Place, BackgroundEvents, Journal, store, place_of, start_of, followed, read_all,
}

-- A journal that can be read.
abbrev pub Readable : Type 0
Readable = String × Text × Text

abbrev pub journals : List Readable → List Journal
journals [] = []
journals ((path, text, late) ∷ files) = (path, some (text, late)) ∷ journals files

-- No file of the list has the path, and no path stands twice.
abbrev pub IsApart : String → List Readable → Type 0
IsApart path files =
    All (λ (f : Readable). (str_eq f.0 path ≡ false) × (str_eq path f.0 ≡ false)) files

abbrev pub IsDistinct : List Readable → Type 0
IsDistinct [] = Unit
IsDistinct ((path, text, late) ∷ files) = IsApart path files × IsDistinct files

state-followed :
    (es : List (Value × Value)) (r : BackgroundEvents × Option (List (Value × Value)))
    → (followed es r).0 ≡ r.0
unfolding followed
state-followed es (s, none) = refl
state-followed es (s, some later) = refl

followed-none :
    (es : List (Value × Value)) (s : BackgroundEvents) → followed es (s, none) ≡ (s, none)
unfolding followed
followed-none es s = refl

followed-some :
    (es later : List (Value × Value)) (r : BackgroundEvents × Option (List (Value × Value)))
    → r.1 ≡ some later
    → (followed es r).1 ≡ some (es ++ later)
unfolding followed
followed-some es later (s, none) h = cc
followed-some es later (s, some l) h = ap (λ o. (followed es (s, o)).1) h

module _ (encode : Record → Text) (decode : Text → Option Record) (service_id : String) where
  -- What a journal would give if it were the only one.
  abbrev pub alone : ProcessTable → Text → Text → Place → Events
  alone table text late place =
      (collect encode decode service_id table text late (start_of place [])).0

  abbrev pub all_alone : ProcessTable → List Readable → (String → Place) → List (Value × Value)
  all_alone table [] places = []
  all_alone table ((path, text, late) ∷ files) places =
      (alone table text late (places path)).events ++ all_alone table files places

  all_alone-store :
      (table : ProcessTable) (files : List Readable) (path : String) (p : Place)
      (places : String → Place)
      → IsApart path files
      → all_alone table files (store path p places) ≡ all_alone table files places
  unfolding store
  all_alone-store table [] path p places h = refl
  all_alone-store table ((other, text, late) ∷ files) path p places ((_, h), hs) =
      rw (h, all_alone-store table files path p places hs) refl

  part-alone :
      (table : ProcessTable) (text late : Text) (p : Place) (stopping : List (ℕ × Record))
      → part_of (collect encode decode service_id table text late (start_of p stopping)).0
        ≡ part_of (alone table text late p)
  part-alone table text late p stopping =
      part-collect encode decode service_id table text late (start_of p stopping) (start_of p [])
        refl

  -- What is heard of the first journal, and what is kept after it.
  abbrev first : ProcessTable → String → Text → Text → BackgroundEvents → Events
  first table path text late s =
      (collect encode decode service_id table text late (start_of (s.places path) s.stopping)).0

  abbrev onward : ProcessTable → String → Text → Text → BackgroundEvents → BackgroundEvents
  onward table path text late s = record {
    places = store path (place_of (first table path text late s)) s.places;
    stopping = (first table path text late s).stopping;
  }

  read_all-elsewhere :
      (table : ProcessTable) (files : List Readable) (s : BackgroundEvents) (path : String)
      → IsApart path files
      → (read_all encode decode service_id table (journals files) s).0.places path ≡ s.places path
  unfolding read_all store
  read_all-elsewhere table [] s path h = refl
  read_all-elsewhere table ((other, text, late) ∷ files) s path (h, hs) =
      let later =
        read_all encode decode service_id table (journals files) (onward table other text late s) in
      ap (λ (r : BackgroundEvents). r.places path)
        (state-followed (first table other text late s).events later)
      ∙ read_all-elsewhere table files (onward table other text late s) path hs
      ∙ (rw h.0 refl)

  apart :
      (files : List Readable) (other path : String) (text late : Text)
      → IsApart other files
      → Has files (path, text, late)
      → str_eq other path ≡ false
  apart [] other path text late h k = absurd k
  apart (f ∷ files) other path text late (h, hs) (inl e) =
      subst (λ (g : Readable). str_eq other g.0 ≡ false) e h.1
  apart (f ∷ files) other path text late (h, hs) (inr k) = apart files other path text late hs k

  place-read_all :
      (table : ProcessTable) (files : List Readable) (s : BackgroundEvents) (path : String)
      (text late : Text)
      → IsDistinct files
      → Has files (path, text, late)
      → (read_all encode decode service_id table (journals files) s).0.places path
        ≡ place_of (alone table text late (s.places path))
  unfolding read_all store
  place-read_all table [] s path text late d k = absurd k
  place-read_all table ((p, t, l) ∷ files) s path text late (h, d) (inl e) =
      subst
        (λ (f : Readable).
          (read_all encode decode service_id table (journals ((p, t, l) ∷ files)) s).0.places f.0
          ≡ place_of (alone table f.1 f.2 (s.places f.0)))
        e
        (ap (λ (r : BackgroundEvents). r.places p)
            (state-followed (first table p t l s).events
              (read_all encode decode service_id table (journals files) (onward table p t l s)))
          ∙ read_all-elsewhere table files (onward table p t l s) p h
          ∙ rw (eq_refl p) (
              ap (λ (x : Part). record { offset = x.offset; identity = x.identity })
                (part-alone table t l (s.places p) s.stopping)))
  place-read_all table ((p, t, l) ∷ files) s path text late (h, d) (inr k) =
      ap (λ (r : BackgroundEvents). r.places path)
        (state-followed (first table p t l s).events
          (read_all encode decode service_id table (journals files) (onward table p t l s)))
      ∙ place-read_all table files (onward table p t l s) path text late d k
      ∙ (rw (apart files p path text late h k) refl)

  events-read_all :
      (table : ProcessTable) (files : List Readable) (s : BackgroundEvents)
      → IsDistinct files
      → (read_all encode decode service_id table (journals files) s).1
        ≡ some (all_alone table files s.places)
  unfolding read_all
  events-read_all table [] s d = refl
  events-read_all table ((p, t, l) ∷ files) s (h, d) =
      followed-some (first table p t l s).events
        (all_alone table files (onward table p t l s).places)
        (read_all encode decode service_id table (journals files) (onward table p t l s))
        (events-read_all table files (onward table p t l s) d)
      ∙ rw (all_alone-store table files p _ s.places h) (
          ap (λ (x : Part). some (x.events ++ all_alone table files s.places))
            (part-alone table t l (s.places p) s.stopping))

  read_all-aborted :
      (table : ProcessTable) (files : List Readable) (bad : String) (rest : List Journal)
      (s : BackgroundEvents)
      → read_all encode decode service_id table (journals files ++ (bad, none) ∷ rest) s
        ≡ ((read_all encode decode service_id table (journals files) s).0, none)
  unfolding read_all
  read_all-aborted table [] bad rest s = refl
  read_all-aborted table ((p, t, l) ∷ files) bad rest s =
      let es = (first table p t l s).events in
      let later = read_all encode decode service_id table (journals files) (onward table p t l s) in
      ap (followed es) (read_all-aborted table files bad rest (onward table p t l s))
      ∙ followed-none es later.0
      ∙ ap (λ x. (x, none)) (sym (state-followed es later))

  -- Of journals with different paths that can be read, `read` returns the events, in the order of the
  -- journals, each journal's as if it were the only one. If a journal follows that cannot be opened, it
  -- returns nothing, though it has consumed the others all the same: of each it keeps the offset and the
  -- identity that it would keep without the error, as if that journal were the only one. So their events
  -- are lost.
  pub read_all-lost :
      (table : ProcessTable) (files : List Readable) (bad : String) (rest : List Journal)
      (s : BackgroundEvents) (path : String) (text late : Text)
      → IsDistinct files
      → Has files (path, text, late)
      → let (whole, told) = read_all encode decode service_id table (journals files) s in
        let (end, heard) =
          read_all encode decode service_id table (journals files ++ (bad, none) ∷ rest) s in
        (told ≡ some (all_alone table files s.places))
        × (heard ≡ none)
        × (end ≡ whole)
        × (end.places path ≡ place_of (alone table text late (s.places path)))
  read_all-lost table files bad rest s path text late d k =
      let lost = read_all-aborted table files bad rest s in
      let same = ap (λ (r : BackgroundEvents × Option (List (Value × Value))). r.0) lost in
      (
        events-read_all table files s d,
        ap (λ (r : BackgroundEvents × Option (List (Value × Value))). r.1) lost,
        same,
        ap (λ (r : BackgroundEvents). r.places path) same
            ∙ place-read_all table files s path text late d k,
      )
