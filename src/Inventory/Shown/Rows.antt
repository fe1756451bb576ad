-- ===== src/Inventory/Shown/Rows.antt =====
-- Which rows the table has, and what stands in them.
use lcl_fastapi.Prelude.{
  Text, true, false, none, some, List, [], ◌∷◌, ◌≡◌, refl, ◌∙◌, All, Bool-cases, inl, inr, ◌⊎◌,
}
use lcl_fastapi.Inventory.{
  Engine, Entry, Row, is_file, keep, includes, href, cells, file_row, row, before, rows_of, visible,
}
use lcl_fastapi.Inventory.Encode.Decode.{read_path}
use lcl_fastapi.Inventory.Encode.RoundTrip.{IsScalar, read_path-encode_path}
use lcl_fastapi.Inventory.Shown.Matching.{Holds, includes_iff}

-- A row is of an entry: the path and the kind in its cells, and a link for a file alone, whose
-- reference a server reads as the path.
pub record IsRow (engine : Engine) (e : Entry) (r : Row) : Type 0 where
  pub shown :
      r.cells ≡ e.path ∷ e.kind ∷ engine.number_text e.bytes ∷ engine.time_text e.modified_ns ∷ []
  pub linked :
      ((is_file e ≡ false) × (r.link ≡ none))
      ⊎ ((is_file e ≡ true) × ((t : Text) × (r.link ≡ some (href t)) × (read_path t ≡ some e.path)))

-- The rows are of the entries whose path has the filter's text, in their order.
pub data Lists (engine : Engine) (filter : Text) : List Entry → List Row → Type 0 where
  nothing : Lists engine filter [] []
  listed :
      {e : Entry} {es : List Entry} {r : Row} {rs : List Row}
      → Holds (engine.lower e.path) (engine.lower filter)
      → IsRow engine e r
      → Lists engine filter es rs
      → Lists engine filter (e ∷ es) (r ∷ rs)
  passed_over :
      {e : Entry} {es : List Entry} {rs : List Row}
      → ¬ Holds (engine.lower e.path) (engine.lower filter)
      → Lists engine filter es rs
      → Lists engine filter (e ∷ es) rs

abbrev pub IsWhole : List Entry → Type 0
IsWhole es = All (λ (e : Entry). All IsScalar e.path) es

module _ (engine : Engine) where
  row-IsRow :
      (e : Entry) → All IsScalar e.path → (r : Row) × (row engine e ≡ some r) × IsRow engine e r
  unfolding row file_row cells
  row-IsRow e h =
      let (t, done, safe, back) = read_path-encode_path e.path h in
      elim (Bool-cases (is_file e)) [
        | inl q ↦ (_, rw (q, done) refl, record { shown = refl; linked = inr (q, (t, refl, back)) })
        | inr q ↦ (_, rw q refl, record { shown = refl; linked = inl (q, refl) })
      ]

  rows_of-shown :
      (filter : Text) (e : Entry) (es : List Entry) (r : Row) (rs : List Row)
      → includes (engine.lower e.path) (engine.lower filter) ≡ true
      → row engine e ≡ some r
      → rows_of engine (visible engine filter es) ≡ (rs, true)
      → rows_of engine (visible engine filter (e ∷ es)) ≡ (r ∷ rs, true)
  unfolding visible keep
  rows_of-shown filter e es r rs m h k = rw m (rows_of-before e _ r rs h k)
    where
      rows_of-before :
          (e : Entry) (es : List Entry) (r : Row) (rs : List Row)
          → row engine e ≡ some r
          → rows_of engine es ≡ (rs, true)
          → rows_of engine (e ∷ es) ≡ (r ∷ rs, true)
      rows_of-before e es r rs h k = unfold rows_of before in rw (h, k) refl

  rows_of-hidden :
      (filter : Text) (e : Entry) (es : List Entry)
      → includes (engine.lower e.path) (engine.lower filter) ≡ false
      → rows_of engine (visible engine filter (e ∷ es)) ≡ rows_of engine (visible engine filter es)
  unfolding visible keep
  rows_of-hidden filter e es m = rw m refl

  pub rows_of-Lists :
      (filter : Text) (es : List Entry)
      → IsWhole es
      → (rs : List Row) × (rows_of engine (visible engine filter es) ≡ (rs, true))
        × Lists engine filter es rs
  rows_of-Lists filter [] h = ([], unfold rows_of visible keep in refl, nothing)
  rows_of-Lists filter (e ∷ es) h =
      let (rs, done, lists) = rows_of-Lists filter es h.1 in
      let match = includes_iff (engine.lower e.path) (engine.lower filter) in
      elim (Bool-cases (includes (engine.lower e.path) (engine.lower filter))) [
        | inl m ↦
            let (r, made, is) = row-IsRow e h.0 in
            (r ∷ rs, rows_of-shown filter e es r rs m made done, listed (match.0 m) is lists)
        | inr m ↦ (
          rs,
          rows_of-hidden filter e es m ∙ done,
          passed_over (λ holds. cc (match.1 holds, m)) lists,
        )
      ]
