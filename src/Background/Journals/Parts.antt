-- ===== src/Background/Journals/Parts.antt =====
-- What the reading of one journal in src/lcl_fastapi/background/journal.py gives, whatever processes are
-- stopping.
use Prim.Native.String.{String}
use lcl_fastapi.Prelude.{
  ◌+◌, ℕ, zero, suc, Text, Option, none, some, List, [], ◌∷◌, ◌++◌, ◌≡◌, ap, ◌∙◌, length,
  if◌then◌else◌, Bool-cases, inl, inr,
}
use lcl_fastapi.Runtime.State.Value.{Value, str, Record, get, value_eq}
use lcl_fastapi.Runtime.State.Identity.{ProcessTable}
use lcl_fastapi.Background.Journal.{
  Events, readline, ends_line, drop, take_line, take_record, read_loop, read,
}
use lcl_fastapi.Background.Removal.{collect, has_ended}

-- What is kept and heard of one journal.
pub record Part : Type 0 where
  pub offset : ℕ
  pub identity : Option Record
  pub events : List (Value × Value)

abbrev pub part_of : Events → Part
part_of e = record { offset = e.offset; identity = e.identity; events = e.events }

module _ (encode : Record → Text) (decode : Text → Option Record) (service_id : String) where
  -- What is heard of a journal does not depend on the processes that are stopping.
  part-take_record :
      (o : Option Record) (e d : Events)
      → part_of e ≡ part_of d
      → part_of (take_record service_id o e) ≡ part_of (take_record service_id o d)
  unfolding take_record
  part-take_record none e d h = h
  part-take_record (some r) e d h =
      elim (Bool-cases (value_eq (get r "service_id") (str service_id))) [
        | inl s ↦ rw s (
            ap
              (λ (p : Part). record {
                offset = p.offset;
                identity = some r;
                events = p.events ++ (get r "level", get r "message") ∷ [];
              })
              h)
        | inr s ↦ rw s h
      ]

  part-take_line :
      (text : Text) (e d : Events)
      → part_of e ≡ part_of d
      → part_of (take_line decode service_id text e) ≡ part_of (take_line decode service_id text d)
  unfolding take_line
  part-take_line text e d h = part-take_record (decode text) _ _ (
      ap
        (λ (p : Part). record {
          offset = p.offset + length text;
          identity = p.identity;
          events = p.events;
        })
        h)

  part-read_loop :
      (fuel : ℕ) (bytes : Text) (e d : Events)
      → part_of e ≡ part_of d
      → part_of (read_loop decode service_id fuel bytes e)
        ≡ part_of (read_loop decode service_id fuel bytes d)
  unfolding read_loop
  part-read_loop zero bytes e d h = h
  part-read_loop (suc fuel) bytes e d h = elim (Bool-cases (ends_line (readline bytes).0)) [
    | inl c ↦
        rw c (part-read_loop fuel (readline bytes).1 _ _ (part-take_line (readline bytes).0 e d h))
    | inr c ↦ rw c h
  ]

  part-read :
      (file : Text) (e d : Events)
      → part_of e ≡ part_of d
      → part_of (read decode service_id file e) ≡ part_of (read decode service_id file d)
  unfolding read
  part-read file e d h =
      part-read_loop (suc (length (drop e.offset file))) (drop e.offset file) e d h
      ∙ ap
          (λ (p : Part). part_of (
            read_loop decode service_id (suc (length (drop p.offset file))) (drop p.offset file) d))
          h

  abbrev closed : ProcessTable → Text → Events → Events × Option Text
  closed table late a =
      if has_ended table a.identity
      then (record a { offset = 0; identity = none }, none)
      else (a, some late)

  part-close :
      (table : ProcessTable) (late : Text) (a b : Events)
      → part_of a ≡ part_of b
      → part_of (closed table late a).0 ≡ part_of (closed table late b).0
  part-close table late a b h =
      let same = ap (λ (p : Part). has_ended table p.identity) h in
      elim (Bool-cases (has_ended table b.identity)) [
        | inl c ↦
            rw (same, c)
              (ap (λ (p : Part). record { offset = 0; identity = none; events = p.events }) h)
        | inr c ↦ rw (same, c) h
      ]

  pub part-collect :
      (table : ProcessTable) (file late : Text) (e d : Events)
      → part_of e ≡ part_of d
      → part_of (collect encode decode service_id table file late e).0
        ≡ part_of (collect encode decode service_id table file late d).0
  unfolding collect
  part-collect table file late e d h = part-close table late _ _ (part-read file e d h)
