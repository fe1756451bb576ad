-- ===== src/Background/Journal/Once.antt =====
-- The controller consumes each complete line of a journal once, however the writes are cut.
use Prim.Native.String.{String}
use lcl_fastapi.Prelude.{
  ℕ, zero, suc, ◌+◌, ◌≤◌, ◌<◌, Text, true, false, Option, none, some, List, [], ◌∷◌, ◌++◌, ◌≡◌,
  refl, sym, ap, ◌∙◌, arith, length, length-append, append_assoc, append-nil, Bool-cases, inl, inr,
}
use lcl_fastapi.Runtime.State.Value.{Record}
use lcl_fastapi.Background.Journal.{
  Events, readline, ends_line, drop, take_record, take_line, read_loop, read,
}
use lcl_fastapi.Background.Journal.Lines.{
  readline-split, readline-le, readline-append, drop-append, drop-add, drop-length, length-drop,
}

module _ (decode : Text → Option Record) (service_id : String) where
  pub offset-take_line :
      (line : Text) (e : Events)
      → (take_line decode service_id line e).offset ≡ e.offset + length line
  unfolding take_line take_record
  offset-take_line line e = at (decode line)
    where
      at :
          (r : Option Record)
          → (take_record service_id r (record e { offset = e.offset + length line })).offset
            ≡ e.offset + length line
      at none = refl
      at (some r) = ground arith

  read_loop-fuel :
      (f g : ℕ) (b : Text) (e : Events)
      → length b < f
      → length b < g
      → read_loop decode service_id f b e ≡ read_loop decode service_id g b e
  unfolding read_loop
  read_loop-fuel zero g b e hf hg = absurd (omega arith)
  read_loop-fuel (suc f) zero b e hf hg = absurd (omega arith)
  read_loop-fuel (suc f) (suc g) [] e hf hg = unfold readline ends_line in refl
  read_loop-fuel (suc f) (suc g) (c ∷ s) e hf hg =
      rw
        (read_loop-fuel f g (readline (c ∷ s)).1
          (take_line decode service_id (readline (c ∷ s)).0 e) (omega (arith, readline-le c s))
          (omega (arith, readline-le c s)))
        refl

  abbrev loop : Text → Events → Events
  loop b e = read_loop decode service_id (suc (length b)) b e

  read_loop-line :
      (f c : ℕ) (s : Text) (e : Events)
      → ends_line (readline (c ∷ s)).0 ≡ true
      → read_loop decode service_id (suc f) (c ∷ s) e
        ≡ read_loop decode service_id f
            (readline (c ∷ s)).1
            (take_line decode service_id (readline (c ∷ s)).0 e)
  unfolding read_loop
  read_loop-line f c s e h = rw h refl

  read_loop-part :
      (f : ℕ) (b : Text) (e : Events)
      → ends_line (readline b).0 ≡ false
      → read_loop decode service_id (suc f) b e ≡ e
  unfolding read_loop
  read_loop-part f b e h = rw h refl

  -- A complete line at the beginning is taken, whatever was appended.
  loop-line :
      (c : ℕ) (s g : Text) (e : Events)
      → ends_line (readline (c ∷ s)).0 ≡ true
      → loop ((c ∷ s) ++ g) e
        ≡ loop ((readline (c ∷ s)).1 ++ g) (take_line decode service_id (readline (c ∷ s)).0 e)
  loop-line c s g e h =
      let whole : readline (c ∷ (s ++ g)) ≡ ((readline (c ∷ s)).0, (readline (c ∷ s)).1 ++ g) =
        readline-append (c ∷ s) g h in
      let ended : ends_line (readline (c ∷ (s ++ g))).0 ≡ true =
        ap (λ (x : Text × Text). ends_line x.0) whole ∙ h in
      read_loop-line (suc (length (s ++ g))) c (s ++ g) e ended
      ∙ ap
          (λ (x : Text × Text).
            read_loop decode service_id (suc (length (s ++ g))) x.1
              (take_line decode service_id x.0 e))
          whole
      ∙ read_loop-fuel (suc (length (s ++ g))) (suc (length ((readline (c ∷ s)).1 ++ g)))
          ((readline (c ∷ s)).1 ++ g) (take_line decode service_id (readline (c ∷ s)).0 e)
          (omega (arith, readline-le c s, length-append (readline (c ∷ s)).1 g, length-append s g))
          (omega arith)

  -- What is left after a run of the loop, and that a later run goes on there.
  abbrev Continues : Text → Events → Events → Type 0
  Continues b e e' =
      (n : ℕ) × (n ≤ length b)
      × (e'.offset ≡ e.offset + n)
      × ((g : Text) → loop (b ++ g) e ≡ loop (drop n (b ++ g)) e')

  stays : (b : Text) (e : Events) → Continues b e e
  stays b e = (0, omega arith, omega arith, λ g. unfold drop in refl)

  line-Continues :
      (c : ℕ) (s : Text) (e e' : Events)
      → ends_line (readline (c ∷ s)).0 ≡ true
      → Continues (readline (c ∷ s)).1 (take_line decode service_id (readline (c ∷ s)).0 e) e'
      → Continues (c ∷ s) e e'
  line-Continues c s e e' q (n, le, at, more) =
      let line : Text = (readline (c ∷ s)).0 in
      let rest : Text = (readline (c ∷ s)).1 in
      (
        length line + n,
        omega (arith, le, ap length (readline-split (c ∷ s)), length-append line rest),
        omega (arith, at, offset-take_line line e),
        λ g.
            loop-line c s g e q
            ∙ more g
            ∙ ap (λ x. loop x e')
                (ap (drop n) (
                    sym (drop-length line (rest ++ g))
                    ∙ ap (drop (length line)) (
                        sym (append_assoc line rest g) ∙ ap (λ x. x ++ g) (readline-split (c ∷ s))))
                  ∙ sym (drop-add (length line) n ((c ∷ s) ++ g))),
      )

  read_loop-Continues :
      (f : ℕ) (b : Text) (e : Events)
      → length b < f
      → Continues b e (read_loop decode service_id f b e)
  read_loop-Continues zero b e h = absurd (omega arith)
  read_loop-Continues (suc f) [] e h =
      rw (read_loop-part f [] e (unfold readline ends_line in refl)) (stays [] e)
  read_loop-Continues (suc f) (c ∷ s) e h = elim (Bool-cases (ends_line (readline (c ∷ s)).0)) [
    | inr q ↦ rw (read_loop-part f (c ∷ s) e q) (stays (c ∷ s) e)
    | inl q ↦ rw (read_loop-line f c s e q) (
        line-Continues c s e _ q (
          read_loop-Continues f (readline (c ∷ s)).1
            (take_line decode service_id (readline (c ∷ s)).0 e) (omega (arith, readline-le c s))))
  ]

  read-loop :
      (file : Text) (e : Events) → read decode service_id file e ≡ loop (drop e.offset file) e
  unfolding read
  read-loop file e = refl

  -- A read, an append and a read are as the append and one read.
  read-read :
      (file more : Text) (e : Events)
      → e.offset ≤ length file
      → (read decode service_id (file ++ more) (read decode service_id file e)
          ≡ read decode service_id (file ++ more) e)
        × ((read decode service_id file e).offset ≤ length file)
  read-read file more e h =
      let b : Text = drop e.offset file in
      let e' : Events = loop b e in
      let (n, le, at, go) = read_loop-Continues (suc (length b)) b e (omega arith) in
      let there : drop e'.offset (file ++ more) ≡ drop n (b ++ more) =
        ap (λ k. drop k (file ++ more)) at
        ∙ drop-add e.offset n (file ++ more)
        ∙ ap (drop n) (drop-append e.offset file more h) in
      let same : (read decode service_id file e).offset ≡ e.offset + n =
        ap (λ (x : Events). x.offset) (read-loop file e) ∙ at in
      (
        ap (read decode service_id (file ++ more)) (read-loop file e)
            ∙ read-loop (file ++ more) e'
            ∙ ap (λ x. loop x e') there
            ∙ sym (go more)
            ∙ ap (λ x. loop x e) (sym (drop-append e.offset file more h))
            ∙ sym (read-loop (file ++ more) e),
        omega (arith, same, le, length-drop e.offset file h),
      )

-- A read of the journal, and one more after each append.
abbrev pub read_after : (Text → Option Record) → String → Text → List Text → Events → Events
read_after decode service_id file [] e = read decode service_id file e
read_after decode service_id file (more ∷ appends) e =
    read_after decode service_id (file ++ more) appends (read decode service_id file e)

abbrev pub concat : List Text → Text
concat [] = []
concat (t ∷ ts) = t ++ concat ts

-- From an offset within a journal, however the appends to it are cut, also within a line, and
-- however often the controller reads in between: it ends with the same messages in the same order,
-- offset and stopping processes as after one read of the whole journal. No line is lost and none is
-- consumed twice.
pub read_after-once :
    (decode : Text → Option Record) (service_id : String) (file : Text) (appends : List Text)
    (e : Events)
    → e.offset ≤ length file
    → read_after decode service_id file appends e
      ≡ read decode service_id (file ++ concat appends) e
read_after-once decode service_id file [] e h =
    ap (λ x. read decode service_id x e) (sym (append-nil file))
read_after-once decode service_id file (more ∷ appends) e h =
    let e' : Events = read decode service_id file e in
    let (same, le) = read-read decode service_id file (more ++ concat appends) e h in
    read_after-once decode service_id (file ++ more) appends e'
      (omega (arith, le, length-append file more))
    ∙ ap (λ x. read decode service_id x e') (append_assoc file more (concat appends))
    ∙ same
