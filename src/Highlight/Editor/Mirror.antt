-- ===== src/Highlight/Editor/Mirror.antt =====
-- An attached backdrop mirrors its text area, and `destroy` undoes `attach`.
use lcl_fastapi.Prelude.{
  ℕ, Text, codes, Bool, true, false, Option, none, some, List, [], ◌∷◌, ◌++◌, ◌≡◌, refl, sym, ap,
  ◌∙◌, subst, arith, same_text_iff,
}
use lcl_fastapi.Highlight.Pattern.{CharTables}
use lcl_fastapi.Highlight.Lexer.{string}
use lcl_fastapi.Highlight.Markup.{highlight}
use lcl_fastapi.Highlight.Editor.{
  Backdrop, Page, empty_backdrop, attached, already_highlighted, sync, update, notify, wrap_up,
  attach, destroy, Event, input, scroll, call_update, handle, handle_all,
}

module _ (u : CharTables) where
  -- The backdrop shows the highlighted value with a line break behind it, at the same place.
  pub record Mirrors (p : Page) : Type 0 where
    pub backdrop : Backdrop
    pub attached_to : p.backdrop ≡ some backdrop
    pub shows : backdrop.inner_html ≡ highlight u (string (p.value ++ codes "\n"))
    pub styled : backdrop.lcl_code ≡ true
    pub same_top : backdrop.scroll_top ≡ p.scroll_top
    pub same_left : backdrop.scroll_left ≡ p.scroll_left
    pub listens : (p.on_input ≡ true) × (p.on_scroll ≡ true) × (p.wrap ≡ some (codes "off"))

  pub update-Mirrors :
      (p : Page) (b : Backdrop)
      → p.backdrop ≡ some b
      → p.on_input ≡ true
      → p.on_scroll ≡ true
      → p.wrap ≡ some (codes "off")
      → Mirrors (update u p)
  unfolding update
  update-Mirrors p b e i s w = record {
    backdrop = record b {
      inner_html = highlight u (string (p.value ++ codes "\n"));
      lcl_code = true;
      scroll_top = p.scroll_top;
      scroll_left = p.scroll_left;
    };
    attached_to = ground (arith, e);
    shows = refl;
    styled = refl;
    same_top = refl;
    same_left = refl;
    listens = (i, s, w);
  }

  sync-Mirrors :
      (top left : ℕ) (p : Page)
      → Mirrors p
      → Mirrors (sync (record p { scroll_top = top; scroll_left = left }))
  unfolding sync
  sync-Mirrors top left p m = record {
    backdrop = record (m.backdrop) { scroll_top = top; scroll_left = left };
    attached_to = ground (arith, m.attached_to);
    shows = m.shows;
    styled = m.styled;
    same_top = refl;
    same_left = refl;
    listens = m.listens;
  }

  notify-true : (b : Bool) (f : Page → Page) (p : Page) → b ≡ true → notify b f p ≡ f p
  unfolding notify
  notify-true true f p h = refl
  notify-true false f p h = cc

  pub handle-Mirrors : (e : Event) (p : Page) → Mirrors p → Mirrors (handle u e p)
  unfolding handle
  handle-Mirrors (input text) p m =
      subst Mirrors
        (sym (notify-true p.on_input (update u) (record p { value = text }) m.listens.0))
        (update-Mirrors (record p { value = text }) m.backdrop m.attached_to m.listens.0 m.listens.1
          m.listens.2)
  handle-Mirrors (scroll top left) p m =
      subst Mirrors (sym (notify-true p.on_scroll sync _ m.listens.1)) (sync-Mirrors top left p m)
  handle-Mirrors call_update p m =
      update-Mirrors p m.backdrop m.attached_to m.listens.0 m.listens.1 m.listens.2

  handle_all-Mirrors : (es : List Event) (p : Page) → Mirrors p → Mirrors (handle_all u es p)
  unfolding handle_all
  handle_all-Mirrors [] p m = m
  handle_all-Mirrors (e ∷ es) p m = handle_all-Mirrors es (handle u e p) (handle-Mirrors e p m)

  pub wrap_up-Mirrors : (p : Page) → Mirrors (wrap_up u p)
  unfolding wrap_up
  wrap_up-Mirrors p = update-Mirrors _ empty_backdrop refl refl refl refl

  attach-eq-attached :
      (p : Page) {q : Page} {w : Option Text}
      → attach u p ≡ attached q w
      → (q ≡ wrap_up u p) × (w ≡ p.wrap) × (p.backdrop ≡ none) × (p.tag_name ≡ codes "TEXTAREA")
  unfolding attach
  attach-eq-attached p h = ground (arith, same_text_iff p.tag_name (codes "TEXTAREA"))

  -- Once attached, the backdrop shows the highlighted value of the text area, at its scroll
  -- position, after every input, scroll and call of `update`.
  pub attach-Mirrors :
      (p : Page) (es : List Event) {q : Page} {w : Option Text}
      → attach u p ≡ attached q w
      → Mirrors (handle_all u es q)
  attach-Mirrors p es h =
      handle_all-Mirrors es _ (subst Mirrors (sym (attach-eq-attached p h).0) (wrap_up-Mirrors p))

  tag_name-handle : (e : Event) (p : Page) → (handle u e p).tag_name ≡ p.tag_name
  unfolding handle update sync
  tag_name-handle e p = ground arith

  tag_name-handle_all : (es : List Event) (p : Page) → (handle_all u es p).tag_name ≡ p.tag_name
  unfolding handle_all
  tag_name-handle_all [] p = refl
  tag_name-handle_all (e ∷ es) p = tag_name-handle_all es (handle u e p) ∙ tag_name-handle e p

  tag_name-wrap_up : (p : Page) → (wrap_up u p).tag_name ≡ p.tag_name
  unfolding wrap_up update sync
  tag_name-wrap_up p = refl

  -- After any events, `destroy` gives the text area back its `wrap` attribute and takes away the
  -- listeners and the wrapper, and it can be attached again; before, it cannot.
  pub destroy-attach :
      (p : Page) (es : List Event) {q : Page} {w : Option Text}
      → attach u p ≡ attached q w
      → let p' = handle_all u es q in
        let r = destroy u w p' in
        (r.wrap ≡ p.wrap)
        × (r.backdrop ≡ p.backdrop)
        × (r.on_input ≡ false)
        × (r.on_scroll ≡ false)
        × (r.value ≡ p'.value)
        × (attach u r ≡ attached (wrap_up u r) p.wrap)
        × (attach u p' ≡ already_highlighted)
  unfolding attach destroy
  destroy-attach p es {q} {w} h =
      let (eq, ew, none_before, tag) = attach-eq-attached p h in
      let m = attach-Mirrors p es h in
      let t : (handle_all u es q).tag_name ≡ codes "TEXTAREA" =
        tag_name-handle_all es q ∙ ap (λ (x : Page). x.tag_name) eq ∙ tag_name-wrap_up p ∙ tag in
      let st = (same_text_iff (handle_all u es q).tag_name (codes "TEXTAREA")).1 t in
      (
        ew,
        sym none_before,
        refl,
        refl,
        refl,
        rw st (ap (attached (wrap_up u (destroy u w (handle_all u es q)))) ew),
        rw (st, m.attached_to) refl,
      )
