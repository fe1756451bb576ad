-- ===== src/Highlight/Editor.antt =====
-- `render` and `attach` of lcl-highlight.js, over the part of the page that they touch: one text
-- area, its place, its listeners and the backdrop behind it.
pub mod Mirror
use mathlib.Core.Option
use lcl_fastapi.Prelude.{
  ℕ, Text, codes, Bool, true, false, not, Option, none, some, List, [], ◌∷◌, ◌++◌, if◌then◌else◌,
  same_text,
}
use lcl_fastapi.Highlight.Pattern.{CharTables}
use lcl_fastapi.Highlight.Lexer.{string}
use lcl_fastapi.Highlight.Markup.{Highlighted, highlight}

-- The `pre` element: its markup, whether it has the class lcl-code, and its scroll position.
pub record Backdrop : Type 0 where
  pub inner_html : Highlighted
  pub lcl_code : Bool
  pub scroll_top : ℕ
  pub scroll_left : ℕ

-- `backdrop` is there while the text area stands in a wrapper of the class lcl-editor.
pub record Page : Type 0 where
  pub tag_name : Text
  pub value : Text
  pub wrap : Option Text
  pub scroll_top : ℕ
  pub scroll_left : ℕ
  pub on_input : Bool
  pub on_scroll : Bool
  pub backdrop : Option Backdrop

-- What `attach` returns: its editor remembers the attribute `wrap`.
pub data Attached : Type 0 where
  attached : Page → Option Text → Attached
  type_error : Attached
  already_highlighted : Attached

abbrev sync_backdrop : Page → Backdrop → Backdrop
sync_backdrop p b = record b { scroll_top = p.scroll_top; scroll_left = p.scroll_left }

unfoldable pub sync : Page → Page
sync p = record p { backdrop = Option.map (sync_backdrop p) p.backdrop }

-- A new `pre`, empty and unscrolled.
abbrev empty_backdrop : Backdrop
empty_backdrop = record {
  inner_html = Highlighted.html [];
  lcl_code = false;
  scroll_top = 0;
  scroll_left = 0;
}

is_some : Option Backdrop → Bool
is_some none = false
is_some (some b) = true

-- What the user and the program do to an attached text area.
pub data Event : Type 0 where
  input : Text → Event
  scroll : ℕ → ℕ → Event
  call_update : Event

-- A listener runs where it is registered.
unfoldable pub notify : Bool → (Page → Page) → Page → Page
notify true listener p = listener p
notify false listener p = p

module _ (u : CharTables) where
  -- element.innerHTML = highlight(source); element.classList.add("lcl-code")
  unfoldable pub render : Text → Backdrop → Backdrop
  render source b = record b { inner_html = highlight u (string source); lcl_code = true }

  unfoldable pub update : Page → Page
  unfolding render sync
  update p = sync (record p { backdrop = Option.map (render (p.value ++ codes "\n")) p.backdrop })

  -- What `attach` does to a text area that it accepts.
  unfoldable pub wrap_up : Page → Page
  unfolding update
  wrap_up p = update (record p {
    wrap = some (codes "off");
    on_input = true;
    on_scroll = true;
    backdrop = some empty_backdrop;
  })

  unfoldable pub attach : Page → Attached
  unfolding is_some
  attach p =
      if not (same_text p.tag_name (codes "TEXTAREA"))
      then type_error
      else if is_some p.backdrop
      then already_highlighted
      else attached (wrap_up p) p.wrap

  -- destroy(), on the editor that remembers `original_wrap`
  unfoldable pub destroy : Option Text → Page → Page
  destroy original_wrap p = record p {
    wrap = original_wrap;
    on_input = false;
    on_scroll = false;
    backdrop = none;
  }

  unfoldable pub handle : Event → Page → Page
  unfolding notify
  handle (input text) p = notify p.on_input (update) (record p { value = text })
  handle (scroll top left) p =
      notify p.on_scroll sync (record p { scroll_top = top; scroll_left = left })
  handle call_update p = update p

  unfoldable pub handle_all : List Event → Page → Page
  unfolding handle
  handle_all [] p = p
  handle_all (e ∷ es) p = handle_all es (handle e p)
