-- ===== src/Workbench/Tabs.antt =====
-- `tab` of examples/playground/playground_service/static/app.js, and the tabs of its page.
use lcl_fastapi.Prelude.{
  ℕ, ◌+◌, Text, codes, same_text, Bool, true, false, not, List, [], ◌∷◌, ◌≡◌, refl, sym, ap, ◌∙◌,
  subst, map, if◌then◌else◌, All,
}

-- A button with aria-selected, and whether its panel is hidden.
pub record Tab : Type 0 where
  pub name : Text
  pub selected : Bool
  pub hidden : Bool

pub data TabName : Type 0 where
  ast dependencies trace : TabName

abbrev pub tab_name : TabName → Text
tab_name ast = codes "ast"
tab_name dependencies = codes "dependencies"
tab_name trace = codes "trace"

abbrev pub select : Text → Tab → Tab
select name t = record {
  name = t.name;
  selected = same_text t.name name;
  hidden = not (same_text t.name name);
}

unfoldable pub tab : TabName → List Tab → List Tab
tab n tabs = map (select (tab_name n)) tabs

abbrev pub first_tabs : List Tab
first_tabs =
    record { name = codes "ast"; selected = true; hidden = false }
    ∷ record { name = codes "dependencies"; selected = false; hidden = true }
    ∷ record { name = codes "trace"; selected = false; hidden = true }
    ∷ []

abbrev pub names : List Tab → List Text
names tabs = map (λ (t : Tab). t.name) tabs

abbrev pub selected_count : List Tab → ℕ
selected_count [] = 0
selected_count (t ∷ ts) = (if t.selected then 1 else 0) + selected_count ts

-- One tab is selected, and its panel alone is shown.
pub record IsOneTab (tabs : List Tab) : Type 0 where
  pub same_names : names tabs ≡ names first_tabs
  pub one : selected_count tabs ≡ 1
  pub shown : All (λ (t : Tab). t.hidden ≡ not t.selected) tabs

-- A selection writes all of a tab but its name.
abbrev named : TabName → Text → Tab
named n t = select (tab_name n) (record { name = t; selected = false; hidden = false })

tab-names : (n : TabName) (ts : List Tab) → tab n ts ≡ map (named n) (names ts)
unfolding tab
tab-names n [] = refl
tab-names n (t ∷ ts) = ap (λ x. named n t.name ∷ x) (tab-names n ts)

tab_again : (n : TabName) (ts us : List Tab) → names ts ≡ names us → tab n ts ≡ tab n us
tab_again n ts us h = tab-names n ts ∙ ap (map (named n)) h ∙ sym (tab-names n us)

tab-first_tabs-IsOneTab : (n : TabName) → IsOneTab (tab n first_tabs)
unfolding tab same_text
tab-first_tabs-IsOneTab ast = record {
  same_names = refl;
  one = refl;
  shown = (refl, (refl, (refl, tt)));
}
tab-first_tabs-IsOneTab dependencies = record {
  same_names = refl;
  one = refl;
  shown = (refl, (refl, (refl, tt)));
}
tab-first_tabs-IsOneTab trace = record {
  same_names = refl;
  one = refl;
  shown = (refl, (refl, (refl, tt)));
}

pub tab-IsOneTab : (n : TabName) (tabs : List Tab) → IsOneTab tabs → IsOneTab (tab n tabs)
tab-IsOneTab n tabs h =
    subst IsOneTab (sym (tab_again n tabs first_tabs h.same_names)) (tab-first_tabs-IsOneTab n)

pub first_tabs-IsOneTab : IsOneTab first_tabs
first_tabs-IsOneTab = record { same_names = refl; one = refl; shown = (refl, (refl, (refl, tt))) }
