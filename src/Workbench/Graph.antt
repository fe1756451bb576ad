-- ===== src/Workbench/Graph.antt =====
-- `drawGraph` of examples/playground/playground_service/static/app.js: the names that read on the
-- left, the names read on the right, and a curve for each dependency.
pub mod Columns
pub mod Drawn
use Prim.Native.Nat.{◌*◌}
use lcl_fastapi.Prelude.{
  ℕ, suc, ◌+◌, Text, codes, same_text, member, Bool, true, false, not, Option, none, some, List, [],
  ◌∷◌, ◌++◌, map, ltb, leb, if◌then◌else◌, length,
}

pub record Dependency : Type 0 where
  pub source : Text
  pub target : Text
  pub kind : Text

-- [...new Set(names)]: each name once, in the order of the first.
unfoldable pub unique_after : List Text → List Text → List Text
unique_after seen [] = []
unique_after seen (t ∷ ts) =
    let old = unique_after seen ts in
    let new = unique_after (t ∷ seen) ts in if member seen t then old else t ∷ new

abbrev pub unique : List Text → List Text
unique ts = unique_after [] ts

-- names.indexOf(name); `none` is -1.
unfoldable pub index_of : List Text → Text → Option ℕ
index_of [] t = none
index_of (u ∷ us) t =
    if same_text t u then some 0 else elim (index_of us t) [ none ↦ none | some n ↦ some (suc n) ]

-- 35 + index * 50; `none` is the height -15 of a name that is not there.
abbrev pub height_of : Option ℕ → Option ℕ
height_of none = none
height_of (some i) = some (35 + i * 50)

-- A curve from the left column at one height to the right column at another, with its horizontal
-- coordinates: the start, the two control points and the end, at which it has a fixed arrow head.
pub record Curve : Type 0 where
  pub start_x : ℕ
  pub leave_x : ℕ
  pub arrive_x : ℕ
  pub end_x : ℕ
  pub from : Option ℕ
  pub to : Option ℕ
  pub stroke : Text
  pub dashed : Bool

pub record Label : Type 0 where
  pub x : ℕ
  pub y : ℕ
  pub text : Text

pub record Picture : Type 0 where
  pub width : ℕ
  pub height : ℕ
  pub curves : List Curve
  pub labels : List Label

abbrev pub max : ℕ → ℕ → ℕ
max a b = if leb a b then b else a

unfoldable pub labels_from : ℕ → ℕ → List Text → List Label
labels_from x i [] = []
labels_from x i (t ∷ ts) = record { x = x; y = 40 + i * 50; text = t } ∷ labels_from x (suc i) ts

abbrev pub is_eager : Dependency → Bool
is_eager e = same_text e.kind (codes "eager")

unfoldable pub curve : List Text → List Text → Dependency → Curve
curve sources targets e = record {
  start_x = 190;
  leave_x = 280;
  arrive_x = 340;
  end_x = 420;
  from = height_of (index_of sources e.source);
  to = height_of (index_of targets e.target);
  stroke = if is_eager e then codes "#3769b1" else codes "#b47b36";
  dashed = not (is_eager e);
}

abbrev pub sources_of : List Dependency → List Text
sources_of edges = unique (map (λ (e : Dependency). e.source) edges)

abbrev pub targets_of : List Dependency → List Text
targets_of edges = unique (map (λ (e : Dependency). e.target) edges)

unfoldable pub draw_graph : List Dependency → Picture
draw_graph edges =
    let sources = sources_of edges in
    let targets = targets_of edges in
    record {
      width = 620;
      height = max 170 (max (length sources) (length targets) * 50 + 30);
      curves = map (curve sources targets) edges;
      labels = labels_from 10 0 sources ++ labels_from 430 0 targets;
    }
