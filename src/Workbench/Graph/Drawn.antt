-- ===== src/Workbench/Graph/Drawn.antt =====
-- Every dependency is drawn between the names that it joins, inside the picture.
use Prim.Native.Nat.{◌*◌}
use lcl_fastapi.Prelude.{
  ℕ, ◌+◌, ◌≤◌, ◌<◌, Text, member, true, not, some, List, [], ◌∷◌, ◌++◌, ◌≡◌, refl, ap, subst, map,
  length, arith, All, All-append, Has, Has-append-left, Has-append-right,
}
use lcl_fastapi.Workbench.Graph.{
  Dependency, Label, Curve, Picture, unique, height_of, max, labels_from, is_eager, curve,
  sources_of, targets_of, draw_graph,
}
use lcl_fastapi.Workbench.Graph.Columns.{
  Distinct, index_of-there, member-unique_after, seen_first, unique_after-Distinct,
  labels_from-within,
}

-- A curve is of a dependency: it starts and ends 5 above the base lines of the names' labels, and is
-- dashed but for an eager one.
pub record Joins (labels : List Label) (e : Dependency) (c : Curve) : Type 0 where
  pub left : ℕ
  pub right : ℕ
  pub from : c.from ≡ some left
  pub to : c.to ≡ some right
  pub source_there : Has labels (record { x = 10; y = left + 5; text = e.source })
  pub target_there : Has labels (record { x = 430; y = right + 5; text = e.target })
  pub between :
      (10 < c.start_x)
      × (c.start_x ≤ c.leave_x)
      × (c.leave_x ≤ c.arrive_x)
      × (c.arrive_x ≤ c.end_x)
      × (c.end_x < 430)
  pub dashes : c.dashed ≡ not (is_eager e)

abbrev pub AllJoin : List Label → List Dependency → List Curve → Type 0
AllJoin labels [] [] = Unit
AllJoin labels (e ∷ es) (c ∷ cs) = Joins labels e c × AllJoin labels es cs
AllJoin labels _ _ = ⊥

pub record IsDrawn (edges : List Dependency) (g : Picture) : Type 0 where
  pub sources : List Text
  pub targets : List Text
  pub columns : g.labels ≡ labels_from 10 0 sources ++ labels_from 430 0 targets
  pub distinct : Distinct sources × Distinct targets
  pub joined : AllJoin g.labels edges g.curves
  pub inside : All (λ (l : Label). (l.x < g.width) × (l.y + 40 ≤ g.height)) g.labels

-- Each name of a list is in it.
map-member :
    (f : Dependency → Text) (es : List Dependency) → All (λ e. member (map f es) (f e) ≡ true) es
map-member f [] = tt
map-member f (e ∷ es) = (seen_first (f e) (map f es), weaken es (map-member f es))
  where
    later : (t u : Text) (ts : List Text) → member ts t ≡ true → member (u ∷ ts) t ≡ true
    later t u ts h = unfold member in ground (arith, h)

    weaken :
        (ds : List Dependency)
        → All (λ d. member (map f es) (f d) ≡ true) ds
        → All (λ d. member (f e ∷ map f es) (f d) ≡ true) ds
    weaken [] h = tt
    weaken (d ∷ ds) h = (later (f d) (f e) (map f es) h.0, weaken ds h.1)

at_height :
    (labels : List Label) (x y z : ℕ) (t : Text)
    → y ≡ z
    → Has labels (record { x = x; y = y; text = t })
    → Has labels (record { x = x; y = z; text = t })
at_height labels x y z t e h = subst (λ h. Has labels (record { x = x; y = h; text = t })) e h

curve-Joins :
    (sources targets : List Text) (e : Dependency)
    → member sources e.source ≡ true
    → member targets e.target ≡ true
    → Joins (labels_from 10 0 sources ++ labels_from 430 0 targets) e (curve sources targets e)
unfolding curve
curve-Joins sources targets e hs ht =
    let (i, at, there) = index_of-there 10 0 sources e.source hs in
    let (j, bt, also) = index_of-there 430 0 targets e.target ht in
    record {
      left = 35 + i * 50;
      right = 35 + j * 50;
      from = ap height_of at;
      to = ap height_of bt;
      source_there =
          at_height _ 10 _ _ e.source (omega arith)
            (Has-append-left (labels_from 10 0 sources) (labels_from 430 0 targets) _ there);
      target_there =
          at_height _ 430 _ _ e.target (omega arith)
            (Has-append-right (labels_from 10 0 sources) (labels_from 430 0 targets) _ also);
      between = (omega arith, omega arith, omega arith, omega arith, omega arith);
      dashes = refl;
    }

curves-AllJoin :
    (sources targets : List Text) (es : List Dependency)
    → All (λ (e : Dependency). member sources e.source ≡ true) es
    → All (λ (e : Dependency). member targets e.target ≡ true) es
    → AllJoin
        (labels_from 10 0 sources ++ labels_from 430 0 targets)
        es
        (map (curve sources targets) es)
curves-AllJoin sources targets [] hs ht = tt
curves-AllJoin sources targets (e ∷ es) hs ht =
    (curve-Joins sources targets e hs.0 ht.0, curves-AllJoin sources targets es hs.1 ht.1)

unique-member :
    (f : Dependency → Text) (edges es : List Dependency)
    → All (λ e. member (map f edges) (f e) ≡ true) es
    → All (λ e. member (unique (map f edges)) (f e) ≡ true) es
unique-member f edges [] h = tt
unique-member f edges (e ∷ es) h = (
  member-unique_after [] (map f edges) (f e) (unfold member in refl) h.0,
  unique-member f edges es h.1,
)

max-le :
    (m n : ℕ)
    → (n * 50 + 30) ≤ max 170 (max m n * 50 + 30) × ((m * 50 + 30) ≤ max 170 (max m n * 50 + 30))
max-le m n = ground arith

-- The drawn graph has every dependency as one curve, in order, that starts beside the label of its
-- source on the left and ends beside the label of its target on the right, dashed but for an eager
-- one. The curve runs to the right from point to point, between where the labels of the two columns
-- begin. In each column no name stands twice. Every label begins inside the picture's width, and its
-- base line is inside the height with 40 to spare; how wide a name is written is not considered.
pub draw_graph-IsDrawn : (edges : List Dependency) → IsDrawn edges (draw_graph edges)
unfolding draw_graph
draw_graph-IsDrawn edges =
    let sources = sources_of edges in
    let targets = targets_of edges in
    let (fits_targets, fits_sources) = max-le (length sources) (length targets) in
    record {
      sources = sources;
      targets = targets;
      columns = refl;
      distinct = (unique_after-Distinct [] _, unique_after-Distinct [] _);
      joined =
          curves-AllJoin sources targets edges
            (unique-member (λ (e : Dependency). e.source) edges edges (map-member _ edges))
            (unique-member (λ (e : Dependency). e.target) edges edges (map-member _ edges));
      inside =
          All-append
            (λ (l : Label).
              (l.x < 620) × (l.y + 40 ≤ max 170 (max (length sources) (length targets) * 50 + 30)))
            (labels_from 10 0 sources) (labels_from 430 0 targets)
            (labels_from-within 10 0 _ sources (omega arith) (omega (arith, fits_sources)))
            (labels_from-within 430 0 _ targets (omega arith) (omega (arith, fits_targets)));
    }
