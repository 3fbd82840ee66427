-- ===== src/Boundary/Polygon.antt =====
-- bc/Polygon.cpp: a polygon with its bounding box, and the test of a point.
use frehg.Prelude.{
  leb, Bool, false, not, ◌&&◌, ◌||◌, if◌then◌else◌, List, [], ◌∷◌, length, Result, ok, fatal,
  Double, ◌⊕◌, ◌⊖◌, ◌⊗◌, ◌⊘◌, ◌≺◌, ◌≼◌, one_real, negate, fmax, fmin,
}

abbrev pub Point : Type 0 → Type 0
Point R = R × R

pub record Polygon (R : Type 0) : Type 0 where
  pub vertices : List (Point R)
  pub west : R
  pub south : R
  pub east : R
  pub north : R

pub data PolygonError : Type 0 where
  too_few_vertices : PolygonError

-- The edges `vertices[v]`, `vertices[(v + 1) % n]` from the vertex `a` on.
abbrev pub edges_from : {R : Type 0} → Point R → Point R → List (Point R) → List (Point R × Point R)
edges_from first a [] = (a, first) ∷ []
edges_from first a (b ∷ rest) = (a, b) ∷ edges_from first b rest

abbrev pub edges_of : {R : Type 0} → List (Point R) → List (Point R × Point R)
edges_of [] = []
edges_of (a ∷ rest) = edges_from a a rest

module _ {R : Type 0} ⦃double : Double R⦄ where
  unfoldable pub widen : Polygon R → List (Point R) → Polygon R
  widen p [] = p
  widen p (v ∷ vs) =
      widen
        (record p {
          west = fmin p.west v.0;
          south = fmin p.south v.1;
          east = fmax p.east v.0;
          north = fmax p.north v.1;
        })
        vs

  unfoldable pub make_polygon : List (Point R) → Result PolygonError (Polygon R)
  unfolding widen
  make_polygon [] = fatal PolygonError.too_few_vertices
  make_polygon (v ∷ vs) =
      if leb 3 (length (v ∷ vs))
      then ok (
          widen (record { vertices = v ∷ vs; west = v.0; south = v.1; east = v.0; north = v.1 })
            (v ∷ vs))
      else fatal PolygonError.too_few_vertices

  -- `1.0e-12`
  abbrev pub tiny : R
  tiny = double.scaled 1 12

  unfoldable pub on_segment : Point R → Point R → R → R → Bool
  on_segment a b x y =
      let cross = (b.0 ⊖ a.0) ⊗ (y ⊖ a.1) ⊖ (b.1 ⊖ a.1) ⊗ (x ⊖ a.0) in
      let size = λ (v : R). double.fabs v in
      let scale =
        fmax
          (fmax (fmax (fmax (fmax (fmax (size a.0) (size a.1)) (size b.0)) (size b.1)) (size x))
            (size y))
          one_real in
      let dot = (x ⊖ a.0) ⊗ (b.0 ⊖ a.0) ⊕ (y ⊖ a.1) ⊗ (b.1 ⊖ a.1) in
      let len2 = (b.0 ⊖ a.0) ⊗ (b.0 ⊖ a.0) ⊕ (b.1 ⊖ a.1) ⊗ (b.1 ⊖ a.1) in
      not (tiny ⊗ scale ⊗ scale ≺ double.fabs cross)
      && (negate tiny ⊗ scale ⊗ scale ≼ dot)
      && (dot ≼ len2 ⊕ tiny ⊗ scale ⊗ scale)

  unfoldable pub on_some_edge : List (Point R × Point R) → R → R → Bool
  unfolding on_segment
  on_some_edge [] x y = false
  on_some_edge (e ∷ rest) x y = on_segment e.0 e.1 x y || on_some_edge rest x y

  -- The edge crosses the ray from the point to the east.
  unfoldable pub crosses : Point R → Point R → R → R → Bool
  crosses a b x y =
      let above_a = y ≺ a.1 in
      let above_b = y ≺ b.1 in
      ((above_a && not above_b) || (not above_a && above_b))
      && (x ≺ a.0 ⊕ (y ⊖ a.1) ⊘ (b.1 ⊖ a.1) ⊗ (b.0 ⊖ a.0))

  unfoldable pub count_crossings : List (Point R × Point R) → R → R → Bool → Bool
  unfolding crosses
  count_crossings [] x y inside = inside
  count_crossings (e ∷ rest) x y inside =
      count_crossings rest x y (if crosses e.0 e.1 x y then not inside else inside)

  unfoldable pub contains : Polygon R → R → R → Bool
  unfolding on_some_edge count_crossings
  contains p x y =
      let outside =
        (x ≺ p.west ⊖ tiny)
        || (p.east ⊕ tiny ≺ x)
        || (y ≺ p.south ⊖ tiny)
        || (p.north ⊕ tiny ≺ y) in
      if outside
      then false
      else on_some_edge (edges_of p.vertices) x y || count_crossings (edges_of p.vertices) x y false
