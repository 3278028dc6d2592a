-- ===== src/Lanes/Closest.antt =====
-- The polygon of a list that contains a point or is nearest to it: getClosestPoly,
-- getClosestNonTransPoly, getContainingPoly and getPolyIndex of class PolyOps. An index is an `int`
-- in the source; `none` is its -1.
pub mod Nearest
pub mod Within
use utexas_art_ros_pkg.Base.{
  ℕ, zero, suc, Bool, List, [], ◌∷◌, Option, none, some, and_then, if◌then◌else◌, get_elem?, ℤ, pos,
  negsuc, eqb_ℤ,
}
use utexas_art_ros_pkg.Numeric.{Floats, equal}
use utexas_art_ros_pkg.RoadMap.WayPoint.{MapXy}
use utexas_art_ros_pkg.Lanes.Poly.{Poly, get_shortest_dist_to_poly}

-- a value assigned `if (i == 0)`
abbrev pub at_first {ℓ} : {A : Type ℓ} → ℕ → A → A → A
at_first zero a b = a
at_first (suc i) a b = b

module _ {F : Type 0} where
  -- the index of the first polygon that passes a test, counted from `i`
  unfoldable pub index_from : (Poly F → Bool) → ℕ → List (Poly F) → Option ℕ
  index_from test i [] = none
  index_from test i (p ∷ ps) =
      let rest = index_from test (suc i) ps in if test p then some i else rest

  unfoldable pub get_poly_index : List (Poly F) → Poly F → Option ℕ
  unfolding index_from
  get_poly_index polys cur = index_from (λ p. eqb_ℤ p.poly_id cur.poly_id) 0 polys

module _ {F : Type 0} ⦃fl : Floats F⦄ where
  -- The loop of getClosestPoly from index `i`, with the best index so far and its distance.
  unfoldable pub closest_from : MapXy F → ℕ → Option ℕ → F → List (Poly F) → Option ℕ
  unfolding equal
  closest_from pt i index min_dist [] = index
  closest_from pt i index min_dist (p ∷ ps) =
      let d = get_shortest_dist_to_poly pt p in
      let min1 = at_first i d min_dist in
      let index1 = at_first i (some 0) index in
      let nearer = fl.lt d min1 in
      let rest =
        closest_from pt (suc i) (if nearer then some i else index1) (if nearer then d else min1)
          ps in
      if equal d (fl.of_int (pos 0)) then some i else rest

  unfoldable pub get_closest_poly : List (Poly F) → MapXy F → Option ℕ
  unfolding closest_from
  get_closest_poly polys pt = closest_from pt 0 none fl.flt_max polys

  -- The loop of getClosestNonTransPoly.
  unfoldable pub non_trans_from : MapXy F → ℕ → Option ℕ → F → List (Poly F) → Option ℕ
  unfolding equal
  non_trans_from pt i index min_dist [] = index
  non_trans_from pt i index min_dist (p ∷ ps) =
      let d = get_shortest_dist_to_poly pt p in
      let min1 = at_first i d min_dist in
      let index1 = at_first i (some 0) index in
      let nearer = fl.lt d min1 in
      let skipped = non_trans_from pt (suc i) index min_dist ps in
      let rest =
        non_trans_from pt (suc i) (if nearer then some i else index1) (if nearer then d else min1)
          ps in
      if p.is_transition then skipped else if equal d (fl.of_int (pos 0)) then some i else rest

  unfoldable pub get_closest_non_trans_poly : List (Poly F) → MapXy F → Option ℕ
  unfolding non_trans_from
  get_closest_non_trans_poly polys pt = non_trans_from pt 0 none fl.flt_max polys

  unfoldable pub get_containing_poly : List (Poly F) → MapXy F → Option ℕ
  unfolding get_closest_poly
  get_containing_poly polys pt = and_then (get_closest_poly polys pt) λ i.
      and_then (get_elem? polys i) λ closest.
        if fl.lt (get_shortest_dist_to_poly pt closest) fl.distance_epsilon then some i else none

  unfoldable pub get_containing_poly_id : List (Poly F) → MapXy F → ℤ
  unfolding get_containing_poly
  get_containing_poly_id polys pt = elim (get_containing_poly polys pt) [
    | none ↦ negsuc 0
    | some i ↦ elim (get_elem? polys i) [ none ↦ negsuc 0 | some p ↦ p.poly_id ]
  ]
