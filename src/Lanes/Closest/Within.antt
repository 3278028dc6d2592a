-- ===== src/Lanes/Closest/Within.antt =====
-- The index that getClosestPoly of art_map/src/lib/PolyOps.cc gives on a list with a polygon.
use utexas_art_ros_pkg.Base.{
  ℕ, suc, ◌+◌, ◌<◌, ◌≡◌, refl, sym, false, false≢true, List, [], ◌∷◌, Option, some, if_elim, IsSome,
  get_elem?, get_elem?-some, length, null, pos, if◌then◌else◌, and_then, ap, ◌∙◌, arith,
}
use utexas_art_ros_pkg.Numeric.{Floats, equal}
use utexas_art_ros_pkg.RoadMap.WayPoint.{MapXy}
use utexas_art_ros_pkg.Lanes.Poly.{Poly, get_shortest_dist_to_poly}
use utexas_art_ros_pkg.Lanes.Closest.{closest_from, get_closest_poly}

-- an index below a bound
abbrev pub Below : ℕ → Option ℕ → Type 0
Below n o = (i : ℕ) × (o ≡ some i) × (i < n)

module _ {F : Type 0} ⦃fl : Floats F⦄ where
  closest_from-Below :
      (pt : MapXy F) (n i : ℕ) (index : Option ℕ) (d : F) (ps : List (Poly F))
      → suc i + length ps ≡ n
      → Below n index
      → Below n (closest_from pt (suc i) index d ps)
  unfolding closest_from
  closest_from-Below pt n i index d [] e b = b
  closest_from-Below pt n i index d (p ∷ ps) e b =
      let here : Below n (some (suc i)) = (suc i, refl, omega (arith, e)) in
      let dist = get_shortest_dist_to_poly pt p in
      let nearer = fl.lt dist d in
      if_elim (Below n) (equal dist (fl.of_int (pos 0))) (λ _. here)
        λ _.
          closest_from-Below pt n (suc i) (if nearer then some (suc i) else index)
            (if nearer then dist else d) ps (omega (arith, e))
            (if_elim (Below n) nearer (λ _. here) (λ _. b))

  pub get_closest_poly-Below :
      (ps : List (Poly F)) (pt : MapXy F)
      → null ps ≡ false
      → Below (length ps) (get_closest_poly ps pt)
  unfolding get_closest_poly closest_from
  get_closest_poly-Below [] pt h = absurd (false≢true (sym h))
  get_closest_poly-Below (p ∷ ps) pt h =
      let here : Below (suc (length ps)) (some 0) = (0, refl, omega arith) in
      let dist = get_shortest_dist_to_poly pt p in
      let nearer = fl.lt dist dist in
      if_elim (Below (suc (length ps))) (equal dist (fl.of_int (pos 0))) (λ _. here)
        λ _.
          closest_from-Below pt (suc (length ps)) 0 (if nearer then some 0 else some 0)
            (if nearer then dist else dist) ps (omega arith)
            (if_elim (Below (suc (length ps))) nearer (λ _. here) (λ _. here))

  -- the polygon at that index
  pub closest_poly :
      (ps : List (Poly F)) (pt : MapXy F)
      → null ps ≡ false
      → IsSome (and_then (get_closest_poly ps pt) λ i. get_elem? ps i)
  closest_poly ps pt h =
      let (i, e, l) = get_closest_poly-Below ps pt h in
      let (q, at) = get_elem?-some ps i l in (q, ap (λ o. and_then o λ j. get_elem? ps j) e ∙ at)
