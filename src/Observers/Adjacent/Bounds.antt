-- ===== src/Observers/Adjacent/Bounds.antt =====
-- The observers find a quadrilateral to measure from: the indices that getClosestPoly gives them.
use utexas_art_ros_pkg.Base.{
  ℕ, ◌≡◌, refl, sym, ap, false, true, false≢true, List, [], ◌∷◌, some, IsSome, and_then_elim,
  get_elem?, get_elem?-some, length, length-map, null, take, map, arith,
}
use utexas_art_ros_pkg.Numeric.{Floats}
use utexas_art_ros_pkg.RoadMap.WayPoint.{MapXy}
use utexas_art_ros_pkg.Lanes.Geometry.{MapPose}
use utexas_art_ros_pkg.Lanes.Message.{ArtQuadrilateral, get_polys, of_quadrilateral}
use utexas_art_ros_pkg.Lanes.Closest.{get_closest_poly}
use utexas_art_ros_pkg.Lanes.Closest.Within.{get_closest_poly-Below}
use utexas_art_ros_pkg.Observers.Quads.{blanks, get_obstacles_in_lane, in_lane_from, in_lane_into}
use utexas_art_ros_pkg.Observers.Nearest.{robot_quad}
use utexas_art_ros_pkg.Observers.Adjacent.{adjacent_distance}

module _ {F : Type 0} ⦃fl : Floats F⦄ where
  -- on a list that is not empty, the index is that of an element
  closest_quad :
      (quads : List (ArtQuadrilateral F)) (pt : MapXy F)
      → null quads ≡ false
      → (i : ℕ) × (get_closest_poly (get_polys quads) pt ≡ some i) × IsSome (get_elem? quads i)
  unfolding get_polys
  closest_quad [] pt h = absurd (false≢true (sym h))
  closest_quad (q ∷ qs) pt h =
      let (i, e, l) = get_closest_poly-Below (map of_quadrilateral (q ∷ qs)) pt refl in
      (i, e, get_elem?-some (q ∷ qs) i (omega (arith, l, length-map of_quadrilateral (q ∷ qs))))

  pub robot_quad-IsSome :
      (local_map : List (ArtQuadrilateral F)) (pose : MapPose F)
      → null local_map ≡ false
      → IsSome (robot_quad local_map pose)
  unfolding robot_quad
  robot_quad-IsSome local_map pose h =
      let (i, e, found) = closest_quad local_map pose.map h in rw e found

  -- a lane with no quadrilaterals has no obstacles in it
  in_lane_into-nil :
      (os : List (ArtQuadrilateral F)) (out : List (ArtQuadrilateral F))
      → in_lane_into [] os 0 out ≡ (0, out)
  unfolding in_lane_into in_lane_from
  in_lane_into-nil [] out = refl
  in_lane_into-nil (o ∷ os) out = in_lane_into-nil os out

  get_obstacles_in_lane-nil :
      (blank : ArtQuadrilateral F) (os : List (ArtQuadrilateral F))
      → get_obstacles_in_lane blank os [] ≡ []
  unfolding get_obstacles_in_lane
  get_obstacles_in_lane-nil blank os =
      ap (λ (r : ℕ × List (ArtQuadrilateral F)). take r.0 r.1)
        (in_lane_into-nil os (blanks blank (length os)))

  obstacles_in_lane-null :
      (blank : ArtQuadrilateral F) (os quads : List (ArtQuadrilateral F))
      → null quads ≡ true
      → get_obstacles_in_lane blank os quads ≡ []
  obstacles_in_lane-null blank os [] h = get_obstacles_in_lane-nil blank os
  obstacles_in_lane-null blank os (q ∷ qs) h = absurd (false≢true h)

  adjacent_distance-IsSome :
      (quads obstacles : List (ArtQuadrilateral F)) (pose : MapPose F)
      → (null quads ≡ true → obstacles ≡ [])
      → IsSome (adjacent_distance quads obstacles pose)
  unfolding adjacent_distance
  adjacent_distance-IsSome quads [] pose h = (_, refl)
  adjacent_distance-IsSome [] (o ∷ os) pose h = cc (h refl)
  adjacent_distance-IsSome (q ∷ qs) (o ∷ os) pose h =
      let (i, e, found) = closest_quad (q ∷ qs) pose.map refl in
      rw e (and_then_elim IsSome (get_elem? (q ∷ qs) i) _ found (λ _ _. (_, refl)))

  -- the distance that an observer of an adjacent lane measures
  pub beside_distance :
      (blank : ArtQuadrilateral F) (obstacles quads : List (ArtQuadrilateral F)) (pose : MapPose F)
      → IsSome (adjacent_distance quads (get_obstacles_in_lane blank obstacles quads) pose)
  beside_distance blank obstacles quads pose =
      adjacent_distance-IsSome quads (get_obstacles_in_lane blank obstacles quads) pose
        (obstacles_in_lane-null blank obstacles quads)
