-- ===== src/Observers/Adjacent.antt =====
-- The observers of the lanes beside that of the vehicle: art_observers/src/observers/adjacent_left.cc
-- and adjacent_right.cc.
pub mod Bounds
use utexas_art_ros_pkg.Base.{
  ℕ, zero, suc, Bool, true, false, List, [], ◌∷◌, Option, none, some, and_then, if◌then◌else◌,
  get_elem?, length, ltb, ℤ, pos, negsuc, ltb_ℤ, eqb_ℤ,
}
use utexas_art_ros_pkg.Numeric.{Floats}
use utexas_art_ros_pkg.Lanes.Geometry.{MapPose}
use utexas_art_ros_pkg.Lanes.Message.{ArtQuadrilateral, get_polys}
use utexas_art_ros_pkg.Lanes.Closest.{get_closest_poly}
use utexas_art_ros_pkg.Observers.Quads.{get_obstacles_in_lane, filter_adjacent_lanes}
use utexas_art_ros_pkg.Observers.Filters.{FilterBase}
use utexas_art_ros_pkg.Observers.Observer.{Observer, report}
use utexas_art_ros_pkg.Observers.Nearest.{distance_along}

module _ {F : Type 0} where
  -- the list from a position on
  abbrev pub drop : ℕ → List (ArtQuadrilateral F) → List (ArtQuadrilateral F)
  drop zero qs = qs
  drop (suc n) [] = []
  drop (suc n) (q ∷ qs) = drop n qs

module _ {F : Type 0} ⦃fl : Floats F⦄ where
  -- The loop with `i--`, where the rounds left are the index and one more: at 0 the index becomes
  -- the greatest `size_t`, which is not below the size.
  unfoldable pub distance_back : List (ArtQuadrilateral F) → ℤ → F → ℕ → F
  distance_back quads target_id distance zero = distance
  distance_back quads target_id distance (suc i) = elim (get_elem? quads i) [
    | none ↦ distance
    | some q ↦
        let sum = fl.fadd distance q.length in
        let rest = distance_back quads target_id sum i in
        if eqb_ℤ q.poly_id target_id then sum else rest
  ]

  -- The distance to the first obstacle of the adjacent lane, from the lane's quadrilateral closest to
  -- the pose; `none` is the index -1 of a lane with no quadrilaterals.
  unfoldable pub adjacent_distance :
      List (ArtQuadrilateral F) → List (ArtQuadrilateral F) → MapPose F → Option F
  unfolding get_polys get_closest_poly distance_along distance_back
  adjacent_distance quads [] pose = some fl.infinity
  adjacent_distance quads (o ∷ os) pose =
      let nought = fl.of_int (pos 0) in
      and_then (get_closest_poly (get_polys quads) pose.map) λ i. and_then (get_elem? quads i) λ q.
        some (
          if ltb_ℤ q.poly_id o.poly_id
          then distance_along o.poly_id nought (drop i quads)
          else distance_back quads o.poly_id nought (suc i))

  module _ {M V : Type 0} (median : FilterBase F M) (mean : FilterBase F V)
      (blank : ArtQuadrilateral F) where
    -- Both functions `update`: the side is +1 for the left and -1 for the right lane, and the test for a
    -- closing obstacle runs once or twice.
    unfoldable pub update_beside :
        ℤ
        → Bool
        → Observer F M V
        → List (ArtQuadrilateral F)
        → List (ArtQuadrilateral F)
        → MapPose F
        → F
        → Option (Observer F M V)
    unfolding filter_adjacent_lanes get_obstacles_in_lane adjacent_distance report
    update_beside side twice o local_map obstacles pose now =
        let quads = filter_adjacent_lanes pose local_map side in
        let lane_obstacles = get_obstacles_in_lane blank obstacles quads in
        and_then (adjacent_distance quads lane_obstacles pose)
          λ distance. some (report median mean twice o distance now)

    unfoldable pub update_left :
        Observer F M V
        → List (ArtQuadrilateral F)
        → List (ArtQuadrilateral F)
        → MapPose F
        → F
        → Option (Observer F M V)
    unfolding update_beside
    update_left = update_beside (pos 1) true

    unfoldable pub update_right :
        Observer F M V
        → List (ArtQuadrilateral F)
        → List (ArtQuadrilateral F)
        → MapPose F
        → F
        → Option (Observer F M V)
    unfolding update_beside
    update_right = update_beside (negsuc 0) false
