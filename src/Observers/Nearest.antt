-- ===== src/Observers/Nearest.antt =====
-- The observers of the lane of the vehicle: art_observers/src/observers/nearest_forward.cc and
-- nearest_backward.cc.
use utexas_art_ros_pkg.Base.{
  false, List, [], ◌∷◌, ◌++◌, Option, some, and_then, if◌then◌else◌, get_elem?, ℤ, pos, eqb_ℤ,
}
use utexas_art_ros_pkg.Numeric.{Floats}
use utexas_art_ros_pkg.Lanes.Geometry.{MapPose}
use utexas_art_ros_pkg.Lanes.Message.{ArtQuadrilateral, get_polys}
use utexas_art_ros_pkg.Lanes.Closest.{get_closest_poly}
use utexas_art_ros_pkg.Observers.Quads.{
  filter_lanes, compare_forward_seg_lane, compare_backward_seg_lane,
}
use utexas_art_ros_pkg.Observers.Filters.{FilterBase}
use utexas_art_ros_pkg.Observers.Observer.{Observer, report}

module _ {F : Type 0} where
  -- std::reverse
  unfoldable pub reverse_quads : List (ArtQuadrilateral F) → List (ArtQuadrilateral F)
  reverse_quads [] = []
  reverse_quads (q ∷ qs) = reverse_quads qs ++ (q ∷ [])

module _ {F : Type 0} ⦃fl : Floats F⦄ where
  -- The loop that adds the lengths up to the target, and breaks there.
  unfoldable pub distance_along : ℤ → F → List (ArtQuadrilateral F) → F
  distance_along target_id distance [] = distance
  distance_along target_id distance (q ∷ qs) =
      let sum = fl.fadd distance q.length in
      let rest = distance_along target_id sum qs in if eqb_ℤ q.poly_id target_id then sum else rest

  -- The distance along the lane to the first of the lane's obstacles, infinite with none.
  unfoldable pub lane_distance : List (ArtQuadrilateral F) → List (ArtQuadrilateral F) → F
  unfolding distance_along
  lane_distance lane_quads [] = fl.infinity
  lane_distance lane_quads (o ∷ os) = distance_along o.poly_id (fl.of_int (pos 0)) lane_quads

  -- The quadrilateral closest to a pose, local_map.polygons[poly_index]; `none` is the index -1 of an
  -- empty map, where the code reads out of bounds.
  unfoldable pub robot_quad : List (ArtQuadrilateral F) → MapPose F → Option (ArtQuadrilateral F)
  unfolding get_polys get_closest_poly
  robot_quad local_map pose =
      and_then (get_closest_poly (get_polys local_map) pose.map) λ i. get_elem? local_map i

  -- The distances ahead and behind that the observers measure from a quadrilateral.
  unfoldable pub forward_distance :
      ArtQuadrilateral F → List (ArtQuadrilateral F) → List (ArtQuadrilateral F) → F
  unfolding filter_lanes compare_forward_seg_lane lane_distance
  forward_distance robot local_map obstacles =
      lane_distance (filter_lanes robot local_map compare_forward_seg_lane)
        (filter_lanes robot obstacles compare_forward_seg_lane)

  unfoldable pub backward_distance :
      ArtQuadrilateral F → List (ArtQuadrilateral F) → List (ArtQuadrilateral F) → F
  unfolding filter_lanes compare_backward_seg_lane lane_distance reverse_quads
  backward_distance robot local_map obstacles =
      lane_distance (reverse_quads (filter_lanes robot local_map compare_backward_seg_lane))
        (reverse_quads (filter_lanes robot obstacles compare_backward_seg_lane))

  module _ {M V : Type 0} (median : FilterBase F M) (mean : FilterBase F V) where
    -- NearestForward::update and NearestBackward::update
    unfoldable pub update_forward :
        Observer F M V
        → List (ArtQuadrilateral F)
        → List (ArtQuadrilateral F)
        → MapPose F
        → F
        → Option (Observer F M V)
    unfolding robot_quad forward_distance report
    update_forward o local_map obstacles pose now =
        and_then (robot_quad local_map pose) λ robot.
          some (report median mean false o (forward_distance robot local_map obstacles) now)

    unfoldable pub update_backward :
        Observer F M V
        → List (ArtQuadrilateral F)
        → List (ArtQuadrilateral F)
        → MapPose F
        → F
        → Option (Observer F M V)
    unfolding robot_quad backward_distance report
    update_backward o local_map obstacles pose now =
        and_then (robot_quad local_map pose) λ robot.
          some (report median mean false o (backward_distance robot local_map obstacles) now)
