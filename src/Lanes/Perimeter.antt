-- ===== src/Lanes/Perimeter.antt =====
-- getRoadPerimeterPoints of art_map/src/lib/PolyOps.cc, with one way-point and with two. An index of -1
-- becomes 4294967295 where it is passed on as `unsigned`; `none` is an `at` out of range.
use utexas_art_ros_pkg.Base.{
  ℕ, ◌-◌, ◌^◌, ◌&&◌, ◌||◌, not, List, [], ◌∷◌, ◌++◌, Option, none, some, and_then, null,
  if◌then◌else◌, pos,
}
use utexas_art_ros_pkg.Numeric.{Floats}
use utexas_art_ros_pkg.RoadMap.Element.{ElementId, null_id, valid, id_lt, id_gt}
use utexas_art_ros_pkg.RoadMap.WayPoint.{MapXy}
use utexas_art_ros_pkg.Lanes.Geometry.{MapPose}
use utexas_art_ros_pkg.Lanes.Poly.{Poly}
use utexas_art_ros_pkg.Lanes.Closest.{get_closest_poly, get_poly_index}
use utexas_art_ros_pkg.Lanes.Select.{get_waypoint_index, collect_polys}
use utexas_art_ros_pkg.Lanes.Adjacent.{at_index, get_lane_dir}

-- an `int` index as an `unsigned`
abbrev pub to_unsigned : Option ℕ → ℕ
to_unsigned none = 2 ^ 32 - 1
to_unsigned (some i) = i

module _ {F : Type 0} where
  abbrev pub pose_of : Poly F → MapPose F
  pose_of p = record { map = p.midpoint; yaw = p.heading }

  abbrev pub right_points : List (Poly F) → List (MapXy F)
  right_points [] = []
  right_points (p ∷ []) = p.p4 ∷ p.p3 ∷ []
  right_points (p ∷ q ∷ ps) = p.p4 ∷ right_points (q ∷ ps)

  abbrev pub left_points : List (Poly F) → List (MapXy F)
  left_points [] = []
  left_points (p ∷ []) = p.p2 ∷ p.p1 ∷ []
  left_points (p ∷ q ∷ ps) = p.p2 ∷ left_points (q ∷ ps)

  -- The way-point at the next stop ahead in the lane, or the last of the lane.
  unfoldable pub stop_ahead : ElementId → List (Poly F) → ElementId
  unfolding id_gt
  stop_ahead way0 [] = null_id
  stop_ahead way0 (p ∷ []) = p.start_way
  stop_ahead way0 (p ∷ q ∷ ps) =
      let rest = stop_ahead way0 (q ∷ ps) in
      if p.is_stop && id_gt p.start_way way0 then p.start_way else rest

module _ {F : Type 0} ⦃fl : Floats F⦄ where
  -- the left half, from the polygons of the two way-points on
  unfoldable pub left_half :
      List (Poly F) → List (Poly F) → Poly F → Poly F → Option (List (MapXy F))
  unfolding get_lane_dir get_closest_poly get_poly_index collect_polys
  left_half polys forward way0_poly way1_poly =
      let left_lane = get_lane_dir polys (pos 0) (pos 1) (pose_of way0_poly) in
      elim (at_index left_lane (get_closest_poly left_lane way0_poly.midpoint)) [
        | none ↦ some []
        | some ll_way0 ↦ elim (at_index left_lane (get_closest_poly left_lane way1_poly.midpoint)) [
          | none ↦ some []
          | some ll_way1 ↦
              and_then
                (collect_polys left_lane (to_unsigned (get_poly_index left_lane ll_way1))
                  (to_unsigned (get_poly_index left_lane ll_way0)))
                λ backward. some (right_points forward ++ left_points backward)
        ]
      ]

  -- both halves, where the current lane is known
  unfoldable pub perimeter_of :
      List (Poly F) → List (Poly F) → Poly F → Poly F → Option (List (MapXy F))
  unfolding get_poly_index collect_polys left_half
  perimeter_of polys lane way0_poly way1_poly =
      and_then
        (collect_polys lane (to_unsigned (get_poly_index lane way0_poly))
          (to_unsigned (get_poly_index lane way1_poly)))
        λ forward. left_half polys forward way0_poly way1_poly

  unfoldable pub get_road_perimeter_points :
      List (Poly F) → ElementId → ElementId → Option (List (MapXy F))
  unfolding valid id_lt get_waypoint_index get_lane_dir perimeter_of
  get_road_perimeter_points polys way0 way1 =
      if not (valid way0) || not (valid way1) || null polys || id_lt way1 way0
      then some []
      else elim (at_index polys (get_waypoint_index polys way0)) [
        | none ↦ some []
        | some way0_poly ↦ elim (at_index polys (get_waypoint_index polys way1)) [
          | none ↦ some []
          | some way1_poly ↦
              perimeter_of polys (get_lane_dir polys (pos 0) (pos 0) (pose_of way0_poly)) way0_poly
                way1_poly
        ]
      ]

  unfoldable pub get_road_perimeter_ahead : List (Poly F) → ElementId → Option (List (MapXy F))
  unfolding valid get_waypoint_index get_lane_dir perimeter_of stop_ahead
  get_road_perimeter_ahead polys way0 =
      if not (valid way0) || null polys
      then some []
      else elim (at_index polys (get_waypoint_index polys way0)) [
        | none ↦ some []
        | some way0_poly ↦
            let lane = get_lane_dir polys (pos 0) (pos 0) (pose_of way0_poly) in
            let way1 = stop_ahead way0 lane in
            if not (valid way1)
            then some []
            else elim (at_index polys (get_waypoint_index polys way1)) [
              | none ↦ some []
              | some way1_poly ↦ perimeter_of polys lane way0_poly way1_poly
            ]
      ]
