-- ===== src/Navigator/Course/Plan/Reached.antt =====
-- Distances to way-points, the tests whether one is reached, and directions: the functions of class
-- Course of art_nav/src/navigator/course.cc that read the polygons.
use utexas_art_ros_pkg.Base.{
  ℕ, zero, suc, Bool, true, false, ◌&&◌, not, none, some, if◌then◌else◌, pos, negsuc, eqb_ℤ,
}
use utexas_art_ros_pkg.Numeric.{Floats}
use utexas_art_ros_pkg.RoadMap.Element.{same_lane}
use utexas_art_ros_pkg.RoadMap.WayPoint.{WayPoint, distance_to}
use utexas_art_ros_pkg.Messages.{Order}
use utexas_art_ros_pkg.Lanes.Geometry.{
  MapPose, Polar, normalize, pose_bearing, map_xy_to_polar, polar_to_map_xy,
}
use utexas_art_ros_pkg.Lanes.Poly.{Poly, poly_heading, left_of_poly}
use utexas_art_ros_pkg.Lanes.Closest.{get_closest_poly, get_containing_poly}
use utexas_art_ros_pkg.Lanes.Select.{get_waypoint_index}
use utexas_art_ros_pkg.Lanes.Adjacent.{at_index}
use utexas_art_ros_pkg.Navigator.State.{Nav}
use utexas_art_ros_pkg.Navigator.Course.{
  Direction, right, straight, left, waypt, waypt_id, special_waypt, uturn_waypt, uturn_order_index,
  new_waypoint_reached,
}
use utexas_art_ros_pkg.Navigator.Course.Plan.{Lanes, distance_in_plan}

module _ {F : Type 0} ⦃fl : Floats F⦄ where
  -- Infinite::distance
  abbrev pub infinite_distance : F
  infinite_distance = fl.of_int (pos 1000000)

  -- the state once the next way-point is checked, and the result
  abbrev pub checked : Bool → Nav F (Lanes F) → Nav F (Lanes F) × Bool
  checked found n = (
    record n {
      course = record (n.course) { waypoint_checked = true };
      navdata = record (n.navdata) {
        last_waypt = if found then (waypt 1 n.order).id else n.navdata.last_waypt;
      };
    },
    found,
  )

  -- whether the car is in front of the next way-point, whose polygon is known
  unfoldable pub in_front : Poly F → Nav F (Lanes F) → Bool
  unfolding poly_heading pose_bearing
  in_front p n =
      let w1_pose : MapPose F = record { map = (waypt 1 n.order).mapxy; yaw = poly_heading p } in
      fl.lt (fl.fabs (pose_bearing w1_pose n.rest.odom.map)) (fl.from_degrees (fl.of_int (pos 90)))

  unfoldable pub zone_perimeter_reached : Nav F (Lanes F) → Nav F (Lanes F) × Bool
  unfolding get_closest_poly in_front
  zone_perimeter_reached n =
      let polygons = n.rest.polygons in
      elim (at_index polygons (get_closest_poly polygons (waypt 1 n.order).mapxy)) [
        | none ↦ checked false n
        | some p ↦ checked (in_front p n) n
      ]

  unfoldable pub lane_waypoint_reached : Nav F (Lanes F) → Nav F (Lanes F) × Bool
  unfolding zone_perimeter_reached uturn_waypt get_waypoint_index in_front
  lane_waypoint_reached n =
      let polygons = n.rest.polygons in
      let perimeter = zone_perimeter_reached n in
      let reached =
        elim (at_index polygons (get_waypoint_index polygons (waypt_id 1 n.order))) as (λ _. Bool) [
          | none ↦ false
          | some p ↦ in_front p n
        ] in
      if (waypt 1 n.order).is_perimeter
      then perimeter
      else if special_waypt 1 n.order
      then checked false n
      else checked reached n

  -- the distance of the front bumper from the next way-point
  unfoldable pub bumper_distance : Nav F (Lanes F) → F
  unfolding polar_to_map_xy distance_to
  bumper_distance n =
      let bumper_polar : Polar F = record {
        heading = fl.of_int (pos 0);
        range = n.rest.tuning.front_bumper_px;
      } in
      distance_to (polar_to_map_xy bumper_polar n.rest.estimate) (waypt 1 n.order).mapxy

  unfoldable pub zone_waypoint_reached : Nav F (Lanes F) → Nav F (Lanes F) × Bool
  unfolding bumper_distance
  zone_waypoint_reached n = checked (fl.le (bumper_distance n) n.rest.tuning.zone_waypoint_radius) n

  unfoldable pub spot_waypoint_reached : Nav F (Lanes F) → Nav F (Lanes F) × Bool
  unfolding bumper_distance
  spot_waypoint_reached n = checked (fl.le (bumper_distance n) n.rest.tuning.spot_waypoint_radius) n

  unfoldable pub head_for_waypt : F → Nav F (Lanes F) → Nav F (Lanes F) × Polar F
  unfolding map_xy_to_polar uturn_waypt pose_bearing new_waypoint_reached
  head_for_waypt target_dist n =
      let pose = n.rest.estimate in
      let pt = (waypt 1 n.order).mapxy in
      let aim = map_xy_to_polar pt pose in
      let reached = new_waypoint_reached (waypt_id 1 n.order) n in
      let behind = fl.lt fl.half_pi (fl.fabs (pose_bearing pose pt)) in
      if not (fl.lt aim.range target_dist)
      then (n, aim)
      else if special_waypt 1 n.order
      then (n, record aim { heading = fl.of_int (pos 0) })
      else if (waypt 1 n.order).is_perimeter
      then (if behind then reached else n, aim)
      else (reached, map_xy_to_polar (waypt 2 n.order).mapxy pose)

  unfoldable pub lane_change_direction : Order F → Lanes F → Direction
  unfolding get_waypoint_index left_of_poly
  lane_change_direction o s =
      elim (at_index s.polygons (get_waypoint_index s.polygons (waypt_id 0 o))) [
        | none ↦ straight
        | some w0 ↦ elim (at_index s.polygons (get_waypoint_index s.polygons (waypt_id 1 o))) [
          | none ↦ straight
          | some w1 ↦ if left_of_poly w1 w0 then left else right
        ]
      ]

  -- the direction of a change of heading
  abbrev pub turn_direction : F → Direction
  turn_direction change =
      if fl.lt (fl.fabs change) (fl.from_degrees (fl.of_int (pos 30)))
      then straight
      else if fl.lt (fl.of_int (pos 0)) change
      then left
      else right

  unfoldable pub intersection_direction : Order F → Lanes F → Direction
  unfolding get_containing_poly poly_heading normalize
  intersection_direction o s =
      elim (at_index s.polygons (get_containing_poly s.polygons (waypt 0 o).mapxy)) [
        | none ↦ straight
        | some w0 ↦ elim (at_index s.polygons (get_containing_poly s.polygons (waypt 1 o).mapxy)) [
          | none ↦ straight
          | some w1 ↦ turn_direction (normalize (fl.fsub (poly_heading w1) (poly_heading w0)))
        ]
      ]

  -- a way-point to stop at, in the polygon that contains it, and its distance
  abbrev pub stop_at : WayPoint F → Poly F → Lanes F → Lanes F × F
  stop_at w p s =
      (record s { stop_poly = p; stop_waypt = w }, distance_in_plan s.estimate w.mapxy s)

  -- the rounds left of the loop of stop_waypt_distance, and its index
  unfoldable pub stop_from : ℕ → ℕ → Bool → Order F → Lanes F → Lanes F × F
  unfolding same_lane get_containing_poly distance_in_plan
  stop_from zero i in_this_lane o s = (s, infinite_distance)
  stop_from (suc rounds) i in_this_lane o s =
      let rest = stop_from rounds (suc i) in_this_lane o s in
      let found =
        elim (at_index s.polygons (get_containing_poly s.polygons (waypt i o).mapxy))
          as (λ _. Lanes F × F) [ none ↦ rest | some p ↦ stop_at (waypt i o) p s ] in
      if in_this_lane && not (same_lane (waypt_id i o) (waypt_id 0 o))
      then (s, infinite_distance)
      else if (waypt i o).is_stop
      then found
      else rest

  unfoldable pub stop_waypt_distance : Bool → Order F → Lanes F → Lanes F × F
  unfolding stop_from
  stop_waypt_distance in_this_lane o s = stop_from 4 1 in_this_lane o s

  unfoldable pub uturn_distance : Order F → Lanes F → Lanes F × F
  unfolding uturn_order_index get_containing_poly distance_in_plan
  uturn_distance o s = elim (uturn_order_index o) [
    | negsuc i ↦ (s, infinite_distance)
    | pos i ↦ elim (at_index s.polygons (get_containing_poly s.polygons (waypt i o).mapxy)) [
      | none ↦ (s, infinite_distance)
      | some p ↦ stop_at (waypt i o) p s
    ]
  ]

  unfoldable pub max_speed_for_slow_down : F → F → F → F → F
  max_speed_for_slow_down final_speed distance max max_deceleration =
      let vf2 = fl.fmul final_speed final_speed in
      let tax = fl.fmul (fl.fmul (fl.of_int (pos 2)) (fl.fneg max_deceleration)) distance in
      if fl.lt vf2 tax then fl.of_int (pos 0) else fl.fmin max (fl.fsqrt (fl.fsub vf2 tax))

  -- the rounds left of the loop of spot_ahead, and its index
  unfoldable pub spot_from : ℕ → ℕ → Order F → Bool
  spot_from zero i o = false
  spot_from (suc rounds) i o =
      let rest = spot_from rounds (suc i) o in
      let here = waypt i o in
      let next = waypt (suc i) o in
      if here.is_spot
        && next.is_spot
        && eqb_ℤ (waypt_id i o).pt (pos 1)
        && eqb_ℤ (waypt_id (suc i) o).pt (pos 2)
      then true
      else rest

  unfoldable pub spot_ahead : Order F → Bool
  unfolding spot_from
  spot_ahead o = spot_from 4 0 o

  unfoldable pub curr_spot : Order F → Bool
  curr_spot o = (waypt 0 o).is_spot
