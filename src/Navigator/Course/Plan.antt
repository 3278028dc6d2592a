-- ===== src/Navigator/Course/Plan.antt =====
-- The polygons that class Course of art_nav/src/navigator/course.cc and course.h steers by: its plan
-- of the way to the next way-points. `none` is an `at` out of range.
pub mod Legs
pub mod Travel
pub mod Reached
pub mod Passing
pub mod Beside
pub mod Choice
use utexas_art_ros_pkg.Base.{
  ℕ, zero, suc, Bool, true, false, ◌&&◌, not, List, [], ◌∷◌, Option, none, some, and_then, null,
  if◌then◌else◌, get_elem?, ℤ, pos, negsuc,
}
use utexas_art_ros_pkg.Numeric.{Floats}
use utexas_art_ros_pkg.RoadMap.Element.{ElementId, id_ne}
use utexas_art_ros_pkg.RoadMap.WayPoint.{MapXy, WayPoint, distance_to}
use utexas_art_ros_pkg.Messages.{Order}
use utexas_art_ros_pkg.Lanes.Geometry.{MapPose, origin}
use utexas_art_ros_pkg.Lanes.Poly.{Poly}
use utexas_art_ros_pkg.Lanes.Message.{ArtQuadrilateral, get_polys}
use utexas_art_ros_pkg.Lanes.Closest.{get_closest_poly, get_containing_poly, get_poly_index}
use utexas_art_ros_pkg.Lanes.Select.{add_polys_for_waypts}
use utexas_art_ros_pkg.Lanes.Along.{index_of_downstream_poly, distance_along_lane}
use utexas_art_ros_pkg.Lanes.Adjacent.{at_index, get_reverse_lane}
use utexas_art_ros_pkg.Navigator.State.{Nav}
use utexas_art_ros_pkg.Navigator.Course.{waypt, waypt_id, order_ids, any_ne, save_order}

-- The configuration that these operations read, and the dimensions of the vehicle.
pub record Tuning (F : Type 0) : Type 0 where
  pub min_lane_steer_dist : F
  pub heading_change_ratio : F
  pub max_speed_for_sharp : F
  pub zone_waypoint_radius : F
  pub spot_waypoint_radius : F
  pub front_bumper_px : F

-- The geometric data of class Course, with the poses that it reads through pointers. An `int`
-- index of -1 is `none`; `adj_lane`, `adj_polys` have one element for the lower lane and one for the
-- higher.
pub record Lanes (F : Type 0) : Type 0 where
  pub polygons : List (Poly F)
  pub plan : List (Poly F)
  pub passed_lane : List (Poly F)
  pub start_pass_location : MapPose F
  pub stop_waypt : WayPoint F
  pub stop_poly : Poly F
  pub aim_poly : Poly F
  pub plan_waypt : List ElementId
  pub new_plan_lanes : Bool
  pub poly_index : Option ℕ
  pub adj_lane : ElementId × ElementId
  pub adj_polys : List (Poly F) × List (Poly F)
  pub passing_lane : Option ℕ
  pub odom : MapPose F
  pub estimate : MapPose F
  pub tuning : Tuning F

module _ {F : Type 0} where
  -- aim_poly.poly_id = -1
  abbrev pub no_aim : Lanes F → Lanes F
  no_aim s = record s { aim_poly = record (s.aim_poly) { poly_id = negsuc 0 } }

module _ {F : Type 0} ⦃fl : Floats F⦄ where
  unfoldable pub plan_valid : Order F → Lanes F → Bool
  unfolding any_ne
  plan_valid o s =
      if any_ne s.plan_waypt (order_ids o) then false else not (null s.plan) && not s.new_plan_lanes

  unfoldable pub set_plan_waypts : Order F → Lanes F → Lanes F
  set_plan_waypts o s = record s { plan_waypt = order_ids o }

  unfoldable pub lanes_message : List (ArtQuadrilateral F) → Lanes F → Lanes F
  unfolding get_polys
  lanes_message lanes s = record s { polygons = get_polys lanes; new_plan_lanes = true }

  -- Course::reset
  unfoldable pub reset_course : Lanes F → Lanes F
  reset_course s = no_aim (record s {
    start_pass_location = record { map = origin; yaw = fl.of_int (pos 0) };
    plan = [];
  })

  unfoldable pub in_poly_list : List (Poly F) → MapPose F → Bool
  unfolding get_containing_poly
  in_poly_list polys pose = elim (get_containing_poly polys pose.map) [
    | none ↦ false
    | some i ↦ true
  ]

  unfoldable pub in_lane : MapPose F → Lanes F → Bool
  unfolding in_poly_list
  in_lane pose s = in_poly_list s.plan pose

  -- The polygon that the vehicle is in, as begin_run_cycle finds it.
  unfoldable pub find_poly_index : Lanes F → Lanes F
  unfolding get_containing_poly get_poly_index
  find_poly_index s = record s {
    poly_index = elim (at_index s.plan (get_containing_poly s.plan s.estimate.map)) [
      | none ↦ get_containing_poly s.polygons s.estimate.map
      | some p ↦ get_poly_index s.polygons p
    ];
  }

  -- the three functions distance_in_plan
  unfoldable pub distance_in_plan : MapPose F → MapXy F → Lanes F → F
  unfolding distance_to distance_along_lane
  distance_in_plan from to s =
      if null s.plan then distance_to from.map to else distance_along_lane s.plan from.map to

  -- The polygon of a lane near the vehicle: the nearest of those between the first two
  -- way-points, if there are any, else of the whole lane.
  unfoldable pub nearby_poly : Order F → Lanes F → List (Poly F) → Option ℕ
  unfolding add_polys_for_waypts get_closest_poly get_poly_index
  nearby_poly o s lane =
      let edge = add_polys_for_waypts lane [] (waypt_id 0 o) (waypt_id 1 o) in
      elim (at_index edge (get_closest_poly edge s.estimate.map)) [
        | none ↦ get_closest_poly lane s.estimate.map
        | some p ↦ get_poly_index lane p
      ]

  unfoldable pub find_aim_polygon : Order F → Lanes F → List (Poly F) → Option ℕ
  unfolding nearby_poly index_of_downstream_poly
  find_aim_polygon o s lane =
      and_then (nearby_poly o s lane)
        λ i. index_of_downstream_poly lane (pos i) s.tuning.min_lane_steer_dist

  -- The loop of find_travel_lane over the way-points, for the rounds left.
  unfoldable pub add_legs : ℕ → ℕ → Order F → List (Poly F) → List (Poly F) → List (Poly F)
  unfolding add_polys_for_waypts
  add_legs zero i o polygons plan = plan
  add_legs (suc rounds) i o polygons plan =
      let plan1 =
        if id_ne (waypt_id i o) (waypt_id (suc i) o)
        then add_polys_for_waypts polygons plan (waypt_id i o) (waypt_id (suc i) o)
        else plan in
      let rest = add_legs rounds (suc i) o polygons plan1 in
      if (waypt (suc i) o).is_perimeter then plan1 else rest

  -- the new plan of find_travel_lane
  unfoldable pub new_plan : Order F → List (Poly F) → List (Poly F)
  unfolding add_polys_for_waypts add_legs
  new_plan o polygons =
      add_legs 4 0 o polygons (add_polys_for_waypts polygons [] (waypt_id 0 o) (waypt_id 0 o))

  -- the end of find_travel_lane, once there is a plan
  unfoldable pub take_aim : Bool → Order F → Lanes F → Lanes F
  unfolding find_aim_polygon
  take_aim rejoin o s =
      let current = no_aim (record s { new_plan_lanes = false }) in
      if rejoin
      then elim (at_index current.plan (find_aim_polygon o current current.plan)) [
        | none ↦ current
        | some p ↦ record current { aim_poly = p }
      ]
      else current

  unfoldable pub find_travel_lane : Bool → Order F → Lanes F → Lanes F
  unfolding plan_valid set_plan_waypts new_plan take_aim
  find_travel_lane rejoin o s =
      let cleared = set_plan_waypts o (no_aim (record s { plan = [] })) in
      if plan_valid o s
      then take_aim rejoin o s
      else if null s.polygons
      then cleared
      else take_aim rejoin o (record cleared { plan = new_plan o s.polygons })

  -- replan_roadblock, with the fuel of getReverseLane
  unfoldable pub replan_roadblock :
      ℕ → Nav F (Lanes F) → Option (Nav F (Lanes F) × Option ElementId)
  unfolding save_order get_closest_poly get_reverse_lane
  replan_roadblock fuel n =
      let s = n.rest in
      and_then (at_index s.plan (get_closest_poly s.plan s.estimate.map)) λ p. some (
        save_order n,
        get_reverse_lane fuel s.polygons (record { map = p.midpoint; yaw = fl.of_int (pos 0) }),
      )
