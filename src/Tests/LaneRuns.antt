-- ===== src/Tests/LaneRuns.antt =====
-- Runs of the lane polygons (Lanes, Navigator/Course/Plan) at concrete inputs: two lanes of squares,
-- side by side, that lead east.
use utexas_art_ros_pkg.Base.{
  ℕ, ◌+◌, ◌+ℤ◌, ◌-ℤ◌, ◌<◌, ◌≤◌, ltb_ℤ, ◌≡◌, refl, true, false, false≢true, not, ◌++◌, filter,
  length, null, List, [], ◌∷◌, none, some, ℤ, pos, negsuc, All, arith,
}
use utexas_art_ros_pkg.Numeric.{whole, equal, lte, gte}
use mathlib.Core.List.{Memᴰ}
use utexas_art_ros_pkg.RoadMap.Element.{ElementId, null_id, id_ne, element_id}
use utexas_art_ros_pkg.RoadMap.WayPoint.{MapXy, WayPointNode, undefined}
use utexas_art_ros_pkg.Lanes.Geometry.{
  distance_from_line, shortest_dist_to_line_segment, normalize, turn_down, turn_up, pose_bearing,
  bearing,
}
use utexas_art_ros_pkg.Lanes.Poly.{
  Poly, lane_poly, left_of_poly, same_direction, point_in_hull, point_on_segment, point_on_edges,
  crosses, point_in_poly, get_shortest_dist_to_poly,
}
use utexas_art_ros_pkg.Lanes.Closest.{closest_from, get_closest_poly, get_containing_poly}
use utexas_art_ros_pkg.Lanes.Select.{
  add_lane_polys, push_matching, add_lane_polys_either, get_poly_lane_ids,
}
use utexas_art_ros_pkg.Lanes.Select.Reverse.{backwards, add_lane_polys_either-filter}
use utexas_art_ros_pkg.Lanes.Select.Ids.{Ascending, lane_id, get_poly_lane_ids-Ascending}
use utexas_art_ros_pkg.Lanes.Along.{index_of_downstream_poly}
use utexas_art_ros_pkg.Lanes.Along.Downstream.{Reached, index_of_downstream_poly-Reached}
use utexas_art_ros_pkg.Messages.{no_way_point}
use utexas_art_ros_pkg.Navigator.State.{Nav}
use utexas_art_ros_pkg.Navigator.Course.{waypt_id}
use utexas_art_ros_pkg.Navigator.Course.Plan.{Lanes, plan_valid, find_travel_lane}
use utexas_art_ros_pkg.Navigator.Course.Plan.Legs.{OnWay}
use utexas_art_ros_pkg.Navigator.Course.Plan.Travel.{find_travel_lane-Travels}
use utexas_art_ros_pkg.Navigator.Course.Plan.Passing.{
  look_beside, find_passing_lane, pass_in, choose_lane,
}
use utexas_art_ros_pkg.Navigator.Course.Plan.Choice.{Selected, find_passing_lane-Passed}
use utexas_art_ros_pkg.Tests.Cruise.{go_order, next_stop, sailing}
use utexas_art_ros_pkg.Lanes.Closest.Nearest.{Contained, get_containing_poly-Contained}

abbrev pub at : ℕ → ℕ → MapXy ℤ
at x y = record { x = pos x; y = pos y }

abbrev pub way : ℕ → ℕ → ElementId
way lane pt = record { seg = pos 1; lane = pos lane; pt = pos pt }

-- a square of side 2, from its bottom right vertex, with a way-point or between two
abbrev pub square : ℕ → ℕ → ℕ → ElementId → ElementId → Poly ℤ
square n x y start stop = record {
  p1 = at x (2 + y);
  p2 = at (2 + x) (2 + y);
  p3 = at (2 + x) y;
  p4 = at x y;
  heading = pos 0;
  midpoint = at (1 + x) (1 + y);
  length = pos 2;
  poly_id = pos n;
  is_stop = false;
  is_transition = false;
  contains_way = false;
  start_way = start;
  end_way = stop;
  left_boundary = undefined;
  right_boundary = undefined;
}

abbrev pub lanes : List (Poly ℤ)
lanes =
    square 1 0 0 (way 1 1) (way 1 1)
    ∷ square 2 2 0 (way 1 1) (way 1 2)
    ∷ square 3 4 0 (way 1 2) (way 1 2)
    ∷ square 4 0 2 (way 2 1) (way 2 1)
    ∷ square 5 2 2 (way 2 1) (way 2 2)
    ∷ square 6 4 2 (way 2 2) (way 2 2)
    ∷ []

containing_run : get_containing_poly lanes (at 3 3) ≡ some 4
unfolding get_containing_poly get_closest_poly closest_from get_shortest_dist_to_poly point_in_poly
    point_in_hull crosses point_on_edges point_on_segment shortest_dist_to_line_segment
    distance_from_line equal lte gte ◌-ℤ◌ ◌+ℤ◌
containing_run = refl

outside_run : get_containing_poly lanes (at 3 9) ≡ none
unfolding get_containing_poly get_closest_poly closest_from get_shortest_dist_to_poly point_in_poly
    point_in_hull crosses point_on_edges point_on_segment shortest_dist_to_line_segment
    distance_from_line equal lte gte ◌-ℤ◌ ◌+ℤ◌
outside_run = refl

ltb_ℤ_trans : (a b c : ℤ) → ltb_ℤ a b ≡ true → ltb_ℤ b c ≡ true → ltb_ℤ a c ≡ true
ltb_ℤ_trans a b c h k = ground arith

ltb_ℤ_of_not : (a b c : ℤ) → Unit {0} → ltb_ℤ a b ≡ true → ltb_ℤ c b ≡ false → ltb_ℤ a c ≡ true
ltb_ℤ_of_not a b c n h k = ground arith

get_containing_poly-Contained_example :
    Contained (at 3 3) lanes (get_containing_poly lanes (at 3 3))
unfolding get_containing_poly get_closest_poly closest_from get_shortest_dist_to_poly point_in_poly
    point_in_hull crosses point_on_edges point_on_segment shortest_dist_to_line_segment
    distance_from_line equal lte gte ◌-ℤ◌ ◌+ℤ◌
get_containing_poly-Contained_example =
    get_containing_poly-Contained (at 3 3) (λ _. Unit) ltb_ℤ_trans ltb_ℤ_of_not lanes
      (tt, (tt, (tt, (tt, (tt, (tt, tt))))))
      (
        (λ t. absurd (false≢true t)),
        (
          (λ t. absurd (false≢true t)),
          (
            (λ t. absurd (false≢true t)),
            ((λ t. absurd (false≢true t)), ((λ t. refl), ((λ t. absurd (false≢true t)), tt))),
          ),
        ),
      )

abbrev way_point : ElementId → WayPointNode ℤ
way_point id = record {
  ll = record { latitude = pos 0; longitude = pos 0 };
  map = at 0 0;
  id = id;
  index = 0;
  is_entry = false;
  is_exit = false;
  is_goal = false;
  is_lane_change = false;
  is_spot = false;
  is_stop = false;
  is_perimeter = false;
  checkpoint_id = pos 0;
  lane_width = pos 2;
}

add_lane_polys_either-filter_example :
    ((ltb_ℤ (negsuc 0) (pos 0) ≡ false)
      → add_lane_polys_either lanes [] (way_point (way 2 1)) (negsuc 0)
        ≡ [] ++ filter (λ p. lane_poly p (way 2 1)) lanes)
    × ((ltb_ℤ (negsuc 0) (pos 0) ≡ true)
        → add_lane_polys_either lanes [] (way_point (way 2 1)) (negsuc 0)
          ≡ [] ++ backwards (filter (λ p. lane_poly p (way 2 1)) lanes))
add_lane_polys_either-filter_example =
    add_lane_polys_either-filter lanes [] (way_point (way 2 1)) (negsuc 0)

index_of_downstream_poly-Reached_example :
    (index_of_downstream_poly lanes (negsuc 1) (pos 3) ≡ none)
    × (length lanes ≤ 1 → index_of_downstream_poly lanes (pos 1) (pos 3) ≡ none)
    × (1 < length lanes
        → not (ltb_ℤ (pos 0) (pos 3)) ≡ true
        → index_of_downstream_poly lanes (pos 1) (pos 3) ≡ some 1)
    × (1 < length lanes
        → not (ltb_ℤ (pos 0) (pos 3)) ≡ false
        → (n : ℕ) × (index_of_downstream_poly lanes (pos 1) (pos 3) ≡ some (1 + n))
          × Reached lanes (pos 3) 1 n)
index_of_downstream_poly-Reached_example = index_of_downstream_poly-Reached lanes (pos 3) 1

get_poly_lane_ids-Ascending_example :
    Ascending (get_poly_lane_ids lanes)
    × All (λ id. (p : Poly ℤ) × Memᴰ p lanes × (id ≡ lane_id p)) (get_poly_lane_ids lanes)
    × All (λ p. Memᴰ (lane_id p) (get_poly_lane_ids lanes)) lanes
get_poly_lane_ids-Ascending_example = get_poly_lane_ids-Ascending lanes

-- the car in the first polygon of the lower lane, with a plan
abbrev pub on_course : List (Poly ℤ) → Lanes ℤ
on_course plan = record {
  polygons = lanes;
  plan = plan;
  passed_lane = [];
  start_pass_location = record { map = at 0 0; yaw = pos 0 };
  stop_waypt = no_way_point;
  stop_poly = square 0 0 0 null_id null_id;
  aim_poly = square 0 0 0 null_id null_id;
  plan_waypt = [];
  new_plan_lanes = true;
  poly_index = none;
  adj_lane = (null_id, null_id);
  adj_polys = ([], []);
  passing_lane = none;
  odom = record { map = at 1 1; yaw = pos 0 };
  estimate = record { map = at 1 1; yaw = pos 0 };
  tuning = record {
    min_lane_steer_dist = pos 3;
    heading_change_ratio = pos 1;
    max_speed_for_sharp = pos 3;
    zone_waypoint_radius = pos 1;
    spot_waypoint_radius = pos 1;
    front_bumper_px = pos 4;
  };
}

find_travel_lane-Travels_example :
    (plan_valid go_order (on_course []) ≡ true
      → (find_travel_lane false go_order (on_course [])).plan ≡ [])
    × (plan_valid go_order (on_course []) ≡ false
        → All (OnWay go_order lanes) (find_travel_lane false go_order (on_course [])).plan)
    × ((q : Poly ℤ)
        → plan_valid go_order (on_course []) ≡ false
        → Memᴰ q lanes
        → id_ne (waypt_id 0 go_order) (waypt_id 1 go_order) ≡ true
        → q.start_way ≡ waypt_id 0 go_order
        → q.end_way ≡ waypt_id 1 go_order
        → Memᴰ q (find_travel_lane false go_order (on_course [])).plan)
    × (plan_valid go_order (find_travel_lane false go_order (on_course []))
        ≡ not (null (find_travel_lane false go_order (on_course [])).plan))
    × ((find_travel_lane true go_order (find_travel_lane false go_order (on_course []))).plan
        ≡ (find_travel_lane false go_order (on_course [])).plan)
find_travel_lane-Travels_example = find_travel_lane-Travels false true go_order (on_course [])

abbrev start_poly : Poly ℤ
start_poly = square 1 0 0 (way 1 1) (way 1 1)

abbrev pub behind_car : Nav ℤ (Lanes ℤ)
behind_car = sailing go_order next_stop (on_course (start_poly ∷ []))

find_passing_lane-Passed_example : Selected behind_car start_poly (find_passing_lane behind_car)
unfolding get_closest_poly closest_from get_shortest_dist_to_poly point_in_poly point_in_hull
    crosses point_on_edges point_on_segment shortest_dist_to_line_segment distance_from_line equal
    lte gte ◌-ℤ◌ ◌+ℤ◌
find_passing_lane-Passed_example = find_passing_lane-Passed behind_car start_poly refl

-- The higher lane is to the left of a lane that leads east, and leads there too.
passing_run : (find_passing_lane behind_car).0.rest.passing_lane ≡ some 1
unfolding find_passing_lane pass_in choose_lane look_beside left_of_poly same_direction normalize
    turn_down turn_up pose_bearing bearing add_lane_polys push_matching lane_poly element_id
    get_closest_poly closest_from get_shortest_dist_to_poly point_in_poly point_in_hull crosses
    point_on_edges point_on_segment shortest_dist_to_line_segment distance_from_line equal lte gte
    ◌-ℤ◌ ◌+ℤ◌
passing_run = refl
