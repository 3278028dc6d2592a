-- ===== src/Tests/Cruise.antt =====
-- A navigator on whole numbers, with controllers that keep the command, art_nav/src/navigator.
use utexas_art_ros_pkg.Base.{ℕ, Bool, true, false, List, [], ◌∷◌, ℤ, pos}
use utexas_art_ros_pkg.Numeric.{whole}
use utexas_art_ros_pkg.RoadMap.Element.{MapId, null_id, element_id}
use utexas_art_ros_pkg.RoadMap.WayPoint.{WayPoint}
use utexas_art_ros_pkg.Messages.{Behavior, EstopState, RoadState, Order, no_way_point, empty_order}
use utexas_art_ros_pkg.Navigator.State.{
  fine, PilotCommand, NavTimer, Observation, Obstacle, Course, Config, Nav, Motion,
}
use utexas_art_ros_pkg.Navigator.Course.{straight}
use utexas_art_ros_pkg.Navigator.Estop.{NavEstopEvent, Estop, RunControl}
use utexas_art_ros_pkg.Navigator.Road.{RoadEvent, Road, Roadwork}
use utexas_art_ros_pkg.Navigator.Run.{continue, Run, Terrain}
use utexas_art_ros_pkg.Tests.Vehicle.{at_start, navigator}

-- a way-point of lane 1 of segment 1
abbrev pub stop_at : Bool → ℕ → WayPoint ℤ
stop_at stop pt = record no_way_point { id = record { seg = 1; lane = 1; pt = pt }; is_stop = stop }

abbrev pub route : List (WayPoint ℤ)
route = stop_at false 1 ∷ stop_at true 2 ∷ stop_at false 3 ∷ stop_at false 4 ∷ stop_at false 5 ∷ []

abbrev pub go_order : Order ℤ
go_order = record empty_order {
  behavior = Behavior.go;
  waypt = route;
  max_speed = pos 9;
  next_uturn = pos 2;
}

abbrev pub stopped_timer : NavTimer ℤ
stopped_timer = record { time_remaining = pos 0; timer_running = false }

abbrev pub sighting : ℤ → Observation ℤ
sighting oid = record {
  oid = oid;
  applicable = true;
  clear = false;
  time = pos 1;
  distance = pos 4;
  velocity = pos 0;
  nobjects = pos 1;
}

abbrev pub sightings : Obstacle ℤ
sightings = record {
  obs = sighting (pos 0) ∷ sighting (pos 1) ∷ sighting (pos 2) ∷ [];
  stamp = 5;
  max_range = pos 80;
  blockage_timer = stopped_timer;
}

abbrev pub settings : Config ℤ
settings = record {
  max_speed = pos 7;
  passing_delay = pos 5;
  precedence_delay = pos 10;
  roadblock_delay = pos 5;
  stop_line_delay = pos 1;
  blockage_timeout_secs = pos 9;
  offensive_driving = false;
  min_approach_speed = pos 3;
  min_following_time = pos 2;
  desired_following_time = pos 4;
  close_stopping_distance = pos 5;
}

abbrev pub course : Course
course = record {
  waypoint_checked = false;
  passing_left = false;
  saved_waypt_id = [];
  saved_replan_num = 0;
}

abbrev pub sailing : {W : Type 0} → Order ℤ → MapId → W → Nav ℤ W
sailing order last w = record {
  order = order;
  navdata = navigator last;
  course = course;
  obstacle = sightings;
  config = settings;
  speed = pos 0;
  rest = w;
}

abbrev pub next_stop : MapId
next_stop = record { seg = 1; lane = 1; pt = 2 }

abbrev pub rolling : PilotCommand ℤ
rolling = record { velocity = pos 9; yaw_rate = pos 1 }

abbrev pub keep : Nav ℤ Bool → PilotCommand ℤ → Motion ℤ Bool
keep n pcmd = record { nav = n; pcmd = pcmd; result = fine }

abbrev pub crew : Roadwork ℤ Bool
crew = record {
  follow_lane = keep;
  follow_lane_reset = λ n. n;
  passing = keep;
  passing_reset = λ n. n;
  uturn_control = keep;
  uturn_reset = λ n. n;
  intersection_direction = λ o w. straight;
  lane_change_direction = λ o w. straight;
  find_passing_lane = λ o w. (w, true);
  to_the_left = λ w. true;
  switch_to_passing_lane = λ w. (w, true);
  course_reset = λ w. w;
  restore_plan = λ w. w;
  reverse_lane = λ w. null_id;
}

abbrev pub town_terrain : Terrain Bool
town_terrain = record {
  no_polygons = λ w. w;
  control_pose = λ w. w;
  locate = λ w. w;
  starting_waypt = λ w. element_id at_start;
}

abbrev pub road_in : RoadState → RoadEvent → Road ℤ
road_in state pending = record {
  passing_first = true;
  prev = state;
  state = state;
  event = RoadEvent.none;
  pending_event = pending;
  crossing_observer = 7;
  lane_direction = straight;
  prev_nobjects = pos 0;
  passing_timer = stopped_timer;
  precedence_timer = stopped_timer;
  roadblock_timer = stopped_timer;
  stop_line_timer = stopped_timer;
}

abbrev pub running : EstopState → NavEstopEvent → Estop
running state pending = record { pending_event = pending; estop_prev = state; estop_state = state }

abbrev pub run_with : Road ℤ → Run ℤ
run_with road = record { go_state = continue; last_replan = 0; road = road }

-- a controller Run that keeps the command
abbrev pub keep_running : RunControl ℤ Bool
keep_running = record { run_control = keep; run_reset = λ n. n }
