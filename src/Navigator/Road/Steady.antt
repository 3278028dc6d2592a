-- ===== src/Navigator/Road/Steady.antt =====
-- The steady actions of class Road while the vehicle drives, art_nav/src/navigator/road.cc.
use utexas_art_ros_pkg.Base.{Bool, true, false, ◌&&◌, ◌||◌, not, if◌then◌else◌}
use utexas_art_ros_pkg.Numeric.{Floats}
use utexas_art_ros_pkg.RoadMap.Element.{null_id, to_map_id}
use utexas_art_ros_pkg.Navigator.State.{
  Result, fine, unsafe, blocked, collision, finished, PilotCommand, Nav, Motion, halt, cancel,
  restart, check_timer,
}
use utexas_art_ros_pkg.Navigator.Course.{
  waypt, waypt_id, at_next_waypt, uturn_waypt, course_same_lane, new_waypts,
}
use utexas_art_ros_pkg.Navigator.Obstacle.{mark_blocked}
use utexas_art_ros_pkg.Navigator.Road.{RoadEvent, Road, Roadwork, RoadCycle, pend}

abbrev pub is_blocked : Result → Bool
is_blocked blocked = true
is_blocked _ = false

abbrev pub is_collision : Result → Bool
is_collision collision = true
is_collision _ = false

abbrev pub is_finished : Result → Bool
is_finished finished = true
is_finished _ = false

abbrev pub is_fine : Result → Bool
is_fine fine = true
is_fine _ = false

module _ {F W : Type 0} ⦃fl : Floats F⦄ where
  -- set_waypt_event, for what is pending before it; without the build option NQE nqe_special is false
  unfoldable pub waypt_event : Nav F W → RoadEvent → RoadEvent
  waypt_event n pending =
      if not (at_next_waypt n)
      then pending
      else if (waypt 1 n.order).is_perimeter
      then RoadEvent.perimeter
      else if (waypt 1 n.order).is_stop
      then RoadEvent.stop_line
      else if uturn_waypt 1 n.order
      then RoadEvent.uturn
      else if (waypt 1 n.order).is_lane_change
      then RoadEvent.change_lane
      else if (waypt 1 n.order).is_exit
          && not (course_same_lane (waypt_id 1 n.order) (waypt_id 2 n.order))
      then RoadEvent.merge
      else pending

  abbrev pub stay : Road F → Nav F W → RoadCycle F W
  stay r n = record { road = r; motion = halt n }

  abbrev pub with_result : Result → Motion F W → Motion F W
  with_result result m = record m { result = result }

  abbrev pub unblock : Nav F W → Nav F W
  unblock n = record n {
    navdata = record (n.navdata) { road_blocked = false; replan_waypt = to_map_id null_id };
  }

  unfoldable pub act_in_evade : Road F → Nav F W → PilotCommand F → RoadCycle F W
  act_in_evade r n pcmd =
      let m = halt n in
      if is_finished m.result
      then record { road = pend RoadEvent.follow_lane r; motion = with_result fine m }
      else record { road = r; motion = m }

  unfoldable pub act_in_init : Road F → Nav F W → PilotCommand F → RoadCycle F W
  act_in_init r n pcmd =
      if (waypt 0 n.order).is_perimeter || (waypt 0 n.order).is_spot
      then stay (pend RoadEvent.perimeter r) n
      else stay (pend RoadEvent.follow_lane r) n

module _ {F W : Type 0} ⦃fl : Floats F⦄ (k : Roadwork F W) where
  -- with no new way-points
  abbrev pub still_blocked : Road F → Motion F W → RoadCycle F W
  still_blocked r m =
      if is_collision m.result
      then record { road = pend RoadEvent.collision r; motion = m }
      else if not (is_blocked m.result)
      then record {
        road = pend (waypt_event m.nav RoadEvent.follow_lane) r;
        motion = record m { nav = unblock m.nav };
      }
      else record { road = r; motion = m }

  unfoldable pub act_in_block : Road F → Nav F W → PilotCommand F → RoadCycle F W
  unfolding waypt_event new_waypts uturn_waypt
  act_in_block r n pcmd =
      if new_waypts n
      then record {
        road = pend (if uturn_waypt 0 n.order then RoadEvent.uturn else RoadEvent.follow_lane) r;
        motion = with_result blocked (halt (unblock n));
      }
      else still_blocked r (k.follow_lane n pcmd)

  abbrev pub followed : Road F → Motion F W → RoadCycle F W
  followed r m =
      if is_blocked m.result
      then record { road = pend RoadEvent.wait_pass r; motion = with_result fine m }
      else if is_collision m.result
      then record { road = pend RoadEvent.collision r; motion = m }
      else record { road = pend (waypt_event m.nav r.pending_event) r; motion = with_result fine m }

  unfoldable pub act_in_follow : Road F → Nav F W → PilotCommand F → RoadCycle F W
  unfolding waypt_event
  act_in_follow r n pcmd =
      followed
        (if n.navdata.stopped then r else record r { passing_timer = cancel r.passing_timer })
        (k.follow_lane n pcmd)

  -- the way is blocked while the vehicle passes
  abbrev pub pass_blocked : Road F → Motion F W → RoadCycle F W
  pass_blocked r m =
      let (timer, expired) = check_timer r.roadblock_timer in
      let r' = record r { roadblock_timer = timer } in
      if expired
      then record {
        road = pend RoadEvent.block (record r' { roadblock_timer = cancel timer });
        motion = m;
      }
      else if r'.passing_first
      then record {
        road = record r' {
          passing_first = false;
          roadblock_timer = restart m.nav.config.roadblock_delay timer;
        };
        motion = record m { nav = mark_blocked m.nav; result = unsafe };
      }
      else record { road = r'; motion = m }

  abbrev pub passed : Road F → Motion F W → RoadCycle F W
  passed r m =
      let r' = record r { roadblock_timer = cancel r.roadblock_timer } in
      if is_finished m.result
      then record { road = pend RoadEvent.follow_lane r'; motion = with_result fine m }
      else if is_blocked m.result
      then pass_blocked r m
      else if is_collision m.result
      then record { road = pend RoadEvent.collision r'; motion = m }
      else record { road = r; motion = m }

  unfoldable pub act_in_pass : Road F → Nav F W → PilotCommand F → RoadCycle F W
  unfolding check_timer restart
  act_in_pass r n pcmd = passed r (k.passing n pcmd)

  unfoldable pub act_in_uturn : Road F → Nav F W → PilotCommand F → RoadCycle F W
  act_in_uturn r n pcmd =
      let m = k.uturn_control n pcmd in
      if is_finished m.result
      then record { road = pend RoadEvent.follow_lane r; motion = with_result fine m }
      else record { road = r; motion = m }
