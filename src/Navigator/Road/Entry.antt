-- ===== src/Navigator/Road/Entry.antt =====
-- The state entry actions, control and reset of class Road, art_nav/src/navigator/road.cc.
use utexas_art_ros_pkg.Base.{ℕ, ◌==◌, Bool, true, false, if◌then◌else◌, negsuc}
use utexas_art_ros_pkg.Numeric.{Floats}
use utexas_art_ros_pkg.RoadMap.Element.{to_map_id}
use utexas_art_ros_pkg.Messages.{RoadState}
use utexas_art_ros_pkg.Navigator.State.{
  blocked, not_applicable, PilotCommand, Nav, halt, cancel, start, restart,
}
use utexas_art_ros_pkg.Navigator.Course.{
  save_order, turn_signals_off, turn_signal_on, signal_pass, signal_pass_return,
  signal_for_direction,
}
use utexas_art_ros_pkg.Navigator.Obstacle.{merge_across_all, passing_lane_clear}
use utexas_art_ros_pkg.Navigator.Road.{
  RoadEvent, RoadAction, action_error, in_block, in_evade, in_follow, in_init, in_pass, in_uturn,
  in_wait_cross, in_wait_lane, in_wait_pass, in_wait_stop, in_zone, evade_to_follow, pass_to_block,
  pass_to_evade, pass_to_follow, to_block, to_evade, to_follow, to_pass, to_uturn, to_wait_cross,
  to_wait_lane, to_wait_pass, to_wait_stop, to_zone, wait_pass_to_follow, zone_to_wait_cross,
  road_transition, Road, Roadwork, RoadCycle, pend, reset_road,
}
use utexas_art_ros_pkg.Navigator.Road.Steady.{
  stay, with_result, act_in_block, act_in_evade, act_in_follow, act_in_init, act_in_pass,
  act_in_uturn,
}
use utexas_art_ros_pkg.Navigator.Road.Waiting.{
  act_in_wait_cross, act_in_wait_lane, act_in_wait_pass, act_in_wait_stop, act_in_zone,
}

-- the numbers of the states, RoadState.msg
abbrev pub road_code : RoadState → ℕ
road_code RoadState.init = 0
road_code RoadState.block = 1
road_code RoadState.evade = 2
road_code RoadState.follow = 3
road_code RoadState.pass = 4
road_code RoadState.uturn = 5
road_code RoadState.wait_cross = 6
road_code RoadState.wait_lane = 7
road_code RoadState.wait_pass = 8
road_code RoadState.wait_stop = 9
road_code RoadState.zone = 10

module _ {F : Type 0} where
  abbrev pub enter_road : RoadEvent → RoadState → Road F → Road F
  enter_road event next r = record r {
    event = event;
    pending_event = RoadEvent.none;
    prev = r.state;
    state = next;
  }

module _ {F W : Type 0} where
  -- the state in the navigator's message follows where it changes
  abbrev pub publish_road : RoadState → RoadState → Nav F W → Nav F W
  publish_road s next n =
      if road_code s == road_code next
      then n
      else record n { navdata = record (n.navdata) { road = next } }

  abbrev pub on_rest : (W → W) → Nav F W → Nav F W
  on_rest f n = record n { rest = f n.rest }

module _ {F W : Type 0} ⦃fl : Floats F⦄ (k : Roadwork F W) where
  -- Course::find_passing_lane, with the side where there is one
  unfoldable pub find_passing_lane : Nav F W → Nav F W × Bool
  find_passing_lane n =
      let (rest, found) = k.find_passing_lane n.order n.rest in
      let n' = record n { rest = rest } in
      (
        (if found
            then record n' { course = record (n.course) { passing_left = k.to_the_left rest } }
            else n'),
        found,
      )

  unfoldable pub act_to_block : Road F → Nav F W → PilotCommand F → RoadCycle F W
  unfolding turn_signals_off save_order act_in_block
  act_to_block r n pcmd =
      let n₁ = turn_signals_off n in
      let n₂ = save_order n₁ in
      let n₃ = record n₂ {
        navdata = record (n₂.navdata) {
          road_blocked = true;
          replan_waypt = to_map_id (k.reverse_lane n.rest);
        };
      } in
      act_in_block k r (k.follow_lane_reset n₃) pcmd

  abbrev pub pass_or_evade : Bool → Road F → Nav F W → PilotCommand F → RoadCycle F W
  pass_or_evade true r n pcmd = stay (pend RoadEvent.pass r) n
  pass_or_evade false r n pcmd = act_in_evade r n pcmd

  abbrev pub if_clear : Bool → Nav F W → Nav F W × Bool
  if_clear true n = passing_lane_clear n
  if_clear false n = (n, false)

  unfoldable pub act_to_evade : Road F → Nav F W → PilotCommand F → RoadCycle F W
  unfolding find_passing_lane passing_lane_clear act_in_evade
  act_to_evade r n pcmd =
      let (n₁, found) = find_passing_lane n in
      let (n₂, clear) = if_clear found n₁ in pass_or_evade clear r n₂ pcmd

  unfoldable pub act_to_follow : Road F → Nav F W → PilotCommand F → RoadCycle F W
  unfolding act_in_follow
  act_to_follow r n pcmd = act_in_follow k r (k.follow_lane_reset n) pcmd

  unfoldable pub act_to_pass : Road F → Nav F W → PilotCommand F → RoadCycle F W
  unfolding act_in_pass
  act_to_pass r n pcmd =
      let (rest, switched) = k.switch_to_passing_lane n.rest in
      let n' = record n { rest = rest } in
      if switched
      then act_in_pass k (record r { passing_timer = cancel r.passing_timer }) (k.passing_reset n')
          pcmd
      else stay (pend RoadEvent.block r) n'

  unfoldable pub act_to_uturn : Road F → Nav F W → PilotCommand F → RoadCycle F W
  unfolding turn_signal_on act_in_uturn
  act_to_uturn r n pcmd = act_in_uturn k r (k.uturn_reset (turn_signal_on true n)) pcmd

  unfoldable pub act_to_wait_cross : Road F → Nav F W → PilotCommand F → RoadCycle F W
  unfolding signal_for_direction act_in_wait_cross
  act_to_wait_cross r n pcmd =
      act_in_wait_cross (record r { crossing_observer = merge_across_all })
        (signal_for_direction (k.intersection_direction n.order n.rest) n) pcmd

  unfoldable pub act_to_wait_lane : Road F → Nav F W → PilotCommand F → RoadCycle F W
  unfolding signal_for_direction act_in_wait_lane
  act_to_wait_lane r n pcmd =
      let direction = k.lane_change_direction n.order n.rest in
      act_in_wait_lane (record r { lane_direction = direction }) (signal_for_direction direction n)
        pcmd

  unfoldable pub act_to_wait_pass : Road F → Nav F W → PilotCommand F → RoadCycle F W
  unfolding find_passing_lane signal_pass restart act_in_wait_pass
  act_to_wait_pass r n pcmd =
      let (n', found) = find_passing_lane n in
      let r' = record r { passing_first = true } in
      if found
      then act_in_wait_pass
          (record r' { passing_timer = restart n.config.passing_delay r.passing_timer })
          (signal_pass n') pcmd
      else record { road = pend RoadEvent.block r'; motion = with_result blocked (halt n') }

  unfoldable pub act_to_wait_stop : Road F → Nav F W → PilotCommand F → RoadCycle F W
  unfolding signal_for_direction act_in_wait_stop
  act_to_wait_stop r n pcmd =
      act_in_wait_stop
        (record r {
          stop_line_timer = start n.config.stop_line_delay r.stop_line_timer;
          precedence_timer = start n.config.precedence_delay r.precedence_timer;
          prev_nobjects = negsuc 0;
        })
        (signal_for_direction (k.intersection_direction n.order n.rest) n) pcmd

  -- Course::reset, and the plan that passing left
  abbrev pub back_to_plan : Nav F W → Nav F W
  back_to_plan n = on_rest k.restore_plan (on_rest k.course_reset n)

  unfoldable pub road_action : RoadAction → Road F → Nav F W → PilotCommand F → RoadCycle F W
  unfolding act_in_block act_in_evade act_in_follow act_in_init act_in_pass act_in_uturn
      act_in_wait_cross act_in_wait_lane act_in_wait_pass act_in_wait_stop act_in_zone act_to_block
      act_to_evade act_to_follow act_to_pass act_to_uturn act_to_wait_cross act_to_wait_lane
      act_to_wait_pass act_to_wait_stop signal_pass_return turn_signals_off
  road_action action_error r n pcmd = record {
    road = r;
    motion = with_result not_applicable (halt n);
  }
  road_action in_block r n pcmd = act_in_block k r n pcmd
  road_action in_evade r n pcmd = act_in_evade r n pcmd
  road_action in_follow r n pcmd = act_in_follow k r n pcmd
  road_action in_init r n pcmd = act_in_init r n pcmd
  road_action in_pass r n pcmd = act_in_pass k r n pcmd
  road_action in_uturn r n pcmd = act_in_uturn k r n pcmd
  road_action in_wait_cross r n pcmd = act_in_wait_cross r n pcmd
  road_action in_wait_lane r n pcmd = act_in_wait_lane r n pcmd
  road_action in_wait_pass r n pcmd = act_in_wait_pass r n pcmd
  road_action in_wait_stop r n pcmd = act_in_wait_stop r n pcmd
  road_action in_zone r n pcmd = act_in_zone r n pcmd
  road_action evade_to_follow r n pcmd = act_to_follow r (on_rest k.course_reset n) pcmd
  road_action pass_to_block r n pcmd = act_to_block r (back_to_plan n) pcmd
  road_action pass_to_evade r n pcmd = act_to_evade r (back_to_plan n) pcmd
  road_action pass_to_follow r n pcmd =
      act_to_follow r (signal_pass_return (on_rest k.course_reset n)) pcmd
  road_action to_block r n pcmd = act_to_block r n pcmd
  road_action to_evade r n pcmd = act_to_evade r n pcmd
  road_action to_follow r n pcmd = act_to_follow r n pcmd
  road_action to_pass r n pcmd = act_to_pass r n pcmd
  road_action to_uturn r n pcmd = act_to_uturn r n pcmd
  road_action to_wait_cross r n pcmd = act_to_wait_cross r n pcmd
  road_action to_wait_lane r n pcmd = act_to_wait_lane r n pcmd
  road_action to_wait_pass r n pcmd = act_to_wait_pass r n pcmd
  road_action to_wait_stop r n pcmd = act_to_wait_stop r n pcmd
  road_action to_zone r n pcmd = act_in_zone r n pcmd
  road_action wait_pass_to_follow r n pcmd =
      act_to_follow r (turn_signals_off (on_rest k.course_reset n)) pcmd
  road_action zone_to_wait_cross r n pcmd = act_to_wait_cross r n pcmd

  -- Road::control: the pending event, the transition, and the action
  unfoldable pub road_control : Road F → Nav F W → PilotCommand F → RoadCycle F W
  unfolding road_transition road_action
  road_control r n pcmd =
      let (action, next) = road_transition r.pending_event r.state in
      road_action action (enter_road r.pending_event next r) (publish_road r.state next n) pcmd

  -- Road::reset; FollowSafely and Halt have nothing to reset
  unfoldable pub road_reset : Road F → Nav F W → Road F × Nav F W
  unfolding reset_road
  road_reset r n = (reset_road r, k.uturn_reset (k.passing_reset (k.follow_lane_reset n)))
