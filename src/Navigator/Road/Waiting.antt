-- ===== src/Navigator/Road/Waiting.antt =====
-- The steady actions of class Road while the vehicle waits, art_nav/src/navigator/road.cc.
use utexas_art_ros_pkg.Base.{Bool, true, false, ◌&&◌, not, if◌then◌else◌, eqb_ℤ}
use utexas_art_ros_pkg.Numeric.{Floats}
use utexas_art_ros_pkg.Navigator.State.{
  fine, not_applicable, PilotCommand, Nav, Motion, halt, cancel, start, check_timer,
}
use utexas_art_ros_pkg.Navigator.Course.{Direction, straight, left, right, waypt, at_next_waypt}
use utexas_art_ros_pkg.Navigator.Obstacle.{
  adjacent_left, adjacent_right, intersection, observation, observer_clear, passing_lane_clear,
  follow_safely,
}
use utexas_art_ros_pkg.Navigator.Road.{RoadEvent, Road, RoadCycle, pend}
use utexas_art_ros_pkg.Navigator.Road.Steady.{is_fine, is_collision, stay, with_result}

module _ {F : Type 0} ⦃fl : Floats F⦄ where
  -- Our turn to cross: both timers are cancelled.
  abbrev pub cross : Road F → Road F
  cross r = pend RoadEvent.merge (record r {
    stop_line_timer = cancel r.stop_line_timer;
    precedence_timer = cancel r.precedence_timer;
  })

  -- after the precedence timeout the vehicle goes ahead
  unfoldable pub time_out : Road F → Road F
  unfolding check_timer
  time_out r =
      let (timer, expired) = check_timer r.precedence_timer in
      let r' = record r { precedence_timer = timer } in if expired then cross r' else r'

module _ {F W : Type 0} ⦃fl : Floats F⦄ where
  -- Stays put, and goes on once an observer says so.
  abbrev pub stay_until : Nav F W × Bool → Road F → RoadCycle F W
  stay_until (n, clear) r = if clear then stay (pend RoadEvent.follow_lane r) n else stay r n

  unfoldable pub act_in_wait_cross : Road F → Nav F W → PilotCommand F → RoadCycle F W
  unfolding observer_clear
  act_in_wait_cross r n pcmd = stay_until (observer_clear r.crossing_observer n) r

  -- without a direction no polygons are known
  abbrev pub wait_lane : Direction → Road F → Nav F W → RoadCycle F W
  wait_lane straight r n = stay (pend RoadEvent.follow_lane r) n
  wait_lane left r n = stay_until (observer_clear adjacent_left n) r
  wait_lane right r n = stay_until (observer_clear adjacent_right n) r

  unfoldable pub act_in_wait_lane : Road F → Nav F W → PilotCommand F → RoadCycle F W
  unfolding observer_clear
  act_in_wait_lane r n pcmd = wait_lane r.lane_direction r n

  -- whether the passing timer has expired and the lane is clear, which is asked only then
  abbrev pub may_pass : Bool → Nav F W → Nav F W × Bool
  may_pass true n = passing_lane_clear n
  may_pass false n = (n, false)

  -- The vehicle stays put whatever FollowSafely orders; its result is kept.
  abbrev pub stay_behind : Road F → Motion F W → RoadCycle F W
  stay_behind r m =
      let r' =
        if is_fine m.result
        then pend RoadEvent.follow_lane r
        else if is_collision m.result
        then pend RoadEvent.collision r
        else r in
      record { road = r'; motion = with_result m.result (halt m.nav) }

  unfoldable pub act_in_wait_pass : Road F → Nav F W → PilotCommand F → RoadCycle F W
  unfolding check_timer passing_lane_clear follow_safely
  act_in_wait_pass r n pcmd =
      let (timer, expired) = check_timer r.passing_timer in
      let (n', clear) = may_pass expired n in
      let r' = record r { passing_timer = timer } in
      stay_behind (if clear then pend RoadEvent.pass r' else r') (follow_safely n' pcmd)

  abbrev pub may_cross : Bool → Nav F W → Nav F W × Bool
  may_cross true n = observer_clear intersection n
  may_cross false n = (n, false)

  -- The precedence timer starts anew when the number of cars changes.
  abbrev pub recount : Nav F W → Road F → Road F
  recount n r =
      let o = observation intersection n.obstacle in
      if o.applicable && not (eqb_ℤ o.nobjects r.prev_nobjects)
      then record r {
        prev_nobjects = o.nobjects;
        precedence_timer = start n.config.precedence_delay r.precedence_timer;
      }
      else r

  unfoldable pub act_in_wait_stop : Road F → Nav F W → PilotCommand F → RoadCycle F W
  unfolding check_timer observer_clear time_out
  act_in_wait_stop r n pcmd =
      let (timer, expired) = check_timer r.stop_line_timer in
      let (n', clear) = may_cross expired n in
      let r' = record r { stop_line_timer = timer } in
      stay (time_out (recount n' (if clear then cross r' else r'))) n'

  -- The controller for zones is scaffolding: it is not applicable, and the command is not changed.
  unfoldable pub act_in_zone : Road F → Nav F W → PilotCommand F → RoadCycle F W
  act_in_zone r n pcmd =
      let arrived = at_next_waypt n && (waypt 1 n.order).is_perimeter in
      record {
        road = pend RoadEvent.perimeter r;
        motion = record { nav = n; pcmd = pcmd; result = if arrived then not_applicable else fine };
      }
