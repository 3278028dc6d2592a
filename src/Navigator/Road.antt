-- ===== src/Navigator/Road.antt =====
-- The road state machine of the navigator: class Road of art_nav/src/navigator/road.cc, with the
-- events of NavRoadEvent.h.
pub mod Steady
pub mod Waiting
pub mod Entry
pub mod Waits
pub mod Events
pub mod Faults
use utexas_art_ros_pkg.Base.{ℕ, Bool, true, ℤ, pos}
use utexas_art_ros_pkg.RoadMap.Element.{ElementId}
use utexas_art_ros_pkg.Messages.{Order, RoadState}
use utexas_art_ros_pkg.Navigator.State.{NavTimer, PilotCommand, Nav, Motion, cancel}
use utexas_art_ros_pkg.Navigator.Course.{Direction}

pub data RoadEvent : Type 0 where
  block change_lane collision follow_lane merge none pass perimeter stop_line uturn wait_pass :
      RoadEvent

pub data RoadAction : Type 0 where
  action_error : RoadAction
  in_block in_evade in_follow in_init in_pass in_uturn : RoadAction
  in_wait_cross in_wait_lane in_wait_pass in_wait_stop in_zone : RoadAction
  evade_to_follow pass_to_block pass_to_evade pass_to_follow : RoadAction
  to_block to_evade to_follow to_pass to_uturn : RoadAction
  to_wait_cross to_wait_lane to_wait_pass to_wait_stop to_zone : RoadAction
  wait_pass_to_follow zone_to_wait_cross : RoadAction

-- The table that the constructor fills: what is not added is an error in the same state.
unfoldable pub road_transition : RoadEvent → RoadState → RoadAction × RoadState
road_transition RoadEvent.collision RoadState.block = (to_evade, RoadState.evade)
road_transition RoadEvent.follow_lane RoadState.block = (to_follow, RoadState.follow)
road_transition RoadEvent.none RoadState.block = (in_block, RoadState.block)
road_transition RoadEvent.uturn RoadState.block = (to_uturn, RoadState.uturn)
road_transition RoadEvent.follow_lane RoadState.evade = (evade_to_follow, RoadState.follow)
road_transition RoadEvent.none RoadState.evade = (in_evade, RoadState.evade)
road_transition RoadEvent.pass RoadState.evade = (to_pass, RoadState.pass)
road_transition RoadEvent.wait_pass RoadState.evade = (in_evade, RoadState.evade)
road_transition RoadEvent.block RoadState.follow = (to_block, RoadState.block)
road_transition RoadEvent.change_lane RoadState.follow = (to_wait_lane, RoadState.wait_lane)
road_transition RoadEvent.collision RoadState.follow = (to_evade, RoadState.evade)
road_transition RoadEvent.follow_lane RoadState.follow = (in_follow, RoadState.follow)
road_transition RoadEvent.merge RoadState.follow = (to_wait_cross, RoadState.wait_cross)
road_transition RoadEvent.none RoadState.follow = (in_follow, RoadState.follow)
road_transition RoadEvent.perimeter RoadState.follow = (to_zone, RoadState.zone)
road_transition RoadEvent.stop_line RoadState.follow = (to_wait_stop, RoadState.wait_stop)
road_transition RoadEvent.uturn RoadState.follow = (to_uturn, RoadState.uturn)
road_transition RoadEvent.wait_pass RoadState.follow = (to_wait_pass, RoadState.wait_pass)
road_transition RoadEvent.follow_lane RoadState.init = (to_follow, RoadState.follow)
road_transition RoadEvent.merge RoadState.init = (to_wait_cross, RoadState.wait_cross)
road_transition RoadEvent.none RoadState.init = (in_init, RoadState.init)
road_transition RoadEvent.perimeter RoadState.init = (to_zone, RoadState.zone)
road_transition RoadEvent.block RoadState.pass = (pass_to_block, RoadState.block)
road_transition RoadEvent.collision RoadState.pass = (pass_to_evade, RoadState.evade)
road_transition RoadEvent.follow_lane RoadState.pass = (pass_to_follow, RoadState.follow)
road_transition RoadEvent.none RoadState.pass = (in_pass, RoadState.pass)
road_transition RoadEvent.pass RoadState.pass = (in_pass, RoadState.pass)
road_transition RoadEvent.follow_lane RoadState.uturn = (to_follow, RoadState.follow)
road_transition RoadEvent.none RoadState.uturn = (in_uturn, RoadState.uturn)
road_transition RoadEvent.follow_lane RoadState.wait_cross = (to_follow, RoadState.follow)
road_transition RoadEvent.none RoadState.wait_cross = (in_wait_cross, RoadState.wait_cross)
road_transition RoadEvent.merge RoadState.wait_cross = (in_wait_cross, RoadState.wait_cross)
road_transition RoadEvent.follow_lane RoadState.wait_lane = (to_follow, RoadState.follow)
road_transition RoadEvent.none RoadState.wait_lane = (in_wait_lane, RoadState.wait_lane)
road_transition RoadEvent.change_lane RoadState.wait_lane = (in_wait_lane, RoadState.wait_lane)
road_transition RoadEvent.block RoadState.wait_pass = (to_block, RoadState.block)
road_transition RoadEvent.collision RoadState.wait_pass = (to_evade, RoadState.evade)
road_transition RoadEvent.follow_lane RoadState.wait_pass = (wait_pass_to_follow, RoadState.follow)
road_transition RoadEvent.none RoadState.wait_pass = (in_wait_pass, RoadState.wait_pass)
road_transition RoadEvent.pass RoadState.wait_pass = (to_pass, RoadState.pass)
road_transition RoadEvent.wait_pass RoadState.wait_pass = (in_wait_pass, RoadState.wait_pass)
road_transition RoadEvent.merge RoadState.wait_stop = (to_wait_cross, RoadState.wait_cross)
road_transition RoadEvent.none RoadState.wait_stop = (in_wait_stop, RoadState.wait_stop)
road_transition RoadEvent.stop_line RoadState.wait_stop = (in_wait_stop, RoadState.wait_stop)
road_transition RoadEvent.none RoadState.zone = (in_zone, RoadState.zone)
road_transition RoadEvent.perimeter RoadState.zone = (zone_to_wait_cross, RoadState.wait_cross)
road_transition _ s = (action_error, s)

-- The machine's own variables.
pub record Road (F : Type 0) : Type 0 where
  pub passing_first : Bool
  pub prev : RoadState
  pub state : RoadState
  pub event : RoadEvent
  pub pending_event : RoadEvent
  pub crossing_observer : ℕ
  pub lane_direction : Direction
  pub prev_nobjects : ℤ
  pub passing_timer : NavTimer F
  pub precedence_timer : NavTimer F
  pub roadblock_timer : NavTimer F
  pub stop_line_timer : NavTimer F

-- The subordinate controllers and the geometry of the course, over the polygons that `W` holds.
pub record Roadwork (F W : Type 0) : Type 0 where
  pub follow_lane : Nav F W → PilotCommand F → Motion F W
  pub follow_lane_reset : Nav F W → Nav F W
  pub passing : Nav F W → PilotCommand F → Motion F W
  pub passing_reset : Nav F W → Nav F W
  pub uturn_control : Nav F W → PilotCommand F → Motion F W
  pub uturn_reset : Nav F W → Nav F W
  pub intersection_direction : Order F → W → Direction
  pub lane_change_direction : Order F → W → Direction
  -- find_passing_lane: whether there is one, and to the left
  pub find_passing_lane : Order F → W → W × Bool
  pub to_the_left : W → Bool
  pub switch_to_passing_lane : W → W × Bool
  pub course_reset : W → W
  pub restore_plan : W → W
  -- the reverse lane from which replan_roadblock replans
  pub reverse_lane : W → ElementId

module _ {F : Type 0} where
  abbrev pub cancel_all_timers : Road F → Road F
  cancel_all_timers r = record r {
    passing_timer = cancel r.passing_timer;
    precedence_timer = cancel r.precedence_timer;
    roadblock_timer = cancel r.roadblock_timer;
    stop_line_timer = cancel r.stop_line_timer;
  }

  -- Road::reset_me
  unfoldable pub reset_road : Road F → Road F
  reset_road r =
      cancel_all_timers (record r {
        state = RoadState.init;
        event = RoadEvent.none;
        pending_event = RoadEvent.none;
      })

  abbrev pub pend : RoadEvent → Road F → Road F
  pend event r = record r { pending_event = event }

-- What a cycle of the machine leaves and returns.
pub record RoadCycle (F W : Type 0) : Type 0 where
  pub road : Road F
  pub motion : Motion F W
