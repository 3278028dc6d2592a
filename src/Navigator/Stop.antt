-- ===== src/Navigator/Stop.antt =====
-- The controllers Stop and Passing of art_nav/src/navigator (stop.cc, passing.cc).
use utexas_art_ros_pkg.Base.{Bool, true, false, ◌&&◌, ◌||◌, not, if◌then◌else◌, pos}
use utexas_art_ros_pkg.Numeric.{Floats}
use utexas_art_ros_pkg.Navigator.State.{fine, finished, Result, PilotCommand, Nav, Motion, halt}
use utexas_art_ros_pkg.Navigator.Course.Plan.{Lanes, in_lane, distance_in_plan}
use utexas_art_ros_pkg.Navigator.Course.Plan.Reached.{lane_waypoint_reached}

-- the state of class Stop
pub record Stop (F : Type 0) : Type 0 where
  pub stopping : Bool
  pub creeping : Bool
  pub initial_speed : F

-- the parameters that class Stop reads; `epsilon_speed` is Epsilon::speed
pub record StopConfig (F : Type 0) : Type 0 where
  pub stop_latency : F
  pub min_stop_distance : F
  pub stop_deceleration : F
  pub max_creep_distance : F
  pub stop_creep_speed : F
  pub epsilon_speed : F

-- The start of Stop::control: the distance left, the speed and the deceleration that they take.
pub record Approach (F : Type 0) : Type 0 where
  pub left : F
  pub abs_speed : F
  pub deceleration : F

-- the parameters that class Passing reads
pub record PassingConfig (F : Type 0) : Type 0 where
  pub passing_distance : F
  pub passing_clearance_ahead : F
  pub passing_clearance_behind : F

-- What Passing calls elsewhere: the observers' and lasers' answers, Navigator::reduce_speed_with_min with
-- the passing speed, SlowForCurves::control, and Course::desired_heading.
pub record PassingWork (F W : Type 0) : Type 0 where
  pub passing_lane_clear : Nav F W → Bool
  pub closest_in_lane : Nav F W → F × F
  pub reduce_speed : Nav F W → PilotCommand F → PilotCommand F
  pub slow_for_curves : Nav F W → PilotCommand F → Motion F W
  pub desired_heading : Nav F W → PilotCommand F → Nav F W × PilotCommand F

module _ {F : Type 0} ⦃fl : Floats F⦄ where
  unfoldable pub reset_stop : Stop F
  reset_stop = record { stopping = false; creeping = false; initial_speed = fl.of_int (pos 0) }

  unfoldable pub approach : StopConfig F → F → F → Approach F
  approach c speed distance =
      let speed1 = fl.fabs speed in
      let left = fl.fsub distance (fl.to_float (fl.dmul speed1 c.stop_latency)) in
      let abs_speed = if fl.lt speed1 c.epsilon_speed then fl.of_int (pos 0) else speed1 in
      let v = fl.fneg abs_speed in
      record {
        left = left;
        abs_speed = abs_speed;
        deceleration = fl.to_float (fl.ddiv (fl.fmul v v) (fl.dmul (fl.of_int (pos 2)) left));
      }

  -- whether it is time to begin stopping
  unfoldable pub begin_stopping : StopConfig F → F → Approach F → Stop F → Stop F
  begin_stopping c topspeed a s =
      if (fl.le a.left c.min_stop_distance || fl.le c.stop_deceleration a.deceleration)
        && not s.stopping
      then record s { stopping = true; initial_speed = fl.fmax topspeed a.abs_speed }
      else s

  -- the speed while slowing down, which keeps its direction
  unfoldable pub slow_down : Approach F → F → F → F
  slow_down a initial_speed velocity =
      let v = fl.fmin (fl.fmin velocity (fl.fsub a.abs_speed a.deceleration)) initial_speed in
      if fl.lt v (fl.of_int (pos 0)) then fl.of_int (pos 0) else v

  -- Stop::control with its four arguments
  unfoldable pub stop_control :
      StopConfig F → Stop F → F → PilotCommand F → F → F → F → Stop F × PilotCommand F × Result
  unfolding approach begin_stopping slow_down
  stop_control c s0 speed pcmd distance threshold topspeed =
      let a = approach c speed distance in
      let s = begin_stopping c topspeed a s0 in
      if not s.stopping
      then (s, pcmd, fine)
      else if fl.le a.left threshold
      then (
        s,
        record pcmd { velocity = fl.of_int (pos 0) },
        if fl.lt a.abs_speed c.epsilon_speed then finished else fine,
      )
      else if not s.creeping && fl.le c.epsilon_speed a.abs_speed
      then (s, record pcmd { velocity = slow_down a s.initial_speed pcmd.velocity }, fine)
      else if fl.le a.left c.max_creep_distance
      then (
        record s { creeping = true },
        record pcmd { velocity = fl.fmin pcmd.velocity (fl.to_float c.stop_creep_speed) },
        fine,
      )
      else (s, pcmd, fine)

  -- Passing::done_passing
  unfoldable pub done_passing : PassingWork F (Lanes F) → PassingConfig F → Nav F (Lanes F) → Bool
  unfolding distance_in_plan
  done_passing w c n =
      let s = n.rest in
      let gaps = w.closest_in_lane n in
      if fl.lt c.passing_distance (distance_in_plan s.start_pass_location s.estimate.map s)
      then fl.le c.passing_clearance_ahead gaps.0 && fl.le c.passing_clearance_behind gaps.1
      else false

  -- Passing::control, with `in_passing_lane`
  unfoldable pub passing_control :
      PassingWork F (Lanes F)
      → PassingConfig F
      → Bool
      → Nav F (Lanes F)
      → PilotCommand F
      → Bool × Motion F (Lanes F)
  unfolding in_lane done_passing lane_waypoint_reached
  passing_control w c in_passing_lane n pcmd =
      let inside =
        if not in_passing_lane && in_lane n.rest.estimate n.rest then true else in_passing_lane in
      let slowed = w.slow_for_curves n (w.reduce_speed n pcmd) in
      let result = if done_passing w c slowed.nav then finished else slowed.result in
      let (headed, command) = w.desired_heading slowed.nav slowed.pcmd in
      if not inside && not (w.passing_lane_clear n) then (inside, halt n) else (
        inside,
        record { nav = (lane_waypoint_reached headed).0; pcmd = command; result = result },
      )

module _ {F W : Type 0} where
  -- Passing::reset_me; `in_passing_lane` is false then.
  unfoldable pub reset_passing : Nav F W → Bool × Nav F W
  reset_passing n = (false, record n { navdata = record (n.navdata) { reverse = false } })
