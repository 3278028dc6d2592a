-- ===== src/Navigator/Run.antt =====
-- The controller Run of art_nav/src/navigator/run.cc, which begins and ends a cycle of the course and gives
-- the order Go to the road machine, and Navigator::navigate of navigator.cc.
pub mod Orders
use utexas_art_ros_pkg.Base.{ℕ, Bool, true, false, ◌||◌, if◌then◌else◌, ◌==◌, pos}
use utexas_art_ros_pkg.Numeric.{Floats}
use utexas_art_ros_pkg.RoadMap.Element.{ElementId, null_id, to_map_id, id_eq, id_ne}
use utexas_art_ros_pkg.Messages.{Behavior}
use utexas_art_ros_pkg.Navigator.State.{
  Result, fine, not_applicable, not_implemented, PilotCommand, Nav, Motion, halt, halted,
  no_waypoint_reached,
}
use utexas_art_ros_pkg.Navigator.Course.{waypt_id, advance_order, new_waypoint_reached}
use utexas_art_ros_pkg.Navigator.Estop.{RunControl, Estop, Cycle, estop_control}
use utexas_art_ros_pkg.Navigator.Road.{Road, Roadwork, RoadCycle}
use utexas_art_ros_pkg.Navigator.Road.Entry.{road_control, road_reset}

pub data GoState : Type 0 where
  continue escape replan : GoState

pub record Run (F : Type 0) : Type 0 where
  pub go_state : GoState
  pub last_replan : ℕ
  pub road : Road F

-- What Run asks of the geometry: whether there are lane polygons, the estimate of the pose, the
-- polygon of the pose, and the way-point of the starting polygon, null if there is none.
pub record Terrain (W : Type 0) : Type 0 where
  pub no_polygons : W → Bool
  pub control_pose : W → W
  pub locate : W → W
  pub starting_waypt : W → ElementId

pub record RunCycle (F W : Type 0) : Type 0 where
  pub run : Run F
  pub motion : Motion F W

abbrev pub is_run_order : Behavior → Bool
is_run_order Behavior.run = true
is_run_order _ = false

module _ {F W : Type 0} ⦃fl : Floats F⦄ where
  -- reverse motion at the end of the cycle
  abbrev pub reversed : Motion F W → Motion F W
  reversed m =
      if m.nav.navdata.reverse
      then record m { pcmd = record (m.pcmd) { velocity = fl.fneg m.pcmd.velocity } }
      else m

module _ {F W : Type 0} ⦃fl : Floats F⦄ (t : Terrain W) where
  -- the loop of begin_run_cycle makes four rounds at most
  unfoldable pub begin_run_cycle : Nav F W → Nav F W
  unfolding advance_order
  begin_run_cycle n = record n {
    course = record (n.course) { waypoint_checked = false };
    order = advance_order 4 n.navdata.last_waypt n.order;
    rest = t.locate n.rest;
  }

  unfoldable pub initialize : Nav F W → Motion F W
  unfolding new_waypoint_reached id_ne
  initialize n =
      let start_way = t.starting_waypt n.rest in
      if id_ne start_way null_id
      then halt (new_waypoint_reached start_way n)
      else record (halt n) { result = not_applicable }

  -- the first command: the speed limit, straight ahead
  abbrev pub full_speed : Nav F W → PilotCommand F
  full_speed n = record {
    velocity = fl.fmin n.order.max_speed (fl.to_float n.config.max_speed);
    yaw_rate = fl.of_int (pos 0);
  }

module _ {F W : Type 0} ⦃fl : Floats F⦄ (t : Terrain W) (k : Roadwork F W) where
  abbrev pub drive : Run F → Nav F W → PilotCommand F → RunCycle F W
  drive r n pcmd =
      let c = road_control k r.road n pcmd in
      record { run = record r { road = c.road }; motion = c.motion }

  -- Escape is not ported, and Replan, which no code enters, waits for a new plan.
  abbrev pub go_on : GoState → Run F → Nav F W → PilotCommand F → RunCycle F W
  go_on continue r n pcmd = drive r n pcmd
  go_on escape r n pcmd = record {
    run = r;
    motion = record { nav = n; pcmd = pcmd; result = not_implemented };
  }
  go_on replan r n pcmd =
      let start_id = t.starting_waypt n.rest in
      let waiting = record n {
        navdata = record (n.navdata) { replan_waypt = to_map_id start_id };
      } in
      let planned = record n {
        navdata = record (n.navdata) { replan_waypt = to_map_id null_id };
      } in
      let (road, n') = road_reset k r.road planned in
      if n.order.replan_num == r.last_replan
      then record { run = r; motion = halt waiting }
      else drive (record r { road = road; go_state = continue }) n' pcmd

  -- Run::go
  unfoldable pub go : Run F → Nav F W → PilotCommand F → RunCycle F W
  unfolding road_control road_reset id_eq
  go r n pcmd =
      if id_eq (waypt_id 0 n.order) (waypt_id 1 n.order)
      then record { run = r; motion = halt n }
      else go_on r.go_state r n pcmd

  unfoldable pub behave : Behavior → Run F → Nav F W → PilotCommand F → RunCycle F W
  unfolding go initialize
  behave Behavior.go r n pcmd = go r n pcmd
  behave Behavior.initialize r n pcmd = record { run = r; motion = initialize t n }
  behave _ r n pcmd = record { run = r; motion = record (halt n) { result = not_implemented } }

  unfoldable pub run_control : Run F → Nav F W → RunCycle F W
  unfolding begin_run_cycle behave
  run_control r n =
      let n' = begin_run_cycle t (record n { rest = t.control_pose n.rest }) in
      let c = behave n'.order.behavior r n' (full_speed t n) in
      if is_run_order n.order.behavior || t.no_polygons n.rest
      then record { run = r; motion = halt n }
      else record c { motion = reversed c.motion }

  -- Run::reset
  unfoldable pub run_reset : Run F → Nav F W → Run F × Nav F W
  unfolding road_reset
  run_reset r n =
      let (road, n') = road_reset k r.road n in (record r { go_state = continue; road = road }, n')

-- What the navigator keeps under the E-stop controller: Run and the geometry.
pub record Driving (F W : Type 0) : Type 0 where
  pub run : Run F
  pub world : W

module _ {F : Type 0} where
  abbrev pub with_rest : {V W : Type 0} → V → Nav F W → Nav F V
  with_rest v n = record {
    order = n.order;
    navdata = n.navdata;
    course = n.course;
    obstacle = n.obstacle;
    config = n.config;
    speed = n.speed;
    rest = v;
  }

module _ {F W : Type 0} where
  -- the state that Run sees, and the one that it leaves
  abbrev pub seen : Nav F (Driving F W) → Nav F W
  seen n = with_rest n.rest.world n

  abbrev pub kept : Run F → Nav F W → Nav F (Driving F W)
  kept r n = with_rest (record { run = r; world = n.rest }) n

module _ {F W : Type 0} ⦃fl : Floats F⦄ where
  -- the speed of the odometry, and whether it is below Epsilon::speed
  abbrev pub observed : F → F → Nav F W → Nav F W
  observed speed epsilon n = record n {
    speed = speed;
    navdata = record (n.navdata) { stopped = fl.lt (fl.fabs speed) epsilon };
  }

module _ {F W : Type 0} ⦃fl : Floats F⦄ (t : Terrain W) (k : Roadwork F W) where
  -- Run and all below it, as the E-stop controller uses it
  abbrev pub driver : RunControl F (Driving F W)
  driver = record {
    run_control = λ n pcmd.
        (let c = run_control t k n.rest.run (seen n) in
          record { nav = kept c.run c.motion.nav; pcmd = c.motion.pcmd; result = c.motion.result });
    run_reset = λ n. (let (r, n') = run_reset t k n.rest.run (seen n) in kept r n');
  }

  -- Navigator::navigate for the odometry of the cycle; the copy of the order in the message is left out.
  unfoldable pub navigate :
      F → F → Estop → Nav F (Driving F W) → PilotCommand F → Cycle F (Driving F W)
  unfolding estop_control run_control
  navigate speed epsilon e n pcmd = estop_control driver e (observed speed epsilon n) pcmd
