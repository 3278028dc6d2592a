-- ===== src/Tests/Vehicle.antt =====
-- A commander on the sample map, before and during its mission.
use utexas_art_ros_pkg.Base.{false, List, [], ◌∷◌, ℤ, pos}
use utexas_art_ros_pkg.Numeric.{whole}
use utexas_art_ros_pkg.RoadMap.Element.{MapId, null_id}
use utexas_art_ros_pkg.Messages.{EstopState, RoadState, NavigatorState, empty_order}
use utexas_art_ros_pkg.Commander.Mission.{Mission}
use utexas_art_ros_pkg.Commander.Blockages.{Block}
use utexas_art_ros_pkg.Commander.Route.{Route}
use utexas_art_ros_pkg.Commander.State.{Commander}
use utexas_art_ros_pkg.Commander.Fsm.{init, Machine}
use utexas_art_ros_pkg.Tests.Sample.{town, node, edge}

abbrev pub at_start : MapId
at_start = record { seg = 1; lane = 1; pt = 1 }

abbrev pub nowhere : MapId
nowhere = record { seg = 65535; lane = 65535; pt = 65535 }

-- the navigator runs, at a way-point
abbrev pub navigator : MapId → NavigatorState
navigator last = record {
  estop = EstopState.run;
  road = RoadState.follow;
  last_waypt = last;
  replan_waypt = nowhere;
  alarm = false;
  flasher = false;
  lane_blocked = false;
  road_blocked = false;
  reverse = false;
  signal_left = false;
  signal_right = false;
  stopped = false;
}

-- the checkpoints 2 and 3
abbrev pub errand : Mission
errand = record {
  checkpoint_ids = pos 2 ∷ pos 3 ∷ [];
  checkpoint_elementid = (node 2 1 3).id ∷ (node 3 2 1).id ∷ [];
}

abbrev pub barrier : Block ℤ
barrier = record { count = 1; block_time = pos 7; added_blocks = []; added_edges = [] }

abbrev pub driver : List (Block ℤ) → Route ℤ → Commander ℤ
driver blockages route = record {
  graph = town;
  mission = errand;
  blockages = blockages;
  navstate = navigator at_start;
  order = empty_order;
  goal = node 2 1 3;
  goal2 = node 3 2 1;
  zones = [];
  route = route;
  speedlimit = pos 5;
  replan_num = 0;
}

abbrev pub to_the_goals : Route ℤ
to_the_goals = edge 0 1 10 ∷ edge 1 2 10 ∷ edge 2 3 10 ∷ []

-- before the first plan
abbrev pub parked : Machine ℤ
parked = record {
  cmdr = driver (barrier ∷ []) [];
  fsm = record {
    current_way = null_id;
    fsm_navstate = navigator nowhere;
    prev = init;
    state = init;
    old_replan = null_id;
  };
}
