-- ===== src/Messages.antt =====
-- The messages between the commander and the navigator: art_msgs/msg/NavigatorState.msg, Order.msg,
-- Behavior.msg, EstopState.msg and RoadState.msg, without the header, the copy of the last order and
-- the fields that neither side reads.
use utexas_art_ros_pkg.Base.{ℕ, Bool, false, List, [], ◌∷◌, ℤ, pos}
use utexas_art_ros_pkg.Numeric.{Floats}
use utexas_art_ros_pkg.RoadMap.Element.{MapId}
use utexas_art_ros_pkg.RoadMap.WayPoint.{WayPoint}

pub data Behavior : Type 0 where
  abort quit pause run suspend initialize go none : Behavior

pub data EstopState : Type 0 where
  pause run done suspend : EstopState

pub data RoadState : Type 0 where
  init block evade follow pass uturn wait_cross wait_lane wait_pass wait_stop zone : RoadState

-- `waypt` has five elements, `chkpt` two.
pub record Order (F : Type 0) : Type 0 where
  pub behavior : Behavior
  pub waypt : List (WayPoint F)
  pub chkpt : List (WayPoint F)
  pub min_speed : F
  pub max_speed : F
  pub replan_num : ℕ
  pub next_uturn : ℤ

pub record NavigatorState : Type 0 where
  pub estop : EstopState
  pub road : RoadState
  pub last_waypt : MapId
  pub replan_waypt : MapId
  pub alarm : Bool
  pub flasher : Bool
  pub lane_blocked : Bool
  pub road_blocked : Bool
  pub reverse : Bool
  pub signal_left : Bool
  pub signal_right : Bool
  pub stopped : Bool

module _ {F : Type 0} ⦃fl : Floats F⦄ where
  -- A message begins with zeros.
  abbrev pub no_way_point : WayPoint F
  no_way_point = record {
    latitude = fl.of_int (pos 0);
    longitude = fl.of_int (pos 0);
    mapxy = record { x = fl.of_int (pos 0); y = fl.of_int (pos 0) };
    id = record { seg = 0; lane = 0; pt = 0 };
    index = 0;
    is_entry = false;
    is_exit = false;
    is_goal = false;
    is_lane_change = false;
    is_spot = false;
    is_stop = false;
    is_perimeter = false;
    checkpoint_id = pos 0;
    lane_width = fl.of_int (pos 0);
  }

  -- art_msgs::Order(); the behavior 0 is Abort
  abbrev pub empty_order : Order F
  empty_order = record {
    behavior = Behavior.abort;
    waypt = no_way_point ∷ no_way_point ∷ no_way_point ∷ no_way_point ∷ no_way_point ∷ [];
    chkpt = no_way_point ∷ no_way_point ∷ [];
    min_speed = fl.of_int (pos 0);
    max_speed = fl.of_int (pos 0);
    replan_num = 0;
    next_uturn = pos 0;
  }
