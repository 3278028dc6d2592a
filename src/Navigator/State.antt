-- ===== src/Navigator/State.antt =====
-- What the controllers of the navigator share: the results of Controller.h, the timers of ntimer.h,
-- and the data of class Navigator (navigator_internal.h) that class Controller points to, with the
-- bookkeeping of Course (course.h) and of Obstacle (obstacle.h); all in art_nav/src/navigator.
use utexas_art_ros_pkg.Base.{ℕ, Bool, true, false, ◌&&◌, List, if◌then◌else◌, ℤ, pos}
use utexas_art_ros_pkg.Numeric.{Floats}
use utexas_art_ros_pkg.RoadMap.Element.{ElementId}
use utexas_art_ros_pkg.Messages.{NavigatorState, Order}

-- `fine` is OK.
pub data Result : Type 0 where
  fine caution beware unsafe blocked collision finished not_applicable not_implemented : Result

pub record PilotCommand (F : Type 0) : Type 0 where
  pub velocity : F
  pub yaw_rate : F

-- class NavTimer
pub record NavTimer (F : Type 0) : Type 0 where
  pub time_remaining : F
  pub timer_running : Bool

module _ {F : Type 0} where
  abbrev pub cancel : NavTimer F → NavTimer F
  cancel t = record t { timer_running = false }

  abbrev pub start : F → NavTimer F → NavTimer F
  start duration t = record { time_remaining = duration; timer_running = true }

module _ {F : Type 0} ⦃fl : Floats F⦄ where
  -- the duration of a cycle, 1.0 / art_msgs::ArtHertz::NAVIGATOR
  abbrev pub cycle : F
  cycle = fl.ddiv (fl.of_int (pos 1)) (fl.of_int (pos 20))

  -- NavTimer::Check, with whether the timer has expired
  unfoldable pub check_timer : NavTimer F → NavTimer F × Bool
  check_timer t =
      let left = fl.dsub t.time_remaining cycle in
      if t.timer_running
      then (record t { time_remaining = left }, fl.le left (fl.of_int (pos 0)))
      else (t, false)

  unfoldable pub restart : F → NavTimer F → NavTimer F
  restart duration t =
      if t.timer_running && fl.lt (fl.of_int (pos 0)) t.time_remaining then t else start duration t

-- art_msgs/msg/Observation.msg, without the observer's name
pub record Observation (F : Type 0) : Type 0 where
  pub oid : ℤ
  pub applicable : Bool
  pub clear : Bool
  pub time : F
  pub distance : F
  pub velocity : F
  pub nobjects : ℤ

-- The state of class Obstacle that is not a convenience pointer: the observations, one for each
-- observer, their time stamp in nanoseconds, the range of the sensors and the blockage timer.
pub record Obstacle (F : Type 0) : Type 0 where
  pub obs : List (Observation F)
  pub stamp : ℕ
  pub max_range : F
  pub blockage_timer : NavTimer F

-- The state of class Course that is no geometry.
pub record Course : Type 0 where
  pub waypoint_checked : Bool
  pub passing_left : Bool
  pub saved_waypt_id : List ElementId
  pub saved_replan_num : ℕ

-- The parameters of Navigator.cfg that the controllers below read.
pub record Config (F : Type 0) : Type 0 where
  pub max_speed : F
  pub passing_delay : F
  pub precedence_delay : F
  pub roadblock_delay : F
  pub stop_line_delay : F
  pub blockage_timeout_secs : F
  pub offensive_driving : Bool
  pub min_approach_speed : F
  pub min_following_time : F
  pub desired_following_time : F
  pub close_stopping_distance : F

-- `speed` is that of the odometry; `rest` is what the geometric code keeps.
pub record Nav (F W : Type 0) : Type 0 where
  pub order : Order F
  pub navdata : NavigatorState
  pub course : Course
  pub obstacle : Obstacle F
  pub config : Config F
  pub speed : F
  pub rest : W

-- What a controller leaves and returns.
pub record Motion (F W : Type 0) : Type 0 where
  pub nav : Nav F W
  pub pcmd : PilotCommand F
  pub result : Result

module _ {F W : Type 0} where
  -- Course::no_waypoint_reached
  abbrev pub no_waypoint_reached : Nav F W → Nav F W
  no_waypoint_reached n = record n { course = record (n.course) { waypoint_checked = true } }

module _ {F : Type 0} ⦃fl : Floats F⦄ where
  abbrev pub halted : PilotCommand F
  halted = record { velocity = fl.of_int (pos 0); yaw_rate = fl.of_int (pos 0) }

module _ {F W : Type 0} ⦃fl : Floats F⦄ where
  -- Halt::control
  abbrev pub halt : Nav F W → Motion F W
  halt n = record { nav = no_waypoint_reached n; pcmd = halted; result = fine }
