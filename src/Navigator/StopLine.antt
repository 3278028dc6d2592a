-- ===== src/Navigator/StopLine.antt =====
-- The controller StopLine of art_nav/src/navigator/stop_line.cc, which slows down in the way in which class
-- Stop does (Navigator/Stop), and stops at the way-point `stop_waypt` of the course.
pub mod Reached
use utexas_art_ros_pkg.Base.{Bool, true, false, ◌&&◌, ◌||◌, not, if◌then◌else◌, pos}
use utexas_art_ros_pkg.Numeric.{Floats}
use utexas_art_ros_pkg.RoadMap.Element.{ElementId, element_id, to_map_id, null_id}
use utexas_art_ros_pkg.RoadMap.WayPoint.{WayPoint, distance_to}
use utexas_art_ros_pkg.Lanes.Geometry.{polar_to_map_xy}
use utexas_art_ros_pkg.Lanes.Poly.{point_in_poly}
use utexas_art_ros_pkg.Navigator.State.{fine, finished, Result, PilotCommand, Nav, Motion}
use utexas_art_ros_pkg.Navigator.Course.{new_waypoint_reached}
use utexas_art_ros_pkg.Navigator.Course.Plan.{Lanes}
use utexas_art_ros_pkg.Navigator.Stop.{
  Stop, StopConfig, Approach, approach, begin_stopping, slow_down,
}

module _ {F : Type 0} ⦃fl : Floats F⦄ where
  -- the distance from the front bumper to the way-point, for the parameter `stop_distance`
  unfoldable pub wayptdist : F → Lanes F → F
  unfolding distance_to
  wayptdist stop_distance s = fl.to_float (
      fl.dadd (fl.fsub (distance_to s.estimate.map s.stop_waypt.mapxy) s.tuning.front_bumper_px)
        stop_distance)

  -- whether the front bumper is in the polygon of the way-point
  unfoldable pub bumper_in_poly : Lanes F → Bool
  unfolding polar_to_map_xy point_in_poly
  bumper_in_poly s =
      point_in_poly
        (polar_to_map_xy (record { heading = fl.of_int (pos 0); range = s.tuning.front_bumper_px })
          s.estimate)
        s.stop_poly

  -- The way-point is reached, and no longer the one to stop at.
  unfoldable pub finish_stop : Nav F (Lanes F) → Nav F (Lanes F)
  unfolding new_waypoint_reached element_id to_map_id
  finish_stop n =
      let m = new_waypoint_reached (element_id n.rest.stop_waypt.id) n in
      record m {
        rest = record m.rest { stop_waypt = record m.rest.stop_waypt { id = to_map_id null_id } };
      }

  -- The end of the function, once stopping is initiated.
  unfoldable pub keep_stopping :
      StopConfig F
      → F
      → Stop F
      → Nav F (Lanes F)
      → PilotCommand F
      → Approach F
      → Stop F × Motion F (Lanes F)
  unfolding bumper_in_poly finish_stop slow_down
  keep_stopping c stop_distance s n pcmd a =
      if fl.le a.left stop_distance || bumper_in_poly n.rest
      then (
        s,
        if fl.lt a.abs_speed c.epsilon_speed
            then record {
              nav = finish_stop n;
              pcmd = record pcmd { velocity = fl.of_int (pos 0) };
              result = finished;
            }
            else record {
              nav = n;
              pcmd = record pcmd { velocity = fl.of_int (pos 0) };
              result = fine;
            },
      )
      else if not s.creeping && fl.le c.epsilon_speed a.abs_speed
      then (
        s,
        record {
          nav = n;
          pcmd = record pcmd { velocity = slow_down a s.initial_speed pcmd.velocity };
          result = fine;
        },
      )
      else if fl.le a.left c.max_creep_distance
      then (
        record s { creeping = true },
        record {
          nav = n;
          pcmd = record pcmd { velocity = fl.fmin pcmd.velocity (fl.to_float c.stop_creep_speed) };
          result = fine;
        },
      )
      else (s, record { nav = n; pcmd = pcmd; result = fine })

  -- StopLine::control, with the estimated speed
  unfoldable pub stop_line_control :
      StopConfig F
      → F
      → F
      → Stop F
      → Nav F (Lanes F)
      → PilotCommand F
      → F
      → Stop F × Motion F (Lanes F)
  unfolding approach begin_stopping wayptdist keep_stopping
  stop_line_control c stop_distance speed s0 n pcmd topspeed =
      let a = approach c speed (wayptdist stop_distance n.rest) in
      let s = begin_stopping c topspeed a s0 in
      if s.stopping
      then keep_stopping c stop_distance s n pcmd a
      else (s, record { nav = n; pcmd = pcmd; result = fine })
