-- ===== src/Tests/CurveRuns.antt =====
-- Runs of the controllers SlowForCurves and StopLine of art_nav/src/navigator: a car on the course of
-- Tests/LaneRuns, with brakes of Tests/StopRuns.
use utexas_art_ros_pkg.Base.{◌≡◌, refl, ◌+ℤ◌, ◌-ℤ◌, ltb_ℤ, true, false, not, ℤ, pos, arith}
use utexas_art_ros_pkg.Numeric.{whole, equal, lte, gte}
use utexas_art_ros_pkg.RoadMap.WayPoint.{distance_to}
use utexas_art_ros_pkg.Lanes.Geometry.{distance_from_line, shortest_dist_to_line_segment}
use utexas_art_ros_pkg.Lanes.Poly.{
  point_in_hull, point_on_segment, point_on_edges, crosses, point_in_poly,
  get_shortest_dist_to_poly,
}
use utexas_art_ros_pkg.Lanes.Closest.{closest_from, get_closest_poly}
use utexas_art_ros_pkg.Lanes.Along.{index_of_downstream_poly}
use utexas_art_ros_pkg.Navigator.State.{finished}
use utexas_art_ros_pkg.Navigator.Stop.{approach, begin_stopping}
use utexas_art_ros_pkg.Navigator.StopLine.{stop_line_control, keep_stopping, wayptdist}
use utexas_art_ros_pkg.Navigator.StopLine.Reached.{Stops, stop_line_control-Stops}
use utexas_art_ros_pkg.Navigator.Curves.{CurveConfig, max_safe_speed, slow_for_curves}
use utexas_art_ros_pkg.Navigator.Curves.Between.{Slowed, slow_for_curves-Slowed}
use utexas_art_ros_pkg.Tests.LaneRuns.{behind_car}
use utexas_art_ros_pkg.Tests.StopRuns.{brakes, ahead, slowing}

stop_line_run :
    (stop_line_control brakes (pos 1) (pos 0) slowing behind_car (ahead (pos 8)) (pos 8)).1.result
    ≡ finished
unfolding stop_line_control keep_stopping approach begin_stopping wayptdist distance_to ◌-ℤ◌ ◌+ℤ◌
stop_line_run = refl

abbrev curves : CurveConfig ℤ
curves = record {
  min_speed_for_curves = pos 2;
  lookahead_distance = pos 3;
  min_curve_length = pos 2;
  max_yaw_rate = pos 4;
  max_deceleration = pos 1;
}

le_of_not_lt : (a b : ℤ) → ltb_ℤ a b ≡ false → not (ltb_ℤ a b) ≡ true
le_of_not_lt a b h = ground arith

le_trans : (a b d : ℤ) → not (ltb_ℤ b a) ≡ true → not (ltb_ℤ d b) ≡ true → not (ltb_ℤ d a) ≡ true
le_trans a b d h k = ground arith

fmin_le : (a b : ℤ) → not (ltb_ℤ b (whole.fmin a b)) ≡ true
fmin_le a b = ground arith

le_fmax : (a b : ℤ) → not (ltb_ℤ (whole.fmax a b) a) ≡ true
le_fmax a b = ground arith

fmax_le :
    (a b d : ℤ)
    → not (ltb_ℤ d a) ≡ true
    → not (ltb_ℤ d b) ≡ true
    → not (ltb_ℤ d (whole.fmax a b)) ≡ true
fmax_le a b d h k = ground arith

le_refl : (a : ℤ) → not (ltb_ℤ a a) ≡ true
le_refl a = ground arith

fmin_le_left : (a b : ℤ) → not (ltb_ℤ a (whole.fmin a b)) ≡ true
fmin_le_left a b = ground arith

stop_line_control-Stops_example :
    Stops brakes
      (pos 1)
      (pos 0)
      behind_car
      slowing
      (ahead (pos 8))
      (stop_line_control brakes (pos 1) (pos 0) slowing behind_car (ahead (pos 8)) (pos 8))
stop_line_control-Stops_example =
    stop_line_control-Stops brakes (pos 1) (pos 0) behind_car (λ _. Unit) (λ a _. le_refl a)
      le_trans (λ _ _ _. tt) (λ a b _. fmin_le_left a b) (ahead (pos 8)) tt refl slowing (pos 8)

slow_for_curves-Slowed_example :
    Slowed (pos 2) (ahead (pos 8)) (slow_for_curves curves behind_car.rest (ahead (pos 8)))
slow_for_curves-Slowed_example =
    slow_for_curves-Slowed (λ _. Unit) (λ a b _ _ h. le_of_not_lt a b h) le_trans
      (λ a b _. fmin_le a b) (λ a b _. le_fmax a b) fmax_le refl curves behind_car.rest
      (ahead (pos 8)) tt tt refl refl

curves_run : slow_for_curves curves behind_car.rest (ahead (pos 8)) ≡ ahead (pos 2)
unfolding slow_for_curves max_safe_speed index_of_downstream_poly get_closest_poly closest_from
    get_shortest_dist_to_poly point_in_poly point_in_hull crosses point_on_edges point_on_segment
    shortest_dist_to_line_segment distance_from_line equal lte gte ◌-ℤ◌ ◌+ℤ◌
curves_run = refl
