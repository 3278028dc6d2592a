-- ===== src/Navigator/Curves.antt =====
-- The controller SlowForCurves of art_nav/src/navigator/slow_for_curves.cc, and the function of
-- course.cc that it asks for the speed in a curve.
pub mod Between
use utexas_art_ros_pkg.Base.{
  ℕ, zero, suc, ◌-◌, Bool, ◌||◌, not, List, Option, none, some, if◌then◌else◌, get_elem?, length,
  ltb, ℤ, pos, negsuc, ltb_ℤ,
}
use utexas_art_ros_pkg.Numeric.{Floats, equal}
use utexas_art_ros_pkg.Lanes.Geometry.{normalize}
use utexas_art_ros_pkg.Lanes.Poly.{Poly}
use utexas_art_ros_pkg.Lanes.Closest.{get_closest_poly}
use utexas_art_ros_pkg.Lanes.Along.{length_at, index_of_downstream_poly}
use utexas_art_ros_pkg.Navigator.State.{PilotCommand}
use utexas_art_ros_pkg.Navigator.Course.Plan.{Lanes, Tuning}
use utexas_art_ros_pkg.Navigator.Course.Plan.Reached.{max_speed_for_slow_down}

-- the parameters that the controller reads, of `double`s
pub record CurveConfig (F : Type 0) : Type 0 where
  pub min_speed_for_curves : F
  pub lookahead_distance : F
  pub min_curve_length : F
  pub max_yaw_rate : F
  pub max_deceleration : F

-- an index that may be -1
abbrev pub int_of : Option ℕ → ℤ
int_of none = negsuc 0
int_of (some i) = pos i

module _ {F : Type 0} ⦃fl : Floats F⦄ where
  unfoldable pub max_speed_for_change_in_heading : Tuning F → F → F → F → F
  unfolding equal
  max_speed_for_change_in_heading t dheading max maximum_yaw_rate =
      if equal dheading (fl.of_int (pos 0))
      then max
      else fl.fmin max (
          fl.fmax (fl.to_float t.max_speed_for_sharp) (
            fl.fabs
              (fl.to_float (fl.dmul t.heading_change_ratio (fl.fdiv maximum_yaw_rate dheading)))))

  -- the heading of a polygon, at an index that is in bounds
  abbrev pub heading_at : List (Poly F) → ℕ → F
  heading_at polys i = elim (get_elem? polys i) [ none ↦ fl.of_int (pos 0) | some p ↦ p.heading ]

  -- a length with half of those of a polygon and the next one, added in `double`s
  abbrev pub add_step : List (Poly F) → ℕ → F → F
  add_step polys i sum = fl.to_float (
      fl.dadd sum
        (fl.ddiv (fl.fadd (length_at polys i) (length_at polys (suc i))) (fl.of_int (pos 2))))

  -- The inner loop, with the rounds left before `stop_index`: the index where the curve ends.
  unfoldable pub curve_end : ℕ → List (Poly F) → F → ℕ → F → ℕ
  curve_end zero polys min_curve_length end len = end
  curve_end (suc rounds) polys min_curve_length end len =
      let rest = curve_end rounds polys min_curve_length (suc end) (add_step polys end len) in
      if fl.lt len min_curve_length then rest else end

  -- One round of the outer loop: the highest speed so far, lowered for the curve that begins here.
  unfoldable pub slower : CurveConfig F → Tuning F → List (Poly F) → ℕ → ℕ → F → F → F
  unfolding curve_end normalize max_speed_for_change_in_heading max_speed_for_slow_down
  slower c t polys rounds begin distance max_speed =
      let end = curve_end rounds polys c.min_curve_length begin (fl.of_int (pos 0)) in
      let dheading = normalize (fl.fsub (heading_at polys end) (heading_at polys begin)) in
      let max_then =
        fl.fmax (fl.to_float c.min_speed_for_curves)
          (max_speed_for_change_in_heading t dheading max_speed (fl.to_float c.max_yaw_rate)) in
      fl.fmin max_speed
        (max_speed_for_slow_down max_then distance max_speed (fl.to_float c.max_deceleration))

  -- The outer loop, with the rounds left before `stop_index`.
  unfoldable pub speed_from : CurveConfig F → Tuning F → List (Poly F) → F → ℕ → ℕ → F → F → F
  unfolding slower equal
  speed_from c t polys max zero begin distance max_speed = fl.fmin max_speed max
  speed_from c t polys max (suc rounds) begin distance max_speed =
      let further = add_step polys begin distance in
      let lowered = slower c t polys (suc rounds) begin further max_speed in
      let rest = speed_from c t polys max rounds (suc begin) further lowered in
      if equal lowered (fl.of_int (pos 0)) then fl.of_int (pos 0) else rest

  unfoldable pub max_safe_speed :
      CurveConfig F → Tuning F → List (Poly F) → Option ℕ → Option ℕ → F → F
  unfolding speed_from
  max_safe_speed c t polys none stop_index max = fl.of_int (negsuc 0)
  max_safe_speed c t polys (some start) none max = fl.of_int (negsuc 0)
  max_safe_speed c t polys (some start) (some stop) max =
      if not (ltb start (length polys)) || not (ltb stop (length polys)) || not (ltb start stop)
      then fl.of_int (negsuc 0)
      else speed_from c t polys max (stop - start) start (fl.of_int (pos 0)) (fl.of_int (pos 100))

  -- SlowForCurves::control, which always returns OK.
  unfoldable pub slow_for_curves : CurveConfig F → Lanes F → PilotCommand F → PilotCommand F
  unfolding get_closest_poly index_of_downstream_poly max_safe_speed
  slow_for_curves c s pcmd =
      let start_index = get_closest_poly s.plan s.estimate.map in
      let stop_index =
        index_of_downstream_poly s.plan (int_of start_index) (fl.to_float c.lookahead_distance) in
      let max_speed = max_safe_speed c s.tuning s.plan start_index stop_index pcmd.velocity in
      if fl.lt pcmd.velocity c.min_speed_for_curves
      then pcmd
      else record pcmd { velocity = fl.fmax (fl.to_float c.min_speed_for_curves) max_speed }
