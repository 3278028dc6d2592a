-- ===== src/Navigator/Curves/Between.antt =====
-- The bounds of the speed that SlowForCurves of art_nav/src/navigator/slow_for_curves.cc commands.
use utexas_art_ros_pkg.Base.{
  ℕ, zero, suc, ◌≡◌, refl, true, false, List, Option, none, some, if_elim, subst, sym, length, ltb,
  pos, negsuc, not, ◌||◌, ◌-◌, false≢true, ◌∙◌,
}
use utexas_art_ros_pkg.Numeric.{Floats, equal}
use utexas_art_ros_pkg.Lanes.Poly.{Poly}
use utexas_art_ros_pkg.Lanes.Closest.{get_closest_poly}
use utexas_art_ros_pkg.Lanes.Along.{index_of_downstream_poly}
use utexas_art_ros_pkg.Navigator.State.{PilotCommand}
use utexas_art_ros_pkg.Navigator.Course.Plan.{Lanes, Tuning}
use utexas_art_ros_pkg.Navigator.Curves.{
  CurveConfig, int_of, add_step, slower, speed_from, max_safe_speed, slow_for_curves,
}

module _ {F : Type 0} ⦃fl : Floats F⦄ where
  -- a speed that is at most another one
  abbrev pub AtMost : F → F → Type 0
  AtMost b a = fl.le a b ≡ true

  module _ (c : CurveConfig F) (t : Tuning F) (polys : List (Poly F)) (max : F)
      (fmin_le : (a : F) → AtMost max (fl.fmin a max)) (nought : AtMost max (fl.of_int (pos 0)))
      (below : AtMost max (fl.of_int (negsuc 0))) where
    speed_from-AtMost :
        (rounds begin : ℕ) (distance max_speed : F)
        → AtMost max (speed_from c t polys max rounds begin distance max_speed)
    unfolding speed_from
    speed_from-AtMost zero begin distance max_speed = fmin_le max_speed
    speed_from-AtMost (suc rounds) begin distance max_speed =
        let further = add_step polys begin distance in
        let lowered = slower c t polys (suc rounds) begin further max_speed in
        if_elim (AtMost max) (equal lowered (fl.of_int (pos 0))) (λ _. nought)
          (λ _. speed_from-AtMost rounds (suc begin) further lowered)

    max_safe_speed-AtMost :
        (start stop : Option ℕ) → AtMost max (max_safe_speed c t polys start stop max)
    unfolding max_safe_speed
    max_safe_speed-AtMost none stop = below
    max_safe_speed-AtMost (some start) none = below
    max_safe_speed-AtMost (some start) (some stop) =
        if_elim (AtMost max)
          (not (ltb start (length polys)) || not (ltb stop (length polys)) || not (ltb start stop))
          (λ _. below)
          (λ _. speed_from-AtMost (stop - start) start (fl.of_int (pos 0)) (fl.of_int (pos 100)))

  -- The command that SlowForCurves makes of another: the same if that is slower than the least speed
  -- for curves; else one no slower than this and no faster than that, with the same yaw rate.
  pub record Slowed (min : F) (pcmd slowed : PilotCommand F) : Type 0 where
    pub same_turn : slowed.yaw_rate ≡ pcmd.yaw_rate
    pub slow_kept : fl.lt pcmd.velocity min ≡ true → slowed ≡ pcmd
    pub at_least : fl.lt pcmd.velocity min ≡ false → fl.le min slowed.velocity ≡ true
    pub at_most : fl.lt pcmd.velocity min ≡ false → fl.le slowed.velocity pcmd.velocity ≡ true

  -- Where the speeds that are numbers are ordered, and the command and the least speed for curves are numbers, the least
  -- speed a `float` and not negative: whatever the plan of the lanes and the place of the vehicle, SlowForCurves leaves
  -- a command that is slower than the least speed as it is, and of any other makes one with the same yaw rate, no slower
  -- than the least speed and no faster than it was, also where no curve can be looked for.
  pub slow_for_curves-Slowed :
      (IsNumber : F → Type 0)
      → ((a b : F) → IsNumber a → IsNumber b → fl.lt a b ≡ false → fl.le b a ≡ true)
      → ((a b d : F) → fl.le a b ≡ true → fl.le b d ≡ true → fl.le a d ≡ true)
      → ((a b : F) → IsNumber b → fl.le (fl.fmin a b) b ≡ true)
      → ((a b : F) → IsNumber a → fl.le a (fl.fmax a b) ≡ true)
      → ((a b d : F) → fl.le a d ≡ true → fl.le b d ≡ true → fl.le (fl.fmax a b) d ≡ true)
      → fl.le (fl.of_int (negsuc 0)) (fl.of_int (pos 0)) ≡ true
      → (c : CurveConfig F) (s : Lanes F) (pcmd : PilotCommand F) → IsNumber pcmd.velocity
      → IsNumber c.min_speed_for_curves
      → fl.to_float c.min_speed_for_curves ≡ c.min_speed_for_curves
      → fl.le (fl.of_int (pos 0)) c.min_speed_for_curves ≡ true
      → Slowed c.min_speed_for_curves pcmd (slow_for_curves c s pcmd)
  unfolding slow_for_curves
  slow_for_curves-Slowed IsNumber of_not trans fmin_le le_fmax fmax_le sign c s pcmd fast least
        exact nonneg =
      let min = c.min_speed_for_curves in
      let start = get_closest_poly s.plan s.estimate.map in
      let stop =
        index_of_downstream_poly s.plan (int_of start) (fl.to_float c.lookahead_distance) in
      let v = pcmd.velocity in
      let safe = max_safe_speed c s.tuning s.plan start stop v in
      if_elim (Slowed min pcmd) (fl.lt v min)
        (λ t. record {
          same_turn = refl;
          slow_kept = λ _. refl;
          at_least = λ f. absurd (false≢true (sym f ∙ t));
          at_most = λ f. absurd (false≢true (sym f ∙ t));
        })
        λ f.
          let enough = of_not v min fast least f in
          let nought = trans (fl.of_int (pos 0)) min v nonneg enough in
          let below = trans (fl.of_int (negsuc 0)) (fl.of_int (pos 0)) v sign nought in
          record {
            same_turn = refl;
            slow_kept = λ t. absurd (false≢true (sym f ∙ t));
            at_least = λ _.
                subst (λ m. fl.le min (fl.fmax m safe) ≡ true) (sym exact) (le_fmax min safe least);
            at_most = λ _.
                fmax_le (fl.to_float min) safe v (subst (λ m. fl.le m v ≡ true) (sym exact) enough)
                  (max_safe_speed-AtMost c s.tuning s.plan v (λ a. fmin_le a v fast) nought below
                    start stop);
          }
