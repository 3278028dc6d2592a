-- ===== src/Navigator/StopLine/Reached.antt =====
-- When StopLine of art_nav/src/navigator/stop_line.cc has reached its way-point.
use utexas_art_ros_pkg.Base.{
  ◌≡◌, refl, sym, ◌∙◌, ◌⊎◌, inl, inr, Bool, true, false, false≢true, ◌||◌, ◌&&◌, not, if_elim, pos,
  arith,
}
use utexas_art_ros_pkg.Numeric.{Floats}
use utexas_art_ros_pkg.RoadMap.Element.{element_id, to_map_id}
use utexas_art_ros_pkg.Navigator.State.{fine, finished, PilotCommand, Nav, Motion}
use utexas_art_ros_pkg.Navigator.Course.{new_waypoint_reached}
use utexas_art_ros_pkg.Navigator.Course.Plan.{Lanes}
use utexas_art_ros_pkg.Navigator.Stop.{
  Stop, StopConfig, Approach, approach, begin_stopping, slow_down,
}
use utexas_art_ros_pkg.Navigator.StopLine.{
  wayptdist, bumper_in_poly, finish_stop, keep_stopping, stop_line_control,
}

module _ {F : Type 0} ⦃fl : Floats F⦄ (c : StopConfig F) (stop_distance speed : F)
    (n : Nav F (Lanes F)) where
  -- the approach of this cycle
  abbrev pub now : Approach F
  now = approach c speed (wayptdist stop_distance n.rest)

  -- it is time to stop: near, or with a deceleration that is no longer small
  abbrev pub time_to_stop : Bool
  time_to_stop = fl.le now.left c.min_stop_distance || fl.le c.stop_deceleration now.deceleration

  -- the vehicle is at the line: within the distance, or with its bumper in the polygon
  abbrev pub at_line : Bool
  at_line = fl.le now.left stop_distance || bumper_in_poly n.rest

  abbrev pub at_rest : Bool
  at_rest = fl.lt now.abs_speed c.epsilon_speed

  -- The way-point counts as reached, and is no longer the one to stop at; nothing else has changed.
  pub record Completes (m : Nav F (Lanes F)) : Type 0 where
    pub last : m.navdata.last_waypt ≡ to_map_id (element_id n.rest.stop_waypt.id)
    pub checked : m.course.waypoint_checked ≡ true
    pub cleared : m.rest.stop_waypt.id ≡ record { seg = 65535; lane = 65535; pt = 65535 }
    pub others :
        record m {
          navdata = record m.navdata { last_waypt = n.navdata.last_waypt };
          course = record m.course { waypoint_checked = n.course.waypoint_checked };
          rest = record m.rest {
            stop_waypt = record m.rest.stop_waypt { id = n.rest.stop_waypt.id };
          };
        }
        ≡ n

  -- What a cycle leaves, for the state at its begin and the command.
  pub record Stops (s0 : Stop F) (pcmd : PilotCommand F) (r : Stop F × Motion F (Lanes F))
      : Type 0 where
    -- stopping begins when it is time, and goes on until a reset
    pub begins : r.0.stopping ≡ (s0.stopping || time_to_stop)
    pub before : r.0.stopping ≡ false → (r.0 ≡ s0) × (r.1.pcmd ≡ pcmd)
    -- no speed at the line, and never a higher one
    pub halts : r.0.stopping ≡ true → at_line ≡ true → r.1.pcmd.velocity ≡ fl.of_int (pos 0)
    pub no_faster : fl.le r.1.pcmd.velocity pcmd.velocity ≡ true
    pub turn_kept : r.1.pcmd.yaw_rate ≡ pcmd.yaw_rate
    -- finished at the line and at rest, and then alone
    pub ends :
        ((r.1.result ≡ fine) × (r.1.nav ≡ n) × ((r.0.stopping && (at_line && at_rest)) ≡ false))
        ⊎ ((r.1.result ≡ finished)
            × Completes r.1.nav
            × ((r.0.stopping && (at_line && at_rest)) ≡ true))

  finish_stop-Completes : Completes (finish_stop n)
  unfolding finish_stop new_waypoint_reached to_map_id
  finish_stop-Completes = record { last = refl; checked = refl; cleared = refl; others = refl }

  begin_stopping-stopping :
      (topspeed : F) (s0 : Stop F)
      → (begin_stopping c topspeed now s0).stopping ≡ (s0.stopping || time_to_stop)
  unfolding begin_stopping
  begin_stopping-stopping topspeed s0 = ground arith

  begin_stopping-waits :
      (topspeed : F) (s0 : Stop F)
      → (begin_stopping c topspeed now s0).stopping ≡ false
      → begin_stopping c topspeed now s0 ≡ s0
  unfolding begin_stopping
  begin_stopping-waits topspeed s0 =
      if_elim (λ (s : Stop F). s.stopping ≡ false → s ≡ s0) (time_to_stop && not s0.stopping)
        (λ _ h. absurd (false≢true (sym h))) (λ _ _. refl)

  -- the laws of the order of speeds that are numbers
  module _ (IsNumber : F → Type 0) (le_refl : (a : F) → IsNumber a → fl.le a a ≡ true)
      (le_trans : (a b d : F) → fl.le a b ≡ true → fl.le b d ≡ true → fl.le a d ≡ true)
      (fmin_number : (a b : F) → IsNumber a → IsNumber (fl.fmin a b))
      (fmin_le : (a b : F) → IsNumber a → fl.le (fl.fmin a b) a ≡ true) (pcmd : PilotCommand F)
      (number : IsNumber pcmd.velocity)
      (nonneg : fl.le (fl.of_int (pos 0)) pcmd.velocity ≡ true) where
    slow_down-no_faster :
        (initial_speed : F) → fl.le (slow_down now initial_speed pcmd.velocity) pcmd.velocity ≡ true
    unfolding slow_down
    slow_down-no_faster initial_speed =
        let v = pcmd.velocity in
        let w = fl.fmin v (fl.fsub now.abs_speed now.deceleration) in
        if_elim (λ x. fl.le x v ≡ true) (fl.lt (fl.fmin w initial_speed) (fl.of_int (pos 0)))
          (λ _. nonneg)
          (λ _.
            le_trans (fl.fmin w initial_speed) w v
              (fmin_le w initial_speed
                (fmin_number v (fl.fsub now.abs_speed now.deceleration) number))
              (fmin_le v (fl.fsub now.abs_speed now.deceleration) number))

    -- stopping, and not yet at the line
    underway :
        (s0 s : Stop F) (v : F)
        → s.stopping ≡ true
        → s.stopping ≡ (s0.stopping || time_to_stop)
        → at_line ≡ false
        → fl.le v pcmd.velocity ≡ true
        → Stops s0 pcmd (s, record { nav = n; pcmd = record pcmd { velocity = v }; result = fine })
    underway s0 s v h b off le = record {
      begins = b;
      before = λ f. absurd (false≢true (sym f ∙ h));
      halts = λ _ line. absurd (false≢true (sym off ∙ line));
      no_faster = le;
      turn_kept = refl;
      ends = inl (refl, refl, ground arith);
    }

    keep_stopping-Stops :
        (s0 s : Stop F)
        → s.stopping ≡ true
        → s.stopping ≡ (s0.stopping || time_to_stop)
        → Stops s0 pcmd (keep_stopping c stop_distance s n pcmd now)
    unfolding keep_stopping
    keep_stopping-Stops s0 s h b =
        if_elim (Stops s0 pcmd) at_line
          (λ line.
            if_elim (λ (m : Motion F (Lanes F)). Stops s0 pcmd (s, m)) at_rest
              (λ slow. record {
                begins = b;
                before = λ f. absurd (false≢true (sym f ∙ h));
                halts = λ _ _. refl;
                no_faster = nonneg;
                turn_kept = refl;
                ends = inr (refl, finish_stop-Completes, ground arith);
              })
              (λ fast. record {
                begins = b;
                before = λ f. absurd (false≢true (sym f ∙ h));
                halts = λ _ _. refl;
                no_faster = nonneg;
                turn_kept = refl;
                ends = inl (refl, refl, ground arith);
              }))
          λ off.
            if_elim (Stops s0 pcmd) (not s.creeping && fl.le c.epsilon_speed now.abs_speed)
              (λ _.
                underway s0 s (slow_down now s.initial_speed pcmd.velocity) h b off
                  (slow_down-no_faster s.initial_speed))
              λ _.
                if_elim (Stops s0 pcmd) (fl.le now.left c.max_creep_distance)
                  (λ _.
                    underway s0 (record s { creeping = true })
                      (fl.fmin pcmd.velocity (fl.to_float c.stop_creep_speed)) h b off
                      (fmin_le pcmd.velocity (fl.to_float c.stop_creep_speed) number))
                  (λ _. underway s0 s pcmd.velocity h b off (le_refl pcmd.velocity number))

    -- A cycle of StopLine on speeds that are ordered, for a command that is a number and not negative. Stopping
    -- begins when it is time, and never ends; before that the command is kept. While stopping, the vehicle is told
    -- to halt where the front bumper is in the polygon of the way-point or the distance left is at most the stop
    -- distance, and it is never told to go faster than commanded, with the same yaw rate. The result is Finished exactly
    -- while stopping there with a speed that counts as none: then the last way-point is that of the stop, it is checked, and
    -- the way-point to stop at is the null one. Otherwise nothing but the command and the controller changes.
    pub stop_line_control-Stops :
        (s0 : Stop F) (topspeed : F)
        → Stops s0 pcmd (stop_line_control c stop_distance speed s0 n pcmd topspeed)
    unfolding stop_line_control
    stop_line_control-Stops s0 topspeed =
        let s = begin_stopping c topspeed now s0 in
        let b = begin_stopping-stopping topspeed s0 in
        if_elim (Stops s0 pcmd) s.stopping (λ t. keep_stopping-Stops s0 s t b)
          λ f. record {
            begins = b;
            before = λ _. (begin_stopping-waits topspeed s0 f, refl);
            halts = λ t _. absurd (false≢true (sym f ∙ t));
            no_faster = le_refl pcmd.velocity number;
            turn_kept = refl;
            ends = inl (refl, refl, ground arith);
          }
