-- ===== src/Navigator/Road/Waits.antt =====
-- Where the road machine of art_nav/src/navigator/road.cc keeps the vehicle standing.
use utexas_art_ros_pkg.Base.{◌≡◌, refl, sym, Bool, true, false, ◌∙◌, ap, arith}
use utexas_art_ros_pkg.Numeric.{Floats}
use utexas_art_ros_pkg.Messages.{RoadState}
use utexas_art_ros_pkg.Navigator.State.{PilotCommand, Nav, Motion, halted}
use utexas_art_ros_pkg.Navigator.Road.{
  RoadEvent, RoadAction, action_error, in_evade, in_init, in_wait_cross, in_wait_lane, in_wait_pass,
  in_wait_stop, pass_to_evade, to_evade, to_wait_cross, to_wait_lane, to_wait_pass, to_wait_stop,
  zone_to_wait_cross, road_transition, Road, Roadwork,
}
use utexas_art_ros_pkg.Navigator.Road.Entry.{road_action, enter_road, publish_road, road_control}

-- the states in which the vehicle stands
abbrev pub waits : RoadState → Bool
waits RoadState.init = true
waits RoadState.evade = true
waits RoadState.wait_cross = true
waits RoadState.wait_lane = true
waits RoadState.wait_pass = true
waits RoadState.wait_stop = true
waits _ = false

-- the actions that halt
abbrev stands : RoadAction → Bool
stands action_error = true
stands in_evade = true
stands in_init = true
stands in_wait_cross = true
stands in_wait_lane = true
stands in_wait_pass = true
stands in_wait_stop = true
stands pass_to_evade = true
stands to_evade = true
stands to_wait_cross = true
stands to_wait_lane = true
stands to_wait_pass = true
stands to_wait_stop = true
stands zone_to_wait_cross = true
stands _ = false

waits-stands :
    (e : RoadEvent) (s : RoadState)
    → waits (road_transition e s).1 ≡ true
    → stands (road_transition e s).0 ≡ true
unfolding road_transition
waits-stands RoadEvent.block RoadState.block h = ground arith
waits-stands _ _ h = ground arith

module _ {F W : Type 0} ⦃fl : Floats F⦄ where
  -- The vehicle is halted, with the way-point checked.
  abbrev pub Halted : Motion F W → Type 0
  Halted m = (m.pcmd ≡ halted) × (m.nav.course.waypoint_checked ≡ true)

module _ {F W : Type 0} ⦃fl : Floats F⦄ (k : Roadwork F W) where
  road_action-Halted :
      (a : RoadAction) (r : Road F) (n : Nav F W) (pcmd : PilotCommand F)
      → stands a ≡ true
      → Halted (road_action k a r n pcmd).motion
  unfolding road_action
  road_action-Halted action_error r n pcmd h = (refl, refl)
  road_action-Halted _ r n pcmd h = ground arith

  -- An action leaves the state that the transition set.
  pub road_action-state :
      (a : RoadAction) (r : Road F) (n : Nav F W) (pcmd : PilotCommand F)
      → (road_action k a r n pcmd).road.state ≡ r.state
  unfolding road_action
  road_action-state action_error r n pcmd = refl
  road_action-state _ r n pcmd = ground arith

  -- In a cycle of the road machine that ends in the state Init, Evade or one of the four waiting states the
  -- vehicle is halted and its way-point checked, whatever the state was before, the event, and the command.
  pub road_control-Halted :
      (r : Road F) (n : Nav F W) (pcmd : PilotCommand F)
      → waits (road_control k r n pcmd).road.state ≡ true
      → Halted (road_control k r n pcmd).motion
  unfolding road_control
  road_control-Halted r n pcmd h =
      let e = r.pending_event in
      let next = (road_transition e r.state).1 in
      let r' = enter_road e next r in
      let n' = publish_road r.state next n in
      let a = (road_transition e r.state).0 in
      road_action-Halted a r' n' pcmd
        (waits-stands e r.state (ap waits (sym (road_action-state a r' n' pcmd)) ∙ h))
