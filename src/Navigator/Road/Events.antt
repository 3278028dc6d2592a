-- ===== src/Navigator/Road/Events.antt =====
-- Which events the road machine of art_nav/src/navigator/road.cc may have pending in which state.
use utexas_art_ros_pkg.Base.{
  ◌≡◌, refl, Bool, true, false, ◌⊎◌, inl, inr, Bool-cases, ◌∙◌, ap, sym, subst, arith,
}
use utexas_art_ros_pkg.Numeric.{Floats}
use utexas_art_ros_pkg.Messages.{RoadState}
use utexas_art_ros_pkg.Navigator.State.{
  not_applicable, PilotCommand, Nav, Motion, halted, no_waypoint_reached,
}
use utexas_art_ros_pkg.Navigator.Road.{
  RoadEvent, RoadAction, action_error, in_block, in_evade, in_follow, in_init, in_pass, in_uturn,
  in_wait_cross, in_wait_lane, in_wait_pass, in_wait_stop, in_zone, evade_to_follow, pass_to_block,
  pass_to_evade, pass_to_follow, to_block, to_evade, to_follow, to_pass, to_uturn, to_wait_cross,
  to_wait_lane, to_wait_pass, to_wait_stop, to_zone, wait_pass_to_follow, zone_to_wait_cross,
  road_transition, Road, Roadwork, RoadCycle, reset_road,
}
use utexas_art_ros_pkg.Navigator.Road.Waits.{road_action-state}
use utexas_art_ros_pkg.Navigator.Road.Entry.{road_action, enter_road, publish_road, road_control}

-- the entries that the constructor does not fill
abbrev pub is_error : RoadAction → Bool
is_error action_error = true
is_error _ = false

-- the events of a way-point that the table has no entry for in the state Block
abbrev pub unforeseen : RoadState → RoadEvent → Bool
unforeseen RoadState.block RoadEvent.perimeter = true
unforeseen RoadState.block RoadEvent.stop_line = true
unforeseen RoadState.block RoadEvent.change_lane = true
unforeseen RoadState.block RoadEvent.merge = true
unforeseen _ _ = false

abbrev pub Foreseen : RoadState → RoadEvent → Type 0
Foreseen s e = (is_error (road_transition e s).0 ≡ false) ⊎ (unforeseen s e ≡ true)

-- the state that the table goes to for an action
abbrev goal : RoadAction → RoadState
goal action_error = RoadState.init
goal in_block = RoadState.block
goal in_evade = RoadState.evade
goal in_follow = RoadState.follow
goal in_init = RoadState.init
goal in_pass = RoadState.pass
goal in_uturn = RoadState.uturn
goal in_wait_cross = RoadState.wait_cross
goal in_wait_lane = RoadState.wait_lane
goal in_wait_pass = RoadState.wait_pass
goal in_wait_stop = RoadState.wait_stop
goal in_zone = RoadState.zone
goal evade_to_follow = RoadState.follow
goal pass_to_block = RoadState.block
goal pass_to_evade = RoadState.evade
goal pass_to_follow = RoadState.follow
goal to_block = RoadState.block
goal to_evade = RoadState.evade
goal to_follow = RoadState.follow
goal to_pass = RoadState.pass
goal to_uturn = RoadState.uturn
goal to_wait_cross = RoadState.wait_cross
goal to_wait_lane = RoadState.wait_lane
goal to_wait_pass = RoadState.wait_pass
goal to_wait_stop = RoadState.wait_stop
goal to_zone = RoadState.zone
goal wait_pass_to_follow = RoadState.follow
goal zone_to_wait_cross = RoadState.wait_cross

transition-goal :
    (e : RoadEvent) (s : RoadState)
    → is_error (road_transition e s).0 ≡ false
    → (road_transition e s).1 ≡ goal (road_transition e s).0
unfolding road_transition
transition-goal e s h = ground arith

none-no_error : (s : RoadState) → is_error (road_transition RoadEvent.none s).0 ≡ false
unfolding road_transition
none-no_error s = ground arith

error-state :
    (e : RoadEvent) (s : RoadState)
    → is_error (road_transition e s).0 ≡ true
    → ((road_transition e s).0 ≡ action_error) × ((road_transition e s).1 ≡ s)
unfolding road_transition
error-state e s h = ground arith

module _ {F W : Type 0} ⦃fl : Floats F⦄ (k : Roadwork F W) where
  action-Foreseen :
      (a : RoadAction) (r : Road F) (n : Nav F W) (pcmd : PilotCommand F)
      → r.pending_event ≡ RoadEvent.none
      → is_error a ≡ false
      → Foreseen (goal a) (road_action k a r n pcmd).road.pending_event
  unfolding road_action road_transition
  action-Foreseen action_error r n pcmd h k' = ground arith
  action-Foreseen _ r n pcmd h k' = ground arith

  -- an error action changes nothing in the machine, and halts the vehicle
  abbrev Refused : Road F → Nav F W → RoadCycle F W → Type 0
  Refused r n c =
      (c.road ≡ r)
      × (c.motion ≡ record { nav = no_waypoint_reached n; pcmd = halted; result = not_applicable })

  error-Refused :
      (a : RoadAction) (r : Road F) (n : Nav F W) (pcmd : PilotCommand F)
      → a ≡ action_error
      → Refused r n (road_action k a r n pcmd)
  unfolding road_action
  error-Refused a r n pcmd e =
      subst (λ b. Refused r n (road_action k b r n pcmd)) (sym e) (refl, refl)

  abbrev KeepsForeseen : RoadCycle F W → Type 0
  KeepsForeseen c = Foreseen c.road.state c.road.pending_event

  control-Foreseen :
      (r : Road F) (n : Nav F W) (pcmd : PilotCommand F) → KeepsForeseen (road_control k r n pcmd)
  unfolding road_control
  control-Foreseen r n pcmd =
      let e = r.pending_event in
      let next = (road_transition e r.state).1 in
      let r' = enter_road e next r in
      let n' = publish_road r.state next n in
      let a = (road_transition e r.state).0 in
      let c = road_action k a r' n' pcmd in
      elim (Bool-cases (is_error a)) [
        | inl error ↦
            subst (λ (q : Road F). Foreseen q.state q.pending_event)
              (sym (error-Refused a r' n' pcmd (error-state e r.state error).0).0)
              (inl (none-no_error next))
        | inr found ↦
            subst (λ s. Foreseen s c.road.pending_event)
              (sym (transition-goal e r.state found) ∙ sym (road_action-state k a r' n' pcmd))
              (action-Foreseen a r' n' pcmd refl found)
      ]

  -- The machine after a reset and any number of cycles.
  pub data Runs : Road F → Type 0 where
    fresh : (r : Road F) → Runs (reset_road r)
    again :
        {r : Road F}
        → Runs r
        → (n : Nav F W) (pcmd : PilotCommand F) → Runs (road_control k r n pcmd).road

  reset-Foreseen : (r : Road F) → Foreseen (reset_road r).state (reset_road r).pending_event
  unfolding reset_road
  reset-Foreseen r = inl (none-no_error RoadState.init)

  -- After a reset and any number of cycles, with any way-points, obstacles and results of the controllers below,
  -- the table has an entry for the pending event in the state, but for the events Perimeter, StopLine,
  -- ChangeLane and Merge in the state Block.
  pub Runs-Foreseen : (r : Road F) → Runs r → Foreseen r.state r.pending_event
  Runs-Foreseen _ (fresh r) = reset-Foreseen r
  Runs-Foreseen _ (again {r} before n pcmd) = control-Foreseen r n pcmd

  -- Where the table has no entry the vehicle is halted, the result is NotApplicable, which ends the run, and the
  -- machine stays in its state with nothing pending.
  pub unforeseen-Refused :
      (r : Road F) (n : Nav F W) (pcmd : PilotCommand F)
      → is_error (road_transition r.pending_event r.state).0 ≡ true
      → ((road_control k r n pcmd).motion.result ≡ not_applicable)
        × ((road_control k r n pcmd).motion.pcmd ≡ halted)
        × ((road_control k r n pcmd).road.state ≡ r.state)
        × ((road_control k r n pcmd).road.pending_event ≡ RoadEvent.none)
  unfolding road_control
  unforeseen-Refused r n pcmd h =
      let e = r.pending_event in
      let next = (road_transition e r.state).1 in
      let refused =
        error-Refused (road_transition e r.state).0 (enter_road e next r)
          (publish_road r.state next n) pcmd (error-state e r.state h).0 in
      (
        ap (λ (m : Motion F W). m.result) refused.1,
        ap (λ (m : Motion F W). m.pcmd) refused.1,
        ap (λ (q : Road F). q.state) refused.0 ∙ (error-state e r.state h).1,
        ap (λ (q : Road F). q.pending_event) refused.0,
      )
