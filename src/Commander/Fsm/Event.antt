-- ===== src/Commander/Fsm/Event.antt =====
-- The most urgent event: CmdrFSM::current_event of art_nav/src/commander/FSM.cc.
use utexas_art_ros_pkg.Base.{Bool, false, not, [], ◌∷◌, if◌then◌else◌}
use utexas_art_ros_pkg.Numeric.{Floats}
use utexas_art_ros_pkg.RoadMap.Element.{null_id, element_id, id_eq, id_ne}
use utexas_art_ros_pkg.Commander.Route.{Route}
use utexas_art_ros_pkg.Commander.Search.{TopChoice}
use utexas_art_ros_pkg.Commander.State.{Commander, Run, ok, ◌>>=◌, next_checkpoint, replan_route}
use utexas_art_ros_pkg.Commander.Fsm.{CmdrEvent, Fsm, Machine, Seen, Walked, arrived, lost, advance}

-- The event of a way-point that the navigator asks to plan from.
abbrev replan_event : Fsm → CmdrEvent
replan_event m =
    if id_ne (element_id m.fsm_navstate.replan_waypt) null_id
    then (if m.fsm_navstate.road_blocked then CmdrEvent.blocked else CmdrEvent.replan)
    else CmdrEvent.none

module _ {F : Type 0} where
  -- `cmdr->next_checkpoint()` as the event uses it: is the mission finished?
  abbrev finish_checkpoint : Commander F → Run (Commander F × Bool)
  finish_checkpoint c = next_checkpoint c >>= λ r. ok (r.0, not r.1)

  -- One checkpoint is ticked off for the first goal, one more if the second one was passed as well.
  unfoldable pub tick : Seen → Commander F → Run (Commander F × Bool)
  unfolding next_checkpoint
  tick s c =
      if s.goal1
      then (finish_checkpoint c >>= λ r. if s.goal2 then finish_checkpoint r.0 else ok r)
      else ok (c, false)

module _ {F : Type 0} ⦃fl : Floats F⦄ (tc : TopChoice F) where
  -- Before the first plan: the start may be the first goal.
  unfoldable pub enter : Machine F → Run (Machine F × CmdrEvent)
  unfolding next_checkpoint
  enter m =
      let way = element_id m.fsm.fsm_navstate.last_waypt in
      let m' = record m { fsm = record (m.fsm) { current_way = way } } in
      if id_eq way m.cmdr.goal.id
      then (next_checkpoint m.cmdr >>= λ r. ok (record m' { cmdr = r.0 }, CmdrEvent.enter_lane))
      else ok (m', CmdrEvent.enter_lane)

  -- The events in the order of their urgency.
  unfoldable pub urgent : Seen → Bool → Machine F → Run (Machine F × CmdrEvent)
  unfolding replan_route
  urgent s finished m =
      let asked = element_id m.fsm.fsm_navstate.replan_waypt in
      if finished
      then ok (m, CmdrEvent.done)
      else if id_ne asked m.fsm.old_replan
      then ok (record m { fsm = record (m.fsm) { old_replan = asked } }, replan_event m.fsm)
      else if s.goal1
      then (replan_route tc m.cmdr >>= λ r.
          ok (record m { cmdr = r.0 }, if r.1 then CmdrEvent.none else CmdrEvent.wait))
      else ok (m, CmdrEvent.none)

  abbrev walked : Machine F → Route F → Seen → Machine F
  walked m route s = record m {
    cmdr = record (m.cmdr) { route = route };
    fsm = record (m.fsm) { current_way = s.way };
  }

  -- What follows the walk along the route.
  unfoldable pub after_walk : Machine F → Walked F → Run (Machine F × CmdrEvent)
  unfolding tick urgent
  after_walk m (lost route s) = ok (walked m route s, CmdrEvent.fail)
  after_walk m (arrived route s e) = tick s (walked m route s).cmdr >>= λ r.
      urgent s r.1 (record (walked m route s) { cmdr = r.0 })

  -- the event for a route: it is empty only before the first plan
  unfoldable pub event_on : Route F → Machine F → Run (Machine F × CmdrEvent)
  unfolding enter after_walk advance
  event_on [] m = enter m
  event_on (e ∷ es) m =
      after_walk m (advance (element_id m.fsm.fsm_navstate.last_waypt) m.cmdr m.fsm.current_way)

  unfoldable pub current_event : Machine F → Run (Machine F × CmdrEvent)
  unfolding event_on
  current_event m = event_on m.cmdr.route m
