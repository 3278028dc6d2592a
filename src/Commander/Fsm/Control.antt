-- ===== src/Commander/Fsm/Control.antt =====
-- The action methods and control of class CmdrFSM (art_nav/src/commander/FSM.cc), and
-- Commander::command (command.cc).
use utexas_art_ros_pkg.Base.{Bool, true, false, not, if◌then◌else◌}
use utexas_art_ros_pkg.Numeric.{Floats}
use utexas_art_ros_pkg.RoadMap.Element.{null_id, element_id, id_eq}
use utexas_art_ros_pkg.Messages.{Behavior, EstopState, NavigatorState, Order, empty_order}
use utexas_art_ros_pkg.Commander.Blockages.{add_block}
use utexas_art_ros_pkg.Commander.Search.{TopChoice}
use utexas_art_ros_pkg.Commander.State.{Run, ok, ◌>>=◌, replan_route}
use utexas_art_ros_pkg.Commander.Orders.{prepare_order}
use utexas_art_ros_pkg.Commander.Fsm.{
  CmdrState, Action, action_error, action_fail, action_wait, action_in_done, action_in_init,
  action_in_road, action_to_done, blocked_in_road, replan_in_road, init_to_road, transition,
  Machine,
}
use utexas_art_ros_pkg.Commander.Fsm.Event.{current_event}

-- Commander::order while a cycle runs is the empty order; ActionFail, ActionInDone and ActionInInit
-- return a fresh one with a behavior.
module _ {F : Type 0} ⦃fl : Floats F⦄ where
  abbrev pub only : Behavior → Order F
  only b = record empty_order { behavior = b }

  -- cmdr->prepare_order(art_msgs::Behavior::Go)
  unfoldable pub go : Machine F → Run (Machine F × Order F)
  unfolding prepare_order
  go m = prepare_order m.cmdr Behavior.go >>= λ r. ok (record m { cmdr = r.0 }, r.1)

module _ {F : Type 0} ⦃fl : Floats F⦄ (tc : TopChoice F) (now : F) where
  -- ActionWait and ActionInRoad give the same order, so the result of the plan does not matter.
  unfoldable pub replan_and_go : Machine F → Run (Machine F × Order F)
  unfolding replan_route go
  replan_and_go m = replan_route tc m.cmdr >>= λ r.
      (let m' = record m { cmdr = r.0 } in if r.1 then go m' else go m')

  unfoldable pub blocked_action : Machine F → Run (Machine F × Order F)
  unfolding replan_and_go add_block
  blocked_action m =
      let (graph, blockages) =
        add_block m.cmdr.graph m.cmdr.blockages m.cmdr.route now
          (element_id m.fsm.fsm_navstate.replan_waypt) in
      replan_and_go (record m { cmdr = record (m.cmdr) { graph = graph; blockages = blockages } })

  -- It changes the machine's copy of the navigator's state only.
  unfoldable pub replan_action : Machine F → Run (Machine F × Order F)
  unfolding replan_and_go
  replan_action m =
      let s = m.fsm.fsm_navstate in
      replan_and_go (record m {
        fsm = record (m.fsm) { fsm_navstate = record s { last_waypt = s.replan_waypt } };
      })

  unfoldable pub init_action : Machine F → Run (Machine F × Order F)
  unfolding replan_route go
  init_action m = replan_route tc m.cmdr >>= λ r.
      (let m' = record m { cmdr = r.0 } in if r.1 then go m' else ok (m', only Behavior.abort))

  unfoldable pub perform : Action → Machine F → Run (Machine F × Order F)
  unfolding go blocked_action replan_action init_action
  perform action_error m = ok (m, only Behavior.abort)
  perform action_fail m = ok (m, only Behavior.abort)
  perform action_wait m = go m
  perform action_in_done m = ok (m, only Behavior.quit)
  perform action_in_init m = ok (m, only Behavior.initialize)
  perform action_in_road m = go m
  perform action_to_done m = ok (m, only Behavior.quit)
  perform blocked_in_road m = blocked_action m
  perform replan_in_road m = replan_action m
  perform init_to_road m = init_action m

  -- The transition that control does before the action.
  abbrev pub enter_state : CmdrState → Machine F → Machine F
  enter_state next m = record m { fsm = record (m.fsm) { prev = m.fsm.state; state = next } }

  unfoldable pub control : NavigatorState → Machine F → Run (Machine F × Order F)
  unfolding current_event transition perform
  control navstate m =
      current_event tc (record m { fsm = record (m.fsm) { fsm_navstate = navstate } }) >>= λ r.
      (let (action, next) = transition r.1 r.0.fsm.state in perform action (enter_state next r.0))

  -- A cycle begins with the navigator's state and an empty order.
  abbrev pub begin_cycle : NavigatorState → Machine F → Machine F
  begin_cycle navstate m = record m {
    cmdr = record (m.cmdr) { navstate = navstate; order = empty_order };
  }

  abbrev pub reply : Behavior → Machine F → Run (Machine F × Order F)
  reply b m = ok (record m { cmdr = record (m.cmdr) { order = only b } }, only b)

  abbrev pub is_run : EstopState → Bool
  is_run EstopState.run = true
  is_run _ = false

  unfoldable pub command : NavigatorState → Machine F → Run (Machine F × Order F)
  unfolding control
  command navstate m =
      let m' = begin_cycle navstate m in
      if not (is_run navstate.estop)
      then reply Behavior.none m'
      else if id_eq (element_id navstate.last_waypt) null_id
      then reply Behavior.initialize m'
      else control navstate m'
