-- ===== src/Commander/Fsm.antt =====
-- The commander's state machine, class CmdrFSM of art_nav/src/commander/FSM.cc, its states
-- (State.h) and events (Event.h), and Commander::command of command.cc, which runs it.
pub mod Event
pub mod Control
pub mod Walk
pub mod Runs
use utexas_art_ros_pkg.Base.{
  ℕ, zero, suc, ◌≡◌, Bool, true, false, ◌&&◌, ◌||◌, not, List, [], ◌∷◌, Option, none as absent,
  some, if◌then◌else◌, ltb, length, null,
}
use utexas_art_ros_pkg.Numeric.{Floats}
use utexas_art_ros_pkg.RoadMap.Element.{ElementId, null_id, element_id, id_eq, id_ne}
use utexas_art_ros_pkg.RoadMap.WayPoint.{WayPointNode, WayPointEdge}
use utexas_art_ros_pkg.RoadMap.Graph.{Graph, get_node_by_index}
use utexas_art_ros_pkg.Messages.{Behavior, EstopState, NavigatorState, Order, empty_order}
use utexas_art_ros_pkg.Commander.Route.{Route, edge_at, pop_front}
use utexas_art_ros_pkg.Commander.Blockages.{add_block}
use utexas_art_ros_pkg.Commander.Search.{TopChoice}
use utexas_art_ros_pkg.Commander.State.{
  Commander, Run, ok, fault, ◌>>=◌, next_checkpoint, replan_route,
}
use utexas_art_ros_pkg.Commander.Orders.{prepare_order}

pub data CmdrState : Type 0 where
  done init road : CmdrState

pub data CmdrEvent : Type 0 where
  blocked done enter_lane fail none replan wait : CmdrEvent

-- The action methods.
pub data Action : Type 0 where
  action_error action_fail action_wait action_in_done action_in_init action_in_road : Action
  action_to_done blocked_in_road replan_in_road init_to_road : Action

-- The table that the constructor fills: what is not added is an error in the same state.
unfoldable pub transition : CmdrEvent → CmdrState → Action × CmdrState
transition CmdrEvent.blocked CmdrState.done = (action_in_done, CmdrState.done)
transition CmdrEvent.blocked init = (action_in_init, init)
transition CmdrEvent.blocked road = (blocked_in_road, road)
transition CmdrEvent.done CmdrState.done = (action_in_done, CmdrState.done)
transition CmdrEvent.done init = (action_to_done, CmdrState.done)
transition CmdrEvent.done road = (action_to_done, CmdrState.done)
transition enter_lane CmdrState.done = (action_in_done, CmdrState.done)
transition enter_lane init = (init_to_road, road)
transition enter_lane road = (action_in_road, road)
transition fail CmdrState.done = (action_in_done, CmdrState.done)
transition fail init = (action_fail, CmdrState.done)
transition fail road = (action_fail, CmdrState.done)
transition CmdrEvent.none CmdrState.done = (action_in_done, CmdrState.done)
transition CmdrEvent.none init = (action_in_init, init)
transition CmdrEvent.none road = (action_in_road, road)
transition wait CmdrState.done = (action_in_done, CmdrState.done)
transition wait init = (action_in_init, init)
transition wait road = (action_wait, road)
transition replan CmdrState.done = (action_in_done, CmdrState.done)
transition replan init = (action_in_init, init)
transition replan road = (replan_in_road, road)

-- The machine's own variables, with its copy of the navigator's state.
pub record Fsm : Type 0 where
  pub current_way : ElementId
  pub fsm_navstate : NavigatorState
  pub prev : CmdrState
  pub state : CmdrState
  pub old_replan : ElementId

pub record Machine (F : Type 0) : Type 0 where
  pub cmdr : Commander F
  pub fsm : Fsm

-- What the walk along the route has seen: the way-point, and whether it passed the goals.
pub record Seen : Type 0 where
  pub way : ElementId
  pub goal1 : Bool
  pub goal2 : Bool

-- The walk ends at an edge, or at one that is not on the map.
pub data Walked (F : Type 0) : Type 0 where
  arrived : Route F → Seen → WayPointEdge F → Walked F
  lost : Route F → Seen → Walked F

abbrev pub not_seen : ElementId → Seen
not_seen current_way = record { way = current_way; goal1 = false; goal2 = false }

module _ {F : Type 0} where
  abbrev pub see : Commander F → WayPointNode F → Seen → Seen
  see c n s = record {
    way = n.id;
    goal1 = s.goal1 || id_eq n.id c.goal.id;
    goal2 = s.goal2 || id_eq n.id c.goal2.id;
  }

module _ {F : Type 0} ⦃fl : Floats F⦄ where
  -- The do-while loop: the route is taken from the front until the last way-point is reached, or one
  -- edge is left. The first argument is the way-point that the navigator reached.
  pub walk : ElementId → Commander F → Seen → Route F → Walked F
  walk target c s [] = elim (get_node_by_index c.graph (edge_at {F = F} [] 0).startnode_index) [
    | absent ↦ lost [] s
    | some n ↦ arrived [] (see c n s) (edge_at [] 0)
  ]
  walk target c s (e ∷ []) = elim (get_node_by_index c.graph e.startnode_index) [
    | absent ↦ lost (e ∷ []) s
    | some n ↦ arrived (e ∷ []) (see c n s) e
  ]
  walk target c s (e ∷ f ∷ es) = elim (get_node_by_index c.graph f.startnode_index) [
    | absent ↦ lost (f ∷ es) s
    | some n ↦ elim (id_ne target n.id && not (null es)) [
      | true ↦ walk target c (see c n s) (f ∷ es)
      | false ↦ arrived (f ∷ es) (see c n s) f
    ]
  ]

  -- The end of the plan, if the way-point was not found on it.
  unfoldable pub walk_end : ElementId → Commander F → Walked F → Walked F
  walk_end target c (lost route s) = lost route s
  walk_end target c (arrived route s e) =
      if id_ne target s.way
      then (elim (get_node_by_index c.graph e.endnode_index) [
        | absent ↦ lost route s
        | some n ↦ arrived route (see c n s) e
      ])
      else arrived route s e

  unfoldable pub advance : ElementId → Commander F → ElementId → Walked F
  unfolding walk walk_end edge_at
  advance target c current_way =
      let s = not_seen current_way in
      if id_ne target current_way
      then walk_end target c (walk target c s c.route)
      else arrived c.route s (edge_at c.route 0)
