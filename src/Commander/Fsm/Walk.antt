-- ===== src/Commander/Fsm/Walk.antt =====
-- Where the walk along the route ends, and what it notices: CmdrFSM::current_event of
-- art_nav/src/commander/FSM.cc.
pub mod Steps
use utexas_art_ros_pkg.Base.{
  ◌≡◌, ◌≢◌, ap, Bool, true, false, false≢true, ◌&&◌, not, [], ◌∷◌, ◌++◌, none, some, null, ◌⊎◌,
  List, All,
}
use utexas_art_ros_pkg.RoadMap.Element.{ElementId, id_eq_iff}
use utexas_art_ros_pkg.RoadMap.WayPoint.{WayPointNode, WayPointEdge}
use utexas_art_ros_pkg.RoadMap.Graph.{get_node_by_index}
use utexas_art_ros_pkg.Commander.Route.{Route}
use utexas_art_ros_pkg.Commander.State.{Commander}
use utexas_art_ros_pkg.Commander.Fsm.{Seen, Walked, arrived, lost}
use utexas_art_ros_pkg.Commander.Fsm.Walk.Steps.{Starts, has, Left, Here}

module _ {F : Type 0} where
  -- the edges after the first one
  abbrev pub others : Route F → Route F
  others [] = []
  others (e ∷ es) = es

  -- The edges that are left behind, and the way-points at which all of them but the first start: none is
  -- the target.
  pub record Behind (target : ElementId) (c : Commander F) (route rest : Route F) : Type 0 where
    pub gone : Route F
    pub joined : route ≡ gone ++ rest
    pub ways : List ElementId
    pub starts : Starts c (others gone) ways
    pub not_yet : All (λ w. w ≢ target) ways

  -- Where a walk arrives: at the start of an edge, which is the target; or at the end of the last edge, which
  -- does not start at the target.
  pub record Arrived (target : ElementId) (c : Commander F) (route rest : Route F) (t : Seen)
      (e : WayPointEdge F) : Type 0 where
    pub behind : Behind target c route rest
    pub tail : Route F
    pub edge : rest ≡ e ∷ tail
    pub n : WayPointNode F
    pub here : get_node_by_index c.graph e.startnode_index ≡ some n
    pub further : List ElementId
    pub goal1 : t.goal1 ≡ has c.goal.id (behind.ways ++ n.id ∷ further)
    pub goal2 : t.goal2 ≡ has c.goal2.id (behind.ways ++ n.id ∷ further)
    pub ends :
        ((target ≡ n.id) × (t.way ≡ n.id) × (further ≡ []))
        ⊎ ((tail ≡ [])
            × (n.id ≢ target)
            × ((m : WayPointNode F) × (get_node_by_index c.graph e.endnode_index ≡ some m)
                × (t.way ≡ m.id)
                × (further ≡ m.id ∷ [])))

  -- The walk is lost at an edge whose start is not on the map, or at the end of the last edge, which does not
  -- start at the target.
  abbrev pub Ended : ElementId → Commander F → Route F → Walked F → Type 0
  Ended target c route (arrived rest t e) = Arrived target c route rest t e
  Ended target c route (lost rest t) =
      (e : WayPointEdge F) × (tail : Route F) × (rest ≡ e ∷ tail)
      × Behind target c route rest
      × ((get_node_by_index c.graph e.startnode_index ≡ none)
          ⊎ ((tail ≡ [])
              × (get_node_by_index c.graph e.endnode_index ≡ none)
              × ((n : WayPointNode F) × (get_node_by_index c.graph e.startnode_index ≡ some n)
                  × (n.id ≢ target))))

module _ {F : Type 0} where
  -- A walk before it looks at the end of the last edge, and one in which the first edge is left behind.
  abbrev InPlan : ElementId → Commander F → Seen → Route F → Walked F → Type 0
  InPlan target c s route (arrived rest t e) =
      (tail : Route F) × (rest ≡ e ∷ tail)
      × ((b : Behind target c route rest) × Here target c s b.ways tail t e)
  InPlan target c s route (lost rest t) =
      (e : WayPointEdge F) × (tail : Route F) × (rest ≡ e ∷ tail)
      × Behind target c route rest
      × (get_node_by_index c.graph e.startnode_index ≡ none)

  abbrev leave_first :
      (target : ElementId) (c : Commander F) (e : WayPointEdge F) (es rest : Route F)
      → Left target c es rest
      → Behind target c (e ∷ es) rest
  leave_first target c e es rest l = record {
    gone = e ∷ l.between;
    joined = ap (◌∷◌ e) l.joined;
    ways = l.ways;
    starts = l.starts;
    not_yet = l.not_yet;
  }
