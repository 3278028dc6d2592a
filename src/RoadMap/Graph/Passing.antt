-- ===== src/RoadMap/Graph/Passing.antt =====
-- Whether lane markings allow a lane change: passing_allowed of art_map/src/lib/Graph.cc.
use utexas_art_ros_pkg.Base.{
  ℕ, suc, Bool, true, false, ◌&&◌, ◌||◌, not, List, [], ◌∷◌, Option, none, some, and_then,
  if◌then◌else◌, ◌==◌, get_elem?, length, ℤ, pos, negsuc, ltb_ℤ, eqb_ℤ, ◌+ℤ◌,
}
use utexas_art_ros_pkg.RoadMap.Element.{ElementId, id_eq, increment}
use utexas_art_ros_pkg.RoadMap.WayPoint.{
  WayPointNode, WayPointEdge, LaneMarking, double_yellow, solid_yellow, solid_white, broken_white,
  undefined,
}
use utexas_art_ros_pkg.RoadMap.Graph.{Graph}

-- an access to an array at an `int`; `none` is out of its bounds
abbrev pub at_int {ℓ} : {A : Type ℓ} → List A → ℤ → Option A
at_int xs (pos n) = get_elem? xs n
at_int xs (negsuc n) = none

-- the markings that forbid a lane change
unfoldable pub forbids : LaneMarking → Bool
forbids double_yellow = true
forbids solid_yellow = true
forbids solid_white = true
forbids broken_white = false
forbids undefined = false

module _ {F : Type 0} where
  -- whether an identifier is that of some node
  unfoldable pub has_id : ElementId → List (WayPointNode F) → Bool
  has_id id [] = false
  has_id id (n ∷ ns) = let rest = has_id id ns in if id_eq n.id id then true else rest

  -- The array position, from `i` on, of the last node with an identifier.
  unfoldable pub last_with : ElementId → ℕ → List (WayPointNode F) → Option ℕ → Option ℕ
  last_with id i [] found = found
  last_with id i (n ∷ ns) found = last_with id (suc i) ns (if id_eq n.id id then some i else found)

  -- whether a node is the way-point after another in its lane
  unfoldable pub follows : WayPointNode F → WayPointNode F → Bool
  follows n neighbor =
      eqb_ℤ neighbor.id.seg n.id.seg
      && eqb_ℤ neighbor.id.lane n.id.lane
      && eqb_ℤ neighbor.id.pt (n.id.pt +ℤ pos 1)

  -- The test of an edge in the loop of passing_allowed: whether it goes on along the lane of the
  -- node, with a marking on the given side that forbids a lane change.
  unfoldable pub forbids_from :
      List (WayPointNode F) → WayPointNode F → Bool → WayPointEdge F → Option Bool
  unfolding forbids follows
  forbids_from nodes n left e =
      let boundary = if left then e.left_boundary else e.right_boundary in
      if e.startnode_index == n.index
      then and_then (get_elem? nodes e.endnode_index)
          (λ neighbor. some (follows n neighbor && forbids boundary))
      else some false

  unfoldable pub passing_from :
      List (WayPointNode F)
      → WayPointNode F
      → WayPointNode F
      → Bool
      → List (WayPointEdge F)
      → Option Bool
  unfolding forbids_from
  passing_from nodes node1 node2 left [] = some true
  passing_from nodes node1 node2 left (e ∷ es) =
      let rest = passing_from nodes node1 node2 left es in
      and_then (forbids_from nodes node1 left e) λ forbidden.
        if forbidden
        then some false
        else and_then (forbids_from nodes node2 (not left) e)
            λ forbidden2. if forbidden2 then some false else rest

  -- The first index is checked, the second one is not.
  unfoldable pub passing_allowed : Graph F → ℤ → ℤ → Bool → Option Bool
  unfolding has_id passing_from
  passing_allowed g index index2 left =
      if ltb_ℤ index (pos 0) || not (ltb_ℤ index (pos (length g.nodes)))
      then some false
      else and_then (at_int g.nodes index) λ node1. and_then (at_int g.nodes index2) λ node2.
        let ahead = record node1.id { pt = increment node1.id.pt } in
        if not (has_id ahead g.nodes)
        then some true
        else passing_from g.nodes node1 node2 left g.edges
