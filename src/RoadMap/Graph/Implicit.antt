-- ===== src/RoadMap/Graph/Implicit.antt =====
-- The lane changes that the graph itself adds: lanes_in_same_direction and find_implicit_edges of art_map/src/lib/Graph.cc.
pub mod Access
pub mod Edges
pub mod Side
use utexas_art_ros_pkg.Base.{
  ℕ, suc, ◌+◌, ◌%◌, ◌^◌, Bool, true, false, ◌&&◌, ◌||◌, not, List, [], ◌∷◌, ◌++◌, Option, none,
  some, and_then, if◌then◌else◌, ◌==◌, get_elem?, length, ℤ, pos, negsuc, ltb_ℤ, eqb_ℤ, ◌+ℤ◌, ◌-ℤ◌,
}
use utexas_art_ros_pkg.Numeric.{Floats}
use utexas_art_ros_pkg.RoadMap.Element.{ElementId, id_eq, increment, decrement}
use utexas_art_ros_pkg.RoadMap.WayPoint.{
  WayPointNode, WayPointEdge, LaneMarking, double_yellow, solid_yellow, solid_white, broken_white,
  undefined, MapXy, null_edge, distance_to,
}
use utexas_art_ros_pkg.RoadMap.Graph.{Graph}
use utexas_art_ros_pkg.RoadMap.Graph.Passing.{
  last_with, at_int, passing_allowed, passing_from, forbids_from, has_id,
}
use utexas_art_ros_pkg.Lanes.Geometry.{MapPose, normalize, bearing, pose_bearing}

-- The result of lanes_in_same_direction, and what it writes to `left_lane`, if it does.
abbrev pub Facing : Type 0
Facing = Bool × Option Bool

-- The identifier with the way-point number one higher, and then two lower.
abbrev pub id_after : ElementId → ElementId
id_after id = record id { pt = increment id.pt }

abbrev pub id_before : ElementId → ElementId
id_before id = record id { pt = decrement (decrement (increment id.pt)) }

module _ {F : Type 0} where
  -- the vector and the count with one more edge
  abbrev pub push_edge : Graph F → WayPointEdge F → Graph F
  push_edge g e = record g { edges = g.edges ++ (e ∷ []); edges_size = g.edges_size + 1 }

  -- another node of the same segment, in a lane: the nodes that a case considers
  unfoldable pub beside : ℤ → WayPointNode F → ℕ → ℕ → WayPointNode F → Bool
  beside lane node1 i j node2 =
      not (i == j) && eqb_ℤ node1.id.seg node2.id.seg && eqb_ℤ lane node2.id.lane

  -- the nodes between which there are no implicit edges
  abbrev pub apart : WayPointNode F → Bool
  apart n = n.is_stop || n.is_perimeter || n.is_spot

module _ {F : Type 0} ⦃fl : Floats F⦄ where
  -- the heading from a node to another
  abbrev pub heading_to : WayPointNode F → WayPointNode F → F
  heading_to from to = fl.atan2f (fl.fsub to.map.y from.map.y) (fl.fsub to.map.x from.map.x)

  -- The end of the function, for the nodes and the neighbors along their lanes; the neighbors come
  -- after the nodes, or else before them.
  unfoldable pub compare_lanes :
      Bool → WayPointNode F → WayPointNode F → WayPointNode F → WayPointNode F → Facing
  unfolding pose_bearing normalize
  compare_lanes after node1 node2 next1 next2 =
      let nought = fl.of_int (pos 0) in
      let head1 = heading_to node1 next1 in
      let head2 = heading_to node2 next2 in
      let side = pose_bearing (record { map = node1.map; yaw = head1 }) node2.map in
      (
        fl.lt (fl.fabs (normalize (fl.fsub head1 head2))) fl.half_pi,
        some (if after then fl.lt nought side else fl.lt side nought),
      )

  -- One search of lanes_in_same_direction: the last nodes with two identifiers.
  unfoldable pub both_with :
      List (WayPointNode F) → ElementId → ElementId → Option (WayPointNode F × WayPointNode F)
  unfolding last_with
  both_with nodes el1 el2 = and_then (last_with el1 0 nodes none) λ ind1.
      and_then (last_with el2 0 nodes none) λ ind2.
        and_then (get_elem? nodes ind1) λ n1. and_then (get_elem? nodes ind2) λ n2. some (n1, n2)

  unfoldable pub lanes_in_same_direction : Graph F → ℤ → ℤ → Facing
  unfolding compare_lanes both_with
  lanes_in_same_direction g index1 index2 = elim (at_int g.nodes index1) [
    | none ↦ (false, none)
    | some node1 ↦ elim (at_int g.nodes index2) [
      | none ↦ (false, none)
      | some node2 ↦ elim (both_with g.nodes (id_after node1.id) (id_after node2.id)) [
        | some (next1, next2) ↦ compare_lanes true node1 node2 next1 next2
        | none ↦ elim (both_with g.nodes (id_before node1.id) (id_before node2.id)) [
          | some (next1, next2) ↦ compare_lanes false node1 node2 next1 next2
          | none ↦ (false, none)
        ]
      ]
    ]
  ]

  -- What a case compares with the least distance so far: the left one a distance, the right one
  -- the result of a comparison, 1 or 0.
  abbrev pub left_dist : WayPointNode F → WayPointNode F → F → F
  left_dist node1 node2 min_dist = distance_to node1.map node2.map

  abbrev pub right_dist : WayPointNode F → WayPointNode F → F → F
  right_dist node1 node2 min_dist =
      fl.of_int (if fl.lt (distance_to node1.map node2.map) min_dist then pos 1 else pos 0)

  -- The loop of a case, at the array position `j`: `lane` is the lane to look for, `curr_dist` what
  -- is compared, then the least value so far and its position.
  unfoldable pub nearest_from :
      (WayPointNode F → WayPointNode F → F → F)
      → ℤ
      → WayPointNode F
      → ℕ
      → ℕ
      → List (WayPointNode F)
      → F
      → Option ℕ
      → Option ℕ
  unfolding beside
  nearest_from curr_dist lane node1 i j [] min_dist min_index = min_index
  nearest_from curr_dist lane node1 i j (node2 ∷ ns) min_dist min_index =
      let dist = curr_dist node1 node2 min_dist in
      let nearer = beside lane node1 i j node2 && fl.lt dist min_dist in
      nearest_from curr_dist lane node1 i (suc j) ns (if nearer then dist else min_dist)
        (if nearer then some j else min_index)

  abbrev pub left_index : Graph F → ℕ → WayPointNode F → Option ℕ
  left_index g i node1 =
      nearest_from left_dist (node1.id.lane -ℤ pos 1) node1 i 0 g.nodes fl.flt_max none

  abbrev pub right_index : Graph F → ℕ → WayPointNode F → Option ℕ
  right_index g i node1 =
      nearest_from right_dist (node1.id.lane +ℤ pos 1) node1 i 0 g.nodes fl.flt_max none

  -- The new edge; the indices are array positions, stored as `uint16_t`.
  unfoldable pub implicit_edge : ℕ → ℕ → F → WayPointEdge F
  implicit_edge i m distance = record null_edge {
    startnode_index = i % 2 ^ 16;
    endnode_index = m % 2 ^ 16;
    distance = distance;
    speed_max = fl.of_int (pos 6);
    blocked = false;
    is_implicit = true;
  }

  -- The end of a case, for the nearest node that it has found. A graph is `none` after an access
  -- out of bounds, or to a `left_lane` that was not written.
  unfoldable pub add_edge : Graph F → ℕ → ℕ → F → Option (Graph F)
  unfolding lanes_in_same_direction passing_allowed implicit_edge
  add_edge g i m distance =
      let (same, left_lane) = lanes_in_same_direction g (pos i) (pos m) in
      if same
      then and_then left_lane (λ left.
        and_then (passing_allowed g (pos i) (pos m) left)
          λ allowed. some (if allowed then push_edge g (implicit_edge i m distance) else g))
      else some g

  -- The rest of each case, for what its loop has found; if the left one finds nothing, that is the
  -- end of the round.
  unfoldable pub right_case : Graph F → ℕ → Option ℕ → Option (Graph F)
  unfolding add_edge
  right_case g i none = some g
  right_case g i (some m) = add_edge g i m (fl.of_int (pos 25))

  unfoldable pub left_case : Graph F → ℕ → WayPointNode F → Option ℕ → Option (Graph F)
  unfolding add_edge right_case nearest_from
  left_case g i node1 none = some g
  left_case g i node1 (some m) = and_then (get_elem? g.nodes m) λ node2.
      if apart node2
      then some g
      else and_then (add_edge g i m (fl.of_int (pos 30)))
          λ h. right_case h i (right_index h i node1)

  -- the body of the loop over the nodes
  unfoldable pub implicit_at : Graph F → ℕ → WayPointNode F → Option (Graph F)
  unfolding left_case
  implicit_at g i node1 = if apart node1 then some g else left_case g i node1 (left_index g i node1)

  -- the loop, from the array position `i` on
  unfoldable pub implicit_from : Graph F → ℕ → List (WayPointNode F) → Option (Graph F)
  unfolding implicit_at
  implicit_from g i [] = some g
  implicit_from g i (n ∷ ns) = and_then (implicit_at g i n) λ h. implicit_from h (suc i) ns

  unfoldable pub find_implicit_edges : Graph F → Option (Graph F)
  unfolding implicit_from
  find_implicit_edges g = implicit_from g 0 g.nodes
