-- ===== src/RoadMap/Graph.antt =====
-- The graph of the road map, class Graph of art_map/include/art_map/Graph.h and its queries in
-- art_map/src/lib/Graph.cc.
pub mod Passing
pub mod Implicit
pub mod Utm
pub mod Measure
use utexas_art_ros_pkg.Base.{
  ℕ, Bool, List, [], ◌∷◌, Option, none, some, if◌then◌else◌, ◌==◌, pos, filter, take, ◌&&◌,
  and_then, eqb_ℤ, ℤ,
}
use utexas_art_ros_pkg.Numeric.{Floats}
use utexas_art_ros_pkg.RoadMap.Element.{ElementId, id_eq}
use utexas_art_ros_pkg.RoadMap.WayPoint.{WayPointNode, WayPointEdge, MapXy, distance_to}

-- `nodes` is the array of `nodes_size` nodes; `edges` is a vector, and `edges_size` a count kept
-- beside it.
pub record Graph (F : Type 0) : Type 0 where
  pub nodes : List (WayPointNode F)
  pub edges : List (WayPointEdge F)
  pub edges_size : ℕ

module _ {F : Type 0} where
  -- The first node that passes a test, as the loops over `nodes` search it; `none` is NULL.
  unfoldable pub find_node :
      (WayPointNode F → Bool) → List (WayPointNode F) → Option (WayPointNode F)
  find_node p [] = none
  find_node p (n ∷ ns) = let rest = find_node p ns in if p n then some n else rest

  -- the edges that a loop to `edges_size` visits
  abbrev pub visited : Graph F → List (WayPointEdge F)
  visited g = take g.edges_size g.edges

  unfoldable pub get_node_by_index : Graph F → ℕ → Option (WayPointNode F)
  unfolding find_node
  get_node_by_index g index = find_node (λ n. n.index == index) g.nodes

  unfoldable pub get_node_by_id : Graph F → ElementId → Option (WayPointNode F)
  unfolding find_node
  get_node_by_id g id = find_node (λ n. id_eq n.id id) g.nodes

  unfoldable pub edges_from : Graph F → ℕ → List (WayPointEdge F)
  edges_from g index = filter (λ e. e.startnode_index == index) (visited g)

  -- The loop of edges_leaving_segment; `none` is a start index that no node has, where the code
  -- reads through NULL.
  unfoldable pub leaving_from : Graph F → ℤ → List (WayPointEdge F) → Option (List (WayPointEdge F))
  unfolding get_node_by_index
  leaving_from g seg [] = some []
  leaving_from g seg (e ∷ es) =
      let rest = leaving_from g seg es in
      and_then (get_node_by_index g e.startnode_index)
        λ n. if eqb_ℤ n.id.seg seg then and_then rest (λ more. some (e ∷ more)) else rest

  unfoldable pub edges_leaving_segment : Graph F → ℤ → Option (List (WayPointEdge F))
  unfolding leaving_from
  edges_leaving_segment g seg = leaving_from g seg (visited g)

module _ {F : Type 0} ⦃fl : Floats F⦄ where
  -- The loop of get_closest_node: the closest node so far, and its distance.
  closest_from :
      MapXy F → Option (WayPointNode F) → F → List (WayPointNode F) → Option (WayPointNode F)
  closest_from p closest distance [] = closest
  closest_from p none distance (n ∷ ns) = closest_from p (some n) (distance_to p n.map) ns
  closest_from p (some c) distance (n ∷ ns) =
      let new_distance = distance_to p n.map in
      let nearer = fl.lt new_distance distance in
      closest_from p (some (if nearer then n else c)) (if nearer then new_distance else distance) ns

  unfoldable pub get_closest_node : Graph F → MapXy F → Option (WayPointNode F)
  unfolding closest_from
  get_closest_node g p = closest_from p none (fl.of_int (pos 0)) g.nodes

  -- The loop of get_closest_node_within_radius; the radius is a node's own lane width.
  within_from :
      MapXy F → Option (WayPointNode F) → F → List (WayPointNode F) → Option (WayPointNode F)
  within_from p closest distance [] = closest
  within_from p none distance (n ∷ ns) =
      let new_distance = distance_to p n.map in
      let close = fl.lt new_distance n.lane_width in
      within_from p (if close then some n else none) (if close then new_distance else distance) ns
  within_from p (some c) distance (n ∷ ns) =
      let new_distance = distance_to p n.map in
      let nearer = fl.lt new_distance distance && fl.lt new_distance n.lane_width in
      within_from p (some (if nearer then n else c)) (if nearer then new_distance else distance) ns

  unfoldable pub get_closest_node_within_radius : Graph F → MapXy F → Option (WayPointNode F)
  unfolding within_from
  get_closest_node_within_radius g p = within_from p none (fl.of_int (pos 0)) g.nodes
