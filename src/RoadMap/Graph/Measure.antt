-- ===== src/RoadMap/Graph/Measure.antt =====
-- Where the graph's way-points are on the map, and how long its edges are: rndf_is_gps, xy_rndf and
-- find_mapxy of art_map/src/lib/Graph.cc.
pub mod Located
pub mod Prepared
use utexas_art_ros_pkg.Base.{
  ℕ, zero, suc, null, ◌+◌, ◌≡◌, ◌≢◌, refl, sym, ap, subst, ◌∙◌, Bool, true, false, ◌&&◌, ◌||◌, not,
  List, [], ◌∷◌, Option, none, some, and_then, and_then_elim, IsSome, if◌then◌else◌, take, All, map,
  length, pos, get_elem?,
}
use utexas_art_ros_pkg.Numeric.{Floats}
use utexas_art_ros_pkg.RoadMap.WayPoint.{WayPointNode, WayPointEdge, LatLong, MapXy, distance_to}
use utexas_art_ros_pkg.RoadMap.Graph.{Graph, get_node_by_index}
use utexas_art_ros_pkg.RoadMap.Graph.Utm.{utm, grid_size}
use utexas_art_ros_pkg.RoadMap.Graph.Implicit.{find_implicit_edges}

module _ {F : Type 0} ⦃fl : Floats F⦄ where
  -- The loop that measures the first `edges_size` edges; `none` is an edge that starts or ends at an
  -- index that no node has, where the code reads through NULL, or a count beyond the vector.
  unfoldable pub measure_from : Graph F → ℕ → List (WayPointEdge F) → Option (List (WayPointEdge F))
  unfolding get_node_by_index
  measure_from g zero es = some es
  measure_from g (suc n) [] = none
  measure_from g (suc n) (e ∷ es) = and_then (get_node_by_index g e.startnode_index) λ start.
      and_then (get_node_by_index g e.endnode_index) λ end.
        and_then (measure_from g n es)
          λ rest. some (record e { distance = distance_to start.map end.map } ∷ rest)

  unfoldable pub measure : Graph F → Option (Graph F)
  unfolding measure_from
  measure g = and_then (measure_from g g.edges_size g.edges) λ es. some (record g { edges = es })

  unfoldable pub xy_rndf : Graph F → Option (Graph F)
  unfolding measure
  xy_rndf g = measure (record g {
    nodes =
        map
          (λ (n : WayPointNode F). record n {
            map = record { x = fl.to_float n.ll.latitude; y = fl.to_float n.ll.longitude };
          })
          g.nodes;
  })

  -- find_mapxy moves a way-point, relative to a grid intersection.
  abbrev pub relocate : F × F → WayPointNode F → WayPointNode F
  relocate (grid_x, grid_y) n =
      let (t_x, t_y) = utm n.ll.latitude n.ll.longitude in
      record n {
        map = record { x = fl.to_float (fl.dsub t_x grid_x); y = fl.to_float (fl.dsub t_y grid_y) };
      }

  -- the grid intersection nearest to a way-point
  abbrev pub grid_of : WayPointNode F → F × F
  grid_of n =
      let (t_x, t_y) = utm n.ll.latitude n.ll.longitude in
      (
        fl.dmul (fl.rint (fl.ddiv t_x grid_size)) grid_size,
        fl.dmul (fl.rint (fl.ddiv t_y grid_size)) grid_size,
      )

  unfoldable pub relocate_all : List (WayPointNode F) → List (WayPointNode F)
  relocate_all [] = []
  relocate_all (n ∷ ns) = map (relocate (grid_of n)) (n ∷ ns)

  unfoldable pub find_mapxy : Graph F → Option (Graph F)
  unfolding measure relocate_all
  find_mapxy g =
      if null g.nodes then some g else measure (record g { nodes = relocate_all g.nodes })

  -- std::min and std::max
  abbrev pub lesser_of : F → F → F
  lesser_of a b = if fl.lt b a then b else a

  abbrev pub greater_of : F → F → F
  greater_of a b = if fl.lt a b then b else a

  -- minlat, minlong, maxlat and maxlong, after the way-points of a list
  unfoldable pub extent : List (WayPointNode F) → F × F × F × F → F × F × F × F
  extent [] bounds = bounds
  extent (n ∷ ns) (minlat, minlong, maxlat, maxlong) = extent ns (
    lesser_of minlat n.ll.latitude,
    lesser_of minlong n.ll.longitude,
    greater_of maxlat n.ll.latitude,
    greater_of maxlong n.ll.longitude,
  )

  abbrev pub is_infinite : F → Bool
  is_infinite a = fl.le a fl.infinity && fl.le fl.infinity a

  unfoldable pub rndf_is_gps : Graph F → Bool
  unfolding extent
  rndf_is_gps g =
      let low = fl.fneg fl.infinity in
      let (minlat, minlong, maxlat, maxlong) =
        extent g.nodes (fl.infinity, fl.infinity, low, low) in
      if is_infinite minlat || is_infinite maxlat || is_infinite minlong || is_infinite maxlong
      then false
      else fl.le (fl.dsub maxlat minlat) (fl.of_int (pos 2))
        && fl.le (fl.dsub maxlong minlong) (fl.of_int (pos 2))

  -- The calls that build_graph of art_nav/src/commander/ros_node.cc makes on the graph of the RNDF.
  unfoldable pub prepare : Graph F → Option (Graph F)
  unfolding find_mapxy find_implicit_edges
  prepare g = and_then (find_mapxy g) find_implicit_edges
