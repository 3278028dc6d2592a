-- ===== src/RoadMap/Graph/Measure/Prepared.antt =====
-- The graph that build_graph of art_nav/src/commander/ros_node.cc plans on: find_mapxy and then
-- find_implicit_edges of art_map/src/lib/Graph.cc.
use utexas_art_ros_pkg.Base.{
  ◌^◌, ◌≤◌, ◌<◌, ◌≡◌, ◌≢◌, refl, sym, ap, subst, ◌∙◌, Option, none, some, and_then, IsSome, length,
  length-append, All, All-mono, arith,
}
use utexas_art_ros_pkg.Numeric.{Floats}
use utexas_art_ros_pkg.RoadMap.Graph.{Graph, get_node_by_index}
use utexas_art_ros_pkg.RoadMap.Graph.Implicit.{find_implicit_edges}
use utexas_art_ros_pkg.RoadMap.Graph.Implicit.Access.{EndsIn}
use utexas_art_ros_pkg.RoadMap.Graph.Implicit.Edges.{
  Extended, Extended-bounded, Extends, find_implicit_edges-Extends,
}
use utexas_art_ros_pkg.RoadMap.Graph.Measure.{prepare}
use utexas_art_ros_pkg.RoadMap.Graph.Measure.Located.{
  Numbered, Joins, Located, Remeasured-length, Remeasured-Joins, relocate_all-length,
  relocate_all-Numbered, find_mapxy-Located, get_node_by_index-IsSome,
}

IsSome-ne_none {ℓ} : {A : Type ℓ} {o : Option A} → IsSome o → o ≢ none
IsSome-ne_none h e = cc (h.1, e)

module _ {F : Type 0} ⦃fl : Floats F⦄ where
  Extends-some :
      (g : Graph F) (o : Option (Graph F))
      → Extends g o
      → (k : Graph F) × (o ≡ some k) × Extended g k
  Extends-some g none x = absurd x
  Extends-some g (some k) x = (k, refl, x)

  -- The graph `k` is that of the RNDF, `g`, made ready for the planner.
  pub record Prepared (g k : Graph F) : Type 0 where
    pub located : Graph F
    pub moves : Located g located
    pub extended : Extended located k
    pub sized : k.edges_size ≡ length k.edges
    pub ends : All (λ e. get_node_by_index k e.endnode_index ≢ none) k.edges

  -- Where the nodes of a graph are numbered by their array positions, at most 65536 of them, and the
  -- edges, which are as many as it counts, join such nodes, then build_graph returns from find_mapxy and
  -- find_implicit_edges with no access to a missing node. The way-points are moved relative to one grid
  -- intersection; each edge is kept and has the distance between its nodes as its length; the
  -- edges added are lane changes; the count is that of the edges, and every edge ends at a node.
  pub prepare-Prepared :
      (g : Graph F)
      → Numbered g.nodes
      → All (Joins g.nodes) g.edges
      → g.edges_size ≡ length g.edges
      → length g.nodes ≤ 2 ^ 16
      → (k : Graph F) × (prepare g ≡ some k) × Prepared g k
  unfolding prepare
  prepare-Prepared g numbered joins sized small =
      let (h, found, l) = find_mapxy-Located g numbered joins sized in
      let many : length h.nodes ≡ length g.nodes =
        ap length l.moved ∙ relocate_all-length g.nodes in
      let bounded =
        Remeasured-Joins h.nodes h g.edges h.edges
          (subst (λ n. All (λ e. (e.startnode_index < n) × (e.endnode_index < n)) g.edges)
            (sym many) joins)
          l.measured in
      let x = find_implicit_edges-Extends h (omega (arith, many, small)) bounded in
      let (k, e, y) = Extends-some h (find_implicit_edges h) x in
      let in_place : Numbered h.nodes =
        subst Numbered (sym l.moved) (relocate_all-Numbered g.nodes numbered) in
      (
        k,
        ap (λ o. and_then o find_implicit_edges) found ∙ e,
        record {
          located = h;
          moves = l;
          extended = y;
          sized = omega (
            arith,
            y.sized,
            l.same_size,
            sized,
            Remeasured-length h g.edges h.edges l.measured,
            ap length y.edges_are,
            length-append h.edges y.added,
          );
          ends =
              All-mono (EndsIn k.nodes) (λ f. get_node_by_index k f.endnode_index ≢ none)
                (λ f l. IsSome-ne_none (
                  get_node_by_index-IsSome k f.endnode_index
                    (subst Numbered (sym y.nodes_same) in_place) l))
                k.edges (Extended-bounded h bounded k y);
        },
      )
