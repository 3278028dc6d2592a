-- ===== src/RoadMap/Graph/Implicit/Edges.antt =====
-- What find_implicit_edges of art_map/src/lib/Graph.cc adds to a graph.
use utexas_art_ros_pkg.Base.{
  ℕ, suc, ◌+◌, ◌%◌, ◌^◌, ◌≤◌, ◌<◌, ◌≡◌, refl, sym, ap, subst, ◌∙◌, true, false, List, [], ◌∷◌, ◌++◌,
  append-nil, append_assoc, Option, none, some, and_then, if_elim, and_then_elim, get_elem?,
  get_elem?-lt, length, length-append, All, All-append, All-mono, ℤ, pos, ◌+ℤ◌, ◌-ℤ◌, ◌⊎◌, inl, inr,
  arith,
}
use utexas_art_ros_pkg.Numeric.{Floats}
use utexas_art_ros_pkg.RoadMap.WayPoint.{WayPointNode, WayPointEdge}
use utexas_art_ros_pkg.RoadMap.Graph.{Graph}
use utexas_art_ros_pkg.RoadMap.Graph.Passing.{passing_allowed}
use utexas_art_ros_pkg.RoadMap.Graph.Implicit.{
  Facing, apart, push_edge, lanes_in_same_direction, nearest_from, left_index, right_index,
  left_dist, right_dist, implicit_edge, add_edge, right_case, left_case, implicit_at, implicit_from,
  find_implicit_edges,
}
use utexas_art_ros_pkg.RoadMap.Graph.Implicit.Side.{
  Found, Beside, beside-same, at_length, nearest_from-Found,
}
use utexas_art_ros_pkg.RoadMap.Graph.Implicit.Access.{
  EndsIn, passing_allowed-IsSome, lanes_in_same_direction-Written, lanes-nodes,
}

Sum_map {ℓ} : {A B C D : Type ℓ} → (A → C) → (B → D) → A ⊎ B → C ⊎ D
Sum_map f g (inl a) = inl (f a)
Sum_map f g (inr b) = inr (g b)

module _ {F : Type 0} ⦃fl : Floats F⦄ where
  -- A lane change between nodes of the graph: it goes from a node to one of an adjacent lane of the
  -- same segment, which goes the same way, on the left or on the right.
  pub record LaneChange (g : Graph F) (e : WayPointEdge F) : Type 0 where
    pub from : WayPointNode F
    pub to : WayPointNode F
    pub starts : get_elem? g.nodes e.startnode_index ≡ some from
    pub ends : get_elem? g.nodes e.endnode_index ≡ some to
    pub same_segment : from.id.seg ≡ to.id.seg
    pub adjacent : (from.id.lane -ℤ pos 1 ≡ to.id.lane) ⊎ (from.id.lane +ℤ pos 1 ≡ to.id.lane)
    pub leaves : apart from ≡ false
    pub same_way :
        (lanes_in_same_direction g (pos e.startnode_index) (pos e.endnode_index)).0 ≡ true
    pub marked : (e.is_implicit ≡ true) × (e.blocked ≡ false)

  -- The graph `h` is `g` with lane changes added.
  pub record Extended (g h : Graph F) : Type 0 where
    pub added : List (WayPointEdge F)
    pub nodes_same : h.nodes ≡ g.nodes
    pub edges_are : h.edges ≡ g.edges ++ added
    pub sized : h.edges_size ≡ g.edges_size + length added
    pub changes : All (LaneChange g) added

  abbrev pub Extends : Graph F → Option (Graph F) → Type 0
  Extends g none = ⊥
  Extends g (some h) = Extended g h

  Extends-then :
      (g : Graph F) (o : Option (Graph F)) (f : Graph F → Option (Graph F))
      → Extends g o
      → ((h : Graph F) → Extended g h → Extends g (f h))
      → Extends g (and_then o f)
  Extends-then g none f x k = absurd x
  Extends-then g (some h) f x k = k h x

  pub Extended-bounded :
      (g : Graph F)
      → All (EndsIn g.nodes) g.edges
      → (h : Graph F) → Extended g h
      → All (EndsIn h.nodes) h.edges
  Extended-bounded g bounded h x =
      subst (λ ns. All (EndsIn ns) h.edges) (sym x.nodes_same)
        (subst (All (EndsIn g.nodes)) (sym x.edges_are) (
          All-append (EndsIn g.nodes) g.edges x.added bounded (
            All-mono (LaneChange g) (EndsIn g.nodes)
              (λ e c. get_elem?-lt g.nodes e.endnode_index c.ends) x.added x.changes)))

  module _ (g : Graph F) (small : length g.nodes ≤ 2 ^ 16)
      (bounded : All (EndsIn g.nodes) g.edges) where
    Extended-push :
        (h : Graph F) (e : WayPointEdge F)
        → LaneChange g e
        → Extended g h
        → Extended g (push_edge h e)
    Extended-push h e c x = record {
      added = x.added ++ (e ∷ []);
      nodes_same = x.nodes_same;
      edges_are = ap (λ es. es ++ (e ∷ [])) x.edges_are ∙ append_assoc g.edges x.added (e ∷ []);
      sized = omega (arith, x.sized, length-append x.added (e ∷ []));
      changes = All-append (LaneChange g) x.added (e ∷ []) x.changes (c, tt);
    }

    add_edge-Extends :
        (h : Graph F) (i m : ℕ) (distance : F)
        → Extended g h
        → m < length g.nodes
        → ((lanes_in_same_direction g (pos i) (pos m)).0 ≡ true
            → LaneChange g (implicit_edge i m distance))
        → Extends g (add_edge h i m distance)
    unfolding add_edge
    add_edge-Extends h i m distance x lm change =
        let d = lanes_in_same_direction h (pos i) (pos m) in
        if_elim (Extends g) d.0
          (λ same.
            let turn = change (
              ap (λ (y : Facing). y.0) (sym (lanes-nodes g h (pos i) (pos m) x.nodes_same))
              ∙ same) in
            and_then_elim (Extends g) d.1 _ (lanes_in_same_direction-Written h (pos i) (pos m) same)
              λ left _.
                and_then_elim (Extends g) (passing_allowed h (pos i) (pos m) left) _
                  (passing_allowed-IsSome h i m left
                    (subst (λ (ns : List (WayPointNode F)). m < length ns) (sym x.nodes_same) lm)
                    (Extended-bounded g bounded h x))
                  λ allowed _.
                    if_elim (Extended g) allowed
                      (λ _. Extended-push h (implicit_edge i m distance) turn x) (λ _. x))
          (λ _. x)

    -- a found neighbor makes a lane change
    Beside-LaneChange :
        (lane : ℤ) (node1 : WayPointNode F) (i m : ℕ) (distance : F)
        → get_elem? g.nodes i ≡ some node1
        → apart node1 ≡ false
        → (lane ≡ node1.id.lane -ℤ pos 1) ⊎ (lane ≡ node1.id.lane +ℤ pos 1)
        → Beside g.nodes lane node1 i m
        → (lanes_in_same_direction g (pos i) (pos m)).0 ≡ true
        → LaneChange g (implicit_edge i m distance)
    unfolding implicit_edge
    Beside-LaneChange lane node1 i m distance at free which (node2, there, b) same =
        let ii : i % 2 ^ 16 ≡ i = omega (arith, small, get_elem?-lt g.nodes i at) in
        let mm : m % 2 ^ 16 ≡ m = omega (arith, small, get_elem?-lt g.nodes m there) in
        record {
          from = node1;
          to = node2;
          starts = ap (get_elem? g.nodes) ii ∙ at;
          ends = ap (get_elem? g.nodes) mm ∙ there;
          same_segment = (beside-same lane node1 i m node2 b).0;
          adjacent =
              Sum_map (λ w. sym w ∙ (beside-same lane node1 i m node2 b).1)
                (λ w. sym w ∙ (beside-same lane node1 i m node2 b).1) which;
          leaves = free;
          same_way =
              subst (λ k. (lanes_in_same_direction g (pos k) (pos (m % 2 ^ 16))).0 ≡ true) (sym ii)
                (subst (λ k. (lanes_in_same_direction g (pos i) (pos k)).0 ≡ true) (sym mm) same);
          marked = (refl, refl);
        }

    index-Found :
        (h : Graph F) (curr_dist : WayPointNode F → WayPointNode F → F → F) (lane : ℤ) (i : ℕ)
        (node1 : WayPointNode F)
        → Extended g h
        → Found g.nodes lane node1 i (nearest_from curr_dist lane node1 i 0 h.nodes fl.flt_max none)
    index-Found h curr_dist lane i node1 x =
        subst
          (λ ns.
            Found g.nodes lane node1 i (nearest_from curr_dist lane node1 i 0 ns fl.flt_max none))
          (sym x.nodes_same)
          (nearest_from-Found g.nodes lane node1 i curr_dist [] g.nodes 0 fl.flt_max none refl refl
            tt)

    right_case-Extends :
        (h : Graph F) (i : ℕ) (node1 : WayPointNode F) (found : Option ℕ)
        → Extended g h
        → get_elem? g.nodes i ≡ some node1
        → apart node1 ≡ false
        → Found g.nodes (node1.id.lane +ℤ pos 1) node1 i found
        → Extends g (right_case h i found)
    unfolding right_case
    right_case-Extends h i node1 none x at free found = x
    right_case-Extends h i node1 (some m) x at free found =
        add_edge-Extends h i m (fl.of_int (pos 25)) x (get_elem?-lt g.nodes m found.1) (
          Beside-LaneChange (node1.id.lane +ℤ pos 1) node1 i m (fl.of_int (pos 25)) at free
            (inr refl) found)

    left_case-Extends :
        (h : Graph F) (i : ℕ) (node1 : WayPointNode F) (found : Option ℕ)
        → Extended g h
        → get_elem? g.nodes i ≡ some node1
        → apart node1 ≡ false
        → Found g.nodes (node1.id.lane -ℤ pos 1) node1 i found
        → Extends g (left_case h i node1 found)
    unfolding left_case
    left_case-Extends h i node1 none x at free found = x
    left_case-Extends h i node1 (some m) x at free found =
        let lm = get_elem?-lt g.nodes m found.1 in
        and_then_elim (Extends g) (get_elem? h.nodes m) _
          (found.0, ap (λ ns. get_elem? ns m) x.nodes_same ∙ found.1)
          λ node2 _.
            if_elim (Extends g) (apart node2) (λ _. x)
              λ _.
                Extends-then g (add_edge h i m (fl.of_int (pos 30))) _
                  (add_edge-Extends h i m (fl.of_int (pos 30)) x lm (
                    Beside-LaneChange (node1.id.lane -ℤ pos 1) node1 i m (fl.of_int (pos 30)) at
                      free (inl refl) found))
                  λ k y.
                    right_case-Extends k i node1 (right_index k i node1) y at free
                      (index-Found k right_dist (node1.id.lane +ℤ pos 1) i node1 y)

    implicit_from-Extends :
        (h : Graph F) (i : ℕ) (before ns : List (WayPointNode F))
        → g.nodes ≡ before ++ ns
        → i ≡ length before
        → Extended g h
        → Extends g (implicit_from h i ns)
    unfolding implicit_from implicit_at
    implicit_from-Extends h i before [] split at x = x
    implicit_from-Extends h i before (n ∷ ns) split at x =
        Extends-then g (implicit_at h i n) _
          (if_elim (Extends g) (apart n) (λ _. x)
            λ free.
              left_case-Extends h i n (left_index h i n) x (at_length before n ns i split at) free
                (index-Found h left_dist (n.id.lane -ℤ pos 1) i n x))
          λ k y.
            implicit_from-Extends k (suc i) (before ++ (n ∷ [])) ns
              (split ∙ sym (append_assoc before (n ∷ []) ns))
              (omega (arith, at, length-append before (n ∷ []))) y

  -- On a graph of at most 65536 nodes whose edges all end at array positions of nodes,
  -- find_implicit_edges accesses no array out of bounds and reads no side that was not written. It
  -- keeps the nodes and the edges, and adds edges that it counts, each of them a lane change: marked as
  -- implicit, not blocked, from a node that is no stop, perimeter or spot to a node of the same
  -- segment, in the lane numbered one lower or one higher, which goes the same way.
  pub find_implicit_edges-Extends :
      (g : Graph F)
      → length g.nodes ≤ 2 ^ 16
      → All (EndsIn g.nodes) g.edges
      → Extends g (find_implicit_edges g)
  unfolding find_implicit_edges
  find_implicit_edges-Extends g small bounded =
      implicit_from-Extends g small bounded g 0 [] g.nodes refl refl (record {
        added = [];
        nodes_same = refl;
        edges_are = sym (append-nil g.edges);
        sized = omega arith;
        changes = tt;
      })
