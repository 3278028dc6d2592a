-- ===== src/RoadMap/Graph/Measure/Located.antt =====
-- What find_mapxy of art_map/src/lib/Graph.cc leaves of a graph.
use mathlib.Core.Option.{some-injective}
use utexas_art_ros_pkg.Base.{
  false≢true, ℕ, zero, suc, ◌<◌, ◌≡◌, refl, sym, ap, subst, ◌∙◌, true, List, [], ◌∷◌, some,
  and_then, IsSome, if_elim, ==_iff, ◌==◌, length-map, get_elem?-map, null, get_elem?,
  get_elem?-some, length, All, Bool, arith,
}
use utexas_art_ros_pkg.Numeric.{Floats}
use utexas_art_ros_pkg.RoadMap.WayPoint.{WayPointNode, WayPointEdge, distance_to}
use utexas_art_ros_pkg.RoadMap.Graph.{Graph, find_node, get_node_by_index}
use utexas_art_ros_pkg.RoadMap.Graph.Implicit.Access.{EndsIn}
use utexas_art_ros_pkg.RoadMap.Graph.Measure.{
  measure_from, measure, relocate, grid_of, relocate_all, find_mapxy,
}

module _ {F : Type 0} where
  -- the index of each node is its array position
  abbrev pub Numbered : List (WayPointNode F) → Type 0
  Numbered nodes = (k : ℕ) (n : WayPointNode F) → get_elem? nodes k ≡ some n → n.index ≡ k

  -- an edge between array positions of nodes
  abbrev pub Joins : List (WayPointNode F) → WayPointEdge F → Type 0
  Joins nodes e = (e.startnode_index < length nodes) × (e.endnode_index < length nodes)

  find_node-IsSome :
      (p : WayPointNode F → Bool) (nodes : List (WayPointNode F)) (k : ℕ) {n : WayPointNode F}
      → get_elem? nodes k ≡ some n
      → p n ≡ true
      → IsSome (find_node p nodes)
  unfolding find_node
  find_node-IsSome p [] k at h = cc
  find_node-IsSome p (m ∷ ns) zero at h =
      if_elim IsSome (p m) (λ _. (m, refl))
        λ f. absurd (false≢true (sym f ∙ (ap p (some-injective _ _ at) ∙ h)))
  find_node-IsSome p (m ∷ ns) (suc k) at h =
      if_elim IsSome (p m) (λ _. (m, refl)) (λ _. find_node-IsSome p ns k at h)

  pub get_node_by_index-IsSome :
      (g : Graph F) (k : ℕ) → Numbered g.nodes → k < length g.nodes → IsSome (get_node_by_index g k)
  unfolding get_node_by_index
  get_node_by_index-IsSome g k numbered l =
      let (n, at) = get_elem?-some g.nodes k l in
      find_node-IsSome (λ m. m.index == k) g.nodes k at ((==_iff n.index k).1 (numbered k n at))

module _ {F : Type 0} ⦃fl : Floats F⦄ where
  -- an edge whose length is the distance between its nodes
  pub record Measured (g : Graph F) (e : WayPointEdge F) : Type 0 where
    pub from : WayPointNode F
    pub to : WayPointNode F
    pub starts : get_node_by_index g e.startnode_index ≡ some from
    pub ends : get_node_by_index g e.endnode_index ≡ some to
    pub long : e.distance ≡ distance_to from.map to.map

  -- The edges `fs` are `es`, but for the lengths, which are those between the nodes of `g`.
  abbrev pub Remeasured : Graph F → List (WayPointEdge F) → List (WayPointEdge F) → Type 0
  Remeasured g [] [] = Unit
  Remeasured g [] (f ∷ fs) = ⊥
  Remeasured g (e ∷ es) [] = ⊥
  Remeasured g (e ∷ es) (f ∷ fs) =
      Measured g f × (f ≡ record e { distance = f.distance }) × Remeasured g es fs

  get_node_by_index-nodes :
      (g h : Graph F) (k : ℕ) → h.nodes ≡ g.nodes → get_node_by_index h k ≡ get_node_by_index g k
  unfolding get_node_by_index
  get_node_by_index-nodes g h k e = ap (find_node (λ m. m.index == k)) e

  measure_from-Remeasured :
      (g : Graph F) (es : List (WayPointEdge F))
      → Numbered g.nodes
      → All (Joins g.nodes) es
      → (fs : List (WayPointEdge F)) × (measure_from g (length es) es ≡ some fs)
        × ((h : Graph F) → h.nodes ≡ g.nodes → Remeasured h es fs)
  unfolding measure_from
  measure_from-Remeasured g [] numbered h = ([], refl, λ _ _. tt)
  measure_from-Remeasured g (e ∷ es) numbered h =
      let (start, s) = get_node_by_index-IsSome g e.startnode_index numbered h.0.0 in
      let (end, t) = get_node_by_index-IsSome g e.endnode_index numbered h.0.1 in
      let (fs, m, r) = measure_from-Remeasured g es numbered h.1 in
      (
        record e { distance = distance_to start.map end.map } ∷ fs,
        rw (s, t, m) refl,
        λ k same. (
          record {
            from = start;
            to = end;
            starts = get_node_by_index-nodes g k e.startnode_index same ∙ s;
            ends = get_node_by_index-nodes g k e.endnode_index same ∙ t;
            long = refl;
          },
          refl,
          r k same,
        ),
      )

  pub Remeasured-length :
      (h : Graph F) (es fs : List (WayPointEdge F)) → Remeasured h es fs → length fs ≡ length es
  Remeasured-length h [] [] r = refl
  Remeasured-length h [] (f ∷ fs) r = absurd r
  Remeasured-length h (e ∷ es) [] r = absurd r
  Remeasured-length h (e ∷ es) (f ∷ fs) r = ap suc (Remeasured-length h es fs r.2)

  pub Remeasured-Joins :
      (nodes : List (WayPointNode F)) (h : Graph F) (es fs : List (WayPointEdge F))
      → All (Joins nodes) es
      → Remeasured h es fs
      → All (EndsIn nodes) fs
  Remeasured-Joins nodes h [] [] j r = tt
  Remeasured-Joins nodes h [] (f ∷ fs) j r = absurd r
  Remeasured-Joins nodes h (e ∷ es) [] j r = absurd r
  Remeasured-Joins nodes h (e ∷ es) (f ∷ fs) j r = (
    omega (arith, j.0.1, ap (λ (x : WayPointEdge F). x.endnode_index) r.1),
    Remeasured-Joins nodes h es fs j.1 r.2,
  )

  pub relocate_all-length : (ns : List (WayPointNode F)) → length (relocate_all ns) ≡ length ns
  unfolding relocate_all
  relocate_all-length [] = refl
  relocate_all-length (n ∷ ns) = length-map (relocate (grid_of n)) (n ∷ ns)

  pub relocate_all-Numbered :
      (ns : List (WayPointNode F)) → Numbered ns → Numbered (relocate_all ns)
  unfolding relocate_all
  relocate_all-Numbered [] h k n at = h k n at
  relocate_all-Numbered (m ∷ ns) h k n at =
      let (x, there, moved) = get_elem?-map (relocate (grid_of m)) (m ∷ ns) k at in
      ap (λ (y : WayPointNode F). y.index) moved ∙ h k x there

  -- The graph `h` is `g` with its way-points moved and its edges measured anew.
  pub record Located (g h : Graph F) : Type 0 where
    pub moved : h.nodes ≡ relocate_all g.nodes
    pub same_size : h.edges_size ≡ g.edges_size
    pub measured : Remeasured h g.edges h.edges

  measure-Remeasured :
      (g : Graph F)
      → Numbered g.nodes
      → All (Joins g.nodes) g.edges
      → g.edges_size ≡ length g.edges
      → (h : Graph F) × (measure g ≡ some h)
        × (h.nodes ≡ g.nodes)
        × (h.edges_size ≡ g.edges_size)
        × Remeasured h g.edges h.edges
  unfolding measure
  measure-Remeasured g numbered joins sized =
      let (fs, m, r) = measure_from-Remeasured g g.edges numbered joins in
      let h : Graph F = record g { edges = fs } in
      (
        h,
        ap (λ o. and_then o λ es. some (record g { edges = es }))
            (ap (λ n. measure_from g n g.edges) sized ∙ m),
        refl,
        refl,
        r h refl,
      )

  relocate_all-null : (ns : List (WayPointNode F)) → null ns ≡ true → ns ≡ relocate_all ns
  unfolding relocate_all
  relocate_all-null [] t = refl
  relocate_all-null (n ∷ ns) t = absurd (false≢true t)

  Joins-null :
      (h : Graph F) (ns : List (WayPointNode F)) (es : List (WayPointEdge F))
      → null ns ≡ true
      → All (Joins ns) es
      → Remeasured h es es
  Joins-null h ns [] t j = tt
  Joins-null h [] (e ∷ es) t j = absurd (omega (arith, j.0.0))
  Joins-null h (n ∷ ns) (e ∷ es) t j = absurd (false≢true t)

  pub find_mapxy-Located :
      (g : Graph F)
      → Numbered g.nodes
      → All (Joins g.nodes) g.edges
      → g.edges_size ≡ length g.edges
      → (h : Graph F) × (find_mapxy g ≡ some h) × Located g h
  unfolding find_mapxy
  find_mapxy-Located g numbered joins sized =
      if_elim (λ o. (h : Graph F) × (o ≡ some h) × Located g h) (null g.nodes)
        (λ t. (
          g,
          refl,
          record {
            moved = relocate_all-null g.nodes t;
            same_size = refl;
            measured = Joins-null g g.nodes g.edges t joins;
          },
        ))
        λ _.
          let moved : Graph F = record g { nodes = relocate_all g.nodes } in
          let (h, m, nodes, size, r) =
            measure-Remeasured moved (relocate_all-Numbered g.nodes numbered)
              (subst (λ n. All (λ e. (e.startnode_index < n) × (e.endnode_index < n)) g.edges)
                (sym (relocate_all-length g.nodes)) joins)
              sized in
          (h, m, record { moved = nodes; same_size = size; measured = r })
