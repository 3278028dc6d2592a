-- ===== src/Commander/Search/Chain/Fuel.antt =====
-- The work left to the main loop of art_nav/src/lib/GraphSearch.cc: it falls in every round.
use utexas_art_ros_pkg.Base.{
  ℕ, zero, suc, ◌+◌, ◌*◌, ◌≤◌, ◌<◌, ◌≡◌, refl, ap, false, List, [], ◌∷◌, Option, some, arith,
  Option-cases, inl, inr, ◌==◌, length, length-filter, if◌then◌else◌,
}
use utexas_art_ros_pkg.Numeric.{Floats}
use utexas_art_ros_pkg.RoadMap.WayPoint.{WayPointNode, WayPointEdge}
use utexas_art_ros_pkg.RoadMap.Graph.{Graph, find_node, get_node_by_index, visited, edges_from}
use utexas_art_ros_pkg.Commander.Search.{
  PossiblePath, pop_at, member, offer, push_edges, add_to_queue,
}

pub length-pop_at {ℓ} :
    {A : Type ℓ} (i : ℕ) (x : A) (xs : List A) → length (pop_at i x xs).1 ≡ length xs
length-pop_at zero x xs = refl
length-pop_at (suc i) x [] = refl
length-pop_at (suc i) x (y ∷ ys) = ap suc (length-pop_at i y ys)

module _ {F : Type 0} where
  -- how many nodes are not closed
  abbrev pub open_nodes : List ℕ → List (WayPointNode F) → ℕ
  open_nodes closed [] = 0
  open_nodes closed (n ∷ ns) =
      if member n.index closed then open_nodes closed ns else suc (open_nodes closed ns)

  open_nodes-le : (closed : List ℕ) (ns : List (WayPointNode F)) → open_nodes closed ns ≤ length ns
  open_nodes-le closed [] = omega arith
  open_nodes-le closed (n ∷ ns) = ground (arith, open_nodes-le closed ns)

  open_nodes_mono :
      (i : ℕ) (closed : List ℕ) (ns : List (WayPointNode F))
      → open_nodes (i ∷ closed) ns ≤ open_nodes closed ns
  open_nodes_mono i closed [] = omega arith
  open_nodes_mono i closed (n ∷ ns) = ground (arith, open_nodes_mono i closed ns)

  -- closing the index of a node that was open
  open_nodes-lt :
      (i : ℕ) (closed : List ℕ) (ns : List (WayPointNode F)) (m : WayPointNode F)
      → member i closed ≡ false
      → find_node (λ n. n.index == i) ns ≡ some m
      → open_nodes (i ∷ closed) ns < open_nodes closed ns
  unfolding find_node
  open_nodes-lt i closed [] m h f = ground arith
  open_nodes-lt i closed (n ∷ ns) m h f =
      ground (arith, open_nodes-lt i closed ns m, open_nodes_mono i closed ns)

  abbrev pub work : Graph F → List ℕ → List (PossiblePath F) → ℕ
  work g closed q = open_nodes closed g.nodes * suc (length (visited g)) + length q

module _ {F : Type 0} ⦃fl : Floats F⦄ (g : Graph F) (goal_id : ℕ) (speedlimit : F) where
  offer-length :
      (prev : Option (WayPointNode F)) (from : WayPointNode F) (old : PossiblePath F)
      (e : WayPointEdge F) (next : WayPointNode F) (q : List (PossiblePath F))
      → length (offer g goal_id speedlimit prev from old e next q) ≤ length q + 1
  offer-length prev from old e next q = ground arith

  push_edges-length :
      (prev : Option (WayPointNode F)) (from : WayPointNode F) (old : PossiblePath F)
      (q : List (PossiblePath F)) (es : List (WayPointEdge F))
      → length (push_edges g goal_id speedlimit prev from old q es) ≤ length q + length es
  unfolding push_edges
  push_edges-length prev from old q [] = omega arith
  push_edges-length prev from old q (e ∷ es) =
      elim (Option-cases (get_node_by_index g e.endnode_index)) [
        | inl n ↦ rw (n, push_edges) (omega arith)
        | inr (next, n) ↦
            rw (n, push_edges)
              (omega (
                arith,
                offer-length prev from old e next q,
                push_edges-length prev from old (offer g goal_id speedlimit prev from old e next q)
                    es,
              ))
      ]

  add_to_queue-length :
      (q : List (PossiblePath F)) (i : ℕ) (old : PossiblePath F) (prev : ℕ)
      → length (add_to_queue g goal_id speedlimit q i old prev) ≤ length q + length (visited g)
  unfolding add_to_queue edges_from
  add_to_queue-length q i old prev = elim (Option-cases (get_node_by_index g i)) [
    | inl n ↦ rw (n, add_to_queue) (omega arith)
    | inr (from, n) ↦
        rw (n, add_to_queue)
          (omega (
            arith,
            push_edges-length (get_node_by_index g prev) from old q (edges_from g i),
            length-filter (λ e. e.startnode_index == i) (visited g),
          ))
  ]

  pub work-expand :
      (closed : List ℕ) (x : PossiblePath F) (q : List (PossiblePath F)) (i : ℕ)
      (old : PossiblePath F) (prev : ℕ) (n : WayPointNode F)
      → member i closed ≡ false
      → get_node_by_index g i ≡ some n
      → work g (i ∷ closed) (add_to_queue g goal_id speedlimit q i old prev) < work g closed (x ∷ q)
  unfolding get_node_by_index
  work-expand closed x q i old prev n m e =
      grind (arith, open_nodes-lt i closed g.nodes n m e, add_to_queue-length q i old prev)

  pub work-start :
      (i : ℕ) (old : PossiblePath F) (prev : ℕ)
      → work g (i ∷ []) (add_to_queue g goal_id speedlimit [] i old prev)
        < suc (suc (length g.nodes) * suc (length (visited g)))
  work-start i old prev =
      grind (arith, open_nodes-le (i ∷ []) g.nodes, add_to_queue-length [] i old prev)
