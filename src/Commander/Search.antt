-- ===== src/Commander/Search.antt =====
-- The A* search of art_nav/src/lib/GraphSearch.cc. The priority queue is the list of its entries;
-- which of the best entries `top` gives is a parameter, since the standard leaves it open.
pub mod Chain
use utexas_art_ros_pkg.Base.{
  ℕ, zero, suc, ◌+◌, ◌*◌, ◌≡◌, Bool, true, false, ◌&&◌, ◌||◌, not, List, [], ◌∷◌, ◌++◌, Option,
  none, some, if◌then◌else◌, ◌==◌, ℤ, pos, eqb_ℤ, ◌+ℤ◌, All, last_or, length,
}
use utexas_art_ros_pkg.Numeric.{Floats, equal}
use utexas_art_ros_pkg.RoadMap.WayPoint.{WayPointNode, WayPointEdge, null_edge, distance_to}
use utexas_art_ros_pkg.RoadMap.Graph.{Graph, get_node_by_index, edges_from, visited}

-- ((estimated, so_far), edges)
pub record PossiblePath (F : Type 0) : Type 0 where
  pub estimated : F
  pub so_far : F
  pub edges : List (WayPointEdge F)

-- The entry at a position of a queue, and the others.
abbrev pub pop_at {ℓ} : {A : Type ℓ} → ℕ → A → List A → A × List A
pop_at zero x xs = (x, xs)
pop_at (suc i) x [] = (x, [])
pop_at (suc i) x (y ∷ ys) = let (t, rest) = pop_at i y ys in (t, x ∷ rest)

-- The loop ends with no result only if its fuel runs out.
pub data Outcome (F : Type 0) : Type 0 where
  returned : List (WayPointEdge F) → Outcome F
  out_of_fuel : Outcome F

abbrev pub member : ℕ → List ℕ → Bool
member i [] = false
member i (j ∷ js) = (j == i) || member i js

module _ {F : Type 0} where
  -- the cost of stopping: the two way-points do not follow one another in a lane
  abbrev pub stops_between : WayPointNode F → WayPointNode F → Bool
  stops_between start end =
      not (eqb_ℤ start.id.seg end.id.seg)
      || not (eqb_ℤ start.id.lane end.id.lane)
      || not (eqb_ℤ end.id.pt (start.id.pt +ℤ pos 1))

  abbrev pub off_road : WayPointNode F → WayPointNode F → Bool
  off_road start end = start.is_perimeter || end.is_perimeter || start.is_spot || end.is_spot

  -- into a zone and right back out just to turn around
  unfoldable pub turns_around : Option (WayPointNode F) → WayPointNode F → WayPointNode F → Bool
  turns_around none from next = false
  turns_around (some prev) from next =
      not (eqb_ℤ prev.id.lane (pos 0))
      && eqb_ℤ from.id.lane (pos 0)
      && not (eqb_ℤ next.id.lane (pos 0))
      && (not prev.is_spot && not next.is_spot)

module _ {F : Type 0} ⦃fl : Floats F⦄ where
  -- path.second.back()
  abbrev pub back : List (WayPointEdge F) → WayPointEdge F
  back [] = null_edge
  back (e ∷ es) = last_or e es

  -- `empty`, the path with no edge; the index -1 is 65535 as a `waypt_index_t`
  abbrev pub empty_path : PossiblePath F
  empty_path = record { estimated = fl.of_int (pos 0); so_far = fl.of_int (pos 0); edges = [] }

  -- PossiblePathComparision::operator()
  abbrev pub compares : PossiblePath F → PossiblePath F → Bool
  compares lhs rhs = fl.lt rhs.estimated lhs.estimated

  -- `time += 10.0` on a `float`
  abbrev pub penalize : Bool → F → F
  penalize true time = fl.to_float (fl.dadd time (fl.of_int (pos 10)))
  penalize false time = time

  abbrev pub infinite_distance : F
  infinite_distance = fl.of_int (pos 1000000)

  pub time_between_nodes : WayPointNode F → WayPointNode F → F → F
  unfolding distance_to
  time_between_nodes start end speedlimit =
      let distance =
        if off_road start end then infinite_distance else distance_to start.map end.map in
      penalize (stops_between start end) (fl.fdiv distance speedlimit)

  abbrev edge_time : WayPointNode F → WayPointNode F → WayPointEdge F → F → F
  edge_time start end edge speedlimit =
      let distance = if off_road start end then infinite_distance else edge.distance in
      let speed = fl.fmin edge.speed_max speedlimit in
      let time =
        if equal speed (fl.of_int (pos 0)) then infinite_distance else fl.fdiv distance speed in
      penalize (stops_between start end) time

  pub time_along_edge : Graph F → WayPointEdge F → F → F
  unfolding equal
  time_along_edge g edge speedlimit = elim (get_node_by_index g edge.startnode_index) [
    | none ↦ infinite_distance
    | some start ↦ elim (get_node_by_index g edge.endnode_index) [
      | none ↦ infinite_distance
      | some end ↦ edge_time start end edge speedlimit
    ]
  ]

  pub heuristic : Graph F → ℕ → ℕ → F → F
  unfolding time_between_nodes
  heuristic g start_id goal_id speedlimit = elim (get_node_by_index g start_id) [
    | none ↦ fl.flt_max
    | some start ↦ elim (get_node_by_index g goal_id) [
      | none ↦ fl.flt_max
      | some end ↦ time_between_nodes start end speedlimit
    ]
  ]

  pub extend : Graph F → PossiblePath F → WayPointEdge F → ℕ → F → PossiblePath F
  unfolding time_along_edge heuristic
  extend g old edge goal_id speedlimit =
      let so_far = fl.dadd old.so_far (time_along_edge g edge speedlimit) in
      record {
        estimated = fl.dadd so_far (heuristic g edge.endnode_index goal_id speedlimit);
        so_far = so_far;
        edges = old.edges ++ edge ∷ [];
      }

  module _ (g : Graph F) (goal_id : ℕ) (speedlimit : F) where
    abbrev pub offer :
        Option (WayPointNode F)
        → WayPointNode F
        → PossiblePath F
        → WayPointEdge F
        → WayPointNode F
        → List (PossiblePath F)
        → List (PossiblePath F)
    offer prev from old edge next q =
        if turns_around prev from next
        then q
        else if edge.blocked
        then q
        else extend g old edge goal_id speedlimit ∷ q

    -- the loop over the edges that leave `from`
    pub push_edges :
        Option (WayPointNode F)
        → WayPointNode F
        → PossiblePath F
        → List (PossiblePath F)
        → List (WayPointEdge F)
        → List (PossiblePath F)
    unfolding extend turns_around
    push_edges prev from old q [] = q
    push_edges prev from old q (e ∷ es) = elim (get_node_by_index g e.endnode_index) [
      | none ↦ q
      | some next ↦ push_edges prev from old (offer prev from old e next q) es
    ]

    pub add_to_queue : List (PossiblePath F) → ℕ → PossiblePath F → ℕ → List (PossiblePath F)
    unfolding push_edges
    add_to_queue q from_index old prev_start_index = elim (get_node_by_index g from_index) [
      | none ↦ q
      | some from ↦
          push_edges (get_node_by_index g prev_start_index) from old q (edges_from g from_index)
    ]

module _ {F : Type 0} where
  -- The rounds of the main loop: each closes a node of the graph or only takes an entry off.
  abbrev pub search_fuel : Graph F → ℕ
  search_fuel g = suc (suc (length g.nodes) * suc (length (visited g)))

-- What `top` of the queue (x, xs) is: the position of an entry that no other one beats.
pub record TopChoice (F : Type 0) ⦃fl : Floats F⦄ : Type 0 where
  pub top : PossiblePath F → List (PossiblePath F) → ℕ
  pub top_first :
      (x : PossiblePath F) (xs : List (PossiblePath F))
      → All (λ y. compares (pop_at (top x xs) x xs).0 y ≡ false) (x ∷ xs)

module _ {F : Type 0} ⦃fl : Floats F⦄ (tc : TopChoice F) where
  abbrev pub top_of :
      PossiblePath F → List (PossiblePath F) → PossiblePath F × List (PossiblePath F)
  top_of x xs = pop_at (tc.top x xs) x xs

module _ {F : Type 0} ⦃fl : Floats F⦄ (tc : TopChoice F) (g : Graph F) (goal_id : ℕ)
    (speedlimit : F) where
  -- the main searching loop
  pub search_loop : ℕ → List ℕ → List (PossiblePath F) → Outcome F
  search_loop zero closed q = out_of_fuel
  search_loop (suc fuel) closed [] = returned []
  search_loop (suc fuel) closed (x ∷ xs) =
      let (path, q) = top_of tc x xs in
      let final_edge = back path.edges in
      let final = final_edge.endnode_index in
      elim (member final closed) [
        | true ↦ search_loop fuel closed q
        | false ↦ elim (get_node_by_index g final) [
          | none ↦ returned []
          | some final_node ↦ elim (final == goal_id) [
            | true ↦ returned path.edges
            | false ↦
                search_loop fuel (final ∷ closed)
                  (add_to_queue g goal_id speedlimit q final path final_edge.startnode_index)
          ]
        ]
      ]

  unfoldable pub astar_search : ℕ → Outcome F
  unfolding search_loop add_to_queue get_node_by_index edges_from null_edge
  astar_search start_id =
      if start_id == goal_id then returned [] else elim (get_node_by_index g goal_id) [
        | none ↦ returned []
        | some goal_node ↦
            search_loop (search_fuel g) (start_id ∷ [])
              (add_to_queue g goal_id speedlimit [] start_id empty_path 65535)
      ]
