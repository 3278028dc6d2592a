-- ===== src/Commander/Search/Chain.antt =====
-- The main loop of the search of art_nav/src/lib/GraphSearch.cc by one rule, and what is returned:
-- a chain of open edges, or nothing.
mod Queue
mod Fuel
pub mod Complete
pub mod Waiting
pub use Queue.*
pub use Fuel.*
use utexas_art_ros_pkg.Base.{
  ℕ, zero, suc, ◌<◌, ◌≤◌, ◌+◌, ◌*◌, ◌≡◌, ◌≢◌, refl, Bool, true, false, List, [], ◌∷◌, Option, none,
  some, arith, Bool-cases, Option-cases, inl, inr, ◌==◌, ==_iff, length, ◌⊎◌, All, subst,
}
use utexas_art_ros_pkg.Numeric.{Floats}
use utexas_art_ros_pkg.RoadMap.WayPoint.{WayPointNode, WayPointEdge}
use utexas_art_ros_pkg.RoadMap.Graph.{Graph, get_node_by_index, visited}
use utexas_art_ros_pkg.Commander.Search.{
  PossiblePath, TopChoice, Outcome, returned, out_of_fuel, member, back, top_of, search_loop,
  add_to_queue, search_fuel, empty_path, astar_search,
}

-- The search returned, with a result that has a property.
abbrev pub Returns : {F : Type 0} → Outcome F → (List (WayPointEdge F) → Type 0) → Type 0
Returns (returned es) P = P es
Returns out_of_fuel P = ⊥

module _ {F : Type 0} ⦃fl : Floats F⦄ (tc : TopChoice F) (g : Graph F) (goal_id : ℕ)
    (speedlimit : F) where
  -- What an invariant of the loop owes on each branch of a round.
  pub record Rule (Inv : List ℕ → List (PossiblePath F) → Type 0)
      (Post : List (WayPointEdge F) → Type 0) : Type 0 where
    pub empty : (closed : List ℕ) → Inv closed [] → Post []
    pub skip :
        (closed : List ℕ) (x : PossiblePath F) (xs : List (PossiblePath F))
        → Inv closed (x ∷ xs)
        → member (back (top_of tc x xs).0.edges).endnode_index closed ≡ true
        → Inv closed (top_of tc x xs).1
    pub missing :
        (closed : List ℕ) (x : PossiblePath F) (xs : List (PossiblePath F))
        → Inv closed (x ∷ xs)
        → get_node_by_index g (back (top_of tc x xs).0.edges).endnode_index ≡ none
        → Post []
    pub found :
        (closed : List ℕ) (x : PossiblePath F) (xs : List (PossiblePath F))
        → Inv closed (x ∷ xs)
        → (back (top_of tc x xs).0.edges).endnode_index ≡ goal_id
        → Post (top_of tc x xs).0.edges
    pub expand :
        (closed : List ℕ) (x : PossiblePath F) (xs : List (PossiblePath F)) (n : WayPointNode F)
        → let final_edge = back (top_of tc x xs).0.edges in
          Inv closed (x ∷ xs)
          → get_node_by_index g final_edge.endnode_index ≡ some n
          → final_edge.endnode_index ≢ goal_id
          → Inv (final_edge.endnode_index ∷ closed) (
              add_to_queue g goal_id speedlimit
                (top_of tc x xs).1
                final_edge.endnode_index
                (top_of tc x xs).0
                final_edge.startnode_index)

  pub search_rule :
      (Inv : List ℕ → List (PossiblePath F) → Type 0) (Post : List (WayPointEdge F) → Type 0)
      → Rule Inv Post
      → (fuel : ℕ) (closed : List ℕ) (q : List (PossiblePath F)) → work g closed q < fuel
      → Inv closed q
      → Returns (search_loop tc g goal_id speedlimit fuel closed q) Post
  unfolding search_loop
  search_rule Inv Post r zero closed q w i = absurd (omega arith)
  search_rule Inv Post r (suc fuel) closed [] w i = r.empty closed i
  search_rule Inv Post r (suc fuel) closed (x ∷ xs) w i =
      let path = (top_of tc x xs).0 in
      let q = (top_of tc x xs).1 in
      let start = (back path.edges).startnode_index in
      let final = (back path.edges).endnode_index in
      elim (Bool-cases (member final closed)) [
        | inl m ↦
            rw (m, search_loop)
              (search_rule Inv Post r fuel closed q
                (omega (arith, length-pop_at (tc.top x xs) x xs)) (r.skip closed x xs i m))
        | inr m ↦ elim (Option-cases (get_node_by_index g final)) [
          | inl n ↦ rw (m, n, search_loop) (r.missing closed x xs i n)
          | inr (node, n) ↦ elim (Bool-cases (final == goal_id)) [
            | inl e ↦ rw (m, n, e, search_loop) (r.found closed x xs i ((==_iff _ _).0 e))
            | inr e ↦
                rw (m, n, e, search_loop)
                  (search_rule Inv Post r fuel (final ∷ closed)
                    (add_to_queue g goal_id speedlimit q final path start)
                    (omega (
                      arith,
                      length-pop_at (tc.top x xs) x xs,
                      work-expand g goal_id speedlimit closed x q final path start node m n,
                    ))
                    (r.expand closed x xs node i n (ground (arith))))
          ]
        ]
      ]

  Chain-rule :
      (start : ℕ)
      → Rule (λ closed q. All (Leads g start) q) (λ es. (es ≡ []) ⊎ Chain g start es goal_id)
  Chain-rule start = record {
    empty = λ closed i. inl refl;
    skip = λ closed x xs i m. (All-pop_at (Leads g start) (tc.top x xs) x xs i).1;
    missing = λ closed x xs i n. inl refl;
    found = λ closed x xs i e.
        let path = (top_of tc x xs).0 in
        inr
          (subst (Chain g start path.edges) e (All-pop_at (Leads g start) (tc.top x xs) x xs i).0);
    expand = λ closed x xs n i found ne.
        let (leads, rest) = All-pop_at (Leads g start) (tc.top x xs) x xs i in
        let path = (top_of tc x xs).0 in
        add_to_queue-Leads g start goal_id speedlimit (top_of tc x xs).1
          (back path.edges).endnode_index path (back path.edges).startnode_index leads rest;
  }

  -- The search returns, for every graph, and what it returns is empty or a chain of open edges of
  -- the graph that leads from the start to the goal.
  pub astar_search-Chain :
      (start_id : ℕ)
      → Returns
          (astar_search tc g goal_id speedlimit start_id)
          (λ es. (es ≡ []) ⊎ Chain g start_id es goal_id)
  unfolding astar_search
  astar_search-Chain start_id = elim (Bool-cases (start_id == goal_id)) [
    | inl e ↦ rw e (inl refl)
    | inr e ↦ rw e (elim (Option-cases (get_node_by_index g goal_id)) [
      | inl n ↦ rw (n, astar_search) (inl refl)
      | inr (node, n) ↦
          rw (n, astar_search)
            (search_rule _ _ (Chain-rule start_id) (search_fuel g) (start_id ∷ [])
              (add_to_queue g goal_id speedlimit [] start_id empty_path 65535)
              (work-start g goal_id speedlimit start_id empty_path 65535)
              (add_to_queue-Leads g start_id goal_id speedlimit [] start_id empty_path 65535 refl
                tt))
    ])
  ]
