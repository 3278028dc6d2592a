-- ===== src/Commander/Search/Chain/Complete.antt =====
-- Completeness of the search of art_nav/src/lib/GraphSearch.cc on a graph with no zone.
use utexas_art_ros_pkg.Base.{
  ℕ, ◌≡◌, ◌≢◌, refl, sym, ◌∙◌, true, false, false≢true, List, [], ◌∷◌, none, some, All, subst,
  arith, Option-cases, ◌⊎◌, inl, inr, ◌==◌, All-lookup,
}
use utexas_art_ros_pkg.Numeric.{Floats}
use utexas_art_ros_pkg.RoadMap.WayPoint.{WayPointNode, WayPointEdge}
use utexas_art_ros_pkg.RoadMap.Graph.{Graph, get_node_by_index, visited}
use utexas_art_ros_pkg.Commander.Search.{
  PossiblePath, TopChoice, member, back, top_of, add_to_queue, search_fuel, empty_path,
  astar_search,
}
use utexas_art_ros_pkg.Commander.Search.Chain.{
  IsOpen, Chain, Leads, All-pop_at, Rule, Returns, search_rule, work-start, add_to_queue-Leads,
}
use utexas_art_ros_pkg.Commander.Search.Chain.Waiting.{
  Pending, Pending-pop_at, Pending-add_to_queue, add_to_queue-Pending, NoZone,
}

member-suc : (i j : ℕ) (closed : List ℕ) → member j closed ≡ true → member j (i ∷ closed) ≡ true
member-suc i j closed h = ground arith

member_self : (i j : ℕ) (closed : List ℕ) → i ≡ j → member j (i ∷ closed) ≡ true
member_self i j closed h = ground arith

member-cases :
    (i j : ℕ) (closed : List ℕ) → member j (i ∷ closed) ≡ true → (i ≡ j) ⊎ (member j closed ≡ true)
member-cases i j closed h = ground arith

module _ {F : Type 0} where
  -- every edge ends at a node
  abbrev pub EndsAtNodes : Graph F → Type 0
  EndsAtNodes g = All (λ e. get_node_by_index g e.endnode_index ≢ none) (visited g)

  Chain-end :
      (g : Graph F) (s t : ℕ) (es : List (WayPointEdge F))
      → EndsAtNodes g
      → get_node_by_index g s ≢ none
      → Chain g s es t
      → get_node_by_index g t ≢ none
  Chain-end g s t [] ends n h = subst (λ x. get_node_by_index g x ≢ none) h n
  Chain-end g s t (e ∷ es) ends n h =
      Chain-end g e.endnode_index t es ends
        (All-lookup (λ (f : WayPointEdge F). get_node_by_index g f.endnode_index ≢ none) (visited g)
          ends h.1.0)
        h.2

module _ {F : Type 0} ⦃fl : Floats F⦄ (tc : TopChoice F) (g : Graph F) (goal_id : ℕ)
    (speedlimit : F) (start : ℕ) where
  record Inv (closed : List ℕ) (q : List (PossiblePath F)) : Type 0 where
    chains : All (Leads g start) q
    origin : member start closed ≡ true
    goal_open : member goal_id closed ≡ false
    covered :
        (e : WayPointEdge F)
        → IsOpen g e
        → member e.startnode_index closed ≡ true
        → (member e.endnode_index closed ≡ true) ⊎ Pending e.endnode_index q

  -- with an empty queue a chain never leaves the closed indices
  stays_closed :
      (closed : List ℕ)
      → Inv closed []
      → (s t : ℕ) (es : List (WayPointEdge F)) → member s closed ≡ true
      → Chain g s es t
      → member t closed ≡ true
  stays_closed closed inv s t [] m h = subst (λ x. member x closed ≡ true) h m
  stays_closed closed inv s t (e ∷ es) m h =
      elim (inv.covered e h.1 (subst (λ x. member x closed ≡ true) (sym h.0) m)) [
        | inl c ↦ stays_closed closed inv e.endnode_index t es c h.2
        | inr p ↦ absurd p
      ]

  module _ (zones : NoZone g) (ends : EndsAtNodes g) (apart : start ≢ goal_id)
      (from : get_node_by_index g start ≢ none) (way : List (WayPointEdge F))
      (leads : Chain g start way goal_id) where
    abbrev Found : List (WayPointEdge F) → Type 0
    Found es = (es ≢ []) × Chain g start es goal_id

    Inv-expand :
        (closed : List ℕ) (x : PossiblePath F) (xs : List (PossiblePath F)) (n : WayPointNode F)
        → let final_edge = back (top_of tc x xs).0.edges in
          Inv closed (x ∷ xs)
          → get_node_by_index g final_edge.endnode_index ≡ some n
          → final_edge.endnode_index ≢ goal_id
          → Inv (final_edge.endnode_index ∷ closed) (
              add_to_queue g goal_id speedlimit
                (top_of tc x xs).1
                final_edge.endnode_index
                (top_of tc x xs).0
                final_edge.startnode_index)
    Inv-expand closed x xs n inv found ne =
        let (leads, rest) = All-pop_at (Leads g start) (tc.top x xs) x xs inv.chains in
        let path = (top_of tc x xs).0 in
        let q = (top_of tc x xs).1 in
        let i = (back path.edges).endnode_index in
        let prev = (back path.edges).startnode_index in
        record {
          chains = add_to_queue-Leads g start goal_id speedlimit q i path prev leads rest;
          origin = member-suc i start closed inv.origin;
          goal_open = ground arith;
          covered = λ e o m. elim (member-cases i e.startnode_index closed m) [
            | inl here ↦ inr (
                add_to_queue-Pending g goal_id speedlimit q i path prev n e zones ends found o
                  (sym here))
            | inr before ↦ elim (inv.covered e o before) [
              | inl c ↦ inl (member-suc i e.endnode_index closed c)
              | inr p ↦ elim (Pending-pop_at e.endnode_index (tc.top x xs) x xs p) [
                | inl same ↦ inl (member_self i e.endnode_index closed same)
                | inr later ↦
                    inr (
                      Pending-add_to_queue g goal_id speedlimit e.endnode_index q i path prev later)
              ]
            ]
          ];
        }

    Found-rule : Rule tc g goal_id speedlimit Inv Found
    Found-rule = record {
      empty = λ closed inv. absurd (
          false≢true
            (sym inv.goal_open ∙ stays_closed closed inv start goal_id way inv.origin leads));
      skip = λ closed x xs inv m. record {
        chains = (All-pop_at (Leads g start) (tc.top x xs) x xs inv.chains).1;
        origin = inv.origin;
        goal_open = inv.goal_open;
        covered = λ e o c. elim (inv.covered e o c) [
          | inl d ↦ inl d
          | inr p ↦ elim (Pending-pop_at e.endnode_index (tc.top x xs) x xs p) [
            | inl same ↦ inl (subst (λ i. member i closed ≡ true) same m)
            | inr later ↦ inr later
          ]
        ];
      };
      missing = λ closed x xs inv n.
          let leads_x = (All-pop_at (Leads g start) (tc.top x xs) x xs inv.chains).0 in
          let path = (top_of tc x xs).0 in
          absurd (Chain-end g start (back path.edges).endnode_index path.edges ends from leads_x n);
      found = λ closed x xs inv e.
          let path = (top_of tc x xs).0 in
          let chain =
            subst (Chain g start path.edges) e
              (All-pop_at (Leads g start) (tc.top x xs) x xs inv.chains).0 in
          (λ nil. apart (subst (λ es. Chain g start es goal_id) nil chain), chain);
      expand = Inv-expand;
    }

    goal_node : (way : List (WayPointEdge F)) → get_node_by_index g goal_id ≢ none
    goal_node w = Chain-end g start goal_id way ends from leads

    Inv-start :
        (n : WayPointNode F)
        → get_node_by_index g start ≡ some n
        → Inv (start ∷ []) (add_to_queue g goal_id speedlimit [] start empty_path 65535)
    Inv-start n e = record {
      chains = add_to_queue-Leads g start goal_id speedlimit [] start empty_path 65535 refl tt;
      origin = member_self start start [] refl;
      goal_open = ground arith;
      covered = λ f o m. elim (member-cases start f.startnode_index [] m) [
        | inl here ↦ inr (
            add_to_queue-Pending g goal_id speedlimit [] start empty_path 65535 n f zones ends e o
              (sym here))
        | inr before ↦ cc
      ];
    }

    -- On a graph with no zone, each edge of which ends at a node, the search from a node finds a way
    -- to another one whenever some chain of open edges leads there: it returns such a chain.
    pub astar_search_complete :
        Returns
          (astar_search tc g goal_id speedlimit start)
          (λ es. (es ≢ []) × Chain g start es goal_id)
    unfolding astar_search
    astar_search_complete = elim (Option-cases (get_node_by_index g start)) [
      | inl n ↦ absurd (from n)
      | inr (origin, n) ↦ elim (Option-cases (get_node_by_index g goal_id)) [
        | inl m ↦ absurd (goal_node way m)
        | inr (node, m) ↦
            rw (apart_test, m, astar_search)
              (search_rule tc g goal_id speedlimit Inv Found Found-rule (search_fuel g) (start ∷ [])
                (add_to_queue g goal_id speedlimit [] start empty_path 65535)
                (work-start g goal_id speedlimit start empty_path 65535) (Inv-start origin n))
      ]
    ]
      where
        apart_test : (start == goal_id) ≡ false
        apart_test = ground arith
