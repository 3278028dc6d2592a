-- ===== src/Commander/Search/Chain/Waiting.antt =====
-- Which indices the paths of the queue lead to, art_nav/src/lib/GraphSearch.cc.
use mathlib.Core.List.{Memᴰ}
use mathlib.Core.List.Memᴰ
use utexas_art_ros_pkg.Base.{
  ℕ, zero, suc, ◌≡◌, ◌≢◌, sym, ap, Bool, false, List, [], ◌∷◌, Option, none, some, All, subst,
  arith, Bool-cases, Option-cases, ◌⊎◌, inl, inr, ◌==◌, ==_iff, pos, eqb_ℤ, if_elim, Memᴰ-filter,
  All-filter_mono,
}
use utexas_art_ros_pkg.Numeric.{Floats}
use utexas_art_ros_pkg.RoadMap.WayPoint.{WayPointNode, WayPointEdge}
use utexas_art_ros_pkg.RoadMap.Graph.{Graph, find_node, get_node_by_index, visited, edges_from}
use utexas_art_ros_pkg.Commander.Search.{
  PossiblePath, pop_at, back, extend, offer, push_edges, add_to_queue, turns_around,
}
use utexas_art_ros_pkg.Commander.Search.Chain.{IsOpen, back-concat}

module _ {F : Type 0} where
  -- no way-point lies in a zone
  abbrev pub NoZone : Graph F → Type 0
  NoZone g = All (λ n. eqb_ℤ n.id.lane (pos 0) ≡ false) g.nodes

  find_node-All :
      (P : WayPointNode F → Type 0) (p : WayPointNode F → Bool) (ns : List (WayPointNode F))
      (n : WayPointNode F)
      → All P ns
      → find_node p ns ≡ some n
      → P n
  unfolding find_node
  find_node-All P p [] n h e = cc
  find_node-All P p (m ∷ ns) n h e = elim (Bool-cases (p m)) [
    | inl t ↦ subst P (ground arith) h.0
    | inr t ↦ find_node-All P p ns n h.1 (ground arith)
  ]

  turns_around-false :
      (g : Graph F) (i : ℕ) (prev : Option (WayPointNode F)) (from next : WayPointNode F)
      → NoZone g
      → get_node_by_index g i ≡ some from
      → turns_around prev from next ≡ false
  unfolding turns_around get_node_by_index
  turns_around-false g i prev from next z e = ground (
    arith,
    find_node-All (λ n. eqb_ℤ n.id.lane (pos 0) ≡ false) (λ n. n.index == i) g.nodes from z e,
  )

module _ {F : Type 0} ⦃fl : Floats F⦄ where
  -- some path of the queue leads to an index
  abbrev pub Pending : ℕ → List (PossiblePath F) → Type 0
  Pending v [] = ⊥
  Pending v (x ∷ xs) = ((back x.edges).endnode_index ≡ v) ⊎ Pending v xs

  pub Pending-pop_at :
      (v i : ℕ) (x : PossiblePath F) (xs : List (PossiblePath F))
      → Pending v (x ∷ xs)
      → ((back (pop_at i x xs).0.edges).endnode_index ≡ v) ⊎ Pending v (pop_at i x xs).1
  Pending-pop_at v zero x xs h = h
  Pending-pop_at v (suc i) x [] h = h
  Pending-pop_at v (suc i) x (y ∷ ys) (inl e) = inr (inl e)
  Pending-pop_at v (suc i) x (y ∷ ys) (inr h) = elim (Pending-pop_at v i y ys h) [
    | inl e ↦ inl e
    | inr p ↦ inr (inr p)
  ]

  module _ (g : Graph F) (goal_id : ℕ) (speedlimit : F) where
    Pending-offer :
        (v : ℕ) (prev : Option (WayPointNode F)) (from : WayPointNode F) (old : PossiblePath F)
        (e : WayPointEdge F) (next : WayPointNode F) (q : List (PossiblePath F))
        → Pending v q
        → Pending v (offer g goal_id speedlimit prev from old e next q)
    Pending-offer v prev from old e next q p =
        if_elim (Pending v) (turns_around prev from next) (λ _. p)
          λ _. if_elim (Pending v) e.blocked (λ _. p) λ _. inr p

    offer-Pending :
        (prev : Option (WayPointNode F)) (from : WayPointNode F) (old : PossiblePath F)
        (e : WayPointEdge F) (next : WayPointNode F) (q : List (PossiblePath F))
        → turns_around prev from next ≡ false
        → e.blocked ≡ false
        → Pending e.endnode_index (offer g goal_id speedlimit prev from old e next q)
    unfolding extend
    offer-Pending prev from old e next q t b =
        if_elim (Pending e.endnode_index) (turns_around prev from next) (λ f. cc)
          λ _.
            if_elim (Pending e.endnode_index) e.blocked (λ f. cc)
              λ _. inl (ap (λ (f : WayPointEdge F). f.endnode_index) (back-concat e old.edges))

    Pending-push_edges :
        (v : ℕ) (prev : Option (WayPointNode F)) (from : WayPointNode F) (old : PossiblePath F)
        (q : List (PossiblePath F)) (es : List (WayPointEdge F))
        → Pending v q
        → Pending v (push_edges g goal_id speedlimit prev from old q es)
    unfolding push_edges
    Pending-push_edges v prev from old q [] p = p
    Pending-push_edges v prev from old q (e ∷ es) p =
        elim (Option-cases (get_node_by_index g e.endnode_index)) [
          | inl n ↦ rw (n, push_edges) p
          | inr (next, n) ↦
              rw (n, push_edges)
                (Pending-push_edges v prev from old
                  (offer g goal_id speedlimit prev from old e next q) es
                  (Pending-offer v prev from old e next q p))
        ]

    pub Pending-add_to_queue :
        (v : ℕ) (q : List (PossiblePath F)) (i : ℕ) (old : PossiblePath F) (prev : ℕ)
        → Pending v q
        → Pending v (add_to_queue g goal_id speedlimit q i old prev)
    unfolding add_to_queue
    Pending-add_to_queue v q i old prev p = elim (Option-cases (get_node_by_index g i)) [
      | inl n ↦ rw (n, add_to_queue) p
      | inr (from, n) ↦
          rw (n, add_to_queue)
            (Pending-push_edges v (get_node_by_index g prev) from old q (edges_from g i) p)
    ]

    push_edges-Pending :
        (prev : Option (WayPointNode F)) (from : WayPointNode F) (old : PossiblePath F)
        (q : List (PossiblePath F)) (es : List (WayPointEdge F)) (e : WayPointEdge F)
        → ((next : WayPointNode F) → turns_around prev from next ≡ false)
        → All (λ f. get_node_by_index g f.endnode_index ≢ none) es
        → Memᴰ e es
        → e.blocked ≡ false
        → Pending e.endnode_index (push_edges g goal_id speedlimit prev from old q es)
    unfolding push_edges
    push_edges-Pending prev from old q [] e t ends m b = absurd (Memᴰ.not-nil m)
    push_edges-Pending prev from old q (f ∷ es) e t ends m b =
        elim (Option-cases (get_node_by_index g f.endnode_index)) [
          | inl n ↦ absurd (ends.0 n)
          | inr (next, n) ↦
              let q' = offer g goal_id speedlimit prev from old f next q in
              rw (n, push_edges)
                (elim (Memᴰ.cases_cons m) [
                  | inl same ↦ Pending-push_edges e.endnode_index prev from old q' es (
                      subst (λ (d : WayPointEdge F). Pending d.endnode_index q') (sym same)
                        (offer-Pending prev from old f next q (t next)
                          (subst (λ (d : WayPointEdge F). d.blocked ≡ false) same b)))
                  | inr later ↦ push_edges-Pending prev from old q' es e t ends.1 later b
                ])
        ]

    -- an open edge from the index is followed
    pub add_to_queue-Pending :
        (q : List (PossiblePath F)) (i : ℕ) (old : PossiblePath F) (prev : ℕ)
        (from : WayPointNode F) (e : WayPointEdge F)
        → NoZone g
        → All (λ f. get_node_by_index g f.endnode_index ≢ none) (visited g)
        → get_node_by_index g i ≡ some from
        → IsOpen g e
        → e.startnode_index ≡ i
        → Pending e.endnode_index (add_to_queue g goal_id speedlimit q i old prev)
    unfolding add_to_queue edges_from
    add_to_queue-Pending q i old prev from e z ends n o s =
        rw (n, add_to_queue)
          (push_edges-Pending (get_node_by_index g prev) from old q (edges_from g i) e
            (λ next. turns_around-false g i (get_node_by_index g prev) from next z n)
            (All-filter_mono (λ f. get_node_by_index g f.endnode_index ≢ none)
              (λ f. f.startnode_index == i) (visited g) ends)
            (Memᴰ-filter (λ f. f.startnode_index == i) (visited g) o.0 ((==_iff _ _).1 s)) o.1)
