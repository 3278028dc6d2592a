-- ===== src/Commander/Search/Chain/Queue.antt =====
-- What the queue holds: chains of open edges of the graph, art_nav/src/lib/GraphSearch.cc.
use mathlib.Core.List.{Memᴰ}
use utexas_art_ros_pkg.Base.{
  ℕ, zero, suc, ◌≡◌, refl, sym, true, false, List, [], ◌∷◌, ◌++◌, Option, All, Option-cases, inl,
  inr, ◌==◌, ==_iff, All-mono, All-filter, All-Memᴰ, last_or, if_elim, subst,
}
use utexas_art_ros_pkg.Numeric.{Floats}
use utexas_art_ros_pkg.RoadMap.WayPoint.{WayPointNode, WayPointEdge}
use utexas_art_ros_pkg.RoadMap.Graph.{Graph, get_node_by_index, edges_from, visited}
use utexas_art_ros_pkg.Commander.Search.{
  PossiblePath, pop_at, back, extend, offer, push_edges, add_to_queue, turns_around,
}

pub All-pop_at {ℓ κ} :
    {A : Type ℓ} (P : A → Type κ) (i : ℕ) (x : A) (xs : List A)
    → All P (x ∷ xs)
    → P (pop_at i x xs).0 × All P (pop_at i x xs).1
All-pop_at P zero x xs h = h
All-pop_at P (suc i) x [] h = h
All-pop_at P (suc i) x (y ∷ ys) h = let rest = All-pop_at P i y ys h.1 in (rest.0, (h.0, rest.1))

module _ {F : Type 0} where
  -- an edge of the graph that is not blocked
  abbrev pub IsOpen : Graph F → WayPointEdge F → Type 0
  IsOpen g e = Memᴰ e (visited g) × (e.blocked ≡ false)

  -- A chain of open edges from one index to another.
  abbrev pub Chain : Graph F → ℕ → List (WayPointEdge F) → ℕ → Type 0
  Chain g s [] t = s ≡ t
  Chain g s (e ∷ es) t = (e.startnode_index ≡ s) × IsOpen g e × Chain g e.endnode_index es t

  pub Chain-append :
      (g : Graph F) (s t u : ℕ) (es fs : List (WayPointEdge F))
      → Chain g s es t
      → Chain g t fs u
      → Chain g s (es ++ fs) u
  Chain-append g s t u [] fs h k = subst (λ x. Chain g x fs u) (sym h) k
  Chain-append g s t u (e ∷ es) fs h k = (h.0, h.1, Chain-append g e.endnode_index t u es fs h.2 k)

  last_or-concat :
      (x e : WayPointEdge F) (es : List (WayPointEdge F)) → last_or x (es ++ e ∷ []) ≡ e
  last_or-concat x e [] = refl
  last_or-concat x e (y ∷ es) = last_or-concat y e es

module _ {F : Type 0} ⦃fl : Floats F⦄ where
  pub back-concat : (e : WayPointEdge F) (es : List (WayPointEdge F)) → back (es ++ e ∷ []) ≡ e
  back-concat e [] = refl
  back-concat e (y ∷ es) = last_or-concat y e es

  -- a path of the queue: a chain that has an edge
  abbrev pub Leads : Graph F → ℕ → PossiblePath F → Type 0
  Leads g s p = Chain g s p.edges (back p.edges).endnode_index

  extend-Leads :
      (g : Graph F) (s : ℕ) (old : PossiblePath F) (e : WayPointEdge F) (goal_id : ℕ)
      (speedlimit : F)
      → Chain g s old.edges e.startnode_index
      → IsOpen g e
      → Leads g s (extend g old e goal_id speedlimit)
  unfolding extend
  extend-Leads g s old e goal_id speedlimit h o =
      rw (back-concat e old.edges) (Chain-append g s _ _ old.edges (e ∷ []) h (refl, o, refl))

  module _ (g : Graph F) (s goal_id : ℕ) (speedlimit : F) where
    offer-Leads :
        (prev : Option (WayPointNode F)) (from : WayPointNode F) (old : PossiblePath F)
        (e : WayPointEdge F) (next : WayPointNode F) (q : List (PossiblePath F))
        → Chain g s old.edges e.startnode_index
        → Memᴰ e (visited g)
        → All (Leads g s) q
        → All (Leads g s) (offer g goal_id speedlimit prev from old e next q)
    offer-Leads prev from old e next q h m hq =
        if_elim (All (Leads g s)) (turns_around prev from next) (λ _. hq)
          λ _.
            if_elim (All (Leads g s)) e.blocked (λ _. hq)
              λ b. (extend-Leads g s old e goal_id speedlimit h (m, b), hq)

    push_edges-Leads :
        (prev : Option (WayPointNode F)) (from : WayPointNode F) (old : PossiblePath F) (i : ℕ)
        (q : List (PossiblePath F)) (es : List (WayPointEdge F))
        → Chain g s old.edges i
        → All (λ e. Memᴰ e (visited g) × (e.startnode_index ≡ i)) es
        → All (Leads g s) q
        → All (Leads g s) (push_edges g goal_id speedlimit prev from old q es)
    unfolding push_edges
    push_edges-Leads prev from old i q [] h m hq = hq
    push_edges-Leads prev from old i q (e ∷ es) h m hq =
        elim (Option-cases (get_node_by_index g e.endnode_index)) [
          | inl n ↦ rw (n, push_edges) hq
          | inr (next, n) ↦
              rw (n, push_edges)
                (push_edges-Leads prev from old i
                  (offer g goal_id speedlimit prev from old e next q) es h m.1
                  (offer-Leads prev from old e next q (subst (Chain g s old.edges) (sym m.0.1) h)
                    m.0.0 hq))
        ]

    edges_from-start :
        (i : ℕ) → All (λ e. Memᴰ e (visited g) × (e.startnode_index ≡ i)) (edges_from g i)
    unfolding edges_from
    edges_from-start i =
        All-mono (λ e. Memᴰ e (visited g) × ((e.startnode_index == i) ≡ true))
          (λ e. Memᴰ e (visited g) × (e.startnode_index ≡ i))
          (λ e m. (m.0, (==_iff e.startnode_index i).0 m.1)) (edges_from g i)
          (All-filter (λ e. Memᴰ e (visited g)) (λ e. e.startnode_index == i) (visited g)
            (All-Memᴰ (visited g)))

    pub add_to_queue-Leads :
        (q : List (PossiblePath F)) (i : ℕ) (old : PossiblePath F) (prev : ℕ)
        → Chain g s old.edges i
        → All (Leads g s) q
        → All (Leads g s) (add_to_queue g goal_id speedlimit q i old prev)
    unfolding add_to_queue
    add_to_queue-Leads q i old prev h hq = elim (Option-cases (get_node_by_index g i)) [
      | inl n ↦ rw (n, add_to_queue) hq
      | inr (from, n) ↦
          rw (n, add_to_queue)
            (push_edges-Leads (get_node_by_index g prev) from old i q (edges_from g i) h
              (edges_from-start i) hq)
    ]
