-- ===== src/RoadMap/Graph/Implicit/Access.antt =====
-- Where find_implicit_edges of art_map/src/lib/Graph.cc and the functions that it calls index an
-- array: the accesses within its bounds.
use utexas_art_ros_pkg.Base.{
  ℕ, ◌<◌, ◌≡◌, refl, ap, Bool, true, false, false≢true, not, ◌||◌, List, [], ◌∷◌, if_elim, IsSome,
  and_then_elim, Option-cases, ◌==◌, get_elem?, get_elem?-some, length, All, ℤ, pos, ltb_ℤ, inl,
  inr, arith,
}
use utexas_art_ros_pkg.Numeric.{Floats}
use utexas_art_ros_pkg.RoadMap.WayPoint.{WayPointNode, WayPointEdge}
use utexas_art_ros_pkg.RoadMap.Graph.{Graph}
use utexas_art_ros_pkg.RoadMap.Graph.Passing.{at_int, forbids_from, passing_from, passing_allowed}
use utexas_art_ros_pkg.RoadMap.Graph.Implicit.{
  Facing, both_with, id_after, id_before, compare_lanes, lanes_in_same_direction,
}

-- a direction found to be the same comes with a side
abbrev pub Written : Facing → Type 0
Written d = d.0 ≡ true → IsSome d.1

module _ {F : Type 0} where
  abbrev pub EndsIn : List (WayPointNode F) → WayPointEdge F → Type 0
  EndsIn nodes e = e.endnode_index < length nodes

  forbids_from-IsSome :
      (nodes : List (WayPointNode F)) (n : WayPointNode F) (left : Bool) (e : WayPointEdge F)
      → EndsIn nodes e
      → IsSome (forbids_from nodes n left e)
  unfolding forbids_from
  forbids_from-IsSome nodes n left e h =
      if_elim IsSome (e.startnode_index == n.index)
        (λ _.
          and_then_elim IsSome (get_elem? nodes e.endnode_index) _
            (get_elem?-some nodes e.endnode_index h) (λ m _. (_, refl)))
        (λ _. (false, refl))

  passing_from-IsSome :
      (nodes : List (WayPointNode F)) (node1 node2 : WayPointNode F) (left : Bool)
      (es : List (WayPointEdge F))
      → All (EndsIn nodes) es
      → IsSome (passing_from nodes node1 node2 left es)
  unfolding passing_from
  passing_from-IsSome nodes node1 node2 left [] h = (true, refl)
  passing_from-IsSome nodes node1 node2 left (e ∷ es) h =
      and_then_elim IsSome (forbids_from nodes node1 left e) _
        (forbids_from-IsSome nodes node1 left e h.0)
        λ forbidden _.
          if_elim IsSome forbidden (λ _. (false, refl))
            λ _.
              and_then_elim IsSome (forbids_from nodes node2 (not left) e) _
                (forbids_from-IsSome nodes node2 (not left) e h.0)
                λ forbidden2 _.
                  if_elim IsSome forbidden2 (λ _. (false, refl))
                    (λ _. passing_from-IsSome nodes node1 node2 left es h.1)

  pub passing_allowed-IsSome :
      (g : Graph F) (i m : ℕ) (left : Bool)
      → m < length g.nodes
      → All (EndsIn g.nodes) g.edges
      → IsSome (passing_allowed g (pos i) (pos m) left)
  unfolding passing_allowed
  passing_allowed-IsSome g i m left lm h =
      if_elim IsSome (ltb_ℤ (pos i) (pos 0) || not (ltb_ℤ (pos i) (pos (length g.nodes))))
        (λ _. (false, refl))
        λ f.
          and_then_elim IsSome (get_elem? g.nodes i) _ (get_elem?-some g.nodes i (ground arith))
            λ node1 _.
              and_then_elim IsSome (get_elem? g.nodes m) _ (get_elem?-some g.nodes m lm) λ node2 _.
                if_elim IsSome _ (λ _. (true, refl))
                  (λ _. passing_from-IsSome g.nodes node1 node2 left g.edges h)

module _ {F : Type 0} ⦃fl : Floats F⦄ where
  pub lanes_in_same_direction-Written :
      (g : Graph F) (i m : ℤ) → Written (lanes_in_same_direction g i m)
  unfolding lanes_in_same_direction compare_lanes
  lanes_in_same_direction-Written g i m = elim (Option-cases (at_int g.nodes i)) [
    | inl a ↦ rw (a, lanes_in_same_direction) (λ h. absurd (false≢true h))
    | inr (node1, a) ↦ elim (Option-cases (at_int g.nodes m)) [
      | inl b ↦ rw (a, b, lanes_in_same_direction) (λ h. absurd (false≢true h))
      | inr (node2, b) ↦
          elim (Option-cases (both_with g.nodes (id_after node1.id) (id_after node2.id))) [
            | inr (next, c) ↦ rw (a, b, c, lanes_in_same_direction, compare_lanes) (λ h. (_, refl))
            | inl c ↦
                elim (Option-cases (both_with g.nodes (id_before node1.id) (id_before node2.id))) [
                  | inl d ↦ rw (a, b, c, d, lanes_in_same_direction) (λ h. absurd (false≢true h))
                  | inr (next, d) ↦
                      rw (a, b, c, d, lanes_in_same_direction, compare_lanes) (λ h. (_, refl))
                ]
          ]
    ]
  ]

  pub lanes-nodes :
      (g h : Graph F) (i m : ℤ)
      → h.nodes ≡ g.nodes
      → lanes_in_same_direction h i m ≡ lanes_in_same_direction g i m
  unfolding lanes_in_same_direction
  lanes-nodes g h i m e = ap (λ ns. lanes_in_same_direction (record g { nodes = ns }) i m) e
