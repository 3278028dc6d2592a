-- ===== src/RoadMap/Graph/Implicit/Side.antt =====
-- The way-point beside another one: the loop of the left case of find_implicit_edges of
-- art_map/src/lib/Graph.cc.
use mathlib.Core.Option.{some-injective}
use utexas_art_ros_pkg.Base.{
  ℕ, suc, ◌≡◌, refl, sym, ap, subst, ◌∙◌, Bool, true, false, ◌&&◌, List, [], ◌∷◌, ◌++◌,
  append_assoc, Option, none, some, if◌then◌else◌, get_elem?, length, length-append,
  get_elem?-append, ℤ, eqb_ℤ_iff, ◌-ℤ◌, pos, Bool-cases, contrapose, if_elim, &&-eq-true, below_suc,
  append-nil, ◌<◌, inl, inr, not, ◌==◌, eqb_ℤ, arith,
}
use utexas_art_ros_pkg.Numeric.{Floats}
use utexas_art_ros_pkg.RoadMap.WayPoint.{WayPointNode, distance_to}
use utexas_art_ros_pkg.RoadMap.Graph.{Graph}
use utexas_art_ros_pkg.RoadMap.Graph.Implicit.{beside, nearest_from, left_dist, left_index}

&&-false_right : (a b : Bool) → a ≡ true → (a && b) ≡ false → b ≡ false
&&-false_right a b h f = ground arith

module _ {F : Type 0} where
  -- an array position of such a node
  abbrev pub Beside : List (WayPointNode F) → ℤ → WayPointNode F → ℕ → ℕ → Type 0
  Beside nodes lane node1 i k =
      (node2 : WayPointNode F) × (get_elem? nodes k ≡ some node2)
      × (beside lane node1 i k node2 ≡ true)

  pub beside-same :
      (lane : ℤ) (node1 : WayPointNode F) (i k : ℕ) (node2 : WayPointNode F)
      → beside lane node1 i k node2 ≡ true
      → (node1.id.seg ≡ node2.id.seg) × (lane ≡ node2.id.lane)
  unfolding beside
  beside-same lane node1 i k node2 b =
      let segs = eqb_ℤ node1.id.seg node2.id.seg in
      let outer = &&-eq-true (not (i == k) && segs) (eqb_ℤ lane node2.id.lane) b in
      (
        (eqb_ℤ_iff node1.id.seg node2.id.seg).0 (&&-eq-true (not (i == k)) segs outer.0).1,
        (eqb_ℤ_iff lane node2.id.lane).0 outer.1,
      )

  -- what a case has found, if anything, is such a node
  abbrev pub Found : List (WayPointNode F) → ℤ → WayPointNode F → ℕ → Option ℕ → Type 0
  Found nodes lane node1 i none = Unit
  Found nodes lane node1 i (some m) = Beside nodes lane node1 i m

  pub at_length :
      {nodes : List (WayPointNode F)} (before : List (WayPointNode F)) (n : WayPointNode F)
      (rest : List (WayPointNode F)) (j : ℕ)
      → nodes ≡ before ++ (n ∷ rest)
      → j ≡ length before
      → get_elem? nodes j ≡ some n
  at_length before n rest j split at =
      ap (λ ns. get_elem? ns j) split
      ∙ (ap (get_elem? (before ++ (n ∷ rest))) at ∙ get_elem?-append before n rest)

module _ {F : Type 0} ⦃fl : Floats F⦄ (nodes : List (WayPointNode F)) (lane : ℤ)
    (node1 : WayPointNode F) (i : ℕ) where
  module _ (curr_dist : WayPointNode F → WayPointNode F → F → F) where
    Found-next :
        (before : List (WayPointNode F)) (node2 : WayPointNode F) (rest : List (WayPointNode F))
        (j : ℕ) (close : Bool) (found : Option ℕ)
        → nodes ≡ before ++ (node2 ∷ rest)
        → j ≡ length before
        → Found nodes lane node1 i found
        → Found nodes lane node1 i (if beside lane node1 i j node2 && close then some j else found)
    Found-next before node2 rest j close found split at h =
        if_elim (Found nodes lane node1 i) (beside lane node1 i j node2 && close)
          (λ t. (
            node2,
            at_length before node2 rest j split at,
            (&&-eq-true (beside lane node1 i j node2) close t).0,
          ))
          (λ _. h)

    pub nearest_from-Found :
        (before rest : List (WayPointNode F)) (j : ℕ) (min_dist : F) (found : Option ℕ)
        → nodes ≡ before ++ rest
        → j ≡ length before
        → Found nodes lane node1 i found
        → Found nodes lane node1 i (nearest_from curr_dist lane node1 i j rest min_dist found)
    unfolding nearest_from
    nearest_from-Found before [] j min_dist found split at h = h
    nearest_from-Found before (node2 ∷ rest) j min_dist found split at h =
        let dist = curr_dist node1 node2 min_dist in
        let close = fl.lt dist min_dist in
        let nearer = beside lane node1 i j node2 && close in
        nearest_from-Found (before ++ (node2 ∷ [])) rest (suc j) (if nearer then dist else min_dist)
          (if nearer then some j else found) (split ∙ sym (append_assoc before (node2 ∷ []) rest))
          (omega (arith, at, length-append before (node2 ∷ [])))
          (Found-next before node2 rest j close found split at h)

  -- The distance `d` is the least from the node to the first `count` nodes that the left case
  -- considers, and `found` is where it is reached; it is FLT_MAX if there is none nearer.
  abbrev Value : Option ℕ → F → Type 0
  Value none d = d ≡ fl.flt_max
  Value (some m) d =
      (n : WayPointNode F) × (get_elem? nodes m ≡ some n)
      × (beside lane node1 i m n ≡ true)
      × (d ≡ distance_to node1.map n.map)

  -- the node at a position is not considered, or not nearer than `d`
  abbrev pub NotNearer : F → ℕ → Type 0
  NotNearer d k =
      (n : WayPointNode F)
      → get_elem? nodes k ≡ some n
      → beside lane node1 i k n ≡ true
      → fl.lt (distance_to node1.map n.map) d ≡ false

  NotNearer-same :
      (d : F) (k : ℕ) (n : WayPointNode F)
      → get_elem? nodes k ≡ some n
      → (beside lane node1 i k n ≡ true → fl.lt (distance_to node1.map n.map) d ≡ false)
      → NotNearer d k
  NotNearer-same d k n e h m at =
      subst (λ x. beside lane node1 i k x ≡ true → fl.lt (distance_to node1.map x.map) d ≡ false)
        (some-injective _ _ (sym e ∙ at)) h

  pub record Nearest (count : ℕ) (found : Option ℕ) (d : F) : Type 0 where
    pub least : (k : ℕ) → k < count → NotNearer d k
    pub value : Value found d

  module _ (lt_irrefl : (a : F) → fl.lt a a ≡ false)
      (lt_trans : (a b c : F) → fl.lt a b ≡ true → fl.lt b c ≡ true → fl.lt a c ≡ true) where
    not_below : (a b c : F) → fl.lt a c ≡ false → fl.lt b c ≡ true → fl.lt a b ≡ false
    not_below a b c h t = contrapose (fl.lt a b) (fl.lt a c) (λ e. lt_trans a b c e t) h

    Nearest-next :
        (before : List (WayPointNode F)) (node2 : WayPointNode F) (rest : List (WayPointNode F))
        (j : ℕ) (found : Option ℕ) (d : F)
        → nodes ≡ before ++ (node2 ∷ rest)
        → j ≡ length before
        → Nearest j found d
        → let dist = distance_to node1.map node2.map in
          let nearer = beside lane node1 i j node2 && fl.lt dist d in
          Nearest (suc j) (if nearer then some j else found) (if nearer then dist else d)
    Nearest-next before node2 rest j found d split at h =
        let here = at_length before node2 rest j split at in
        let side = beside lane node1 i j node2 in
        elim (Bool-cases (side && fl.lt (distance_to node1.map node2.map) d)) [
          | inl t ↦
              let (s, close) = &&-eq-true side (fl.lt (distance_to node1.map node2.map) d) t in
              rw t (record {
                least =
                    below_suc (NotNearer (distance_to node1.map node2.map)) j
                      (λ k l n e b.
                        not_below (distance_to node1.map n.map) (distance_to node1.map node2.map) d
                          (h.least k l n e b) close)
                      (NotNearer-same (distance_to node1.map node2.map) j node2 here
                        (λ _. lt_irrefl (distance_to node1.map node2.map)));
                value = (node2, here, s, refl);
              })
          | inr f ↦ rw f (record {
            least = below_suc (NotNearer d) j h.least (
                NotNearer-same d j node2 here
                  (λ b. &&-false_right side (fl.lt (distance_to node1.map node2.map) d) b f));
            value = h.value;
          })
        ]

    nearest_from-Nearest :
        (before rest : List (WayPointNode F)) (j : ℕ) (found : Option ℕ) (d : F)
        → nodes ≡ before ++ rest
        → j ≡ length before
        → Nearest j found d
        → (dist : F) × Nearest
            (length nodes)
            (nearest_from left_dist lane node1 i j rest d found)
            dist
    unfolding nearest_from
    nearest_from-Nearest before [] j found d split at h = (
      d,
      subst (λ k. Nearest k found d)
          (at ∙ ap length (sym (append-nil before)) ∙ ap length (sym split)) h,
    )
    nearest_from-Nearest before (node2 ∷ rest) j found d split at h =
        let dist = distance_to node1.map node2.map in
        let nearer = beside lane node1 i j node2 && fl.lt dist d in
        nearest_from-Nearest (before ++ (node2 ∷ [])) rest (suc j)
          (if nearer then some j else found) (if nearer then dist else d)
          (split ∙ sym (append_assoc before (node2 ∷ []) rest))
          (omega (arith, at, length-append before (node2 ∷ [])))
          (Nearest-next before node2 rest j found d split at h)

module _ {F : Type 0} ⦃fl : Floats F⦄ (lt_irrefl : (a : F) → fl.lt a a ≡ false)
    (lt_trans : (a b c : F) → fl.lt a b ≡ true → fl.lt b c ≡ true → fl.lt a c ≡ true) where
  -- On distances that are ordered, the left case of find_implicit_edges finds the position of
  -- another node of the node's segment, in the lane with the next lower number, than which no such
  -- node is nearer; if it finds none, no such node is nearer than FLT_MAX.
  pub left_index-Nearest :
      (g : Graph F) (i : ℕ) (node1 : WayPointNode F)
      → (d : F) × Nearest g.nodes
          (node1.id.lane -ℤ pos 1)
          node1
          i
          (length g.nodes)
          (left_index g i node1)
          d
  left_index-Nearest g i node1 =
      nearest_from-Nearest g.nodes (node1.id.lane -ℤ pos 1) node1 i lt_irrefl lt_trans [] g.nodes 0
        none fl.flt_max refl refl (record { least = λ k l. absurd (omega arith); value = refl })
