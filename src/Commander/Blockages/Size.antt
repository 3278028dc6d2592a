-- ===== src/Commander/Blockages/Size.antt =====
-- The count of edges that the graph keeps beside its vector stays right while
-- art_nav/src/commander/Blockage.cc changes the graph.
use utexas_art_ros_pkg.Base.{
  ℕ, zero, suc, ◌+◌, ◌<◌, ◌≡◌, refl, ap, Bool, List, [], ◌∷◌, Option, none, some, if◌then◌else◌,
  length, length-append, arith, Option-cases, List-cases, inl, inr, get_elem?, get_elem?-some,
  if_elim, erase_idx, length-erase_idx,
}
use utexas_art_ros_pkg.Numeric.{Floats}
use utexas_art_ros_pkg.RoadMap.Element.{ElementId, id_eq}
use utexas_art_ros_pkg.RoadMap.WayPoint.{WayPointEdge}
use utexas_art_ros_pkg.RoadMap.Graph.{Graph}
use utexas_art_ros_pkg.Commander.Route.{Route, edge_at}
use utexas_art_ros_pkg.Commander.Blockages.{
  Block, unblock_first, erase_first, unblock, delete, for_each, lift, pop_block, mark_edges,
  mark_for, detours, first_best, oldest, pop_oldest, block_from, add_block, last_index,
  is_other_side,
}

module _ {F : Type 0} where
  abbrev pub IsSized : Graph F → Type 0
  IsSized g = g.edges_size ≡ length g.edges

  length-unblock_first :
      (b : WayPointEdge F) (n : ℕ) (es : List (WayPointEdge F))
      → length (unblock_first b n es) ≡ length es
  unfolding unblock_first
  length-unblock_first b zero es = refl
  length-unblock_first b (suc n) [] = refl
  length-unblock_first b (suc n) (e ∷ es) = ground (arith, length-unblock_first b n es)

  length-erase_first :
      (b : WayPointEdge F) (n : ℕ) (es : List (WayPointEdge F))
      → n ≡ length es
      → (erase_first b n es).1 ≡ length (erase_first b n es).0
  unfolding erase_first
  length-erase_first b zero es h = h
  length-erase_first b (suc n) [] h = absurd (omega arith)
  length-erase_first b (suc n) (e ∷ es) h = ground (arith, length-erase_first b n es)

  for_each_inv :
      (P : Graph F → Type 0) (f : Graph F → WayPointEdge F → Graph F)
      → ((g : Graph F) (b : WayPointEdge F) → P g → P (f g b))
      → (g : Graph F) (bs : List (WayPointEdge F)) → P g
      → P (for_each f g bs)
  unfolding for_each
  for_each_inv P f keep g [] h = h
  for_each_inv P f keep g (b ∷ bs) h = for_each_inv P f keep (f g b) bs (keep g b h)

  pub lift-IsSized : (g : Graph F) (b : Block F) → IsSized g → IsSized (lift g b)
  unfolding lift
  lift-IsSized g b h =
      for_each_inv IsSized delete (λ k e s. length-erase_first e k.edges_size k.edges s)
        (for_each unblock g b.added_blocks) b.added_edges
        (for_each_inv IsSized unblock
          (λ k e s. omega (arith, length-unblock_first e k.edges_size k.edges)) g b.added_blocks h)

  length-mark_edges :
      (other side : ℕ) (e1 : WayPointEdge F) (n : ℕ) (es : List (WayPointEdge F))
      → length (mark_edges other side e1 n es).0 ≡ length es
  unfolding mark_edges
  length-mark_edges other side e1 zero es = refl
  length-mark_edges other side e1 (suc n) [] = refl
  length-mark_edges other side e1 (suc n) (e ∷ es) = ap suc (length-mark_edges other side e1 n es)

module _ {F : Type 0} ⦃fl : Floats F⦄ where
  length-mark_for :
      (g : Graph F) (other : ℕ) (side : Option ℕ) (e1 : WayPointEdge F)
      → length (mark_for g other side e1).0 ≡ length g.edges
  unfolding mark_for
  length-mark_for g other none e1 = refl
  length-mark_for g other (some side) e1 = length-mark_edges other side e1 g.edges_size g.edges

  block_from-IsSized :
      (g : Graph F) (blocks : List (Block F)) (now : F) (other : ℕ) (side : Option ℕ)
      (e1 : WayPointEdge F)
      → IsSized g
      → IsSized (block_from g blocks now other side e1).0
  unfolding block_from
  block_from-IsSized g blocks now other side e1 h =
      let marks = mark_for g other side e1 in
      omega (
        arith,
        length-mark_for g other side e1,
        length-append marks.0 (detours other side e1 marks.2),
      )

  pub add_block-IsSized :
      (g : Graph F) (blocks : List (Block F)) (path : Route F) (now : F) (way : ElementId)
      → IsSized g
      → IsSized (add_block g blocks path now way).0
  unfolding add_block
  add_block-IsSized g blocks path now way h =
      elim (Option-cases (last_index (λ n. id_eq n.id way) 0 g.nodes none)) [
        | inl n ↦ rw (n, add_block) h
        | inr (other, n) ↦ elim (List-cases path) [
          | inl e ↦ rw (n, e, add_block) h
          | inr (x, xs, e) ↦
              rw (n, e, add_block)
                (block_from-IsSized g blocks now other
                  (last_index (is_other_side way) 0 g.nodes none) (edge_at (x ∷ xs) 0) h)
        ]
      ]

  pop_block-IsSized :
      (g : Graph F) (blocks : List (Block F)) (i : ℕ) (h : Graph F) (rest : List (Block F))
      → IsSized g
      → pop_block g blocks i ≡ some (h, rest)
      → IsSized h
  unfolding pop_block
  pop_block-IsSized g blocks i h rest s e = elim (Option-cases (get_elem? blocks i)) [
    | inl n ↦ ground arith
    | inr (b, n) ↦ ground (arith, lift-IsSized g b s)
  ]

  pub pop_oldest-IsSized :
      (g : Graph F) (blocks : List (Block F)) (h : Graph F) (rest : List (Block F))
      → IsSized g
      → pop_oldest g blocks ≡ some (h, rest)
      → IsSized h
  unfolding pop_oldest
  pop_oldest-IsSized g [] h rest s e = ground arith
  pop_oldest-IsSized g (b ∷ bs) h rest s e =
      pop_block-IsSized g (b ∷ bs) (oldest (b ∷ bs)) h rest s e

  -- An operation on the blockages keeps the count of edges equal to their number: adding a block,
  -- at any place of the map and for any route, and lifting the oldest one.
  pub blockages-IsSized :
      (g : Graph F) (blocks : List (Block F)) (path : Route F) (now : F) (way : ElementId)
      → IsSized g
      → IsSized (add_block g blocks path now way).0
        × ((h : Graph F) (rest : List (Block F)) → pop_oldest g blocks ≡ some (h, rest) → IsSized h)
  blockages-IsSized g blocks path now way h = (
    add_block-IsSized g blocks path now way h,
    λ k rest e. pop_oldest-IsSized g blocks k rest h e,
  )

  first_best-lt :
      (before : F → F → Bool) (index : ℕ) (time : F) (i : ℕ) (bs : List (Block F))
      → index < i
      → first_best before index time i bs < i + length bs
  unfolding first_best
  first_best-lt before index time i [] h = omega arith
  first_best-lt before index time i (b ∷ bs) h =
      let better = before b.block_time time in
      omega (
        arith,
        first_best-lt before (if better then i else index) (if better then b.block_time else time)
            (i + 1) bs (if_elim (λ k. k < i + 1) better (λ _. omega arith) (λ _. omega arith)),
      )

  -- Lifting the oldest of some blocks never faults, and takes away one of them.
  pub pop_oldest-length :
      (g : Graph F) (b : Block F) (bs : List (Block F))
      → (h : Graph F) × (rest : List (Block F)) × (pop_oldest g (b ∷ bs) ≡ some (h, rest))
        × (length rest ≡ length bs)
  unfolding pop_oldest
  pop_oldest-length g b bs =
      let short = first_best-lt fl.lt 0 b.block_time 1 bs (omega arith) in
      let (x, e) = get_elem?-some (b ∷ bs) (first_best fl.lt 0 b.block_time 1 bs) (omega arith) in
      (
        lift g x,
        erase_idx (b ∷ bs) (first_best fl.lt 0 b.block_time 1 bs),
        rw (e, pop_block) refl,
        omega (arith, length-erase_idx (b ∷ bs) (first_best fl.lt 0 b.block_time 1 bs)),
      )
