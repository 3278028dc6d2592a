-- ===== src/Commander/Blockages.antt =====
-- The blocked roads that the commander keeps, classes block and Blockages of
-- art_nav/src/commander/Blockage.cc.
pub mod Size
use utexas_art_ros_pkg.Base.{
  ℕ, zero, suc, ◌+◌, ◌-◌, ◌%◌, ◌≡◌, Bool, true, false, ◌&&◌, ◌||◌, List, [], ◌∷◌, ◌++◌, Option,
  none, some, if◌then◌else◌, ◌==◌, ℤ, pos, eqb_ℤ, ◌-ℤ◌, erase_idx, get_elem?, length,
}
use utexas_art_ros_pkg.Numeric.{Floats}
use utexas_art_ros_pkg.RoadMap.Element.{ElementId, id_eq}
use utexas_art_ros_pkg.RoadMap.WayPoint.{WayPointNode, WayPointEdge, null_edge}
use utexas_art_ros_pkg.RoadMap.Graph.{Graph}
use utexas_art_ros_pkg.Commander.Route.{Route, edge_at, default_zone_speed}

pub record Block (F : Type 0) : Type 0 where
  pub count : ℕ
  pub block_time : F
  pub added_blocks : List (WayPointEdge F)
  pub added_edges : List (WayPointEdge F)

module _ {F : Type 0} where
  abbrev pub same_ends : WayPointEdge F → WayPointEdge F → Bool
  same_ends e f = (e.startnode_index == f.startnode_index) && (e.endnode_index == f.endnode_index)

  -- the first of `n` edges with the ends of `b` is no longer blocked
  pub unblock_first : WayPointEdge F → ℕ → List (WayPointEdge F) → List (WayPointEdge F)
  unblock_first b zero es = es
  unblock_first b (suc n) [] = []
  unblock_first b (suc n) (e ∷ es) =
      let rest = unblock_first b n es in
      if same_ends e b then record e { blocked = false } ∷ es else e ∷ rest

  -- the first of `n` edges with the ends of `b` is deleted
  pub erase_first : WayPointEdge F → ℕ → List (WayPointEdge F) → List (WayPointEdge F) × ℕ
  erase_first b zero es = (es, zero)
  erase_first b (suc n) [] = ([], suc n)
  erase_first b (suc n) (e ∷ es) =
      let (rest, size) = erase_first b n es in
      if same_ends e b then (es, n) else (e ∷ rest, suc size)

  abbrev pub unblock : Graph F → WayPointEdge F → Graph F
  unblock g b = record g { edges = unblock_first b g.edges_size g.edges }

  abbrev pub delete : Graph F → WayPointEdge F → Graph F
  delete g b = record g {
    edges = (erase_first b g.edges_size g.edges).0;
    edges_size = (erase_first b g.edges_size g.edges).1;
  }

  pub for_each : (Graph F → WayPointEdge F → Graph F) → Graph F → List (WayPointEdge F) → Graph F
  for_each f g [] = g
  for_each f g (b ∷ bs) = for_each f (f g b) bs

  -- The graph that pop_block leaves.
  unfoldable pub lift : Graph F → Block F → Graph F
  unfolding unblock_first erase_first for_each
  lift g b = for_each delete (for_each unblock g b.added_blocks) b.added_edges

  -- `none` is the exception of `blocks.at`.
  unfoldable pub pop_block : Graph F → List (Block F) → ℕ → Option (Graph F × List (Block F))
  unfolding lift
  pop_block g blocks index = elim (get_elem? blocks index) [
    | none ↦ none
    | some b ↦ some (lift g b, erase_idx blocks index)
  ]

  -- The last node that passes a test, from the position `i` on; `none` is -1.
  pub last_index : (WayPointNode F → Bool) → ℕ → List (WayPointNode F) → Option ℕ → Option ℕ
  last_index p i [] found = found
  last_index p i (n ∷ ns) found = last_index p (i + 1) ns (if p n then some i else found)

  abbrev pub is_other_side : ElementId → WayPointNode F → Bool
  is_other_side way n =
      eqb_ℤ n.id.seg way.seg && eqb_ℤ n.id.lane way.lane && eqb_ℤ n.id.pt (way.pt -ℤ pos 1)

  -- the body of that loop: the blocked edge, what is added to the block, and whether the two sides
  -- of the other lane are connected
  pub mark_edge :
      ℕ → ℕ → WayPointEdge F → WayPointEdge F → WayPointEdge F × List (WayPointEdge F) × Bool
  mark_edge other side e1 e =
      let into = e.endnode_index == other in
      let ahead = same_ends e e1 in
      let marked = record e { blocked = true } in
      (
        if into || ahead then marked else e,
        (if into then marked ∷ [] else []) ++ (if ahead then marked ∷ [] else []),
        into && (e.startnode_index == side),
      )

  pub mark_edges :
      ℕ
      → ℕ
      → WayPointEdge F
      → ℕ
      → List (WayPointEdge F)
      → List (WayPointEdge F) × List (WayPointEdge F) × Bool
  unfolding mark_edge
  mark_edges other side e1 zero es = (es, [], false)
  mark_edges other side e1 (suc n) [] = ([], [], false)
  mark_edges other side e1 (suc n) (e ∷ es) =
      let (marked, added, connected) = mark_edge other side e1 e in
      let (rest, more, later) = mark_edges other side e1 n es in
      (marked ∷ rest, added ++ more, connected || later)

module _ {F : Type 0} ⦃fl : Floats F⦄ where
  -- The position of the first block that no later one beats; `before a b` is the test on times.
  pub first_best : (F → F → Bool) → ℕ → F → ℕ → List (Block F) → ℕ
  first_best before index time i [] = index
  first_best before index time i (b ∷ bs) =
      let better = before b.block_time time in
      first_best before (if better then i else index) (if better then b.block_time else time)
        (i + 1) bs

  unfoldable pub oldest : List (Block F) → ℕ
  unfolding first_best
  oldest [] = 0
  oldest (b ∷ bs) = first_best fl.lt 0 b.block_time 1 bs

  unfoldable pub newest : List (Block F) → ℕ
  unfolding first_best
  newest [] = 0
  newest (b ∷ bs) = first_best (λ a t. fl.lt t a) 0 b.block_time 1 bs

  unfoldable pub pop_oldest : Graph F → List (Block F) → Option (Graph F × List (Block F))
  unfolding oldest pop_block
  pop_oldest g [] = some (g, [])
  pop_oldest g (b ∷ bs) = pop_block g (b ∷ bs) (oldest (b ∷ bs))

  unfoldable pub pop_newest : Graph F → List (Block F) → Option (Graph F × List (Block F))
  unfolding newest pop_block
  pop_newest g [] = some (g, [])
  pop_newest g (b ∷ bs) = pop_block g (b ∷ bs) (newest (b ∷ bs))

  -- the edge that leads round the blockage; the indices are `uint16_t`
  abbrev pub detour : ℕ → ℕ → WayPointEdge F
  detour start end = record null_edge {
    startnode_index = start % 65536;
    endnode_index = end % 65536;
    distance = fl.of_int (pos 100);
    speed_max = default_zone_speed;
    blocked = false;
  }

  -- the edges that are marked where the way-point before the other lane's is known
  pub mark_for :
      Graph F → ℕ → Option ℕ → WayPointEdge F → List (WayPointEdge F) × List (WayPointEdge F) × Bool
  unfolding mark_edges
  mark_for g other none e1 = (g.edges, [], false)
  mark_for g other (some side) e1 = mark_edges other side e1 g.edges_size g.edges

  abbrev pub detours : ℕ → Option ℕ → WayPointEdge F → Bool → List (WayPointEdge F)
  detours other (some side) e1 true =
      detour e1.startnode_index other ∷ detour side e1.endnode_index ∷ []
  detours other _ e1 _ = detour e1.startnode_index other ∷ []

  unfoldable pub block_from :
      Graph F → List (Block F) → F → ℕ → Option ℕ → WayPointEdge F → Graph F × List (Block F)
  unfolding mark_for null_edge
  block_from g blocks now other side e1 =
      let (edges, added, connected) = mark_for g other side e1 in
      let extra = detours other side e1 connected in
      (
        record g { edges = edges ++ extra; edges_size = g.edges_size + length extra },
        blocks
            ++ record { count = 1; block_time = now; added_blocks = added; added_edges = extra }
              ∷ [],
      )

  -- add_block at the time `now`
  unfoldable pub add_block :
      Graph F → List (Block F) → Route F → F → ElementId → Graph F × List (Block F)
  unfolding block_from last_index edge_at
  add_block g blocks path now way = elim (last_index (λ n. id_eq n.id way) 0 g.nodes none) [
    | none ↦ (g, blocks)
    | some other ↦ elim path [
      | [] ↦ (g, blocks)
      | e ∷ es ↦
          block_from g blocks now other (last_index (is_other_side way) 0 g.nodes none)
            (edge_at (e ∷ es) 0)
    ]
  ]
