-- ===== src/Commander/Mission.antt =====
-- The checkpoints still to visit, class Mission of art_nav/src/lib/Mission.cc.
pub mod Checkpoints
pub mod Distinct
pub mod Visits
use utexas_art_ros_pkg.Base.{
  ℕ, zero, suc, ◌≡◌, refl, Bool, true, false, ◌&&◌, not, List, [], ◌∷◌, ◌++◌, Option, none, some,
  if◌then◌else◌, ltb, ◌==◌, length, ℤ, pos, negsuc, eqb_ℤ, get_or,
}
use utexas_art_ros_pkg.RoadMap.Element.{ElementId, null_id, id_eq}
use utexas_art_ros_pkg.RoadMap.WayPoint.{WayPointNode}
use utexas_art_ros_pkg.RoadMap.Graph.{Graph, find_node}

pub record Mission : Type 0 where
  pub checkpoint_ids : List ℤ
  pub checkpoint_elementid : List ElementId

-- the loop of the constructor: a checkpoint that repeats the one before it is left out
pub distinct_from : ℤ → List ℤ → List ℤ
distinct_from previous_id [] = []
distinct_from previous_id (c ∷ cs) =
    let rest = distinct_from c cs in if eqb_ℤ previous_id c then rest else c ∷ rest

-- Mission(const MDF&)
unfoldable pub of_mdf : List ℤ → Mission
unfolding distinct_from
of_mdf ids = record { checkpoint_ids = distinct_from (negsuc 0) ids; checkpoint_elementid = [] }

module _ {F : Type 0} where
  -- the node whose identifier the inner loop of populate_elementid takes
  unfoldable pub checkpoint_node : List (WayPointNode F) → ℤ → Option (WayPointNode F)
  unfolding find_node
  checkpoint_node nodes c = find_node (λ n. eqb_ℤ n.checkpoint_id c) nodes

  abbrev pub push_id : Option (WayPointNode F) → List ElementId → List ElementId
  push_id none ids = ids
  push_id (some n) ids = ids ++ n.id ∷ []

  pub element_ids : List (WayPointNode F) → List ElementId → List ℤ → List ElementId
  element_ids nodes acc [] = acc
  element_ids nodes acc (c ∷ cs) = element_ids nodes (push_id (checkpoint_node nodes c) acc) cs

  unfoldable pub populate_elementid : Graph F → Mission → Mission × Bool
  unfolding element_ids
  populate_elementid g m =
      let ids = element_ids g.nodes m.checkpoint_elementid m.checkpoint_ids in
      (record m { checkpoint_elementid = ids }, length ids == length m.checkpoint_ids)

abbrev pub tail {ℓ} : {A : Type ℓ} → List A → List A
tail [] = []
tail (x ∷ xs) = xs

abbrev pub is_empty {ℓ} : {A : Type ℓ} → List A → Bool
is_empty [] = true
is_empty (x ∷ xs) = false

-- `none` is the pop_front of an empty deque, where checkpoint_elementid is shorter than checkpoint_ids.
unfoldable pub next_point : Mission → Option (Mission × Bool)
next_point m =
    if is_empty m.checkpoint_ids
    then some (m, false)
    else if is_empty m.checkpoint_elementid
    then none
    else some (
      record m {
        checkpoint_ids = tail m.checkpoint_ids;
        checkpoint_elementid = tail m.checkpoint_elementid;
      },
      not (is_empty (tail m.checkpoint_ids)),
    )

unfoldable pub current_checkpoint_id : Mission → ℤ
current_checkpoint_id m = get_or m.checkpoint_ids 0 (negsuc 0)

unfoldable pub next_checkpoint_id : Mission → ℤ
next_checkpoint_id m =
    if ltb (length m.checkpoint_ids) 2 then negsuc 0 else get_or m.checkpoint_ids 1 (negsuc 0)

unfoldable pub current_checkpoint_elementid : Mission → ElementId
current_checkpoint_elementid m = get_or m.checkpoint_elementid 0 null_id

unfoldable pub next_checkpoint_elementid : Mission → ElementId
next_checkpoint_elementid m =
    if ltb (length m.checkpoint_elementid) 2
    then null_id
    else get_or m.checkpoint_elementid 1 null_id

unfoldable pub remaining_points : Mission → ℕ
remaining_points m = length m.checkpoint_ids
