-- ===== src/Commander/Route.antt =====
-- The route that the commander follows, class Path of art_nav/src/commander/Path.h.
use utexas_art_ros_pkg.Base.{
  ℕ, List, [], ◌∷◌, ◌++◌, if◌then◌else◌, ltb, length, get_or, last_or, pos,
}
use utexas_art_ros_pkg.Numeric.{Floats}
use utexas_art_ros_pkg.RoadMap.WayPoint.{WayPointEdge, null_edge}

abbrev pub Route : Type 0 → Type 0
Route F = List (WayPointEdge F)

module _ {F : Type 0} where
  pub pop_front : Route F → Route F
  pop_front [] = []
  pop_front (e ∷ []) = e ∷ []
  pop_front (e ∷ f ∷ es) = f ∷ es

module _ {F : Type 0} ⦃fl : Floats F⦄ where
  -- DEFAULT_ZONE_SPEED
  abbrev pub default_zone_speed : F
  default_zone_speed = fl.of_int (pos 3)

  unfoldable pub last : Route F → WayPointEdge F
  last [] = null_edge
  last (e ∷ es) = last_or e es

  -- Path::at
  unfoldable pub edge_at : Route F → ℕ → WayPointEdge F
  unfolding last
  edge_at path index =
      if ltb index (length path)
      then get_or path index null_edge
      else if ltb 0 (length path)
      then last path
      else null_edge

  unfoldable pub append_path : Route F → ℕ → ℕ → List (WayPointEdge F) → Route F
  append_path path startid endid [] =
      path
      ++ record null_edge {
        startnode_index = startid;
        endnode_index = endid;
        speed_min = fl.of_int (pos 0);
        distance = fl.of_int (pos 0);
        speed_max = default_zone_speed;
      }
        ∷ []
  append_path path startid endid (e ∷ es) = path ++ (e ∷ es)

  unfoldable pub new_path : ℕ → ℕ → List (WayPointEdge F) → Route F
  unfolding append_path
  new_path startid endid edges = append_path [] startid endid edges
