-- ===== src/Tests/Sample.antt =====
-- A small road map over whole numbers, and a choice of the best entry of the search's queue.
use utexas_art_ros_pkg.Base.{
  ℕ, suc, ◌≡◌, true, false, List, [], ◌∷◌, ℤ, pos, All, All-mono, if_elim, if◌then◌else◌, arith,
}
use utexas_art_ros_pkg.Numeric.{whole}
use utexas_art_ros_pkg.RoadMap.WayPoint.{WayPointNode, WayPointEdge, broken_white, undefined}
use utexas_art_ros_pkg.RoadMap.Graph.{Graph}
use utexas_art_ros_pkg.Commander.Search.{PossiblePath, TopChoice, pop_at, compares}

-- the first of the least entries
unfoldable pub least : PossiblePath ℤ → List (PossiblePath ℤ) → ℕ
least x [] = 0
least x (y ∷ ys) = let i = least y ys in if compares x (pop_at i y ys).0 then suc i else 0

compares_chain :
    (x y z : PossiblePath ℤ) → compares x y ≡ false → compares y z ≡ false → compares x z ≡ false
compares_chain x y z h k = ground arith

compares_asym : (x y : PossiblePath ℤ) → compares x y ≡ true → compares y x ≡ false
compares_asym x y h = ground arith

compares_self : (x : PossiblePath ℤ) → compares x x ≡ false
compares_self x = ground arith

pub least_first :
    (x : PossiblePath ℤ) (xs : List (PossiblePath ℤ))
    → All (λ y. compares (pop_at (least x xs) x xs).0 y ≡ false) (x ∷ xs)
unfolding least
least_first x [] = (compares_self x, tt)
least_first x (y ∷ ys) =
    let t = (pop_at (least y ys) y ys).0 in
    if_elim (λ i. All (λ z. compares (pop_at i x (y ∷ ys)).0 z ≡ false) (x ∷ y ∷ ys)) (compares x t)
      (λ c. (compares_asym x t c, least_first y ys))
      (λ c. (
        compares_self x,
        All-mono (λ z. compares t z ≡ false) (λ z. compares x z ≡ false)
            (λ z. compares_chain x t z c) (y ∷ ys) (least_first y ys),
      ))

abbrev pub first_choice : TopChoice ℤ
first_choice = record { top = least; top_first = least_first }

-- a way-point of lane 1 of a segment, at (10 * index, 0)
abbrev pub node : ℕ → ℕ → ℕ → WayPointNode ℤ
node index seg pt = record {
  ll = record { latitude = pos 0; longitude = pos 0 };
  map = record { x = pos index; y = pos 0 };
  id = record { seg = pos seg; lane = pos 1; pt = pos pt };
  index = index;
  is_entry = false;
  is_exit = false;
  is_goal = false;
  is_lane_change = false;
  is_spot = false;
  is_stop = true;
  is_perimeter = false;
  checkpoint_id = pos index;
  lane_width = pos 4;
}

abbrev pub edge : ℕ → ℕ → ℕ → WayPointEdge ℤ
edge start end distance = record {
  startnode_index = start;
  endnode_index = end;
  distance = pos distance;
  speed_max = pos 5;
  speed_min = pos 0;
  is_exit = false;
  blocked = false;
  is_implicit = false;
  left_boundary = broken_white;
  right_boundary = undefined;
}

-- 0 → 1 → 2 → 3, with a long way round 0 → 4 → 3, and node 5 that no edge leaves
abbrev pub town : Graph ℤ
town = record {
  nodes = node 0 1 1 ∷ node 1 1 2 ∷ node 2 1 3 ∷ node 3 2 1 ∷ node 4 3 1 ∷ node 5 4 1 ∷ [];
  edges = edge 0 1 10 ∷ edge 0 4 90 ∷ edge 1 2 10 ∷ edge 2 3 10 ∷ edge 4 3 90 ∷ [];
  edges_size = 5;
}
