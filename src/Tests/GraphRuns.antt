-- ===== src/Tests/GraphRuns.antt =====
-- Runs of the graph of art_map/src/lib/Graph.cc on a street of two lanes that lead east.
use mathlib.Core.Option.{some-injective}
use utexas_art_ros_pkg.Base.{
  ℕ, zero, suc, ◌≡◌, refl, sym, ap, true, false, [], ◌∷◌, some, ℤ, pos, ltb_ℤ, ◌-ℤ◌, ◌+ℤ◌, ◌*◌,
  arith,
}
use utexas_art_ros_pkg.Numeric.{whole}
use utexas_art_ros_pkg.RoadMap.WayPoint.{WayPointNode, distance_to}
use utexas_art_ros_pkg.RoadMap.Graph.{Graph}
use utexas_art_ros_pkg.RoadMap.Graph.Implicit.{left_index, right_index, nearest_from, beside}
use utexas_art_ros_pkg.RoadMap.Graph.Implicit.Side.{Nearest, left_index-Nearest}
use utexas_art_ros_pkg.RoadMap.Graph.Measure.{prepare}
use utexas_art_ros_pkg.RoadMap.Graph.Measure.Located.{Numbered}
use utexas_art_ros_pkg.RoadMap.Graph.Measure.Prepared.{Prepared, prepare-Prepared}
use utexas_art_ros_pkg.Tests.Sample.{node, edge}

-- a way-point of a lane at a longitude of its own
abbrev place : ℕ → ℕ → ℕ → ℕ → WayPointNode ℤ
place index lane pt x = record (node index 1 pt) {
  ll = record { latitude = pos x; longitude = pos (10 * lane) };
  map = record { x = pos x; y = pos (10 * lane) };
  id = record { seg = pos 1; lane = pos lane; pt = pos pt };
  is_stop = false;
}

abbrev corner : WayPointNode ℤ
corner = place 2 2 1 0

abbrev street : Graph ℤ
street = record {
  nodes = place 0 1 1 0 ∷ place 1 1 2 20 ∷ corner ∷ place 3 2 2 20 ∷ place 4 2 3 40 ∷ [];
  edges = edge 0 1 0 ∷ edge 2 3 0 ∷ edge 3 4 0 ∷ [];
  edges_size = 3;
}

street-Numbered : Numbered street.nodes
street-Numbered zero n e = ap (λ (m : WayPointNode ℤ). m.index) (sym (some-injective _ _ e))
street-Numbered (suc zero) n e = ap (λ (m : WayPointNode ℤ). m.index) (sym (some-injective _ _ e))
street-Numbered (suc (suc zero)) n e =
    ap (λ (m : WayPointNode ℤ). m.index) (sym (some-injective _ _ e))
street-Numbered (suc (suc (suc zero))) n e =
    ap (λ (m : WayPointNode ℤ). m.index) (sym (some-injective _ _ e))
street-Numbered (suc (suc (suc (suc zero)))) n e =
    ap (λ (m : WayPointNode ℤ). m.index) (sym (some-injective _ _ e))
street-Numbered (suc (suc (suc (suc (suc k))))) n e = cc

prepare-Prepared_example : (k : Graph ℤ) × (prepare street ≡ some k) × Prepared street k
prepare-Prepared_example =
    prepare-Prepared street street-Numbered
      ((omega arith, omega arith), ((omega arith, omega arith), ((omega arith, omega arith), tt)))
      refl (omega arith)

ltb_ℤ_irrefl : (a : ℤ) → ltb_ℤ a a ≡ false
ltb_ℤ_irrefl a = ground arith

ltb_ℤ_trans : (a b c : ℤ) → ltb_ℤ a b ≡ true → ltb_ℤ b c ≡ true → ltb_ℤ a c ≡ true
ltb_ℤ_trans a b c h k = ground arith

left_index-Nearest_example :
    (d : ℤ) × Nearest street.nodes (pos 2 -ℤ pos 1) corner 2 5 (left_index street 2 corner) d
left_index-Nearest_example = left_index-Nearest ltb_ℤ_irrefl ltb_ℤ_trans street 2 corner

-- The left case finds the way-point across the street. The right case of the way-point there compares the
-- results of comparisons, and finds the second way-point of the lane, not the one across the street.
across : (left_index street 2 corner ≡ some 0) × (right_index street 0 (place 0 1 1 0) ≡ some 3)
unfolding nearest_from beside distance_to ◌-ℤ◌ ◌+ℤ◌
across = (refl, refl)
