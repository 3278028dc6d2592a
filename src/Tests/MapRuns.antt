-- ===== src/Tests/MapRuns.antt =====
-- Runs of the identifiers and the messages of art_map/include/art_map/types.h.
use utexas_art_ros_pkg.Base.{◌≡◌, ◌↔◌, refl, true, pos, arith}
use utexas_art_ros_pkg.RoadMap.Element.{ElementId, MapId, null_id, element_id, to_map_id, id_lt}
use utexas_art_ros_pkg.RoadMap.Element.Order.{element_id_round_trip}

abbrev here : ElementId
here = record { seg = pos 1; lane = pos 2; pt = pos 3 }

abbrev there : ElementId
there = record { seg = pos 1; lane = pos 2; pt = pos 4 }

abbrev words : MapId
words = record { seg = 65535; lane = 2; pt = 40000 }

in_order : id_lt here there ≡ true
unfolding id_lt
in_order = refl

element_id_round_trip_example :
    (element_id (to_map_id here) ≡ here)
    × (to_map_id (element_id words) ≡ words)
    × ((element_id words ≡ null_id) ↔ (words ≡ record { seg = 65535; lane = 65535; pt = 65535 }))
element_id_round_trip_example =
    element_id_round_trip here words
      ((omega arith, omega arith), (omega arith, omega arith), (omega arith, omega arith))
      (omega arith, omega arith, omega arith)
