-- ===== src/RoadMap/WayPoint/Message.antt =====
-- What a way-point keeps through its message, and the reversal of edges.
use utexas_art_ros_pkg.Base.{◌≡◌, refl}
use utexas_art_ros_pkg.RoadMap.Element.Order.{IsElementId, element_id-to_map_id}
use utexas_art_ros_pkg.RoadMap.WayPoint.{WayPointNode, to_way_point, of_way_point}

module _ {F : Type 0} where
  -- Through the message a way-point keeps its position, identifier and index, and its flags,
  -- checkpoint and lane width are whatever the memory held before.
  pub of_way_point-to_way_point :
      (old n : WayPointNode F)
      → IsElementId n.id
      → of_way_point old (to_way_point n) ≡ record n {
        is_entry = old.is_entry;
        is_exit = old.is_exit;
        is_goal = old.is_goal;
        is_lane_change = old.is_lane_change;
        is_spot = old.is_spot;
        is_stop = old.is_stop;
        is_perimeter = old.is_perimeter;
        checkpoint_id = old.checkpoint_id;
        lane_width = old.lane_width;
      }
  unfolding of_way_point to_way_point
  of_way_point-to_way_point old n h = rw (element_id-to_map_id n.id h) refl
