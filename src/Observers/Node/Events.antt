-- ===== src/Observers/Node/Events.antt =====
-- The messages that the observers node of art_observers/src/nodes/lane_observations.cc receives, and
-- what it does with them in their order.
use utexas_art_ros_pkg.Base.{
  ℕ, suc, ◌≡◌, Bool, true, false, List, [], ◌∷◌, Option, some, and_then, if◌then◌else◌, null,
}
use utexas_art_ros_pkg.Numeric.{Floats}
use utexas_art_ros_pkg.Lanes.Geometry.{MapPose}
use utexas_art_ros_pkg.Lanes.Message.{ArtQuadrilateral}
use utexas_art_ros_pkg.Observers.Filters.{FilterBase}
use utexas_art_ros_pkg.Observers.Node.{
  LaneObservations, Transformed, process_local_map, process_pose, process_obstacles,
}

-- The callbacks of the node. A map comes with whether it is stamped, a cloud with the clock.
pub data Event (F : Type 0) : Type 0 where
  map_event : List (ArtQuadrilateral F) → Bool → Event F
  pose_event : MapPose F → Event F
  cloud_event : (ℕ → F) → Transformed F → Event F

module _ {F : Type 0} where
  -- the clouds that come after a stamped map
  unfoldable pub updates : Bool → List (Event F) → ℕ
  updates received [] = 0
  updates received (map_event polygons stamped ∷ es) = updates stamped es
  updates received (pose_event pose ∷ es) = updates received es
  updates received (cloud_event clock cloud ∷ es) =
      let rest = updates received es in if received then suc rest else rest

  -- a map that is stamped has polygons
  abbrev pub HasPolygons : Event F → Type 0
  HasPolygons (map_event polygons stamped) = stamped ≡ true → null polygons ≡ false
  HasPolygons (pose_event pose) = Unit
  HasPolygons (cloud_event clock cloud) = Unit

module _ {F M V : Type 0} ⦃fl : Floats F⦄ (median : FilterBase F M) (mean : FilterBase F V)
    (blank : ArtQuadrilateral F) where
  unfoldable pub handle : LaneObservations F M V → Event F → Option (LaneObservations F M V)
  unfolding process_local_map process_pose process_obstacles
  handle n (map_event polygons stamped) =
      some (process_local_map median mean blank n polygons stamped)
  handle n (pose_event pose) = some (process_pose median mean blank n pose)
  handle n (cloud_event clock cloud) = process_obstacles median mean blank clock n cloud

  unfoldable pub run : LaneObservations F M V → List (Event F) → Option (LaneObservations F M V)
  unfolding handle
  run n [] = some n
  run n (e ∷ es) = and_then (handle n e) λ m. run m es
