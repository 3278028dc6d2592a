-- ===== src/Observers/Node/Ready.antt =====
-- What a callback of the observers node of art_observers/src/nodes/lane_observations.cc keeps.
use utexas_art_ros_pkg.Base.{
  ℕ, suc, ◌+◌, subst, arith, ◌≡◌, refl, sym, ◌∙◌, Bool, true, false, List, [], ◌∷◌, Option, none,
  some, and_then_elim, if◌then◌else◌, if_elim, null, ℤ, pos, negsuc,
}
use utexas_art_ros_pkg.Numeric.{Floats}
use utexas_art_ros_pkg.RoadMap.WayPoint.{MapXy}
use utexas_art_ros_pkg.Lanes.Geometry.{MapPose}
use utexas_art_ros_pkg.Lanes.Message.{ArtQuadrilateral}
use utexas_art_ros_pkg.Observers.Quads.{get_obstacles_in_lane, filter_adjacent_lanes}
use utexas_art_ros_pkg.Observers.Filters.{FilterBase}
use utexas_art_ros_pkg.Observers.Observer.{Observer, report}
use utexas_art_ros_pkg.Observers.Observer.Full.{Updated, report-Updated}
use utexas_art_ros_pkg.Observers.Nearest.{
  robot_quad, forward_distance, backward_distance, update_forward, update_backward,
}
use utexas_art_ros_pkg.Observers.Adjacent.{
  adjacent_distance, update_beside, update_left, update_right,
}
use utexas_art_ros_pkg.Observers.Adjacent.Bounds.{robot_quad-IsSome, beside_distance}
use utexas_art_ros_pkg.Observers.Node.{
  LaneObservations, Occupancy, Transformed, locate_robot, run_observers, filter_points_in_local_map,
  process_obstacles,
}

if_true : (b : Bool) (x y : ℕ) → b ≡ true → (if b then x else y) ≡ x
if_true b x y h = ground arith

if_false : (b : Bool) (x y : ℕ) → b ≡ false → (if b then x else y) ≡ y
if_false b x y h = ground arith

module _ {F M V : Type 0} ⦃fl : Floats F⦄ (median : FilterBase F M) (mean : FilterBase F V)
    (blank : ArtQuadrilateral F) where
  -- the observers have been updated `k` times, and a map that was received has polygons
  pub record Ready (k : ℕ) (received : Bool) (n : LaneObservations F M V) : Type 0 where
    pub flag : n.received ≡ received
    pub polygons : received ≡ true → null n.local_map ≡ false
    pub on_forward : Updated median mean k n.forward
    pub on_backward : Updated median mean k n.backward
    pub on_left : Updated median mean k n.left
    pub on_right : Updated median mean k n.right

  -- an update that returns, with one more update counted
  abbrev Steps : ℕ → Option (Observer F M V) → Type 0
  Steps k r = (p : Observer F M V) × (r ≡ some p) × Updated median mean (suc k) p

  reported :
      (k : ℕ) (twice : Bool) (o : Observer F M V) (distance now : F)
      → Updated median mean k o
      → Steps k (some (report median mean twice o distance now))
  reported k twice o distance now u = (
    report median mean twice o distance now,
    refl,
    report-Updated median mean k twice o distance now u,
  )

  module _ (k : ℕ) (o : Observer F M V) (local_map obstacles : List (ArtQuadrilateral F))
      (pose : MapPose F) (now : F) (u : Updated median mean k o) where
    update_forward-Steps :
        null local_map ≡ false → Steps k (update_forward median mean o local_map obstacles pose now)
    unfolding update_forward
    update_forward-Steps h =
        and_then_elim (Steps k) (robot_quad local_map pose) _ (robot_quad-IsSome local_map pose h)
          λ robot _. reported k false o (forward_distance robot local_map obstacles) now u

    update_backward-Steps :
        null local_map ≡ false
        → Steps k (update_backward median mean o local_map obstacles pose now)
    unfolding update_backward
    update_backward-Steps h =
        and_then_elim (Steps k) (robot_quad local_map pose) _ (robot_quad-IsSome local_map pose h)
          λ robot _. reported k false o (backward_distance robot local_map obstacles) now u

    update_beside-Steps :
        (side : ℤ) (twice : Bool)
        → Steps k (update_beside median mean blank side twice o local_map obstacles pose now)
    unfolding update_beside
    update_beside-Steps side twice =
        let quads = filter_adjacent_lanes pose local_map side in
        and_then_elim (Steps k)
          (adjacent_distance quads (get_obstacles_in_lane blank obstacles quads) pose) _
          (beside_distance blank obstacles quads pose)
          λ distance _. reported k twice o distance now u

  abbrev pub Goes : ℕ → Bool → Option (LaneObservations F M V) → Type 0
  Goes k received r = (m : LaneObservations F M V) × (r ≡ some m) × Ready k received m

  run_observers-Ready :
      (k : ℕ) (clock : ℕ → F) (n : LaneObservations F M V)
      → Ready k true n
      → Goes (suc k) true (run_observers median mean blank clock n)
  unfolding run_observers update_left update_right
  run_observers-Ready k clock n r =
      let qs = n.occupancy.obs_quads in
      let h = r.polygons refl in
      let f = update_forward-Steps k n.forward n.local_map qs n.pose (clock 0) r.on_forward h in
      let b = update_backward-Steps k n.backward n.local_map qs n.pose (clock 1) r.on_backward h in
      let s = update_beside-Steps k n.left n.local_map qs n.pose (clock 2) r.on_left (pos 1) true in
      let t =
        update_beside-Steps k n.right n.local_map qs n.pose (clock 3) r.on_right (negsuc 0) false in
      let m : LaneObservations F M V = record n {
        forward = f.0;
        backward = b.0;
        left = s.0;
        right = t.0;
        observations = f.0.observation ∷ b.0.observation ∷ s.0.observation ∷ t.0.observation ∷ [];
      } in
      (
        m,
        rw (f.1, b.1, s.1, t.1) refl,
        record {
          flag = r.flag;
          polygons = r.polygons;
          on_forward = f.2;
          on_backward = b.2;
          on_left = s.2;
          on_right = t.2;
        },
      )

  Ready-occupied :
      (k : ℕ) (received : Bool) (n : LaneObservations F M V) (c : Occupancy F)
      → Ready k received n
      → Ready k received (record n { occupancy = c })
  Ready-occupied k received n c r = record {
    flag = r.flag;
    polygons = r.polygons;
    on_forward = r.on_forward;
    on_backward = r.on_backward;
    on_left = r.on_left;
    on_right = r.on_right;
  }

  locate_robot-Ready :
      (k : ℕ) (received : Bool) (n : LaneObservations F M V) (robot : Option (MapXy F))
      → Ready k received n
      → Ready k received (locate_robot median mean blank n robot)
  unfolding locate_robot
  locate_robot-Ready k received n none r = r
  locate_robot-Ready k received n (some robot) r = record {
    flag = r.flag;
    polygons = r.polygons;
    on_forward = r.on_forward;
    on_backward = r.on_backward;
    on_left = r.on_left;
    on_right = r.on_right;
  }

  -- a callback that returns, with its share of the updates that come
  abbrev pub Counts : ℕ → Bool → ℕ → Option (LaneObservations F M V) → Type 0
  Counts total received later r = (j : ℕ) × (j + later ≡ total) × Goes j received r

  pub process_obstacles-Ready :
      (k : ℕ) (received : Bool) (clock : ℕ → F) (n : LaneObservations F M V) (cloud : Transformed F)
      (later : ℕ)
      → Ready k received n
      → Counts
          (k + (if received then suc later else later))
          received
          later
          (process_obstacles median mean blank clock n cloud)
  unfolding process_obstacles
  process_obstacles-Ready k received clock n cloud later r =
      let c : Occupancy F = record n.occupancy { obs_quads = [] } in
      let cleared : LaneObservations F M V = record n { occupancy = c } in
      let located = locate_robot median mean blank cleared cloud.robot in
      let l = locate_robot-Ready k received cleared cloud.robot (Ready-occupied k received n c r) in
      if_elim (Counts (k + (if received then suc later else later)) received later) n.received
        (λ t.
          let s = sym r.flag ∙ t in
          let d = filter_points_in_local_map cloud.points n.local_map located.occupancy in
          let (m, e, ready) =
            run_observers-Ready k clock (record located { occupancy = d })
              (Ready-occupied k true located d (subst (λ b. Ready k b located) s l)) in
          (
            suc k,
            omega (arith, if_true received (suc later) later s),
            (m, e, subst (λ b. Ready (suc k) b m) (sym s) ready),
          ))
        (λ f. (
          k,
          omega (arith, if_false received (suc later) later (sym r.flag ∙ f)),
          (located, refl, l),
        ))
