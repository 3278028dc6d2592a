-- ===== src/Observers/Node/Runs.antt =====
-- What the observers node of art_observers/src/nodes/lane_observations.cc has published after any
-- messages.
use utexas_art_ros_pkg.Base.{
  ℕ, ◌+◌, subst, arith, ◌≡◌, refl, ap, ◌∙◌, Bool, false, false≢true, not, List, [], ◌∷◌, some,
  and_then, ltb, All, pos,
}
use utexas_art_ros_pkg.Numeric.{Floats}
use utexas_art_ros_pkg.Lanes.Message.{ArtQuadrilateral}
use utexas_art_ros_pkg.Observers.Filters.{FilterBase, Fills}
use utexas_art_ros_pkg.Observers.Observer.Full.{Updated, Updated-applicable, new_observer-Updated}
use utexas_art_ros_pkg.Observers.Node.Events.{
  Event, map_event, pose_event, cloud_event, updates, HasPolygons, handle, run,
}
use utexas_art_ros_pkg.Observers.Node.{LaneObservations, new_node, process_local_map, process_pose}
use utexas_art_ros_pkg.Observers.Node.Ready.{Ready, Goes, process_obstacles-Ready}

module _ {F M V : Type 0} ⦃fl : Floats F⦄ (median : FilterBase F M) (mean : FilterBase F V)
    (blank : ArtQuadrilateral F) where
  handle-Ready :
      (k : ℕ) (received : Bool) (n : LaneObservations F M V) (e : Event F) (es : List (Event F))
      → Ready median mean blank k received n
      → HasPolygons e
      → (j : ℕ) × (flag : Bool) × (j + updates flag es ≡ k + updates received (e ∷ es))
        × Goes median mean blank j flag (handle median mean blank n e)
  unfolding handle updates process_local_map process_pose
  handle-Ready k received n (map_event polygons stamped) es r h = (
    k,
    stamped,
    refl,
    (
      process_local_map median mean blank n polygons stamped,
      refl,
      record {
        flag = refl;
        polygons = h;
        on_forward = r.on_forward;
        on_backward = r.on_backward;
        on_left = r.on_left;
        on_right = r.on_right;
      },
    ),
  )
  handle-Ready k received n (pose_event pose) es r h = (
    k,
    received,
    refl,
    (
      process_pose median mean blank n pose,
      refl,
      record {
        flag = r.flag;
        polygons = r.polygons;
        on_forward = r.on_forward;
        on_backward = r.on_backward;
        on_left = r.on_left;
        on_right = r.on_right;
      },
    ),
  )
  handle-Ready k received n (cloud_event clock cloud) es r h =
      let (j, count, goes) =
        process_obstacles-Ready median mean blank k received clock n cloud (updates received es)
          r in
      (j, received, count, goes)

  run-Ready :
      (es : List (Event F)) (k : ℕ) (received : Bool) (n : LaneObservations F M V)
      → Ready median mean blank k received n
      → All HasPolygons es
      → (flag : Bool) × Goes median mean blank
          (k + updates received es)
          flag
          (run median mean blank n es)
  unfolding run updates
  run-Ready [] k received n r h =
      (received, (n, refl, subst (λ j. Ready median mean blank j received n) (omega arith) r))
  run-Ready (e ∷ es) k received n r h =
      let (j, flag, count, (m, stepped, ready)) = handle-Ready k received n e es r h.0 in
      let (last, (p, returns, done)) = run-Ready es j flag m ready h.1 in
      (
        last,
        (
          p,
          ap (λ o. and_then o λ x. run median mean blank x es) stepped ∙ returns,
          subst (λ i. Ready median mean blank i last p) count done,
        ),
      )

  -- The observations of all four observers are applicable exactly after five updates.
  abbrev pub ApplicableAfter : ℕ → LaneObservations F M V → Type 0
  ApplicableAfter k n =
      (n.forward.observation.applicable ≡ not (ltb k 5))
      × (n.backward.observation.applicable ≡ not (ltb k 5))
      × (n.left.observation.applicable ≡ not (ltb k 5))
      × (n.right.observation.applicable ≡ not (ltb k 5))

  -- With a filter whose buffer takes a sample at each update until it is full, a node that is sent any maps, poses and
  -- clouds, where each polygon of a map has its four points and each stamped map has polygons, handles all of them with
  -- no access out of bounds. The observations of its four observers are then applicable if five clouds or more have
  -- come after a stamped map, and not applicable if fewer have.
  pub run-Applicable :
      Fills mean
      → (es : List (Event F)) → All HasPolygons es
      → (n : LaneObservations F M V) × (run median mean blank (new_node median mean blank) es
          ≡ some n)
        × ApplicableAfter (updates false es) n
  unfolding new_node
  run-Applicable fills es h =
      let (_, (n, returns, r)) =
        run-Ready es 0 false (new_node median mean blank)
          (record {
            flag = refl;
            polygons = λ t. absurd (false≢true t);
            on_forward = new_observer-Updated median mean fills (pos 0);
            on_backward = new_observer-Updated median mean fills (pos 1);
            on_left = new_observer-Updated median mean fills (pos 2);
            on_right = new_observer-Updated median mean fills (pos 3);
          })
          h in
      let k = updates false es in
      let count : 0 + k ≡ k = omega arith in
      (
        n,
        returns,
        (
          Updated-applicable median mean fills k n.forward
              (subst (λ j. Updated median mean j n.forward) count r.on_forward),
          Updated-applicable median mean fills k n.backward
              (subst (λ j. Updated median mean j n.backward) count r.on_backward),
          Updated-applicable median mean fills k n.left
              (subst (λ j. Updated median mean j n.left) count r.on_left),
          Updated-applicable median mean fills k n.right
              (subst (λ j. Updated median mean j n.right) count r.on_right),
        ),
      )
