-- ===== src/Navigator/Run/Orders.antt =====
-- When the navigator moves the vehicle: Run::control of art_nav/src/navigator/run.cc and
-- Navigator::navigate of navigator.cc.
use utexas_art_ros_pkg.Base.{
  ℕ, zero, suc, ◌≡◌, ◌⊎◌, inl, inr, refl, sym, subst, ◌∙◌, ap, Bool-cases, false, ◌||◌, pos, arith,
  ◌==◌,
}
use utexas_art_ros_pkg.Numeric.{Floats}
use utexas_art_ros_pkg.RoadMap.Element.{MapId, null_id, to_map_id, id_eq}
use utexas_art_ros_pkg.Messages.{Behavior, EstopState, Order}
use utexas_art_ros_pkg.Navigator.State.{PilotCommand, Nav, Motion, halted}
use utexas_art_ros_pkg.Navigator.Course.{shift, waypt_id, advance_order}
use utexas_art_ros_pkg.Navigator.Estop.{Estop}
use utexas_art_ros_pkg.Navigator.Estop.Halts.{estop_control-Runs}
use utexas_art_ros_pkg.Navigator.Road.{Roadwork}
use utexas_art_ros_pkg.Navigator.Road.Entry.{road_control, road_reset}
use utexas_art_ros_pkg.Navigator.Road.Waits.{waits, road_control-Halted}
use utexas_art_ros_pkg.Navigator.Run.{
  GoState, continue, escape, replan, Run, Terrain, RunCycle, Driving, is_run_order, begin_run_cycle,
  full_speed, drive, go_on, behave, reversed, run_control, driver, observed, seen, navigate,
}

module _ {F : Type 0} ⦃fl : Floats F⦄ where
  -- no speed, which reverse motion negates, and no turn
  abbrev pub Standing : PilotCommand F → Type 0
  Standing p =
      ((p.velocity ≡ fl.of_int (pos 0)) ⊎ (p.velocity ≡ fl.fneg (fl.of_int (pos 0))))
      × (p.yaw_rate ≡ fl.of_int (pos 0))

  advance_order-behavior :
      (limit : ℕ) (last : MapId) (o : Order F) → (advance_order limit last o).behavior ≡ o.behavior
  unfolding advance_order
  advance_order-behavior zero last o = refl
  advance_order-behavior (suc limit) last o =
      ground (arith, advance_order-behavior limit last (record o { waypt = shift o.waypt }))

module _ {F W : Type 0} ⦃fl : Floats F⦄ (t : Terrain W) (k : Roadwork F W) where
  -- What has to hold for a cycle of Run to move the vehicle.
  pub record Drives (r : Run F) (n : Nav F W) (c : RunCycle F W) : Type 0 where
    pub ordered : n.order.behavior ≡ Behavior.go
    pub mapped : t.no_polygons n.rest ≡ false
    pub under_way :
        id_eq
          (waypt_id 0 (advance_order 4 n.navdata.last_waypt n.order))
          (waypt_id 1 (advance_order 4 n.navdata.last_waypt n.order))
        ≡ false
    pub on_road : (waits c.run.road.state ≡ false) ⊎ (r.go_state ≡ escape)

  -- The same for the part of the cycle between its begin and its end.
  abbrev Stands : Behavior → Run F → Nav F W → RunCycle F W → Type 0
  Stands b r n c =
      (c.motion.pcmd ≡ halted)
      ⊎ (b ≡ Behavior.go)
        × (id_eq (waypt_id 0 n.order) (waypt_id 1 n.order) ≡ false)
        × ((waits c.run.road.state ≡ false) ⊎ (r.go_state ≡ escape))

  add_escape : (A B C : Type 0) → A ⊎ B → A ⊎ B ⊎ C
  add_escape A B C (inl a) = inl a
  add_escape A B C (inr b) = inr (inl b)

  drive-Stands :
      (r : Run F) (n : Nav F W) (pcmd : PilotCommand F)
      → ((drive t k r n pcmd).motion.pcmd ≡ halted)
        ⊎ (waits (drive t k r n pcmd).run.road.state ≡ false)
  drive-Stands r n pcmd = elim (Bool-cases (waits (road_control k r.road n pcmd).road.state)) [
    | inl w ↦ inl (road_control-Halted k r.road n pcmd w).0
    | inr d ↦ inr d
  ]

  go_on-Stands :
      (s : GoState) (r : Run F) (n : Nav F W) (pcmd : PilotCommand F)
      → r.go_state ≡ s
      → ((go_on t k s r n pcmd).motion.pcmd ≡ halted)
        ⊎ (waits (go_on t k s r n pcmd).run.road.state ≡ false)
        ⊎ (r.go_state ≡ escape)
  go_on-Stands continue r n pcmd e = ground (arith, drive-Stands r n pcmd)
  go_on-Stands escape r n pcmd e = inr (inr e)
  go_on-Stands replan r n pcmd e =
      let planned = record n {
        navdata = record (n.navdata) { replan_waypt = to_map_id null_id };
      } in
      let (road, n') = road_reset k r.road planned in
      elim (Bool-cases (n.order.replan_num == r.last_replan)) [
        | inl waiting ↦ rw waiting (inl refl)
        | inr planned ↦ rw planned (
            add_escape _ _ _ (drive-Stands (record r { road = road; go_state = continue }) n' pcmd))
      ]

  behave-Stands :
      (b : Behavior) (r : Run F) (n : Nav F W) (pcmd : PilotCommand F)
      → Stands b r n (behave t k b r n pcmd)
  unfolding behave
  behave-Stands Behavior.go r n pcmd =
      elim (Bool-cases (id_eq (waypt_id 0 n.order) (waypt_id 1 n.order))) [
        | inl same ↦ rw same (inl refl)
        | inr differ ↦ rw differ (elim (go_on-Stands r.go_state r n pcmd refl) [
          | inl h ↦ inl h
          | inr d ↦ inr (refl, refl, d)
        ])
      ]
  behave-Stands Behavior.initialize r n pcmd = inl (ground arith)
  behave-Stands _ r n pcmd = inl refl

  halted-Standing : (p : PilotCommand F) → p ≡ halted → Standing p
  halted-Standing p h = ground arith

  reversed-Standing : (m : Motion F W) → m.pcmd ≡ halted → Standing (reversed m).pcmd
  reversed-Standing m h = ground arith

  -- A cycle of Run leaves the vehicle standing, with no speed and no turn, unless the order is Go, the lanes are
  -- known, the first two way-points differ once those passed are dropped, and the road machine ends in
  -- none of its waiting states (or Run is in the state Escape, which is not ported).
  pub run_control-Stands :
      (r : Run F) (n : Nav F W)
      → Standing (run_control t k r n).motion.pcmd ⊎ Drives r n (run_control t k r n)
  unfolding run_control
  run_control-Stands r n =
      let n' = begin_run_cycle t (record n { rest = t.control_pose n.rest }) in
      elim (Bool-cases (is_run_order n.order.behavior || t.no_polygons n.rest)) [
        | inl idle ↦ rw idle (inl (inl refl, refl))
        | inr busy ↦ rw busy (elim (behave-Stands n'.order.behavior r n' (full_speed t n)) [
          | inl h ↦ inl (reversed-Standing _ h)
          | inr (order, differ, road) ↦ inr (record {
            ordered = sym (advance_order-behavior 4 n.navdata.last_waypt n.order) ∙ order;
            mapped = ground arith;
            under_way = differ;
            on_road = road;
          })
        ])
      ]

  -- A cycle of the navigator leaves the vehicle standing unless it ends with the E-stop state Run, and Run,
  -- for the order and the geometry of the cycle, moves the vehicle.
  pub navigate-Stands :
      (speed epsilon : F) (e : Estop) (n : Nav F (Driving F W)) (pcmd : PilotCommand F)
      → Standing (navigate t k speed epsilon e n pcmd).motion.pcmd
        ⊎ ((navigate t k speed epsilon e n pcmd).estop.estop_state ≡ EstopState.run)
          × (n' : Nav F W) × (n'.order ≡ n.order)
          × (n'.rest ≡ n.rest.world)
          × Drives n.rest.run n' (run_control t k n.rest.run n')
  unfolding navigate
  navigate-Stands speed epsilon e n pcmd =
      elim (estop_control-Runs (driver t k) e (observed speed epsilon n) pcmd) [
        | inl h ↦ inl (halted-Standing _ h)
        | inr (runs, n₂, order, rest, m) ↦
            let c = navigate t k speed epsilon e n pcmd in
            subst
              (λ (d : Driving F W).
                Standing c.motion.pcmd
                ⊎ (c.estop.estop_state ≡ EstopState.run)
                  × (n' : Nav F W) × (n'.order ≡ n.order)
                  × (n'.rest ≡ d.world)
                  × Drives d.run n' (run_control t k d.run n'))
              rest
              (elim (run_control-Stands n₂.rest.run (seen n₂)) [
                | inl stands ↦
                    inl
                      (subst Standing (sym (ap (λ (a : Motion F (Driving F W)). a.pcmd) m)) stands)
                | inr drives ↦ inr (runs, seen n₂, order, refl, drives)
              ])
      ]
