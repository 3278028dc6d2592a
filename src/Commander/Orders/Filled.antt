-- ===== src/Commander/Orders/Filled.antt =====
-- The behavior of the orders that prepare_order returns, art_nav/src/commander/command.cc.
use utexas_art_ros_pkg.Base.{
  ℕ, zero, suc, ◌+◌, ◌≡◌, refl, ◌∙◌, List, [], ◌∷◌, if_elim, Option-cases, ◌⊎◌, inl, inr, pos,
}
use utexas_art_ros_pkg.Numeric.{Floats}
use utexas_art_ros_pkg.RoadMap.WayPoint.{WayPointEdge}
use utexas_art_ros_pkg.Messages.{Behavior, Order}
use utexas_art_ros_pkg.Commander.State.{Commander, ZonePerimeter, ok}
use utexas_art_ros_pkg.Commander.Outcomes.{Ensures, Ensures-bind}
use utexas_art_ros_pkg.Commander.Orders.{
  Filling, filling, stopped, order_edge, order_node, with_edge, fill_waypt, fill_from,
  limit_in_zones, finish, begin_order, prepare_order,
}

module _ {F : Type 0} ⦃fl : Floats F⦄ (b : Behavior) where
  -- the behavior that was asked for, or Abort for an order that is returned at once
  abbrev Behaves : Filling F → Type 0
  Behaves (filling o) = o.behavior ≡ b
  Behaves (stopped o) = o.behavior ≡ Behavior.abort

  with_edge-behavior :
      (c : Commander F) (e : WayPointEdge F) (i : ℕ) (o : Order F)
      → (with_edge c e i o).behavior ≡ o.behavior
  with_edge-behavior c e zero o = refl
  with_edge-behavior c e (suc j) o = refl

  fill_waypt-Behaves :
      (c : Commander F) (i : ℕ) (o : Order F) → o.behavior ≡ b → Ensures Behaves (fill_waypt c i o)
  unfolding fill_waypt
  fill_waypt-Behaves c i o h =
      let e = order_edge c.route i in
      if_elim (Ensures Behaves) (fl.lt e.distance (fl.of_int (pos 0))) (λ _. refl)
        (λ _. elim (Option-cases (order_node c.graph e i)) [
          | inl n ↦ rw n tt
          | inr (x, n) ↦ rw n (with_edge-behavior c e i o ∙ h)
        ])

  -- what a round leaves is carried on by the next rounds
  next_rounds :
      (c : Commander F) (k i : ℕ)
      → ((o : Order F) → o.behavior ≡ b → Ensures Behaves (fill_from c k i o))
      → (r : Filling F) → Behaves r
      → Ensures Behaves (elim r [ stopped o ↦ ok (stopped o) | filling o ↦ fill_from c k i o ])
  next_rounds c k i f (stopped o) h = h
  next_rounds c k i f (filling o) h = f o h

  fill_from-Behaves :
      (c : Commander F) (k i : ℕ) (o : Order F)
      → o.behavior ≡ b
      → Ensures Behaves (fill_from c k i o)
  unfolding fill_from
  fill_from-Behaves c zero i o h = h
  fill_from-Behaves c (suc k) i o h =
      Ensures-bind Behaves Behaves (fill_waypt c i o) _ (fill_waypt-Behaves c i o h)
        (next_rounds c k (i + 1) (λ o' h'. fill_from-Behaves c k (i + 1) o' h'))

  limit_in_zones-behavior :
      (speedlimit : F) (zs : List (ZonePerimeter F)) (o : Order F)
      → (limit_in_zones speedlimit zs o).behavior ≡ o.behavior
  unfolding limit_in_zones
  limit_in_zones-behavior speedlimit [] o = refl
  limit_in_zones-behavior speedlimit (z ∷ zs) o =
      limit_in_zones-behavior speedlimit zs _
      ∙ if_elim (λ (p : Order F). p.behavior ≡ o.behavior) _ (λ _. refl) (λ _. refl)

  abbrev Ends : Commander F × Order F → Type 0
  Ends r = (r.1.behavior ≡ b) ⊎ (r.1.behavior ≡ Behavior.abort)

  finished :
      (c : Commander F) (r : Filling F)
      → Behaves r
      → Ensures Ends (elim r [
        | stopped o ↦ ok (record c { order = o }, o)
        | filling o ↦ ok (record c { order = finish c o }, finish c o)
      ])
  finished c (stopped o) h = inr h
  finished c (filling o) h = inl (limit_in_zones-behavior c.speedlimit c.zones o ∙ h)

  pub prepare_order-behavior : (c : Commander F) → Ensures Ends (prepare_order c b)
  unfolding prepare_order
  prepare_order-behavior c =
      Ensures-bind Behaves Ends (fill_from c 5 0 (begin_order c b)) _
        (fill_from-Behaves c 5 0 (begin_order c b) refl) (finished c)
