-- ===== src/Navigator/Course/Ahead.antt =====
-- What Course makes of the way-points of an order: the loop of begin_run_cycle,
-- art_nav/src/navigator/course.cc.
use native.Mathlib.Nat.{add-zero, add-suc}
use utexas_art_ros_pkg.Base.{
  if_elim, ℕ, zero, suc, ◌+◌, ◌≤◌, ◌<◌, ◌≡◌, ◌≢◌, refl, ap, subst, ◌∙◌, ◌⊎◌, inl, inr, true, false,
  List, [], ◌∷◌, get_or, length, arith,
}
use utexas_art_ros_pkg.Numeric.{Floats}
use utexas_art_ros_pkg.RoadMap.Element.{ElementId, MapId, element_id, id_ne, id_eq_iff}
use utexas_art_ros_pkg.RoadMap.Element.Order.{id_ne-eq-not}
use utexas_art_ros_pkg.RoadMap.WayPoint.{WayPoint}
use utexas_art_ros_pkg.Messages.{Order, no_way_point}
use utexas_art_ros_pkg.Navigator.Course.{repeat_last, shift, waypt, waypt_id, advance_order}

-- The element at an index, or the last one.
abbrev pub get_or_last {ℓ} : {A : Type ℓ} → A → List A → ℕ → A
get_or_last x [] i = x
get_or_last x (y ∷ ys) zero = x
get_or_last x (y ∷ ys) (suc i) = get_or_last y ys i

module _ {ℓ} {A : Type ℓ} where
  get_or_last-repeat_last :
      (x : A) (xs : List A) (i : ℕ) → get_or_last x (repeat_last x xs) i ≡ get_or_last x xs i
  get_or_last-repeat_last x [] zero = refl
  get_or_last-repeat_last x [] (suc i) = refl
  get_or_last-repeat_last x (y ∷ ys) zero = refl
  get_or_last-repeat_last x (y ∷ ys) (suc i) = get_or_last-repeat_last y ys i

  length-repeat_last : (x : A) (xs : List A) → length (repeat_last x xs) ≡ suc (length xs)
  length-repeat_last x [] = refl
  length-repeat_last x (y ∷ ys) = ap suc (length-repeat_last y ys)

  -- The array after a round, as its first element and the others.
  record Shifted (x : A) (xs : List A) : Type ℓ where
    first : A
    others : List A
    is_shift : repeat_last x xs ≡ first ∷ others
    moved : (i : ℕ) → get_or_last first others i ≡ get_or_last x xs (suc i)
    as_long : length others ≡ length xs

  shifted : (x : A) (xs : List A) → Shifted x xs
  shifted x [] = record {
    first = x;
    others = [];
    is_shift = refl;
    moved = λ i. refl;
    as_long = refl;
  }
  shifted x (y ∷ ys) = record {
    first = y;
    others = repeat_last y ys;
    is_shift = refl;
    moved = get_or_last-repeat_last y ys;
    as_long = length-repeat_last y ys;
  }

  get_or-get_or_last :
      (x d : A) (xs : List A) (i : ℕ) → i ≤ length xs → get_or (x ∷ xs) i d ≡ get_or_last x xs i
  get_or-get_or_last x d [] zero h = refl
  get_or-get_or_last x d [] (suc i) h = absurd (omega arith)
  get_or-get_or_last x d (y ∷ ys) zero h = refl
  get_or-get_or_last x d (y ∷ ys) (suc i) h = get_or-get_or_last y d ys i (omega arith)

id_ne-false : (a b : ElementId) → id_ne a b ≡ false → a ≡ b
id_ne-false a b h = ground (arith, id_ne-eq-not a b, id_eq_iff a b)

id_ne-true : (a b : ElementId) → id_ne a b ≡ true → a ≢ b
id_ne-true a b h = ground (arith, id_ne-eq-not a b, id_eq_iff a b)

module _ {F : Type 0} ⦃fl : Floats F⦄ (last : MapId) where
  -- The order `p` that the loop makes of `o`, which has the way-points w ∷ ws, within `limit` rounds.
  pub record Advanced (limit : ℕ) (o p : Order F) (w : WayPoint F) (ws : List (WayPoint F))
      : Type 0 where
    pub rounds : ℕ
    pub within : rounds ≤ limit
    -- every way-point moved down by the rounds, and the last one fills the end
    pub moved : (i : ℕ) → i ≤ length ws → waypt i p ≡ get_or_last w ws (i + rounds)
    -- the first is the last one reached, or the rounds are used up
    pub ended : (waypt_id 0 p ≡ element_id last) ⊎ (rounds ≡ limit)
    -- only way-points before the last one reached are dropped
    pub dropped : (j : ℕ) → j < rounds → element_id (get_or_last w ws j).id ≢ element_id last
    pub others : record p { waypt = o.waypt } ≡ o

  waypt-get :
      (o : Order F) (w : WayPoint F) (ws : List (WayPoint F)) (i : ℕ)
      → o.waypt ≡ w ∷ ws
      → i ≤ length ws
      → waypt i o ≡ get_or_last w ws i
  waypt-get o w ws i e h =
      ap (λ (l : List (WayPoint F)). get_or l i no_way_point) e
      ∙ get_or-get_or_last w no_way_point ws i h

  at_once :
      (limit : ℕ) (o : Order F) (w : WayPoint F) (ws : List (WayPoint F))
      → o.waypt ≡ w ∷ ws
      → (waypt_id 0 o ≡ element_id last) ⊎ (0 ≡ limit)
      → Advanced limit o o w ws
  at_once limit o w ws e ended = record {
    rounds = 0;
    within = omega arith;
    moved = λ i h. rw add-zero (waypt-get o w ws i e h);
    ended = ended;
    dropped = λ j h. absurd (omega arith);
    others = refl;
  }

  -- After a round the loop goes on with the shifted way-points.
  after_round :
      (limit : ℕ) (o p : Order F) (w : WayPoint F) (ws : List (WayPoint F)) (s : Shifted w ws)
      → element_id (get_or_last w ws 0).id ≢ element_id last
      → Advanced limit (record o { waypt = shift o.waypt }) p s.first s.others
      → Advanced (suc limit) o p w ws
  after_round limit o p w ws s differs a = record {
    rounds = suc a.rounds;
    within = omega (arith, a.within);
    moved = λ i h. rw add-suc (a.moved i (omega (arith, s.as_long)) ∙ s.moved (i + a.rounds));
    ended = elim a.ended [ inl e ↦ inl e | inr e ↦ inr (ap suc e) ];
    dropped = elim [
      | zero ↦ λ h. differs
      | suc j ↦ λ h.
          subst (λ (v : WayPoint F). element_id v.id ≢ element_id last) (s.moved j)
            (a.dropped j (omega arith))
    ];
    others = ap (λ (q : Order F). record q { waypt = o.waypt }) a.others;
  }

  -- The loop moves the way-points of an order of any length down, in at most its rounds, past those that
  -- come before the last way-point reached: it stops where that one comes first, or after all its
  -- rounds; the last way-point of the order fills the places left at the end, and the rest of the
  -- order stays as it is.
  pub advance_order-Advanced :
      (limit : ℕ) (o : Order F) (w : WayPoint F) (ws : List (WayPoint F))
      → o.waypt ≡ w ∷ ws
      → Advanced limit o (advance_order limit last o) w ws
  unfolding advance_order
  advance_order-Advanced zero o w ws e = at_once zero o w ws e (inr refl)
  advance_order-Advanced (suc limit) o w ws e =
      let s = shifted w ws in
      if_elim (λ p. Advanced (suc limit) o p w ws) (id_ne (waypt_id 0 o) (element_id last))
        (λ more.
          after_round limit o _ w ws s
            (subst (λ (v : WayPoint F). element_id v.id ≢ element_id last)
              (waypt-get o w ws 0 e (omega arith)) (id_ne-true _ _ more))
            (advance_order-Advanced limit (record o { waypt = shift o.waypt }) s.first s.others
              (ap shift e ∙ s.is_shift)))
        (λ done. at_once (suc limit) o w ws e (inl (id_ne-false _ _ done)))
