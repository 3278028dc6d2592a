-- ===== src/Lanes/Select/Ids.antt =====
-- The set of lanes that getPolyLaneIds of art_map/src/lib/PolyOps.cc returns.
use utexas_art_ros_pkg.Base.{
  ◌≡◌, refl, sym, ◌∙◌, inl, inr, true, false, false≢true, List, [], ◌∷◌, All, All-mono, All-Memᴰ,
  if_elim, pos,
}
use mathlib.Core.List.{Memᴰ}
use mathlib.Core.List.Memᴰ
use utexas_art_ros_pkg.RoadMap.Element.{ElementId, id_lt, id_eq_iff}
use utexas_art_ros_pkg.RoadMap.Element.Order.{id_lt_trans, id_order, id_gt-eq-id_lt}
use utexas_art_ros_pkg.Lanes.Poly.{Poly}
use utexas_art_ros_pkg.Lanes.Select.{insert_id, lane_ids_from, get_poly_lane_ids}

-- strictly ascending, so that no identifier stands twice
abbrev pub Ascending : List ElementId → Type 0
Ascending [] = Unit
Ascending (a ∷ ids) = All (λ b. id_lt a b ≡ true) ids × Ascending ids

insert_id-All {ℓ} :
    (P : ElementId → Type ℓ) (a : ElementId) (ids : List ElementId)
    → P a
    → All P ids
    → All P (insert_id a ids)
unfolding insert_id
insert_id-All P a [] p h = (p, tt)
insert_id-All P a (b ∷ bs) p h =
    if_elim (All P) (id_lt a b) (λ _. (p, h))
      (λ _. if_elim (All P) (id_lt b a) (λ _. (h.0, insert_id-All P a bs p h.1)) (λ _. h))

insert_id-Ascending :
    (a : ElementId) (ids : List ElementId) → Ascending ids → Ascending (insert_id a ids)
unfolding insert_id
insert_id-Ascending a [] h = (tt, tt)
insert_id-Ascending a (b ∷ bs) h =
    if_elim Ascending (id_lt a b)
      (λ l. ((l, All-mono _ _ (λ c m. id_lt_trans a b c l m) bs h.0), h))
      (λ _.
        if_elim Ascending (id_lt b a)
          (λ l. (insert_id-All (λ c. id_lt b c ≡ true) a bs l h.0, insert_id-Ascending a bs h.1))
          (λ _. h))

insert_id-keeps :
    (a : ElementId) (ids : List ElementId) (c : ElementId) → Memᴰ c ids → Memᴰ c (insert_id a ids)
unfolding insert_id
insert_id-keeps a [] c m = absurd (Memᴰ.not-nil m)
insert_id-keeps a (b ∷ bs) c (Memᴰ.head e) =
    if_elim (Memᴰ c) (id_lt a b) (λ _. Memᴰ.tail (Memᴰ.head e))
      (λ _. if_elim (Memᴰ c) (id_lt b a) (λ _. Memᴰ.head e) (λ _. Memᴰ.head e))
insert_id-keeps a (b ∷ bs) c (Memᴰ.tail m) =
    if_elim (Memᴰ c) (id_lt a b) (λ _. Memᴰ.tail (Memᴰ.tail m))
      (λ _.
        if_elim (Memᴰ c) (id_lt b a) (λ _. Memᴰ.tail (insert_id-keeps a bs c m)) (λ _. Memᴰ.tail m))

-- of two identifiers of which neither comes before the other
same_id : (a b : ElementId) → id_lt a b ≡ false → id_lt b a ≡ false → a ≡ b
same_id a b e f = elim (id_order a b).2 [
  | inl l ↦ absurd (false≢true (sym e ∙ l))
  | inr (inl q) ↦ (id_eq_iff a b).0 q
  | inr (inr g) ↦ absurd (false≢true (sym f ∙ (sym (id_gt-eq-id_lt a b) ∙ g)))
]

insert_id-has : (a : ElementId) (ids : List ElementId) → Memᴰ a (insert_id a ids)
unfolding insert_id
insert_id-has a [] = Memᴰ.head refl
insert_id-has a (b ∷ bs) =
    if_elim (Memᴰ a) (id_lt a b) (λ _. Memᴰ.head refl)
      (λ e.
        if_elim (Memᴰ a) (id_lt b a) (λ _. Memᴰ.tail (insert_id-has a bs))
          (λ f. Memᴰ.head (same_id a b e f)))

module _ {F : Type 0} where
  -- the lane of a polygon, as an identifier with the way-point number 0
  abbrev pub lane_id : Poly F → ElementId
  lane_id p = record { seg = p.start_way.seg; lane = p.start_way.lane; pt = pos 0 }

  lane_ids_from-Ascending :
      (ps : List (Poly F)) (ids : List ElementId) → Ascending ids → Ascending (lane_ids_from ps ids)
  unfolding lane_ids_from
  lane_ids_from-Ascending [] ids h = h
  lane_ids_from-Ascending (p ∷ ps) ids h =
      lane_ids_from-Ascending ps _ (insert_id-Ascending (lane_id p) ids h)

  lane_ids_from-All {ℓ} :
      (P : ElementId → Type ℓ) (ps : List (Poly F)) (ids : List ElementId)
      → All (λ p. P (lane_id p)) ps
      → All P ids
      → All P (lane_ids_from ps ids)
  unfolding lane_ids_from
  lane_ids_from-All P [] ids h a = a
  lane_ids_from-All P (p ∷ ps) ids h a =
      lane_ids_from-All P ps _ h.1 (insert_id-All P (lane_id p) ids h.0 a)

  lane_ids_from-keeps :
      (ps : List (Poly F)) (ids : List ElementId) (c : ElementId)
      → Memᴰ c ids
      → Memᴰ c (lane_ids_from ps ids)
  unfolding lane_ids_from
  lane_ids_from-keeps [] ids c m = m
  lane_ids_from-keeps (p ∷ ps) ids c m =
      lane_ids_from-keeps ps _ c (insert_id-keeps (lane_id p) ids c m)

  lane_ids_from-has :
      (ps : List (Poly F)) (ids : List ElementId)
      → All (λ p. Memᴰ (lane_id p) (lane_ids_from ps ids)) ps
  unfolding lane_ids_from
  lane_ids_from-has [] ids = tt
  lane_ids_from-has (p ∷ ps) ids = (
    lane_ids_from-keeps ps _ (lane_id p) (insert_id-has (lane_id p) ids),
    lane_ids_from-has ps (insert_id (lane_id p) ids),
  )

  -- The lanes of a list of polygons are in strictly ascending order, so that none stands twice,
  -- each is the lane of a polygon of the list, and the lane of every polygon is among them.
  pub get_poly_lane_ids-Ascending :
      (polys : List (Poly F))
      → Ascending (get_poly_lane_ids polys)
        × All (λ id. (p : Poly F) × Memᴰ p polys × (id ≡ lane_id p)) (get_poly_lane_ids polys)
        × All (λ p. Memᴰ (lane_id p) (get_poly_lane_ids polys)) polys
  unfolding get_poly_lane_ids
  get_poly_lane_ids-Ascending polys = (
    lane_ids_from-Ascending polys [] tt,
    lane_ids_from-All _ polys []
        (All-mono (λ p. Memᴰ p polys) _ (λ p m. (p, m, refl)) polys (All-Memᴰ polys)) tt,
    lane_ids_from-has polys [],
  )
