-- ===== src/RoadMap/Element/Order.antt =====
-- The comparisons of ElementID, and its conversions to and from the MapID message.
use utexas_art_ros_pkg.Base.{
  ℕ, ◌+◌, ◌<◌, ◌≡◌, ◌≢◌, ◌↔◌, ◌⊎◌, true, false, not, ℤ, pos_part, neg_part, eqb_ℤ_iff, arith,
}
use utexas_art_ros_pkg.RoadMap.Element.{
  ElementId, MapId, null_id, element_id, to_map_id, to_int16, to_uint16, id_eq, id_ne, id_lt, id_gt,
  id_eq_iff,
}

-- a < b, as a relation on the integers
abbrev Below : ℤ → ℤ → Type 0
Below a b = pos_part a + neg_part b < pos_part b + neg_part a

-- the lexicographic order
abbrev Before : ElementId → ElementId → Type 0
Before a b =
    Below a.seg b.seg
    ⊎ (a.seg ≡ b.seg) × (Below a.lane b.lane ⊎ (a.lane ≡ b.lane) × Below a.pt b.pt)

id_lt_iff : (a b : ElementId) → (id_lt a b ≡ true) ↔ Before a b
unfolding id_lt
id_lt_iff a b = ground (arith, eqb_ℤ_iff a.seg b.seg, eqb_ℤ_iff a.lane b.lane)

Before-trans : (a b c : ElementId) → Before a b → Before b c → Before a c
Before-trans a b c h k = ground arith

ltb_ℤ_total : (a b : ℤ) → Below a b ⊎ (a ≡ b) ⊎ Below b a
ltb_ℤ_total a b = ground arith

pub id_lt_trans : (a b c : ElementId) → id_lt a b ≡ true → id_lt b c ≡ true → id_lt a c ≡ true
id_lt_trans a b c h k =
    (id_lt_iff a c).1 (Before-trans a b c ((id_lt_iff a b).0 h) ((id_lt_iff b c).0 k))

id_lt_irrefl : (a : ElementId) → id_lt a a ≡ false
unfolding id_lt
id_lt_irrefl a = ground arith

Before-total : (a b : ElementId) → Before a b ⊎ (a ≡ b) ⊎ Before b a
Before-total a b =
    ground (arith, ltb_ℤ_total a.seg b.seg, ltb_ℤ_total a.lane b.lane, ltb_ℤ_total a.pt b.pt)

Before-asym : (a b : ElementId) → Before a b → ¬ Before b a
Before-asym a b h k = ground arith

pub id_gt-eq-id_lt : (a b : ElementId) → id_gt a b ≡ id_lt b a
unfolding id_gt id_lt
id_gt-eq-id_lt a b = ground (
  arith,
  eqb_ℤ_iff a.seg b.seg,
  eqb_ℤ_iff b.seg a.seg,
  eqb_ℤ_iff a.lane b.lane,
  eqb_ℤ_iff b.lane a.lane,
)

id_eq-false : (a b : ElementId) → a ≢ b → id_eq a b ≡ false
id_eq-false a b h = ground (arith, id_eq_iff a b)

lt_excludes : (a b : ElementId) → id_lt a b ≡ true → (id_eq a b ≡ false) × (id_gt a b ≡ false)
lt_excludes a b h =
    let before = (id_lt_iff a b).0 h in
    (
      id_eq-false a b (λ e. Before-asym a b before (ground arith)),
      ground (arith, id_gt-eq-id_lt a b, id_lt_iff b a, Before-asym a b before),
    )

pub id_ne-eq-not : (a b : ElementId) → id_ne a b ≡ not (id_eq a b)
unfolding id_ne id_eq
id_ne-eq-not a b = ground arith

-- The comparisons of identifiers are a strict total order: `<` is irreflexive and transitive, of
-- two identifiers exactly one of `<`, `==`, `>` holds, and `!=` is the negation of `==`.
pub id_order :
    (a b : ElementId)
    → (id_lt a a ≡ false)
      × ((c : ElementId) → id_lt a b ≡ true → id_lt b c ≡ true → id_lt a c ≡ true)
      × ((id_lt a b ≡ true) ⊎ (id_eq a b ≡ true) ⊎ (id_gt a b ≡ true))
      × ((id_lt a b ≡ true) → (id_eq a b ≡ false) × (id_gt a b ≡ false))
      × ((id_gt a b ≡ true) → id_eq a b ≡ false)
      × (id_ne a b ≡ not (id_eq a b))
id_order a b = (
  id_lt_irrefl a,
  λ c. id_lt_trans a b c,
  ground (arith, Before-total a b, id_lt_iff a b, id_lt_iff b a, id_eq_iff a b, id_gt-eq-id_lt a b),
  λ h. lt_excludes a b h,
  λ h. ground (arith, lt_excludes b a, id_gt-eq-id_lt a b, id_eq_iff a b, id_eq_iff b a),
  id_ne-eq-not a b,
)

to_uint16_int16 : (n : ℕ) → n < 65536 → to_uint16 (to_int16 n) ≡ n
unfolding to_int16 to_uint16
to_uint16_int16 n h = ground arith

-- the values of an `int16_t`
abbrev pub IsInt16 : ℤ → Type 0
IsInt16 a = (pos_part a < 32768) × (neg_part a < 32769)

to_int16_uint16 : (a : ℤ) → IsInt16 a → to_int16 (to_uint16 a) ≡ a
unfolding to_int16 to_uint16
to_int16_uint16 a h = ground arith

abbrev pub IsMapId : MapId → Type 0
IsMapId m = (m.seg < 65536) × (m.lane < 65536) × (m.pt < 65536)

abbrev pub IsElementId : ElementId → Type 0
IsElementId a = IsInt16 a.seg × IsInt16 a.lane × IsInt16 a.pt

pub element_id-to_map_id : (a : ElementId) → IsElementId a → element_id (to_map_id a) ≡ a
unfolding element_id to_map_id
element_id-to_map_id a h =
    ground (arith, to_int16_uint16 a.seg, to_int16_uint16 a.lane, to_int16_uint16 a.pt)

-- An identifier comes back from its MapID message, a message of 16-bit words comes back from its
-- identifier, and the null identifier is the message whose words are all 65535.
pub element_id_round_trip :
    (a : ElementId) (m : MapId)
    → IsElementId a
    → IsMapId m
    → (element_id (to_map_id a) ≡ a)
      × (to_map_id (element_id m) ≡ m)
      × ((element_id m ≡ null_id) ↔ (m ≡ record { seg = 65535; lane = 65535; pt = 65535 }))
unfolding element_id to_map_id
element_id_round_trip a m ha hm = (
  element_id-to_map_id a ha,
  ground (arith, to_uint16_int16 m.seg, to_uint16_int16 m.lane, to_uint16_int16 m.pt),
  ground arith,
)
