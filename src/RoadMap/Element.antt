-- ===== src/RoadMap/Element.antt =====
-- RNDF element identifiers, class ElementID of art_map/include/art_map/types.h, and the MapID
-- message that carries one (art_msgs/msg/MapID.msg).
pub mod Order
use utexas_art_ros_pkg.Base.{
  ℕ, ◌+◌, ◌-◌, ◌%◌, ◌<◌, ◌≤◌, ◌≡◌, ◌↔◌, Bool, true, false, ◌&&◌, ◌||◌, not, if◌then◌else◌, ltb, ℤ,
  pos, negsuc, ltb_ℤ, eqb_ℤ, ◌+ℤ◌, ◌-ℤ◌, eqb_ℤ_iff, arith,
}

-- The fields are `int16_t`.
pub record ElementId : Type 0 where
  pub seg : ℤ
  pub lane : ℤ
  pub pt : ℤ

-- The fields are `uint16`.
pub record MapId : Type 0 where
  pub seg : ℕ
  pub lane : ℕ
  pub pt : ℕ

-- `--` and `++` on an `int16_t`
abbrev pub decrement : ℤ → ℤ
decrement a = if eqb_ℤ a (negsuc 32767) then pos 32767 else a -ℤ pos 1

abbrev pub increment : ℤ → ℤ
increment a = if eqb_ℤ a (pos 32767) then negsuc 32767 else a +ℤ pos 1

-- ElementID(), the null identifier
abbrev pub null_id : ElementId
null_id = record { seg = negsuc 0; lane = negsuc 0; pt = negsuc 0 }

-- the conversions between `uint16` and `int16_t`
unfoldable pub to_int16 : ℕ → ℤ
to_int16 n = if ltb n 32768 then pos n else negsuc (65535 - n)

unfoldable pub to_uint16 : ℤ → ℕ
to_uint16 (pos n) = n
to_uint16 (negsuc n) = 65535 - n

-- ElementID(art_msgs::MapID)
unfoldable pub element_id : MapId → ElementId
unfolding to_int16
element_id mid = record { seg = to_int16 mid.seg; lane = to_int16 mid.lane; pt = to_int16 mid.pt }

unfoldable pub to_map_id : ElementId → MapId
unfolding to_uint16
to_map_id id = record { seg = to_uint16 id.seg; lane = to_uint16 id.lane; pt = to_uint16 id.pt }

-- operator==
unfoldable pub id_eq : ElementId → ElementId → Bool
id_eq a b = eqb_ℤ a.seg b.seg && eqb_ℤ a.lane b.lane && eqb_ℤ a.pt b.pt

-- operator!=
unfoldable pub id_ne : ElementId → ElementId → Bool
id_ne a b = not (eqb_ℤ a.seg b.seg) || not (eqb_ℤ a.lane b.lane) || not (eqb_ℤ a.pt b.pt)

-- operator<
unfoldable pub id_lt : ElementId → ElementId → Bool
id_lt a b =
    if not (eqb_ℤ a.seg b.seg)
    then ltb_ℤ a.seg b.seg
    else if not (eqb_ℤ a.lane b.lane)
    then ltb_ℤ a.lane b.lane
    else ltb_ℤ a.pt b.pt

-- operator>
unfoldable pub id_gt : ElementId → ElementId → Bool
id_gt a b =
    if not (eqb_ℤ a.seg b.seg)
    then ltb_ℤ b.seg a.seg
    else if not (eqb_ℤ a.lane b.lane)
    then ltb_ℤ b.lane a.lane
    else ltb_ℤ b.pt a.pt

-- valid()
unfoldable pub valid : ElementId → Bool
valid a = not (ltb_ℤ a.seg (pos 0)) && not (ltb_ℤ a.lane (pos 0)) && not (ltb_ℤ a.pt (pos 0))

-- same_lane(ElementID)
unfoldable pub same_lane : ElementId → ElementId → Bool
same_lane a b = eqb_ℤ a.seg b.seg && eqb_ℤ a.lane b.lane

pub id_eq_iff : (a b : ElementId) → (id_eq a b ≡ true) ↔ (a ≡ b)
unfolding id_eq
id_eq_iff a b = ground (arith, eqb_ℤ_iff a.seg b.seg, eqb_ℤ_iff a.lane b.lane, eqb_ℤ_iff a.pt b.pt)
