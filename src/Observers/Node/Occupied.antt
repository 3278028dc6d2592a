-- ===== src/Observers/Node/Occupied.antt =====
-- The polygons with obstacles in them: filterPointsInLocalMap of
-- art_observers/src/nodes/lane_observations.cc.
use mathlib.Core.List.{Memᴰ}
use mathlib.Core.List.Memᴰ
use utexas_art_ros_pkg.Base.{
  ◌≡◌, refl, sym, subst, Bool, true, false, false≢true, List, [], ◌∷◌, ◌++◌, if◌then◌else◌, if_elim,
  All, All-append, All-mono, All-Memᴰ, All-lookup, ℤ, eqb_ℤ, eqb_ℤ_iff, map, Bool-cases, inl, inr,
}
use utexas_art_ros_pkg.Numeric.{Floats}
use utexas_art_ros_pkg.RoadMap.WayPoint.{MapXy}
use utexas_art_ros_pkg.Lanes.Message.{ArtQuadrilateral}
use utexas_art_ros_pkg.Observers.Quads.{quick_point_in_poly_ratio, far, inner_ratio}
use utexas_art_ros_pkg.Observers.Node.{
  Occupancy, has_quad, add_quad, point_in_polys, is_point_in_a_polygon, filter_points,
  filter_points_in_local_map,
}

module _ {F : Type 0} where
  abbrev pub ids : List (ArtQuadrilateral F) → List ℤ
  ids qs = map (λ (q : ArtQuadrilateral F). q.poly_id) qs

  -- no polygon of a list has an identifier
  abbrev pub Lacks : ℤ → ArtQuadrilateral F → Type 0
  Lacks id q = eqb_ℤ q.poly_id id ≡ false

  -- no two polygons of a list have one identifier
  abbrev pub Distinct : List (ArtQuadrilateral F) → Type 0
  Distinct [] = Unit
  Distinct (q ∷ qs) = All (λ r. Lacks r.poly_id q) qs × Distinct qs

  Distinct-concat :
      (qs : List (ArtQuadrilateral F)) (q : ArtQuadrilateral F)
      → Distinct qs
      → All (Lacks q.poly_id) qs
      → Distinct (qs ++ (q ∷ []))
  Distinct-concat [] q d l = (tt, tt)
  Distinct-concat (r ∷ rs) q d l =
      (All-append (λ s. Lacks s.poly_id r) rs (q ∷ []) d.0 (l.0, tt), Distinct-concat rs q d.1 l.1)

  -- Two polygons with an identifier, of which one is in the list: a list that holds a polygon's
  -- identifier.
  abbrev pub Holds : List (ArtQuadrilateral F) → ArtQuadrilateral F → Type 0
  Holds qs q = (r : ArtQuadrilateral F) × Memᴰ r qs × (r.poly_id ≡ q.poly_id)

  Memᴰ-append_left :
      (qs rs : List (ArtQuadrilateral F)) {q : ArtQuadrilateral F} → Memᴰ q qs → Memᴰ q (qs ++ rs)
  Memᴰ-append_left [] rs m = absurd (Memᴰ.not-nil m)
  Memᴰ-append_left (q ∷ qs) rs (Memᴰ.head e) = Memᴰ.head e
  Memᴰ-append_left (q ∷ qs) rs (Memᴰ.tail m) = Memᴰ.tail (Memᴰ-append_left qs rs m)

  Memᴰ-concat : (qs : List (ArtQuadrilateral F)) (q : ArtQuadrilateral F) → Memᴰ q (qs ++ (q ∷ []))
  Memᴰ-concat [] q = Memᴰ.head refl
  Memᴰ-concat (r ∷ rs) q = Memᴰ.tail (Memᴰ-concat rs q)

  Holds-append :
      (qs rs : List (ArtQuadrilateral F)) (q : ArtQuadrilateral F) → Holds qs q → Holds (qs ++ rs) q
  Holds-append qs rs q (r, m, e) = (r, Memᴰ-append_left qs rs m, e)

  -- The set has the identifiers of the vector, which are distinct.
  pub record Tracks (c : Occupancy F) : Type 0 where
    pub known :
        (q : ArtQuadrilateral F) → has_quad q.poly_id c.added_quads ≡ true → Holds c.obs_quads q
    pub unknown :
        (q : ArtQuadrilateral F)
        → has_quad q.poly_id c.added_quads ≡ false
        → All (Lacks q.poly_id) c.obs_quads
    pub distinct : Distinct c.obs_quads

  -- The occupancy `d` is `c` with more polygons, all of them with the property `P`.
  record Grown (P : ArtQuadrilateral F → Type 0) (c d : Occupancy F) : Type 0 where
    tracks : Tracks d
    sound : All P d.obs_quads
    keeps : (q : ArtQuadrilateral F) → Holds c.obs_quads q → Holds d.obs_quads q

  pushed-Tracks :
      (q : ArtQuadrilateral F) (c : Occupancy F)
      → Tracks c
      → has_quad q.poly_id c.added_quads ≡ false
      → Tracks
          (record { added_quads = q.poly_id ∷ c.added_quads; obs_quads = c.obs_quads ++ (q ∷ []) })
  unfolding has_quad
  pushed-Tracks q c t new = record {
    known = λ r h. elim (Bool-cases (eqb_ℤ q.poly_id r.poly_id)) [
      | inl e ↦ (q, Memᴰ-concat c.obs_quads q, (eqb_ℤ_iff q.poly_id r.poly_id).0 e)
      | inr e ↦ Holds-append c.obs_quads (q ∷ []) r (t.known r (rw e at h))
    ];
    unknown = λ r h. elim (Bool-cases (eqb_ℤ q.poly_id r.poly_id)) [
      | inl e ↦ absurd (false≢true (sym (rw e at h)))
      | inr e ↦ All-append (Lacks r.poly_id) c.obs_quads (q ∷ []) (t.unknown r (rw e at h)) (e, tt)
    ];
    distinct = Distinct-concat c.obs_quads q t.distinct (t.unknown q new);
  }

  add_quad-Grown :
      (P : ArtQuadrilateral F → Type 0) (q : ArtQuadrilateral F) (c : Occupancy F)
      → Tracks c
      → All P c.obs_quads
      → P q
      → Grown P c (add_quad q c) × Holds (add_quad q c).obs_quads q
  unfolding add_quad
  add_quad-Grown P q c t all here =
      if_elim (λ (d : Occupancy F). Grown P c d × Holds d.obs_quads q)
        (has_quad q.poly_id c.added_quads)
        (λ old. (record { tracks = t; sound = all; keeps = λ r h. h }, t.known q old))
        (λ new. (
          record {
            tracks = pushed-Tracks q c t new;
            sound = All-append P c.obs_quads (q ∷ []) all (here, tt);
            keeps = Holds-append c.obs_quads (q ∷ []);
          },
          (q, Memᴰ-concat c.obs_quads q, refl),
        ))

module _ {F : Type 0} ⦃fl : Floats F⦄ where
  -- the test of a point and a polygon
  abbrev pub hits : MapXy F → ArtQuadrilateral F → Bool
  hits pt q = if far pt q then false else quick_point_in_poly_ratio pt q inner_ratio

  -- A polygon of the map, in which one of the points lies.
  abbrev pub HitBy : List (MapXy F) → List (ArtQuadrilateral F) → ArtQuadrilateral F → Type 0
  HitBy pts local_map q = Memᴰ q local_map × (pt : MapXy F) × Memᴰ pt pts × (hits pt q ≡ true)

  -- One round of the loop over the polygons.
  abbrev tested : MapXy F → ArtQuadrilateral F → Occupancy F → Occupancy F
  tested pt q c =
      if far pt q then c else if quick_point_in_poly_ratio pt q inner_ratio then add_quad q c else c

  module _ (P : ArtQuadrilateral F → Type 0) (pt : MapXy F) where
    tested-Grown :
        (q : ArtQuadrilateral F) (c : Occupancy F)
        → Tracks c
        → All P c.obs_quads
        → (hits pt q ≡ true → P q)
        → Grown P c (tested pt q c) × (hits pt q ≡ true → Holds (tested pt q c).obs_quads q)
    tested-Grown q c t all ok =
        let now = quick_point_in_poly_ratio pt q inner_ratio in
        let same : Grown P c c = record { tracks = t; sound = all; keeps = λ r h. h } in
        elim (Bool-cases (far pt q)) [
          | inl f ↦ rw f (same, λ h. absurd (false≢true h))
          | inr f ↦ elim (Bool-cases now) [
            | inl n ↦
                let (grown, held) = add_quad-Grown P q c t all (ok (rw (f, n) refl)) in
                rw (f, n) (grown, λ _. held)
            | inr n ↦ rw (f, n) (same, λ h. absurd (false≢true h))
          ]
        ]

    Grown-then : {c d e : Occupancy F} → Grown P c d → Grown P d e → Grown P c e
    Grown-then f g = record {
      tracks = g.tracks;
      sound = g.sound;
      keeps = λ q h. g.keeps q (f.keeps q h);
    }

    point_in_polys-Grown :
        (qs : List (ArtQuadrilateral F)) (inside : Bool) (c : Occupancy F)
        → Tracks c
        → All P c.obs_quads
        → All (λ q. hits pt q ≡ true → P q) qs
        → Grown P c (point_in_polys pt qs inside c).1
          × All (λ q. hits pt q ≡ true → Holds (point_in_polys pt qs inside c).1.obs_quads q) qs
    unfolding point_in_polys
    point_in_polys-Grown [] inside c t all ok =
        (record { tracks = t; sound = all; keeps = λ r h. h }, tt)
    point_in_polys-Grown (q ∷ qs) inside c t all ok =
        let (first, held) = tested-Grown q c t all ok.0 in
        let now = quick_point_in_poly_ratio pt q inner_ratio in
        let (rest, others) =
          point_in_polys-Grown qs (if far pt q then inside else now) (tested pt q c) first.tracks
            first.sound ok.1 in
        (Grown-then first rest, (λ h. rest.keeps q (held h), others))

  filter_points-Grown :
      (P : ArtQuadrilateral F → Type 0) (pts : List (MapXy F)) (qs : List (ArtQuadrilateral F))
      (c : Occupancy F)
      → Tracks c
      → All P c.obs_quads
      → All (λ pt. All (λ q. hits pt q ≡ true → P q) qs) pts
      → Grown P c (filter_points pts qs c)
        × All
            (λ pt. All (λ q. hits pt q ≡ true → Holds (filter_points pts qs c).obs_quads q) qs)
            pts
  unfolding filter_points is_point_in_a_polygon
  filter_points-Grown P [] qs c t all ok =
      (record { tracks = t; sound = all; keeps = λ r h. h }, tt)
  filter_points-Grown P (pt ∷ pts) qs c t all ok =
      let (first, held) = point_in_polys-Grown P pt qs false c t all ok.0 in
      let (rest, others) =
        filter_points-Grown P pts qs (point_in_polys pt qs false c).1 first.tracks first.sound
          ok.1 in
      (Grown-then P pt first rest, (All-mono _ _ (λ q h t. rest.keeps q (h t)) qs held, others))

  -- The polygons of a map that points occupy.
  pub record Occupied (pts : List (MapXy F)) (local_map obs : List (ArtQuadrilateral F))
      : Type 0 where
    pub each_hit : All (HitBy pts local_map) obs
    pub all_hit :
        (pt : MapXy F) (q : ArtQuadrilateral F)
        → Memᴰ pt pts
        → Memᴰ q local_map
        → hits pt q ≡ true
        → Holds obs q
    pub distinct : Distinct obs

  -- After the polygons were cleared, filterPointsInLocalMap leaves the polygons of the local map in
  -- which an obstacle point lies: each of them is a polygon of the map with such a point, no two have one
  -- identifier, and each polygon of the map with such a point has its identifier among them.
  pub filter_points-Occupied :
      (pts : List (MapXy F)) (local_map : List (ArtQuadrilateral F)) (c : Occupancy F)
      → c.obs_quads ≡ []
      → Occupied pts local_map (filter_points_in_local_map pts local_map c).obs_quads
  unfolding filter_points_in_local_map has_quad
  filter_points-Occupied pts local_map c cleared =
      let start : Occupancy F = record c { added_quads = [] } in
      let (grown, held) =
        filter_points-Grown (HitBy pts local_map) pts local_map start
          (record {
            known = λ q h. absurd (false≢true h);
            unknown = λ q h. subst (All (Lacks q.poly_id)) (sym cleared) tt;
            distinct = subst Distinct (sym cleared) tt;
          })
          (subst (All (HitBy pts local_map)) (sym cleared) tt)
          (All-mono (λ pt. Memᴰ pt pts)
            (λ pt. All (λ q. hits pt q ≡ true → HitBy pts local_map q) local_map)
            (λ pt m.
              All-mono (λ q. Memᴰ q local_map) (λ q. hits pt q ≡ true → HitBy pts local_map q)
                (λ q n h. (n, pt, m, h)) local_map (All-Memᴰ local_map))
            pts (All-Memᴰ pts)) in
      record {
        each_hit = grown.sound;
        all_hit = λ pt q m n h.
            All-lookup
              (λ r. hits pt r ≡ true → Holds (filter_points pts local_map start).obs_quads r)
              local_map
              (All-lookup
                (λ p.
                  All (λ r. hits p r ≡ true → Holds (filter_points pts local_map start).obs_quads r)
                    local_map)
                pts held m)
              n h;
        distinct = grown.tracks.distinct;
      }
