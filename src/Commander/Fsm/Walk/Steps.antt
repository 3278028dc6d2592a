-- ===== src/Commander/Fsm/Walk/Steps.antt =====
-- The edges that CmdrFSM::current_event of art_nav/src/commander/FSM.cc leaves behind on its walk, after the
-- first one.
use utexas_art_ros_pkg.Base.{
  ◌≡◌, ◌≢◌, refl, sym, ap, ◌∙◌, Bool, true, false, false≢true, ◌&&◌, ◌||◌, not, [], ◌∷◌, ◌++◌, none,
  some, null, Bool-cases, Option-cases, ◌⊎◌, inl, inr, arith, List, All,
}
use utexas_art_ros_pkg.Numeric.{Floats}
use utexas_art_ros_pkg.RoadMap.Element.{ElementId, id_eq, id_ne, id_eq_iff}
use utexas_art_ros_pkg.RoadMap.WayPoint.{WayPointNode, WayPointEdge}
use utexas_art_ros_pkg.RoadMap.Graph.{get_node_by_index}
use utexas_art_ros_pkg.Commander.Route.{Route}
use utexas_art_ros_pkg.Commander.State.{Commander}
use utexas_art_ros_pkg.Commander.Fsm.{Seen, Walked, arrived, lost, see, walk}

-- a way-point is among some
abbrev pub has : ElementId → List ElementId → Bool
has goal [] = false
has goal (w ∷ ws) = id_eq w goal || has goal ws

pub not_ne : (a b : ElementId) → id_ne a b ≡ false → a ≡ b
unfolding id_ne id_eq
not_ne a b h = (id_eq_iff a b).0 (ground arith)

neither : (a b : ElementId) → id_eq a b ≡ true → id_ne a b ≡ false
unfolding id_ne id_eq
neither a b h = ground arith

pub ne_other : (a b : ElementId) → id_ne a b ≡ true → b ≢ a
ne_other a b h e = false≢true (sym (neither a b ((id_eq_iff a b).1 (sym e))) ∙ h)

stops : (a b : Bool) → (a && not b) ≡ false → (a ≡ false) ⊎ (b ≡ true)
stops a b h = ground arith

first_true : (a b : Bool) → (a && b) ≡ true → a ≡ true
first_true a b h = ground arith

not_last : (a : Bool) → (a && not true) ≡ true → ⊥
not_last a h = ground arith

null-nil : {F : Type 0} (es : Route F) → null es ≡ true → es ≡ []
null-nil [] h = refl
null-nil (e ∷ es) h = absurd (false≢true h)

one_more : (a b : Bool) → (a || b) ≡ (a || (b || false))
one_more a b = ground arith

pub or_assoc : (a b d : Bool) → ((a || b) || d) ≡ (a || (b || d))
or_assoc a b d = ground arith

module _ {F : Type 0} where
  -- The way-points at which the edges of a route start.
  abbrev pub Starts : Commander F → Route F → List ElementId → Type 0
  Starts c [] [] = Unit
  Starts c [] (w ∷ ws) = ⊥
  Starts c (e ∷ es) [] = ⊥
  Starts c (e ∷ es) (w ∷ ws) =
      ((n : WayPointNode F) × (get_node_by_index c.graph e.startnode_index ≡ some n) × (n.id ≡ w))
      × Starts c es ws

  -- The edges from one on that are left behind, with where they start.
  pub record Left (target : ElementId) (c : Commander F) (es rest : Route F) : Type 0 where
    pub between : Route F
    pub joined : es ≡ between ++ rest
    pub ways : List ElementId
    pub starts : Starts c between ways
    pub not_yet : All (λ w. w ≢ target) ways

  -- the goals among some way-points are noticed, and no other one
  abbrev pub Notices : Commander F → Seen → List ElementId → Seen → Type 0
  Notices c s ws t =
      (t.goal1 ≡ (s.goal1 || has c.goal.id ws)) × (t.goal2 ≡ (s.goal2 || has c.goal2.id ws))

  -- A walk that stays at an edge: the target is where the edge starts, or the edge is the last one.
  pub record Here (target : ElementId) (c : Commander F) (s : Seen) (ways : List ElementId)
      (tail : Route F) (t : Seen) (e : WayPointEdge F) : Type 0 where
    pub n : WayPointNode F
    pub here : get_node_by_index c.graph e.startnode_index ≡ some n
    pub way : t.way ≡ n.id
    pub notices : Notices c s (ways ++ n.id ∷ []) t
    pub ends : (target ≡ n.id) ⊎ (tail ≡ [])

  abbrev pub InLeft : ElementId → Commander F → Seen → Route F → Walked F → Type 0
  InLeft target c s es (arrived rest t e) =
      (tail : Route F) × (rest ≡ e ∷ tail)
      × ((l : Left target c es rest) × Here target c s l.ways tail t e)
  InLeft target c s es (lost rest t) =
      (e : WayPointEdge F) × (tail : Route F) × (rest ≡ e ∷ tail)
      × Left target c es rest
      × (get_node_by_index c.graph e.startnode_index ≡ none)

  abbrev pub none_left :
      (target : ElementId) (c : Commander F) (rest : Route F) → Left target c rest rest
  none_left target c rest = record {
    between = [];
    joined = refl;
    ways = [];
    starts = tt;
    not_yet = tt;
  }

  pub see-Here :
      (target : ElementId) (c : Commander F) (s : Seen) (tail : Route F) (e : WayPointEdge F)
      (x : WayPointNode F)
      → get_node_by_index c.graph e.startnode_index ≡ some x
      → (target ≡ x.id) ⊎ (tail ≡ [])
      → Here target c s [] tail (see c x s) e
  see-Here target c s tail e x h ends = record {
    n = x;
    here = h;
    way = refl;
    notices = (one_more s.goal1 (id_eq x.id c.goal.id), one_more s.goal2 (id_eq x.id c.goal2.id));
    ends = ends;
  }

  -- One more edge is left behind, at whose start the target is not.
  abbrev pub leave_front :
      (target : ElementId) (c : Commander F) (f : WayPointEdge F) (es rest : Route F)
      (x : WayPointNode F)
      → get_node_by_index c.graph f.startnode_index ≡ some x
      → x.id ≢ target
      → Left target c es rest
      → Left target c (f ∷ es) rest
  leave_front target c f es rest x h ne l = record {
    between = f ∷ l.between;
    joined = ap (◌∷◌ f) l.joined;
    ways = x.id ∷ l.ways;
    starts = ((x, h, refl), l.starts);
    not_yet = (ne, l.not_yet);
  }

  InLeft-front :
      (target : ElementId) (c : Commander F) (s : Seen) (f : WayPointEdge F) (es : Route F)
      (x : WayPointNode F)
      → get_node_by_index c.graph f.startnode_index ≡ some x
      → x.id ≢ target
      → (w : Walked F) → InLeft target c (see c x s) es w
      → InLeft target c s (f ∷ es) w
  InLeft-front target c s f es x h ne (arrived rest t e) (tail, eq, (l, at)) = (
    tail,
    eq,
    (
      leave_front target c f es rest x h ne l,
      record {
        n = at.n;
        here = at.here;
        way = at.way;
        notices = (
          at.notices.0
              ∙ or_assoc s.goal1 (id_eq x.id c.goal.id) (has c.goal.id (l.ways ++ at.n.id ∷ [])),
          at.notices.1
              ∙ or_assoc s.goal2 (id_eq x.id c.goal2.id) (has c.goal2.id (l.ways ++ at.n.id ∷ [])),
        );
        ends = at.ends;
      },
    ),
  )
  InLeft-front target c s f es x h ne (lost rest t) (e, tail, eq, l, gone) =
      (e, tail, eq, leave_front target c f es rest x h ne l, gone)

module _ {F : Type 0} ⦃fl : Floats F⦄ where
  stopped_at :
      (target : ElementId) (es : Route F) (way : ElementId)
      → (id_ne target way && not (null es)) ≡ false
      → (target ≡ way) ⊎ (es ≡ [])
  stopped_at target es way h = elim (stops (id_ne target way) (null es) h) [
    | inl t ↦ inl (not_ne target way t)
    | inr t ↦ inr (null-nil es t)
  ]

  pub walk-InLeft :
      (target : ElementId) (c : Commander F) (s : Seen) (e f : WayPointEdge F) (es : Route F)
      → InLeft target c s (f ∷ es) (walk target c s (e ∷ f ∷ es))
  unfolding walk
  walk-InLeft target c s e f [] =
      elim (Option-cases (get_node_by_index c.graph f.startnode_index)) [
        | inl n ↦ rw (n, walk) (f, [], refl, none_left target c (f ∷ []), n)
        | inr (x, n) ↦ elim (Bool-cases (id_ne target x.id && not true)) [
          | inl t ↦ absurd (not_last (id_ne target x.id) t)
          | inr t ↦
              rw (n, t, walk)
                ([], refl, (none_left target c (f ∷ []), see-Here target c s [] f x n (inr refl)))
        ]
      ]
  walk-InLeft target c s e f (g ∷ es) =
      elim (Option-cases (get_node_by_index c.graph f.startnode_index)) [
        | inl n ↦ rw (n, walk) (f, g ∷ es, refl, none_left target c (f ∷ g ∷ es), n)
        | inr (x, n) ↦ elim (Bool-cases (id_ne target x.id && not false)) [
          | inl t ↦
              rw (n, t, walk)
                (InLeft-front target c s f (g ∷ es) x n
                  (ne_other target x.id (first_true (id_ne target x.id) (not false) t))
                  (walk target c (see c x s) (f ∷ g ∷ es))
                  (walk-InLeft target c (see c x s) f g es))
          | inr t ↦
              rw (n, t, walk)
                (
                  g ∷ es,
                  refl,
                  (
                    none_left target c (f ∷ g ∷ es),
                    see-Here target c s (g ∷ es) f x n (stopped_at target (g ∷ es) x.id t),
                  ),
                )
        ]
      ]
