-- ===== src/Commander/Planning.antt =====
-- What a new plan is: replan_route of art_nav/src/commander/command.cc.
use utexas_art_ros_pkg.Base.{
  ℕ, zero, suc, ◌+◌, ◌≤◌, ◌<◌, ◌≡◌, ◌≢◌, refl, sym, ap, ◌∙◌, subst, Bool, true, false, false≢true,
  List, [], ◌∷◌, ◌++◌, Option, none, some, ◌==◌, ==_iff, length, null, arith, Option-cases,
  Bool-cases, ◌⊎◌, inl, inr, append-nil, if_elim,
}
use utexas_art_ros_pkg.Numeric.{Floats}
use utexas_art_ros_pkg.RoadMap.Element.{element_id}
use utexas_art_ros_pkg.RoadMap.WayPoint.{WayPointNode, WayPointEdge}
use utexas_art_ros_pkg.RoadMap.Graph.{Graph, get_node_by_id}
use utexas_art_ros_pkg.Commander.Route.{Route, new_path, append_path}
use utexas_art_ros_pkg.Commander.Blockages.{Block}
use utexas_art_ros_pkg.Commander.Blockages.Size.{IsSized, pop_oldest-length, pop_oldest-IsSized}
use utexas_art_ros_pkg.Commander.Search.{TopChoice, Outcome, returned, out_of_fuel, astar_search}
use utexas_art_ros_pkg.Commander.Search.Chain.{Chain, Returns, astar_search-Chain}
use utexas_art_ros_pkg.Commander.State.{
  Commander, Run, ok, fault, result_of, Attempt, planned, no_route, plan, second_leg, attempt,
  retry, replan_with, replan_route,
}

module _ {F : Type 0} where
  -- A route that leads over open edges from an index to the first goal, and on to the second one.
  pub record Leads (c : Commander F) (start : ℕ) (route : Route F) : Type 0 where
    pub first : List (WayPointEdge F)
    pub second : List (WayPointEdge F)
    pub joined : route ≡ first ++ second
    pub leaves : first ≢ []
    pub to_goal : Chain c.graph start first c.goal.index
    pub to_goal2 : Chain c.graph c.goal.index second c.goal2.index

  -- An attempt ends with such a route, or with none.
  abbrev Sound : Commander F → ℕ → Attempt F → Type 0
  Sound c start (planned route) = Leads c start route
  Sound c start no_route = Unit

  result_of-Chain :
      (g : Graph F) (start goal : ℕ) (o : Outcome F)
      → Returns o (λ es. (es ≡ []) ⊎ Chain g start es goal)
      → null (result_of o) ≡ false
      → Chain g start (result_of o) goal
  result_of-Chain g start goal (returned es) (inl e) h = absurd (false≢true (sym h ∙ ap null e))
  result_of-Chain g start goal (returned es) (inr c) h = c
  result_of-Chain g start goal out_of_fuel r h = absurd r

  not_nil : (es : List (WayPointEdge F)) → null es ≡ false → es ≢ []
  not_nil es h e = false≢true (sym h ∙ ap null e)

module _ {F : Type 0} ⦃fl : Floats F⦄ (tc : TopChoice F) where
  plan-Chain :
      (g : Graph F) (start goal : ℕ) (speedlimit : F)
      → null (plan tc g start goal speedlimit) ≡ false
      → Chain g start (plan tc g start goal speedlimit) goal
  unfolding plan
  plan-Chain g start goal speedlimit h =
      result_of-Chain g start goal (astar_search tc g goal speedlimit start)
        (astar_search-Chain tc g goal speedlimit start) h

  append_path-some :
      (path : Route F) (s t : ℕ) (es : List (WayPointEdge F))
      → null es ≡ false
      → append_path path s t es ≡ path ++ es
  unfolding append_path
  append_path-some path s t [] h = absurd (false≢true (sym h))
  append_path-some path s t (e ∷ es) h = refl

  second_leg-Sound :
      (c : Commander F) (start : ℕ) (first : List (WayPointEdge F))
      → first ≢ []
      → Chain c.graph start first c.goal.index
      → Sound c start (second_leg tc c first)
  unfolding second_leg
  second_leg-Sound c start first ne h =
      let edges = plan tc c.graph c.goal.index c.goal2.index c.speedlimit in
      if_elim (Sound c start) (c.goal2.index == c.goal.index)
        (λ t. record {
          first = first;
          second = [];
          joined = sym (append-nil first);
          leaves = ne;
          to_goal = h;
          to_goal2 = sym ((==_iff c.goal2.index c.goal.index).0 t);
        })
        λ _.
          if_elim (Sound c start) (null edges) (λ _. tt)
            λ f. record {
              first = first;
              second = edges;
              joined = append_path-some first c.goal.index c.goal2.index edges f;
              leaves = ne;
              to_goal = h;
              to_goal2 = plan-Chain c.graph c.goal.index c.goal2.index c.speedlimit f;
            }

  attempt-Sound : (c : Commander F) (start : ℕ) → Sound c start (attempt tc c start)
  unfolding attempt new_path
  attempt-Sound c start =
      let edges = plan tc c.graph start c.goal.index c.speedlimit in
      if_elim (Sound c start) (null edges) (λ _. tt)
        λ f.
          subst (λ p. Sound c start (second_leg tc c p))
            (sym (append_path-some [] start c.goal.index edges f))
            (second_leg-Sound c start edges (not_nil edges f)
              (plan-Chain c.graph start c.goal.index c.speedlimit f))

  Leads-again :
      (c : Commander F) (start : ℕ) (route : Route F)
      → Leads (record c { replan_num = c.replan_num + 1 }) start route
      → Leads (record c { route = route; replan_num = c.replan_num + 1 }) start route
  Leads-again c start route h = record {
    first = h.first;
    second = h.second;
    joined = h.joined;
    leaves = h.leaves;
    to_goal = h.to_goal;
    to_goal2 = h.to_goal2;
  }

  -- The way-point that the navigator reached last, if the map has it.
  abbrev pub here : Commander F → Option (WayPointNode F)
  here c = get_node_by_id c.graph (element_id c.navstate.last_waypt)

  -- What replan_route leaves: the state `d` and its result.
  pub record Replanned (c d : Commander F) (done : Bool) : Type 0 where
    -- one more plan was made, and nothing but the blockages, the graph and the route has changed
    pub counted : d ≡ record c {
      graph = d.graph;
      blockages = d.blockages;
      route = d.route;
      replan_num = c.replan_num + 1;
    }
    pub fewer : length d.blockages ≤ length c.blockages
    pub sized : IsSized c.graph → IsSized d.graph
    -- success: a way-point of the map, which is the goal, with the old route, or has a route over open edges
    pub success :
        done ≡ true
        → (n : WayPointNode F) × (here d ≡ some n)
          × (((n.index ≡ d.goal.index) × (d.route ≡ c.route)) ⊎ Leads d n.index d.route)
    -- failure: the old route stays, and no blockage is left to lift unless the way-point is unknown
    pub failure :
        done ≡ false
        → (d.route ≡ c.route)
          × ((here d ≡ none)
              ⊎ ((n : WayPointNode F) × (here d ≡ some n)
                  × (d.blockages ≡ [])
                  × (attempt tc d n.index ≡ no_route)))

  abbrev pub Correct : Commander F → Run (Commander F × Bool) → Type 0
  Correct c (ok (d, done)) = Replanned c d done
  Correct c fault = ⊥

  Attempt-cases : (a : Attempt F) → (a ≡ no_route) ⊎ ((r : Route F) × (a ≡ planned r))
  Attempt-cases no_route = inl refl
  Attempt-cases (planned r) = inr (r, refl)

  Correct-lift :
      (c e : Commander F) (r : Run (Commander F × Bool))
      → e ≡ record c { graph = e.graph; blockages = e.blockages }
      → length e.blockages ≤ length c.blockages
      → (IsSized c.graph → IsSized e.graph)
      → Correct e r
      → Correct c r
  Correct-lift c e (ok (d, done)) same fewer sized h = record {
    counted =
        h.counted
        ∙ ap
            (λ (x : Commander F). record x {
              graph = d.graph;
              blockages = d.blockages;
              route = d.route;
              replan_num = x.replan_num + 1;
            })
            same;
    fewer = omega (arith, h.fewer);
    sized = λ s. h.sized (sized s);
    success = λ t.
        let (n, at, how) = h.success t in
        (
          n,
          at,
          elim how [
            | inl (goal, kept) ↦ inl (goal, kept ∙ ap (λ (x : Commander F). x.route) same)
            | inr leads ↦ inr leads
          ],
        );
    failure = λ f.
        let (route, why) = h.failure f in (route ∙ ap (λ (x : Commander F). x.route) same, why);
  }
  Correct-lift c e fault same fewer sized h = h

  -- a state in which only the count of plans has changed
  abbrev again : Commander F → Commander F
  again c = record c { replan_num = c.replan_num + 1 }

  retry-Correct :
      (next : Commander F → Run (Commander F × Bool)) (c : Commander F) (blocks : List (Block F))
      (n : WayPointNode F)
      → c.blockages ≡ blocks
      → here c ≡ some n
      → attempt tc (again c) n.index ≡ no_route
      → ((e : Commander F) → length e.blockages < length c.blockages → Correct e (next e))
      → Correct c (retry tc next c blocks)
  unfolding retry
  retry-Correct next c [] n e h a f = record {
    counted = refl;
    fewer = omega arith;
    sized = λ s. s;
    success = λ t. absurd (false≢true t);
    failure = λ t. (refl, inr (n, h, e, a));
  }
  retry-Correct next c (b ∷ bs) n e h a f =
      let (g, rest, popped, len) = pop_oldest-length c.graph b bs in
      let d = record c { graph = g; blockages = rest } in
      let fewer : suc (length rest) ≡ length c.blockages = omega (arith, ap length e) in
      rw (popped, retry)
        (Correct-lift c d (next d) refl (omega (arith, fewer))
          (λ s. pop_oldest-IsSized c.graph (b ∷ bs) g rest s popped) (f d (omega (arith, fewer))))

  replan_with-Correct :
      (fuel : ℕ) (c : Commander F) → length c.blockages < fuel → Correct c (replan_with tc fuel c)
  unfolding replan_with
  replan_with-Correct zero c h = absurd (omega arith)
  replan_with-Correct (suc fuel) c h = elim (Option-cases (here c)) [
    | inl n ↦
        rw (n, replan_with)
          (record {
            counted = refl;
            fewer = omega arith;
            sized = λ s. s;
            success = λ t. absurd (false≢true t);
            failure = λ t. (refl, inl n);
          })
    | inr (current, n) ↦ elim (Bool-cases (current.index == c.goal.index)) [
      | inl t ↦
          rw (n, t, replan_with)
            (record {
              counted = refl;
              fewer = omega arith;
              sized = λ s. s;
              success = λ _. (current, n, inl ((==_iff current.index c.goal.index).0 t, refl));
              failure = λ f. absurd (false≢true (sym f));
            })
      | inr t ↦ elim (Attempt-cases (attempt tc (again c) current.index)) [
        | inr (route, a) ↦
            rw (n, t, a, replan_with)
              (record {
                counted = refl;
                fewer = omega arith;
                sized = λ s. s;
                success = λ _. (
                  current,
                  n,
                  inr (
                      Leads-again c current.index route (
                        subst (Sound (again c) current.index) a
                          (attempt-Sound (again c) current.index))),
                );
                failure = λ f. absurd (false≢true (sym f));
              })
        | inl a ↦
            rw (n, t, a, replan_with)
              (retry-Correct (replan_with tc fuel) c c.blockages current refl n a
                (λ e less. replan_with-Correct fuel e (omega arith)))
      ]
    ]
  ]

  -- A new plan always ends without a fault. It counts as one plan and keeps all but the route, the
  -- blockages, of which some may be lifted, and the graph. On success the last way-point reached is the goal and
  -- the route stays as it was, even if it is empty; or else the route leads from that way-point over open edges of the
  -- graph to the goal and on to the second goal. On failure the route stays as it was, and the way-point is not on the map, or no blockage is
  -- left and the search finds no route.
  pub replan_route-Correct : (c : Commander F) → Correct c (replan_route tc c)
  unfolding replan_route
  replan_route-Correct c = replan_with-Correct (suc (length c.blockages)) c (omega arith)
