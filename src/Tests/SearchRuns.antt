-- ===== src/Tests/SearchRuns.antt =====
-- Runs of the search of art_nav/src/lib/GraphSearch.cc.
use mathlib.Core.List.{Memᴰ}
use utexas_art_ros_pkg.Base.{◌≡◌, ◌≢◌, refl, List, [], ◌∷◌, ◌⊎◌, ℤ, pos, ◌+ℤ◌, ◌-ℤ◌, arith}
use utexas_art_ros_pkg.Numeric.{whole}
use utexas_art_ros_pkg.RoadMap.WayPoint.{WayPointEdge}
use utexas_art_ros_pkg.RoadMap.Graph.{get_node_by_index}
use utexas_art_ros_pkg.Commander.Search.{returned, astar_search}
use utexas_art_ros_pkg.Commander.Search.Chain.{Chain, Returns, astar_search-Chain}
use utexas_art_ros_pkg.Commander.Search.Chain.Complete.{astar_search_complete}
use utexas_art_ros_pkg.Tests.Sample.{first_choice, town, edge, least}

abbrev way : List (WayPointEdge ℤ)
way = edge 0 1 10 ∷ edge 1 2 10 ∷ edge 2 3 10 ∷ []

town-way : astar_search first_choice town 3 (pos 5) 0 ≡ returned way
unfolding astar_search ◌+ℤ◌ ◌-ℤ◌ least
town-way = refl

town-no_way : astar_search first_choice town 5 (pos 5) 0 ≡ returned []
unfolding astar_search ◌+ℤ◌ ◌-ℤ◌ least
town-no_way = refl

astar_search-Chain_example :
    Returns (astar_search first_choice town 3 (pos 5) 0) (λ es. (es ≡ []) ⊎ Chain town 0 es 3)
astar_search-Chain_example = astar_search-Chain first_choice town 3 (pos 5) 0

astar_search_complete_example :
    Returns (astar_search first_choice town 3 (pos 5) 0) (λ es. (es ≢ []) × Chain town 0 es 3)
unfolding get_node_by_index
astar_search_complete_example =
    astar_search_complete first_choice town 3 (pos 5) 0
      (refl, (refl, (refl, (refl, (refl, (refl, tt))))))
      ((λ e. cc), ((λ e. cc), ((λ e. cc), ((λ e. cc), ((λ e. cc), tt))))) (omega arith) (λ e. cc)
      way
      (
        refl,
        (Memᴰ.head refl, refl),
        (
          refl,
          (Memᴰ.tail (Memᴰ.tail (Memᴰ.head refl)), refl),
          (refl, (Memᴰ.tail (Memᴰ.tail (Memᴰ.tail (Memᴰ.head refl))), refl), refl),
        ),
      )
