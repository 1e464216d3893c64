-- ===== src/BasePipeline/Cycles.antt =====
-- The loop along a branch, on a graph with a cycle.
use seekira.Common.{ℕ, zero, suc, ◌≡◌, refl, ◌∙◌, true, false, some, List, [], ◌∷◌, ◌++◌, Eq}
use seekira.Common.Dict.{Dict, lookup, insert, lookup-insert}
use seekira.Graph.{BaseGraphNode, BaseGraph, elem, get_node}
use seekira.BasePipeline.{no_fuel, extend}
use seekira.SyncPipeline.{add_node_to_sync_branch, sync_maker}

module _ {K : Type 0} ⦃e : Eq K⦄ where
  -- A node of a cycle: no branch begins at it, and its first child is of the cycle too.
  pub record IsRound (g : BaseGraph K) (ids cycle : List K) (k : K) : Type 0 where
    pub node : BaseGraphNode K
    pub first : K
    pub more : List K
    pub found : get_node k g ≡ some node
    pub is_inner : elem k ids ≡ false
    pub children : node.children ≡ first ∷ more
    pub stays : elem first cycle ≡ true

  -- Where no branch begins at a node of a cycle, and the branches have one that begins at `front`, the loop of
  -- `init_branches` of a synchronous pipeline that gets to a node of the cycle does not end: no fuel is enough.
  pub extend-endless :
      (g : BaseGraph K) (ids cycle : List K) (fuel : ℕ) (front id : K) (ns : List K)
      (m : Dict K (List K))
      → ((k : K) → elem k cycle ≡ true → IsRound g ids cycle k)
      → elem id cycle ≡ true
      → lookup front m ≡ some ns
      → extend sync_maker g ids fuel front id m ≡ no_fuel
  unfolding extend add_node_to_sync_branch
  extend-endless g ids cycle zero front id ns m round in_cycle at = refl
  extend-endless g ids cycle (suc fuel) front id ns m round in_cycle at =
      let r = round id in_cycle in
      rw (r.is_inner, r.found, at, r.children)
        (extend-endless g ids cycle fuel front r.first (ns ++ id ∷ [])
          (insert front (ns ++ id ∷ []) m) round r.stays
          (lookup-insert front front (ns ++ id ∷ []) m ∙ rw (e.equals_iff front front).1 refl))
