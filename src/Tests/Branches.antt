-- ===== src/Tests/Branches.antt =====
-- The branches of small graphs, and the theorems on branches at them.
use seekira.Common.{
  ℕ, ◌≤◌, ◌≡◌, refl, true, false, Option, none, some, List, [], ◌∷◌, ◌++◌, arith, inl, inr, subst,
  Bool-cases, nat_eq, ltb, ◌==◌, if◌then◌else◌,
}
use seekira.Common.Dict.{has_unique_keys, Dict, lookup, insert, contains}
use seekira.Graph.{
  BaseGraphNode, BaseGraph, elem, get_node, ends_are_nodes, is_empty, has_parents,
  get_nodes_without_parents, get_nodes_with_children,
}
use seekira.PipelineBranch.{last, get_last_id, process_all}
use seekira.BasePipeline.{
  built, no_fuel, place_id, insert_id, insert_ids, insert_children, branch_ids, extend, begin,
  begin_all, init_branches,
}
use seekira.BasePipeline.Chains.{total}
use seekira.BasePipeline.Cycles.{IsRound, extend-endless}
use seekira.BasePipeline.Weights.{is_weighted, is_weighted-IsAcyclic, is_weighted-bound}
use seekira.SyncPipeline.Visiting.{IsLed, IsClosed, count}
use seekira.SyncPipeline.{
  create_sync_branch, add_node_to_sync_branch, sync_maker, next_ids, process_queue, process,
}
use seekira.SyncPipeline.Building.{Cut, init_branches-Cut}
use seekira.SyncPipeline.Order.{process-Visits}

abbrev node : List ℕ → List ℕ → BaseGraphNode ℕ
node parents children = record { parents = parents; children = children }

-- 0 → 1, 1 → 2 and 3, 2 → 4.
abbrev forest : BaseGraph ℕ
forest = record {
  settings = record { has_loops = false; one_parent = true };
  nodes =
      (0, node [] (1 ∷ []))
      ∷ (1, node (0 ∷ []) (2 ∷ 3 ∷ []))
      ∷ (2, node (1 ∷ []) (4 ∷ []))
      ∷ (3, node (1 ∷ []) [])
      ∷ (4, node (2 ∷ []) [])
      ∷ [];
  adj_mat = [];
}

abbrev forest_weight : ℕ → ℕ
forest_weight k = if k == 0 then 5 else if k == 1 then 4 else if k == 2 then 2 else 1

abbrev cut_forest : Dict ℕ (List ℕ)
cut_forest = (0, 0 ∷ 1 ∷ []) ∷ (2, 2 ∷ 4 ∷ []) ∷ (3, 3 ∷ []) ∷ []

init_branches-forest : init_branches sync_maker ltb 6 forest [] ≡ built cut_forest
unfolding init_branches begin_all begin extend branch_ids insert_children insert_ids insert_id
    place_id elem get_node has_parents is_empty get_nodes_without_parents get_nodes_with_children
    create_sync_branch add_node_to_sync_branch lookup insert contains
init_branches-forest = refl

forest-is_weighted : is_weighted forest_weight 6 forest.nodes forest.nodes ≡ true
unfolding is_weighted total ends_are_nodes contains
forest-is_weighted = refl

forest-bound : (k : ℕ) (n : BaseGraphNode ℕ) → get_node k forest ≡ some n → forest_weight k ≤ 6
forest-bound k n f =
    omega (arith, is_weighted-bound forest_weight 6 forest forest-is_weighted k n f)

init_branches-Cut_example : Cut forest (init_branches sync_maker ltb 6 forest [])
unfolding has_unique_keys contains
init_branches-Cut_example =
    init_branches-Cut ltb forest forest_weight 6
      (is_weighted-IsAcyclic forest_weight 6 forest forest-is_weighted) refl forest-bound

-- A node that notes its id in the data.
abbrev note : ℕ → List ℕ → List ℕ × Option ℕ
note k s = (s ++ k ∷ [], none)

process-forest :
    process note 0 forest cut_forest 6 (some 0) [] ≡ some (0 ∷ 1 ∷ 2 ∷ 4 ∷ 3 ∷ [], none)
unfolding process process_queue process_all next_ids get_last_id last get_node lookup
process-forest = refl

process-Visits_example :
    (branches : Dict ℕ (List ℕ)) × (init_branches sync_maker ltb 6 forest [] ≡ built branches)
    × ((order : List ℕ) × IsLed forest (λ k. count k (0 ∷ [])) order
        × IsClosed forest order
        × (elem 0 order ≡ true)
        × ((s : List ℕ)
            → process note 0 forest branches 6 (some 0) s ≡ some (process_all note order s)))
unfolding get_node lookup has_unique_keys contains
process-Visits_example =
    process-Visits note 0 ltb forest forest_weight 6 0 (node [] (1 ∷ []))
      (is_weighted-IsAcyclic forest_weight 6 forest forest-is_weighted) refl
      (is_weighted-bound forest_weight 6 forest forest-is_weighted) refl refl

-- 0 → 1, 1 → 2, 2 → 1.
abbrev looped : BaseGraph ℕ
looped = record forest {
  nodes =
      (0, node [] (1 ∷ [])) ∷ (1, node (0 ∷ 2 ∷ []) (2 ∷ [])) ∷ (2, node (1 ∷ []) (1 ∷ [])) ∷ [];
}

looped-IsRound : (k : ℕ) → elem k (1 ∷ 2 ∷ []) ≡ true → IsRound looped (0 ∷ []) (1 ∷ 2 ∷ []) k
unfolding elem get_node lookup
looped-IsRound k i = elim (Bool-cases (1 == k)) [
  | inl one ↦
      let at : 1 ≡ k = ground arith in
      subst (λ j. IsRound looped (0 ∷ []) (1 ∷ 2 ∷ []) j) at
        (record {
          node = node (0 ∷ 2 ∷ []) (2 ∷ []);
          first = 2;
          more = [];
          found = refl;
          is_inner = refl;
          children = refl;
          stays = refl;
        })
  | inr other ↦
      let at : 2 ≡ k = ground arith in
      subst (λ j. IsRound looped (0 ∷ []) (1 ∷ 2 ∷ []) j) at
        (record {
          node = node (1 ∷ []) (1 ∷ []);
          first = 1;
          more = [];
          found = refl;
          is_inner = refl;
          children = refl;
          stays = refl;
        })
]

extend-endless_example : extend sync_maker looped (0 ∷ []) 1000 0 1 ((0, 0 ∷ []) ∷ []) ≡ no_fuel
unfolding elem lookup
extend-endless_example =
    extend-endless looped (0 ∷ []) (1 ∷ 2 ∷ []) 1000 0 1 (0 ∷ []) ((0, 0 ∷ []) ∷ []) looped-IsRound
      refl refl
