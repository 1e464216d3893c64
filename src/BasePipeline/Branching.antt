-- ===== src/BasePipeline/Branching.antt =====
-- Where the branches of a pipeline begin.
use mathlib.Core.Option.{some-injective}
use seekira.Common.{
  ◌≡◌, refl, subst, sym, ◌∙◌, ap, inl, inr, Bool, true, false, not, ◌&&◌, ◌||◌, none, some, List,
  [], ◌∷◌, ◌++◌, arith, length, ltb, Eq, ◌==◌, Bool-cases, Option-cases,
}
use seekira.Common.Dict.{Dict, lookup}
use seekira.Graph.{
  BaseGraphNode, BaseGraph, is_empty, has_parents, elem, get_node, get_nodes_without_parents,
  get_nodes_with_children,
}
use seekira.BasePipeline.{place_id, insert_id, insert_ids, insert_children, branch_ids}

module _ {K : Type 0} ⦃e : Eq K⦄ where
  pub elem-append : (k : K) (xs ys : List K) → elem k (xs ++ ys) ≡ (elem k xs || elem k ys)
  unfolding elem
  elem-append k [] ys = refl
  elem-append k (x ∷ xs) ys = ground (arith, elem-append k xs ys)

  elem-place_id :
      (less : K → K → Bool) (k j : K) (s : List K)
      → elem k (place_id less j s) ≡ (j == k || elem k s)
  unfolding elem place_id
  elem-place_id less k j [] = refl
  elem-place_id less k j (x ∷ s) = ground (arith, elem-place_id less k j s)

  elem-insert_id :
      (less : K → K → Bool) (k j : K) (s : List K)
      → elem k (insert_id less j s) ≡ (j == k || elem k s)
  unfolding insert_id
  elem-insert_id less k j s = elim (Bool-cases (elem j s)) [
    | inl old ↦ elim (Bool-cases (j == k)) [
      | inl same ↦ rw (old, same) (subst (λ i. elem i s ≡ true) ((e.equals_iff j k).0 same) old)
      | inr other ↦ rw (old, other)
    ]
    | inr new ↦ rw new (elem-place_id less k j s)
  ]

  unfoldable pub has_unique_ids : List K → Bool
  unfolding elem
  has_unique_ids [] = true
  has_unique_ids (k ∷ ks) = not (elem k ks) && has_unique_ids ks

  place_id-has_unique_ids :
      (less : K → K → Bool) (j : K) (s : List K)
      → elem j s ≡ false
      → has_unique_ids s ≡ true
      → has_unique_ids (place_id less j s) ≡ true
  unfolding elem place_id has_unique_ids
  place_id-has_unique_ids less j [] out u = refl
  place_id-has_unique_ids less j (x ∷ s) out u = ground (
    arith,
    place_id-has_unique_ids less j s,
    elem-place_id less x j s,
    e.equals_iff x j,
    e.equals_iff j x,
  )

  insert_ids-has_unique_ids :
      (less : K → K → Bool) (js s : List K)
      → has_unique_ids s ≡ true
      → has_unique_ids (insert_ids less js s) ≡ true
  unfolding insert_ids insert_id
  insert_ids-has_unique_ids less [] s u = u
  insert_ids-has_unique_ids less (j ∷ js) s u =
      insert_ids-has_unique_ids less js (insert_id less j s)
        (ground (arith, place_id-has_unique_ids less j s))

  pub elem-insert_ids :
      (less : K → K → Bool) (k : K) (js s : List K)
      → elem k (insert_ids less js s) ≡ (elem k js || elem k s)
  unfolding elem insert_ids
  elem-insert_ids less k [] s = refl
  elem-insert_ids less k (j ∷ js) s =
      ground (arith, elem-insert_ids less k js (insert_id less j s), elem-insert_id less k j s)

  -- Of the edges from `ks`, all ends are in the set.
  abbrev HasChildren : BaseGraph K → List K → List K → Type 0
  HasChildren g ks s =
      (id c : K) (n : BaseGraphNode K)
      → elem id ks ≡ true
      → get_node id g ≡ some n
      → elem c n.children ≡ true
      → elem c s ≡ true

  insert_children-Has :
      (less : K → K → Bool) (g : BaseGraph K) (ks s t : List K)
      → insert_children less g ks s ≡ some t
      → HasChildren g ks t
        × ((k : K) → elem k s ≡ true → elem k t ≡ true)
        × (has_unique_ids s ≡ true → has_unique_ids t ≡ true)
  unfolding insert_children elem
  insert_children-Has less g [] s t h = (
    (λ id c n i f x. cc),
    (λ k i. ground (arith, some-injective s t h)),
    λ u. ground (arith, some-injective s t h),
  )
  insert_children-Has less g (j ∷ ks) s t h = elim (Option-cases (get_node j g)) [
    | inl gone ↦ let out = rw (insert_children, gone) at h in cc
    | inr (m, at) ↦
        let (has, keeps, unique) =
          insert_children-Has less g ks (insert_ids less m.children s) t
            (rw (insert_children, at) at h) in
        (
          (λ id c n i f x. elim (Bool-cases (j == id)) [
            | inl same ↦
                let node : m ≡ n =
                  some-injective m n
                    (sym at ∙ ap (λ i. get_node i g) ((e.equals_iff j id).0 same) ∙ f) in
                keeps c (
                  ground (
                    arith,
                    elem-insert_ids less c m.children s,
                    subst (λ r. elem c r.children ≡ true) (sym node) x,
                  ))
            | inr other ↦ has id c n (ground arith) f x
          ]),
          (λ k i. keeps k (ground (arith, elem-insert_ids less k m.children s))),
          λ u. unique (insert_ids-has_unique_ids less m.children s u),
        )
  ]

  -- The ids that follow a node.
  unfoldable pub child_ids : BaseGraph K → K → List K
  unfolding get_node
  child_ids g k = elim (get_node k g) [ none ↦ [] | some n ↦ n.children ]

  elem-without_parents :
      (k : K) (m : Dict K (BaseGraphNode K)) (n : BaseGraphNode K)
      → lookup k m ≡ some n
      → n.parents ≡ []
      → elem k (get_nodes_without_parents m) ≡ true
  unfolding elem lookup get_nodes_without_parents has_parents is_empty
  elem-without_parents k [] n f r = cc
  elem-without_parents k ((j, x) ∷ m) n f r = elim (Bool-cases (j == k)) [
    | inl same ↦
        let node : x ≡ n = some-injective x n (rw same at f) in
        let none_here : has_parents x ≡ false = rw (node, r) in rw none_here (ground arith)
    | inr other ↦
        let found = elem-without_parents k m n (rw other at f) r in
        elim (Bool-cases (has_parents x)) [
          | inl has ↦ rw has found
          | inr lacks ↦ rw (lacks, found, other)
        ]
  ]

  elem-with_children :
      (k : K) (m : Dict K (BaseGraphNode K)) (n : BaseGraphNode K)
      → lookup k m ≡ some n
      → ltb 1 (length n.children) ≡ true
      → elem k (get_nodes_with_children m) ≡ true
  unfolding elem lookup get_nodes_with_children
  elem-with_children k [] n f r = cc
  elem-with_children k ((j, x) ∷ m) n f r = elim (Bool-cases (j == k)) [
    | inl same ↦
        let node : x ≡ n = some-injective x n (rw same at f) in
        let more : ltb 1 (length x.children) ≡ true = rw (node, r) in rw more (ground arith)
    | inr other ↦
        let found = elem-with_children k m n (rw other at f) r in
        elim (Bool-cases (ltb 1 (length x.children))) [
          | inl has ↦ rw (has, found, other)
          | inr lacks ↦ rw (lacks, found)
        ]
  ]

  -- What is needed of the set of ids at which branches begin.
  pub record IsBranchIds (g : BaseGraph K) (ids : List K) : Type 0 where
    pub unique : has_unique_ids ids ≡ true
    pub roots :
        (k : K) (n : BaseGraphNode K) → get_node k g ≡ some n → n.parents ≡ [] → elem k ids ≡ true
    pub siblings :
        (k c : K) (n : BaseGraphNode K)
        → get_node k g ≡ some n
        → ltb 1 (length n.children) ≡ true
        → elem c n.children ≡ true
        → elem c ids ≡ true

  pub branch_ids-IsBranchIds :
      (less : K → K → Bool) (g : BaseGraph K) (ids : List K)
      → branch_ids less g ≡ some ids
      → IsBranchIds g ids
  unfolding branch_ids get_node has_unique_ids
  branch_ids-IsBranchIds less g ids h =
      let (has, keeps, unique) =
        insert_children-Has less g (get_nodes_with_children g.nodes)
          (insert_ids less (get_nodes_without_parents g.nodes) []) ids h in
      record {
        unique =
            unique (insert_ids-has_unique_ids less (get_nodes_without_parents g.nodes) [] refl);
        roots = λ k n f r. keeps k (
            ground (
              arith,
              elem-insert_ids less k (get_nodes_without_parents g.nodes) [],
              elem-without_parents k g.nodes n f r,
            ));
        siblings = λ k c n f r x. has k c n (elem-with_children k g.nodes n f r) f x;
      }
