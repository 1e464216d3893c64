-- ===== src/SyncPipeline/Visiting.antt =====
-- `process` of a synchronous pipeline, on the branches that it made.

use seekira.Common.{
  ℕ, ◌+◌, ◌-◌, ◌<◌, ◌≤◌, ◌==◌, if◌then◌else◌, ◌≡◌, refl, subst, sym, ◌∙◌, ap, inl, inr, true, false,
  some, List, [], ◌∷◌, ◌++◌, arith, Eq, List-cases,
}
use seekira.Graph.{BaseGraphNode, BaseGraph, elem, get_node}
use seekira.PipelineBranch.{last}
use seekira.BasePipeline.Branching.{IsBranchIds, child_ids}
use seekira.BasePipeline.Chains.{IsAcyclic, Along, meets, stops, goes, first_child}

module _ {K : Type 0} ⦃e : Eq K⦄ where
  abbrev pub one : K → K → ℕ
  one j k = if j == k then 1 else 0

  -- How often an id stands in a list.
  unfoldable pub count : K → List K → ℕ
  count k [] = 0
  count k (j ∷ js) = one j k + count k js

  pub count-append : (k : K) (xs ys : List K) → count k (xs ++ ys) ≡ count k xs + count k ys
  unfolding count
  count-append k [] ys = omega arith
  count-append k (x ∷ xs) ys = omega (arith, count-append k xs ys)

  pub count-first : (k : K) (ks : List K) → 0 < count k (k ∷ ks)
  unfolding count
  count-first k ks = ground (arith, e.equals_iff k k)

  -- `due k` tells how often the node `k` is still to come: a node that comes is due, and then due once less, and
  -- each of its children is due once more for each time it stands among them. In the end no node is due.
  abbrev pub IsLed : BaseGraph K → (K → ℕ) → List K → Type 0
  IsLed g due [] = (k : K) → due k ≡ 0
  IsLed g due (k ∷ ks) = (0 < due k) × IsLed g (λ j. count j (child_ids g k) + (due j - one k j)) ks

  -- After each node stand all of its children.
  abbrev pub IsClosed : BaseGraph K → List K → Type 0
  IsClosed g [] = Unit
  IsClosed g (k ∷ ks) = ((c : K) → elem c (child_ids g k) ≡ true → elem c ks ≡ true) × IsClosed g ks

  pub IsLed-same :
      (g : BaseGraph K) (due due' : K → ℕ) (ks : List K)
      → ((k : K) → due k ≡ due' k)
      → IsLed g due ks
      → IsLed g due' ks
  IsLed-same g due due' [] same l = λ k. sym (same k) ∙ l k
  IsLed-same g due due' (k ∷ ks) same (i, l) = (
    omega (arith, same k),
    IsLed-same g (λ j. count j (child_ids g k) + (due j - one k j))
        (λ j. count j (child_ids g k) + (due' j - one k j)) ks
        (λ j. ap (λ n. count j (child_ids g k) + (n - one k j)) (same j)) l,
  )

  -- A node's children, by the shape of its list of children.
  pub child_ids-node :
      (g : BaseGraph K) (k : K) (n : BaseGraphNode K)
      → get_node k g ≡ some n
      → child_ids g k ≡ n.children
  unfolding child_ids
  child_ids-node g k n f = rw (child_ids, f)

  -- A node whose first child begins no branch has no other child.
  sole_child :
      (g : BaseGraph K) (ids : List K) (k c : K) (n : BaseGraphNode K) (cs : List K)
      → IsBranchIds g ids
      → get_node k g ≡ some n
      → n.children ≡ c ∷ cs
      → elem c ids ≡ false
      → child_ids g k ≡ c ∷ []
  unfolding elem
  sole_child g ids k c n cs b f h out = elim (List-cases cs) [
    | inl none_else ↦ child_ids-node g k n f ∙ h ∙ ap (λ s. c ∷ s) none_else
    | inr (d, ds, several) ↦
        let many : n.children ≡ c ∷ d ∷ ds = h ∙ ap (λ s. c ∷ s) several in
        let taken =
          b.siblings k c n f (rw many (ground arith)) (rw many (rw (e.equals_iff c c).1 refl)) in
        cc
  ]

  only_child :
      (g : BaseGraph K) (k c x : K) → child_ids g k ≡ c ∷ [] → elem x (child_ids g k) ≡ true → x ≡ c
  unfolding elem
  only_child g k c x sole i =
      let at : elem x (c ∷ []) ≡ true = subst (λ s. elem x s ≡ true) sole i in
      ground (arith, e.equals_iff c x)

  pub first_among : (x c : K) (rest : List K) → x ≡ c → elem x (c ∷ rest) ≡ true
  unfolding elem
  first_among x c rest same = ground (arith, e.equals_iff c x)

  -- The rest of a branch after its node `k`, with what follows the branch.
  pub IsClosed-Along :
      (g : BaseGraph K) (ids : List K) (k c : K) (n : BaseGraphNode K) (cs ns rest : List K)
      → IsBranchIds g ids
      → get_node k g ≡ some n
      → n.children ≡ c ∷ cs
      → Along g ids c ns
      → ((x : K) → elem x (child_ids g (last k ns)) ≡ true → elem x rest ≡ true)
      → IsClosed g rest
      → IsClosed g (k ∷ ns ++ rest)
  unfolding last elem
  IsClosed-Along g ids k c n cs ns rest b f h (meets c' met) after closed = (after, closed)
  IsClosed-Along g ids k c n cs ns rest b f h (stops c' m out f' leaf) after closed = (
    (λ x i. first_among x c' rest (only_child g k c' x (sole_child g ids k c' n cs b f h out) i)),
    (after, closed),
  )
  IsClosed-Along g ids k c n cs ns rest b f h (goes c' d m ds ns' out f' h' more) after closed = (
    (λ x i.
        first_among x c' (ns' ++ rest)
          (only_child g k c' x (sole_child g ids k c' n cs b f h out) i)),
    IsClosed-Along g ids c' d m ds ns' rest b f' h' more after closed,
  )

  pub no_child :
      (g : BaseGraph K) (k c : K) (n : BaseGraphNode K)
      → get_node k g ≡ some n
      → n.children ≡ []
      → elem c (child_ids g k) ≡ true
      → ⊥
  unfolding elem
  no_child g k c n f h i =
      let none_here : elem c [] ≡ true =
        subst (λ s. elem c s ≡ true) (child_ids-node g k n f ∙ h) i in
      cc

  -- Of a node whose first child begins a branch, every child does.
  children_begin :
      (g : BaseGraph K) (ids : List K) (k c x : K) (n : BaseGraphNode K) (cs : List K)
      → IsBranchIds g ids
      → get_node k g ≡ some n
      → n.children ≡ c ∷ cs
      → elem c ids ≡ true
      → elem x (child_ids g k) ≡ true
      → elem x ids ≡ true
  unfolding elem
  children_begin g ids k c x n cs b f h met i = elim (List-cases cs) [
    | inl one ↦
        let at : elem x (c ∷ []) ≡ true =
          subst (λ s. elem x s ≡ true) (child_ids-node g k n f ∙ h ∙ ap (λ s. c ∷ s) one) i in
        let same : c ≡ x = ground (arith, e.equals_iff c x) in
        subst (λ j. elem j ids ≡ true) same met
    | inr (d, ds, several) ↦
        let many : n.children ≡ c ∷ d ∷ ds = h ∙ ap (λ s. c ∷ s) several in
        b.siblings k x n f (rw many (ground arith))
          (subst (λ s. elem x s ≡ true) (child_ids-node g k n f) i)
  ]

  -- After its node `k`, the sole child `c` of `k` is due, and then what was due before.
  IsLed-sole :
      (g : BaseGraph K) (k c : K) (base : K → ℕ) (rest : List K)
      → child_ids g k ≡ c ∷ []
      → IsLed g (λ j. count j (child_ids g c) + base j) rest
      → IsLed g (λ j. count j (child_ids g k) + base j) (c ∷ rest)
  unfolding count
  IsLed-sole g k c base rest sole led =
      let counts : (j : K) → count j (child_ids g k) ≡ count j (c ∷ []) =
        λ j. ap (λ s. count j s) sole in
      (
        omega (arith, counts c, count-first c []),
        IsLed-same g (λ j. count j (child_ids g c) + base j)
            (λ j. count j (child_ids g c) + (count j (child_ids g k) + base j - one c j)) rest
            (λ j. omega (arith, counts j)) led,
      )

  -- So too for all nodes of a branch.
  pub IsLed-Along :
      (g : BaseGraph K) (ids : List K) (k c : K) (n : BaseGraphNode K) (cs ns : List K)
      (base : K → ℕ) (rest : List K)
      → IsBranchIds g ids
      → get_node k g ≡ some n
      → n.children ≡ c ∷ cs
      → Along g ids c ns
      → IsLed g (λ j. count j (child_ids g (last k ns)) + base j) rest
      → IsLed g (λ j. count j (child_ids g k) + base j) (ns ++ rest)
  unfolding last
  IsLed-Along g ids k c n cs ns base rest b f h (meets c' met) led = led
  IsLed-Along g ids k c n cs ns base rest b f h (stops c' m out f' leaf) led =
      IsLed-sole g k c' base rest (sole_child g ids k c' n cs b f h out) led
  IsLed-Along g ids k c n cs ns base rest b f h (goes c' d m ds ns' out f' h' more) led =
      IsLed-sole g k c' base (ns' ++ rest) (sole_child g ids k c' n cs b f h out)
        (IsLed-Along g ids c' d m ds ns' base rest b f' h' more led)

  -- The last node of a branch: it is a node, its weight is at most that of the first, its children begin branches.
  pub record IsLast (g : BaseGraph K) (w : K → ℕ) (ids : List K) (k z : K) : Type 0 where
    pub node : BaseGraphNode K
    pub found : get_node z g ≡ some node
    pub weight : w z ≤ w k
    pub begins : (c : K) → elem c (child_ids g z) ≡ true → elem c ids ≡ true

  pub last-IsLast :
      (g : BaseGraph K) (ids : List K) (w : K → ℕ) (k c : K) (n : BaseGraphNode K) (cs ns : List K)
      → IsAcyclic g w
      → IsBranchIds g ids
      → get_node k g ≡ some n
      → n.children ≡ c ∷ cs
      → Along g ids c ns
      → IsLast g w ids k (last k ns)
  unfolding last
  last-IsLast g ids w k c n cs ns a b f h (meets c' met) = record {
    node = n;
    found = f;
    weight = omega arith;
    begins = λ x i. children_begin g ids k c' x n cs b f h met i;
  }
  last-IsLast g ids w k c n cs ns a b f h (stops c' m out f' leaf) =
      let (drop, fnd) = first_child g w k c' n cs a f h in
      record {
        node = m;
        found = f';
        weight = omega arith;
        begins = λ x i. absurd (no_child g c' x m f' leaf i);
      }
  last-IsLast g ids w k c n cs ns a b f h (goes c' d m ds ns' out f' h' more) =
      let (drop, fnd) = first_child g w k c' n cs a f h in
      let rest = last-IsLast g ids w c' d m ds ns' a b f' h' more in
      record {
        node = rest.node;
        found = rest.found;
        weight = let le : w (last c' ns') ≤ w c' = rest.weight in omega arith;
        begins = rest.begins;
      }
