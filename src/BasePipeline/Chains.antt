-- ===== src/BasePipeline/Chains.antt =====
-- The branches that a synchronous pipeline makes from a graph without cycles.
use mathlib.Core.List.{append-nil, append_assoc}
use seekira.Common.{
  ℕ, zero, suc, ◌+◌, ◌≤◌, ◌<◌, ◌≡◌, refl, subst, sym, ◌∙◌, ap, inl, inr, Bool, true, false, none,
  some, List, [], ◌∷◌, ◌++◌, arith, Eq, ◌==◌, if◌then◌else◌, Bool-cases, List-cases,
}
use seekira.Common.Dict.{Dict, lookup, insert, contains, lookup-insert}
use seekira.Graph.{BaseGraphNode, BaseGraph, elem, get_node}
use seekira.BasePipeline.{Built, built, extend, begin, begin_all}
use seekira.Graph.Insertion.{contains-none}
use seekira.BasePipeline.Branching.{has_unique_ids}
use seekira.SyncPipeline.{create_sync_branch, add_node_to_sync_branch, sync_maker}

unfoldable pub total {ℓ} : {A : Type ℓ} → (A → ℕ) → List A → ℕ
total w [] = 0
total w (x ∷ xs) = w x + total w xs

over_else :
    {A : Type 0} (t : Bool) (x y o l : A)
    → l ≡ (if t then y else o)
    → (if t then x else l) ≡ (if t then x else o)
over_else true x y o l h = refl
over_else false x y o l h = h

module _ {K : Type 0} ⦃e : Eq K⦄ where
  -- The weights drop along the edges, and every edge ends at a node.
  pub record IsAcyclic (g : BaseGraph K) (w : K → ℕ) : Type 0 where
    pub drops :
        (k : K) (n : BaseGraphNode K) → get_node k g ≡ some n → suc (total w n.children) ≤ w k
    pub ends :
        (k c : K) (n : BaseGraphNode K)
        → get_node k g ≡ some n
        → elem c n.children ≡ true
        → (m : BaseGraphNode K) × (get_node c g ≡ some m)

  -- A list of nodes from `c` on: along the first child of each, up to a node at which a branch begins.
  pub data Along (g : BaseGraph K) (ids : List K) : K → List K → Type 0 where
    meets : (c : K) → elem c ids ≡ true → Along g ids c []
    stops :
        (c : K) (n : BaseGraphNode K)
        → elem c ids ≡ false
        → get_node c g ≡ some n
        → n.children ≡ []
        → Along g ids c (c ∷ [])
    goes :
        (c d : K) (n : BaseGraphNode K) (ds ns : List K)
        → elem c ids ≡ false
        → get_node c g ≡ some n
        → n.children ≡ d ∷ ds
        → Along g ids d ns
        → Along g ids c (c ∷ ns)

  -- The branch that begins at `k`.
  pub data IsBranch (g : BaseGraph K) (ids : List K) : K → List K → Type 0 where
    single :
        (k : K) (n : BaseGraphNode K)
        → get_node k g ≡ some n
        → n.children ≡ []
        → IsBranch g ids k (k ∷ [])
    longer :
        (k c : K) (n : BaseGraphNode K) (cs ns : List K)
        → get_node k g ≡ some n
        → n.children ≡ c ∷ cs
        → Along g ids c ns
        → IsBranch g ids k (k ∷ ns)

  pub first_child :
      (g : BaseGraph K) (w : K → ℕ) (k c : K) (n : BaseGraphNode K) (cs : List K)
      → IsAcyclic g w
      → get_node k g ≡ some n
      → n.children ≡ c ∷ cs
      → (w c < w k) × ((m : BaseGraphNode K) × (get_node c g ≡ some m))
  unfolding total elem
  first_child g w k c n cs a f h =
      let less : suc (w c + total w cs) ≤ w k =
        subst (λ s. suc (total w s) ≤ w k) h (a.drops k n f) in
      (omega arith, a.ends k c n f (rw h (ground (arith, e.equals_iff c c))))

  -- What `extend` makes of the branches.
  record Extended (g : BaseGraph K) (ids : List K) (front c : K) (ns : List K) (m : Dict K (List K))
      (out : Built (Dict K (List K))) : Type 0 where
    result : Dict K (List K)
    added : List K
    returns : out ≡ built result
    along : Along g ids c added
    branches : (k : K) → lookup k result ≡ (if front == k then some (ns ++ added) else lookup k m)

  extend-Extended :
      (g : BaseGraph K) (w : K → ℕ) (ids : List K) (fuel : ℕ) (front c : K) (n : BaseGraphNode K)
      (ns : List K) (m : Dict K (List K))
      → IsAcyclic g w
      → get_node c g ≡ some n
      → w c < fuel
      → lookup front m ≡ some ns
      → Extended g ids front c ns m (extend sync_maker g ids fuel front c m)
  unfolding extend add_node_to_sync_branch
  extend-Extended g w ids zero front c n ns m a f less at = absurd (omega arith)
  extend-Extended g w ids (suc fuel) front c n ns m a f less at = elim (Bool-cases (elem c ids)) [
    | inl met ↦ rw met (record {
      result = m;
      added = [];
      returns = refl;
      along = meets c met;
      branches = λ k. elim (Bool-cases (front == k)) [
        | inl same ↦
            rw (same, append-nil ns)
              (ap (λ i. lookup i m) (sym ((e.equals_iff front k).0 same)) ∙ at)
        | inr other ↦ rw other
      ];
    })
    | inr more ↦ elim (List-cases n.children) [
      | inl leaf ↦
          rw (more, f, at, leaf)
            (record {
              result = insert front (ns ++ c ∷ []) m;
              added = c ∷ [];
              returns = refl;
              along = stops c n more f leaf;
              branches = λ k. lookup-insert front k (ns ++ c ∷ []) m;
            })
      | inr (d, ds, next) ↦
          let (drop, (n', f')) = first_child g w c d n ds a f next in
          let rest =
            extend-Extended g w ids fuel front d n' (ns ++ c ∷ []) (insert front (ns ++ c ∷ []) m) a
              f' (omega arith)
              (lookup-insert front front (ns ++ c ∷ []) m ∙ rw (e.equals_iff front front).1 refl) in
          rw (more, f, at, next)
            (record {
              result = rest.result;
              added = c ∷ rest.added;
              returns = rest.returns;
              along = goes c d n ds rest.added more f next rest.along;
              branches = λ k.
                  rest.branches k
                  ∙ over_else (front == k) (some (ns ++ c ∷ [] ++ rest.added)) (some (ns ++ c ∷ []))
                      (lookup k m) _ (lookup-insert front k (ns ++ c ∷ []) m)
                  ∙ ap (λ r. if front == k then some r else lookup k m)
                      (append_assoc ns (c ∷ []) rest.added);
            })
    ]
  ]

  -- What `begin` makes of the branches.
  record Begun (g : BaseGraph K) (ids : List K) (id : K) (m : Dict K (List K))
      (out : Built (Dict K (List K))) : Type 0 where
    result : Dict K (List K)
    nodes : List K
    returns : out ≡ built result
    is_branch : IsBranch g ids id nodes
    branches : (k : K) → lookup k result ≡ (if id == k then some nodes else lookup k m)

  begin-Begun :
      (g : BaseGraph K) (w : K → ℕ) (ids : List K) (fuel : ℕ) (id : K) (n : BaseGraphNode K)
      (m : Dict K (List K))
      → IsAcyclic g w
      → get_node id g ≡ some n
      → w id ≤ fuel
      → contains id m ≡ false
      → Begun g ids id m (begin sync_maker g ids fuel id m)
  unfolding begin create_sync_branch
  begin-Begun g w ids fuel id n m a f less new = elim (List-cases n.children) [
    | inl leaf ↦
        rw (begin, f, new, leaf)
          (record {
            result = insert id (id ∷ []) m;
            nodes = id ∷ [];
            returns = refl;
            is_branch = single id n f leaf;
            branches = λ k. lookup-insert id k (id ∷ []) m;
          })
    | inr (c, cs, next) ↦
        let (drop, (n', f')) = first_child g w id c n cs a f next in
        let rest =
          extend-Extended g w ids fuel id c n' (id ∷ []) (insert id (id ∷ []) m) a f' (omega arith)
            (lookup-insert id id (id ∷ []) m ∙ rw (e.equals_iff id id).1 refl) in
        rw (begin, f, new, next)
          (record {
            result = rest.result;
            nodes = id ∷ rest.added;
            returns = rest.returns;
            is_branch = longer id c n cs rest.added f next rest.along;
            branches = λ k.
                rest.branches k
                ∙ over_else (id == k) (some (id ∷ rest.added)) (some (id ∷ [])) (lookup k m) _
                    (lookup-insert id k (id ∷ []) m);
          })
  ]

  -- The branches of the ids, as a map.
  pub record AreBranches (g : BaseGraph K) (ids rest : List K) (m : Dict K (List K))
      (out : Built (Dict K (List K))) : Type 0 where
    pub result : Dict K (List K)
    pub returns : out ≡ built result
    pub begun :
        (k : K)
        → elem k rest ≡ true
        → (ns : List K) × (IsBranch g ids k ns) × (lookup k result ≡ some ns)
    pub others : (k : K) → elem k rest ≡ false → lookup k result ≡ lookup k m

  elem_apart :
      (id k : K) (rest : List K) → elem k rest ≡ true → elem id rest ≡ false → (id == k) ≡ false
  elem_apart id k rest i o = elim (Bool-cases (id == k)) [
    | inl same ↦ let t = subst (λ j. elem j rest ≡ false) ((e.equals_iff id k).0 same) o in cc
    | inr other ↦ other
  ]

  pub begin_all-AreBranches :
      (g : BaseGraph K) (w : K → ℕ) (ids : List K) (fuel : ℕ) (rest : List K) (m : Dict K (List K))
      → IsAcyclic g w
      → ((k : K) (n : BaseGraphNode K) → get_node k g ≡ some n → w k ≤ fuel)
      → has_unique_ids rest ≡ true
      → ((k : K)
          → elem k rest ≡ true
          → ((n : BaseGraphNode K) × (get_node k g ≡ some n)) × (lookup k m ≡ none))
      → AreBranches g ids rest m (begin_all sync_maker g ids fuel rest m)
  unfolding begin_all elem has_unique_ids
  begin_all-AreBranches g w ids fuel [] m a b u new = record {
    result = m;
    returns = refl;
    begun = λ k i. cc;
    others = λ k i. refl;
  }
  begin_all-AreBranches g w ids fuel (id ∷ rest) m a b u new =
      let ((n, f), absent) = new id (rw (e.equals_iff id id).1 refl) in
      let first = begin-Begun g w ids fuel id n m a f (b id n f) (contains-none id m absent) in
      let tail = begin_all-AreBranches g w ids fuel rest first.result a b (ground arith) (λ k i. (
        (new k (ground arith)).0,
        first.branches k ∙ rw (elem_apart id k rest i (ground arith)) (new k (ground arith)).1,
      )) in
      rw (begin_all, first.returns)
        (record {
          result = tail.result;
          returns = tail.returns;
          begun = λ k i. elim (Bool-cases (elem k rest)) [
            | inl later ↦ tail.begun k later
            | inr never ↦
                let same : (id == k) ≡ true = ground arith in
                (
                  first.nodes,
                  subst (λ j. IsBranch g ids j first.nodes) ((e.equals_iff id k).0 same)
                      first.is_branch,
                  tail.others k never ∙ first.branches k ∙ rw same,
                )
          ];
          others = λ k i.
              let other : (id == k) ≡ false = ground arith in
              tail.others k (ground arith) ∙ first.branches k ∙ rw other;
        })
