-- ===== src/SyncPipeline/Order.antt =====
-- The nodes in the order in which `process` of a synchronous pipeline visits them.

use seekira.Common.{
  ℕ, zero, suc, ◌+◌, ◌-◌, ◌≤◌, ◌<◌, ◌≡◌, refl, subst, sym, ◌∙◌, ap, Bool, true, Option, none, some,
  List, [], ◌∷◌, ◌++◌, arith, Eq,
}
use seekira.Common.Dict.{Dict, lookup, has_unique_keys}
use seekira.Graph.{BaseGraphNode, BaseGraph, elem, get_node}
use seekira.PipelineBranch.{last, get_last_id, process_all}
use seekira.BasePipeline.{built, init_branches}
use seekira.BasePipeline.Branching.{IsBranchIds, child_ids, elem-append}
use seekira.BasePipeline.Chains.{total, IsAcyclic, IsBranch, single, longer}
use seekira.SyncPipeline.{sync_maker, next_ids, process_queue, process}
use seekira.SyncPipeline.Building.{init_branches-Cut}
use seekira.SyncPipeline.Visiting.{
  one, count, count-append, count-first, IsLed, IsClosed, IsLed-same, IsClosed-Along, IsLed-Along,
  IsLast, last-IsLast, first_among, no_child, child_ids-node,
}

total-append {ℓ} :
    {A : Type ℓ} (w : A → ℕ) (xs ys : List A) → total w (xs ++ ys) ≡ total w xs + total w ys
unfolding total
total-append w [] ys = omega arith
total-append w (x ∷ xs) ys = omega (arith, total-append w xs ys)

module _ {S X : Type 0} where
  -- One run after another, unless the first has thrown.
  unfoldable and_then : S × Option X → (S → S × Option X) → S × Option X
  and_then (s, none) f = f s
  and_then (s, some x) f = (s, some x)

  one_node :
      (p : S × Option X) (whole front back : S → S × Option X)
      → ((s : S) → whole s ≡ and_then (front s) back)
      → elim p.1 [ none ↦ whole p.0 | some err ↦ (p.0, some err) ]
        ≡ and_then (elim p.1 [ none ↦ front p.0 | some err ↦ (p.0, some err) ]) back
  unfolding and_then
  one_node (s, none) whole front back h = h s
  one_node (s, some x) whole front back h = refl

  one_branch :
      (p : S × Option X) (next : S → Option (S × Option X)) (back : S → S × Option X)
      → ((s : S) → next s ≡ some (back s))
      → elim p.1 [ none ↦ next p.0 | some err ↦ some (p.0, some err) ] ≡ some (and_then p back)
  unfolding and_then
  one_branch (s, none) next back h = h s
  one_branch (s, some x) next back h = refl

module _ {K : Type 0} ⦃e : Eq K⦄ where
  -- What a branch that begins at `k` does for an order of nodes in which it stands.
  record Passed (g : BaseGraph K) (w : K → ℕ) (ids : List K) (k : K) (ns : List K) : Type 0 where
    end : K
    is_last : get_last_id ns ≡ some end
    facts : IsLast g w ids k end
    first : elem k ns ≡ true
    closed :
        (rest : List K)
        → ((x : K) → elem x (child_ids g end) ≡ true → elem x rest ≡ true)
        → IsClosed g rest
        → IsClosed g (ns ++ rest)
    led :
        (due : K → ℕ) (rest : List K)
        → 0 < due k
        → IsLed g (λ j. count j (child_ids g end) + (due j - one k j)) rest
        → IsLed g due (ns ++ rest)

  branch-Passed :
      (g : BaseGraph K) (w : K → ℕ) (ids : List K) (k : K) (ns : List K)
      → IsAcyclic g w
      → IsBranchIds g ids
      → IsBranch g ids k ns
      → Passed g w ids k ns
  unfolding get_last_id last
  branch-Passed g w ids k ns a b (single k' n f leaf) = record {
    end = k';
    is_last = refl;
    facts = record {
      node = n;
      found = f;
      weight = omega arith;
      begins = λ x i. absurd (no_child g k' x n f leaf i);
    };
    first = first_among k' k' [] refl;
    closed = λ rest after closed. (after, closed);
    led = λ due rest i led. (i, led);
  }
  branch-Passed g w ids k ns a b (longer k' c n cs ns' f h along) = record {
    end = last k' ns';
    is_last = refl;
    facts = last-IsLast g ids w k' c n cs ns' a b f h along;
    first = first_among k' k' ns' refl;
    closed = λ rest after closed. IsClosed-Along g ids k' c n cs ns' rest b f h along after closed;
    led = λ due rest i led.
        (i, IsLed-Along g ids k' c n cs ns' (λ j. due j - one k' j) rest b f h along led);
  }

  module _ {S X : Type 0} where
    process_all-append :
        (process_node : K → S → S × Option X) (xs ys : List K) (s : S)
        → process_all process_node (xs ++ ys) s
          ≡ and_then (process_all process_node xs s) (λ r. process_all process_node ys r)
    unfolding process_all and_then
    process_all-append process_node [] ys s = refl
    process_all-append process_node (x ∷ xs) ys s =
        one_node (process_node x s) (λ r. process_all process_node (xs ++ ys) r)
          (λ r. process_all process_node xs r) (λ r. process_all process_node ys r)
          (λ r. process_all-append process_node xs ys r)

    -- What a run over a queue comes to.
    record Visit (process_node : K → S → S × Option X) (assertion : X) (g : BaseGraph K)
        (m : Dict K (List K)) (fuel : ℕ) (queue : List K) : Type 0 where
      order : List K
      closed : IsClosed g order
      led : IsLed g (λ k. count k queue) order
      visited : (k : K) → elem k queue ≡ true → elem k order ≡ true
      run :
          (s : S)
          → process_queue process_node assertion g m fuel queue s
            ≡ some (process_all process_node order s)

    module _ (process_node : K → S → S × Option X) (assertion : X) (g : BaseGraph K) (w : K → ℕ)
        (ids : List K) (m : Dict K (List K)) (acyclic : IsAcyclic g w) (are_ids : IsBranchIds g ids)
        (begun : (k : K)
          → elem k ids ≡ true
          → (ns : List K) × (IsBranch g ids k ns) × (lookup k m ≡ some ns)) where
      queue_step :
          (fuel : ℕ) (id : K) (queue ns ids' : List K) (s : S)
          → lookup id m ≡ some ns
          → next_ids g ns ≡ some ids'
          → process_queue process_node assertion g m (suc fuel) (id ∷ queue) s ≡ (
              let p = process_all process_node ns s in
              elim p.1 [
                | none ↦ process_queue process_node assertion g m fuel (queue ++ ids') p.0
                | some err ↦ some (p.0, some err)
              ])
      unfolding process_queue
      queue_step fuel id queue ns ids' s at next =
          rw (process_queue, at)
            (ap
              (λ o. elim (process_all process_node ns s).1 [
                | some err ↦ some ((process_all process_node ns s).0, some err)
                | none ↦ elim o [
                  | none ↦ some ((process_all process_node ns s).0, some assertion)
                  | some ids'' ↦
                      process_queue process_node assertion g m fuel (queue ++ ids'')
                        (process_all process_node ns s).0
                ]
              ])
              next)

      queue-Visit :
          (fuel : ℕ) (queue : List K)
          → total w queue < fuel
          → ((k : K) → elem k queue ≡ true → elem k ids ≡ true)
          → Visit process_node assertion g m fuel queue
      unfolding process_queue total elem process_all next_ids count
      queue-Visit zero queue less known = absurd (omega arith)
      queue-Visit (suc fuel) [] less known = record {
        order = [];
        closed = tt;
        led = λ k. refl;
        visited = λ k i. i;
        run = λ s. refl;
      }
      queue-Visit (suc fuel) (id ∷ queue) less known =
          let (ns, branch, at) = begun id (known id (first_among id id queue refl)) in
          let b = branch-Passed g w ids id ns acyclic are_ids branch in
          let rest =
            queue-Visit fuel (queue ++ child_ids g b.end)
              (omega (
                arith,
                total-append w queue (child_ids g b.end),
                b.facts.weight,
                subst (λ s. suc (total w s) ≤ w b.end)
                    (sym (child_ids-node g b.end b.facts.node b.facts.found))
                    (acyclic.drops b.end b.facts.node b.facts.found),
              ))
              (λ k i.
                ground
                  (arith, elem-append k queue (child_ids g b.end), known k, b.facts.begins k)) in
          record {
            order = ns ++ rest.order;
            closed =
                b.closed rest.order
                  (λ x i. rest.visited x (ground (arith, elem-append x queue (child_ids g b.end))))
                  rest.closed;
            led =
                b.led (λ j. count j (id ∷ queue)) rest.order (count-first id queue)
                  (IsLed-same g (λ j. count j (queue ++ child_ids g b.end))
                    (λ j. count j (child_ids g b.end) + (count j (id ∷ queue) - one id j))
                    rest.order (λ j. omega (arith, count-append j queue (child_ids g b.end)))
                    rest.led);
            visited = λ k i. ground (
              arith,
              elem-append k ns rest.order,
              elem-append k queue (child_ids g b.end),
              rest.visited k,
              b.first,
              e.equals_iff id k,
            );
            run = λ s.
                queue_step fuel id queue ns (child_ids g b.end) s at (
                  rw (next_ids, b.is_last, b.facts.found)
                    (ap (λ r. some r) (sym (child_ids-node g b.end b.facts.node b.facts.found))))
                ∙ one_branch (process_all process_node ns s)
                    (λ r.
                      process_queue process_node assertion g m fuel (queue ++ child_ids g b.end) r)
                    (λ r. process_all process_node rest.order r) rest.run
                ∙ ap (λ r. some r) (sym (process_all-append process_node ns rest.order s));
          }

    -- On a graph whose weights drop along the edges and are below the fuel, where no id has two nodes, and for a
    -- root without parents,
    -- `init_branches` of a synchronous pipeline makes branches on which `process` returns, and does what the
    -- nodes of one order do, one after the other up to the first that throws. The order is the same for all
    -- data, and each node stands in it as often as it is due: the root once at the start, and every node once more
    -- for each time it stands among the children of a node that has come. The root is in it, and after each node
    -- stand all of its children.
    pub process-Visits :
        (process_node : K → S → S × Option X) (assertion : X) (less : K → K → Bool)
        (g : BaseGraph K) (w : K → ℕ) (fuel : ℕ) (root : K) (n : BaseGraphNode K)
        → IsAcyclic g w
        → has_unique_keys g.nodes ≡ true
        → ((k : K) (m : BaseGraphNode K) → get_node k g ≡ some m → w k < fuel)
        → get_node root g ≡ some n
        → n.parents ≡ []
        → (branches : Dict K (List K)) × (init_branches sync_maker less fuel g [] ≡ built branches)
          × ((order : List K) × IsLed g (λ k. count k (root ∷ [])) order
              × IsClosed g order
              × (elem root order ≡ true)
              × ((s : S)
                  → process process_node assertion g branches fuel (some root) s
                    ≡ some (process_all process_node order s)))
    unfolding process total elem
    process-Visits process_node assertion less g w fuel root n a keys_differ bound f alone =
        let cut =
          init_branches-Cut less g w fuel a keys_differ (λ k m at. omega (arith, bound k m at)) in
        let begins = cut.are_ids.roots root n f alone in
        let v =
          queue-Visit process_node assertion g w cut.ids cut.result a cut.are_ids cut.begun fuel
            (root ∷ []) (omega (arith, bound root n f))
            (λ k i. ground (arith, e.equals_iff root k, begins)) in
        (
          cut.result,
          cut.returns,
          (v.order, v.led, v.closed, v.visited root (first_among root root [] refl), v.run),
        )
