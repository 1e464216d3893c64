-- ===== src/Pipeline/Starting.antt =====
-- Which branches an iteration starts, and with what.
use seekira.Common.{
  ◌≡◌, refl, inl, inr, Bool, true, false, Option, none, some, [], ◌∷◌, arith, Eq, ◌==◌,
  if◌then◌else◌, Bool-cases, Option-cases,
}
use seekira.Common.Dict.{
  Dict, lookup, insert, contains, lookup-insert, contains-insert, has_unique_keys, lookup-absent,
  lookup-present, contains-lookup, insert-has_unique_keys,
}
use seekira.PipelineBranch.{Branch}
use seekira.Worker.{add_data}
use seekira.Pipeline.{
  PipelineSyncPolicy, BranchProcessData, running, starts_with, start_worker, start_branches,
}

module _ {K D : Type 0} ⦃e : Eq K⦄ where
  -- What the branch `k` is started with, if it is.
  unfoldable pub start_of :
      PipelineSyncPolicy → K → Bool → K → Dict K (BranchProcessData D) → Option D
  start_of policy root_id go k m = elim (lookup k m) [
    | none ↦ none
    | some b ↦ starts_with policy root_id go k b
  ]

module _ {D : Type 0} where
  abbrev pub on_the_run : BranchProcessData D
  on_the_run = record { data_to_process = none; status = running }

  abbrev pub data_after : Option D → Option (BranchProcessData D) → Option (BranchProcessData D)
  data_after none b = b
  data_after (some d) b = some on_the_run

  abbrev pub output_after : Option D → Option (Option D) → Option (Option D)
  output_after none o = o
  output_after (some d) o = some none

module _ {K D X H : Type 0} where
  abbrev given : D → Option (Branch K D X H) → Option (Branch K D X H)
  given d none = none
  given d (some b) = some (record b { worker = add_data d b.worker })

  abbrev pub thread_after : Option D → Option (Branch K D X H) → Option (Branch K D X H)
  thread_after none t = t
  thread_after (some d) t = given d t

module _ {K D : Type 0} ⦃e : Eq K⦄ (policy : PipelineSyncPolicy) (root_id : K) (go : Bool) where
  absent_start :
      (k : K) (m : Dict K (BranchProcessData D))
      → contains k m ≡ false
      → start_of policy root_id go k m ≡ none
  unfolding start_of
  absent_start k m h = rw (start_of, lookup-absent k m h) refl

  start_head :
      (k id : K) (b : BranchProcessData D) (m : Dict K (BranchProcessData D))
      → start_of policy root_id go k ((id, b) ∷ m)
        ≡ (if id == k then starts_with policy root_id go k b else start_of policy root_id go k m)
  unfolding start_of lookup
  start_head k id b m = elim (Bool-cases (id == k)) [
    | inl h ↦ rw (h, start_of) refl
    | inr h ↦ rw (h, start_of) refl
  ]

module _ {K D X H : Type 0} ⦃e : Eq K⦄ (policy : PipelineSyncPolicy) (root_id : K) (go : Bool) where
  -- Each branch is started with its data or left alone, in all three maps.
  pub record Started (m : Dict K (BranchProcessData D)) (t : Dict K (Branch K D X H))
      (o : Dict K (Option D)) (m' : Dict K (BranchProcessData D)) (t' : Dict K (Branch K D X H))
      (o' : Dict K (Option D)) : Type 0 where
    pub branch_data :
        (k : K) → lookup k m' ≡ data_after (start_of policy root_id go k m) (lookup k m)
    pub threads : (k : K) → lookup k t' ≡ thread_after (start_of policy root_id go k m) (lookup k t)
    pub outputs : (k : K) → lookup k o' ≡ output_after (start_of policy root_id go k m) (lookup k o)
    pub same_branches : (k : K) → contains k m' ≡ contains k m
    pub same_threads : (k : K) → contains k t' ≡ contains k t
    pub unique_branches : has_unique_keys m ≡ true → has_unique_keys m' ≡ true
    pub unique_threads : has_unique_keys t ≡ true → has_unique_keys t' ≡ true

  left_alone :
      (id : K) (b : BranchProcessData D) (m m' : Dict K (BranchProcessData D))
      (t t' : Dict K (Branch K D X H)) (o o' : Dict K (Option D))
      → starts_with policy root_id go id b ≡ none
      → Started m t o m' t' o'
      → contains id m ≡ false
      → Started ((id, b) ∷ m) t o ((id, b) ∷ m') t' o'
  unfolding lookup contains has_unique_keys
  left_alone id b m m' t t' o o' h r fresh = record {
    branch_data = λ k.
        ground (arith, start_head policy root_id go k id b m, r.branch_data k, e.equals_iff id k);
    threads = λ k. ground (
      arith,
      start_head policy root_id go k id b m,
      r.threads k,
      e.equals_iff id k,
      absent_start policy root_id go k m,
    );
    outputs = λ k. ground (
      arith,
      start_head policy root_id go k id b m,
      r.outputs k,
      e.equals_iff id k,
      absent_start policy root_id go k m,
    );
    same_branches = λ k. ground (arith, r.same_branches k);
    same_threads = r.same_threads;
    unique_branches = λ u. ground (arith, r.unique_branches, r.same_branches id);
    unique_threads = r.unique_threads;
  }

  set_off :
      (id : K) (d : D) (b : BranchProcessData D) (m m' : Dict K (BranchProcessData D))
      (c : Branch K D X H) (t t' : Dict K (Branch K D X H)) (o o' : Dict K (Option D))
      → starts_with policy root_id go id b ≡ some d
      → lookup id t ≡ some c
      → Started m
          (insert id (record c { worker = add_data d c.worker }) t)
          (insert id none o)
          m'
          t'
          o'
      → contains id m ≡ false
      → Started ((id, b) ∷ m) t o ((id, on_the_run) ∷ m') t' o'
  unfolding lookup contains has_unique_keys
  set_off id d b m m' c t t' o o' h at r fresh =
      let t1 = record c { worker = add_data d c.worker } in
      record {
        branch_data = λ k.
            ground
              (arith, start_head policy root_id go k id b m, r.branch_data k, e.equals_iff id k);
        threads = λ k. ground (
          arith,
          start_head policy root_id go k id b m,
          r.threads k,
          e.equals_iff id k,
          absent_start policy root_id go k m,
          lookup-insert id k t1 t,
        );
        outputs = λ k. ground (
          arith,
          start_head policy root_id go k id b m,
          r.outputs k,
          e.equals_iff id k,
          absent_start policy root_id go k m,
          lookup-insert id k none o,
        );
        same_branches = λ k. ground (arith, r.same_branches k);
        same_threads = λ k. ground (
          arith,
          r.same_threads k,
          contains-insert id k t1 t,
          contains-lookup id t c at,
          e.equals_iff id k,
        );
        unique_branches = λ u. ground (arith, r.unique_branches, r.same_branches id);
        unique_threads = λ u. r.unique_threads (insert-has_unique_keys id t1 t u);
      }

  -- When each branch with data has a worker, the loop does not throw.
  pub start_branches-Started :
      (m : Dict K (BranchProcessData D)) (t : Dict K (Branch K D X H)) (o : Dict K (Option D))
      → has_unique_keys m ≡ true
      → ((k : K) → contains k m ≡ true → contains k t ≡ true)
      → (m' : Dict K (BranchProcessData D)) × (t' : Dict K (Branch K D X H)) × (o' : Dict K
          (Option D))
        × (start_branches policy root_id go m t o ≡ some (m', t', o'))
        × Started m t o m' t' o'
  unfolding start_branches has_unique_keys contains lookup start_of start_worker
  start_branches-Started [] t o u w = (
    [],
    t,
    o,
    refl,
    record {
      branch_data = λ k. refl;
      threads = λ k. refl;
      outputs = λ k. refl;
      same_branches = λ k. refl;
      same_threads = λ k. refl;
      unique_branches = λ u. u;
      unique_threads = λ u. u;
    },
  )
  start_branches-Started ((id, b) ∷ m) t o u w =
      elim (Option-cases (starts_with policy root_id go id b)) [
        | inl h ↦
            let (m', t', o', f, r) =
              start_branches-Started m t o (ground arith) (λ k i. w k (ground arith)) in
            (
              (id, b) ∷ m',
              t',
              o',
              rw (start_branches, h, f) refl,
              left_alone id b m m' t t' o o' h r (ground arith),
            )
        | inr (d, h) ↦
            let (c, at) = lookup-present id t (w id (ground (arith, e.equals_iff id id))) in
            let t1 = insert id (record c { worker = add_data d c.worker }) t in
            let (m', t', o', f, r) =
              start_branches-Started m t1 (insert id none o) (ground arith) (λ k i.
                ground (
                  arith,
                  contains-insert id k (record c { worker = add_data d c.worker }) t,
                  w k,
                )) in
            (
              (id, on_the_run) ∷ m',
              t',
              o',
              rw (start_branches, h, start_worker, at, f) refl,
              set_off id d b m m' c t t' o o' h at r (ground arith),
            )
      ]
