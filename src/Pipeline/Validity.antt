-- ===== src/Pipeline/Validity.antt =====
-- The well-formed states of a pipeline, and a whole iteration on them.
use seekira.Common.{
  ◌≡◌, refl, inl, inr, Bool, true, false, ◌&&◌, none, some, [], arith, Eq, ◌==◌, if◌then◌else◌,
  Bool-cases, Option-cases,
}
use seekira.Common.Dict.{Dict, lookup, contains, has_unique_keys, contains-lookup}
use seekira.PipelineBranch.{Branch}
use seekira.Pipeline.{
  BranchProcessData, is_ready, is_finished, AsyncPipeline, branch_at, start_all,
  thread_pool_iteration, ready_for_wait_iteration, add_process_data,
}
use seekira.Pipeline.Starting.{Started, start_branches-Started}
use seekira.Pipeline.Results.{passed, branch_at-insert}
use seekira.Pipeline.Recovery.{failed, Handled, handle_exceptions-Handled}

-- A branch has data exactly when it is ready.
unfoldable pub fits : {D : Type 0} → BranchProcessData D → Bool
unfolding is_ready
fits b =
    if is_ready b.status
    then elim b.data_to_process [ none ↦ false | some d ↦ true ]
    else elim b.data_to_process [ none ↦ true | some d ↦ false ]

module _ {K D X H : Type 0} ⦃e : Eq K⦄ where
  pub record IsValid (p : AsyncPipeline K D X H) : Type 0 where
    pub unique_threads : has_unique_keys p.threads ≡ true
    pub unique_branches : has_unique_keys p.branches_data ≡ true
    pub has_worker : (k : K) → contains k p.branches_data ≡ true → contains k p.threads ≡ true
    pub data_fits : (k : K) → fits (branch_at k p.branches_data) ≡ true

  -- `middle` is the state after the exceptions are handled.
  pub record Iterates (p p' : AsyncPipeline K D X H) : Type 0 where
    pub middle : AsyncPipeline K D X H
    pub same_policy : middle.sync_policy ≡ p.sync_policy
    pub same_root : middle.root_id ≡ p.root_id
    pub handled :
        Handled p.threads p.branches_data p.output_branches_data middle.threads middle.branches_data
          middle.output_branches_data
    pub started :
        Started p.sync_policy p.root_id
          (ready_for_wait_iteration middle)
          middle.branches_data
          middle.threads
          middle.output_branches_data
          p'.branches_data
          p'.threads
          p'.output_branches_data

  failed-contains : (k : K) (t : Dict K (Branch K D X H)) → failed k t ≡ true → contains k t ≡ true
  unfolding failed
  failed-contains k t h = elim (Option-cases (lookup k t)) [
    | inl missing ↦ ground arith
    | inr (c, at) ↦ contains-lookup k t c at
  ]

  Handled-IsValid :
      (p q : AsyncPipeline K D X H)
      → IsValid p
      → Handled p.threads p.branches_data p.output_branches_data q.threads q.branches_data
          q.output_branches_data
      → IsValid q
  unfolding branch_at fits
  Handled-IsValid p q v r = record {
    unique_threads = r.unique_threads v.unique_threads;
    unique_branches = r.unique_branches v.unique_branches;
    has_worker = λ k i.
        ground
          (arith, r.same_threads k, r.same_branches k, v.has_worker k, failed-contains k p.threads);
    data_fits = λ k. ground (arith, r.branch_data k, v.data_fits k);
  }

  Started-IsValid :
      (p q : AsyncPipeline K D X H)
      → IsValid p
      → Started p.sync_policy p.root_id
          (ready_for_wait_iteration p)
          p.branches_data
          p.threads
          p.output_branches_data
          q.branches_data
          q.threads
          q.output_branches_data
      → IsValid q
  unfolding branch_at fits
  Started-IsValid p q v r = record {
    unique_threads = r.unique_threads v.unique_threads;
    unique_branches = r.unique_branches v.unique_branches;
    has_worker = λ k i. ground (arith, r.same_threads k, r.same_branches k, v.has_worker k);
    data_fits = λ k. ground (arith, r.branch_data k, v.data_fits k);
  }

  -- An iteration on a well-formed pipeline, in which no worker adds an exception while its exceptions
  -- are reset, does not throw and keeps the pipeline well-formed. First each branch whose worker has
  -- exceptions becomes idle, loses its result, and its exceptions are cleared. Then each branch that may
  -- start hands its data to its worker, becomes running and loses its last result; the others are left
  -- alone.
  pub thread_pool_iteration-Iterates :
      (p : AsyncPipeline K D X H)
      → IsValid p
      → (p' : AsyncPipeline K D X H) × (thread_pool_iteration (λ k. []) p ≡ some p')
        × Iterates p p'
        × IsValid p'
  unfolding thread_pool_iteration start_all
  thread_pool_iteration-Iterates p v =
      let (t, b, o, f, r) =
        handle_exceptions-Handled p.threads p.branches_data p.output_branches_data
          v.unique_threads in
      let q = record p { threads = t; branches_data = b; output_branches_data = o } in
      let w = Handled-IsValid p q v r in
      let (b', t', o', g, s) =
        start_branches-Started q.sync_policy q.root_id (ready_for_wait_iteration q) b t o
          w.unique_branches w.has_worker in
      let p' = record q { branches_data = b'; threads = t'; output_branches_data = o' } in
      (
        p',
        rw (thread_pool_iteration, f, start_all, g) refl,
        record { middle = q; same_policy = refl; same_root = refl; handled = r; started = s },
        Started-IsValid q p' w s,
      )

  -- `add_process_data` takes data for a branch exactly when the branch is finished, and then it is
  -- ready with these data; otherwise it answers false. Every other branch, and a branch that is not
  -- finished, keeps its data.
  pub add_process_data-Takes :
      (id : K) (d : D) (p : AsyncPipeline K D X H)
      → ((add_process_data id (some d) p).0 ≡ is_finished (branch_at id p.branches_data).status)
        × ((k : K)
            → branch_at k (add_process_data id (some d) p).1.branches_data ≡ (
                if id == k && is_finished (branch_at id p.branches_data).status
                then passed d
                else branch_at k p.branches_data))
  unfolding add_process_data
  add_process_data-Takes id d p =
      elim (Bool-cases (is_finished (branch_at id p.branches_data).status)) [
        | inl done ↦ (
          simp (add_process_data, done),
          λ k.
              simp (add_process_data, done)
                (ground (arith, branch_at-insert id k (passed d) p.branches_data)),
        )
        | inr busy ↦ (
          simp (add_process_data, busy),
          λ k.
              simp (add_process_data, busy)
                (ground (
                  arith,
                  branch_at-insert id k (branch_at id p.branches_data) p.branches_data,
                  e.equals_iff id k,
                )),
        )
      ]
