-- ===== src/Pipeline/Iteration.antt =====
-- A whole iteration: the exceptions of the workers first, then the start of the branches.
use seekira.Common.{
  ◌≡◌, ◌≢◌, refl, ap, inl, inr, true, false, Option, none, some, [], ◌∷◌, arith, Eq, ◌==◌,
  Option-cases,
}
use seekira.Common.Dict.{Dict, lookup}
use seekira.Pipeline.{
  parallel_wait, is_wait, BranchProcessData, BranchStatus, ready, running, finished, is_ready,
  is_finished, idle, AsyncPipeline, branch_at, waits_for_root, ready_for_wait_iteration,
  starts_with,
}
use seekira.Pipeline.Starting.{start_of}

module _ {K D : Type 0} ⦃e : Eq K⦄ where
  branch_at-none :
      (k : K) (m : Dict K (BranchProcessData D)) → lookup k m ≡ none → branch_at k m ≡ idle
  unfolding branch_at
  branch_at-none k m h = rw (branch_at, h) refl

  waits_for_root-at :
      (root_id k : K) (m : Dict K (BranchProcessData D)) (b : BranchProcessData D)
      → waits_for_root root_id m ≡ true
      → lookup k m ≡ some b
      → (k == root_id) ≡ false
      → is_finished b.status ≡ true
  unfolding waits_for_root lookup is_finished is_ready
  waits_for_root-at root_id k [] b h at other = cc
  waits_for_root-at root_id k ((id, c) ∷ m) b h at other =
      ground (arith, waits_for_root-at root_id k m b, e.equals_iff id k)

finished-is_not_ready : (s : BranchStatus) → is_finished s ≡ true → is_ready s ≡ false
unfolding is_finished is_ready
finished-is_not_ready ready h = cc
finished-is_not_ready running h = refl
finished-is_not_ready finished h = refl

module _ {K D X H : Type 0} ⦃e : Eq K⦄ where
  abbrev pub started_of : K → AsyncPipeline K D X H → Option D
  started_of k p = start_of p.sync_policy p.root_id (ready_for_wait_iteration p) k p.branches_data

  root_waits :
      (p : AsyncPipeline K D X H) (d : D)
      → p.sync_policy ≡ parallel_wait
      → started_of p.root_id p ≡ some d
      → waits_for_root p.root_id p.branches_data ≡ true
  unfolding start_of starts_with ready_for_wait_iteration
  root_waits p d w h =
      let waits : is_wait p.sync_policy ≡ true = ap is_wait w in
      ground (arith, waits, e.equals_iff p.root_id p.root_id)

  -- Under `parallel_wait` the root is started only when every other branch is finished, and no other
  -- branch is started with it.
  pub root_starts-Alone :
      (p : AsyncPipeline K D X H) (d : D) (k : K)
      → p.sync_policy ≡ parallel_wait
      → started_of p.root_id p ≡ some d
      → k ≢ p.root_id
      → (is_finished (branch_at k p.branches_data).status ≡ true) × (started_of k p ≡ none)
  unfolding branch_at start_of starts_with is_finished
  root_starts-Alone p d k w h other = elim (Option-cases (lookup k p.branches_data)) [
    | inl missing ↦
        (ap (λ b. is_finished b.status) (branch_at-none k p.branches_data missing), ground arith)
    | inr (b, at) ↦
        let done =
          waits_for_root-at p.root_id k p.branches_data b (root_waits p d w h) at
            (ground (arith, e.equals_iff k p.root_id)) in
        (ground (arith, done), ground (arith, finished-is_not_ready b.status done))
  ]
