-- ===== src/Pipeline/Results.antt =====
-- What `on_finished` passes on, to the children and to the observers.
use seekira.Common.{
  ◌≡◌, refl, sym, subst, inl, inr, ◌⊎◌, true, false, ◌&&◌, Option, none, some, List, [], ◌∷◌, arith,
  Eq, ◌==◌, if◌then◌else◌, Bool-cases, Option-cases,
}
use seekira.Common.Dict.{
  Dict, lookup, insert, contains, lookup-insert, has_unique_keys, lookup-absent,
  insert-has_unique_keys,
}
use seekira.Graph.{elem}
use seekira.Pipeline.{
  PipelineSyncPolicy, undefined, sync, parallel_wait, parallel_no_wait, is_wait, is_no_wait,
  BranchProcessData, AsyncPipeline, ready, is_finished, idle, branch_at,
}
use seekira.Pipeline.Finishing.{
  Finish, skipped, delivered, thrown, clone_all, give_children, has_all, send, store_result,
  children_of, on_finished,
}

policy-cases :
    (p : PipelineSyncPolicy)
    → (p ≡ undefined) ⊎ ((p ≡ sync) ⊎ ((p ≡ parallel_no_wait) ⊎ (p ≡ parallel_wait)))
policy-cases undefined = inl refl
policy-cases sync = inr (inl refl)
policy-cases parallel_no_wait = inr (inr (inl refl))
policy-cases parallel_wait = inr (inr (inr refl))

module _ {D : Type 0} where
  abbrev pub passed : D → BranchProcessData D
  passed d = record { data_to_process = some d; status = ready }

  abbrev pub some_of : Option D → Option (Option D)
  some_of none = none
  some_of (some d) = some (some d)

module _ {K D : Type 0} ⦃e : Eq K⦄ where
  pub branch_at-insert :
      (j k : K) (v : BranchProcessData D) (m : Dict K (BranchProcessData D))
      → branch_at k (insert j v m) ≡ (if j == k then v else branch_at k m)
  unfolding branch_at
  branch_at-insert j k v m = ground (arith, lookup-insert j k v m)

  give_children-at :
      (k : K) (cs : List K) (d : D) (m : Dict K (BranchProcessData D))
      → branch_at k (give_children cs d m)
        ≡ (if elem k cs && is_finished (branch_at k m).status then passed d else branch_at k m)
  unfolding give_children elem is_finished
  give_children-at k [] d m = refl
  give_children-at k (c ∷ cs) d m =
      let b = branch_at c m in
      let v = if is_finished b.status then passed d else b in
      ground
        (arith, give_children-at k cs d (insert c v m), branch_at-insert c k v m, e.equals_iff c k)

  clone_all-none :
      (m : Dict K (Option D))
      → has_unique_keys m ≡ true
      → clone_all m ≡ none
      → (k : K) × (lookup k m ≡ some none)
  unfolding clone_all has_unique_keys lookup
  clone_all-none [] u h = cc
  clone_all-none ((id, none) ∷ m) u h = (id, ground (arith, e.equals_iff id id))
  clone_all-none ((id, some d) ∷ m) u h =
      let (k, f) = clone_all-none m (ground arith) (ground arith) in
      (k, ground (arith, lookup-absent id m, e.equals_iff id k))

  clone_all-some :
      (k : K) (m : Dict K (Option D)) (c : Dict K D)
      → clone_all m ≡ some c
      → lookup k m ≡ some_of (lookup k c)
  unfolding clone_all lookup
  clone_all-some k [] c h = let same : [] ≡ c = ground arith in rw (sym same) refl
  clone_all-some k ((id, none) ∷ m) c h = cc
  clone_all-some k ((id, some d) ∷ m) c h = elim (Option-cases (clone_all m)) [
    | inl f ↦ ground arith
    | inr (c', f) ↦
        let same : c ≡ (id, d) ∷ c' = ground arith in
        rw same (ground (arith, clone_all-some k m c' f))
  ]

module _ {K V W : Type 0} ⦃e : Eq K⦄ where
  has_all-true :
      (k : K) (t : Dict K V) (m : Dict K W)
      → has_all t m ≡ true
      → contains k t ≡ true
      → contains k m ≡ true
  unfolding has_all contains
  has_all-true k [] m h i = cc
  has_all-true k ((id, v) ∷ t) m h i = ground (arith, has_all-true k t m, e.equals_iff id k)

  has_all-false :
      (t : Dict K V) (m : Dict K W)
      → has_all t m ≡ false
      → (k : K) × (contains k t ≡ true) × (contains k m ≡ false)
  unfolding has_all contains
  has_all-false [] m h = cc
  has_all-false ((id, v) ∷ t) m h = elim (Bool-cases (contains id m)) [
    | inr out ↦ (id, ground (arith, e.equals_iff id id), out)
    | inl here ↦ let (k, f, g) = has_all-false t m (ground arith) in (k, ground arith, g)
  ]

module _ {K D X H : Type 0} ⦃e : Eq K⦄ where
  -- Whether every thread has an entry among the results.
  abbrev pub AllThere : AsyncPipeline K D X H → Type 0
  AllThere p = (k : K) → contains k p.threads ≡ true → contains k p.output_branches_data ≡ true

  abbrev pub SentAs : PipelineSyncPolicy → K → D → AsyncPipeline K D X H → Dict K D → Type 0
  SentAs undefined id d p out = out ≡ []
  SentAs sync id d p out = out ≡ []
  SentAs parallel_no_wait id d p out = out ≡ (id, d) ∷ []
  SentAs parallel_wait id d p out =
      (AllThere p × ((k : K) → lookup k p.output_branches_data ≡ some_of (lookup k out)))
      ⊎ ((out ≡ [])
          × ((k : K) × (contains k p.threads ≡ true) × (contains k p.output_branches_data ≡ false)))

  abbrev pub Sends : K → D → AsyncPipeline K D X H → Finish K D X H → Type 0
  Sends id d p (skipped q) = ⊥
  Sends id d p (delivered out q) = (q ≡ p) × SentAs p.sync_policy id d p out
  Sends id d p (thrown q) =
      (q ≡ p)
      × (p.sync_policy ≡ parallel_wait)
      × AllThere p
      × ((k : K) × (lookup k p.output_branches_data ≡ some none))

  under :
      (policy : PipelineSyncPolicy) (id : K) (d : D) (p : AsyncPipeline K D X H) (out : Dict K D)
      → p.sync_policy ≡ policy
      → SentAs policy id d p out
      → SentAs p.sync_policy id d p out
  under policy id d p out f = subst (λ x. SentAs x id d p out) (sym f)

  all_there :
      (p : AsyncPipeline K D X H) → has_all p.threads p.output_branches_data ≡ true → AllThere p
  all_there p h k i = has_all-true k p.threads p.output_branches_data h i

  send-waiting :
      (id : K) (d : D) (p : AsyncPipeline K D X H)
      → p.sync_policy ≡ parallel_wait
      → has_unique_keys p.output_branches_data ≡ true
      → Sends id d p (send id d p)
  unfolding send is_wait is_no_wait
  send-waiting id d p f u = elim (Bool-cases (has_all p.threads p.output_branches_data)) [
    | inr h ↦
        let sent : send id d p ≡ delivered [] p = simp (f, h) in
        rw sent (
          refl,
          under parallel_wait id d p [] f
              (inr (refl, has_all-false p.threads p.output_branches_data h)),
        )
    | inl h ↦ elim (Option-cases (clone_all p.output_branches_data)) [
      | inl c ↦
          let sent : send id d p ≡ thrown p = simp (f, h, c) in
          rw sent (refl, f, all_there p h, clone_all-none p.output_branches_data u c)
      | inr (out, c) ↦
          let sent : send id d p ≡ delivered out p = simp (f, h, c) in
          rw sent (
            refl,
            under parallel_wait id d p out f
                (inl (all_there p h, λ k. clone_all-some k p.output_branches_data out c)),
          )
    ]
  ]

  send-Sends :
      (id : K) (d : D) (p : AsyncPipeline K D X H)
      → has_unique_keys p.output_branches_data ≡ true
      → Sends id d p (send id d p)
  unfolding send is_wait is_no_wait
  send-Sends id d p u = elim (policy-cases p.sync_policy) [
    | inl f ↦
        let sent : send id d p ≡ delivered [] p = simp f in
        rw sent (refl, under undefined id d p [] f refl)
    | inr (inl f) ↦
        let sent : send id d p ≡ delivered [] p = simp f in
        rw sent (refl, under sync id d p [] f refl)
    | inr (inr (inl f)) ↦
        let sent : send id d p ≡ delivered ((id, d) ∷ []) p = simp f in
        rw sent (refl, under parallel_no_wait id d p ((id, d) ∷ []) f refl)
    | inr (inr (inr f)) ↦ send-waiting id d p f u
  ]

  -- When the pool is not stopping, the children of the branch are found, and no branch has two entries
  -- among the results: the children of a finished branch get its data when they are finished themselves, and skip them
  -- when they are ready or running; its own entry becomes idle, its result is stored, and no other
  -- entry changes. Without waiting, the observers are told this result. With waiting, they are told
  -- every result when each thread has an entry among the results, and nothing before; but the call
  -- throws exactly when each thread has an entry and one of the entries is a null pointer.
  pub on_finished-Finishes :
      (id : K) (d : D) (children : List K) (p : AsyncPipeline K D X H)
      → p.need_stop ≡ false
      → children_of id p ≡ some children
      → has_unique_keys p.output_branches_data ≡ true
      → (p' : AsyncPipeline K D X H) × ((k : K)
          → let b = if id == k then idle else branch_at k p.branches_data in
            branch_at k p'.branches_data
            ≡ (if elem k children && is_finished b.status then passed d else b))
        × ((k : K)
            → lookup k p'.output_branches_data
              ≡ (if id == k then some (some d) else lookup k p.output_branches_data))
        × (p'.threads ≡ p.threads)
        × Sends id d p' (on_finished id d p)
  unfolding on_finished store_result
  on_finished-Finishes id d children p go at u =
      let p' = store_result id children d p in
      let was : on_finished id d p ≡ send id d p' = simp (go, at) in
      (
        p',
        (λ k. ground (
          arith,
          give_children-at k children d (insert id idle p.branches_data),
          branch_at-insert id k idle p.branches_data,
        )),
        (λ k. lookup-insert id k (some d) p.output_branches_data),
        refl,
        rw was (send-Sends id d p' (insert-has_unique_keys id (some d) p.output_branches_data u)),
      )
