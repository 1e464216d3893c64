-- ===== src/Pipeline/Recovery.antt =====
-- The first loop of an iteration, which handles the exceptions of the workers.
use seekira.Common.{
  ◌≡◌, refl, ap, inl, inr, Bool, true, false, ◌||◌, Option, none, some, List, [], ◌∷◌, arith, Eq,
  ◌==◌, if◌then◌else◌, Bool-cases, List-cases,
}
use seekira.Common.Dict.{
  Dict, lookup, insert, contains, lookup-insert, contains-insert, has_unique_keys, lookup-absent,
  insert-has_unique_keys,
}
use seekira.PipelineBranch.{Branch}
use seekira.Worker.{has_exceptions, get_exceptions}
use seekira.Worker.Exceptions.{reset_exceptions-Resets}
use seekira.Pipeline.{BranchProcessData, idle, reset_entries, handle_exceptions}

module _ {K D : Type 0} ⦃e : Eq K⦄ where
  reset_branch :
      (k id : K) {X : Type 0} (x : X) (xs : List X) (b : Dict K (BranchProcessData D))
      (o : Dict K (Option D))
      → lookup k (reset_entries id (x ∷ xs) b o).0 ≡ (if id == k then some idle else lookup k b)
  unfolding reset_entries
  reset_branch k id x [] b o = lookup-insert id k idle b
  reset_branch k id x (y ∷ xs) b o = ground (
    arith,
    reset_branch k id y xs (insert id idle b) (insert id none o),
    lookup-insert id k idle b,
  )

  reset_output :
      (k id : K) {X : Type 0} (x : X) (xs : List X) (b : Dict K (BranchProcessData D))
      (o : Dict K (Option D))
      → lookup k (reset_entries id (x ∷ xs) b o).1 ≡ (if id == k then some none else lookup k o)
  unfolding reset_entries
  reset_output k id x [] b o = lookup-insert id k none o
  reset_output k id x (y ∷ xs) b o = ground (
    arith,
    reset_output k id y xs (insert id idle b) (insert id none o),
    lookup-insert id k none o,
  )

  reset_contains :
      (k id : K) {X : Type 0} (x : X) (xs : List X) (b : Dict K (BranchProcessData D))
      (o : Dict K (Option D))
      → contains k (reset_entries id (x ∷ xs) b o).0 ≡ (if id == k then true else contains k b)
  unfolding reset_entries
  reset_contains k id x [] b o = contains-insert id k idle b
  reset_contains k id x (y ∷ xs) b o = ground (
    arith,
    reset_contains k id y xs (insert id idle b) (insert id none o),
    contains-insert id k idle b,
  )

  reset_unique :
      (id : K) {X : Type 0} (xs : List X) (b : Dict K (BranchProcessData D)) (o : Dict K (Option D))
      → has_unique_keys b ≡ true
      → has_unique_keys (reset_entries id xs b o).0 ≡ true
  unfolding reset_entries
  reset_unique id [] b o u = u
  reset_unique id (x ∷ xs) b o u =
      reset_unique id xs (insert id idle b) (insert id none o) (insert-has_unique_keys id idle b u)

module _ {K D X H : Type 0} ⦃e : Eq K⦄ where
  -- Whether the worker of `k` has exceptions.
  unfoldable pub failed : K → Dict K (Branch K D X H) → Bool
  failed k t = elim (lookup k t) [ none ↦ false | some c ↦ has_exceptions c.worker ]

  abbrev pub cleared : Branch K D X H → Branch K D X H
  cleared c = record c { worker = record c.worker { exceptions = [] } }

  abbrev pub cleared_of : Option (Branch K D X H) → Option (Branch K D X H)
  cleared_of none = none
  cleared_of (some c) = some (cleared c)

  pub record Handled (t : Dict K (Branch K D X H)) (b : Dict K (BranchProcessData D))
      (o : Dict K (Option D)) (t' : Dict K (Branch K D X H)) (b' : Dict K (BranchProcessData D))
      (o' : Dict K (Option D)) : Type 0 where
    pub branch_data : (k : K) → lookup k b' ≡ (if failed k t then some idle else lookup k b)
    pub outputs : (k : K) → lookup k o' ≡ (if failed k t then some none else lookup k o)
    pub threads : (k : K) → lookup k t' ≡ cleared_of (lookup k t)
    pub same_threads : (k : K) → contains k t' ≡ contains k t
    pub same_branches : (k : K) → contains k b' ≡ (failed k t || contains k b)
    pub unique_threads : has_unique_keys t ≡ true → has_unique_keys t' ≡ true
    pub unique_branches : has_unique_keys b ≡ true → has_unique_keys b' ≡ true

  failed_head :
      (k id : K) (c : Branch K D X H) (m : Dict K (Branch K D X H))
      → failed k ((id, c) ∷ m) ≡ (if id == k then has_exceptions c.worker else failed k m)
  unfolding failed lookup
  failed_head k id c m = elim (Bool-cases (id == k)) [
    | inl h ↦ rw (h, failed) refl
    | inr h ↦ rw (h, failed) refl
  ]

  failed_absent : (k : K) (m : Dict K (Branch K D X H)) → contains k m ≡ false → failed k m ≡ false
  unfolding failed
  failed_absent k m h = rw (failed, lookup-absent k m h) refl

  quiet :
      (id : K) (c : Branch K D X H) (m t' : Dict K (Branch K D X H))
      (b b' : Dict K (BranchProcessData D)) (o o' : Dict K (Option D))
      → c.worker.exceptions ≡ []
      → contains id m ≡ false
      → Handled m b o t' b' o'
      → Handled ((id, c) ∷ m) b o ((id, c) ∷ t') b' o'
  unfolding lookup contains has_unique_keys has_exceptions
  quiet id c m t' b b' o o' h fresh r =
      let calm : has_exceptions c.worker ≡ false = ground arith in
      let same : c ≡ cleared c =
        ap (λ x. record c { worker = record c.worker { exceptions = x } }) h in
      record {
        branch_data = λ k.
            ground
              (arith, failed_head k id c m, r.branch_data k, failed_absent k m, e.equals_iff id k);
        outputs = λ k.
            ground (arith, failed_head k id c m, r.outputs k, failed_absent k m, e.equals_iff id k);
        threads = λ k. elim (Bool-cases (id == k)) [
          | inl f ↦ rw (f, lookup) (ap some same)
          | inr f ↦ rw (f, lookup) (r.threads k)
        ];
        same_threads = λ k. ground (arith, r.same_threads k);
        same_branches = λ k.
            ground (
              arith,
              failed_head k id c m,
              r.same_branches k,
              failed_absent k m,
              e.equals_iff id k,
            );
        unique_threads = λ u. ground (arith, r.unique_threads, r.same_threads id);
        unique_branches = r.unique_branches;
      }

  noisy :
      (id : K) (c : Branch K D X H) (x : X) (xs : List X) (m t' : Dict K (Branch K D X H))
      (b b' : Dict K (BranchProcessData D)) (o o' : Dict K (Option D))
      → c.worker.exceptions ≡ x ∷ xs
      → contains id m ≡ false
      → Handled m (reset_entries id (x ∷ xs) b o).0 (reset_entries id (x ∷ xs) b o).1 t' b' o'
      → Handled ((id, c) ∷ m) b o ((id, cleared c) ∷ t') b' o'
  unfolding lookup contains has_unique_keys has_exceptions
  noisy id c x xs m t' b b' o o' h fresh r =
      let loud : has_exceptions c.worker ≡ true = ground arith in
      record {
        branch_data = λ k. ground (
          arith,
          failed_head k id c m,
          r.branch_data k,
          failed_absent k m,
          e.equals_iff id k,
          reset_branch k id x xs b o,
        );
        outputs = λ k. ground (
          arith,
          failed_head k id c m,
          r.outputs k,
          failed_absent k m,
          e.equals_iff id k,
          reset_output k id x xs b o,
        );
        threads = λ k. elim (Bool-cases (id == k)) [
          | inl f ↦ rw (f, lookup) refl
          | inr f ↦ rw (f, lookup) (r.threads k)
        ];
        same_threads = λ k. ground (arith, r.same_threads k);
        same_branches = λ k. ground (
          arith,
          failed_head k id c m,
          r.same_branches k,
          failed_absent k m,
          e.equals_iff id k,
          reset_contains k id x xs b o,
        );
        unique_threads = λ u. ground (arith, r.unique_threads, r.same_threads id);
        unique_branches = λ u. r.unique_branches (reset_unique id (x ∷ xs) b o u);
      }

  quiet_step :
      (id : K) (c : Branch K D X H) (m t' : Dict K (Branch K D X H))
      (b b' : Dict K (BranchProcessData D)) (o o' : Dict K (Option D))
      → has_exceptions c.worker ≡ false
      → handle_exceptions (λ k. []) m b o ≡ some (t', b', o')
      → handle_exceptions (λ k. []) ((id, c) ∷ m) b o ≡ some ((id, c) ∷ t', b', o')
  unfolding handle_exceptions
  quiet_step id c m t' b b' o o' calm f = rw (handle_exceptions, calm, f) refl

  noisy_step :
      (id : K) (c : Branch K D X H) (xs : List X) (m t' : Dict K (Branch K D X H))
      (b b' : Dict K (BranchProcessData D)) (o o' : Dict K (Option D))
      → has_exceptions c.worker ≡ true
      → get_exceptions c.worker ≡ xs
      → handle_exceptions (λ k. []) m (reset_entries id xs b o).0 (reset_entries id xs b o).1
        ≡ some (t', b', o')
      → handle_exceptions (λ k. []) ((id, c) ∷ m) b o ≡ some ((id, cleared c) ∷ t', b', o')
  unfolding handle_exceptions
  noisy_step id c xs m t' b b' o o' loud g f =
      rw (handle_exceptions, loud, reset_exceptions-Resets [] c.worker, g, f) refl

  -- When no worker adds an exception while its exceptions are reset, the loop does not throw.
  pub handle_exceptions-Handled :
      (t : Dict K (Branch K D X H)) (b : Dict K (BranchProcessData D)) (o : Dict K (Option D))
      → has_unique_keys t ≡ true
      → (t' : Dict K (Branch K D X H)) × (b' : Dict K (BranchProcessData D)) × (o' : Dict K
          (Option D))
        × (handle_exceptions (λ k. []) t b o ≡ some (t', b', o'))
        × Handled t b o t' b' o'
  unfolding handle_exceptions has_unique_keys contains lookup failed has_exceptions get_exceptions
  handle_exceptions-Handled [] b o u = (
    [],
    b,
    o,
    refl,
    record {
      branch_data = λ k. refl;
      outputs = λ k. refl;
      threads = λ k. refl;
      same_threads = λ k. refl;
      same_branches = λ k. refl;
      unique_threads = λ u. u;
      unique_branches = λ u. u;
    },
  )
  handle_exceptions-Handled ((id, c) ∷ m) b o u = elim (List-cases c.worker.exceptions) [
    | inl h ↦
        let (t', b', o', f, r) = handle_exceptions-Handled m b o (ground arith) in
        (
          (id, c) ∷ t',
          b',
          o',
          quiet_step id c m t' b b' o o' (ground arith) f,
          quiet id c m t' b b' o o' h (ground arith) r,
        )
    | inr (x, xs, h) ↦
        let (t', b', o', f, r) =
          handle_exceptions-Handled m (reset_entries id (x ∷ xs) b o).0
            (reset_entries id (x ∷ xs) b o).1 (ground arith) in
        (
          (id, cleared c) ∷ t',
          b',
          o',
          noisy_step id c (x ∷ xs) m t' b b' o o' (ground arith) h f,
          noisy id c x xs m t' b b' o o' h (ground arith) r,
        )
  ]
