-- ===== src/Common/Dict.antt =====
-- A hash map as an association list: the order of the list is the order of iteration.
use mathlib.Core.Path.{◌≡◌, refl}
use mathlib.Core.Logic.{inl, inr}
use mathlib.Core.Bool.{Bool, true, false, not, ◌&&◌}
use mathlib.Core.Option.{Option, none, some}
use mathlib.Core.List.{List, [], ◌∷◌}
use native.Mathlib.Omega.{arith}
use seekira.Common.Tests.{if◌then◌else◌, Bool-cases}
use seekira.Common.Equality.{Eq, ◌==◌}

abbrev pub Dict {ℓ κ} : Type ℓ → Type κ → Type (ℓ ⊔ κ)
Dict K V = List (K × V)

module _ {ℓ κ} {K : Type ℓ} {V : Type κ} ⦃e : Eq K⦄ where
  unfoldable pub lookup : K → Dict K V → Option V
  lookup k [] = none
  lookup k ((j, v) ∷ m) = if j == k then some v else lookup k m

  -- `m[k] = v`: an entry that is there keeps its place, a new one goes to the end.
  unfoldable pub insert : K → V → Dict K V → Dict K V
  insert k v [] = (k, v) ∷ []
  insert k v ((j, w) ∷ m) = if j == k then (j, v) ∷ m else (j, w) ∷ insert k v m

  unfoldable pub contains : K → Dict K V → Bool
  contains k [] = false
  contains k ((j, v) ∷ m) = if j == k then true else contains k m

  pub lookup-insert :
      (at key : K) (value : V) (m : Dict K V)
      → lookup key (insert at value m) ≡ (if at == key then some value else lookup key m)
  unfolding lookup insert
  lookup-insert at key value [] = refl
  lookup-insert at key value ((first, other) ∷ m) =
      let same = lookup-insert at key value m in
      ground (arith, same, e.equals_iff first at, e.equals_iff at key, e.equals_iff first key)

  pub contains-insert :
      (k j : K) (v : V) (m : Dict K V)
      → contains j (insert k v m) ≡ (if k == j then true else contains j m)
  unfolding contains insert
  contains-insert k j v [] = refl
  contains-insert k j v ((i, w) ∷ m) =
      ground (arith, e.equals_iff k j, e.equals_iff i k, e.equals_iff i j, contains-insert k j v m)

  unfoldable pub has_unique_keys : Dict K V → Bool
  has_unique_keys [] = true
  has_unique_keys ((k, v) ∷ m) = not (contains k m) && has_unique_keys m

  pub lookup-absent : (k : K) (m : Dict K V) → contains k m ≡ false → lookup k m ≡ none
  unfolding lookup contains
  lookup-absent k [] h = refl
  lookup-absent k ((j, w) ∷ m) h = ground (arith, lookup-absent k m)

  pub lookup-present :
      (k : K) (m : Dict K V) → contains k m ≡ true → (v : V) × (lookup k m ≡ some v)
  unfolding lookup contains
  lookup-present k [] h = cc
  lookup-present k ((j, w) ∷ m) h = elim (Bool-cases (j == k)) [
    | inl hit ↦ (w, rw hit)
    | inr miss ↦ rw miss (lookup-present k m (rw miss at h))
  ]

  pub insert-has_unique_keys :
      (k : K) (v : V) (m : Dict K V)
      → has_unique_keys m ≡ true
      → has_unique_keys (insert k v m) ≡ true
  unfolding has_unique_keys insert contains
  insert-has_unique_keys k v [] u = refl
  insert-has_unique_keys k v ((j, w) ∷ m) u = ground (
    arith,
    insert-has_unique_keys k v m,
    contains-insert k j v m,
    e.equals_iff j k,
    e.equals_iff k j,
  )

  pub contains-lookup : (k : K) (m : Dict K V) (v : V) → lookup k m ≡ some v → contains k m ≡ true
  unfolding lookup contains
  contains-lookup k [] v h = cc
  contains-lookup k ((j, w) ∷ m) v h = ground (arith, contains-lookup k m v)
