-- ===== src/Names.antt =====
-- src/core/base/utils/find_pair.hpp: searches in a table of pairs, and the names of the values of an
-- enumeration that are read from and printed to such a table. `none` is the iterator at the end.
pub mod Search
use seekira.Common.{String, Option, none, some, List, [], ◌∷◌, Eq, ◌==◌, if◌then◌else◌, string_eq}

module _ {A B : Type 0} ⦃e : Eq A⦄ where
  unfoldable pub find_pair_by_first : A → List (A × B) → Option (A × B)
  find_pair_by_first key [] = none
  find_pair_by_first key ((a, b) ∷ ps) = if key == a then some (a, b) else find_pair_by_first key ps

  unfoldable pub find_second : A → B → List (A × B) → B
  unfolding find_pair_by_first
  find_second key default ps = elim (find_pair_by_first key ps) [ none ↦ default | some (a, b) ↦ b ]

module _ {A B : Type 0} ⦃e : Eq B⦄ where
  unfoldable pub find_pair_by_second : B → List (A × B) → Option (A × B)
  find_pair_by_second key [] = none
  find_pair_by_second key ((a, b) ∷ ps) =
      if key == b then some (a, b) else find_pair_by_second key ps

  unfoldable pub find_first : B → A → List (A × B) → A
  unfolding find_pair_by_second
  find_first key default ps = elim (find_pair_by_second key ps) [ none ↦ default | some (a, b) ↦ a ]

module _ {T : Type 0} ⦃e : Eq T⦄ where
  unfoldable pub find_by_type : T → List (T × String) → String
  unfolding find_pair_by_first
  find_by_type type ps = elim (find_pair_by_first type ps) [ none ↦ "" | some (a, b) ↦ b ]

  unfoldable pub find_all_by_type : T → List (T × String) → List String
  find_all_by_type type [] = []
  find_all_by_type type ((a, b) ∷ ps) =
      let rest = find_all_by_type type ps in if a == type then b ∷ rest else rest

-- `undefined` is the value Undefined of the enumeration.
unfoldable pub find_by_str : {T : Type 0} → T → String → List (T × String) → T
unfolding find_pair_by_second
find_by_str undefined str ps = elim (find_pair_by_second str ps) [
  | none ↦ undefined
  | some (a, b) ↦ a
]
