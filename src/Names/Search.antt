-- ===== src/Names/Search.antt =====
-- Printing and reading by one table.
use seekira.Common.{
  String, ◌≡◌, refl, Bool, true, not, ◌&&◌, ◌↔◌, some, List, [], ◌∷◌, arith, Eq, string_eq,
}
use seekira.Graph.{elem}
use seekira.Names.{
  find_pair_by_first, find_pair_by_second, find_by_type, find_all_by_type, find_by_str,
}

module _ {T : Type 0} where
  abbrev pub names : List (T × String) → List String
  names [] = []
  names ((a, b) ∷ ps) = b ∷ names ps

-- No name stands twice.
unfoldable pub are_different : List String → Bool
unfolding elem
are_different [] = true
are_different (n ∷ ns) = not (elem n ns) && are_different ns

module _ {T : Type 0} ⦃e : Eq T⦄ where
  listed-in_names :
      (n : String) (type : T) (ps : List (T × String))
      → elem n (find_all_by_type type ps) ≡ true
      → elem n (names ps) ≡ true
  unfolding elem find_all_by_type
  listed-in_names n type [] h = cc
  listed-in_names n type ((a, b) ∷ ps) h = ground (arith, listed-in_names n type ps)

  found-in_names :
      (n : String) (type : T) (ps : List (T × String))
      → find_pair_by_second n ps ≡ some (type, n)
      → elem n (names ps) ≡ true
  unfolding elem find_pair_by_second
  found-in_names n type [] h = cc
  found-in_names n type ((a, b) ∷ ps) h =
      ground (arith, found-in_names n type ps, string_eq.equals_iff n b, string_eq.equals_iff b n)

  -- In a table that gives no name twice, the names that are listed for a value are exactly those that
  -- are read as this value.
  pub find_all_by_type-read :
      (n : String) (type : T) (ps : List (T × String))
      → are_different (names ps) ≡ true
      → (elem n (find_all_by_type type ps) ≡ true) ↔ (find_pair_by_second n ps ≡ some (type, n))
  unfolding elem find_all_by_type find_pair_by_second are_different
  find_all_by_type-read n type [] u = ground arith
  find_all_by_type-read n type ((a, b) ∷ ps) u = ground (
    arith,
    find_all_by_type-read n type ps,
    string_eq.equals_iff n b,
    string_eq.equals_iff b n,
    e.equals_iff a type,
    listed-in_names n type ps,
    found-in_names n type ps,
  )

  first-listed :
      (type : T) (ps : List (T × String)) (a : T) (b : String)
      → find_pair_by_first type ps ≡ some (a, b)
      → elem b (find_all_by_type type ps) ≡ true
  unfolding elem find_all_by_type find_pair_by_first
  first-listed type [] a b h = cc
  first-listed type ((c, d) ∷ ps) a b h = ground (
    arith,
    first-listed type ps a b,
    e.equals_iff c type,
    e.equals_iff type c,
    string_eq.equals_iff d b,
  )

  printed :
      (type : T) (ps : List (T × String)) (a : T) (b : String)
      → find_pair_by_first type ps ≡ some (a, b)
      → find_by_type type ps ≡ b
  unfolding find_by_type
  printed type ps a b h = rw (find_by_type, h) refl

  read_as :
      (undefined type : T) (n : String) (ps : List (T × String))
      → find_pair_by_second n ps ≡ some (type, n)
      → find_by_str undefined n ps ≡ type
  unfolding find_by_str
  read_as undefined type n ps h = rw (find_by_str, h) refl

  -- A value with a name is printed as a name that is read as this value.
  pub find_by_str-find_by_type :
      (undefined type : T) (ps : List (T × String)) (a : T) (b : String)
      → are_different (names ps) ≡ true
      → find_pair_by_first type ps ≡ some (a, b)
      → find_by_str undefined (find_by_type type ps) ps ≡ type
  find_by_str-find_by_type undefined type ps a b u h = rw (printed type ps a b h) (
      read_as undefined type b ps
        ((find_all_by_type-read b type ps u).0 (first-listed type ps a b h)))
