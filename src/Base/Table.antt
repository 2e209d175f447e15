-- ===== src/Base/Table.antt =====
-- Go's `map[string]V` as an association list, and its laws. A map that a range loop reads in any
-- order is read here in the order of the list.
use gocica.Base.{
  ◌≡◌, refl, Bool, true, false, List, [], ◌∷◌, Option, none, some, String, str_eq, eq_iff, arith,
  if◌then◌else◌,
}

abbrev pub Table {ℓ} : Type ℓ → Type ℓ
Table V = List (String × V)

module _ {ℓ} {V : Type ℓ} where
  -- value, ok := m[key]
  unfoldable pub lookup : (key : String) → Table V → Option V
  lookup key [] = none
  lookup key ((here, value) ∷ rest) =
      let further = lookup key rest in if str_eq here key then some value else further

  -- m[key] = value: the pair is replaced in its place, and a new one goes to the end.
  unfoldable pub insert : (key : String) → (value : V) → Table V → Table V
  insert key value [] = (key, value) ∷ []
  insert key value ((here, old) ∷ rest) =
      let further = insert key value rest in
      if str_eq here key then (key, value) ∷ rest else (here, old) ∷ further

  -- What a map gives for any key after an assignment.
  pub lookup-insert :
      (written : String) (asked : String) (value : V) (table : Table V)
      → lookup asked (insert written value table)
        ≡ (if str_eq written asked then some value else lookup asked table)
  unfolding lookup insert
  lookup-insert written asked value [] = refl
  lookup-insert written asked value ((here, old) ∷ rest) =
      let further = lookup-insert written asked value rest in
      ground (arith, eq_iff written asked, eq_iff here asked, eq_iff here written, further)

  -- _, ok := m[k]
  unfoldable pub has : String → Table V → Bool
  unfolding lookup
  has k m = elim (lookup k m) [ none ↦ false | some _ ↦ true ]

-- Membership in a `map[string]struct{}`, kept as the list of its keys.
unfoldable pub contains : String → List String → Bool
contains k [] = false
contains k (j ∷ js) = if str_eq j k then true else contains k js

abbrev pub Distinct : List String → Type 0
Distinct [] = Unit
Distinct (k ∷ ks) = (contains k ks ≡ false) × Distinct ks
