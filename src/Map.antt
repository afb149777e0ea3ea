-- ===== src/Map.antt =====
-- std::map<std::string, T> as the program uses it: bindings in the order of their keys.
pub mod Laws
use yangkv_v.Base.{same_bytes, ℕ, List, [], ◌∷◌, if◌then◌else◌, Option, none, some}
use Prim.Native.Nat.{compare, Ordering, lt, eq, gt}

-- The order of std::string: byte by byte, a prefix first.
unfoldable pub key_compare : List ℕ → List ℕ → Ordering
key_compare [] [] = eq
key_compare [] (b ∷ t) = lt
key_compare (a ∷ s) [] = gt
key_compare (a ∷ s) (b ∷ t) =
    let rest = key_compare s t in elim (compare a b) [ lt ↦ lt | eq ↦ rest | gt ↦ gt ]

abbrev pub Map {ℓ} : Type ℓ → Type ℓ
Map V = List (List ℕ × V)

module _ {ℓ} {V : Type ℓ} where
  -- m[k] = v
  unfoldable pub insert : List ℕ → V → Map V → Map V
  insert k v [] = (k, v) ∷ []
  insert k v ((j, w) ∷ m) = elim (key_compare k j) [
    | lt ↦ (k, v) ∷ (j, w) ∷ m
    | eq ↦ (j, v) ∷ m
    | gt ↦ (j, w) ∷ insert k v m
  ]

  -- The value that m[k] holds, if m.count(k) is not 0.
  unfoldable pub find : List ℕ → Map V → Option V
  find k [] = none
  find k ((j, w) ∷ m) = if same_bytes k j then some w else find k m

  -- *m.rbegin()
  abbrev pub last? : Map V → Option (List ℕ × V)
  last? [] = none
  last? (b ∷ []) = some b
  last? (b ∷ c ∷ m) = last? (c ∷ m)

  -- *m.begin()
  abbrev pub first? : Map V → Option (List ℕ × V)
  first? [] = none
  first? (b ∷ m) = some b
