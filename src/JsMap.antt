-- ===== src/JsMap.antt =====
-- The Map of the language: entries in the order in which their keys were first set.
use agentchat_take_home.Base.{
  List, [], ◌∷◌, map, Option, none, some, Bool, Key, ◌==◌, if◌then◌else◌, is_some,
}
pub mod Laws
pub mod Values

abbrev pub Map {ℓ κ} : Type ℓ → Type κ → Type (ℓ ⊔ κ)
Map K V = List (K × V)

module _ {ℓ κ} {K : Type ℓ} {V : Type κ} where
  -- `Array.from(m.keys())`
  abbrev pub keys : Map K V → List K
  keys = map (λ e. e.0)

  -- `Array.from(m.values())`
  abbrev pub values : Map K V → List V
  values = map (λ e. e.1)

module _ {ℓ κ} {K : Type ℓ} {V : Type κ} ⦃e : Key K⦄ where
  unfoldable pub get : K → Map K V → Option V
  get k [] = none
  get k ((j, v) ∷ m) = let rest = get k m in if j == k then some v else rest

  -- A key that is there keeps its place; a new key goes to the end.
  unfoldable pub set : K → V → Map K V → Map K V
  set k v [] = (k, v) ∷ []
  set k v ((j, w) ∷ m) = let rest = (j, w) ∷ set k v m in if j == k then (j, v) ∷ m else rest

  unfoldable pub delete : K → Map K V → Map K V
  delete k [] = []
  delete k ((j, v) ∷ m) = let rest = delete k m in if j == k then rest else (j, v) ∷ rest

  abbrev pub has : K → Map K V → Bool
  has k m = is_some (get k m)
