-- ===== src/JsMap/Values.antt =====
-- A Map whose keys are a part of its values, and the list of its values.
use mathlib.Core.Option.{some-injective}
use agentchat_take_home.Base.{
  List, [], ◌∷◌, Option, none, some, ◌≡◌, refl, ap, ◌∙◌, sym, arith, Key, ◌==◌, select, length, ◌≤◌,
  inl, inr, Bool-cases,
}
use agentchat_take_home.JsMap.{Map, values, get, set}
use agentchat_take_home.JsMap.Laws.{IsDistinct, get_of_Absent}

abbrev pub to_list {ℓ} : {A : Type ℓ} → Option A → List A
to_list none = []
to_list (some a) = a ∷ []

pub length-to_list {ℓ} : {A : Type ℓ} (o : Option A) → length (to_list o) ≤ 1
length-to_list none = omega arith
length-to_list (some a) = omega arith

module _ {ℓ κ} {K : Type ℓ} {V : Type κ} ⦃e : Key K⦄ (key : V → K) where
  -- Each value is stored under its own key.
  abbrev pub IsKeyed : Map K V → Type ℓ
  IsKeyed [] = Unit
  IsKeyed ((k, v) ∷ m) = (key v ≡ k) × IsKeyed m

  pub set-IsKeyed : (k : K) (v : V) (m : Map K V) → key v ≡ k → IsKeyed m → IsKeyed (set k v m)
  unfolding set
  set-IsKeyed k v [] p h = (p, tt)
  set-IsKeyed k v ((i, w) ∷ m) p (q, h) = elim (Bool-cases (i == k)) [
    | inl same ↦ rw same (p ∙ sym ((e.same_iff i k).0 same), h)
    | inr other ↦ rw other (q, set-IsKeyed k v m p h)
  ]

  -- The values with a key are the one that is stored under it.
  pub select-values :
      (k : K) (m : Map K V)
      → IsDistinct m
      → IsKeyed m
      → select (λ v. key v == k) (values m) ≡ to_list (get k m)
  unfolding get
  select-values k [] d h = refl
  select-values k ((i, w) ∷ m) (a, d) (q, h) = elim (Bool-cases (i == k)) [
    | inl same ↦
        let p : i ≡ k = (e.same_iff i k).0 same in
        rw (q, same)
          (ap (◌∷◌ w) (select-values k m d h ∙ ap to_list (get_of_Absent k m (rw p at a))))
    | inr other ↦ rw (q, other) (select-values k m d h)
  ]

  pub get-IsKeyed : (k : K) (m : Map K V) {v : V} → IsKeyed m → get k m ≡ some v → key v ≡ k
  unfolding get
  get-IsKeyed k [] h g = ground arith
  get-IsKeyed k ((i, w) ∷ m) {v} (q, h) g = elim (Bool-cases (i == k)) [
    | inl same ↦ ap key (sym (some-injective w v (rw same at g))) ∙ q ∙ (e.same_iff i k).0 same
    | inr other ↦ get-IsKeyed k m h (rw other at g)
  ]
