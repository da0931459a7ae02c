-- ===== src/JsMap/Laws.antt =====
-- Laws of the Map: a read after a write, keys that stay distinct, and the values.
use mathlib.Core.Option.{some-injective}
use agentchat_take_home.Base.{
  [], ◌∷◌, none, some, ◌≡◌, refl, subst, arith, Key, ◌==◌, ==_refl, ==_false, if◌then◌else◌, ◌≢◌,
  All, inl, inr, Bool-cases, ◌⊎◌, sym, ap, ◌∙◌,
}
use agentchat_take_home.JsMap.{Map, values, get, set, delete}

module _ {ℓ κ} {K : Type ℓ} {V : Type κ} where
  -- No entry has this key.
  abbrev pub Absent : K → Map K V → Type ℓ
  Absent k [] = Unit
  Absent k ((j, _) ∷ m) = (j ≢ k) × Absent k m

  -- No two entries have the same key.
  abbrev pub IsDistinct : Map K V → Type ℓ
  IsDistinct [] = Unit
  IsDistinct ((k, _) ∷ m) = Absent k m × IsDistinct m

module _ {ℓ κ} {K : Type ℓ} {V : Type κ} ⦃e : Key K⦄ where
  pub get-set :
      (k j : K) (v : V) (m : Map K V) → get j (set k v m) ≡ (if k == j then some v else get j m)
  unfolding get set
  get-set k j v [] = refl
  get-set k j v ((i, w) ∷ m) =
      ground (arith, e.same_iff k j, e.same_iff i k, e.same_iff i j, get-set k j v m)

  pub get-delete : (k j : K) (m : Map K V) → get j (delete k m) ≡ (if k == j then none else get j m)
  unfolding get delete
  get-delete k j [] = ground arith
  get-delete k j ((i, w) ∷ m) =
      ground (arith, e.same_iff k j, e.same_iff i k, e.same_iff i j, get-delete k j m)

  -- What is read was written last, or it was there.
  pub get-set_cases :
      (k j : K) (v w : V) (m : Map K V)
      → get j (set k v m) ≡ some w
      → ((k ≡ j) × (v ≡ w)) ⊎ ((k ≢ j) × (get j m ≡ some w))
  get-set_cases k j v w m h = elim (Bool-cases (k == j)) [
    | inl same ↦ inl (
      (e.same_iff k j).0 same,
      some-injective v w
          (sym (ap (λ b. if b then some v else get j m) same) ∙ sym (get-set k j v m) ∙ h),
    )
    | inr other ↦ inr (
      λ eq. cc (other, (e.same_iff k j).1 eq),
      sym (ap (λ b. if b then some v else get j m) other) ∙ sym (get-set k j v m) ∙ h,
    )
  ]

  pub get-delete_cases :
      (k j : K) (w : V) (m : Map K V) → get j (delete k m) ≡ some w → (k ≢ j) × (get j m ≡ some w)
  get-delete_cases k j w m h = elim (Bool-cases (k == j)) [
    | inl same ↦
        let clash : none ≡ some w =
          sym (ap (λ b. if b then none else get j m) same) ∙ sym (get-delete k j m) ∙ h in
        cc (clash)
    | inr other ↦ (
      λ eq. cc (other, (e.same_iff k j).1 eq),
      sym (ap (λ b. if b then none else get j m) other) ∙ sym (get-delete k j m) ∙ h,
    )
  ]

  pub get-set_self : (k : K) (v : V) (m : Map K V) → get k (set k v m) ≡ some v
  get-set_self k v m = ground (arith, get-set k k v m, ==_refl k)

  pub get-set_ne : (k j : K) (v : V) (m : Map K V) → k ≢ j → get j (set k v m) ≡ get j m
  get-set_ne k j v m h = ground (arith, get-set k j v m, ==_false k j h)

  pub Absent-set : (k j : K) (v : V) (m : Map K V) → k ≢ j → Absent j m → Absent j (set k v m)
  unfolding set
  Absent-set k j v [] h a = (h, tt)
  Absent-set k j v ((i, w) ∷ m) h (p, a) = elim (Bool-cases (i == k)) [
    | inl same ↦ rw same (p, a)
    | inr other ↦ rw other (p, Absent-set k j v m h a)
  ]

  pub set-IsDistinct : (k : K) (v : V) (m : Map K V) → IsDistinct m → IsDistinct (set k v m)
  unfolding set
  set-IsDistinct k v [] d = (tt, tt)
  set-IsDistinct k v ((i, w) ∷ m) (a, d) = elim (Bool-cases (i == k)) [
    | inl same ↦ rw same (a, d)
    | inr other ↦
        rw other
          (Absent-set k i v m (λ p. ground (arith, e.same_iff i k)) a, set-IsDistinct k v m d)
  ]

  pub get_of_Absent : (k : K) (m : Map K V) → Absent k m → get k m ≡ none
  unfolding get
  get_of_Absent k [] a = refl
  get_of_Absent k ((i, w) ∷ m) (p, a) = rw (==_false i k p) (get_of_Absent k m a)

  -- A write of a value that is there already changes nothing.
  pub set_same : (k : K) (v : V) (m : Map K V) → get k m ≡ some v → set k v m ≡ m
  unfolding get set
  set_same k v [] h = ground arith
  set_same k v ((i, w) ∷ m) h = ground (arith, set_same k v m)

  pub set-set : (k : K) (v w : V) (m : Map K V) → set k w (set k v m) ≡ set k w m
  unfolding set
  set-set k v w [] = rw (==_refl k)
  set-set k v w ((i, u) ∷ m) = ground (arith, set-set k v w m)

  -- What holds of every value holds of what is read.
  pub All-get {μ} :
      (P : V → Type μ) (k : K) (m : Map K V) {v : V} → All P (values m) → get k m ≡ some v → P v
  unfolding get
  All-get P k [] h g = ground arith
  All-get P k ((i, w) ∷ m) {v} (p, h) g = elim (Bool-cases (i == k)) [
    | inl same ↦ subst P (some-injective w v (rw same at g)) p
    | inr other ↦ All-get P k m h (rw other at g)
  ]

  pub All-set {μ} :
      (P : V → Type μ) (k : K) (v : V) (m : Map K V)
      → All P (values m)
      → P v
      → All P (values (set k v m))
  unfolding set
  All-set P k v [] h p = (p, tt)
  All-set P k v ((i, w) ∷ m) (q, h) p = elim (Bool-cases (i == k)) [
    | inl same ↦ rw same (p, h)
    | inr other ↦ rw other (q, All-set P k v m h p)
  ]
