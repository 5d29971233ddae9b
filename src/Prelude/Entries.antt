-- ===== src/Prelude/Entries.antt =====
-- Dictionaries as lists: every value, and each key once.
use mathlib.Core.Path.{◌≡◌, refl}
use mathlib.Core.Bool.{false}
use mathlib.Core.Option.{none, some}
use mathlib.Core.List.{List, [], ◌∷◌}
use native.Mathlib.Omega.{arith}
use mathlib.Core.Path.{◌∙◌, ap, sym}
use mathlib.Core.Logic.{inl, inr, ◌⊎◌}
use alos_backend.Prelude.Tests.{Eq, ◌==◌, Bool-cases, beq_refl}
use alos_backend.Prelude.Dict.{
  Dict, get, insert, values, get-insert, get-insert_other, has_key, is_some,
}

abbrev pub All {ℓ ℓ'} : {A : Type ℓ} → (A → Type ℓ') → List A → Type ℓ'
All P [] = Unit
All P (x ∷ xs) = P x × All P xs

pub All-map {ℓ ℓ'} :
    {A : Type ℓ} {P Q : A → Type ℓ'} (xs : List A) → ((x : A) → P x → Q x) → All P xs → All Q xs
All-map [] f h = tt
All-map (x ∷ xs) f h = (f x h.0, All-map xs f h.1)

module _ {K V : Type 0} ⦃e : Eq K⦄ where
  -- No key occurs twice.
  abbrev pub IsUnique : Dict K V → Type 0
  IsUnique [] = Unit
  IsUnique ((k, v) ∷ d) = (get k d ≡ none) × IsUnique d

  -- Every entry satisfies P.
  abbrev pub Every : (K → V → Type 0) → Dict K V → Type 0
  Every P [] = Unit
  Every P ((k, v) ∷ d) = P k v × Every P d

  pub insert-IsUnique : (k : K) (v : V) (d : Dict K V) → IsUnique d → IsUnique (insert k v d)
  unfolding insert get
  insert-IsUnique k v [] u = (refl, tt)
  insert-IsUnique k v ((j, w) ∷ d) u = elim (Bool-cases (k == j)) [
    | inl same ↦ rw same u
    | inr other ↦ rw other (
      get-insert j k v d ∙ ground (arith, e.beq_iff j k, e.beq_iff k j),
      insert-IsUnique k v d u.1,
    )
  ]

  pub insert-Every :
      (P : K → V → Type 0) (k : K) (v : V) (d : Dict K V)
      → P k v
      → Every P d
      → Every P (insert k v d)
  unfolding insert
  insert-Every P k v [] p h = (p, tt)
  insert-Every P k v ((j, w) ∷ d) p h = elim (Bool-cases (k == j)) [
    | inl same ↦ rw same (rw ((e.beq_iff k j).0 same) at p, h.1)
    | inr other ↦ rw other (h.0, insert-Every P k v d p h.1)
  ]

  pub values-All :
      (P : V → Type 0) (k : K) (v : V) (d : Dict K V) → All P (values d) → get k d ≡ some v → P v
  unfolding get
  values-All P k v [] h at = cc
  values-All P k v ((j, w) ∷ d) h at = elim (Bool-cases (k == j)) [
    | inl same ↦ (let equal : w ≡ v = ground arith in rw equal at h.0)
    | inr other ↦ values-All P k v d h.1 (ground arith)
  ]

  pub Every-map :
      {P Q : K → V → Type 0} (d : Dict K V)
      → ((k : K) (v : V) → P k v → Q k v)
      → Every P d
      → Every Q d
  Every-map [] f h = tt
  Every-map ((k, v) ∷ d) f h = (f k v h.0, Every-map d f h.1)

  pub get-Every :
      (P : K → V → Type 0) (k : K) (v : V) (d : Dict K V) → Every P d → get k d ≡ some v → P k v
  unfolding get
  get-Every P k v [] h at = cc
  get-Every P k v ((j, w) ∷ d) h at = elim (Bool-cases (k == j)) [
    | inl same ↦
        (let value : w ≡ v = ground arith in
          let key : j ≡ k = ground (arith, e.beq_iff k j) in rw (value, key) at h.0)
    | inr other ↦ get-Every P k v d h.1 (ground arith)
  ]

  other_key :
      (j k : K) (w : V) (d : Dict K V) → get j d ≡ some w → get k d ≡ none → (j == k) ≡ false
  other_key j k w d at free = elim (Bool-cases (j == k)) [
    | inl same ↦ (let equal : j ≡ k = (e.beq_iff j k).0 same in cc)
    | inr other ↦ other
  ]

  -- Where each value carries its key, the dictionary gives each of its values back.
  pub get-values :
      (f : V → K) (d : Dict K V)
      → IsUnique d
      → Every (λ k v. f v ≡ k) d
      → All (λ v. get (f v) d ≡ some v) (values d)
  unfolding get
  get-values f [] u n = tt
  get-values f ((k, v) ∷ d) u n = (
    rw ((e.beq_iff (f v) k).1 n.0) refl,
    All-map (values d) (λ w at. rw (other_key (f w) k w d at u.0) at) (get-values f d u.1 n.1),
  )

  pub IsUnique-Every :
      (P : K → V → Type 0) (d : Dict K V)
      → IsUnique d
      → ((k : K) (v : V) → get k d ≡ some v → P k v)
      → Every P d
  unfolding get
  IsUnique-Every P [] u f = tt
  IsUnique-Every P ((k, v) ∷ d) u f = (
    f k v (rw (beq_refl k) refl),
    IsUnique-Every P d u.1 (λ j w at. f j w (rw (other_key j k w d at u.0) at)),
  )

  pub inserted-cases :
      (j k : K) (v w : V) (d : Dict K V)
      → get j (insert k v d) ≡ some w
      → ((j ≡ k) × (v ≡ w)) ⊎ (get j d ≡ some w)
  inserted-cases j k v w d h = elim (Bool-cases (j == k)) [
    | inl same ↦
        (let written = rw (get-insert j k v d, same) at h in inl ((e.beq_iff j k).0 same, cc))
    | inr other ↦ inr (sym (get-insert_other j k v d other) ∙ h)
  ]

  -- A key that was not there hides no other.
  pub fresh_insert-get :
      (j k : K) (v w : V) (d : Dict K V)
      → has_key k d ≡ false
      → get j d ≡ some w
      → get j (insert k v d) ≡ some w
  fresh_insert-get j k v w d fresh h = elim (Bool-cases (j == k)) [
    | inl same ↦
        (let equal = (e.beq_iff j k).0 same in
          let wrong = ap is_some (sym h) ∙ (ap (λ i. is_some (get i d)) equal ∙ fresh) in cc)
    | inr other ↦ get-insert_other j k v d other ∙ h
  ]
