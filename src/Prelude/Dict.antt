-- ===== src/Prelude/Dict.antt =====
-- Python's `dict`, in insertion order.
use mathlib.Core.Path.{◌≡◌, refl}
use mathlib.Core.Bool.{Bool, true, false}
use mathlib.Core.Option.{Option, none, some}
use mathlib.Core.List.{List, [], ◌∷◌}
use native.Mathlib.Omega.{arith}
use alos_backend.Prelude.Tests.{Eq, ◌==◌, if◌then◌else◌, beq_refl}

abbrev pub Dict : Type 0 → Type 0 → Type 0
Dict K V = List (K × V)

abbrev pub is_some {ℓ} : {A : Type ℓ} → Option A → Bool
is_some none = false
is_some (some _) = true

-- `d.values()`
abbrev pub values : {K V : Type 0} → Dict K V → List V
values [] = []
values ((k, v) ∷ d) = v ∷ values d

module _ {K V : Type 0} ⦃e : Eq K⦄ where
  -- `d.get(k)`
  unfoldable pub get : K → Dict K V → Option V
  get k [] = none
  get k ((j, v) ∷ d) = if k == j then some v else get k d

  -- `k in d`
  abbrev pub has_key : K → Dict K V → Bool
  has_key k d = is_some (get k d)

  -- `d[k] = v`
  unfoldable pub insert : K → V → Dict K V → Dict K V
  insert k v [] = (k, v) ∷ []
  insert k v ((j, w) ∷ d) = if k == j then (j, v) ∷ d else (j, w) ∷ insert k v d

  -- `d.pop(k, None)`
  unfoldable pub erase : K → Dict K V → Dict K V
  erase k [] = []
  erase k ((j, v) ∷ d) = let rest = erase k d in if k == j then rest else (j, v) ∷ rest

  pub get-insert :
      (j k : K) (v : V) (d : Dict K V) → get j (insert k v d) ≡ (if j == k then some v else get j d)
  unfolding get insert
  get-insert j k v [] = refl
  get-insert j k v ((i, w) ∷ d) =
      ground (arith, e.beq_iff j k, e.beq_iff j i, e.beq_iff k i, get-insert j k v d)

  pub get-insert_same : (k : K) (v : V) (d : Dict K V) → get k (insert k v d) ≡ some v
  get-insert_same k v d = rw (get-insert k k v d, beq_refl k) refl

  pub get-insert_other :
      (j k : K) (v : V) (d : Dict K V) → (j == k) ≡ false → get j (insert k v d) ≡ get j d
  get-insert_other j k v d differs = rw (get-insert j k v d, differs) refl

  pub get-erase : (j k : K) (d : Dict K V) → get j (erase k d) ≡ (if j == k then none else get j d)
  unfolding get erase
  get-erase j k [] = ground arith
  get-erase j k ((i, w) ∷ d) =
      ground (arith, e.beq_iff j k, e.beq_iff j i, e.beq_iff k i, get-erase j k d)

pub ruleset dict_laws = (get-insert, get-erase)
