-- ===== src/Prelude/Sorting.antt =====
-- `sorted` by a test: stable, and correct for a test that is total and transitive.
use mathlib.Core.Path.{◌≡◌}
use mathlib.Core.Logic.{inl, inr}
use mathlib.Core.Bool.{Bool, true, false}
use mathlib.Core.List.{List, [], ◌∷◌}
use alos_backend.Prelude.Tests.{if◌then◌else◌, Bool-cases}
use alos_backend.Prelude.Entries.{All, All-map}

module _ {A : Type 0} (le : A → A → Bool) where
  unfoldable pub insert_sorted : A → List A → List A
  insert_sorted a [] = a ∷ []
  insert_sorted a (x ∷ xs) =
      let rest = insert_sorted a xs in if le a x then a ∷ (x ∷ xs) else x ∷ rest

  unfoldable pub sort_by : List A → List A
  sort_by [] = []
  sort_by (x ∷ xs) = insert_sorted x (sort_by xs)

  -- Sorting keeps what holds of every element, and adds none.
  insert_sorted-All :
      (P : A → Type 0) (a : A) (xs : List A) → P a → All P xs → All P (insert_sorted a xs)
  unfolding insert_sorted
  insert_sorted-All P a [] p h = (p, tt)
  insert_sorted-All P a (x ∷ xs) p h = elim (Bool-cases (le a x)) [
    | inl before ↦ rw before (p, h)
    | inr after ↦ rw after (h.0, insert_sorted-All P a xs p h.1)
  ]

  pub sort_by-All : (P : A → Type 0) (xs : List A) → All P xs → All P (sort_by xs)
  unfolding sort_by
  sort_by-All P [] h = tt
  sort_by-All P (x ∷ xs) h = insert_sorted-All P x (sort_by xs) h.0 (sort_by-All P xs h.1)

  All-insert_sorted :
      (P : A → Type 0) (a : A) (xs : List A) → All P (insert_sorted a xs) → P a × All P xs
  unfolding insert_sorted
  All-insert_sorted P a [] h = h
  All-insert_sorted P a (x ∷ xs) h = elim (Bool-cases (le a x)) [
    | inl before ↦ rw before at h
    | inr after ↦
        (let kept = rw after at h in
          let (p, q) = All-insert_sorted P a xs kept.1 in (p, (kept.0, q)))
  ]

  pub All-sort_by : (P : A → Type 0) (xs : List A) → All P (sort_by xs) → All P xs
  unfolding sort_by
  All-sort_by P [] h = tt
  All-sort_by P (x ∷ xs) h =
      let (p, q) = All-insert_sorted P x (sort_by xs) h in (p, All-sort_by P xs q)

  abbrev pub IsSorted : List A → Type 0
  IsSorted [] = Unit
  IsSorted (x ∷ xs) = All (λ y. le x y ≡ true) xs × IsSorted xs

  module _ (total : (a b : A) → le a b ≡ false → le b a ≡ true)
      (trans : (a b c : A) → le a b ≡ true → le b c ≡ true → le a c ≡ true) where
    insert_sorted-IsSorted : (a : A) (xs : List A) → IsSorted xs → IsSorted (insert_sorted a xs)
    unfolding insert_sorted
    insert_sorted-IsSorted a [] h = (tt, tt)
    insert_sorted-IsSorted a (x ∷ xs) h = elim (Bool-cases (le a x)) [
      | inl before ↦ rw before ((before, All-map xs (λ y q. trans a x y before q) h.0), h)
      | inr after ↦ rw after (
        insert_sorted-All (λ y. le x y ≡ true) a xs (total a x after) h.0,
        insert_sorted-IsSorted a xs h.1,
      )
    ]

    pub sort_by-IsSorted : (xs : List A) → IsSorted (sort_by xs)
    unfolding sort_by
    sort_by-IsSorted [] = tt
    sort_by-IsSorted (x ∷ xs) = insert_sorted-IsSorted x (sort_by xs) (sort_by-IsSorted xs)
