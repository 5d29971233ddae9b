-- ===== src/Prelude/Sets.antt =====
-- Sets as lists: `set(xs)`, subsets, and the order of texts.
use Prim.Native.Nat.{compare}
use Prim.Native.String.{String}
use mathlib.Core.Path.{◌≡◌}
use mathlib.Core.Logic.{inl, inr}
use mathlib.Core.Bool.{Bool, true}
use mathlib.Core.List.{List, [], ◌∷◌}
use native.Mathlib.Omega.{arith}
use alos_backend.Prelude.Tests.{Eq, ◌==◌, if◌then◌else◌, contains, is_subset, Bool-cases, Key2}
use alos_backend.Prelude.Text.{codes}
use alos_backend.Prelude.Comparing.{compare_lists, at_most, first_of}
use alos_backend.Prelude.Entries.{All}

-- Texts and pairs of texts are in order.
abbrev pub text_before : String → String → Bool
text_before a b = at_most (compare_lists compare (codes a) (codes b))

abbrev pub pair_before : Key2 → Key2 → Bool
pair_before (a, b) (x, y) = at_most (
    first_of (compare_lists compare (codes a) (codes x))
      (compare_lists compare (codes b) (codes y)))

module _ {A : Type 0} ⦃e : Eq A⦄ where
  unfoldable pub distinct : List A → List A
  unfolding contains
  distinct [] = []
  distinct (x ∷ xs) = let kept = distinct xs in if contains x kept then kept else x ∷ kept

  pub subset-All : (xs ys : List A) → is_subset xs ys ≡ true → All (λ x. contains x ys ≡ true) xs
  unfolding is_subset
  subset-All [] ys h = tt
  subset-All (x ∷ xs) ys h = (ground arith, subset-All xs ys (ground arith))

  pub contains-All : (P : A → Type 0) (x : A) (xs : List A) → All P xs → contains x xs ≡ true → P x
  unfolding contains
  contains-All P x [] h m = cc
  contains-All P x (y ∷ xs) h m = elim (Bool-cases (x == y)) [
    | inl same ↦ (let equal = (e.beq_iff x y).0 same in rw equal h.0)
    | inr other ↦ contains-All P x xs h.1 (rw other at m)
  ]

  pub distinct-All : (P : A → Type 0) (xs : List A) → All P (distinct xs) → All P xs
  unfolding distinct
  distinct-All P [] h = tt
  distinct-All P (x ∷ xs) h = elim (Bool-cases (contains x (distinct xs))) [
    | inl again ↦
        (let kept = rw again at h in
          (contains-All P x (distinct xs) kept again, distinct-All P xs kept))
    | inr fresh ↦ (let kept = rw fresh at h in (kept.0, distinct-All P xs kept.1))
  ]

  pub All-distinct : (P : A → Type 0) (xs : List A) → All P xs → All P (distinct xs)
  unfolding distinct
  All-distinct P [] h = tt
  All-distinct P (x ∷ xs) h = elim (Bool-cases (contains x (distinct xs))) [
    | inl again ↦ rw again (All-distinct P xs h.1)
    | inr fresh ↦ rw fresh (h.0, All-distinct P xs h.1)
  ]
