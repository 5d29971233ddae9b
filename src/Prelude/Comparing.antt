-- ===== src/Prelude/Comparing.antt =====
-- Comparison of tuples and lists, as Python compares them.
use Prim.Native.Nat.{compare, Ordering}
use mathlib.Core.Path.{◌≡◌, refl, sym, ap, ◌∙◌}
use mathlib.Core.Logic.{◌⊎◌, inl, inr}
use mathlib.Core.Bool.{Bool, true, false}
use mathlib.Core.List.{List, [], ◌∷◌}
use native.Mathlib.Omega.{arith}

abbrev pub opposite : Ordering → Ordering
opposite Ordering.lt = Ordering.gt
opposite Ordering.eq = Ordering.eq
opposite Ordering.gt = Ordering.lt

-- the first difference decides
abbrev pub first_of : Ordering → Ordering → Ordering
first_of Ordering.lt later = Ordering.lt
first_of Ordering.eq later = later
first_of Ordering.gt later = Ordering.gt

abbrev pub at_most : Ordering → Bool
at_most Ordering.lt = true
at_most Ordering.eq = true
at_most Ordering.gt = false

module _ {A : Type 0} where
  unfoldable pub compare_lists : (A → A → Ordering) → List A → List A → Ordering
  compare_lists cmp [] [] = Ordering.eq
  compare_lists cmp [] (y ∷ ys) = Ordering.lt
  compare_lists cmp (x ∷ xs) [] = Ordering.gt
  compare_lists cmp (x ∷ xs) (y ∷ ys) = first_of (cmp x y) (compare_lists cmp xs ys)

pub record IsOrder {A : Type 0} (cmp : A → A → Ordering) : Type 0 where
  pub flip : (a b : A) → cmp b a ≡ opposite (cmp a b)
  pub same : (a b c : A) → cmp a b ≡ Ordering.eq → cmp a c ≡ cmp b c
  pub trans : (a b c : A) → cmp a b ≡ Ordering.lt → cmp b c ≡ Ordering.lt → cmp a c ≡ Ordering.lt

Ordering-cases : (o : Ordering) → (o ≡ Ordering.lt) ⊎ ((o ≡ Ordering.eq) ⊎ (o ≡ Ordering.gt))
Ordering-cases Ordering.lt = inl refl
Ordering-cases Ordering.eq = inr (inl refl)
Ordering-cases Ordering.gt = inr (inr refl)

opposite-opposite : (o : Ordering) → opposite (opposite o) ≡ o
opposite-opposite Ordering.lt = refl
opposite-opposite Ordering.eq = refl
opposite-opposite Ordering.gt = refl

opposite-first_of : (o p : Ordering) → opposite (first_of o p) ≡ first_of (opposite o) (opposite p)
opposite-first_of Ordering.lt p = refl
opposite-first_of Ordering.eq p = refl
opposite-first_of Ordering.gt p = refl

first_of-eq : (o p : Ordering) → first_of o p ≡ Ordering.eq → (o ≡ Ordering.eq) × (p ≡ Ordering.eq)
first_of-eq Ordering.lt p h = cc
first_of-eq Ordering.eq p h = (refl, h)
first_of-eq Ordering.gt p h = cc

first_of-lt :
    (o p : Ordering)
    → first_of o p ≡ Ordering.lt
    → (o ≡ Ordering.lt) ⊎ ((o ≡ Ordering.eq) × (p ≡ Ordering.lt))
first_of-lt Ordering.lt p h = inl refl
first_of-lt Ordering.eq p h = inr (refl, h)
first_of-lt Ordering.gt p h = cc

module _ {A : Type 0} (cmp : A → A → Ordering) (o : IsOrder cmp) where
  same_right : (a b c : A) → cmp b c ≡ Ordering.eq → cmp a b ≡ cmp a c
  same_right a b c h = o.flip b a ∙ (ap opposite (o.same b c a h) ∙ sym (o.flip c a))

  pub equal_itself : (a : A) → cmp a a ≡ Ordering.eq
  equal_itself a =
      let turned = o.flip a a in
      elim (Ordering-cases (cmp a a)) [
        | inl less ↦ (let wrong = rw less at turned in cc)
        | inr (inl equal) ↦ equal
        | inr (inr more) ↦ (let wrong = rw more at turned in cc)
      ]

  pub total : (a b : A) → at_most (cmp a b) ≡ false → at_most (cmp b a) ≡ true
  total a b h = elim (Ordering-cases (cmp a b)) [
    | inl less ↦ (let wrong = rw less at h in cc)
    | inr (inl equal) ↦ (let wrong = rw equal at h in cc)
    | inr (inr more) ↦ rw (o.flip a b) (rw more refl)
  ]

  pub at_most_trans :
      (a b c : A) → at_most (cmp a b) ≡ true → at_most (cmp b c) ≡ true → at_most (cmp a c) ≡ true
  at_most_trans a b c h k = elim (Ordering-cases (cmp a b)) [
    | inl less ↦ elim (Ordering-cases (cmp b c)) [
      | inl less' ↦ rw (o.trans a b c less less') refl
      | inr (inl equal') ↦ rw (sym (same_right a b c equal')) h
      | inr (inr more') ↦ (let wrong = rw more' at k in cc)
    ]
    | inr (inl equal) ↦ rw (o.same a b c equal) k
    | inr (inr more) ↦ (let wrong = rw more at h in cc)
  ]

pub compare-IsOrder : IsOrder compare
compare-IsOrder = record {
  flip = λ a b. ground arith;
  same = λ a b c h. ground arith;
  trans = λ a b c h k. ground arith;
}

-- By one key, then by another.
module _ {A : Type 0} (first second : A → A → Ordering) (o : IsOrder first)
    (p : IsOrder second) where
  abbrev pub both : A → A → Ordering
  both a b = first_of (first a b) (second a b)

  both_trans :
      (a b c : A) → both a b ≡ Ordering.lt → both b c ≡ Ordering.lt → both a c ≡ Ordering.lt
  both_trans a b c h k = elim (first_of-lt (first a b) (second a b) h) [
    | inl less ↦ elim (first_of-lt (first b c) (second b c) k) [
      | inl less' ↦ rw (o.trans a b c less less') refl
      | inr (equal', later') ↦ rw (sym (same_right first o a b c equal'), less) refl
    ]
    | inr (equal, later) ↦ elim (first_of-lt (first b c) (second b c) k) [
      | inl less' ↦ rw (o.same a b c equal, less') refl
      | inr (equal', later') ↦ rw (o.same a b c equal, equal') (p.trans a b c later later')
    ]
  ]

  pub both-IsOrder : IsOrder both
  both-IsOrder = record {
    flip = λ a b. rw (o.flip a b, p.flip a b) (sym (opposite-first_of (first a b) (second a b)));
    same = λ a b c h.
        let (equal, equal') = first_of-eq (first a b) (second a b) h in
        rw (o.same a b c equal, p.same a b c equal') refl;
    trans = both_trans;
  }

-- By the key of an element.
module _ {A B : Type 0} (cmp : B → B → Ordering) (key : A → B) where
  abbrev pub by_key : A → A → Ordering
  by_key a b = cmp (key a) (key b)

  pub by_key-IsOrder : IsOrder cmp → IsOrder by_key
  by_key-IsOrder o = record {
    flip = λ a b. o.flip (key a) (key b);
    same = λ a b c. o.same (key a) (key b) (key c);
    trans = λ a b c. o.trans (key a) (key b) (key c);
  }

module _ {A : Type 0} (cmp : A → A → Ordering) (o : IsOrder cmp) where
  lists-flip : (xs ys : List A) → compare_lists cmp ys xs ≡ opposite (compare_lists cmp xs ys)
  unfolding compare_lists
  lists-flip [] [] = refl
  lists-flip [] (y ∷ ys) = refl
  lists-flip (x ∷ xs) [] = refl
  lists-flip (x ∷ xs) (y ∷ ys) =
      rw (o.flip x y, lists-flip xs ys)
        (sym (opposite-first_of (cmp x y) (compare_lists cmp xs ys)))

  lists-same :
      (xs ys zs : List A)
      → compare_lists cmp xs ys ≡ Ordering.eq
      → compare_lists cmp xs zs ≡ compare_lists cmp ys zs
  unfolding compare_lists
  lists-same [] [] zs h = refl
  lists-same [] (y ∷ ys) zs h = cc
  lists-same (x ∷ xs) [] zs h = cc
  lists-same (x ∷ xs) (y ∷ ys) [] h = refl
  lists-same (x ∷ xs) (y ∷ ys) (z ∷ zs) h =
      let (equal, equal') = first_of-eq (cmp x y) (compare_lists cmp xs ys) h in
      rw (o.same x y z equal, lists-same xs ys zs equal') refl

  lists_trans :
      (xs ys zs : List A)
      → compare_lists cmp xs ys ≡ Ordering.lt
      → compare_lists cmp ys zs ≡ Ordering.lt
      → compare_lists cmp xs zs ≡ Ordering.lt
  unfolding compare_lists
  lists_trans [] [] zs h k = cc
  lists_trans xs (y ∷ ys) [] h k = cc
  lists_trans [] (y ∷ ys) (z ∷ zs) h k = refl
  lists_trans (x ∷ xs) [] zs h k = cc
  lists_trans (x ∷ xs) (y ∷ ys) (z ∷ zs) h k =
      elim (first_of-lt (cmp x y) (compare_lists cmp xs ys) h) [
        | inl less ↦ elim (first_of-lt (cmp y z) (compare_lists cmp ys zs) k) [
          | inl less' ↦ rw (o.trans x y z less less') refl
          | inr (equal', later') ↦ rw (sym (same_right cmp o x y z equal'), less) refl
        ]
        | inr (equal, later) ↦ elim (first_of-lt (cmp y z) (compare_lists cmp ys zs) k) [
          | inl less' ↦ rw (o.same x y z equal, less') refl
          | inr (equal', later') ↦
              rw (o.same x y z equal, equal') (lists_trans xs ys zs later later')
        ]
      ]

  pub lists-IsOrder : IsOrder (compare_lists cmp)
  lists-IsOrder = record { flip = lists-flip; same = lists-same; trans = lists_trans }
