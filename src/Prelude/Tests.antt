-- ===== src/Prelude/Tests.antt =====
-- Boolean tests, equality as an interface, and lemmas to split on a computed value.
use Prim.Native.Nat.{ℕ, compare, Ordering}
use Prim.Native.String.{String}
use mathlib.Core.Path.{◌≡◌, refl}
use mathlib.Core.Logic.{◌↔◌, ◌⊎◌, inl, inr}
use mathlib.Core.Bool.{Bool, true, false, ◌&&◌, ◌||◌}
use mathlib.Core.List.{List, [], ◌∷◌}
use mathlib.Core.Option.{Option, none, some}
use native.Mathlib.Omega.{arith}
use text.Mathlib.Text.{◌==◌ as str_eq}
use text.Mathlib.TextEquality.{eq_iff}

abbrev pub ltb : ℕ → ℕ → Bool
ltb a b = elim (compare a b) [ Ordering.lt ↦ true | _ ↦ false ]

abbrev pub leb : ℕ → ℕ → Bool
leb a b = elim (compare a b) [ Ordering.gt ↦ false | _ ↦ true ]

infix 1 if◌then◌else◌
abbrev pub if◌then◌else◌ {ℓ} : {A : Type ℓ} → Bool → A → A → A
if true then x else y = x
if false then x else y = y

-- Python's `==` on keys and enumeration members.
pub record Eq {ℓ} (A : Type ℓ) : Type ℓ where
  pub beq : A → A → Bool
  pub beq_iff : (a b : A) → (beq a b ≡ true) ↔ (a ≡ b)

-- Equality of an enumeration, from a decision.
abbrev pub decided {ℓ} : {A : Type ℓ} → Discrete A → A → A → Bool
decided dec a b = elim (dec a b) [ yes _ ↦ true | no _ ↦ false ]

pub decided_iff {ℓ} : {A : Type ℓ} (dec : Discrete A) (a b : A) → (decided dec a b ≡ true) ↔ (a ≡ b)
decided_iff dec a b =
    elim (dec a b) as (λ d. (elim d [ yes _ ↦ true | no _ ↦ false ] ≡ true) ↔ (a ≡ b)) [
      | yes p ↦ (λ _. p, λ _. refl)
      | no n ↦ (λ h. cc, λ p. absurd (n p))
    ]

-- The test of a class that is found by its type.
infix 50 ◌==◌
abbrev pub ◌==◌ {ℓ} : {A : Type ℓ} ⦃eq : Eq A⦄ → A → A → Bool
◌==◌ ⦃eq⦄ = eq.beq

-- Tuples of two to five texts, the keys of the program's dictionaries.
abbrev pub Key2 : Type 0
Key2 = String × String

abbrev pub Key3 : Type 0
Key3 = String × String × String

abbrev pub Key4 : Type 0
Key4 = String × String × String × String

abbrev pub Key5 : Type 0
Key5 = String × String × String × String × String

abbrev key2_beq : Key2 → Key2 → Bool
key2_beq (a, b) (x, y) = str_eq a x && str_eq b y

abbrev key3_beq : Key3 → Key3 → Bool
key3_beq (a, b, c) (x, y, z) = str_eq a x && str_eq b y && str_eq c z

abbrev key4_beq : Key4 → Key4 → Bool
key4_beq (a, b, c, d) (x, y, z, w) = str_eq a x && str_eq b y && str_eq c z && str_eq d w

abbrev key5_beq : Key5 → Key5 → Bool
key5_beq (a, b, c, d, f) (x, y, z, w, v) =
    str_eq a x && str_eq b y && str_eq c z && str_eq d w && str_eq f v

pub key2_iff : (k j : Key2) → (key2_beq k j ≡ true) ↔ (k ≡ j)
key2_iff (a, b) (x, y) = ground (arith, eq_iff a x, eq_iff b y)

pub key3_iff : (k j : Key3) → (key3_beq k j ≡ true) ↔ (k ≡ j)
key3_iff (a, b, c) (x, y, z) = ground (arith, eq_iff a x, eq_iff b y, eq_iff c z)

pub key4_iff : (k j : Key4) → (key4_beq k j ≡ true) ↔ (k ≡ j)
key4_iff (a, b, c, d) (x, y, z, w) = ground (arith, eq_iff a x, eq_iff b y, eq_iff c z, eq_iff d w)

pub key5_iff : (k j : Key5) → (key5_beq k j ≡ true) ↔ (k ≡ j)
key5_iff (a, b, c, d, f) (x, y, z, w, v) =
    ground (arith, eq_iff a x, eq_iff b y, eq_iff c z, eq_iff d w, eq_iff f v)

instance abbrev pub key5_eq : Eq Key5
key5_eq = record { beq = key5_beq; beq_iff = key5_iff }

instance abbrev pub key2_eq : Eq Key2
key2_eq = record { beq = key2_beq; beq_iff = key2_iff }

instance abbrev pub key3_eq : Eq Key3
key3_eq = record { beq = key3_beq; beq_iff = key3_iff }

instance abbrev pub key4_eq : Eq Key4
key4_eq = record { beq = key4_beq; beq_iff = key4_iff }

-- A class of keys: texts and their tuples.
instance abbrev pub string_eq : Eq String
string_eq = record { beq = str_eq; beq_iff = eq_iff }

pub Bool-cases : (b : Bool) → (b ≡ true) ⊎ (b ≡ false)
Bool-cases true = inl refl
Bool-cases false = inr refl

pub Option-cases {ℓ} : {A : Type ℓ} (o : Option A) → (o ≡ none) ⊎ ((a : A) × (o ≡ some a))
Option-cases none = inl refl
Option-cases (some a) = inr (a, refl)

module _ {ℓ} {A : Type ℓ} ⦃e : Eq A⦄ where
  -- `a in xs`
  unfoldable pub contains : A → List A → Bool
  contains a [] = false
  contains a (x ∷ xs) = a == x || contains a xs

  -- `set(xs).issubset(ys)`
  unfoldable pub is_subset : List A → List A → Bool
  is_subset [] ys = true
  is_subset (x ∷ xs) ys = contains x ys && is_subset xs ys

  pub beq_refl : (a : A) → (a == a) ≡ true
  beq_refl a = (e.beq_iff a a).1 refl

  pub is_subset-contains :
      (xs ys : List A) (a : A)
      → is_subset xs ys ≡ true
      → contains a xs ≡ true
      → contains a ys ≡ true
  unfolding contains is_subset
  is_subset-contains [] ys a h m = cc
  is_subset-contains (x ∷ xs) ys a h m = ground (arith, e.beq_iff a x, is_subset-contains xs ys a)
