-- ===== src/Prelude/Checks.antt =====
-- Checks: methods that write nothing and either raise or find that P holds.
use mathlib.Core.Path.{◌≡◌, refl}
use mathlib.Core.Logic.{◌⊎◌, inl, inr}
use mathlib.Core.Bool.{Bool, true, false, not}
use mathlib.Core.Option.{Option, none, some}
use native.Mathlib.Omega.{arith}
use alos_backend.Prelude.Effects.{ok, err, Exec, or_raise, raise_if, ◌>>=◌, continue}

pub passed : {b : Bool} → not b ≡ false → b ≡ true
passed h = ground arith

module _ {S E : Type 0} where
  abbrev pub Checks : {A : Type 0} → (A → Type 0) → Exec S E A → Type 0
  Checks {A} P m = (s : S) → ((a : A) × P a × (m s ≡ (ok a, s))) ⊎ ((e : E) × (m s ≡ (err e, s)))

  pub raise_if-Checks :
      (c : Bool) (e : E) → Checks (λ (_ : Unit {0}). c ≡ false) (raise_if {S = S} c e)
  raise_if-Checks true e s = inr (e, refl)
  raise_if-Checks false e s = inl (tt, refl, refl)

  pub or_raise-Checks :
      {A : Type 0} (o : Option A) (e : E) → Checks (λ (a : A). o ≡ some a) (or_raise {S = S} o e)
  or_raise-Checks none e s = inr (e, refl)
  or_raise-Checks (some a) e s = inl (a, refl, refl)

  pub bind-Checks :
      {A B : Type 0} {P : A → Type 0} {Q : B → Type 0} (m : Exec S E A) (k : A → Exec S E B)
      → Checks P m
      → ((a : A) → P a → Checks Q (k a))
      → Checks Q (m >>= k)
  bind-Checks m k c d s = elim (c s) [
    | inl (a, p, at) ↦ rw at (d a p s)
    | inr (e, at) ↦ rw at (inr (e, refl))
  ]

  pub Checks-map :
      {A : Type 0} {P Q : A → Type 0} (m : Exec S E A)
      → ((a : A) → P a → Q a)
      → Checks P m
      → Checks Q m
  Checks-map m f c s = elim (c s) [
    | inl (a, p, at) ↦ inl (a, f a p, at)
    | inr refused ↦ inr refused
  ]

  -- What follows a check was run on the state that the check met.
  pub Checks-ok :
      {A B : Type 0} (P : A → Type 0) (m : Exec S E A) (f : A → Exec S E B) (s s' : S) (b : B)
      → Checks P m
      → continue f (m s) ≡ (ok b, s')
      → (a : A) × P a × (f a s ≡ (ok b, s'))
  Checks-ok P m f s s' b c h = elim (c s) [
    | inl (a, p, at) ↦ (a, p, rw at at h)
    | inr (e, at) ↦ (let wrong = rw at at h in cc)
  ]

  -- After a check the state is still s, however it ended.
  pub Checks-state :
      {A B : Type 0} (R : S → Type 0) (P : A → Type 0) (m : Exec S E A) (f : A → Exec S E B) (s : S)
      → Checks P m
      → R s
      → ((a : A) → P a → R (f a s).1)
      → R (continue f (m s)).1
  Checks-state R P m f s c here next = elim (c s) [
    | inl (a, p, at) ↦ rw at (next a p)
    | inr (e, at) ↦ rw at here
  ]

  -- The same for a missing object, by cases.
  pub or_raise-state :
      {A B : Type 0} (R : S → Type 0) (o : Option A) (e : E) (f : A → Exec S E B) (s : S)
      → (o ≡ none → R s)
      → ((a : A) → o ≡ some a → R (f a s).1)
      → R (continue f (or_raise o e s)).1
  or_raise-state R none e f s missing next = missing refl
  or_raise-state R (some a) e f s missing next = next a refl
