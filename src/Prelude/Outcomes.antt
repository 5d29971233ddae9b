-- ===== src/Prelude/Outcomes.antt =====
-- What the steps of a method gave where the method ended without an exception.
use mathlib.Core.Path.{◌≡◌, refl}
use mathlib.Core.Logic.{◌⊎◌, inl, inr}
use mathlib.Core.Bool.{Bool, true, false}
use mathlib.Core.Option.{Option, none, some}
use alos_backend.Prelude.Effects.{Result, ok, err, Exec, or_raise, raise_if, continue}

module _ {S E B : Type 0} where
  pub or_raise-ok :
      {A : Type 0} (o : Option A) (e : E) (f : A → Exec S E B) (s s' : S) (b : B)
      → continue f (or_raise o e s) ≡ (ok b, s')
      → (a : A) × (o ≡ some a) × (f a s ≡ (ok b, s'))
  or_raise-ok none e f s s' b h = cc
  or_raise-ok (some a) e f s s' b h = (a, refl, h)

  pub raise_if-ok :
      (c : Bool) (e : E) (f : Unit {0} → Exec S E B) (s s' : S) (b : B)
      → continue f (raise_if c e s) ≡ (ok b, s')
      → (c ≡ false) × (f tt s ≡ (ok b, s'))
  raise_if-ok true e f s s' b h = cc
  raise_if-ok false e f s s' b h = (refl, h)

  pub continue-ok :
      {A : Type 0} (m : Result E A × S) (f : A → Exec S E B) (s' : S) (b : B)
      → continue f m ≡ (ok b, s')
      → (a : A) × (s : S) × (m ≡ (ok a, s)) × (f a s ≡ (ok b, s'))
  continue-ok (ok a, s) f s' b h = (a, s, refl, h)
  continue-ok (err e, s) f s' b h = cc

  pub or_raise-gave :
      (o : Option B) (e : E) (s s' : S) (b : B) → or_raise o e s ≡ (ok b, s') → o ≡ some b
  or_raise-gave none e s s' b h = cc
  or_raise-gave (some a) e s s' b h = cc

  pub ok-eq : {a b : B} {s s' : S} → Path (Result E B × S) (ok a, s) (ok b, s') → a ≡ b
  ok-eq h = cc

  -- Where a call left R, and what follows leaves R of it, the whole leaves R.
  pub continue-state :
      {A : Type 0} (R : S → Type 0) (m : Result E A × S) (f : A → Exec S E B)
      → R m.1
      → ((a : A) (s : S) → R s → R (f a s).1)
      → R (continue f m).1
  continue-state R (ok a, s) f r next = next a s r
  continue-state R (err e, s) f r next = r

  -- The same, where the call left more than the whole does.
  pub continue-states :
      {A : Type 0} (Q R : S → Type 0) (m : Result E A × S) (f : A → Exec S E B)
      → Q m.1
      → ((s : S) → Q s → R s)
      → ((a : A) (s : S) → Q s → R (f a s).1)
      → R (continue f m).1
  continue-states Q R (ok a, s) f q weaker next = next a s q
  continue-states Q R (err e, s) f q weaker next = weaker s q

pub Result-cases :
    {S E A : Type 0} (m : Result E A × S)
    → ((a : A) × (s : S) × (m ≡ (ok a, s))) ⊎ ((e : E) × (s : S) × (m ≡ (err e, s)))
Result-cases (ok a, s) = inl (a, s, refl)
Result-cases (err e, s) = inr (e, s, refl)
