-- ===== src/Releases/Outcomes.antt =====
-- How a method ends: with a result and a new state, or with an exception and the old state. One
-- rule for each way in which the methods are built.
use alos_backend.Prelude.{
  ℕ, String, ◌≡◌, refl, ◌⊎◌, inl, inr, some, List, [], ◌∷◌, Bool, true, false, string_eq, contains,
  Bool-cases, Option-cases, arith, Result, ok, err, raise_if, ◌>>=◌, ◌>>◌,
}
use alos_backend.Prelude.Dict.{get}
use alos_backend.Releases.State.{ReleaseState, state_eq, GovernedRelease, ReleaseError, Authority}
use alos_backend.Releases.Authority.{Method, find, transition, Options, updated}
use alos_backend.Releases.Steps.{written}

-- `Q` of the result and the new state, or an exception that changed nothing
abbrev pub Outcome :
    {A : Type 0} → Authority → (A → Authority → Type 0) → Result ReleaseError A × Authority → Type 0
Outcome s Q (ok a, s') = Q a s'
Outcome s Q (err e, s') = s' ≡ s

-- the same as a family of its own, so that a rule for a method finds its arguments
pub record Ends {A : Type 0} (s : Authority) (Q : A → Authority → Type 0)
    (result : Result ReleaseError A × Authority) : Type 0 where
  pub outcome : Outcome s Q result

module _ {A : Type 0} (s : Authority) (Q : A → Authority → Type 0) where
  pub Ends-raise_if :
      (b : Bool) (e : ReleaseError) (m : Method A)
      → (b ≡ false → Ends s Q (m s))
      → Ends s Q ((raise_if b e >> m) s)
  Ends-raise_if true e m h = record { outcome = refl }
  Ends-raise_if false e m h = h refl

  pub Ends-find :
      (id : String) (f : GovernedRelease → Method A)
      → ((r : GovernedRelease) → get id s.releases ≡ some r → Ends s Q (f r s))
      → Ends s Q ((find id >>= f) s)
  Ends-find id f h = elim (Option-cases (get id s.releases)) [
    | inl missing ↦ record { outcome = rw missing }
    | inr (r, e) ↦ rw e (h r e)
  ]

-- What a transition does where it is allowed.
pub transition_allowed :
    (s : Authority) (id : String) (expected : List ReleaseState) (target : ReleaseState)
    (actor correlation : String) (options : Options) (now : ℕ) (r : GovernedRelease)
    → get id s.releases ≡ some r
    → contains r.state expected ≡ true
    → transition id expected target actor correlation options now s ≡ (
      ok (updated r target correlation options),
      written s id r target actor correlation options now,
    )
unfolding transition written
transition_allowed s id expected target actor correlation options now r found allowed =
    rw found (rw allowed)

module _ {A : Type 0} (s : Authority) (Q : A → Authority → Type 0) where
  pub Ends-transition :
      (id : String) (expected : List ReleaseState) (target : ReleaseState)
      (actor correlation : String) (options : Options) (now : ℕ) (f : GovernedRelease → Method A)
      → ((r : GovernedRelease)
          → get id s.releases ≡ some r
          → contains r.state expected ≡ true
          → Ends s Q (
              f
                (updated r target correlation options)
                (written s id r target actor correlation options now)))
      → Ends s Q ((transition id expected target actor correlation options now >>= f) s)
  unfolding transition written
  Ends-transition id expected target actor correlation options now f h =
      elim (Option-cases (get id s.releases)) [
        | inl missing ↦ record { outcome = rw missing }
        | inr (r, e) ↦ elim (Bool-cases (contains r.state expected)) [
          | inl allowed ↦ rw e (rw allowed (h r e allowed))
          | inr refused ↦ record { outcome = rw e (rw refused) }
        ]
      ]

module _ (s : Authority) where
  -- the same where the transition is the method's last call
  pub Ends-transition_last :
      (R : GovernedRelease → Authority → Type 0) (id : String) (expected : List ReleaseState)
      (target : ReleaseState) (actor correlation : String) (options : Options) (now : ℕ)
      → ((r : GovernedRelease)
          → get id s.releases ≡ some r
          → contains r.state expected ≡ true
          → R
              (updated r target correlation options)
              (written s id r target actor correlation options now))
      → Ends s R (transition id expected target actor correlation options now s)
  unfolding transition written
  Ends-transition_last R id expected target actor correlation options now h =
      elim (Option-cases (get id s.releases)) [
        | inl missing ↦ record { outcome = rw missing }
        | inr (r, e) ↦ elim (Bool-cases (contains r.state expected)) [
          | inl allowed ↦ record { outcome = rw e (rw allowed (h r e allowed)) }
          | inr refused ↦ record { outcome = rw e (rw refused) }
        ]
      ]

-- membership in the sets of states that the methods pass
pub contains_one : (s t : ReleaseState) → contains s (t ∷ []) ≡ true → s ≡ t
unfolding contains
contains_one s t h = ground (arith, state_eq.beq_iff s t)

pub contains_one_of : (s t u : ReleaseState) → contains s (t ∷ u ∷ []) ≡ true → (s ≡ t) ⊎ (s ≡ u)
unfolding contains
contains_one_of s t u h = ground (arith, state_eq.beq_iff s t, state_eq.beq_iff s u)

pub contains_self : (s t : ReleaseState) → s ≡ t → contains s (t ∷ []) ≡ true
unfolding contains
contains_self s t e = ground (arith, state_eq.beq_iff s t)
