-- ===== src/Releases/Sole.antt =====
-- At most one release of a subject is active.
use text.Mathlib.TextEquality.{eq_iff}
use alos_backend.Prelude.{
  String, ◌≡◌, ◌≢◌, sym, ◌∙◌, inl, inr, some, none, ◌==◌, string_eq, key3_eq, key3_iff, Key3,
  if◌then◌else◌, Bool-cases, arith,
}
use alos_backend.Prelude.Dict.{get}
use alos_backend.Releases.State.{ReleaseState, active, GovernedRelease, subject_key, Authority}
use alos_backend.Releases.Authority.{Options}
use alos_backend.Releases.Gates.{decision_target}
use alos_backend.Releases.IndexKept.{Puts}
use alos_backend.Releases.Steps.{
  Edge, implement, assure, ai_review, submit_it, it_decide, submit_director, director_decide,
  publish, Step, cleared,
}

-- Every active release is the one that the index names.
pub record IsSole (s : Authority) : Type 0 where
  pub named :
      (id : String) (r : GovernedRelease)
      → get id s.releases ≡ some r
      → r.state ≡ active
      → get (subject_key r) s.active_by_subject ≡ some id

-- A kill switch is cleared only while no other release of the subject is active.
abbrev pub ClearsAlone : {s s' : Authority} → Step s s' → Type 0
ClearsAlone {s} (cleared id r _ _ _ _ _ _ _ _ _) = get (subject_key r) s.active_by_subject ≡ none
ClearsAlone _ = Unit

-- No edge of the early lifecycle leads to `active`.
pub Edge-target :
    (r : GovernedRelease) (target : ReleaseState) (options : Options)
    → Edge r target options
    → target ≢ active
unfolding decision_target
Edge-target r target options (implement _ t _) h = cc
Edge-target r target options (assure _ _ _ t _) h = cc
Edge-target r target options (ai_review _ _ _ _ t _) h = cc
Edge-target r target options (submit_it _ t _) h = cc
Edge-target r target options (it_decide d _ _ _ _ t _) h = ground arith
Edge-target r target options (submit_director _ _ t _) h = cc
Edge-target r target options (director_decide d _ _ _ _ t _) h = ground arith
Edge-target r target options (publish _ t _) h = cc

module _ {s s' : Authority} (id : String) (new : GovernedRelease) where
  -- `id` becomes the sole active release of its subject
  pub IsSole-enter :
      Puts s s' id new
      → ((j : Key3)
          → get j s'.active_by_subject
            ≡ (if j == subject_key new then some id else get j s.active_by_subject))
      → ((k : String) (q : GovernedRelease)
          → k ≢ id
          → get k s.releases ≡ some q
          → q.state ≡ active
          → subject_key q ≢ subject_key new)
      → IsSole s
      → IsSole s'
  IsSole-enter puts index others h = record {
    named = λ k q at act.
        let at' : (if k == id then some new else get k s.releases) ≡ some q = rw puts at at in
        elim (Bool-cases (k == id)) [
          | inl same ↦
              let e : new ≡ q = ground arith in
              let e' : id ≡ k = sym ((eq_iff k id).0 same) in
              rw (← e, index) (ground (arith, key3_iff (subject_key new) (subject_key new), e'))
          | inr other ↦
              let at'' : get k s.releases ≡ some q = ground arith in
              rw index (
                ground (
                  arith,
                  eq_iff k id,
                  key3_iff (subject_key q) (subject_key new),
                  others k q,
                  h.named k q at'' act,
                ))
        ];
  }

  -- `id` is not active afterwards, and the index loses at most its entry
  pub IsSole-leave :
      Puts s s' id new
      → new.state ≢ active
      → ((k : String) (q : GovernedRelease)
          → k ≢ id
          → get k s.releases ≡ some q
          → q.state ≡ active
          → get (subject_key q) s'.active_by_subject ≡ get (subject_key q) s.active_by_subject)
      → IsSole s
      → IsSole s'
  IsSole-leave puts off index h = record {
    named = λ k q at act.
        let at' : (if k == id then some new else get k s.releases) ≡ some q = rw puts at at in
        elim (Bool-cases (k == id)) [
          | inl same ↦ absurd (ground arith)
          | inr other ↦
              let at'' : get k s.releases ≡ some q = ground arith in
              index k q (ground (arith, eq_iff k id)) at'' act ∙ h.named k q at'' act
        ];
  }
