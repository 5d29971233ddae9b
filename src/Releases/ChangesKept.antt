-- ===== src/Releases/ChangesKept.antt =====
-- Every step grows the authority: releases keep their identity, closed ones do not change, and what
-- changes is in the audit log.
use text.Mathlib.TextEquality.{eq_iff}
use alos_backend.Prelude.{ℕ, String, Key3, ◌≡◌, refl, some, none, true, false, string_eq, arith}
use alos_backend.Prelude.Dict.{get}
use alos_backend.Releases.State.{
  ReleaseState, active, suspended, rolled_back, it_approved, director_approved, GovernedRelease,
  subject_key, Authority,
}
use alos_backend.Releases.Authority.{
  Options, Creation, updated, new_release, transition_event, release_event,
}
use alos_backend.Releases.Gates.{reactivated, releasable_from}
use alos_backend.Releases.Outcomes.{contains_one}
use alos_backend.Releases.Reads.{reads, get-added, get-restored, get-written}
use alos_backend.Releases.HumanGates.{was_released}
use alos_backend.Releases.Governed.{IsGoverned}
use alos_backend.Releases.Changes.{is_closed, Grows, Grows-trans, Grows-put, Grows-same}
use alos_backend.Releases.Steps.{
  Edge, implement, assure, ai_review, submit_it, it_decide, submit_director, director_decide,
  publish, written, indexed, unindexed, restored, added, Step, created, moved, activated_alone,
  activated_over, activation, supersession, killing, clearing, rolling, killed, cleared, rolled,
}

-- No edge leaves a closed state.
Edge-open :
    (r : GovernedRelease) (target : ReleaseState) (options : Options)
    → Edge r target options
    → is_closed r.state ≡ false
unfolding releasable_from
Edge-open r target options (implement e _ _) = ground arith
Edge-open r target options (assure _ _ e _ _) = ground arith
Edge-open r target options (ai_review _ _ _ e _ _) = ground arith
Edge-open r target options (submit_it e _ _) = ground arith
Edge-open r target options (it_decide _ _ _ _ e _ _) = ground arith
Edge-open r target options (submit_director _ e _ _) = ground arith
Edge-open r target options (director_decide _ _ _ _ e _ _) = ground arith
Edge-open r target options (publish e _ _) =
    ground (arith, contains_one r.state director_approved, contains_one r.state it_approved)

module _ (s : Authority) (id : String) (r : GovernedRelease) (target : ReleaseState)
    (actor correlation : String) (options : Options) (now : ℕ) where
  written-Grows :
      get id s.releases ≡ some r
      → r.release_id ≡ id
      → is_closed r.state ≡ false
      → Grows s (written s id r target actor correlation options now)
  unfolding written updated transition_event
  written-Grows found name open_state =
      Grows-put id (updated r target correlation options)
        (transition_event r (updated r target correlation options) actor options now)
        (get-written s id r target actor correlation options now) refl name
        λ q at. let e : q ≡ r = cc in rw e (refl, open_state)

module _ (s : Authority) (key : Key3) (id : String) where
  indexed-Grows : Grows s (indexed key id s)
  unfolding indexed
  indexed-Grows = Grows-same refl refl

  unindexed-Grows : Grows s (unindexed key s)
  unfolding unindexed
  unindexed-Grows = Grows-same refl refl

restored-Grows :
    (s : Authority) (id : String) (t : GovernedRelease) (actor reason correlation : String)
    (now : ℕ)
    → get id s.releases ≡ some t
    → t.release_id ≡ id
    → is_closed t.state ≡ false
    → Grows s (restored s id t actor reason correlation now)
unfolding restored indexed reactivated release_event
restored-Grows s id t actor reason correlation now found name open_state =
    Grows-put id (reactivated t correlation) _ (get-restored s id t actor reason correlation now)
      refl name λ q at. let e : q ≡ t = cc in rw e (refl, open_state)

added-Grows :
    (s : Authority) (c : Creation) (now : ℕ)
    → get c.release_id s.releases ≡ none
    → Grows s (added s c now)
unfolding added new_release release_event
added-Grows s c now new =
    Grows-put c.release_id (new_release c now) _ (get-added s c now) refl refl (λ q at. cc)

-- a release that was released is not closed
was_released-open : (state : ReleaseState) → was_released state ≡ true → is_closed state ≡ false
was_released-open state h = ground arith

pub Step-Grows : {s s' : Authority} → Step s s' → IsGoverned s → Grows s s'
Step-Grows {s} (created c now new e) h = rw e (added-Grows s c now new)
Step-Grows {s} (moved id r target a c o now found edge e) h =
    rw e
      (written-Grows s id r target a c o now found (h.at id r found).0 (Edge-open r target o edge))
Step-Grows {s} (activated_alone id r a c now found state free e) h = rw e (
    Grows-trans
      (written-Grows s id r active a c activation now found (h.at id r found).0 (ground arith))
      (indexed-Grows _ (subject_key r) id))
Step-Grows {s} (activated_over id r o_id other a c now found state e1 e2 e3 e) h = rw e (
    Grows-trans
      (written-Grows s id r active a c activation now found (h.at id r found).0 (ground arith))
      (Grows-trans
        (written-Grows (written s id r active a c activation now) o_id other suspended a c
          supersession now (simp reads (ground (arith, eq_iff o_id id))) (h.at o_id other e2).0
          (ground arith))
        (indexed-Grows _ (subject_key r) id)))
Step-Grows {s} (killed id r a reason c now given found state e) h = rw e (
    Grows-trans
      (written-Grows s id r suspended a c (killing reason) now found (h.at id r found).0
        (ground arith))
      (unindexed-Grows _ (subject_key r) id))
Step-Grows {s} (cleared id r a reason c now given found kill state e) h = rw e (
    Grows-trans
      (written-Grows s id r active a c (clearing reason) now found (h.at id r found).0
        (ground arith))
      (indexed-Grows _ (subject_key r) id))
Step-Grows {s} (rolled id t_id r t a reason c now given found there state ne same once e) h =
    let (name, sound) = h.at t_id t there in
    rw e (
      Grows-trans
        (written-Grows s id r rolled_back a c (rolling t_id reason) now found (h.at id r found).0
          (ground arith))
        (restored-Grows _ t_id t a reason c now (simp reads (ground (arith, eq_iff t_id id))) name
          (was_released-open t.state (ground (arith, sound)))))
