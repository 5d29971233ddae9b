-- ===== src/Releases/Governed.antt =====
-- Every release is sound after every step.
use alos_backend.Prelude.{
  ℕ, String, ◌≡◌, refl, ◌⊎◌, inl, inr, some, none, true, ◌==◌, string_eq, if◌then◌else◌, Bool-cases,
  arith, Key3,
}
use text.Mathlib.TextEquality.{eq_iff}
use alos_backend.Prelude.Dict.{get}
use alos_backend.Audit.{AuditEvent, AuditLog, append, human}
use alos_backend.Json.{end}
use alos_backend.Releases.State.{
  ReleaseState, active, suspended, rolled_back, GovernedRelease, subject_key, Authority,
}
use alos_backend.Releases.Authority.{
  Options, Creation, updated, keep, new_release, transition_event, release_event, default_reason,
}
use alos_backend.Releases.Gates.{reactivated}
use alos_backend.Releases.IndexKept.{Puts}
use alos_backend.Releases.Reads.{reads, get-added, get-restored}
use alos_backend.Releases.HumanGates.{
  IsSound, append-IsSound, Edge-IsSound, switch-IsSound, was_released,
}
use alos_backend.Releases.Steps.{
  written, indexed, unindexed, restored, added, Step, created, moved, activated_alone,
  activated_over, activation, supersession, killing, clearing, rolling, killed, cleared, rolled,
}

-- Every release stands under its own identifier and is sound.
pub record IsGoverned (s : Authority) : Type 0 where
  pub at :
      (id : String) (r : GovernedRelease)
      → get id s.releases ≡ some r
      → (r.release_id ≡ id) × IsSound s.audit r

module _ {s s' : Authority} (id : String) (new : GovernedRelease) (event : AuditEvent) where
  IsGoverned-put :
      Puts s s' id new
      → s'.audit ≡ append event s.audit
      → new.release_id ≡ id
      → IsSound (append event s.audit) new
      → IsGoverned s
      → IsGoverned s'
  IsGoverned-put puts log name sound h = record {
    at = λ k r found.
        let found' : (if k == id then some new else get k s.releases) ≡ some r = rw puts at found in
        elim (Bool-cases (k == id)) [
          | inl same ↦
              let e : new ≡ r = ground arith in rw (← e, log) (ground (arith, eq_iff k id), sound)
          | inr other ↦
              (let (name', sound') = h.at k r (ground arith) in
                rw log (name', append-IsSound s.audit event r sound'))
        ];
  }

-- The index plays no part.
IsGoverned-same :
    {s s' : Authority}
    → s'.releases ≡ s.releases
    → s'.audit ≡ s.audit
    → IsGoverned s
    → IsGoverned s'
IsGoverned-same rel log h = record { at = λ k r found. rw log (h.at k r (rw rel at found)) }

module _ {s : Authority} (id : String) (r : GovernedRelease) (target : ReleaseState)
    (actor correlation : String) (options : Options) (now : ℕ) where
  IsGoverned-written :
      get id s.releases ≡ some r
      → (IsSound s.audit r
          → IsSound
              (append
                (transition_event r (updated r target correlation options) actor options now)
                s.audit)
              (updated r target correlation options))
      → IsGoverned s
      → IsGoverned (written s id r target actor correlation options now)
  unfolding written updated
  IsGoverned-written found sound h =
      IsGoverned-put id (updated r target correlation options)
        (transition_event r (updated r target correlation options) actor options now)
        (λ k. simp reads) refl (h.at id r found).0 (sound (h.at id r found).1) h

module _ (s : Authority) (key : Key3) (id : String) where
  IsGoverned-indexed : IsGoverned s → IsGoverned (indexed key id s)
  unfolding indexed
  IsGoverned-indexed h = record { at = h.at }

  IsGoverned-unindexed : IsGoverned s → IsGoverned (unindexed key s)
  unfolding unindexed
  IsGoverned-unindexed h = record { at = h.at }

-- a transition of a release that was released before
module _ {s : Authority} (id : String) (r : GovernedRelease) (target : ReleaseState)
    (actor correlation : String) (options : Options) (now : ℕ) where
  IsGoverned-switch :
      get id s.releases ≡ some r
      → was_released r.state ≡ true
      → was_released target ≡ true
      → (options.ever_released ≡ none) ⊎ (options.ever_released ≡ some true)
      → (IsSound s.audit r
          → keep r.kill_switch_active options.kill_switch_active ≡ true
          → target ≡ suspended)
      → IsGoverned s
      → IsGoverned (written s id r target actor correlation options now)
  IsGoverned-switch found was will once kill =
      IsGoverned-written id r target actor correlation options now found λ sound.
        switch-IsSound s.audit r target actor correlation options now was will once (kill sound)
          sound

reactivated-IsSound :
    (log : AuditLog) (event : AuditEvent) (t : GovernedRelease) (correlation : String)
    → t.ever_released ≡ true
    → IsSound log t
    → IsSound (append event log) (reactivated t correlation)
unfolding reactivated
reactivated-IsSound log event t correlation once h = ground (arith, append-IsSound log event t h)

new_release-IsSound : (log : AuditLog) (c : Creation) (now : ℕ) → IsSound log (new_release c now)
unfolding new_release
new_release-IsSound log c now = ground arith

added-IsGoverned :
    (s : Authority) (c : Creation) (now : ℕ) → IsGoverned s → IsGoverned (added s c now)
unfolding added
added-IsGoverned s c now h =
    IsGoverned-put c.release_id (new_release c now)
      (release_event (new_release c now) c.actor_id "release.created" "DRAFT" human default_reason
        end now)
      (get-added s c now) refl (unfold new_release in refl) (new_release-IsSound _ c now) h

restored-IsGoverned :
    (s : Authority) (id : String) (t : GovernedRelease) (actor reason correlation : String)
    (now : ℕ)
    → get id s.releases ≡ some t
    → t.ever_released ≡ true
    → IsGoverned s
    → IsGoverned (restored s id t actor reason correlation now)
unfolding restored indexed reactivated
restored-IsGoverned s id t actor reason correlation now found once h =
    IsGoverned-put id (reactivated t correlation)
      (release_event (reactivated t correlation) actor "release.rollback_target_activated" "ACTIVE"
        human reason end now)
      (get-restored s id t actor reason correlation now) refl (h.at id t found).0
      (reactivated-IsSound _ _ t correlation once (h.at id t found).1) h

pub Step-IsGoverned : {s s' : Authority} → Step s s' → IsGoverned s → IsGoverned s'
Step-IsGoverned {s} (created c now new e) h = rw e (added-IsGoverned s c now h)
Step-IsGoverned {s} (moved id r target a c o now found edge e) h = rw e (
    IsGoverned-written id r target a c o now found (Edge-IsSound s.audit r target a c o now edge) h)
Step-IsGoverned {s} (activated_alone id r a c now found state free e) h = rw e (
    IsGoverned-indexed _ (subject_key r) id (
      IsGoverned-switch id r active a c activation now found (ground arith) refl (inr refl)
        (λ sound kill. ground arith) h))
Step-IsGoverned {s} (activated_over id r o_id other a c now found state e1 e2 e3 e) h = rw e (
    IsGoverned-indexed _ (subject_key r) id (
      IsGoverned-switch o_id other suspended a c supersession now
        (simp reads (ground (arith, eq_iff o_id id))) (ground arith) refl (inl refl)
        (λ sound kill. refl)
        (IsGoverned-switch id r active a c activation now found (ground arith) refl (inr refl)
          (λ sound kill. ground arith) h)))
Step-IsGoverned {s} (killed id r a reason c now given found state e) h = rw e (
    IsGoverned-unindexed _ (subject_key r) id (
      IsGoverned-switch id r suspended a c (killing reason) now found (ground arith) refl (inl refl)
        (λ sound kill. refl) h))
Step-IsGoverned {s} (cleared id r a reason c now given found kill state e) h = rw e (
    IsGoverned-indexed _ (subject_key r) id (
      IsGoverned-switch id r active a c (clearing reason) now found (ground arith) refl (inl refl)
        (λ sound kill'. ground arith) h))
Step-IsGoverned {s} (rolled id t_id r t a reason c now given found there state ne same once e) h =
    rw e (
      restored-IsGoverned _ t_id t a reason c now (simp reads (ground (arith, eq_iff t_id id))) once
        (IsGoverned-switch id r rolled_back a c (rolling t_id reason) now found (ground arith) refl
          (inl refl) (λ sound kill. ground arith) h))
