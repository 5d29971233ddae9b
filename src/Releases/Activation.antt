-- ===== src/Releases/Activation.antt =====
-- What `activate`, `rollback` and `clear_kill_switch` do to the active releases of a subject.
use text.Mathlib.TextEquality.{eq_iff}
use alos_backend.Prelude.{
  ℕ, String, ◌≡◌, refl, sym, ◌∙◌, inl, inr, some, none, [], ◌∷◌, true, false, ◌==◌, string_eq,
  key3_eq, key3_iff, is_blank, arith, ok, Option-cases, beq_refl,
}
use alos_backend.Prelude.Dict.{get}
use alos_backend.Releases.State.{
  active, suspended, released, state_eq, GovernedRelease, subject_key, Authority,
}
use alos_backend.Releases.Authority.{updated, transition_event}
use alos_backend.Releases.Gates.{activate, supersede, clear_kill_switch}
use alos_backend.Releases.Outcomes.{transition_allowed, contains_self}
use alos_backend.Releases.Reads.{reads, get-written}
use alos_backend.Releases.Histories.{History, after, after-IsValid}
use alos_backend.Releases.Steps.{written, indexed, activation, supersession, clearing}

module _ (s : Authority) (id : String) (r : GovernedRelease) (actor correlation : String) (now : ℕ)
    (found : get id s.releases ≡ some r) where
  activate-alone :
      r.state ≡ released
      → get (subject_key r) s.active_by_subject ≡ none
      → activate id actor correlation now s ≡ (
        ok (updated r active correlation activation),
        indexed (subject_key r) id (written s id r active actor correlation activation now),
      )
  unfolding activate supersede updated indexed
  activate-alone state free =
      rw
        (transition_allowed s id (released ∷ []) active actor correlation activation now r found
          (contains_self _ _ state))
        (unfold written in rw free)

  activate-over :
      (other_id : String) (other : GovernedRelease)
      → r.state ≡ released
      → get (subject_key r) s.active_by_subject ≡ some other_id
      → get other_id s.releases ≡ some other
      → other.state ≡ active
      → activate id actor correlation now s ≡ (
        ok (updated r active correlation activation),
        indexed (subject_key r) id (
            written
              (written s id r active actor correlation activation now)
              other_id
              other
              suspended
              actor
              correlation
              supersession
              now),
      )
  unfolding activate supersede updated indexed
  activate-over other_id other state named there act =
      let ne : (other_id == id) ≡ false = ground (arith, eq_iff other_id id) in
      rw
        (transition_allowed s id (released ∷ []) active actor correlation activation now r found
          (contains_self _ _ state))
        (unfold written in
          rw named (
            rw ne (
              rw
                (transition_allowed (written s id r active actor correlation activation now)
                  other_id (active ∷ []) suspended actor correlation supersession now other
                  (get-written s id r active actor correlation activation now other_id
                    ∙ rw ne there)
                  (contains_self _ _ act))
                refl)))

  clear-ok :
      (reason : String)
      → r.kill_switch_active ≡ true
      → r.state ≡ suspended
      → is_blank reason ≡ false
      → clear_kill_switch id actor reason correlation now s ≡ (
        ok (updated r active correlation (clearing reason)),
        indexed (subject_key r) id (written s id r active actor correlation (clearing reason) now),
      )
  unfolding clear_kill_switch updated indexed written transition_event
  clear-ok reason kill state given = rw found (
      rw kill (
        rw given (
          rw
            (transition_allowed s id (suspended ∷ []) active actor correlation (clearing reason) now
              r found (contains_self _ _ state))
            refl)))

-- After any history, activating a released release succeeds. The release is then active and the one
-- that the index names for its subject, and a release that the index named before is suspended.
pub activate_lem :
    (h : History) (id : String) (r : GovernedRelease) (actor correlation : String) (now : ℕ)
    → get id (after h).releases ≡ some r
    → r.state ≡ released
    → let (result, s') = activate id actor correlation now (after h) in
      (result ≡ ok (updated r active correlation activation))
      × (get id s'.releases ≡ some (updated r active correlation activation))
      × (get (subject_key r) s'.active_by_subject ≡ some id)
      × ((other_id : String)
          → get (subject_key r) (after h).active_by_subject ≡ some other_id
          → (q : GovernedRelease) × (get other_id s'.releases ≡ some q) × (q.state ≡ suspended))
unfolding updated
activate_lem h id r actor correlation now found state =
    let s = after h in
    elim (Option-cases (get (subject_key r) s.active_by_subject)) [
      | inl free ↦ rw (activate-alone s id r actor correlation now found state free) (
        refl,
        simp reads (rw (beq_refl id)),
        simp reads (rw ((key3_iff (subject_key r) (subject_key r)).1 refl)),
        λ other_id named. cc,
      )
      | inr (other_id, named) ↦
          (let (other, there, act, sub) =
              (after-IsValid h).indexed.entry (subject_key r) other_id named in
            rw
              (activate-over s id r actor correlation now found other_id other state named there
                act)
              (
                refl,
                simp reads (ground (arith, eq_iff id other_id, beq_refl id)),
                simp reads (rw ((key3_iff (subject_key r) (subject_key r)).1 refl)),
                λ k named'. (
                  updated other suspended correlation supersession,
                  simp reads (ground (arith, eq_iff k other_id)),
                  refl,
                ),
              ))
    ]

-- Clearing the kill switch of a release, with a reason, makes it active whatever else is active: an
-- active release of the same subject stays active beside it, and the index names it no longer.
pub clear_kill_switch-two_active :
    (h : History) (id other_id : String) (r other : GovernedRelease)
    (actor reason correlation : String) (now : ℕ)
    → get id (after h).releases ≡ some r
    → r.kill_switch_active ≡ true
    → r.state ≡ suspended
    → is_blank reason ≡ false
    → get other_id (after h).releases ≡ some other
    → other.state ≡ active
    → subject_key other ≡ subject_key r
    → let s' = (clear_kill_switch id actor reason correlation now (after h)).1 in
      ((q : GovernedRelease) × (get id s'.releases ≡ some q)
        × (q.state ≡ active)
        × (subject_key q ≡ subject_key other))
      × (get other_id s'.releases ≡ some other)
      × (get (subject_key other) s'.active_by_subject ≡ some id)
unfolding updated
clear_kill_switch-two_active h id other_id r other actor reason correlation now found kill state
      given there act same =
    rw (clear-ok (after h) id r actor correlation now found reason kill state given) (
      (
        updated r active correlation (clearing reason),
        simp reads (rw (beq_refl id)),
        refl,
        sym same,
      ),
      simp reads (ground (arith, eq_iff other_id id)),
      simp reads (rw ((key3_iff (subject_key other) (subject_key r)).1 same)),
    )
