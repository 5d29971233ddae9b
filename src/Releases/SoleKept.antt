-- ===== src/Releases/SoleKept.antt =====
-- At most one release of a subject stays active, as long as kill switches are cleared alone.
use text.Mathlib.TextEquality.{eq_iff}
use alos_backend.Prelude.{
  ℕ, String, ◌≡◌, ◌≢◌, ap, some, ◌==◌, string_eq, key3_eq, key3_iff, Key3, if◌then◌else◌, arith,
}
use alos_backend.Prelude.Dict.{get}
use alos_backend.Releases.State.{
  ReleaseState, active, suspended, rolled_back, GovernedRelease, subject_key, Authority,
}
use alos_backend.Releases.Authority.{Options, updated, new_release}
use alos_backend.Releases.Gates.{reactivated}
use alos_backend.Releases.Reads.{reads, get-written}
use alos_backend.Releases.Sole.{IsSole, ClearsAlone, Edge-target, IsSole-enter, IsSole-leave}
use alos_backend.Releases.Steps.{
  written, Step, created, moved, activated_alone, activated_over, activation, supersession, killing,
  clearing, rolling, killed, cleared, rolled,
}

-- A release that is written leaves `active`: the others stay as they were.
module _ (s : Authority) (id : String) (r : GovernedRelease) (target : ReleaseState)
    (actor correlation : String) (options : Options) (now : ℕ) where
  abbrev mid : Authority
  mid = written s id r target actor correlation options now

  written-IsSole : target ≢ active → IsSole s → IsSole mid
  unfolding updated
  written-IsSole off h =
      IsSole-leave id (updated r target correlation options) (λ k. simp reads) off
        (λ k q ne at act. simp reads) h

  -- an active release of the same subject as `id`, which the index names, is no other
  others-written :
      (j : Key3) (k : String) (q : GovernedRelease)
      → get j s.active_by_subject ≡ some id
      → target ≢ active
      → IsSole s
      → get k mid.releases ≡ some q
      → q.state ≡ active
      → subject_key q ≢ j
  unfolding updated
  others-written j k q named off h at act e =
      let at' : (if k == id then some (updated r target correlation options) else get k s.releases)
          ≡ some q =
        rw get-written at at in
      ground (arith, eq_iff k id, h.named k q, ap (λ (x : Key3). get x s.active_by_subject) e)

pub Step-IsSole : {s s' : Authority} (step : Step s s') → ClearsAlone step → IsSole s → IsSole s'
unfolding updated reactivated new_release
Step-IsSole {s} (created c now new e) alone h = rw e (
    IsSole-leave c.release_id (new_release c now) (λ k. simp reads) (λ p. cc)
      (λ k q ne at act. simp reads) h)
Step-IsSole {s} (moved id r target a c o now found edge e) alone h =
    rw e (written-IsSole s id r target a c o now (Edge-target r target o edge) h)
Step-IsSole {s} (activated_alone id r a c now found state free e) alone h = rw e (
    IsSole-enter id (updated r active c activation) (λ k. simp reads) (λ j. simp reads)
      (λ k q ne at act p.
        ground (arith, h.named k q, ap (λ (x : Key3). get x s.active_by_subject) p))
      h)
Step-IsSole {s} (activated_over id r o_id other a c now found state e1 e2 e3 e) alone h = rw e (
    IsSole-enter {s = written s o_id other suspended a c supersession now} id
      (updated r active c activation) (λ k. simp reads (ground (arith, eq_iff k id, eq_iff k o_id)))
      (λ j. simp reads)
      (λ k q ne at act.
        others-written s o_id other suspended a c supersession now (subject_key r) k q e1 (λ p. cc)
          h at act)
      (written-IsSole s o_id other suspended a c supersession now (λ p. cc) h))
Step-IsSole {s} (killed id r a reason c now given found state e) alone h = rw e (
    IsSole-leave id (updated r suspended c (killing reason)) (λ k. simp reads) (λ p. cc)
      (λ k q ne at act.
        simp reads
          (ground (arith, key3_iff (subject_key q) (subject_key r), h.named k q, h.named id r)))
      h)
Step-IsSole {s} (cleared id r a reason c now given found kill state e) alone h = rw e (
    IsSole-enter id (updated r active c (clearing reason)) (λ k. simp reads) (λ j. simp reads)
      (λ k q ne at act p.
        ground (arith, h.named k q, ap (λ (x : Key3). get x s.active_by_subject) p, alone))
      h)
Step-IsSole {s} (rolled id t_id r t a reason c now given found there state ne same once e) alone h =
    rw e (
      IsSole-enter {s = written s id r rolled_back a c (rolling t_id reason) now} t_id
        (reactivated t c) (λ k. simp reads) (λ j. simp reads)
        (λ k q ne' at act.
          others-written s id r rolled_back a c (rolling t_id reason) now (subject_key t) k q
            (rw (← same) (h.named id r found state)) (λ p. cc) h at act)
        (written-IsSole s id r rolled_back a c (rolling t_id reason) now (λ p. cc) h))
