-- ===== src/Releases/IndexKept.antt =====
-- The index names active releases after every step.
use text.Mathlib.TextEquality.{eq_iff}
use alos_backend.Prelude.{
  String, ◌≡◌, refl, sym, ◌∙◌, ◌≢◌, inl, inr, some, none, ◌==◌, string_eq, key3_eq, Key3, key3_iff,
  if◌then◌else◌, Bool-cases, arith,
}
use alos_backend.Prelude.Dict.{get}
use alos_backend.Governance.{requires_director}
use alos_backend.Releases.State.{
  ReleaseState, active, it_approved, director_approved, suspended, rolled_back, GovernedRelease,
  subject_key, Authority, state_eq,
}
use alos_backend.Releases.Authority.{Options, updated, new_release}
use alos_backend.Releases.Gates.{releasable_from, reactivated}
use alos_backend.Releases.Indexed.{IsIndexed}
use alos_backend.Releases.Outcomes.{contains_one}
use alos_backend.Releases.Reads.{reads}
use alos_backend.Releases.Steps.{
  Edge, implement, assure, ai_review, submit_it, it_decide, submit_director, director_decide,
  publish, written, unindexed, Step, created, moved, activated_alone, activated_over, activation,
  supersession, killing, clearing, rolling, killed, cleared, rolled,
}

-- No edge of the early lifecycle leaves `active`.
pub Edge-ne-active :
    (r : GovernedRelease) (target : ReleaseState) (options : Options)
    → Edge r target options
    → r.state ≢ active
unfolding releasable_from
Edge-ne-active r target options (implement e _ _) h = ground arith
Edge-ne-active r target options (assure _ _ e _ _) h = cc
Edge-ne-active r target options (ai_review _ _ _ e _ _) h = cc
Edge-ne-active r target options (submit_it e _ _) h = cc
Edge-ne-active r target options (it_decide _ _ _ _ e _ _) h = cc
Edge-ne-active r target options (submit_director _ e _ _) h = cc
Edge-ne-active r target options (director_decide _ _ _ _ e _ _) h = cc
Edge-ne-active r target options (publish e _ _) h =
    elim (Bool-cases (requires_director r.materiality)) [
      | inl yes' ↦ ground (arith, contains_one r.state director_approved)
      | inr no' ↦ ground (arith, contains_one r.state it_approved)
    ]

-- The releases of `s'` are those of `s` with `new` under `id`.
abbrev pub Puts : Authority → Authority → String → GovernedRelease → Type 0
Puts s s' id new =
    (k : String) → get k s'.releases ≡ (if k == id then some new else get k s.releases)

module _ {s s' : Authority} (key : Key3) (id : String) (new : GovernedRelease) where
  -- `id` becomes the active release of `key`
  IsIndexed-enter :
      Puts s s' id new
      → ((j : Key3)
          → get j s'.active_by_subject ≡ (if j == key then some id else get j s.active_by_subject))
      → new.state ≡ active
      → subject_key new ≡ key
      → ((q : GovernedRelease)
          → get id s.releases ≡ some q
          → q.state ≡ active
          → subject_key q ≡ key)
      → IsIndexed s
      → IsIndexed s'
  IsIndexed-enter puts index act sub old h = record {
    entry = λ j k at. elim (Bool-cases (j == key)) [
      | inl same ↦
          let e : k ≡ id = ground (arith, index j) in
          (new, rw puts (ground (arith, eq_iff k id)), act, sub ∙ sym ((key3_iff j key).0 same))
      | inr other ↦
          (let (q, there, q_act, q_sub) = h.entry j k (ground (arith, index j)) in
            (q, rw puts (ground (arith, eq_iff k id, key3_iff j key, old q)), q_act, q_sub))
    ];
  }

  -- `key` has no active release any more
  IsIndexed-leave :
      Puts s s' id new
      → ((j : Key3)
          → get j s'.active_by_subject ≡ (if j == key then none else get j s.active_by_subject))
      → ((q : GovernedRelease)
          → get id s.releases ≡ some q
          → q.state ≡ active
          → subject_key q ≡ key)
      → IsIndexed s
      → IsIndexed s'
  IsIndexed-leave puts index old h = record {
    entry = λ j k at.
        let (q, there, act, sub) = h.entry j k (ground (arith, index j)) in
        (q, rw puts (ground (arith, index j, eq_iff k id, key3_iff j key, old q)), act, sub);
  }

module _ {s s' : Authority} (id : String) (new : GovernedRelease) where
  -- the index stays, and `id` was not active
  IsIndexed-pass :
      Puts s s' id new
      → ((j : Key3) → get j s'.active_by_subject ≡ get j s.active_by_subject)
      → ((q : GovernedRelease) → get id s.releases ≡ some q → q.state ≢ active)
      → IsIndexed s
      → IsIndexed s'
  IsIndexed-pass puts index old h = record {
    entry = λ j k at.
        let (q, there, act, sub) = h.entry j k (ground (arith, index j)) in
        (q, rw puts (ground (arith, eq_iff k id, old q)), act, sub);
  }

pub Step-IsIndexed : {s s' : Authority} → Step s s' → IsIndexed s → IsIndexed s'
unfolding updated reactivated
Step-IsIndexed {s} (created c now new e) h = rw e (
    IsIndexed-pass c.release_id (new_release c now) (λ k. simp reads) (λ j. simp reads) (λ q at. cc)
      h)
Step-IsIndexed {s} (moved id r target a c o now found edge e) h = rw e (
    IsIndexed-pass id (updated r target c o) (λ k. simp reads) (λ j. simp reads)
      (λ q at. ground (arith, Edge-ne-active r target o edge)) h)
Step-IsIndexed {s} (activated_alone id r a c now found state free e) h = rw e (
    IsIndexed-enter (subject_key r) id (updated r active c activation) (λ k. simp reads)
      (λ j. simp reads) refl refl (λ q at act. cc) h)
Step-IsIndexed {s} (activated_over id r o_id other a c now found state e1 e2 e3 e) h =
    let key = subject_key r in
    let quit = updated other suspended c supersession in
    let mid = unindexed key (written s o_id other suspended a c supersession now) in
    let off : IsIndexed mid =
      IsIndexed-leave key o_id quit (λ k. simp reads) (λ j. simp reads)
        (λ q at act.
          let (q', there, _, sub) = h.entry key o_id e1 in let same : q ≡ q' = cc in rw same sub)
        h in
    rw e (
      IsIndexed-enter {s = mid} key id (updated r active c activation)
        (λ k. simp reads (ground (arith, eq_iff k id, eq_iff k o_id)))
        (λ j. simp reads (ground arith)) refl refl
        (λ q at act.
          let at' : (if id == o_id then some quit else get id s.releases) ≡ some q =
            simp reads at at in
          ground (arith, eq_iff id o_id))
        off)
Step-IsIndexed {s} (killed id r a reason c now given found state e) h = rw e (
    IsIndexed-leave (subject_key r) id (updated r suspended c (killing reason)) (λ k. simp reads)
      (λ j. simp reads) (λ q at act. cc) h)
Step-IsIndexed {s} (cleared id r a reason c now given found kill state e) h = rw e (
    IsIndexed-enter (subject_key r) id (updated r active c (clearing reason)) (λ k. simp reads)
      (λ j. simp reads) refl refl (λ q at act. cc) h)
Step-IsIndexed {s} (rolled id t_id r t a reason c now given found there state ne same once e) h =
    let key = subject_key t in
    let gone = updated r rolled_back c (rolling t_id reason) in
    let mid = unindexed key (written s id r rolled_back a c (rolling t_id reason) now) in
    let off : IsIndexed mid =
      IsIndexed-leave key id gone (λ k. simp reads) (λ j. simp reads)
        (λ q at act. let same' : q ≡ r = cc in rw same' same) h in
    rw e (
      IsIndexed-enter {s = mid} key t_id (reactivated t c) (λ k. simp reads)
        (λ j. simp reads (ground arith)) refl refl
        (λ q at act.
          let at' : (if t_id == id then some gone else get t_id s.releases) ≡ some q =
            simp reads at at in
          ground (arith, eq_iff t_id id))
        off)
