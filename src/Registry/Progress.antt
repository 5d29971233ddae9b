-- ===== src/Registry/Progress.antt =====
-- The way of a version from its draft to its suspension.
use alos_backend.Prelude.{
  ℕ, String, ◌≡◌, refl, ◌∙◌, ap, Option, none, some, true, is_given, is_truthy, or_else, Key4,
  key4_eq,
}
use alos_backend.Prelude.Dict.{get, get-insert_same}
use alos_backend.Registry.State.{
  RegistryState, draft, approved, active, suspended, registry_state_eq, registry_state_iff,
  DecisionAuthority, authority_of, RegistryEntry, Registry,
}
use alos_backend.Registry.Versions.{transitioned, move_version, approve, activate, suspend}

-- Each call moves a version that is in the state it expects.
module _ (r : Registry) (key : Key4) (entry : RegistryEntry) (at : get key r.entries ≡ some entry)
    (actor correlation : String) (now : ℕ) where
  approved_at :
      (decision authority : String) (resolved : DecisionAuthority)
      → entry.state ≡ draft
      → authority_of authority ≡ some resolved
      → get key (approve key actor decision authority correlation now r).1.entries
        ≡ some (transitioned entry approved correlation (some decision) none)
  unfolding approve move_version
  approved_at decision authority resolved from human =
      rw (human, at, (registry_state_iff entry.state draft).1 from)
        (get-insert_same key (transitioned entry approved correlation (some decision) none)
          r.entries)

  activated_at :
      (release : String)
      → entry.state ≡ approved
      → get key (activate key actor release correlation now r).1.entries
        ≡ some (transitioned entry active correlation none (some release))
  unfolding activate move_version
  activated_at release from =
      rw (at, (registry_state_iff entry.state approved).1 from)
        (get-insert_same key (transitioned entry active correlation none (some release)) r.entries)

  suspended_at :
      entry.state ≡ active
      → get key (suspend key actor correlation now r).1.entries
        ≡ some (transitioned entry suspended correlation none none)
  unfolding suspend move_version
  suspended_at from =
      rw (at, (registry_state_iff entry.state active).1 from)
        (get-insert_same key (transitioned entry suspended correlation none none) r.entries)

or_else-first :
    (text : String) (other : Option String)
    → is_truthy text ≡ true
    → or_else (some text) other ≡ some text
unfolding or_else is_given
or_else-first text other h = rw h refl

or_else-none : (other : Option String) → or_else none other ≡ other
unfolding or_else is_given
or_else-none other = refl

-- the version in another state, with that decision and release
abbrev pub in_state :
    RegistryEntry → RegistryState → String → Option String → Option String → RegistryEntry
in_state entry state correlation decision_id release_id = record entry {
  state = state;
  correlation_id = correlation;
  decision_id = decision_id;
  release_id = release_id;
}

same_version :
    (entry : RegistryEntry) (state : RegistryState) (correlation : String)
    (d d' l l' : Option String)
    → d ≡ d'
    → l ≡ l'
    → some (in_state entry state correlation d l) ≡ some (in_state entry state correlation d' l')
same_version entry state correlation d d' l l' p q =
    ap (λ x. some (in_state entry state correlation x l)) p
    ∙ ap (λ x. some (in_state entry state correlation d' x)) q

-- A draft that a human authority approves and that is then activated is found active under its
-- key, and suspended after a suspension, both times with its content, the decision and the release,
-- when neither of these two is empty.
pub draft-progress :
    (r : Registry) (key : Key4) (entry : RegistryEntry)
    (actor decision authority release first second third : String) (now : ℕ)
    (resolved : DecisionAuthority)
    → get key r.entries ≡ some entry
    → entry.state ≡ draft
    → authority_of authority ≡ some resolved
    → is_truthy decision ≡ true
    → is_truthy release ≡ true
    → let r1 = (approve key actor decision authority first now r).1 in
      let r2 = (activate key actor release second now r1).1 in
      let r3 = (suspend key actor third now r2).1 in
      (get key r2.entries ≡ some (in_state entry active second (some decision) (some release)))
      × (get key r3.entries ≡ some (in_state entry suspended third (some decision) (some release)))
unfolding transitioned
draft-progress r key entry actor decision authority release first second third now resolved at from
      human decided released =
    let r1 = (approve key actor decision authority first now r).1 in
    let r2 = (activate key actor release second now r1).1 in
    let e1 = transitioned entry approved first (some decision) none in
    let e2 = transitioned e1 active second none (some release) in
    let at1 = approved_at r key entry at actor first now decision authority resolved from human in
    let at2 = activated_at r1 key e1 at1 actor second now release refl in
    let at3 = suspended_at r2 key e2 at2 actor third now refl in
    let d1 = or_else-first decision entry.decision_id decided in
    let d2 = or_else-none e1.decision_id ∙ d1 in
    let l2 = or_else-first release e1.release_id released in
    (
      at2
          ∙ same_version entry active second e2.decision_id (some decision) e2.release_id
              (some release) d2 l2,
      at3
          ∙ same_version entry suspended third (or_else none e2.decision_id) (some decision)
              (or_else none e2.release_id) (some release) (or_else-none e2.decision_id ∙ d2)
              (or_else-none e2.release_id ∙ l2),
    )
