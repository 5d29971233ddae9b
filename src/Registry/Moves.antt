-- ===== src/Registry/Moves.antt =====
-- Each call of a registry changes its versions as the lifecycle has it, and keeps it consistent.
use alos_backend.Prelude.{
  ℕ, String, ◌≡◌, refl, sym, ◌∙◌, inl, inr, ◌⊎◌, Option, none, some, true, ◌==◌, string_eq, Key4,
  key4_eq, Bool-cases, Option-cases, ok, err, beq_refl,
}
use alos_backend.Prelude.Dict.{get}
use alos_backend.Prelude.Entries.{get-Every}
use alos_backend.Json.{Fields, get_field}
use alos_backend.Audit.{AuditEvent}
use alos_backend.Registry.State.{
  draft, approved, active, registry_state_eq, registry_state_iff, DecisionAuthority, it, director,
  authority_of, RegistryEntry, DefinitionError, Kind, Registry, entry_key,
}
use alos_backend.Registry.Versions.{
  Context, new_entry, transitioned, move_version, version_event, supplied_differs, logged_to,
  register_over, require_matching_context, authority_name, register, approve, activate, suspend,
}
use alos_backend.Registry.Lifecycle.{
  Move, approving, activating, suspending, added, moved, IsLogged, IsLogged-kept, IsLogged-last,
  is_approval,
}
use alos_backend.Registry.Consistency.{
  IsConsistent, Called, nothing_changes, written, written-Called, written-Called_at, StandsFor,
}

-- A version of the state is moved on, and the move is logged.
module _ (kind : Kind) (r : Registry) (c : IsConsistent kind r) (key : Key4)
    (current : RegistryEntry) (at : get key r.entries ≡ some current) where
  moved-Called :
      (updated : RegistryEntry) (event : AuditEvent)
      → Move current updated
      → entry_key updated ≡ entry_key current
      → updated.subject_type ≡ current.subject_type
      → IsLogged key (logged_to event r.log)
      → Called kind r (written key updated event r)
  moved-Called updated event move same_key same_type gate =
      let stands = get-Every (StandsFor kind) key current r.entries c.placed at in
      written-Called_at kind r c updated event (same_type ∙ stands.1) key (same_key ∙ stands.0)
        (rw at (moved move)) (λ _. gate)

pub activate-Called :
    (kind : Kind) (r : Registry) (key : Key4) (actor release correlation : String) (now : ℕ)
    → IsConsistent kind r
    → Called kind r (activate key actor release correlation now r).1
unfolding activate move_version transitioned
activate-Called kind r key actor release correlation now c =
    elim (Option-cases (get key r.entries)) [
      | inl missing ↦ rw missing (nothing_changes kind r c)
      | inr (current, at) ↦ elim (Bool-cases (current.state == approved)) [
        | inl expected ↦
            (let from = (registry_state_iff current.state approved).0 expected in
              rw (at, expected)
                (moved-Called kind r c key current at _ _ (activating correlation release from) refl
                  refl (IsLogged-kept key r.log _ (c.gated key current at (rw from refl)))))
        | inr other ↦ rw (at, other) (nothing_changes kind r c)
      ]
    ]

pub suspend-Called :
    (kind : Kind) (r : Registry) (key : Key4) (actor correlation : String) (now : ℕ)
    → IsConsistent kind r
    → Called kind r (suspend key actor correlation now r).1
unfolding suspend move_version transitioned
suspend-Called kind r key actor correlation now c = elim (Option-cases (get key r.entries)) [
  | inl missing ↦ rw missing (nothing_changes kind r c)
  | inr (current, at) ↦ elim (Bool-cases (current.state == active)) [
    | inl expected ↦
        (let from = (registry_state_iff current.state active).0 expected in
          rw (at, expected)
            (moved-Called kind r c key current at _ _ (suspending correlation from) refl refl
              (IsLogged-kept key r.log _ (c.gated key current at (rw from refl)))))
    | inr other ↦ rw (at, other) (nothing_changes kind r c)
  ]
]

approval_event :
    (entry : RegistryEntry) (actor : String) (authority : DecisionAuthority) (now : ℕ)
    → is_approval
        (entry_key entry)
        (version_event entry actor "registry.version.approved" (authority_name authority) now)
      ≡ true
unfolding is_approval version_event get_field
approval_event entry actor it now =
    rw
      (
        beq_refl entry.tenant_id,
        beq_refl entry.workspace_id,
        beq_refl entry.subject_id,
        beq_refl entry.version,
      )
      refl
approval_event entry actor director now =
    rw
      (
        beq_refl entry.tenant_id,
        beq_refl entry.workspace_id,
        beq_refl entry.subject_id,
        beq_refl entry.version,
      )
      refl

approve-Called_by :
    (kind : Kind) (r : Registry) (key : Key4) (actor decision correlation : String)
    (authority : DecisionAuthority) (now : ℕ) (current : RegistryEntry)
    → IsConsistent kind r
    → get key r.entries ≡ some current
    → current.state ≡ draft
    → let updated = transitioned current approved correlation (some decision) none in
      Called kind r (
        written key updated
          (version_event updated actor "registry.version.approved" (authority_name authority) now)
          r)
unfolding transitioned
approve-Called_by kind r key actor decision correlation authority now current c at from =
    let stands = get-Every (StandsFor kind) key current r.entries c.placed at in
    moved-Called kind r c key current at _ _ (approving correlation decision from) refl refl
      (IsLogged-last key r.log _ (rw (sym stands.0) (approval_event _ actor authority now)))

pub approve-Called :
    (kind : Kind) (r : Registry) (key : Key4) (actor decision authority correlation : String)
    (now : ℕ)
    → IsConsistent kind r
    → Called kind r (approve key actor decision authority correlation now r).1
unfolding approve move_version
approve-Called kind r key actor decision authority correlation now c =
    elim (Option-cases (authority_of authority)) [
      | inl not_human ↦ rw not_human (nothing_changes kind r c)
      | inr (resolved, named) ↦ elim (Option-cases (get key r.entries)) [
        | inl missing ↦ rw (named, missing) (nothing_changes kind r c)
        | inr (current, at) ↦ elim (Bool-cases (current.state == draft)) [
          | inl expected ↦
              rw (named, at, expected)
                (approve-Called_by kind r key actor decision correlation resolved now current c at
                  ((registry_state_iff current.state draft).0 expected))
          | inr other ↦ rw (named, at, other) (nothing_changes kind r c)
        ]
      ]
    ]

register_over-Called :
    (kind : Kind) (r : Registry) (entry : RegistryEntry) (now : ℕ) (existing : Option RegistryEntry)
    → IsConsistent kind r
    → get (entry_key entry) r.entries ≡ existing
    → entry.state ≡ draft
    → entry.subject_type ≡ kind.subject_type
    → Called kind r (register_over entry now existing r).1
register_over-Called kind r entry now none c at from same_type =
    written-Called kind r c entry _ same_type (rw at (added entry from))
      (λ past. (let wrong = rw from at past in cc))
register_over-Called kind r entry now (some existing) c at from same_type =
    elim (Bool-cases (existing.digest == entry.digest)) [
      | inl same ↦ rw same (nothing_changes kind r c)
      | inr other ↦ rw other (nothing_changes kind r c)
    ]

-- A context that does not match is refused before anything is written.
pub require-cases :
    (kind : Kind) (payload : Fields) (t o w : String) (r : Registry)
    → (require_matching_context kind payload t o w r ≡ (ok tt, r))
      ⊎ ((e : DefinitionError) × (require_matching_context kind payload t o w r ≡ (err e, r)))
unfolding require_matching_context
require-cases kind payload t o w r =
    elim (Bool-cases (supplied_differs kind.shown (get_field "tenant_id" payload) t)) [
      | inl differs ↦ rw differs (inr (_, refl))
      | inr same ↦
          elim (Bool-cases (supplied_differs kind.shown (get_field "organization_id" payload) o)) [
            | inl differs ↦ rw (same, differs) (inr (_, refl))
            | inr same' ↦
                elim (Bool-cases
                  (supplied_differs kind.shown (get_field "workspace_id" payload) w)) [
                    | inl differs ↦ rw (same, same', differs) (inr (_, refl))
                    | inr same'' ↦ rw (same, same', same'') (inl refl)
                  ]
          ]
    ]

pub register-Called :
    (kind : Kind) (r : Registry) (payload : Fields) (context : Context) (now : ℕ)
    → IsConsistent kind r
    → Called kind r (register kind payload context now r).1
unfolding register new_entry
register-Called kind r payload context now c = elim (Bool-cases (kind.accepts payload)) [
  | inr invalid ↦ rw invalid (nothing_changes kind r c)
  | inl valid ↦
      elim (require-cases kind payload context.tenant_id context.organization_id
        context.workspace_id r) [
          | inr (e, refused) ↦ rw (valid, refused) (nothing_changes kind r c)
          | inl matching ↦ elim (Option-cases (get_field kind.id_field payload)) [
            | inl missing ↦ rw (valid, matching, missing) (nothing_changes kind r c)
            | inr (subject, named) ↦ elim (Option-cases (get_field kind.version_field payload)) [
              | inl missing ↦ rw (valid, matching, named, missing) (nothing_changes kind r c)
              | inr (version, at) ↦
                  rw (valid, matching, named, at)
                    (register_over-Called kind r _ now _ c refl refl refl)
            ]
          ]
        ]
]
