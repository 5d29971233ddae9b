-- ===== src/Registry/Histories.antt =====
-- Histories of calls on a registry: what every version keeps, and which approvals are on record.
use alos_backend.Prelude.{
  ℕ, String, ◌≡◌, refl, ◌∙◌, ◌≤◌, Option, none, some, List, [], ◌∷◌, true, Key4, key4_eq, arith,
}
use alos_backend.Prelude.Dict.{get}
use alos_backend.Audit.{AuditLog}
use alos_backend.Registry.State.{
  RegistryState, draft, approved, active, suspended, retired, RegistryEntry, Kind, Registry,
  entry_key,
}
use alos_backend.Registry.Versions.{transitioned}
use alos_backend.Registry.Calls
use alos_backend.Registry.Calls.{RegistryCall, apply, apply_all}
use alos_backend.Registry.Lifecycle.{
  Move, approving, activating, suspending, Change, unchanged, added, moved, approval_logged,
  is_past,
}
use alos_backend.Registry.Consistency.{IsConsistent, Called}
use alos_backend.Registry.Moves.{register-Called, approve-Called, activate-Called, suspend-Called}

apply-Called :
    (kind : Kind) (r : Registry) (call : RegistryCall) (now : ℕ)
    → IsConsistent kind r
    → Called kind r (apply kind call now r).1
unfolding apply
apply-Called kind r (Calls.register payload context) now c =
    register-Called kind r payload context now c
apply-Called kind r (Calls.approve key actor decision authority correlation) now c =
    approve-Called kind r key actor decision authority correlation now c
apply-Called kind r (Calls.activate key actor release correlation) now c =
    activate-Called kind r key actor release correlation now c
apply-Called kind r (Calls.suspend key actor correlation) now c =
    suspend-Called kind r key actor correlation now c

-- A registry that is made, with the log of its sink
abbrev pub new_registry : Option AuditLog → Registry
new_registry log = record { entries = []; store = []; log = log }

new-IsConsistent : (kind : Kind) (log : Option AuditLog) → IsConsistent kind (new_registry log)
unfolding get
new-IsConsistent kind log = record {
  unique = tt;
  placed = tt;
  mirrored = refl;
  gated = λ key entry at past. cc;
}

kept-IsConsistent :
    (kind : Kind) (calls : List (RegistryCall × ℕ)) (r : Registry)
    → IsConsistent kind r
    → IsConsistent kind (apply_all kind calls r)
unfolding apply_all
kept-IsConsistent kind [] r c = c
kept-IsConsistent kind ((call, now) ∷ rest) r c =
    kept-IsConsistent kind rest (apply kind call now r).1
      (apply-Called kind r call now c).consistent

pub history-IsConsistent :
    (kind : Kind) (log : Option AuditLog) (calls : List (RegistryCall × ℕ))
    → IsConsistent kind (apply_all kind calls (new_registry log))
history-IsConsistent kind log calls =
    kept-IsConsistent kind calls (new_registry log) (new-IsConsistent kind log)

-- How far a version is.
abbrev pub stage : RegistryState → ℕ
stage draft = 0
stage approved = 1
stage active = 2
stage suspended = 3
stage retired = 4

-- The later version has the content and the origin of the earlier, and is at least as far.
pub record IsKept (entry later : RegistryEntry) : Type 0 where
  pub same_key : entry_key later ≡ entry_key entry
  pub same_organization : later.organization_id ≡ entry.organization_id
  pub same_payload : later.payload ≡ entry.payload
  pub same_digest : later.digest ≡ entry.digest
  pub same_creator : later.created_by ≡ entry.created_by
  pub same_creation : later.created_at ≡ entry.created_at
  pub forward : stage entry.state ≤ stage later.state

IsKept-refl : (entry : RegistryEntry) → IsKept entry entry
IsKept-refl entry = record {
  same_key = refl;
  same_organization = refl;
  same_payload = refl;
  same_digest = refl;
  same_creator = refl;
  same_creation = refl;
  forward = omega arith;
}

IsKept-trans : (a b c : RegistryEntry) → IsKept a b → IsKept b c → IsKept a c
IsKept-trans a b c h k = record {
  same_key = k.same_key ∙ h.same_key;
  same_organization = k.same_organization ∙ h.same_organization;
  same_payload = k.same_payload ∙ h.same_payload;
  same_digest = k.same_digest ∙ h.same_digest;
  same_creator = k.same_creator ∙ h.same_creator;
  same_creation = k.same_creation ∙ h.same_creation;
  forward = (let first = h.forward in let second = k.forward in omega arith);
}

transitioned-IsKept :
    (entry : RegistryEntry) (target : RegistryState) (correlation : String)
    (decision release : Option String)
    → stage entry.state ≤ stage target
    → IsKept entry (transitioned entry target correlation decision release)
unfolding transitioned
transitioned-IsKept entry target correlation decision release forward = record {
  same_key = refl;
  same_organization = refl;
  same_payload = refl;
  same_digest = refl;
  same_creator = refl;
  same_creation = refl;
  forward = forward;
}

Move-IsKept : (entry later : RegistryEntry) → Move entry later → IsKept entry later
Move-IsKept entry _ (approving correlation decision from) =
    transitioned-IsKept entry approved correlation (some decision) none (rw from (omega arith))
Move-IsKept entry _ (activating correlation release from) =
    transitioned-IsKept entry active correlation none (some release) (rw from (omega arith))
Move-IsKept entry _ (suspending correlation from) =
    transitioned-IsKept entry suspended correlation none none (rw from (omega arith))

Change-IsKept :
    (key : Key4) (before after : Option RegistryEntry) (entry : RegistryEntry)
    → Change key before after
    → before ≡ some entry
    → (later : RegistryEntry) × (after ≡ some later) × IsKept entry later
Change-IsKept key before _ entry unchanged at = (entry, at, IsKept-refl entry)
Change-IsKept key _ _ entry (added new from) at = cc
Change-IsKept key _ _ entry (moved {entry = old} {entry' = next} move) at =
    let same : old ≡ entry = cc in
    (next, refl, (let kept = Move-IsKept old next move in rw same at kept))

IsKept-after :
    (kind : Kind) (calls : List (RegistryCall × ℕ)) (r : Registry) (key : Key4)
    (entry : RegistryEntry)
    → IsConsistent kind r
    → get key r.entries ≡ some entry
    → (later : RegistryEntry) × (get key (apply_all kind calls r).entries ≡ some later)
      × IsKept entry later
unfolding apply_all
IsKept-after kind [] r key entry c at = (entry, at, IsKept-refl entry)
IsKept-after kind ((call, now) ∷ rest) r key entry c at =
    let called = apply-Called kind r call now c in
    let (next, at', kept) = Change-IsKept key _ _ entry (called.change key) at in
    let (last, at'', kept') =
      IsKept-after kind rest (apply kind call now r).1 key next called.consistent at' in
    (last, at'', IsKept-trans entry next last kept kept')

-- A version that a history of calls has left in a new registry is still there after any further
-- calls, under its key, with the same organization, payload, digest, creator and time of creation,
-- and its state has not moved back.
pub history-IsKept :
    (kind : Kind) (log : Option AuditLog) (calls further : List (RegistryCall × ℕ)) (key : Key4)
    (entry : RegistryEntry)
    → get key (apply_all kind calls (new_registry log)).entries ≡ some entry
    → (later : RegistryEntry) × (get key
          (apply_all kind further (apply_all kind calls (new_registry log))).entries
        ≡ some later)
      × IsKept entry later
history-IsKept kind log calls further key entry =
    IsKept-after kind further (apply_all kind calls (new_registry log)) key entry
      (history-IsConsistent kind log calls)

sink_after :
    (kind : Kind) (calls : List (RegistryCall × ℕ)) (r : Registry) (log : AuditLog)
    → IsConsistent kind r
    → r.log ≡ some log
    → (kept : AuditLog) × ((apply_all kind calls r).log ≡ some kept)
unfolding apply_all
sink_after kind [] r log c at = (log, at)
sink_after kind ((call, now) ∷ rest) r log c at =
    let called = apply-Called kind r call now c in
    let (next, at') = called.sink log at in
    sink_after kind rest (apply kind call now r).1 next called.consistent at'

-- With a sink, a version that a history of calls has taken past DRAFT has in the log the event of
-- an approval of that version by IT or by the Director.
pub history-approval_logged :
    (kind : Kind) (log : AuditLog) (calls : List (RegistryCall × ℕ)) (key : Key4)
    (entry : RegistryEntry)
    → get key (apply_all kind calls (new_registry (some log))).entries ≡ some entry
    → is_past entry.state ≡ true
    → (kept : AuditLog) × ((apply_all kind calls (new_registry (some log))).log ≡ some kept)
      × (approval_logged key kept ≡ true)
history-approval_logged kind log calls key entry at past =
    let (kept, log_at) =
      sink_after kind calls (new_registry (some log)) log (new-IsConsistent kind (some log)) refl in
    let gate = (history-IsConsistent kind (some log) calls).gated key entry at past in
    (kept, log_at, rw log_at at gate)
