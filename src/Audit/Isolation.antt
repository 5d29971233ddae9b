-- ===== src/Audit/Isolation.antt =====
-- What a reader of the audit log is shown.
use text.Mathlib.TextEquality.{eq_iff}
use mathlib.Core.List.{reverse_aux}
use alos_backend.Prelude.{
  ℕ, zero, suc, ◌+◌, ◌-◌, ◌≤◌, String, ◌≡◌, inl, inr, Option, none, some, [], ◌∷◌, false, ◌&&◌,
  ◌==◌, string_eq, leb, arith, Bool-cases, Result, ok, err,
}
use alos_backend.Prelude.Entries.{All, All-map}
use alos_backend.Audit.{
  AuditEvent, AuditLog, AuditError, of_tenant, of_workspace, length, drop, list_events,
}

module _ (P : AuditEvent → Type 0) where
  reverse_aux-All : (xs ys : AuditLog) → All P xs → All P ys → All P (reverse_aux xs ys)
  reverse_aux-All [] ys p q = q
  reverse_aux-All (x ∷ xs) ys p q = reverse_aux-All xs (x ∷ ys) p.1 (p.0, q)

  drop-All : (n : ℕ) (xs : AuditLog) → All P xs → All P (drop n xs)
  drop-All zero xs p = p
  drop-All (suc n) [] p = tt
  drop-All (suc n) (x ∷ xs) p = drop-All n xs p.1

length-reverse_aux : (xs ys : AuditLog) → length (reverse_aux xs ys) ≡ length xs + length ys
length-reverse_aux [] ys = omega arith
length-reverse_aux (x ∷ xs) ys = let rest = length-reverse_aux xs (x ∷ ys) in omega arith

length-drop : (n : ℕ) (xs : AuditLog) → length (drop n xs) ≡ length xs - n
length-drop zero xs = omega arith
length-drop (suc n) [] = omega arith
length-drop (suc n) (x ∷ xs) = let rest = length-drop n xs in omega arith

-- The event is one of the tenant, and of the workspace where one is asked for.
abbrev pub InWorkspace : Option String → AuditEvent → Type 0
InWorkspace none event = Unit
InWorkspace (some workspace) event = event.workspace_id ≡ workspace

abbrev pub IsVisible : String → Option String → AuditEvent → Type 0
IsVisible tenant workspace event = (event.tenant_id ≡ tenant) × InWorkspace workspace event

of_tenant-All :
    (tenant : String) (log : AuditLog)
    → All (λ event. event.tenant_id ≡ tenant) (of_tenant tenant log)
unfolding of_tenant
of_tenant-All tenant [] = tt
of_tenant-All tenant (event ∷ rest) = elim (Bool-cases (event.tenant_id == tenant)) [
  | inl same ↦ rw same ((eq_iff event.tenant_id tenant).0 same, of_tenant-All tenant rest)
  | inr other ↦ rw other (of_tenant-All tenant rest)
]

of_workspace-All :
    (tenant : String) (workspace : Option String) (log : AuditLog)
    → All (λ event. event.tenant_id ≡ tenant) log
    → All (IsVisible tenant workspace) (of_workspace workspace log)
unfolding of_workspace
of_workspace-All tenant none log h = All-map log (λ event own. (own, tt)) h
of_workspace-All tenant (some workspace) [] h = tt
of_workspace-All tenant (some workspace) (event ∷ rest) h =
    let later = of_workspace-All tenant (some workspace) rest h.1 in
    elim (Bool-cases (event.workspace_id == workspace)) [
      | inl same ↦ rw same ((h.0, (eq_iff event.workspace_id workspace).0 same), later)
      | inr other ↦ rw other later
    ]

-- How a reading may end: refused for its limit, or with visible events, at most the limit.
abbrev pub ListingEnds : String → Option String → ℕ → Result AuditError AuditLog → Type 0
ListingEnds tenant workspace limit (ok events) =
    (length events ≤ limit) × (limit ≤ 500) × All (IsVisible tenant workspace) events
ListingEnds tenant workspace limit (err e) = (leb 1 limit && leb limit 500) ≡ false

-- A reading of the audit log shows only events of its tenant, and of its workspace where it names
-- one, and at most as many as its limit, which is at most 500; it is refused only where the limit is
-- not between 1 and 500.
pub list_events_lem :
    (tenant : String) (workspace : Option String) (limit : ℕ) (log : AuditLog)
    → ListingEnds tenant workspace limit (list_events tenant workspace limit log)
unfolding list_events
list_events_lem tenant workspace limit log =
    let found = of_workspace workspace (of_tenant tenant log) in
    let visible =
      of_workspace-All tenant workspace (of_tenant tenant log) (of_tenant-All tenant log) in
    let last = drop (length found - limit) found in
    elim (Bool-cases (leb 1 limit && leb limit 500)) [
      | inl within ↦ rw within (
        (let count = length-reverse_aux last [] in
            let kept = length-drop (length found - limit) found in omega arith),
        ground arith,
        reverse_aux-All (IsVisible tenant workspace) last []
            (drop-All (IsVisible tenant workspace) (length found - limit) found visible) tt,
      )
      | inr outside ↦ rw outside outside
    ]
