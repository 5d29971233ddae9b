-- ===== src/Authorization/Decisions.antt =====
-- Which commands `enforce` allows.
use text.Mathlib.TextEquality.{eq_iff}
use alos_backend.Prelude.{
  ℕ, String, ◌≡◌, refl, ◌↔◌, inl, inr, Option, none, some, Bool, true, false, not, string_eq, arith,
  Bool-cases, if◌then◌else◌,
}
use alos_backend.Audit.{AuditLog}
use alos_backend.Authorization.{Principal, is_allowed}
use alos_backend.Authorization.Facts.{IsPermitted, is_allowed_iff}
use alos_backend.Authorization.Enforcement.{
  AuthorizationDecision, allowed, denied, Claim, conflicts, conflicts_with, conflict, demand_of,
  is_empty, judge, decide, enforce,
}

-- A supplied value is the principal's own.
abbrev pub Agrees : Option String → String → Type 0
Agrees none own = Unit
Agrees (some untrusted) own = untrusted ≡ own

-- The same, where the principal has such a field.
abbrev pub AgreesWith : Option String → Option String → Type 0
AgreesWith untrusted none = Unit
AgreesWith untrusted (some own) = Agrees untrusted own

pub record IsTrusted (principal : Principal) (claim : Claim) : Type 0 where
  pub actor : Agrees claim.untrusted_actor_id principal.actor_id
  pub tenant : Agrees claim.untrusted_tenant_id principal.tenant_id
  pub workspace : Agrees claim.untrusted_workspace_id principal.workspace_id
  pub division : AgreesWith claim.untrusted_division_id principal.division_id
  pub project : AgreesWith claim.untrusted_project_id principal.project_id

conflicts_lem : (u : Option String) (own : String) → (conflicts u own ≡ false) ↔ Agrees u own
unfolding conflicts
conflicts_lem none own = (λ h. tt, λ h. refl)
conflicts_lem (some u) own = (λ h. ground (arith, eq_iff u own), λ h. ground (arith, eq_iff u own))

conflicts_with_lem : (u own : Option String) → (conflicts_with u own ≡ false) ↔ AgreesWith u own
unfolding conflicts_with
conflicts_with_lem u none = (λ h. tt, λ h. refl)
conflicts_with_lem u (some own) = conflicts_lem u own

conflict_lem :
    (principal : Principal) (claim : Claim)
    → (conflict principal claim ≡ none) ↔ IsTrusted principal claim
unfolding conflict
conflict_lem p c = (
  λ h. record {
    actor = (conflicts_lem c.untrusted_actor_id p.actor_id).0 (ground arith);
    tenant = (conflicts_lem c.untrusted_tenant_id p.tenant_id).0 (ground arith);
    workspace = (conflicts_lem c.untrusted_workspace_id p.workspace_id).0 (ground arith);
    division = (conflicts_with_lem c.untrusted_division_id p.division_id).0 (ground arith);
    project = (conflicts_with_lem c.untrusted_project_id p.project_id).0 (ground arith);
  },
  λ t.
      rw
        (
          (conflicts_lem c.untrusted_actor_id p.actor_id).1 t.actor,
          (conflicts_lem c.untrusted_tenant_id p.tenant_id).1 t.tenant,
          (conflicts_lem c.untrusted_workspace_id p.workspace_id).1 t.workspace,
          (conflicts_with_lem c.untrusted_division_id p.division_id).1 t.division,
          (conflicts_with_lem c.untrusted_project_id p.project_id).1 t.project,
        )
        refl,
)

judge_lem :
    (p : Principal) (c : Claim)
    → (o : Option String)
    → ((judge p c o).outcome ≡ allowed)
      ↔ ((o ≡ none) × (is_empty p.scopes ≡ false) × (is_allowed (some p) (demand_of p c) ≡ true))
unfolding judge
judge_lem p c (some name) = (λ h. cc, λ h. cc)
judge_lem p c none = elim (Bool-cases (is_empty p.scopes)) [
  | inl bare ↦ rw bare (λ h. cc, λ h. cc)
  | inr scoped ↦ rw scoped (elim (Bool-cases (is_allowed (some p) (demand_of p c))) [
    | inl grant ↦ rw grant (λ h. (refl, refl, refl), λ h. refl)
    | inr refusal ↦ rw refusal (λ h. cc, λ h. cc)
  ])
]

-- What the enforcer asks of a principal for a command.
pub record IsCleared (principal : Principal) (claim : Claim) : Type 0 where
  pub trusted : IsTrusted principal claim
  pub scoped : is_empty principal.scopes ≡ false
  pub permitted : IsPermitted principal (demand_of principal claim)

decided_by :
    (b : Bool) (x y : AuthorizationDecision)
    → x.outcome ≡ denied
    → ((if not b then x else y).outcome ≡ allowed) ↔ ((b ≡ true) × (y.outcome ≡ allowed))
decided_by true x y refused = (λ h. (refl, h), λ h. h.1)
decided_by false x y refused = (λ h. cc, λ h. cc)

cleared_lem :
    (p : Principal) (claim : Claim)
    → ((judge p claim (conflict p claim)).outcome ≡ allowed) ↔ IsCleared p claim
cleared_lem p claim = (
  λ h.
      let (clean, scoped, allows) = (judge_lem p claim (conflict p claim)).0 h in
      record {
        trusted = (conflict_lem p claim).0 clean;
        scoped = scoped;
        permitted = (is_allowed_iff p (demand_of p claim)).0 allows;
      },
  λ cleared. (judge_lem p claim (conflict p claim)).1 (
    (conflict_lem p claim).1 cleared.trusted,
    cleared.scoped,
    (is_allowed_iff p (demand_of p claim)).1 cleared.permitted,
  ),
)

decide_lem :
    (principal : Option Principal) (claim : Claim)
    → ((decide principal claim).outcome ≡ allowed)
      ↔ ((p : Principal) × (principal ≡ some p) × IsCleared p claim)
unfolding decide
decide_lem none claim = (λ h. cc, λ h. cc)
decide_lem (some p) claim =
    let split = decided_by p.active _ (judge p claim (conflict p claim)) refl in
    (
      λ h. (p, refl, (cleared_lem p claim).0 (split.0 h).1),
      λ (q, same, cleared).
          let equal : q ≡ p = ground arith in
          let own = rw equal at cleared in
          split.1 (own.permitted.active, (cleared_lem p claim).1 own),
    )

-- `enforce` allows a command exactly if there is a principal that is active, agrees with every
-- identity that the request supplied (division and project only where the principal has them),
-- has a scope, and is permitted by the policy in its own tenant, organization and workspace.
pub enforce-allowed :
    (principal : Option Principal) (claim : Claim) (now : ℕ) (log : AuditLog)
    → ((enforce principal claim now log).0.outcome ≡ allowed)
      ↔ ((p : Principal) × (principal ≡ some p) × IsCleared p claim)
unfolding enforce
enforce-allowed principal claim now log = decide_lem principal claim
