-- ===== src/Tools/Guards.antt =====
-- What the checks before the adapter ask of a tool and a request.
use alos_backend.Prelude.{
  String, ◌≡◌, refl, ap, ◌∙◌, inl, inr, Option, none, some, Bool, true, false, string_eq, contains,
  is_subset, arith, Bool-cases, Option-cases,
}
use alos_backend.Prelude.Dict.{Dict, get}
use alos_backend.Authorization.{Principal, is_allowed}
use alos_backend.Authorization.Facts.{IsPermitted, is_allowed_iff}
use alos_backend.Tools.State.{active, lifecycle_eq, lifecycle_iff, ToolRegistration}
use alos_backend.Tools.Requests.{ToolRequest}
use alos_backend.Tools.Admission.{
  admitted, mismatched, lacks_key, demand_for, accept_input, inspect, inspect_found, admit,
}

module _ {W : Type 0} where
  pub record IsAdmissible (production : Bool) (request : ToolRequest) (principal : Option Principal)
      (tool : ToolRegistration W) : Type 0 where
    pub allowlisted : tool.allowlisted ≡ true
    pub active_tool : tool.lifecycle_state ≡ active
    pub not_killed : tool.kill_switch_active ≡ false
    pub production_ready : production ≡ true → tool.production_enabled ≡ true
    pub scopes : is_subset tool.required_scopes request.execution_context.scope_refs ≡ true
    pub permission :
        contains tool.required_permission request.execution_context.permission_refs ≡ true
    pub someone :
        (p : Principal) × (principal ≡ some p)
        × IsPermitted p (demand_for request tool.required_permission tool.required_scopes)
    pub input : tool.adapter.validate_arguments request.arguments ≡ none
    pub key : lacks_key tool.idempotency_policy request.idempotency_key ≡ false

  allowed-someone :
      (principal : Option Principal) (request : ToolRequest) (tool : ToolRegistration W)
      → is_allowed principal (demand_for request tool.required_permission tool.required_scopes)
        ≡ true
      → (p : Principal) × (principal ≡ some p)
        × IsPermitted p (demand_for request tool.required_permission tool.required_scopes)
  unfolding is_allowed
  allowed-someone none request tool h = cc
  allowed-someone (some p) request tool h = (p, refl, (is_allowed_iff p _).0 h)

  accept_input-admitted :
      (request : ToolRequest) (tool other : ToolRegistration W) (o : Option String)
      → accept_input request tool o ≡ admitted other
      → (o ≡ none)
        × (lacks_key tool.idempotency_policy request.idempotency_key ≡ false)
        × (tool ≡ other)
  unfolding accept_input
  accept_input-admitted request tool other (some reason) h = cc
  accept_input-admitted request tool other none h =
      elim (Bool-cases (lacks_key tool.idempotency_policy request.idempotency_key)) [
        | inl lacks ↦ (let wrong = rw lacks at h in cc)
        | inr has ↦ (let same = rw has at h in (refl, has, cc))
      ]

  inspect-admitted :
      (production : Bool) (request : ToolRequest) (principal : Option Principal)
      (tool other : ToolRegistration W)
      → inspect production request principal tool ≡ admitted other
      → IsAdmissible production request principal tool × (tool ≡ other)
  unfolding inspect
  inspect-admitted production request principal tool other h =
      let last : accept_input request tool (tool.adapter.validate_arguments request.arguments)
          ≡ admitted other =
        ground arith in
      let (input, key, same) = accept_input-admitted request tool other _ last in
      (
        record {
          allowlisted = ground arith;
          active_tool = ground (arith, lifecycle_iff tool.lifecycle_state active);
          not_killed = ground arith;
          production_ready = λ p. ground arith;
          scopes = ground arith;
          permission = ground arith;
          someone = allowed-someone principal request tool (ground arith);
          input = input;
          key = key;
        },
        same,
      )

  -- A request is admitted only with a tool that is registered under its name and admissible, and
  -- where the correlation identifiers do not differ.
  pub admit-admitted :
      (production : Bool) (tools : Dict String (ToolRegistration W)) (request : ToolRequest)
      (principal : Option Principal) (transport : Option String) (tool : ToolRegistration W)
      → admit production tools request principal transport ≡ admitted tool
      → (mismatched transport request.execution_context.correlation_id ≡ false)
        × (get request.tool_id tools ≡ some tool)
        × IsAdmissible production request principal tool
  unfolding admit
  admit-admitted production tools request principal transport tool h =
      let same : mismatched transport request.execution_context.correlation_id ≡ false =
        ground arith in
      let h1 : inspect_found production request principal (get request.tool_id tools)
          ≡ admitted tool =
        ground arith in
      elim (Option-cases (get request.tool_id tools)) [
        | inl missing ↦ (let wrong = rw missing at h1 in cc)
        | inr (found, at) ↦
            (let h2 = rw at at h1 in
              let (fine, equal) = inspect-admitted production request principal found tool h2 in
              (same, at ∙ ap some equal, rw equal at fine))
      ]
