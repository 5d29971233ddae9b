-- ===== src/Tools/Proper.antt =====
-- What is kept by every write of the registry.
use alos_backend.Prelude.{
  ℕ, String, ◌≡◌, refl, inl, inr, some, Bool, true, false, ◌==◌, string_eq, is_given, ◌&&◌, arith,
  Bool-cases,
}
use alos_backend.Prelude.Dict.{get, get-insert}
use alos_backend.Tools.State.{
  ToolLifecycleState, draft, approved, active, suspended, retired, lifecycle_eq, lifecycle_iff,
  ToolRegistration, ToolRegistry,
}
use alos_backend.Tools.Registry.{
  is_value, has_sink, record_tool, settle, approved_tool, in_state, retired_tool, switched,
}

-- approved, and so far not retired
abbrev pub is_past_approval : ToolLifecycleState → Bool
is_past_approval draft = false
is_past_approval approved = true
is_past_approval active = true
is_past_approval suspended = true
is_past_approval retired = false

module _ {W : Type 0} where
  -- Someone other than the maker approved the tool.
  abbrev pub IsChecked : ToolRegistration W → Type 0
  IsChecked tool =
      (checker : String) × (tool.approved_by ≡ some checker)
      × (is_value tool.owner_actor_id checker ≡ false)

  -- A tool past its approval is checked, and a retired one is not on the list of allowed tools.
  pub record IsProper (tool : ToolRegistration W) : Type 0 where
    pub checked : is_past_approval tool.lifecycle_state ≡ true → IsChecked tool
    pub unlisted : tool.lifecycle_state ≡ retired → tool.allowlisted ≡ false

  -- The tools are proper, but for those of some ids.
  abbrev pub AreProper : (String → Bool) → ToolRegistry W → Type 0
  AreProper brought s =
      (id : String) (tool : ToolRegistration W)
      → get id s.tools ≡ some tool
      → brought id ≡ false
      → IsProper tool

  pub settle-AreProper :
      (brought : String → Bool) (s : ToolRegistry W) (id : String) (tool : ToolRegistration W)
      (actor correlation event_type outcome reason : String) (now : ℕ)
      → (brought id ≡ false → IsProper tool)
      → AreProper brought s
      → AreProper brought (settle id tool actor correlation event_type outcome reason now s).1
  unfolding record_tool
  settle-AreProper brought s id tool actor correlation event_type outcome reason now p h =
      elim (Bool-cases (has_sink s.audit)) [
        | inl sink ↦
            rw sink
              (elim (Bool-cases (
                is_given tool.tenant_id
                && (is_given tool.organization_id && is_given tool.workspace_id))) [
                  | inl context ↦ rw context (λ k other at new. elim (Bool-cases (k == id)) [
                    | inl same ↦
                        (let equal : tool ≡ other = ground (arith, get-insert k id tool s.tools) in
                          let here : k ≡ id = (string_eq.beq_iff k id).0 same in
                          rw equal at (p (rw here at new)))
                    | inr differs ↦ h k other (rw (get-insert k id tool s.tools, differs) at at) new
                  ])
                  | inr lacking ↦ rw lacking h
                ])
        | inr silent ↦ rw silent h
      ]

  pub draft-IsProper : (tool : ToolRegistration W) → tool.lifecycle_state ≡ draft → IsProper tool
  draft-IsProper tool is_draft = record {
    checked = rw is_draft (λ no_way. cc);
    unlisted = rw is_draft (λ no_way. cc);
  }

  pub approved-IsProper :
      (tool : ToolRegistration W) (actor : String)
      → is_value tool.owner_actor_id actor ≡ false
      → IsProper (approved_tool tool actor)
  unfolding approved_tool
  approved-IsProper tool actor stranger = record {
    checked = λ past. (actor, refl, stranger);
    unlisted = λ no_way. cc;
  }

  -- moves among the states past approval
  pub moved-IsProper :
      (tool : ToolRegistration W) (state : ToolLifecycleState)
      → is_past_approval tool.lifecycle_state ≡ true
      → is_past_approval state ≡ true
      → IsProper tool
      → IsProper (in_state tool state)
  unfolding in_state
  moved-IsProper tool state past still p = record {
    checked = λ _. p.checked past;
    unlisted = λ is_retired. (let wrong = rw is_retired at still in cc);
  }

  pub retired-IsProper : (tool : ToolRegistration W) → IsProper (retired_tool tool)
  unfolding retired_tool
  retired-IsProper tool = record { checked = λ no_way. cc; unlisted = λ _. refl }

  pub switched-IsProper :
      (tool : ToolRegistration W) (on : Bool) → IsProper tool → IsProper (switched tool on)
  unfolding switched
  switched-IsProper tool on p = record { checked = p.checked; unlisted = p.unlisted }

  pub state-past :
      (tool : ToolRegistration W) (state : ToolLifecycleState)
      → (tool.lifecycle_state == state) ≡ true
      → is_past_approval state ≡ true
      → is_past_approval tool.lifecycle_state ≡ true
  state-past tool state is past = rw ((lifecycle_iff tool.lifecycle_state state).0 is) past
