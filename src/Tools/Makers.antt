-- ===== src/Tools/Makers.antt =====
-- Makers and checkers: who approved the tools of a registry.
use alos_backend.Prelude.{
  ℕ, String, refl, ◌≡◌, ◌⊎◌, ◌||◌, Bool, false, beq_refl, inl, inr, List, [], ◌∷◌, true, false,
  ◌==◌, string_eq, is_blank, Bool-cases, Option-cases,
}
use alos_backend.Prelude.Dict.{get, has_key, get-insert}
use alos_backend.Tools.State.{
  draft, approved, active, suspended, retired, lifecycle_eq, lifecycle_iff, ToolRegistration,
  ToolRegistry,
}
use alos_backend.Tools.Registry
use alos_backend.Tools.Registry.{
  is_value, has_sink, record_tool, settle, default_reason, approved_tool, in_state, retired_tool,
  switched,
}
use alos_backend.Tools.Calls.{
  ToolCall, register, brings, is_brought, register_draft, approve, activate, suspend, retire,
  activate_kill_switch, clear_kill_switch, call, calls,
}
use alos_backend.Tools.Proper.{
  AreProper, settle-AreProper, draft-IsProper, approved-IsProper, moved-IsProper, retired-IsProper,
  switched-IsProper, state-past,
}

either_true : (a b : Bool) → (a ≡ true) ⊎ (b ≡ true) → a || b ≡ true
either_true true b h = refl
either_true false b (inl h) = cc
either_true false b (inr h) = h

module _ {W : Type 0} (brought : String → Bool) where
  register_draft-AreProper :
      (s : ToolRegistry W) (tool : ToolRegistration W) (actor correlation : String) (now : ℕ)
      → AreProper brought s
      → AreProper brought (Registry.register_draft tool actor correlation now s).1
  unfolding Registry.register_draft
  register_draft-AreProper s tool actor correlation now h =
      elim (Bool-cases (tool.lifecycle_state == draft)) [
        | inl is_draft ↦ rw is_draft (elim (Bool-cases (is_value tool.owner_actor_id actor)) [
          | inl owner ↦ rw owner (elim (Bool-cases (has_key tool.tool_id s.tools)) [
            | inl taken ↦ rw taken h
            | inr free ↦ rw free (
                settle-AreProper brought s tool.tool_id tool actor correlation _ _ _ now
                  (λ _. draft-IsProper tool ((lifecycle_iff tool.lifecycle_state draft).0 is_draft))
                  h)
          ])
          | inr stranger ↦ rw stranger h
        ])
        | inr other ↦ rw other h
      ]

  approve-AreProper :
      (s : ToolRegistry W) (id actor correlation : String) (now : ℕ)
      → AreProper brought s
      → AreProper brought (Registry.approve id actor correlation now s).1
  unfolding Registry.approve
  approve-AreProper s id actor correlation now h = elim (Option-cases (get id s.tools)) [
    | inl missing ↦ rw missing h
    | inr (tool, at) ↦ rw at (elim (Bool-cases (tool.lifecycle_state == draft)) [
      | inl holds ↦ rw holds (elim (Bool-cases (is_value tool.owner_actor_id actor)) [
        | inl own ↦ rw own h
        | inr stranger ↦ rw stranger (
            settle-AreProper brought s id _ actor correlation _ _ _ now
              (λ _. approved-IsProper tool actor stranger) h)
      ])
      | inr fails ↦ rw fails h
    ])
  ]

  activate-AreProper :
      (s : ToolRegistry W) (id actor correlation : String) (now : ℕ)
      → AreProper brought s
      → AreProper brought (Registry.activate id actor correlation now s).1
  unfolding Registry.activate
  activate-AreProper s id actor correlation now h = elim (Option-cases (get id s.tools)) [
    | inl missing ↦ rw missing h
    | inr (tool, at) ↦ rw at (elim (Bool-cases (tool.lifecycle_state == approved)) [
      | inl holds ↦ rw holds (
          settle-AreProper brought s id _ actor correlation _ _ _ now
            (λ new.
              moved-IsProper tool active (state-past tool approved holds refl) refl
                (h id tool at new))
            h)
      | inr fails ↦ rw fails h
    ])
  ]

  suspend-AreProper :
      (s : ToolRegistry W) (id actor correlation : String) (now : ℕ)
      → AreProper brought s
      → AreProper brought (Registry.suspend id actor correlation now s).1
  unfolding Registry.suspend
  suspend-AreProper s id actor correlation now h = elim (Option-cases (get id s.tools)) [
    | inl missing ↦ rw missing h
    | inr (tool, at) ↦ rw at (elim (Bool-cases (tool.lifecycle_state == active)) [
      | inl holds ↦ rw holds (
          settle-AreProper brought s id _ actor correlation _ _ _ now
            (λ new.
              moved-IsProper tool suspended (state-past tool active holds refl) refl
                (h id tool at new))
            h)
      | inr fails ↦ rw fails h
    ])
  ]

  retire-AreProper :
      (s : ToolRegistry W) (id actor correlation : String) (now : ℕ)
      → AreProper brought s
      → AreProper brought (Registry.retire id actor correlation now s).1
  unfolding Registry.retire
  retire-AreProper s id actor correlation now h = elim (Option-cases (get id s.tools)) [
    | inl missing ↦ rw missing h
    | inr (tool, at) ↦ rw at (elim (Bool-cases (tool.lifecycle_state == retired)) [
      | inl holds ↦ rw holds h
      | inr fails ↦ rw fails (
          settle-AreProper brought s id _ actor correlation _ _ _ now (λ _. retired-IsProper tool)
            h)
    ])
  ]

  activate_kill_switch-AreProper :
      (s : ToolRegistry W) (id actor reason correlation : String) (now : ℕ)
      → AreProper brought s
      → AreProper brought (Registry.activate_kill_switch id actor reason correlation now s).1
  unfolding Registry.activate_kill_switch
  activate_kill_switch-AreProper s id actor reason correlation now h =
      elim (Option-cases (get id s.tools)) [
        | inl missing ↦ rw missing h
        | inr (tool, at) ↦ rw at (elim (Bool-cases (tool.lifecycle_state == active)) [
          | inl holds ↦ rw holds (elim (Bool-cases (is_blank reason)) [
            | inl blank ↦ rw blank h
            | inr given ↦ rw given (
                settle-AreProper brought s id _ actor correlation _ _ _ now
                  (λ new. switched-IsProper tool true (h id tool at new)) h)
          ])
          | inr fails ↦ rw fails h
        ])
      ]

  clear_kill_switch-AreProper :
      (s : ToolRegistry W) (id actor reason correlation : String) (now : ℕ)
      → AreProper brought s
      → AreProper brought (Registry.clear_kill_switch id actor reason correlation now s).1
  unfolding Registry.clear_kill_switch
  clear_kill_switch-AreProper s id actor reason correlation now h =
      elim (Option-cases (get id s.tools)) [
        | inl missing ↦ rw missing h
        | inr (tool, at) ↦ rw at (elim (Bool-cases tool.kill_switch_active) [
          | inl holds ↦ simp holds (elim (Bool-cases (is_blank reason)) [
            | inl blank ↦ rw blank h
            | inr given ↦ rw given (
                settle-AreProper brought s id _ actor correlation _ _ _ now
                  (λ new. switched-IsProper tool false (h id tool at new)) h)
          ])
          | inr fails ↦ simp fails h
        ])
      ]

  register-AreProper :
      (s : ToolRegistry W) (tool : ToolRegistration W)
      → brought tool.tool_id ≡ true
      → AreProper brought s
      → AreProper brought (call (ToolCall.register tool) 0 s).1
  unfolding Registry.register call
  register-AreProper s tool own h = elim (Bool-cases (has_key tool.tool_id s.tools)) [
    | inl taken ↦ rw taken h
    | inr free ↦ rw free (λ id other at new. elim (Bool-cases (id == tool.tool_id)) [
      | inl same ↦
          (let here : id ≡ tool.tool_id = (string_eq.beq_iff id tool.tool_id).0 same in
            let wrong = rw here at new in cc)
      | inr differs ↦ h id other (rw (get-insert id tool.tool_id tool s.tools, differs) at at) new
    ])
  ]

  call-AreProper :
      (s : ToolRegistry W) (c : ToolCall W) (now : ℕ)
      → ((id : String) → brings c id ≡ true → brought id ≡ true)
      → AreProper brought s
      → AreProper brought (call c now s).1
  unfolding call
  call-AreProper s (register tool) now own h =
      register-AreProper s tool (own tool.tool_id (beq_refl tool.tool_id)) h
  call-AreProper s (register_draft tool actor c) now own h =
      register_draft-AreProper s tool actor c now h
  call-AreProper s (approve id actor c) now own h = approve-AreProper s id actor c now h
  call-AreProper s (activate id actor c) now own h = activate-AreProper s id actor c now h
  call-AreProper s (suspend id actor c) now own h = suspend-AreProper s id actor c now h
  call-AreProper s (retire id actor c) now own h = retire-AreProper s id actor c now h
  call-AreProper s (activate_kill_switch id actor reason c) now own h =
      activate_kill_switch-AreProper s id actor reason c now h
  call-AreProper s (clear_kill_switch id actor reason c) now own h =
      clear_kill_switch-AreProper s id actor reason c now h

  kept-AreProper :
      (h : List (ToolCall W × ℕ)) (s : ToolRegistry W)
      → ((id : String) → is_brought h id ≡ true → brought id ≡ true)
      → AreProper brought s
      → AreProper brought (calls h s)
  unfolding calls is_brought
  kept-AreProper [] s own p = p
  kept-AreProper ((c, now) ∷ rest) s own p =
      kept-AreProper rest (call c now s).1
        (λ id later. own id (either_true (brings c id) (is_brought rest id) (inr later)))
        (call-AreProper s c now
          (λ id here. own id (either_true (brings c id) (is_brought rest id) (inl here))) p)

-- After any history of calls, from a registry where it holds (as in one without tools), each tool of
-- which no call of the history asked `register` for the id is proper: if it is approved, active or
-- suspended, it was approved by someone who is not its owner, and if it is retired, it is off the
-- list of allowed tools.
pub calls-AreProper :
    {W : Type 0} (h : List (ToolCall W × ℕ)) (s : ToolRegistry W)
    → AreProper (λ _. false) s
    → AreProper (is_brought h) (calls h s)
calls-AreProper h s p =
    kept-AreProper (is_brought h) h s (λ id same. same) (λ id tool at _. p id tool at refl)
