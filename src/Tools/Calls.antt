-- ===== src/Tools/Calls.antt =====
-- The calls that change the registry, so that a history of calls is a list.
use alos_backend.Prelude.{ℕ, String, List, [], ◌∷◌, Bool, false, ◌||◌, ◌==◌, string_eq, pure, ◌>>◌}
use alos_backend.Tools.State.{ToolRegistration, ToolRegistry}
use alos_backend.Tools.Registry
use alos_backend.Tools.Registry.{Operation}

pub data ToolCall (W : Type 0) : Type 0 where
  register : ToolRegistration W → ToolCall W
  register_draft : ToolRegistration W → String → String → ToolCall W
  approve activate suspend retire : String → String → String → ToolCall W
  activate_kill_switch clear_kill_switch : String → String → String → String → ToolCall W

module _ {W : Type 0} where
  unfoldable pub call : ToolCall W → ℕ → Operation W (ToolRegistration W)
  call (register tool) now = do Registry.register tool; pure tool
  call (register_draft tool actor correlation) now =
      Registry.register_draft tool actor correlation now
  call (approve id actor correlation) now = Registry.approve id actor correlation now
  call (activate id actor correlation) now = Registry.activate id actor correlation now
  call (suspend id actor correlation) now = Registry.suspend id actor correlation now
  call (retire id actor correlation) now = Registry.retire id actor correlation now
  call (activate_kill_switch id actor reason correlation) now =
      Registry.activate_kill_switch id actor reason correlation now
  call (clear_kill_switch id actor reason correlation) now =
      Registry.clear_kill_switch id actor reason correlation now

  unfoldable pub calls : List (ToolCall W × ℕ) → ToolRegistry W → ToolRegistry W
  calls [] s = s
  calls ((c, now) ∷ rest) s = calls rest (call c now s).1

  -- `register` is asked for a tool of that id.
  abbrev pub brings : ToolCall W → String → Bool
  brings (register tool) id = id == tool.tool_id
  brings _ id = false

  unfoldable pub is_brought : List (ToolCall W × ℕ) → String → Bool
  is_brought [] id = false
  is_brought ((c, now) ∷ rest) id = brings c id || is_brought rest id
