-- ===== src/Tools/Executions.antt =====
-- When an execution reaches the world outside.
use alos_backend.Prelude.{
  ℕ, String, ◌≡◌, refl, ◌⊎◌, inl, inr, Option, none, some, [], ◌∷◌, ◌++◌, Bool, false, string_eq,
  Key3, key3_eq, Bool-cases, Option-cases, ◌==◌,
}
use alos_backend.Prelude.Dict.{Dict, get}
use alos_backend.Authorization.{Principal}
use alos_backend.Tools.State.{ToolRegistration}
use alos_backend.Tools.Requests.{
  ToolRequest, ToolResult, IdempotencyRecord, Immutable, immutable, Validator, Boundary,
}
use alos_backend.Tools.Executor.{
  result_of, audit_record, cache_key, finish, replay_or_run, run_tool, proceed, execute,
}
use alos_backend.Tools.Admission.{Admission, refused, admitted, mismatched, admit}
use alos_backend.Tools.Guards.{IsAdmissible, admit-admitted}

-- what is stored for the idempotency key of a request
abbrev pub stored_for :
    ToolRequest → Option String → Dict Key3 IdempotencyRecord → Option IdempotencyRecord
stored_for request none store = none
stored_for request (some key) store = get (cache_key request key) store

module _ {W : Type 0} where
  finish-world :
      (validator : Validator) (request : ToolRequest) (result : ToolResult) (now : ℕ)
      (b : Boundary W)
      → (finish validator request result now b).1.world ≡ b.world
  finish-world validator request result now b =
      elim (Bool-cases (validator.accepts_result result)) [
        | inl good ↦ rw good refl
        | inr bad ↦ rw bad refl
      ]

  replay-world :
      (validator : Validator) (request : ToolRequest) (tool : ToolRegistration W) (key : Key3)
      (request_digest : String) (existing : IdempotencyRecord) (now : ℕ) (b : Boundary W)
      → (replay_or_run validator request tool key request_digest (some existing) now b).1.world
        ≡ b.world
  unfolding replay_or_run
  replay-world validator request tool key request_digest existing now b =
      elim (Bool-cases (existing.request_digest == request_digest)) [
        | inl same ↦
            rw same
              (elim (Bool-cases (
                validator.accepts_result
                  (result_of request "SUCCESS" (some existing.output) none now))) [
                    | inl good ↦ rw good refl
                    | inr bad ↦ rw bad refl
                  ])
        | inr other ↦ rw other (finish-world validator request _ now b)
      ]

module _ {W : Type 0} (validator : Validator) (digest : Immutable → String) (production : Bool)
    (tools : Dict String (ToolRegistration W)) (request : ToolRequest)
    (principal : Option Principal) (transport : Option String) (now : ℕ) where
  -- All that has to hold before the adapter of a tool is called.
  abbrev pub MayAct : Boundary W → Type 0
  MayAct b =
      (mismatched transport request.execution_context.correlation_id ≡ false)
      × ((tool : ToolRegistration W) × (get request.tool_id tools ≡ some tool)
          × IsAdmissible production request principal tool)
      × (stored_for request request.idempotency_key b.store ≡ none)

  run_tool-world :
      (tool : ToolRegistration W) (key : Option String) (b : Boundary W)
      → ((run_tool validator digest request tool key now b).1.world ≡ b.world)
        ⊎ (stored_for request key b.store ≡ none)
  run_tool-world tool none b = inr refl
  run_tool-world tool (some key) b = elim (Option-cases (get (cache_key request key) b.store)) [
    | inl free ↦ inr free
    | inr (existing, at) ↦ inl (
        rw at (
          replay-world validator request tool (cache_key request key) (digest (immutable request))
            existing now b))
  ]

  proceed-world :
      (a : Admission W) (b : Boundary W)
      → ((proceed validator digest request now a b).1.world ≡ b.world)
        ⊎ (((tool : ToolRegistration W) × (a ≡ admitted tool))
            × (stored_for request request.idempotency_key b.store ≡ none))
  proceed-world (refused status code details) b = inl (finish-world validator request _ now b)
  proceed-world (admitted tool) b = elim (run_tool-world tool request.idempotency_key b) [
    | inl same ↦ inl same
    | inr free ↦ inr ((tool, refl), free)
  ]

  -- An execution leaves the world outside as it was, unless the request names a registered tool
  -- that is allowlisted, active, not killed and ready for production, the request declares its
  -- scopes and permission, the principal is permitted, the input is valid, a required idempotency
  -- key is given, and no result is stored for it.
  pub execute-world :
      (b : Boundary W)
      → ((execute validator digest production tools request principal transport now b).1.world
          ≡ b.world)
        ⊎ MayAct b
  unfolding execute
  execute-world b = elim (Bool-cases (validator.accepts_request request)) [
    | inl valid ↦
        rw valid
          (elim (proceed-world (admit production tools request principal transport)
            (record b { records = b.records ++ audit_record request "REQUESTED" now ∷ [] })) [
              | inl same ↦ inl same
              | inr ((tool, granted), free) ↦
                  (let (correlated, registered, fine) =
                      admit-admitted production tools request principal transport tool granted in
                    inr (correlated, (tool, registered, fine), free))
            ])
    | inr invalid ↦ inl (rw invalid refl)
  ]
