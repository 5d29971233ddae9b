-- ===== src/Tools/Replays.antt =====
-- A request whose idempotency key has a result.
use alos_backend.Prelude.{
  ℕ, String, ◌≡◌, refl, sym, ap, ◌∙◌, key3_iff, inl, inr, Option, none, some, Bool, true, false,
  string_eq, key3_eq, arith, Bool-cases, Option-cases, ◌==◌, beq_refl, Result, ok, err, continue,
}
use alos_backend.Prelude.Dict.{Dict, get, get-insert}
use alos_backend.Json.{Json}
use alos_backend.Authorization.{Principal}
use alos_backend.Tools.State.{ToolRegistration, AdapterEnd, timed_out, failed, returned}
use alos_backend.Tools.Requests.{
  ToolRequest, ToolFault, ToolResult, ToolExecutionOutcome, IdempotencyRecord, Immutable, immutable,
  Validator, Boundary, ExecutionError,
}
use alos_backend.Tools.Admission.{Admission, refused, admitted, admit}
use alos_backend.Tools.Executor.{
  result_of, fault, cache_key, conclude, replay_or_run, run_tool, proceed, put_record,
  execute_adapter, remember, execute,
}

-- The record of a result with this output.
abbrev pub record_of : (Immutable → String) → ToolRequest → Json → IdempotencyRecord
record_of digest request output = record {
  request_digest = digest (immutable request);
  output = output;
}

abbrev ended : String → ToolRequest → Option Json → Option ToolFault → ℕ → ToolResult
ended status request output error now = result_of request status output error now

abbrev failure : String → ToolRequest → Bool → ToolFault
failure code request retryable = fault code request.execution_context.correlation_id retryable none

module _ {W : Type 0} (validator : Validator) (digest : Immutable → String) where
  -- An outcome with an output is stored under the key.
  abbrev pub IsStored :
      ToolRequest → String → Result ExecutionError ToolExecutionOutcome × Boundary W → Type 0
  IsStored request key (ok outcome, b) =
      (output : Json)
      → outcome.result.output ≡ some output
      → get (cache_key request key) b.store ≡ some (record_of digest request output)
  IsStored request key (err e, b) = Unit

  remembered :
      (request : ToolRequest) (tool : ToolRegistration W) (key : String) (now : ℕ)
      (end : AdapterEnd) (b : Boundary W)
      → get (cache_key request key) b.store ≡ none
      → IsStored request key (
          continue
            (λ (o : ToolExecutionOutcome).
              remember (cache_key request key) (digest (immutable request)) o o.result.output)
            (conclude validator request now end b))
  unfolding put_record result_of fault
  remembered request tool key now timed_out b free =
      elim (Bool-cases (
        validator.accepts_result
          (ended "TIMEOUT" request none (some (failure "TOOL_TIMEOUT" request true)) now))) [
            | inl valid ↦ rw valid (λ output wrong. cc)
            | inr invalid ↦ rw invalid tt
          ]
  remembered request tool key now failed b free =
      elim (Bool-cases (
        validator.accepts_result (
          ended "FAILED" request none (some (failure "TOOL_EXECUTION_FAILED" request false))
            now))) [ inl valid ↦ rw valid (λ output wrong. cc) | inr invalid ↦ rw invalid tt ]
  remembered request tool key now (returned json) b free =
      elim (Bool-cases (validator.accepts_result (ended "SUCCESS" request (some json) none now))) [
        | inr invalid ↦ rw invalid tt
        | inl valid ↦
            rw (valid, free)
              (λ output same.
                let equal : json ≡ output = ground arith in
                let own = (key3_iff (cache_key request key) (cache_key request key)).1 refl in
                get-insert (cache_key request key) (cache_key request key) _ b.store
                ∙ rw (own, equal) refl)
      ]

  run_tool-IsStored :
      (request : ToolRequest) (tool : ToolRegistration W) (key : String) (now : ℕ) (b : Boundary W)
      → IsStored request key (run_tool validator digest request tool (some key) now b)
  unfolding replay_or_run execute_adapter result_of fault
  run_tool-IsStored request tool key now b =
      elim (Option-cases (get (cache_key request key) b.store)) [
        | inl free ↦ rw free (
            let call = tool.adapter.execute request.arguments request.execution_context b.world in
            remembered request tool key now call.0 (record b { world = call.1 }) free)
        | inr (existing, at) ↦
            rw at (elim (Bool-cases (existing.request_digest == digest (immutable request))) [
              | inl same ↦
                  elim (Bool-cases (
                    validator.accepts_result
                      (ended "SUCCESS" request (some existing.output) none now))) [
                        | inr invalid ↦ rw (same, invalid) tt
                        | inl valid ↦
                            rw (same, valid)
                              (λ output equal.
                                let old : existing.output ≡ output = ground arith in
                                let mark : existing.request_digest ≡ digest (immutable request) =
                                  (string_eq.beq_iff existing.request_digest
                                      (digest (immutable request))).0
                                    same in
                                at ∙ rw (sym old, sym mark) refl)
                      ]
              | inr other ↦
                  elim (Bool-cases (
                    validator.accepts_result (
                      ended "REJECTED" request none
                        (some (failure "IDEMPOTENCY_CONFLICT" request false)) now))) [
                          | inl valid ↦ rw (other, valid) (λ output wrong. cc)
                          | inr invalid ↦ rw (other, invalid) tt
                        ]
            ])
      ]

  keyed :
      (request : ToolRequest) (tool : ToolRegistration W) (given : Option String) (key : String)
      (now : ℕ) (b : Boundary W)
      → given ≡ some key
      → IsStored request key (run_tool validator digest request tool given now b)
  keyed request tool none key now b wrong = cc
  keyed request tool (some other) key now b same =
      let equal : other ≡ key = ground arith in rw equal (run_tool-IsStored request tool key now b)

  proceed-IsStored :
      (request : ToolRequest) (key : String) (now : ℕ) (a : Admission W) (b : Boundary W)
      → request.idempotency_key ≡ some key
      → IsStored request key (proceed validator digest request now a b)
  unfolding result_of fault
  proceed-IsStored request key now (refused status code details) b given =
      elim (Bool-cases (
        validator.accepts_result (
          ended status request none
            (some (fault code request.execution_context.correlation_id false details)) now))) [
              | inl valid ↦ rw valid (λ output wrong. cc)
              | inr invalid ↦ rw invalid tt
            ]
  proceed-IsStored request key now (admitted tool) b given =
      keyed request tool request.idempotency_key key now b given

  -- What a replay gives: it leaves the world and the store as they were, and if the validator
  -- accepts the request and the result with the stored output, that is the result.
  abbrev pub Replays :
      ToolRequest
      → Json
      → ℕ
      → Boundary W
      → Result ExecutionError ToolExecutionOutcome × Boundary W
      → Type 0
  Replays request output now b x =
      (x.1.world ≡ b.world)
      × (x.1.store ≡ b.store)
      × (validator.accepts_request request ≡ true
          → validator.accepts_result (result_of request "SUCCESS" (some output) none now) ≡ true
          → (outcome : ToolExecutionOutcome) × (x.0 ≡ ok outcome)
            × (outcome.result ≡ result_of request "SUCCESS" (some output) none now))

  replayed :
      (request : ToolRequest) (tool : ToolRegistration W) (given : Option String) (key : String)
      (output : Json) (now : ℕ) (b : Boundary W)
      → given ≡ some key
      → get (cache_key request key) b.store ≡ some (record_of digest request output)
      → Replays request output now b (run_tool validator digest request tool given now b)
  unfolding replay_or_run
  replayed request tool none key output now b wrong at = cc
  replayed request tool (some other) key output now b same at =
      let equal : other ≡ key = ground arith in
      let mine = beq_refl (digest (immutable request)) in
      rw equal
        (elim (Bool-cases
          (validator.accepts_result (ended "SUCCESS" request (some output) none now))) [
            | inl valid ↦ rw (at, mine, valid) (refl, refl, λ _ _. (_, refl, refl))
            | inr invalid ↦ rw (at, mine, invalid) (refl, refl, λ _ valid. cc)
          ])

  proceed-Replays :
      (request : ToolRequest) (key : String) (output : Json) (now : ℕ) (a : Admission W)
      (tool : ToolRegistration W) (b : Boundary W)
      → a ≡ admitted tool
      → request.idempotency_key ≡ some key
      → get (cache_key request key) b.store ≡ some (record_of digest request output)
      → Replays request output now b (proceed validator digest request now a b)
  proceed-Replays request key output now (refused status code details) tool b wrong given at = cc
  proceed-Replays request key output now (admitted found) tool b go given at =
      replayed request found request.idempotency_key key output now b given at

  execute-IsStored :
      (production : Bool) (tools : Dict String (ToolRegistration W)) (request : ToolRequest)
      (principal : Option Principal) (transport : Option String) (now : ℕ) (key : String)
      (b : Boundary W)
      → request.idempotency_key ≡ some key
      → IsStored request key
          (execute validator digest production tools request principal transport now b)
  unfolding execute
  execute-IsStored production tools request principal transport now key b given =
      elim (Bool-cases (validator.accepts_request request)) [
        | inr invalid ↦ rw invalid tt
        | inl valid ↦ rw valid (
            proceed-IsStored request key now (admit production tools request principal transport) _
              given)
      ]

  same_record :
      (request again : ToolRequest) (key : String) (output : Json) (b : Boundary W)
      → immutable again ≡ immutable request
      → get (cache_key request key) b.store ≡ some (record_of digest request output)
      → get (cache_key again key) b.store ≡ some (record_of digest again output)
  unfolding immutable
  same_record request again key output b same at =
      ap (λ (i : Immutable). get (i.tenant_id, i.tool_id, key) b.store) same
      ∙ (at
          ∙ ap (λ (i : Immutable). some (record { request_digest = digest i; output = output }))
              (sym same))

  -- Once an execution of a request with an idempotency key gave an output, executing a request with
  -- the same key and the same immutable part, wherever it is admitted, changes neither the world
  -- outside nor the store; and if the validator accepts that request, and the result of status
  -- SUCCESS with that output, then this is the result.
  pub execute-again :
      (production production' : Bool) (tools tools' : Dict String (ToolRegistration W))
      (request again : ToolRequest) (principal principal' : Option Principal)
      (transport transport' : Option String) (now later : ℕ) (key : String) (b b' : Boundary W)
      (outcome : ToolExecutionOutcome) (output : Json) (tool : ToolRegistration W)
      → execute validator digest production tools request principal transport now b
        ≡ (ok outcome, b')
      → outcome.result.output ≡ some output
      → request.idempotency_key ≡ some key
      → again.idempotency_key ≡ some key
      → immutable again ≡ immutable request
      → admit production' tools' again principal' transport' ≡ admitted tool
      → Replays again output later b'
          (execute validator digest production' tools' again principal' transport' later b')
  unfolding execute
  execute-again production production' tools tools' request again principal principal' transport
        transport' now later key b b' outcome output tool first gave given given' same go =
      let stored = execute-IsStored production tools request principal transport now key b given in
      let kept = (rw first at stored) output gave in
      let repeated =
        proceed-Replays again key output later _ tool _ go given'
          (same_record request again key output b' same kept) in
      elim (Bool-cases (validator.accepts_request again)) [
        | inl valid ↦ rw valid (repeated.0, repeated.1, λ _ fits. repeated.2 valid fits)
        | inr invalid ↦ rw invalid (refl, refl, λ valid _. cc)
      ]
