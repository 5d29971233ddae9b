-- ===== src/Memory/Repository.antt =====
-- The methods of `MemoryRepository` and `MemoryService`. The audit event of a call is appended before
-- the next call, as it is where no event loop runs.
use alos_backend.Prelude.{
  ℕ, String, Option, none, some, List, [], ◌∷◌, string_eq, is_blank, is_truthy, if◌then◌else◌, Exec,
  pure, gets, or_raise, raise_if, modify, ◌>>=◌, ◌>>◌,
}
use alos_backend.Prelude.Dict.{get, insert}
use alos_backend.Json.{Json, null, string, array, Items, nil, cons, Fields, end, field, one_text}
use alos_backend.Audit.{human, AuditEvent, append}
use alos_backend.Memory.Records.{
  MemoryStatus, expired, deleted, memory_status_eq, classification_name, MemoryRecord, MemoryError,
  blank_id, not_found, Repository, Formats,
}

abbrev pub Memory : Type 0 → Type 0
Memory A = Exec Repository MemoryError A

abbrev pub text_or : String → Option String → String
text_or fallback none = fallback
text_or fallback (some value) = if is_truthy value then value else fallback

-- `_append_audit`
unfoldable pub memory_event : MemoryRecord → String → String → String → Fields → ℕ → AuditEvent
memory_event memory event_type outcome reason metadata now = record {
  event_type = event_type;
  entity_type = "memory";
  entity_id = memory.memory_id;
  tenant_id = memory.tenant_id;
  organization_id = memory.organization_id;
  workspace_id = memory.workspace_id;
  actor_id = memory.actor_id;
  correlation_id = text_or "unknown" memory.correlation_id;
  outcome = outcome;
  occurred_at = now;
  actor_kind = human;
  reason = reason;
  metadata = metadata;
}

abbrev pub append_audit : AuditEvent → Memory (Unit {0})
append_audit event = modify (λ r. record r { log = append event r.log })

abbrev pub put_memory : String → MemoryRecord → Memory (Unit {0})
put_memory id memory = modify (λ r. record r { store = insert id memory r.store })

abbrev pub json_text : Option String → Json
json_text none = null
json_text (some s) = string s

abbrev pub json_texts : List String → Items
json_texts [] = nil
json_texts (s ∷ rest) = cons (string s) (json_texts rest)

abbrev pub json_time : Formats → Option ℕ → Json
json_time formats none = null
json_time formats (some time) = string (formats.iso time)

unfoldable pub written_metadata : Formats → MemoryRecord → Fields
written_metadata formats memory = field "source_ref" (json_text memory.source_ref) (
    field "evidence_ref" (json_text memory.evidence_ref) (
      field "classification" (string (classification_name memory.classification)) (
        field "scope_refs" (array (json_texts memory.scope_refs))
          (field "expires_at" (json_time formats memory.expires_at) end))))

-- `write`; its assignment to an expired record's status sets what is there
unfoldable pub write : Formats → MemoryRecord → ℕ → Memory MemoryRecord
unfolding written_metadata memory_event
write formats memory now = do
  raise_if (is_blank memory.memory_id) blank_id
  put_memory memory.memory_id memory
  append_audit (
      memory_event memory "memory.record.written" "SUCCESS"
        "Material memory record stored by backend authority." (written_metadata formats memory) now)
  pure memory

-- `get`
unfoldable pub find_memory : String → Memory MemoryRecord
find_memory id = do found ← gets (λ r. get id r.store); or_raise found not_found

abbrev pub withdrawn : MemoryRecord → MemoryStatus → MemoryRecord
withdrawn memory status = record memory { status = status }

unfoldable pub expire : Formats → String → String → ℕ → Memory MemoryRecord
unfolding memory_event
expire formats id reason now = do
  memory ← find_memory id
  put_memory id (withdrawn memory expired)
  append_audit (
      memory_event (record memory { memory_id = id }) "memory.record.expired" "EXPIRED" reason
        (one_text "expires_at" (formats.iso now)) now)
  pure (withdrawn memory expired)

unfoldable pub delete : String → String → ℕ → Memory MemoryRecord
unfolding memory_event
delete id reason now = do
  memory ← find_memory id
  put_memory id (withdrawn memory deleted)
  append_audit (
      memory_event (record memory { memory_id = id }) "memory.record.deleted" "DELETED" reason
        (one_text "status" "DELETED") now)
  pure (withdrawn memory deleted)
