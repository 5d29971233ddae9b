-- ===== src/Audit/Tests.antt =====
-- The theorem at one log.
use alos_backend.Prelude.{some, [], ◌∷◌}
use alos_backend.Json.{end}
use alos_backend.Audit.{human, AuditEvent, AuditLog, list_events}
use alos_backend.Audit.Isolation.{ListingEnds, list_events_lem}

abbrev event : AuditEvent
event = record {
  event_type = "release.created";
  entity_type = "release";
  entity_id = "r1";
  tenant_id = "t1";
  organization_id = "o1";
  workspace_id = "w1";
  actor_id = "alice";
  correlation_id = "c1";
  outcome = "DRAFT";
  occurred_at = 1;
  actor_kind = human;
  reason = "new";
  metadata = end;
}

abbrev log : AuditLog
log = event ∷ (record event { tenant_id = "t2" } ∷ [])

list_events_lem_example : ListingEnds "t1" (some "w1") 10 (list_events "t1" (some "w1") 10 log)
list_events_lem_example = list_events_lem "t1" (some "w1") 10 log
