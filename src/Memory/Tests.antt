-- ===== src/Memory/Tests.antt =====
-- The theorems at a repository of one memory.
use alos_backend.Prelude.{
  ℕ, ◌≡◌, ◌≢◌, refl, none, some, List, [], ◌∷◌, true, ok, is_blank, is_given, is_subset, contains,
}
use alos_backend.Prelude.Dict.{get, insert}
use alos_backend.Prelude.Entries.{All}
use alos_backend.Prelude.Sorting.{sort_by, insert_sorted}
use alos_backend.Json.{end}
use alos_backend.Authorization.{Principal, division}
use alos_backend.Memory.Records.{
  active, memory_status_beq, confidential, MemoryRecord, Repository, Formats,
}
use alos_backend.Memory.Repository
use alos_backend.Memory.Readings.{
  scope_matches, classification_allowed, parts_differ, query_matches, retrieve, is_match,
  all_matches, first_of_list,
}
use alos_backend.Memory.Histories.{MemoryCall, write, delete, apply, replay, empty}
use alos_backend.Memory.Withdrawal.{withdraws-retrieve}

abbrev formats : Formats
formats = record { iso = λ time. "time"; fold = λ text. text }

abbrev note : MemoryRecord
note = record {
  memory_id = "m1";
  tenant_id = "t1";
  organization_id = "o1";
  workspace_id = "w1";
  division_id = none;
  project_id = none;
  actor_id = "alice";
  scope_refs = "sales" ∷ [];
  classification = confidential;
  content = "a note";
  source_ref = none;
  evidence_ref = none;
  run_id = none;
  correlation_id = none;
  status = active;
  created_at = 3;
  expires_at = some 9;
  metadata = end;
}

abbrev alice : Principal
alice = record {
  actor_id = "alice";
  tenant_id = "t1";
  organization_id = "o1";
  workspace_id = "w1";
  permissions = [];
  scopes = "sales" ∷ [];
  roles = [];
  data_scope = division;
  division_id = none;
  project_id = none;
  active = true;
}

abbrev noted : Repository
noted = apply formats (write note) 4 empty

abbrev other : MemoryRecord
other = record note { memory_id = "m2" }

abbrev both : List (MemoryCall × ℕ)
both = (write note, 4) ∷ (write other, 5) ∷ []

abbrev forgotten : Repository
forgotten = replay formats [] (apply formats (delete "m1" "asked") 6 (replay formats both empty))

other_retrieved : retrieve formats alice none 12 7 forgotten ≡ (ok (other ∷ []), forgotten)
unfolding apply retrieve first_of_list sort_by all_matches insert is_match Repository.write
    scope_matches classification_allowed parts_differ query_matches memory_status_beq is_blank
    is_subset is_given contains insert_sorted replay get Repository.delete Repository.find_memory
other_retrieved = refl

withdraws-retrieve_example : All (λ (memory : MemoryRecord). memory.memory_id ≢ "m1") (other ∷ [])
withdraws-retrieve_example =
    withdraws-retrieve formats both [] "m1" (delete "m1" "asked") 6 alice none 12 7 forgotten
      (other ∷ []) refl tt other_retrieved
