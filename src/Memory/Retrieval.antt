-- ===== src/Memory/Retrieval.antt =====
-- What a principal may retrieve.
use alos_backend.Prelude.{
  ℕ, suc, zero, ◌≤◌, String, ◌≡◌, ap, Option, List, [], ◌∷◌, true, false, string_eq, contains,
  arith,
}
use alos_backend.Prelude.Entries.{All}
use alos_backend.Prelude.Sets.{subset-All}
use alos_backend.Authorization.{Principal, own_assigned}
use alos_backend.Memory.Records.{
  active, memory_status_eq, memory_status_iff, Classification, rank, MemoryRecord, Formats,
}
use alos_backend.Memory.Readings.{
  is_match, is_over, scope_matches, classification_allowed, is_own, parts_differ, first_of_list,
  has_scopes,
}

-- The principal may see the memory at that time.
pub record IsVisible (principal : Principal) (now : ℕ) (memory : MemoryRecord) : Type 0 where
  pub same_tenant : memory.tenant_id ≡ principal.tenant_id
  pub same_organization : memory.organization_id ≡ principal.organization_id
  pub same_workspace : memory.workspace_id ≡ principal.workspace_id
  pub is_active : memory.status ≡ active
  pub not_over : is_over now memory.expires_at ≡ false
  pub has_scope : has_scopes memory.scope_refs ≡ true
  pub scopes : All (λ scope. contains scope principal.scopes ≡ true) memory.scope_refs
  pub not_restricted : rank memory.classification ≤ 2
  pub own_is_internal : principal.data_scope ≡ own_assigned → rank memory.classification ≤ 1
  pub same_division : parts_differ memory.division_id principal.division_id ≡ false
  pub same_project : parts_differ memory.project_id principal.project_id ≡ false

allowed-rank :
    (classification : Classification) (principal : Principal)
    → classification_allowed classification principal ≡ true
    → (rank classification ≤ 2) × (is_own principal.data_scope ≡ true → rank classification ≤ 1)
unfolding classification_allowed
allowed-rank classification principal h = (ground arith, λ own. ground arith)

pub is_match-IsVisible :
    (formats : Formats) (principal : Principal) (query : Option String) (now : ℕ)
    (memory : MemoryRecord)
    → is_match formats principal query now memory ≡ true
    → IsVisible principal now memory
unfolding is_match scope_matches
is_match-IsVisible formats principal query now memory h = record {
  same_tenant = ground (arith, string_eq.beq_iff memory.tenant_id principal.tenant_id);
  same_organization =
      ground (arith, string_eq.beq_iff memory.organization_id principal.organization_id);
  same_workspace = ground (arith, string_eq.beq_iff memory.workspace_id principal.workspace_id);
  is_active = (memory_status_iff memory.status active).0 (ground arith);
  not_over = ground arith;
  has_scope = ground arith;
  scopes = subset-All memory.scope_refs principal.scopes (ground arith);
  not_restricted = (allowed-rank memory.classification principal (ground arith)).0;
  own_is_internal =
      λ own. (allowed-rank memory.classification principal (ground arith)).1 (ap is_own own);
  same_division = ground arith;
  same_project = ground arith;
}

abbrev pub size : List MemoryRecord → ℕ
size [] = 0
size (_ ∷ rest) = suc (size rest)

pub first_of_list-All :
    (P : MemoryRecord → Type 0) (n : ℕ) (memories : List MemoryRecord)
    → All P memories
    → All P (first_of_list n memories)
unfolding first_of_list
first_of_list-All P zero memories h = tt
first_of_list-All P (suc n) [] h = tt
first_of_list-All P (suc n) (memory ∷ rest) h = (h.0, first_of_list-All P n rest h.1)
