-- ===== src/Memory/Readings.antt =====
-- The readings of `MemoryRepository` and `MemoryService`.
use Prim.Native.Char.{Char, code}
use alos_backend.Prelude.{
  ℕ, suc, zero, String, Option, none, some, List, [], ◌∷◌, Bool, true, false, not, ◌&&◌, ◌||◌, ◌==◌,
  string_eq, leb, ltb, is_blank, is_given, is_truthy, or_else, join, is_subset, if◌then◌else◌, pure,
  gets, raise_if, ◌>>=◌, ◌>>◌,
}
use alos_backend.Prelude.Dict.{values}
use alos_backend.Prelude.Sorting.{sort_by}
use alos_backend.Authorization.{Principal, DataScope, company, division, project, own_assigned}
use alos_backend.Memory.Records.{
  active, memory_status_eq, Classification, rank, MemoryRecord, Freshness, current, stale,
  MemoryEvidenceBundle, inactive_principal, outside_boundary, Formats,
}
use alos_backend.Memory.Repository.{Memory, text_or, find_memory}

abbrev pub has_scopes : List String → Bool
has_scopes [] = false
has_scopes (_ ∷ _) = true

-- `_scope_matches`
unfoldable pub scope_matches : MemoryRecord → Principal → Bool
scope_matches memory principal =
    has_scopes memory.scope_refs && is_subset memory.scope_refs principal.scopes

abbrev pub is_own : DataScope → Bool
is_own company = false
is_own division = false
is_own project = false
is_own own_assigned = true

-- `_classification_allowed`
unfoldable pub classification_allowed : Classification → Principal → Bool
classification_allowed classification principal =
    if is_own principal.data_scope
    then leb (rank classification) 1
    else if is_given principal.project_id
    then leb (rank classification) 1
    else leb (rank classification) 2

-- `record.division_id and principal.division_id and record.division_id != principal.division_id`
unfoldable pub parts_differ : Option String → Option String → Bool
parts_differ none own = false
parts_differ (some part) none = false
parts_differ (some part) (some own) = is_truthy part && (is_truthy own && not (part == own))

abbrev pub is_over : ℕ → Option ℕ → Bool
is_over now none = false
is_over now (some time) = leb time now

abbrev pub same_char : Char → Char → Bool
same_char c d = leb (code c) (code d) && leb (code d) (code c)

abbrev pub begins : String → String → Bool
begins String.[] s = true
begins (String.◌∷◌ c needle) String.[] = false
begins (String.◌∷◌ c needle) (String.◌∷◌ d s) = same_char c d && begins needle s

-- `needle in haystack`
unfoldable pub is_part : String → String → Bool
is_part needle String.[] = begins needle String.[]
is_part needle (String.◌∷◌ c s) = begins needle (String.◌∷◌ c s) || is_part needle s

abbrev pub spaced : String → String → String
spaced a b = join a (join " " b)

-- `_query_matches`
unfoldable pub query_matches : Formats → MemoryRecord → String → Bool
unfolding is_part
query_matches formats memory query = is_part (formats.fold query) (
    formats.fold (
      spaced memory.content (
        spaced (text_or "" memory.source_ref)
          (spaced (text_or "" memory.evidence_ref) memory.memory_id))))

abbrev pub misses_query : Formats → MemoryRecord → Option String → Bool
misses_query formats memory none = false
misses_query formats memory (some query) =
    is_truthy query && (not (is_blank query) && not (query_matches formats memory query))

-- whether the loop of `retrieve` keeps the record
unfoldable pub is_match : Formats → Principal → Option String → ℕ → MemoryRecord → Bool
is_match formats principal query now memory =
    ((memory.tenant_id == principal.tenant_id
        && memory.organization_id == principal.organization_id)
      && (memory.workspace_id == principal.workspace_id
          && (memory.status == active && not (is_over now memory.expires_at))))
    && ((scope_matches memory principal && classification_allowed memory.classification principal)
        && (not (parts_differ memory.division_id principal.division_id)
            && (not (parts_differ memory.project_id principal.project_id)
                && not (misses_query formats memory query))))

unfoldable pub all_matches :
    Formats → Principal → Option String → ℕ → List MemoryRecord → List MemoryRecord
all_matches formats principal query now [] = []
all_matches formats principal query now (memory ∷ rest) =
    let kept = all_matches formats principal query now rest in
    if is_match formats principal query now memory then memory ∷ kept else kept

-- newest first
abbrev pub not_older_than : MemoryRecord → MemoryRecord → Bool
not_older_than a b = leb b.created_at a.created_at

-- `matches[:limit]`, for a limit that is not negative
unfoldable pub first_of_list : ℕ → List MemoryRecord → List MemoryRecord
first_of_list zero memories = []
first_of_list (suc n) [] = []
first_of_list (suc n) (memory ∷ rest) = memory ∷ first_of_list n rest

unfoldable pub retrieve : Formats → Principal → Option String → ℕ → ℕ → Memory (List MemoryRecord)
retrieve formats principal query limit now = do
  raise_if (not principal.active) inactive_principal
  all ← gets (λ r. values r.store)
  pure (first_of_list limit (sort_by not_older_than (all_matches formats principal query now all)))

abbrev pub given_list : Option String → List String
given_list none = []
given_list (some s) = if is_truthy s then s ∷ [] else []

abbrev pub freshness_at : ℕ → Option ℕ → Freshness
freshness_at now none = current
freshness_at now (some time) = if ltb now time then current else stale

unfoldable pub build_evidence_bundle :
    String → Option String → Option String → ℕ → Memory MemoryEvidenceBundle
build_evidence_bundle id run_id correlation_id now = do
  memory ← find_memory id
  pure (record {
    memory_refs = memory.memory_id ∷ [];
    source_refs = given_list memory.source_ref;
    evidence_refs = given_list memory.evidence_ref;
    run_id = or_else run_id memory.run_id;
    correlation_id = or_else correlation_id memory.correlation_id;
    classification = memory.classification;
    freshness = freshness_at now memory.expires_at;
  })

-- `MemoryService.build_evidence_bundle`
unfoldable pub build_authorized_bundle :
    String → Principal → Option String → Option String → ℕ → Memory MemoryEvidenceBundle
unfolding build_evidence_bundle
build_authorized_bundle id principal run_id correlation_id now = do
  memory ← find_memory id
  raise_if
      (not (memory.tenant_id == principal.tenant_id)
        || not (memory.workspace_id == principal.workspace_id))
      outside_boundary
  build_evidence_bundle id run_id correlation_id now
