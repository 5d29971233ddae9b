-- ===== src/Registry/Listing.antt =====
-- The readings of `VersionedContractRegistry` that list its versions.
use Prim.Native.Nat.{compare, Ordering}
use alos_backend.Prelude.{
  String, Option, none, some, List, [], ◌∷◌, Bool, true, not, ◌&&◌, ◌||◌, ◌==◌, string_eq, codes,
  if◌then◌else◌, Result, ok, err, pure, raise, gets, or_raise, ◌>>=◌,
}
use alos_backend.Prelude.Comparing.{compare_lists, at_most, first_of}
use alos_backend.Prelude.Sorting.{sort_by}
use alos_backend.Prelude.Dict.{values}
use alos_backend.Authorization.{Principal}
use alos_backend.Registry.State.{
  active, registry_state_eq, RegistryEntry, DefinitionError, principal_required, invalid_version,
  subject_not_found, not_a_list, Kind, Registry,
}
use alos_backend.Registry.Version.{VersionKey, semver}
use alos_backend.Registry.Precedence.{compare_versions}
use alos_backend.Registry.Versions.{Method}
use alos_backend.Registry.Authority.{from_entry, authorize, RegistryAuthorityView}

-- an entry with the version of its sort key
pub record Keyed : Type 0 where
  pub entry : RegistryEntry
  pub key : VersionKey

abbrev pub cons_keyed :
    RegistryEntry → Option VersionKey → Option (List Keyed) → Option (List Keyed)
cons_keyed entry none found = none
cons_keyed entry (some key) none = none
cons_keyed entry (some key) (some found) = some (record { entry = entry; key = key } ∷ found)

unfoldable pub with_keys : List RegistryEntry → Option (List Keyed)
with_keys [] = some []
with_keys (entry ∷ rest) = cons_keyed entry (semver entry.version) (with_keys rest)

-- `(item.subject_id, self._semver(item.version))`
abbrev pub compare_keyed : Keyed → Keyed → Ordering
compare_keyed a b =
    first_of (compare_lists compare (codes a.entry.subject_id) (codes b.entry.subject_id))
      (compare_versions a.key b.key)

abbrev pub sorts_before : Keyed → Keyed → Bool
sorts_before a b = at_most (compare_keyed a b)

abbrev pub entries_of : List Keyed → List RegistryEntry
entries_of [] = []
entries_of (keyed ∷ rest) = keyed.entry ∷ entries_of rest

-- `sorted(entries, key=…)`, where each version has a key
abbrev pub sorted_entries : List RegistryEntry → Method (List RegistryEntry)
sorted_entries entries = do
  keyed ← or_raise (with_keys entries) invalid_version
  pure (entries_of (sort_by sorts_before keyed))

abbrev pub is_asked : Option String → String → Bool
is_asked none subject = true
is_asked (some asked) subject = subject == asked

unfoldable pub in_context : String → String → String → Option String → RegistryEntry → Bool
in_context tenant_id organization_id workspace_id subject entry =
    entry.tenant_id == tenant_id
    && (entry.organization_id == organization_id
        && (entry.workspace_id == workspace_id && is_asked subject entry.subject_id))

unfoldable pub entries_in :
    String → String → String → Option String → List RegistryEntry → List RegistryEntry
entries_in t o w subject [] = []
entries_in t o w subject (entry ∷ rest) =
    let kept = entries_in t o w subject rest in
    if in_context t o w subject entry then entry ∷ kept else kept

unfoldable pub list_entries : String → String → String → Option String → Method (List RegistryEntry)
list_entries tenant_id organization_id workspace_id subject = do
  all ← gets (λ r. values r.entries)
  sorted_entries (entries_in tenant_id organization_id workspace_id subject all)

abbrev pub versions_of : List RegistryEntry → List String
versions_of [] = []
versions_of (entry ∷ rest) = entry.version ∷ versions_of rest

-- `versions`
unfoldable pub list_versions : String → String → String → String → Method (List String)
list_versions tenant_id organization_id workspace_id subject = do
  entries ← list_entries tenant_id organization_id workspace_id (some subject)
  pure (versions_of entries)

-- `entries[-1]`
abbrev pub last_entry : {A : Type 0} → List A → Option A
last_entry [] = none
last_entry (a ∷ []) = some a
last_entry (a ∷ (b ∷ rest)) = last_entry (b ∷ rest)

unfoldable pub latest_entry : String → String → String → String → Method RegistryEntry
latest_entry tenant_id organization_id workspace_id subject = do
  entries ← list_entries tenant_id organization_id workspace_id (some subject)
  or_raise (last_entry entries) subject_not_found

-- Whether a failed reading of an entry ends the listing: only a RegistryAuthorizationError is
-- caught.
abbrev pub if_usable :
    RegistryEntry
    → Result DefinitionError RegistryAuthorityView × Registry
    → Result DefinitionError (List RegistryEntry) × Registry
    → Result DefinitionError (List RegistryEntry) × Registry
if_usable entry (ok view, r) (ok rest, r') = (ok (entry ∷ rest), r')
if_usable entry (ok view, r) (err e, r') = (err e, r')
if_usable entry (err not_a_list, r) rest = (err not_a_list, r)
if_usable entry (err _, r) rest = rest

unfoldable pub usable_entries : Kind → Principal → List RegistryEntry → Method (List RegistryEntry)
unfolding in_context from_entry authorize
usable_entries kind principal [] r = (ok [], r)
usable_entries kind principal (entry ∷ rest) r =
    let later = usable_entries kind principal rest r in
    if not
        (in_context principal.tenant_id principal.organization_id principal.workspace_id none entry)
      || not (entry.state == active)
    then later
    else if_usable entry ((from_entry kind entry >>= λ view. authorize view principal) r) later

unfoldable pub list_authorized_entries : Kind → Option Principal → Method (List RegistryEntry)
list_authorized_entries kind none = raise principal_required
list_authorized_entries kind (some principal) = do
  all ← gets (λ r. values r.entries)
  authorized ← usable_entries kind principal all
  sorted_entries authorized
