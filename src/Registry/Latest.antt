-- ===== src/Registry/Latest.antt =====
-- What `latest_entry` gives.
use Prim.Native.Nat.{compare, Ordering}
use mathlib.Core.Path.{subst}
use alos_backend.Prelude.{
  ℕ, String, ◌≡◌, sym, ◌∙◌, ap, Option, some, List, true, string_eq, Key4, key4_eq, arith, ok,
  codes, or_raise,
}
use alos_backend.Prelude.Comparing.{
  compare_lists, at_most, first_of, total, equal_itself, at_most_trans, compare-IsOrder,
  lists-IsOrder,
}
use alos_backend.Prelude.Sorting.{sort_by, sort_by-All, All-sort_by, sort_by-IsSorted}
use alos_backend.Prelude.Dict.{get, values}
use alos_backend.Prelude.Entries.{All, Every-map, get-values, values-All}
use alos_backend.Prelude.Outcomes.{or_raise-ok, or_raise-gave, ok-eq, continue-ok}
use alos_backend.Audit.{AuditLog}
use alos_backend.Registry.State.{
  RegistryEntry, Kind, Registry, entry_key, invalid_version, subject_not_found,
}
use alos_backend.Registry.Version.{VersionKey, semver}
use alos_backend.Registry.Precedence.{compare_versions}
use alos_backend.Registry.Listing.{
  Keyed, with_keys, compare_keyed, sorts_before, entries_of, in_context, entries_in, list_entries,
  last_entry, latest_entry,
}
use alos_backend.Registry.Calls.{RegistryCall, apply_all}
use alos_backend.Registry.Consistency.{IsConsistent}
use alos_backend.Registry.Histories.{new_registry, history-IsConsistent}
use alos_backend.Registry.Keyed.{
  compare_keyed-IsOrder, last-All, last-IsGreatest, last-entries_of, keyed-All, All-keyed,
  entries_in-All, All-entries_in,
}

-- The first version is not later than the second, by the order of their sort keys.
abbrev pub IsAtMost : String → String → Type 0
IsAtMost version later =
    (v : VersionKey) × (l : VersionKey) × (semver version ≡ some v)
    × (semver later ≡ some l)
    × (at_most (compare_versions v l) ≡ true)

-- Of the versions of the subject in that context, the entry is one, and none is later.
pub record IsLatest (t o w subject : String) (r : Registry) (entry : RegistryEntry) : Type 0 where
  pub found : get (entry_key entry) r.entries ≡ some entry
  pub inside : in_context t o w (some subject) entry ≡ true
  pub newest :
      (key : Key4) (other : RegistryEntry)
      → get key r.entries ≡ some other
      → in_context t o w (some subject) other ≡ true
      → IsAtMost other.version entry.version

same_subject :
    (t o w subject : String) (entry : RegistryEntry)
    → in_context t o w (some subject) entry ≡ true
    → entry.subject_id ≡ subject
unfolding in_context
same_subject t o w subject entry h = ground (arith, string_eq.beq_iff entry.subject_id subject)

-- Of entries of one subject, the versions decide.
version_decides :
    (a b : Keyed)
    → a.entry.subject_id ≡ b.entry.subject_id
    → sorts_before a b ≡ true
    → at_most (compare_versions a.key b.key) ≡ true
version_decides a b same h =
    let texts = lists-IsOrder compare compare-IsOrder in
    let equal : compare_lists compare (codes a.entry.subject_id) (codes b.entry.subject_id)
        ≡ Ordering.eq =
      ap (λ s. compare_lists compare (codes s) (codes b.entry.subject_id)) same
      ∙ equal_itself (compare_lists compare) texts (codes b.entry.subject_id) in
    sym (ap (λ o. at_most (first_of o (compare_versions a.key b.key))) equal) ∙ h

module _ (kind : Kind) (t o w subject : String) (r : Registry) (c : IsConsistent kind r)
    (keyed : List Keyed)
    (keyed_at : with_keys (entries_in t o w (some subject) (values r.entries)) ≡ some keyed)
    (k : Keyed) (last : last_entry (sort_by sorts_before keyed) ≡ some k) where
  abbrev inside : List RegistryEntry
  inside = entries_in t o w (some subject) (values r.entries)

  keys_at : All (λ e. get (entry_key e) r.entries ≡ some e) (values r.entries)
  keys_at =
      get-values entry_key r.entries c.unique
        (Every-map r.entries (λ key e stands. stands.0) c.placed)

  last-stands :
      ((in_context t o w (some subject) k.entry ≡ true)
        × (get (entry_key k.entry) r.entries ≡ some k.entry))
      × (semver k.entry.version ≡ some k.key)
  last-stands =
      last-All _ (sort_by sorts_before keyed) k
        (sort_by-All sorts_before _ keyed
          (keyed-All _ inside keyed keyed_at (entries_in-All t o w (some subject) _ _ keys_at)))
        last

  none_after : All (λ x. sorts_before x k ≡ true) keyed
  none_after = All-sort_by sorts_before _ keyed (
      last-IsGreatest sorts_before
        (λ a. ap at_most (equal_itself compare_keyed compare_keyed-IsOrder a))
        (sort_by sorts_before keyed) k
        (sort_by-IsSorted sorts_before (total compare_keyed compare_keyed-IsOrder)
          (at_most_trans compare_keyed compare_keyed-IsOrder) keyed)
        last)

  newest_at :
      All
        (λ e.
          in_context t o w (some subject) e ≡ true
          → (v : VersionKey) × (semver e.version ≡ some v)
            × (sorts_before (record { entry = e; key = v }) k ≡ true))
        (values r.entries)
  newest_at = All-entries_in t o w (some subject) _ (values r.entries) (
      All-keyed (λ e v. sorts_before (record { entry = e; key = v }) k ≡ true) inside keyed keyed_at
        none_after)

  last-IsLatest : IsLatest t o w subject r k.entry
  last-IsLatest = record {
    found = last-stands.0.1;
    inside = last-stands.0.0;
    newest = λ key other at within.
        let (v, valid, before) = values-All _ key other r.entries newest_at at within in
        (
          v,
          k.key,
          valid,
          last-stands.1,
          version_decides (record { entry = other; key = v }) k
              (same_subject t o w subject other within
                ∙ sym (same_subject t o w subject k.entry last-stands.0.0))
              before,
        );
  }

consistent-IsLatest :
    (kind : Kind) (t o w subject : String) (r r' : Registry) (entry : RegistryEntry)
    → IsConsistent kind r
    → latest_entry t o w subject r ≡ (ok entry, r')
    → IsLatest t o w subject r entry
unfolding latest_entry list_entries
consistent-IsLatest kind t o w subject r r' entry c h =
    let inside = entries_in t o w (some subject) (values r.entries) in
    let (sorted, s, listed, h1) =
      continue-ok (list_entries t o w (some subject) r)
        (λ entries. or_raise (last_entry entries) subject_not_found) r' entry h in
    let (keyed, keyed_at, h2) =
      or_raise-ok (with_keys inside) invalid_version _ r s sorted listed in
    let in_order : entries_of (sort_by sorts_before keyed) ≡ sorted = ok-eq h2 in
    let given = or_raise-gave (last_entry sorted) subject_not_found s r' entry h1 in
    let (k, last, same) =
      last-entries_of (sort_by sorts_before keyed) entry (ap last_entry in_order ∙ given) in
    subst (IsLatest t o w subject r) same
      (last-IsLatest kind t o w subject r c keyed keyed_at k last)

-- After any history of calls on a new registry, the entry that `latest_entry` gives is in the
-- registry under its key, in the context and of the subject asked for, and no other such version
-- is later by the order of semantic versions.
pub latest_entry-IsLatest :
    (kind : Kind) (log : Option AuditLog) (calls : List (RegistryCall × ℕ)) (t o w subject : String)
    (r' : Registry) (entry : RegistryEntry)
    → latest_entry t o w subject (apply_all kind calls (new_registry log)) ≡ (ok entry, r')
    → IsLatest t o w subject (apply_all kind calls (new_registry log)) entry
latest_entry-IsLatest kind log calls t o w subject r' entry =
    consistent-IsLatest kind t o w subject (apply_all kind calls (new_registry log)) r' entry
      (history-IsConsistent kind log calls)
