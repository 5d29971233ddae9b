-- ===== src/Registry/Consistency.antt =====
-- What holds of a registry between its calls, and what a call that writes an entry keeps of it.
use alos_backend.Prelude.{
  String, ◌≡◌, refl, sym, ◌∙◌, ap, inl, inr, some, [], ◌∷◌, true, ◌==◌, string_eq, beq_refl, Key4,
  key4_eq, key4_iff, Key5, key5_eq, Bool-cases,
}
use alos_backend.Prelude.Dict.{Dict, get, insert, get-insert_same, get-insert_other}
use alos_backend.Prelude.Entries.{IsUnique, insert-IsUnique, Every, insert-Every}
use alos_backend.Audit.{AuditEvent, AuditLog, append}
use alos_backend.Registry.State.{RegistryEntry, Kind, Registry, entry_key, store_key}
use alos_backend.Registry.Versions.{logged_to}
use alos_backend.Registry.Lifecycle.{Change, unchanged, IsLogged, is_past, IsLogged-kept}

abbrev pub with_type : String → Key4 → Key5
with_type subject_type (a, b, c, d) = (subject_type, a, b, c, d)

with_type-beq :
    (subject_type : String) (k j : Key4)
    → (with_type subject_type k == with_type subject_type j) ≡ (k == j)
with_type-beq subject_type (a, b, c, d) (x, y, z, w) = rw (beq_refl subject_type) refl

-- The store holds what the registry holds, in the same order.
abbrev pub mirror : String → Dict Key4 RegistryEntry → Dict Key5 RegistryEntry
mirror subject_type [] = []
mirror subject_type ((key, entry) ∷ rest) =
    (with_type subject_type key, entry) ∷ mirror subject_type rest

mirror-insert :
    (subject_type : String) (key : Key4) (entry : RegistryEntry) (d : Dict Key4 RegistryEntry)
    → insert (with_type subject_type key) entry (mirror subject_type d)
      ≡ mirror subject_type (insert key entry d)
unfolding insert
mirror-insert subject_type key entry [] = refl
mirror-insert subject_type key entry ((j, other) ∷ d) = elim (Bool-cases (key == j)) [
  | inl same ↦ rw (with_type-beq subject_type key j, same) refl
  | inr differs ↦
      rw (with_type-beq subject_type key j, differs)
        (ap (λ m. (with_type subject_type j, other) ∷ m) (mirror-insert subject_type key entry d))
]

mirror-insert_as :
    (subject_type : String) (entry : RegistryEntry) (d : Dict Key4 RegistryEntry)
    → entry.subject_type ≡ subject_type
    → insert (store_key entry) entry (mirror subject_type d)
      ≡ mirror subject_type (insert (entry_key entry) entry d)
mirror-insert_as subject_type entry d same_type =
    ap (λ t. insert (with_type t (entry_key entry)) entry (mirror subject_type d)) same_type
    ∙ mirror-insert subject_type (entry_key entry) entry d

-- The entry stands under its key and is of the registry's type.
abbrev pub StandsFor : Kind → Key4 → RegistryEntry → Type 0
StandsFor kind key entry = (entry_key entry ≡ key) × (entry.subject_type ≡ kind.subject_type)

pub record IsConsistent (kind : Kind) (r : Registry) : Type 0 where
  pub unique : IsUnique r.entries
  pub placed : Every (StandsFor kind) r.entries
  pub mirrored : r.store ≡ mirror kind.subject_type r.entries
  pub gated :
      (key : Key4) (entry : RegistryEntry)
      → get key r.entries ≡ some entry
      → is_past entry.state ≡ true
      → IsLogged key r.log

some-eq : {a b : RegistryEntry} → some a ≡ some b → a ≡ b
some-eq h = cc

-- What a call leaves.
pub record Called (kind : Kind) (r r' : Registry) : Type 0 where
  pub change : (key : Key4) → Change key (get key r.entries) (get key r'.entries)
  pub consistent : IsConsistent kind r'
  pub sink : (log : AuditLog) → r.log ≡ some log → (kept : AuditLog) × (r'.log ≡ some kept)

pub nothing_changes : (kind : Kind) (r : Registry) → IsConsistent kind r → Called kind r r
nothing_changes kind r c = record {
  change = λ key. unchanged;
  consistent = c;
  sink = λ log at. (log, at);
}

-- An entry is saved, put under its key and logged.
abbrev pub written : Key4 → RegistryEntry → AuditEvent → Registry → Registry
written key entry event r = record {
  entries = insert key entry r.entries;
  store = insert (store_key entry) entry r.store;
  log = logged_to event r.log;
}

module _ (kind : Kind) (r : Registry) (c : IsConsistent kind r) (entry : RegistryEntry)
    (event : AuditEvent) (same_type : entry.subject_type ≡ kind.subject_type) where
  written-change :
      Change (entry_key entry) (get (entry_key entry) r.entries) (some entry)
      → (key : Key4)
      → Change key (get key r.entries) (get key (written (entry_key entry) entry event r).entries)
  written-change change key = elim (Bool-cases (key == entry_key entry)) [
    | inl same ↦
        (let equal = (key4_iff key (entry_key entry)).0 same in
          rw (equal, get-insert_same (entry_key entry) entry r.entries) change)
    | inr differs ↦ rw (get-insert_other key (entry_key entry) entry r.entries differs) unchanged
  ]

  written-gated :
      (is_past entry.state ≡ true → IsLogged (entry_key entry) (logged_to event r.log))
      → (key : Key4) (other : RegistryEntry)
      → get key (written (entry_key entry) entry event r).entries ≡ some other
      → is_past other.state ≡ true
      → IsLogged key (logged_to event r.log)
  written-gated gate key other at past = elim (Bool-cases (key == entry_key entry)) [
    | inl same ↦
        (let equal = (key4_iff key (entry_key entry)).0 same in
          let this : other ≡ entry =
            some-eq (sym (rw (equal, get-insert_same (entry_key entry) entry r.entries) at at)) in
          rw equal (gate (rw this at past)))
    | inr differs ↦ IsLogged-kept key r.log event (
        c.gated key other
          (rw (get-insert_other key (entry_key entry) entry r.entries differs) at at) past)
  ]

  pub written-Called :
      Change (entry_key entry) (get (entry_key entry) r.entries) (some entry)
      → (is_past entry.state ≡ true → IsLogged (entry_key entry) (logged_to event r.log))
      → Called kind r (written (entry_key entry) entry event r)
  written-Called change gate = record {
    change = written-change change;
    consistent = record {
      unique = insert-IsUnique (entry_key entry) entry r.entries c.unique;
      placed =
          insert-Every (StandsFor kind) (entry_key entry) entry r.entries (refl, same_type)
            c.placed;
      mirrored =
          ap (insert (store_key entry) entry) c.mirrored
          ∙ mirror-insert_as kind.subject_type entry r.entries same_type;
      gated = written-gated gate;
    };
    sink = λ log at. (append event log, ap (logged_to event) at);
  }

  pub written-Called_at :
      (key : Key4)
      → entry_key entry ≡ key
      → Change key (get key r.entries) (some entry)
      → (is_past entry.state ≡ true → IsLogged key (logged_to event r.log))
      → Called kind r (written key entry event r)
  written-Called_at key at = rw (sym at) written-Called
