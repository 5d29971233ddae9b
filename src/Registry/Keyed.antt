-- ===== src/Registry/Keyed.antt =====
-- Entries with the keys that they are sorted by.
use Prim.Native.Nat.{compare, Ordering}
use alos_backend.Prelude.{
  String, ◌≡◌, refl, sym, inl, inr, Option, some, List, [], ◌∷◌, Bool, true, false, string_eq,
  key4_eq, Bool-cases, Option-cases, codes,
}
use alos_backend.Prelude.Comparing.{
  compare_lists, IsOrder, compare-IsOrder, lists-IsOrder, both-IsOrder, by_key, by_key-IsOrder,
}
use alos_backend.Prelude.Sorting.{IsSorted}
use alos_backend.Prelude.Entries.{All}
use alos_backend.Registry.State.{RegistryEntry}
use alos_backend.Registry.Version.{VersionKey, semver}
use alos_backend.Registry.Precedence.{compare_versions, compare_versions-IsOrder}
use alos_backend.Registry.Listing.{
  Keyed, with_keys, compare_keyed, entries_of, in_context, entries_in, last_entry,
}

abbrev compare_subjects : Keyed → Keyed → Ordering
compare_subjects = by_key (compare_lists compare) (λ (k : Keyed). codes k.entry.subject_id)

abbrev compare_keys : Keyed → Keyed → Ordering
compare_keys = by_key compare_versions (λ (k : Keyed). k.key)

pub compare_keyed-IsOrder : IsOrder compare_keyed
compare_keyed-IsOrder =
    both-IsOrder compare_subjects compare_keys
      (by_key-IsOrder (compare_lists compare) _ (lists-IsOrder compare compare-IsOrder))
      (by_key-IsOrder compare_versions _ compare_versions-IsOrder)

some-eq : {A : Type 0} {a b : A} → some a ≡ some b → a ≡ b
some-eq h = cc

outside_inside : {b : Bool} → b ≡ false → b ≡ true → ⊥
outside_inside h k = cc

pub last-All :
    {A : Type 0} (P : A → Type 0) (xs : List A) (l : A) → All P xs → last_entry xs ≡ some l → P l
last-All P [] l p h = cc
last-All P (x ∷ []) l p h = (let same : x ≡ l = cc in rw same at p.0)
last-All P (x ∷ (y ∷ xs)) l p h = last-All P (y ∷ xs) l p.1 h

-- Nothing stands after the last element of a sorted list.
module _ {A : Type 0} (le : A → A → Bool) (le_refl : (a : A) → le a a ≡ true) where
  pub last-IsGreatest :
      (xs : List A) (l : A) → IsSorted le xs → last_entry xs ≡ some l → All (λ x. le x l ≡ true) xs
  last-IsGreatest [] l s h = tt
  last-IsGreatest (x ∷ []) l s h = ((let same : x ≡ l = cc in rw same (le_refl l)), tt)
  last-IsGreatest (x ∷ (y ∷ xs)) l s h =
      (last-All (λ z. le x z ≡ true) (y ∷ xs) l s.0 h, last-IsGreatest (y ∷ xs) l s.1 h)

pub last-entries_of :
    (xs : List Keyed) (entry : RegistryEntry)
    → last_entry (entries_of xs) ≡ some entry
    → (k : Keyed) × (last_entry xs ≡ some k) × (k.entry ≡ entry)
last-entries_of [] entry h = cc
last-entries_of (x ∷ []) entry h = (x, refl, cc)
last-entries_of (x ∷ (y ∷ xs)) entry h = last-entries_of (y ∷ xs) entry h

-- An entry with a key, before those with theirs
keyed_cons :
    (x : RegistryEntry) (xs : List RegistryEntry) (ks : List Keyed)
    → with_keys (x ∷ xs) ≡ some ks
    → (v : VersionKey) × (rest : List Keyed) × (semver x.version ≡ some v)
      × (with_keys xs ≡ some rest)
      × (ks ≡ record { entry = x; key = v } ∷ rest)
unfolding with_keys
keyed_cons x xs ks h = elim (Option-cases (semver x.version)) [
  | inl invalid ↦ (let wrong = rw invalid at h in cc)
  | inr (v, valid) ↦ elim (Option-cases (with_keys xs)) [
    | inl invalid ↦ (let wrong = rw (valid, invalid) at h in cc)
    | inr (rest, at) ↦ (let made = rw (valid, at) at h in (v, rest, valid, at, some-eq (sym made)))
  ]
]

-- What holds of the entries holds of the keyed entries, and the other way round.
pub keyed-All :
    (P : RegistryEntry → Type 0) (xs : List RegistryEntry) (ks : List Keyed)
    → with_keys xs ≡ some ks
    → All P xs
    → All (λ (k : Keyed). P k.entry × (semver k.entry.version ≡ some k.key)) ks
unfolding with_keys
keyed-All P [] ks h p = rw (some-eq (sym h)) tt
keyed-All P (x ∷ xs) ks h p =
    let (v, rest, valid, at, same) = keyed_cons x xs ks h in
    rw same ((p.0, valid), keyed-All P xs rest at p.1)

pub All-keyed :
    (P : RegistryEntry → VersionKey → Type 0) (xs : List RegistryEntry) (ks : List Keyed)
    → with_keys xs ≡ some ks
    → All (λ (k : Keyed). P k.entry k.key) ks
    → All (λ e. (v : VersionKey) × (semver e.version ≡ some v) × P e v) xs
All-keyed P [] ks h p = tt
All-keyed P (x ∷ xs) ks h p =
    let (v, rest, valid, at, same) = keyed_cons x xs ks h in
    let held = rw same at p in ((v, valid, held.0), All-keyed P xs rest at held.1)

pub entries_in-All :
    (t o w : String) (subject : Option String) (P : RegistryEntry → Type 0)
    (xs : List RegistryEntry)
    → All P xs
    → All (λ e. (in_context t o w subject e ≡ true) × P e) (entries_in t o w subject xs)
unfolding entries_in
entries_in-All t o w subject P [] p = tt
entries_in-All t o w subject P (x ∷ xs) p = elim (Bool-cases (in_context t o w subject x)) [
  | inl inside ↦ rw inside ((inside, p.0), entries_in-All t o w subject P xs p.1)
  | inr outside ↦ rw outside (entries_in-All t o w subject P xs p.1)
]

pub All-entries_in :
    (t o w : String) (subject : Option String) (P : RegistryEntry → Type 0)
    (xs : List RegistryEntry)
    → All P (entries_in t o w subject xs)
    → All (λ e. in_context t o w subject e ≡ true → P e) xs
unfolding entries_in
All-entries_in t o w subject P [] p = tt
All-entries_in t o w subject P (x ∷ xs) p = elim (Bool-cases (in_context t o w subject x)) [
  | inl inside ↦
      (let held = rw inside at p in (λ _. held.0, All-entries_in t o w subject P xs held.1))
  | inr outside ↦ (
    λ inside. absurd (outside_inside outside inside),
    All-entries_in t o w subject P xs (rw outside at p),
  )
]
