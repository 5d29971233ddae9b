-- ===== src/Registry/Restart.antt =====
-- `hydrate` after a history of calls: what the store gives back.
use alos_backend.Prelude.{
  ℕ, ◌≡◌, refl, sym, ◌∙◌, ap, inl, inr, Option, none, List, [], ◌∷◌, ◌++◌, false, ◌==◌, Eq,
  string_eq, Key4, key4_eq, arith, Bool-cases, ok, if◌then◌else◌,
}
use alos_backend.Prelude.Dict.{Dict, get, insert, values}
use alos_backend.Prelude.Entries.{IsUnique, Every, Every-map}
use alos_backend.Audit.{AuditLog}
use alos_backend.Registry.State.{RegistryEntry, Kind, Registry}
use alos_backend.Registry.Versions.{of_subject_type, by_entry_key, hydrate}
use alos_backend.Registry.Calls.{RegistryCall, apply_all}
use alos_backend.Registry.Consistency.{IsConsistent, StandsFor, mirror}
use alos_backend.Registry.Histories.{new_registry, history-IsConsistent}

module _ {K V : Type 0} ⦃e : Eq K⦄ where
  absent-Every : (k : K) (d : Dict K V) → get k d ≡ none → Every (λ j v. (j == k) ≡ false) d
  unfolding get
  absent-Every k [] h = tt
  absent-Every k ((j, v) ∷ d) h = elim (Bool-cases (k == j)) [
    | inl same ↦ (let wrong = rw same at h in cc)
    | inr differs ↦
        (ground (arith, e.beq_iff j k, e.beq_iff k j), absent-Every k d (rw differs at h))
  ]

  Every-both :
      (P Q : K → V → Type 0) (d : Dict K V) → Every P d → Every Q d → Every (λ k v. P k v × Q k v) d
  Every-both P Q [] h k = tt
  Every-both P Q ((j, v) ∷ d) h k = ((h.0, k.0), Every-both P Q d h.1 k.1)

  insert_last : (k : K) (v : V) (d : Dict K V) → get k d ≡ none → insert k v d ≡ d ++ (k, v) ∷ []
  unfolding get insert
  insert_last k v [] h = refl
  insert_last k v ((j, w) ∷ d) h = elim (Bool-cases (k == j)) [
    | inl same ↦ (let wrong = rw same at h in cc)
    | inr differs ↦ rw differs (ap (λ m. (j, w) ∷ m) (insert_last k v d (rw differs at h)))
  ]

  get_last :
      (j k : K) (v : V) (d : Dict K V)
      → get j d ≡ none
      → (j == k) ≡ false
      → get j (d ++ (k, v) ∷ []) ≡ none
  unfolding get
  get_last j k v [] h differs = rw differs refl
  get_last j k v ((i, w) ∷ d) h differs = elim (Bool-cases (j == i)) [
    | inl same ↦ (let wrong = rw same at h in cc)
    | inr other ↦ rw other (get_last j k v d (rw other at h) differs)
  ]

append_assoc :
    {A : Type 0} (xs : List A) (y : A) (ys : List A) → (xs ++ y ∷ []) ++ ys ≡ xs ++ y ∷ ys
append_assoc [] y ys = refl
append_assoc (x ∷ xs) y ys = ap (λ m. x ∷ m) (append_assoc xs y ys)

append-nil : {A : Type 0} (xs : List A) → xs ++ [] ≡ xs
append-nil [] = refl
append-nil (x ∷ xs) = ap (λ m. x ∷ m) (append-nil xs)

abbrev no_entries : Dict Key4 RegistryEntry
no_entries = []

by_entry_key-append :
    (kind : Kind) (d made : Dict Key4 RegistryEntry)
    → IsUnique d
    → Every (StandsFor kind) d
    → Every (λ k v. get k made ≡ none) d
    → by_entry_key (values d) made ≡ made ++ d
unfolding by_entry_key
by_entry_key-append kind [] made u p f = sym (append-nil made)
by_entry_key-append kind ((key, entry) ∷ d) made u p f =
    let free = Every-both _ _ d f.1 (absent-Every key d u.0) in
    let put = ap (λ k. insert k entry made) p.0.0 ∙ insert_last key entry made f.0 in
    ap (by_entry_key (values d)) put
    ∙ by_entry_key-append kind d (made ++ (key, entry) ∷ []) u.1 p.1
        (Every-map d (λ k v h. get_last k key entry made h.0 h.1) free)
    ∙ append_assoc made (key, entry) d

nothing_made : (d : Dict Key4 RegistryEntry) → Every (λ k v. get k no_entries ≡ none) d
unfolding get
nothing_made [] = tt
nothing_made ((key, entry) ∷ d) = (refl, nothing_made d)

of_subject_type-mirror :
    (kind : Kind) (d : Dict Key4 RegistryEntry)
    → Every (StandsFor kind) d
    → of_subject_type kind.subject_type (values (mirror kind.subject_type d)) ≡ values d
unfolding of_subject_type
of_subject_type-mirror kind [] p = refl
of_subject_type-mirror kind ((key, entry) ∷ d) p =
    rw (of_subject_type-mirror kind d p.1) (kept entry (values d) p.0.1)
  where
    kept :
        (entry : RegistryEntry) (rest : List RegistryEntry)
        → entry.subject_type ≡ kind.subject_type
        → (if entry.subject_type == kind.subject_type then entry ∷ rest else rest) ≡ entry ∷ rest
    kept entry rest same = rw ((string_eq.beq_iff entry.subject_type kind.subject_type).1 same) refl

hydrated : (kind : Kind) (r : Registry) → IsConsistent kind r → hydrate kind r ≡ (ok tt, r)
unfolding hydrate
hydrated kind r c =
    ap (λ d. (ok tt, record r { entries = d }))
      (ap (λ s. by_entry_key (of_subject_type kind.subject_type (values s)) []) c.mirrored
        ∙ ap (λ entries. by_entry_key entries []) (of_subject_type-mirror kind r.entries c.placed)
        ∙ by_entry_key-append kind r.entries [] c.unique c.placed (nothing_made r.entries))

-- After any history of calls on a new registry, `hydrate` succeeds and leaves the registry exactly
-- as it was: its versions, their order, the store and the log.
pub history-hydrate :
    (kind : Kind) (log : Option AuditLog) (calls : List (RegistryCall × ℕ))
    → hydrate kind (apply_all kind calls (new_registry log))
      ≡ (ok tt, apply_all kind calls (new_registry log))
history-hydrate kind log calls =
    hydrated kind (apply_all kind calls (new_registry log)) (history-IsConsistent kind log calls)
