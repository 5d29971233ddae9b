-- ===== src/Memory/Withdrawal.antt =====
-- A memory that was deleted or has expired is not retrieved again unless it is written again.
use mathlib.Core.Path.{subst}
use alos_backend.Prelude.{
  ℕ, String, ◌≡◌, ◌≢◌, refl, sym, ◌∙◌, ap, inl, inr, Option, none, some, List, [], ◌∷◌, Bool, true,
  false, not, ◌==◌, string_eq, Bool-cases, ok,
}
use alos_backend.Prelude.Dict.{Dict, get, insert, values, get-insert_same, get-insert_other}
use alos_backend.Prelude.Entries.{All, Every, get-Every, IsUnique, insert-IsUnique, IsUnique-Every}
use alos_backend.Prelude.Sorting.{sort_by, sort_by-All}
use alos_backend.Prelude.Outcomes.{raise_if-ok, ok-eq}
use alos_backend.Prelude.Checks.{or_raise-state}
use alos_backend.Authorization.{Principal}
use alos_backend.Memory.Records.{
  MemoryStatus, active, expired, deleted, memory_status_eq, memory_status_beq, MemoryRecord,
  Repository, Formats, inactive_principal, not_found,
}
use alos_backend.Memory.Repository
use alos_backend.Memory.Readings.{is_match, all_matches, not_older_than, first_of_list, retrieve}
use alos_backend.Memory.Repository.{find_memory, withdrawn, memory_event}
use alos_backend.Memory.Retrieval.{is_match-IsVisible, first_of_list-All}
use alos_backend.Memory.Histories.{
  MemoryCall, write, expire, delete, apply, replay, empty, some-eq, unseen, StandsAs, Hidden,
  replay-StandsAs, NeverWrites, replay-Hidden, replay-IsUnique,
}

abbrev pub withdraws : String → MemoryCall → Bool
withdraws id (write memory) = false
withdraws id (expire i reason) = i == id
withdraws id (delete i reason) = i == id

module _ (id : String) (store : Dict String MemoryRecord) (u : IsUnique store)
    (stands : Every StandsAs store) where
  missing-Hidden : get id store ≡ none → Every (Hidden id) store
  missing-Hidden missing = IsUnique-Every (Hidden id) store u (λ k memory at. (
    get-Every StandsAs k memory store stands at,
    λ same. (let wrong = sym (ap (λ i. get i store) same ∙ missing) ∙ at in cc),
  ))

  withdrawn-Hidden :
      (memory : MemoryRecord) (status : MemoryStatus)
      → get id store ≡ some memory
      → (status == active) ≡ false
      → Every (Hidden id) (insert id (withdrawn memory status) store)
  withdrawn-Hidden memory status at off =
      IsUnique-Every (Hidden id) (insert id (withdrawn memory status) store)
        (insert-IsUnique id (withdrawn memory status) store u)
        (λ k other there. elim (Bool-cases (k == id)) [
          | inl same ↦
              (let equal = (string_eq.beq_iff k id).0 same in
                let written : withdrawn memory status ≡ other = some-eq (
                  sym (get-insert_same id (withdrawn memory status) store)
                  ∙ (ap (λ i. get i (insert id (withdrawn memory status) store)) (sym equal)
                      ∙ there)) in
                subst (Hidden id k) written
                  (get-Every StandsAs id memory store stands at ∙ sym equal, λ _. off))
          | inr differs ↦
              (let before =
                  sym (get-insert_other k id (withdrawn memory status) store differs) ∙ there in
                (
                  get-Every StandsAs k other store stands before,
                  λ same. (let wrong = sym ((string_eq.beq_iff k id).1 same) ∙ differs in cc),
                ))
        ])

withdraws-Hidden :
    (formats : Formats) (id : String) (call : MemoryCall) (now : ℕ) (r : Repository)
    → withdraws id call ≡ true
    → IsUnique r.store
    → Every StandsAs r.store
    → Every (Hidden id) (apply formats call now r).store
unfolding apply Repository.expire Repository.delete find_memory memory_status_beq
withdraws-Hidden formats id (write memory) now r h u stands = cc
withdraws-Hidden formats id (expire i reason) now r h u stands =
    subst (λ j. Every (Hidden j) (apply formats (expire i reason) now r).store)
      ((string_eq.beq_iff i id).0 h)
      (or_raise-state (λ (s : Repository). Every (Hidden i) s.store) (get i r.store) not_found _ r
        (missing-Hidden i r.store u stands)
        (λ memory at. withdrawn-Hidden i r.store u stands memory expired at refl))
withdraws-Hidden formats id (delete i reason) now r h u stands =
    subst (λ j. Every (Hidden j) (apply formats (delete i reason) now r).store)
      ((string_eq.beq_iff i id).0 h)
      (or_raise-state (λ (s : Repository). Every (Hidden i) s.store) (get i r.store) not_found _ r
        (missing-Hidden i r.store u stands)
        (λ memory at. withdrawn-Hidden i r.store u stands memory deleted at refl))

-- What is stored and matches is of no hidden id.
Hidden-All :
    (formats : Formats) (principal : Principal) (query : Option String) (now : ℕ) (id : String)
    (store : Dict String MemoryRecord)
    → Every (Hidden id) store
    → All (λ memory. memory.memory_id ≢ id) (all_matches formats principal query now (values store))
unfolding all_matches
Hidden-All formats principal query now id [] h = tt
Hidden-All formats principal query now id ((k, memory) ∷ rest) h =
    elim (Bool-cases (is_match formats principal query now memory)) [
      | inl kept ↦ rw kept (
        λ same.
            unseen (is_match-IsVisible formats principal query now memory kept).is_active
              (h.0.1 (sym h.0.0 ∙ same)),
        Hidden-All formats principal query now id rest h.1,
      )
      | inr left ↦ rw left (Hidden-All formats principal query now id rest h.1)
    ]

-- Once a memory was expired or deleted, whatever calls came before, `retrieve` gives no memory of
-- that id as long as no call writes one.
pub withdraws-retrieve :
    (formats : Formats) (before after : List (MemoryCall × ℕ)) (id : String) (call : MemoryCall)
    (at : ℕ) (principal : Principal) (query : Option String) (limit now : ℕ) (r' : Repository)
    (memories : List MemoryRecord)
    → withdraws id call ≡ true
    → NeverWrites id after
    → retrieve formats principal query limit now
        (replay formats after (apply formats call at (replay formats before empty)))
      ≡ (ok memories, r')
    → All (λ memory. memory.memory_id ≢ id) memories
unfolding retrieve
withdraws-retrieve formats before after id call at principal query limit now r' memories h never e =
    let earlier = replay formats before empty in
    let r = replay formats after (apply formats call at earlier) in
    let hidden = replay-Hidden formats id after (apply formats call at earlier) never (
      withdraws-Hidden formats id call at earlier h (replay-IsUnique formats before empty tt)
        (replay-StandsAs formats before empty tt)) in
    let (on, given) = raise_if-ok (not principal.active) inactive_principal _ r r' memories e in
    let found = all_matches formats principal query now (values r.store) in
    let same : first_of_list limit (sort_by not_older_than found) ≡ memories = ok-eq given in
    subst (All (λ memory. memory.memory_id ≢ id)) same (
      first_of_list-All (λ memory. memory.memory_id ≢ id) limit (sort_by not_older_than found)
        (sort_by-All not_older_than (λ memory. memory.memory_id ≢ id) found
          (Hidden-All formats principal query now id r.store hidden)))
