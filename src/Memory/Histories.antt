-- ===== src/Memory/Histories.antt =====
-- Histories of calls, and what they keep of the stored memories.
use mathlib.Core.Path.{subst}
use alos_backend.Prelude.{
  ℕ, String, ◌≡◌, refl, sym, ◌∙◌, some, List, [], ◌∷◌, Bool, false, ◌==◌, string_eq, is_blank,
  raise_if, or_raise,
}
use alos_backend.Prelude.Dict.{get}
use alos_backend.Prelude.Entries.{All, Every, insert-Every, get-Every, IsUnique, insert-IsUnique}
use alos_backend.Prelude.Checks.{raise_if-Checks, or_raise-Checks, Checks-state}
use alos_backend.Memory.Records.{
  MemoryStatus, active, expired, deleted, memory_status_eq, memory_status_iff, memory_status_beq,
  MemoryRecord, Repository, Formats, blank_id, not_found,
}
use alos_backend.Memory.Repository
use alos_backend.Memory.Repository.{find_memory, withdrawn, memory_event}

pub data MemoryCall : Type 0 where
  write : MemoryRecord → MemoryCall
  expire : String → String → MemoryCall
  delete : String → String → MemoryCall

unfoldable pub apply : Formats → MemoryCall → ℕ → Repository → Repository
apply formats (write memory) now r = (Repository.write formats memory now r).1
apply formats (expire id reason) now r = (Repository.expire formats id reason now r).1
apply formats (delete id reason) now r = (Repository.delete id reason now r).1

unfoldable pub replay : Formats → List (MemoryCall × ℕ) → Repository → Repository
replay formats [] r = r
replay formats ((call, now) ∷ rest) r = replay formats rest (apply formats call now r)

abbrev pub writes : String → MemoryCall → Bool
writes id (write memory) = memory.memory_id == id
writes id (expire _ _) = false
writes id (delete _ _) = false

abbrev pub empty : Repository
empty = record { store = []; log = [] }

pub some-eq : {a b : MemoryRecord} → some a ≡ some b → a ≡ b
some-eq h = cc

pub unseen : {status : MemoryStatus} → status ≡ active → (status == active) ≡ false → ⊥
unseen {status} h k = (let wrong = sym ((memory_status_iff status active).1 h) ∙ k in cc)

-- The memory stands under its id.
abbrev pub StandsAs : String → MemoryRecord → Type 0
StandsAs k memory = memory.memory_id ≡ k

-- And it is not active, if it is of that id.
abbrev pub Hidden : String → String → MemoryRecord → Type 0
Hidden id k memory = (memory.memory_id ≡ k) × (k ≡ id → (memory.status == active) ≡ false)

-- A property of what is stored is kept by a call that writes no memory without it.
apply-Every :
    (P : String → MemoryRecord → Type 0) (formats : Formats) (call : MemoryCall) (now : ℕ)
    (r : Repository)
    → ((memory : MemoryRecord) → call ≡ write memory → P memory.memory_id memory)
    → ((k : String) (memory : MemoryRecord) (status : MemoryStatus)
        → (status == active) ≡ false
        → P k memory
        → P k (withdrawn memory status))
    → Every P r.store
    → Every P (apply formats call now r).store
unfolding apply Repository.write Repository.expire Repository.delete find_memory memory_status_beq
apply-Every P formats (write memory) now r new old h =
    Checks-state (λ (s : Repository). Every P s.store) _
      (raise_if (is_blank memory.memory_id) blank_id) _ r (raise_if-Checks _ _) h
      (λ _ _. insert-Every P memory.memory_id memory r.store (new memory refl) h)
apply-Every P formats (expire id reason) now r new old h =
    Checks-state (λ (s : Repository). Every P s.store) _ (or_raise (get id r.store) not_found) _ r
      (or_raise-Checks _ _) h
      (λ memory at.
        insert-Every P id (withdrawn memory expired) r.store
          (old id memory expired refl (get-Every P id memory r.store h at)) h)
apply-Every P formats (delete id reason) now r new old h =
    Checks-state (λ (s : Repository). Every P s.store) _ (or_raise (get id r.store) not_found) _ r
      (or_raise-Checks _ _) h
      (λ memory at.
        insert-Every P id (withdrawn memory deleted) r.store
          (old id memory deleted refl (get-Every P id memory r.store h at)) h)

pub replay-StandsAs :
    (formats : Formats) (calls : List (MemoryCall × ℕ)) (r : Repository)
    → Every StandsAs r.store
    → Every StandsAs (replay formats calls r).store
unfolding replay
replay-StandsAs formats [] r h = h
replay-StandsAs formats ((call, now) ∷ rest) r h =
    replay-StandsAs formats rest (apply formats call now r)
      (apply-Every StandsAs formats call now r (λ memory at. refl) (λ k memory status off p. p) h)

-- No call of the history writes that memory.
abbrev pub NeverWrites : String → List (MemoryCall × ℕ) → Type 0
NeverWrites id calls = All (λ (c : MemoryCall × ℕ). writes id c.0 ≡ false) calls

written_elsewhere :
    (id : String) (call : MemoryCall) (memory : MemoryRecord)
    → writes id call ≡ false
    → call ≡ write memory
    → Hidden id memory.memory_id memory
written_elsewhere id call memory other at = (
  refl,
  λ same.
      (let unwritten = subst (λ c. writes id c ≡ false) at other in
        let wrong = sym ((string_eq.beq_iff memory.memory_id id).1 same) ∙ unwritten in cc),
)

pub replay-Hidden :
    (formats : Formats) (id : String) (calls : List (MemoryCall × ℕ)) (r : Repository)
    → NeverWrites id calls
    → Every (Hidden id) r.store
    → Every (Hidden id) (replay formats calls r).store
unfolding replay
replay-Hidden formats id [] r never h = h
replay-Hidden formats id ((call, now) ∷ rest) r never h =
    replay-Hidden formats id rest (apply formats call now r) never.1 (
      apply-Every (Hidden id) formats call now r
        (λ memory at. written_elsewhere id call memory never.0 at)
        (λ k memory status off p. (p.0, λ same. off)) h)

apply-IsUnique :
    (formats : Formats) (call : MemoryCall) (now : ℕ) (r : Repository)
    → IsUnique r.store
    → IsUnique (apply formats call now r).store
unfolding apply Repository.write Repository.expire Repository.delete find_memory
apply-IsUnique formats (write memory) now r u =
    Checks-state (λ (s : Repository). IsUnique s.store) _
      (raise_if (is_blank memory.memory_id) blank_id) _ r (raise_if-Checks _ _) u
      (λ _ _. insert-IsUnique memory.memory_id memory r.store u)
apply-IsUnique formats (expire id reason) now r u =
    Checks-state (λ (s : Repository). IsUnique s.store) _ (or_raise (get id r.store) not_found) _ r
      (or_raise-Checks _ _) u (λ memory _. insert-IsUnique id (withdrawn memory expired) r.store u)
apply-IsUnique formats (delete id reason) now r u =
    Checks-state (λ (s : Repository). IsUnique s.store) _ (or_raise (get id r.store) not_found) _ r
      (or_raise-Checks _ _) u (λ memory _. insert-IsUnique id (withdrawn memory deleted) r.store u)

pub replay-IsUnique :
    (formats : Formats) (calls : List (MemoryCall × ℕ)) (r : Repository)
    → IsUnique r.store
    → IsUnique (replay formats calls r).store
unfolding replay
replay-IsUnique formats [] r u = u
replay-IsUnique formats ((call, now) ∷ rest) r u =
    replay-IsUnique formats rest (apply formats call now r) (apply-IsUnique formats call now r u)
