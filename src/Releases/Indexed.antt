-- ===== src/Releases/Indexed.antt =====
-- The index of active releases.
use alos_backend.Prelude.{String, ◌≡◌, some, string_eq, key3_eq, Key3}
use alos_backend.Prelude.Dict.{get}
use alos_backend.Releases.State.{active, GovernedRelease, subject_key, Authority}

-- Every entry of the index names an active release of its subject.
pub record IsIndexed (s : Authority) : Type 0 where
  pub entry :
      (key : Key3) (id : String)
      → get key s.active_by_subject ≡ some id
      → (r : GovernedRelease) × (get id s.releases ≡ some r)
        × (r.state ≡ active)
        × (subject_key r ≡ key)
