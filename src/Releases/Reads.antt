-- ===== src/Releases/Reads.antt =====
-- What is read back after each write of a step.
use alos_backend.Prelude.{
  ℕ, String, ◌≡◌, refl, none, some, ◌==◌, string_eq, key3_eq, Key3, if◌then◌else◌,
}
use alos_backend.Prelude.Dict.{get, get-insert, get-erase}
use alos_backend.Releases.State.{ReleaseState, GovernedRelease, subject_key, Authority}
use alos_backend.Releases.Authority.{Options, Creation, new_release, updated}
use alos_backend.Releases.Gates.{reactivated}
use alos_backend.Releases.Steps.{written, indexed, unindexed, restored, added}

module _ (s : Authority) (id : String) (r : GovernedRelease) (target : ReleaseState)
    (actor correlation : String) (options : Options) (now : ℕ) where
  pub get-written :
      (k : String)
      → get k (written s id r target actor correlation options now).releases
        ≡ (if k == id then some (updated r target correlation options) else get k s.releases)
  unfolding written
  get-written k = get-insert k id _ _

  pub index-written :
      (written s id r target actor correlation options now).active_by_subject ≡ s.active_by_subject
  unfolding written
  index-written = refl

module _ (s : Authority) (key : Key3) (id : String) where
  pub get-indexed :
      (k : Key3)
      → get k (indexed key id s).active_by_subject
        ≡ (if k == key then some id else get k s.active_by_subject)
  unfolding indexed
  get-indexed k = get-insert k key id _

  pub releases-indexed : (indexed key id s).releases ≡ s.releases
  unfolding indexed
  releases-indexed = refl

  pub get-unindexed :
      (k : Key3)
      → get k (unindexed key s).active_by_subject
        ≡ (if k == key then none else get k s.active_by_subject)
  unfolding unindexed
  get-unindexed k = get-erase k key _

  pub releases-unindexed : (unindexed key s).releases ≡ s.releases
  unfolding unindexed
  releases-unindexed = refl

module _ (s : Authority) (id : String) (target : GovernedRelease)
    (actor reason correlation : String) (now : ℕ) where
  pub get-restored :
      (k : String)
      → get k (restored s id target actor reason correlation now).releases
        ≡ (if k == id then some (reactivated target correlation) else get k s.releases)
  unfolding restored indexed
  get-restored k = get-insert k id _ _

  pub index-restored :
      (k : Key3)
      → get k (restored s id target actor reason correlation now).active_by_subject
        ≡ (if k == subject_key target then some id else get k s.active_by_subject)
  unfolding restored indexed
  index-restored k = get-insert k _ id _

module _ (s : Authority) (c : Creation) (now : ℕ) where
  pub get-added :
      (k : String)
      → get k (added s c now).releases
        ≡ (if k == c.release_id then some (new_release c now) else get k s.releases)
  unfolding added
  get-added k = get-insert k _ _ _

  pub index-added : (added s c now).active_by_subject ≡ s.active_by_subject
  unfolding added
  index-added = refl

pub ruleset reads = (
  get-written, index-written, get-indexed, releases-indexed, get-unindexed, releases-unindexed,
  get-restored, index-restored, get-added, index-added,
)
