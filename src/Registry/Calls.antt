-- ===== src/Registry/Calls.antt =====
-- The calls that change a registry, so that a history of calls is a list. `hydrate` reads the store
-- again and is not among them.
use alos_backend.Prelude.{ℕ, String, List, [], ◌∷◌, Key4}
use alos_backend.Json.{Fields}
use alos_backend.Registry.State.{RegistryEntry, Kind, Registry}
use alos_backend.Registry.Versions
use alos_backend.Registry.Versions.{Method, Context}

pub data RegistryCall : Type 0 where
  register : Fields → Context → RegistryCall
  approve : Key4 → String → String → String → String → RegistryCall
  activate : Key4 → String → String → String → RegistryCall
  suspend : Key4 → String → String → RegistryCall

unfoldable pub apply : Kind → RegistryCall → ℕ → Method RegistryEntry
apply kind (register payload context) now = Versions.register kind payload context now
apply kind (approve key actor decision authority correlation) now =
    Versions.approve key actor decision authority correlation now
apply kind (activate key actor release correlation) now =
    Versions.activate key actor release correlation now
apply kind (suspend key actor correlation) now = Versions.suspend key actor correlation now

unfoldable pub apply_all : Kind → List (RegistryCall × ℕ) → Registry → Registry
apply_all kind [] r = r
apply_all kind ((call, now) ∷ rest) r = apply_all kind rest (apply kind call now r).1
