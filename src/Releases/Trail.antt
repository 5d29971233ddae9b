-- ===== src/Releases/Trail.antt =====
-- What the audit log says of the moves of a release.
use mathlib.Core.Bool.{◌&&◌}
use text.Mathlib.TextPositions.{eq_refl}
use alos_backend.Prelude.{
  ℕ, String, ◌≡◌, Option, some, [], ◌∷◌, Bool, true, false, ◌||◌, ◌==◌, string_eq, arith,
}
use alos_backend.Json.{Json, string, get_field}
use alos_backend.Audit.{ActorKind, human, system, AuditEvent, AuditLog, append}
use alos_backend.Releases.State.{ReleaseState, value, GovernedRelease}
use alos_backend.Releases.Authority.{Options, transition_event}

-- the member is a text, and is this one
abbrev is_text : Option Json → String → Bool
is_text (some (string t)) s = t == s
is_text _ s = false

abbrev is_human : ActorKind → Bool
is_human human = true
is_human system = false

-- The event says that a human moved the release from the one state to the other.
unfoldable pub is_move : String → ReleaseState → ReleaseState → AuditEvent → Bool
unfolding get_field
is_move id source target event =
    event.entity_type == "release"
    && (event.entity_id == id
        && (is_human event.actor_kind
            && (is_text (get_field "from" event.metadata) (value source)
                && is_text (get_field "to" event.metadata) (value target))))

unfoldable pub logged : String → ReleaseState → ReleaseState → AuditLog → Bool
logged id source target [] = false
logged id source target (event ∷ rest) =
    is_move id source target event || logged id source target rest

pub logged-append :
    (id : String) (source target : ReleaseState) (event : AuditEvent) (log : AuditLog)
    → logged id source target (append event log)
      ≡ (logged id source target log || is_move id source target event)
unfolding logged
logged-append id source target event [] = ground arith
logged-append id source target event (first ∷ rest) =
    ground (arith, logged-append id source target event rest)

pub logged-append_old :
    (id : String) (source target : ReleaseState) (event : AuditEvent) (log : AuditLog)
    → logged id source target log ≡ true
    → logged id source target (append event log) ≡ true
logged-append_old id source target event log h = rw logged-append (rw h)

-- A human transition is logged as such.
pub is_move-transition_event :
    (before after : GovernedRelease) (actor : String) (options : Options) (now : ℕ)
    → options.actor_kind ≡ human
    → is_move after.release_id before.state after.state
        (transition_event before after actor options now)
      ≡ true
unfolding is_move transition_event
is_move-transition_event before after actor options now h =
    ground (
      arith,
      h,
      eq_refl after.release_id,
      eq_refl (value before.state),
      eq_refl (value after.state),
    )
