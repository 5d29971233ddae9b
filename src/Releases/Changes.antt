-- ===== src/Releases/Changes.antt =====
-- What a step leaves as it was, and what the audit log says of what it changes.
use mathlib.Core.List.{append_assoc, append-nil}
use text.Mathlib.TextEquality.{eq_iff}
use alos_backend.Prelude.{
  ℕ, String, ◌≡◌, refl, ◌∙◌, ap, some, [], ◌∷◌, ◌++◌, Bool, true, false, ◌||◌, ◌==◌, string_eq,
  arith, Bool-cases, inl, inr,
}
use alos_backend.Prelude.Dict.{get}
use alos_backend.Governance.{Materiality}
use alos_backend.Audit.{AuditEvent, AuditLog}
use alos_backend.Releases.State.{
  ReleaseState, returned, rejected, hold, blocked, GovernedRelease, Authority,
}
use alos_backend.Releases.IndexKept.{Puts}

-- what identifies a release, and its provenance
abbrev pub identity :
    GovernedRelease
    → String × String × String × String × String × String × String × Materiality × String × ℕ
identity r = (
  r.release_id, r.review_id, r.tenant_id, r.organization_id, r.workspace_id, r.subject_id,
  r.subject_version, r.materiality, r.created_by, r.created_at,
)

-- the states in which a decision ends a release
abbrev pub is_closed : ReleaseState → Bool
is_closed returned = true
is_closed rejected = true
is_closed hold = true
is_closed blocked = true
is_closed _ = false

-- Some event is about the release.
unfoldable pub mentions : String → AuditLog → Bool
mentions id [] = false
mentions id (event ∷ rest) = event.entity_id == id || mentions id rest

pub mentions-append :
    (id : String) (xs ys : AuditLog) → mentions id (xs ++ ys) ≡ (mentions id xs || mentions id ys)
unfolding mentions
mentions-append id [] ys = refl
mentions-append id (x ∷ xs) ys = ground (arith, mentions-append id xs ys)

-- How the authority may change.
pub record Grows (s s' : Authority) : Type 0 where
  pub events : AuditLog
  pub log : s'.audit ≡ s.audit ++ events
  pub silent : (id : String) → mentions id events ≡ false → get id s'.releases ≡ get id s.releases
  pub kept :
      (id : String) (r : GovernedRelease)
      → get id s.releases ≡ some r
      → (r' : GovernedRelease) × (get id s'.releases ≡ some r')
        × (identity r' ≡ identity r)
        × (is_closed r.state ≡ true → r' ≡ r)

pub Grows-trans : {s t u : Authority} → Grows s t → Grows t u → Grows s u
Grows-trans {s} {t} {u} g h = record {
  events = g.events ++ h.events;
  log = h.log ∙ rw g.log (append_assoc s.audit g.events h.events);
  silent = λ id m.
      let m' : (mentions id g.events || mentions id h.events) ≡ false = rw mentions-append at m in
      h.silent id (ground arith) ∙ g.silent id (ground arith);
  kept = λ id r found.
      let (r', at', same', closed') = g.kept id r found in
      let (r'', at'', same'', closed'') = h.kept id r' at' in
      (r'', at'', same'' ∙ same', λ c. closed'' (rw (closed' c) c) ∙ closed' c);
}

-- One release is written, with one event about it.
module _ {s s' : Authority} (id : String) (new : GovernedRelease) (event : AuditEvent) where
  pub Grows-put :
      Puts s s' id new
      → s'.audit ≡ s.audit ++ event ∷ []
      → event.entity_id ≡ id
      → ((r : GovernedRelease)
          → get id s.releases ≡ some r
          → (identity new ≡ identity r) × (is_closed r.state ≡ false))
      → Grows s s'
  unfolding mentions
  Grows-put puts log name old = record {
    events = event ∷ [];
    log = log;
    silent = λ k m. rw puts (ground (arith, eq_iff k id, eq_iff event.entity_id k));
    kept = λ k r found. elim (Bool-cases (k == id)) [
      | inl same ↦
          (let (same_identity, open_state) = old r (ground (arith, eq_iff k id)) in
            (new, rw puts (rw same), same_identity, λ c. ground arith))
      | inr other ↦ (r, rw puts (rw other found), refl, λ c. refl)
    ];
  }

pub Grows-same : {s s' : Authority} → s'.releases ≡ s.releases → s'.audit ≡ s.audit → Grows s s'
Grows-same {s} {s'} rel log = record {
  events = [];
  log = log ∙ (rw append-nil);
  silent = λ id m. ap (get id) rel;
  kept = λ id r found. (r, ap (get id) rel ∙ found, refl, λ c. refl);
}
