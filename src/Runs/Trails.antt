-- ===== src/Runs/Trails.antt =====
-- What the log says of every run, after a history of calls.
use alos_backend.Prelude.{
  ℕ, String, ◌≡◌, refl, sym, ◌∙◌, ap, inl, inr, Option, none, some, List, [], ◌∷◌, ◌++◌, true,
  false, ◌==◌, string_eq, arith, Bool-cases, if◌then◌else◌,
}
use alos_backend.Prelude.Dict.{get, insert, get-insert_same, get-insert_other}
use alos_backend.Prelude.Entries.{Every, insert-Every, get-Every}
use alos_backend.Audit.{AuditEvent, AuditLog, append}
use alos_backend.Runs.State.{
  RunStatus, running, run_status_eq, run_status_beq, status_name, RunResult, RunRecord, Runs,
}
use alos_backend.Runs.Authority.{matches_run, ended, ending, run_event}
use alos_backend.Runs.Calls.{
  RunCall, apply, replay, IsNew, Changed, unchanged, begun, finished, apply-Changed,
}

-- The events of a run: their types and outcomes, in order.
unfoldable pub trail : String → AuditLog → List (String × String)
trail id [] = []
trail id (event ∷ rest) =
    let later = trail id rest in
    if event.entity_id == id then (event.event_type, event.outcome) ∷ later else later

-- The events that the log is to have of a run.
unfoldable pub trail_of : Option RunRecord → List (String × String)
unfolding status_name
trail_of none = []
trail_of (some run) =
    ("run.started", "RUNNING")
    ∷ (if run.status == running then [] else (ending run.status, status_name run.status) ∷ [])

-- A run is new, or it has ended with a result that names it.
pub data IsSettled (run : RunRecord) : Type 0 where
  going : IsNew run → IsSettled run
  over :
      (time : ℕ) (result : RunResult)
      → (run.status == running) ≡ false
      → run.completed_at ≡ some time
      → run.result ≡ some result
      → matches_run run result ≡ true
      → IsSettled run

abbrev pub StandsAs : String → RunRecord → Type 0
StandsAs id run = (run.run_id ≡ id) × IsSettled run

pub record IsTraced (s : Runs) : Type 0 where
  pub standing : Every StandsAs s.runs
  pub traced : (id : String) → trail id s.log ≡ trail_of (get id s.runs)

beq_flip : (a b : String) → (a == b) ≡ false → (b == a) ≡ false
beq_flip a b h = ground (arith, string_eq.beq_iff a b, string_eq.beq_iff b a)

trail-append_same :
    (id : String) (log : AuditLog) (event : AuditEvent)
    → event.entity_id ≡ id
    → trail id (append event log) ≡ trail id log ++ (event.event_type, event.outcome) ∷ []
unfolding trail
trail-append_same id [] event h = rw ((string_eq.beq_iff event.entity_id id).1 h) refl
trail-append_same id (e ∷ log) event h = elim (Bool-cases (e.entity_id == id)) [
  | inl same ↦ rw same (ap (λ t. (e.event_type, e.outcome) ∷ t) (trail-append_same id log event h))
  | inr other ↦ rw other (trail-append_same id log event h)
]

trail-append_other :
    (id : String) (log : AuditLog) (event : AuditEvent)
    → (event.entity_id == id) ≡ false
    → trail id (append event log) ≡ trail id log
unfolding trail
trail-append_other id [] event h = rw h refl
trail-append_other id (e ∷ log) event h = elim (Bool-cases (e.entity_id == id)) [
  | inl same ↦ rw same (ap (λ t. (e.event_type, e.outcome) ∷ t) (trail-append_other id log event h))
  | inr other ↦ rw other (trail-append_other id log event h)
]

-- A run is stored with an event that is next on its trail.
abbrev stored : RunRecord → AuditEvent → Runs → Runs
stored run event s = record { runs = insert run.run_id run s.runs; log = append event s.log }

stored-IsTraced :
    (s : Runs) (run : RunRecord) (event : AuditEvent)
    → IsTraced s
    → IsSettled run
    → event.entity_id ≡ run.run_id
    → trail_of (get run.run_id s.runs) ++ (event.event_type, event.outcome) ∷ []
      ≡ trail_of (some run)
    → IsTraced (stored run event s)
stored-IsTraced s run event t settled named next = record {
  standing = insert-Every StandsAs run.run_id run s.runs (refl, settled) t.standing;
  traced = λ id. elim (Bool-cases (id == run.run_id)) [
    | inl same ↦
        (let equal : id ≡ run.run_id = (string_eq.beq_iff id run.run_id).0 same in
          rw (equal, get-insert_same run.run_id run s.runs)
            (trail-append_same run.run_id s.log event named
              ∙ ap (λ t. t ++ (event.event_type, event.outcome) ∷ []) (t.traced run.run_id)
              ∙ next))
    | inr other ↦ rw (get-insert_other id run.run_id run s.runs other) (
        trail-append_other id s.log event (ap (λ x. x == id) named ∙ beq_flip id run.run_id other)
        ∙ t.traced id)
  ];
}

abbrev later_trail : RunStatus → List (String × String)
later_trail status = if status == running then [] else (ending status, status_name status) ∷ []

trail_of-running :
    (run : RunRecord) → run.status ≡ running → trail_of (some run) ≡ ("run.started", "RUNNING") ∷ []
unfolding trail_of run_status_beq
trail_of-running run h = ap (λ status. ("run.started", "RUNNING") ∷ later_trail status) h

trail_of-ended :
    (run : RunRecord)
    → (run.status == running) ≡ false
    → trail_of (some run)
      ≡ ("run.started", "RUNNING") ∷ ((ending run.status, status_name run.status) ∷ [])
unfolding trail_of
trail_of-ended run h =
    ap
      (λ b.
        ("run.started", "RUNNING")
        ∷ (if b then [] else (ending run.status, status_name run.status) ∷ []))
      h

begun_trail :
    (s : Runs) (run : RunRecord)
    → run.status ≡ running
    → get run.run_id s.runs ≡ none
    → trail_of (get run.run_id s.runs) ++ ("run.started", status_name run.status) ∷ []
      ≡ trail_of (some run)
unfolding trail_of
begun_trail s run new free =
    ap (λ o. trail_of o ++ ("run.started", status_name run.status) ∷ []) free
    ∙ ap (λ status. ("run.started", status_name status) ∷ []) new
    ∙ sym (trail_of-running run new)

ended_trail :
    (s : Runs) (id : String) (current run : RunRecord)
    → get id s.runs ≡ some current
    → current.status ≡ running
    → (run.status == running) ≡ false
    → trail_of (get id s.runs) ++ (ending run.status, status_name run.status) ∷ []
      ≡ trail_of (some run)
ended_trail s id current run at from terminal =
    ap (λ t. t ++ (ending run.status, status_name run.status) ∷ [])
      (ap trail_of at ∙ trail_of-running current from)
    ∙ sym (trail_of-ended run terminal)

pub Changed-IsTraced : (s s' : Runs) → Changed s s' → IsTraced s → IsTraced s'
unfolding run_event ended matches_run
Changed-IsTraced s _ unchanged t = t
Changed-IsTraced s _ (begun run now fresh free) t =
    stored-IsTraced s run (run_event run "run.started" now) t (going fresh) refl
      (begun_trail s run fresh.is_running free)
Changed-IsTraced s _ (finished current target result now at from matching terminal) t =
    let stands = get-Every StandsAs result.run_id current s.runs t.standing at in
    stored-IsTraced s (ended current target result now) _ t
      (over now result terminal refl refl matching) refl
      (ended_trail s current.run_id current (ended current target result now)
        (ap (λ id. get id s.runs) stands.0 ∙ at) from terminal)

pub replay-IsTraced :
    (calls : List (RunCall × ℕ)) (s : Runs) → IsTraced s → IsTraced (replay calls s)
unfolding replay
replay-IsTraced [] s t = t
replay-IsTraced ((call, now) ∷ rest) s t =
    replay-IsTraced rest (apply call now s)
      (Changed-IsTraced s (apply call now s) (apply-Changed call now s) t)

abbrev pub no_runs : Runs
no_runs = record { runs = []; log = [] }

pub no_runs-IsTraced : IsTraced no_runs
unfolding trail get trail_of
no_runs-IsTraced = record { standing = tt; traced = λ id. refl }

-- After any history of calls the log has no event of an id without a run, one start of a run that
-- is running, and one start and then one end with its status of any other run.
pub replay-trail :
    (calls : List (RunCall × ℕ)) (id : String)
    → trail id (replay calls no_runs).log ≡ trail_of (get id (replay calls no_runs).runs)
replay-trail calls id = (replay-IsTraced calls no_runs no_runs-IsTraced).traced id
