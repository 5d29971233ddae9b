-- ===== src/Runs/Histories.antt =====
-- Histories of calls: what every run keeps.
use mathlib.Core.Path.{subst}
use alos_backend.Prelude.{
  ℕ, String, ◌≡◌, refl, sym, ◌∙◌, ap, inl, inr, some, List, [], ◌∷◌, false, ◌==◌, string_eq,
  Bool-cases,
}
use alos_backend.Prelude.Dict.{get, get-insert_same, get-insert_other}
use alos_backend.Prelude.Entries.{get-Every}
use alos_backend.Runs.State.{
  RunStatus, running, run_status_eq, run_status_iff, RunResult, RunRecord, Runs,
}
use alos_backend.Runs.Authority.{ended}
use alos_backend.Runs.Calls.{
  RunCall, apply, replay, Changed, unchanged, begun, finished, apply-Changed,
}
use alos_backend.Runs.Trails.{StandsAs, IsTraced, Changed-IsTraced}

-- The later record is the run with its end.
pub record IsSame (run later : RunRecord) : Type 0 where
  pub same : later ≡ record run {
    status = later.status;
    completed_at = later.completed_at;
    result = later.result;
  }
  pub final : (run.status == running) ≡ false → later ≡ run

IsSame-refl : (run : RunRecord) → IsSame run run
IsSame-refl run = record { same = refl; final = λ h. refl }

some-eq : {a b : RunRecord} → some a ≡ some b → a ≡ b
some-eq h = cc

not_running : (status : RunStatus) → status ≡ running → (status == running) ≡ false → ⊥
not_running status h k = (let wrong = sym ((run_status_iff status running).1 h) ∙ k in cc)

ended-IsSame :
    (current : RunRecord) (target : RunStatus) (result : RunResult) (now : ℕ)
    → current.status ≡ running
    → IsSame current (ended current target result now)
unfolding ended
ended-IsSame current target result now from = record {
  same = refl;
  final = λ h. absurd (not_running current.status from h);
}

Changed-IsSame :
    (s s' : Runs) (id : String) (run : RunRecord)
    → Changed s s'
    → IsTraced s
    → get id s.runs ≡ some run
    → (later : RunRecord) × (get id s'.runs ≡ some later) × IsSame run later
unfolding ended
Changed-IsSame s _ id run unchanged t at = (run, at, IsSame-refl run)
Changed-IsSame s _ id run (begun new now fresh free) t at = elim (Bool-cases (id == new.run_id)) [
  | inl same ↦
      (let equal = (string_eq.beq_iff id new.run_id).0 same in
        let wrong = sym free ∙ (ap (λ i. get i s.runs) (sym equal) ∙ at) in cc)
  | inr other ↦ (run, get-insert_other id new.run_id new s.runs other ∙ at, IsSame-refl run)
]
Changed-IsSame s _ id run (finished current target result now there from matching terminal) t at =
    elim (Bool-cases (id == current.run_id)) [
      | inl same ↦
          (let equal = (string_eq.beq_iff id current.run_id).0 same in
            let stands = get-Every StandsAs result.run_id current s.runs t.standing there in
            let found = sym there ∙ (ap (λ i. get i s.runs) (sym (equal ∙ stands.0)) ∙ at) in
            (
              ended current target result now,
              rw equal (get-insert_same current.run_id (ended current target result now) s.runs),
              subst (λ r. IsSame r (ended current target result now)) (some-eq found)
                  (ended-IsSame current target result now from),
            ))
      | inr other ↦ (
        run,
        get-insert_other id current.run_id (ended current target result now) s.runs other ∙ at,
        IsSame-refl run,
      )
    ]

IsSame-trans : (a b c : RunRecord) → IsSame a b → IsSame b c → IsSame a c
IsSame-trans a b c h k = record {
  same =
      k.same
      ∙ ap {A = RunRecord}
          (λ r. record r { status = c.status; completed_at = c.completed_at; result = c.result })
          h.same;
  final = λ over.
      let first = h.final over in
      k.final (ap (λ (r : RunRecord). r.status == running) first ∙ over) ∙ first;
}

pub IsSame-after :
    (calls : List (RunCall × ℕ)) (s : Runs) (id : String) (run : RunRecord)
    → IsTraced s
    → get id s.runs ≡ some run
    → (later : RunRecord) × (get id (replay calls s).runs ≡ some later) × IsSame run later
unfolding replay
IsSame-after [] s id run t at = (run, at, IsSame-refl run)
IsSame-after ((call, now) ∷ rest) s id run t at =
    let changed = apply-Changed call now s in
    let (next, at', same) = Changed-IsSame s (apply call now s) id run changed t at in
    let (last, at'', same') =
      IsSame-after rest (apply call now s) id next (Changed-IsTraced s (apply call now s) changed t)
        at' in
    (last, at'', IsSame-trans run next last same same')
