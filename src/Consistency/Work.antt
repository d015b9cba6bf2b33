-- ===== src/Consistency/Work.antt =====
-- What the job of spur_api/worker/tasks.py writes, and consistency.
use spur_api.Base.{
  ℕ, ◌≡◌, refl, some, none, List, arith, Option-cases, Bool-cases, inl, inr, length, keep_if,
}
use spur_api.Base.Int.{ℤ}
use spur_api.Database.{SimulationRunRow, State}
use spur_api.Action.{Result, ok, err}
use spur_api.Spur.{SimEvent}
use spur_api.Runs.{find_run, save_run}
use spur_api.Worker.Runner.{Outcome}
use spur_api.Worker.Tasks.{
  Session, update_run, on_chunk, set_running, set_failed, set_finished, set_sim_time, store_events,
  taken, is_empty, conclude, settle,
}
use spur_api.Worker.Tasks.Lifecycle.{
  on_chunk-stores, on_chunk-clash, conclude-broken, conclude-whole,
}
use spur_api.Consistency.{IsConsistent}
use spur_api.Consistency.Runs.{SameRun, save_run-IsConsistent, IsConsistent-frame}

-- A job keeps a state consistent and the projects as they are.
abbrev pub Keeps : State → State → Type 0
Keeps s t = (IsConsistent s → IsConsistent t) × (t.projects ≡ s.projects)

update_run-missing :
    (i : ℕ) (change : SimulationRunRow → SimulationRunRow) (s : State)
    → find_run i s ≡ none
    → (update_run i change s).1 ≡ s
unfolding update_run
update_run-missing i change s missing = ground arith

update_run-saves :
    (i : ℕ) (change : SimulationRunRow → SimulationRunRow) (s : State) (r : SimulationRunRow)
    → find_run i s ≡ some r
    → (update_run i change s).1 ≡ save_run (change r) s
unfolding update_run
update_run-saves i change s r found = ground arith

update_run-Keeps :
    (i : ℕ) (change : SimulationRunRow → SimulationRunRow) (s : State)
    → ((r : SimulationRunRow) → SameRun r (change r))
    → Keeps s (update_run i change s).1
update_run-Keeps i change s same = elim (Option-cases (find_run i s)) [
  | inl missing ↦ rw (update_run-missing i change s missing) ((λ h. h), refl)
  | inr (r, found) ↦
      rw (update_run-saves i change s r found)
        ((λ h. save_run-IsConsistent i r (change r) s found (same r) h), refl)
]

pub start_work-Keeps : (i now : ℕ) (s : State) → Keeps s (update_run i (set_running now) s).1
start_work-Keeps i now s =
    update_run-Keeps i (set_running now) s
      (λ r. record { project_id = refl; project_version = refl; spec_snapshot = refl })

settle-Keeps : (i now : ℕ) (x : Result Outcome) (s : State) → Keeps s (settle i now x s).1
unfolding settle
settle-Keeps i now (err e) s =
    update_run-Keeps i (set_failed now e) s
      (λ r. record { project_id = refl; project_version = refl; spec_snapshot = refl })
settle-Keeps i now (ok outcome) s =
    update_run-Keeps i (set_finished now outcome) s
      (λ r. record { project_id = refl; project_version = refl; spec_snapshot = refl })

pub end_work-Keeps :
    (i now : ℕ) (x : Result Outcome) (w : Session) → Keeps w.db (conclude i now (x, w)).1
end_work-Keeps i now x w = elim (Bool-cases w.broken) [
  | inl failed ↦ rw (conclude-broken i now x w failed) ((λ h. h), refl)
  | inr whole ↦ rw (conclude-whole i now x w whole) (settle-Keeps i now x w.db)
]

on_chunk-missing :
    (i : ℕ) (time : ℤ) (events : List SimEvent) (w : Session)
    → find_run i w.db ≡ none
    → (on_chunk i time events w).1.db ≡ w.db
unfolding on_chunk update_run
on_chunk-missing i time events w missing = ground arith

pub on_chunk-Keeps :
    (i : ℕ) (time : ℤ) (events : List SimEvent) (w : Session)
    → Keeps w.db (on_chunk i time events w).1.db
on_chunk-Keeps i time events w = elim (Option-cases (find_run i w.db)) [
  | inl missing ↦ rw (on_chunk-missing i time events w missing) ((λ h. h), refl)
  | inr (r, found) ↦
      elim (Bool-cases (is_empty (keep_if (taken i w.seq (length events)) w.db.run_events))) [
        | inr clash ↦ rw (on_chunk-clash i time events w clash) ((λ h. h), refl)
        | inl free ↦
            let stored = store_events i w.seq events w.db in
            rw (on_chunk-stores i time events w r found free) (
              (λ h.
                  save_run-IsConsistent i r (set_sim_time time r) stored found
                    (record { project_id = refl; project_version = refl; spec_snapshot = refl })
                    (IsConsistent-frame w.db stored refl refl h)),
              refl,
            )
      ]
]
