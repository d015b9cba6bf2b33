-- ===== src/Worker/Tasks/Meanwhile.antt =====
-- The requests that spur_api/worker/tasks.py reckons with while a job runs: cancelling its run, and
-- cancelling or renaming any run.
use spur_api.Base.{
  ℕ, ◌≡◌, refl, ap, ◌∙◌, ◌⊎◌, String, Option, some, arith, inl, inr, true, Option-cases, Bool-cases,
  ◌==◌, ==_iff,
}
use spur_api.Database.{SimulationRunRow, State}
use spur_api.Projects.{run_key}
use spur_api.Runs.{find_run, save_run, rename_run, request_cancel}
use spur_api.Runs.Branches.{
  rename_run-found, rename_run-missing, request_cancel-found, request_cancel-missing,
}
use spur_api.Table.Laws.{get-save, key-get}
use spur_api.Worker.Tasks.Lifecycle.{Survives}
use spur_api.Worker.Tasks.Storage.{KeepsEvents}

-- A row that is saved under the key, the snapshot and the status of one that was there
pub record IsSavedOver (s s' : State) : Type 0 where
  pub row : SimulationRunRow
  pub row' : SimulationRunRow
  pub there : find_run (run_key row) s ≡ some row
  pub saved : s' ≡ save_run row' s
  pub key : run_key row' ≡ run_key row
  pub snapshot : row'.spec_snapshot ≡ row.spec_snapshot
  pub status : row'.status ≡ row.status

-- A request that edits at most one run, and neither its snapshot nor its status.
abbrev pub IsEdit : (State → State) → Type 0
IsEdit request = (s : State) → (request s ≡ s) ⊎ IsSavedOver s (request s)

module _ (j : ℕ) where
  pub request_cancel-IsEdit : IsEdit (λ s. (request_cancel j s).1)
  request_cancel-IsEdit s = elim (Option-cases (find_run j s)) [
    | inl missing ↦ inl (rw (request_cancel-missing j s missing) refl)
    | inr (r, found) ↦
        let at : run_key r ≡ j = key-get run_key j s.simulation_runs found in
        inr (record {
          row = r;
          row' = record r { cancel_requested = true };
          there = cc (found, at);
          saved = rw (request_cancel-found j s r found) refl;
          key = refl;
          snapshot = refl;
          status = refl;
        })
  ]

  pub rename_run-IsEdit : (name : Option String) → IsEdit (λ s. (rename_run j name s).1)
  rename_run-IsEdit name s = elim (Option-cases (find_run j s)) [
    | inl missing ↦ inl (rw (rename_run-missing j s missing name) refl)
    | inr (r, found) ↦
        let at : run_key r ≡ j = key-get run_key j s.simulation_runs found in
        inr (record {
          row = r;
          row' = record r { name = name };
          there = cc (found, at);
          saved = rw (rename_run-found j s r found name) refl;
          key = refl;
          snapshot = refl;
          status = refl;
        })
  ]

module _ (i : ℕ) (request : State → State) (edit : IsEdit request) where
  saved_over :
      (s s' : State) (x : SimulationRunRow)
      → IsSavedOver s s'
      → find_run i s ≡ some x
      → (y : SimulationRunRow) × (find_run i s' ≡ some y)
        × (y.spec_snapshot ≡ x.spec_snapshot)
        × (y.status ≡ x.status)
  saved_over s s' x h there =
      let kx : run_key x ≡ i = key-get run_key i s.simulation_runs there in
      let found = get-save run_key i h.row' s.simulation_runs in
      elim (Bool-cases (run_key h.row == i)) [
        | inl same ↦
            let here : run_key h.row ≡ i = (==_iff (run_key h.row) i).0 same in
            let row : h.row ≡ x = cc (h.there, here, there) in
            (
              h.row',
              rw h.saved (ground (arith, found, h.key, here, there)),
              h.snapshot ∙ ap (λ (z : SimulationRunRow). z.spec_snapshot) row,
              h.status ∙ ap (λ (z : SimulationRunRow). z.status) row,
            )
        | inr differs ↦ (x, rw h.saved (ground (arith, found, h.key, differs, there)), refl, refl)
      ]

  -- The run is still there, with its snapshot and its status.
  pub edited_run :
      (s : State) (x : SimulationRunRow)
      → find_run i s ≡ some x
      → (y : SimulationRunRow) × (find_run i (request s) ≡ some y)
        × (y.spec_snapshot ≡ x.spec_snapshot)
        × (y.status ≡ x.status)
  edited_run s x there = elim (edit s) [
    | inl same ↦ (x, rw same there, refl, refl)
    | inr over ↦ saved_over s (request s) x over there
  ]

  pub edit-Survives : Survives i request
  edit-Survives s there gone = elim (Option-cases (find_run i s)) [
    | inl missing ↦ there missing
    | inr (x, found) ↦
        let (y, still, snapshot, status) = edited_run s x found in absurd (cc (still, gone))
  ]

module _ (request : State → State) (edit : IsEdit request) where
  pub edited_events : (s : State) → (request s).run_events ≡ s.run_events
  edited_events s = elim (edit s) [
    | inl same ↦ ap (λ (t : State). t.run_events) same
    | inr over ↦ ap (λ (t : State). t.run_events) over.saved
  ]

  pub edited_jobs : (s : State) → (request s).jobs ≡ s.jobs
  edited_jobs s = elim (edit s) [
    | inl same ↦ ap (λ (t : State). t.jobs) same
    | inr over ↦ ap (λ (t : State). t.jobs) over.saved
  ]

  pub edit-KeepsEvents : (i : ℕ) → KeepsEvents i request
  edit-KeepsEvents i s = rw (edited_events s) refl
