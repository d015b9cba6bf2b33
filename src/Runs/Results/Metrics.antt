-- ===== src/Runs/Results/Metrics.antt =====
-- What `get_run_summary` and `get_run_visits` of spur_api/services/runs_service.py read and return.
use spur_api.Base.{
  ℕ, keep_if, map, if◌then◌else◌, ◌+◌, ◌≡◌, refl, ap, ◌∙◌, String, Option, some, List, ◌++◌,
  page-append, arith, inl, inr,
}
use spur_api.Base.Int.{ℤ, pos}
use spur_api.Json.{Fields}
use spur_api.Database.{SimulationRunRow, State, RunStatus}
use spur_api.Action.{Result-cases, Result, ok, err, run_not_ready}
use spur_api.Spur.{SimEvent}
use spur_api.Base.Sort.{sort_by}
use spur_api.Table
use spur_api.Projects.{run_key, ProjectCreate, update_project}
use spur_api.Runs.{find_run, get_row}
use spur_api.Runs.Results.{
  chosen, Analyzed, Analysis, Visit, analyze_run, get_run_summary, get_run_visits, of_train,
  of_component, or_mismatch, is_queued, event_from_row, everything, is_wanted, comes_first,
}

module _ (analyze : List SimEvent → Fields → ℤ → Analyzed Analysis) where
  -- The answer for a run with a snapshot, by its events.
  abbrev judged : ℕ → ℤ → SimulationRunRow → Fields → List SimEvent → Result (RunStatus × Analysis)
  judged i threshold r spec events =
      if is_queued r.status
      then err (run_not_ready i)
      else or_mismatch i r.status (analyze events spec threshold)

  analyze_run-judged :
      (i : ℕ) (threshold : ℤ) (s : State) (r : SimulationRunRow) (spec : Fields)
      → find_run i s ≡ some r
      → r.spec_snapshot ≡ some spec
      → analyze_run analyze i threshold s
        ≡ (judged i threshold r spec (map event_from_row (chosen i everything s)), s)
  unfolding analyze_run get_row
  analyze_run-judged i threshold s r spec found has_spec = ground arith

  -- The tables of runs and of events decide.
  same_result :
      (i : ℕ) (threshold : ℤ) (s t : State) (r : SimulationRunRow) (spec : Fields)
      → find_run i s ≡ some r
      → r.spec_snapshot ≡ some spec
      → t.simulation_runs ≡ s.simulation_runs
      → t.run_events ≡ s.run_events
      → analyze_run analyze i threshold t ≡ ((analyze_run analyze i threshold s).0, t)
  unfolding chosen
  same_result i threshold s t r spec found has_spec runs events =
      let there : find_run i t ≡ some r = ap (Table.get run_key i) runs ∙ found in
      let rows : chosen i everything t ≡ chosen i everything s =
        ap (λ all. sort_by comes_first (keep_if (is_wanted i everything) all)) events in
      rw
        (
          analyze_run-judged i threshold t r spec there has_spec,
          analyze_run-judged i threshold s r spec found has_spec,
          rows,
        )
        refl

  update_project-runs :
      (now j : ℕ) (body : ProjectCreate) (expected : Option ℤ) (s : State)
      → let t = (update_project now j body expected s).1 in
        (t.simulation_runs ≡ s.simulation_runs) × (t.run_events ≡ s.run_events)
  unfolding update_project
  update_project-runs now j body expected s = ground arith

  -- The summary and the visits of a run with a snapshot are the same whatever is saved for any
  -- project in the meantime, and reading them changes nothing.
  pub results_of_snapshot :
      (i : ℕ) (threshold : ℤ) (train component : Option String) (limit offset : ℕ) (s : State)
      (r : SimulationRunRow) (spec : Fields) (now j : ℕ) (body : ProjectCreate)
      (expected : Option ℤ)
      → find_run i s ≡ some r
      → r.spec_snapshot ≡ some spec
      → let t = (update_project now j body expected s).1 in
        (get_run_summary analyze i threshold t ≡ ((get_run_summary analyze i threshold s).0, t))
        × (get_run_visits analyze i train component limit offset t
            ≡ ((get_run_visits analyze i train component limit offset s).0, t))
  unfolding get_run_summary get_run_visits
  results_of_snapshot i threshold train component limit offset s r spec now j body expected found
        has_spec =
      let t = (update_project now j body expected s).1 in
      let (runs, events) = update_project-runs now j body expected s in
      (
        ground (arith, same_result i threshold s t r spec found has_spec runs events),
        ground (arith, same_result i (pos 120) s t r spec found has_spec runs events),
      )

  -- Pages of a run's visits that follow each other are one.
  pub visit_pages :
      (i : ℕ) (train component : Option String) (m n offset : ℕ) (s : State) (xs ys : List Visit)
      → (get_run_visits analyze i train component m offset s).0 ≡ ok xs
      → (get_run_visits analyze i train component n (offset + m) s).0 ≡ ok ys
      → (get_run_visits analyze i train component (m + n) offset s).0 ≡ ok (xs ++ ys)
  unfolding get_run_visits
  visit_pages i train component m n offset s xs ys first second =
      elim (Result-cases (analyze_run analyze i (pos 120) s).0) [
        | inl (e, raised) ↦ absurd (ground arith)
        | inr ((status, a), judged) ↦ ground (
          arith,
          page-append m n offset (of_component analyze component (of_train analyze train a.visits)),
        )
      ]
