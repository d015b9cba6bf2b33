-- ===== src/Runs/Submit/Batch.antt =====
-- What `submit_run` of spur_api/services/runs_service.py leaves behind when it is accepted: the rows of
-- the batch and their jobs.
use mathlib.Core.List.{append_assoc, append-nil}
use spur_api.Base.{
  ℕ, zero, suc, ◌+◌, ◌≤◌, ◌<◌, ◌≡◌, ◌≢◌, refl, ap, sym, ◌∙◌, String, Bool, ◌&&◌, ltb, leb, Option,
  none, some, List, [], ◌∷◌, ◌++◌, map, arith, ◌==◌, inl, inr, Bool-cases, Option-cases,
}
use spur_api.Base.Int.{ℤ}
use spur_api.Database.{ProjectRow, SimulationRunRow, State}
use spur_api.Action.{ok}
use spur_api.Projects.{run_key}
use spur_api.Runs.{to_schema, get_row, find_run}
use spur_api.Runs.Submit.{
  Outside, Submission, run_row, run_rows, insert_all, add_runs, set_job, record_jobs, save_jobs,
  enqueue_rows, first_run,
}
use spur_api.Consistency.Runs.{HasNewIds}
use spur_api.Table
use spur_api.Table.Laws.{get-insert, get-map, key-get}

-- The ids of the runs from the `i`-th on.
unfoldable pub ids_from : Outside → ℕ → ℕ → List ℕ
ids_from o i zero = []
ids_from o i (suc n) = o.run_id i ∷ ids_from o (i + 1) n

-- One of the runs from the `i`-th on, `n` of them.
abbrev pub in_range : ℕ → ℕ → ℕ → Bool
in_range i n k = leb i k && ltb k (i + n)

module _ (o : Outside) (job : ℕ → String) where
  unfoldable pub jobs_from : ℕ → ℕ → List (ℕ × Option String)
  jobs_from i zero = []
  jobs_from i (suc n) = (o.run_id i, some (job i)) ∷ jobs_from (i + 1) n

  -- The second commit, on one row.
  apply_jobs : List (ℕ × Option String) → SimulationRunRow → SimulationRunRow
  apply_jobs [] r = r
  apply_jobs (j ∷ jobs) r = apply_jobs jobs (set_job j r)

  get-record_jobs :
      (k : ℕ) (jobs : List (ℕ × Option String)) (rows : List SimulationRunRow)
      → Table.get run_key k (record_jobs jobs rows)
        ≡ elim (Table.get run_key k rows) [ none ↦ none | some r ↦ some (apply_jobs jobs r) ]
  unfolding record_jobs apply_jobs
  get-record_jobs k [] rows = ground arith
  get-record_jobs k (j ∷ jobs) rows = ground (
    arith,
    get-record_jobs k jobs (map (set_job j) rows),
    get-map run_key (set_job j) k rows (λ x. refl),
  )

  apply_jobs-other :
      (i n : ℕ) (r : SimulationRunRow)
      → ((k : ℕ) → i ≤ k → k < i + n → r.id ≢ o.run_id k)
      → apply_jobs (jobs_from i n) r ≡ r
  unfolding apply_jobs jobs_from
  apply_jobs-other i zero r other = refl
  apply_jobs-other i (suc n) r other =
      let here : r.id ≢ o.run_id i = other i (omega arith) (omega arith) in
      ground (
        arith,
        here,
        apply_jobs-other (i + 1) n r (λ k above below. other k (omega arith) (omega arith)),
      )

  module _ (distinct : (i j : ℕ) → o.run_id i ≡ o.run_id j → i ≡ j) where
    apply_jobs-own :
        (i n k : ℕ) (r : SimulationRunRow)
        → r.id ≡ o.run_id k
        → i ≤ k
        → k < i + n
        → apply_jobs (jobs_from i n) r ≡ record r { arq_job_id = some (job k) }
    unfolding apply_jobs jobs_from
    apply_jobs-own i zero k r own above below = absurd (omega arith)
    apply_jobs-own i (suc n) k r own above below = elim (Bool-cases (i == k)) [
      | inl now ↦
          let here : i ≡ k = ground arith in
          let mine : r.id ≡ o.run_id i = own ∙ ap o.run_id (sym here) in
          let queued = record r { arq_job_id = some (job i) } in
          let rest : apply_jobs (jobs_from (i + 1) n) queued ≡ queued =
            apply_jobs-other (i + 1) n queued λ j further before same.
              let hit : i ≡ j = distinct i j (sym mine ∙ same) in absurd (omega arith) in
          ground (arith, here, mine, rest)
      | inr later ↦
          let further : i ≢ k = ground arith in
          let not_mine : r.id ≢ o.run_id i = λ same. further (distinct i k (sym same ∙ own)) in
          ground (arith, not_mine, apply_jobs-own (i + 1) n k r own (omega arith) (omega arith))
    ]

  module _ (p : ProjectRow) (body : Submission) (until_target : ℤ) (first : ℕ) where
    abbrev pub row : ℕ → SimulationRunRow
    row k = run_row o p body until_target first k

    abbrev pub rows_from : ℕ → ℕ → List SimulationRunRow
    rows_from i n = run_rows o p body until_target first i n

    -- Each job is queued, in order.
    pub enqueue_rows-jobs :
        ((k : ℕ) → o.enqueue (o.run_id k) ≡ some (some (job k)))
        → (i n : ℕ) (s : State)
        → enqueue_rows o (rows_from i n) s
          ≡ (ok (jobs_from i n), record s { jobs = s.jobs ++ ids_from o i n })
    unfolding run_rows run_row enqueue_rows jobs_from ids_from
    enqueue_rows-jobs works i zero s = rw (append-nil s.jobs) refl
    enqueue_rows-jobs works i (suc n) s = ground (
      arith,
      works i,
      append_assoc s.jobs (o.run_id i ∷ []) (ids_from o (i + 1) n),
      enqueue_rows-jobs works (i + 1) n (record s { jobs = s.jobs ++ o.run_id i ∷ [] }),
    )

    -- The rows are added behind those that there are.
    get-insert_all-old :
        (j i n : ℕ) (runs : List SimulationRunRow)
        → ((k : ℕ) → i ≤ k → k < i + n → o.run_id k ≢ j)
        → Table.get run_key j (insert_all (rows_from i n) runs) ≡ Table.get run_key j runs
    unfolding run_rows run_row insert_all
    get-insert_all-old j i zero runs other = refl
    get-insert_all-old j i (suc n) runs other =
        let here : o.run_id i ≢ j = other i (omega arith) (omega arith) in
        ground (
          arith,
          here,
          get-insert run_key j (row i) runs,
          get-insert_all-old j (i + 1) n (Table.insert run_key (row i) runs)
              (λ k above below. other k (omega arith) (omega arith)),
        )

    pub get-insert_all-new :
        ((a b : ℕ) → o.run_id a ≡ o.run_id b → a ≡ b)
        → (i n k : ℕ) (runs : List SimulationRunRow) → i ≤ k
        → k < i + n
        → Table.get run_key (o.run_id k) runs ≡ none
        → Table.get run_key (o.run_id k) (insert_all (rows_from i n) runs) ≡ some (row k)
    unfolding run_rows run_row insert_all
    get-insert_all-new distinct i zero k runs above below new = absurd (omega arith)
    get-insert_all-new distinct i (suc n) k runs above below new = elim (Bool-cases (i == k)) [
      | inl now ↦
          let here : i ≡ k = ground arith in
          let rest =
            get-insert_all-old (o.run_id k) (i + 1) n (Table.insert run_key (row i) runs)
              (λ j further before same.
                let hit : j ≡ k = distinct j k same in absurd (omega arith)) in
          ground (arith, here, rest, get-insert run_key (o.run_id k) (row i) runs)
      | inr later ↦
          let further : i ≢ k = ground arith in
          let other : o.run_id i ≢ o.run_id k = λ same. further (distinct i k same) in
          get-insert_all-new distinct (i + 1) n k (Table.insert run_key (row i) runs) (omega arith)
            (omega arith) (ground (arith, other, new, get-insert run_key (o.run_id k) (row i) runs))
    ]

    abbrev pub queued_row : ℕ → SimulationRunRow
    queued_row k = record (row k) { arq_job_id = some (job k) }

    pub first_run-found :
        (m n : ℕ) (t : State) (r : SimulationRunRow)
        → m ≡ suc n
        → find_run (o.run_id 0) t ≡ some r
        → first_run (rows_from 0 m) t ≡ (ok (to_schema r), t)
    unfolding run_rows run_row get_row
    first_run-found zero n t r size found = absurd (omega arith)
    first_run-found (suc m) n t r size found = ground (arith, found)

    -- The state after both commits.
    abbrev pub after : ℕ → State → State
    after n s =
        save_jobs (jobs_from 0 n)
          (record (add_runs (rows_from 0 n) s) { jobs = s.jobs ++ ids_from o 0 n })

    pub after-new :
        (n k : ℕ) (s : State)
        → HasNewIds o s
        → k < n
        → find_run (o.run_id k) (after n s) ≡ some (queued_row k)
    after-new n k s ids below =
        let runs = insert_all (rows_from 0 n) s.simulation_runs in
        let stored =
          get-insert_all-new ids.distinct 0 n k s.simulation_runs (omega arith) (omega arith)
            (ids.unused k) in
        let own : (row k).id ≡ o.run_id k = unfold run_row in refl in
        ground (
          arith,
          get-record_jobs (o.run_id k) (jobs_from 0 n) runs,
          stored,
          apply_jobs-own ids.distinct 0 n k (row k) own (omega arith) (omega arith),
        )

    pub after-old :
        (n j : ℕ) (s : State)
        → ((k : ℕ) → k < n → o.run_id k ≢ j)
        → find_run j (after n s) ≡ find_run j s
    after-old n j s other =
        let runs = insert_all (rows_from 0 n) s.simulation_runs in
        let kept =
          get-insert_all-old j 0 n s.simulation_runs (λ k above below. other k (omega arith)) in
        elim (Option-cases (find_run j s)) [
          | inl missing ↦ ground (arith, get-record_jobs j (jobs_from 0 n) runs, kept, missing)
          | inr (r, found) ↦
              let at : r.id ≡ j = key-get run_key j s.simulation_runs found in
              ground (
                arith,
                get-record_jobs j (jobs_from 0 n) runs,
                kept,
                found,
                apply_jobs-other 0 n r
                    (λ k above below same. other k (omega arith) (sym same ∙ at)),
              )
        ]
