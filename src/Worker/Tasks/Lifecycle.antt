-- ===== src/Worker/Tasks/Lifecycle.antt =====
-- How a job of spur_api/worker/tasks.py brings its run to an end.
use spur_api.Base.{
  ℕ, ◌+◌, ◌≡◌, ◌≢◌, refl, true, false, none, some, List, [], ◌∷◌, arith, All, Option-cases,
  Bool-cases, inl, inr, length, keep_if,
}
use spur_api.Base.Int.{ℤ}
use spur_api.Database.{SimulationRunRow, RunStatus, queued, running, State}
use spur_api.Action.{Result, ok, err, unhandled}
use spur_api.Spur.{SimEvent}
use spur_api.Projects.{run_key}
use spur_api.Runs.{find_run, save_run}
use spur_api.Worker.Runner.{Outcome, returned}
use spur_api.Worker.Tasks.{
  Session, update_run, on_chunk, is_cancelled, store_events, set_sim_time, conclude, taken,
  is_empty, catch_up, serve, fail, settle,
}
use spur_api.Table.Laws.{key-get, get-save}

-- What other requests do does not delete the run.
abbrev pub Survives : ℕ → (State → State) → Type 0
Survives i request = (s : State) → find_run i s ≢ none → find_run i (request s) ≢ none

abbrev pub IsFinal : RunStatus → Type 0
IsFinal queued = ⊥
IsFinal running = ⊥
IsFinal _ = Unit

-- An UPDATE of a run that is there succeeds, and the run is then as the change says.
pub update_run-found :
    (i : ℕ) (change : SimulationRunRow → SimulationRunRow) (s : State) (r : SimulationRunRow)
    → ((x : SimulationRunRow) → run_key (change x) ≡ run_key x)
    → find_run i s ≡ some r
    → (update_run i change s ≡ (ok tt, save_run (change r) s))
      × (find_run i (save_run (change r) s) ≡ some (change r))
unfolding update_run
update_run-found i change s r same found =
    let at : run_key r ≡ i = key-get run_key i s.simulation_runs found in
    (ground arith, ground (arith, same r, get-save run_key i (change r) s.simulation_runs))

-- A chunk is stored whole where its run is there and its `seq`s are free, and else not at all.
pub on_chunk-stores :
    (i : ℕ) (time : ℤ) (events : List SimEvent) (w : Session) (r : SimulationRunRow)
    → find_run i w.db ≡ some r
    → is_empty (keep_if (taken i w.seq (length events)) w.db.run_events) ≡ true
    → on_chunk i time events w ≡ (
      ok tt,
      record w {
        db = save_run (set_sim_time time r) (store_events i w.seq events w.db);
        seq = w.seq + length events;
      },
    )
unfolding on_chunk update_run
on_chunk-stores i time events w r found free = ground arith

pub on_chunk-clash :
    (i : ℕ) (time : ℤ) (events : List SimEvent) (w : Session)
    → is_empty (keep_if (taken i w.seq (length events)) w.db.run_events) ≡ false
    → on_chunk i time events w ≡ (err (unhandled "IntegrityError"), fail events w)
unfolding on_chunk
on_chunk-clash i time events w clash = ground arith

-- A commit after one that failed raises, and writes nothing.
pub conclude-broken :
    (i now : ℕ) (x : Result Outcome) (w : Session)
    → w.broken ≡ true
    → conclude i now (x, w) ≡ (err (unhandled "PendingRollbackError"), w.db)
unfolding conclude
conclude-broken i now x w failed = rw (conclude, failed) refl

pub conclude-whole :
    (i now : ℕ) (x : Result Outcome) (w : Session)
    → w.broken ≡ false
    → conclude i now (x, w) ≡ settle i now x w.db
unfolding conclude
conclude-whole i now x w whole = rw (conclude, whole) refl

pub is_cancelled-state : (i : ℕ) (w : Session) → (is_cancelled i w).1 ≡ catch_up w
unfolding is_cancelled
is_cancelled-state i w = ground arith

pub returned-state :
    {W : Type 0} (outcome : Outcome) (x : Result (Unit {0}) × W) → (returned outcome x).1 ≡ x.1
returned-state outcome (ok done, w) = refl
returned-state outcome (err e, w) = refl

module _ (i : ℕ) where
  pub record Alive (w : Session) : Type 0 where
    pub row : SimulationRunRow
    pub there : find_run i w.db ≡ some row
    pub spared : All (Survives i) w.meanwhile

  survivor : (s : State) → find_run i s ≢ none → (r : SimulationRunRow) × (find_run i s ≡ some r)
  survivor s h = elim (Option-cases (find_run i s)) [
    | inl missing ↦ absurd (h missing)
    | inr found ↦ found
  ]

  serve-Alive :
      (requests : List (State → State)) (w : Session)
      → All (Survives i) requests
      → Alive w
      → Alive (serve requests w)
  serve-Alive [] w spared h = h
  serve-Alive (request ∷ rest) w spared h =
      let (r, found) = survivor (request w.db) (spared.0 w.db λ gone. cc (gone, h.there)) in
      record { row = r; there = found; spared = spared.1 }

  pub is_cancelled-Alive : (w : Session) → Alive w → Alive (is_cancelled i w).1
  is_cancelled-Alive w h = rw (is_cancelled-state i w) (serve-Alive w.meanwhile w h.spared h)

  pub on_chunk-Alive :
      (time : ℤ) (events : List SimEvent) (w : Session)
      → Alive w
      → Alive (on_chunk i time events w).1
  on_chunk-Alive time events w h =
      elim (Bool-cases (is_empty (keep_if (taken i w.seq (length events)) w.db.run_events))) [
        | inr clash ↦
            rw (on_chunk-clash i time events w clash)
              (record { row = h.row; there = h.there; spared = h.spared })
        | inl free ↦
            let (saved, found) =
              update_run-found i (set_sim_time time) (store_events i w.seq events w.db) h.row
                (λ x. refl) h.there in
            rw (on_chunk-stores i time events w h.row h.there free)
              (record { row = set_sim_time time h.row; there = found; spared = h.spared })
      ]

  -- The run is in a final status, finished at `now`.
  abbrev pub IsFinished : ℕ → State → Type 0
  IsFinished now s =
      (r : SimulationRunRow) × (find_run i s ≡ some r)
      × IsFinal r.status
      × (r.finished_at ≡ some now)
