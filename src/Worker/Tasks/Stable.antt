-- ===== src/Worker/Tasks/Stable.antt =====
-- What a job of spur_api/worker/tasks.py keeps: whatever its UPDATEs, its INSERTs and the requests
-- served meanwhile keep.
use spur_api.Base.{
  ℕ, ◌++◌, ◌≡◌, refl, Bool, false, none, some, List, [], ◌∷◌, arith, All, Option-cases, Bool-cases,
  inl, inr, length, keep_if,
}
use spur_api.Base.Int.{ℤ}
use spur_api.Json.{Fields}
use spur_api.Database.{SimulationRunRow, State}
use spur_api.Action.{Error, Result, ok, err, unhandled}
use spur_api.Settings.{Settings}
use spur_api.Spur.{SimEvent, Simulator, HasClock}
use spur_api.Runs.{find_run, save_run}
use spur_api.Worker.Runner.{Outcome, completed, cancelled, SpurRunner, flush}
use spur_api.Worker.Runner.Totality.{RunRule, run_rule}
use spur_api.Worker.Tasks.{
  Session, update_run, on_chunk, is_cancelled, callbacks, store_events, set_sim_time, set_running,
  set_failed, set_finished, conclude, spec_of, runner_of, run_job, run_simulation, taken, is_empty,
  serve, fail, settle,
}
use spur_api.Worker.Tasks.Lifecycle.{
  on_chunk-stores, on_chunk-clash, is_cancelled-state, returned-state, conclude-broken,
  conclude-whole,
}

-- The changes that a job makes to its run's row
pub data Change : Type 0 where
  runs : ℕ → Change
  progresses : ℤ → Change
  fails : ℕ → Error → Change
  finishes : ℕ → Outcome → Change

abbrev pub changed : Change → SimulationRunRow → SimulationRunRow
changed (runs now) r = set_running now r
changed (progresses time) r = set_sim_time time r
changed (fails now e) r = set_failed now e r
changed (finishes now outcome) r = set_finished now outcome r

abbrev pub Keeps : (State → Type 0) → (State → State) → Type 0
Keeps Q request = (s : State) → Q s → Q (request s)

pub record IsStable (j : ℕ) (Q : State → Type 0) : Type 0 where
  pub saves :
      (c : Change) (s : State) (r : SimulationRunRow)
      → find_run j s ≡ some r
      → Q s
      → Q (save_run (changed c r) s)
  pub stores :
      (seq : ℕ) (events : List SimEvent) (s : State) → Q s → Q (store_events j seq events s)

module _ (j : ℕ) (Q : State → Type 0) (stable : IsStable j Q) where
  update_run-stable : (c : Change) (s : State) → Q s → Q (update_run j (changed c) s).1
  unfolding update_run
  update_run-stable c s q = elim (Option-cases (find_run j s)) [
    | inl missing ↦ rw (update_run, missing) q
    | inr (r, found) ↦ rw (update_run, found) (stable.saves c s r found q)
  ]

  abbrev Holds : Session → Type 0
  Holds w = Q w.db × All (Keeps Q) w.meanwhile

  on_chunk-missing :
      (time : ℤ) (events : List SimEvent) (w : Session)
      → find_run j w.db ≡ none
      → (on_chunk j time events w).1 ≡ fail events w
  unfolding on_chunk update_run
  on_chunk-missing time events w missing = ground arith

  on_chunk-Holds :
      (time : ℤ) (events : List SimEvent) (w : Session)
      → Holds w
      → Holds (on_chunk j time events w).1
  on_chunk-Holds time events w h = elim (Option-cases (find_run j w.db)) [
    | inl missing ↦ rw (on_chunk-missing time events w missing) h
    | inr (r, found) ↦
        elim (Bool-cases (is_empty (keep_if (taken j w.seq (length events)) w.db.run_events))) [
          | inr clash ↦ rw (on_chunk-clash j time events w clash) h
          | inl free ↦
              rw (on_chunk-stores j time events w r found free) (
                stable.saves (progresses time) _ r found (stable.stores w.seq events w.db h.0),
                h.1,
              )
        ]
  ]

  serve-Holds :
      (requests : List (State → State)) (w : Session)
      → All (Keeps Q) requests
      → Holds w
      → Holds (serve requests w)
  serve-Holds [] w kept h = h
  serve-Holds (request ∷ rest) w kept h = (kept.0 w.db h.0, kept.1)

  is_cancelled-Holds : (w : Session) → Holds w → Holds (is_cancelled j w).1
  is_cancelled-Holds w h = rw (is_cancelled-state j w) (serve-Holds w.meanwhile w h.1 h)

  settle-stable : (now : ℕ) (x : Result Outcome) (s : State) → Q s → Q (settle j now x s).1
  unfolding settle
  settle-stable now (err e) s h = update_run-stable (fails now e) s h
  settle-stable now (ok outcome) s h = update_run-stable (finishes now outcome) s h

  conclude-stable : (now : ℕ) (x : Result Outcome × Session) → Holds x.1 → Q (conclude j now x).1
  conclude-stable now (x, w) h = elim (Bool-cases w.broken) [
    | inl failed ↦ rw (conclude-broken j now x w failed) h.0
    | inr whole ↦ rw (conclude-whole j now x w whole) (settle-stable now x w.db h.0)
  ]

  module _ (sim : Simulator) (clock : HasClock sim) (settings : Settings) where
    abbrev HoldsAfter : Result Outcome × Session → Type 0
    HoldsAfter x = Holds x.1

    asked-Holds :
        (w w₁ : Session) {x : Result Bool} → Holds w → is_cancelled j w ≡ (x, w₁) → Holds w₁
    asked-Holds w w₁ h e = rw e at (is_cancelled-Holds w h)

    flushed-Holds :
        (time : ℤ) (events : List SimEvent) (w w₁ : Session) {x : Result (Unit {0})}
        → Holds w
        → on_chunk j time events w ≡ (x, w₁)
        → Holds w₁
    flushed-Holds time events w w₁ h e = rw e at (on_chunk-Holds time events w h)

    flush-Holds :
        (until_target chunk time : ℤ) (outcome : Outcome) (events : List SimEvent) (w : Session)
        → Holds w
        → Holds (flush sim (callbacks j) until_target chunk outcome time events w).1
    flush-Holds until_target chunk time outcome events w h =
        rw (returned-state outcome (on_chunk j time events w)) (on_chunk-Holds time events w h)

    Holds-rules :
        (w : Session) (r : SpurRunner)
        → Holds w
        → RunRule sim clock (callbacks j) settings w r HoldsAfter
    Holds-rules w r h = record {
      on_raise = λ e. h;
      Holds = λ u c m₀ m b w'. Holds w';
      rule = λ u c model built target size. (
        record {
          on_ask_raises = λ m b w' w₁ e p asked. asked-Holds w' w₁ p asked;
          on_cancel = λ m b w' w₁ p asked.
              flush-Holds u c (sim.now m) cancelled b w₁ (asked-Holds w' w₁ p asked);
          on_run_raises = λ m b w' w₁ e p asked ran. asked-Holds w' w₁ p asked;
          on_chunk_raises = λ m m' b events w' w₁ w₂ e p asked ran flushed.
              flushed-Holds (sim.now m') (b ++ events) w₁ w₂ (asked-Holds w' w₁ p asked) flushed;
          on_round = λ m m' b events w' w₁ w₂ p early asked ran flushed.
              flushed-Holds (sim.now m') (b ++ events) w₁ w₂ (asked-Holds w' w₁ p asked) flushed;
          on_end = λ m b w' p late m' logged said. flush-Holds u c _ completed _ w' p;
          on_end_raises = λ m b w' e p said. p;
        },
        h,
      );
    }

    run_job-stable :
        (now : ℕ) (meanwhile : List (State → State)) (r : SimulationRunRow) (spec : Fields)
        (s : State)
        → Q s
        → All (Keeps Q) meanwhile
        → (x : Result (Unit {0}) × State) × (run_job sim settings j now meanwhile r spec s ≡ some x)
          × Q x.1
    unfolding run_job
    run_job-stable now meanwhile r spec s q kept =
        let w : Session = record { db = s; seq = 0; meanwhile = meanwhile; broken = false } in
        let (x, ended, h) =
          run_rule sim clock (callbacks j) settings w (runner_of r spec) HoldsAfter
            (Holds-rules w (runner_of r spec) (q, kept)) in
        (conclude j now x, rw ended refl, conclude-stable now x h)

    pub job_stable :
        (started finished : ℕ) (meanwhile : List (State → State)) (s : State)
        → Q s
        → All (Keeps Q) meanwhile
        → (x : Result (Unit {0}) × State) × (run_simulation sim settings j started finished
              meanwhile s
            ≡ some x)
          × Q x.1
    unfolding run_simulation
    job_stable started finished meanwhile s q kept = elim (Option-cases (find_run j s)) [
      | inl missing ↦ ((err (unhandled "AttributeError"), s), ground arith, q)
      | inr (r, found) ↦ elim (Option-cases (spec_of r s)) [
        | inl nothing ↦ ((err (unhandled "AttributeError"), s), ground arith, q)
        | inr (spec, has_spec) ↦
            let (x, ran, q') =
              run_job-stable finished meanwhile r spec (save_run (set_running started r) s)
                (stable.saves (runs started) s r found q) kept in
            (x, ground arith, q')
      ]
    ]
