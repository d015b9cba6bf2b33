-- ===== src/Worker/Queue/Drained.antt =====
-- What a worker of spur_api/worker/settings.py makes of the jobs that wait: each of their runs comes to
-- an end.
use mathlib.Core.List.{append_assoc, append-nil}
use spur_api.Base.{
  ℕ, ◌++◌, ◌≡◌, ◌≢◌, refl, ap, ◌∙◌, sym, some, List, [], ◌∷◌, arith, All, All-weaken, Option-cases,
  Bool-cases, inl, inr, length, ◌==◌, ==_iff,
}
use spur_api.Json.{Fields}
use spur_api.Database.{SimulationRunRow, State}
use spur_api.Settings.{Settings}
use spur_api.Spur.{Simulator, HasClock}
use spur_api.Projects.{run_key}
use spur_api.Runs.{find_run, save_run}
use spur_api.Table.Laws.{key-get, get-save}
use spur_api.Worker.Tasks.{run_simulation}
use spur_api.Worker.Tasks.Lifecycle.{IsFinal, Survives}
use spur_api.Worker.Tasks.Storage.{stored, stored-other, KeepsEvents}
use spur_api.Worker.Tasks.Reports.{job_finishes}
use spur_api.Worker.Tasks.Stable.{
  Change, runs, progresses, fails, finishes, changed, Keeps, IsStable, job_stable,
}
use spur_api.Worker.Queue.{Visit, take_job, after_job, work_off}

-- A run that is there with its snapshot
abbrev pub HasSnapshot : State → ℕ → Type 0
HasSnapshot s i =
    (r : SimulationRunRow) × (find_run i s ≡ some r)
    × ((spec : Fields) × (r.spec_snapshot ≡ some spec))

-- A run that no job has run: it has its snapshot and no events
abbrev pub IsReady : State → ℕ → Type 0
IsReady s i = HasSnapshot s i × (stored i s ≡ [])

-- No job waits twice.
abbrev pub AreDistinct : List ℕ → Type 0
AreDistinct [] = Unit
AreDistinct (j ∷ js) = All (λ i. i ≢ j) js × AreDistinct js

-- A run that has come to an end
abbrev pub HasEnded : State → ℕ → Type 0
HasEnded s i = (r : SimulationRunRow) × (find_run i s ≡ some r) × IsFinal r.status

-- What is done while a job runs deletes no run, leaves the snapshots, the events and the runs that have
-- ended, and adds to the queue at most.
pub record IsSparing (request : State → State) : Type 0 where
  pub survives : (i : ℕ) → Survives i request
  pub snapshot : (i : ℕ) (s : State) → HasSnapshot s i → HasSnapshot (request s) i
  pub events : (i : ℕ) → KeepsEvents i request
  pub ended : (i : ℕ) (s : State) → HasEnded s i → HasEnded (request s) i
  pub queue : (s : State) → (more : List ℕ) × ((request s).jobs ≡ s.jobs ++ more)

changed-key : (c : Change) (r : SimulationRunRow) → run_key (changed c r) ≡ run_key r
changed-key (runs now) r = refl
changed-key (progresses time) r = refl
changed-key (fails now e) r = refl
changed-key (finishes now outcome) r = refl

changed-snapshot :
    (c : Change) (r : SimulationRunRow) → (changed c r).spec_snapshot ≡ r.spec_snapshot
changed-snapshot (runs now) r = refl
changed-snapshot (progresses time) r = refl
changed-snapshot (fails now e) r = refl
changed-snapshot (finishes now outcome) r = refl

module _ (j : ℕ) (c : Change) (s : State) (r : SimulationRunRow) where
  find-save_other :
      (i : ℕ) → find_run j s ≡ some r → i ≢ j → find_run i (save_run (changed c r) s) ≡ find_run i s
  find-save_other i found other =
      let at : run_key r ≡ j = key-get run_key j s.simulation_runs found in
      elim (Option-cases (find_run i s)) [
        | inl none_there ↦ ground (arith, get-save run_key i (changed c r) s.simulation_runs)
        | inr (x, there) ↦
            let key : run_key x ≡ i = key-get run_key i s.simulation_runs there in
            ground (arith, get-save run_key i (changed c r) s.simulation_runs, changed-key c r)
      ]

  find-save_self :
      find_run j s ≡ some r → find_run j (save_run (changed c r) s) ≡ some (changed c r)
  find-save_self found =
      let at : run_key r ≡ j = key-get run_key j s.simulation_runs found in
      ground (arith, changed-key c r, get-save run_key j (changed c r) s.simulation_runs)

  snapshot-save :
      (i : ℕ) → find_run j s ≡ some r → HasSnapshot s i → HasSnapshot (save_run (changed c r) s) i
  snapshot-save i found (x, there, (spec, has)) = elim (Bool-cases (i == j)) [
    | inl same ↦
        let here : i ≡ j = (==_iff i j).0 same in
        let row : x ≡ r = cc in
        (
          changed c r,
          ap (λ k. find_run k (save_run (changed c r) s)) here ∙ find-save_self found,
          (
            spec,
            changed-snapshot c r ∙ ap (λ (y : SimulationRunRow). y.spec_snapshot) (sym row) ∙ has,
          ),
        )
    | inr differs ↦
        (x, find-save_other i found (λ e. ground (arith, e, differs)) ∙ there, (spec, has))
  ]

module _ (j : ℕ) (js ds : List ℕ) where
  -- What holds while the job for `j` runs: the jobs behind it wait, and the runs of those before it
  -- have ended.
  pub record InTurn (s : State) : Type 0 where
    pub waits : (more : List ℕ) × (s.jobs ≡ js ++ more)
    pub ready : All (λ i. (i ≢ j) × IsReady s i) js
    pub ended : All (λ i. i ≢ j → HasEnded s i) ds

  InTurn-stable : IsStable j InTurn
  InTurn-stable = record {
    saves = λ c s r found h. record {
      waits = h.waits;
      ready =
          All-weaken _ _ js
            (λ i before. (before.0, (snapshot-save j c s r i found before.1.0, before.1.1)))
            h.ready;
      ended =
          All-weaken _ _ ds
            (λ i before other.
              let (x, there, final) = before other in
              (x, find-save_other j c s r i found other ∙ there, final))
            h.ended;
    };
    stores = λ seq events s h. record {
      waits = h.waits;
      ready =
          All-weaken _ _ js
            (λ i before.
              (before.0, (before.1.0, stored-other i j seq events s before.0 ∙ before.1.1)))
            h.ready;
      ended = h.ended;
    };
  }

  InTurn-kept : (request : State → State) → IsSparing request → Keeps InTurn request
  InTurn-kept request sparing s h =
      let (more, waits) = h.waits in
      let (extra, grows) = sparing.queue s in
      record {
        waits = (more ++ extra, grows ∙ ap (λ l. l ++ extra) waits ∙ append_assoc js more extra);
        ready =
            All-weaken _ _ js
              (λ i before.
                (before.0, (sparing.snapshot i s before.1.0, sparing.events i s ∙ before.1.1)))
              h.ready;
        ended = All-weaken _ _ ds (λ i before other. sparing.ended i s (before other)) h.ended;
      }

module _ (sim : Simulator) (clock : HasClock sim) (settings : Settings) where
  one_job :
      (v : Visit) (j : ℕ) (js ds : List ℕ) (s : State)
      → All IsSparing v.meanwhile
      → IsReady s j
      → InTurn j js ds s
      → (t : State) × (after_job sim settings
            (run_simulation sim settings j v.started v.finished v.meanwhile s)
          ≡ some t)
        × InTurn j js ds t
        × HasEnded t j
  one_job v j js ds s sparing waiting turn =
      let (r, there, (spec, snapshot)) = waiting.0 in
      let (x, ran, turn') =
        job_stable j (InTurn j js ds) (InTurn-stable j js ds) sim clock settings v.started
          v.finished v.meanwhile s turn
          (All-weaken IsSparing (Keeps (InTurn j js ds)) v.meanwhile (InTurn-kept j js ds)
            sparing) in
      let (t, ended, (r', there', final, finished)) =
        job_finishes sim clock settings j v.started v.finished v.meanwhile s r spec there
          (ground (arith, snapshot))
          (All-weaken IsSparing (Survives j) v.meanwhile (λ q sp. sp.survives j) sparing)
          (All-weaken IsSparing (KeepsEvents j) v.meanwhile (λ q sp. sp.events j) sparing)
          waiting.1 in
      let same : t ≡ x.1 = cc in (t, rw ended refl, rw same turn', (r', there', final))

  include :
      (j : ℕ) (t : State) (ds : List ℕ)
      → All (λ i. i ≢ j → HasEnded t i) ds
      → HasEnded t j
      → All (HasEnded t) ds
  include j t ds before ended =
      All-weaken _ _ ds
        (λ i other. elim (Bool-cases (i == j)) [
          | inl same ↦ let here : j ≡ i = sym ((==_iff i j).0 same) in rw here at ended
          | inr differs ↦ other (λ e. ground (arith, e, differs))
        ])
        before

  both :
      (j : ℕ) (js : List ℕ) (s : State)
      → All (λ i. i ≢ j) js
      → All (IsReady s) js
      → All (λ i. (i ≢ j) × IsReady s i) js
  both j [] s other ready = tt
  both j (i ∷ js) s other ready = ((other.0, ready.0), both j js s other.1 ready.1)

  drained :
      (visits : List Visit) (js ds more : List ℕ) (s : State)
      → s.jobs ≡ js ++ more
      → length visits ≡ length js
      → All (λ (v : Visit). All IsSparing v.meanwhile) visits
      → AreDistinct js
      → All (IsReady s) js
      → All (HasEnded s) ds
      → (t : State) × (work_off sim settings visits s ≡ some t)
        × All (HasEnded t) ds
        × All (HasEnded t) js
  unfolding work_off
  drained [] [] ds more s waits size sparing distinct ready ended = (s, refl, ended, tt)
  drained [] (j ∷ js) ds more s waits size sparing distinct ready ended =
      absurd (omega (arith, size))
  drained (v ∷ visits) [] ds more s waits size sparing distinct ready ended =
      absurd (omega (arith, size))
  drained (v ∷ visits) (j ∷ js) ds more s waits size sparing distinct ready ended =
      let taken : State = record s { jobs = js ++ more } in
      let (t, ran, turn, here) = one_job v j js ds taken sparing.0 ready.0 (record {
        waits = (more, refl);
        ready = both j js taken distinct.0 ready.1;
        ended = All-weaken _ _ ds (λ i e other. e) ended;
      }) in
      let (extra, behind) = turn.waits in
      let (u, rest, before, behind_it) =
        drained visits js (j ∷ ds) extra t behind (omega (arith, size)) sparing.1 distinct.1
          (All-weaken _ _ js (λ i h. h.1) turn.ready) (here, include j t ds turn.ended here) in
      let first : take_job sim settings v s.jobs s ≡ some t = rw waits ran in
      (u, rw (work_off, first) rest, before.1, (before.0, behind_it))

  -- A worker that takes as many jobs as wait, each ready for its first run, ends the runs of them all.
  pub queue_drains :
      (visits : List Visit) (s : State)
      → length visits ≡ length s.jobs
      → All (λ (v : Visit). All IsSparing v.meanwhile) visits
      → AreDistinct s.jobs
      → All (IsReady s) s.jobs
      → (t : State) × (work_off sim settings visits s ≡ some t) × All (HasEnded t) s.jobs
  queue_drains visits s size sparing distinct ready =
      let (t, ran, nothing, done) =
        drained visits s.jobs [] [] s (sym (append-nil s.jobs)) size sparing distinct ready tt in
      (t, ran, done)
