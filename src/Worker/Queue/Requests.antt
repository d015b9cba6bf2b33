-- ===== src/Worker/Queue/Requests.antt =====
-- A worker of spur_api/worker/settings.py beside the service: the requests that it may meet, and the
-- runs of a submission that was accepted.
use spur_api.Base.{
  ℕ, zero, suc, ◌≤◌, ◌<◌, ◌+◌, ◌++◌, ◌≡◌, ◌≢◌, refl, ap, ◌∙◌, sym, String, true, some, List, [],
  ◌∷◌, arith, Bool-cases, ◌==◌, ==_iff, All, All-append, All-weaken, inl, inr, length,
  length-append, keep_if,
}
use mathlib.Core.List.{append-nil}
use spur_api.Base.Int.{ℤ}
use spur_api.Database.{ProjectRow, SimulationRunRow, State}
use spur_api.Action.{ok}
use spur_api.Settings.{Settings}
use spur_api.Spur.{Simulator, HasClock}
use spur_api.Projects.{find_project}
use spur_api.Runs.{to_schema}
use spur_api.Runs.Submit.{Outside, Submission, horizon_of, submit_run}
use spur_api.Runs.Submit.Batch.{ids_from}
use spur_api.Runs.Submit.Queued.{submit_run_queues}
use spur_api.Consistency.Runs.{HasNewIds}
use spur_api.Worker.Tasks.Meanwhile.{
  IsEdit, edited_run, edited_jobs, edit-Survives, edit-KeepsEvents,
}
use spur_api.Worker.Tasks.Storage.{stored, is_of}
use spur_api.Worker.Queue.{Visit, work_off}
use spur_api.Worker.Queue.Drained.{IsReady, AreDistinct, HasEnded, IsSparing, queue_drains}

pub edit-IsSparing : (request : State → State) → IsEdit request → IsSparing request
edit-IsSparing request edit = record {
  survives = λ i. edit-Survives i request edit;
  events = edit-KeepsEvents request edit;
  snapshot = λ i s (x, there, (spec, has)).
      let (y, still, snapshot, status) = edited_run i request edit s x there in
      (y, still, (spec, snapshot ∙ has));
  ended = λ i s (x, there, final).
      let (y, still, snapshot, status) = edited_run i request edit s x there in
      (y, still, rw status final);
  queue = λ s. ([], rw (edited_jobs request edit s) (sym (append-nil s.jobs)));
}

append-AreDistinct :
    (xs ys : List ℕ)
    → AreDistinct xs
    → AreDistinct ys
    → All (λ x. All (λ y. y ≢ x) ys) xs
    → AreDistinct (xs ++ ys)
append-AreDistinct [] ys dx dy apart = dy
append-AreDistinct (x ∷ xs) ys dx dy apart =
    (All-append (λ y. y ≢ x) xs ys dx.0 apart.0, append-AreDistinct xs ys dx.1 dy apart.1)

module _ (o : Outside) where
  module _ (P : ℕ → Type 0) where
    ids_from-All :
        (m n : ℕ) → ((k : ℕ) → m ≤ k → k < m + n → P (o.run_id k)) → All P (ids_from o m n)
    unfolding ids_from
    ids_from-All m zero each = tt
    ids_from-All m (suc n) each = (
      each m (omega arith) (omega arith),
      ids_from-All (m + 1) n λ k above below. each k (omega arith) (omega arith),
    )

    All-ids_from : (m n k : ℕ) → All P (ids_from o m n) → m ≤ k → k < m + n → P (o.run_id k)
    unfolding ids_from
    All-ids_from m zero k all above below = absurd (omega arith)
    All-ids_from m (suc n) k all above below = elim (Bool-cases (k == m)) [
      | inl same ↦ let here : m ≡ k = sym ((==_iff k m).0 same) in rw (← here) all.0
      | inr differs ↦ All-ids_from (m + 1) n k all.1 (ground arith) (omega arith)
    ]

    All-split : (xs ys : List ℕ) → All P (xs ++ ys) → All P ys
    All-split [] ys all = all
    All-split (x ∷ xs) ys all = All-split xs ys all.1

    All-front : (xs ys : List ℕ) → All P (xs ++ ys) → All P xs
    All-front [] ys all = tt
    All-front (x ∷ xs) ys all = (all.0, All-front xs ys all.1)

  ids_from-AreDistinct :
      ((i j : ℕ) → o.run_id i ≡ o.run_id j → i ≡ j) → (m n : ℕ) → AreDistinct (ids_from o m n)
  unfolding ids_from
  ids_from-AreDistinct injective m zero = tt
  ids_from-AreDistinct injective m (suc n) = (
    ids_from-All (λ i. i ≢ o.run_id m) (m + 1) n
        λ k above below same. ground (arith, injective k m same),
    ids_from-AreDistinct injective (m + 1) n,
  )

  length-ids_from : (m n : ℕ) → length (ids_from o m n) ≡ n
  unfolding ids_from
  length-ids_from m zero = refl
  length-ids_from m (suc n) = ap suc (length-ids_from (m + 1) n)

  -- When a submission of at least one seed for a valid project was accepted, with Redis at work,
  -- new UUIDs and jobs in the queue that are distinct and wait for their first run, then a worker
  -- that takes as many jobs as wait leaves every run of the submission, and every run that had a
  -- job before, in a final status; if what is done meanwhile deletes no run, keeps the snapshots,
  -- the events and the runs that have ended, and only adds jobs, and the clock does as
  -- documented.
  pub batch_finishes :
      (sim : Simulator) (clock : HasClock sim) (settings : Settings) (job : ℕ → String) (i : ℕ)
      (body : Submission) (s : State) (p : ProjectRow) (until_target : ℤ) (n : ℕ)
      (visits : List Visit)
      → find_project i s ≡ some p
      → (o.validate p.spec).valid ≡ true
      → horizon_of o body p.spec ≡ ok until_target
      → body.seeds ≡ suc n
      → HasNewIds o s
      → ((k : ℕ) → o.enqueue (o.run_id k) ≡ some (some (job k)))
      → ((k : ℕ) → stored (o.run_id k) s ≡ [])
      → AreDistinct s.jobs
      → All (IsReady s) s.jobs
      → length visits ≡ length s.jobs + body.seeds
      → All (λ (v : Visit). All IsSparing v.meanwhile) visits
      → (t u : State) × (first : SimulationRunRow) × (submit_run o i body s
          ≡ (ok (to_schema first), t))
        × (work_off sim settings visits t ≡ some u)
        × ((k : ℕ) → k < body.seeds → HasEnded u (o.run_id k))
        × All (HasEnded u) s.jobs
  batch_finishes sim clock settings job i body s p until_target n visits found valid horizon size
        ids works new_events distinct ready served sparing =
      let (t, first, accepted, at_first, queue, kept, each, others) =
        submit_run_queues o job i body s p until_target n found valid horizon size ids works in
      let events : (j : ℕ) → stored j t ≡ stored j s = λ j. ap (keep_if (is_of j)) kept in
      let new : All (IsReady t) (ids_from o 0 body.seeds) =
        ids_from-All (IsReady t) 0 body.seeds λ k above below.
          (let (r, there, q) = each k (omega arith) in
            ((r, there, (p.spec, q.spec_snapshot)), events (o.run_id k) ∙ new_events k)) in
      let apart : (j : ℕ) → IsReady s j → (k : ℕ) → o.run_id k ≢ j =
        λ j h k e. ground (arith, ids.unused k, e, h.0.1) in
      let old : All (IsReady t) s.jobs =
        All-weaken (IsReady s) (IsReady t) s.jobs
          (λ j h. ((h.0.0, others j (λ k below. apart j h k) ∙ h.0.1, h.0.2), events j ∙ h.1))
          ready in
      let both : All (IsReady t) t.jobs = rw queue (All-append (IsReady t) s.jobs _ old new) in
      let once : AreDistinct t.jobs = rw queue (
        append-AreDistinct s.jobs (ids_from o 0 body.seeds) distinct
          (ids_from-AreDistinct ids.distinct 0 body.seeds)
          (All-weaken _ _ s.jobs
            (λ j h. ids_from-All (λ i. i ≢ j) 0 body.seeds λ k above below. apart j h k) ready)) in
      let count : length visits ≡ length t.jobs =
        rw (queue, length-append s.jobs (ids_from o 0 body.seeds), length-ids_from 0 body.seeds)
          served in
      let (u, ran, done) = queue_drains sim clock settings visits t count sparing once both in
      let ends : All (HasEnded u) (s.jobs ++ ids_from o 0 body.seeds) = rw (← queue) done in
      (
        t,
        u,
        first,
        accepted,
        ran,
        (λ k below.
            All-ids_from (HasEnded u) 0 body.seeds k (All-split (HasEnded u) s.jobs _ ends)
              (omega arith) (omega arith)),
        All-front (HasEnded u) s.jobs _ ends,
      )
