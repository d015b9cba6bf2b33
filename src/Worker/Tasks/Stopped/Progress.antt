-- ===== src/Worker/Tasks/Stopped/Progress.antt =====
-- A job of spur_api/worker/tasks.py that arq may stop, through its checks and its chunks.
use spur_api.Base.{
  ℕ, zero, suc, ◌++◌, ◌≡◌, ◌≢◌, refl, ap, inl, inr, Bool, true, false, some, List, [], ◌∷◌, arith,
  All, Bool-cases, length, keep_if,
}
use spur_api.Base.Int.{ℤ}
use spur_api.Json.{Fields}
use spur_api.Database.{SimulationRunRow, RunEventRow, running, State}
use spur_api.Action.{Result, ok}
use spur_api.Spur.{SimEvent}
use spur_api.Runs.{find_run}
use spur_api.Worker.Tasks.{
  Session, on_chunk, is_cancelled, taken, is_empty, serve, store_events, set_sim_time, event_rows,
}
use spur_api.Worker.Tasks.Lifecycle.{
  Alive, on_chunk-stores, on_chunk-Alive, is_cancelled-Alive, is_cancelled-state, update_run-found,
}
use spur_api.Worker.Tasks.Storage.{stored, is_of, Follows, asked-Follows, flushed-Follows}
use spur_api.Worker.Tasks.Whole.{IsWhole, free_seqs, serve-whole}
use spur_api.Worker.Tasks.Stopped.{Stoppable, chunk_of_stoppable, check}

-- The run is marked as running, and has its snapshot.
abbrev pub IsMarked : ℕ → State → Type 0
IsMarked i s =
    (r : SimulationRunRow) × (find_run i s ≡ some r)
    × (r.status ≡ running)
    × ((spec : Fields) × (r.spec_snapshot ≡ some spec))

abbrev pub KeepsMarked : ℕ → (State → State) → Type 0
KeepsMarked i request = (s : State) → IsMarked i s → IsMarked i (request s)

-- The first of the stored events has `seq` 0.
first_taken :
    (i : ℕ) (rows : List RunEventRow) (e : SimEvent) (past : List SimEvent)
    → keep_if (is_of i) rows ≡ event_rows i 0 (e ∷ past)
    → is_empty (keep_if (taken i 0 1) rows) ≡ false
unfolding event_rows
first_taken i [] e past h = absurd (cc h)
first_taken i (x ∷ rows) e past h = elim (Bool-cases (is_of i x)) [
  | inr other ↦
      let rest : keep_if (is_of i) rows ≡ event_rows i 0 (e ∷ past) = rw other at h in
      ground (arith, other, first_taken i rows e past rest)
  | inl own ↦
      let first : x ∷ keep_if (is_of i) rows ≡ event_rows i 0 (e ∷ past) = rw own at h in
      let seq : x.seq ≡ 0 = ground (arith, first) in ground (arith, own, seq)
]

module _ (i : ℕ) where
  -- The job was not stopped, what precedes is stored, and no commit has failed.
  pub record IsGoing (past : List SimEvent) (v : Stoppable) : Type 0 where
    pub alive : Alive i v.session
    pub follows : Follows i past v.session
    pub whole : v.session.broken ≡ false
    pub marked : IsMarked i v.session.db
    pub spared : All (KeepsMarked i) v.session.meanwhile
    pub going : v.stopped ≡ false

  -- The run is marked, and if an event of it is stored, the one with `seq` 0 is.
  abbrev pub HasFirst : State → Type 0
  HasFirst s =
      IsMarked i s × (stored i s ≢ [] → is_empty (keep_if (taken i 0 1) s.run_events) ≡ false)

  -- If the job was stopped, its run is marked and has its first event.
  abbrev pub StopsHalfway : Stoppable → Type 0
  StopsHalfway v = v.stopped ≡ true → HasFirst v.session.db

  serve-IsMarked :
      (requests : List (State → State)) (w : Session)
      → All (KeepsMarked i) requests
      → IsMarked i w.db
      → All (KeepsMarked i) w.meanwhile
      → IsMarked i (serve requests w).db × All (KeepsMarked i) (serve requests w).meanwhile
  serve-IsMarked [] w kept h all = (h, all)
  serve-IsMarked (request ∷ rest) w kept h all = (kept.0 w.db h, kept.1)

  pub still_going : (past : List SimEvent) (v : Stoppable) → IsGoing past v → StopsHalfway v
  still_going past v h e = absurd (cc (e, h.going))

  refreshed :
      (k : ℕ) (past : List SimEvent) (v : Stoppable)
      → IsGoing past v
      → IsGoing past (record v { session = (is_cancelled i v.session).1; left = k })
  refreshed k past v h =
      let (marked, spared) =
        serve-IsMarked v.session.meanwhile v.session h.spared h.marked h.spared in
      record {
        alive = is_cancelled-Alive i v.session h.alive;
        follows = asked-Follows i past v.session (is_cancelled i v.session).1 h.follows refl;
        whole =
            rw (is_cancelled-state i v.session)
              (serve-whole i v.session.meanwhile v.session h.whole);
        marked = rw (is_cancelled-state i v.session) marked;
        spared = rw (is_cancelled-state i v.session) spared;
        going = h.going;
      }

  pub asked-IsGoing :
      (k : ℕ) (past : List SimEvent) (v v₁ : Stoppable) {y : Bool}
      → IsGoing past v
      → check i k v ≡ (ok y, v₁)
      → IsGoing past v₁
  asked-IsGoing zero past v v₁ h e = absurd (cc e)
  asked-IsGoing (suc k) past v v₁ h e =
      let same : record v { session = (is_cancelled i v.session).1; left = k } ≡ v₁ =
        ap (λ x. x.1) e in
      rw (← same) (refreshed k past v h)

  first_of :
      (past : List SimEvent) (s : State)
      → stored i s ≡ event_rows i 0 past
      → stored i s ≢ []
      → is_empty (keep_if (taken i 0 1) s.run_events) ≡ false
  unfolding event_rows
  first_of [] s rows some_event = absurd (some_event rows)
  first_of (e ∷ past) s rows some_event = first_taken i s.run_events e past rows

  pub asked-StopsHalfway :
      (k : ℕ) (past : List SimEvent) (v v₁ : Stoppable) {x : Result Bool}
      → IsGoing past v
      → check i k v ≡ (x, v₁)
      → StopsHalfway v₁
  asked-StopsHalfway zero past v v₁ h e =
      let same : record v { stopped = true } ≡ v₁ = ap (λ x. x.1) e in
      rw (← same) λ stop. (h.marked, first_of past v.session.db h.follows.rows)
  asked-StopsHalfway (suc k) past v v₁ h e =
      let same : record v { session = (is_cancelled i v.session).1; left = k } ≡ v₁ =
        ap (λ x. x.1) e in
      rw (← same) λ stop. absurd (cc (stop, h.going))

  pub committed :
      (time : ℤ) (b past : List SimEvent) (v : Stoppable)
      → IsGoing past v
      → (v₁ : Stoppable) × (chunk_of_stoppable i time b v ≡ (ok tt, v₁)) × IsGoing (past ++ b) v₁
  committed time b past v h =
      let (r, there, status, spec) = h.marked in
      let w : IsWhole i v.session = record {
        past = past;
        alive = h.alive;
        follows = h.follows;
        whole = h.whole;
      } in
      let does = on_chunk-stores i time b v.session r there (free_seqs i (length b) v.session w) in
      let (saved, found) =
        update_run-found i (set_sim_time time) (store_events i v.session.seq b v.session.db) r
          (λ x. refl) there in
      (
        record v { session = (on_chunk i time b v.session).1 },
        ap (λ x. (x.0, record v { session = (on_chunk i time b v.session).1 })) does,
        rw does record {
          alive = rw does at (on_chunk-Alive i time b v.session h.alive);
          follows = flushed-Follows i past time b v.session _ h.follows does;
          whole = h.whole;
          marked = (set_sim_time time r, found, status, spec);
          spared = h.spared;
          going = h.going;
        },
      )
