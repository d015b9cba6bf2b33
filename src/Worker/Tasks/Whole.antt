-- ===== src/Worker/Tasks/Whole.antt =====
-- The commits of a job of spur_api/worker/tasks.py go through, if its run had no events and what other
-- requests do leaves the run and its events alone.
use spur_api.Base.{
  ℕ, ◌+◌, ◌≤◌, ◌<◌, ◌++◌, ◌≡◌, refl, Bool, true, false, List, [], ◌∷◌, arith, All, Bool-cases, inl,
  inr, length, keep_if,
}
use spur_api.Base.Int.{ℤ}
use spur_api.Database.{RunEventRow, State}
use spur_api.Action.{Result, ok}
use spur_api.Settings.{Settings}
use spur_api.Spur.{SimEvent, Simulator, HasClock}
use spur_api.Worker.Runner.{Outcome, completed, cancelled, SpurRunner, flush}
use spur_api.Worker.Runner.Totality.{RunRule}
use spur_api.Worker.Tasks.{
  Session, on_chunk, is_cancelled, callbacks, taken, is_empty, event_rows, serve, catch_up,
}
use spur_api.Worker.Tasks.Lifecycle.{
  Alive, on_chunk-stores, on_chunk-Alive, is_cancelled-Alive, is_cancelled-state, returned-state,
}
use spur_api.Worker.Tasks.Storage.{is_of, Follows, asked-Follows, flushed-Follows}

free_rows :
    (i seq n : ℕ) (rows : List RunEventRow)
    → All (λ (e : RunEventRow). e.seq < seq) (keep_if (is_of i) rows)
    → is_empty (keep_if (taken i seq n) rows) ≡ true
free_rows i seq n [] h = refl
free_rows i seq n (e ∷ rows) h = elim (Bool-cases (is_of i e)) [
  | inl own ↦
      let below : All (λ (x : RunEventRow). x.seq < seq) (e ∷ keep_if (is_of i) rows) =
        rw own at h in
      ground (arith, own, below.0, free_rows i seq n rows below.1)
  | inr other ↦
      let below : All (λ (x : RunEventRow). x.seq < seq) (keep_if (is_of i) rows) = rw other at h in
      ground (arith, other, free_rows i seq n rows below)
]

event_rows-below :
    (i seq top : ℕ) (events : List SimEvent)
    → seq + length events ≤ top
    → All (λ (e : RunEventRow). e.seq < top) (event_rows i seq events)
unfolding event_rows
event_rows-below i seq top [] h = tt
event_rows-below i seq top (e ∷ events) h =
    (omega (arith, h), event_rows-below i (seq + 1) top events (omega (arith, h)))

-- The run is there, the session has stored what precedes, and no commit has failed.
pub record IsWhole (i : ℕ) (w : Session) : Type 0 where
  pub past : List SimEvent
  pub alive : Alive i w
  pub follows : Follows i past w
  pub whole : w.broken ≡ false

module _ (i : ℕ) where
  pub free_seqs :
      (n : ℕ) (w : Session)
      → IsWhole i w
      → is_empty (keep_if (taken i w.seq n) w.db.run_events) ≡ true
  free_seqs n w h =
      free_rows i w.seq n w.db.run_events
        (rw h.follows.rows (event_rows-below i 0 w.seq h.past (omega (arith, h.follows.next_seq))))

  on_chunk-IsWhole :
      (time : ℤ) (events : List SimEvent) (w : Session)
      → IsWhole i w
      → (w₁ : Session) × (on_chunk i time events w ≡ (ok tt, w₁)) × IsWhole i w₁
  on_chunk-IsWhole time events w h =
      let does =
        on_chunk-stores i time events w h.alive.row h.alive.there (free_seqs (length events) w h) in
      (
        _,
        does,
        record {
          past = h.past ++ events;
          alive = rw does at (on_chunk-Alive i time events w h.alive);
          follows = flushed-Follows i h.past time events w _ h.follows does;
          whole = h.whole;
        },
      )

  pub serve-whole :
      (requests : List (State → State)) (w : Session)
      → w.broken ≡ false
      → (serve requests w).broken ≡ false
  serve-whole [] w h = h
  serve-whole (request ∷ rest) w h = h

  asked-IsWhole :
      (w w₁ : Session) {x : Result Bool} → IsWhole i w → is_cancelled i w ≡ (x, w₁) → IsWhole i w₁
  asked-IsWhole w w₁ h e = record {
    past = h.past;
    alive = rw e at (is_cancelled-Alive i w h.alive);
    follows = asked-Follows i h.past w w₁ h.follows e;
    whole =
        let same : (is_cancelled i w).1 ≡ w₁ = rw e refl in
        let caught : catch_up w ≡ w₁ = cc (same, is_cancelled-state i w) in
        rw (← caught) (serve-whole w.meanwhile w h.whole);
  }

  module _ (sim : Simulator) (clock : HasClock sim) (settings : Settings) where
    abbrev pub WholeAfter : Result Outcome × Session → Type 0
    WholeAfter x = IsWhole i x.1

    flush-IsWhole :
        (until_target chunk time : ℤ) (outcome : Outcome) (events : List SimEvent) (w : Session)
        → IsWhole i w
        → IsWhole i (flush sim (callbacks i) until_target chunk outcome time events w).1
    flush-IsWhole until_target chunk time outcome events w h =
        let (w₁, does, h₁) = on_chunk-IsWhole time events w h in
        rw (returned-state outcome (on_chunk i time events w), does) h₁

    pub whole_rules :
        (w : Session) (r : SpurRunner)
        → IsWhole i w
        → RunRule sim clock (callbacks i) settings w r WholeAfter
    whole_rules w r h = record {
      on_raise = λ e. h;
      Holds = λ u c m₀ m b w'. IsWhole i w';
      rule = λ u c model built target size. (
        record {
          on_ask_raises = λ m b w' w₁ e p asked. asked-IsWhole w' w₁ p asked;
          on_cancel = λ m b w' w₁ p asked.
              flush-IsWhole u c (sim.now m) cancelled b w₁ (asked-IsWhole w' w₁ p asked);
          on_run_raises = λ m b w' w₁ e p asked ran. asked-IsWhole w' w₁ p asked;
          on_chunk_raises = λ m m' b events w' w₁ w₂ e p asked ran flushed.
              let (w₃, does, h₃) =
                on_chunk-IsWhole (sim.now m') (b ++ events) w₁ (asked-IsWhole w' w₁ p asked) in
              absurd (ground (arith, does, flushed));
          on_round = λ m m' b events w' w₁ w₂ p early asked ran flushed.
              let (w₃, does, h₃) =
                on_chunk-IsWhole (sim.now m') (b ++ events) w₁ (asked-IsWhole w' w₁ p asked) in
              let same : w₃ ≡ w₂ = cc (does, flushed) in rw same at h₃;
          on_end_raises = λ m b w' e p said. p;
          on_end = λ m b w' p late m' logged said. flush-IsWhole u c _ completed _ w' p;
        },
        h,
      );
    }
