-- ===== src/Worker/Tasks/Rerun.antt =====
-- A second job of spur_api/worker/tasks.py for a run, as arq starts one after its worker was shut down
-- during the first: `seq` starts at 0 again.
pub mod Barred
use spur_api.Base.{
  ℕ, zero, suc, ◌≤◌, ◌++◌, ◌≡◌, refl, ap, sym, ◌∙◌, ◌⊎◌, inl, inr, Bool, true, false, Option, some,
  List, [], ◌∷◌, arith, All, Bool-cases, length, length-append, keep_if,
}
use spur_api.Base.Int.{ℤ}
use spur_api.Json.{Fields}
use spur_api.Database.{SimulationRunRow, RunEventRow, RunStatus, running, State}
use spur_api.Database as D
use spur_api.Action.{Error, Result, ok, err, unhandled}
use spur_api.Settings.{Settings}
use spur_api.Spur.{SimEvent, Simulator, HasClock}
use spur_api.Runs.{find_run, save_run}
use spur_api.Worker.Runner.{Outcome, completed, cancelled, SpurRunner, returned}
use mathlib.Core.List.{append-nil, append_assoc}
use spur_api.Worker.Tasks.Accounts.{
  Ran, not_yet, further, Course, HasLogged, produced, produced_in_all,
}
use spur_api.Worker.Runner.Totality.{RunRule, run_rule}
use spur_api.Worker.Tasks.{
  Session, on_chunk, is_cancelled, callbacks, taken, is_empty, serve, catch_up, conclude, settle,
  set_running, set_failed, set_finished, final_status, set_sim_time, store_events, event_rows,
  spec_of, runner_of, run_job, run_simulation, fail,
}
use spur_api.Worker.Tasks.Lifecycle.{
  on_chunk-clash, on_chunk-stores, is_cancelled-state, update_run-found, conclude-broken,
  conclude-whole,
}

-- The run is marked as running, and its first event is stored already.
abbrev pub IsHalfway : ℕ → State → Type 0
IsHalfway i s =
    (r : SimulationRunRow) × (find_run i s ≡ some r)
    × (r.status ≡ running)
    × (is_empty (keep_if (taken i 0 1) s.run_events) ≡ false)

abbrev pub KeepsHalfway : ℕ → (State → State) → Type 0
KeepsHalfway i request = (s : State) → IsHalfway i s → IsHalfway i (request s)

-- A chunk from `seq` 0 with any event in it takes the first event's.
clash :
    (i n : ℕ) (rows : List RunEventRow)
    → is_empty (keep_if (taken i 0 1) rows) ≡ false
    → is_empty (keep_if (taken i 0 (suc n)) rows) ≡ false
clash i n [] h = h
clash i n (e ∷ rows) h = elim (Bool-cases (taken i 0 1 e)) [
  | inl first ↦ ground (arith, first)
  | inr other ↦ ground (arith, other, clash i n rows)
]

one_more : (k : ℕ) → 1 ≤ k → (n : ℕ) × (k ≡ suc n)
one_more zero h = absurd (omega (arith, h))
one_more (suc n) h = (n, refl)

-- A chunk without events takes no `seq`.
none_taken : (i seq : ℕ) (rows : List RunEventRow) → is_empty (keep_if (taken i seq 0) rows) ≡ true
none_taken i seq [] = refl
none_taken i seq (e ∷ rows) = ground (arith, none_taken i seq rows)

-- A batch has an event in it, or none.
batch_cases : (b : List SimEvent) → (1 ≤ length b) ⊎ (b ≡ [])
batch_cases [] = inr refl
batch_cases (e ∷ rest) = inl (omega arith)

front_empty : (xs ys : List SimEvent) → xs ++ ys ≡ [] → xs ≡ []
front_empty [] ys h = refl
front_empty (x ∷ xs) ys h = absurd (cc h)

module _ (i : ℕ) where
  -- No commit of the job has stored an event so far.
  pub record IsFirstDue (w : Session) : Type 0 where
    pub halfway : IsHalfway i w.db
    pub spared : All (KeepsHalfway i) w.meanwhile
    pub at_start : w.seq ≡ 0
    pub unbroken : w.broken ≡ false

  -- The job raised: the run is as it was, and the session may be broken.
  abbrev pub HasRaised : Result Outcome × Session → Type 0
  HasRaised x = ((e : Error) × (x.0 ≡ err e)) × IsHalfway i x.1.db

  on_chunk-raises :
      (time : ℤ) (b : List SimEvent) (w : Session)
      → IsFirstDue w
      → 1 ≤ length b
      → on_chunk i time b w ≡ (err (unhandled "IntegrityError"), fail b w)
  on_chunk-raises time b w h some_event =
      let (n, size) = one_more (length b) some_event in
      on_chunk-clash i time b w (rw (h.at_start, size) (clash i n w.db.run_events h.halfway.3))

  on_chunk-passes :
      (time : ℤ) (w : Session)
      → IsFirstDue w
      → (w₁ : Session) × (on_chunk i time [] w ≡ (ok tt, w₁)) × IsFirstDue w₁
  unfolding event_rows
  on_chunk-passes time w h =
      let (r, there, status, first) = h.halfway in
      let does = on_chunk-stores i time [] w r there (none_taken i w.seq w.db.run_events) in
      let (saved, found) =
        update_run-found i (set_sim_time time) (store_events i w.seq [] w.db) r (λ x. refl) there in
      (
        _,
        does,
        record {
          halfway = (set_sim_time time r, found, status, rw (append-nil w.db.run_events) first);
          spared = h.spared;
          at_start = omega (arith, h.at_start);
          unbroken = h.unbroken;
        },
      )

  serve-IsFirstDue :
      (requests : List (State → State)) (w : Session)
      → All (KeepsHalfway i) requests
      → IsFirstDue w
      → IsFirstDue (serve requests w)
  serve-IsFirstDue [] w kept h = h
  serve-IsFirstDue (request ∷ rest) w kept h = record {
    halfway = kept.0 w.db h.halfway;
    spared = kept.1;
    at_start = h.at_start;
    unbroken = h.unbroken;
  }

  asked-IsFirstDue :
      (w w₁ : Session) {x : Result Bool} → IsFirstDue w → is_cancelled i w ≡ (x, w₁) → IsFirstDue w₁
  asked-IsFirstDue w w₁ h e =
      let same : (is_cancelled i w).1 ≡ w₁ = rw e refl in
      let caught : catch_up w ≡ w₁ = cc (same, is_cancelled-state i w) in
      rw (← caught) (serve-IsFirstDue w.meanwhile w h.spared h)

  -- A chunk that was committed had no event in it.
  passed :
      (time : ℤ) (b : List SimEvent) (w w₁ : Session)
      → IsFirstDue w
      → on_chunk i time b w ≡ (ok tt, w₁)
      → (b ≡ []) × IsFirstDue w₁
  passed time b w w₁ h e = elim (batch_cases b) [
    | inl some_event ↦ absurd (cc (e, on_chunk-raises time b w h some_event))
    | inr no_event ↦
        let (w₂, does, still) = on_chunk-passes time w h in
        let same : w₂ ≡ w₁ = cc (does, e, no_event) in (no_event, rw same at still)
  ]

  refused :
      (time : ℤ) (b : List SimEvent) (w w₁ : Session) (e : Error)
      → IsFirstDue w
      → on_chunk i time b w ≡ (err e, w₁)
      → IsHalfway i w₁.db
  refused time b w w₁ e h raised = elim (batch_cases b) [
    | inl some_event ↦
        let same : fail b w ≡ w₁ = cc (raised, on_chunk-raises time b w h some_event) in
        rw (← same) h.halfway
    | inr no_event ↦
        let (w₂, does, still) = on_chunk-passes time w h in absurd (cc (does, raised, no_event))
  ]

  module _ (sim : Simulator) (settings : Settings) (r : SpurRunner) where
    -- The job went through, and its model has produced no event.
    abbrev pub GoesThrough : Result Outcome × Session → Type 0
    GoesThrough x =
        (outcome : Outcome) × (x.0 ≡ ok outcome)
        × IsFirstDue x.1
        × ((c : Course sim settings r) × (produced sim settings r c ≡ [])
            × (outcome ≡ completed
                → HasLogged sim settings r c × (produced_in_all sim settings r c ≡ [])))

    abbrev pub EndsBarred : Result Outcome × Session → Type 0
    EndsBarred x = HasRaised x ⊎ GoesThrough x

    flush-EndsBarred :
        (outcome : Outcome) (time : ℤ) (b : List SimEvent) (w : Session)
        → IsFirstDue w
        → (b ≡ []
            → (c : Course sim settings r) × (produced sim settings r c ≡ [])
              × (outcome ≡ completed
                  → HasLogged sim settings r c × (produced_in_all sim settings r c ≡ [])))
        → EndsBarred (returned outcome (on_chunk i time b w))
    flush-EndsBarred outcome time b w h course = elim (batch_cases b) [
      | inl some_event ↦ inl (
          rw (on_chunk-raises time b w h some_event)
            ((unhandled "IntegrityError", refl), h.halfway))
      | inr no_event ↦
          let (w₁, does, still) = on_chunk-passes time w h in
          inr (rw (no_event, does) (outcome, refl, still, course no_event))
    ]

    -- How far the model has come without an event that was committed: `b` is all that it produced.
    record IsOnCourse (u c : ℤ) (m₀ m : sim.Model) (b : List SimEvent) (w : Session) : Type 0 where
      pub due : IsFirstDue w
      pub events : List SimEvent
      pub ran : Ran sim u c (sim.start m₀).0 m events
      pub produced_so_far : (sim.start m₀).1 ++ events ≡ b

    module _ (clock : HasClock sim) where
      pub rerun_rules :
          (w : Session) → IsFirstDue w → RunRule sim clock (callbacks i) settings w r EndsBarred
      rerun_rules w start = record {
        on_raise = λ e. inl ((e, refl), start.halfway);
        Holds = IsOnCourse;
        rule = λ u c model built target size. (
          record {
            on_ask_raises = λ m b w' w₁ e p asked.
                inl ((e, refl), (asked-IsFirstDue w' w₁ p.due asked).halfway);
            on_cancel = λ m b w' w₁ p asked.
                flush-EndsBarred cancelled (sim.now m) b w₁ (asked-IsFirstDue w' w₁ p.due asked)
                  λ no_event. (
                    record {
                      until_target = u;
                      chunk = c;
                      model = model;
                      last = m;
                      events = p.events;
                      was_built = built;
                      target = target;
                      size = size;
                      ran = p.ran;
                    },
                    p.produced_so_far ∙ no_event,
                    λ other. absurd (cc other),
                  );
            on_run_raises = λ m b w' w₁ e p asked ran.
                inl ((e, refl), (asked-IsFirstDue w' w₁ p.due asked).halfway);
            on_chunk_raises = λ m m' b events w' w₁ w₂ e p asked ran flushed. inl (
              (e, refl),
              refused (sim.now m') (b ++ events) w₁ w₂ e (asked-IsFirstDue w' w₁ p.due asked)
                  flushed,
            );
            on_round = λ m m' b events w' w₁ w₂ p early asked ran flushed.
                let (no_event, due) =
                  passed (sim.now m') (b ++ events) w₁ w₂ (asked-IsFirstDue w' w₁ p.due asked)
                    flushed in
                record {
                  due = due;
                  events = p.events ++ events;
                  ran = further p.ran ran refl;
                  produced_so_far =
                      sym (append_assoc (sim.start model).1 p.events events)
                      ∙ ap (λ l. l ++ events) p.produced_so_far
                      ∙ no_event;
                };
            on_end_raises = λ m b w' e p said. inl ((e, refl), p.due.halfway);
            on_end = λ m b w' p late m' logged said.
                flush-EndsBarred completed _ (b ++ logged) w' p.due λ no_event. (
                  record {
                    until_target = u;
                    chunk = c;
                    model = model;
                    last = m;
                    events = p.events;
                    was_built = built;
                    target = target;
                    size = size;
                    ran = p.ran;
                  },
                  p.produced_so_far ∙ front_empty b logged no_event,
                  λ done. (
                    ((m', logged), said),
                    rw said (ap (λ l. l ++ logged) p.produced_so_far ∙ no_event),
                  ),
                );
          },
          record { due = start; events = []; ran = not_yet; produced_so_far = append-nil _ },
        );
      }
