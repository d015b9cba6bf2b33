-- ===== src/Worker/Tasks/Accounts.antt =====
-- What a job of spur_api/worker/tasks.py has stored when it ends, for each of its final statuses.
use mathlib.Core.List.{append-nil, append_assoc}
use spur_api.Base.{false, ℕ, ◌≡◌, refl, ap, sym, ◌∙◌, Bool, List, [], ◌++◌, ◌⊎◌, inl, inr}
use spur_api.Base.Int.{ltb_ℤ, ℤ, ◌+ℤ◌, min_ℤ}
use spur_api.Database.{State}
use spur_api.Action.{Error, Result, ok, err}
use spur_api.Settings.{Settings}
use spur_api.Spur.{SimEvent, Simulator, sunk, HasClock}
use spur_api.Worker.Runner.{
  target_of, chunk_of, Outcome, completed, cancelled, SpurRunner, build_model, returned,
}
use spur_api.Worker.Runner.Totality.{RunRule}
use spur_api.Worker.Tasks.{Session, on_chunk, is_cancelled, callbacks, event_rows}
use spur_api.Worker.Tasks.Storage.{stored, Follows, asked-Follows, flushed-Follows, refused-rows}

-- A batch grows by a chunk.
extend {ℓ} :
    {A : Type ℓ} (past b start events new : List A)
    → past ++ b ≡ start ++ events
    → past ++ (b ++ new) ≡ start ++ (events ++ new)
extend past b start events new e =
    sym (append_assoc past b new) ∙ ap (λ l. l ++ new) e ∙ append_assoc start events new

-- The events of the chunks from one model to another.
pub data Ran (sim : Simulator) (until_target chunk : ℤ) (start : sim.Model)
    : sim.Model → List SimEvent → Type 0 where
  not_yet : Ran sim until_target chunk start start []
  further :
      {m m' : sim.Model} {past events all : List SimEvent}
      → Ran sim until_target chunk start m past
      → sim.run (min_ℤ (sim.now m +ℤ chunk) until_target) m ≡ ok (m', events)
      → all ≡ past ++ events
      → Ran sim until_target chunk start m' all

module _ (sim : Simulator) (settings : Settings) (r : SpurRunner) where
  -- The model that the job built, the last one that it ran to, and the events of the chunks up to it.
  pub record Course : Type 0 where
    pub until_target : ℤ
    pub chunk : ℤ
    pub model : sim.Model
    pub last : sim.Model
    pub events : List SimEvent
    pub was_built : build_model sim r ≡ ok model
    pub target : target_of settings r ≡ ok until_target
    pub size : chunk_of settings r.chunk_size until_target ≡ ok chunk
    pub ran : Ran sim until_target chunk (sim.start model).0 last events

  -- The log of its last state did not raise.
  abbrev pub HasLogged : Course → Type 0
  HasLogged c = (end : sim.Model × List SimEvent) × (sim.log_current_state c.last ≡ ok end)

  -- The events of its start and of its chunks; with those of its end.
  abbrev pub produced : Course → List SimEvent
  produced c = (sim.start c.model).1 ++ c.events

  abbrev pub produced_in_all : Course → List SimEvent
  produced_in_all c = produced c ++ sunk (sim.log_current_state c.last)

module _ (sim : Simulator) (settings : Settings) (i : ℕ) (r : SpurRunner) where
  -- What is stored when `run` has ended: at the target everything that was produced, up to the cancellation if there
  -- was one, and before an exception some first part of what was produced, or nothing.
  abbrev pub Kept : Result Outcome → State → Type 0
  Kept (ok completed) t =
      (c : Course sim settings r) × (ltb_ℤ (sim.now c.last) c.until_target ≡ false)
      × HasLogged sim settings r c
      × (stored i t ≡ event_rows i 0 (produced_in_all sim settings r c))
  Kept (ok cancelled) t =
      (c : Course sim settings r) × (stored i t ≡ event_rows i 0 (produced sim settings r c))
  Kept (err e) t =
      (stored i t ≡ [])
      ⊎ ((c : Course sim settings r) × (past rest : List SimEvent) × (produced sim settings r c
            ≡ past ++ rest)
          × (stored i t ≡ event_rows i 0 past))

  abbrev pub KeptAfter : Result Outcome × Session → Type 0
  KeptAfter x = Kept x.0 x.1.db

  -- Before a round: the batch is what was produced and is not stored.
  record Pending (u c : ℤ) (model m : sim.Model) (b : List SimEvent) (w : Session) : Type 0 where
    past : List SimEvent
    events : List SimEvent
    ran : Ran sim u c (sim.start model).0 m events
    all : past ++ b ≡ (sim.start model).1 ++ events
    follows : Follows i past w

  module _ (u c : ℤ) (model : sim.Model) (was_built : build_model sim r ≡ ok model)
      (target : target_of settings r ≡ ok u) (size : chunk_of settings r.chunk_size u ≡ ok c) where
    abbrev course :
        {m : sim.Model} {b : List SimEvent} {w : Session}
        → Pending u c model m b w
        → Course sim settings r
    course {m} p = record {
      until_target = u;
      chunk = c;
      model = model;
      last = m;
      events = p.events;
      was_built = was_built;
      target = target;
      size = size;
      ran = p.ran;
    }

    raised_Kept :
        {m : sim.Model} {b : List SimEvent} {w : Session} (p : Pending u c model m b w) (t : State)
        → stored i t ≡ event_rows i 0 p.past
        → (e : Error) → Kept (err e) t
    raised_Kept {m} {b} p t rows e = inr (course p, p.past, b, sym p.all, rows)

    asked_Pending :
        {m : sim.Model} {b : List SimEvent} {w w₁ : Session} {x : Result Bool}
        → Pending u c model m b w
        → is_cancelled i w ≡ (x, w₁)
        → Pending u c model m b w₁
    asked_Pending {m} {b} {w} {w₁} p asked = record {
      past = p.past;
      events = p.events;
      ran = p.ran;
      all = p.all;
      follows = asked-Follows i p.past w w₁ p.follows asked;
    }

    round_Pending :
        {m m' : sim.Model} {b events : List SimEvent} {w w₁ : Session}
        → Pending u c model m b w
        → sim.run (min_ℤ (sim.now m +ℤ c) u) m ≡ ok (m', events)
        → on_chunk i (sim.now m') (b ++ events) w ≡ (ok tt, w₁)
        → Pending u c model m' [] w₁
    round_Pending {m} {m'} {b} {events} {w} {w₁} p ran flushed = record {
      past = p.past ++ (b ++ events);
      events = p.events ++ events;
      ran = further p.ran ran refl;
      all =
          append-nil (p.past ++ (b ++ events))
          ∙ extend {A = SimEvent} p.past b (sim.start model).1 p.events events p.all;
      follows = flushed-Follows i p.past (sim.now m') (b ++ events) w w₁ p.follows flushed;
    }

    cancel_Kept :
        {m : sim.Model} {b : List SimEvent} {w : Session} (p : Pending u c model m b w)
        → (x : Result (Unit {0}) × Session) → on_chunk i (sim.now m) b w ≡ x
        → KeptAfter (returned cancelled x)
    cancel_Kept {m} {b} {w} p (ok done, w₁) flushed = (
      course p,
      (flushed-Follows i p.past (sim.now m) b w w₁ p.follows flushed).rows
          ∙ ap (event_rows i 0) p.all,
    )
    cancel_Kept {m} {b} {w} p (err e, w₁) flushed =
        raised_Kept p w₁.db (refused-rows i p.past (sim.now m) b w w₁ p.follows flushed) e

    end_Kept :
        {m : sim.Model} {b : List SimEvent} {w : Session} (p : Pending u c model m b w)
        → (time : ℤ) → ltb_ℤ (sim.now m) u ≡ false
        → (m' : sim.Model) (logged : List SimEvent) → sim.log_current_state m ≡ ok (m', logged)
        → (x : Result (Unit {0}) × Session) → on_chunk i time (b ++ logged) w ≡ x
        → KeptAfter (returned completed x)
    end_Kept {m} {b} {w} p time late m' logged said (ok done, w₁) flushed = (
      course p,
      late,
      ((m', logged), said),
      rw said (
          (flushed-Follows i p.past time (b ++ logged) w w₁ p.follows flushed).rows
          ∙ ap (event_rows i 0) (sym (append_assoc p.past b logged) ∙ ap (λ l. l ++ logged) p.all)),
    )
    end_Kept {m} {b} {w} p time late m' logged said (err e, w₁) flushed =
        raised_Kept p w₁.db (refused-rows i p.past time _ w w₁ p.follows flushed) e

  module _ (clock : HasClock sim) where
    pub kept_rules :
        (w : Session) → Follows i [] w → RunRule sim clock (callbacks i) settings w r KeptAfter
    unfolding event_rows
    kept_rules w start = record {
      on_raise = λ e. inl start.rows;
      Holds = λ u c model m b w'. Pending u c model m b w';
      rule = λ u c model built target size. (
        record {
          on_ask_raises = λ m b w' w₁ e p asked.
              let p₁ = asked_Pending u c model built target size p asked in
              raised_Kept u c model built target size p₁ w₁.db p₁.follows.rows e;
          on_cancel = λ m b w' w₁ p asked.
              cancel_Kept u c model built target size
                (asked_Pending u c model built target size p asked) _ refl;
          on_run_raises = λ m b w' w₁ e p asked ran.
              let p₁ = asked_Pending u c model built target size p asked in
              raised_Kept u c model built target size p₁ w₁.db p₁.follows.rows e;
          on_chunk_raises = λ m m' b events w' w₁ w₂ e p asked ran flushed.
              raised_Kept u c model built target size p w₂.db
                (refused-rows i p.past (sim.now m') (b ++ events) w₁ w₂
                  (asked-Follows i p.past w' w₁ p.follows asked) flushed)
                e;
          on_round = λ m m' b events w' w₁ w₂ p early asked ran flushed.
              round_Pending u c model built target size
                (asked_Pending u c model built target size p asked) ran flushed;
          on_end = λ m b w' p late m' logged said.
              end_Kept u c model built target size p _ late m' logged said _ refl;
          on_end_raises =
              λ m b w' e p said. raised_Kept u c model built target size p w'.db p.follows.rows e;
        },
        record {
          past = [];
          events = [];
          ran = not_yet;
          all = sym (append-nil (sim.start model).1);
          follows = start;
        },
      );
    }
