-- ===== src/Worker/Runner.antt =====
-- `SpurRunner` of spur_api/worker/runner.py: a model is run in bounded chunks, with a callback after
-- each and a check for cancellation before each. `W` is the state that the callbacks read and write.
pub mod Termination
pub mod Totality
use spur_api.Base.{
  ℕ, zero, suc, ◌+◌, ◌-◌, ◌/◌, Bool, true, false, String, Option, none, some, List, [], ◌∷◌, ◌++◌,
  ◌==◌, if◌then◌else◌,
}
use spur_api.Base.Int.{ℤ, pos, negsuc, pos_part, neg_part, sub_ℕ, ◌+ℤ◌, ltb_ℤ, max_ℤ, min_ℤ}
use spur_api.Json.{Fields}
use spur_api.Action.{Error, Result, ok, err, invalid_project, unhandled}
use spur_api.Settings.{Settings}
use spur_api.Horizon.{derive_until}
use spur_api.Spur.{SimEvent, Built, built, refused, crashed, Simulator}

pub data Outcome : Type 0 where
  completed cancelled : Outcome

pub record Callbacks (W : Type 0) : Type 0 where
  pub on_chunk : ℤ → List SimEvent → W → Result (Unit {0}) × W
  pub is_cancelled : W → Result Bool × W

pub record SpurRunner : Type 0 where
  pub project_dict : Fields
  pub until : Option ℤ
  pub chunk_size : Option ℤ
  pub seed : Option ℕ

-- `-a`
abbrev pub negated : ℤ → ℤ
negated a = sub_ℕ (neg_part a) (pos_part a)

-- `a // b` for a positive `b`
abbrev pub floor_div : ℤ → ℕ → ℤ
floor_div (pos n) b = pos (n / b)
floor_div (negsuc n) b = negsuc (n / b)

-- `max(1, until_target // settings.default_chunk_count)`, where `a // -b` is `-a // b`
abbrev pub default_chunk : ℤ → ℤ → Result ℤ
default_chunk (pos zero) until_target = err (unhandled "ZeroDivisionError")
default_chunk (pos n) until_target = ok (max_ℤ (pos 1) (floor_div until_target n))
default_chunk (negsuc n) until_target =
    ok (max_ℤ (pos 1) (floor_div (negated until_target) (suc n)))

-- `self.chunk_size or …`: a size of 0 counts as none
unfoldable pub chunk_of : Settings → Option ℤ → ℤ → Result ℤ
chunk_of settings none until_target = default_chunk settings.default_chunk_count until_target
chunk_of settings (some (pos zero)) until_target =
    default_chunk settings.default_chunk_count until_target
chunk_of settings (some c) until_target = ok c

-- `self.until if self.until is not None else derive_until(self._project_dict)`
abbrev pub target_of : Settings → SpurRunner → Result ℤ
target_of settings r = elim r.until [ none ↦ derive_until settings r.project_dict | some u ↦ ok u ]

-- What `run` returns after its last `on_chunk`.
abbrev pub returned : {W : Type 0} → Outcome → Result (Unit {0}) × W → Result Outcome × W
returned outcome (ok done, w) = (ok outcome, w)
returned outcome (err e, w) = (err e, w)

module _ (sim : Simulator) where
  unfoldable pub build_model : SpurRunner → Result sim.Model
  build_model r = elim (sim.build r.project_dict r.seed) [
    | built m ↦ ok m
    | refused text ↦ err (invalid_project text)
    | crashed text ↦ err (unhandled text)
  ]

  -- How far the clock is from the target.
  unfoldable pub distance : ℤ → sim.Model → ℕ
  distance until_target m =
      (pos_part until_target + neg_part (sim.now m))
      - (pos_part (sim.now m) + neg_part until_target)

  module _ {W : Type 0} (cb : Callbacks W) (until_target chunk : ℤ) where
    abbrev pub flush : Outcome → ℤ → List SimEvent → W → Result Outcome × W
    flush outcome time events w = returned outcome (cb.on_chunk time events w)

    -- After the loop: `log_current_state`, and the last `on_chunk`.
    unfoldable pub after_log :
        List SimEvent → W → Result (sim.Model × List SimEvent) → Result Outcome × W
    after_log batch w (err e) = (err e, w)
    after_log batch w (ok (m, logged)) = flush completed (sim.now m) (batch ++ logged) w

    unfoldable pub finish : sim.Model → List SimEvent → W → Option (Result Outcome × W)
    unfolding after_log
    finish m batch w = some (after_log batch w (sim.log_current_state m))

    abbrev pub next_checkpoint : sim.Model → ℤ
    next_checkpoint m = min_ℤ (sim.now m +ℤ chunk) until_target

    -- The rest of one round, with what comes after it as `go`: after `on_chunk`, after `model.run`,
    -- after `is_cancelled`, and after the test of the `while`.
    unfoldable pub after_chunk :
        (sim.Model → W → Option (Result Outcome × W))
        → sim.Model
        → Result (Unit {0}) × W
        → Option (Result Outcome × W)
    after_chunk go m (ok done, w) = go m w
    after_chunk go m (err e, w) = some (err e, w)

    unfoldable pub after_run :
        (sim.Model → W → Option (Result Outcome × W))
        → List SimEvent
        → W
        → Result (sim.Model × List SimEvent)
        → Option (Result Outcome × W)
    unfolding after_chunk
    after_run go batch w (err e) = some (err e, w)
    after_run go batch w (ok (m, events)) =
        after_chunk go m (cb.on_chunk (sim.now m) (batch ++ events) w)

    unfoldable pub after_ask :
        (sim.Model → W → Option (Result Outcome × W))
        → sim.Model
        → List SimEvent
        → Result Bool × W
        → Option (Result Outcome × W)
    unfolding after_run
    after_ask go m batch (err e, w) = some (err e, w)
    after_ask go m batch (ok true, w) = some (flush cancelled (sim.now m) batch w)
    after_ask go m batch (ok false, w) = after_run go batch w (sim.run (next_checkpoint m) m)

    unfoldable pub round :
        (sim.Model → W → Option (Result Outcome × W))
        → sim.Model
        → List SimEvent
        → W
        → Bool
        → Option (Result Outcome × W)
    unfolding after_ask finish
    round go m batch w false = finish m batch w
    round go m batch w true = after_ask go m batch (cb.is_cancelled w)

    -- The `while` loop, with the events not yet handed on; `none` means that the fuel ran out.
    unfoldable pub loop : ℕ → sim.Model → List SimEvent → W → Option (Result Outcome × W)
    unfolding round
    loop zero m batch w = none
    loop (suc fuel) m batch w =
        round (λ m' w'. loop fuel m' [] w') m batch w (ltb_ℤ (sim.now m) until_target)

  -- The loop from a model that was started. Its fuel is one more than the distance to the target, which
  -- is enough.
  unfoldable pub run_loop :
      {W : Type 0}
      → Callbacks W
      → ℤ
      → ℤ
      → sim.Model
      → List SimEvent
      → W
      → Option (Result Outcome × W)
  run_loop cb until_target chunk m started w =
      loop cb until_target chunk (suc (distance until_target m)) m started w

  unfoldable pub with_chunk :
      {W : Type 0}
      → Callbacks W
      → ℤ
      → sim.Model × List SimEvent
      → W
      → Result ℤ
      → Option (Result Outcome × W)
  unfolding run_loop
  with_chunk cb until_target (m, started) w (err e) = some (err e, w)
  with_chunk cb until_target (m, started) w (ok chunk) = run_loop cb until_target chunk m started w

  unfoldable pub with_target :
      {W : Type 0}
      → Callbacks W
      → Settings
      → Option ℤ
      → sim.Model × List SimEvent
      → W
      → Result ℤ
      → Option (Result Outcome × W)
  unfolding with_chunk
  with_target cb settings chunk_size started w (err e) = some (err e, w)
  with_target cb settings chunk_size started w (ok until_target) =
      with_chunk cb until_target started w (chunk_of settings chunk_size until_target)

  unfoldable pub with_model :
      {W : Type 0}
      → Callbacks W
      → Settings
      → SpurRunner
      → W
      → Result sim.Model
      → Option (Result Outcome × W)
  unfolding with_target
  with_model cb settings r w (err e) = some (err e, w)
  with_model cb settings r w (ok model) =
      with_target cb settings r.chunk_size (sim.start model) w (target_of settings r)

  -- `run`: build and start the model, find the target and the chunk size, and loop.
  unfoldable pub run :
      {W : Type 0} → Callbacks W → Settings → SpurRunner → W → Option (Result Outcome × W)
  unfolding with_model
  run cb settings r w = with_model cb settings r w (build_model r)
