-- ===== src/Worker/Runner/Totality.antt =====
-- `SpurRunner.run` (spur_api/worker/runner.py) as a whole, by the rule for its loop.
use spur_api.Base.{◌≡◌, refl, Option, some, List, arith}
use spur_api.Base.Int.{ℤ}
use spur_api.Action.{Error, Result, ok, err}
use spur_api.Settings.{Settings}
use spur_api.Spur.{SimEvent, Simulator, HasClock}
use spur_api.Worker.Runner.{
  Outcome, Callbacks, SpurRunner, build_model, target_of, chunk_of, with_chunk, with_target,
  with_model, run,
}
use spur_api.Worker.Runner.Termination.{LoopRule, loop_rule}

module _ (sim : Simulator) (clock : HasClock sim) {W : Type 0} (cb : Callbacks W)
    (settings : Settings) (w : W) where
  -- A property of what `run` returns: of each exception before the loop, and of what the loop returns
  -- from a model that was built and started.
  pub record RunRule (r : SpurRunner) (Q : Result Outcome × W → Type 0) : Type 1 where
    pub on_raise : (e : Error) → Q (err e, w)
    pub Holds : ℤ → ℤ → sim.Model → sim.Model → List SimEvent → W → Type 0
    pub rule :
        (until_target chunk : ℤ) (model : sim.Model)
        → build_model sim r ≡ ok model
        → target_of settings r ≡ ok until_target
        → chunk_of settings r.chunk_size until_target ≡ ok chunk
        → LoopRule sim clock cb until_target chunk (Holds until_target chunk model) Q
          × Holds until_target chunk model (sim.start model).0 (sim.start model).1 w

  module _ (r : SpurRunner) (Q : Result Outcome × W → Type 0) (rules : RunRule r Q) where
    abbrev Ends : Option (Result Outcome × W) → Type 0
    Ends result = (x : Result Outcome × W) × (result ≡ some x) × Q x

    module _ (model : sim.Model) (was_built : build_model sim r ≡ ok model) where
      chunk_Ends :
          (until_target : ℤ)
          → target_of settings r ≡ ok until_target
          → (c : Result ℤ) → chunk_of settings r.chunk_size until_target ≡ c
          → Ends (with_chunk sim cb until_target (sim.start model) w c)
      unfolding with_chunk
      chunk_Ends until_target target (err e) raised = (_, refl, rules.on_raise e)
      chunk_Ends until_target target (ok chunk) size =
          let (rule, start) = rules.rule until_target chunk model was_built target size in
          loop_rule sim clock cb until_target chunk (rules.Holds until_target chunk model) Q rule _
            (sim.start model).0 (sim.start model).1 w (omega arith) start

      target_Ends :
          (t : Result ℤ)
          → target_of settings r ≡ t
          → Ends (with_target sim cb settings r.chunk_size (sim.start model) w t)
      unfolding with_target
      target_Ends (err e) raised = (_, refl, rules.on_raise e)
      target_Ends (ok until_target) target =
          chunk_Ends until_target target (chunk_of settings r.chunk_size until_target) refl

    model_Ends :
        (m : Result sim.Model) → build_model sim r ≡ m → Ends (with_model sim cb settings r w m)
    unfolding with_model
    model_Ends (err e) raised = (_, refl, rules.on_raise e)
    model_Ends (ok model) was_built = target_Ends model was_built (target_of settings r) refl

    pub run_rule : (x : Result Outcome × W) × (run sim cb settings r w ≡ some x) × Q x
    unfolding run
    run_rule = model_Ends (build_model sim r) refl

-- SpurRunner.run returns or raises, whatever the chunk size, the horizon, the model and the
-- callbacks, if the model's clock does as it is documented to.
pub run_total :
    (sim : Simulator) (clock : HasClock sim) {W : Type 0} (cb : Callbacks W) (settings : Settings)
    (r : SpurRunner) (w : W)
    → (x : Result Outcome × W) × (run sim cb settings r w ≡ some x)
run_total sim clock cb settings r w =
    let (x, e, done) = run_rule sim clock cb settings w r (λ x. Unit {0}) anything in (x, e)
  where
    anything : RunRule sim clock cb settings w r (λ x. Unit {0})
    anything = record {
      on_raise = λ e. tt;
      Holds = λ u c m₀ m b w. Unit {0};
      rule = λ u c model built target size. (
        record {
          on_ask_raises = λ m b w w₁ e p asked. tt;
          on_cancel = λ m b w w₁ p asked. tt;
          on_run_raises = λ m b w w₁ e p asked ran. tt;
          on_chunk_raises = λ m m' b events w w₁ w₂ e p asked ran flushed. tt;
          on_round = λ m m' b events w w₁ w₂ p early asked ran flushed. tt;
          on_end = λ m b w p late m' logged said. tt;
          on_end_raises = λ m b w e p said. tt;
        },
        tt,
      );
    }
