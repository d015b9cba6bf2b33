-- ===== src/Worker/Runner/Termination.antt =====
-- The loop of `SpurRunner.run` (spur_api/worker/runner.py): how it comes to an end.
use spur_api.Base.{
  ℕ, zero, suc, ◌<◌, ◌≡◌, refl, Bool, true, false, Option, some, List, [], ◌++◌, arith, Bool-cases,
  inl, inr,
}
use spur_api.Base.Int.{ℤ, ◌+ℤ◌, ◌≤ℤ◌, ltb_ℤ, min_ℤ}
use spur_api.Action.{Error, Result, ok, err}
use spur_api.Spur.{SimEvent, Simulator, HasClock}
use spur_api.Worker.Runner.{
  Outcome, completed, cancelled, Callbacks, distance, flush, next_checkpoint, after_chunk,
  after_run, after_ask, after_log, finish, round, loop,
}

module _ (sim : Simulator) (clock : HasClock sim) where
  -- A chunk that ran brings the clock nearer to the target: a checkpoint in the past would have raised.
  pub distance-run :
      (chunk until_target : ℤ) (m m' : sim.Model) (events : List SimEvent)
      → ltb_ℤ (sim.now m) until_target ≡ true
      → sim.run (min_ℤ (sim.now m +ℤ chunk) until_target) m ≡ ok (m', events)
      → distance sim until_target m' < distance sim until_target m
  unfolding distance
  distance-run chunk until_target m m' events early ran =
      let next = min_ℤ (sim.now m +ℤ chunk) until_target in
      let arrived : sim.now m' ≡ next = clock.run_until next m m' events ran in
      elim (Bool-cases (ltb_ℤ (sim.now m) next)) [
        | inl ahead ↦ rw arrived (ground arith)
        | inr past ↦
            let behind : next ≤ℤ sim.now m = ground arith in
            let (e, raised) = clock.run_past next m behind in absurd (cc (ran, raised))
      ]

  module _ {W : Type 0} (cb : Callbacks W) (until_target chunk : ℤ) where
    -- What it takes to show that the loop ends in `Q`: `P` holds before each round.
    pub record LoopRule (P : sim.Model → List SimEvent → W → Type 0)
        (Q : Result Outcome × W → Type 0) : Type 0 where
      pub on_ask_raises :
          (m : sim.Model) (b : List SimEvent) (w w₁ : W) (e : Error)
          → P m b w
          → cb.is_cancelled w ≡ (err e, w₁)
          → Q (err e, w₁)
      pub on_cancel :
          (m : sim.Model) (b : List SimEvent) (w w₁ : W)
          → P m b w
          → cb.is_cancelled w ≡ (ok true, w₁)
          → Q (flush sim cb until_target chunk cancelled (sim.now m) b w₁)
      pub on_run_raises :
          (m : sim.Model) (b : List SimEvent) (w w₁ : W) (e : Error)
          → P m b w
          → cb.is_cancelled w ≡ (ok false, w₁)
          → sim.run (next_checkpoint sim cb until_target chunk m) m ≡ err e
          → Q (err e, w₁)
      pub on_chunk_raises :
          (m m' : sim.Model) (b events : List SimEvent) (w w₁ w₂ : W) (e : Error)
          → P m b w
          → cb.is_cancelled w ≡ (ok false, w₁)
          → sim.run (next_checkpoint sim cb until_target chunk m) m ≡ ok (m', events)
          → cb.on_chunk (sim.now m') (b ++ events) w₁ ≡ (err e, w₂)
          → Q (err e, w₂)
      pub on_round :
          (m m' : sim.Model) (b events : List SimEvent) (w w₁ w₂ : W)
          → P m b w
          → ltb_ℤ (sim.now m) until_target ≡ true
          → cb.is_cancelled w ≡ (ok false, w₁)
          → sim.run (next_checkpoint sim cb until_target chunk m) m ≡ ok (m', events)
          → cb.on_chunk (sim.now m') (b ++ events) w₁ ≡ (ok tt, w₂)
          → P m' [] w₂
      pub on_end :
          (m : sim.Model) (b : List SimEvent) (w : W)
          → P m b w
          → ltb_ℤ (sim.now m) until_target ≡ false
          → (m' : sim.Model) (logged : List SimEvent) → sim.log_current_state m ≡ ok (m', logged)
          → Q (flush sim cb until_target chunk completed (sim.now m') (b ++ logged) w)
      pub on_end_raises :
          (m : sim.Model) (b : List SimEvent) (w : W) (e : Error)
          → P m b w
          → sim.log_current_state m ≡ err e
          → Q (err e, w)

    abbrev Ends : (Result Outcome × W → Type 0) → Option (Result Outcome × W) → Type 0
    Ends Q result = (r : Result Outcome × W) × (result ≡ some r) × Q r

    module _ (P : sim.Model → List SimEvent → W → Type 0) (Q : Result Outcome × W → Type 0)
        (rule : LoopRule P Q) (go : sim.Model → W → Option (Result Outcome × W)) (m : sim.Model)
        (b : List SimEvent) (w : W) (p : P m b w) where
      chunk_Ends :
          (m' : sim.Model) (events : List SimEvent) (w₁ : W)
          → ltb_ℤ (sim.now m) until_target ≡ true
          → cb.is_cancelled w ≡ (ok false, w₁)
          → sim.run (next_checkpoint sim cb until_target chunk m) m ≡ ok (m', events)
          → ((w₂ : W) → P m' [] w₂ → Ends Q (go m' w₂))
          → (r : Result (Unit {0}) × W) → cb.on_chunk (sim.now m') (b ++ events) w₁ ≡ r
          → Ends Q (after_chunk sim cb until_target chunk go m' r)
      unfolding after_chunk
      chunk_Ends m' events w₁ early asked ran ends (ok done, w₂) e =
          ends w₂ (rule.on_round m m' b events w w₁ w₂ p early asked ran e)
      chunk_Ends m' events w₁ early asked ran ends (err x, w₂) e =
          (_, refl, rule.on_chunk_raises m m' b events w w₁ w₂ x p asked ran e)

      run_Ends :
          (w₁ : W)
          → ltb_ℤ (sim.now m) until_target ≡ true
          → cb.is_cancelled w ≡ (ok false, w₁)
          → ((m' : sim.Model) (events : List SimEvent)
              → sim.run (next_checkpoint sim cb until_target chunk m) m ≡ ok (m', events)
              → (w₂ : W) → P m' [] w₂
              → Ends Q (go m' w₂))
          → (r : Result (sim.Model × List SimEvent))
          → sim.run (next_checkpoint sim cb until_target chunk m) m ≡ r
          → Ends Q (after_run sim cb until_target chunk go b w₁ r)
      unfolding after_run
      run_Ends w₁ early asked ends (ok (m', events)) ran =
          chunk_Ends m' events w₁ early asked ran (ends m' events ran)
            (cb.on_chunk (sim.now m') (b ++ events) w₁) refl
      run_Ends w₁ early asked ends (err x) ran =
          (_, refl, rule.on_run_raises m b w w₁ x p asked ran)

      ask_Ends :
          ltb_ℤ (sim.now m) until_target ≡ true
          → ((m' : sim.Model) (events : List SimEvent)
              → sim.run (next_checkpoint sim cb until_target chunk m) m ≡ ok (m', events)
              → (w₂ : W) → P m' [] w₂
              → Ends Q (go m' w₂))
          → (r : Result Bool × W) → cb.is_cancelled w ≡ r
          → Ends Q (after_ask sim cb until_target chunk go m b r)
      unfolding after_ask
      ask_Ends early ends (err x, w₁) asked = (_, refl, rule.on_ask_raises m b w w₁ x p asked)
      ask_Ends early ends (ok true, w₁) asked = (_, refl, rule.on_cancel m b w w₁ p asked)
      ask_Ends early ends (ok false, w₁) asked =
          run_Ends w₁ early asked ends (sim.run (next_checkpoint sim cb until_target chunk m) m)
            refl

      log_Ends :
          ltb_ℤ (sim.now m) until_target ≡ false
          → (r : Result (sim.Model × List SimEvent)) → sim.log_current_state m ≡ r
          → Q (after_log sim cb until_target chunk b w r)
      unfolding after_log
      log_Ends late (ok (m', logged)) said = rule.on_end m b w p late m' logged said
      log_Ends late (err e) said = rule.on_end_raises m b w e p said

      round-Ends :
          (ltb_ℤ (sim.now m) until_target ≡ true
            → (m' : sim.Model) (events : List SimEvent)
            → sim.run (next_checkpoint sim cb until_target chunk m) m ≡ ok (m', events)
            → (w₂ : W) → P m' [] w₂
            → Ends Q (go m' w₂))
          → (test : Bool) → ltb_ℤ (sim.now m) until_target ≡ test
          → Ends Q (round sim cb until_target chunk go m b w test)
      unfolding round finish after_log
      round-Ends ends false late = (_, refl, log_Ends late (sim.log_current_state m) refl)
      round-Ends ends true early = ask_Ends early (ends early) (cb.is_cancelled w) refl

    -- With fuel above the distance to the target the loop returns, and what it returns is as the rule
    -- says.
    pub loop_rule :
        (P : sim.Model → List SimEvent → W → Type 0) (Q : Result Outcome × W → Type 0)
        → LoopRule P Q
        → (fuel : ℕ) (m : sim.Model) (b : List SimEvent) (w : W)
        → distance sim until_target m < fuel
        → P m b w
        → (r : Result Outcome × W) × (loop sim cb until_target chunk fuel m b w ≡ some r) × Q r
    unfolding loop
    loop_rule P Q rule zero m b w d p = absurd (omega arith)
    loop_rule P Q rule (suc fuel) m b w d p =
        round-Ends P Q rule (λ m' w'. loop sim cb until_target chunk fuel m' [] w') m b w p
          (λ early m' events ran w₂ p'.
            let nearer = distance-run chunk until_target m m' events early ran in
            loop_rule P Q rule fuel m' [] w₂ (omega arith) p')
          (ltb_ℤ (sim.now m) until_target) refl
