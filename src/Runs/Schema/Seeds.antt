-- ===== src/Runs/Schema/Seeds.antt =====
-- The seeds of a submission that spur_api/schemas/run.py has let through, and their column.
use mathlib.Core.Option.{bind-eq-some_iff, some-injective, get_or}
use spur_api.Base.{
  Bool, ℕ, ◌+◌, ◌-◌, ◌≤◌, ◌<◌, ◌≡◌, refl, true, false, Option, none, some, arith, if◌then◌else◌,
}
use spur_api.Base.Int.{ℤ, pos, negsuc}
use spur_api.Database.{ProjectRow}
use spur_api.Runs.Submit.{Outside, Submission, max_seed, first_seed, run_row}
use spur_api.Runs.Schema.{RunCreate, check_seeds, seeds_fit, read_body}

-- What the body's own checks give.
record FitsColumn (b : Submission) : Type 0 where
  some_seeds : 1 ≤ b.seeds
  few_seeds : b.seeds ≤ 100
  fit : seeds_fit b.seed b.seeds ≡ true

check_seeds-bounds : (seeds : Option ℤ) (n : ℕ) → check_seeds seeds ≡ some n → (1 ≤ n) × (n ≤ 100)
check_seeds-bounds none n e = ground arith
check_seeds-bounds (some (pos m)) n e = ground arith
check_seeds-bounds (some (negsuc m)) n e = ground arith

some_if :
    {A : Type 0} {x y : A} (b : Bool) → (if b then some x else none) ≡ some y → (b ≡ true) × (x ≡ y)
some_if true e = (refl, some-injective _ _ e)
some_if false e = cc e

read_body-FitsColumn : (body : RunCreate) (b : Submission) → read_body body ≡ some b → FitsColumn b
unfolding read_body
read_body-FitsColumn body b e =
    let (seed, checked_seed, e₁) = (bind-eq-some_iff _ _).0 e in
    let (seeds, checked_seeds, e₂) = (bind-eq-some_iff _ _).0 e₁ in
    let (name, checked_name, e₃) = (bind-eq-some_iff _ _).0 e₂ in
    let (fit, same) = some_if (seeds_fit seed seeds) e₃ in
    let (at_least, at_most) = check_seeds-bounds body.seeds seeds checked_seeds in
    rw (← same) (record { some_seeds = at_least; few_seeds = at_most; fit = fit })

-- Of a submission whose body was let through, there are 1 to 100 seeds, and each, given or picked
-- by the server, is at most MAX_SEED, if secrets.randbelow(n) is below n.
pub seeds_fit_column :
    (o : Outside) (p : ProjectRow) (body : RunCreate) (b : Submission) (until_target : ℤ)
    → read_body body ≡ some b
    → ((n : ℕ) → 1 ≤ n → o.randbelow n < n)
    → (1 ≤ b.seeds)
      × (b.seeds ≤ 100)
      × ((k : ℕ)
          → k < b.seeds
          → (v : ℕ) × ((run_row o p b until_target (first_seed o b) k).seed ≡ some v)
            × (v ≤ max_seed))
unfolding run_row first_seed
seeds_fit_column o p body b until_target read below =
    let fits = read_body-FitsColumn body b read in
    (
      fits.some_seeds,
      fits.few_seeds,
      λ k low. (first_seed o b + k, refl, first_bound b.seed fits.fit k low (fits.few_seeds)),
    )
  where
    first_bound :
        (seed : Option ℕ)
        → seeds_fit seed b.seeds ≡ true
        → (k : ℕ) → k < b.seeds
        → b.seeds ≤ 100
        → get_or seed (o.randbelow (max_seed + 2 - b.seeds)) + k ≤ max_seed
    first_bound none fit k low few =
        let r = below (max_seed + 2 - b.seeds) (omega arith) in omega arith
    first_bound (some seed) fit k low few = ground arith
