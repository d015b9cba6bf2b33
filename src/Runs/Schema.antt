-- ===== src/Runs/Schema.antt =====
-- The request bodies of spur_api/schemas/run.py: `RunCreate` and `RunUpdate`, after pydantic has read
-- ints and texts from the JSON.
pub mod Names
pub mod Seeds
use spur_api.Text.{is_empty, strip}
use Prim.Native.String.{count}
use mathlib.Core.Option
use spur_api.Base.{
  ℕ, ◌+◌, ◌-◌, Bool, true, false, ◌&&◌, ◌||◌, String, Option, none, some, ltb, leb, ◌==◌,
  if◌then◌else◌,
}
use spur_api.Base.Int.{ℤ, pos, negsuc}
use spur_api.Runs.Submit.{Submission, max_seed}

abbrev pub max_seeds : ℕ
max_seeds = 100

abbrev pub max_run_name_length : ℕ
max_run_name_length = 200

abbrev pub or_none : String → Option String
or_none s = if is_empty s then none else some s

-- `value.strip() or None`
unfoldable pub blank_is_none : Option String → Option String
blank_is_none none = none
blank_is_none (some s) = or_none (strip s)

-- `Field(max_length=…)`, of a name that is there
abbrev pub name_fits : Option String → Bool
name_fits none = true
name_fits (some s) = leb (count s) max_run_name_length

-- `RunName`: `none` is a validation error.
unfoldable pub run_name : Option String → Option (Option String)
unfolding blank_is_none
run_name value = let name = blank_is_none value in if name_fits name then some name else none

pub record RunCreate : Type 0 where
  pub until : Option ℤ
  pub chunk_size : Option ℤ
  pub seed : Option ℤ
  pub seeds : Option ℤ
  pub name : Option String

-- `Field(default=None, ge=0, le=MAX_SEED)`
abbrev pub check_seed : Option ℤ → Option (Option ℕ)
check_seed none = some none
check_seed (some (pos n)) = if leb n max_seed then some (some n) else none
check_seed (some (negsuc n)) = none

-- `Field(default=1, ge=1, le=MAX_SEEDS)`
abbrev pub check_seeds : Option ℤ → Option ℕ
check_seeds none = some 1
check_seeds (some (pos n)) = if leb 1 n && leb n max_seeds then some n else none
check_seeds (some (negsuc n)) = none

-- `not seed + seeds - 1 > MAX_SEED`
abbrev pub seeds_fit : Option ℕ → ℕ → Bool
seeds_fit none seeds = true
seeds_fit (some seed) seeds = leb (seed + seeds) (max_seed + 1)

-- A body as the route gets it; `none` is a 422.
unfoldable pub read_body : RunCreate → Option Submission
unfolding run_name
read_body body = Option.bind (check_seed body.seed) λ seed.
    Option.bind (check_seeds body.seeds) λ seeds. Option.bind (run_name body.name) λ name.
      if seeds_fit seed seeds
      then some (record {
        until = body.until;
        chunk_size = body.chunk_size;
        seed = seed;
        name = name;
        seeds = seeds;
      })
      else none
