-- ===== src/Runs/Schema/Names.antt =====
-- `RunName` of spur_api/schemas/run.py: what a run may be called.
use Prim.Native.String.{count}
use mathlib.Core.Option.{some-injective}
use spur_api.Base.{
  ◌≤◌, ◌<◌, ◌≡◌, leb, refl, true, false, String, Option, none, some, arith, Bool-cases, inl, inr,
}
use spur_api.Text.{is_space, is_empty, strip, strip_of_idem}
use spur_api.Runs.Schema.{blank_is_none, run_name, max_run_name_length}

-- The name that is let through, by the three ways that `run_name` ends.
data Named (s : String) : Option (Option String) → Type 0 where
  unnamed : is_empty (strip s) ≡ true → Named s (some none)
  named :
      is_empty (strip s) ≡ false
      → count (strip s) ≤ max_run_name_length
      → Named s (some (some (strip s)))
  too_long : max_run_name_length < count (strip s) → Named s none

run_name-Named : (s : String) → Named s (run_name (some s))
unfolding run_name blank_is_none
run_name-Named s = elim (Bool-cases (is_empty (strip s))) [
  | inl blank ↦ rw blank (unnamed blank)
  | inr more ↦ elim (Bool-cases (leb (count (strip s)) max_run_name_length)) [
    | inl fits ↦ rw (more, fits) (named more (ground arith))
    | inr long ↦ rw (more, long) (too_long (ground arith))
  ]
]

-- Stripped, not blank, and not too long.
abbrev pub IsName : Option String → Type 0
IsName none = Unit
IsName (some s) = (strip s ≡ s) × (is_empty s ≡ false) × (count s ≤ max_run_name_length)

IsName-run_name : (name : Option String) → IsName name → run_name name ≡ some name
unfolding run_name blank_is_none
IsName-run_name none h = refl
IsName-run_name (some s) h =
    let fits : leb (count s) max_run_name_length ≡ true = ground arith in rw (h.0, h.1, fits) refl

Named-IsName :
    (s : String) (r : Option (Option String)) (name : Option String)
    → Named s r
    → r ≡ some name
    → IsName name
Named-IsName s r name (unnamed blank) e =
    let same : none ≡ name = some-injective none name e in rw (← same) tt
Named-IsName s r name (named more fits) e =
    let same : some (strip s) ≡ name = some-injective _ _ e in
    rw (← same) (strip_of_idem is_space s, more, fits)
Named-IsName s r name (too_long long) e = absurd (cc e)

-- A run name that is let through is stripped, not blank and at most 200 characters long, or there
-- is none, and it is let through as it is when sent again.
pub run_name_lem :
    (value name : Option String)
    → run_name value ≡ some name
    → IsName name × (run_name name ≡ some name)
unfolding run_name blank_is_none
run_name_lem none name e =
    let same : none ≡ name = some-injective none name e in rw (← same) (tt, refl)
run_name_lem (some s) name e =
    let h = Named-IsName s (run_name (some s)) name (run_name-Named s) e in
    (h, IsName-run_name name h)

-- A name is refused only where more than 200 characters are left of it when it is stripped.
pub run_name-refuses :
    (s : String) → run_name (some s) ≡ none → max_run_name_length < count (strip s)
run_name-refuses s e = go (run_name (some s)) (run_name-Named s) e
  where
    go : (r : Option (Option String)) → Named s r → r ≡ none → max_run_name_length < count (strip s)
    go r (unnamed blank) e = absurd (cc e)
    go r (named more fits) e = absurd (cc e)
    go r (too_long long) e = long
