-- ===== src/Action.antt =====
-- spur_api/exceptions.py, and what a request does: a service function runs against the stored state
-- and returns or raises. What was committed before a raise stays, so the state comes back too.
use spur_api.Base.{◌≡◌, ◌⊎◌, inl, inr, refl, ℕ, String, Bool, true, false, Option, none, some, List}
use spur_api.Base.Int.{ℤ}
use spur_api.Database.{State, Issue}

pub data Resource : Type 0 where
  project run : Resource

-- The subclasses of `SpurApiError`, with what their messages and fields carry. `unhandled` is any
-- other exception, which no handler of main.py takes.
pub data Error : Type 0 where
  not_found : Resource → ℕ → Error
  -- the project, its version, and the version that the caller expected
  stale_project : ℕ → ℕ → ℤ → Error
  invalid_project : String → Error
  -- the project, the number of its errors, and all issues
  project_invalid : ℕ → ℕ → List Issue → Error
  run_not_ready : ℕ → Error
  run_analysis : ℕ → String → Error
  unhandled : String → Error

pub data Result {ℓ} (A : Type ℓ) : Type ℓ where
  ok : A → Result A
  err : Error → Result A

pub Result-cases {ℓ} :
    {A : Type ℓ} (r : Result A) → ((e : Error) × (r ≡ err e)) ⊎ ((a : A) × (r ≡ ok a))
Result-cases (ok a) = inr (a, refl)
Result-cases (err e) = inl (e, refl)

abbrev pub Action : Type 0 → Type 0
Action A = State → Result A × State

module _ {A : Type 0} where
  abbrev pub pure : A → Action A
  pure a s = (ok a, s)

  abbrev pub raise : Error → Action A
  raise e s = (err e, s)

  abbrev pub gets : (State → A) → Action A
  gets f s = (ok (f s), s)

  abbrev pub or_raise : Option A → Error → Action A
  or_raise none e = raise e
  or_raise (some a) e = pure a

infixl 5 ◌>>=◌ ◌>>◌
abbrev pub ◌>>=◌ : {A B : Type 0} → Action A → (A → Action B) → Action B
◌>>=◌ m f s = let (r, s') = m s in elim r [ ok a ↦ f a s' | err e ↦ (err e, s') ]

abbrev pub ◌>>◌ : {A B : Type 0} → Action A → Action B → Action B
m >> k = m >>= λ _. k

abbrev pub raise_if : Bool → Error → Action (Unit {0})
raise_if true e = raise e
raise_if false e = pure tt

abbrev pub modify : (State → State) → Action (Unit {0})
modify f s = (ok tt, f s)
