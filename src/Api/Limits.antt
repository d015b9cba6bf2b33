-- ===== src/Api/Limits.antt =====
-- The query of get_run_events in spur_api/routers/runs.py: what passes the route's bounds and is refused by
-- the database.
use spur_api.Base.{
  ℕ, ◌-◌, ◌^◌, ◌≡◌, ◌↔◌, ◌⊎◌, inl, inr, ◌&&◌, true, false, String, Option, none, some, Option-cases,
  arith,
}
use spur_api.Base.Int.{ℤ, pos, negsuc, ◌<ℤ◌, ◌≤ℤ◌}
use spur_api.Database.{SimulationRunRow, State}
use spur_api.Runs.{find_run, get_row}
use spur_api.Runs.Results.{
  Narrowing, has_nul, fits_int, fits_text, fits_query, fits_window, get_run_events,
}
use spur_api.Api.{Response, sent, failed, refused}
use spur_api.Api.Routes.{get_events}

abbrev pub status : {A : Type 0} → Response A → ℕ
status (sent n a) = n
status (failed n e) = n
status (refused n detail) = n

-- A time that no 32-bit integer is
abbrev pub IsBeyond : Option ℤ → Type 0
IsBeyond none = ⊥
IsBeyond (some t) = (pos (2 ^ 31) ≤ℤ t) ⊎ (t <ℤ negsuc (2 ^ 31 - 1))

abbrev pub HasNul : Option String → Type 0
HasNul none = ⊥
HasNul (some value) = has_nul value ≡ true

-- What the database refuses of a query
abbrev pub IsRefused : Narrowing → ℤ → ℤ → Type 0
IsRefused q limit offset =
    (limit <ℤ pos 0)
    ⊎ (pos (2 ^ 63) ≤ℤ offset)
    ⊎ IsBeyond q.since_time
    ⊎ HasNul q.train_uid
    ⊎ HasNul q.component_uid

fits_int-IsBeyond : (t : Option ℤ) → (fits_int t ≡ false) ↔ IsBeyond t
fits_int-IsBeyond none = (λ h. absurd (cc h), λ h. absurd h)
fits_int-IsBeyond (some (pos n)) = ground arith
fits_int-IsBeyond (some (negsuc n)) = ground arith

fits_text-HasNul : (value : Option String) → (fits_text value ≡ false) ↔ HasNul value
fits_text-HasNul none = (λ h. absurd (cc h), λ h. absurd h)
fits_text-HasNul (some value) = ground arith

window_bounds :
    (limit : ℤ) (m : ℕ)
    → (fits_window limit m ≡ false) ↔ ((limit <ℤ pos 0) ⊎ (pos (2 ^ 63) ≤ℤ pos m))
window_bounds (pos n) m = ground arith
window_bounds (negsuc n) m = ground arith

query-IsRefused :
    (q : Narrowing) (limit : ℤ) (m : ℕ)
    → (fits_query q && fits_window limit m ≡ false) ↔ IsRefused q limit (pos m)
query-IsRefused q limit m = ground (
  arith,
  window_bounds limit m,
  fits_int-IsBeyond q.since_time,
  fits_text-HasNul q.train_uid,
  fits_text-HasNul q.component_uid,
)

module _ (i : ℕ) (q : Narrowing) (limit : ℤ) (s : State) where
  status-missing :
      (offset : ℤ) → find_run i s ≡ none → status (get_events i q limit offset s).0 ≡ 500 → ⊥
  unfolding get_events get_run_events get_row
  status-missing offset missing = ground (arith, missing)

  status-negative : (n : ℕ) → status (get_events i q limit (negsuc n) s).0 ≡ 500 → ⊥
  unfolding get_events get_run_events get_row
  status-negative n = ground arith

  status-found :
      (m : ℕ) (r : SimulationRunRow)
      → find_run i s ≡ some r
      → (status (get_events i q limit (pos m) s).0 ≡ 500)
        ↔ ((limit ≤ℤ pos 10000) × (fits_query q && fits_window limit m ≡ false))
  unfolding get_events get_run_events get_row
  status-found m r found = ground (arith, found)

  -- A request for the events of a run is answered with a 500 exactly where the limit is at most
  -- 10000, the offset is not negative, the run is stored and the database refuses the query: the
  -- limit is negative, the offset is 2^63 or more, since_time is no 32-bit integer, or train_uid
  -- or component_uid has a NUL in it.
  pub get_events_crashes :
      (offset : ℤ)
      → (status (get_events i q limit offset s).0 ≡ 500) ↔ (
          (limit ≤ℤ pos 10000)
          × (pos 0 ≤ℤ offset)
          × ((r : SimulationRunRow) × (find_run i s ≡ some r))
          × IsRefused q limit offset)
  get_events_crashes (negsuc n) = (
    λ crash. absurd (status-negative n crash),
    λ (low, natural, r, bad). absurd (omega (arith, natural)),
  )
  get_events_crashes (pos m) = elim (Option-cases (find_run i s)) [
    | inl missing ↦ (
      λ crash. absurd (status-missing (pos m) missing crash),
      λ (low, natural, (r, found), bad). absurd (cc (missing, found)),
    )
    | inr (r, found) ↦
        let cases = status-found m r found in
        let reasons = query-IsRefused q limit m in
        (
          λ crash.
              let (low, unfit) = cases.0 crash in (low, omega arith, (r, found), reasons.0 unfit),
          λ (low, natural, there, bad). cases.1 (low, reasons.1 bad),
        )
  ]
