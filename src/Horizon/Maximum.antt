-- ===== src/Horizon/Maximum.antt =====
-- `derive_until` of spur_api/worker/runner.py against the times of the tours.
use spur_api.Base.{◌≡◌, ◌≢◌, refl, ◌∙◌, ◌⊎◌, inl, inr, Option, some, Bool-cases, arith}
use spur_api.Base.Int.{ℤ, ◌≤ℤ◌, ltb_ℤ, max_ℤ}
use spur_api.Json.{Json, Items, Fields, nil, cons, lookup}
use spur_api.Action.{Result-cases, ok}
use spur_api.Settings.{Settings}
use spur_api.Horizon.{deletion_time, latest, tours_of, derive_until}

abbrev pub AllTours : (Json → Type 0) → Items → Type 0
AllTours P nil = Unit
AllTours P (cons t tours) = P t × AllTours P tours

abbrev pub AnyTour : (Json → Type 0) → Items → Type 0
AnyTour P nil = ⊥
AnyTour P (cons t tours) = P t ⊎ AnyTour P tours

-- A tour that ends by `u`; one that ends at `u`.
abbrev pub EndsBy : ℤ → Json → Type 0
EndsBy u t = (time : ℤ) × (deletion_time t ≡ ok time) × (time ≤ℤ u)

abbrev pub EndsAt : ℤ → Json → Type 0
EndsAt u t = deletion_time t ≡ ok u

-- `u` is the greatest of `best` and the times of the tours.
record IsLatest (best u : ℤ) (tours : Items) : Type 0 where
  from_best : best ≤ℤ u
  bound : AllTours (EndsBy u) tours
  attained : (u ≡ best) ⊎ AnyTour (EndsAt u) tours

latest-IsLatest :
    (best : ℤ) (tours : Items) (r : Option ℤ)
    → latest (some best) tours ≡ ok r
    → (u : ℤ) × (r ≡ some u) × IsLatest best u tours
unfolding latest
latest-IsLatest best nil r h =
    (best, cc h, record { from_best = ground arith; bound = tt; attained = inl refl })
latest-IsLatest best (cons t tours) r h = elim (Result-cases (deletion_time t)) [
  | inl (e, raised) ↦ absurd (ground (arith, h, raised))
  | inr (time, read) ↦
      let rest : latest (some (max_ℤ best time)) tours ≡ ok r = ground (arith, h, read) in
      let (u, same, top) = latest-IsLatest (max_ℤ best time) tours r rest in
      (u, same, grow best time u t tours read top)
]
  where
    grow :
        (best time u : ℤ) (t : Json) (tours : Items)
        → deletion_time t ≡ ok time
        → IsLatest (max_ℤ best time) u tours
        → IsLatest best u (cons t tours)
    grow best time u t tours read top = elim (Bool-cases (ltb_ℤ best time)) [
      | inl less ↦
          let greatest : max_ℤ best time ≡ time = ground arith in
          let by : time ≤ℤ u = rw greatest at top.from_best in
          record {
            from_best = ground arith;
            bound = ((time, read, by), top.bound);
            attained = elim top.attained [
              | inl here ↦ inr (inl (cc (read, here, greatest)))
              | inr further ↦ inr (inr further)
            ];
          }
      | inr more ↦
          let greatest : max_ℤ best time ≡ best = ground arith in
          let by : best ≤ℤ u = rw greatest at top.from_best in
          record {
            from_best = by;
            bound = ((time, read, ground arith), top.bound);
            attained = elim top.attained [
              | inl here ↦ inl (here ∙ greatest)
              | inr further ↦ inr (inr further)
            ];
          }
    ]

-- The horizon derived from a project is the default where it has no tours, and else the
-- deletion_time of one of its tours that none is above.
pub derive_until_lem :
    (settings : Settings) (project : Fields) (tours : Items) (u : ℤ)
    → tours_of (lookup "tours" project) ≡ ok tours
    → derive_until settings project ≡ ok u
    → (tours ≡ nil → u ≡ settings.default_run_horizon)
      × (tours ≢ nil → AllTours (EndsBy u) tours × AnyTour (EndsAt u) tours)
unfolding derive_until
derive_until_lem settings project nil u given derived =
    (λ e. ground (arith, given, derived), λ more. absurd (more refl))
derive_until_lem settings project (cons t tours) u given derived =
    elim (Result-cases (deletion_time t)) [
      | inl (e, raised) ↦ absurd (ground (arith, given, derived, raised))
      | inr (time, read) ↦ elim (Result-cases (latest (some time) tours)) [
        | inl (e, raised) ↦ absurd (ground (arith, given, derived, read, raised))
        | inr (r, scanned) ↦
            let (v, found, top) = latest-IsLatest time tours r scanned in
            let same : v ≡ u = ground (arith, given, derived, read, scanned, found) in
            let by : time ≤ℤ u = rw same at top.from_best in
            let bound : AllTours (EndsBy u) tours = rw same at top.bound in
            (
              λ no_tour. absurd (cc no_tour),
              λ more. (
                ((time, read, by), bound),
                elim top.attained [
                  | inl here ↦ inl (cc (read, here, same))
                  | inr further ↦ inr (rw same at further)
                ],
              ),
            )
      ]
    ]
