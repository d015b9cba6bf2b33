-- ===== src/Horizon.antt =====
-- `derive_until` of spur_api/worker/runner.py: the time a run goes to when none is requested.
pub mod Maximum
use mathlib.Core.Option
use spur_api.Base.{zero, Option, none, some}
use spur_api.Base.Int.{ℤ, max_ℤ}
use spur_api.Json.{Json, Items, Fields, bool, num, arr, obj, nil, cons, lookup, bool_int}
use spur_api.Action.{Result, ok, err, unhandled}
use spur_api.Settings.{Settings}

-- The int of a value that `max` compares. A number that is no int is taken to be refused here: a tour's
-- schema admits ints only, and the column of the horizon does so too.
abbrev pub as_int : Option Json → Result ℤ
as_int (some (num m zero)) = ok m
as_int (some (num m k)) = err (unhandled "DataError")
as_int (some (bool b)) = ok (bool_int b)
as_int none = err (unhandled "KeyError")
as_int _ = err (unhandled "TypeError")

-- `t["deletion_time"]`
abbrev pub deletion_time : Json → Result ℤ
deletion_time (obj tour) = as_int (lookup "deletion_time" tour)
deletion_time _ = err (unhandled "TypeError")

-- One more value for `max`: the first is taken as it is.
abbrev pub later : Option ℤ → ℤ → Option ℤ
later none t = some t
later (some best) t = some (max_ℤ best t)

-- The loop of `max` over the tours, with the greatest so far.
unfoldable pub latest : Option ℤ → Items → Result (Option ℤ)
latest best nil = ok best
latest best (cons t tours) = elim (deletion_time t) [
  | ok time ↦ latest (later best time) tours
  | err e ↦ err e
]

-- `project_dict.get("tours", [])`
abbrev pub tours_of : Option Json → Result Items
tours_of none = ok nil
tours_of (some (arr tours)) = ok tours
tours_of (some _) = err (unhandled "TypeError")

abbrev pub or_horizon : ℤ → Result (Option ℤ) → Result ℤ
or_horizon horizon (ok best) = ok (Option.get_or best horizon)
or_horizon horizon (err e) = err e

unfoldable pub derive_until : Settings → Fields → Result ℤ
unfolding latest
derive_until settings project = elim (tours_of (lookup "tours" project)) [
  | ok tours ↦ or_horizon settings.default_run_horizon (latest none tours)
  | err e ↦ err e
]
