-- ===== src/Runs/Results.antt =====
-- The results of a run in spur_api/services/runs_service.py: its events, its summary and its visits.
pub mod Events
pub mod Paging
pub mod Metrics
use Prim.Native.Char.{code}
use text.Mathlib.Text.{◌==◌}
use spur_api.Base.{
  ℕ, ◌^◌, Bool, true, false, not, ◌&&◌, ◌||◌, String, Option, none, some, List, [], ◌∷◌, map,
  keep_if, leb, ltb, page, ◌==◌ as num_eq, if◌then◌else◌,
}
use spur_api.Base.Int.{ℤ, pos, negsuc, pos_part, ltb_ℤ}
use spur_api.Base.Sort.{sort_by}
use spur_api.Json.{Fields}
use spur_api.Database.{
  SimulationRunRow, RunEventRow, RunStatus, queued, running, completed, failed, cancelled, State,
}
use spur_api.Action.{
  Action, Result, ok, err, run_not_ready, run_analysis, unhandled, pure, raise, raise_if, gets,
  or_raise, ◌>>=◌, ◌>>◌,
}
use spur_api.Projects.{find_project}
use spur_api.Runs.{get_row}
use spur_api.Spur.{SimEvent}

-- `_event_from_row`
abbrev pub event_from_row : RunEventRow → SimEvent
event_from_row row = record {
  time = row.time;
  event = row.event;
  train_uid = row.train_uid;
  component_uid = row.component_uid;
  component_type = row.component_type;
}

-- The arguments of `get_run_events` that narrow its query.
pub record Narrowing : Type 0 where
  pub since_time : Option ℤ
  pub train_uid : Option String
  pub component_uid : Option String
  pub event_type : Option String

abbrev pub is_since : Option ℤ → ℤ → Bool
is_since none time = true
is_since (some t) time = not (ltb_ℤ time t)

abbrev pub is_text : Option String → String → Bool
is_text none value = true
is_text (some wanted) value = value == wanted

abbrev pub is_wanted : ℕ → Narrowing → RunEventRow → Bool
is_wanted i q e =
    num_eq e.run_id i
    && is_since q.since_time e.time
    && is_text q.train_uid e.train_uid
    && is_text q.component_uid e.component_uid
    && is_text q.event_type e.event

-- ORDER BY seq
abbrev pub comes_first : RunEventRow → RunEventRow → Bool
comes_first a b = leb a.seq b.seq

-- The query but for OFFSET and LIMIT.
unfoldable pub chosen : ℕ → Narrowing → State → List RunEventRow
chosen i q s = sort_by comes_first (keep_if (is_wanted i q) s.run_events)

-- An argument that the database takes: `time` is a 32-bit column, and no text has a NUL in it.
abbrev pub fits_int : Option ℤ → Bool
fits_int none = true
fits_int (some (pos n)) = ltb n (2 ^ 31)
fits_int (some (negsuc n)) = ltb n (2 ^ 31)

unfoldable pub has_nul : String → Bool
has_nul String.[] = false
has_nul (String.◌∷◌ c s) = num_eq (code c) 0 || has_nul s

abbrev pub fits_text : Option String → Bool
fits_text none = true
fits_text (some value) = not (has_nul value)

abbrev pub fits_query : Narrowing → Bool
fits_query q = fits_int q.since_time && fits_text q.train_uid && fits_text q.component_uid

-- LIMIT takes no negative number, and OFFSET none beyond 64 bits.
abbrev pub fits_window : ℤ → ℕ → Bool
fits_window (pos limit) offset = ltb offset (2 ^ 63)
fits_window (negsuc n) offset = false

-- What `db.execute` raises is taken to be a DBAPIError: the database refuses the argument.
abbrev pub limited : ℤ → ℕ → List RunEventRow → Action (List SimEvent)
limited limit offset rows = pure (map event_from_row (page (pos_part limit) offset rows))

unfoldable pub get_run_events : ℕ → Narrowing → ℤ → ℕ → Action (List SimEvent)
unfolding chosen has_nul
get_run_events i q limit offset = do
  row ← get_row i
  raise_if (not (fits_query q && fits_window limit offset)) (unhandled "DBAPIError")
  rows ← gets (chosen i q)
  limited limit offset rows

abbrev pub everything : Narrowing
everything = record { since_time = none; train_uid = none; component_uid = none; event_type = none }

-- `spur.analysis`: what `analyze` returns, or the exception that it raises.
pub data Analyzed (A : Type 0) : Type 0 where
  analyzed : A → Analyzed A
  mismatch : String → Analyzed A
  failure : String → Analyzed A

pub record Visit : Type 0 where
  pub train_uid : String
  pub component_uid : String
  pub rest : Fields

pub record Analysis : Type 0 where
  pub run : Fields
  pub components : List Fields
  pub trains : List Fields
  pub visits : List Visit

pub record RunSummary : Type 0 where
  pub status : RunStatus
  pub run : Fields
  pub components : List Fields
  pub trains : List Fields

abbrev pub is_queued : RunStatus → Bool
is_queued queued = true
is_queued _ = false

-- `spec_snapshot`, or the spec of the live project
abbrev pub spec_for : SimulationRunRow → Action Fields
spec_for row s = elim row.spec_snapshot [
  | some spec ↦ (ok spec, s)
  | none ↦ elim (find_project row.project_id s) [
    | some p ↦ (ok p.spec, s)
    | none ↦ (err (unhandled "AttributeError"), s)
  ]
]

abbrev pub or_mismatch : ℕ → RunStatus → Analyzed Analysis → Result (RunStatus × Analysis)
or_mismatch i status (analyzed a) = ok (status, a)
or_mismatch i status (mismatch text) = err (run_analysis i text)
or_mismatch i status (failure text) = err (unhandled text)

module _ (analyze : List SimEvent → Fields → ℤ → Analyzed Analysis) where
  unfoldable pub analyze_run : ℕ → ℤ → Action (RunStatus × Analysis)
  unfolding chosen
  analyze_run i on_time_threshold = do
    row ← get_row i
    if is_queued row.status then raise (run_not_ready i) else do
      spec ← spec_for row
      rows ← gets (chosen i everything)
      λ s. (or_mismatch i row.status (analyze (map event_from_row rows) spec on_time_threshold), s)

  unfoldable pub get_run_summary : ℕ → ℤ → Action RunSummary
  unfolding analyze_run
  get_run_summary i on_time_threshold = do
    found ← analyze_run i on_time_threshold
    let (status, a) = found
    pure (record { status = status; run = a.run; components = a.components; trains = a.trains })

  -- if uid is not None: visits = [v for v in visits if …]
  abbrev pub of_train : Option String → List Visit → List Visit
  of_train none visits = visits
  of_train (some uid) visits = keep_if (λ v. v.train_uid == uid) visits

  abbrev pub of_component : Option String → List Visit → List Visit
  of_component none visits = visits
  of_component (some uid) visits = keep_if (λ v. v.component_uid == uid) visits

  unfoldable pub get_run_visits : ℕ → Option String → Option String → ℕ → ℕ → Action (List Visit)
  unfolding analyze_run
  get_run_visits i train_uid component_uid limit offset = do
    found ← analyze_run i (pos 120)
    let (status, a) = found
    pure (page limit offset (of_component component_uid (of_train train_uid a.visits)))
