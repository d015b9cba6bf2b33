-- ===== src/Migrations/Rows.antt =====
-- The rows of spur_api/db/models.py, as the columns of the first revision hold them and as the mapped
-- classes read them after the upgrades.
use spur_api.Base.{
  ℕ, ◌≡◌, refl, String, Bool, Option, none, some, List, [], ◌∷◌, str_eq, if◌then◌else◌,
}
use spur_api.Base.Int.{ℤ, pos}
use spur_api.Json.{Fields}
use spur_api.Database.{ProjectRow, SimulationRunRow, RunStatus}
use spur_api.Migrations.{Value, Row}
use spur_api.Migrations.Lookups.{value}

infixl 5 ◌>>=◌
abbrev pub ◌>>=◌ : {A B : Type 0} → Option A → (A → Option B) → Option B
none >>= f = none
some a >>= f = f a

abbrev pub as_uuid : Value → Option ℕ
as_uuid (Value.uuid n) = some n
as_uuid _ = none

abbrev pub as_natural : Value → Option ℕ
as_natural (Value.integer (pos n)) = some n
as_natural _ = none

abbrev pub as_integer : Value → Option ℤ
as_integer (Value.integer n) = some n
as_integer _ = none

abbrev pub as_text : Value → Option String
as_text (Value.text t) = some t
as_text _ = none

abbrev pub as_dict : Value → Option Fields
as_dict (Value.jsonb d) = some d
as_dict _ = none

abbrev pub as_time : Value → Option ℕ
as_time (Value.timestamp t) = some t
as_time _ = none

abbrev pub as_bool : Value → Option Bool
as_bool (Value.boolean b) = some b
as_bool _ = none

abbrev pub label_of : RunStatus → String
label_of RunStatus.queued = "QUEUED"
label_of RunStatus.running = "RUNNING"
label_of RunStatus.completed = "COMPLETED"
label_of RunStatus.failed = "FAILED"
label_of RunStatus.cancelled = "CANCELLED"

abbrev pub status_of_label : String → Option RunStatus
status_of_label t =
    if str_eq t "QUEUED"
    then some RunStatus.queued
    else if str_eq t "RUNNING"
    then some RunStatus.running
    else if str_eq t "COMPLETED"
    then some RunStatus.completed
    else if str_eq t "FAILED"
    then some RunStatus.failed
    else if str_eq t "CANCELLED"
    then some RunStatus.cancelled
    else none

abbrev pub as_status : Value → Option RunStatus
as_status (Value.label t) = status_of_label t
as_status _ = none

-- A nullable column is None where it is null.
abbrev pub optional : {A : Type 0} → (Value → Option A) → Value → Option (Option A)
optional read Value.null = some none
optional read v = read v >>= λ a. some (some a)

abbrev pub or_null : {A : Type 0} → (A → Value) → Option A → Value
or_null write none = Value.null
or_null write (some a) = write a

abbrev pub read_project : Row → Option ProjectRow
read_project r = do
  id ← as_uuid (value "id" r)
  owner ← optional as_text (value "owner" r)
  name ← optional as_text (value "name" r)
  spur_version ← as_text (value "spur_version" r)
  spec ← as_dict (value "spec" r)
  version ← as_natural (value "version" r)
  inputs_version ← as_natural (value "inputs_version" r)
  base_project_id ← optional as_uuid (value "base_project_id" r)
  created_at ← as_time (value "created_at" r)
  updated_at ← as_time (value "updated_at" r)
  some record {
    id = id;
    owner = owner;
    name = name;
    spur_version = spur_version;
    spec = spec;
    version = version;
    inputs_version = inputs_version;
    base_project_id = base_project_id;
    created_at = created_at;
    updated_at = updated_at;
  }

abbrev pub read_run : Row → Option SimulationRunRow
read_run r = do
  id ← as_uuid (value "id" r)
  project_id ← as_uuid (value "project_id" r)
  status ← as_status (value "status" r)
  name ← optional as_text (value "name" r)
  requested_until ← optional as_integer (value "requested_until" r)
  until_target ← optional as_integer (value "until_target" r)
  chunk_size ← optional as_integer (value "chunk_size" r)
  seed ← optional as_natural (value "seed" r)
  batch_id ← optional as_uuid (value "batch_id" r)
  spec_snapshot ← optional as_dict (value "spec_snapshot" r)
  project_version ← optional as_natural (value "project_version" r)
  sim_time_now ← optional as_integer (value "sim_time_now" r)
  arq_job_id ← optional as_text (value "arq_job_id" r)
  error_message ← optional as_text (value "error_message" r)
  cancel_requested ← as_bool (value "cancel_requested" r)
  created_at ← as_time (value "created_at" r)
  started_at ← optional as_time (value "started_at" r)
  finished_at ← optional as_time (value "finished_at" r)
  some record {
    id = id;
    project_id = project_id;
    status = status;
    name = name;
    requested_until = requested_until;
    until_target = until_target;
    chunk_size = chunk_size;
    seed = seed;
    batch_id = batch_id;
    spec_snapshot = spec_snapshot;
    project_version = project_version;
    sim_time_now = sim_time_now;
    arq_job_id = arq_job_id;
    error_message = error_message;
    cancel_requested = cancel_requested;
    created_at = created_at;
    started_at = started_at;
    finished_at = finished_at;
  }

abbrev pub read_all : {A : Type 0} → (Row → Option A) → List Row → Option (List A)
read_all read [] = some []
read_all read (r ∷ rows) = do a ← read r; others ← read_all read rows; some (a ∷ others)

-- A row as the first revision has it
abbrev pub first_project : ProjectRow → Row
first_project p =
    ("id", Value.uuid p.id)
    ∷ ("owner", or_null Value.text p.owner)
    ∷ ("name", or_null Value.text p.name)
    ∷ ("spur_version", Value.text p.spur_version)
    ∷ ("spec", Value.jsonb p.spec)
    ∷ ("created_at", Value.timestamp p.created_at)
    ∷ ("updated_at", Value.timestamp p.updated_at)
    ∷ []

abbrev pub first_run : SimulationRunRow → Row
first_run r =
    ("id", Value.uuid r.id)
    ∷ ("project_id", Value.uuid r.project_id)
    ∷ ("status", Value.label (label_of r.status))
    ∷ ("requested_until", or_null Value.integer r.requested_until)
    ∷ ("chunk_size", or_null Value.integer r.chunk_size)
    ∷ ("sim_time_now", or_null Value.integer r.sim_time_now)
    ∷ ("arq_job_id", or_null Value.text r.arq_job_id)
    ∷ ("error_message", or_null Value.text r.error_message)
    ∷ ("cancel_requested", Value.boolean r.cancel_requested)
    ∷ ("created_at", Value.timestamp r.created_at)
    ∷ ("started_at", or_null Value.timestamp r.started_at)
    ∷ ("finished_at", or_null Value.timestamp r.finished_at)
    ∷ []

-- A row without what later revisions add: what the upgrades are to make of it
abbrev pub at_version_one : ProjectRow → ProjectRow
at_version_one p = record p { version = 1; inputs_version = 1; base_project_id = none }

abbrev pub without_later : SimulationRunRow → SimulationRunRow
without_later r = record r {
  name = none;
  until_target = none;
  seed = none;
  batch_id = none;
  spec_snapshot = none;
  project_version = none;
}

pub text_back : (o : Option String) → optional as_text (or_null Value.text o) ≡ some o
text_back none = refl
text_back (some t) = refl

pub integer_back : (o : Option ℤ) → optional as_integer (or_null Value.integer o) ≡ some o
integer_back none = refl
integer_back (some n) = refl

pub time_back : (o : Option ℕ) → optional as_time (or_null Value.timestamp o) ≡ some o
time_back none = refl
time_back (some n) = refl

pub status_back : (s : RunStatus) → status_of_label (label_of s) ≡ some s
status_back RunStatus.queued = refl
status_back RunStatus.running = refl
status_back RunStatus.completed = refl
status_back RunStatus.failed = refl
status_back RunStatus.cancelled = refl
