-- ===== src/Migrations/Declared.antt =====
-- What spur_api/db/models.py declares on `Base.metadata`: the tables, with the columns that SQLAlchemy
-- makes of the `Mapped` types (a type without None is NOT NULL), and the indexes, where `index=True`
-- is the index named ix_<table>_<column>. Defaults that only Python applies are no part of a table.
use spur_api.Base.{ℕ, zero, suc, ◌≡◌, String, none, List, [], ◌∷◌, map}
use spur_api.Migrations.{ColumnType, Default, ForeignKey, Definition, Index, Stored, OnDelete}
use mathlib.Core.List.{Perm}
use mathlib.Core.List.Perm
use spur_api.Migrations.Revisions.{
  auto, defaulted, foreign_key, index, nullable, one, required, run_status, unique_index,
}

abbrev pub declared_projects : Definition
declared_projects = record {
  name = "projects";
  columns =
      required "id" ColumnType.uuid
      ∷ nullable "owner" ColumnType.string
      ∷ nullable "name" ColumnType.string
      ∷ required "spur_version" ColumnType.string
      ∷ required "spec" ColumnType.jsonb
      ∷ defaulted "version" ColumnType.integer one
      ∷ defaulted "inputs_version" ColumnType.integer one
      ∷ nullable "base_project_id" ColumnType.uuid
      ∷ defaulted "created_at" ColumnType.utc_date_time Default.now
      ∷ defaulted "updated_at" ColumnType.utc_date_time Default.now
      ∷ [];
  primary_key = "id" ∷ [];
  foreign_keys = foreign_key "base_project_id" "projects" OnDelete.set_null ∷ [];
}

abbrev pub declared_simulation_runs : Definition
declared_simulation_runs = record {
  name = "simulation_runs";
  columns =
      required "id" ColumnType.uuid
      ∷ required "project_id" ColumnType.uuid
      ∷ required "status" run_status
      ∷ nullable "name" ColumnType.string
      ∷ nullable "requested_until" ColumnType.integer
      ∷ nullable "until_target" ColumnType.integer
      ∷ nullable "chunk_size" ColumnType.integer
      ∷ nullable "seed" ColumnType.big_integer
      ∷ nullable "batch_id" ColumnType.uuid
      ∷ nullable "spec_snapshot" ColumnType.jsonb
      ∷ nullable "project_version" ColumnType.integer
      ∷ nullable "sim_time_now" ColumnType.integer
      ∷ nullable "arq_job_id" ColumnType.string
      ∷ nullable "error_message" ColumnType.string
      ∷ required "cancel_requested" ColumnType.boolean
      ∷ defaulted "created_at" ColumnType.utc_date_time Default.now
      ∷ nullable "started_at" ColumnType.utc_date_time
      ∷ nullable "finished_at" ColumnType.utc_date_time
      ∷ [];
  primary_key = "id" ∷ [];
  foreign_keys = foreign_key "project_id" "projects" OnDelete.cascade ∷ [];
}

abbrev pub declared_run_events : Definition
declared_run_events = record {
  name = "run_events";
  columns =
      auto "id" ColumnType.integer
      ∷ required "run_id" ColumnType.uuid
      ∷ required "seq" ColumnType.integer
      ∷ required "time" ColumnType.integer
      ∷ required "event" ColumnType.string
      ∷ required "train_uid" ColumnType.string
      ∷ required "component_uid" ColumnType.string
      ∷ required "component_type" ColumnType.string
      ∷ [];
  primary_key = "id" ∷ [];
  foreign_keys = foreign_key "run_id" "simulation_runs" OnDelete.cascade ∷ [];
}

abbrev pub declared_tables : List Definition
declared_tables = declared_run_events ∷ declared_simulation_runs ∷ declared_projects ∷ []

abbrev pub declared_indexes : List Index
declared_indexes =
    unique_index "ix_run_events_run_id_seq" "run_events" ("run_id" ∷ "seq" ∷ [])
    ∷ index "ix_run_events_run_id_train_uid" "run_events" ("run_id" ∷ "train_uid" ∷ [])
    ∷ index "ix_run_events_run_id_component_uid" "run_events" ("run_id" ∷ "component_uid" ∷ [])
    ∷ index "ix_simulation_runs_batch_id" "simulation_runs" ("batch_id" ∷ [])
    ∷ index "ix_projects_base_project_id" "projects" ("base_project_id" ∷ [])
    ∷ []

-- The type of `RunStatus`, with the names of its members
abbrev pub declared_enums : List (String × List String)
declared_enums =
    ("runstatus", "QUEUED" ∷ "RUNNING" ∷ "COMPLETED" ∷ "FAILED" ∷ "CANCELLED" ∷ []) ∷ []

-- A foreign key without its name, which models.py leaves to the database
abbrev pub unnamed : ForeignKey → ForeignKey
unnamed k = record {
  name = none;
  column = k.column;
  referred_table = k.referred_table;
  referred_column = k.referred_column;
  ondelete = k.ondelete;
}

-- A table that is empty and is the declared one, up to the order of its columns and the names of its
-- foreign keys
pub record IsTable (d : Definition) (t : Stored) : Type 0 where
  pub named : t.definition.name ≡ d.name
  pub columns : Perm t.definition.columns d.columns
  pub keyed : t.definition.primary_key ≡ d.primary_key
  pub foreign_keys : map unnamed t.definition.foreign_keys ≡ d.foreign_keys
  pub empty : t.rows ≡ []

abbrev pub AreTables : List Definition → List Stored → Type 0
AreTables [] [] = Unit
AreTables [] (t ∷ ts) = ⊥
AreTables (d ∷ ds) [] = ⊥
AreTables (d ∷ ds) (t ∷ ts) = IsTable d t × AreTables ds ts

module _ {A : Type 0} where
  -- The item at a place is moved to the front.
  abbrev pub to_front : A → List A → List A
  to_front x [] = x ∷ []
  to_front x (y ∷ ys) = y ∷ x ∷ ys

  abbrev pub pull : ℕ → List A → List A
  pull i [] = []
  pull zero (x ∷ xs) = x ∷ xs
  pull (suc i) (x ∷ xs) = to_front x (pull i xs)

  abbrev pub under_front : (List A → List A) → List A → List A
  under_front f [] = []
  under_front f (x ∷ xs) = x ∷ f xs

  -- A list in another order, which names for each place where the item is taken from.
  abbrev pub arrange : List ℕ → List A → List A
  arrange [] xs = xs
  arrange (i ∷ is) xs = under_front (arrange is) (pull i xs)

  to_front-Perm : (x : A) (xs ys : List A) → Perm xs ys → Perm (x ∷ xs) (to_front x ys)
  to_front-Perm x xs [] p = Perm.cons x p
  to_front-Perm x xs (y ∷ ys) p = Perm.trans (Perm.cons x p) (Perm.swap y x ys)

  pull-Perm : (i : ℕ) (xs : List A) → Perm xs (pull i xs)
  pull-Perm i [] = Perm.refl []
  pull-Perm zero (x ∷ xs) = Perm.refl (x ∷ xs)
  pull-Perm (suc i) (x ∷ xs) = to_front-Perm x xs (pull i xs) (pull-Perm i xs)

  under_front-Perm :
      (f : List A → List A)
      → ((xs : List A) → Perm xs (f xs))
      → (ys : List A) → Perm ys (under_front f ys)
  under_front-Perm f each [] = Perm.refl []
  under_front-Perm f each (y ∷ ys) = Perm.cons y (each ys)

  pub arrange-Perm : (is : List ℕ) (xs : List A) → Perm xs (arrange is xs)
  arrange-Perm [] xs = Perm.refl xs
  arrange-Perm (i ∷ is) xs =
      Perm.trans (pull-Perm i xs) (under_front-Perm (arrange is) (arrange-Perm is) (pull i xs))
