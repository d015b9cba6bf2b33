-- ===== src/Migrations/Environment.antt =====
-- alembic/env.py: the revisions in the order in which their `down_revision`s chain them, and their run
-- in one transaction.
use spur_api.Base.{
  Bool, String, true, false, Option, none, some, List, [], ◌∷◌, ℕ, zero, suc, length, if◌then◌else◌,
}
use spur_api.Migrations.{Schema, Revision}
use spur_api.Settings.{Settings}
use spur_api.Migrations.Revisions.{
  add_base_project_id, add_batch_id, add_inputs_version, add_name, add_project_versions, add_seed,
  add_spec_snapshot, add_until_target, initial_tables,
}
use spur_api.Migrations.Statements.{execute_all, same_name}

-- The files, by their names
abbrev pub versions : List Revision
versions =
    add_until_target ∷ initial_tables ∷ add_seed ∷ add_base_project_id ∷ add_spec_snapshot
    ∷ add_name ∷ add_project_versions ∷ add_inputs_version ∷ add_batch_id ∷ []

abbrev pub follows : Option String → Option String → Bool
follows none none = true
follows none (some d) = false
follows (some r) o = same_name (some r) o

-- The revision that revises another, or nothing (`none`)
abbrev pub next : Option String → List Revision → Option Revision
next at_revision [] = none
next at_revision (r ∷ rs) =
    if follows at_revision r.down_revision then some r else next at_revision rs

-- The revisions after one, in the order of the chain
abbrev pub chain : ℕ → Option String → List Revision
chain zero at_revision = []
chain (suc n) at_revision = elim (next at_revision versions) [
  | none ↦ []
  | some r ↦ r ∷ chain n (some r.revision)
]

abbrev pub pending : Option String → List Revision
pending at_revision = chain (length versions) at_revision

unfoldable pub upgrade_all : ℕ → List Revision → Schema → Option Schema
unfolding execute_all
upgrade_all time [] db = some db
upgrade_all time (r ∷ rs) db = elim (execute_all time r.upgrade db) [
  | none ↦ none
  | some db' ↦ upgrade_all time rs db'
]

-- A downgrade past some revisions that are given in the order of the chain: the latest goes first.
unfoldable pub downgrade_all : ℕ → List Revision → Schema → Option Schema
unfolding execute_all
downgrade_all time [] db = some db
downgrade_all time (r ∷ rs) db = elim (downgrade_all time rs db) [
  | none ↦ none
  | some db' ↦ execute_all time r.downgrade db'
]

-- The revision that the last of some revisions leads to
abbrev pub head_of : Option String → List Revision → Option String
head_of at_revision [] = at_revision
head_of at_revision (r ∷ rs) = head_of (some r.revision) rs

-- `_do_run_migrations` for `upgrade head`: the revisions that the database has not had, in one
-- transaction, so that a statement that raises leaves the database as it was. The answer tells whether
-- all went through, and the revision that the database is then at.
unfoldable pub do_run_migrations : ℕ → Option String × Schema → Bool × Option String × Schema
unfolding upgrade_all
do_run_migrations time (at_revision, db) = elim (upgrade_all time (pending at_revision) db) [
  | none ↦ (false, at_revision, db)
  | some db' ↦ (true, head_of at_revision (pending at_revision), db')
]

-- `get_url`: the option `-x db_url=...`, unless it is missing or empty, and else the settings'
abbrev pub get_url : Option String → Settings → String
get_url none settings = settings.database_url
get_url (some String.[]) settings = settings.database_url
get_url (some (String.◌∷◌ c s)) settings = String.◌∷◌ c s
