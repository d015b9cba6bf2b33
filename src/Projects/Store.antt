-- ===== src/Projects/Store.antt =====
-- What spur_api/services/projects_service.py promises: a store of versioned projects under their ids,
-- which says nothing of rows, their order, or the columns that repeat the spec.
pub mod Refinement
use mathlib.Core.Option
use spur_api.Base.{
  ◌≡◌, ℕ, ◌+◌, String, Bool, true, false, Option, none, some, List, [], ◌∷◌, ◌==◌, if◌then◌else◌,
}
use spur_api.Base.Int.{ℤ}
use spur_api.Inputs.{inputs_differ}
use spur_api.Database.{ProjectRow, State}
use spur_api.Action.{Action, Result, ok, err, not_found, project}
use spur_api.Projects.{
  ProjectCreate, Project, to_schema, find_project, create_project, update_project, delete_project,
  get_project, is_stale, stale_error,
}

abbrev pub Store : Type 0
Store = ℕ → Option Project

-- What the tables hold for each id
abbrev pub view : State → Store
view s i = Option.map to_schema (find_project i s)

pub data Operation : Type 0 where
  -- with the new id and the time
  create : ℕ → ℕ → ProjectCreate → Option String → Option ℕ → Operation
  read : ℕ → Operation
  update : ℕ → ℕ → ProjectCreate → Option ℤ → Operation
  delete : ℕ → Operation

-- An operation returns a project, or nothing.
abbrev pub Answer : Type 0
Answer = Result (Option Project)

abbrev pub answer : Result Project × State → Answer × State
answer (ok p, s) = (ok (some p), s)
answer (err e, s) = (err e, s)

abbrev pub done : Result (Unit {0}) × State → Answer × State
done (ok u, s) = (ok none, s)
done (err e, s) = (err e, s)

-- The operation on the tables
abbrev pub perform : Operation → State → Answer × State
perform (create id now body owner base) s = answer (create_project id now body owner base s)
perform (read i) s = answer (get_project i s)
perform (update now i body expected) s = answer (update_project now i body expected s)
perform (delete i) s = done (delete_project i s)

-- The operation on the store
abbrev pub put : ℕ → Project → Store → Store
put i p store j = if i == j then some p else store j

abbrev pub new_project : ℕ → ℕ → ProjectCreate → Option String → Option ℕ → Project
new_project id now body owner base = record {
  spec = body.dump;
  id = id;
  owner = owner;
  version = 1;
  inputs_version = 1;
  base_project_id = base;
  created_at = now;
  updated_at = now;
}

abbrev pub saved : ℕ → ProjectCreate → Project → Project
saved now body p = record p {
  spec = body.dump;
  version = p.version + 1;
  inputs_version = if inputs_differ p.spec body.dump then p.version + 1 else p.inputs_version;
  updated_at = now;
}

abbrev pub forget : ℕ → Project → Project
forget i p = record p {
  base_project_id = elim p.base_project_id [
    | none ↦ none
    | some b ↦ if b == i then none else some b
  ];
}

abbrev pub without : ℕ → Store → Store
without i store j = if i == j then none else Option.map (forget i) (store j)

abbrev pub add_new : Project → Store → Answer × Store
add_new p store = (ok (some p), put p.id p store)

abbrev pub save_if : Bool → Project → Project → Option ℤ → Store → Answer × Store
save_if true p p' expected store = (err (stale_error p.id p.version expected), store)
save_if false p p' expected store = (ok (some p'), put p.id p' store)

abbrev pub promised : Operation → Store → Answer × Store
promised (create id now body owner none) store = add_new (new_project id now body owner none) store
promised (create id now body owner (some b)) store = elim (store b) [
  | none ↦ (err (not_found project b), store)
  | some q ↦
      add_new (new_project id now body owner (some (Option.get_or q.base_project_id q.id))) store
]
promised (read i) store = elim (store i) [
  | none ↦ (err (not_found project i), store)
  | some p ↦ (ok (some p), store)
]
promised (update now i body expected) store = elim (store i) [
  | none ↦ (err (not_found project i), store)
  | some p ↦ save_if (is_stale expected p.version) p (saved now body p) expected store
]
promised (delete i) store = elim (store i) [
  | none ↦ (err (not_found project i), store)
  | some p ↦ (ok none, without i store)
]

-- A new project has an id that none has.
abbrev pub IsFor : Operation → Store → Type 0
IsFor (create id now body owner base) store = store id ≡ none
IsFor _ store = Unit

-- Operations one after the other, with their answers
unfoldable pub perform_all : List Operation → State → List Answer × State
perform_all [] s = ([], s)
perform_all (op ∷ ops) s =
    let (a, s') = perform op s in let (answers, s'') = perform_all ops s' in (a ∷ answers, s'')

unfoldable pub promised_all : List Operation → Store → List Answer × Store
promised_all [] store = ([], store)
promised_all (op ∷ ops) store =
    let (a, store') = promised op store in
    let (answers, store'') = promised_all ops store' in (a ∷ answers, store'')

abbrev pub AreFor : List Operation → Store → Type 0
AreFor [] store = Unit
AreFor (op ∷ ops) store = IsFor op store × AreFor ops (promised op store).1
