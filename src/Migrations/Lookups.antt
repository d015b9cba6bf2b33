-- ===== src/Migrations/Lookups.antt =====
-- What the statements of alembic/versions ask of a database: its names, columns and values.
use spur_api.Base.{
  String, Bool, true, false, not, ◌&&◌, ◌||◌, Option, none, some, List, [], ◌∷◌, str_eq, ◌==◌,
  if◌then◌else◌,
}
use spur_api.Base.Int.{eqb_ℤ}
use spur_api.Json.{eq_json, Json}
use spur_api.Migrations.{Value, Column, Definition, Index, Row, Stored, Schema}

abbrev pub any {ℓ} : {A : Type ℓ} → (A → Bool) → List A → Bool
any p [] = false
any p (x ∷ xs) = p x || any p xs

abbrev pub all {ℓ} : {A : Type ℓ} → (A → Bool) → List A → Bool
all p [] = true
all p (x ∷ xs) = p x && all p xs

abbrev pub has_name : String → List String → Bool
has_name n names = any (str_eq n) names

-- The value of a row in a column
abbrev pub value : String → Row → Value
value c [] = Value.null
value c ((n, v) ∷ r) = if str_eq c n then v else value c r

abbrev pub set : String → Value → Row → Row
set c v [] = []
set c v ((n, w) ∷ r) = if str_eq c n then (n, v) ∷ set c v r else (n, w) ∷ set c v r

abbrev pub unset : String → Row → Row
unset c [] = []
unset c ((n, w) ∷ r) = if str_eq c n then unset c r else (n, w) ∷ unset c r

abbrev pub bool_eq : Bool → Bool → Bool
bool_eq true b = b
bool_eq false b = not b

-- SQL's `=`, which is never true of a null
abbrev pub sql_eq : Value → Value → Bool
sql_eq Value.null w = false
sql_eq (Value.uuid a) w = elim w [ Value.uuid b ↦ a == b | _ ↦ false ]
sql_eq (Value.integer a) w = elim w [ Value.integer b ↦ eqb_ℤ a b | _ ↦ false ]
sql_eq (Value.text a) w = elim w [ Value.text b ↦ str_eq a b | _ ↦ false ]
sql_eq (Value.jsonb a) w = elim w [ Value.jsonb b ↦ eq_json (Json.obj a) (Json.obj b) | _ ↦ false ]
sql_eq (Value.timestamp a) w = elim w [ Value.timestamp b ↦ a == b | _ ↦ false ]
sql_eq (Value.boolean a) w = elim w [ Value.boolean b ↦ bool_eq a b | _ ↦ false ]
sql_eq (Value.label a) w = elim w [ Value.label b ↦ str_eq a b | _ ↦ false ]

abbrev pub is_null : Value → Bool
is_null Value.null = true
is_null _ = false

abbrev pub same_key : List String → Row → Row → Bool
same_key columns r r' = all (λ c. sql_eq (value c r) (value c r')) columns

abbrev pub is_unique : List String → List Row → Bool
is_unique columns [] = true
is_unique columns (r ∷ rows) = not (any (same_key columns r) rows) && is_unique columns rows

abbrev pub table? : String → List Stored → Option Stored
table? n [] = none
table? n (t ∷ ts) = if str_eq n t.definition.name then some t else table? n ts

abbrev pub replace : Stored → List Stored → List Stored
replace t [] = []
replace t (u ∷ ts) = if str_eq t.definition.name u.definition.name then t ∷ ts else u ∷ replace t ts

-- Tables and indexes share their names.
abbrev pub is_relation : String → Schema → Bool
is_relation n db =
    any (λ (t : Stored). str_eq n t.definition.name) db.tables
    || any (λ (i : Index). str_eq n i.name) db.indexes

abbrev pub has_column : String → Definition → Bool
has_column c d = any (λ (k : Column). str_eq c k.name) d.columns
