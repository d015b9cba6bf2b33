-- ===== src/Projects/Listing.antt =====
-- `list_projects` of spur_api/services/projects_service.py.
pub mod Order
pub mod Pages
use spur_api.Base.{
  ℕ, ◌≡◌, String, Bool, true, false, ◌&&◌, ◌||◌, Option, none, some, List, [], ◌∷◌, ltb, leb, ◌==◌,
  keep_if, page,
}
use spur_api.Base.Sort.{sort_by}
use spur_api.Json.{Json, Fields, arr, lookup, count}
use spur_api.Database.{ProjectRow, State}
use spur_api.Action.{Action, Result, ok, err, unhandled}

pub record ProjectCounts : Type 0 where
  pub components : ℕ
  pub routes : ℕ
  pub tours : ℕ
  pub trains : ℕ

pub record ProjectSummary : Type 0 where
  pub id : ℕ
  pub name : Option String
  pub spur_version : String
  pub owner : Option String
  pub base_project_id : Option ℕ
  pub created_at : ℕ
  pub updated_at : ℕ
  pub counts : ProjectCounts

-- coalesce(jsonb_array_length(spec[section]), 0), an error of the database where there is no array
abbrev pub section_count : Option Json → Result ℕ
section_count none = ok 0
section_count (some (arr xs)) = ok (count xs)
section_count (some _) = err (unhandled "DBAPIError")

infixl 5 ◌>>=◌
abbrev pub ◌>>=◌ : {A B : Type 0} → Result A → (A → Result B) → Result B
ok a >>= f = f a
err e >>= f = err e

unfoldable pub summary : ProjectRow → Result ProjectSummary
summary row = do
  components ← section_count (lookup "components" row.spec)
  routes ← section_count (lookup "routes" row.spec)
  tours ← section_count (lookup "tours" row.spec)
  trains ← section_count (lookup "trains" row.spec)
  ok (record {
    id = row.id;
    name = row.name;
    spur_version = row.spur_version;
    owner = row.owner;
    base_project_id = row.base_project_id;
    created_at = row.created_at;
    updated_at = row.updated_at;
    counts = record { components = components; routes = routes; tours = tours; trains = trains };
  })

unfoldable pub summaries : List ProjectRow → Result (List ProjectSummary)
summaries [] = ok []
summaries (row ∷ rows) = do first ← summary row; rest ← summaries rows; ok (first ∷ rest)

-- ORDER BY created_at DESC, id
unfoldable pub comes_before : ProjectRow → ProjectRow → Bool
comes_before a b = ltb b.created_at a.created_at || (b.created_at == a.created_at && leb a.id b.id)

abbrev pub is_base : ℕ → Option ℕ → Bool
is_base base none = false
is_base base (some b) = b == base

-- WHERE base_project_id = :base, if one is given
abbrev pub is_listed : Option ℕ → ProjectRow → Bool
is_listed none row = true
is_listed (some base) row = is_base base row.base_project_id

-- All rows of the query, in order.
unfoldable pub listed : Option ℕ → State → List ProjectRow
listed base s = sort_by comes_before (keep_if (is_listed base) s.projects)

unfoldable pub list_projects : ℕ → ℕ → Option ℕ → Action (List ProjectSummary)
list_projects limit offset base s = (summaries (page limit offset (listed base s)), s)
