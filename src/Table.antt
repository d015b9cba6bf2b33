-- ===== src/Table.antt =====
-- A table with a primary key: `db.get`, `db.add`, an UPDATE of one row and a DELETE.
pub mod Laws
use spur_api.Base.{
  ℕ, not, Option, none, some, List, [], ◌∷◌, ◌++◌, map, ◌==◌, if◌then◌else◌, keep_if, ◌≡◌,
}

module _ {A : Type 0} (key : A → ℕ) where
  unfoldable pub get : ℕ → List A → Option A
  get i [] = none
  get i (r ∷ rows) = if key r == i then some r else get i rows

  unfoldable pub insert : A → List A → List A
  insert r rows = rows ++ r ∷ []

  abbrev pub replace : A → A → A
  replace r x = if key x == key r then r else x

  unfoldable pub save : A → List A → List A
  save r rows = map (replace r) rows

  unfoldable pub remove : ℕ → List A → List A
  remove i rows = keep_if (λ r. not (key r == i)) rows

  -- No two rows have the same key.
  abbrev pub IsKeyed : List A → Type 0
  IsKeyed [] = Unit
  IsKeyed (r ∷ rows) = (get (key r) rows ≡ none) × IsKeyed rows
