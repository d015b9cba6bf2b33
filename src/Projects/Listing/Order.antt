-- ===== src/Projects/Listing/Order.antt =====
-- The order of the listing of spur_api/services/projects_service.py, and what is in it.
use mathlib.Core.List.{Perm}
use spur_api.Base.{
  ℕ, ◌≡◌, refl, true, false, Bool, Option, List, [], ◌∷◌, arith, All, page, keep_if, ◌||◌, ◌&&◌,
  ltb, leb, ◌==◌,
}
use spur_api.Base.Sort.{sort_by-perm, sort_by-IsSorted, IsSorted, IsSorted-page}
use spur_api.Database.{ProjectRow, State}
use spur_api.Action.{Result, ok, err}
use spur_api.Projects.Listing.{
  ProjectSummary, summary, summaries, comes_before, is_listed, listed, list_projects, ◌>>=◌,
}

comes_before_total : (a b : ProjectRow) → comes_before a b ≡ false → comes_before b a ≡ true
unfolding comes_before
comes_before_total a b h = ground arith

comes_before_trans :
    (a b c : ProjectRow)
    → comes_before a b ≡ true
    → comes_before b c ≡ true
    → comes_before a c ≡ true
unfolding comes_before
comes_before_trans a b c h g = ground arith

-- The rows of the query are in order, and are the projects that it selects.
pub listed-IsSorted : (base : Option ℕ) (s : State) → IsSorted comes_before (listed base s)
unfolding listed
listed-IsSorted base s = sort_by-IsSorted comes_before comes_before_total comes_before_trans _

pub listed-perm :
    (base : Option ℕ) (s : State) → Perm (listed base s) (keep_if (is_listed base) s.projects)
unfolding listed
listed-perm base s = sort_by-perm comes_before _

-- A summary stands before another.
abbrev pub newer : ProjectSummary → ProjectSummary → Bool
newer a b = ltb b.created_at a.created_at || (b.created_at == a.created_at && leb a.id b.id)

-- A summary has the time and the id of its row.
pub summary_lem :
    (row : ProjectRow) {a : ProjectSummary}
    → summary row ≡ ok a
    → (a.created_at ≡ row.created_at) × (a.id ≡ row.id)
unfolding summary
summary_lem row h = ground arith

pub summaries-cons :
    (row : ProjectRow) (rows : List ProjectRow) {out : List ProjectSummary}
    → summaries (row ∷ rows) ≡ ok out
    → (a : ProjectSummary) × (rest : List ProjectSummary) × (summary row ≡ ok a)
      × (summaries rows ≡ ok rest)
      × (out ≡ a ∷ rest)
unfolding summaries
summaries-cons row rows {out} h = go (summary row) (summaries rows) refl refl h
  where
    go :
        (x : Result ProjectSummary) (y : Result (List ProjectSummary))
        → summary row ≡ x
        → summaries rows ≡ y
        → (x >>= λ a. y >>= λ rest. ok (a ∷ rest)) ≡ ok out
        → (a : ProjectSummary) × (rest : List ProjectSummary) × (summary row ≡ ok a)
          × (summaries rows ≡ ok rest)
          × (out ≡ a ∷ rest)
    go (ok a) (ok rest) e f h = (a, rest, e, f, cc)
    go (ok a) (err y) e f h = cc
    go (err x) y e f h = cc

summaries-All :
    (row : ProjectRow) (a : ProjectSummary) (rows : List ProjectRow) {out : List ProjectSummary}
    → summary row ≡ ok a
    → summaries rows ≡ ok out
    → All (λ r. comes_before row r ≡ true) rows
    → All (λ b. newer a b ≡ true) out
unfolding summaries
summaries-All row a [] {out = []} e h all = tt
summaries-All row a [] {out = b ∷ out} e h all = cc
summaries-All row a (r ∷ rows) e h all =
    let (b, rest, first, others, same) = summaries-cons r rows h in
    rw same (
      unfold comes_before in ground (arith, summary_lem row e, summary_lem r first, all.0),
      summaries-All row a rows e others all.1,
    )

summaries-IsSorted :
    (rows : List ProjectRow) {out : List ProjectSummary}
    → summaries rows ≡ ok out
    → IsSorted comes_before rows
    → IsSorted newer out
unfolding summaries
summaries-IsSorted [] {out = []} h sorted = tt
summaries-IsSorted [] {out = b ∷ out} h sorted = cc
summaries-IsSorted (row ∷ rows) h sorted =
    let (a, rest, first, others, same) = summaries-cons row rows h in
    rw same
      (summaries-All row a rows first others sorted.0, summaries-IsSorted rows others sorted.1)

-- A listing that succeeds is newest first, and by id among projects of the same time, at every
-- limit and offset.
pub list_newest_first :
    (limit offset : ℕ) (base : Option ℕ) (s : State) (out : List ProjectSummary)
    → (list_projects limit offset base s).0 ≡ ok out
    → IsSorted newer out
unfolding list_projects
list_newest_first limit offset base s out h =
    summaries-IsSorted (page limit offset (listed base s)) h
      (IsSorted-page comes_before limit offset (listed base s) (listed-IsSorted base s))
