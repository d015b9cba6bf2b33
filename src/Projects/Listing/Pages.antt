-- ===== src/Projects/Listing/Pages.antt =====
-- The listing of spur_api/services/projects_service.py in pages.
use mathlib.Core.List.Perm
use mathlib.Core.List.{Perm}
use spur_api.Base.{
  ℕ, ◌+◌, ◌≤◌, ◌≡◌, refl, ap, sym, ◌∙◌, Option, List, [], ◌∷◌, ◌++◌, map, length, page, page-append,
  page-all, keep_if,
}
use spur_api.Database.{ProjectRow, State}
use spur_api.Action.{ok}
use spur_api.Projects.Listing.{ProjectSummary, summaries, is_listed, listed, list_projects}
use spur_api.Projects.Listing.Order.{summaries-cons, summary_lem, listed-perm}

summaries-append :
    (rows more : List ProjectRow) {xs ys : List ProjectSummary}
    → summaries rows ≡ ok xs
    → summaries more ≡ ok ys
    → summaries (rows ++ more) ≡ ok (xs ++ ys)
unfolding summaries
summaries-append [] more {xs = []} h g = g
summaries-append [] more {xs = x ∷ xs} h g = cc
summaries-append (row ∷ rows) more {xs} {ys} h g =
    let (a, rest, first, others, same) = summaries-cons row rows h in
    let later = summaries-append rows more others g in rw (same, first, later)

-- Two pages of the project listing that follow each other are one, while the projects stay as
-- they are.
pub list_pages :
    (m n offset : ℕ) (base : Option ℕ) (s : State) (xs ys : List ProjectSummary)
    → (list_projects m offset base s).0 ≡ ok xs
    → (list_projects n (offset + m) base s).0 ≡ ok ys
    → (list_projects (m + n) offset base s).0 ≡ ok (xs ++ ys)
unfolding list_projects
list_pages m n offset base s xs ys h g =
    ap summaries (sym (page-append m n offset (listed base s)))
    ∙ summaries-append (page m offset (listed base s)) (page n (offset + m) (listed base s)) h g

abbrev pub summary_id : ProjectSummary → ℕ
summary_id a = a.id

abbrev pub row_id : ProjectRow → ℕ
row_id row = row.id

summaries-ids :
    (rows : List ProjectRow) {out : List ProjectSummary}
    → summaries rows ≡ ok out
    → map summary_id out ≡ map row_id rows
unfolding summaries
summaries-ids [] {out = []} h = refl
summaries-ids [] {out = a ∷ out} h = cc
summaries-ids (row ∷ rows) h =
    let (a, rest, first, others, same) = summaries-cons row rows h in
    cc (same, (summary_lem row first).1, summaries-ids rows others)

-- A listing that succeeds, from the start and with a high enough limit, holds the projects that
-- were asked for, each as often as the table does.
pub list_complete :
    (limit : ℕ) (base : Option ℕ) (s : State) (out : List ProjectSummary)
    → (list_projects limit 0 base s).0 ≡ ok out
    → length (listed base s) ≤ limit
    → Perm (map summary_id out) (map row_id (keep_if (is_listed base) s.projects))
unfolding list_projects
list_complete limit base s out h enough =
    rw (summaries-ids (page limit 0 (listed base s)) h, page-all limit (listed base s) enough)
      (Perm.map row_id (listed-perm base s))
