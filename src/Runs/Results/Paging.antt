-- ===== src/Runs/Results/Paging.antt =====
-- What `get_run_events` of spur_api/services/runs_service.py returns in pages, against the table.
use mathlib.Core.List.Perm
use mathlib.Core.List.{Perm, perm_middle}
use spur_api.Base.{
  ℕ, ◌+◌, ◌≤◌, ◌≡◌, refl, ap, sym, ◌∙◌, Bool, not, true, String, Option, none, some, List, [], ◌∷◌,
  ◌++◌, map, keep_if, keep_if-All, length, page, page-append, page-all, arith, All, All-weaken,
  str_eq_iff, Bool-cases, inl, inr,
}
use spur_api.Base.Int.{ℤ, pos, ◌≤ℤ◌}
use spur_api.Base.Sort.{sort_by, insert_by, sort_by-perm, sort_by-IsSorted, All-insert_by, IsSorted}
use spur_api.Database.{RunEventRow, State}
use spur_api.Action.{ok}
use spur_api.Spur.{SimEvent}
use spur_api.Runs.{get_row}
use spur_api.Runs.Results.{
  event_from_row, Narrowing, is_since, is_text, is_wanted, comes_first, chosen, get_run_events,
}
use spur_api.Runs.Results.Events.{map-append}

-- What a query asks of an event, one filter at a time
abbrev pub IsSince : Option ℤ → ℤ → Type 0
IsSince none time = Unit
IsSince (some t) time = t ≤ℤ time

abbrev pub IsText : Option String → String → Type 0
IsText none value = Unit
IsText (some wanted) value = value ≡ wanted

abbrev pub IsMatch : ℕ → Narrowing → RunEventRow → Type 0
IsMatch i q e =
    (e.run_id ≡ i)
    × IsSince q.since_time e.time
    × IsText q.train_uid e.train_uid
    × IsText q.component_uid e.component_uid
    × IsText q.event_type e.event

-- Each event has a `seq` that none after it is below.
abbrev pub IsBySeq : List RunEventRow → Type 0
IsBySeq [] = Unit
IsBySeq (e ∷ rows) = All (λ x. e.seq ≤ x.seq) rows × IsBySeq rows

is_text-IsText :
    (wanted : Option String) (value : String) → is_text wanted value ≡ true → IsText wanted value
is_text-IsText none value h = tt
is_text-IsText (some w) value h = (str_eq_iff value w).0 h

IsText-is_text :
    (wanted : Option String) (value : String) → IsText wanted value → is_text wanted value ≡ true
IsText-is_text none value h = refl
IsText-is_text (some w) value h = (str_eq_iff value w).1 h

is_since-IsSince : (since : Option ℤ) (time : ℤ) → is_since since time ≡ true → IsSince since time
is_since-IsSince none time h = tt
is_since-IsSince (some t) time h = ground (arith, h)

IsSince-is_since : (since : Option ℤ) (time : ℤ) → IsSince since time → is_since since time ≡ true
IsSince-is_since none time h = refl
IsSince-is_since (some t) time h = ground (arith, h)

is_wanted-IsMatch :
    (i : ℕ) (q : Narrowing) (e : RunEventRow) → is_wanted i q e ≡ true → IsMatch i q e
is_wanted-IsMatch i q e h =
    let own : e.run_id ≡ i = ground (arith, h) in
    let since : is_since q.since_time e.time ≡ true = ground (arith, h) in
    let train : is_text q.train_uid e.train_uid ≡ true = ground (arith, h) in
    let component : is_text q.component_uid e.component_uid ≡ true = ground (arith, h) in
    let event : is_text q.event_type e.event ≡ true = ground (arith, h) in
    (
      own,
      is_since-IsSince q.since_time e.time since,
      is_text-IsText q.train_uid e.train_uid train,
      is_text-IsText q.component_uid e.component_uid component,
      is_text-IsText q.event_type e.event event,
    )

IsMatch-is_wanted :
    (i : ℕ) (q : Narrowing) (e : RunEventRow) → IsMatch i q e → is_wanted i q e ≡ true
IsMatch-is_wanted i q e (own, since, train, component, event) = ground (
  arith,
  own,
  IsSince-is_since q.since_time e.time since,
  IsText-is_text q.train_uid e.train_uid train,
  IsText-is_text q.component_uid e.component_uid component,
  IsText-is_text q.event_type e.event event,
)

parted-perm :
    (p : RunEventRow → Bool) (rows : List RunEventRow)
    → Perm rows (keep_if p rows ++ keep_if (λ e. not (p e)) rows)
parted-perm p [] = Perm.refl []
parted-perm p (e ∷ rows) = elim (Bool-cases (p e)) [
  | inl kept ↦ rw kept (Perm.cons e (parted-perm p rows))
  | inr gone ↦ rw gone (
      Perm.trans (Perm.cons e (parted-perm p rows))
        (Perm.symm (perm_middle (keep_if p rows) (keep_if (λ x. not (p x)) rows))))
]

sort_by-All :
    (P : RunEventRow → Type 0) (rows : List RunEventRow)
    → All P rows
    → All P (sort_by comes_first rows)
unfolding sort_by
sort_by-All P [] h = tt
sort_by-All P (e ∷ rows) h =
    All-insert_by comes_first P e (sort_by comes_first rows) h.0 (sort_by-All P rows h.1)

in_order : (rows : List RunEventRow) → IsSorted comes_first rows → IsBySeq rows
in_order [] h = tt
in_order (e ∷ rows) h =
    (All-weaken _ _ rows (λ x before. ground (arith, before)) h.0, in_order rows h.1)

length-insert_by :
    (e : RunEventRow) (rows : List RunEventRow)
    → length (insert_by comes_first e rows) ≡ length rows + 1
unfolding insert_by
length-insert_by e [] = refl
length-insert_by e (x ∷ rows) = ground (arith, length-insert_by e rows)

length-chosen :
    (p : RunEventRow → Bool) (rows : List RunEventRow)
    → length (sort_by comes_first (keep_if p rows)) ≤ length rows
unfolding sort_by
length-chosen p [] = omega arith
length-chosen p (e ∷ rows) = elim (Bool-cases (p e)) [
  | inl kept ↦ rw kept (
      omega
        (arith, length-chosen p rows, length-insert_by e (sort_by comes_first (keep_if p rows))))
  | inr gone ↦ rw gone (omega (arith, length-chosen p rows))
]

answered :
    (i : ℕ) (q : Narrowing) (limit offset : ℕ) (s : State) (xs : List SimEvent)
    → (get_run_events i q (pos limit) offset s).0 ≡ ok xs
    → xs ≡ map event_from_row (page limit offset (chosen i q s))
unfolding get_run_events get_row
answered i q limit offset s xs h = ground arith

-- Two pages of a run's events that follow each other from the start, and whose limits reach the
-- number of stored events together, hold in the order of seq the stored events that are of the
-- run and meet every filter of the query, each as often as the table does, and no other.
pub event_pages :
    (i : ℕ) (q : Narrowing) (m n : ℕ) (s : State) (xs ys : List SimEvent)
    → (get_run_events i q (pos m) 0 s).0 ≡ ok xs
    → (get_run_events i q (pos n) m s).0 ≡ ok ys
    → length s.run_events ≤ m + n
    → (rows others : List RunEventRow) × (xs ++ ys ≡ map event_from_row rows)
      × Perm s.run_events (rows ++ others)
      × All (IsMatch i q) rows
      × All (λ e. IsMatch i q e → ⊥) others
      × IsBySeq rows
unfolding chosen
event_pages i q m n s xs ys first second enough =
    let wanted = keep_if (is_wanted i q) s.run_events in
    let rows = chosen i q s in
    let others = keep_if (λ e. not (is_wanted i q e)) s.run_events in
    let from_start : 0 + m ≡ m = omega arith in
    let fits : length rows ≤ m + n =
      omega (arith, length-chosen (is_wanted i q) s.run_events, enough) in
    (
      rows,
      others,
      rw (answered i q m 0 s xs first, answered i q n m s ys second)
          (sym (map-append event_from_row (page m 0 rows) (page n m rows))
            ∙ ap (map event_from_row)
                ((rw from_start at (page-append m n 0 rows)) ∙ page-all (m + n) rows fits)),
      Perm.trans (parted-perm (is_wanted i q) s.run_events)
          (Perm.append (Perm.symm (sort_by-perm comes_first wanted)) (Perm.refl others)),
      sort_by-All (IsMatch i q) wanted (
          All-weaken _ _ wanted (is_wanted-IsMatch i q) (keep_if-All (is_wanted i q) s.run_events)),
      All-weaken _ _ others
          (λ e (kept : not (is_wanted i q e) ≡ true).
            λ match. absurd (cc (kept, IsMatch-is_wanted i q e match)))
          (keep_if-All (λ e. not (is_wanted i q e)) s.run_events),
      in_order rows (
          sort_by-IsSorted comes_first (λ a b h. ground (arith, h))
            (λ a b c h g. ground (arith, h, g)) wanted),
    )
