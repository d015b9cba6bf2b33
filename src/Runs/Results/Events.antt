-- ===== src/Runs/Results/Events.antt =====
-- What `get_run_events` of spur_api/services/runs_service.py returns.
use spur_api.Base.{
  Bool, ℕ, ◌+◌, ◌≤◌, ◌≡◌, refl, ap, ◌∙◌, true, some, List, [], ◌∷◌, ◌++◌, map, keep_if, length,
  page, page-all, arith, All, leb,
}
use spur_api.Base.Int.{ℤ, pos}
use spur_api.Base.Sort.{sort_by, insert_by}
use spur_api.Database.{SimulationRunRow, RunEventRow, State}
use spur_api.Action.{ok}
use spur_api.Spur.{SimEvent}
use spur_api.Runs.{find_run, get_row}
use spur_api.Runs.Results.{
  event_from_row, Narrowing, is_wanted, comes_first, chosen, fits_query, fits_window, limited,
  get_run_events, everything,
}
use spur_api.Worker.Tasks.{event_rows}
use spur_api.Worker.Tasks.Storage.{stored, is_of}

-- The answer for a run that is there, to a query that the database takes.
pub get_run_events-found :
    (i : ℕ) (q : Narrowing) (limit : ℤ) (offset : ℕ) (s : State) (r : SimulationRunRow)
    → find_run i s ≡ some r
    → fits_query q ≡ true
    → fits_window limit offset ≡ true
    → get_run_events i q limit offset s ≡ limited limit offset (chosen i q s) s
unfolding get_run_events get_row
get_run_events-found i q limit offset s r found query window = ground (arith, found, query, window)

pub map-append {ℓ} :
    {A B : Type ℓ} (f : A → B) (xs ys : List A) → map f (xs ++ ys) ≡ map f xs ++ map f ys
map-append f [] ys = refl
map-append f (x ∷ xs) ys = ap (λ l. f x ∷ l) (map-append f xs ys)

-- Rows that a job has numbered are in order.
event_rows-later :
    (i seq from : ℕ) (events : List SimEvent)
    → from ≤ seq
    → All (λ e. leb from e.seq ≡ true) (event_rows i seq events)
unfolding event_rows
event_rows-later i seq from [] h = tt
event_rows-later i seq from (e ∷ events) h =
    (ground arith, event_rows-later i (seq + 1) from events (omega arith))

insert_by-first :
    (a : RunEventRow) (rows : List RunEventRow)
    → All (λ e. leb a.seq e.seq ≡ true) rows
    → insert_by comes_first a rows ≡ a ∷ rows
unfolding insert_by
insert_by-first a [] h = refl
insert_by-first a (e ∷ rows) h = rw h.0 refl

sort_by-event_rows :
    (i seq : ℕ) (events : List SimEvent)
    → sort_by comes_first (event_rows i seq events) ≡ event_rows i seq events
unfolding sort_by event_rows
sort_by-event_rows i seq [] = refl
sort_by-event_rows i seq (e ∷ events) = rw (sort_by-event_rows i (seq + 1) events) (
    insert_by-first _ (event_rows i (seq + 1) events)
      (event_rows-later i (seq + 1) seq events (omega arith)))

event_from_row-event_rows :
    (i seq : ℕ) (events : List SimEvent) → map event_from_row (event_rows i seq events) ≡ events
unfolding event_rows
event_from_row-event_rows i seq [] = refl
event_from_row-event_rows i seq (e ∷ events) =
    ap (λ l. e ∷ l) (event_from_row-event_rows i (seq + 1) events)

length-event_rows :
    (i seq : ℕ) (events : List SimEvent) → length (event_rows i seq events) ≡ length events
unfolding event_rows
length-event_rows i seq [] = refl
length-event_rows i seq (e ∷ events) = omega (arith, length-event_rows i (seq + 1) events)

keep_if-same :
    (p q : RunEventRow → Bool) (rows : List RunEventRow)
    → ((e : RunEventRow) → p e ≡ q e)
    → keep_if p rows ≡ keep_if q rows
keep_if-same p q [] same = refl
keep_if-same p q (e ∷ rows) same = ground (arith, same e, keep_if-same p q rows same)

chosen-stored :
    (i : ℕ) (events : List SimEvent) (s : State)
    → stored i s ≡ event_rows i 0 events
    → chosen i everything s ≡ event_rows i 0 events
unfolding chosen
chosen-stored i events s rows =
    ap (sort_by comes_first)
      (keep_if-same (is_wanted i everything) (is_of i) s.run_events (λ e. ground arith) ∙ rows)
    ∙ sort_by-event_rows i 0 events

-- Events that are stored for a run that is there, as a job numbers them, come back from the query
-- without filters as they were produced, if the limit is high enough.
pub events_come_back :
    (i : ℕ) (events : List SimEvent) (s : State) (r : SimulationRunRow) (limit : ℕ)
    → find_run i s ≡ some r
    → stored i s ≡ event_rows i 0 events
    → length events ≤ limit
    → get_run_events i everything (pos limit) 0 s ≡ (ok events, s)
events_come_back i events s r limit found rows enough =
    let all : page limit 0 (event_rows i 0 events) ≡ event_rows i 0 events =
      page-all limit (event_rows i 0 events)
        (omega (arith, enough, length-event_rows i 0 events)) in
    get_run_events-found i everything (pos limit) 0 s r found refl refl
    ∙ rw (chosen-stored i events s rows, all, event_from_row-event_rows i 0 events) refl
