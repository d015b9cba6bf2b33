-- ===== src/Worker/Tasks/Storage.antt =====
-- What a job of spur_api/worker/tasks.py stores: the events of its run, in order and numbered from 0.
use mathlib.Core.Path.{ap₂}
use mathlib.Core.List.{append-nil}
use spur_api.Base.{
  ℕ, ◌+◌, ◌≡◌, ◌≢◌, refl, ap, sym, ◌∙◌, Bool, List, [], ◌∷◌, ◌++◌, arith, All, length,
  length-append, keep_if, ◌==◌, ==_refl,
}
use spur_api.Base.Int.{ℤ}
use spur_api.Database.{RunEventRow, State}
use spur_api.Action.{Error, Result, ok, err}
use spur_api.Spur.{SimEvent}
use spur_api.Worker.Tasks.{
  Session, update_run, on_chunk, is_cancelled, event_rows, catch_up, serve, store_events,
}
use spur_api.Worker.Tasks.Lifecycle.{is_cancelled-state}

-- The events of one run, in the order of the table.
abbrev pub is_of : ℕ → RunEventRow → Bool
is_of i e = e.run_id == i

abbrev pub stored : ℕ → State → List RunEventRow
stored i s = keep_if (is_of i) s.run_events

pub keep_if-append :
    (p : RunEventRow → Bool) (xs ys : List RunEventRow)
    → keep_if p (xs ++ ys) ≡ keep_if p xs ++ keep_if p ys
keep_if-append p [] ys = refl
keep_if-append p (x ∷ xs) ys = ground (arith, keep_if-append p xs ys)

keep_if-event_rows :
    (i seq : ℕ) (events : List SimEvent)
    → keep_if (is_of i) (event_rows i seq events) ≡ event_rows i seq events
unfolding event_rows
keep_if-event_rows i seq [] = refl
keep_if-event_rows i seq (e ∷ events) =
    ground (arith, ==_refl i, keep_if-event_rows i (seq + 1) events)

keep_if-other :
    (i j seq : ℕ) (events : List SimEvent)
    → i ≢ j
    → keep_if (is_of i) (event_rows j seq events) ≡ []
unfolding event_rows
keep_if-other i j seq [] other = refl
keep_if-other i j seq (e ∷ events) other =
    ground (arith, other, keep_if-other i j (seq + 1) events other)

-- The events of a run are not those of another.
pub stored-other :
    (i j seq : ℕ) (events : List SimEvent) (s : State)
    → i ≢ j
    → stored i (store_events j seq events s) ≡ stored i s
stored-other i j seq events s other =
    keep_if-append (is_of i) s.run_events (event_rows j seq events)
    ∙ ap (λ l. stored i s ++ l) (keep_if-other i j seq events other)
    ∙ append-nil (stored i s)

-- The numbering goes on from one chunk to the next.
pub event_rows-append :
    (i seq next : ℕ) (xs ys : List SimEvent)
    → next ≡ seq + length xs
    → event_rows i seq (xs ++ ys) ≡ event_rows i seq xs ++ event_rows i next ys
unfolding event_rows
event_rows-append i seq next [] ys e =
    let same : seq ≡ next = omega arith in ap (λ n. event_rows i n ys) same
event_rows-append i seq next (x ∷ xs) ys e =
    let next_seq : next ≡ seq + 1 + length xs = omega arith in
    cc (event_rows-append i (seq + 1) next xs ys next_seq)

-- What `on_chunk` has done, by how it ended.
abbrev pub Stores : ℕ → List SimEvent → Session → Result (Unit {0}) × Session → Type 0
Stores i events w (ok done, w') =
    (stored i w'.db ≡ stored i w.db ++ event_rows i w.seq events)
    × (w'.seq ≡ w.seq + length events)
    × (w'.meanwhile ≡ w.meanwhile)
Stores i events w (err e, w') = w'.db ≡ w.db

pub on_chunk-Stores :
    (i : ℕ) (time : ℤ) (events : List SimEvent) (w : Session)
    → Stores i events w (on_chunk i time events w)
unfolding on_chunk update_run
on_chunk-Stores i time events w = ground (
  arith,
  keep_if-append (is_of i) w.db.run_events (event_rows i w.seq events),
  keep_if-event_rows i w.seq events,
)

-- What other requests do leaves the events of the run alone.
abbrev pub KeepsEvents : ℕ → (State → State) → Type 0
KeepsEvents i request = (s : State) → stored i (request s) ≡ stored i s

-- The session's events of the run are those of `past`, numbered from 0, and `seq` is the next number.
pub record Follows (i : ℕ) (past : List SimEvent) (w : Session) : Type 0 where
  pub rows : stored i w.db ≡ event_rows i 0 past
  pub next_seq : w.seq ≡ length past
  pub spared : All (KeepsEvents i) w.meanwhile

module _ (i : ℕ) (past : List SimEvent) where
  serve-Follows :
      (requests : List (State → State)) (w : Session)
      → All (KeepsEvents i) requests
      → Follows i past w
      → Follows i past (serve requests w)
  serve-Follows [] w spared h = h
  serve-Follows (request ∷ rest) w spared h = record {
    rows = spared.0 w.db ∙ h.rows;
    next_seq = h.next_seq;
    spared = spared.1;
  }

  pub asked-Follows :
      (w w₁ : Session) {x : Result Bool}
      → Follows i past w
      → is_cancelled i w ≡ (x, w₁)
      → Follows i past w₁
  asked-Follows w w₁ h e =
      let same : catch_up w ≡ w₁ =
        sym (is_cancelled-state i w) ∙ ap (λ (p : Result Bool × Session). p.1) e in
      rw same at (serve-Follows w.meanwhile w h.spared h)

  -- After `on_chunk` the events of the chunk follow, or it raised and nothing has changed.
  pub flushed-Follows :
      (time : ℤ) (events : List SimEvent) (w w₁ : Session)
      → Follows i past w
      → on_chunk i time events w ≡ (ok tt, w₁)
      → Follows i (past ++ events) w₁
  flushed-Follows time events w w₁ h e =
      let stores : Stores i events w (ok tt, w₁) = rw e at (on_chunk-Stores i time events w) in
      record {
        rows =
            stores.0
            ∙ ap₂ (λ a n. a ++ event_rows i n events) h.rows h.next_seq
            ∙ sym (event_rows-append i 0 (length past) past events (omega arith));
        next_seq = omega (arith, stores.1, h.next_seq, length-append {0} past events);
        spared = rw stores.2 h.spared;
      }

  -- After an exception the events are those of before.
  pub refused-rows :
      (time : ℤ) (events : List SimEvent) (w w₁ : Session) {x : Error}
      → Follows i past w
      → on_chunk i time events w ≡ (err x, w₁)
      → stored i w₁.db ≡ event_rows i 0 past
  refused-rows time events w w₁ {x} h e =
      let same : w₁.db ≡ w.db = rw e at (on_chunk-Stores i time events w) in rw same h.rows
