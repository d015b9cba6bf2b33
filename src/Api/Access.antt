-- ===== src/Api/Access.antt =====
-- Who may do what with the application of spur_api/main.py.
use spur_api.Base.{
  ℕ, ◌≡◌, ◌≢◌, ◌⊎◌, inl, inr, refl, String, true, Option, arith, Bool-cases, ◌&&◌, ◌∙◌, List,
}
use spur_api.Database.{State}
use spur_api.Action.{unhandled, Result, ok, err, Action}
use spur_api.Json.{Fields}
use spur_api.Spur.{SimEvent}
use spur_api.Base.Int.{ℤ, pos}
use spur_api.Database.{RunStatus}
use spur_api.Projects.{get_project}
use spur_api.Runs.{get_run, get_row, list_runs}
use spur_api.Runs.Results.{Narrowing, Analyzed, Analysis, analyze_run}
use spur_api.Settings.{Settings}
use spur_api.Runs.Results.{get_run_events, get_run_summary, get_run_visits}
use spur_api.Projects.Listing.{list_projects}
use spur_api.Api.{Response, sent, failed, refused, respond}
use spur_api.Api.Auth.{
  Principal, principal, unauthorized, crash, current_principal, HasKey, principal-HasKey,
}
use spur_api.Api.Routes.{
  get_projects, get_events, get_summary, get_visits, in_bounds, at_most, is_natural, magnitude,
}
use spur_api.Api.App.{Router, health}
use spur_api.Api.App.{
  Call, router_of, needs_principal, Service, Reply, dispatch, with_principal, app, reply,
}

reply-state : {A B : Type 0} (f : A → B) (x : Response A × State) → (reply f x).1 ≡ x.1
reply-state f (sent code a, s) = refl
reply-state f (failed code e, s) = refl
reply-state f (refused code text, s) = refl

respond-state : {A : Type 0} (code : ℕ) (x : Result A × State) → (respond code x).1 ≡ x.1
respond-state code (ok a, s) = refl
respond-state code (err e, s) = refl

-- A read raises, or returns, with the state as it was.
abbrev Reads : {A : Type 0} → Action A → Type 0
Reads action = (s : State) → (action s).1 ≡ s

get_project-Reads : (i : ℕ) → Reads (get_project i)
unfolding get_project
get_project-Reads i s = ground arith

get_run-Reads : (i : ℕ) → Reads (get_run i)
unfolding get_run get_row
get_run-Reads i s = ground arith

list_runs-Reads : (p : Option ℕ) (st : Option RunStatus) (b : Option ℕ) → Reads (list_runs p st b)
unfolding list_runs
list_runs-Reads p st b s = refl

list_projects-Reads : (limit offset : ℕ) (base : Option ℕ) → Reads (list_projects limit offset base)
unfolding list_projects
list_projects-Reads limit offset base s = refl

get_run_events-Reads :
    (i : ℕ) (q : Narrowing) (limit : ℤ) (offset : ℕ) → Reads (get_run_events i q limit offset)
unfolding get_run_events get_row
get_run_events-Reads i q limit offset s = ground arith

module _ (analyze : List SimEvent → Fields → ℤ → Analyzed Analysis) where
  analyze_run-Reads : (i : ℕ) (threshold : ℤ) → Reads (analyze_run analyze i threshold)
  unfolding analyze_run get_row
  analyze_run-Reads i threshold s = ground arith

  get_run_summary-Reads : (i : ℕ) (threshold : ℤ) → Reads (get_run_summary analyze i threshold)
  unfolding get_run_summary
  get_run_summary-Reads i threshold s = ground (arith, analyze_run-Reads i threshold s)

  get_run_visits-Reads :
      (i : ℕ) (train component : Option String) (limit offset : ℕ)
      → Reads (get_run_visits analyze i train component limit offset)
  unfolding get_run_visits
  get_run_visits-Reads i train component limit offset s =
      ground (arith, analyze_run-Reads i (pos 120) s)

-- The routes that check a bound first
module _ (s : State) where
  projects_read : (limit offset : ℤ) (base : Option ℕ) → (get_projects limit offset base s).1 ≡ s
  unfolding get_projects
  projects_read limit offset base =
      elim (Bool-cases (in_bounds 1 1000 limit && is_natural offset)) [
        | inl fits ↦
            rw (get_projects, fits)
              (respond-state 200 _
                ∙ list_projects-Reads (magnitude limit) (magnitude offset) base s)
        | inr wrong ↦ rw (get_projects, wrong) refl
      ]

  events_read : (i : ℕ) (q : Narrowing) (limit offset : ℤ) → (get_events i q limit offset s).1 ≡ s
  unfolding get_events
  events_read i q limit offset = elim (Bool-cases (at_most 10000 limit && is_natural offset)) [
    | inl fits ↦
        rw (get_events, fits)
          (respond-state 200 _ ∙ get_run_events-Reads i q limit (magnitude offset) s)
    | inr wrong ↦ rw (get_events, wrong) refl
  ]

  module _ (analyze : List SimEvent → Fields → ℤ → Analyzed Analysis) where
    summary_read : (i : ℕ) (threshold : ℤ) → (get_summary analyze i threshold s).1 ≡ s
    unfolding get_summary
    summary_read i threshold = elim (Bool-cases (is_natural threshold)) [
      | inl fits ↦
          rw (get_summary, fits)
            (respond-state 200 (get_run_summary analyze i threshold s)
              ∙ get_run_summary-Reads analyze i threshold s)
      | inr wrong ↦ rw (get_summary, wrong) refl
    ]

    visits_read :
        (i : ℕ) (train component : Option String) (limit offset : ℤ)
        → (get_visits analyze i train component limit offset s).1 ≡ s
    unfolding get_visits
    visits_read i train component limit offset =
        elim (Bool-cases (in_bounds 1 10000 limit && is_natural offset)) [
          | inl fits ↦
              rw (get_visits, fits)
                (respond-state 200 (
                    get_run_visits analyze i train component (magnitude limit) (magnitude offset) s)
                  ∙ get_run_visits-Reads analyze i train component (magnitude limit)
                      (magnitude offset) s)
          | inr wrong ↦ rw (get_visits, wrong) refl
        ]

-- The requests that are not about the service's health
abbrev pub IsGuarded : Call → Type 0
IsGuarded call = router_of call ≢ health

-- The GET requests, and the validation of a body
abbrev pub IsRead : Call → Type 0
IsRead (Call.create_project body base) = ⊥
IsRead (Call.update_project i body if_match) = ⊥
IsRead (Call.delete_project i) = ⊥
IsRead (Call.submit_run i body) = ⊥
IsRead (Call.rename_run i name) = ⊥
IsRead (Call.cancel_run i) = ⊥
IsRead (Call.delete_run i) = ⊥
IsRead _ = Unit

all_but_health : (r : Router) → r ≢ health → needs_principal r ≡ true
all_but_health health other = absurd (other refl)
all_but_health Router.projects other = refl
all_but_health Router.runs other = refl
all_but_health Router.validate other = refl
all_but_health Router.catalog other = refl

module _ {C : Type 0} (service : Service C) (settings : Settings) where
  -- Refused with a 401, or with the 500 of a token that cannot be compared, and nothing has changed
  abbrev pub IsTurnedAway : State → Response (Reply C) × State → Type 0
  IsTurnedAway s answer =
      (((text : String) × (answer ≡ (refused 401 text, s)))
        ⊎ (answer ≡ (failed 500 (unhandled "TypeError"), s)))

  -- With authentication on, a request to any route but those of health whose header gives none of
  -- the API keys as a bearer token is refused with a 401, or with the 500 of a token that cannot
  -- be compared, and nothing is changed.
  pub keyless-IsTurnedAway :
      (header : Option String) (call : Call) (s : State)
      → settings.auth_enabled ≡ true
      → IsGuarded call
      → ((on : settings.auth_enabled ≡ true) (p : String)
          → HasKey service.hexdigest settings on header p
          → ⊥)
      → IsTurnedAway s (app service settings header call s)
  unfolding app
  keyless-IsTurnedAway header call s on guarded keyless =
      rw (app, all_but_health (router_of call) guarded)
        (turned (current_principal service.hexdigest settings header) refl)
    where
      turned :
          (p : Principal)
          → current_principal service.hexdigest settings header ≡ p
          → IsTurnedAway s (with_principal service p call s)
      turned (principal user) made =
          absurd (keyless on user (principal-HasKey service.hexdigest settings on header user made))
      turned (unauthorized text) made = inl (text, refl)
      turned crash made = inr refl

  dispatch-IsRead :
      (user : String) (call : Call) (s : State) → IsRead call → (dispatch service user call s).1 ≡ s
  unfolding dispatch
  dispatch-IsRead user Call.healthz s h = refl
  dispatch-IsRead user Call.readyz s h = refl
  dispatch-IsRead user Call.get_catalog s h = refl
  dispatch-IsRead user (Call.validate_body body) s h = refl
  dispatch-IsRead user (Call.create_project body base) s h = absurd h
  dispatch-IsRead user (Call.list_projects limit offset base) s h =
      reply-state Reply.projects _ ∙ projects_read s limit offset base
  dispatch-IsRead user (Call.get_project i) s h =
      reply-state Reply.project _ ∙ respond-state 200 _ ∙ get_project-Reads i s
  dispatch-IsRead user (Call.delete_project i) s h = absurd h
  dispatch-IsRead user (Call.update_project i body if_match) s h = absurd h
  dispatch-IsRead user (Call.submit_run i body) s h = absurd h
  dispatch-IsRead user (Call.get_run i) s h =
      reply-state Reply.run _ ∙ respond-state 200 _ ∙ get_run-Reads i s
  dispatch-IsRead user (Call.cancel_run i) s h = absurd h
  dispatch-IsRead user (Call.delete_run i) s h = absurd h
  dispatch-IsRead user (Call.list_runs project_id wanted batch_id) s h =
      reply-state Reply.runs _ ∙ respond-state 200 _ ∙ list_runs-Reads project_id wanted batch_id s
  dispatch-IsRead user (Call.rename_run i name) s h = absurd h
  dispatch-IsRead user (Call.get_run_events i q limit offset) s h =
      reply-state Reply.events _ ∙ events_read s i q limit offset
  dispatch-IsRead user (Call.get_run_summary i threshold) s h =
      reply-state Reply.summary _ ∙ summary_read s service.analyze i threshold
  dispatch-IsRead user (Call.get_run_visits i train component limit offset) s h =
      reply-state Reply.visits _ ∙ visits_read s service.analyze i train component limit offset

  -- A GET request to any route, and the validation of a body, leave the tables and the queue as
  -- they were, whoever makes it and whatever the answer is.
  pub reads_change_nothing :
      (header : Option String) (call : Call) (s : State)
      → IsRead call
      → (app service settings header call s).1 ≡ s
  unfolding app
  reads_change_nothing header call s read = elim (Bool-cases (needs_principal (router_of call))) [
    | inr open_to_all ↦ rw (app, open_to_all) (dispatch-IsRead "" call s read)
    | inl guarded ↦
        rw (app, guarded) (for_principal (current_principal service.hexdigest settings header))
  ]
    where
      for_principal : (p : Principal) → (with_principal service p call s).1 ≡ s
      for_principal (principal user) = dispatch-IsRead user call s read
      for_principal (unauthorized text) = refl
      for_principal crash = refl
