-- ===== src/Sessions.antt =====
-- spur_api/db/session.py: the module's engine and its session factory, which are made when they are
-- first needed, and spur_api/worker/settings.py's `startup`, which takes the factory. An engine is told
-- by the URL it was made for and by its number among the engines made.
pub mod Pairing
use spur_api.Base.{ℕ, ◌+◌, String, Option, none, some, List, [], ◌∷◌}
use spur_api.Settings.{Settings}

pub record Engine : Type 0 where
  pub database_url : String
  pub number : ℕ

-- The engine that the factory's sessions are bound to
pub record SessionFactory : Type 0 where
  pub bind : Engine

-- The globals `_engine` and `_session_factory`, and how many engines were made
pub record Globals : Type 0 where
  pub engine : Option Engine
  pub session_factory : Option SessionFactory
  pub made : ℕ

abbrev pub at_import : Globals
at_import = record { engine = none; session_factory = none; made = 0 }

unfoldable pub configure_engine : String → Globals → Globals
configure_engine database_url g =
    let engine : Engine = record { database_url = database_url; number = g.made } in
    record {
      engine = some engine;
      session_factory = some (record { bind = engine });
      made = g.made + 1;
    }

module _ (settings : Settings) where
  abbrev pub ensure : Option Engine → Globals → Globals
  ensure none g = configure_engine settings.database_url g
  ensure (some engine) g = g

  -- `get_engine`, with the globals it leaves; None would be its result if `_engine` was still None
  unfoldable pub get_engine : Globals → Option Engine × Globals
  unfolding configure_engine
  get_engine g = let g' = ensure g.engine g in (g'.engine, g')

  -- `none` is the AssertionError.
  unfoldable pub get_session_factory : Globals → Option SessionFactory × Globals
  unfolding get_engine
  get_session_factory g = let (engine, g') = get_engine g in (g'.session_factory, g')

-- What calls there are of this module's functions, in any order
pub data Use : Type 0 where
  configures : String → Use
  gets_engine gets_factory : Use

unfoldable pub use_session : Settings → Use → Globals → Globals
unfolding get_session_factory
use_session settings (configures url) g = configure_engine url g
use_session settings gets_engine g = (get_engine settings g).1
use_session settings gets_factory g = (get_session_factory settings g).1

unfoldable pub use_all : Settings → List Use → Globals → Globals
unfolding use_session
use_all settings [] g = g
use_all settings (u ∷ us) g = use_all settings us (use_session settings u g)

-- The URL that the sessions are for: the one that was configured, or else the settings' once there is
-- an engine
abbrev pub or_settings : Settings → Option String → String
or_settings settings none = settings.database_url
or_settings settings (some url) = url

abbrev pub url_of : Settings → Option String → Use → Option String
url_of settings last (configures url) = some url
url_of settings last _ = some (or_settings settings last)

abbrev pub url_after : Settings → Option String → List Use → Option String
url_after settings last [] = last
url_after settings last (u ∷ us) = url_after settings (url_of settings last u) us
