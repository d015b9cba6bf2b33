-- ===== src/Sessions/Pairing.antt =====
-- What the globals of spur_api/db/session.py are to each other, whatever calls there are.
use spur_api.Base.{ℕ, ◌≡◌, refl, String, Option, none, some, List, [], ◌∷◌}
use spur_api.Settings.{Settings}
use spur_api.Sessions.{
  Engine, SessionFactory, Globals, at_import, configure_engine, get_engine, get_session_factory,
  Use, configures, gets_engine, gets_factory, use_all, url_after, or_settings, ensure,
}

-- Both globals are None, or the factory's sessions are bound to the engine, which is one for the URL.
abbrev pub ArePaired : Option String → Option Engine → Option SessionFactory → Type 0
ArePaired none none none = Unit
ArePaired (some url) (some engine) (some factory) =
    (factory.bind ≡ engine) × (engine.database_url ≡ url)
ArePaired _ _ _ = ⊥

abbrev pub IsPaired : Option String → Globals → Type 0
IsPaired url g = ArePaired url g.engine g.session_factory

both :
    (url : String) (e : Option Engine) (f : Option SessionFactory)
    → ArePaired (some url) e f
    → (engine : Engine) × (factory : SessionFactory) × (f ≡ some factory)
      × (e ≡ some engine)
      × (factory.bind ≡ engine)
      × (engine.database_url ≡ url)
both url none none h = absurd h
both url none (some factory) h = absurd h
both url (some engine) none h = absurd h
both url (some engine) (some factory) h = (engine, factory, refl, refl, h.0, h.1)

module _ (settings : Settings) where
  ensured :
      (url : Option String) (engine : Option Engine) (factory : Option SessionFactory) (made : ℕ)
      → ArePaired url engine factory
      → IsPaired (some (or_settings settings url)) (
          ensure settings engine record { engine = engine; session_factory = factory; made = made })
  unfolding configure_engine
  ensured none none none made h = (refl, refl)
  ensured none none (some factory) made h = absurd h
  ensured none (some engine) none made h = absurd h
  ensured none (some engine) (some factory) made h = absurd h
  ensured (some url) none none made h = absurd h
  ensured (some url) none (some factory) made h = absurd h
  ensured (some url) (some engine) none made h = absurd h
  ensured (some url) (some engine) (some factory) made h = h

  use_all-IsPaired :
      (us : List Use) (url : Option String) (g : Globals)
      → IsPaired url g
      → IsPaired (url_after settings url us) (use_all settings us g)
  unfolding use_all
  use_all-IsPaired [] url g h = h
  use_all-IsPaired (configures u ∷ us) url g h =
      use_all-IsPaired us (some u) (configure_engine u g) (refl, refl)
  use_all-IsPaired (gets_engine ∷ us) url g h =
      use_all-IsPaired us (some (or_settings settings url)) (ensure settings g.engine g)
        (ensured url g.engine g.session_factory g.made h)
  use_all-IsPaired (gets_factory ∷ us) url g h =
      use_all-IsPaired us (some (or_settings settings url)) (ensure settings g.engine g)
        (ensured url g.engine g.session_factory g.made h)

  -- Whatever calls of configure_engine, get_engine and get_session_factory there were since the
  -- import, the next get_session_factory does not fail its assertion, and its sessions are bound
  -- to the engine that get_engine gives, which is one for the URL configured last, or else for
  -- that of the settings.
  pub factory_of_engine :
      (us : List Use)
      → let g = use_all settings us at_import in
        (engine : Engine) × (factory : SessionFactory) × ((get_session_factory settings g).0
          ≡ some factory)
        × ((get_engine settings g).0 ≡ some engine)
        × (factory.bind ≡ engine)
        × (engine.database_url ≡ or_settings settings (url_after settings none us))
  unfolding get_session_factory
  factory_of_engine us =
      let g = use_all settings us at_import in
      let g' = ensure settings g.engine g in
      both (or_settings settings (url_after settings none us)) g'.engine g'.session_factory (
        ensured (url_after settings none us) g.engine g.session_factory g.made
          (use_all-IsPaired us none at_import tt))
