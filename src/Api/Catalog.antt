-- ===== src/Api/Catalog.antt =====
-- spur_api/routers/catalog.py: spur's catalog, which is kept by `lru_cache(maxsize=1)`. Each call of
-- spur's `catalog` may make another object: `build n` is what the call makes that follows `n` others.
use spur_api.Base.{ℕ, zero, suc, ◌+◌, ◌≡◌, refl, Option, none, some, List, [], ◌∷◌, All}

module _ {C : Type 0} (build : ℕ → C) where
  -- What is cached, and how often `catalog` was called
  abbrev pub Cache : Type 0
  Cache = Option C × ℕ

  unfoldable pub get_catalog : Cache → C × Cache
  get_catalog (some c, n) = (c, (some c, n))
  get_catalog (none, n) = (build n, (some (build n), n + 1))

  -- The answers to some requests, one after the other
  unfoldable pub get_catalogs : ℕ → Cache → List C × Cache
  unfolding get_catalog
  get_catalogs zero cache = ([], cache)
  get_catalogs (suc n) cache =
      let (c, cache') = get_catalog cache in
      let (cs, cache'') = get_catalogs n cache' in (c ∷ cs, cache'')

  cached :
      (n : ℕ) (c : C) (k : ℕ)
      → All (λ x. x ≡ c) (get_catalogs n (some c, k)).0
        × ((get_catalogs n (some c, k)).1 ≡ (some c, k))
  unfolding get_catalogs
  cached zero c k = (tt, refl)
  cached (suc n) c k = let (same, kept) = cached n c k in ((refl, same), kept)

  -- However many requests there are, they are answered with one catalog, which is built once.
  pub built_once :
      (n : ℕ)
      → All (λ x. x ≡ build 0) (get_catalogs (suc n) (none, 0)).0
        × ((get_catalogs (suc n) (none, 0)).1 ≡ (some (build 0), 1))
  unfolding get_catalogs
  built_once n = let (same, kept) = cached n (build 0) 1 in ((refl, same), kept)
