-- ===== src/Api/Auth.antt =====
-- spur_api/auth.py: who makes a request, by its `Authorization` header. `hexdigest` is the SHA-256 of a
-- text as hexadecimal digits.
use Prim.Native.Char.{code}
use Prim.Native.String.{◌++◌ as ◌<>◌}
use spur_api.Base.{
  ℕ, zero, suc, ◌≡◌, refl, ◌⊎◌, inl, inr, Bool, true, false, ◌&&◌, String, Option, none, some, List,
  [], ◌∷◌, ltb, ◌==◌, if◌then◌else◌, arith, All, Bool-cases, str_eq, str_eq_iff,
}
use spur_api.Settings.{Settings}
use spur_api.Text.{strip}

abbrev pub bearer : String
bearer = "Bearer "

-- `s.startswith(prefix)` with `s.removeprefix(prefix)`
unfoldable pub after_prefix : String → String → Option String
after_prefix String.[] s = some s
after_prefix (String.◌∷◌ c prefix) String.[] = none
after_prefix (String.◌∷◌ c prefix) (String.◌∷◌ d s) =
    if code c == code d then after_prefix prefix s else none

unfoldable pub is_ascii : String → Bool
is_ascii String.[] = true
is_ascii (String.◌∷◌ c s) = ltb (code c) 128 && is_ascii s

-- The first characters of a text, `s[:n]`.
abbrev pub first_chars : ℕ → String → String
first_chars zero s = String.[]
first_chars (suc n) String.[] = String.[]
first_chars (suc n) (String.◌∷◌ c s) = String.◌∷◌ c (first_chars n s)

pub data Comparison : Type 0 where
  same different type_error : Comparison

-- `hmac.compare_digest` on texts takes ASCII only.
abbrev pub compare_digest : String → String → Comparison
compare_digest a b =
    if is_ascii a && is_ascii b then (if str_eq a b then same else different) else type_error

-- any(hmac.compare_digest(token, k) for k in keys)
unfoldable pub any_key : String → List String → Comparison
any_key token [] = different
any_key token (k ∷ keys) = elim (compare_digest token k) [
  | same ↦ same
  | different ↦ any_key token keys
  | type_error ↦ type_error
]

pub data Principal : Type 0 where
  principal : String → Principal
  unauthorized : String → Principal
  crash : Principal

module _ (hexdigest : String → String) where
  abbrev pub key_fingerprint : String → String
  key_fingerprint key = "key:" <> first_chars 12 (hexdigest key)

  abbrev pub of_comparison : String → Comparison → Principal
  of_comparison token same = principal (key_fingerprint token)
  of_comparison token different = unauthorized "Invalid API key"
  of_comparison token type_error = crash

  abbrev pub of_bearer : Settings → Option String → Principal
  of_bearer settings none = unauthorized "Missing or malformed Authorization header"
  of_bearer settings (some rest) =
      let token = strip rest in of_comparison token (any_key token settings.api_keys)

  abbrev pub with_header : Settings → Option String → Principal
  with_header settings none = unauthorized "Missing or malformed Authorization header"
  with_header settings (some authorization) = of_bearer settings (after_prefix bearer authorization)

  unfoldable pub current_principal : Settings → Option String → Principal
  unfolding after_prefix any_key is_ascii
  current_principal settings authorization =
      if settings.auth_enabled then with_header settings authorization else principal "anonymous"

abbrev pub IsOneOf : String → List String → Type 0
IsOneOf k [] = ⊥
IsOneOf k (x ∷ keys) = (k ≡ x) ⊎ IsOneOf k keys

any_key-same :
    (token : String) (keys : List String) → any_key token keys ≡ same → IsOneOf token keys
unfolding any_key
any_key-same token [] h = absurd (cc h)
any_key-same token (k ∷ keys) h = elim (Bool-cases (is_ascii token && is_ascii k)) [
  | inr odd ↦ absurd (ground (arith, odd, h))
  | inl plain ↦ elim (Bool-cases (str_eq token k)) [
    | inl hit ↦ inl ((str_eq_iff token k).0 hit)
    | inr other ↦ inr (any_key-same token keys (ground (arith, plain, other, h)))
  ]
]

any_key-odd :
    (token k : String) (keys : List String)
    → is_ascii token ≡ false
    → any_key token (k ∷ keys) ≡ type_error
unfolding any_key
any_key-odd token k keys odd = ground (arith, odd)

IsOneOf-any_key :
    (token : String) (keys : List String)
    → is_ascii token ≡ true
    → All (λ k. is_ascii k ≡ true) keys
    → IsOneOf token keys
    → any_key token keys ≡ same
unfolding any_key
IsOneOf-any_key token [] plain all h = absurd h
IsOneOf-any_key token (k ∷ keys) plain all h = elim (Bool-cases (str_eq token k)) [
  | inl hit ↦ ground (arith, plain, all.0, hit)
  | inr other ↦ elim h [
    | inl e ↦ absurd (ground (arith, other, (str_eq_iff token k).1 e))
    | inr later ↦ ground (arith, plain, all.0, other, IsOneOf-any_key token keys plain all.1 later)
  ]
]

module _ (hexdigest : String → String) (settings : Settings)
    (on : settings.auth_enabled ≡ true) where
  -- A principal with its key.
  abbrev pub HasKey : Option String → String → Type 0
  HasKey header p =
      (h rest : String) × (header ≡ some h)
      × (after_prefix bearer h ≡ some rest)
      × IsOneOf (strip rest) settings.api_keys
      × (p ≡ key_fingerprint hexdigest (strip rest))

  comparison-HasKey :
      (h rest p : String) (header : Option String)
      → header ≡ some h
      → after_prefix bearer h ≡ some rest
      → (c : Comparison) → any_key (strip rest) settings.api_keys ≡ c
      → of_comparison hexdigest (strip rest) c ≡ principal p
      → HasKey header p
  comparison-HasKey h rest p header given prefix same e made =
      (h, rest, given, prefix, any_key-same (strip rest) settings.api_keys e, cc made)
  comparison-HasKey h rest p header given prefix different e made = absurd (cc made)
  comparison-HasKey h rest p header given prefix type_error e made = absurd (cc made)

  bearer-HasKey :
      (h p : String) (header : Option String)
      → header ≡ some h
      → (rest : Option String) → after_prefix bearer h ≡ rest
      → of_bearer hexdigest settings rest ≡ principal p
      → HasKey header p
  bearer-HasKey h p header given none prefix made = absurd (cc made)
  bearer-HasKey h p header given (some rest) prefix made =
      comparison-HasKey h rest p header given prefix (any_key (strip rest) settings.api_keys) refl
        made

  header-HasKey :
      (p : String) (header : Option String)
      → with_header hexdigest settings header ≡ principal p
      → HasKey header p
  header-HasKey p none made = absurd (cc made)
  header-HasKey p (some h) made = bearer-HasKey h p (some h) refl (after_prefix bearer h) refl made

  -- With authentication on, a principal is only made from a header that gives one of the API keys
  -- as a bearer token, and it is the fingerprint of that key.
  pub principal-HasKey :
      (header : Option String) (p : String)
      → current_principal hexdigest settings header ≡ principal p
      → HasKey header p
  unfolding current_principal
  principal-HasKey header p made = header-HasKey p header (rw on at made)

  -- With authentication on, a header that gives one of the API keys as a bearer token is let in,
  -- if all keys are ASCII.
  pub key_is_let_in :
      (h rest : String)
      → after_prefix bearer h ≡ some rest
      → All (λ k. is_ascii k ≡ true) settings.api_keys
      → is_ascii (strip rest) ≡ true
      → IsOneOf (strip rest) settings.api_keys
      → current_principal hexdigest settings (some h)
        ≡ principal (key_fingerprint hexdigest (strip rest))
  unfolding current_principal
  key_is_let_in h rest prefix plain ascii key =
      rw (on, prefix, IsOneOf-any_key (strip rest) settings.api_keys ascii plain key) refl

  -- With authentication on, a bearer token that is not ASCII crashes the request as soon as there
  -- is a key to compare it with.
  pub odd_token_crashes :
      (h rest k : String) (keys : List String)
      → after_prefix bearer h ≡ some rest
      → settings.api_keys ≡ k ∷ keys
      → is_ascii (strip rest) ≡ false
      → current_principal hexdigest settings (some h) ≡ crash
  unfolding current_principal
  odd_token_crashes h rest k keys prefix some_key odd =
      rw (on, prefix, some_key, any_key-odd (strip rest) k keys odd) refl
