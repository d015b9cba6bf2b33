-- ===== src/Api/Health.antt =====
-- spur_api/routers/health.py: the probe of the database and of Redis.
use Prim.Native.String.{◌++◌ as ◌<>◌}
use Prim.Native.Char.{code}
use text.Mathlib.TextLemmas.{cons-append, head-eq_of_cons-eq}
use spur_api.Base.{
  ap, sym, ◌∙◌, str_eq_iff, Bool-cases, inl, inr, ℕ, ◌≡◌, refl, Bool, true, false, not, ◌||◌, ◌&&◌,
  String, Option, none, some, arith, if◌then◌else◌, str_eq,
}

-- The outcome of one check, by the text of the exception that it raised.
abbrev pub check_text : Option String → String
check_text none = "ok"
check_text (some e) = "error: " <> e

-- A check that did not raise.
abbrev pub is_fine : Option String → Bool
is_fine none = true
is_fine (some e) = false

-- The body of the answer.
pub record Checks : Type 0 where
  pub database : String
  pub redis : String

-- any(v != "ok" for v in checks.values())
abbrev pub any_failed : Checks → Bool
any_failed checks = not (str_eq checks.database "ok") || not (str_eq checks.redis "ok")

-- `readyz`, with what `SELECT 1` and the ping did
unfoldable pub readyz : Option String → Option String → ℕ × Checks
readyz database redis =
    let checks : Checks = record { database = check_text database; redis = check_text redis } in
    (if any_failed checks then 503 else 200, checks)

error_text_differs : (e : String) → str_eq ("error: " <> e) "ok" ≡ false
error_text_differs e = elim (Bool-cases (str_eq ("error: " <> e) "ok")) [
  | inr other ↦ other
  | inl same ↦
      let texts : "error: " <> e ≡ "ok" = (str_eq_iff ("error: " <> e) "ok").0 same in
      let heads = head-eq_of_cons-eq (sym (cons-append "e" "rror: " e) ∙ texts) in
      absurd (omega (arith, ap code heads))
]

-- The probe answers 200 where neither check raised and 503 where one did, and a check that raised
-- never reads "ok".
readyz_lem :
    (database redis : Option String)
    → ((readyz database redis).0 ≡ (if is_fine database && is_fine redis then 200 else 503))
      × (str_eq (readyz database redis).1.database "ok" ≡ is_fine database)
      × (str_eq (readyz database redis).1.redis "ok" ≡ is_fine redis)
unfolding readyz
readyz_lem none none = (refl, refl, refl)
readyz_lem none (some e) = rw (error_text_differs e) (refl, refl, refl)
readyz_lem (some d) none = rw (error_text_differs d) (refl, refl, refl)
readyz_lem (some d) (some e) = rw (error_text_differs d, error_text_differs e) (refl, refl, refl)
