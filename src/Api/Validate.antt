-- ===== src/Api/Validate.antt =====
-- spur_api/routers/validate.py: checking a project without saving it. `validate` is spur's, and
-- `envelope_issues` what its `issues_from_validation_error` reports of the envelope.
use text.Mathlib.Text.{◌==◌}
use spur_api.Base.{
  ◌≡◌, refl, Bool, true, false, ◌&&◌, Option, none, some, List, ◌++◌, [], if◌then◌else◌, Bool-cases,
  inl, inr, ◌↔◌,
}
use spur_api.Json.{Json, Fields, null, str, obj, lookup}
use spur_api.Database.{Issue, ValidationResult}

-- `type: Literal["SpurProject"]`
abbrev pub is_type : Option Json → Bool
is_type (some (str s)) = s == "SpurProject"
is_type _ = false

-- `spur_version: str`
abbrev pub is_text : Option Json → Bool
is_text (some (str s)) = true
is_text _ = false

-- `name: Optional[str] = None`
abbrev pub is_optional_text : Option Json → Bool
is_optional_text none = true
is_optional_text (some null) = true
is_optional_text (some (str s)) = true
is_optional_text (some _) = false

-- `extensions: Optional[Dict[str, Any]] = None`
abbrev pub is_optional_dict : Option Json → Bool
is_optional_dict none = true
is_optional_dict (some null) = true
is_optional_dict (some (obj fields)) = true
is_optional_dict (some _) = false

-- `ProjectEnvelope`
unfoldable pub fits_envelope : Fields → Bool
fits_envelope body =
    is_type (lookup "type" body)
    && is_text (lookup "spur_version" body)
    && is_optional_text (lookup "name" body)
    && is_optional_dict (lookup "extensions" body)

module _ (validate : Json → ValidationResult) (envelope_issues : Fields → List Issue) where
  abbrev pub with_envelope : Fields → ValidationResult → ValidationResult
  with_envelope body result =
      if fits_envelope body
      then result
      else record { valid = false; issues = envelope_issues body ++ result.issues }

  unfoldable pub validate_project : Json → ValidationResult
  validate_project (obj body) = with_envelope body (validate (obj body))
  validate_project body = validate body

-- A dict is a valid project exactly where spur finds it valid and its envelope fits, and spur's
-- issues are always reported, after those of the envelope.
validate_project_lem :
    (validate : Json → ValidationResult) (envelope_issues : Fields → List Issue) (body : Fields)
    → let result = validate_project validate envelope_issues (obj body) in
      ((result.valid ≡ true) ↔ (((validate (obj body)).valid ≡ true) × (fits_envelope body ≡ true)))
      × ((more : List Issue) × (result.issues ≡ more ++ (validate (obj body)).issues))
unfolding validate_project
validate_project_lem validate envelope_issues body = elim (Bool-cases (fits_envelope body)) [
  | inl fits ↦ rw fits ((λ v. (v, refl), λ h. h.0), ([], refl))
  | inr odd ↦ rw odd ((λ v. absurd (cc v), λ h. absurd (cc h.1)), (envelope_issues body, refl))
]
