-- ===== src/Inputs.antt =====
-- `_SIMULATION_INPUTS` and `_inputs_differ` of spur_api/services/projects_service.py: whether two
-- specs differ in what a simulation reads.
use spur_api.Base.{
  String, ◌≡◌, refl, Bool, false, not, ◌||◌, Option, none, some, List, [], ◌∷◌, ap, sym, ◌∙◌, arith,
  Bool-cases, inl, inr, str_eq,
}
use spur_api.Json.{Json, Fields, null, bool, num, str, arr, obj, done, field, lookup, eq_json}
use spur_api.Json.Equality.{IsDict, IsDictFields, eq_json_refl, eq_json_trans}
use spur_api.Json.Nulls.{
  without_nulls, without_nulls_fields, without_nulls-IsDict, stripped, lookup-without_nulls,
}

abbrev pub simulation_inputs : List String
simulation_inputs = "components" ∷ "routes" ∷ "tours" ∷ "trains" ∷ []

-- d.get(k), with Python's None for a missing key
abbrev pub or_null : Option Json → Json
or_null none = null
or_null (some v) = v

abbrev pub get : String → Fields → Json
get k fs = or_null (lookup k fs)

unfoldable pub section_differs : Fields → Fields → String → Bool
section_differs old new s = not (eq_json (without_nulls (get s old)) (without_nulls (get s new)))

abbrev any_differs : Fields → Fields → List String → Bool
any_differs old new [] = false
any_differs old new (s ∷ rest) = section_differs old new s || any_differs old new rest

unfoldable pub inputs_differ : Fields → Fields → Bool
inputs_differ old new = any_differs old new simulation_inputs

get-IsDict : (k : String) (fs : Fields) → IsDictFields fs → IsDict (get k fs)
unfolding IsDict
get-IsDict k done h = tt
get-IsDict k (field j v fs) h = elim (Bool-cases (str_eq j k)) [
  | inl here ↦ rw here h.1
  | inr further ↦ rw further (get-IsDict k fs h.2)
]

without_nulls-stripped : (o : Option Json) → without_nulls (or_null o) ≡ or_null (stripped o)
unfolding without_nulls
without_nulls-stripped none = refl
without_nulls-stripped (some null) = refl
without_nulls-stripped (some (bool b)) = refl
without_nulls-stripped (some (num m k)) = refl
without_nulls-stripped (some (str s)) = refl
without_nulls-stripped (some (arr xs)) = refl
without_nulls-stripped (some (obj fs)) = refl

-- A section with its nulls dropped is that section of the spec with its nulls dropped.
without_nulls-get :
    (k : String) (fs : Fields)
    → IsDictFields fs
    → without_nulls (get k fs) ≡ get k (without_nulls_fields fs)
without_nulls-get k fs h =
    without_nulls-stripped (lookup k fs) ∙ ap or_null (sym (lookup-without_nulls k fs h))

section_differs-same :
    (s : String) (old new : Fields)
    → IsDictFields old
    → without_nulls (get s old) ≡ without_nulls (get s new)
    → section_differs old new s ≡ false
unfolding section_differs
section_differs-same s old new h e = rw (← e) (
    ap not (
      eq_json_refl (without_nulls (get s old))
        (without_nulls-IsDict (get s old) (get-IsDict s old h))))

section_differs_trans :
    (s : String) (a b c : Fields)
    → section_differs a b s ≡ false
    → section_differs b c s ≡ false
    → section_differs a c s ≡ false
unfolding section_differs
section_differs_trans s a b c h g = ground (
  arith,
  eq_json_trans (without_nulls (get s a)) (without_nulls (get s b)) (without_nulls (get s c)),
)

any_differs_trans :
    (a b c : Fields) (sections : List String)
    → any_differs a b sections ≡ false
    → any_differs b c sections ≡ false
    → any_differs a c sections ≡ false
any_differs_trans a b c [] h g = refl
any_differs_trans a b c (s ∷ rest) h g =
    ground (arith, section_differs_trans s a b c, any_differs_trans a b c rest)

-- Specs with the same content in each input section, their nulls apart, do not differ.
pub inputs_differ-same :
    (old new : Fields)
    → IsDictFields old
    → ((s : String) → without_nulls (get s old) ≡ without_nulls (get s new))
    → inputs_differ old new ≡ false
unfolding inputs_differ
inputs_differ-same old new h same = over simulation_inputs
  where
    over : (sections : List String) → any_differs old new sections ≡ false
    over [] = refl
    over (s ∷ rest) = ground (arith, section_differs-same s old new h (same s), over rest)

-- A spec, its dicts with distinct keys, does not differ from itself.
pub inputs_differ_refl : (spec : Fields) → IsDictFields spec → inputs_differ spec spec ≡ false
inputs_differ_refl spec h = inputs_differ-same spec spec h (λ s. refl)

-- If a second spec has the inputs of a first and a third those of the second, then the third has
-- those of the first.
pub inputs_differ_trans :
    (a b c : Fields)
    → inputs_differ a b ≡ false
    → inputs_differ b c ≡ false
    → inputs_differ a c ≡ false
unfolding inputs_differ
inputs_differ_trans a b c = any_differs_trans a b c simulation_inputs

-- For specs with distinct keys that are equal once their null-valued keys are dropped at every
-- depth, _inputs_differ is false.
pub inputs_differ-nulls :
    (old new : Fields)
    → IsDictFields old
    → IsDictFields new
    → without_nulls_fields old ≡ without_nulls_fields new
    → inputs_differ old new ≡ false
inputs_differ-nulls old new h g e =
    inputs_differ-same old new h
      λ s. without_nulls-get s old h ∙ ap (get s) e ∙ sym (without_nulls-get s new g)
