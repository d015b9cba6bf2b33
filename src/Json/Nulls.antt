-- ===== src/Json/Nulls.antt =====
-- `_without_nulls` of spur_api/services/projects_service.py, and what it keeps.
use spur_api.Base.{String, ◌≡◌, refl, Option, none, some, arith, str_eq_iff}
use spur_api.Json.{
  Json, Items, Fields, null, bool, num, str, arr, obj, nil, cons, done, field, lookup, count,
}
use spur_api.Json.Equality.{IsDict, IsDictItems, IsDictFields}

-- keep `k: w` in front of the rest of the dict if `v is not None`
abbrev put_unless_null : String → Json → Json → Fields → Fields
put_unless_null k null w rest = rest
put_unless_null k _ w rest = field k w rest

unfoldable mutual
  pub without_nulls : Json → Json
  without_nulls null = null
  without_nulls (bool b) = bool b
  without_nulls (num m k) = num m k
  without_nulls (str s) = str s
  without_nulls (arr xs) = arr (without_nulls_items xs)
  without_nulls (obj fs) = obj (without_nulls_fields fs)

  pub without_nulls_items : Items → Items
  without_nulls_items nil = nil
  without_nulls_items (cons x xs) = cons (without_nulls x) (without_nulls_items xs)

  pub without_nulls_fields : Fields → Fields
  without_nulls_fields done = done
  without_nulls_fields (field k v fs) =
      put_unless_null k v (without_nulls v) (without_nulls_fields fs)

mutual
  unfolding without_nulls

  idem : (v : Json) → without_nulls (without_nulls v) ≡ without_nulls v
  idem null = refl
  idem (bool b) = refl
  idem (num m k) = refl
  idem (str s) = refl
  idem (arr xs) = cc (idem_items xs)
  idem (obj fs) = cc (idem_fields fs)

  idem_items : (xs : Items) → without_nulls_items (without_nulls_items xs) ≡ without_nulls_items xs
  idem_items nil = refl
  idem_items (cons x xs) = cc (idem x, idem_items xs)

  idem_fields :
      (fs : Fields) → without_nulls_fields (without_nulls_fields fs) ≡ without_nulls_fields fs
  idem_fields done = refl
  idem_fields (field k null fs) = idem_fields fs
  idem_fields (field k (bool b) fs) = cc (idem_fields fs)
  idem_fields (field k (num m j) fs) = cc (idem_fields fs)
  idem_fields (field k (str s) fs) = cc (idem_fields fs)
  idem_fields (field k (arr xs) fs) = cc (idem_items xs, idem_fields fs)
  idem_fields (field k (obj gs) fs) = cc (idem_fields gs, idem_fields fs)

-- What a key of the stripped dict holds: nothing where the value was null.
abbrev pub stripped : Option Json → Option Json
stripped none = none
stripped (some null) = none
stripped (some v) = some (without_nulls v)

-- A key that is missing stays missing.
lookup-without_nulls_none :
    (k : String) (fs : Fields) → lookup k fs ≡ none → lookup k (without_nulls_fields fs) ≡ none
unfolding without_nulls
lookup-without_nulls_none k done h = refl
lookup-without_nulls_none k (field j v fs) h = ground (arith, lookup-without_nulls_none k fs)

pub lookup-without_nulls :
    (k : String) (fs : Fields)
    → IsDictFields fs
    → lookup k (without_nulls_fields fs) ≡ stripped (lookup k fs)
unfolding without_nulls IsDict
lookup-without_nulls k done h = refl
lookup-without_nulls k (field j v fs) h =
    ground (arith, str_eq_iff j k, lookup-without_nulls_none k fs, lookup-without_nulls k fs h.2)

mutual
  unfolding without_nulls IsDict

  keeps_IsDict : (v : Json) → IsDict v → IsDict (without_nulls v)
  keeps_IsDict null h = h
  keeps_IsDict (bool b) h = h
  keeps_IsDict (num m k) h = h
  keeps_IsDict (str s) h = h
  keeps_IsDict (arr xs) h = keeps_items xs h
  keeps_IsDict (obj fs) h = keeps_fields fs h

  keeps_items : (xs : Items) → IsDictItems xs → IsDictItems (without_nulls_items xs)
  keeps_items nil h = h
  keeps_items (cons x xs) h = (keeps_IsDict x h.0, keeps_items xs h.1)

  keeps_fields : (fs : Fields) → IsDictFields fs → IsDictFields (without_nulls_fields fs)
  keeps_fields done h = h
  keeps_fields (field k null fs) h = keeps_fields fs h.2
  keeps_fields (field k (bool b) fs) h =
      (lookup-without_nulls_none k fs h.0, tt, keeps_fields fs h.2)
  keeps_fields (field k (num m j) fs) h =
      (lookup-without_nulls_none k fs h.0, tt, keeps_fields fs h.2)
  keeps_fields (field k (str s) fs) h =
      (lookup-without_nulls_none k fs h.0, tt, keeps_fields fs h.2)
  keeps_fields (field k (arr xs) fs) h =
      (lookup-without_nulls_none k fs h.0, keeps_items xs h.1, keeps_fields fs h.2)
  keeps_fields (field k (obj gs) fs) h =
      (lookup-without_nulls_none k fs h.0, keeps_fields gs h.1, keeps_fields fs h.2)

pub without_nulls-IsDict : (v : Json) → IsDict v → IsDict (without_nulls v)
without_nulls-IsDict v h = keeps_IsDict v h

pub count-without_nulls : (xs : Items) → count (without_nulls_items xs) ≡ count xs
unfolding without_nulls
count-without_nulls nil = refl
count-without_nulls (cons x xs) = cc (count-without_nulls xs)

-- Stripping a value a second time changes nothing.
pub without_nulls_idem : (v : Json) → without_nulls (without_nulls v) ≡ without_nulls v
without_nulls_idem v = idem v
