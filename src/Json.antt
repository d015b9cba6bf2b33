-- ===== src/Json.antt =====
-- JSON values as Python holds them (the `spec` column of spur_api/db/models.py), with Python's `==`.
pub mod Equality
pub mod Nulls
use spur_api.Base.{
  ℕ, zero, suc, ◌*◌, ◌^◌, String, ◌≡◌, Bool, true, false, ◌&&◌, Option, none, some, ◌==◌, str_eq,
  if◌then◌else◌,
}
use spur_api.Base.Int.{ℤ, pos, pos_part, neg_part}

-- `num m k` is the number m / 2^k: an int (k = 0) or a finite float, all of which have this form.
-- A dict is its items in insertion order; its keys are distinct (`IsDict` of Json/Equality).
mutual
  pub data Json : Type 0 where
    null : Json
    bool : Bool → Json
    num : ℤ → ℕ → Json
    str : String → Json
    arr : Items → Json
    obj : Fields → Json

  pub data Items : Type 0 where
    nil : Items
    cons : Json → Items → Items

  pub data Fields : Type 0 where
    done : Fields
    field : String → Json → Fields → Fields

-- d.get(k), where `none` stands for Python's None only if the key is missing
abbrev pub lookup : String → Fields → Option Json
lookup k done = none
lookup k (field j v fs) = if str_eq j k then some v else lookup k fs

-- len(d)
abbrev pub size : Fields → ℕ
size done = 0
size (field k v fs) = suc (size fs)

-- len(xs)
abbrev pub count : Items → ℕ
count nil = 0
count (cons x xs) = suc (count xs)

-- `value is None`
abbrev pub is_null : Json → Bool
is_null null = true
is_null _ = false

-- True == 1 and False == 0
abbrev pub bool_int : Bool → ℤ
bool_int false = pos 0
bool_int true = pos 1

-- m / 2^k == m' / 2^k', compared on each side of zero
abbrev pub same_number : ℤ → ℕ → ℤ → ℕ → Bool
same_number m k m' k' =
    pos_part m * 2 ^ k' == pos_part m' * 2 ^ k && neg_part m * 2 ^ k' == neg_part m' * 2 ^ k

abbrev pub eq_number : ℤ → ℕ → Json → Bool
eq_number m k (bool b) = same_number m k (bool_int b) 0
eq_number m k (num m' k') = same_number m k m' k'
eq_number m k _ = false

abbrev pub eq_string : String → Json → Bool
eq_string s (str t) = str_eq s t
eq_string s _ = false

abbrev pub all_in : (Json → Bool) → Option Json → Bool
all_in test none = false
all_in test (some v) = test v

-- Python's ==. Two dicts are equal if they are as long and each item of the first is in the second.
unfoldable mutual
  pub eq_json : Json → Json → Bool
  eq_json null w = is_null w
  eq_json (bool b) w = eq_number (bool_int b) 0 w
  eq_json (num m k) w = eq_number m k w
  eq_json (str s) w = eq_string s w
  eq_json (arr xs) w = elim w [ arr ys ↦ eq_items xs ys | _ ↦ false ]
  eq_json (obj fs) w = elim w [ obj gs ↦ size fs == size gs && eq_fields fs gs | _ ↦ false ]

  pub eq_items : Items → Items → Bool
  eq_items nil ys = elim ys [ nil ↦ true | cons _ _ ↦ false ]
  eq_items (cons x xs) ys = elim ys [ nil ↦ false | cons y ys' ↦ eq_json x y && eq_items xs ys' ]

  pub eq_fields : Fields → Fields → Bool
  eq_fields done gs = true
  eq_fields (field k v fs) gs = all_in (eq_json v) (lookup k gs) && eq_fields fs gs
