-- ===== src/Json/Equality.antt =====
-- Python's == on JSON values (`eq_json`) as a relation, and dicts with distinct keys.
use native.Mathlib.Nat.{mul-div_cancel, one-le-pow}
use spur_api.Base.{
  ℕ, ◌*◌, ◌/◌, sym, ap, ◌∙◌, ◌^◌, ◌<◌, String, ◌≡◌, refl, true, none, some, arith, str_eq,
  str_eq_iff, Bool-cases, Option-cases, inl, inr,
}
use spur_api.Base.Int.{ℤ, pos_part, neg_part}
use spur_api.Json.{
  Json, Items, Fields, null, bool, num, str, arr, obj, nil, cons, done, field, lookup, eq_json,
  eq_items, eq_fields, eq_number, same_number, bool_int,
}

-- The keys of every dict in the value are distinct, as Python's dicts ensure.
unfoldable mutual
  pub IsDict : Json → Type 0
  IsDict null = Unit
  IsDict (bool b) = Unit
  IsDict (num m k) = Unit
  IsDict (str s) = Unit
  IsDict (arr xs) = IsDictItems xs
  IsDict (obj fs) = IsDictFields fs

  pub IsDictItems : Items → Type 0
  IsDictItems nil = Unit
  IsDictItems (cons x xs) = IsDict x × IsDictItems xs

  pub IsDictFields : Fields → Type 0
  IsDictFields done = Unit
  IsDictFields (field k v fs) = (lookup k fs ≡ none) × IsDict v × IsDictFields fs

-- A key that is missing from the first dict can be added in front of the second.
eq_fields-skip :
    (gs fs : Fields) (k : String) (v : Json)
    → lookup k gs ≡ none
    → eq_fields gs (field k v fs) ≡ eq_fields gs fs
unfolding eq_json
eq_fields-skip done fs k v h = refl
eq_fields-skip (field j w gs) fs k v h =
    ground (arith, str_eq_iff j k, str_eq_iff k j, eq_fields-skip gs fs k v)

mutual
  unfolding eq_json IsDict

  eq_json_refl' : (v : Json) → IsDict v → eq_json v v ≡ true
  eq_json_refl' null h = refl
  eq_json_refl' (bool b) h = ground arith
  eq_json_refl' (num m k) h = ground arith
  eq_json_refl' (str s) h = ground (arith, str_eq_iff s s)
  eq_json_refl' (arr xs) h = eq_items_refl' xs h
  eq_json_refl' (obj fs) h = ground (arith, eq_fields_refl' fs h)

  eq_items_refl' : (xs : Items) → IsDictItems xs → eq_items xs xs ≡ true
  eq_items_refl' nil h = refl
  eq_items_refl' (cons x xs) h = ground (arith, eq_json_refl' x h.0, eq_items_refl' xs h.1)

  eq_fields_refl' : (fs : Fields) → IsDictFields fs → eq_fields fs fs ≡ true
  eq_fields_refl' done h = refl
  eq_fields_refl' (field k v fs) h = ground (
    arith,
    str_eq_iff k k,
    eq_fields-skip fs fs k v h.0,
    eq_json_refl' v h.1,
    eq_fields_refl' fs h.2,
  )

-- Every key of the first dict is found in an equal one, with an equal value.
lookup-eq_fields :
    (gs hs : Fields) (k : String) {w : Json}
    → eq_fields gs hs ≡ true
    → lookup k gs ≡ some w
    → (u : Json) × (lookup k hs ≡ some u) × (eq_json w u ≡ true)
unfolding eq_json
lookup-eq_fields done hs k h e = cc
lookup-eq_fields (field j v gs) hs k h e = elim (Bool-cases (str_eq j k)) [
  | inl same ↦ elim (Option-cases (lookup j hs)) [
    | inl missing ↦ ground arith
    | inr (u, found) ↦ (u, ground (arith, str_eq_iff j k), ground arith)
  ]
  | inr other ↦ lookup-eq_fields gs hs k (ground arith) (ground arith)
]

cancel_factor : (x y q : ℕ) → 0 < q → x * q ≡ y * q → x ≡ y
cancel_factor x y q p h = sym (mul-div_cancel x p) ∙ ap (λ (t : ℕ). t / q) h ∙ mul-div_cancel y p

-- a/p = b/q and b/q = c/r give a/p = c/r
fraction_trans : (a b c p q r : ℕ) → 0 < q → a * q ≡ b * p → b * r ≡ c * q → a * r ≡ c * p
fraction_trans a b c p q r positive h k =
    cancel_factor (a * r) (c * p) q positive
      (omega (arith, ap (λ (t : ℕ). t * r) h, ap (λ (t : ℕ). t * p) k))

same_number_trans :
    (m : ℤ) (k : ℕ) (m' : ℤ) (k' : ℕ) (n : ℤ) (j : ℕ)
    → same_number m k m' k' ≡ true
    → same_number m' k' n j ≡ true
    → same_number m k n j ≡ true
same_number_trans m k m' k' n j h g =
    let positive : 0 < 2 ^ k' = one-le-pow k' 2 (omega arith) in
    ground (
      arith,
      fraction_trans (pos_part m) (pos_part m') (pos_part n) (2 ^ k) (2 ^ k') (2 ^ j) positive,
      fraction_trans (neg_part m) (neg_part m') (neg_part n) (2 ^ k) (2 ^ k') (2 ^ j) positive,
    )

eq_number_trans :
    (m : ℤ) (k : ℕ) (w u : Json)
    → eq_number m k w ≡ true
    → eq_json w u ≡ true
    → eq_number m k u ≡ true
unfolding eq_json
eq_number_trans m k (bool b) (bool c) h g = same_number_trans m k (bool_int b) 0 (bool_int c) 0 h g
eq_number_trans m k (bool b) (num n j) h g = same_number_trans m k (bool_int b) 0 n j h g
eq_number_trans m k (num m' k') (bool c) h g = same_number_trans m k m' k' (bool_int c) 0 h g
eq_number_trans m k (num m' k') (num n j) h g = same_number_trans m k m' k' n j h g
eq_number_trans m k _ _ h g = cc

mutual
  unfolding eq_json

  eq_json_trans' : (v w u : Json) → eq_json v w ≡ true → eq_json w u ≡ true → eq_json v u ≡ true
  eq_json_trans' null null u h g = g
  eq_json_trans' (bool b) w u h g = eq_number_trans (bool_int b) 0 w u h g
  eq_json_trans' (num m k) w u h g = eq_number_trans m k w u h g
  eq_json_trans' (str s) (str t) (str r) h g =
      ground (arith, str_eq_iff s t, str_eq_iff t r, str_eq_iff s r)
  eq_json_trans' (arr xs) (arr ys) (arr zs) h g = eq_items_trans' xs ys zs h g
  eq_json_trans' (obj fs) (obj gs) (obj hs) h g = ground (arith, eq_fields_trans' fs gs hs)
  eq_json_trans' _ _ _ h g = cc

  eq_items_trans' :
      (xs ys zs : Items) → eq_items xs ys ≡ true → eq_items ys zs ≡ true → eq_items xs zs ≡ true
  eq_items_trans' nil nil zs h g = g
  eq_items_trans' (cons x xs) (cons y ys) (cons z zs) h g =
      ground (arith, eq_json_trans' x y z, eq_items_trans' xs ys zs)
  eq_items_trans' _ _ _ h g = cc

  eq_fields_trans' :
      (fs gs hs : Fields) → eq_fields fs gs ≡ true → eq_fields gs hs ≡ true → eq_fields fs hs ≡ true
  eq_fields_trans' done gs hs h g = refl
  eq_fields_trans' (field k v fs) gs hs h g = elim (Option-cases (lookup k gs)) [
    | inl missing ↦ ground arith
    | inr (w, found) ↦
        let (u, there, same) = lookup-eq_fields gs hs k g found in
        ground (arith, eq_json_trans' v w u, eq_fields_trans' fs gs hs)
  ]

-- Python's == holds between a JSON value and itself, if its dicts have distinct keys.
pub eq_json_refl : (v : Json) → IsDict v → eq_json v v ≡ true
eq_json_refl v h = eq_json_refl' v h

-- Python's == on JSON values is transitive, across True, 1 and 1.0 and whatever the order of keys.
pub eq_json_trans : (v w u : Json) → eq_json v w ≡ true → eq_json w u ≡ true → eq_json v u ≡ true
eq_json_trans v w u h g = eq_json_trans' v w u h g
