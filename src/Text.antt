-- ===== src/Text.antt =====
-- What the service uses of Python's `str`: `strip` and `int`.
use Prim.Native.Char.{Char, code}
use spur_api.Base.{
  ℕ, suc, zero, ◌+◌, ◌-◌, ◌*◌, ◌≡◌, refl, ap, ◌∙◌, Bool, true, false, ◌&&◌, ◌||◌, String, Option,
  none, some, leb, ◌==◌, if◌then◌else◌, arith, Bool-cases, inl, inr,
}
use spur_api.Base.Int.{ℤ, pos, negsuc}

-- `str.isspace` of one character
unfoldable pub is_space : Char → Bool
is_space c =
    let n = code c in
    (leb 9 n && leb n 13)
    || (leb 28 n && leb n 32)
    || (n == 133)
    || (n == 160)
    || (n == 5760)
    || (leb 8192 n && leb n 8202)
    || (n == 8232)
    || (n == 8233)
    || (n == 8239)
    || (n == 8287)
    || (n == 12288)

abbrev pub is_empty : String → Bool
is_empty String.[] = true
is_empty (String.◌∷◌ c s) = false

module _ (drops : Char → Bool) where
  unfoldable pub left_strip : String → String
  left_strip String.[] = String.[]
  left_strip (String.◌∷◌ c s) = if drops c then left_strip s else String.◌∷◌ c s

  abbrev pub put : Char → String → String
  put c rest = if drops c && is_empty rest then String.[] else String.◌∷◌ c rest

  unfoldable pub right_strip : String → String
  right_strip String.[] = String.[]
  right_strip (String.◌∷◌ c s) = put c (right_strip s)

  -- `s.strip(chars)`
  unfoldable pub strip_of : String → String
  unfolding left_strip right_strip
  strip_of s = right_strip (left_strip s)

  right_strip_idem : (s : String) → right_strip (right_strip s) ≡ right_strip s
  unfolding right_strip
  right_strip_idem String.[] = refl
  right_strip_idem (String.◌∷◌ c s) = elim (Bool-cases (drops c)) [
    | inl space ↦ elim (Bool-cases (is_empty (right_strip s))) [
      | inl blank ↦ rw (space, blank) refl
      | inr more ↦ ground (arith, right_strip_idem s)
    ]
    | inr other ↦ ground (arith, right_strip_idem s)
  ]

  left_strip-right_strip :
      (s : String) → left_strip (right_strip (left_strip s)) ≡ right_strip (left_strip s)
  unfolding left_strip right_strip
  left_strip-right_strip String.[] = refl
  left_strip-right_strip (String.◌∷◌ c s) = elim (Bool-cases (drops c)) [
    | inl space ↦ ground (arith, left_strip-right_strip s)
    | inr other ↦ ground arith
  ]

  pub strip_of_idem : (s : String) → strip_of (strip_of s) ≡ strip_of s
  unfolding strip_of
  strip_of_idem s = ap right_strip (left_strip-right_strip s) ∙ right_strip_idem (left_strip s)

  -- A text without the characters that are dropped.
  abbrev pub KeepsAll : String → Type 0
  KeepsAll String.[] = Unit
  KeepsAll (String.◌∷◌ c s) = (drops c ≡ false) × KeepsAll s

  right_strip_same : (s : String) → KeepsAll s → right_strip s ≡ s
  unfolding right_strip
  right_strip_same String.[] h = refl
  right_strip_same (String.◌∷◌ c s) h = ground (arith, h.0, right_strip_same s h.1)

  left_strip_same : (s : String) → KeepsAll s → left_strip s ≡ s
  unfolding left_strip
  left_strip_same String.[] h = refl
  left_strip_same (String.◌∷◌ c s) h = rw h.0 refl

  pub strip_of_same : (s : String) → KeepsAll s → strip_of s ≡ s
  unfolding strip_of
  strip_of_same s h = ap right_strip (left_strip_same s h) ∙ right_strip_same s h

-- `s.strip()`
abbrev pub strip : String → String
strip s = strip_of is_space s

pub data CharKind : Type 0 where
  digit : ℕ → CharKind
  underscore other : CharKind

abbrev pub is_digit : Char → Bool
is_digit c = leb 48 (code c) && leb (code c) 57

abbrev pub kind_of : Char → CharKind
kind_of c = if is_digit c then digit (code c - 48) else (if code c == 95 then underscore else other)

-- The digits of an int, with underscores between them; the Boolean tells that a digit came last.
unfoldable pub read_digits : ℕ → Bool → String → Option ℕ
read_digits value after String.[] = if after then some value else none
read_digits value after (String.◌∷◌ c s) = elim (kind_of c) [
  | digit d ↦ read_digits (value * 10 + d) true s
  | underscore ↦ elim after [ true ↦ read_digits value false s | false ↦ none ]
  | other ↦ none
]

abbrev pub positive : Option ℕ → Option ℤ
positive none = none
positive (some n) = some (pos n)

abbrev pub negative : Option ℕ → Option ℤ
negative none = none
negative (some zero) = some (pos 0)
negative (some (suc n)) = some (negsuc n)

-- `int(s)` of a stripped text; `none` is the ValueError.
unfoldable pub read_signed : String → Option ℤ
unfolding read_digits
read_signed String.[] = none
read_signed (String.◌∷◌ c s) =
    if code c == 43
    then positive (read_digits 0 false s)
    else (if code c == 45
        then negative (read_digits 0 false s)
        else positive (read_digits 0 false (String.◌∷◌ c s)))
