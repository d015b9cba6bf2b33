-- ===== src/Api/IfMatch.antt =====
-- `_version_from` of spur_api/routers/projects.py: the version in an `If-Match` header.
use Prim.Native.Char.{Char, code}
use spur_api.Base.{
  ℕ, ◌+◌, ◌-◌, ◌*◌, ◌≡◌, refl, Bool, true, false, String, Option, none, some, ◌==◌, arith,
}
use spur_api.Base.Int.{ℤ, pos}
use spur_api.Text.{
  is_space, strip, strip_of, strip_of_same, KeepsAll, left_strip, right_strip, is_digit,
  read_digits, read_signed,
}

abbrev pub is_quote : Char → Bool
is_quote c = code c == 34

-- What `_version_from` returns: no version, a version, or the 400.
pub data Version : Type 0 where
  version : Option ℤ → Version
  bad_version : Version

abbrev pub or_bad : Option ℤ → Version
or_bad none = bad_version
or_bad (some v) = version (some v)

-- `int(if_match.strip().strip('"'))`, where `int` strips again
unfoldable pub version_from : Option String → Version
version_from none = version none
version_from (some if_match) = or_bad (read_signed (strip (strip_of is_quote (strip if_match))))

-- A number written with digits, and the number.
abbrev pub IsDigits : String → Type 0
IsDigits String.[] = Unit
IsDigits (String.◌∷◌ c s) = (is_digit c ≡ true) × IsDigits s

abbrev pub IsNumeral : String → Type 0
IsNumeral String.[] = ⊥
IsNumeral (String.◌∷◌ c s) = (is_digit c ≡ true) × IsDigits s

unfoldable pub value_of : ℕ → String → ℕ
value_of n String.[] = n
value_of n (String.◌∷◌ c s) = value_of (n * 10 + (code c - 48)) s

-- `s` and then `c`; `s` in quotes
abbrev pub then_char : String → Char → String
then_char String.[] c = String.◌∷◌ c String.[]
then_char (String.◌∷◌ a s) c = String.◌∷◌ a (then_char s c)

abbrev pub quote : Char
quote = "\""

abbrev pub quoted : String → String
quoted s = String.◌∷◌ quote (then_char s quote)

digit-no_space : (c : Char) → is_digit c ≡ true → is_space c ≡ false
unfolding is_space
digit-no_space c h = ground arith

IsDigits-KeepsAll :
    (drops : Char → Bool) (s : String)
    → ((c : Char) → is_digit c ≡ true → drops c ≡ false)
    → IsDigits s
    → KeepsAll drops s
IsDigits-KeepsAll drops String.[] spared h = tt
IsDigits-KeepsAll drops (String.◌∷◌ c s) spared h =
    (spared c h.0, IsDigits-KeepsAll drops s spared h.1)

then_quote-KeepsAll : (s : String) → IsDigits s → KeepsAll is_space (then_char s quote)
then_quote-KeepsAll String.[] h = (unfold is_space in refl, tt)
then_quote-KeepsAll (String.◌∷◌ c s) h = (digit-no_space c h.0, then_quote-KeepsAll s h.1)

right_strip-then_quote : (s : String) → IsDigits s → right_strip is_quote (then_char s quote) ≡ s
unfolding right_strip
right_strip-then_quote String.[] h = refl
right_strip-then_quote (String.◌∷◌ c s) h =
    let no_quote : is_quote c ≡ false = ground (arith, h.0) in
    ground (arith, no_quote, right_strip-then_quote s h.1)

strip_of-quoted : (s : String) → IsNumeral s → strip_of is_quote (quoted s) ≡ s
unfolding strip_of left_strip
strip_of-quoted String.[] h = absurd h
strip_of-quoted (String.◌∷◌ c s) h =
    let no_quote : is_quote c ≡ false = ground (arith, h.0) in
    rw no_quote (right_strip-then_quote (String.◌∷◌ c s) h)

read_digits-value : (n : ℕ) (s : String) → IsDigits s → read_digits n true s ≡ some (value_of n s)
unfolding read_digits value_of
read_digits-value n String.[] h = refl
read_digits-value n (String.◌∷◌ c s) h =
    ground (arith, h.0, read_digits-value (n * 10 + (code c - 48)) s h.1)

read_signed-value : (s : String) → IsNumeral s → read_signed s ≡ some (pos (value_of 0 s))
unfolding read_signed read_digits value_of
read_signed-value String.[] h = absurd h
read_signed-value (String.◌∷◌ c s) h =
    ground (arith, h.0, read_digits-value (0 * 10 + (code c - 48)) s h.1)

-- A version written in digits, at least one, is read from If-Match the same bare and as a quoted
-- ETag, as the number that its digits write.
pub version_from_lem :
    (s : String)
    → IsNumeral s
    → (version_from (some s) ≡ version (some (pos (value_of 0 s))))
      × (version_from (some (quoted s)) ≡ version (some (pos (value_of 0 s))))
unfolding version_from
version_from_lem String.[] h = absurd h
version_from_lem (String.◌∷◌ c s) h =
    let t : String = String.◌∷◌ c s in
    let no_quotes : KeepsAll is_quote t = IsDigits-KeepsAll is_quote t (λ a d. ground arith) h in
    let no_spaces : KeepsAll is_space t = IsDigits-KeepsAll is_space t digit-no_space h in
    let trimmed = strip_of_same is_space t no_spaces in
    let read = read_signed-value t h in
    (
      rw (trimmed, strip_of_same is_quote t no_quotes, trimmed, read) refl,
      rw
          (
            strip_of_same is_space (quoted t) (unfold is_space in refl, then_quote-KeepsAll t h),
            strip_of-quoted t h,
            trimmed,
            read,
          )
          refl,
    )
