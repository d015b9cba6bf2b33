-- ===== src/Table/Laws.antt =====
-- What a lookup finds after each change of a table, and what the changes keep.
use spur_api.Base.{
  ℕ, none, some, List, [], ◌∷◌, map, ◌==◌, if◌then◌else◌, keep_if, ◌≡◌, refl, All, All-append,
  All-keep_if, arith, Bool-cases, inl, inr, Bool,
}
use spur_api.Table.{get, insert, replace, save, remove, IsKeyed}

module _ {A : Type 0} (key : A → ℕ) where
  pub key-get : (i : ℕ) (rows : List A) {r : A} → get key i rows ≡ some r → key r ≡ i
  unfolding get
  key-get i [] e = cc
  key-get i (x ∷ rows) {r} e = ground (arith, key-get i rows {r = r})

  pub All-get {κ} :
      (P : A → Type κ) (i : ℕ) (rows : List A) {r : A} → All P rows → get key i rows ≡ some r → P r
  unfolding get
  All-get P i [] h e = cc
  All-get P i (x ∷ rows) {r} h e = elim (Bool-cases (key x == i)) [
    | inl here ↦ let same : x ≡ r = ground arith in rw (← same) h.0
    | inr further ↦ All-get P i rows h.1 (ground arith)
  ]

  pub get-save :
      (j : ℕ) (r : A) (rows : List A)
      → get key j (save key r rows)
        ≡ elim (get key j rows) [ none ↦ none | some x ↦ some (replace key r x) ]
  unfolding get save
  get-save j r [] = refl
  get-save j r (x ∷ rows) = ground (arith, get-save j r rows)

  pub get-insert :
      (j : ℕ) (r : A) (rows : List A)
      → get key j (insert key r rows)
        ≡ elim (get key j rows) [ none ↦ if key r == j then some r else none | some x ↦ some x ]
  unfolding get insert
  get-insert j r [] = refl
  get-insert j r (x ∷ rows) = ground (arith, get-insert j r rows)

  pub get-remove :
      (i j : ℕ) (rows : List A)
      → get key j (remove key i rows) ≡ (if i == j then none else get key j rows)
  unfolding get remove
  get-remove i j [] = ground arith
  get-remove i j (x ∷ rows) = ground (arith, get-remove i j rows)

  -- A change of the rows that leaves the keys alone.
  pub get-map :
      (f : A → A) (j : ℕ) (rows : List A)
      → ((x : A) → key (f x) ≡ key x)
      → get key j (map f rows) ≡ elim (get key j rows) [ none ↦ none | some x ↦ some (f x) ]
  unfolding get
  get-map f j [] same = refl
  get-map f j (x ∷ rows) same = ground (arith, same x, get-map f j rows same)

  pub All-save {κ} :
      (P : A → Type κ) (r : A) (rows : List A) → P r → All P rows → All P (save key r rows)
  unfolding save
  All-save P r [] p h = h
  All-save P r (x ∷ rows) p h = elim (Bool-cases (key x == key r)) [
    | inl same ↦ rw same (p, All-save P r rows p h.1)
    | inr other ↦ rw other (h.0, All-save P r rows p h.1)
  ]

  pub All-insert {κ} :
      (P : A → Type κ) (r : A) (rows : List A) → P r → All P rows → All P (insert key r rows)
  unfolding insert
  All-insert P r rows p h = All-append P rows (r ∷ []) h (p, tt)

  pub All-remove {κ} :
      (P : A → Type κ) (i : ℕ) (rows : List A) → All P rows → All P (remove key i rows)
  unfolding remove
  All-remove P i rows h = All-keep_if P _ rows h

  -- A row that is dropped was not found by another's key.
  pub get-keep_if-none :
      (p : A → Bool) (j : ℕ) (rows : List A)
      → get key j rows ≡ none
      → get key j (keep_if p rows) ≡ none
  unfolding get
  get-keep_if-none p j [] h = refl
  get-keep_if-none p j (x ∷ rows) h = ground (arith, get-keep_if-none p j rows)

  pub IsKeyed-keep_if :
      (p : A → Bool) (rows : List A) → IsKeyed key rows → IsKeyed key (keep_if p rows)
  IsKeyed-keep_if p [] h = h
  IsKeyed-keep_if p (x ∷ rows) h = elim (Bool-cases (p x)) [
    | inl kept ↦ rw kept (get-keep_if-none p (key x) rows h.0, IsKeyed-keep_if p rows h.1)
    | inr dropped ↦ rw dropped (IsKeyed-keep_if p rows h.1)
  ]

  pub IsKeyed-map :
      (f : A → A) (rows : List A)
      → ((x : A) → key (f x) ≡ key x)
      → IsKeyed key rows
      → IsKeyed key (map f rows)
  IsKeyed-map f [] same h = h
  IsKeyed-map f (x ∷ rows) same h =
      (ground (arith, same x, get-map f (key x) rows same), IsKeyed-map f rows same h.1)

  pub IsKeyed-save : (r : A) (rows : List A) → IsKeyed key rows → IsKeyed key (save key r rows)
  unfolding save
  IsKeyed-save r rows h = IsKeyed-map (replace key r) rows (λ x. ground arith) h

  pub IsKeyed-insert :
      (r : A) (rows : List A)
      → get key (key r) rows ≡ none
      → IsKeyed key rows
      → IsKeyed key (insert key r rows)
  unfolding insert get
  IsKeyed-insert r [] new h = (refl, tt)
  IsKeyed-insert r (x ∷ rows) new h =
      (ground (arith, get-insert (key x) r rows), IsKeyed-insert r rows (ground arith) h.1)

pub ruleset table_laws = (get-save, get-insert, get-remove)
