-- ===== src/Settings/Collation.antt =====
-- What the statements of collector/settings.py rely on in the database: how it compares the names of
-- the rows of `lux_settings`. The collation of the column belongs to the database, and in the one that
-- scripts/install.sh creates it does not tell upper case from lower case.
use Prim.Native.String.{String}
use lux_mon.Base.{
  ◌≡◌, refl, List, [], ◌∷◌, Bool, true, false, Option, none, some, if◌then◌else◌, Bool-cases, inl,
  inr, All,
}
use text.Mathlib.Text.{◌==◌ as str_eq}
use lux_mon.Base.Dict.{lookup_str}

-- Names that compare as equal: an equivalence.
pub record Collation : Type 0 where
  pub same : String → String → Bool
  pub same_refl : (k : String) → same k k ≡ true
  pub same_sym : (j k : String) → same j k ≡ true → same k j ≡ true
  pub same_trans : (i j k : String) → same i j ≡ true → same j k ≡ true → same i k ≡ true

abbrev pub Rows : Type 0
Rows = List (String × Option String)

-- `SELECT value … WHERE name = %s`
unfoldable pub row_of : Collation → String → Rows → Option (Option String)
row_of c k [] = none
row_of c k ((j, v) ∷ rows) = if c.same j k then some v else row_of c k rows

-- The insertion of a row, or the update of the row whose name compares as equal, which keeps its name.
unfoldable pub set_row : Collation → String → Option String → Rows → Rows
set_row c k v [] = (k, v) ∷ []
set_row c k v ((j, w) ∷ rows) =
    let rest = set_row c k v rows in if c.same j k then (j, v) ∷ rows else (j, w) ∷ rest

module _ (c : Collation) where
  same-≡ : (i j k : String) → c.same j k ≡ true → c.same i j ≡ c.same i k
  same-≡ i j k h = elim (Bool-cases (c.same i j)) [
    | inl t ↦ rw (t, c.same_trans i j k t h) refl
    | inr f ↦ elim (Bool-cases (c.same i k)) [
      | inl t ↦ absurd (clash (c.same i j) f (c.same_trans i k j t (c.same_sym j k h)))
      | inr g ↦ rw (f, g) refl
    ]
  ]
    where
      clash : (b : Bool) → b ≡ false → b ≡ true → ⊥
      clash b f t = cc

  -- Names that compare as equal have the same row.
  pub row_of-same :
      (j k : String) (rows : Rows) → c.same j k ≡ true → row_of c j rows ≡ row_of c k rows
  unfolding row_of
  row_of-same j k [] h = refl
  row_of-same j k ((i, v) ∷ rows) h = rw (same-≡ i j k h, row_of-same j k rows h) refl

  pub row_of-set_row_self :
      (k : String) (v : Option String) (rows : Rows) → row_of c k (set_row c k v rows) ≡ some v
  unfolding row_of set_row
  row_of-set_row_self k v [] = rw (c.same_refl k) refl
  row_of-set_row_self k v ((j, w) ∷ rows) = elim (Bool-cases (c.same j k)) [
    | inl t ↦ rw (t, t) refl
    | inr f ↦ rw (f, f) (row_of-set_row_self k v rows)
  ]

  pub row_of-set_row_other :
      (k i : String) (v : Option String) (rows : Rows)
      → c.same k i ≡ false
      → row_of c i (set_row c k v rows) ≡ row_of c i rows
  unfolding row_of set_row
  row_of-set_row_other k i v [] h = rw h refl
  row_of-set_row_other k i v ((j, w) ∷ rows) h = elim (Bool-cases (c.same j k)) [
    | inl t ↦ let apart : c.same j i ≡ false = other (c.same j i) refl t in rw (t, apart) refl
    | inr f ↦ elim (Bool-cases (c.same j i)) [
      | inl t ↦ rw (f, t) refl
      | inr g ↦ rw (f, g) (row_of-set_row_other k i v rows h)
    ]
  ]
    where
      clash : (b : Bool) → b ≡ false → b ≡ true → ⊥
      clash b f t = cc

      other : (b : Bool) → c.same j i ≡ b → c.same j k ≡ true → b ≡ false
      other false e t = refl
      other true e t = absurd (clash (c.same k i) h (c.same_trans k j i (c.same_sym j k t) e))

  -- Where a name compares as equal to no other row's name, its row is the one of that very name.
  pub row_of-lookup_str :
      (name : String) (rows : Rows)
      → All (λ row. c.same row.0 name ≡ str_eq row.0 name) rows
      → row_of c name rows ≡ lookup_str name rows
  unfolding row_of lookup_str
  row_of-lookup_str name [] h = refl
  row_of-lookup_str name ((j, v) ∷ rows) (h, hs) = rw (h, row_of-lookup_str name rows hs) refl
