-- ===== src/Settings/Store/Kept.antt =====
-- Seeding the settings keeps what is there.
use Prim.Native.String.{String}
use text.Mathlib.Text.{◌==◌ as str_eq}
use lux_mon.Base.{
  ◌≡◌, refl, sym, ◌∙◌, List, [], ◌∷◌, Bool, true, false, Option, none, some, Bool-cases, All, inl,
  inr,
}
use lux_mon.Settings.Collation.{
  Collation, Rows, row_of, row_of-same, row_of-set_row_self, row_of-set_row_other,
}
use lux_mon.Settings.Tables.{defaults}
use lux_mon.Settings.Store.{Db, insert_ignore, seed_rows, seed_defaults}

none-some : (v : Option String) → none ≡ some v → ⊥
none-some v e = cc

module _ (c : Collation) where
  -- Seeding the defaults keeps every row that is there.
  seed_rows-some :
      (d : List (String × String)) (rows : Rows) (name : String) (v : Option String)
      → row_of c name rows ≡ some v
      → row_of c name (seed_rows c d rows).0 ≡ some v
  unfolding seed_rows
  seed_rows-some [] rows name v h = h
  seed_rows-some ((k, value) ∷ d) rows name v h =
      seed_rows-some d _ name v (kept (row_of c k rows) refl)
    where
      kept :
          (o : Option (Option String))
          → row_of c k rows ≡ o
          → row_of c name (insert_ignore c k value o rows).0 ≡ some v
      kept (some old) e = h
      kept none e = elim (Bool-cases (c.same k name)) [
        | inl t ↦ absurd (none-some v (sym e ∙ row_of-same c k name rows t ∙ h))
        | inr f ↦ row_of-set_row_other c k name (some value) rows f ∙ h
      ]

  seed_rows-key :
      (d : List (String × String)) (rows : Rows) (k value : String)
      → (v : Option String) × (row_of c k (seed_rows c ((k, value) ∷ d) rows).0 ≡ some v)
  unfolding seed_rows
  seed_rows-key d rows k value = kept (row_of c k rows) refl
    where
      kept :
          (o : Option (Option String))
          → row_of c k rows ≡ o
          → (v : Option String) × (row_of c k (seed_rows c d (insert_ignore c k value o rows).0).0
              ≡ some v)
      kept (some old) e = (old, seed_rows-some d rows k old e)
      kept none e = (
        some value,
        seed_rows-some d _ k (some value) (row_of-set_row_self c k (some value) rows),
      )

  -- A table that has all the names of a list of defaults.
  abbrev pub Covers : Rows → List (String × String) → Type 0
  Covers rows = All (λ d. (v : Option String) × (row_of c d.0 rows ≡ some v))

  Covers-seed_rows :
      (d e : List (String × String)) (rows : Rows) → Covers rows d → Covers (seed_rows c e rows).0 d
  Covers-seed_rows [] e rows h = tt
  Covers-seed_rows (x ∷ d) e rows (h, hs) =
      ((h.0, seed_rows-some e rows x.0 h.0 h.1), Covers-seed_rows d e rows hs)

  seed_rows-Covers : (d : List (String × String)) (rows : Rows) → Covers (seed_rows c d rows).0 d
  unfolding seed_rows
  seed_rows-Covers [] rows = tt
  seed_rows-Covers ((k, value) ∷ d) rows = (seed_rows-key d rows k value, seed_rows-Covers d _)

  seed_rows-covered :
      (d : List (String × String)) (rows : Rows) → Covers rows d → seed_rows c d rows ≡ (rows, 0)
  unfolding seed_rows
  seed_rows-covered [] rows h = refl
  seed_rows-covered ((k, value) ∷ d) rows (h, hs) = rw (h.1, seed_rows-covered d rows hs) refl

-- Seeding the defaults keeps the value of every row, an empty or NULL one included, and after it every
-- setting has a row: seeding once more inserts nothing.
pub seed_defaults-twice :
    (db : Db) (name : String) (v : Option String)
    → row_of db.collation name db.rows ≡ some v
    → (row_of db.collation name (seed_defaults db).0.rows ≡ some v)
      × (seed_defaults (seed_defaults db).0 ≡ ((seed_defaults db).0, 0))
unfolding seed_defaults
seed_defaults-twice db name v h = seeded db.working db.rows h
  where
    c : Collation
    c = db.collation

    seeded :
        (b : Bool) (rows : Rows)
        → row_of c name rows ≡ some v
        → let db : Db = record { working = b; collation = c; rows = rows } in
          (row_of c name (seed_defaults db).0.rows ≡ some v)
          × (seed_defaults (seed_defaults db).0 ≡ ((seed_defaults db).0, 0))
    seeded false rows h = (h, refl)
    seeded true rows h =
        let covered =
          seed_rows-covered c defaults (seed_rows c defaults rows).0
            (seed_rows-Covers c defaults rows) in
        (seed_rows-some c defaults rows name v h, rw covered refl)
