-- ===== src/Settings/Store/Seed.antt =====
-- Reading the settings, and seeding them.
use Prim.Native.String.{String}
use text.Mathlib.Text.{◌==◌ as str_eq}
use text.Mathlib.TextEquality.{eq_iff}
use lux_mon.Base.{
  ◌≡◌, refl, subst, List, [], ◌∷◌, Bool, true, false, Option, none, some, if◌then◌else◌, Bool-cases,
  All, inl, inr,
}
use lux_mon.Base.Dict.{lookup_str, assign, lookup-assign_self, lookup-assign_other}
use lux_mon.Settings.Collation.{row_of-lookup_str}
use lux_mon.Settings.Tables.{defaults}
use lux_mon.Settings.Store.{Db, as_values, overlay, get_all, row_or, get}

-- What a name has after an assignment, by whether it is the one assigned.
lookup-assign {ℓ} :
    {V : Type ℓ} (k name : String) (v : V) (d : List (String × V))
    → lookup_str name (assign k v d) ≡ (if str_eq k name then some v else lookup_str name d)
lookup-assign k name v d = elim (Bool-cases (str_eq k name)) [
  | inl t ↦ rw t (
      subst (λ i. lookup_str i (assign k v d) ≡ some v) ((eq_iff k name).0 t)
        (lookup-assign_self k v d))
  | inr f ↦ rw f (lookup-assign_other k name v d f)
]

-- A table has one row for a name at most.
abbrev pub DistinctNames : List (String × Option String) → Type 0
DistinctNames [] = Unit {0}
DistinctNames ((name, value) ∷ rows) = (lookup_str name rows ≡ none) × DistinctNames rows

-- The first of two values that is there.
abbrev pub first_of : Option (Option String) → Option (Option String) → Option (Option String)
first_of none b = b
first_of (some a) b = some a

lookup-overlay :
    (rows settings : List (String × Option String)) (name : String)
    → DistinctNames rows
    → lookup_str name (overlay rows settings)
      ≡ first_of (lookup_str name rows) (lookup_str name settings)
unfolding overlay lookup_str
lookup-overlay [] settings name h = refl
lookup-overlay ((k, v) ∷ rows) settings name (new, h) = elim (Bool-cases (str_eq k name)) [
  | inl t ↦
      let absent : lookup_str name rows ≡ none =
        subst (λ i. lookup_str i rows ≡ none) ((eq_iff k name).0 t) new in
      rw
        (
          lookup-overlay rows (assign k v settings) name h,
          absent,
          lookup-assign k name v settings,
          t,
        )
        refl
  | inr f ↦
      rw (lookup-overlay rows (assign k v settings) name h, lookup-assign k name v settings, f) refl
]

lookup-as_values :
    (d : List (String × String)) (name : String)
    → lookup_str name (as_values d)
      ≡ elim (lookup_str name d) [ none ↦ none | some v ↦ some (some v) ]
unfolding as_values lookup_str
lookup-as_values [] name = refl
lookup-as_values ((k, v) ∷ d) name = elim (Bool-cases (str_eq k name)) [
  | inl t ↦ rw t refl
  | inr f ↦ rw f (lookup-as_values d name)
]

-- `settings.get(name)` of a dictionary whose values may be None.
abbrev pub get_value : Option (Option String) → Option String
get_value none = none
get_value (some v) = v

-- Where the database takes no other row's name for equal to a setting's, the setting by itself has the
-- value that it has among all of them, whether the database works or not.
pub get-get_all :
    (db : Db) (name : String)
    → DistinctNames db.rows
    → All (λ row. db.collation.same row.0 name ≡ str_eq row.0 name) db.rows
    → get db name ≡ get_value (lookup_str name (get_all db))
unfolding get get_all
get-get_all db name h exact =
    rw (row_of-lookup_str db.collation name db.rows exact) (found db.working)
  where
    row :
        (o : Option (Option String)) (d : Option String)
        → row_or d o ≡ get_value (first_of o (elim d [ none ↦ none | some v ↦ some (some v) ]))
    row none none = refl
    row none (some v) = refl
    row (some v) d = refl

    alone : (d : Option String) → d ≡ get_value (elim d [ none ↦ none | some v ↦ some (some v) ])
    alone none = refl
    alone (some v) = refl

    found :
        (b : Bool)
        → (if b
            then row_or (lookup_str name defaults) (lookup_str name db.rows)
            else lookup_str name defaults)
          ≡ get_value (
              lookup_str name
                (if b then overlay db.rows (as_values defaults) else as_values defaults))
    found true =
        rw (lookup-overlay db.rows (as_values defaults) name h, lookup-as_values defaults name)
          (row (lookup_str name db.rows) (lookup_str name defaults))
    found false = rw (lookup-as_values defaults name) (alone (lookup_str name defaults))
