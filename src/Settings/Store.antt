-- ===== src/Settings/Store.antt =====
-- The operations of collector/settings.py on the table `lux_settings`. A value that is NULL is none. A
-- connection on which every statement fails has `working` false; one that fails between two
-- statements of the same operation is not modelled.
pub mod Seed
pub mod Kept
use Prim.Native.String.{String}
use text.Mathlib.Text.{◌==◌ as str_eq}
use lux_mon.Base.{
  ℕ, ◌+◌, List, [], ◌∷◌, Bool, true, false, ◌&&◌, ◌||◌, not, Option, none, some, if◌then◌else◌,
}
use lux_mon.Base.Dict.{lookup_str, assign}
use lux_mon.Settings.Collation.{Collation, Rows, row_of, set_row}
use lux_mon.Settings.Tables.{Cast, setting_env, defaults}

pub record Db : Type 0 where
  pub working : Bool
  pub collation : Collation
  pub rows : Rows

-- What `os.environ.get` returns.
abbrev pub Environ : Type 0
Environ = String → Option String

-- The value that `_cast_env` makes of a text: `int` and `float` of it, the text itself where they raise,
-- or whether it is one of the words for true.
pub data EnvValue : Type 0 where
  env_text env_int env_float env_bool : String → EnvValue
  from_db from_default : String → EnvValue

abbrev pub cast_env : String → Cast → EnvValue
cast_env value Cast.as_text = env_text value
cast_env value Cast.as_int = env_int value
cast_env value Cast.as_float = env_float value
cast_env value Cast.as_bool = env_bool value

-- `value is not None and value != ""`
abbrev pub nonempty : Option String → Option String
nonempty none = none
nonempty (some s) = if str_eq s "" then none else some s

abbrev pub or_empty : Option String → String
or_empty none = ""
or_empty (some s) = s

abbrev pub stored_or_default : String → Option String → EnvValue
stored_or_default name none = from_default (or_empty (lookup_str name defaults))
stored_or_default name (some s) = from_db s

abbrev pub env_raw : Environ → Option (String × Cast) → Option (String × Cast)
env_raw environ none = none
env_raw environ (some (env_var, cast)) = elim (nonempty (environ env_var)) [
  | none ↦ none
  | some raw ↦ some (raw, cast)
]

-- `effective_value`
unfoldable pub effective_value : Environ → String → Option String → EnvValue
effective_value environ name db_value = elim (env_raw environ (lookup_str name setting_env)) [
  | some (raw, cast) ↦ cast_env raw cast
  | none ↦ stored_or_default name (nonempty db_value)
]

-- `dict(DEFAULTS)`, and the rows over it.
unfoldable pub as_values : List (String × String) → List (String × Option String)
as_values [] = []
as_values ((name, value) ∷ d) = (name, some value) ∷ as_values d

unfoldable pub overlay :
    List (String × Option String) → List (String × Option String) → List (String × Option String)
overlay [] settings = settings
overlay ((name, value) ∷ rows) settings = overlay rows (assign name value settings)

-- `get_all`
unfoldable pub get_all : Db → List (String × Option String)
get_all db = if db.working then overlay db.rows (as_values defaults) else as_values defaults

-- `get`: the value of the row, which may be NULL, or else the default.
abbrev pub row_or : Option String → Option (Option String) → Option String
row_or default none = default
row_or default (some value) = value

unfoldable pub get : Db → String → Option String
get db name =
    if db.working
    then row_or (lookup_str name defaults) (row_of db.collation name db.rows)
    else lookup_str name defaults

-- `set_`: what fails is only logged.
unfoldable pub set_setting : String → String → Db → Db
set_setting name value db =
    if db.working then record db { rows = set_row db.collation name (some value) db.rows } else db

-- `INSERT IGNORE`, with its `rowcount`.
abbrev pub insert_ignore : Collation → String → String → Option (Option String) → Rows → Rows × ℕ
insert_ignore c name value none rows = (set_row c name (some value) rows, 1)
insert_ignore c name value (some old) rows = (rows, 0)

unfoldable pub seed_rows : Collation → List (String × String) → Rows → Rows × ℕ
seed_rows c [] rows = (rows, 0)
seed_rows c ((name, value) ∷ d) rows =
    let (rows', n) = insert_ignore c name value (row_of c name rows) rows in
    let (rows'', m) = seed_rows c d rows' in (rows'', n + m)

-- `seed_defaults`
unfoldable pub seed_defaults : Db → Db × ℕ
seed_defaults db =
    let r = seed_rows db.collation defaults db.rows in
    if db.working then (record db { rows = r.0 }, r.1) else (db, 0)

-- `ON DUPLICATE KEY UPDATE value = IF(value = '' OR value IS NULL, VALUES(value), value)`
abbrev pub fill_row : String → Option (Option String) → Option String
fill_row raw none = some raw
fill_row raw (some none) = some raw
fill_row raw (some (some old)) = if str_eq old "" then some raw else some old

unfoldable pub fill_rows : Collation → Environ → List (String × (String × Cast)) → Rows → Rows
fill_rows c environ [] rows = rows
fill_rows c environ ((name, (env_var, cast)) ∷ env) rows =
    fill_rows c environ env (elim (nonempty (environ env_var)) [
      | none ↦ rows
      | some raw ↦ set_row c name (fill_row raw (row_of c name rows)) rows
    ])

-- `seed_from_env`, less the count that it returns.
unfoldable pub seed_from_env : Environ → Db → Db
seed_from_env environ db =
    if db.working
    then record db { rows = fill_rows db.collation environ setting_env db.rows }
    else db
