-- ===== src/Registers/Pass.antt =====
-- A pass over the raw values: it stores what each register's entry says, under the entry's name.
use Prim.Native.String.{String}
use text.Mathlib.Text.{◌==◌ as str_eq}
use text.Mathlib.TextEquality.{eq_iff}
use lux_mon.Base.{
  ℕ, ◌≡◌, refl, sym, ap, ◌∙◌, true, false, Option, none, some, List, [], ◌∷◌, ◌==◌, ==_iff, arith,
  Bool-cases, inl, inr,
}
use lux_mon.Base.Dict.{lookup, lookup_str, DistinctKeys}
use lux_mon.Registers.{Reading, Result, set_item, store, pass}

str_eq_refl : (s : String) → str_eq s s ≡ true
str_eq_refl s = (eq_iff s s).1 refl

pub set_item-same : (k : String) (v : Reading) (r : Result) → lookup_str k (set_item k v r) ≡ some v
unfolding set_item lookup_str
set_item-same k v [] = rw (str_eq_refl k)
set_item-same k v ((j, x) ∷ r) = ground (arith, set_item-same k v r, str_eq_refl k)

pub set_item-other :
    (k n : String) (v : Reading) (r : Result)
    → str_eq k n ≡ false
    → lookup_str n (set_item k v r) ≡ lookup_str n r
unfolding set_item lookup_str
set_item-other k n v [] h = rw h
set_item-other k n v ((j, x) ∷ r) h = elim (Bool-cases (str_eq j k)) [
  | inl e ↦ let same : str_eq j n ≡ false = rw ((eq_iff j k).0 e) h in rw (e, same)
  | inr e ↦ ground (arith, e, set_item-other k n v r h)
]

-- An entry whose name it is, if any, comes from this register only.
abbrev pub Only : (ℕ → ℕ → Option (String × Reading)) → String → ℕ → Type 0
Only entry n reg =
    (j raw : ℕ) (k : String) (v : Reading)
    → entry j raw ≡ some (k, v)
    → (j == reg) ≡ false
    → str_eq k n ≡ false

pub store-other :
    (o : Option (String × Reading)) (n : String) (r : Result)
    → ((k : String) (v : Reading) → o ≡ some (k, v) → str_eq k n ≡ false)
    → lookup_str n (store o r) ≡ lookup_str n r
store-other none n r h = refl
store-other (some (k, v)) n r h = set_item-other k n v r (h k v refl)

-- A pass over values without the register leaves its name alone.
pub pass-other :
    (entry : ℕ → ℕ → Option (String × Reading)) (n : String) (reg : ℕ) (vs : List (ℕ × ℕ))
    (r : Result)
    → Only entry n reg
    → lookup reg vs ≡ none
    → lookup_str n (pass entry vs r) ≡ lookup_str n r
unfolding pass lookup
pass-other entry n reg [] r only h = refl
pass-other entry n reg ((j, raw) ∷ vs) r only h = elim (Bool-cases (j == reg)) [
  | inl e ↦ absurd (ground (arith, e))
  | inr e ↦
      pass-other entry n reg vs (store (entry j raw) r) only (ground (arith, e))
      ∙ store-other (entry j raw) n r (λ k v p. only j raw k v p e)
]

-- A pass stores what the register's entry says under its name.
pub pass-found :
    (entry : ℕ → ℕ → Option (String × Reading)) (n : String) (v : Reading) (reg raw : ℕ)
    (vs : List (ℕ × ℕ)) (r : Result)
    → Only entry n reg
    → DistinctKeys vs
    → lookup reg vs ≡ some raw
    → entry reg raw ≡ some (n, v)
    → lookup_str n (pass entry vs r) ≡ some v
unfolding pass lookup
pass-found entry n v reg raw [] r only d h e = cc
pass-found entry n v reg raw ((j, x) ∷ vs) r only (fresh, d) h e = elim (Bool-cases (j == reg)) [
  | inl t ↦
      let here : j ≡ reg = (==_iff j reg).0 t in
      let value : x ≡ raw = ground (arith, t) in
      let absent : lookup reg vs ≡ none = rw (sym here) fresh in
      let stored : entry j x ≡ some (n, v) = rw (here, value) e in
      pass-other entry n reg vs (store (entry j x) r) only absent
      ∙ ap (λ o. lookup_str n (store o r)) stored
      ∙ set_item-same n v r
  | inr t ↦ pass-found entry n v reg raw vs (store (entry j x) r) only d (ground (arith, t)) e
]
