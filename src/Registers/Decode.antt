-- ===== src/Registers/Decode.antt =====
-- What a batch of raw values is decoded to: each register under its own name.
use Prim.Native.String.{String}
use text.Mathlib.Text.{◌==◌ as str_eq}
use lux_mon.Base.{
  ℕ, ◌≡◌, refl, sym, ap, ◌∙◌, Bool, true, false, ◌||◌, ◌&&◌, not, Option, none, some, List, [], ◌∷◌,
  ◌==◌, ==_iff, arith, Bool-cases, inl, inr,
}
use lux_mon.Base.Dict.{lookup, lookup_str, DistinctKeys}
use lux_mon.Registers.Def.{RegisterDef, decode}
use lux_mon.Registers.{
  if_known, Reading, Result, simple_entry, simple_of, pair_entry, pair_of, pair_with, store, pass,
  soh_entry, decode_registers,
}
use lux_mon.Registers.Pass.{Only, set_item-other, store-other, pass-found}

-- No other register of the map has this name, and it is not the name of the derived entry.
abbrev pub own_name : String → ℕ → List (ℕ × RegisterDef) → Bool
own_name n reg [] = not (str_eq "soh" n)
own_name n reg ((j, def) ∷ rest) = (j == reg || not (str_eq def.name n)) && own_name n reg rest

own_name-lookup :
    (n : String) (reg j : ℕ) (m : List (ℕ × RegisterDef)) (def : RegisterDef)
    → own_name n reg m ≡ true
    → lookup j m ≡ some def
    → (j == reg) ≡ false
    → str_eq def.name n ≡ false
unfolding lookup
own_name-lookup n reg j [] def o h e = cc
own_name-lookup n reg j ((k, d) ∷ m) def o h e = elim (Bool-cases (k == j)) [
  | inl t ↦
      let here : k ≡ j = (==_iff k j).0 t in
      let same : d ≡ def = ground (arith, t) in
      let other : (k == reg) ≡ false = rw here e in
      let named : str_eq d.name n ≡ false = ground (arith, other) in rw (sym same) named
  | inr t ↦ own_name-lookup n reg j m def (ground arith) (ground (arith, t)) e
]

own_name-soh :
    (n : String) (reg : ℕ) (m : List (ℕ × RegisterDef))
    → own_name n reg m ≡ true
    → str_eq "soh" n ≡ false
own_name-soh n reg [] o = ground arith
own_name-soh n reg ((k, d) ∷ m) o = own_name-soh n reg m (ground arith)

simple_of-name :
    (d : RegisterDef) (raw : ℕ) (h : Option ℕ) (k : String) (v : Reading)
    → simple_of d raw h ≡ some (k, v)
    → d.name ≡ k
simple_of-name d raw none k v e = cc
simple_of-name d raw (some high) k v e = cc

pair_of-name :
    (vs : List (ℕ × ℕ)) (d : RegisterDef) (raw : ℕ) (h : Option ℕ) (k : String) (v : Reading)
    → pair_of vs d raw h ≡ some (k, v)
    → d.name ≡ k
pair_of-name vs d raw none k v e = cc
pair_of-name vs d raw (some high) k v e = named (lookup high vs) e
  where
    named : (o : Option ℕ) → pair_with d raw o ≡ some (k, v) → d.name ≡ k
    named none p = cc
    named (some high_raw) p = cc

-- Whatever a definition's entry is, its name is the definition's.
entry-Only :
    (entry : RegisterDef → ℕ → Option (String × Reading)) (n : String) (reg : ℕ)
    (m : List (ℕ × RegisterDef))
    → ((d : RegisterDef) (raw : ℕ) (k : String) (v : Reading)
        → entry d raw ≡ some (k, v)
        → d.name ≡ k)
    → own_name n reg m ≡ true
    → (j raw : ℕ) (k : String) (v : Reading) (o : Option RegisterDef) → lookup j m ≡ o
    → if_known (λ d. entry d raw) o ≡ some (k, v)
    → (j == reg) ≡ false
    → str_eq k n ≡ false
entry-Only entry n reg m named own j raw k v none l e t = cc
entry-Only entry n reg m named own j raw k v (some d) l e t =
    rw (sym (named d raw k v e)) (own_name-lookup n reg j m d own l t)

simple_entry-Only :
    (n : String) (reg : ℕ) (m : List (ℕ × RegisterDef))
    → own_name n reg m ≡ true
    → Only (simple_entry m) n reg
unfolding simple_entry
simple_entry-Only n reg m own j raw k v e =
    entry-Only (λ d x. simple_of d x d.pair_high) n reg m (λ d x. simple_of-name d x d.pair_high)
      own j raw k v (lookup j m) refl e

pair_entry-Only :
    (vs : List (ℕ × ℕ)) (n : String) (reg : ℕ) (m : List (ℕ × RegisterDef))
    → own_name n reg m ≡ true
    → Only (pair_entry vs m) n reg
unfolding pair_entry
pair_entry-Only vs n reg m own j raw k v e =
    entry-Only (λ d x. pair_of vs d x d.pair_high) n reg m (λ d x. pair_of-name vs d x d.pair_high)
      own j raw k v (lookup j m) refl e

-- The last entry, derived from register 5, has the name "soh".
soh_entry-other :
    (o : Option ℕ) (n : String) (r : Result)
    → str_eq "soh" n ≡ false
    → lookup_str n (store (soh_entry o) r) ≡ lookup_str n r
soh_entry-other none n r h = refl
soh_entry-other (some raw) n r h = set_item-other "soh" n _ r h

-- The entry of a register that is stored in the second pass.
pair_entry-found :
    (vs : List (ℕ × ℕ)) (m : List (ℕ × RegisterDef)) (reg raw high high_raw : ℕ) (def : RegisterDef)
    → lookup reg m ≡ some def
    → def.pair_high ≡ some high
    → lookup high vs ≡ some high_raw
    → pair_entry vs m reg raw
      ≡ some (
        def.name,
        record { value = decode def raw high_raw; raw = raw; raw_high = some high_raw },
      )
unfolding pair_entry
pair_entry-found vs m reg raw high high_raw def l p h = rw (l, p, h)

simple_entry-found :
    (m : List (ℕ × RegisterDef)) (reg raw : ℕ) (def : RegisterDef)
    → lookup reg m ≡ some def
    → def.pair_high ≡ none
    → simple_entry m reg raw
      ≡ some (def.name, record { value = decode def raw 0; raw = raw; raw_high = none })
unfolding simple_entry
simple_entry-found m reg raw def l p = rw (l, p)

-- The second pass leaves the entry of a register without a high word alone.
pair_pass-kept :
    (vs ws : List (ℕ × ℕ)) (m : List (ℕ × RegisterDef)) (reg : ℕ) (def : RegisterDef) (r : Result)
    → own_name def.name reg m ≡ true
    → lookup reg m ≡ some def
    → def.pair_high ≡ none
    → lookup_str def.name (pass (pair_entry vs m) ws r) ≡ lookup_str def.name r
unfolding pass pair_entry
pair_pass-kept vs [] m reg def r own l p = refl
pair_pass-kept vs ((j, raw) ∷ ws) m reg def r own l p = elim (Bool-cases (j == reg)) [
  | inl t ↦
      let nothing : pair_entry vs m j raw ≡ none = rw ((==_iff j reg).0 t, l, p) refl in
      pair_pass-kept vs ws m reg def (store (pair_entry vs m j raw) r) own l p
      ∙ ap (λ o. lookup_str def.name (store o r)) nothing
  | inr t ↦
      pair_pass-kept vs ws m reg def (store (pair_entry vs m j raw) r) own l p
      ∙ store-other (pair_entry vs m j raw) def.name r
          (λ k v e. pair_entry-Only vs def.name reg m own j raw k v e t)
]

-- A 16-bit register among the raw values, which have distinct keys, is in the result under its
-- name, with its decoded and its raw value, if no other register of the map has the name and it
-- is not "soh".
pub decode_registers-simple :
    (vs : List (ℕ × ℕ)) (m : List (ℕ × RegisterDef)) (reg raw : ℕ) (def : RegisterDef)
    → DistinctKeys vs
    → own_name def.name reg m ≡ true
    → lookup reg m ≡ some def
    → def.pair_high ≡ none
    → lookup reg vs ≡ some raw
    → lookup_str def.name (decode_registers vs m)
      ≡ some (record { value = decode def raw 0; raw = raw; raw_high = none })
unfolding decode_registers
decode_registers-simple vs m reg raw def d own l p h =
    soh_entry-other (lookup 5 vs) def.name _ (own_name-soh def.name reg m own)
    ∙ pair_pass-kept vs vs m reg def _ own l p
    ∙ pass-found (simple_entry m) def.name _ reg raw vs [] (simple_entry-Only def.name reg m own) d
        h (simple_entry-found m reg raw def l p)

-- A 32-bit register whose low and high words are both among the raw values, which have distinct
-- keys, is in the result under its name, decoded from both words, if no other register of the map
-- has the name and it is not "soh".
pub decode_registers-pair :
    (vs : List (ℕ × ℕ)) (m : List (ℕ × RegisterDef)) (reg raw high high_raw : ℕ) (def : RegisterDef)
    → DistinctKeys vs
    → own_name def.name reg m ≡ true
    → lookup reg m ≡ some def
    → def.pair_high ≡ some high
    → lookup reg vs ≡ some raw
    → lookup high vs ≡ some high_raw
    → lookup_str def.name (decode_registers vs m)
      ≡ some (record { value = decode def raw high_raw; raw = raw; raw_high = some high_raw })
unfolding decode_registers
decode_registers-pair vs m reg raw high high_raw def d own l p h hh =
    soh_entry-other (lookup 5 vs) def.name _ (own_name-soh def.name reg m own)
    ∙ pass-found (pair_entry vs m) def.name _ reg raw vs _ (pair_entry-Only vs def.name reg m own) d
        h (pair_entry-found vs m reg raw high high_raw def l p hh)
