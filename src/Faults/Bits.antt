-- ===== src/Faults/Bits.antt =====
-- What a bit-packed code is read as: the names of its set bits, all of them and no others.
use Prim.Native.String.{String}
use Prim.Native.Nat.{bit_and}
use text.Mathlib.Text.{◌==◌ as str_eq}
use lux_mon.Base.{
  ℕ, zero, suc, ◌+◌, ◌^◌, ◌≤◌, ◌<◌, ◌≡◌, ◌⊎◌, refl, Bool, true, ltb, ◌&&◌, false, Option, none,
  some, List, [], ◌∷◌, ◌==◌, arith, Bool-cases, inl, inr, ◌↔◌,
}
use lux_mon.Base.Dict.{lookup}
use lux_mon.Faults.{
  fault_codes, warning_codes, add_name, named_bits, decode_bits, decode_fault_code,
  decode_warning_code,
}

-- The name stands in the list.
abbrev pub Listed : String → List String → Type 0
Listed n [] = ⊥
Listed n (x ∷ xs) = (x ≡ n) ⊎ Listed n xs

-- The bit is set in the value, and the table has a name for it.
abbrev pub Named : ℕ → List (ℕ × String) → ℕ → String → Type 0
Named value table bit name =
    ((bit_and value (2 ^ bit) == 0) ≡ false)
    × (lookup bit table ≡ some name)
    × (str_eq name "" ≡ false)

add_name-rest :
    (o : Option String) (n : String) (ns : List String) → Listed n ns → Listed n (add_name o ns)
add_name-rest none n ns m = m
add_name-rest (some x) n ns m = ground arith

add_name-Listed :
    (o : Option String) (n : String) (ns : List String)
    → Listed n (add_name o ns)
    → ((o ≡ some n) × (str_eq n "" ≡ false)) ⊎ Listed n ns
add_name-Listed none n ns m = inr m
add_name-Listed (some x) n ns m = ground arith

named_bits_sound :
    (value : ℕ) (table : List (ℕ × String)) (bit count : ℕ) (name : String)
    → Listed name (named_bits value table bit count)
    → (k : ℕ) × (k < bit + count) × Named value table k name
unfolding named_bits
named_bits_sound value table bit zero name m = elim m [ ]
named_bits_sound value table bit (suc count) name m =
    elim (Bool-cases (bit_and value (2 ^ bit) == 0)) [
      | inl e ↦
          let (k, h, r) = named_bits_sound value table (bit + 1) count name (rw e at m) in
          (k, omega arith, r)
      | inr e ↦
          elim (add_name-Listed (lookup bit table) name (named_bits value table (bit + 1) count)
            (rw e at m)) [
              | inl (l, t) ↦ (bit, omega arith, (e, l, t))
              | inr m' ↦
                  let (k, h, r) = named_bits_sound value table (bit + 1) count name m' in
                  (k, omega arith, r)
            ]
    ]

named_bits_complete :
    (value : ℕ) (table : List (ℕ × String)) (bit count : ℕ) (name : String) (k : ℕ)
    → bit ≤ k
    → k < bit + count
    → Named value table k name
    → Listed name (named_bits value table bit count)
unfolding named_bits
named_bits_complete value table bit zero name k p q r = absurd (omega arith)
named_bits_complete value table bit (suc count) name k p q (s, l, t) =
    elim (Bool-cases (k == bit)) [
      | inl e ↦ let same : k ≡ bit = ground (arith, e) in ground (arith, same, s, l, t)
      | inr e ↦
          let next : bit + 1 ≤ k = ground (arith, e) in
          let rest =
            named_bits_complete value table (bit + 1) count name k next (omega arith) (s, l, t) in
          ground (
            arith,
            rest,
            add_name-rest (lookup bit table) name (named_bits value table (bit + 1) count),
          )
    ]

-- Every key of the table lies below the bound.
abbrev keys_below : ℕ → List (ℕ × String) → Bool
keys_below n [] = true
keys_below n ((k, name) ∷ table) = ltb k n && keys_below n table

lookup-above :
    (v n : ℕ) (table : List (ℕ × String))
    → n ≤ v
    → keys_below n table ≡ true
    → lookup v table ≡ none
unfolding lookup
lookup-above v n [] h e = refl
lookup-above v n ((k, name) ∷ table) h e = ground (arith, lookup-above v n table h)

-- A nonzero value that is no key of the table is read as the names of its set bits, all of them and
-- no others.
decode_bits-Listed :
    (value : ℕ) (table : List (ℕ × String)) (name : String)
    → (value == 0) ≡ false
    → lookup value table ≡ none
    → Listed name (decode_bits (some value) table) ↔ ((k : ℕ) × (k < 32) × Named value table k name)
unfolding decode_bits
decode_bits-Listed value table name z h =
    rw (z, h)
      (
        named_bits_sound value table 0 32 name,
        λ (k, p, r). named_bits_complete value table 0 32 name k (omega arith) p r,
      )

-- A raw fault or warning code from 32 on is read as a bit mask: a name is in the list if and only
-- if the table gives it to one of the low 32 bits that is set.
pub decode_code-Named :
    (value : ℕ) (name : String)
    → 32 ≤ value
    → (Listed name (decode_fault_code (some value))
        ↔ ((k : ℕ) × (k < 32) × Named value fault_codes k name))
      × (Listed name (decode_warning_code (some value))
          ↔ ((k : ℕ) × (k < 32) × Named value warning_codes k name))
unfolding decode_fault_code decode_warning_code
decode_code-Named value name h =
    let z : (value == 0) ≡ false = ground arith in
    (
      decode_bits-Listed value fault_codes name z (lookup-above value 32 fault_codes h refl),
      decode_bits-Listed value warning_codes name z (lookup-above value 32 warning_codes h refl),
    )
