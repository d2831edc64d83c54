-- ===== src/Protocol/Bytes.antt =====
-- The byte operations of collector/protocol.py: bytearray slices and struct's `<H` fields.
use lux_mon.Base.{
  ℕ, zero, suc, ◌+◌, ◌-◌, ◌*◌, ◌/◌, ◌%◌, ◌<◌, List, [], ◌∷◌, ◌&&◌, ltb, leb, if◌then◌else◌, length,
  get_elem?, take, drop, replicate, arith, le→leb, lt→ltb, ◌≡◌, ◌≤◌, Outcome, ok, raised,
  value_error, index_error, struct_error, Option, none, some,
}

abbrev pub Bytes : Type 0
Bytes = List ℕ

abbrev pub IsByte : ℕ → Type 0
IsByte b = b < 256

abbrev pub IsU16 : ℕ → Type 0
IsU16 v = v < 65536

-- `bytearray(n)`
abbrev pub zeros : ℕ → Bytes
zeros n = replicate n 0

-- `pkt[o:o + len(bs)] = bs`, where the slice lies inside the buffer.
abbrev pub put_at : ℕ → Bytes → Bytes → Bytes
put_at o bs [] = []
put_at zero [] (x ∷ xs) = x ∷ xs
put_at zero (b ∷ bs) (x ∷ xs) = b ∷ put_at zero bs xs
put_at (suc o) bs (x ∷ xs) = x ∷ put_at o bs xs

-- The two bytes of `<H`, the low one first.
abbrev pub u16 : ℕ → Bytes
u16 v = v % 256 ∷ v / 256 ∷ []

-- The two bytes of a field give its value back.
pub u16_value : (v : ℕ) → v % 256 + 256 * (v / 256) ≡ v
u16_value v = omega arith

-- `struct.pack_into('<H', pkt, o, v)`
unfoldable pub pack_into : Bytes → ℕ → ℕ → Outcome Bytes
pack_into pkt o v =
    if leb v 65535 && leb (o + 2) (length pkt)
    then ok (put_at o (u16 v) pkt)
    else raised struct_error

-- `pkt[o] = v` on a bytearray
unfoldable pub put_byte : Bytes → ℕ → ℕ → Outcome Bytes
put_byte pkt o v =
    if leb v 255
    then (if ltb o (length pkt) then ok (put_at o (v ∷ []) pkt) else raised index_error)
    else raised value_error

abbrev pub or_index_error : Option ℕ → Outcome ℕ
or_index_error none = raised index_error
or_index_error (some b) = ok b

-- `data[i]`
unfoldable pub byte_at : Bytes → ℕ → Outcome ℕ
byte_at xs i = or_index_error (get_elem? xs i)

unfoldable pub first_u16 : Bytes → Outcome ℕ
first_u16 (lo ∷ (hi ∷ rest)) = ok (lo + 256 * hi)
first_u16 _ = raised struct_error

-- `struct.unpack_from('<H', data, o)[0]`
unfoldable pub unpack_from : Bytes → ℕ → Outcome ℕ
unfolding first_u16
unpack_from xs o = first_u16 (drop o xs)

-- `data[a:b]`
abbrev pub slice : Bytes → ℕ → ℕ → Bytes
slice xs a b = take (b - a) (drop a xs)

-- A field of two bytes that fits the buffer.
pub pack_into_lem :
    (pkt : Bytes) (o v : ℕ)
    → IsU16 v
    → o + 2 ≤ length pkt
    → pack_into pkt o v ≡ ok (put_at o (u16 v) pkt)
unfolding pack_into
pack_into_lem pkt o v h k = rw (le→leb v 65535 (omega arith), le→leb (o + 2) (length pkt) k)

pub put_byte_lem :
    (pkt : Bytes) (o v : ℕ)
    → IsByte v
    → o < length pkt
    → put_byte pkt o v ≡ ok (put_at o (v ∷ []) pkt)
unfolding put_byte
put_byte_lem pkt o v h k = rw (le→leb v 255 (omega arith), lt→ltb o (length pkt) k)
