-- ===== src/Protocol/Parse/Total.antt =====
-- No read of the parser leaves the buffer: on every byte string it returns.
use lux_mon.Base.{
  ℕ, zero, suc, ◌+◌, ◌*◌, ◌≤◌, ◌<◌, refl, [], ◌∷◌, arith, ltb, ltb→ge, length, length-drop, drop,
  Returns, Returns-bind, Bool-cases, inl, inr,
}
use lux_mon.Protocol.Bytes.{Bytes, byte_at, first_u16, unpack_from}
use lux_mon.Protocol.Frame.{LuxFrame}
use lux_mon.Protocol.Parse.{
  value_at, read_values, parse_read, parse_write_multi, parse_register, parse_serial, parse_payload,
  parse_error, parse_modbus, parse_data_frame, parse_header, has_prefix, parse_frame,
}

first_u16-Returns : (xs : Bytes) → 2 ≤ length xs → Returns (first_u16 xs)
unfolding first_u16
first_u16-Returns [] h = absurd (omega arith)
first_u16-Returns (x ∷ []) h = absurd (omega arith)
first_u16-Returns (x ∷ (y ∷ xs)) h = refl

pub unpack_from-Returns : (d : Bytes) (o : ℕ) → o + 2 ≤ length d → Returns (unpack_from d o)
unfolding unpack_from
unpack_from-Returns d o h = first_u16-Returns (drop o d) (omega (arith, length-drop o d))

pub byte_at-Returns : (d : Bytes) (i : ℕ) → i < length d → Returns (byte_at d i)
unfolding byte_at
byte_at-Returns [] i h = absurd (omega arith)
byte_at-Returns (x ∷ d) zero h = refl
byte_at-Returns (x ∷ d) (suc i) h = byte_at-Returns d i (omega arith)

value_at-Returns : (d : Bytes) (o : ℕ) → Returns (value_at d o)
unfolding value_at
value_at-Returns d o = ground (arith, unpack_from-Returns d o)

read_values-Returns : (d : Bytes) (b i n : ℕ) → Returns (read_values d b i n)
unfolding read_values
read_values-Returns d b i zero = refl
read_values-Returns d b i (suc n) =
    ground (arith, value_at-Returns d (b + i * 2), read_values-Returns d b (i + 1) n)

parse_read-Returns : (d : Bytes) (f : LuxFrame) → Returns (parse_read d f)
unfolding parse_read
parse_read-Returns d f =
    grind (arith, unpack_from-Returns d 34, byte_at-Returns d 34, read_values-Returns d 35 0)

parse_write_multi-Returns : (d : Bytes) (f : LuxFrame) → Returns (parse_write_multi d f)
unfolding parse_write_multi
parse_write_multi-Returns d f = ground (arith, unpack_from-Returns d 32, unpack_from-Returns d 34)

parse_register-Returns : (d : Bytes) (f : LuxFrame) → Returns (parse_register d f)
unfolding parse_register
parse_register-Returns d f = ground (arith, unpack_from-Returns d 32)

parse_payload-Returns : (d : Bytes) (f : LuxFrame) → Returns (parse_payload d f)
unfolding parse_payload
parse_payload-Returns d f =
    Returns-bind _ _ (parse_register-Returns d (parse_serial d f))
      (λ g _. ground (arith, parse_read-Returns d g, parse_write_multi-Returns d g))

parse_error-Returns : (d : Bytes) (f : LuxFrame) → Returns (parse_error d f)
unfolding parse_error
parse_error-Returns d f = ground (arith, byte_at-Returns d 22)

parse_modbus-Returns : (d : Bytes) (f : LuxFrame) → 22 ≤ length d → Returns (parse_modbus d f)
unfolding parse_modbus
parse_modbus-Returns d f h = Returns-bind _ _ (byte_at-Returns d 20 (omega arith)) (λ a _.
    Returns-bind _ _ (byte_at-Returns d 21 (omega arith)) (λ g _. ground (
      arith,
      parse_error-Returns d (record f { address = a; device_function = g }),
      parse_payload-Returns d (record f { address = a; device_function = g }),
    )))

parse_data_frame-Returns :
    (d : Bytes) (f : LuxFrame) → 20 ≤ length d → Returns (parse_data_frame d f)
unfolding parse_data_frame
parse_data_frame-Returns d f h = ground (arith, unpack_from-Returns d 18, parse_modbus-Returns d f)

parse_header-Returns : (d : Bytes) → 18 ≤ length d → Returns (parse_header d)
unfolding parse_header
parse_header-Returns d h = ground (
  arith,
  unpack_from-Returns d 2,
  unpack_from-Returns d 4,
  byte_at-Returns d 6,
  byte_at-Returns d 7,
)

-- The parser raises on no byte string.
pub parse_frame-Returns : (d : Bytes) → Returns (parse_frame d)
unfolding parse_frame
parse_frame-Returns d = elim (Bool-cases (ltb (length d) 18)) [
  | inl short ↦ rw short
  | inr long ↦ rw long (elim (Bool-cases (has_prefix d)) [
    | inl p ↦ rw p (
        Returns-bind _ _ (parse_header-Returns d (ltb→ge (length d) 18 long))
          (λ f _. ground (arith, parse_data_frame-Returns d f)))
    | inr p ↦ rw p
  ])
]
