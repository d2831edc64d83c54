-- ===== src/Protocol/Parse/Response.antt =====
-- Read responses: the parser returns the register values that the inverter packed.
use lux_mon.Base.{
  ℕ, ◌+◌, ◌-◌, ◌*◌, ◌/◌, ◌≤◌, ◌≡◌, refl, sym, ap, List, [], ◌∷◌, ◌++◌, true, false, arith, some, ok,
  length, length-append, drop-append_self, leb, le→leb, append_assoc, ge→ltb, lt→ltb, ◌⊎◌, ◌==◌,
  ◌||◌,
}
use lux_mon.Protocol.Bytes.{Bytes, u16, u16_value, unpack_from, byte_at}
use lux_mon.Protocol.Crc.{crc16_modbus}
use lux_mon.Protocol.Frame.{LuxFrame, new_frame}
use lux_mon.Protocol.Build.Layout.{Ten, ten, Ten-length}
use lux_mon.Protocol.Parse.{parse_frame, decode_serial, value_at, read_values}

-- The values, two bytes each.
abbrev pub flat : List ℕ → Bytes
flat [] = []
flat (v ∷ vs) = u16 v ++ flat vs

pub length-flat : (vs : List ℕ) → length (flat vs) ≡ 2 * length vs
length-flat [] = omega arith
length-flat (v ∷ vs) = omega (arith, length-flat vs)

pub unpack_from-append :
    (xs rest : Bytes) (o v : ℕ) → o ≡ length xs → unpack_from (xs ++ (u16 v ++ rest)) o ≡ ok v
unfolding unpack_from
unpack_from-append xs rest o v e = rw (e, drop-append_self xs (u16 v ++ rest)) (ap ok (omega arith))

value_at-flat :
    (xs rest : Bytes) (o v : ℕ)
    → o ≡ length xs
    → 2 ≤ length rest
    → value_at (xs ++ (u16 v ++ rest)) o ≡ ok (v ∷ [])
unfolding value_at
value_at-flat xs rest o v e h = rw (
  le→leb (o + 2) (length (xs ++ (u16 v ++ rest)) - 2)
      (omega (arith, length-append xs (u16 v ++ rest))),
  unpack_from-append xs rest o v e,
)

-- The loop over `num_regs` rounds meets the packed values, and stops before the CRC.
read_values-flat :
    (xs : Bytes) (vs : List ℕ) (rest : Bytes) (b i : ℕ)
    → length xs ≡ b + i * 2
    → 2 ≤ length rest
    → read_values (xs ++ (flat vs ++ rest)) b i (length vs) ≡ ok vs
unfolding read_values
read_values-flat xs [] rest b i e h = refl
read_values-flat xs (v ∷ vs) rest b i e h =
    let here : value_at (xs ++ (u16 v ++ (flat vs ++ rest))) (b + i * 2) ≡ ok (v ∷ []) =
      value_at-flat xs (flat vs ++ rest) _ v (sym e)
        (omega (arith, length-append (flat vs) rest)) in
    let later : read_values (xs ++ (u16 v ++ (flat vs ++ rest))) b (i + 1) (length vs) ≡ ok vs =
      rw (append_assoc xs (u16 v) (flat vs ++ rest)) at (
        read_values-flat (xs ++ u16 v) vs rest b (i + 1) (omega (arith, length-append xs (u16 v)))
          h) in
    rw (here, later)

-- The body of a read response, which the inverter sends from address 1: a length byte and the values
-- follow the register.
abbrev pub response_body : ℕ → Bytes → ℕ → List ℕ → Bytes
response_body func inverter r vs = 1 ∷ func ∷ (inverter ++ (u16 r ++ ((2 * length vs) ∷ flat vs)))

-- The outer frame of a protocol version, with the CRC of the body.
abbrev pub response_packet : ℕ → ℕ → ℕ → Bytes → Bytes → Bytes
response_packet protocol frame_len data_len datalog body =
    0xa1
    ∷ 0x1a
    ∷ (u16 protocol
        ++ (u16 frame_len
            ++ (0x01 ∷ 0xc2 ∷ (datalog ++ (u16 data_len ++ (body ++ u16 (crc16_modbus body)))))))

abbrev pub response_frame : ℕ → ℕ → Bytes → Bytes → ℕ → List ℕ → Bytes → LuxFrame
response_frame protocol func s t r vs raw = record (new_frame protocol 0xc2 (decode_serial s) raw) {
  address = 1;
  device_function = func;
  inverter_serial = decode_serial t;
  register = r;
  values = vs;
}

response_packet-parsed :
    (protocol func frame_len data_len r : ℕ) (s t : Bytes) (vs : List ℕ)
    → (func == 3 || func == 4) ≡ true
    → (func == 6) ≡ false
    → leb 128 func ≡ false
    → Ten s
    → Ten t
    → let d = response_packet protocol frame_len data_len s (response_body func t r vs) in
      parse_frame d ≡ ok (some (response_frame protocol func s t r vs d))
unfolding parse_frame unpack_from byte_at
response_packet-parsed protocol func fl dl r s t vs h34 h6 h128 (ten a b c d e f g h i j)
      (ten a' b' c' d' e' f' g' h' i' j') =
    let s = a ∷ b ∷ c ∷ d ∷ e ∷ f ∷ g ∷ h ∷ i ∷ j ∷ [] in
    let t = a' ∷ b' ∷ c' ∷ d' ∷ e' ∷ f' ∷ g' ∷ h' ∷ i' ∷ j' ∷ [] in
    let p = response_packet protocol fl dl s (response_body func t r vs) in
    let crc = u16 (crc16_modbus (response_body func t r vs)) in
    let front : Bytes =
      0xa1
      ∷ 0x1a
      ∷ (u16 protocol
          ++ (u16 fl
              ++ (0x01
                  ∷ 0xc2
                  ∷ (s ++ (u16 dl ++ (1 ∷ func ∷ (t ++ (u16 r ++ ((2 * length vs) ∷ []))))))))) in
    let rounds : 2 * length vs / 2 ≡ length vs = omega arith in
    rw (
      ge→ltb (length p) 18 (omega arith),
      le→leb 20 (length p) (omega arith),
      ge→ltb (length p) 22 (omega arith),
      h128,
      le→leb 34 (length p) (omega arith),
      le→leb 32 (length p) (omega arith),
      h34,
      h6,
      lt→ltb 34 (length p) (omega arith),
      rounds,
      read_values-flat front vs crc 35 0 (omega arith) (omega arith),
      u16_value r,
      u16_value protocol,
    )

-- Of a read response of the inverter, from address 1 and in a protocol version other than 1, which
-- has no value length byte, the parser returns exactly the values that it carries, with its register,
-- its protocol and its serials, for both read functions and serial fields of ten bytes.
pub parse_frame-response :
    (protocol func frame_len data_len r : ℕ) (s t : Bytes) (vs : List ℕ)
    → (protocol == 1) ≡ false
    → (func ≡ 3) ⊎ (func ≡ 4)
    → length s ≡ 10
    → length t ≡ 10
    → let d = response_packet protocol frame_len data_len s (response_body func t r vs) in
      parse_frame d ≡ ok (some (response_frame protocol func s t r vs d))
parse_frame-response protocol func fl dl r s t vs other hf hs ht =
    response_packet-parsed protocol func fl dl r s t vs (ground arith) (ground arith) (ground arith)
      (Ten-length s hs) (Ten-length t ht)
