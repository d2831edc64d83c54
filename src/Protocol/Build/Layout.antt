-- ===== src/Protocol/Build/Layout.antt =====
-- The packets that the builders return, field by field.
use lux_mon.Base.{
  ℕ, ◌-◌, ◌≡◌, refl, [], ◌∷◌, ◌++◌, true, arith, leb, le→leb, length, length-append, length-take,
  length-replicate, ok, replicate, pos,
}
use lux_mon.Protocol.Bytes.{Bytes, IsU16, IsByte, u16}
use lux_mon.Protocol.Crc.{crc16_modbus}
use lux_mon.Protocol.Crc.Residue.{crc16_modbus-IsU16}
use lux_mon.Protocol.Frame.{Str}
use lux_mon.Protocol.Build.{
  encode_ascii, serial_to_bytes, build_read_request, register_value, build_write_request,
  build_heartbeat,
}

-- A serial field: its ten bytes.
pub data Ten : Bytes → Type 0 where
  ten : (a b c d e f g h i j : ℕ) → Ten (a ∷ b ∷ c ∷ d ∷ e ∷ f ∷ g ∷ h ∷ i ∷ j ∷ [])

pub Ten-length : (xs : Bytes) → length xs ≡ 10 → Ten xs
Ten-length (a ∷ (b ∷ (c ∷ (d ∷ (e ∷ (f ∷ (g ∷ (h ∷ (i ∷ (j ∷ [])))))))))) l =
    ten a b c d e f g h i j
Ten-length xs l = absurd (omega arith)

length-serial_to_bytes : (s : Str) → length (serial_to_bytes s) ≡ 10
unfolding serial_to_bytes
length-serial_to_bytes s = ground (
  arith,
  length-take 10 (encode_ascii s),
  length-take 10 (encode_ascii s ++ replicate (10 - length (encode_ascii s)) b' '),
  length-append (encode_ascii s) (replicate (10 - length (encode_ascii s)) b' '),
  length-replicate {A = ℕ} (10 - length (encode_ascii s)) b' ',
)

pub serial-Ten : (s : Str) → Ten (serial_to_bytes s)
serial-Ten s = Ten-length _ (length-serial_to_bytes s)

-- The outer frame around a Modbus body, which its CRC follows.
abbrev pub packet : ℕ → ℕ → Bytes → Bytes → Bytes
packet frame_len data_len datalog body =
    0xa1
    ∷ 0x1a
    ∷ 1
    ∷ 0
    ∷ (u16 frame_len
        ++ (0x01 ∷ 0xc2 ∷ (datalog ++ (u16 data_len ++ (body ++ u16 (crc16_modbus body))))))

-- Address 0, function, inverter serial, and two fields of two bytes.
abbrev pub request_body : ℕ → Bytes → ℕ → ℕ → Bytes
request_body func inverter x y = 0 ∷ func ∷ (inverter ++ (u16 x ++ u16 y))

crc_fits : (bs : Bytes) → leb (crc16_modbus bs) 65535 ≡ true
crc_fits bs = le→leb _ _ (omega (arith, crc16_modbus-IsU16 bs))

-- The header and the body of a single-register request, byte by byte.
module _ (dl inv : Str) where
  -- Within the ranges of its fields a read request is the 38-byte packet of the protocol: outer
  -- frame, the datalog serial, the Modbus body with the inverter serial, register and count, and
  -- the CRC of that body.
  pub build_read_request-packet :
      (func start count : ℕ)
      → IsByte func
      → IsU16 start
      → IsU16 count
      → build_read_request dl inv func start count
        ≡ ok (
            packet 32 18 (serial_to_bytes dl) (request_body func (serial_to_bytes inv) start count))
  unfolding build_read_request
  build_read_request-packet func start count hf hs hc =
      fields (serial_to_bytes dl) (serial_to_bytes inv) refl refl (serial-Ten dl) (serial-Ten inv)
    where
      fields :
          (s t : Bytes)
          → serial_to_bytes dl ≡ s
          → serial_to_bytes inv ≡ t
          → Ten s
          → Ten t
          → build_read_request dl inv func start count
            ≡ ok (packet 32 18 s (request_body func t start count))
      fields s t es et (ten _ _ _ _ _ _ _ _ _ _) (ten _ _ _ _ _ _ _ _ _ _) = rw (
        es,
        et,
        le→leb func 255 (omega arith),
        le→leb start 65535 (omega arith),
        le→leb count 65535 (omega arith),
        crc_fits,
      )

  -- For a 16-bit register and value, a single write is the 38-byte packet of the protocol: the
  -- outer frame, the datalog serial, the Modbus body with function 6, the inverter serial,
  -- register and value, and the CRC of that body.
  pub build_write_request-packet :
      (register v : ℕ)
      → IsU16 register
      → IsU16 v
      → build_write_request dl inv register (pos v)
        ≡ ok (packet 32 18 (serial_to_bytes dl) (request_body 6 (serial_to_bytes inv) register v))
  unfolding build_write_request register_value
  build_write_request-packet register v hr hv =
      fields (serial_to_bytes dl) (serial_to_bytes inv) refl refl (serial-Ten dl) (serial-Ten inv)
    where
      fields :
          (s t : Bytes)
          → serial_to_bytes dl ≡ s
          → serial_to_bytes inv ≡ t
          → Ten s
          → Ten t
          → build_write_request dl inv register (pos v)
            ≡ ok (packet 32 18 s (request_body 6 t register v))
      fields s t es et (ten _ _ _ _ _ _ _ _ _ _) (ten _ _ _ _ _ _ _ _ _ _) = rw (
        es,
        et,
        le→leb v 65535 (omega arith),
        le→leb register 65535 (omega arith),
        le→leb v 65535 (omega arith),
        crc_fits,
      )

-- A heartbeat is the prefix, protocol 2, the length 13, function 0xC1, the datalog serial and one
-- zero byte.
pub build_heartbeat-packet :
    (dl : Str)
    → build_heartbeat dl
      ≡ ok (0xa1 ∷ 0x1a ∷ 2 ∷ 0 ∷ 13 ∷ 0 ∷ 0x01 ∷ 0xc1 ∷ (serial_to_bytes dl ++ (0 ∷ [])))
unfolding build_heartbeat
build_heartbeat-packet dl = fields (serial_to_bytes dl) refl (serial-Ten dl)
  where
    fields :
        (s : Bytes)
        → serial_to_bytes dl ≡ s
        → Ten s
        → build_heartbeat dl ≡ ok (0xa1 ∷ 0x1a ∷ 2 ∷ 0 ∷ 13 ∷ 0 ∷ 0x01 ∷ 0xc1 ∷ (s ++ (0 ∷ [])))
    fields s es (ten _ _ _ _ _ _ _ _ _ _) = rw es
