-- ===== src/Protocol/Parse/Echo.antt =====
-- What the parser makes of the 38-byte packets: requests, and the echoes of accepted writes.
use lux_mon.Base.{ℕ, ◌≡◌, ap, ◌∙◌, [], ◌∷◌, some, ok, ◌>>=◌, pos}
use lux_mon.Protocol.Bytes.{Bytes, IsU16, u16_value, unpack_from, byte_at}
use lux_mon.Protocol.Frame.{Str, LuxFrame, new_frame}
use lux_mon.Protocol.Build.{serial_to_bytes, build_write_request}
use lux_mon.Protocol.Build.Layout.{
  Ten, ten, serial-Ten, packet, request_body, build_write_request-packet,
}
use lux_mon.Protocol.Parse.{parse_frame, decode_serial}

-- The frame of an accepted single write.
abbrev pub single_echo : Bytes → Bytes → ℕ → ℕ → Bytes → LuxFrame
single_echo s t r v raw = record (new_frame 1 0xc2 (decode_serial s) raw) {
  device_function = 6;
  inverter_serial = decode_serial t;
  register = r;
  values = v ∷ [];
}

parse_frame-single :
    (s t : Bytes) (r v : ℕ)
    → Ten s
    → Ten t
    → let d = packet 32 18 s (request_body 6 t r v) in
      parse_frame d ≡ ok (some (single_echo s t r v d))
unfolding parse_frame unpack_from byte_at
parse_frame-single s t r v (ten _ _ _ _ _ _ _ _ _ _) (ten _ _ _ _ _ _ _ _ _ _) =
    rw (u16_value r, u16_value v)

-- The frame of an accepted multiple write: start register and count, and no values.
abbrev pub multi_echo : Bytes → Bytes → ℕ → ℕ → Bytes → LuxFrame
multi_echo s t r n raw = record (new_frame 1 0xc2 (decode_serial s) raw) {
  device_function = 16;
  inverter_serial = decode_serial t;
  register = r;
  write_count = n;
}

multi_packet :
    (s t : Bytes) (r n : ℕ)
    → Ten s
    → Ten t
    → let d = packet 32 18 s (request_body 16 t r n) in
      parse_frame d ≡ ok (some (multi_echo s t r n d))
unfolding parse_frame unpack_from byte_at
multi_packet s t r n (ten _ _ _ _ _ _ _ _ _ _) (ten _ _ _ _ _ _ _ _ _ _) =
    rw (u16_value r, u16_value n)

-- The echo of a multiple write, whatever the serials, parses to its start register and its count.
pub parse_frame-multi :
    (dl inv : Str) (r n : ℕ)
    → let d = packet 32 18 (serial_to_bytes dl) (request_body 16 (serial_to_bytes inv) r n) in
      parse_frame d ≡ ok (some (multi_echo (serial_to_bytes dl) (serial_to_bytes inv) r n d))
parse_frame-multi dl inv r n = multi_packet _ _ r n (serial-Ten dl) (serial-Ten inv)

-- For a 16-bit register and value, the parser reads the packet that `build_write_request` builds
-- as function 6 with that register and that one value.
pub parse_frame-build_write_request :
    (dl inv : Str) (r v : ℕ)
    → IsU16 r
    → IsU16 v
    → let s = serial_to_bytes dl in
      let t = serial_to_bytes inv in
      (build_write_request dl inv r (pos v) >>= parse_frame)
      ≡ ok (some (single_echo s t r v (packet 32 18 s (request_body 6 t r v))))
parse_frame-build_write_request dl inv r v hr hv =
    ap (λ m. m >>= parse_frame) (build_write_request-packet dl inv r v hr hv)
    ∙ parse_frame-single _ _ r v (serial-Ten dl) (serial-Ten inv)
