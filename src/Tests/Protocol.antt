-- ===== src/Tests/Protocol.antt =====
-- Frames, the CRC, the parser and the scan on concrete bytes.
use lux_mon.Base.{◌≡◌, refl, inl, [], ◌∷◌, ◌++◌, some, ok, ◌>>=◌, Returns, pos, arith}
use lux_mon.Protocol.Bytes.{Bytes, unpack_from, byte_at}
use lux_mon.Protocol.Crc.{crc16_modbus, crc16_loop, crc16_step, table_at}
use lux_mon.Protocol.Crc.Reference.{crc16_bits, crc16_modbus-bits}
use lux_mon.Protocol.Frame.{LuxFrame, Str, new_frame}
use lux_mon.Protocol.Build.{build_write_request, serial_to_bytes}
use lux_mon.Protocol.Build.Layout.{packet, request_body, build_write_request-packet}
use lux_mon.Protocol.Parse.{
  parse_frame, decode_serial, decode_ascii, rstrip_nul, parse_header, has_prefix,
}
use lux_mon.Protocol.Parse.Echo.{single_echo, parse_frame-build_write_request}
use lux_mon.Protocol.Parse.Response.{
  response_body, response_packet, response_frame, parse_frame-response,
}
use lux_mon.Protocol.Parse.Total.{parse_frame-Returns}
use lux_mon.Protocol.Scan.{find_frames}
use lux_mon.Protocol.Scan.Stream.{
  IsFrame, framed, Stream, closed, noise, frame, find_frames-Returns, find_frames-Stream,
}

abbrev pub serial : Str
serial = b'B' ∷ b'A' ∷ b'1' ∷ b'2' ∷ b'3' ∷ b'4' ∷ b'5' ∷ b'6' ∷ b'7' ∷ b'8' ∷ []

abbrev pub other_serial : Str
other_serial = b'4' ∷ b'4' ∷ b'1' ∷ b'2' ∷ b'3' ∷ b'4' ∷ b'5' ∷ b'6' ∷ b'7' ∷ b'8' ∷ []

abbrev pub heartbeat_bytes : Bytes
heartbeat_bytes = 0xa1 ∷ 0x1a ∷ 2 ∷ 0 ∷ 13 ∷ 0 ∷ 1 ∷ 0xc1 ∷ (serial ++ (0 ∷ []))

abbrev pub heartbeat_frame : LuxFrame
heartbeat_frame = new_frame 2 0xc1 serial heartbeat_bytes

pub heartbeat_IsFrame : IsFrame heartbeat_bytes
heartbeat_IsFrame = framed 2 0 13 0 (1 ∷ 0xc1 ∷ (serial ++ (0 ∷ []))) refl

pub heartbeat_parses : parse_frame heartbeat_bytes ≡ ok (some heartbeat_frame)
unfolding parse_frame unpack_from byte_at decode_serial decode_ascii rstrip_nul parse_header
    has_prefix
heartbeat_parses = refl

pub heartbeat-Stream : Stream (heartbeat_bytes ++ []) (heartbeat_frame ∷ [])
heartbeat-Stream = frame heartbeat_bytes heartbeat_frame heartbeat_IsFrame heartbeat_parses closed

-- Noise, a frame, noise, and the frame again.
noisy-Stream :
    Stream
      (0 ∷ (heartbeat_bytes ++ (7 ∷ (heartbeat_bytes ++ []))))
      (heartbeat_frame ∷ heartbeat_frame ∷ [])
noisy-Stream =
    noise 0 (λ e. absurd (omega arith))
      (frame heartbeat_bytes heartbeat_frame heartbeat_IsFrame heartbeat_parses
        (noise 7 (λ e. absurd (omega arith)) heartbeat-Stream))

find_frames-Stream_example :
    find_frames (0 ∷ (heartbeat_bytes ++ (7 ∷ (heartbeat_bytes ++ []))))
    ≡ ok (heartbeat_frame ∷ heartbeat_frame ∷ [])
find_frames-Stream_example = find_frames-Stream noisy-Stream

find_frames-Returns_example : Returns (find_frames (0xa1 ∷ 0x1a ∷ 0xff ∷ []))
find_frames-Returns_example = find_frames-Returns (0xa1 ∷ 0x1a ∷ 0xff ∷ [])

parse_frame-Returns_example : Returns (parse_frame (0xa1 ∷ 0x1a ∷ []))
parse_frame-Returns_example = parse_frame-Returns (0xa1 ∷ 0x1a ∷ [])

-- The check value of the catalogue of CRCs: the nine digits give 0x4B37.
digits_checked :
    crc16_modbus (0x31 ∷ 0x32 ∷ 0x33 ∷ 0x34 ∷ 0x35 ∷ 0x36 ∷ 0x37 ∷ 0x38 ∷ 0x39 ∷ []) ≡ 0x4b37
unfolding crc16_modbus crc16_loop crc16_step table_at
digits_checked = refl

crc16_modbus-bits_example : crc16_modbus (1 ∷ 3 ∷ []) ≡ crc16_bits 0xffff (1 ∷ 3 ∷ [])
crc16_modbus-bits_example = crc16_modbus-bits (1 ∷ 3 ∷ []) (omega arith, (omega arith, tt))

build_write_request-packet_example :
    build_write_request serial other_serial 64 (pos 50)
    ≡ ok (
        packet 32 18 (serial_to_bytes serial) (request_body 6 (serial_to_bytes other_serial) 64 50))
build_write_request-packet_example =
    build_write_request-packet serial other_serial 64 50 (omega arith) (omega arith)

parse_frame-build_write_request_example :
    let s = serial_to_bytes serial in
    let t = serial_to_bytes other_serial in
    (build_write_request serial other_serial 64 (pos 50) >>= parse_frame)
    ≡ ok (some (single_echo s t 64 50 (packet 32 18 s (request_body 6 t 64 50))))
parse_frame-build_write_request_example =
    parse_frame-build_write_request serial other_serial 64 50 (omega arith) (omega arith)

parse_frame-response_example :
    let d = response_packet 5 33 21 serial (response_body 3 other_serial 64 (50 ∷ 7 ∷ [])) in
    parse_frame d ≡ ok (some (response_frame 5 3 serial other_serial 64 (50 ∷ 7 ∷ []) d))
parse_frame-response_example =
    parse_frame-response 5 3 33 21 64 serial other_serial (50 ∷ 7 ∷ []) refl (inl refl) refl refl
