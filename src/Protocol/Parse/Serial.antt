-- ===== src/Protocol/Parse/Serial.antt =====
-- A serial number of ten ASCII characters survives the trip through its field.
use lux_mon.Base.{ℕ, ◌≤◌, ◌<◌, ◌≡◌, refl, sym, ap, ◌∙◌, [], ◌∷◌, arith, length, take, All}
use lux_mon.Protocol.Frame.{Str}
use lux_mon.Protocol.Build.{encode_ascii, serial_to_bytes}
use lux_mon.Protocol.Parse.{decode_ascii, rstrip_nul, decode_serial}

-- An ASCII character other than NUL.
abbrev pub IsPlain : ℕ → Type 0
IsPlain c = (1 ≤ c) × (c < 128)

encode_ascii-IsPlain : (s : Str) → All IsPlain s → encode_ascii s ≡ s
unfolding encode_ascii
encode_ascii-IsPlain [] h = refl
encode_ascii-IsPlain (c ∷ cs) (hc, hs) = ground (arith, encode_ascii-IsPlain cs hs)

decode_ascii-IsPlain : (s : Str) → All IsPlain s → decode_ascii s ≡ s
unfolding decode_ascii
decode_ascii-IsPlain [] h = refl
decode_ascii-IsPlain (c ∷ cs) (hc, hs) = ground (arith, decode_ascii-IsPlain cs hs)

rstrip_nul-IsPlain : (s : Str) → All IsPlain s → rstrip_nul s ≡ s
unfolding rstrip_nul
rstrip_nul-IsPlain [] h = refl
rstrip_nul-IsPlain (c ∷ cs) (hc, hs) = ground (arith, rstrip_nul-IsPlain cs hs)

take_all : (s : Str) → take (length s) s ≡ s
take_all [] = refl
take_all (c ∷ cs) = ap (◌∷◌ c) (take_all cs)

-- The field of a serial number of ten plain characters decodes to that serial number.
pub decode_serial-serial_to_bytes :
    (s : Str) → length s ≡ 10 → All IsPlain s → decode_serial (serial_to_bytes s) ≡ s
unfolding decode_serial serial_to_bytes
decode_serial-serial_to_bytes s l h =
    rw (encode_ascii-IsPlain s h, l)
      (let whole : take 10 s ≡ s = ap (λ n. take n s) (sym l) ∙ take_all s in
        rw (whole, decode_ascii-IsPlain s h) (rstrip_nul-IsPlain s h))
