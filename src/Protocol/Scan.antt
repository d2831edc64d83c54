-- ===== src/Protocol/Scan.antt =====
-- `find_frames` of collector/protocol.py: the scan of a receive buffer for frames.
-- The list is `data[i:]`, what the scan has not passed.
pub mod Stream
use lux_mon.Base.{
  ℕ, zero, suc, ◌+◌, List, [], ◌∷◌, ltb, leb, if◌then◌else◌, length, take, drop, Outcome, ok,
  raised, out_of_fuel, ◌>>=◌, Option, none, some,
}
use lux_mon.Protocol.Bytes.{Bytes, unpack_from}
use lux_mon.Protocol.Frame.{LuxFrame}
use lux_mon.Protocol.Parse.{has_prefix, parse_frame}

-- The size of the frame that starts here, if its header says one and the buffer holds it whole.
unfoldable pub frame_size : Bytes → Outcome (Option ℕ)
frame_size d =
    if has_prefix d
    then (if leb 6 (length d)
        then unpack_from d 4 >>= (λ frame_len.
          ok (if leb (6 + frame_len) (length d) then some (6 + frame_len) else none))
        else ok none)
    else ok none

-- `if frame: frames.append(frame)`
abbrev pub keep : Option LuxFrame → List LuxFrame → List LuxFrame
keep none fs = fs
keep (some f) fs = f ∷ fs

-- The loop; the test is `i < len(data) - 1`.
unfoldable pub find_from : ℕ → Bytes → Outcome (List LuxFrame)
find_from zero d = raised out_of_fuel
find_from (suc fuel) d =
    if ltb 1 (length d)
    then frame_size d >>= (λ size. elim size [
      | none ↦ find_from fuel (drop 1 d)
      | some total ↦
          parse_frame (take total d)
          >>= (λ frame. find_from fuel (drop total d) >>= (λ fs. ok (keep frame fs)))
    ])
    else ok []

-- Each round passes a byte at least, so one round more than the bytes is enough.
unfoldable pub find_frames : Bytes → Outcome (List LuxFrame)
find_frames d = find_from (length d + 1) d
