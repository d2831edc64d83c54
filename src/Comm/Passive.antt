-- ===== src/Comm/Passive.antt =====
-- `TcpPassiveTransport._consume_frames` of collector/comm/tcp_passive.py: what of the receive buffer
-- is kept once its frames are emitted, and of a buffer that is too long.
pub mod Consume
pub mod Trim
use lux_mon.Base.{
  ℕ, suc, ◌+◌, ◌-◌, List, [], ◌∷◌, Bool, true, false, ◌&&◌, Option, none, some, ◌==◌, if◌then◌else◌,
  length, drop, Outcome, ok, raised, ◌>>=◌, ltb,
}
use lux_mon.Protocol.Bytes.{Bytes}
use lux_mon.Protocol.Frame.{LuxFrame, prefix}
use lux_mon.Protocol.Scan.{find_frames}

-- `data.startswith(sub)`
unfoldable pub starts_with : Bytes → Bytes → Bool
starts_with [] d = true
starts_with (x ∷ xs) [] = false
starts_with (x ∷ xs) (y ∷ ys) = (x == y) && starts_with xs ys

abbrev pub next_position : Option ℕ → Option ℕ
next_position none = none
next_position (some n) = some (suc n)

-- `data.find(sub)`: the position of the first occurrence; `none` for the source's -1.
unfoldable pub find : Bytes → Bytes → Option ℕ
find sub [] = if starts_with sub [] then some 0 else none
find sub (x ∷ d) =
    let later = find sub d in if starts_with sub (x ∷ d) then some 0 else next_position later

-- `frames[-1]`, of a list that is not empty.
abbrev pub last_frame : LuxFrame → List LuxFrame → LuxFrame
last_frame f [] = f
last_frame f (g ∷ gs) = last_frame g gs

-- `buffer[buffer.find(raw) + len(raw):]`; the slice from -1 + len(raw) where `raw` is not found.
abbrev pub behind : Bytes → Bytes → Option ℕ → Bytes
behind buffer raw none = drop (length raw - 1) buffer
behind buffer raw (some n) = drop (n + length raw) buffer

abbrev pub keep_behind : Bytes → List LuxFrame → List LuxFrame × Bytes
keep_behind buffer [] = ([], buffer)
keep_behind buffer (f ∷ fs) =
    let raw = (last_frame f fs).raw in (f ∷ fs, behind buffer raw (find raw buffer))

-- The frames that are emitted, in order, and the buffer that is kept.
unfoldable pub consume_frames : Bytes → Outcome (List LuxFrame × Bytes)
consume_frames buffer = find_frames buffer >>= (λ frames. ok (keep_behind buffer frames))

-- The buffer from the next prefix on, or nothing; the search starts at position 1.
abbrev pub from_prefix : Bytes → Option ℕ → Bytes
from_prefix buffer none = []
from_prefix buffer (some n) = drop (suc n) buffer

-- The limit of the receive loop: what it keeps of a buffer of more than 8192 bytes.
unfoldable pub trim_buffer : Bytes → Bytes
trim_buffer buffer =
    if ltb 8192 (length buffer) then from_prefix buffer (find prefix (drop 1 buffer)) else buffer
