-- ===== src/Comm/Replay.antt =====
-- `ReplayTransport._run` of collector/comm/replay.py: a captured file is fed in chunks to the scan of
-- frames, and the buffer is cut as in the passive transport. The frames emitted are in order.
pub mod Chunks
use lux_mon.Base.{ℕ, zero, suc, List, [], ◌∷◌, ◌++◌, length, take, drop, Outcome, ok, ◌>>=◌}
use lux_mon.Protocol.Bytes.{Bytes}
use lux_mon.Protocol.Frame.{LuxFrame}
use lux_mon.Comm.Passive.{consume_frames}

-- `data[offset:offset + chunk_size] for offset in range(0, len(data), chunk_size)`, on fuel, for a
-- chunk size that is not 0. The length of the data is enough.
unfoldable pub chunks : ℕ → ℕ → Bytes → List Bytes
chunks zero chunk_size stream = []
chunks (suc fuel) chunk_size [] = []
chunks (suc fuel) chunk_size (b ∷ stream) =
    take chunk_size (b ∷ stream) ∷ chunks fuel chunk_size (drop chunk_size (b ∷ stream))

-- The loop, with the buffer.
unfoldable pub replay_chunks : List Bytes → Bytes → Outcome (List LuxFrame)
replay_chunks [] buffer = ok []
replay_chunks (chunk ∷ rest) buffer = consume_frames (buffer ++ chunk) >>= λ (frames, kept).
    replay_chunks rest kept >>= λ later. ok (frames ++ later)

unfoldable pub replay : ℕ → Bytes → Outcome (List LuxFrame)
replay chunk_size stream = replay_chunks (chunks (length stream) chunk_size stream) []
