-- ===== src/Comm/Replay/Chunks.antt =====
-- The replay feeds the whole file, and always ends.
use lux_mon.Base.{
  ℕ, zero, suc, ◌≤◌, ◌≡◌, refl, ap, ◌∙◌, List, [], ◌∷◌, ◌++◌, length, take, drop, take-append-drop,
  length-drop, Returns, Returns-bind, arith,
}
use lux_mon.Protocol.Bytes.{Bytes}
use lux_mon.Protocol.Scan.Stream.{find_frames-Returns}
use lux_mon.Comm.Passive.{consume_frames}
use lux_mon.Comm.Replay.{chunks, replay_chunks, replay}

abbrev pub concat : List Bytes → Bytes
concat [] = []
concat (chunk ∷ rest) = chunk ++ concat rest

concat-chunks_from :
    (fuel chunk_size : ℕ) (stream : Bytes)
    → 1 ≤ chunk_size
    → length stream ≤ fuel
    → concat (chunks fuel chunk_size stream) ≡ stream
unfolding chunks
concat-chunks_from zero n [] h k = refl
concat-chunks_from zero n (b ∷ stream) h k = absurd (omega arith)
concat-chunks_from (suc fuel) n [] h k = refl
concat-chunks_from (suc fuel) n (b ∷ stream) h k =
    ap (λ l. take n (b ∷ stream) ++ l)
      (concat-chunks_from fuel n (drop n (b ∷ stream)) h
        (omega (arith, h, k, length-drop n (b ∷ stream))))
    ∙ take-append-drop n (b ∷ stream)

-- The chunks of a file are the file: no byte is left out or fed twice.
pub concat-chunks :
    (chunk_size : ℕ) (stream : Bytes)
    → 1 ≤ chunk_size
    → concat (chunks (length stream) chunk_size stream) ≡ stream
concat-chunks chunk_size stream h =
    concat-chunks_from (length stream) chunk_size stream h (omega arith)

replay_chunks-Returns : (parts : List Bytes) (buffer : Bytes) → Returns (replay_chunks parts buffer)
unfolding replay_chunks consume_frames
replay_chunks-Returns [] buffer = refl
replay_chunks-Returns (chunk ∷ rest) buffer =
    Returns-bind _ _ (Returns-bind _ _ (find_frames-Returns (buffer ++ chunk)) (λ fs e. refl))
      (λ (frames, kept) e. Returns-bind _ _ (replay_chunks-Returns rest kept) (λ later e'. refl))

-- Whatever the captured file holds, the replay of it raises nothing.
pub replay-Returns : (chunk_size : ℕ) (stream : Bytes) → Returns (replay chunk_size stream)
unfolding replay
replay-Returns chunk_size stream =
    replay_chunks-Returns (chunks (length stream) chunk_size stream) []
