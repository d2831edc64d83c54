-- ===== src/Comm/Passive/Consume.antt =====
-- Which part of the buffer is kept: what follows the last frame, unless that frame came before.
use lux_mon.Base.{
  ◌+◌, ◌≡◌, refl, sym, ap, ap₂, ◌∙◌, List, [], ◌∷◌, ◌++◌, true, some, ==_refl, length, drop,
  drop-append_self, length-append, append_assoc, ok, arith,
}
use lux_mon.Protocol.Bytes.{Bytes}
use lux_mon.Protocol.Frame.{LuxFrame}
use lux_mon.Protocol.Parse.{parse_frame}
use lux_mon.Protocol.Scan.{find_frames}
use lux_mon.Protocol.Scan.Stream.{IsFrame, find_frames-append}
use lux_mon.Comm.Passive.{starts_with, find, last_frame, behind, consume_frames}

starts_with-append : (p q : Bytes) → starts_with p (p ++ q) ≡ true
unfolding starts_with
starts_with-append [] q = refl
starts_with-append (x ∷ p) q = ground (arith, starts_with-append p q, ==_refl x)

find-append : (p q : Bytes) → find p (p ++ q) ≡ some 0
unfolding find
find-append p q = first (p ++ q) (starts_with-append p q)
  where
    first : (d : Bytes) → starts_with p d ≡ true → find p d ≡ some 0
    first [] h = rw h
    first (x ∷ d) h = rw h

-- If the bytes of the last frame found in a buffer occur in it first at a position, all the
-- frames are emitted and the bytes behind that occurrence are kept.
pub consume_frames-first :
    (pre rest : Bytes) (f : LuxFrame) (fs : List LuxFrame)
    → let raw = (last_frame f fs).raw in
      find_frames (pre ++ (raw ++ rest)) ≡ ok (f ∷ fs)
      → find raw (pre ++ (raw ++ rest)) ≡ some (length pre)
      → consume_frames (pre ++ (raw ++ rest)) ≡ ok (f ∷ fs, rest)
unfolding consume_frames
consume_frames-first pre rest f fs e h =
    let raw : Bytes = (last_frame f fs).raw in
    let cut : drop (length pre + length raw) (pre ++ (raw ++ rest)) ≡ rest =
      ap₂ drop (sym (length-append pre raw)) (sym (append_assoc pre raw rest))
      ∙ drop-append_self (pre ++ raw) rest in
    rw (e, h) (ap (λ b. ok (f ∷ fs, b)) cut)

-- If a buffer starts with a frame, and the last frame found in it has the same bytes, then all
-- the frames are emitted, but everything behind the first copy is kept, the later copy included.
pub consume_frames-repeated :
    (p q : Bytes) (f : LuxFrame) (fs : List LuxFrame)
    → IsFrame p
    → parse_frame p ≡ ok (some f)
    → find_frames q ≡ ok fs
    → (last_frame f fs).raw ≡ p
    → consume_frames (p ++ q) ≡ ok (f ∷ fs, q)
unfolding consume_frames
consume_frames-repeated p q f fs h e r l =
    let found : find_frames (p ++ q) ≡ ok (f ∷ fs) =
      find_frames-append p q (some f) h e ∙ rw r refl in
    let start : 0 + length p ≡ length p = omega arith in
    let cut : behind (p ++ q) p (find p (p ++ q)) ≡ q =
      rw (find-append p q) (ap (λ n. drop n (p ++ q)) start ∙ drop-append_self p q) in
    rw (found, l) (ap (λ b. ok (f ∷ fs, b)) cut)
