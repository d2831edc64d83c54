-- ===== src/Protocol/Scan/Stream.antt =====
-- What the scan finds: it ends on every buffer, and it returns the frames of a stream in order.
use lux_mon.Base.{
  ℕ, zero, suc, ◌+◌, ◌*◌, ◌≤◌, ◌<◌, ◌≡◌, ◌≢◌, refl, sym, ap, ◌∙◌, List, [], ◌∷◌, ◌++◌, arith, ltb,
  leb, lt→ltb, ge→ltb, le→leb, ltb→lt, length, length-append, length-drop, take, drop,
  take-append_self, drop-append_self, Outcome, ok, raised, ◌>>=◌, Option, none, some, Bool-cases,
  inl, inr, ltb→ge, Returns, Returns-ok, if◌then◌else◌,
}
use lux_mon.Protocol.Bytes.{Bytes, unpack_from}
use lux_mon.Protocol.Frame.{LuxFrame}
use lux_mon.Protocol.Parse.{has_prefix, parse_frame}
use lux_mon.Protocol.Parse.Total.{unpack_from-Returns, parse_frame-Returns}
use lux_mon.Protocol.Scan.{frame_size, keep, find_from, find_frames}

frame_size-Returns : (d : Bytes) → Returns (frame_size d)
unfolding frame_size
frame_size-Returns d = ground (arith, unpack_from-Returns d 4)

sized :
    (m : Outcome ℕ) (len total : ℕ)
    → (m >>= (λ n. ok (if leb (6 + n) len then some (6 + n) else none))) ≡ ok (some total)
    → 6 ≤ total
sized (ok n) len total e = ground arith
sized (raised x) len total e = cc

-- A frame has its six bytes of header at least.
frame_size-le : (d : Bytes) (total : ℕ) → frame_size d ≡ ok (some total) → 6 ≤ total
unfolding frame_size
frame_size-le d total e = ground (arith, sized (unpack_from d 4) (length d) total)

-- One round of the scan, by what stands at its start.
round_skip :
    (fuel : ℕ) (d : Bytes)
    → 1 < length d
    → frame_size d ≡ ok none
    → find_from (suc fuel) d ≡ find_from fuel (drop 1 d)
unfolding find_from
round_skip fuel d h e = rw (lt→ltb 1 (length d) h, e)

round_frame :
    (fuel : ℕ) (d : Bytes) (total : ℕ) (o : Option LuxFrame)
    → 1 < length d
    → frame_size d ≡ ok (some total)
    → parse_frame (take total d) ≡ ok o
    → find_from (suc fuel) d ≡ (find_from fuel (drop total d) >>= (λ fs. ok (keep o fs)))
unfolding find_from
round_frame fuel d total o h e p = rw (lt→ltb 1 (length d) h, e, p)

round_end : (fuel : ℕ) (d : Bytes) → length d ≤ 1 → find_from (suc fuel) d ≡ ok []
unfolding find_from
round_end fuel d h = rw (ge→ltb 1 (length d) h)

-- The rest of a round, over the fuel that is left.
continue : ℕ → Bytes → Option ℕ → Outcome (List LuxFrame)
continue fuel d none = find_from fuel (drop 1 d)
continue fuel d (some total) =
    parse_frame (take total d) >>= (λ o. find_from fuel (drop total d) >>= (λ fs. ok (keep o fs)))

round_lem :
    (fuel : ℕ) (d : Bytes) (size : Option ℕ)
    → 1 < length d
    → frame_size d ≡ ok size
    → find_from (suc fuel) d ≡ continue fuel d size
unfolding continue
round_lem fuel d none h e = round_skip fuel d h e
round_lem fuel d (some total) h e =
    let (o, p) = Returns-ok _ (parse_frame-Returns (take total d)) in
    round_frame fuel d total o h e p ∙ rw p

-- Two scans agree on what is left of a round if they agree on every shorter buffer.
continue-fuel :
    (f g : ℕ) (d : Bytes) (size : Option ℕ)
    → frame_size d ≡ ok size
    → ((n : ℕ)
        → 1 ≤ n
        → Returns (find_from f (drop n d)) × (find_from f (drop n d) ≡ find_from g (drop n d)))
    → Returns (continue f d size) × (continue f d size ≡ continue g d size)
unfolding continue
continue-fuel f g d none e ih = ih 1 (omega arith)
continue-fuel f g d (some total) e ih =
    let (r, q) = ih total (omega (arith, frame_size-le d total e)) in
    ground (arith, r, q, parse_frame-Returns (take total d))

-- With more fuel than bytes the scan returns, and the amount of fuel does not matter.
find_from-fuel :
    (f g : ℕ) (d : Bytes)
    → length d < f
    → length d < g
    → Returns (find_from f d) × (find_from f d ≡ find_from g d)
find_from-fuel zero g d h k = absurd (omega arith)
find_from-fuel (suc f) zero d h k = absurd (omega arith)
find_from-fuel (suc f) (suc g) d h k = elim (Bool-cases (ltb 1 (length d))) [
  | inr short ↦
      let e = round_end f d (ltb→ge 1 (length d) short) in
      let e' = round_end g d (ltb→ge 1 (length d) short) in (rw e refl, e ∙ sym e')
  | inl long ↦
      let l : 1 < length d = ltb→lt 1 (length d) long in
      let (size, e) = Returns-ok _ (frame_size-Returns d) in
      let (r, q) = continue-fuel f g d size e (λ n hn.
        find_from-fuel f g (drop n d) (omega (arith, length-drop n d))
          (omega (arith, length-drop n d))) in
      (rw (round_lem f d size l e) r, round_lem f d size l e ∙ q ∙ sym (round_lem g d size l e))
]

-- The scan of a receive buffer ends and raises on no byte string.
pub find_frames-Returns : (d : Bytes) → Returns (find_frames d)
unfolding find_frames
find_frames-Returns d = (find_from-fuel _ (length d + 1) d (omega arith) (omega arith)).0

-- The bytes of one frame: the prefix, two bytes of protocol, the length of the rest, the rest.
pub data IsFrame : Bytes → Type 0 where
  framed :
      (x y lo hi : ℕ) (rest : Bytes)
      → length rest ≡ lo + 256 * hi
      → IsFrame (0xa1 ∷ 0x1a ∷ x ∷ y ∷ lo ∷ hi ∷ rest)

frame_size-append : (p q : Bytes) → IsFrame p → frame_size (p ++ q) ≡ ok (some (length p))
unfolding frame_size has_prefix unpack_from
frame_size-append p q (framed x y lo hi rest e) =
    let d : Bytes = 0xa1 ∷ 0x1a ∷ x ∷ y ∷ lo ∷ hi ∷ (rest ++ q) in
    rw
      (
        le→leb 6 (length d) (omega arith),
        le→leb (6 + (lo + 256 * hi)) (length d) (omega (arith, length-append rest q)),
      )
      (ap (λ n. ok (some n)) (omega arith))

IsFrame-length : (p : Bytes) → IsFrame p → 6 ≤ length p
IsFrame-length p (framed x y lo hi rest e) = omega arith

-- On a buffer that starts with a whole frame, the scan returns what the frame parses to, if
-- anything, and then what it finds behind the frame.
pub find_frames-append :
    (p q : Bytes) (o : Option LuxFrame)
    → IsFrame p
    → parse_frame p ≡ ok o
    → find_frames (p ++ q) ≡ (find_frames q >>= (λ fs. ok (keep o fs)))
unfolding find_frames
find_frames-append p q o h e =
    let n = length (p ++ q) in
    let front : find_from (suc n) (p ++ q)
        ≡ (find_from n (drop (length p) (p ++ q)) >>= (λ fs. ok (keep o fs))) =
      round_frame n (p ++ q) (length p) o (omega (arith, IsFrame-length p h, length-append p q))
        (frame_size-append p q h) (ap parse_frame (take-append_self p q) ∙ e) in
    let behind : find_from n (drop (length p) (p ++ q)) ≡ find_from (length q + 1) q =
      ap (find_from n) (drop-append_self p q)
      ∙ (find_from-fuel n (length q + 1) q (omega (arith, IsFrame-length p h, length-append p q))
          (omega arith)).1 in
    let more : length (p ++ q) + 1 ≡ suc n = omega arith in
    ap (λ m. find_from m (p ++ q)) more ∙ front ∙ ap (λ m. m >>= (λ fs. ok (keep o fs))) behind

frame_size-noise : (b : ℕ) (d : Bytes) → b ≢ 0xa1 → frame_size (b ∷ d) ≡ ok none
unfolding frame_size has_prefix
frame_size-noise b [] h = refl
frame_size-noise b (c ∷ d) h = ground arith

find_frames-noise : (b : ℕ) (d : Bytes) → b ≢ 0xa1 → find_frames (b ∷ d) ≡ find_frames d
unfolding find_frames
find_frames-noise b [] h = round_end 1 (b ∷ []) (omega arith) ∙ sym (round_end 0 [] (omega arith))
find_frames-noise b (c ∷ d) h =
    let n = length (c ∷ d) + 1 in
    let more : length (b ∷ (c ∷ d)) + 1 ≡ suc n = omega arith in
    ap (λ m. find_from m (b ∷ (c ∷ d))) more
    ∙ round_skip n (b ∷ (c ∷ d)) (omega arith) (frame_size-noise b (c ∷ d) h)

-- A stream: whole frames that parse, and between them bytes that do not begin a prefix.
pub data Stream : Bytes → List LuxFrame → Type 0 where
  closed : Stream [] []
  noise : (b : ℕ) {d : Bytes} {fs : List LuxFrame} → b ≢ 0xa1 → Stream d fs → Stream (b ∷ d) fs
  frame :
      (p : Bytes) (f : LuxFrame) {d : Bytes} {fs : List LuxFrame}
      → IsFrame p
      → parse_frame p ≡ ok (some f)
      → Stream d fs
      → Stream (p ++ d) (f ∷ fs)

-- On a stream, that is on whole frames that parse, in any number, with any bytes other than 0xA1
-- between them, the scan returns the frames, all of them and in order.
pub find_frames-Stream : {d : Bytes} {fs : List LuxFrame} → Stream d fs → find_frames d ≡ ok fs
find_frames-Stream closed = unfold find_frames in round_end 0 [] (omega arith)
find_frames-Stream (noise b {d = d} h s) = find_frames-noise b d h ∙ find_frames-Stream s
find_frames-Stream (frame p f {d = d} h e s) =
    find_frames-append p d (some f) h e ∙ rw (find_frames-Stream s)
