-- ===== src/Rs485/A5/Split.antt =====
-- What `_split_frames` finds in a stream: every frame of it in order, and nothing else.
use lux_mon.Base.{
  ℕ, zero, suc, ◌+◌, ◌-◌, ◌≡◌, refl, sym, ap, subst, ◌∙◌, List, [], ◌∷◌, ◌++◌, false, none, some,
  ◌==◌, ◌≤◌, le→leb, length, length-append, take, drop, take-append_self, drop-append_self,
  take-append-drop, length-take, length-drop, ap₂, map, append-nil, Option-cases, All, arith,
  Bool-cases, inl, inr, ==_iff,
}
use lux_mon.Protocol.Bytes.{Bytes}
use lux_mon.Rs485.A5.{frame_at, whole_frame, split_from, split_frames}

-- The magic, the length of the rest, the rest.
pub data IsFrame : Bytes → Type 0 where
  framed : (rest : Bytes) → IsFrame (0xa5 ∷ 0x5a ∷ length rest ∷ rest)

-- A stream taken apart: bytes that are passed over, and frames.
pub data Split : Bytes → List Bytes → Type 0 where
  done : Split [] []
  passed :
      {stream : Bytes} {frames : List Bytes} (b : ℕ)
      → Split stream frames
      → Split (b ∷ stream) frames
  found :
      {stream : Bytes} {frames : List Bytes} (frame : Bytes)
      → IsFrame frame
      → Split stream frames
      → Split (frame ++ stream) (frame ∷ frames)

split_from-skip : (n : ℕ) (stream : Bytes) → split_from n stream ≡ split_from 0 (drop n stream)
unfolding split_from
split_from-skip zero stream = refl
split_from-skip (suc n) [] = refl
split_from-skip (suc n) (b ∷ stream) = split_from-skip n stream

frame_at-append :
    (frame stream : Bytes) → IsFrame frame → frame_at (frame ++ stream) ≡ some (length frame)
unfolding frame_at
frame_at-append frame stream (framed rest) =
    rw (le→leb (length rest) (length (rest ++ stream)) (omega (arith, length-append rest stream)))
      (ap some (omega arith))

split_from-found :
    (b n : ℕ) (stream : Bytes)
    → frame_at (b ∷ stream) ≡ some (suc n)
    → split_from 0 (b ∷ stream) ≡ (b ∷ take n stream) ∷ split_from 0 (drop n stream)
unfolding split_from
split_from-found b n stream h =
    let back : suc n - 1 ≡ n = omega arith in
    rw (split_from, h)
      (ap (λ k. (b ∷ take n stream) ∷ split_from k stream) back
        ∙ ap (◌∷◌ (b ∷ take n stream)) (split_from-skip n stream))

split_from-passed :
    (b : ℕ) (stream : Bytes)
    → frame_at (b ∷ stream) ≡ none
    → split_from 0 (b ∷ stream) ≡ split_from 0 stream
unfolding split_from
split_from-passed b stream h = rw (split_from, h) refl

-- A frame at the head of the stream is found, and the search goes on behind it.
split_from-frame :
    (frame stream : Bytes)
    → IsFrame frame
    → split_from 0 (frame ++ stream) ≡ frame ∷ split_from 0 stream
split_from-frame frame stream (framed rest) =
    let tail : Bytes = 0x5a ∷ length rest ∷ rest in
    split_from-found 0xa5 (length tail) (tail ++ stream)
      (frame_at-append (0xa5 ∷ tail) stream (framed rest))
    ∙ ap₂ (λ t d. (0xa5 ∷ t) ∷ split_from 0 d) (take-append_self tail stream)
        (drop-append_self tail stream)

frame_at-Quiet : (b : ℕ) (stream : Bytes) → (b == 0xa5) ≡ false → frame_at (b ∷ stream) ≡ none
unfolding frame_at
frame_at-Quiet b [] h = refl
frame_at-Quiet b (c ∷ []) h = refl
frame_at-Quiet b (c ∷ (len ∷ rest)) h = rw h refl

-- Bytes that cannot start a frame.
abbrev pub Quiet : Bytes → Type 0
Quiet = All (λ b. (b == 0xa5) ≡ false)

split_from-Quiet :
    (gap stream : Bytes) → Quiet gap → split_from 0 (gap ++ stream) ≡ split_from 0 stream
split_from-Quiet [] stream h = refl
split_from-Quiet (b ∷ gap) stream (h, hs) =
    split_from-passed b (gap ++ stream) (frame_at-Quiet b (gap ++ stream) h)
    ∙ split_from-Quiet gap stream hs

-- A broadcast: frames, each behind bytes of noise.
abbrev pub on_the_wire : List (Bytes × Bytes) → Bytes → Bytes
on_the_wire [] tail = tail
on_the_wire ((gap, frame) ∷ rest) tail = gap ++ (frame ++ on_the_wire rest tail)

abbrev pub second : Bytes × Bytes → Bytes
second (gap, frame) = frame

-- If noise without the first magic byte stands before, between and behind whole frames, exactly the
-- frames are returned, in their order.
pub split_frames-on_the_wire :
    (sent : List (Bytes × Bytes)) (tail : Bytes)
    → All (λ s. Quiet s.0 × IsFrame s.1) sent
    → Quiet tail
    → split_frames (on_the_wire sent tail) ≡ map second sent
unfolding split_frames split_from
split_frames-on_the_wire [] tail h q =
    sym (ap (split_from 0) (append-nil tail)) ∙ split_from-Quiet tail [] q
split_frames-on_the_wire ((gap, frame) ∷ rest) tail (h, hs) q =
    split_from-Quiet gap (frame ++ on_the_wire rest tail) h.0
    ∙ split_from-frame frame (on_the_wire rest tail) h.1
    ∙ ap (◌∷◌ frame) (split_frames-on_the_wire rest tail hs q)

IsFrame-of :
    (b c len : ℕ) (rest : Bytes)
    → b ≡ 0xa5
    → c ≡ 0x5a
    → len ≡ length rest
    → IsFrame (b ∷ c ∷ len ∷ rest)
IsFrame-of b c len rest p q r = rw (p, q, r) (framed rest)

whole_frame-some :
    (len n : ℕ) (rest : Bytes)
    → whole_frame len rest ≡ some n
    → (n ≡ 3 + len) × (len ≡ length (take len rest))
whole_frame-some len n rest h = ground (arith, length-take len rest)

-- The frame that `frame_at` announces is one.
frame_at-some :
    (b n : ℕ) (stream : Bytes)
    → frame_at (b ∷ stream) ≡ some n
    → (k : ℕ) × (n ≡ suc k) × IsFrame (b ∷ take k stream)
unfolding frame_at
frame_at-some b n [] h = cc
frame_at-some b n (c ∷ []) h = cc
frame_at-some b n (c ∷ (len ∷ rest)) h = elim (Bool-cases (b == 0xa5)) [
  | inr f ↦ cc
  | inl t ↦ elim (Bool-cases (c == 0x5a)) [
    | inr f ↦ cc
    | inl t' ↦
        let (e, l) = whole_frame-some len n rest (rw (t, t') at h) in
        (
          suc (suc len),
          omega (arith, e),
          IsFrame-of b c len (take len rest) ((==_iff b 0xa5).0 t) ((==_iff c 0x5a).0 t') l,
        )
  ]
]

split_from-Split :
    (fuel : ℕ) (stream : Bytes) → length stream ≤ fuel → Split stream (split_from 0 stream)
unfolding split_from
split_from-Split fuel [] h = done
split_from-Split zero (b ∷ stream) h = absurd (omega arith)
split_from-Split (suc fuel) (b ∷ stream) h = elim (Option-cases (frame_at (b ∷ stream))) [
  | inl e ↦
      rw (split_from-passed b stream e) (passed b (split_from-Split fuel stream (omega (arith, h))))
  | inr (n, e) ↦
      let (k, m, framed_here) = frame_at-some b n stream e in
      let later = split_from-Split fuel (drop k stream) (omega (arith, h, length-drop k stream)) in
      rw (split_from-found b k stream (e ∙ ap some m)) (
        subst (λ s. Split (b ∷ s) ((b ∷ take k stream) ∷ split_from 0 (drop k stream)))
          (take-append-drop k stream) (found (b ∷ take k stream) framed_here later))
]

-- Whatever the stream is, it falls into the frames returned, in their order, and single bytes between
-- them: the frames do not overlap, and each has the magic, its length and as many bytes.
pub split_frames-Split : (stream : Bytes) → Split stream (split_frames stream)
unfolding split_frames
split_frames-Split stream = split_from-Split (length stream) stream (omega arith)
