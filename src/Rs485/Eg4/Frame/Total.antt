-- ===== src/Rs485/Eg4/Frame/Total.antt =====
-- What the battery answers raises nothing in the parser.
use lux_mon.Base.{
  ℕ, zero, suc, ◌+◌, ◌-◌, ◌*◌, ◌≤◌, ◌≡◌, refl, [], ◌∷◌, ◌==◌, List, Bool, true, false, arith, ltb,
  ltb→ge, length, length-drop, length-take, drop, take, Returns, Returns-bind, Bool-cases, inl, inr,
  All, none, some, if◌then◌else◌, ok, not, ◌>>=◌, subst,
}
use Prim.Native.String.{String}
use lux_mon.Protocol.Bytes.{Bytes, byte_at, slice}
use lux_mon.Protocol.Parse.Total.{unpack_from-Returns, byte_at-Returns}
use lux_mon.Rs485.Eg4.Blocks.{
  first_be, read_u16, read_s16, read_u32, EgScan, no_eg_cells, eg_cell, eg_cells, parse_main,
  status_head, read_number, read_head, parse_status, parse_block,
}
use lux_mon.Rs485.Eg4.Frame.{Eg4Bms, crc16, check_reply, parse_reply, parse_response}

first_be-Returns : (xs : Bytes) → 2 ≤ length xs → Returns (first_be xs)
unfolding first_be
first_be-Returns [] h = absurd (omega arith)
first_be-Returns (x ∷ []) h = absurd (omega arith)
first_be-Returns (x ∷ (y ∷ xs)) h = refl

read_u16-Returns : (payload : Bytes) (o : ℕ) → o + 2 ≤ length payload → Returns (read_u16 payload o)
unfolding read_u16
read_u16-Returns payload o h =
    first_be-Returns (drop o payload) (omega (arith, length-drop o payload))

read_s16-Returns : (payload : Bytes) (o : ℕ) → o + 2 ≤ length payload → Returns (read_s16 payload o)
unfolding read_s16
read_s16-Returns payload o h = Returns-bind _ _ (read_u16-Returns payload o h) (λ a e. refl)

read_u32-Returns : (payload : Bytes) (o : ℕ) → o + 4 ≤ length payload → Returns (read_u32 payload o)
unfolding read_u32
read_u32-Returns payload o h =
    Returns-bind _ _ (read_u16-Returns payload o (omega arith))
      (λ a e. Returns-bind _ _ (read_u16-Returns payload (o + 2) (omega arith)) (λ b e'. refl))

eg_cells-Returns :
    (left i : ℕ) (payload : Bytes) (s : EgScan)
    → 4 + (i + left) * 2 ≤ length payload
    → Returns (eg_cells left i payload s)
unfolding eg_cells
eg_cells-Returns zero i payload s h = refl
eg_cells-Returns (suc left) i payload s h =
    Returns-bind _ _ (read_u16-Returns payload (4 + i * 2) (omega arith))
      (λ mv e. eg_cells-Returns left (i + 1) payload (eg_cell i mv s) (omega arith))

parse_main-Returns : (payload : Bytes) → 36 ≤ length payload → Returns (parse_main payload)
unfolding parse_main
parse_main-Returns payload h = Returns-bind _ _ (read_u16-Returns payload 0 (omega arith)) (λ v e.
    Returns-bind _ _ (read_s16-Returns payload 2 (omega arith)) (λ c e'.
      Returns-bind _ _ (eg_cells-Returns 16 0 payload no_eg_cells (omega arith)) (λ s e''. refl)))

-- Each field of the table lies inside the payload.
abbrev FieldsInside : List (String × Bool × ℕ) → Bytes → Type 0
FieldsInside fields payload = All (λ (key, signed, o). o + 2 ≤ length payload) fields

read_number-Returns :
    (signed : Bool) (payload : Bytes) (o : ℕ)
    → o + 2 ≤ length payload
    → Returns (read_number signed payload o)
read_number-Returns true payload o h = read_s16-Returns payload o h
read_number-Returns false payload o h =
    Returns-bind _ _ (read_u16-Returns payload o h) (λ a e. refl)

read_head-Returns :
    (fields : List (String × Bool × ℕ)) (payload : Bytes)
    → FieldsInside fields payload
    → Returns (read_head fields payload)
unfolding read_head
read_head-Returns [] payload h = refl
read_head-Returns ((key, signed, o) ∷ fields) payload (h, hs) =
    Returns-bind _ _ (read_number-Returns signed payload o h)
      (λ v e. Returns-bind _ _ (read_head-Returns fields payload hs) (λ r e'. refl))

parse_status-Returns : (payload : Bytes) → 42 ≤ length payload → Returns (parse_status payload)
unfolding parse_status
parse_status-Returns payload h =
    Returns-bind _ _ (read_head-Returns status_head payload head) (λ _ _.
      Returns-bind _ _ (read_u16-Returns payload 14 (omega arith)) (λ _ _.
        Returns-bind _ _ (read_u16-Returns payload 16 (omega arith)) (λ _ _.
          Returns-bind _ _ (read_u16-Returns payload 18 (omega arith)) (λ _ _.
            Returns-bind _ _ (read_u16-Returns payload 20 (omega arith)) (λ _ _.
              Returns-bind _ _ (read_u32-Returns payload 22 (omega arith)) (λ _ _.
                Returns-bind _ _ (read_u16-Returns payload 38 (omega arith)) (λ _ _. refl)))))))
  where
    head : FieldsInside status_head payload
    head = (
      omega arith,
      (omega arith, (omega arith, (omega arith, (omega arith, (omega arith, (omega arith, tt)))))),
    )

parse_block-Returns : (payload : Bytes) → Returns (parse_block (length payload) payload)
unfolding parse_block
parse_block-Returns payload =
    ground (arith, parse_main-Returns payload, parse_status-Returns payload)

length-slice :
    (stream : Bytes) (a n : ℕ) → a + n ≤ length stream → length (slice stream a (a + n)) ≡ n
length-slice stream a n h =
    omega (arith, length-take (a + n - a) (drop a stream), length-drop a stream)

check_reply-Returns :
    (n : ℕ) (stream : Bytes) → 3 + n + 2 ≤ length stream → Returns (check_reply n stream)
unfolding check_reply
check_reply-Returns n stream h =
    Returns-bind _ _ (unpack_from-Returns stream (length stream - 2) (omega arith))
      (λ crc e. tested (crc16 (take (length stream - 2) stream) == crc))
  where
    block : Returns (parse_block n (slice stream 3 (3 + n)))
    block =
        subst (λ m. Returns (parse_block m (slice stream 3 (3 + n))))
          (length-slice stream 3 n (omega arith)) (parse_block-Returns (slice stream 3 (3 + n)))

    tested :
        (b : Bool)
        → Returns (
            if b
            then (parse_block n (slice stream 3 (3 + n)) >>= (λ result. ok (some result)))
            else ok none)
    tested true = Returns-bind _ _ block (λ r e. refl)
    tested false = refl

parse_reply-Returns :
    (function : ℕ) (stream : Bytes) → 5 ≤ length stream → Returns (parse_reply function stream)
unfolding parse_reply
parse_reply-Returns function stream h =
    ground (arith, Returns-bind _ _ (byte_at-Returns stream 2 (omega arith)) sized)
  where
    sized :
        (n : ℕ)
        → byte_at stream 2 ≡ ok n
        → Returns (if ltb (length stream) (3 + n + 2) then ok none else check_reply n stream)
    sized n e = ground (arith, check_reply-Returns n stream)

-- Whatever bytes the port delivers, parsing them as the answer of the battery raises nothing: a
-- block that passes the tests of its length and its checksum has every field that is read from it.
pub parse_response-Returns : (d : Eg4Bms) (stream : Bytes) → Returns (parse_response d stream)
unfolding parse_response
parse_response-Returns d stream = elim (Bool-cases (ltb (length stream) 5)) [
  | inl t ↦ rw t refl
  | inr f ↦ rw f (answered (ltb→ge _ _ f))
]
  where
    from_slave :
        5 ≤ length stream
        → (from : ℕ)
        → Returns (
            if not (from == d.slave)
            then ok none
            else (byte_at stream 1 >>= (λ function. parse_reply function stream)))
    from_slave h from = ground (
      arith,
      Returns-bind _ _ (byte_at-Returns stream 1 (omega arith))
          (λ function e. parse_reply-Returns function stream h),
    )

    answered :
        5 ≤ length stream
        → Returns (
            byte_at stream 0 >>= (λ from.
              if not (from == d.slave)
              then ok none
              else (byte_at stream 1 >>= (λ function. parse_reply function stream))))
    answered h =
        Returns-bind _ _ (byte_at-Returns stream 0 (omega arith)) (λ from e. from_slave h from)
