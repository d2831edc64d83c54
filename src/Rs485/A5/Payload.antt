-- ===== src/Rs485/A5/Payload.antt =====
-- The payloads of the A5/5A protocol: what is read from them, and that nothing received raises.
use Prim.Native.String.{String}
use lux_mon.Base.{
  ℕ, zero, suc, ◌+◌, ◌*◌, ◌<◌, ◌≤◌, ◌≡◌, refl, subst, ap, ap₂, ◌∙◌, pos, sub_ℕ, List, [], ◌∷◌, ◌++◌,
  append_assoc, Bool, true, false, ◌&&◌, none, some, ltb, ◌==◌, if◌then◌else◌, length,
  length-append, drop, All, arith, Bool-cases, inl, inr, ok, Returns, Returns-bind, ltb→ge, ge→ltb,
}
use lux_mon.Protocol.Bytes.{Bytes, byte_at}
use lux_mon.Protocol.Parse.Total.{byte_at-Returns}
use lux_mon.Rs485.Fields.Reads.{u16_be-at, u16_be-Returns, s16_be-Returns}
use lux_mon.Rs485.Fields.{Readings, u16_be, s16_be, be16, cell_key}
use lux_mon.Rs485.Cells.{CellScan, no_cells, see_cell, see_cells}
use lux_mon.Rs485.Cells.Extremes.{sum, Picked, Scanned, see_cells-Scanned}
use lux_mon.Rs485.A5.{
  voltage_readings, mean_16, read_fields, status_fields, parse_status, scan_cells, cell_readings,
  parse_cells, parse_command, handle_frame, handle_frames, read_frames, read, split_frames,
}

abbrev pub cell_bytes : List ℕ → Bytes
cell_bytes [] = []
cell_bytes (mv ∷ mvs) = be16 mv ++ cell_bytes mvs

scan_cells-from :
    (pre : Bytes) (i : ℕ) (cells : List ℕ) (rest : Bytes) (s : CellScan)
    → length pre ≡ 1 + i * 2
    → scan_cells (length cells) i (pre ++ (cell_bytes cells ++ rest)) s ≡ ok (see_cells i cells s)
unfolding scan_cells see_cells
scan_cells-from pre i [] rest s h = refl
scan_cells-from pre i (mv ∷ mvs) rest s h =
    let here : u16_be (pre ++ (cell_bytes (mv ∷ mvs) ++ rest)) (1 + i * 2) ≡ ok mv =
      subst (λ n. u16_be (pre ++ (cell_bytes (mv ∷ mvs) ++ rest)) n ≡ ok mv) h
        (u16_be-at pre mv (cell_bytes mvs ++ rest)) in
    let later =
      scan_cells-from (pre ++ be16 mv) (i + 1) mvs rest (see_cell i mv s)
        (omega (arith, h, length-append pre (be16 mv))) in
    rw here (
      subst
        (λ l.
          scan_cells (length mvs) (i + 1) l (see_cell i mv s)
          ≡ ok (see_cells (i + 1) mvs (see_cell i mv s)))
        (append_assoc pre (be16 mv) (cell_bytes mvs ++ rest)) later)

length-cell_bytes : (cells : List ℕ) → length (cell_bytes cells) ≡ 2 * length cells
length-cell_bytes [] = omega arith
length-cell_bytes (mv ∷ mvs) = omega (arith, length-cell_bytes mvs)

-- The readings of the cells from number `i` on, in millivolts.
abbrev pub numbered : ℕ → List ℕ → Readings
numbered i [] = []
numbered i (mv ∷ mvs) = (cell_key i, pos mv) ∷ numbered (i + 1) mvs

-- What is to be reported of these cells, whose lowest voltage is `lo` and is that of cell `lo_cell`,
-- whose highest is `hi` and is that of cell `hi_cell`, and whose mean is `avg`.
abbrev pub report : List ℕ → ℕ → ℕ → ℕ → ℕ → ℕ → Readings
report cells lo lo_cell hi hi_cell avg =
    ("cell_count", pos 16000) ∷ numbered 1 cells
    ++ (("cell_min_voltage", pos lo)
        ∷ ("cell_max_voltage", pos hi)
        ∷ ("cell_avg_voltage", pos avg)
        ∷ ("cell_delta_voltage", sub_ℕ hi lo)
        ∷ ("cell_min_index", pos (1000 * lo_cell))
        ∷ ("cell_max_index", pos (1000 * hi_cell))
        ∷ [])

numbered-voltage_readings : (i : ℕ) (mvs : List ℕ) → voltage_readings i mvs ≡ numbered i mvs
numbered-voltage_readings i [] = refl
numbered-voltage_readings i (mv ∷ mvs) =
    ap (◌∷◌ (cell_key i, pos mv)) (numbered-voltage_readings (i + 1) mvs)

mean_16-near : (n : ℕ) → (16 * mean_16 n ≤ n + 8) × (n ≤ 16 * mean_16 n + 8)
mean_16-near n = (ground arith, ground arith)

cell_readings-report :
    (cells : List ℕ) (s : CellScan)
    → Scanned 10000 cells s
    → cell_readings s ≡ report cells s.min_v s.min_idx s.max_v s.max_idx (mean_16 (sum cells))
unfolding cell_readings
cell_readings-report cells s h =
    ap₂ report_of (numbered-voltage_readings 1 s.cell_voltages ∙ ap (numbered 1) h.voltages) h.total
  where
    report_of : Readings → ℕ → Readings
    report_of vs total =
        ("cell_count", pos 16000) ∷ vs
        ++ (("cell_min_voltage", pos s.min_v)
            ∷ ("cell_max_voltage", pos s.max_v)
            ∷ ("cell_avg_voltage", pos (mean_16 total))
            ∷ ("cell_delta_voltage", sub_ℕ s.max_v s.min_v)
            ∷ ("cell_min_index", pos (1000 * s.min_idx))
            ∷ ("cell_max_index", pos (1000 * s.max_idx))
            ∷ [])

-- A payload with sixteen cell voltages behind its first byte is parsed into the report of exactly
-- these cells: each voltage under its number; the highest voltage of all and the lowest, under the
-- names of the maximum and the minimum, each with the number of a cell that has it, and their
-- difference; and the mean to the nearest millivolt. The lowest is looked for below 10 V: where no
-- cell is, it is 10 V with the number 0, and where all cells are at 0 so is the number of the highest.
pub parse_cells-Scanned :
    (head : ℕ) (cells : List ℕ) (rest : Bytes)
    → length cells ≡ 16
    → (lo lo_cell hi hi_cell avg : ℕ) × (parse_cells (head ∷ (cell_bytes cells ++ rest))
        ≡ ok (some (report cells lo lo_cell hi hi_cell avg)))
      × All (λ mv. lo ≤ mv) cells
      × All (λ mv. mv ≤ hi) cells
      × Picked cells 10000 lo_cell lo
      × Picked cells 0 hi_cell hi
      × (16 * avg ≤ sum cells + 8)
      × (sum cells ≤ 16 * avg + 8)
unfolding parse_cells
parse_cells-Scanned head cells rest h =
    let long : ltb (length (head ∷ (cell_bytes cells ++ rest))) 33 ≡ false =
      ge→ltb _ 33
        (omega (arith, h, length-append (cell_bytes cells) rest, length-cell_bytes cells)) in
    let scanned : scan_cells 16 0 (head ∷ (cell_bytes cells ++ rest)) (no_cells 10000)
        ≡ ok (see_cells 0 cells (no_cells 10000)) =
      subst
        (λ n.
          scan_cells n 0 (head ∷ (cell_bytes cells ++ rest)) (no_cells 10000)
          ≡ ok (see_cells 0 cells (no_cells 10000)))
        h (scan_cells-from (head ∷ []) 0 cells rest (no_cells 10000) (omega arith)) in
    let s = see_cells 0 cells (no_cells 10000) in
    let found = see_cells-Scanned 10000 cells in
    (
      s.min_v,
      s.min_idx,
      s.max_v,
      s.max_idx,
      mean_16 (sum cells),
      rw (long, scanned) (ap (λ r. ok (some r)) (cell_readings-report cells s found)),
      found.lowest,
      found.highest,
      found.lowest_cell,
      found.highest_cell,
      (mean_16-near (sum cells)).0,
      (mean_16-near (sum cells)).1,
    )

read_fields-Returns :
    (fields : List (String × ℕ)) (payload : Bytes)
    → All (λ f. f.1 + 1 < 35) fields
    → 35 ≤ length payload
    → Returns (read_fields fields payload)
unfolding read_fields
read_fields-Returns [] payload h l = refl
read_fields-Returns ((key, o) ∷ fields) payload (h, hs) l =
    Returns-bind (u16_be payload o) _ (u16_be-Returns payload o (omega (arith, h, l))) (λ v e.
      Returns-bind (read_fields fields payload) _ (read_fields-Returns fields payload hs l)
        (λ r e'. refl))

scan_cells-Returns :
    (left i : ℕ) (payload : Bytes) (s : CellScan)
    → 1 + (i + left) * 2 ≤ length payload
    → Returns (scan_cells left i payload s)
unfolding scan_cells
scan_cells-Returns zero i payload s h = refl
scan_cells-Returns (suc left) i payload s h =
    Returns-bind (u16_be payload (1 + i * 2)) _
      (u16_be-Returns payload (1 + i * 2) (omega (arith, h)))
      (λ mv e. scan_cells-Returns left (i + 1) payload (see_cell i mv s) (omega (arith, h)))

status_fields_inside : All (λ f. f.1 + 1 < 35) status_fields
status_fields_inside = ground arith

parse_status-Returns : (payload : Bytes) → Returns (parse_status payload)
unfolding parse_status
parse_status-Returns payload = elim (Bool-cases (ltb (length payload) 35)) [
  | inl t ↦ rw t refl
  | inr f ↦
      let l = ltb→ge (length payload) 35 f in
      rw f (
        Returns-bind (u16_be payload 1) _ (u16_be-Returns payload 1 (omega (arith, l))) (λ v e.
          Returns-bind (s16_be payload 3) _ (s16_be-Returns payload 3 (omega (arith, l))) (λ c e.
            Returns-bind (read_fields status_fields payload) _
              (read_fields-Returns status_fields payload status_fields_inside l) (λ r e. refl))))
]

parse_cells-Returns : (payload : Bytes) → Returns (parse_cells payload)
unfolding parse_cells
parse_cells-Returns payload = elim (Bool-cases (ltb (length payload) 33)) [
  | inl t ↦ rw t refl
  | inr f ↦
      let l = ltb→ge (length payload) 33 f in
      rw f (
        Returns-bind (scan_cells 16 0 payload (no_cells 10000)) _
          (scan_cells-Returns 16 0 payload _ l) (λ s e. refl))
]

parse_command-Returns : (cmd sub : ℕ) (payload : Bytes) → Returns (parse_command cmd sub payload)
parse_command-Returns cmd sub payload =
    chosen (cmd == 0x82 && sub == 0x10) (cmd == 0x82 && sub == 0x11)
  where
    chosen :
        (a b : Bool)
        → Returns (if a then parse_status payload else if b then parse_cells payload else ok none)
    chosen true b = parse_status-Returns payload
    chosen false true = parse_cells-Returns payload
    chosen false false = refl

handle_frame-Returns : (frame : Bytes) (latest : Readings) → Returns (handle_frame frame latest)
unfolding handle_frame
handle_frame-Returns frame latest = elim (Bool-cases (ltb (length frame) 5)) [
  | inl t ↦ rw t refl
  | inr f ↦
      let l = ltb→ge (length frame) 5 f in
      rw f (
        Returns-bind (byte_at frame 3) _ (byte_at-Returns frame 3 (omega (arith, l))) (λ cmd e.
          Returns-bind (byte_at frame 4) _ (byte_at-Returns frame 4 (omega (arith, l))) (λ sub e.
            Returns-bind (parse_command cmd sub (drop 5 frame)) _
              (parse_command-Returns cmd sub (drop 5 frame)) (λ p e. refl))))
]

handle_frames-Returns :
    (frames : List Bytes) (latest : Readings) → Returns (handle_frames frames latest)
unfolding handle_frames
handle_frames-Returns [] latest = refl
handle_frames-Returns (frame ∷ frames) latest =
    Returns-bind (handle_frame frame latest) _ (handle_frame-Returns frame latest)
      (λ l e. handle_frames-Returns frames l)

-- Whatever bytes the port delivers, and whatever was read before, reading them raises nothing.
pub read-Returns : (raw : Bytes) (latest : Readings) → Returns (read raw latest)
unfolding read
read-Returns raw latest = framed (split_frames raw)
  where
    framed : (frames : List Bytes) → Returns (read_frames frames latest)
    framed [] = refl
    framed (frame ∷ frames) =
        Returns-bind (handle_frames (frame ∷ frames) latest) _
          (handle_frames-Returns (frame ∷ frames) latest) (λ l e. refl)
