-- ===== src/Rs485/Jk/Status/Total.antt =====
-- Which status payloads of the JK BMS raise an exception.
use Prim.Native.String.{String}
use lux_mon.Base.{
  ℕ, zero, suc, ◌+◌, ◌-◌, ◌*◌, ◌/◌, ◌<◌, ◌≤◌, ◌≡◌, ◌⊎◌, ◌∙◌, ap, refl, none, ==_iff, min, [], ◌∷◌,
  Bool, true, false, ◌||◌, ltb, leb, ◌==◌, if◌then◌else◌, length, arith, Bool-cases, inl, inr,
  Outcome, ok, ◌>>=◌, Returns, Returns-bind, Returns-ok, ltb→ge, ltb→lt, leb→le,
}
use lux_mon.Protocol.Bytes.{Bytes, byte_at}
use lux_mon.Protocol.Parse.Total.{byte_at-Returns}
use lux_mon.Rs485.Fields.{u16_be, u32_be}
use lux_mon.Rs485.Fields.Reads.{u16_be-Returns, u32_be-Returns}
use lux_mon.Rs485.Cells.{CellScan, no_cells, see_cell}
use lux_mon.Rs485.Jk.Tags.{
  Cursor, has_tag, tag_value, temperature_step, voltage_step, voltage_found, current_step,
  current_found, sign_byte_at, byte_step, byte_found, word_step, word_found, long_step, long_found,
  mode_step, mode_found, capacity_found, capacity_scan, capacity_step, parse_tags,
}
use lux_mon.Rs485.Jk.Status.{jk_cells, parse_cells_and_tags, parse_status}

abbrev pub last_byte : Bytes → ℕ
last_byte [] = 0
last_byte (b ∷ []) = b
last_byte (b ∷ (c ∷ bytes)) = last_byte (c ∷ bytes)

byte_at-last :
    (body : Bytes) (o b : ℕ) → length body ≡ o + 1 → byte_at body o ≡ ok b → b ≡ last_byte body
unfolding byte_at
byte_at-last [] o b h e = absurd (omega arith)
byte_at-last (x ∷ []) zero b h e = cc
byte_at-last (x ∷ []) (suc o) b h e = absurd (omega arith)
byte_at-last (x ∷ (y ∷ body)) zero b h e = absurd (omega arith)
byte_at-last (x ∷ (y ∷ body)) (suc o) b h e = byte_at-last (y ∷ body) o b (omega (arith, h)) e

-- A step behind a test for a tag returns if it does so where the tag is there.
tagged-Returns {ℓ} :
    {A : Type ℓ} (size tag : ℕ) (body : Bytes) (o : ℕ) (f : Bool → Outcome A)
    → 1 ≤ size
    → Returns (f false)
    → (o + size ≤ length body → byte_at body o ≡ ok tag → Returns (f true))
    → Returns (has_tag size tag body o >>= f)
unfolding has_tag
tagged-Returns size tag body o f h n y = elim (Bool-cases (leb (o + size) (length body))) [
  | inr e ↦ rw e n
  | inl e ↦
      let l = leb→le _ _ e in
      let (b, p) = Returns-ok (byte_at body o) (byte_at-Returns body o (omega (arith, l, h))) in
      rw (e, p) (found b p l (Bool-cases (b == tag)))
]
  where
    found :
        (b : ℕ)
        → byte_at body o ≡ ok b
        → o + size ≤ length body
        → ((b == tag) ≡ true) ⊎ ((b == tag) ≡ false)
        → Returns (f (b == tag))
    found b p l (inl t) = rw t (y l (p ∙ ap ok ((==_iff b tag).0 t)))
    found b p l (inr t) = rw t n

tag_value-Returns :
    (body : Bytes) (c : Cursor) → c.offset + 3 ≤ length body → Returns (tag_value body c)
unfolding tag_value
tag_value-Returns body c h =
    Returns-bind (u16_be body (c.offset + 1)) _
      (u16_be-Returns body (c.offset + 1) (omega (arith, h))) (λ v e. refl)

temperature_step-Returns :
    (key : String) (body : Bytes) (c : Cursor) → Returns (temperature_step key body c)
unfolding temperature_step
temperature_step-Returns key body c = elim (Bool-cases (leb (c.offset + 3) (length body))) [
  | inr f ↦ rw f refl
  | inl t ↦
      rw t
        (Returns-bind (tag_value body c) _ (tag_value-Returns body c (leb→le _ _ t)) (λ v e. refl))
]

voltage_step-Returns : (body : Bytes) (c : Cursor) → Returns (voltage_step body c)
unfolding voltage_step
voltage_step-Returns body c =
    tagged-Returns 3 0x83 body c.offset (voltage_found body c) (omega arith) refl
      (λ l p. Returns-bind (tag_value body c) _ (tag_value-Returns body c l) (λ v e. refl))

sign_byte_at-Returns : (body : Bytes) (o : ℕ) → Returns (sign_byte_at body o)
sign_byte_at-Returns body o = elim (Bool-cases (ltb o (length body))) [
  | inl t ↦ rw t (byte_at-Returns body o (ltb→lt _ _ t))
  | inr f ↦ rw f refl
]

current_step-Returns : (body : Bytes) (v : ℕ) (c : Cursor) → Returns (current_step body v c)
unfolding current_step
current_step-Returns body v c =
    tagged-Returns 3 0x84 body c.offset (current_found body v c) (omega arith) refl (λ l p.
      Returns-bind (tag_value body c) _ (tag_value-Returns body c l) (λ r e.
        Returns-bind (sign_byte_at body r.1.offset) _ (sign_byte_at-Returns body r.1.offset)
          (λ s e'. refl)))

-- With two bytes asked for, or another last byte, the value of one byte is there.
byte_step-Returns :
    (size tag : ℕ) (key : String) (body : Bytes) (c : Cursor)
    → 1 ≤ size
    → (byte_at body c.offset ≡ ok tag → c.offset + size ≤ length body → c.offset + 1 < length body)
    → Returns (byte_step size tag key body c)
unfolding byte_step
byte_step-Returns size tag key body c h k =
    tagged-Returns size tag body c.offset (byte_found key body c) h refl (λ l p.
      Returns-bind (byte_at body (c.offset + 1)) _ (byte_at-Returns body (c.offset + 1) (k p l))
        (λ v e. refl))

word_step-Returns :
    (tag : ℕ) (key : String) (body : Bytes) (c : Cursor) → Returns (word_step tag key body c)
unfolding word_step
word_step-Returns tag key body c =
    tagged-Returns 3 tag body c.offset (word_found key body c) (omega arith) refl (λ l p.
      Returns-bind (u16_be body (c.offset + 1)) _
        (u16_be-Returns body (c.offset + 1) (omega (arith, l))) (λ v e. refl))

long_step-Returns :
    (tag : ℕ) (key : String) (body : Bytes) (c : Cursor) → Returns (long_step tag key body c)
unfolding long_step
long_step-Returns tag key body c =
    tagged-Returns 5 tag body c.offset (long_found key body c) (omega arith) refl (λ l p.
      Returns-bind (u32_be body (c.offset + 1)) _
        (u32_be-Returns body (c.offset + 1) (omega (arith, l))) (λ v e. refl))

mode_step-Returns : (body : Bytes) (c : Cursor) → Returns (mode_step body c)
unfolding mode_step
mode_step-Returns body c =
    tagged-Returns 3 0x8c body c.offset (mode_found body c) (omega arith) refl (λ l p.
      Returns-bind (u16_be body (c.offset + 1)) _
        (u16_be-Returns body (c.offset + 1) (omega (arith, l))) (λ v e. refl))

capacity_found-Returns :
    (body : Bytes) (scan : ℕ) (c : Cursor) (rest : Outcome Cursor) (t : Bool)
    → scan + 4 < length body
    → Returns rest
    → Returns (capacity_found body scan c rest t)
capacity_found-Returns body scan c rest true l r =
    Returns-bind (u32_be body (scan + 1)) _ (u32_be-Returns body (scan + 1) (omega (arith, l)))
      (λ v e. refl)
capacity_found-Returns body scan c rest false l r = r

capacity_scan-Returns :
    (left scan : ℕ) (body : Bytes) (c : Cursor)
    → (1 ≤ left → left + scan ≤ length body - 5)
    → Returns (capacity_scan left scan body c)
unfolding capacity_scan
capacity_scan-Returns zero scan body c h = refl
capacity_scan-Returns (suc left) scan body c h =
    let l = h (omega arith) in
    Returns-bind (byte_at body scan) _ (byte_at-Returns body scan (omega (arith, l))) (λ b e.
      capacity_found-Returns body scan c _ (b == 0xaa) (omega (arith, l))
        (capacity_scan-Returns left (scan + 1) body c (λ m. omega (arith, l))))

capacity_step-Returns : (body : Bytes) (c : Cursor) → Returns (capacity_step body c)
unfolding capacity_step
capacity_step-Returns body c =
    capacity_scan-Returns (min (length body - 5) (c.offset + 120) - c.offset) c.offset body c
      (λ m. omega (arith, m))

-- The one value that is read past its guard is the state of charge, whose guard asks for one byte.
soc_inside :
    (body : Bytes) (o : ℕ)
    → (last_byte body == 0x85) ≡ false
    → byte_at body o ≡ ok 0x85
    → o + 1 ≤ length body
    → o + 1 < length body
soc_inside body o h p l = elim (Bool-cases (ltb (o + 1) (length body))) [
  | inl t ↦ ltb→lt _ _ t
  | inr f ↦
      let last : 0x85 ≡ last_byte body =
        byte_at-last body o 0x85 (omega (arith, l, ltb→ge _ _ f)) p in
      cc
]

parse_tags-Returns :
    (body : Bytes) (c : Cursor) → (last_byte body == 0x85) ≡ false → Returns (parse_tags body c)
unfolding parse_tags
parse_tags-Returns body c h = Returns-bind _ _ (temperature_step-Returns _ body c) (λ c e.
    Returns-bind _ _ (temperature_step-Returns _ body c) (λ c e.
      Returns-bind _ _ (temperature_step-Returns _ body c) (λ c e.
        Returns-bind _ _ (voltage_step-Returns body c) (λ v e.
          Returns-bind _ _ (current_step-Returns body v.0 v.1) (λ c e.
            Returns-bind _ _
              (byte_step-Returns 1 0x85 _ body c (omega arith)
                (λ p l. soc_inside body c.offset h p l))
              (λ c e.
                Returns-bind _ _
                  (byte_step-Returns 2 0x86 _ body c (omega arith) (λ p l. omega (arith, l)))
                  (λ c e. Returns-bind _ _ (word_step-Returns 0x87 _ body c) (λ c e.
                    Returns-bind _ _ (long_step-Returns 0x89 _ body c) (λ c e.
                      Returns-bind _ _ (word_step-Returns 0x8a _ body c) (λ c e.
                        Returns-bind _ _ (word_step-Returns 0x8b _ body c) (λ c e.
                          Returns-bind _ _ (mode_step-Returns body c)
                            (λ c e. capacity_step-Returns body c))))))))))))

jk_cells-Returns :
    (left i : ℕ) (body : Bytes) (s : CellScan)
    → (i + left) * 3 + 3 ≤ length body
    → Returns (jk_cells left i body s)
unfolding jk_cells
jk_cells-Returns zero i body s h = refl
jk_cells-Returns (suc left) i body s h =
    Returns-bind (byte_at body (3 + i * 3)) _ (byte_at-Returns body (3 + i * 3) (omega (arith, h)))
      (λ b e.
        Returns-bind (u16_be body (3 + i * 3 + 1)) _
          (u16_be-Returns body (3 + i * 3 + 1) (omega (arith, h)))
          (λ mv e. jk_cells-Returns left (i + 1) body (see_cell i mv s) (omega (arith, h))))

cells_and_tags-Returns :
    (n : ℕ) (body : Bytes)
    → (last_byte body == 0x85) ≡ false
    → Returns (parse_cells_and_tags n body)
unfolding parse_cells_and_tags
cells_and_tags-Returns n body h = elim (Bool-cases (n == 0 || ltb 64 n)) [
  | inl t ↦ rw t refl
  | inr f ↦ elim (Bool-cases (ltb (length body) (n * 3 + 3))) [
    | inl t ↦ rw (f, t) refl
    | inr g ↦
        rw (f, g)
          (Returns-bind (jk_cells n 0 body (no_cells 100000)) _
            (jk_cells-Returns n 0 body (no_cells 100000) (omega (arith, ltb→ge _ _ g)))
            (λ s e. Returns-bind (parse_tags body _) _ (parse_tags-Returns body _ h) (λ c e. refl)))
  ]
]

-- A status payload whose last byte is not the tag of the state of charge raises nothing, however it
-- is made up.
pub parse_status-Returns :
    (body : Bytes) → (last_byte body == 0x85) ≡ false → Returns (parse_status body)
unfolding parse_status
parse_status-Returns body h = elim (Bool-cases (ltb (length body) 2)) [
  | inl t ↦ rw t refl
  | inr f ↦
      let l = ltb→ge _ _ f in
      rw f (
        Returns-bind (byte_at body 0) _ (byte_at-Returns body 0 (omega (arith, l)))
          (λ m e. marked (m == 0x79) l))
]
  where
    marked :
        (t : Bool)
        → 2 ≤ length body
        → Returns
            (if t then byte_at body 1 >>= (λ n. parse_cells_and_tags (n / 3) body) else ok none)
    marked true l =
        Returns-bind (byte_at body 1) _ (byte_at-Returns body 1 (omega (arith, l)))
          (λ n e. cells_and_tags-Returns (n / 3) body h)
    marked false l = refl
