-- ===== src/Rs485/Fields/Reads.antt =====
-- Reading the fields of the battery protocols: what stands there, and where the payload is too short.
use lux_mon.Base.{
  ℕ, ◌+◌, ◌/◌, ◌%◌, ◌<◌, ◌≡◌, refl, ap, subst, [], ◌∷◌, ◌++◌, append_assoc, some, length,
  length-append, get_elem?, arith, ok, Returns, Returns-bind,
}
use lux_mon.Protocol.Bytes.{Bytes, byte_at}
use lux_mon.Protocol.Parse.Total.{byte_at-Returns}
use lux_mon.Rs485.Fields.{u16_be, s16_be, u32_be, be16}

get-at : (pre : Bytes) (b : ℕ) (rest : Bytes) → get_elem? (pre ++ b ∷ rest) (length pre) ≡ some b
get-at [] b rest = refl
get-at (x ∷ pre) b rest = get-at pre b rest

-- A field is read back from where its two bytes stand.
pub u16_be-at :
    (pre : Bytes) (v : ℕ) (rest : Bytes) → u16_be (pre ++ (be16 v ++ rest)) (length pre) ≡ ok v
unfolding u16_be byte_at
u16_be-at pre v rest =
    let low : get_elem? (pre ++ (be16 v ++ rest)) (length pre + 1) ≡ some (v % 256) =
      subst (λ l. get_elem? l (length pre + 1) ≡ some (v % 256))
        (append_assoc pre (v / 256 ∷ []) (v % 256 ∷ rest))
        (subst (λ n. get_elem? ((pre ++ v / 256 ∷ []) ++ v % 256 ∷ rest) n ≡ some (v % 256))
          (length-append pre (v / 256 ∷ [])) (get-at (pre ++ v / 256 ∷ []) (v % 256) rest)) in
    rw (get-at pre (v / 256) (v % 256 ∷ rest), low) (ap ok (omega arith))

pub u16_be-Returns : (bytes : Bytes) (o : ℕ) → o + 1 < length bytes → Returns (u16_be bytes o)
unfolding u16_be
u16_be-Returns bytes o h =
    Returns-bind (byte_at bytes o) _ (byte_at-Returns bytes o (omega (arith, h))) (λ a e.
      Returns-bind (byte_at bytes (o + 1)) _ (byte_at-Returns bytes (o + 1) h) (λ b e'. refl))

pub s16_be-Returns : (bytes : Bytes) (o : ℕ) → o + 1 < length bytes → Returns (s16_be bytes o)
unfolding s16_be
s16_be-Returns bytes o h = Returns-bind (u16_be bytes o) _ (u16_be-Returns bytes o h) (λ a e. refl)

pub u32_be-Returns : (bytes : Bytes) (o : ℕ) → o + 3 < length bytes → Returns (u32_be bytes o)
unfolding u32_be
u32_be-Returns bytes o h =
    Returns-bind (u16_be bytes o) _ (u16_be-Returns bytes o (omega (arith, h))) (λ a e.
      Returns-bind (u16_be bytes (o + 2)) _ (u16_be-Returns bytes (o + 2) (omega (arith, h)))
        (λ b e'. refl))
