-- ===== src/Curve/Laws.antt =====
-- Points and scalars are read back from their bytes.
use arm_noir.Prelude.{
  ℕ, ◌≤◌, length-append, ◌≡◌, some, ◌++◌, length, take, drop, length-take, length-drop,
  take-append-drop, arith, le→leb,
}
use arm_noir.Bytes.{Bytes, zeros, copy_from_slice, slice_to, slice_from}
use arm_noir.Bytes.Reads.{
  slice_to-append, slice_from-append, AreBytes, take-AreBytes, drop-AreBytes,
}
use arm_noir.Crypto.{FieldOps, FieldLaws}
use arm_noir.Instance.{EmbeddedCurvePoint}
use arm_noir.Curve.{
  EmbeddedCurveScalar, point_to_bytes, point_from_bytes, scalar_to_bytes, scalar_from_bytes,
}

pub copy_lem : (n : ℕ) (x : Bytes) → length x ≡ n → copy_from_slice n x ≡ some x
unfolding copy_from_slice
copy_lem n x e = ground arith

-- A slice of a buffer that is long enough.
pub slice_to_lem : (n : ℕ) (x : Bytes) → n ≤ length x → slice_to n x ≡ some (take n x)
unfolding slice_to
slice_to_lem n x p = rw (le→leb _ _ p)

slice_from_lem : (n : ℕ) (x : Bytes) → n ≤ length x → slice_from n x ≡ some (drop n x)
unfolding slice_from
slice_from_lem n x p = rw (le→leb _ _ p)

module _ {F : Type 0} (field : FieldOps F) (laws : FieldLaws field) where
  open field use {to_le_bytes, from_le_bytes_reduce}
  open laws use {length-to_le_bytes, from_le-to_le}

  pub point_to_bytes_lem :
      (p : EmbeddedCurvePoint F)
      → point_to_bytes field p ≡ some (to_le_bytes p.x ++ to_le_bytes p.y)
  unfolding point_to_bytes
  point_to_bytes_lem p =
      rw (copy_lem 32 _ (length-to_le_bytes p.x), copy_lem 32 _ (length-to_le_bytes p.y))

  -- Where field elements are written in 32 bytes and read back, a point is written in 64 bytes and
  -- read back from them.
  pub point_from_bytes-point_to_bytes :
      (p : EmbeddedCurvePoint F)
      → (bytes : Bytes) × (point_to_bytes field p ≡ some bytes)
        × (length bytes ≡ 64)
        × (point_from_bytes field bytes ≡ some p)
  unfolding point_from_bytes
  point_from_bytes-point_to_bytes p =
      let x = to_le_bytes p.x in
      let y = to_le_bytes p.y in
      (
        x ++ y,
        point_to_bytes_lem p,
        omega (arith, length-append x y, length-to_le_bytes p.x, length-to_le_bytes p.y),
        rw (
          slice_to-append 32 x y (length-to_le_bytes p.x),
          slice_from-append 32 x y (length-to_le_bytes p.x),
          from_le-to_le p.x,
          from_le-to_le p.y,
        ),
      )

-- An integer of 16 bytes is below the modulus, so it is written as itself with zeros above.
pub record LimbLaws {F : Type 0} (field : FieldOps F) : Type 0 where
  pub to_le-from_le :
      (b : Bytes)
      → length b ≡ 16
      → AreBytes b
      → field.to_le_bytes (field.from_le_bytes_reduce b) ≡ b ++ zeros 16

-- Where an integer of 16 bytes is written by the field as itself with zeros above (`LimbLaws`), a
-- scalar that is read from 32 bytes is written as the same 32 bytes.
pub scalar_to_bytes-scalar_from_bytes :
    {F : Type 0} (field : FieldOps F) (laws : LimbLaws field) (bytes : Bytes)
    → length bytes ≡ 32
    → AreBytes bytes
    → (s : EmbeddedCurveScalar F) × (scalar_from_bytes field bytes ≡ some s)
      × (scalar_to_bytes field s ≡ some bytes)
unfolding scalar_from_bytes scalar_to_bytes
scalar_to_bytes-scalar_from_bytes field laws bytes size are_bytes =
    let l = take 16 bytes in
    let h = drop 16 bytes in
    let length_l : length l ≡ 16 = omega (arith, length-take 16 bytes) in
    let length_h : length h ≡ 16 = omega (arith, length-drop 16 bytes) in
    let lo = laws.to_le-from_le l length_l (take-AreBytes 16 bytes are_bytes) in
    let hi = laws.to_le-from_le h length_h (drop-AreBytes 16 bytes are_bytes) in
    (
      record { lo = field.from_le_bytes_reduce l; hi = field.from_le_bytes_reduce h },
      rw (slice_to_lem 16 bytes (omega arith), slice_from_lem 16 bytes (omega arith)),
      rw (
        lo,
        hi,
        slice_to-append 16 l (zeros 16) length_l,
        slice_to-append 16 h (zeros 16) length_h,
        take-append-drop 16 bytes,
      ),
    )
