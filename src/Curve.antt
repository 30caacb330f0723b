-- ===== src/Curve.antt =====
-- `EmbeddedCurvePoint` and `EmbeddedCurveScalar` of nodes/src/types.rs as bytes. `none` is a panic:
-- an array or a slice of another length.
pub mod Laws
pub mod Group
use arm_noir.Prelude.{
  ℕ, Option, none, some, List, [], ◌∷◌, ◌++◌, length, take, drop, Bool, ◌==◌, leb, ◌&&◌,
  if◌then◌else◌, ◌>>=◌,
}
use arm_noir.Bytes.{Bytes, copy_from_slice, slice_to, slice_from}
use arm_noir.Crypto.{FieldOps}
use arm_noir.Instance.{EmbeddedCurvePoint}

-- The low and the high limb.
pub record EmbeddedCurveScalar (F : Type 0) : Type 0 where
  pub lo : F
  pub hi : F

module _ {F : Type 0} (field : FieldOps F) where
  open field use {zero, to_le_bytes, from_le_bytes_reduce}

  abbrev pub point_at_infinity : EmbeddedCurvePoint F
  point_at_infinity = record { x = zero; y = zero }

  -- `EmbeddedCurvePoint::to_bytes`
  unfoldable pub point_to_bytes : EmbeddedCurvePoint F → Option Bytes
  unfolding copy_from_slice
  point_to_bytes self = do
    x ← copy_from_slice 32 (to_le_bytes self.x)
    y ← copy_from_slice 32 (to_le_bytes self.y)
    some (x ++ y)

  -- `EmbeddedCurvePoint::from_bytes`
  unfoldable pub point_from_bytes : Bytes → Option (EmbeddedCurvePoint F)
  unfolding slice_to slice_from
  point_from_bytes bigint = do
    x ← slice_to 32 bigint
    y ← slice_from 32 bigint
    some (record { x = from_le_bytes_reduce x; y = from_le_bytes_reduce y })

  abbrev pub zero_scalar : EmbeddedCurveScalar F
  zero_scalar = record { lo = zero; hi = zero }

  -- `EmbeddedCurveScalar::to_bytes`
  unfoldable pub scalar_to_bytes : EmbeddedCurveScalar F → Option Bytes
  unfolding slice_to
  scalar_to_bytes self = do
    lo ← slice_to 16 (to_le_bytes self.lo)
    hi ← slice_to 16 (to_le_bytes self.hi)
    some (lo ++ hi)

  -- `EmbeddedCurveScalar::from_bytes`
  unfoldable pub scalar_from_bytes : Bytes → Option (EmbeddedCurveScalar F)
  unfolding slice_to slice_from
  scalar_from_bytes bigint = do
    lo ← slice_to 16 bigint
    hi ← slice_from 16 bigint
    some (record { lo = from_le_bytes_reduce lo; hi = from_le_bytes_reduce hi })
