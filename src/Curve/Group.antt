-- ===== src/Curve/Group.antt =====
-- The group of the embedded curve: `EmbeddedCurvePoint::generator`, and the product of a point and a
-- scalar of nodes/src/types.rs, which goes through the points of `ark_grumpkin`. `none` is a panic.
use arm_noir.Prelude.{Option, some, ◌>>=◌}
use arm_noir.Bytes.{Bytes}
use arm_noir.Crypto.{FieldOps}
use arm_noir.Instance.{EmbeddedCurvePoint}
use arm_noir.Curve.{EmbeddedCurveScalar, scalar_to_bytes}

-- `ark_grumpkin`: `Affine::new`, which panics on coordinates off the curve, the coordinates of a
-- point, the generator, the scalars from bytes, and the product, which is affine again.
pub record Grumpkin (F : Type 0) : Type 1 where
  pub Affine : Type 0
  pub Fr : Type 0
  pub affine_new : F → F → Option Affine
  pub affine_x : Affine → F
  pub affine_y : Affine → F
  pub affine_generator : Affine
  pub from_le_bytes_mod_order : Bytes → Fr
  pub affine_mul : Affine → Fr → Affine

module _ {F : Type 0} (g : Grumpkin F) where
  open g use {Affine, affine_new, affine_x, affine_y, affine_generator}

  -- The conversions to and from `ark_grumpkin::Affine`
  unfoldable pub to_affine : EmbeddedCurvePoint F → Option Affine
  to_affine point = affine_new point.x point.y

  abbrev pub from_affine : Affine → EmbeddedCurvePoint F
  from_affine point = record { x = affine_x point; y = affine_y point }

  -- `EmbeddedCurvePoint::generator`; the generator has coordinates, as it is not the point at infinity
  abbrev pub generator : EmbeddedCurvePoint F
  generator = record { x = affine_x affine_generator; y = affine_y affine_generator }

module _ {F : Type 0} (field : FieldOps F) (g : Grumpkin F) where
  open g use {Fr, from_le_bytes_mod_order, affine_mul}

  -- The conversion to `ark_grumpkin::Fr`
  unfoldable pub to_fr : EmbeddedCurveScalar F → Option Fr
  to_fr scalar = do
    combined_bytes ← scalar_to_bytes field scalar
    some (from_le_bytes_mod_order combined_bytes)

  -- `EmbeddedCurvePoint * EmbeddedCurveScalar`
  unfoldable pub mul : EmbeddedCurvePoint F → EmbeddedCurveScalar F → Option (EmbeddedCurvePoint F)
  unfolding to_affine to_fr
  mul self scalar = do
    affine_point ← to_affine g self
    fr_scalar ← to_fr scalar
    some (from_affine g (affine_mul affine_point fr_scalar))
