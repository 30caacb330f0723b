-- ===== src/Wallet/KeyBytes/Tests.antt =====
-- Keys of k256 that are one of two, over fields of bytes and of two elements.
use arm_noir.Prelude.{
  ℕ, suc, ◌≡◌, refl, Bool, true, false, Option, none, some, [], ◌∷◌, length, replicate, ◌==◌,
  length-replicate, arith, ap,
}
use arm_noir.Bytes.{Bytes, flag_byte}
use arm_noir.Crypto.Samples.{two, two-FieldLaws, strings}
use arm_noir.Curve.{EmbeddedCurveScalar, scalar_from_bytes}
use arm_noir.Curve.Laws.{LimbLaws}
use arm_noir.Wallet.KeyBytes.{
  Codec, K256, ExtendedFullViewingKey, PaymentAddress, ExtendedSpendingKey, viewing_to_vec,
  viewing_from_slice, address_to_vec, address_from_slice, to_viewing_key,
}
use arm_noir.Wallet.KeyBytes.Laws.{
  CodecLaws, K256Laws, IsRead, viewing_from_slice-viewing_to_vec, address_from_slice-address_to_vec,
}

abbrev read_flag : Bytes → Option Bool
read_flag [] = none
read_flag (x ∷ xs) = some (x == 1)

abbrev flag_codec : ℕ → Codec Bool
flag_codec n = record { to_bytes = λ b. flag_byte b ∷ replicate n 0; from_slice = read_flag }

read_flag-flag_byte : (n : ℕ) (b : Bool) → read_flag (flag_byte b ∷ replicate n 0) ≡ some b
read_flag-flag_byte n true = refl
read_flag-flag_byte n false = refl

flag-CodecLaws : (n : ℕ) → CodecLaws (flag_codec n) (suc n)
flag-CodecLaws n = record {
  length-to_bytes = λ b. ap suc (length-replicate n 0);
  from-to = read_flag-flag_byte n;
}

abbrev flags : K256
flags = record {
  VerifyingKey = Bool;
  SigningKey = Bool;
  SecretKey = Bool;
  PublicKey = Bool;
  verifying = flag_codec 32;
  signing = flag_codec 31;
  secret = flag_codec 31;
  public = flag_codec 32;
  verifying_key = λ b. b;
  public_key = λ b. b;
}

flags-K256Laws : K256Laws flags
flags-K256Laws = record {
  verifying = flag-CodecLaws 32;
  signing = flag-CodecLaws 31;
  secret = flag-CodecLaws 31;
  public = flag-CodecLaws 32;
}

strings-LimbLaws : LimbLaws strings
strings-LimbLaws = record { to_le-from_le = λ b size _. rw size }

abbrev scalar : EmbeddedCurveScalar Bytes
scalar = record { lo = replicate 16 9; hi = replicate 16 9 }

scalar-IsRead : IsRead strings scalar
unfolding scalar_from_bytes
scalar-IsRead = (replicate 32 9, refl, omega arith, refl)

abbrev spending : ExtendedSpendingKey flags Bytes
spending = record {
  signing_key = true;
  encryption_secret_key = scalar;
  discovery_secret_key = false;
  nullifier_key = replicate 32 5;
}

abbrev viewing : ExtendedFullViewingKey flags Bytes
viewing = record {
  verifying_key = true;
  encryption_secret_key = scalar;
  discovery_secret_key = false;
  nullifier_key = replicate 32 5;
}

abbrev address : PaymentAddress flags Bool
address = record {
  verifying_key = true;
  encryption_public_key = record { x = true; y = false };
  discovery_public_key = true;
  nullifier_key_commitment = replicate 32 6;
}

viewing_run : to_viewing_key flags spending ≡ viewing
unfolding to_viewing_key
viewing_run = refl

viewing_from_slice-viewing_to_vec_example :
    (bytes : Bytes) × (viewing_to_vec flags strings viewing ≡ some bytes)
    × (length bytes ≡ 129)
    × (viewing_from_slice flags strings bytes ≡ some (some viewing))
viewing_from_slice-viewing_to_vec_example =
    viewing_from_slice-viewing_to_vec flags strings flags-K256Laws strings-LimbLaws viewing
      scalar-IsRead refl

address_from_slice-address_to_vec_example :
    (bytes : Bytes) × (address_to_vec flags two address ≡ some bytes)
    × (length bytes ≡ 162)
    × (address_from_slice flags two bytes ≡ some (some address))
address_from_slice-address_to_vec_example =
    address_from_slice-address_to_vec flags two flags-K256Laws two-FieldLaws address refl
