-- ===== src/Resource/Tests.antt =====
-- The pre-images of a resource of which every array is filled with one byte.
use arm_noir.Prelude.{
  ◌≡◌, ◌++◌, ◌∷◌, refl, some, none, false, replicate, bytes_eq, if◌then◌else◌, arith,
}
use arm_noir.Bytes.{Bytes, join}
use arm_noir.Crypto.Samples.{adding, adding-HashLaws}
use arm_noir.Resource.{Resource, commitment_preimage, nullifier, rcm}
use arm_noir.Resource.Preimage.{
  IsResource, commitment_parts, rcm_of, expand_parts, commitment_preimage_lem, nullifier_lem,
  commitment_preimage-injective,
}

abbrev key : Bytes
key = replicate 32 1

abbrev coin : Resource
coin = record {
  logic_ref = replicate 32 2;
  label_ref = replicate 32 3;
  value_ref = replicate 32 4;
  quantity = 500;
  nonce = replicate 32 5;
  nk_commitment = adding.keccak256 key;
  rand_seed = replicate 32 6;
  is_ephemeral = false;
}

coin-IsResource : IsResource coin
coin-IsResource = record {
  logic = refl;
  label = refl;
  value = refl;
  amount = omega arith;
  nonce_size = refl;
  nk = adding-HashLaws.length-keccak256 key;
  seed = refl;
}

commitment_preimage_lem_example :
    commitment_preimage adding coin
    ≡ some (join (commitment_parts adding coin (rcm_of adding coin)))
commitment_preimage_lem_example =
    commitment_preimage_lem adding coin coin-IsResource adding-HashLaws

nullifier_lem_example : nullifier adding coin (record { bytes = key }) ≡ (
    if bytes_eq coin.nk_commitment (adding.keccak256 key)
    then some (
        adding.keccak256 (
          adding.keccak256 (join (commitment_parts adding coin (rcm_of adding coin)))
          ++ key
          ++ coin.nonce
          ++ adding.keccak256 (join (expand_parts adding coin 0))))
    else none)
nullifier_lem_example = nullifier_lem adding coin coin-IsResource adding-HashLaws key refl

-- Another seed with the same hash.
abbrev reseeded : Resource
reseeded = record coin { rand_seed = 5 ∷ 7 ∷ replicate 30 6 }

reseeded-IsResource : IsResource reseeded
reseeded-IsResource = record {
  logic = refl;
  label = refl;
  value = refl;
  amount = omega arith;
  nonce_size = refl;
  nk = adding-HashLaws.length-keccak256 key;
  seed = refl;
}

reseeded_preimage :
    commitment_preimage adding reseeded
    ≡ some (join (commitment_parts adding coin (rcm_of adding coin)))
reseeded_preimage = commitment_preimage_lem adding reseeded reseeded-IsResource adding-HashLaws

commitment_preimage-injective_example :
    (coin.logic_ref ≡ reseeded.logic_ref)
    × (coin.label_ref ≡ reseeded.label_ref)
    × (coin.value_ref ≡ reseeded.value_ref)
    × (coin.quantity ≡ reseeded.quantity)
    × (coin.nonce ≡ reseeded.nonce)
    × (coin.nk_commitment ≡ reseeded.nk_commitment)
    × (rcm adding coin ≡ rcm adding reseeded)
    × (coin.is_ephemeral ≡ reseeded.is_ephemeral)
commitment_preimage-injective_example =
    commitment_preimage-injective adding adding-HashLaws coin reseeded coin-IsResource
      reseeded-IsResource (commitment_preimage_lem adding coin coin-IsResource adding-HashLaws)
      reseeded_preimage
