-- ===== src/Resource/Preimage.antt =====
-- The pre-images of resource hashes: every write is in range and every assertion holds, and the
-- pre-image of a commitment determines the committed fields.
use arm_noir.Prelude.{
  ℕ, ◌^◌, ◌<◌, ◌≡◌, sym, ap, ◌∙◌, some, none, List, [], ◌∷◌, ◌++◌, length, length-append,
  append-nil, append_assoc, bytes_eq, if◌then◌else◌, arith,
}
use arm_noir.Bytes.{Bytes, join, be_bytes, flag_byte}
use arm_noir.Bytes.Laws.{
  write_parts_lem, length-be_bytes, append-injective, be_bytes-injective, flag_byte-injective,
}
use arm_noir.Crypto.{Hashes, HashLaws}
use arm_noir.Resource.{
  Resource, expand_preimage, psi, rcm, commitment_preimage, commitment, prf_expand_personalization,
  nullifier, nullifier_from_commitment,
}

-- The arrays have 32 bytes, and the quantity fits a u128.
pub record IsResource (r : Resource) : Type 0 where
  pub logic : length r.logic_ref ≡ 32
  pub label : length r.label_ref ≡ 32
  pub value : length r.value_ref ≡ 32
  pub amount : r.quantity < 256 ^ 16
  pub nonce_size : length r.nonce ≡ 32
  pub nk : length r.nk_commitment ≡ 32
  pub seed : length r.rand_seed ≡ 32

module _ (hashes : Hashes) where
  open hashes use {keccak256}

  -- The parts of a commitment's pre-image, for a given randomness.
  abbrev pub commitment_parts : Resource → Bytes → List Bytes
  commitment_parts r randomness =
      r.logic_ref
      ∷ r.label_ref
      ∷ r.value_ref
      ∷ be_bytes 16 r.quantity
      ∷ r.nonce
      ∷ r.nk_commitment
      ∷ randomness
      ∷ (flag_byte r.is_ephemeral ∷ [])
      ∷ []

  abbrev pub expand_parts : Resource → ℕ → List Bytes
  expand_parts r tag = prf_expand_personalization ∷ (tag ∷ []) ∷ r.rand_seed ∷ r.nonce ∷ []

  abbrev pub rcm_of : Resource → Bytes
  rcm_of r = keccak256 (join (expand_parts r 1))

  module _ (r : Resource) (valid : IsResource r) where
    open valid use {logic, label, value, amount, nonce_size, nk, seed}

    expand_preimage_lem :
        (tag : ℕ) → expand_preimage hashes r tag 81 ≡ some (join (expand_parts r tag))
    unfolding expand_preimage
    expand_preimage_lem tag =
        rw (write_parts_lem 81 (expand_parts r tag) (omega (arith, length-append {0})))

    rcm_lem : rcm hashes r ≡ some (rcm_of r)
    unfolding rcm
    rcm_lem = rw (expand_preimage_lem 1)

    psi_lem : psi hashes r ≡ some (keccak256 (join (expand_parts r 0)))
    unfolding psi
    psi_lem = rw (expand_preimage_lem 0)

    module _ (laws : HashLaws hashes) where
      open laws use {length-keccak256}

      length-commitment_parts : length (join (commitment_parts r (rcm_of r))) ≡ 209
      length-commitment_parts = omega (
        arith,
        length-append {0},
        length-be_bytes 16 r.quantity,
        length-keccak256 (join (expand_parts r 1)),
      )

      -- The pre-image of a resource's commitment is computed, and it is these parts.
      pub commitment_preimage_lem :
          commitment_preimage hashes r ≡ some (join (commitment_parts r (rcm_of r)))
      unfolding commitment_preimage
      commitment_preimage_lem =
          rw (rcm_lem, write_parts_lem 209 (commitment_parts r (rcm_of r)) length-commitment_parts)

      -- For a hash of 32 bytes, a well-formed resource (`IsResource`) and a key of 32 bytes, the
      -- nullifier is the hash of the commitment, the key, the nonce and psi where the resource
      -- commits to the key; with another key the assertion fails.
      pub nullifier_lem :
          (key : Bytes)
          → length key ≡ 32
          → nullifier hashes r (record { bytes = key }) ≡ (
              if bytes_eq r.nk_commitment (keccak256 key)
              then some (
                  keccak256 (
                    keccak256 (join (commitment_parts r (rcm_of r)))
                    ++ key
                    ++ r.nonce
                    ++ keccak256 (join (expand_parts r 0))))
              else none)
      unfolding nullifier nullifier_from_commitment commitment
      nullifier_lem key size =
          let cm = keccak256 (join (commitment_parts r (rcm_of r))) in
          let p = keccak256 (join (expand_parts r 0)) in
          let parts = cm ∷ key ∷ r.nonce ∷ p ∷ [] in
          let full = write_parts_lem 128 parts (
            omega (
              arith,
              length-append {0},
              length-keccak256 (join (commitment_parts r (rcm_of r))),
              length-keccak256 (join (expand_parts r 0)),
            )) in
          rw (
            commitment_preimage_lem,
            psi_lem,
            full,
            append-nil p,
            append_assoc (cm ++ key) r.nonce p,
            append_assoc cm key (r.nonce ++ p),
          )

  module _ (laws : HashLaws hashes) where
    open laws use {length-keccak256}

    -- For a hash of 32 bytes, two well-formed resources (`IsResource`) whose commitment pre-images
    -- are the same bytes agree on every field that is committed to, the random seed only through
    -- the randomness derived from it.
    pub commitment_preimage-injective :
        (r r' : Resource) {preimage : Bytes}
        → IsResource r
        → IsResource r'
        → commitment_preimage hashes r ≡ some preimage
        → commitment_preimage hashes r' ≡ some preimage
        → (r.logic_ref ≡ r'.logic_ref)
          × (r.label_ref ≡ r'.label_ref)
          × (r.value_ref ≡ r'.value_ref)
          × (r.quantity ≡ r'.quantity)
          × (r.nonce ≡ r'.nonce)
          × (r.nk_commitment ≡ r'.nk_commitment)
          × (rcm hashes r ≡ rcm hashes r')
          × (r.is_ephemeral ≡ r'.is_ephemeral)
    commitment_preimage-injective r r' v v' e e' =
        let same : join (commitment_parts r (rcm_of r)) ≡ join (commitment_parts r' (rcm_of r')) =
          cc (commitment_preimage_lem r v laws, commitment_preimage_lem r' v' laws) in
        let (e1, t1) = append-injective r.logic_ref r'.logic_ref _ _ (omega arith) same in
        let (e2, t2) = append-injective r.label_ref r'.label_ref _ _ (omega arith) t1 in
        let (e3, t3) = append-injective r.value_ref r'.value_ref _ _ (omega arith) t2 in
        let (e4, t4) =
          append-injective (be_bytes 16 r.quantity) (be_bytes 16 r'.quantity) _ _
            (omega (arith, length-be_bytes 16 r.quantity, length-be_bytes 16 r'.quantity)) t3 in
        let (e5, t5) = append-injective r.nonce r'.nonce _ _ (omega arith) t4 in
        let (e6, t6) = append-injective r.nk_commitment r'.nk_commitment _ _ (omega arith) t5 in
        let (e7, t7) =
          append-injective (rcm_of r) (rcm_of r') _ _
            (omega (
              arith,
              length-keccak256 (join (expand_parts r 1)),
              length-keccak256 (join (expand_parts r' 1)),
            ))
            t6 in
        (
          e1,
          e2,
          e3,
          be_bytes-injective 16 _ _ v.amount v'.amount e4,
          e5,
          e6,
          rcm_lem r v ∙ ap some e7 ∙ sym (rcm_lem r' v'),
          flag_byte-injective r.is_ephemeral r'.is_ephemeral t7,
        )
