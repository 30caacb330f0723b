-- ===== src/Client/Tests.antt =====
-- Clients of the sample pool, and of one with a payload for the client.
use arm_noir.Prelude.{
  ◌≡◌, refl, true, false, inl, Option, none, some, [], ◌∷◌, ◌++◌, replicate, contains, bytes_Eq,
  arith,
}
use arm_noir.Client.Succeeds.{synchronize_succeeds, synchronize_short}
use arm_noir.Bytes.{Bytes, zeros, be_bytes, le_bytes, write_bytes, write_parts, read_bytes}
use arm_noir.Resource.{
  nullifier, nullifier_from_commitment, commitment, commitment_preimage, psi, rcm, expand_preimage,
}
use arm_noir.Circuit.{circuit_verify}
use arm_noir.Instance.{
  AppData, compliance_digest, compliance_preimage, logic_digest, logic_preimage,
}
use arm_noir.Curve.{point_to_bytes, scalar_to_bytes}
use arm_noir.Curve.Group.{to_affine, mul}
use arm_noir.Calldata.Ciphertext.{discovery_from_bytes, encryption_from_bytes}
use arm_noir.Merkle.{CommitmentTree, new, root}
use arm_noir.Merkle.Root.{root_of}
use arm_noir.Pool.State.{commitment_root, cmt_node, cmt_node_new}
use arm_noir.Pool.Submit.{submit}
use arm_noir.Pool.History.{accepted}
use arm_noir.Pool.Samples.{backend, circuit, tx, after, tx-accepted, pool-Reached, created_logic}
use arm_noir.Wallet.KeyBytes.{viewing_to_vec}
use arm_noir.Client.{ClientState}
use arm_noir.Client.Decrypt.{
  remove_padding, strip_padding, discovery_plaintext, resource_plaintext, find_resource,
}
use arm_noir.Client.Scan.{synchronize}
use arm_noir.Client.OffCurve.{synchronize_off_curve}
use arm_noir.Client.Padding.{Unpadded, remove_padding_lem}
use arm_noir.Client.Synchronize.{Synchronized, synchronize-Synchronized, synchronize_anchor}
use arm_noir.Client.Samples.{viewing, note, decryption, app_data, discovery, sent_pool, view}
use arm_noir.Client.SmallSamples.{
  small_decryption, small_backend, small-Lawful, small_viewing, small_tx, small_pool, short_payload,
  off_curve_payload,
}

sent-found : ((view sent_pool).note_map ≡ (1, note) ∷ []) × ((view sent_pool).spent_notes ≡ 1 ∷ [])
unfolding synchronize zeros find_resource remove_padding strip_padding discovery_plaintext
    resource_plaintext discovery_from_bytes encryption_from_bytes scalar_to_bytes viewing_to_vec
    cmt_node_new nullifier nullifier_from_commitment commitment commitment_preimage psi rcm
    expand_preimage write_parts write_bytes be_bytes le_bytes read_bytes point_to_bytes new mul
sent-found = (refl, refl)

sent-view : synchronize backend decryption (viewing ∷ []) sent_pool ≡ some (view sent_pool)
unfolding synchronize zeros find_resource remove_padding strip_padding discovery_plaintext
    resource_plaintext discovery_from_bytes encryption_from_bytes scalar_to_bytes viewing_to_vec
    cmt_node_new nullifier nullifier_from_commitment commitment commitment_preimage psi rcm
    expand_preimage write_parts write_bytes be_bytes le_bytes read_bytes point_to_bytes new mul
sent-view = refl

after-view : synchronize backend decryption (viewing ∷ []) after ≡ some (view after)
unfolding synchronize submit root_of cmt_node_new be_bytes compliance_digest compliance_preimage
    write_parts write_bytes le_bytes zeros commitment_root circuit_verify logic_digest
    logic_preimage
after-view = refl

synchronize-Synchronized_example :
    Synchronized backend decryption (viewing ∷ []) sent_pool (view sent_pool)
synchronize-Synchronized_example =
    synchronize-Synchronized backend decryption (viewing ∷ []) sent_pool (view sent_pool) sent-view

synchronize_anchor_example :
    (anchor : Bytes) × (tree' : CommitmentTree Bytes) × (root (cmt_node backend) (view after).tree
      ≡ some (anchor, tree'))
    × (commitment_root backend after.commitments ≡ some anchor)
    × (contains anchor after.anchors ≡ true)
synchronize_anchor_example =
    synchronize_anchor backend decryption (viewing ∷ []) after (view after)
      (accepted circuit tx pool-Reached tx-accepted) after-view

remove_padding_lem_example :
    (o : Option Bytes) × (remove_padding (0 ∷ replicate 15 15) ≡ some o)
    × Unpadded (0 ∷ replicate 15 15) o
remove_padding_lem_example = remove_padding_lem (0 ∷ replicate 15 15)

synchronize_succeeds_example :
    (state : ClientState) × (synchronize small_backend small_decryption
        (small_viewing ∷ [])
        (small_pool app_data)
      ≡ some state)
    × Synchronized small_backend small_decryption (small_viewing ∷ []) (small_pool app_data) state
unfolding zeros encryption_from_bytes read_bytes to_affine
synchronize_succeeds_example =
    synchronize_succeeds small_backend small_decryption small-Lawful (small_viewing ∷ [])
      (small_pool app_data)
      (
        (
          (λ _. (
            ((omega arith, (omega arith, ((false, false), refl, tt))), tt),
            ((omega arith, omega arith), tt),
          )),
          tt,
        ),
        tt,
      )
      (refl, tt)

synchronize_short_example :
    synchronize small_backend small_decryption
      (small_viewing ∷ [])
      (small_pool (record app_data { resource_payload = short_payload ∷ [] }))
    ≡ none
synchronize_short_example =
    synchronize_short small_backend small_decryption (small_viewing ∷ [])
      (small_pool (record app_data { resource_payload = short_payload ∷ [] }))
      (small_tx (record app_data { resource_payload = short_payload ∷ [] })) []
      (record created_logic {
        app_data = record app_data { resource_payload = short_payload ∷ [] };
      })
      [] [] short_payload [] 0 refl refl refl refl refl (omega arith) (omega arith)

abbrev off_curve_data : AppData
off_curve_data = record app_data { resource_payload = off_curve_payload ∷ [] }

synchronize_off_curve_example :
    synchronize small_backend small_decryption (small_viewing ∷ []) (small_pool off_curve_data)
    ≡ none
unfolding zeros encryption_from_bytes discovery_from_bytes discovery_plaintext remove_padding
    read_bytes to_affine be_bytes
synchronize_off_curve_example =
    synchronize_off_curve small_backend small_decryption (small_viewing ∷ [])
      (small_pool off_curve_data) (small_tx off_curve_data)
      (record created_logic { app_data = off_curve_data }) [] 0
      (record { nonce = zeros 12; pk = replicate 65 4; cipher = 0 ∷ replicate 15 15 })
      (record {
        nonce = zeros 12;
        pk = record { x = false; y = true };
        cipher = replicate 240 7 ++ replicate 16 16;
      })
      small_viewing (inl refl) (inl refl) refl (omega arith)
      (off_curve_payload, discovery, _, _, refl, refl, refl, refl, refl, refl) (inl refl)
      (0 ∷ replicate 15 15, refl, refl) refl
