-- ===== src/Client/Scan.antt =====
-- The loops of `synchronize`.
use arm_noir.Prelude.{
  ℕ, zero, suc, ◌+◌, Option, none, some, List, [], ◌∷◌, ◌++◌, get_elem?, bytes_eq, bytes_Eq, lookup,
  put, if◌then◌else◌, ◌>>=◌,
}
use arm_noir.Bytes.{Bytes, slice_to}
use arm_noir.Resource.{nullifier, commit}
use arm_noir.Instance.{AppData, ResourceLogicInstance, EmbeddedCurvePoint}
use arm_noir.Calldata.Ciphertext.{Ciphertext, discovery_from_bytes, encryption_from_bytes}
use arm_noir.Merkle.{new}
use arm_noir.Pool.State.{
  Transaction, ShieldedPool, Backend, Proof, cmt_node, cmt_node_new, max_tree_depth,
}
use arm_noir.Wallet.KeyBytes.{K256, ExtendedFullViewingKey, viewing_to_vec}
use arm_noir.Client.{
  ResourceWithLabel, ClientState, Decryption, default_state, insert_note, insert_pos,
}
use arm_noir.Client.Decrypt.{find_resource}

-- Positions and their notes.
abbrev pub Notes : Type 0
Notes = List (ℕ × ResourceWithLabel)

-- The value, or the state as it is, with `continue`.
abbrev pub or_continue : {A S : Type 0} → Option A → S → (A → Option S) → Option S
or_continue none state next = some state
or_continue (some a) state next = next a

-- `note_map.insert` of a resource that was found
abbrev pub record_note : ℕ → Option ResourceWithLabel → Notes → Notes
record_note pos none notes = notes
record_note pos (some resource) notes = insert_note pos resource notes

-- `entry(fvk).or_default().insert(pos)`
abbrev pub add_pos : Bytes → ℕ → List (Bytes × List ℕ) → List (Bytes × List ℕ)
add_pos key pos m = elim (lookup key m) [
  | none ↦ put key (pos ∷ []) m
  | some positions ↦ put key (insert_pos pos positions) m
]

-- `if let Some(pos) = state.nf_map.get(&nullifier)`, over the nullifiers of the pool
unfoldable pub scan_nullifiers : List Bytes → List (Bytes × ℕ) → List ℕ → List ℕ
scan_nullifiers [] nf_map spent = spent
scan_nullifiers (nullifier ∷ rest) nf_map spent = elim (lookup nullifier nf_map) [
  | none ↦ scan_nullifiers rest nf_map spent
  | some pos ↦ scan_nullifiers rest nf_map (insert_pos pos spent)
]

module _ {k : K256} {F : Type 0} (backend : Backend F) (d : Decryption k F)
    (fvks : List (ExtendedFullViewingKey k F)) where
  open backend use {hashes, field}
  open d use {AffinePoint, codec}

  unfoldable pub scan_keys :
      List (ExtendedFullViewingKey k F)
      → Ciphertext AffinePoint
      → Ciphertext (EmbeddedCurvePoint F)
      → ℕ
      → Notes
      → Option Notes
  scan_keys [] discovery_ciphertext resource_ciphertext pos notes = some notes
  scan_keys (fvk ∷ rest) discovery_ciphertext resource_ciphertext pos notes = do
    found ← find_resource hashes field d fvk discovery_ciphertext resource_ciphertext
    scan_keys rest discovery_ciphertext resource_ciphertext pos (record_note pos found notes)

  -- The body of the loop over the payloads.
  unfoldable pub scan_payload : AppData → ℕ → ℕ → Notes → Option Notes
  unfolding scan_keys slice_to
  scan_payload app_data i pos notes = do
    resource_payload ← get_elem? app_data.resource_payload i
    resource_bytes ← slice_to resource_payload.blob_len resource_payload.blob
    resource ← encryption_from_bytes field resource_bytes
    or_continue resource notes λ resource_ciphertext. (do
      discovery_payload ← get_elem? app_data.discovery_payload i
      discovery_bytes ← slice_to discovery_payload.blob_len discovery_payload.blob
      discovery ← discovery_from_bytes codec discovery_bytes
      or_continue discovery notes
          λ discovery_ciphertext. scan_keys fvks discovery_ciphertext resource_ciphertext pos notes)

  -- The loop over `0..discovery_payload_len`, with the rounds left and i.
  unfoldable pub scan_payloads : ℕ → ℕ → AppData → ℕ → Notes → Option Notes
  unfolding scan_payload
  scan_payloads zero i app_data pos notes = some notes
  scan_payloads (suc rounds) i app_data pos notes = do
    notes' ← scan_payload app_data i pos notes
    scan_payloads rounds (suc i) app_data pos notes'

  -- One logic instance: the state and the commitments.
  unfoldable pub scan_logic :
      ResourceLogicInstance → ClientState × List Bytes → Option (ClientState × List Bytes)
  unfolding scan_payloads
  scan_logic l (state, commitments) =
      let created = (do
        notes ←
            scan_payloads l.app_data.discovery_payload_len 0 l.app_data state.current_pos
              state.note_map
        some (
          record state { note_map = notes; current_pos = state.current_pos + 1 },
          commitments ++ cmt_node_new backend l.tag ∷ [],
        )) in
      if l.is_consumed then some (state, commitments) else created

  unfoldable pub scan_logics :
      List (ResourceLogicInstance × Proof)
      → ClientState × List Bytes
      → Option (ClientState × List Bytes)
  unfolding scan_logic
  scan_logics [] scanned = some scanned
  scan_logics ((l, _) ∷ ls) scanned = do scanned' ← scan_logic l scanned; scan_logics ls scanned'

  unfoldable pub scan_transactions :
      List (Transaction F) → ClientState × List Bytes → Option (ClientState × List Bytes)
  unfolding scan_logics
  scan_transactions [] scanned = some scanned
  scan_transactions (tx ∷ txs) scanned = do
    scanned' ← scan_logics tx.logic_instances scanned
    scan_transactions txs scanned'

  -- The first viewing key with the nullifier key of the note, which ends the loop.
  unfoldable pub index_note :
      ℕ → ResourceWithLabel → List (ExtendedFullViewingKey k F) → ClientState → Option ClientState
  index_note pos note [] state = some state
  index_note pos note (fvk ∷ rest) state =
      let others = index_note pos note rest state in
      let owned = (do
        n ← nullifier hashes note.resource (record { bytes = fvk.nullifier_key })
        key ← viewing_to_vec k field fvk
        some (record state {
          nf_map = put n pos state.nf_map;
          pos_map = add_pos key pos state.pos_map;
        })) in
      if bytes_eq note.resource.nk_commitment (commit hashes fvk.nullifier_key)
      then owned
      else others

  unfoldable pub index_notes : Notes → ClientState → Option ClientState
  unfolding index_note
  index_notes [] state = some state
  index_notes ((pos, note) ∷ rest) state = do
    state' ← index_note pos note fvks state
    index_notes rest state'

  unfoldable pub synchronize : ShieldedPool F → Option ClientState
  unfolding scan_transactions index_notes scan_nullifiers
  synchronize pool = do
    (scanned, commitments) ← scan_transactions pool.transactions (default_state, [])
    tree ← new (cmt_node backend) max_tree_depth commitments
    state ← index_notes scanned.note_map (record scanned { tree = tree })
    some (record state {
      spent_notes = scan_nullifiers pool.nullifiers state.nf_map state.spent_notes;
    })
