-- ===== src/Client/Succeeds.antt =====
-- `synchronize` ends without a panic where blobs are as long as ciphertexts, with points on the curve;
-- it panics where one is too short.
use arm_noir.Prelude.{
  ℕ, suc, ◌≤◌, ◌<◌, ◌≡◌, refl, false, none, some, List, [], ◌∷◌, ◌++◌, length, bytes_eq, take,
  length-take, arith, Returns, Returns-bind, Returns-if,
}
use arm_noir.Resource.{nullifier, commit}
use arm_noir.Resource.Preimage.{IsResource, nullifier_lem}
use arm_noir.Instance.{ExpirableBlob, ResourceLogicInstance}
use arm_noir.Curve.{scalar_to_bytes}
use arm_noir.Curve.Laws.{slice_to_lem}
use arm_noir.Merkle.{new}
use arm_noir.Merkle.Build.{new-tree_of}
use arm_noir.Pool.State.{Transaction, ShieldedPool, Backend, Proof, cmt_node, max_tree_depth}
use arm_noir.Wallet.KeyBytes.{K256, ExtendedFullViewingKey, viewing_to_vec}
use arm_noir.Client.{ResourceWithLabel, ClientState, Decryption, default_state}
use arm_noir.Client.Scan.{
  Notes, scan_payload, scan_payloads, scan_logic, scan_logics, scan_transactions, index_note,
  index_notes, synchronize,
}
use arm_noir.Client.Synchronize.{Synchronized, synchronize-Synchronized}
use arm_noir.Client.Total.{PoolReadable, WithResources, scan_transactions-Returns}
use arm_noir.Client.Payloads.{encryption_short}
use arm_noir.Client.Lawful.{Lawful, AllResources, Anything}

module _ {k : K256} {F : Type 0} (backend : Backend F) (d : Decryption k F)
    (lawful : Lawful backend d) (fvks : List (ExtendedFullViewingKey k F)) where
  abbrev pub KeysSized : List (ExtendedFullViewingKey k F) → Type 0
  KeysSized [] = Unit {0}
  KeysSized (fvk ∷ keys) = (length fvk.nullifier_key ≡ 32) × KeysSized keys

  viewing_to_vec-Returns :
      (fvk : ExtendedFullViewingKey k F) → Returns Anything (viewing_to_vec k backend.field fvk)
  unfolding viewing_to_vec scalar_to_bytes
  viewing_to_vec-Returns fvk =
      let lo = backend.field.to_le_bytes fvk.encryption_secret_key.lo in
      let hi = backend.field.to_le_bytes fvk.encryption_secret_key.hi in
      let n = lawful.field_laws.length-to_le_bytes fvk.encryption_secret_key.lo in
      let m = lawful.field_laws.length-to_le_bytes fvk.encryption_secret_key.hi in
      (
        k.verifying.to_bytes fvk.verifying_key
            ++ ((take 16 lo ++ take 16 hi)
                ++ (k.secret.to_bytes fvk.discovery_secret_key ++ fvk.nullifier_key)),
        rw (slice_to_lem 16 lo (omega arith), slice_to_lem 16 hi (omega arith)),
        tt,
      )

  index_note-Returns :
      (pos : ℕ) (note : ResourceWithLabel) (keys : List (ExtendedFullViewingKey k F))
      (s : ClientState)
      → IsResource note.resource
      → KeysSized keys
      → Returns Anything (index_note backend d fvks pos note keys s)
  unfolding index_note
  index_note-Returns pos note [] s valid sized = (s, refl, tt)
  index_note-Returns pos note (fvk ∷ keys) s valid (size, sized) =
      let computed =
        nullifier_lem backend.hashes note.resource valid lawful.hash_laws fvk.nullifier_key size in
      Returns-if Anything
        (bytes_eq note.resource.nk_commitment (commit backend.hashes fvk.nullifier_key)) _ _
        (λ mine.
          Returns-bind Anything Anything
            (nullifier backend.hashes note.resource (record { bytes = fvk.nullifier_key })) _
            (_, rw mine at computed, tt)
            λ n _.
              Returns-bind Anything Anything (viewing_to_vec k backend.field fvk) _
                (viewing_to_vec-Returns fvk) λ key _. (_, refl, tt))
        (λ other. index_note-Returns pos note keys s valid sized)

  index_notes-Returns :
      (notes : Notes) (s : ClientState)
      → AllResources notes
      → KeysSized fvks
      → Returns Anything (index_notes backend d fvks notes s)
  unfolding index_notes
  index_notes-Returns [] s h sized = (s, refl, tt)
  index_notes-Returns ((pos, note) ∷ rest) s (valid, hs) sized =
      Returns-bind Anything Anything (index_note backend d fvks pos note fvks s) _
        (index_note-Returns pos note fvks s valid sized)
        λ s' _. index_notes-Returns rest s' hs sized

  -- Where the libraries keep to what they document (`Lawful`), the nullifier keys have 32 bytes, and the
  -- payloads that are read of every created resource are as long as ciphertexts, those of resources with
  -- a point on the embedded curve where they are ciphertexts (`PoolReadable`), `synchronize` returns a
  -- state without a panic, and it is the view of the pool of synchronize-Synchronized.
  pub synchronize_succeeds :
      (pool : ShieldedPool F)
      → PoolReadable backend d pool.transactions
      → KeysSized fvks
      → (state : ClientState) × (synchronize backend d fvks pool ≡ some state)
        × Synchronized backend d fvks pool state
  unfolding synchronize
  synchronize_succeeds pool readable sized =
      let (state, e, _) : Returns {A = ClientState} Anything (synchronize backend d fvks pool) =
        Returns-bind (WithResources backend d lawful fvks) Anything
          (scan_transactions backend d fvks pool.transactions (default_state, [])) _
          (scan_transactions-Returns backend d lawful fvks pool.transactions (default_state, [])
            readable tt)
          λ scanned h.
            let (cache, built, _) =
              new-tree_of (cmt_node backend) scanned.1 max_tree_depth (omega arith) in
            Returns-bind Anything Anything (new (cmt_node backend) max_tree_depth scanned.1) _
              (_, built, tt)
              λ tree _.
                Returns-bind Anything Anything
                  (index_notes backend d fvks scanned.0.note_map (record scanned.0 { tree = tree }))
                  _
                  (index_notes-Returns scanned.0.note_map (record scanned.0 { tree = tree }) h
                    sized)
                  λ s _. (_, refl, tt) in
      (state, e, synchronize-Synchronized backend d fvks pool state e)

-- Where the first logic instance of the pool is of a created resource and announces a discovery payload,
-- and its first resource payload has fewer than 13 bytes in use, `synchronize` panics for any viewing
-- keys.
pub synchronize_short :
    {k : K256} {F : Type 0} (backend : Backend F) (d : Decryption k F)
    (fvks : List (ExtendedFullViewingKey k F)) (pool : ShieldedPool F) (tx : Transaction F)
    (txs : List (Transaction F)) (l : ResourceLogicInstance) (proof : Proof)
    (ls : List (ResourceLogicInstance × Proof)) (blob : ExpirableBlob) (blobs : List ExpirableBlob)
    (n : ℕ)
    → pool.transactions ≡ tx ∷ txs
    → tx.logic_instances ≡ (l, proof) ∷ ls
    → l.is_consumed ≡ false
    → l.app_data.discovery_payload_len ≡ suc n
    → l.app_data.resource_payload ≡ blob ∷ blobs
    → blob.blob_len < 13
    → blob.blob_len ≤ length blob.blob
    → synchronize backend d fvks pool ≡ none
unfolding synchronize scan_transactions scan_logics scan_logic scan_payloads scan_payload
synchronize_short backend d fvks pool tx txs l proof ls blob blobs n e1 e2 created e3 e4 short
      fits =
    let bytes = take blob.blob_len blob.blob in
    let size : length bytes < 13 = omega (arith, length-take blob.blob_len blob.blob) in
    rw (
      e1,
      scan_transactions,
      e2,
      scan_logics,
      created,
      e3,
      e4,
      slice_to_lem blob.blob_len blob.blob fits,
      encryption_short backend.field bytes size,
    )
