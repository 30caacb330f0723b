-- ===== src/Client/OffCurve.antt =====
-- A resource ciphertext with a point off the embedded curve: `synchronize` panics.
use arm_noir.Prelude.{
  ℕ, zero, suc, ◌+◌, ◌<◌, ◌≡◌, refl, ap, false, inl, inr, Option, none, some, List, [], ◌∷◌,
  get_elem?, ◌>>=◌, arith, In,
}
use arm_noir.Bytes.{Bytes, slice_to}
use arm_noir.Instance.{ExpirableBlob, AppData, ResourceLogicInstance, EmbeddedCurvePoint}
use arm_noir.Curve.Group.{to_affine, mul}
use arm_noir.Calldata.Ciphertext.{Ciphertext, discovery_from_bytes, encryption_from_bytes}
use arm_noir.Pool.State.{Transaction, ShieldedPool, Backend, Proof}
use arm_noir.Wallet.KeyBytes.{K256, ExtendedFullViewingKey}
use arm_noir.Client.{ClientState, Decryption, default_state}
use arm_noir.Client.Decrypt.{discovery_plaintext, resource_plaintext, remove_padding, find_resource}
use arm_noir.Client.Scan.{
  Notes, scan_keys, scan_payload, scan_payloads, scan_logic, scan_logics, scan_transactions,
  synchronize,
}

-- A panic after the first step is a panic of both.
bind-none :
    {A B : Type 0} (o : Option A) (f : A → Option B) → ((a : A) → f a ≡ none) → (o >>= f) ≡ none
bind-none none f h = refl
bind-none (some a) f h = h a

module _ {k : K256} {F : Type 0} (backend : Backend F) (d : Decryption k F) where
  -- The i-th payloads are read as these two ciphertexts.
  abbrev pub ReadAt :
      AppData → ℕ → Ciphertext d.AffinePoint → Ciphertext (EmbeddedCurvePoint F) → Type 0
  ReadAt a i dc rc =
      (rb : ExpirableBlob) × (db : ExpirableBlob) × (rbytes : Bytes) × (dbytes : Bytes) × (get_elem?
          a.resource_payload i
        ≡ some rb)
      × (slice_to rb.blob_len rb.blob ≡ some rbytes)
      × (encryption_from_bytes backend.field rbytes ≡ some (some rc))
      × (get_elem? a.discovery_payload i ≡ some db)
      × (slice_to db.blob_len db.blob ≡ some dbytes)
      × (discovery_from_bytes d.codec dbytes ≡ some (some dc))

  -- The discovery ciphertext is for the viewing key.
  abbrev pub Discovers : ExtendedFullViewingKey k F → Ciphertext d.AffinePoint → Type 0
  Discovers fvk dc =
      (plaintext : Bytes) × (discovery_plaintext backend.hashes backend.field d fvk dc
        ≡ some plaintext)
      × (remove_padding plaintext ≡ some (some (0 ∷ [])))

  find_resource_off_curve :
      (fvk : ExtendedFullViewingKey k F) (dc : Ciphertext d.AffinePoint)
      (rc : Ciphertext (EmbeddedCurvePoint F))
      → Discovers fvk dc
      → to_affine d.grumpkin rc.pk ≡ none
      → find_resource backend.hashes backend.field d fvk dc rc ≡ none
  unfolding find_resource resource_plaintext mul
  find_resource_off_curve fvk dc rc (plaintext, e1, e2) off = rw (e1, e2, off)

  module _ (fvks : List (ExtendedFullViewingKey k F)) where
    scan_keys-none :
        (keys : List (ExtendedFullViewingKey k F)) (fvk : ExtendedFullViewingKey k F)
        (dc : Ciphertext d.AffinePoint) (rc : Ciphertext (EmbeddedCurvePoint F)) (pos : ℕ)
        (notes : Notes)
        → In fvk keys
        → find_resource backend.hashes backend.field d fvk dc rc ≡ none
        → scan_keys backend d fvks keys dc rc pos notes ≡ none
    unfolding scan_keys
    scan_keys-none [] fvk dc rc pos notes at e = absurd at
    scan_keys-none (key ∷ keys) fvk dc rc pos notes at e = elim at [
      | inl same ↦ rw (rw same at e)
      | inr later ↦
          bind-none (find_resource backend.hashes backend.field d key dc rc) _
            λ found. scan_keys-none keys fvk dc rc pos _ later e
    ]

    scan_payloads-none :
        (rounds i j : ℕ) (a : AppData) (pos : ℕ) (notes : Notes)
        → j < rounds
        → ((notes : Notes) → scan_payload backend d fvks a (i + j) pos notes ≡ none)
        → scan_payloads backend d fvks rounds i a pos notes ≡ none
    unfolding scan_payloads
    scan_payloads-none zero i j a pos notes p e = absurd (omega arith)
    scan_payloads-none (suc rounds) i zero a pos notes p e =
        let z : i + 0 ≡ i = omega arith in rw (rw z at (e notes))
    scan_payloads-none (suc rounds) i (suc j) a pos notes p e =
        let z : i + suc j ≡ suc i + j = omega arith in
        bind-none (scan_payload backend d fvks a i pos notes) _ λ notes'.
          scan_payloads-none rounds (suc i) j a pos notes' (omega arith)
            λ notes''. (rw z at (e notes''))

    scan_logics-none :
        (ls : List (ResourceLogicInstance × Proof)) (l : ResourceLogicInstance) (proof : Proof)
        (s : ClientState × List Bytes)
        → In (l, proof) ls
        → ((s : ClientState × List Bytes) → scan_logic backend d fvks l s ≡ none)
        → scan_logics backend d fvks ls s ≡ none
    unfolding scan_logics
    scan_logics-none [] l proof s at e = absurd at
    scan_logics-none ((l', proof') ∷ ls) l proof s at e = elim at [
      | inl same ↦ let here : l ≡ l' = ap (λ p. p.0) same in rw (rw here at (e s))
      | inr later ↦
          bind-none (scan_logic backend d fvks l' s) _ λ s'. scan_logics-none ls l proof s' later e
    ]

    scan_transactions-none :
        (txs : List (Transaction F)) (tx : Transaction F) (s : ClientState × List Bytes)
        → In tx txs
        → ((s : ClientState × List Bytes) → scan_logics backend d fvks tx.logic_instances s ≡ none)
        → scan_transactions backend d fvks txs s ≡ none
    unfolding scan_transactions
    scan_transactions-none [] tx s at e = absurd at
    scan_transactions-none (tx' ∷ txs) tx s at e = elim at [
      | inl same ↦ let here = ap (λ t. t.logic_instances) same in rw (rw here at (e s))
      | inr later ↦
          bind-none (scan_logics backend d fvks tx'.logic_instances s) _
            λ s'. scan_transactions-none txs tx s' later e
    ]

    scan_payload_off_curve :
        (a : AppData) (i pos : ℕ) (notes : Notes) (dc : Ciphertext d.AffinePoint)
        (rc : Ciphertext (EmbeddedCurvePoint F)) (fvk : ExtendedFullViewingKey k F)
        → ReadAt a i dc rc
        → In fvk fvks
        → Discovers fvk dc
        → to_affine d.grumpkin rc.pk ≡ none
        → scan_payload backend d fvks a i pos notes ≡ none
    unfolding scan_payload
    scan_payload_off_curve a i pos notes dc rc fvk (rb, db, rbytes, dbytes, e1, e2, e3, e4, e5, e6)
          at found off =
        rw (e1, e2, e3, e4, e5, e6)
          (scan_keys-none fvks fvk dc rc pos notes at (find_resource_off_curve fvk dc rc found off))

    -- Where any created instance of any transaction of the pool has a payload, below the number of its
    -- discovery payloads, that is read as two ciphertexts, of which the discovery ciphertext is for any of
    -- the viewing keys and the resource ciphertext has a point off the embedded curve, `synchronize`
    -- panics.
    pub synchronize_off_curve :
        (pool : ShieldedPool F) (tx : Transaction F) (l : ResourceLogicInstance) (proof : Proof)
        (i : ℕ) (dc : Ciphertext d.AffinePoint) (rc : Ciphertext (EmbeddedCurvePoint F))
        (fvk : ExtendedFullViewingKey k F)
        → In tx pool.transactions
        → In (l, proof) tx.logic_instances
        → l.is_consumed ≡ false
        → i < l.app_data.discovery_payload_len
        → ReadAt l.app_data i dc rc
        → In fvk fvks
        → Discovers fvk dc
        → to_affine d.grumpkin rc.pk ≡ none
        → synchronize backend d fvks pool ≡ none
    unfolding synchronize scan_logic
    synchronize_off_curve pool tx l proof i dc rc fvk in_pool in_tx created p read at found off =
        let z : 0 + i ≡ i = omega arith in
        let logic : (s : ClientState × List Bytes) → scan_logic backend d fvks l s ≡ none =
          λ (state, commitments).
            (let payloads =
                scan_payloads-none l.app_data.discovery_payload_len 0 i l.app_data state.current_pos
                  state.note_map p
                  λ notes. rw z (
                    scan_payload_off_curve l.app_data i state.current_pos notes dc rc fvk read at
                      found off) in
              rw (created, payloads)) in
        let scanned =
          scan_transactions-none pool.transactions tx (default_state, []) in_pool
            (λ s. scan_logics-none tx.logic_instances l proof s in_tx logic) in
        rw scanned
