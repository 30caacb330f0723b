-- ===== src/Client/Total.antt =====
-- The scan of the transactions does not panic where blobs are as long as ciphertexts, with points on the
-- curve.
use arm_noir.Prelude.{
  ℕ, zero, suc, ◌+◌, ◌≤◌, ◌<◌, ◌≡◌, refl, false, Option, none, some, List, [], ◌∷◌, length,
  get_elem?, take, arith, Returns, Returns-bind, Returns-if,
}
use arm_noir.Bytes.{Bytes, slice_to}
use arm_noir.Instance.{EmbeddedCurvePoint, ExpirableBlob, AppData, ResourceLogicInstance}
use arm_noir.Curve.Laws.{slice_to_lem}
use arm_noir.Calldata.Ciphertext.{Ciphertext, encryption_from_bytes}
use arm_noir.Pool.State.{Transaction, Backend, Proof}
use arm_noir.Wallet.KeyBytes.{K256, ExtendedFullViewingKey}
use arm_noir.Client.{ClientState, Decryption}
use arm_noir.Client.Scan.{
  Notes, record_note, or_continue, scan_keys, scan_payload, scan_payloads, scan_logic, scan_logics,
  scan_transactions,
}
use arm_noir.Client.Payloads.{Sized, discovery-Returns, encryption-Returns}
use arm_noir.Client.Lawful.{
  Lawful, OnCurve, AllResources, record_note-AllResources, find_resource-Returns,
}

-- The first n blobs are there with no more bytes in use than they have, and P holds of these bytes.
abbrev pub AllBlobs : (Bytes → Type 0) → ℕ → List ExpirableBlob → Type 0
AllBlobs P zero blobs = Unit {0}
AllBlobs P (suc n) [] = ⊥
AllBlobs P (suc n) (b ∷ bs) =
    ((b.blob_len ≤ length b.blob) × P (take b.blob_len b.blob)) × AllBlobs P n bs

-- A blob that is there, and its bytes in use.
blob_at :
    (P : Bytes → Type 0) (n i : ℕ) (blobs : List ExpirableBlob)
    → i < n
    → AllBlobs P n blobs
    → (b : ExpirableBlob) × (bytes : Bytes) × (get_elem? blobs i ≡ some b)
      × (slice_to b.blob_len b.blob ≡ some bytes)
      × P bytes
blob_at P zero i blobs p h = absurd (omega arith)
blob_at P (suc n) i [] p h = absurd h
blob_at P (suc n) zero (b ∷ bs) p ((q, r), hs) =
    (b, take b.blob_len b.blob, refl, slice_to_lem b.blob_len b.blob q, r)
blob_at P (suc n) (suc i) (b ∷ bs) p (h, hs) = blob_at P n i bs (omega arith) hs

or_continue-Returns :
    {A S : Type 0} (P : S → Type 0) (Q : Option A → Type 0) (o : Option A) (s : S)
    (next : A → Option S)
    → Q o
    → P s
    → ((a : A) → Q (some a) → Returns P (next a))
    → Returns P (or_continue o s next)
or_continue-Returns P Q none s next q h k = (s, refl, h)
or_continue-Returns P Q (some a) s next q h k = k a q

module _ {k : K256} {F : Type 0} (backend : Backend F) (d : Decryption k F) where
  -- The point of a ciphertext that was read is on the curve.
  abbrev ReadOnCurve : Option (Option (Ciphertext (EmbeddedCurvePoint F))) → Type 0
  ReadOnCurve none = Unit {0}
  ReadOnCurve (some c) = OnCurve d c

  -- The bytes of a resource payload: as long as a ciphertext, and with a point on the curve, where the
  -- tag says that there is one.
  abbrev pub ResourceReadable : Bytes → Type 0
  ResourceReadable bytes =
      (333 ≤ length bytes) × ReadOnCurve (encryption_from_bytes backend.field bytes)

  -- The payloads that are read are readable.
  abbrev pub Readable : AppData → Type 0
  Readable a =
      AllBlobs ResourceReadable a.discovery_payload_len a.resource_payload
      × AllBlobs (λ bytes. 93 ≤ length bytes) a.discovery_payload_len a.discovery_payload

  abbrev pub AllReadable : List (ResourceLogicInstance × Proof) → Type 0
  AllReadable [] = Unit {0}
  AllReadable ((l, proof) ∷ ls) = (l.is_consumed ≡ false → Readable l.app_data) × AllReadable ls

  abbrev pub PoolReadable : List (Transaction F) → Type 0
  PoolReadable [] = Unit {0}
  PoolReadable (tx ∷ txs) = AllReadable tx.logic_instances × PoolReadable txs

module _ {k : K256} {F : Type 0} (backend : Backend F) (d : Decryption k F)
    (lawful : Lawful backend d) (fvks : List (ExtendedFullViewingKey k F)) where
  scan_keys-Returns :
      (keys : List (ExtendedFullViewingKey k F)) (dc : Ciphertext d.AffinePoint)
      (rc : Ciphertext (EmbeddedCurvePoint F)) (pos : ℕ) (notes : Notes)
      → Sized 16 (some dc)
      → Sized 256 (some rc)
      → OnCurve d (some rc)
      → AllResources notes
      → Returns AllResources (scan_keys backend d fvks keys dc rc pos notes)
  unfolding scan_keys
  scan_keys-Returns [] dc rc pos notes s1 s2 on h = (notes, refl, h)
  scan_keys-Returns (fvk ∷ keys) dc rc pos notes s1 s2 on h =
      let (found, e, r) = find_resource-Returns backend d lawful fvk dc rc s1 s2 on in
      rw e (
        scan_keys-Returns keys dc rc pos (record_note pos found notes) s1 s2 on
          (record_note-AllResources pos found notes r h))

  scan_payload-Returns :
      (app_data : AppData) (i pos : ℕ) (notes : Notes)
      → Readable backend d app_data
      → i < app_data.discovery_payload_len
      → AllResources notes
      → Returns AllResources (scan_payload backend d fvks app_data i pos notes)
  unfolding scan_payload
  scan_payload-Returns app_data i pos notes (b1, b2) small h =
      let n = app_data.discovery_payload_len in
      let (rb, rbytes, e1, e2, (n1, on)) =
        blob_at (ResourceReadable backend d) n i app_data.resource_payload small b1 in
      let (db, dbytes, e3, e4, n2) =
        blob_at (λ bytes. 93 ≤ length bytes) n i app_data.discovery_payload small b2 in
      let (r, e5, s1) = encryption-Returns backend.field rbytes n1 in
      let (dr, e6, s2) = discovery-Returns d.codec dbytes n2 in
      let on' : OnCurve d r = (rw e5 at on) in
      rw (e1, e2, e5)
        (or_continue-Returns AllResources (λ o. Sized 256 o × OnCurve d o) r notes _ (s1, on') h
          λ rc z1.
            rw (e3, e4, e6)
              (or_continue-Returns AllResources (Sized 16) dr notes _ s2 h
                λ dc z2. scan_keys-Returns fvks dc rc pos notes z2 z1.0 z1.1 h))

  scan_payloads-Returns :
      (rounds i : ℕ) (app_data : AppData) (pos : ℕ) (notes : Notes)
      → Readable backend d app_data
      → i + rounds ≤ app_data.discovery_payload_len
      → AllResources notes
      → Returns AllResources (scan_payloads backend d fvks rounds i app_data pos notes)
  unfolding scan_payloads
  scan_payloads-Returns zero i app_data pos notes r p h = (notes, refl, h)
  scan_payloads-Returns (suc rounds) i app_data pos notes r p h =
      Returns-bind AllResources AllResources (scan_payload backend d fvks app_data i pos notes) _
        (scan_payload-Returns app_data i pos notes r (omega arith) h)
        λ notes' h'. scan_payloads-Returns rounds (suc i) app_data pos notes' r (omega arith) h'

  abbrev pub WithResources : ClientState × List Bytes → Type 0
  WithResources s = AllResources s.0.note_map

  scan_logic-Returns :
      (l : ResourceLogicInstance) (s : ClientState × List Bytes)
      → (l.is_consumed ≡ false → Readable backend d l.app_data)
      → WithResources s
      → Returns WithResources (scan_logic backend d fvks l s)
  unfolding scan_logic
  scan_logic-Returns l (state, commitments) r h =
      Returns-if WithResources l.is_consumed _ _ (λ consumed. ((state, commitments), refl, h))
        λ created.
          Returns-bind AllResources WithResources
            (scan_payloads backend d fvks l.app_data.discovery_payload_len 0 l.app_data
              state.current_pos state.note_map)
            _
            (scan_payloads-Returns l.app_data.discovery_payload_len 0 l.app_data state.current_pos
              state.note_map (r created) (omega arith) h)
            λ notes h'. (_, refl, h')

  scan_logics-Returns :
      (ls : List (ResourceLogicInstance × Proof)) (s : ClientState × List Bytes)
      → AllReadable backend d ls
      → WithResources s
      → Returns WithResources (scan_logics backend d fvks ls s)
  unfolding scan_logics
  scan_logics-Returns [] s r h = (s, refl, h)
  scan_logics-Returns ((l, proof) ∷ ls) s (r, rs) h =
      Returns-bind WithResources WithResources (scan_logic backend d fvks l s) _
        (scan_logic-Returns l s r h) λ s' h'. scan_logics-Returns ls s' rs h'

  pub scan_transactions-Returns :
      (txs : List (Transaction F)) (s : ClientState × List Bytes)
      → PoolReadable backend d txs
      → WithResources s
      → Returns WithResources (scan_transactions backend d fvks txs s)
  unfolding scan_transactions
  scan_transactions-Returns [] s r h = (s, refl, h)
  scan_transactions-Returns (tx ∷ txs) s (r, rs) h =
      Returns-bind WithResources WithResources (scan_logics backend d fvks tx.logic_instances s) _
        (scan_logics-Returns tx.logic_instances s r h)
        λ s' h'. scan_transactions-Returns txs s' rs h'
