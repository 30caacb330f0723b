-- ===== src/Client/Tree.antt =====
-- The tree and the positions of a synchronized client.
use arm_noir.Prelude.{
  ℕ, zero, suc, ◌+◌, ◌<◌, ◌≡◌, refl, sym, ap, ◌∙◌, Bool-cases, inl, inr, Option, none, some, List,
  [], ◌∷◌, ◌++◌, append-nil, append_assoc, map, length, get_elem?, length-append, ltb, ◌==◌,
  bytes_Eq, arith, Holds, Holds-bind, Holds-any, Holds-if, Holds-map,
}
use arm_noir.Bytes.{Bytes, slice_to}
use arm_noir.Instance.{AppData, ResourceLogicInstance, EmbeddedCurvePoint}
use arm_noir.Calldata.Ciphertext.{Ciphertext, discovery_from_bytes, encryption_from_bytes}
use arm_noir.Pool.State.{Transaction, Backend, Proof, cmt_node_new}
use arm_noir.Pool.Submit.Tags.{created_tags}
use arm_noir.Pool.Ledger.{all_created, map-append}
use arm_noir.Wallet.KeyBytes.{K256, ExtendedFullViewingKey}
use arm_noir.Client.{ResourceWithLabel, ClientState, Decryption, insert_note}
use arm_noir.Client.Decrypt.{find_resource}
use arm_noir.Client.Scan.{
  Notes, or_continue, record_note, scan_keys, scan_payload, scan_payloads, scan_logic, scan_logics,
  scan_transactions,
}

-- Every position is below n.
abbrev pub AllBelow : ℕ → Notes → Type 0
AllBelow n [] = Unit {0}
AllBelow n ((p, note) ∷ rest) = (p < n) × AllBelow n rest

AllBelow-mono : (m n : ℕ) (notes : Notes) → m < suc n → AllBelow m notes → AllBelow n notes
AllBelow-mono m n [] p h = tt
AllBelow-mono m n ((q, note) ∷ rest) p (h, hs) = (omega arith, AllBelow-mono m n rest p hs)

insert_note-AllBelow :
    (pos n : ℕ) (note : ResourceWithLabel) (notes : Notes)
    → pos < n
    → AllBelow n notes
    → AllBelow n (insert_note pos note notes)
insert_note-AllBelow pos n note [] p h = (p, tt)
insert_note-AllBelow pos n note ((q, b) ∷ rest) p (h, hs) = elim (Bool-cases (pos == q)) [
  | inl same ↦ rw same (h, hs)
  | inr other ↦ elim (Bool-cases (ltb pos q)) [
    | inl before ↦ rw (other, before) (p, (h, hs))
    | inr after ↦ rw (other, after) (h, insert_note-AllBelow pos n note rest p hs)
  ]
]

record_note-AllBelow :
    (pos : ℕ) (found : Option ResourceWithLabel) (notes : Notes)
    → AllBelow (suc pos) notes
    → AllBelow (suc pos) (record_note pos found notes)
record_note-AllBelow pos none notes h = h
record_note-AllBelow pos (some note) notes h =
    insert_note-AllBelow pos (suc pos) note notes (omega arith) h

or_continue-Holds :
    {A S : Type 0} (P : S → Type 0) (o : Option A) (s : S) (next : A → Option S)
    → P s
    → ((a : A) → Holds P (next a))
    → Holds P (or_continue o s next)
or_continue-Holds P none s next h k = h
or_continue-Holds P (some a) s next h k = k a

module _ {k : K256} {F : Type 0} (backend : Backend F) (d : Decryption k F)
    (fvks : List (ExtendedFullViewingKey k F)) where
  scan_keys-AllBelow :
      (keys : List (ExtendedFullViewingKey k F)) (dc : Ciphertext d.AffinePoint)
      (rc : Ciphertext (EmbeddedCurvePoint F)) (pos : ℕ) (notes : Notes)
      → AllBelow (suc pos) notes
      → Holds (AllBelow (suc pos)) (scan_keys backend d fvks keys dc rc pos notes)
  unfolding scan_keys
  scan_keys-AllBelow [] dc rc pos notes h = h
  scan_keys-AllBelow (fvk ∷ keys) dc rc pos notes h =
      Holds-any (AllBelow (suc pos)) (find_resource backend.hashes backend.field d fvk dc rc) _
        λ found _.
          scan_keys-AllBelow keys dc rc pos (record_note pos found notes)
            (record_note-AllBelow pos found notes h)

  scan_payload-AllBelow :
      (app_data : AppData) (i pos : ℕ) (notes : Notes)
      → AllBelow (suc pos) notes
      → Holds (AllBelow (suc pos)) (scan_payload backend d fvks app_data i pos notes)
  unfolding scan_payload
  scan_payload-AllBelow app_data i pos notes h =
      let P = AllBelow (suc pos) in
      Holds-any P (get_elem? app_data.resource_payload i) _ λ rp _.
        Holds-any P (slice_to rp.blob_len rp.blob) _ λ rb _.
          Holds-any P (encryption_from_bytes backend.field rb) _ λ r _.
            or_continue-Holds P r notes _ h λ rc.
              Holds-any P (get_elem? app_data.discovery_payload i) _ λ dp _.
                Holds-any P (slice_to dp.blob_len dp.blob) _ λ db _.
                  Holds-any P (discovery_from_bytes d.codec db) _ λ dr _.
                    or_continue-Holds P dr notes _ h λ dc. scan_keys-AllBelow fvks dc rc pos notes h

  scan_payloads-AllBelow :
      (rounds i : ℕ) (app_data : AppData) (pos : ℕ) (notes : Notes)
      → AllBelow (suc pos) notes
      → Holds (AllBelow (suc pos)) (scan_payloads backend d fvks rounds i app_data pos notes)
  unfolding scan_payloads
  scan_payloads-AllBelow zero i app_data pos notes h = h
  scan_payloads-AllBelow (suc rounds) i app_data pos notes h =
      Holds-bind (AllBelow (suc pos)) (AllBelow (suc pos))
        (scan_payload backend d fvks app_data i pos notes) _
        (scan_payload-AllBelow app_data i pos notes h)
        λ notes' h'. scan_payloads-AllBelow rounds (suc i) app_data pos notes' h'

  -- What the scan of some instances does: the commitments grow by the tags of the created ones, each
  -- takes a position, and notes have positions given so far.
  pub record Grown (tags : List Bytes) (s s' : ClientState × List Bytes) : Type 0 where
    pub grown : s'.1 ≡ s.1 ++ map (cmt_node_new backend) tags
    pub counted : s'.0.current_pos ≡ s.0.current_pos + length tags
    pub below : AllBelow s'.0.current_pos s'.0.note_map
    pub same_nullifiers : s'.0.nf_map ≡ s.0.nf_map
    pub same_spent : s'.0.spent_notes ≡ s.0.spent_notes

  abbrev Below : ClientState × List Bytes → Type 0
  Below s = AllBelow s.0.current_pos s.0.note_map

  none-Grown : (s : ClientState × List Bytes) → Below s → Grown [] s s
  none-Grown s h = record {
    grown = sym (append-nil s.1);
    counted = omega arith;
    below = h;
    same_nullifiers = refl;
    same_spent = refl;
  }

  both-Grown :
      (xs ys : List Bytes) (s s' s'' : ClientState × List Bytes)
      → Grown xs s s'
      → Grown ys s' s''
      → Grown (xs ++ ys) s s''
  both-Grown xs ys s s' s'' a b = record {
    grown =
        b.grown
        ∙ ap (λ c. c ++ map (cmt_node_new backend) ys) a.grown
        ∙ append_assoc s.1 (map (cmt_node_new backend) xs) (map (cmt_node_new backend) ys)
        ∙ ap (λ c. s.1 ++ c) (sym (map-append (cmt_node_new backend) xs ys));
    counted = omega (arith, a.counted, b.counted, length-append xs ys);
    below = b.below;
    same_nullifiers = b.same_nullifiers ∙ a.same_nullifiers;
    same_spent = b.same_spent ∙ a.same_spent;
  }

  scan_logic-Grown :
      (l : ResourceLogicInstance) (proof : Proof) (s : ClientState × List Bytes)
      → Below s
      → Holds (Grown (created_tags ((l, proof) ∷ [])) s) (scan_logic backend d fvks l s)
  unfolding scan_logic
  scan_logic-Grown l proof (state, commitments) h =
      let pos = state.current_pos in
      let P = Grown (created_tags ((l, proof) ∷ [])) (state, commitments) in
      let next : suc pos ≡ pos + 1 = omega arith in
      Holds-if P l.is_consumed _ _ (λ consumed. rw consumed (none-Grown (state, commitments) h))
        λ created.
          Holds-bind (AllBelow (suc pos)) P
            (scan_payloads backend d fvks l.app_data.discovery_payload_len 0 l.app_data pos
              state.note_map)
            _
            (scan_payloads-AllBelow l.app_data.discovery_payload_len 0 l.app_data pos state.note_map
              (AllBelow-mono pos (suc pos) state.note_map (omega arith) h))
            λ notes below. record {
              grown = rw created;
              counted = rw created;
              below = rw next at below;
              same_nullifiers = refl;
              same_spent = refl;
            }

  tags-split :
      (l : ResourceLogicInstance) (proof : Proof) (ls : List (ResourceLogicInstance × Proof))
      → created_tags ((l, proof) ∷ []) ++ created_tags ls ≡ created_tags ((l, proof) ∷ ls)
  tags-split l proof ls = ground arith

  scan_logics-Grown :
      (ls : List (ResourceLogicInstance × Proof)) (s : ClientState × List Bytes)
      → Below s
      → Holds (Grown (created_tags ls) s) (scan_logics backend d fvks ls s)
  unfolding scan_logics
  scan_logics-Grown [] s h = none-Grown s h
  scan_logics-Grown ((l, proof) ∷ ls) s h =
      let first = created_tags ((l, proof) ∷ []) in
      rw (← tags-split l proof ls) (
        Holds-bind (Grown first s) (Grown (first ++ created_tags ls) s)
          (scan_logic backend d fvks l s) _ (scan_logic-Grown l proof s h)
          λ s' g.
            Holds-map (Grown (created_tags ls) s') (Grown (first ++ created_tags ls) s)
              (scan_logics backend d fvks ls s') (scan_logics-Grown ls s' g.below)
              λ s'' g'. both-Grown first (created_tags ls) s s' s'' g g')

  pub scan_transactions-Grown :
      (txs : List (Transaction F)) (s : ClientState × List Bytes)
      → Below s
      → Holds (Grown (all_created txs) s) (scan_transactions backend d fvks txs s)
  unfolding scan_transactions
  scan_transactions-Grown [] s h = none-Grown s h
  scan_transactions-Grown (tx ∷ txs) s h =
      let first = created_tags tx.logic_instances in
      Holds-bind (Grown first s) (Grown (first ++ all_created txs) s)
        (scan_logics backend d fvks tx.logic_instances s) _
        (scan_logics-Grown tx.logic_instances s h)
        λ s' g.
          Holds-map (Grown (all_created txs) s') (Grown (first ++ all_created txs) s)
            (scan_transactions backend d fvks txs s') (scan_transactions-Grown txs s' g.below)
            λ s'' g'. both-Grown first (all_created txs) s s' s'' g g'
