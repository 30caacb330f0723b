-- ===== src/Client/Owned.antt =====
-- The nullifiers that `synchronize` indexes are those of notes, under the viewing keys.
use arm_noir.Prelude.{
  ℕ, ◌≡◌, refl, sym, ◌∙◌, Bool-cases, inl, inr, some, List, [], ◌∷◌, bytes_eq, bytes_eq_iff, lookup,
  put, lookup-put, bytes_Eq, In, Holds, Holds-bind, Holds-any, Holds-if, Holds-map,
}
use arm_noir.Bytes.{Bytes}
use arm_noir.Resource.{nullifier, commit}
use arm_noir.Pool.State.{Backend}
use arm_noir.Wallet.KeyBytes.{K256, ExtendedFullViewingKey, viewing_to_vec}
use arm_noir.Client.{ResourceWithLabel, ClientState, Decryption}
use arm_noir.Client.Scan.{Notes, index_note, index_notes}

module _ {k : K256} {F : Type 0} (backend : Backend F) (d : Decryption k F)
    (fvks : List (ExtendedFullViewingKey k F)) where
  -- The nullifier of the note at a position, under one of the viewing keys.
  abbrev pub Owned : Notes → Bytes → ℕ → Type 0
  Owned notes n pos =
      (note : ResourceWithLabel) × (fvk : ExtendedFullViewingKey k F) × In (pos, note) notes
      × In fvk fvks
      × (nullifier backend.hashes note.resource (record { bytes = fvk.nullifier_key }) ≡ some n)

  abbrev pub AllOwned : Notes → List (Bytes × ℕ) → Type 0
  AllOwned notes nf_map = (n : Bytes) (pos : ℕ) → lookup n nf_map ≡ some pos → Owned notes n pos

  -- The indexing of the notes changes the two maps only.
  pub record Indexed (notes : Notes) (s s' : ClientState) : Type 0 where
    pub same_tree : s'.tree ≡ s.tree
    pub same_notes : s'.note_map ≡ s.note_map
    pub same_pos : s'.current_pos ≡ s.current_pos
    pub same_spent : s'.spent_notes ≡ s.spent_notes
    pub owned : AllOwned notes s'.nf_map

  none-Indexed : (notes : Notes) (s : ClientState) → AllOwned notes s.nf_map → Indexed notes s s
  none-Indexed notes s h = record {
    same_tree = refl;
    same_notes = refl;
    same_pos = refl;
    same_spent = refl;
    owned = h;
  }

  both-Indexed :
      (notes : Notes) (s s' s'' : ClientState)
      → Indexed notes s s'
      → Indexed notes s' s''
      → Indexed notes s s''
  both-Indexed notes s s' s'' a b = record {
    same_tree = b.same_tree ∙ a.same_tree;
    same_notes = b.same_notes ∙ a.same_notes;
    same_pos = b.same_pos ∙ a.same_pos;
    same_spent = b.same_spent ∙ a.same_spent;
    owned = b.owned;
  }

  put-AllOwned :
      (notes : Notes) (nf_map : List (Bytes × ℕ)) (n : Bytes) (pos : ℕ)
      → Owned notes n pos
      → AllOwned notes nf_map
      → AllOwned notes (put n pos nf_map)
  put-AllOwned notes nf_map n pos o h m p e =
      let f = sym (lookup-put m n pos nf_map) ∙ e in
      elim (Bool-cases (bytes_eq m n)) [
        | inl same ↦
            let m_n : m ≡ n = (bytes_eq_iff m n).0 same in
            let pos_p : pos ≡ p = cc (rw same at f) in rw (m_n, ← pos_p) o
        | inr other ↦ h m p (rw other at f)
      ]

  index_note-Indexed :
      (notes : Notes) (pos : ℕ) (note : ResourceWithLabel)
      (keys : List (ExtendedFullViewingKey k F)) (s : ClientState)
      → In (pos, note) notes
      → ((fvk : ExtendedFullViewingKey k F) → In fvk keys → In fvk fvks)
      → AllOwned notes s.nf_map
      → Holds (Indexed notes s) (index_note backend d fvks pos note keys s)
  unfolding index_note
  index_note-Indexed notes pos note [] s here sub h = none-Indexed notes s h
  index_note-Indexed notes pos note (fvk ∷ keys) s here sub h =
      let P = Indexed notes s in
      Holds-if P (bytes_eq note.resource.nk_commitment (commit backend.hashes fvk.nullifier_key)) _
        _
        (λ mine.
          Holds-any P
            (nullifier backend.hashes note.resource (record { bytes = fvk.nullifier_key })) _
            λ n e. Holds-any P (viewing_to_vec k backend.field fvk) _ λ key _. record {
              same_tree = refl;
              same_notes = refl;
              same_pos = refl;
              same_spent = refl;
              owned = put-AllOwned notes s.nf_map n pos (note, fvk, here, sub fvk (inl refl), e) h;
            })
        (λ other. index_note-Indexed notes pos note keys s here (λ x i. sub x (inr i)) h)

  pub index_notes-Indexed :
      (notes rest : Notes) (s : ClientState)
      → ((x : ℕ × ResourceWithLabel) → In x rest → In x notes)
      → AllOwned notes s.nf_map
      → Holds (Indexed notes s) (index_notes backend d fvks rest s)
  unfolding index_notes
  index_notes-Indexed notes [] s sub h = none-Indexed notes s h
  index_notes-Indexed notes ((pos, note) ∷ rest) s sub h =
      Holds-bind (Indexed notes s) (Indexed notes s) (index_note backend d fvks pos note fvks s) _
        (index_note-Indexed notes pos note fvks s (sub (pos, note) (inl refl)) (λ x i. i) h)
        λ s' a.
          Holds-map (Indexed notes s') (Indexed notes s) (index_notes backend d fvks rest s')
            (index_notes-Indexed notes rest s' (λ x i. sub x (inr i)) a.owned)
            λ s'' b. both-Indexed notes s s' s'' a b
