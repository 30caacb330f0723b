-- ===== src/Client/Synchronize.antt =====
-- What `synchronize` returns: the tree, the positions, the nullifiers and the spent notes.
use arm_noir.Prelude.{
  ℕ, ◌≡◌, sym, ap, ◌∙◌, true, inl, inr, Option-cases, some, List, [], map, length, contains,
  bytes_Eq, arith, In, Holds, Holds-bind, Holds-any, Holds-some,
}
use arm_noir.Bytes.{Bytes}
use arm_noir.Merkle.{Hashable, CommitmentTree, new, root}
use arm_noir.Merkle.Root.{root_of}
use arm_noir.Pool.State.{
  ShieldedPool, Backend, cmt_node, cmt_node_new, max_tree_depth, commitment_root,
}
use arm_noir.Pool.History.{Reached, Reached-Consistent}
use arm_noir.Pool.Ledger.{all_created}
use arm_noir.Wallet.KeyBytes.{K256, ExtendedFullViewingKey}
use arm_noir.Client.{ClientState, Decryption, default_state}
use arm_noir.Client.Scan.{scan_nullifiers, scan_transactions, index_notes, synchronize}
use arm_noir.Client.Notes.{SpentBy, scan_nullifiers-In, In-scan_nullifiers}
use arm_noir.Client.Tree.{AllBelow, Grown, scan_transactions-Grown}
use arm_noir.Client.Owned.{AllOwned, Indexed, index_notes-Indexed}

-- The root of the tree that `new` returns.
root-of_tree :
    (h : Hashable Bytes) (depth : ℕ) (leafs : List Bytes) (tree : CommitmentTree Bytes)
    (anchor : Bytes)
    → new h depth leafs ≡ some tree
    → root_of h depth leafs ≡ some anchor
    → (tree' : CommitmentTree Bytes) × (root h tree ≡ some (anchor, tree'))
unfolding root_of
root-of_tree h depth leafs tree anchor built rooted = elim (Option-cases (root h tree)) [
  | inl failed ↦ absurd (cc (rw (built, failed) at rooted))
  | inr (r, e) ↦
      let same : r.0 ≡ anchor = cc (rw (built, e) at rooted) in
      (r.1, e ∙ ap (λ a. some (a, r.1)) same)
]

module _ {k : K256} {F : Type 0} (backend : Backend F) (d : Decryption k F)
    (fvks : List (ExtendedFullViewingKey k F)) where
  -- The client's view of a pool: the tree is that of the created resources of all transactions, in order,
  -- and the position their number; notes have positions below it; a nullifier that is indexed is that of
  -- the note at its position; the spent positions are those indexed by a nullifier of the pool.
  pub record Synchronized (pool : ShieldedPool F) (state : ClientState) : Type 0 where
    pub built :
        new
          (cmt_node backend)
          max_tree_depth
          (map (cmt_node_new backend) (all_created pool.transactions))
        ≡ some state.tree
    pub counted : state.current_pos ≡ length (all_created pool.transactions)
    pub below : AllBelow state.current_pos state.note_map
    pub owned : AllOwned backend d fvks state.note_map state.nf_map
    pub spent : (p : ℕ) → In p state.spent_notes → SpentBy pool.nullifiers state.nf_map p
    pub all_spent : (p : ℕ) → SpentBy pool.nullifiers state.nf_map p → In p state.spent_notes

  Indexed-Synchronized :
      (pool : ShieldedPool F) (scanned : ClientState × List Bytes) (tree : CommitmentTree Bytes)
      (state : ClientState)
      → Grown backend d fvks (all_created pool.transactions) (default_state, []) scanned
      → new (cmt_node backend) max_tree_depth scanned.1 ≡ some tree
      → Indexed backend d fvks scanned.0.note_map (record scanned.0 { tree = tree }) state
      → Synchronized pool (record state {
        spent_notes = scan_nullifiers pool.nullifiers state.nf_map state.spent_notes;
      })
  Indexed-Synchronized pool scanned tree state g e i =
      let no_spent : state.spent_notes ≡ [] = i.same_spent ∙ g.same_spent in
      record {
        built =
            ap (new (cmt_node backend) max_tree_depth) (sym g.grown)
            ∙ e
            ∙ ap some (sym i.same_tree);
        counted = omega (arith, i.same_pos, g.counted);
        below = rw (i.same_pos, i.same_notes) g.below;
        owned = rw i.same_notes i.owned;
        spent = λ p h.
            elim (scan_nullifiers-In pool.nullifiers state.nf_map state.spent_notes p h) [
              | inl old ↦ elim (rw no_spent at old) [ ]
              | inr s ↦ s
            ];
        all_spent =
            λ p s. In-scan_nullifiers pool.nullifiers state.nf_map state.spent_notes p (inr s);
      }

  synchronize-Holds :
      (pool : ShieldedPool F) → Holds (Synchronized pool) (synchronize backend d fvks pool)
  unfolding synchronize
  synchronize-Holds pool =
      let P = Synchronized pool in
      Holds-bind (Grown backend d fvks (all_created pool.transactions) (default_state, [])) P
        (scan_transactions backend d fvks pool.transactions (default_state, [])) _
        (scan_transactions-Grown backend d fvks pool.transactions (default_state, []) tt)
        λ scanned g. Holds-any P (new (cmt_node backend) max_tree_depth scanned.1) _ λ tree e.
          let start = record scanned.0 { tree = tree } in
          let none_indexed : start.nf_map ≡ [] = g.same_nullifiers in
          Holds-bind (Indexed backend d fvks scanned.0.note_map start) P
            (index_notes backend d fvks scanned.0.note_map start) _
            (index_notes-Indexed backend d fvks scanned.0.note_map scanned.0.note_map start
              (λ x h. h) (λ n pos f. absurd (cc (rw none_indexed at f))))
            λ state i. Indexed-Synchronized pool scanned tree state g e i

  -- Where `synchronize` does not panic, its tree is that of the resources that the transactions create,
  -- in order, and its position is their number; every note has a position below it; every nullifier that
  -- is indexed is that of the note at its position under one of the viewing keys; and a position is spent
  -- exactly where a nullifier of the pool is indexed with it.
  pub synchronize-Synchronized :
      (pool : ShieldedPool F) (state : ClientState)
      → synchronize backend d fvks pool ≡ some state
      → Synchronized pool state
  synchronize-Synchronized pool state e =
      Holds-some (Synchronized pool) (synchronize backend d fvks pool) state
        (synchronize-Holds pool) e

  -- Where `synchronize` does not panic on a pool that a new pool becomes by accepted and refused
  -- transactions (`Reached`), the root of its tree is the root of the pool's commitments, and an anchor.
  pub synchronize_anchor :
      (pool : ShieldedPool F) (state : ClientState)
      → Reached backend pool
      → synchronize backend d fvks pool ≡ some state
      → (anchor : Bytes) × (tree' : CommitmentTree Bytes) × (root (cmt_node backend) state.tree
          ≡ some (anchor, tree'))
        × (commitment_root backend pool.commitments ≡ some anchor)
        × (contains anchor pool.anchors ≡ true)
  unfolding commitment_root
  synchronize_anchor pool state reached e =
      let c = Reached-Consistent backend reached in
      let s = synchronize-Synchronized pool state e in
      let (anchor, rooted, known) = c.current in
      let built : new (cmt_node backend) max_tree_depth pool.commitments ≡ some state.tree =
        ap (new (cmt_node backend) max_tree_depth) c.created ∙ s.built in
      let (tree', same) =
        root-of_tree (cmt_node backend) max_tree_depth pool.commitments state.tree anchor built
          rooted in
      (anchor, tree', same, rooted, known)
