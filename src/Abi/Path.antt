-- ===== src/Abi/Path.antt =====
-- `MerklePath::root` of nodes/src/types.rs as the hashing along a path of the commitment tree.
use arm_noir.Prelude.{
  ℕ, zero, suc, ◌-◌, ◌≤◌, ◌≡◌, refl, Bool, true, false, Bool-cases, inl, inr, some, List, [], ◌∷◌,
  map, take, length, ltb, reverse, arith,
}
use arm_noir.Bytes.{Bytes, copy_from_slice}
use arm_noir.Crypto.{FieldOps}
use arm_noir.Merkle.{Hashable}
use arm_noir.Merkle.Path.{apply_path}
use arm_noir.Abi.Witness.{MerklePath, hash_path, path_root}

take-nil : {A : Type 0} (n : ℕ) → take {A = A} n [] ≡ []
take-nil zero = refl
take-nil (suc n) = refl

module _ {F : Type 0} (field : FieldOps F) (poseidon2_hash : Bytes → Bytes → Bytes) where
  open field use {to_be_bytes, from_le_bytes_reduce}

  -- The nodes of the commitment tree, which hashes the same at every level.
  abbrev pub poseidon_node : Hashable Bytes
  poseidon_node = record {
    combine = λ _ lhs rhs. poseidon2_hash lhs rhs;
    empty_leaf = to_be_bytes field.zero;
  }

  -- The siblings as nodes.
  abbrev pub steps_of : List (F × Bool) → List (Bytes × Bool)
  steps_of path = map (λ step. (to_be_bytes step.0, step.1)) path

  hash_path_lem :
      (depth rounds k : ℕ) (path : List (F × Bool)) (current_root : Bytes)
      → length path ≡ rounds
      → rounds ≤ 32
      → hash_path field poseidon2_hash depth rounds path current_root
        ≡ some
            (apply_path poseidon_node k current_root (steps_of (take (depth - (32 - rounds)) path)))
  unfolding hash_path apply_path
  hash_path_lem depth zero k [] current_root e p = rw (take-nil (depth - (32 - 0)))
  hash_path_lem depth zero k (s ∷ path) current_root e p = absurd (omega arith)
  hash_path_lem depth (suc rounds) k [] current_root e p = absurd (omega arith)
  hash_path_lem depth (suc rounds) k ((sibling, right) ∷ path) current_root e p =
      elim (Bool-cases (ltb (32 - suc rounds) depth)) [
        | inl used ↦
            let n : depth - (32 - suc rounds) ≡ suc (depth - (32 - rounds)) = ground arith in
            rw (used, n) (hash_path_lem depth rounds (suc k) path _ (omega arith) (omega arith))
        | inr unused ↦
            let n : depth - (32 - suc rounds) ≡ 0 = ground arith in
            let m : depth - (32 - rounds) ≡ 0 = ground arith in
            rw (unused, n)
              (rw m at (hash_path_lem depth rounds k path current_root (omega arith) (omega arith)))
      ]

  -- Hashes and field elements have 32 bytes.
  pub record PathLaws : Type 0 where
    pub length-poseidon2_hash : (lhs rhs : Bytes) → length (poseidon2_hash lhs rhs) ≡ 32
    pub length-to_be_bytes : (x : F) → length (to_be_bytes x) ≡ 32

  length-apply_path :
      PathLaws
      → (k : ℕ) (current : Bytes) (path : List (Bytes × Bool)) → length current ≡ 32
      → length (apply_path poseidon_node k current path) ≡ 32
  unfolding apply_path
  length-apply_path laws k current [] e = e
  length-apply_path laws k current ((s, true) ∷ path) e =
      length-apply_path laws (suc k) (poseidon2_hash s current) path
        (laws.length-poseidon2_hash s current)
  length-apply_path laws k current ((s, false) ∷ path) e =
      length-apply_path laws (suc k) (poseidon2_hash current s) path
        (laws.length-poseidon2_hash current s)

  -- For an array of 32 siblings, and hashes and field elements of 32 bytes, `MerklePath::root`
  -- does not panic; it reads the leaf as a field element, hashes it along the siblings in use as
  -- the commitment tree does, and reverses the bytes.
  pub path_root_lem :
      PathLaws
      → (self : MerklePath F) (leaf : Bytes) → length self.path ≡ 32
      → path_root field poseidon2_hash self leaf
        ≡ some (
            reverse (
              apply_path poseidon_node 0
                (to_be_bytes (from_le_bytes_reduce leaf))
                (steps_of (take self.depth self.path))))
  unfolding path_root copy_from_slice
  path_root_lem laws self leaf e =
      let start = to_be_bytes (from_le_bytes_reduce leaf) in
      let steps = steps_of (take self.depth self.path) in
      let n : self.depth - (32 - 32) ≡ self.depth = omega arith in
      let hashed : hash_path field poseidon2_hash self.depth 32 self.path start
          ≡ some (apply_path poseidon_node 0 start steps) =
        (rw n at (hash_path_lem self.depth 32 0 self.path start e (omega arith))) in
      let size : length (apply_path poseidon_node 0 start steps) ≡ 32 =
        length-apply_path laws 0 start steps
          (laws.length-to_be_bytes (from_le_bytes_reduce leaf)) in
      rw (hashed, size)
