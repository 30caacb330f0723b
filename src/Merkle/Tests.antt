-- ===== src/Merkle/Tests.antt =====
-- Trees of three leaves, with numbers as nodes.
use arm_noir.Prelude.{ℕ, ◌+◌, ◌*◌, ◌≡◌, refl, List, [], ◌∷◌, some, arith}
use arm_noir.Merkle.{Hashable, MerklePath, CommitmentTree, new, root, path}
use arm_noir.Merkle.Ideal.{node}
use arm_noir.Merkle.Cache.{IsCache}
use arm_noir.Merkle.Build.{tree_of, new-tree_of}
use arm_noir.Merkle.Root.{root_of, root_of-node}
use arm_noir.Merkle.Path.{apply_path, siblings, path-siblings, path-root}

abbrev hash : Hashable ℕ
hash = record { combine = λ level lhs rhs. 100 * level + 3 * lhs + 7 * rhs + 1; empty_leaf = 5 }

abbrev leafs : List ℕ
leafs = 10 ∷ 20 ∷ 30 ∷ []

path-root_example :
    (tree tree' tree'' : CommitmentTree ℕ) × (p : MerklePath ℕ) × (new hash 4 leafs ≡ some tree)
    × (path hash tree 2 ≡ some (p, tree'))
    × (root hash tree' ≡ some (apply_path hash 0 30 p.auth_path, tree''))
path-root_example = path-root hash 4 leafs 2 refl (omega arith)

root_of-node_example : root_of hash 4 leafs ≡ some (node hash leafs 4 0)
root_of-node_example = root_of-node hash 4 leafs (omega arith) (omega arith)

new-tree_of_example :
    (cache : List ℕ) × (new hash 4 leafs ≡ some (tree_of hash leafs 4 cache)) × IsCache hash cache
new-tree_of_example = new-tree_of hash leafs 4 (omega arith)

path-siblings_example :
    (cache' : List ℕ) × (path hash (tree_of hash leafs 4 []) 9
      ≡ some (
        record { auth_path = siblings hash leafs 4 0 9; position = 9 },
        tree_of hash leafs 4 cache',
      ))
    × IsCache hash cache'
path-siblings_example = path-siblings hash leafs 4 9 [] (0, refl)
