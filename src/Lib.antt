-- ===== src/Lib.antt =====
-- A model of the native side of the resource machine in nodes/src: the shielded pool that accepts
-- transactions, the commitment trees it keeps, and the byte strings that its proofs and signatures
-- are about.
--
-- The parts and the code that each models:
--   Bytes             nodes/src/lib.rs: `write_bytes`, `read_bytes`, `pad_slice`, and the encodings of
--                     integers that the callers use
--   SignMagnitude     nodes/src/lib.rs: `SignMagnitude`, the signed quantities of the delta map
--   Circuit           nodes/src/lib.rs: `BarretenbergCircuit::circuit_verify`
--   Merkle            nodes/src/merkle.rs: `CommitmentTree` with `new`, `merge`, `root` and `path`
--   Crypto            the functions that nodes/src takes from its libraries, as records of arguments
--   Resource          nodes/src/types.rs: `Resource`, its commitment, nullifier and nonce
--   Instance          nodes/src/types.rs: the public instances and their digests
--   Curve, Calldata   nodes/src/types.rs: points, scalars, ciphertexts and contract calls as bytes,
--                     and the product of a point and a scalar
--   Abi               nodes/src/types.rs: the values that the circuits are handed, and
--                     `MerklePath::root`
--   Wallet            nodes/src/wallet.rs: the alias `Store`, and the keys as bytes
--   Pool              nodes/src/verifier.rs: `ShieldedPool` and `submit`, with the node types of
--                     nodes/src/merkle.rs and the `Transaction` of nodes/src/client.rs
--   Client            nodes/src/client.rs: `ClientState::synchronize`, a client's view of the pool
--   Stream            nodes/src/aggregator.rs: `BufferedStream`, messages over a socket that does not
--                     block
--   Aggregator        nodes/src/aggregator.rs: `MerkleAggregator`, a queue of batches and their roots
-- `submit` checks the signature, the action tree (a `CommitmentTree` of digests), the compliance proof
-- and the logic proofs against the digests of the instances, and then changes the pool: nullifiers,
-- commitments, the root of the commitment tree as an anchor, and the transaction. `Pool.History` takes
-- these calls together, and `Client.Synchronize` relates a pool so reached to its clients.
--
-- Conventions. A byte is a number below 256 and an array a list, with its length stated where a
-- theorem needs it. `none`, or `panic` in `Pool.Outcome`, is a panic of the code: an index or a slice
-- out of range, a failed assertion or `expect`, or an overflow of arithmetic, as where overflow is
-- checked (a build without these checks wraps around there instead). A method that changes its object
-- returns the object. A set or a map is a list that is read by key only. A loop over a range is
-- recursion on the number of rounds left; `ilog2` has the number itself as fuel, which halving cannot
-- use up, `merge` of trees one more than their width, which each round halves, and reading, flushing
-- and `merge` of wallets a length, which each round shortens. Sizes of vectors are taken to fit a
-- `usize`.
--
-- Arguments of the model: hash functions, field elements, the Poseidon hash, the verifiers of proofs
-- and of Schnorr signatures, the Borsh encoding of a transaction, points of `k256` and of
-- `ark_grumpkin`, the values of noirc_abi, the keys, the encryption and the parsers of the wallet,
-- sockets and the Borsh encoding of messages, and the iterators of IDs.
--
-- Not modelled: proving and loading of circuits, log output, Borsh and Serde instances (libraries);
-- the files of the wallet and keys as strings, the transaction builder, and the aggregators that
-- delegate; the command line, the Noir circuits and the Solidity contracts.
pub mod Prelude
pub mod Merkle
pub mod Bytes
pub mod Crypto
pub mod Resource
pub mod Instance
pub mod Abi
pub mod Calldata
pub mod Circuit
pub mod Curve
pub mod Pool
pub mod SignMagnitude
pub mod Wallet
pub mod Stream
pub mod Aggregator
pub mod Client
