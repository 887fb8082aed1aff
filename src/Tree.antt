-- ===== src/Tree.antt =====
-- packages/tree: the Merkle trees of the layer-2 state.
pub mod Hasher
pub mod Spec
pub mod PreHash
pub mod NodeIndex
pub mod Nodes
pub mod MerkleProof
pub mod LightRollUp
pub mod Nullifier
pub mod MerkleTreeSol
pub mod SolRoot
pub mod SmtSol
pub mod SubTreeSol
pub mod Grove
pub mod Samples
mod Tests
