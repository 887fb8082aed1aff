-- ===== src/Lib.antt =====
-- Zkopru, an optimistic rollup with private transactions: the parts of the layer-2 node that keep its
-- state and its books, and what makes them correct.
--
-- The layer-2 state consists of Merkle trees. packages/tree keeps the trees of notes and withdrawals
-- as light trees (`LightRollUpTree`: a root, an index and one sibling for each level, with nodes
-- stored for the leaves that are tracked) and the tree of spent notes as a sparse tree
-- (`NullifierTree`). A node that starts from a checkpoint takes a root, an index and siblings and
-- has them checked by `startingLeafProof`. packages/transaction encodes the transactions that blocks
-- carry; packages/coordinator collects them in a pool, from which a block proposer picks and to
-- which a block that fails returns them. packages/core writes a block to bytes and reads it again,
-- sums up the notes that migrate, and judges the blocks of others; a block changes the trees through
-- the grove, by the same patch with which its proposer made the header. The auction monitor of
-- packages/coordinator bids for the rounds in which blocks are proposed; packages/utils computes the
-- root under which a block lists them; packages/database holds back the writes that belong to blocks
-- without enough confirmations.
--
-- The files:
--   Base               tests on numbers, lists over the native numbers, facts about bits, and free
--                      terms (Base/Terms) that serve as hash values in the tests.
--   Tree               packages/tree/src. Tree/Spec is the Merkle tree over a function from positions
--                      to leaves that the code stands for. Tree/Hasher is hasher.ts, with the values
--                      of `getPreHash` in Tree/PreHash; Tree/MerkleProof is merkle-proof.ts
--                      (`merkleRoot`, `verifyProof`, `startingLeafProof`); Tree/LightRollUp is
--                      light-rollup-tree.ts (`dryAppend`, `getStartingLeafProof`,
--                      `initTreeFromDatabase`), with `_append` and `shouldTrack` in
--                      Tree/LightRollUp/Append; Tree/Nullifier is nullifier-tree.ts (`dryRun`,
--                      `update`, `nullify`, `recover`), with its proofs in
--                      Tree/Nullifier/Proofs. Tree/Nodes holds the rows of tree nodes,
--                      Tree/NodeIndex the node indices.
--                      Tree/Grove is grove.ts, the patch of the three trees by a block, with its
--                      padding in Padding and Appends, and its trees' start in Bootstrap.
--                      Tree/MerkleTreeSol is `append` of packages/tree/src/utils/merkle-tree-sol.ts,
--                      Tree/SolRoot its `merkleRoot`, Tree/SubTreeSol its sub trees: `subTreeRoot` in
--                      Floors and Short, `appendAsSubTrees` in Climbs, Groups, Sound and Agrees.
--                      Tree/SmtSol is packages/tree/src/utils/smt-sol.ts.
--   Transaction        packages/transaction/src/zk-tx.ts, with the field elements of
--                      packages/babyjubjub/src/fp.ts in Transaction/Fp, the `Queue` of
--                      packages/utils/src/index.ts in Transaction/Buffer, and `txSizeCalculator` of
--                      that file in Transaction/Size. Transaction/ZkTx has `encode` and `decode`;
--                      Encodable says which transactions fit the fields of the encoding, Writes has
--                      the rules for code that writes parts and code that reads them back, Parts,
--                      Switch and RoundTrip apply them. Cached has `size`, `hash` and
--                      `signals`. Transaction/NoteSum is
--                      packages/transaction/src/note-sum.ts, and Transaction/TxBuilder the part of
--                      `build` in tx-builder.ts that finds the ETH to spend.
--   Block              packages/core/src/block: `serializeBlock` and `Block.from` with the
--                      serializations of utils.ts in Header, Mass and Txs, the block and its hashes in
--                      Whole, `getMassMigrations` in Migrations. Parsing has the rules for code that
--                      reads the `StringifiedHexQueue` of packages/utils/src/index.ts and may throw,
--                      Types the values of soltypes.
--   Validator          packages/core/src/validator/offchain: offchain-header-validator.ts and
--                      offchain-migration-validator.ts in Header and Migration, the validators of the
--                      three trees in Trees, with `getGrovePatch` of
--                      packages/core/src/context/layer2.ts and `withdrawalHash` of
--                      packages/transaction/src/withdrawal.ts, and offchain-tx-validator.ts in Txs.
--   Coordinator        packages/coordinator/src/tx-pool.ts, `TxMemPool`: the picking of transactions
--                      in Picks and Swaps, `markAsIncluded` and `revert` in Reverts, the pruning in
--                      Prunes. Coordinator/AuctionMonitor is auction-monitor.ts, its rounds and its
--                      bids.
--   Database           packages/database/src/block-cache.ts, `BlockCache`.
--   Utils              `root` and `numToBuffer` of packages/utils/src/index.ts.
--
-- Objects are records, methods that change an object take it and return it, a method that throws
-- returns `none`. Field elements, hashes that serve as keys and indices are native numbers; values of
-- the trees are of any type with an equality. A loop over the levels of a tree is a recursion on its
-- list of siblings or on the number of the levels left. The loop that pairs swaps and the recursion of
-- `root` run on fuel, for which the length of their list is enough.
--
-- Parameters: the hash of two values (keccak, Poseidon), which is injective where a theorem says so;
-- the writing of numbers by BN.js, which is big-endian where a theorem says so; `Array.sort` with
-- the comparator of the pool; the hash and the size of a transaction in the pool; the database
-- behind the block cache; the value types of soltypes, which keep their bytes and numbers where a
-- theorem says so, and the hash of bytes, which is free of collisions where one says so; the answers
-- of the contracts to the auction monitor; the rows that the queries of a validator return, and the
-- SNARK verifier. Modules named Samples hold instances of these and values for the tests.
--
-- Not modelled: the locks and the interleaving of awaits, since each method is one step; the
-- database queries themselves and the texts in which numbers are stored there; logging; and of these
-- classes the Merkle proofs that a light tree or a grove makes from stored nodes, the storing and
-- loading of pending transactions, `parseMemo` and `circomProof` of a transaction, the choice of
-- tokens and the changes in `build`, the layer-1 transactions that a validation prepares, and the
-- unpacking of the call data of a block. The validator of deposits and those that ask layer 1, the
-- block processor, the account, wallet, client and command line packages, the synchronisation with
-- layer 1, the circuits and the contracts are not modelled.
pub mod Base
pub mod Tree
pub mod Transaction
pub mod Coordinator
pub mod Database
pub mod Utils
pub mod Block
pub mod Validator
