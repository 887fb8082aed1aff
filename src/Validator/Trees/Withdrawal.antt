-- ===== src/Validator/Trees/Withdrawal.antt =====
-- The validators of the withdrawal tree against `dryPatch` of grove.ts, by which a block is proposed.
use zkopru.Base.{
  ℕ, ◌+◌, ◌^◌, ◌≤◌, ◌≡◌, sym, ap, ◌∙◌, Bool, true, not, some, Eq, nat_eq, List, ◌==◌, length, map,
  filter, length-map,
}
use zkopru.Transaction.ZkTx.{ZkTx}
use zkopru.Block.Types.{SolTypes, Header}
use zkopru.Block.Whole.{Block}
use zkopru.Block.Migrations.{SolNumbers, outflows_of}
use zkopru.Tree.Hasher.{hasher_of}
use zkopru.Tree.Spec.{IsInjective}
use zkopru.Tree.LightRollUp.{latest_leaf_index}
use zkopru.Tree.Grove.{Grove, GrovePatch, GroveSnapshot, fixed_size_len, dry_patch}
use zkopru.Tree.Grove.Appends.{Holds, HasRoom, hashes_of}
use zkopru.Tree.Grove.Agrees.{dry_patch_lem}
use zkopru.Validator.Header.Roots.{traverse-length}
use zkopru.Validator.Migration.{Validation, w1, w2, w3}
use zkopru.Validator.Trees.{
  is_withdrawal, hash_of_withdrawal, withdrawal_hashes, get_grove_patch, follows,
  validate_withdrawal_index, validate_withdrawal_root,
}
use zkopru.Validator.Trees.Honest.{IsProved, Shows, judged_index, patch_leaves, proved_root}

withdrawals_counted :
    (sha3 : List ℕ → List ℕ) (txs : List ZkTx) (hs : List ℕ)
    → withdrawal_hashes sha3 txs ≡ some hs
    → length hs ≡ length (filter is_withdrawal (outflows_of txs))
unfolding withdrawal_hashes
withdrawals_counted sha3 txs hs found =
    traverse-length (hash_of_withdrawal sha3) (filter is_withdrawal (outflows_of txs)) hs found

module _ (s : SolTypes) (n : SolNumbers s) ⦃e : Eq s.Bytes32⦄ (sha3 : List ℕ → List ℕ)
    (poseidon keccak : ℕ → ℕ → ℕ) (filled : ℕ) (tracked : ℕ → Bool) (g : Grove ℕ ℕ) (f w : ℕ → ℕ)
    (k m k' m' : ℕ) (b : Block s) (parent : Header s) (notes : List ℕ) (header : ℕ)
    (patch : GrovePatch ℕ ℕ) (snap : GroveSnapshot ℕ ℕ) (siblings : List s.Uint256) where
  -- Under an injective hash of the tree of withdrawals, when this tree stands for a Merkle tree,
  -- ends with a whole sub tree below its end, and the siblings, one for each level above the sub
  -- trees, pass `emptySubTreeProof`, when the tree of notes stands for a Merkle tree, both have
  -- room for the leaves of the patch and their padding, the sub trees have `2 ^ k` leaves, the
  -- parent header shows root and index of the tree of withdrawals, the block has the hash of the
  -- parent, and `dryPatch` of the patch that `getGrovePatch` makes for the block returns a
  -- snapshot, then `validateWithdrawalIndex` and `validateWithdrawalRoot` do not throw, and find
  -- the block slashable exactly if its header has another index, or another root, than the
  -- snapshot.
  pub validate_withdrawal-dry_patch :
      IsInjective keccak
      → IsProved keccak k m w g.withdrawal_tree (map n.uint256_number siblings)
      → g.config.withdrawal_sub_tree_size ≡ 2 ^ k
      → HasRoom g.config.withdrawal_sub_tree_size g.withdrawal_tree patch.withdrawals
      → Holds poseidon 0 (k' + m') f g.utxo_tree
      → HasRoom g.config.utxo_sub_tree_size g.utxo_tree patch.utxos
      → Shows
          (n.uint256_number parent.withdrawal_root)
          (n.uint256_number parent.withdrawal_index)
          (n.uint256_number parent.withdrawal_root)
          (n.uint256_number parent.withdrawal_index)
          g.withdrawal_tree
      → follows s n sha3 b parent ≡ some true
      → get_grove_patch sha3 notes tracked header b.body.txs ≡ some patch
      → dry_patch 0 0 filled g patch ≡ some snap
      → (v : Validation) × (validate_withdrawal_index s n sha3
            (2 ^ g.withdrawal_tree.depth)
            (2 ^ k)
            b
            parent
          ≡ some v)
        × (v.slashable
            ≡ not (n.uint256_number (b.header.withdrawal_index) == snap.withdrawal_tree_index))
        × (validate_withdrawal_root s n sha3 (hasher_of keccak 0 (k + m)) k b parent siblings
            ≡ some record {
              slashable =
                  not (snap.withdrawal_tree_root == n.uint256_number (b.header.withdrawal_root));
              reason = w3;
            })
  unfolding validate_withdrawal_index validate_withdrawal_root
  validate_withdrawal-dry_patch inj proved size room holds_u room_u shows checked made ran =
      let hs = hashes_of patch.withdrawals in
      let found = (patch_leaves sha3 tracked notes header b.body.txs patch made).1 in
      let count : length patch.withdrawals ≡ length hs =
        sym (length-map (λ leaf. leaf.hash) patch.withdrawals) in
      let (root_u, index_u, root, index) =
        dry_patch_lem 0 0 filled poseidon keccak (k' + m') (k + m) g patch f w snap holds_u room_u
          proved.holds room ran in
      let i = latest_leaf_index g.withdrawal_tree in
      let fits : i + fixed_size_len (2 ^ k) (length hs) ≤ 2 ^ g.withdrawal_tree.depth =
        rw (← count, ← size) (room.1) in
      let computed =
        proved_root keccak k m w g.withdrawal_tree (map n.uint256_number siblings) hs _ _ _ _ inj
          proved shows fits in
      let claimed = n.uint256_number (b.header.withdrawal_index) in
      let size_of = length (filter is_withdrawal (outflows_of b.body.txs)) in
      let same_count : length hs ≡ size_of = withdrawals_counted sha3 b.body.txs hs found in
      let (v, ran_index, judged) =
        judged_index s n k g.config.withdrawal_sub_tree_size i size_of (length patch.withdrawals)
          snap.withdrawal_tree_index (2 ^ g.withdrawal_tree.depth) claimed w2 w1
          parent.withdrawal_index shows.index_shown size (count ∙ same_count) index
          (rw index (room.1)) in
      (
        v,
        rw checked (ap some ran_index),
        judged,
        rw (checked, found, computed)
            (λ j. some record {
              slashable = not (sym root j == n.uint256_number (b.header.withdrawal_root));
              reason = w3;
            }),
      )
