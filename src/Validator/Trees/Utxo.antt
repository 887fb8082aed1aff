-- ===== src/Validator/Trees/Utxo.antt =====
-- The validators of the utxo tree against `dryPatch` of grove.ts, by which a block is proposed.
use zkopru.Base.{
  ℕ, ◌+◌, ◌^◌, ◌≤◌, ◌≡◌, sym, ap, ◌∙◌, Bool, true, not, some, Eq, nat_eq, List, ◌++◌, ◌==◌, length,
  map, filter, length-map, length-append,
}
use zkopru.Transaction.Fp.{from_number}
use zkopru.Block.Types.{SolTypes, Header}
use zkopru.Block.Whole.{Block}
use zkopru.Block.Migrations.{SolNumbers, outflows_of}
use zkopru.Tree.Hasher.{hasher_of}
use zkopru.Tree.Spec.{node, IsInjective}
use zkopru.Tree.LightRollUp.{latest_leaf_index}
use zkopru.Tree.LightRollUp.Represents.{grow}
use zkopru.Tree.Grove.{Grove, GrovePatch, GroveSnapshot, fixed_size_len, dry_patch}
use zkopru.Tree.Grove.Appends.{Holds, HasRoom}
use zkopru.Tree.Grove.Agrees.{dry_patch_lem}
use zkopru.Validator.Migration.{Validation, u1, u2, u3}
use zkopru.Validator.Trees.{
  is_utxo, utxo_notes, get_grove_patch, deposits_and_parent, fp_from, validate_utxo_index,
  validate_utxo_root,
}
use zkopru.Validator.Trees.Honest.{
  IsProved, Shows, note_of, judged_index, patch_leaves, proved_root,
}

module _ (s : SolTypes) (n : SolNumbers s) ⦃e : Eq s.Bytes32⦄ (sha3 : List ℕ → List ℕ)
    (poseidon keccak : ℕ → ℕ → ℕ) (filled : ℕ) (tracked : ℕ → Bool) (g : Grove ℕ ℕ) (f w : ℕ → ℕ)
    (k m k' m' : ℕ) (b : Block s) (parent : Header s) (notes : List ℕ) (header : ℕ)
    (patch : GrovePatch ℕ ℕ) (snap : GroveSnapshot ℕ ℕ) (siblings : List s.Uint256) where
  -- Under an injective hash of the tree of notes, when this tree stands for a Merkle tree, ends
  -- with a whole sub tree below its end, and the siblings, one for each level above the sub trees,
  -- pass `emptySubTreeProof`, when the tree of withdrawals stands for a Merkle tree, both have
  -- room for the leaves of the patch and their padding, the sub trees have `2 ^ k` leaves, the
  -- parent header shows root and index of the tree of notes, also as field elements, the
  -- validators' assertions on the deposits and the parent hold, the notes of the deposits are
  -- those of `getGrovePatch`, and `dryPatch` of its patch for the block returns a snapshot, then
  -- `validateUTXOIndex` and `validateUTXORoot` do not throw, and find the block slashable exactly
  -- if its header has another index, or another root, than the snapshot.
  pub validate_utxo-dry_patch :
      (merge : s.Bytes32 → s.Uint256 → s.Bytes32) (zero_bytes : s.Bytes32)
      (deposits : List s.Uint256)
      → IsInjective poseidon
      → IsProved poseidon k m f g.utxo_tree (map (fp_from s n) siblings)
      → g.config.utxo_sub_tree_size ≡ 2 ^ k
      → HasRoom g.config.utxo_sub_tree_size g.utxo_tree patch.utxos
      → Holds keccak 0 (k' + m') w g.withdrawal_tree
      → HasRoom g.config.withdrawal_sub_tree_size g.withdrawal_tree patch.withdrawals
      → Shows
          (n.uint256_number parent.utxo_root)
          (n.uint256_number parent.utxo_index)
          (fp_from s n parent.utxo_root)
          (fp_from s n parent.utxo_index)
          g.utxo_tree
      → deposits_and_parent s n sha3 merge zero_bytes b parent deposits ≡ some true
      → map from_number notes ≡ map (fp_from s n) deposits
      → get_grove_patch sha3 notes tracked header b.body.txs ≡ some patch
      → dry_patch 0 0 filled g patch ≡ some snap
      → (v : Validation) × (validate_utxo_index s n sha3 merge zero_bytes
            (2 ^ g.utxo_tree.depth)
            (2 ^ k)
            b
            parent
            deposits
          ≡ some v)
        × (v.slashable ≡ not (n.uint256_number (b.header.utxo_index) == snap.utxo_tree_index))
        × (validate_utxo_root s n sha3 merge zero_bytes
              (hasher_of poseidon 0 (k + m))
              k
              b
              parent
              deposits
              siblings
            ≡ some record {
              slashable = not (snap.utxo_tree_root == n.uint256_number (b.header.utxo_root));
              reason = u3;
            })
  unfolding validate_utxo_index validate_utxo_root utxo_notes
  validate_utxo-dry_patch merge zero_bytes deposits inj proved size room holds_w room_w shows
        checked same_notes made ran =
      let fp = fp_from s n in
      let hs = map fp deposits ++ utxo_notes b.body.txs in
      let leaves =
        (patch_leaves sha3 tracked notes header b.body.txs patch made).0
        ∙ ap (λ xs. xs ++ utxo_notes b.body.txs) same_notes in
      let count : length patch.utxos ≡ length hs =
        sym (length-map (λ leaf. leaf.hash) patch.utxos) ∙ ap length leaves in
      let (root, index, root_w, index_w) =
        dry_patch_lem 0 0 filled poseidon keccak (k + m) (k' + m') g patch f w snap proved.holds
          room holds_w room_w ran in
      let i = latest_leaf_index g.utxo_tree in
      let node_root : node poseidon g.utxo_tree.depth 0 (grow f i hs) ≡ snap.utxo_tree_root =
        ap (λ xs. node poseidon g.utxo_tree.depth 0 (grow f i xs)) (sym leaves) ∙ sym root in
      let fits : i + fixed_size_len (2 ^ k) (length hs) ≤ 2 ^ g.utxo_tree.depth =
        rw (← count, ← size) (room.1) in
      let computed =
        proved_root poseidon k m f g.utxo_tree (map fp siblings) hs _ _ _ _ inj proved shows fits in
      let claimed = n.uint256_number (b.header.utxo_index) in
      let size_of = length deposits + length (filter is_utxo (outflows_of b.body.txs)) in
      let same_count : length hs ≡ size_of =
        length-append (map fp deposits) (utxo_notes b.body.txs) ∙ (λ j.
          length-map fp deposits j
          + length-map note_of (filter is_utxo (outflows_of b.body.txs)) j) in
      let (v, ran_index, judged) =
        judged_index s n k g.config.utxo_sub_tree_size i size_of (length patch.utxos)
          snap.utxo_tree_index (2 ^ g.utxo_tree.depth) claimed u2 u1 parent.utxo_index
          shows.index_shown size (count ∙ same_count) index (rw index (room.1)) in
      (
        v,
        rw checked (ap some ran_index),
        judged,
        rw (checked, computed)
            (λ j. some record {
              slashable = not (node_root j == n.uint256_number (b.header.utxo_root));
              reason = u3;
            }),
      )
