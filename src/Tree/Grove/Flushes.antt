-- ===== src/Tree/Grove/Flushes.antt =====
-- The end of the tree of notes in grove.ts: `applyGrovePatch` throws where the padding does not fit.
use zkopru.Base.{
  ℕ, ◌+◌, ◌-◌, ◌^◌, ◌≤◌, ◌<◌, ◌≡◌, refl, none, some, Option, List, arith, length, Eq, lt→leb,
}
use zkopru.Tree.LightRollUp.{Leaf, LightRollUpTree, latest_leaf_index, max_size}
use zkopru.Tree.Grove.{
  Grove, GrovePatch, GroveSnapshot, append_padded, fixed_size_len, apply_grove_patch, dry_patch,
  dry_nullifier_root,
}
use zkopru.Tree.Grove.Appends.{Holds, dry_append-Holds}

append_padded_full :
    {A : Type 0} (z : A) (size : ℕ) (t : LightRollUpTree A) (tracking : List ℕ)
    (leaves : List (Leaf A))
    → max_size t < latest_leaf_index t + fixed_size_len size (length leaves)
    → append_padded z size t tracking leaves ≡ none
unfolding append_padded
append_padded_full z size t tracking leaves full =
    rw (lt→leb (latest_leaf_index t + fixed_size_len size (length leaves)) (max_size t) full) refl

module _ {A B : Type 0} ⦃e : Eq B⦄ (zero_utxo : A) (zero_withdrawal : B) (filled : B)
    (parent_utxo : A → A → A) (parent_withdrawal : B → B → B)
    (height_utxo height_withdrawal : ℕ) where
  -- On a grove whose light trees stand for two Merkle trees, when the notes of a patch fit into
  -- the tree of notes but not with their padding, the withdrawals fit, and the nullifiers can be
  -- spent, `applyGrovePatch` throws, while `dryPatch` returns a snapshot whose index lies behind
  -- the end of the tree of notes.
  pub apply_grove_patch_full :
      (g : Grove A B) (patch : GrovePatch A B) (f : ℕ → A) (w : ℕ → B) (r : Option B)
      (tracked_utxos tracked_withdrawals : List ℕ)
      → Holds parent_utxo zero_utxo height_utxo f g.utxo_tree
      → Holds parent_withdrawal zero_withdrawal height_withdrawal w g.withdrawal_tree
      → latest_leaf_index g.utxo_tree + length patch.utxos ≤ 2 ^ g.utxo_tree.depth
      → 2 ^ g.utxo_tree.depth
        < latest_leaf_index g.utxo_tree
          + fixed_size_len g.config.utxo_sub_tree_size (length patch.utxos)
      → latest_leaf_index g.withdrawal_tree + length patch.withdrawals ≤ 2 ^ g.withdrawal_tree.depth
      → dry_nullifier_root filled patch.nullifiers g.nullifier_tree ≡ some r
      → (apply_grove_patch zero_utxo zero_withdrawal filled tracked_utxos tracked_withdrawals g
            patch
          ≡ none)
        × (s : GroveSnapshot A B) × (dry_patch zero_utxo zero_withdrawal filled g patch ≡ some s)
        × (max_size g.utxo_tree < s.utxo_tree_index)
  unfolding apply_grove_patch dry_patch max_size
  apply_grove_patch_full g patch f w r tracked_utxos tracked_withdrawals holds_u holds_w fits full
        room spent =
      let (du, ran_u, next_u, rep_u) =
        dry_append-Holds parent_utxo zero_utxo height_utxo g.utxo_tree f patch.utxos holds_u fits in
      let (dw, ran_w, next_w, rep_w) =
        dry_append-Holds parent_withdrawal zero_withdrawal height_withdrawal g.withdrawal_tree w
          patch.withdrawals holds_w room in
      let stop =
        append_padded_full zero_utxo g.config.utxo_sub_tree_size g.utxo_tree tracked_utxos
          patch.utxos full in
      let s : GroveSnapshot A B = record {
        utxo_tree_index =
            du.index
            + fixed_size_len g.config.utxo_sub_tree_size (length patch.utxos)
            - length patch.utxos;
        utxo_tree_root = du.root;
        withdrawal_tree_index =
            dw.index
            + fixed_size_len g.config.withdrawal_sub_tree_size (length patch.withdrawals)
            - length patch.withdrawals;
        withdrawal_tree_root = dw.root;
        nullifier_tree_root = r;
      } in
      (rw stop refl, s, rw (ran_u, ran_w, spent) refl, omega (arith, next_u, full))
