-- ===== src/Tree/Grove/Agrees.antt =====
-- `dryPatch` of grove.ts, with which a block is proposed, against `applyGrovePatch`.
use zkopru.Base.{
  ℕ, ◌+◌, ◌-◌, ◌≡◌, refl, sym, ap, ◌∙◌, true, none, some, Option, Option-cases, inl, inr, List, [],
  arith, map, length, ◌>>=◌, Eq,
}
use mathlib.Core.Option.{some-injective, none-ne-some}
use zkopru.Tree.Spec.{node}
use zkopru.Tree.Nodes.{NodeMap, find, upsert, find-upsert}
use zkopru.Tree.LightRollUp.{Leaf, TreeData, LightRollUpTree, latest_leaf_index, dry_append}
use zkopru.Tree.LightRollUp.Represents.{grow}
use zkopru.Tree.Nullifier.{
  NullifierTree, nullify, dry_run_nullify, dry_run, get_root_node, update_leaves, get_sibling_nodes,
}
use zkopru.Tree.Nullifier as Nullifier
use zkopru.Tree.Grove.{
  Grove, GrovePatch, GroveSnapshot, fixed_size_len, apply_grove_patch, dry_patch, mark_as_nullified,
  dry_nullifier_root, append_padded, untracked,
}
use zkopru.Tree.Grove.Padding.{fixed_size_len-covers}
use zkopru.Tree.Grove.Appends.{Holds, HasRoom, hashes_of, append_padded-Holds, dry_append-Holds}

module _ {B : Type 0} where
  abbrev pub root_of : Option (NullifierTree B) → Option B
  root_of none = none
  root_of (some t) = t.root_node

module _ {B : Type 0} ⦃e : Eq B⦄ (filled : B) where
  dry_run_root :
      (t : NullifierTree B) (leaves : List (Nullifier.Leaf B)) (r : B × NodeMap B × NullifierTree B)
      → dry_run t true leaves ≡ some r
      → find 1 r.1 ≡ some r.0
  unfolding dry_run
  dry_run_root t leaves r h =
      let stored = get_sibling_nodes t (map (λ leaf. leaf.index) leaves) in
      elim (Option-cases (get_root_node t)) [
        | inl g ↦ absurd (none-ne-some _ (sym (rw g refl) ∙ h))
        | inr (q, g) ↦
            elim (Option-cases (update_leaves t.hasher t.depth true stored leaves q.0 [])) [
              | inl u ↦ absurd (none-ne-some _ (sym (rw (g, u) refl) ∙ h))
              | inr (v, u) ↦
                  let result : B × NodeMap B × NullifierTree B = (v.0, upsert 1 v.0 v.1, q.1) in
                  let made : dry_run t true leaves ≡ some result = rw (g, u) refl in
                  let same = some-injective _ _ (sym made ∙ h) in
                  let top : find 1 (upsert 1 v.0 v.1) ≡ some v.0 = find-upsert 1 1 v.0 v.1 in
                  ap (λ r. find 1 r.1) (sym same) ∙ (top ∙ ap (λ r. some r.0) same)
            ]
      ]

  nullified :
      (nullifiers : List ℕ) (n : Option (NullifierTree B))
      → (mark_as_nullified filled nullifiers n >>= λ r. some (root_of r.0))
        ≡ dry_nullifier_root filled nullifiers n
  unfolding mark_as_nullified dry_nullifier_root nullify Nullifier.update dry_run_nullify
  nullified nullifiers none = refl
  nullified nullifiers (some t) =
      let leaves : List (Nullifier.Leaf B) =
        map (λ i. record { index = i; val = filled }) nullifiers in
      elim (Option-cases (dry_run t true leaves)) [
        | inl n ↦ rw n refl
        | inr (r, n) ↦ rw (n, dry_run_root t leaves r n) refl
      ]

module _ {C : Type 0} (parent : C → C → C) (z : C) (height : ℕ) where
  -- A light tree after the append, and what the dry run says of it.
  same_tree :
      (size : ℕ) (t : LightRollUpTree C) (f : ℕ → C) (tracking : List ℕ) (leaves : List (Leaf C))
      → Holds parent z height f t
      → HasRoom size t leaves
      → (t' : LightRollUpTree C) × (rows : NodeMap C) × (d : TreeData C) × (append_padded z size t
            tracking leaves
          ≡ some (t', rows))
        × (dry_append t (map untracked leaves) ≡ some d)
        × (latest_leaf_index t' ≡ d.index + fixed_size_len size (length leaves) - length leaves)
        × (t'.data_of.root ≡ d.root)
  same_tree size t f tracking leaves holds room =
      let covers = fixed_size_len-covers size (length leaves) room.0 in
      let (t', rows, made, deep, at_end, h) =
        append_padded-Holds parent z height size t f tracking leaves holds room in
      let (d, ran, next, rep) =
        dry_append-Holds parent z height t f leaves holds (omega (arith, covers, room.1)) in
      (
        t',
        rows,
        d,
        made,
        ran,
        omega (arith, at_end, next),
        h.stands.root
            ∙ (ap (λ k. node parent k 0 (grow f (latest_leaf_index t) (hashes_of leaves))) deep
                ∙ sym rep.root),
      )

module _ {A B : Type 0} where
  -- What `dryPatch` says of a grove.
  abbrev pub snapshot_of : Grove A B → GroveSnapshot A B
  snapshot_of g = record {
    utxo_tree_index = latest_leaf_index g.utxo_tree;
    utxo_tree_root = g.utxo_tree.data_of.root;
    withdrawal_tree_index = latest_leaf_index g.withdrawal_tree;
    withdrawal_tree_root = g.withdrawal_tree.data_of.root;
    nullifier_tree_root = root_of g.nullifier_tree;
  }

module _ {A B : Type 0} ⦃e : Eq B⦄ (zero_utxo : A) (zero_withdrawal : B) (filled : B)
    (parent_utxo : A → A → A) (parent_withdrawal : B → B → B)
    (height_utxo height_withdrawal : ℕ) where
  -- On a grove whose light trees stand for two Merkle trees, and for a patch with room for its
  -- leaves and their padding in subtrees of a size that is not 0, `dryPatch` throws exactly if
  -- `applyGrovePatch` does, and returns the indices and the roots that the three trees then have:
  -- the unpadded dry run says what the padded append leaves.
  pub apply_grove_patch-dry_patch :
      (g : Grove A B) (patch : GrovePatch A B) (f : ℕ → A) (w : ℕ → B)
      (tracked_utxos tracked_withdrawals : List ℕ)
      → Holds parent_utxo zero_utxo height_utxo f g.utxo_tree
      → HasRoom g.config.utxo_sub_tree_size g.utxo_tree patch.utxos
      → Holds parent_withdrawal zero_withdrawal height_withdrawal w g.withdrawal_tree
      → HasRoom g.config.withdrawal_sub_tree_size g.withdrawal_tree patch.withdrawals
      → (apply_grove_patch zero_utxo zero_withdrawal filled tracked_utxos tracked_withdrawals g
            patch
          >>= λ r. some (snapshot_of r.0))
        ≡ dry_patch zero_utxo zero_withdrawal filled g patch
  unfolding apply_grove_patch dry_patch
  apply_grove_patch-dry_patch g patch f w tracked_utxos tracked_withdrawals holds_u room_u holds_w
        room_w =
      let (u', rows_u, du, made_u, ran_u, index_u, root_u) =
        same_tree parent_utxo zero_utxo height_utxo g.config.utxo_sub_tree_size g.utxo_tree f
          tracked_utxos patch.utxos holds_u room_u in
      let (w', rows_w, dw, made_w, ran_w, index_w, root_w) =
        same_tree parent_withdrawal zero_withdrawal height_withdrawal
          g.config.withdrawal_sub_tree_size g.withdrawal_tree w tracked_withdrawals
          patch.withdrawals holds_w room_w in
      let n = nullified filled patch.nullifiers g.nullifier_tree in
      rw (made_u, made_w, ran_u, ran_w, ← n)
        (elim (Option-cases (mark_as_nullified filled patch.nullifiers g.nullifier_tree)) [
          | inl missing ↦ rw missing refl
          | inr (r, made) ↦ rw made (λ i. some record {
            utxo_tree_index = index_u i;
            utxo_tree_root = root_u i;
            withdrawal_tree_index = index_w i;
            withdrawal_tree_root = root_w i;
            nullifier_tree_root = root_of r.0;
          })
        ])

  -- What the dry run of a patch that it accepts says of the two light trees.
  pub dry_patch_lem :
      (g : Grove A B) (patch : GrovePatch A B) (f : ℕ → A) (w : ℕ → B) (snap : GroveSnapshot A B)
      → Holds parent_utxo zero_utxo height_utxo f g.utxo_tree
      → HasRoom g.config.utxo_sub_tree_size g.utxo_tree patch.utxos
      → Holds parent_withdrawal zero_withdrawal height_withdrawal w g.withdrawal_tree
      → HasRoom g.config.withdrawal_sub_tree_size g.withdrawal_tree patch.withdrawals
      → dry_patch zero_utxo zero_withdrawal filled g patch ≡ some snap
      → (snap.utxo_tree_root
          ≡ node parent_utxo g.utxo_tree.depth 0
              (grow f (latest_leaf_index g.utxo_tree) (hashes_of patch.utxos)))
        × (snap.utxo_tree_index
            ≡ latest_leaf_index g.utxo_tree
              + fixed_size_len g.config.utxo_sub_tree_size (length patch.utxos))
        × (snap.withdrawal_tree_root
            ≡ node parent_withdrawal g.withdrawal_tree.depth 0
                (grow w (latest_leaf_index g.withdrawal_tree) (hashes_of patch.withdrawals)))
        × (snap.withdrawal_tree_index
            ≡ latest_leaf_index g.withdrawal_tree
              + fixed_size_len g.config.withdrawal_sub_tree_size (length patch.withdrawals))
  unfolding dry_patch
  dry_patch_lem g patch f w snap holds_u room_u holds_w room_w ran =
      let covers_u =
        fixed_size_len-covers g.config.utxo_sub_tree_size (length patch.utxos) room_u.0 in
      let covers_w =
        fixed_size_len-covers g.config.withdrawal_sub_tree_size (length patch.withdrawals)
          room_w.0 in
      let (du, ran_u, next_u, rep_u) =
        dry_append-Holds parent_utxo zero_utxo height_utxo g.utxo_tree f patch.utxos holds_u
          (omega (arith, covers_u, room_u.1)) in
      let (dw, ran_w, next_w, rep_w) =
        dry_append-Holds parent_withdrawal zero_withdrawal height_withdrawal g.withdrawal_tree w
          patch.withdrawals holds_w (omega (arith, covers_w, room_w.1)) in
      elim (Option-cases (dry_nullifier_root filled patch.nullifiers g.nullifier_tree)) [
        | inl missing ↦ absurd (none-ne-some _ (rw (ran_u, ran_w, missing) at ran))
        | inr (r, made) ↦
            let same = some-injective _ _ (rw (ran_u, ran_w, made) at ran) in
            (
              ap (λ q. q.utxo_tree_root) (sym same) ∙ rep_u.root,
              ap (λ q. q.utxo_tree_index) (sym same) ∙ omega (arith, next_u, covers_u),
              ap (λ q. q.withdrawal_tree_root) (sym same) ∙ rep_w.root,
              ap (λ q. q.withdrawal_tree_index) (sym same) ∙ omega (arith, next_w, covers_w),
            )
      ]
