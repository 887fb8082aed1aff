-- ===== src/Tree/Nullifier.antt =====
-- packages/tree/src/nullifier-tree.ts: the sparse Merkle tree of spent notes. `rows` are the rows of
-- the tree in the database; a method that throws returns `none`.
pub mod Path
pub mod Spend
pub mod Nullify
pub mod Proofs
use Prim.Native.Nat.{bit_xor}
use mathlib.Core.Option.{get_or}
use zkopru.Base.{
  ℕ, zero, suc, ◌+◌, ◌-◌, ◌/◌, ◌%◌, ◌^◌, Bool, true, false, ◌&&◌, Option, none, some, List, [], ◌∷◌,
  ◌++◌, ◌==◌, leb, if◌then◌else◌, Eq, ◌>>=◌, get_elem?, or_else, map, length,
}
use zkopru.Tree.Hasher.{Hasher, genesis_root}
use zkopru.Tree.NodeIndex.{node_index, bit_length}
use zkopru.Tree.Nodes.{NodeMap, find, upsert, upsert_all, find_many}

-- `filled` and `empty` are the values of `SMTLeaf`, as leaves of the tree.
pub record NullifierTree (A : Type 0) : Type 0 where
  pub hasher : Hasher A
  pub depth : ℕ
  pub root_node : Option A
  pub rows : NodeMap A

pub record Leaf (A : Type 0) : Type 0 where
  pub index : ℕ
  pub val : A

-- The sibling indices on the path of one leaf, over `levels` levels from `level` on.
unfoldable pub sibling_indices : ℕ → ℕ → ℕ → List ℕ
sibling_indices leaf_path level zero = []
sibling_indices leaf_path level (suc levels) =
    bit_xor 1 (leaf_path / 2 ^ level) ∷ sibling_indices leaf_path (suc level) levels

-- `getSiblingNodes`
unfoldable pub node_indices : ℕ → List ℕ → List ℕ
unfolding sibling_indices
node_indices depth [] = []
node_indices depth (leaf ∷ leaves) =
    sibling_indices (node_index depth leaf) 0 depth ++ node_indices depth leaves

module _ {A : Type 0} where
  -- The constructor.
  unfoldable pub new_nullifier_tree : Hasher A → ℕ → NodeMap A → Option (NullifierTree A)
  new_nullifier_tree h depth rows =
      if leb (length h.pre_hash) depth
      then none
      else some (record { hasher = h; depth = depth; root_node = none; rows = rows })

  -- `getRootNode`: the cached root, the row of the root, or the root of the empty tree; and the
  -- object, which has the root cached.
  unfoldable pub get_root_node : NullifierTree A → Option (A × NullifierTree A)
  get_root_node t = elim t.root_node [
    | some r ↦ some (r, t)
    | none ↦ elim (find 1 t.rows) [
      | some r ↦ some (r, record t { root_node = some r })
      | none ↦ genesis_root t.hasher >>= λ r. some (r, record t { root_node = some r })
    ]
  ]

  unfoldable pub get_sibling_nodes : NullifierTree A → List ℕ → NodeMap A
  unfolding node_indices
  get_sibling_nodes t leaves = find_many (node_indices t.depth leaves) t.rows

  -- The closure `getSibling` of `dryRun`. Reading a prehashed value that is not there throws in
  -- `parentOf`.
  unfoldable pub get_sibling : Hasher A → ℕ → NodeMap A → NodeMap A → ℕ → Option A
  get_sibling h depth updated stored path =
      let sib_index = bit_xor 1 path in
      or_else (find sib_index updated)
        (or_else (find sib_index stored) (get_elem? h.pre_hash (depth - (bit_length path - 1))))

  -- The loop over the levels, `levels` of them left: the root, and the updated nodes.
  unfoldable pub update_path :
      Hasher A → ℕ → NodeMap A → ℕ → ℕ → ℕ → A → NodeMap A → Option (A × NodeMap A)
  update_path h depth stored leaf_index level zero node updated = some (node, updated)
  update_path h depth stored leaf_index level (suc levels) node updated =
      let path_index = leaf_index / 2 ^ level in
      let updated' = upsert path_index node updated in
      get_sibling h depth updated' stored path_index >>= λ sibling.
      update_path h depth stored leaf_index (suc level) levels
        (if path_index % 2 == 0 then h.parent_of node sibling else h.parent_of sibling node)
        updated'

  module _ ⦃e : Eq A⦄ where
    -- The loop over the leaves.
    unfoldable pub update_leaves :
        Hasher A → ℕ → Bool → NodeMap A → List (Leaf A) → A → NodeMap A → Option (A × NodeMap A)
    unfolding update_path
    update_leaves h depth strict stored [] root updated = some (root, updated)
    update_leaves h depth strict stored (leaf ∷ leaves) root updated =
        let leaf_index = node_index depth leaf.index in
        if leb leaf_index leaf.index
        then none
        else (update_path h depth stored leaf_index 0 depth leaf.val updated >>= λ r.
            if strict && e.beq root r.0
            then none
            else update_leaves h depth strict stored leaves r.0 r.1)

    -- `dryRun`: the new root, and the updated nodes with the root under the index 1.
    unfoldable pub dry_run :
        NullifierTree A → Bool → List (Leaf A) → Option (A × NodeMap A × NullifierTree A)
    unfolding get_root_node get_sibling_nodes update_leaves
    dry_run t strict leaves =
        let stored = get_sibling_nodes t (map (λ leaf. leaf.index) leaves) in
        get_root_node t >>= λ r. update_leaves t.hasher t.depth strict stored leaves r.0 [] >>= λ u.
        some (u.0, upsert 1 u.0 u.1, r.1)

    -- `update`: the new object, and the row updates that wait in the transaction.
    unfoldable pub update :
        NullifierTree A → Bool → List (Leaf A) → Option (NullifierTree A × NodeMap A)
    unfolding dry_run
    update t strict leaves =
        dry_run t strict leaves >>= λ r. some (record r.2 { root_node = find 1 r.1 }, r.1)

    -- `nullify`, `recover` and `dryRunNullify`, where `filled` and `empty` are the leaf values.
    unfoldable pub nullify : A → NullifierTree A → List ℕ → Option (NullifierTree A × NodeMap A)
    unfolding update
    nullify filled t leaves = update t true (map (λ i. record { index = i; val = filled }) leaves)

    unfoldable pub recover : A → NullifierTree A → List ℕ → Option (NullifierTree A × NodeMap A)
    unfolding update
    recover empty t leaves = update t true (map (λ i. record { index = i; val = empty }) leaves)

    unfoldable pub dry_run_nullify : A → NullifierTree A → List ℕ → Option A
    unfolding dry_run
    dry_run_nullify filled t leaves =
        dry_run t true (map (λ i. record { index = i; val = filled }) leaves) >>= λ r. some r.0

  unfoldable pub commit : NullifierTree A × NodeMap A → NullifierTree A
  commit (t, updated) = record t { rows = upsert_all updated t.rows }
