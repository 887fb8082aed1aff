-- ===== src/Tree/LightRollUp/Append.antt =====
-- `_append` of packages/tree/src/light-rollup-tree.ts: the append that stores the nodes which
-- Merkle proofs need, its commit and its roll back.
use Prim.Native.Nat.{bit_xor}
use zkopru.Base.{
  ℕ, suc, ◌+◌, ◌-◌, ◌/◌, ◌%◌, ◌^◌, Bool, true, false, ◌&&◌, Option, none, some, List, [], ◌∷◌, ◌++◌,
  ◌==◌, ltb, if◌then◌else◌, ◌>>=◌, length, tail,
}
use zkopru.Tree.NodeIndex.{node_index, bit_length}
use zkopru.Tree.Nodes.{NodeMap, upsert, upsert_all}
use zkopru.Tree.LightRollUp.{
  Leaf, TreeConfig, LightRollUpTree, latest_leaf_index, siblings, climb_level,
}

-- `shouldTrack`: the node is a sibling on the path of a tracked leaf. The shift throws for a negative
-- number, that is for a node index with more bits than that of the leaf.
unfoldable pub should_track : ℕ → List ℕ → ℕ → Option Bool
unfolding bit_length
should_track depth [] k = some false
should_track depth (leaf ∷ leaves) k =
    let rest = should_track depth leaves k in
    let leaf_index = node_index depth leaf in
    let path_index = leaf_index / 2 ^ (bit_length leaf_index - bit_length k) in
    if ltb (bit_length leaf_index) (bit_length k)
    then none
    else if bit_xor path_index k == 1
    then some true
    else rest

-- `this.config.fullSync || this.shouldTrack(trackingLeaves, nodeIndex)`
unfoldable pub stores : Bool → ℕ → List ℕ → ℕ → Option Bool
unfolding should_track
stores full_sync depth tracking k = if full_sync then some true else should_track depth tracking k

-- What the loop over the leaves in `_append` carries.
pub record Appending (A : Type 0) : Type 0 where
  pub root : A
  pub latest : List A
  pub tracking : List ℕ
  pub cached : NodeMap A

module _ {A : Type 0} where
  -- The nodes that one round of the loop in `_append` stores.
  unfoldable pub store_level :
      TreeConfig A → ℕ → List ℕ → ℕ → ℕ → A → A → NodeMap A → Option (NodeMap A)
  unfolding stores
  store_level config depth tracking index level sibling node cached =
      let path_index = node_index depth index / 2 ^ level in
      let prev_sib_index = bit_xor 1 (node_index depth (index - 1) / 2 ^ level) in
      stores config.full_sync depth tracking path_index >>= λ here.
      (if ltb 0 index && prev_sib_index % 2 == 0
        then stores config.full_sync depth tracking prev_sib_index
        else some false)
      >>= λ before.
          let cached_node = if here then upsert path_index node cached else cached in
          some (if before then upsert prev_sib_index sibling cached_node else cached_node)

  -- The loop over the levels in `_append`.
  unfoldable pub climb_storing :
      TreeConfig A
      → ℕ
      → List ℕ
      → ℕ
      → ℕ
      → List A
      → List A
      → A
      → NodeMap A
      → Option (A × List A × NodeMap A)
  unfolding climb_level store_level
  climb_storing config depth tracking index level pre [] node cached = some (node, [], cached)
  climb_storing config depth tracking index level pre (sibling ∷ latest) node cached =
      let path_index = node_index depth index / 2 ^ level in
      store_level config depth tracking index level sibling node cached >>= λ stored.
      climb_level config.hasher path_index pre sibling node >>= λ r.
      climb_storing config depth tracking index (suc level) (tail pre) latest r.0 stored
      >>= λ above. some (above.0, r.1 ∷ above.1, above.2)

  -- `trackingLeaves.push(index)`
  abbrev pub tracked : Leaf A → ℕ → List ℕ → List ℕ
  tracked leaf index tracking = if leaf.should_track then tracking ++ index ∷ [] else tracking

  unfoldable pub append_leaf : TreeConfig A → ℕ → ℕ → Leaf A → Appending A → Option (Appending A)
  unfolding climb_storing
  append_leaf config depth index leaf s =
      let tracking = tracked leaf index s.tracking in
      climb_storing config depth tracking index 0 config.hasher.pre_hash s.latest leaf.hash s.cached
      >>= λ r. some (record { root = r.0; latest = r.1; tracking = tracking; cached = r.2 })

  -- `index` is `start + i`.
  unfoldable pub append_leaves :
      TreeConfig A → ℕ → ℕ → List (Leaf A) → Appending A → Option (Appending A)
  append_leaves config depth index [] s = some s
  append_leaves config depth index (leaf ∷ leaves) s =
      append_leaf config depth index leaf s >>= append_leaves config depth (index + 1) leaves

  -- `_append`: `tracking` is what `indexesOfTrackingLeaves` found. The new object, and the row
  -- updates that wait in the transaction.
  unfoldable pub append :
      LightRollUpTree A → List ℕ → List (Leaf A) → Option (LightRollUpTree A × NodeMap A)
  unfolding append_leaves
  append t tracking leaves =
      append_leaves t.config t.depth (latest_leaf_index t) leaves
        (record { root = t.data_of.root; latest = siblings t; tracking = tracking; cached = [] })
      >>= λ s.
          let end = latest_leaf_index t + length leaves in
          some (
            record t {
              data_of = record { root = s.root; index = end; siblings = s.latest };
              metadata = record t.metadata { end = end };
            },
            s.cached,
          )

  -- The transaction is committed: the rows are in the database.
  unfoldable pub commit : LightRollUpTree A × NodeMap A → LightRollUpTree A
  commit (t, cached) = record t { rows = upsert_all cached t.rows }

  -- The `onError` handler of `_append`, on the object `t` as it was before.
  unfoldable pub roll_back : LightRollUpTree A → LightRollUpTree A → LightRollUpTree A
  roll_back before t = record t { data_of = before.data_of; metadata = before.metadata }
