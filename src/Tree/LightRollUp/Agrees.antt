-- ===== src/Tree/LightRollUp/Agrees.antt =====
-- The two appends of light-rollup-tree.ts compute the same data: what `_append` stores on the way
-- does not change the root, the index or the siblings.
use zkopru.Base.{
  ℕ, suc, ◌+◌, ◌/◌, ◌^◌, ◌≤◌, ◌<◌, ◌≡◌, refl, ap, inl, inr, Option, none, some, List, [], ◌∷◌,
  arith, length, tail, map, Option-cases,
}
use zkopru.Tree.Nodes.{NodeMap}
use zkopru.Tree.NodeIndex.{node_index}
use zkopru.Tree.LightRollUp.{
  Leaf, TreeConfig, TreeData, LightRollUpTree, siblings, latest_leaf_index, climb_level, climb,
  dry_append_item, dry_append_items, dry_append,
}
use zkopru.Tree.LightRollUp.Append.{
  Appending, tracked, climb_storing, append_leaf, append_leaves, append,
}
use zkopru.Tree.LightRollUp.Stores.{store_level-within}

module _ {A : Type 0} where
  abbrev drop_cached : Option (A × List A × NodeMap A) → Option (A × List A)
  drop_cached none = none
  drop_cached (some (root, latest, cached)) = some (root, latest)

  climb_storing-climb :
      (config : TreeConfig A) (depth : ℕ) (tracking : List ℕ) (index level : ℕ)
      (pre latest : List A) (node : A) (cached : NodeMap A)
      → index < 2 ^ depth
      → drop_cached (climb_storing config depth tracking index level pre latest node cached)
        ≡ climb config.hasher (node_index depth index) level pre latest node
  unfolding climb climb_storing
  climb_storing-climb config depth tracking index level pre [] node cached small = refl
  climb_storing-climb config depth tracking index level pre (s ∷ ss) node cached small =
      let path = node_index depth index / 2 ^ level in
      let (stored, kept) =
        store_level-within config depth tracking index level s node cached small in
      elim (Option-cases (climb_level config.hasher path pre s node)) [
        | inl e ↦ rw (kept, e) refl
        | inr (r, e) ↦ ground (
          arith,
          kept,
          e,
          climb_storing-climb config depth tracking index (suc level) (tail pre) ss r.0 stored
              small,
        )
      ]

  -- What the loop carries, as the data of a tree.
  abbrev data_at : ℕ → Appending A → TreeData A
  data_at index s = record { root = s.root; index = index; siblings = s.latest }

  abbrev map_data : ℕ → Option (Appending A) → Option (TreeData A)
  map_data index none = none
  map_data index (some s) = some (data_at index s)

  append_leaf-dry_append_item :
      (config : TreeConfig A) (depth index : ℕ) (leaf : Leaf A) (s : Appending A)
      → index < 2 ^ depth
      → map_data (index + 1) (append_leaf config depth index leaf s)
        ≡ dry_append_item config.hasher depth leaf.hash (data_at index s)
  unfolding append_leaf dry_append_item
  append_leaf-dry_append_item config depth index leaf s small =
      let tr = tracked leaf index s.tracking in
      ground (
        arith,
        climb_storing-climb config depth tr index 0 config.hasher.pre_hash s.latest leaf.hash
            s.cached small,
      )

  append_leaves-dry_append_items :
      (config : TreeConfig A) (depth index : ℕ) (leaves : List (Leaf A)) (s : Appending A) (end : ℕ)
      → end ≡ index + length leaves
      → end ≤ 2 ^ depth
      → map_data end (append_leaves config depth index leaves s)
        ≡ dry_append_items config.hasher depth (map (λ leaf. leaf.hash) leaves) (data_at index s)
  unfolding append_leaves dry_append_items
  append_leaves-dry_append_items config depth index [] s end e room =
      let e' : end ≡ index = omega arith in ap (λ i. some (data_at i s)) e'
  append_leaves-dry_append_items config depth index (leaf ∷ leaves) s end e room =
      let one = append_leaf-dry_append_item config depth index leaf s (omega arith) in
      elim (Option-cases (append_leaf config depth index leaf s)) [
        | inl n ↦ ground (arith, n, one)
        | inr (s', n) ↦
            let rest =
              append_leaves-dry_append_items config depth (index + 1) leaves s' end (omega arith)
                room in
            let one' = rw n at one in rw (n, ← one') rest
      ]

  abbrev pub new_data : Option (LightRollUpTree A × NodeMap A) → Option (TreeData A)
  new_data none = none
  new_data (some (t, cached)) = some t.data_of

  -- When there is room for the leaves in the tree, whatever leaves are tracked and whatever nodes
  -- are stored, `_append` throws exactly if `dryAppend` does, and leaves in the tree the data that
  -- `dryAppend` returns.
  pub append-dry_append :
      (t : LightRollUpTree A) (tracking : List ℕ) (leaves : List (Leaf A))
      → latest_leaf_index t + length leaves ≤ 2 ^ t.depth
      → new_data (append t tracking leaves) ≡ dry_append t leaves
  unfolding append dry_append
  append-dry_append t tracking leaves room =
      let s : Appending A = record {
        root = t.data_of.root;
        latest = siblings t;
        tracking = tracking;
        cached = [];
      } in
      let e =
        append_leaves-dry_append_items t.config t.depth (latest_leaf_index t) leaves s
          (latest_leaf_index t + length leaves) refl room in
      elim (Option-cases (append_leaves t.config t.depth (latest_leaf_index t) leaves s)) [
        | inl n ↦ rw (n) (rw n at e)
        | inr (s', n) ↦ rw (n) (rw n at e)
      ]
