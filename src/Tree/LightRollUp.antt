-- ===== src/Tree/LightRollUp.antt =====
-- packages/tree/src/light-rollup-tree.ts: the append-only tree that keeps one sibling for each
-- level. The values are of any type `A` (the source's `Fp | BN`), indices are numbers without
-- bound; a method that throws returns `none`.
pub mod Append
pub mod Stores
pub mod Agrees
pub mod Bootstrap
pub mod Climb
pub mod Represents
pub mod Sound
use zkopru.Base.{
  ℕ, suc, ◌+◌, ◌/◌, ◌%◌, ◌^◌, Bool, not, ◌&&◌, Option, none, some, Eq, leb, length, List, [], ◌∷◌,
  ◌==◌, if◌then◌else◌, ◌>>=◌, take, head?, tail, map,
}
use zkopru.Tree.Hasher.{Hasher}
use zkopru.Tree.Nodes.{NodeMap}
use zkopru.Tree.NodeIndex.{node_index}
use zkopru.Tree.MerkleProof.{starting_leaf_proof}
use mathlib.Core.Option.{get_or}

pub record Leaf (A : Type 0) : Type 0 where
  pub hash : A
  pub should_track : Bool

pub record TreeMetadata : Type 0 where
  pub start : ℕ
  pub end : ℕ

pub record TreeData (A : Type 0) : Type 0 where
  pub root : A
  pub index : ℕ
  pub siblings : List A

pub record TreeConfig (A : Type 0) : Type 0 where
  pub hasher : Hasher A
  pub force_update : Bool
  pub full_sync : Bool

-- The object: its data, and `rows`, the rows of its tree nodes in the database.
pub record LightRollUpTree (A : Type 0) : Type 0 where
  pub config : TreeConfig A
  pub metadata : TreeMetadata
  pub data_of : TreeData A
  pub depth : ℕ
  pub rows : NodeMap A

module _ {A : Type 0} where
  unfoldable pub max_size : LightRollUpTree A → ℕ
  max_size t = 2 ^ t.depth

  unfoldable pub latest_leaf_index : LightRollUpTree A → ℕ
  latest_leaf_index t = t.data_of.index

  unfoldable pub siblings : LightRollUpTree A → List A
  siblings t = take t.depth t.data_of.siblings

  -- One round of the loop over the levels: the parent, and the sibling to keep for the level.
  -- Reading a prehashed value that is not there throws.
  unfoldable pub climb_level : Hasher A → ℕ → List A → A → A → Option (A × A)
  climb_level h path_index pre sibling node =
      if path_index % 2 == 0
      then (head? pre >>= λ empty. some (h.parent_of node empty, node))
      else some (h.parent_of sibling node, sibling)

  -- The loop over the levels in `dryAppend`: the new root, and the siblings from `level` on.
  unfoldable pub climb : Hasher A → ℕ → ℕ → List A → List A → A → Option (A × List A)
  unfolding climb_level
  climb h leaf_index level pre [] node = some (node, [])
  climb h leaf_index level pre (sibling ∷ latest) node =
      climb_level h (leaf_index / 2 ^ level) pre sibling node >>= λ r.
      climb h leaf_index (suc level) (tail pre) latest r.0 >>= λ above.
      some (above.0, r.1 ∷ above.1)

  -- One item of `dryAppend`.
  unfoldable pub dry_append_item : Hasher A → ℕ → A → TreeData A → Option (TreeData A)
  unfolding climb
  dry_append_item h depth item d =
      climb h (node_index depth d.index) 0 h.pre_hash d.siblings item >>= λ r.
      some (record { root = r.0; index = d.index + 1; siblings = r.1 })

  unfoldable pub dry_append_items : Hasher A → ℕ → List A → TreeData A → Option (TreeData A)
  dry_append_items h depth [] d = some d
  dry_append_items h depth (item ∷ items) d =
      dry_append_item h depth item d >>= dry_append_items h depth items

  unfoldable pub dry_append : LightRollUpTree A → List (Leaf A) → Option (TreeData A)
  dry_append t items =
      dry_append_items t.config.hasher t.depth (map (λ leaf. leaf.hash) items)
        (record { root = t.data_of.root; index = latest_leaf_index t; siblings = siblings t })

  -- `getStartingLeafProof`: the loop over the levels. A missing value throws when it is compared.
  unfoldable pub starting_siblings : ℕ → List A → List A → Option (List A)
  starting_siblings path pre [] = some []
  starting_siblings path pre (sibling ∷ rest) =
      (if path % 2 == 0 then head? pre else some sibling) >>= λ s.
      starting_siblings (path / 2) (tail pre) rest >>= λ ss. some (s ∷ ss)

  unfoldable pub get_starting_leaf_proof : LightRollUpTree A → Option (TreeData A)
  unfolding starting_siblings
  get_starting_leaf_proof t =
      starting_siblings (latest_leaf_index t) t.config.hasher.pre_hash t.data_of.siblings >>= λ ss.
      some (record { root = t.data_of.root; index = latest_leaf_index t; siblings = ss })

  -- `initTreeFromDatabase`, where `existing` is the index of the row of the tree, if there is one.
  -- The new object has the tree nodes that the database holds for the tree.
  unfoldable pub init_tree_from_database :
      ⦃e : Eq A⦄ → TreeConfig A → NodeMap A → Option ℕ → TreeData A → Option (LightRollUpTree A)
  init_tree_from_database config rows existing d =
      starting_leaf_proof config.hasher d.root d.index d.siblings >>= λ valid.
      if not valid
      then none
      else if not config.force_update && leb d.index (get_or existing 0)
      then none
      else some (record {
        config = config;
        metadata = record { start = d.index; end = d.index };
        data_of = d;
        depth = length d.siblings;
        rows = rows;
      })
