-- ===== src/Tree/SubTreeSol.antt =====
-- The sub tree library of packages/tree/src/utils/merkle-tree-sol.ts: the root of a sub tree, and the
-- append of leaves in whole sub trees, the way the contract does it. An assertion that fails returns
-- `none`; a value of the source that may be undefined is an `Option`.
pub mod Floors
pub mod Short
pub mod Climbs
pub mod Groups
pub mod Sound
pub mod Agrees
mod Tests
use zkopru.Base.{
  ℕ, zero, suc, ◌+◌, ◌-◌, ◌*◌, ◌/◌, ◌%◌, ◌^◌, Bool, true, false, not, Option, none, some, Eq, List,
  [], ◌∷◌, ◌++◌, ◌==◌, leb, if◌then◌else◌, ◌>>=◌, length, head?, tail, get_elem?, take, drop,
  replicate,
}
use zkopru.Tree.Hasher.{Hasher}
use zkopru.Tree.LightRollUp.{TreeData}
use zkopru.Tree.SolRoot.{sol_merkle_root}

-- The array `nodes`, of values that may be undefined.
abbrev pub NodeArray : Type 0 → Type 0
NodeArray A = ℕ → Option A

abbrev pub store : {A : Type 0} → NodeArray A → ℕ → Option A → NodeArray A
store nodes i v j = if j == i then v else nodes j

module _ {A : Type 0} (h : Hasher A) (leaves : List A) (tree_size : ℕ) where
  -- What one round of the inner loop stores.
  unfoldable pub node_value : ℕ → ℕ → NodeArray A → ℕ → Option (Option A)
  node_value level empty_node nodes node_index =
      if leb node_index empty_node
      then (if level == 0
          then some (get_elem? leaves (node_index - tree_size))
          else (nodes (node_index * 2) >>= λ left.
              nodes (node_index * 2 + 1) >>= λ right. some (some (h.parent_of left right))))
      else some (get_elem? h.pre_hash level)

  -- The inner loop over the floor that starts at `left_most`, from the right to the left, with `n`
  -- nodes to go.
  unfoldable pub fill_floor : ℕ → ℕ → ℕ → ℕ → NodeArray A → Option (NodeArray A)
  unfolding node_value
  fill_floor level empty_node left_most zero nodes = some nodes
  fill_floor level empty_node left_most (suc n) nodes =
      node_value level empty_node nodes (left_most + n) >>= λ v.
      fill_floor level empty_node left_most n (store nodes (left_most + n) v)

  -- The outer loop, with `n` floors to go.
  unfoldable pub fill_floors : ℕ → ℕ → ℕ → NodeArray A → Option (NodeArray A)
  unfolding fill_floor
  fill_floors zero level empty_node nodes = some nodes
  fill_floors (suc n) level empty_node nodes =
      fill_floor level empty_node (tree_size / 2 ^ level) (tree_size / 2 ^ level) nodes
      >>= fill_floors n (suc level) (empty_node / 2)

-- `Math.ceil(leaves.length / subTreeSize)`
unfoldable pub num_of_sub_trees : ℕ → ℕ → ℕ
num_of_sub_trees size n = if n % size == 0 then n / size else n / size + 1

module _ {A : Type 0} where
  unfoldable pub sub_tree_root : Hasher A → ℕ → List A → Option A
  unfolding fill_floors
  sub_tree_root h sub_tree_depth leaves =
      let tree_size = 2 ^ sub_tree_depth in
      if leb (length leaves) tree_size
      then (fill_floors h leaves tree_size (suc sub_tree_depth) 0 (tree_size + length leaves)
            (λ _. none)
          >>= λ nodes. nodes 1)
      else none

  -- One round of the loop in `appendSubTree`: the parent, and the next sibling of the level.
  unfoldable pub sub_tree_level : Hasher A → Bool → List A → A → A → Option (A × A)
  sub_tree_level h is_even pre sibling node =
      if is_even
      then (head? pre >>= λ z. some (h.parent_of node z, node))
      else some (h.parent_of sibling node, sibling)

  -- The loop of `appendSubTree` over the siblings; `pre` starts with the prehashed value of the level.
  unfoldable pub sub_tree_levels : Hasher A → ℕ → List A → List A → A → Option (A × List A)
  unfolding sub_tree_level
  sub_tree_levels h path pre [] node = some (node, [])
  sub_tree_levels h path pre (sibling ∷ siblings) node =
      sub_tree_level h (path % 2 == 0) pre sibling node >>= λ r.
      sub_tree_levels h (path / 2) (tail pre) siblings r.0 >>= λ above.
      some (above.0, r.1 ∷ above.1)

  unfoldable pub append_sub_tree : Hasher A → ℕ → List A → TreeData A → Option (TreeData A)
  unfolding sub_tree_root sub_tree_levels
  append_sub_tree h sub_tree_depth leaves d = sub_tree_root h sub_tree_depth leaves >>= λ node.
      sub_tree_levels h (d.index / 2 ^ sub_tree_depth) (drop sub_tree_depth h.pre_hash) d.siblings
        node
      >>= λ r. some record { root = r.0; index = d.index + 2 ^ sub_tree_depth; siblings = r.1 }

  unfoldable pub append_sub_trees : Hasher A → ℕ → List (List A) → TreeData A → Option (TreeData A)
  unfolding append_sub_tree
  append_sub_trees h sub_tree_depth [] d = some d
  append_sub_trees h sub_tree_depth (leaves ∷ rest) d =
      append_sub_tree h sub_tree_depth leaves d >>= append_sub_trees h sub_tree_depth rest

  -- `splitToSubTrees`: the leaves in groups of the size of a sub tree, the last one filled up with the
  -- empty leaf, with `n` groups to go.
  unfoldable pub split_groups : A → ℕ → ℕ → List A → List (List A)
  split_groups empty size zero leaves = []
  split_groups empty size (suc n) leaves =
      let group = take size leaves in
      (group ++ replicate (size - length group) empty)
      ∷ split_groups empty size n (drop size leaves)

  unfoldable pub split_to_sub_trees : Hasher A → List A → ℕ → Option (List (List A))
  unfolding split_groups num_of_sub_trees
  split_to_sub_trees h leaves sub_tree_depth =
      let size = 2 ^ sub_tree_depth in
      head? h.pre_hash >>= λ empty.
      some (split_groups empty size (num_of_sub_trees size (length leaves)) leaves)

module _ {A : Type 0} ⦃e : Eq A⦄ where
  -- The loop of `emptySubTreeProof`: the sibling is the prehashed zero of the level on an even path,
  -- and another value on an odd one.
  unfoldable pub siblings_fit : ℕ → List A → List A → Option Bool
  siblings_fit path pre [] = some true
  siblings_fit path pre (sibling ∷ siblings) = head? pre >>= λ z.
      let above = siblings_fit (path / 2) (tail pre) siblings in
      let same = e.beq sibling z in
      if (if path % 2 == 0 then same else not same) then above else some false

  unfoldable pub empty_sub_tree_proof : Hasher A → ℕ → TreeData A → Option Bool
  unfolding siblings_fit sol_merkle_root
  empty_sub_tree_proof h sub_tree_depth d =
      let path = d.index / 2 ^ sub_tree_depth in
      siblings_fit path (drop sub_tree_depth h.pre_hash) d.siblings >>= λ fit.
      if fit
      then (get_elem? h.pre_hash sub_tree_depth >>= λ empty.
          some (e.beq (sol_merkle_root h empty path d.siblings) d.root))
      else some false

  -- `appendAsSubTrees`, where `d` holds the starting root, the index and the siblings.
  unfoldable pub append_as_sub_trees : Hasher A → ℕ → List A → TreeData A → Option A
  unfolding empty_sub_tree_proof split_to_sub_trees append_sub_trees
  append_as_sub_trees h sub_tree_depth leaves d =
      if d.index % 2 ^ sub_tree_depth == 0
      then (if length h.pre_hash == sub_tree_depth + length d.siblings + 1
          then (empty_sub_tree_proof h sub_tree_depth d >>= λ allowed.
              if allowed
              then (split_to_sub_trees h leaves sub_tree_depth >>= λ sub_trees.
                  append_sub_trees h sub_tree_depth sub_trees d >>= λ next. some next.root)
              else none)
          else none)
      else none
