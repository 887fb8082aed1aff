-- ===== src/Tree/SubTreeSol/Agrees.antt =====
-- The append in sub trees of merkle-tree-sol.ts and the padded append of grove.ts reach one root.
use zkopru.Base.{
  ℕ, ◌+◌, ◌*◌, ◌/◌, ◌%◌, ◌^◌, ◌≤◌, ◌<◌, ◌≡◌, sym, ap, ◌∙◌, true, some, Eq, List, ◌==◌,
  if◌then◌else◌, ◌>>=◌, length, length-map,
}
use native.Mathlib.Nat.{mul_comm}
use zkopru.Tree.Hasher.{hasher_of}
use zkopru.Tree.Spec.{node, IsInjective}
use zkopru.Tree.LightRollUp.{Leaf, TreeData, LightRollUpTree, latest_leaf_index}
use zkopru.Tree.LightRollUp.Represents.{grow}
use zkopru.Tree.Grove.{fixed_size_len, append_padded}
use zkopru.Tree.Grove.Appends.{Holds, HasRoom, hashes_of, append_padded-Holds}
use zkopru.Tree.SubTreeSol.{num_of_sub_trees, empty_sub_tree_proof, append_as_sub_trees}
use zkopru.Tree.SubTreeSol.Sound.{append_as_sub_trees_sound}

pub num_of_sub_trees-fixed_size_len :
    (size n : ℕ) → num_of_sub_trees size n * size ≡ fixed_size_len size n
unfolding num_of_sub_trees fixed_size_len
num_of_sub_trees-fixed_size_len size n =
    mul_comm (if n % size == 0 then n / size else n / size + 1) size

-- What another party submits of a light tree: its root and index, with siblings of their own.
abbrev pub submitted : {A : Type 0} → LightRollUpTree A → List A → TreeData A
submitted t siblings = record {
  root = t.data_of.root;
  index = latest_leaf_index t;
  siblings = siblings;
}

module _ {A : Type 0} ⦃e : Eq A⦄ (parent : A → A → A) (z : A) (k n : ℕ) (inj : IsInjective parent)
    (t : LightRollUpTree A) (f : ℕ → A) (siblings : List A) where
  pub append_as_sub_trees-grow :
      (hs : List A)
      → Holds parent z (k + n) f t
      → t.depth ≡ k + n
      → length siblings ≡ n
      → latest_leaf_index t % 2 ^ k ≡ 0
      → latest_leaf_index t < 2 ^ t.depth
      → latest_leaf_index t + fixed_size_len (2 ^ k) (length hs) ≤ 2 ^ t.depth
      → empty_sub_tree_proof (hasher_of parent z (k + n)) k (submitted t siblings) ≡ some true
      → append_as_sub_trees (hasher_of parent z (k + n)) k hs (submitted t siblings)
        ≡ some (node parent t.depth 0 (grow f (latest_leaf_index t) hs))
  unfolding latest_leaf_index
  append_as_sub_trees-grow hs holds deep len aligned small room passed =
      let size = 2 ^ k in
      let rooms : t.data_of.index + num_of_sub_trees size (length hs) * size ≤ 2 ^ (k + n) =
        rw (num_of_sub_trees-fixed_size_len size (length hs), ← deep) room in
      let root = holds.stands.root ∙ ap (λ d. node parent d 0 f) deep in
      append_as_sub_trees_sound parent z k n inj f hs (submitted t siblings) root len aligned
        (rw deep at small) rooms (holds.stands.empty) passed
      ∙ ap (λ d. some (node parent d 0 (grow f t.data_of.index hs))) (sym deep)

  -- Under an injective hash, on a light tree that stands for a Merkle tree of `k + n` levels, ends
  -- with a whole sub tree of `2 ^ k` leaves below its end, and has room for the leaves and their
  -- padding, `appendAsSubTrees` of merkle-tree-sol.ts with `n` siblings that `emptySubTreeProof`
  -- accepts gives the root that the grove's padded append leaves.
  pub append_as_sub_trees-append_padded :
      (tracking : List ℕ) (leaves : List (Leaf A))
      → Holds parent z (k + n) f t
      → t.depth ≡ k + n
      → length siblings ≡ n
      → latest_leaf_index t % 2 ^ k ≡ 0
      → latest_leaf_index t < 2 ^ t.depth
      → HasRoom (2 ^ k) t leaves
      → empty_sub_tree_proof (hasher_of parent z (k + n)) k (submitted t siblings) ≡ some true
      → append_as_sub_trees (hasher_of parent z (k + n)) k (hashes_of leaves) (submitted t siblings)
        ≡ (append_padded z (2 ^ k) t tracking leaves >>= λ r. some (r.0.data_of.root))
  append_as_sub_trees-append_padded tracking leaves holds deep len aligned small room passed =
      let hs = hashes_of leaves in
      let count = length-map (λ (leaf : Leaf A). leaf.hash) leaves in
      let (t', rows, made, deep', index, holds') =
        append_padded-Holds parent z (k + n) (2 ^ k) t f tracking leaves holds room in
      rw made (
        append_as_sub_trees-grow hs holds deep len aligned small (rw count (room.1)) passed
        ∙ ap (λ d. some (node parent d 0 (grow f (latest_leaf_index t) hs))) (sym deep')
        ∙ ap some (sym (holds'.stands.root)))
