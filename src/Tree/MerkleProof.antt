-- ===== src/Tree/MerkleProof.antt =====
-- packages/tree/src/merkle-proof.ts
pub mod Laws
use zkopru.Base.{
  ℕ, ◌/◌, ◌%◌, Bool, true, false, Option, some, List, [], ◌∷◌, ◌==◌, if◌then◌else◌, Eq, head?, tail,
  ◌>>=◌,
}
use zkopru.Tree.Hasher.{Hasher}

pub record MerkleProof (A : Type 0) : Type 0 where
  pub root : A
  pub index : ℕ
  pub leaf : A
  pub siblings : List A

-- One round of the loop: the parent of the current node, on the path `path`.
abbrev pub parent_on : {A : Type 0} → Hasher A → ℕ → A → A → A
parent_on h path node sibling =
    if path % 2 == 0 then h.parent_of node sibling else h.parent_of sibling node

unfoldable pub merkle_root : {A : Type 0} → Hasher A → ℕ → A → List A → A
merkle_root h path node [] = node
merkle_root h path node (sibling ∷ siblings) =
    merkle_root h (path / 2) (parent_on h path node sibling) siblings

module _ {A : Type 0} ⦃e : Eq A⦄ where
  unfoldable pub verify_proof : Hasher A → MerkleProof A → Bool
  unfolding merkle_root
  verify_proof h proof = e.beq (merkle_root h proof.index proof.leaf proof.siblings) proof.root

  -- The loop over the siblings: on an even path the right sibling is a prehashed zero. A level
  -- without a prehashed value makes the comparison throw.
  unfoldable pub right_siblings_empty : ℕ → List A → List A → Option Bool
  right_siblings_empty path pre [] = some true
  right_siblings_empty path pre (sibling ∷ siblings) =
      let rest = right_siblings_empty (path / 2) (tail pre) siblings in
      if path % 2 == 0
      then (head? pre >>= λ z. if e.beq sibling z then rest else some false)
      else rest

  unfoldable pub starting_leaf_proof : Hasher A → A → ℕ → List A → Option Bool
  unfolding right_siblings_empty
  starting_leaf_proof h root index siblings =
      right_siblings_empty index h.pre_hash siblings >>= λ fits.
      if fits
      then (head? h.pre_hash >>= λ leaf. some (
          verify_proof h (record { root = root; index = index; leaf = leaf; siblings = siblings })))
      else some false
