-- ===== src/Tree/SolRoot.antt =====
-- The loop of `merkleRoot` of packages/tree/src/utils/merkle-tree-sol.ts, which is also that of
-- `calculateRoot` of smt-sol.ts: the path is shifted by the level, and is not changed itself.
use zkopru.Base.{
  ℕ, suc, ◌+◌, ◌/◌, ◌%◌, ◌^◌, ◌<◌, ◌≡◌, refl, ap, ◌∙◌, sym, List, [], ◌∷◌, arith, ◌==◌,
  if◌then◌else◌, length,
}
use zkopru.Base.Bits.{div-pow-suc}
use zkopru.Tree.Hasher.{Hasher}
use zkopru.Tree.Spec.{
  node, node-zero, path_siblings, path_siblings-IsPath, IsPath, length-path_siblings, IsInjective,
}
use zkopru.Tree.MerkleProof.{merkle_root}
use zkopru.Tree.MerkleProof.Laws.{merkle_root_path, merkle_root_inj}

module _ {A : Type 0} (h : Hasher A) where
  unfoldable pub sol_levels_root : ℕ → ℕ → A → List A → A
  sol_levels_root path level node [] = node
  sol_levels_root path level node (sibling ∷ siblings) =
      sol_levels_root path (suc level)
        (if path / 2 ^ level % 2 == 0 then h.parent_of node sibling else h.parent_of sibling node)
        siblings

  unfoldable pub sol_merkle_root : A → ℕ → List A → A
  unfolding sol_levels_root
  sol_merkle_root leaf index siblings = sol_levels_root index 0 leaf siblings

  sol_levels_root_lem :
      (path level : ℕ) (node : A) (ss : List A)
      → sol_levels_root path level node ss ≡ merkle_root h (path / 2 ^ level) node ss
  unfolding sol_levels_root merkle_root
  sol_levels_root_lem path level node [] = refl
  sol_levels_root_lem path level node (s ∷ ss) =
      let above = if path / 2 ^ level % 2 == 0 then h.parent_of node s else h.parent_of s node in
      sol_levels_root_lem path (suc level) above ss
      ∙ ap (λ p. merkle_root h p above ss) (div-pow-suc path level)

  pub sol_merkle_root-merkle_root :
      (leaf : A) (index : ℕ) (ss : List A)
      → sol_merkle_root leaf index ss ≡ merkle_root h index leaf ss
  unfolding sol_merkle_root
  sol_merkle_root-merkle_root leaf index ss =
      let self : index / 2 ^ 0 ≡ index = omega arith in
      sol_levels_root_lem index 0 leaf ss ∙ ap (λ p. merkle_root h p leaf ss) self

  -- Under an injective hash a path that ends in a node of the tree starts in its node, and has its
  -- siblings. The nodes of a level are leaves of the tree above it.
  pub sol_merkle_root_sound :
      IsInjective h.parent_of
      → (f : ℕ → A) (l n k : ℕ) (leaf : A) (ss : List A) → k < 2 ^ n
      → length ss ≡ n
      → sol_merkle_root leaf k ss ≡ node h.parent_of (l + n) 0 f
      → (leaf ≡ node h.parent_of l k f) × (ss ≡ path_siblings h.parent_of f l n k)
  sol_merkle_root_sound inj f l n k leaf ss room len e =
      let paths = path_siblings h.parent_of f l n k in
      let long = length-path_siblings h.parent_of f l n k in
      let up = ap (λ m. node h.parent_of (l + m) 0 f) long in
      let climbed =
        merkle_root_path h f l k paths (path_siblings-IsPath h.parent_of f l n k) (rw long room) in
      merkle_root_inj h inj k leaf (node h.parent_of l k f) ss paths (len ∙ sym long)
        (sym (sol_merkle_root-merkle_root leaf k ss) ∙ e ∙ sym up ∙ sym climbed)

  -- The path of a node reaches the root.
  pub sol_merkle_root_path :
      (f : ℕ → A) (n k : ℕ) (leaf : A) (ss : List A)
      → leaf ≡ f k
      → length ss ≡ n
      → k < 2 ^ n
      → IsPath h.parent_of f 0 k ss
      → sol_merkle_root leaf k ss ≡ node h.parent_of n 0 f
  sol_merkle_root_path f n k leaf ss e len room path =
      let up : 0 + length ss ≡ n = omega (arith, len) in
      sol_merkle_root-merkle_root leaf k ss
      ∙ ap (λ v. merkle_root h k v ss) (e ∙ sym (node-zero h.parent_of k f))
      ∙ merkle_root_path h f 0 k ss path (rw len room)
      ∙ ap (λ m. node h.parent_of m 0 f) up
