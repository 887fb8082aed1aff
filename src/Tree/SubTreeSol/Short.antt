-- ===== src/Tree/SubTreeSol/Short.antt =====
-- `subTreeRoot` of merkle-tree-sol.ts for a sub tree that is not full.
use zkopru.Base.{
  ℕ, zero, suc, ◌+◌, ◌-◌, ◌*◌, ◌/◌, ◌^◌, ◌≤◌, ◌<◌, ◌≡◌, refl, ap, ◌∙◌, Option, none, some, true,
  false, List, [], ◌∷◌, arith, ◌⊎◌, Option-cases, inl, inr, length, get_elem?, leb, le→leb,
  if◌then◌else◌, ◌==◌,
}
use native.Mathlib.Nat.{two-pow-succ}
use zkopru.Tree.Hasher.{Hasher}
use zkopru.Tree.SubTreeSol.{NodeArray, node_value, fill_floor, fill_floors, sub_tree_root}
use zkopru.Tree.SubTreeSol.Floors.{fill_floor_lem, fill_floor_throws, floors_step}

module _ {A : Type 0} (h : Hasher A) where
  get_elem?-length : (xs : List A) → get_elem? xs (length xs) ≡ none
  get_elem?-length [] = refl
  get_elem?-length (x ∷ xs) = get_elem?-length xs

  -- A parent with a child that is undefined.
  missing_child :
      (leaves : List A) (tree_size l : ℕ) (nodes : NodeArray A) (i empty_node child : ℕ)
      → i ≤ empty_node
      → nodes child ≡ none
      → (i * 2 ≡ child) ⊎ (i * 2 + 1 ≡ child)
      → node_value h leaves tree_size (suc l) empty_node nodes i ≡ none
  unfolding node_value
  missing_child leaves tree_size l nodes i empty_node child real undefined which =
      let here : leb i empty_node ≡ true = le→leb _ _ real in
      let up : (suc l == 0) ≡ false = ground arith in
      elim which [
        | inl left ↦ rw (here, up, left, undefined) refl
        | inr right ↦ elim (Option-cases (nodes (i * 2))) [
          | inl e ↦ rw (here, up, e) refl
          | inr (x, e) ↦ rw (here, up, e, right, undefined) refl
        ]
      ]

  -- Behind the leaves there is an undefined value.
  short_leaf_floor :
      (leaves : List A) (k : ℕ)
      → length leaves < 2 ^ k
      → (nodes' : NodeArray A) × (fill_floor h leaves
            (2 ^ k)
            0
            (2 ^ k + length leaves)
            (2 ^ k)
            (2 ^ k)
            (λ _. none)
          ≡ some nodes')
        × (nodes' (2 ^ k + length leaves) ≡ none)
  unfolding node_value
  short_leaf_floor leaves k short =
      let left = 2 ^ k in
      let n = length leaves in
      let v : ℕ → Option A =
        λ i. if leb (left + i) (left + n) then get_elem? leaves i else get_elem? h.pre_hash 0 in
      let (nodes', ran, made, kept) =
        fill_floor_lem h leaves left 0 (left + n) left v left (λ _. none) (omega arith)
          (λ m' same i p. let at : left + i - left ≡ i = omega arith in rw at (ground arith)) in
      let here : leb (left + n) (left + n) ≡ true = le→leb _ _ (omega arith) in
      (nodes', ran, made n short ∙ rw here (get_elem?-length leaves))

  -- `subTreeRoot` throws for fewer leaves than the sub tree has room for.
  pub sub_tree_root_short :
      (k : ℕ) (leaves : List A) → length leaves < 2 ^ k → sub_tree_root h k leaves ≡ none
  unfolding sub_tree_root fill_floors
  sub_tree_root_short zero leaves short =
      let (nodes, ran, undefined) = short_leaf_floor leaves 0 short in
      let fits : leb (length leaves) (2 ^ 0) ≡ true = le→leb _ _ (omega arith) in
      let all =
        floors_step h leaves 1 0 0 (1 + length leaves) 1 (λ _. none) nodes _ refl ran refl in
      let top : 1 ≡ 1 + length leaves = omega arith in rw (fits, all) (ap nodes top ∙ undefined)
  sub_tree_root_short (suc m) leaves short =
      let k = suc m in
      let empty_node = 2 ^ k + length leaves in
      let (nodes, ran, undefined) = short_leaf_floor leaves k short in
      let fits : leb (length leaves) (2 ^ k) ≡ true = le→leb _ _ (omega arith) in
      let pow = two-pow-succ m in
      let one : 2 ^ k / 2 ^ 0 ≡ 2 ^ k = omega arith in
      let half : 2 ^ k / 2 ^ 1 ≡ 2 ^ m = omega arith in
      let i = length leaves / 2 in
      let thrown =
        fill_floor_throws h leaves (2 ^ k) 1 (empty_node / 2) (2 ^ m) i (2 ^ m) nodes (omega arith)
          (omega arith)
          (λ m' same.
            missing_child leaves (2 ^ k) 0 m' (2 ^ m + i) (empty_node / 2) empty_node (omega arith)
              (same empty_node (omega arith) ∙ undefined) (omega arith)) in
      let rest : fill_floors h leaves (2 ^ k) k 1 (empty_node / 2) nodes ≡ none =
        rw (half, thrown) refl in
      let all =
        floors_step h leaves (2 ^ k) k 0 empty_node (2 ^ k) (λ _. none) nodes _ one ran rest in
      rw (fits, all) refl
