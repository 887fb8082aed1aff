-- ===== src/Tree/MerkleTreeSol.antt =====
-- packages/tree/src/utils/merkle-tree-sol.ts: `append`, which recomputes a root the way the contract
-- MerkleTree.sol does, from a starting leaf proof. The names carry `sol_`, as the file's does. A method
-- that throws returns `none`; a prehashed value that is not there throws where it is compared or hashed.
use zkopru.Base.{
  ℕ, suc, ◌+◌, ◌/◌, ◌%◌, ◌^◌, ◌<◌, ◌≤◌, ◌≡◌, refl, sym, ap, ◌∙◌, inl, inr, Bool, true, false,
  Option, none, some, Eq, List, [], ◌∷◌, arith, ◌==◌, if◌then◌else◌, ◌>>=◌, length, head?, tail,
  map, take, Option-cases,
}
use zkopru.Base.Bits.{div-pow-suc}
use zkopru.Base.Lists.{length-map, take-length}
use native.Mathlib.Nat.{two-pow-succ}
use mathlib.Core.Option.{some-injective, none-ne-some}
use zkopru.Tree.Hasher.{Hasher}
use zkopru.Tree.NodeIndex.{node_index, node_index-path}
use zkopru.Tree.LightRollUp.{
  Leaf, TreeData, LightRollUpTree, latest_leaf_index, siblings, climb_level, climb, dry_append_item,
  dry_append_items, dry_append,
}

module _ {A : Type 0} where
  -- One round of the loop in `appendLeaf`: the parent, and the next sibling of the level.
  unfoldable pub sol_level : Hasher A → Bool → List A → A → A → Option (A × A)
  sol_level h is_even pre sibling node =
      if is_even
      then (head? pre >>= λ z. some (h.parent_of node z, node))
      else some (h.parent_of sibling node, sibling)

  unfoldable pub sol_levels : Hasher A → ℕ → ℕ → List A → List A → A → Option (A × List A)
  unfolding sol_level
  sol_levels h index level pre [] node = some (node, [])
  sol_levels h index level pre (sibling ∷ rest) node =
      sol_level h (index / 2 ^ level % 2 == 0) pre sibling node >>= λ r.
      sol_levels h index (suc level) (tail pre) rest r.0 >>= λ above. some (above.0, r.1 ∷ above.1)

  unfoldable pub sol_append_leaf : Hasher A → A → TreeData A → Option (TreeData A)
  unfolding sol_levels
  sol_append_leaf h leaf d = sol_levels h d.index 0 h.pre_hash d.siblings leaf >>= λ r.
      some (record { root = r.0; index = d.index + 1; siblings = r.1 })

  unfoldable pub sol_append_leaves : Hasher A → List A → TreeData A → Option (TreeData A)
  sol_append_leaves h [] d = some d
  sol_append_leaves h (leaf ∷ leaves) d = sol_append_leaf h leaf d >>= sol_append_leaves h leaves

module _ {A : Type 0} ⦃e : Eq A⦄ where
  -- The loop of `startingLeafProof`: on an even path the sibling is the prehashed zero of the level,
  -- on an odd path it is another value.
  unfoldable pub sol_climb : Hasher A → A → ℕ → ℕ → List A → List A → A → Option Bool
  sol_climb h root index level pre [] node = some (e.beq root node)
  sol_climb h root index level pre (sibling ∷ rest) node = head? pre >>= λ z.
      let is_even = index / 2 ^ level % 2 == 0 in
      let parent = if is_even then h.parent_of node z else h.parent_of sibling node in
      let above = sol_climb h root index (suc level) (tail pre) rest parent in
      if is_even
      then (if e.beq sibling z then above else some false)
      else (if e.beq sibling z then some false else above)

  unfoldable pub sol_starting_leaf_proof : Hasher A → TreeData A → Option Bool
  unfolding sol_climb
  sol_starting_leaf_proof h d =
      head? h.pre_hash >>= λ leaf. sol_climb h d.root d.index 0 h.pre_hash d.siblings leaf

  -- `append`, where `d` holds the starting root, the index and the siblings.
  unfoldable pub sol_append : Hasher A → List A → TreeData A → Option A
  sol_append h leaves d =
      if length h.pre_hash == length d.siblings + 1
      then (sol_starting_leaf_proof h d >>= λ valid.
          if valid then (sol_append_leaves h leaves d >>= λ next. some next.root) else none)
      else none

module _ {A : Type 0} where
  -- The loop goes up the same path, whether the index has its leading bit or not.
  sol_levels_lem :
      (h : Hasher A) (p i l : ℕ) (pre ss : List A) (v : A)
      → p / 2 ^ l ≡ 2 ^ length ss + i / 2 ^ l
      → i / 2 ^ l < 2 ^ length ss
      → sol_levels h i l pre ss v ≡ climb h p l pre ss v
  unfolding sol_levels sol_level climb climb_level
  sol_levels_lem h p i l pre [] v path small = refl
  sol_levels_lem h p i l pre (s ∷ ss) v path small =
      let pow = two-pow-succ (length ss) in
      let q = div-pow-suc i l in
      let r = div-pow-suc p l in
      let parity : p / 2 ^ l % 2 ≡ i / 2 ^ l % 2 = omega arith in
      let above : (w : A)
          → sol_levels h i (suc l) (tail pre) ss w ≡ climb h p (suc l) (tail pre) ss w =
        λ w. sol_levels_lem h p i (suc l) (tail pre) ss w (omega arith) (omega arith) in
      rw parity (λ j. sol_level h (i / 2 ^ l % 2 == 0) pre s v >>= λ r.
      above r.0 j >>= λ ab. some (ab.0, r.1 ∷ ab.1))

  sol_levels-length :
      (h : Hasher A) (i l : ℕ) (pre ss : List A) (v : A) (r : A × List A)
      → sol_levels h i l pre ss v ≡ some r
      → length r.1 ≡ length ss
  unfolding sol_levels
  sol_levels-length h i l pre [] v r e =
      let same = some-injective _ _ e in ap (λ q. length q.1) (sym same)
  sol_levels-length h i l pre (s ∷ ss) v r e =
      elim (Option-cases (sol_level h (i / 2 ^ l % 2 == 0) pre s v)) [
        | inl n ↦ absurd (none-ne-some _ (rw n at e))
        | inr (q, n) ↦ elim (Option-cases (sol_levels h i (suc l) (tail pre) ss q.0)) [
          | inl n' ↦ absurd (none-ne-some _ (rw n' at (rw n at e)))
          | inr (ab, n') ↦
              let same = some-injective _ _ (rw n' at (rw n at e)) in
              ap (λ q. length q.1) (sym same)
              ∙ ap suc (sol_levels-length h i (suc l) (tail pre) ss q.0 ab n')
        ]
      ]

  sol_append_leaf_lem :
      (h : Hasher A) (depth : ℕ) (x : A) (d : TreeData A)
      → length d.siblings ≡ depth
      → d.index < 2 ^ depth
      → sol_append_leaf h x d ≡ dry_append_item h depth x d
  unfolding sol_append_leaf dry_append_item
  sol_append_leaf_lem h depth x d levels room =
      let (path, small) = node_index-path depth d.index 0 depth room (omega arith) in
      let same =
        sol_levels_lem h (node_index depth d.index) d.index 0 h.pre_hash d.siblings x
          (rw levels path) (rw levels small) in
      rw same refl

  sol_append_leaves_lem :
      (h : Hasher A) (depth : ℕ) (xs : List A) (d : TreeData A)
      → length d.siblings ≡ depth
      → d.index + length xs ≤ 2 ^ depth
      → sol_append_leaves h xs d ≡ dry_append_items h depth xs d
  unfolding sol_append_leaves dry_append_items sol_append_leaf
  sol_append_leaves_lem h depth [] d levels room = refl
  sol_append_leaves_lem h depth (x ∷ xs) d levels room =
      let first = sol_append_leaf_lem h depth x d levels (omega arith) in
      elim (Option-cases (sol_levels h d.index 0 h.pre_hash d.siblings x)) [
        | inl n ↦ rw (← first) (rw n refl)
        | inr (r, n) ↦
            let next : TreeData A = record { root = r.0; index = d.index + 1; siblings = r.1 } in
            let levels' = sol_levels-length h d.index 0 h.pre_hash d.siblings x r n ∙ levels in
            rw (← first) (rw n (sol_append_leaves_lem h depth xs next levels' (omega arith)))
      ]

-- On a light tree that has a sibling for each level, a hasher with one prehashed value for each
-- level and one for the root, and room for the leaves, when `startingLeafProof` of
-- merkle-tree-sol.ts accepts the root, the index and the siblings of the tree, then `append` of
-- that file throws exactly if the `dryAppend` of the tree does, and else both give the same root.
pub sol_append-dry_append :
    {A : Type 0} ⦃e : Eq A⦄ (t : LightRollUpTree A) (leaves : List (Leaf A))
    → length t.data_of.siblings ≡ t.depth
    → length t.config.hasher.pre_hash ≡ t.depth + 1
    → latest_leaf_index t + length leaves ≤ 2 ^ t.depth
    → sol_starting_leaf_proof t.config.hasher t.data_of ≡ some true
    → sol_append t.config.hasher (map (λ leaf. leaf.hash) leaves) t.data_of
      ≡ (dry_append t leaves >>= λ d. some d.root)
unfolding sol_append dry_append siblings latest_leaf_index
sol_append-dry_append {A} t leaves levels hashes room valid =
    let h = t.config.hasher in
    let xs = map (λ leaf. leaf.hash) leaves in
    let d : TreeData A = t.data_of in
    let enough : (length h.pre_hash == length d.siblings + 1) ≡ true =
      let same : length h.pre_hash ≡ length d.siblings + 1 = omega arith in ground (arith, same) in
    let n = length-map (λ leaf. leaf.hash) leaves in
    let same = sol_append_leaves_lem h t.depth xs d levels (omega arith) in
    let whole : take t.depth d.siblings ≡ d.siblings = take-length t.depth d.siblings levels in
    rw (enough, valid, same, whole) refl
