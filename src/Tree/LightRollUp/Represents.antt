-- ===== src/Tree/LightRollUp/Represents.antt =====
-- The light tree stands for a Merkle tree: what that means, and that `dryAppend` keeps it.
use zkopru.Base.{
  ℕ, ◌+◌, ◌/◌, ◌^◌, ◌≤◌, ◌<◌, ◌≡◌, refl, sym, ap, ◌∙◌, some, List, [], ◌∷◌, arith, length, map,
}
use zkopru.Base.Bits.{bit_or_pow}
use zkopru.Base.Lists.{length-map, take-length}
use zkopru.Tree.Hasher.{hasher_of}
use zkopru.Tree.Spec.{node, node-zero, update}
use zkopru.Tree.PreHash.{hasher_of-Covers}
use zkopru.Tree.NodeIndex.{node_index}
use zkopru.Tree.LightRollUp.{
  Leaf, TreeData, LightRollUpTree, siblings, latest_leaf_index, climb, dry_append_item,
  dry_append_items, dry_append,
}
use zkopru.Tree.LightRollUp.Climb.{
  Fits, left_siblings, left_siblings-Fits, length-left_siblings, climb_lem,
}

-- The leaves `xs` go to the positions from `i` on.
abbrev pub grow : {A : Type 0} → (ℕ → A) → ℕ → List A → ℕ → A
grow f i [] = f
grow f i (x ∷ xs) = grow (update f i x) (i + 1) xs

-- The data of a light tree, for the tree of this depth over the leaves `f`: its root, no leaf from
-- the index on, and the siblings that the next leaf needs.
pub record Represents {A : Type 0} (parent : A → A → A) (z : A) (depth : ℕ) (f : ℕ → A)
    (d : TreeData A) : Type 0 where
  pub root : d.root ≡ node parent depth 0 f
  pub levels : length d.siblings ≡ depth
  pub empty : (j : ℕ) → d.index ≤ j → f j ≡ z
  pub fits : Fits parent f 0 d.index d.siblings

module _ {A : Type 0} (parent : A → A → A) (z : A) (height : ℕ) where
  -- Where the climb of a new leaf ends.
  pub climb_from_leaf :
      (depth : ℕ) (f : ℕ → A) (x : A) (d : TreeData A)
      → depth ≤ height
      → d.index < 2 ^ depth
      → Represents parent z depth f d
      → let h = hasher_of parent z height in
        climb h (node_index depth d.index) 0 h.pre_hash d.siblings x
        ≡ some (
          node parent depth 0 (update f d.index x),
          left_siblings parent (update f d.index x) 0 d.index depth,
        )
  unfolding hasher_of
  climb_from_leaf depth f x d enough room rep =
      let i = d.index in
      let n = rep.levels in
      let h = hasher_of parent z height in
      let path = bit_or_pow depth i room in
      let up : 0 + length d.siblings ≡ depth = omega arith in
      let size : 2 ^ length d.siblings ≡ 2 ^ depth = ap (λ k. 2 ^ k) n in
      let here : update f i x i ≡ x = ground arith in
      let self : i / 2 ^ 0 ≡ i = omega arith in
      let leaf =
        ap (λ k. node parent 0 k (update f i x)) self ∙ node-zero parent i (update f i x) ∙ here in
      let covers = hasher_of-Covers parent z height (length d.siblings) (omega arith) in
      climb_lem h z f i x (λ j p. rep.empty j (omega arith)) 0 (node_index depth i) h.pre_hash
        d.siblings x (omega arith) (omega arith) covers rep.fits (sym leaf)
      ∙ (λ j.
          some (node parent (up j) 0 (update f i x), left_siblings parent (update f i x) 0 i (n j)))

  -- One item, with the data that it leaves.
  dry_append_item_lem :
      (depth : ℕ) (f : ℕ → A) (x : A) (d : TreeData A)
      → depth ≤ height
      → d.index < 2 ^ depth
      → Represents parent z depth f d
      → dry_append_item (hasher_of parent z height) depth x d
        ≡ some (record {
          root = node parent depth 0 (update f d.index x);
          index = d.index + 1;
          siblings = left_siblings parent (update f d.index x) 0 d.index depth;
        })
  unfolding dry_append_item
  dry_append_item_lem depth f x d enough room rep =
      rw (climb_from_leaf depth f x d enough room rep) refl

  -- That data stands for the tree with the new leaf.
  pub grown-Represents :
      (depth : ℕ) (f : ℕ → A) (x : A) (i : ℕ)
      → ((j : ℕ) → i ≤ j → f j ≡ z)
      → Represents parent z depth (update f i x) (record {
        root = node parent depth 0 (update f i x);
        index = i + 1;
        siblings = left_siblings parent (update f i x) 0 i depth;
      })
  grown-Represents depth f x i empty = record {
    root = refl;
    levels = length-left_siblings parent (update f i x) 0 i depth;
    empty = λ j p. ground (arith, empty j);
    fits = left_siblings-Fits parent (update f i x) 0 i depth;
  }

  dry_append_items-Represents :
      (depth : ℕ) (f : ℕ → A) (xs : List A) (d : TreeData A)
      → depth ≤ height
      → d.index + length xs ≤ 2 ^ depth
      → Represents parent z depth f d
      → (d' : TreeData A) × (dry_append_items (hasher_of parent z height) depth xs d ≡ some d')
        × (d'.index ≡ d.index + length xs)
        × Represents parent z depth (grow f d.index xs) d'
  unfolding dry_append_items
  dry_append_items-Represents depth f [] d enough room rep = (d, refl, omega arith, rep)
  dry_append_items-Represents depth f (x ∷ xs) d enough room rep =
      let item = dry_append_item_lem depth f x d enough (omega arith) rep in
      let (d', ran, end, rep') =
        dry_append_items-Represents depth (update f d.index x) xs _ enough (omega arith)
          (grown-Represents depth f x d.index rep.empty) in
      (d', rw item ran, omega arith, rep')

  -- On a tree whose hasher is made from a hash and a zero value with at least as many prehashed
  -- levels as the tree has, with room for all of the leaves, and whose data stand for the Merkle
  -- tree over some leaves, `dryAppend` does not throw; the index that it returns is advanced by
  -- the number of leaves, and the data stand for the Merkle tree with the leaves put behind the
  -- old ones.
  pub dry_append-Represents :
      (t : LightRollUpTree A) (f : ℕ → A) (leaves : List (Leaf A))
      → t.config.hasher ≡ hasher_of parent z height
      → t.depth ≤ height
      → latest_leaf_index t + length leaves ≤ 2 ^ t.depth
      → Represents parent z t.depth f t.data_of
      → (d : TreeData A) × (dry_append t leaves ≡ some d)
        × (d.index ≡ latest_leaf_index t + length leaves)
        × Represents parent z t.depth
            (grow f (latest_leaf_index t) (map (λ leaf. leaf.hash) leaves))
            d
  unfolding dry_append latest_leaf_index siblings
  dry_append-Represents t f leaves hasher enough room rep =
      let hashes = map (λ (leaf : Leaf A). leaf.hash) leaves in
      let n = length-map (λ (leaf : Leaf A). leaf.hash) leaves in
      let (d, ran, end, rep') =
        dry_append_items-Represents t.depth f hashes t.data_of enough (omega arith) rep in
      (d, rw (hasher, take-length t.depth t.data_of.siblings rep.levels) ran, omega arith, rep')
