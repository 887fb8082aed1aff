-- ===== src/Tree/Spec.antt =====
-- The Merkle tree that the code of packages/tree stands for: the value of every node of a
-- complete binary tree over a function from positions to leaves.
use zkopru.Base.{
  ℕ, zero, suc, ◌+◌, ◌*◌, ◌/◌, ◌%◌, ◌-◌, ◌^◌, ◌<◌, ◌≡◌, ◌≢◌, refl, List, [], ◌∷◌, arith, ◌==◌,
  if◌then◌else◌, length, ap, ◌∙◌, ◌⊎◌, inl, inr,
}
use zkopru.Base.Bits.{div-pow-suc}

-- A new leaf at position `i`.
abbrev pub update : {A : Type 0} → (ℕ → A) → ℕ → A → ℕ → A
update f i x j = if j == i then x else f j

-- No two pairs have one hash: what collision resistance stands for.
abbrev pub IsInjective : {A : Type 0} → (A → A → A) → Type 0
IsInjective {A} parent_of = (a b c d : A) → parent_of a b ≡ parent_of c d → (a ≡ c) × (b ≡ d)

-- The other child of the parent of the node `k`.
abbrev pub sibling_of : ℕ → ℕ
sibling_of k = k / 2 * 2 + (1 - k % 2)

module _ {A : Type 0} (parent_of : A → A → A) where
  -- The node `k` of the level `l`, counted from the leaves and from the left.
  unfoldable pub node : ℕ → ℕ → (ℕ → A) → A
  node zero k f = f k
  node (suc l) k f = parent_of (node l (k * 2) f) (node l (k * 2 + 1) f)

  -- The root of an empty tree of depth `l`.
  unfoldable pub zero_node : A → ℕ → A
  zero_node z zero = z
  zero_node z (suc l) = parent_of (zero_node z l) (zero_node z l)

  -- A new leaf changes the nodes on its path only.
  pub node-update_ne :
      (l k : ℕ) (f : ℕ → A) (i : ℕ) (x : A) → k ≢ i / 2 ^ l → node l k (update f i x) ≡ node l k f
  unfolding node
  node-update_ne zero k f i x h = ground arith
  node-update_ne (suc l) k f i x h =
      let q = div-pow-suc i l in
      let left = node-update_ne l (k * 2) f i x (omega arith) in
      let right = node-update_ne l (k * 2 + 1) f i x (omega arith) in
      λ j. parent_of (left j) (right j)

  -- Behind the last leaf there are roots of empty trees.
  pub node-empty :
      (z : A) (l k : ℕ) (f : ℕ → A) (i : ℕ)
      → ((j : ℕ) → i < j → f j ≡ z)
      → i / 2 ^ l < k
      → node l k f ≡ zero_node z l
  unfolding node zero_node
  node-empty z zero k f i h p = h k (omega arith)
  node-empty z (suc l) k f i h p =
      let q = div-pow-suc i l in
      let left = node-empty z l (k * 2) f i h (omega arith) in
      let right = node-empty z l (k * 2 + 1) f i h (omega arith) in
      λ j. parent_of (left j) (right j)

  -- A tree with the same value in every leaf.
  pub node-constant : (z : A) (l k : ℕ) → node l k (λ _. z) ≡ zero_node z l
  unfolding node zero_node
  node-constant z zero k = refl
  node-constant z (suc l) k =
      let p = node-constant z l (k * 2) in
      let q = node-constant z l (k * 2 + 1) in λ i. parent_of (p i) (q i)

  pub node-zero : (k : ℕ) (f : ℕ → A) → node zero k f ≡ f k
  unfolding node
  node-zero k f = refl

  pub zero_node-zero : (z : A) → zero_node z zero ≡ z
  unfolding zero_node
  zero_node-zero z = refl

  pub zero_node-suc :
      (z : A) (l : ℕ) → zero_node z (suc l) ≡ parent_of (zero_node z l) (zero_node z l)
  unfolding zero_node
  zero_node-suc z l = refl

  -- The parent of a left child and its neighbour, and of a right child and its neighbour.
  pub node_left :
      (l k : ℕ) (f : ℕ → A)
      → k % 2 ≡ 0
      → parent_of (node l k f) (node l (k + 1) f) ≡ node (suc l) (k / 2) f
  unfolding node
  node_left l k f h = let e : k / 2 * 2 ≡ k = omega arith in rw e

  pub node_right :
      (l k : ℕ) (f : ℕ → A)
      → k % 2 ≡ 1
      → parent_of (node l (k / 2 * 2) f) (node l k f) ≡ node (suc l) (k / 2) f
  unfolding node
  node_right l k f h = let e : k / 2 * 2 + 1 ≡ k = omega arith in rw e

  -- The siblings of the nodes above the node `k` of the level `l`.
  abbrev pub IsPath : (ℕ → A) → ℕ → ℕ → List A → Type 0
  IsPath f l k [] = Unit
  IsPath f l k (s ∷ ss) = (s ≡ node l (sibling_of k) f) × IsPath f (suc l) (k / 2) ss

  unfoldable pub path_siblings : (ℕ → A) → ℕ → ℕ → ℕ → List A
  path_siblings f l zero k = []
  path_siblings f l (suc d) k = node l (sibling_of k) f ∷ path_siblings f (suc l) d (k / 2)

  pub path_siblings-IsPath : (f : ℕ → A) (l d k : ℕ) → IsPath f l k (path_siblings f l d k)
  unfolding path_siblings
  path_siblings-IsPath f l zero k = tt
  path_siblings-IsPath f l (suc d) k = (refl, path_siblings-IsPath f (suc l) d (k / 2))

  pub length-path_siblings : (f : ℕ → A) (l d k : ℕ) → length (path_siblings f l d k) ≡ d
  unfolding path_siblings
  length-path_siblings f l zero k = refl
  length-path_siblings f l (suc d) k = ap suc (length-path_siblings f (suc l) d (k / 2))

  -- Under an injective hash a subtree with the root of an empty one is empty.
  pub node_inj_empty :
      IsInjective parent_of
      → (z : A) (l k : ℕ) (f : ℕ → A) → node l k f ≡ zero_node z l
      → (j : ℕ) → j / 2 ^ l ≡ k
      → f j ≡ z
  unfolding node zero_node
  node_inj_empty inj z zero k f e j h = let same : j ≡ k = omega arith in ap f same ∙ e
  node_inj_empty inj z (suc l) k f e j h =
      let both = inj _ _ _ _ e in
      let q = div-pow-suc j l in
      let side : (j / 2 ^ l ≡ k * 2) ⊎ (j / 2 ^ l ≡ k * 2 + 1) = omega arith in
      elim side [
        | inl left ↦ node_inj_empty inj z l (k * 2) f both.0 j left
        | inr right ↦ node_inj_empty inj z l (k * 2 + 1) f both.1 j right
      ]

  -- Under an injective hash a root determines the leaves.
  pub node_inj :
      IsInjective parent_of
      → (l k : ℕ) (f g : ℕ → A) → node l k f ≡ node l k g
      → (j : ℕ) → j / 2 ^ l ≡ k
      → f j ≡ g j
  unfolding node
  node_inj inj zero k f g e j h = let same : j ≡ k = omega arith in rw same e
  node_inj inj (suc l) k f g e j h =
      let both = inj _ _ _ _ e in
      let q = div-pow-suc j l in
      let side : (j / 2 ^ l ≡ k * 2) ⊎ (j / 2 ^ l ≡ k * 2 + 1) = omega arith in
      elim side [
        | inl left ↦ node_inj inj l (k * 2) f g both.0 j left
        | inr right ↦ node_inj inj l (k * 2 + 1) f g both.1 j right
      ]
