-- ===== src/Tree/PreHash.antt =====
-- The prehashed values of a hasher are the roots of the empty trees, level by level.
use zkopru.Base.{
  ℕ, zero, suc, ◌≤◌, ◌≡◌, refl, sym, ap, ◌∙◌, some, List, ◌∷◌, arith, head?, tail, get_elem?, ◌+◌,
  length,
}
use zkopru.Tree.Hasher.{Hasher, hasher_of, get_pre_hash, push_levels, last?, genesis_root}
use zkopru.Tree.Spec.{zero_node, zero_node-zero, zero_node-suc}

module _ {A : Type 0} (h : Hasher A) (z : A) where
  -- `pre` starts with the root of the empty tree of level `l`, and reaches `n` levels up.
  abbrev pub Covers : ℕ → List A → ℕ → Type 0
  Covers l pre n =
      (m : ℕ) × (n ≤ m) × (pre ≡ get_pre_hash h.parent_of (zero_node h.parent_of z l) m)

  pub Covers-tail : (l n : ℕ) (pre : List A) → Covers l pre (suc n) → Covers (suc l) (tail pre) n
  unfolding get_pre_hash push_levels
  Covers-tail l n pre (zero, p, e) = absurd (omega arith)
  Covers-tail l n pre (suc m, p, e) = (
    m,
    omega arith,
    ap tail e ∙ ap (λ w. w ∷ push_levels h.parent_of m w) (sym (zero_node-suc h.parent_of z l)),
  )

  pub Covers-head :
      (l n : ℕ) (pre : List A) → Covers l pre n → head? pre ≡ some (zero_node h.parent_of z l)
  unfolding get_pre_hash
  Covers-head l n pre (m, p, e) = ap head? e

pub hasher_of-Covers :
    {A : Type 0} (parent : A → A → A) (z : A) (height depth : ℕ)
    → depth ≤ height
    → let h = hasher_of parent z height in Covers h z 0 h.pre_hash depth
unfolding hasher_of
hasher_of-Covers parent z height depth enough =
    (height, enough, ap (λ w. get_pre_hash parent w height) (sym (zero_node-zero parent z)))

module _ {A : Type 0} (parent : A → A → A) (z : A) where
  get_elem?-get_pre_hash :
      (b m i : ℕ) (w : A)
      → w ≡ zero_node parent z b
      → i ≤ m
      → get_elem? (get_pre_hash parent w m) i ≡ some (zero_node parent z (i + b))
  unfolding get_pre_hash push_levels
  get_elem?-get_pre_hash b m zero w e p = let n : 0 + b ≡ b = omega arith in rw (n, e) refl
  get_elem?-get_pre_hash b zero (suc i) w e p = absurd (omega arith)
  get_elem?-get_pre_hash b (suc m) (suc i) w e p =
      let n : suc i + b ≡ i + suc b = omega arith in
      let next = ap (λ v. parent v v) e ∙ sym (zero_node-suc parent z b) in
      rw n (get_elem?-get_pre_hash (suc b) m i (parent w w) next (omega arith))

  pub get_elem?-hasher_of :
      (height l : ℕ)
      → l ≤ height
      → get_elem? (hasher_of parent z height).pre_hash l ≡ some (zero_node parent z l)
  unfolding hasher_of
  get_elem?-hasher_of height l p =
      let n : l + 0 ≡ l = omega arith in
      rw n at (get_elem?-get_pre_hash 0 height l z (sym (zero_node-zero parent z)) p)

  pub length-push_levels : (m : ℕ) (w : A) → length (push_levels parent m w) ≡ m
  unfolding push_levels
  length-push_levels zero w = refl
  length-push_levels (suc m) w = ap suc (length-push_levels m (parent w w))

  pub length-hasher_of : (height : ℕ) → length (hasher_of parent z height).pre_hash ≡ suc height
  unfolding hasher_of get_pre_hash
  length-hasher_of height = ap suc (length-push_levels height z)

  last?-push_levels :
      (b m : ℕ) (w : A)
      → w ≡ zero_node parent z b
      → last? (w ∷ push_levels parent m w) ≡ some (zero_node parent z (m + b))
  unfolding push_levels last?
  last?-push_levels b zero w e = let n : 0 + b ≡ b = omega arith in rw (n, e) refl
  last?-push_levels b (suc m) w e =
      let n : suc m + b ≡ m + suc b = omega arith in
      let next = ap (λ v. parent v v) e ∙ sym (zero_node-suc parent z b) in
      rw n (last?-push_levels (suc b) m (parent w w) next)

  -- The genesis root is the root of the empty tree.
  pub genesis_root-hasher_of :
      (height : ℕ) → genesis_root (hasher_of parent z height) ≡ some (zero_node parent z height)
  unfolding genesis_root hasher_of get_pre_hash
  genesis_root-hasher_of height =
      let n : height + 0 ≡ height = omega arith in
      rw n at (last?-push_levels 0 height z (sym (zero_node-zero parent z)))
