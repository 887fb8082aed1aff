-- ===== src/Tree/MerkleProof/Laws.antt =====
-- What a Merkle proof of merkle-proof.ts proves: a path of the tree verifies, and, if the hash is
-- injective, no two leaves verify at one position under one root.
use zkopru.Base.{
  ℕ, suc, ◌+◌, ◌-◌, ◌*◌, ◌/◌, ◌%◌, ◌^◌, ◌<◌, ◌≡◌, ap, ◌∙◌, sym, inl, inr, true, List, [], ◌∷◌,
  arith, ◌==◌, Eq, length, Bool-cases,
}
use zkopru.Tree.Hasher.{Hasher}
use zkopru.Tree.Spec.{
  node, node-zero, IsPath, IsInjective, path_siblings, path_siblings-IsPath, length-path_siblings,
  node_left, node_right, sibling_of,
}
use zkopru.Tree.MerkleProof.{MerkleProof, parent_on, merkle_root, verify_proof}
use native.Mathlib.Nat.{two-pow-succ}

module _ {A : Type 0} (h : Hasher A) where
  parent_on-node :
      (f : ℕ → A) (l k : ℕ) (s : A)
      → s ≡ node h.parent_of l (sibling_of k) f
      → parent_on h k (node h.parent_of l k f) s ≡ node h.parent_of (suc l) (k / 2) f
  parent_on-node f l k s e = elim (Bool-cases (k % 2 == 0)) [
    | inl even ↦
        let i : k / 2 * 2 + (1 - k % 2) ≡ k + 1 = ground arith in
        rw (even, e, i) (node_left h.parent_of l k f (ground arith))
    | inr odd ↦
        let i : k / 2 * 2 + (1 - k % 2) ≡ k / 2 * 2 = ground arith in
        rw (odd, e, i) (node_right h.parent_of l k f (ground arith))
  ]

  pub merkle_root_path :
      (f : ℕ → A) (l k : ℕ) (ss : List A)
      → IsPath h.parent_of f l k ss
      → k < 2 ^ length ss
      → merkle_root h k (node h.parent_of l k f) ss ≡ node h.parent_of (l + length ss) 0 f
  unfolding merkle_root
  merkle_root_path f l k [] p b =
      let e : k ≡ 0 = omega arith in let e' : l + 0 ≡ l = omega arith in rw (e, e')
  merkle_root_path f l k (s ∷ ss) p b =
      let e : l + suc (length ss) ≡ suc l + length ss = omega arith in
      rw (parent_on-node f l k s p.0, e)
        (merkle_root_path f (suc l) (k / 2) ss p.1 (omega (arith, two-pow-succ (length ss))))

-- For every position in range of the Merkle tree over some leaves, the proof made of the siblings
-- on the path of the position verifies against the root of the tree.
pub verify_proof-path_siblings :
    {A : Type 0} ⦃e : Eq A⦄ (h : Hasher A) (f : ℕ → A) (depth k : ℕ)
    → k < 2 ^ depth
    → verify_proof h (record {
      root = node h.parent_of depth 0 f;
      index = k;
      leaf = f k;
      siblings = path_siblings h.parent_of f 0 depth k;
    })
      ≡ true
unfolding verify_proof
verify_proof-path_siblings ⦃e⦄ h f depth k b =
    let ss = path_siblings h.parent_of f 0 depth k in
    let n = length-path_siblings h.parent_of f 0 depth k in
    let p = merkle_root_path h f 0 k ss (path_siblings-IsPath h.parent_of f 0 depth k) (rw n b) in
    let l : 0 + length ss ≡ depth = omega (arith, n) in
    (e.beq_iff _ _).1 (
      ap (λ a. merkle_root h k a ss) (sym (node-zero h.parent_of k f))
      ∙ p
      ∙ ap (λ d. node h.parent_of d 0 f) l)

module _ {A : Type 0} (h : Hasher A) (inj : IsInjective h.parent_of) where
  parent_on_inj : (k : ℕ) (a b s t : A) → parent_on h k a s ≡ parent_on h k b t → (a ≡ b) × (s ≡ t)
  parent_on_inj k a b s t e = elim (Bool-cases (k % 2 == 0)) [
    | inl even ↦ inj a s b t (rw even at e)
    | inr odd ↦ let p = inj s a t b (rw odd at e) in (p.1, p.0)
  ]

  pub merkle_root_inj :
      (k : ℕ) (a b : A) (ss ts : List A)
      → length ss ≡ length ts
      → merkle_root h k a ss ≡ merkle_root h k b ts
      → (a ≡ b) × (ss ≡ ts)
  unfolding merkle_root
  merkle_root_inj k a b [] [] n e = (e, cc)
  merkle_root_inj k a b [] (t ∷ ts) n e = absurd (omega arith)
  merkle_root_inj k a b (s ∷ ss) [] n e = absurd (omega arith)
  merkle_root_inj k a b (s ∷ ss) (t ∷ ts) n e =
      let rest = merkle_root_inj (k / 2) _ _ ss ts (omega arith) e in
      let top = parent_on_inj k a b s t rest.0 in (top.0, cc (top.1, rest.1))

-- Under an injective hash two proofs that verify for one root and position, with equally many
-- siblings, have the same leaf and the same siblings: the root commits to the leaf.
pub verify_proof-binding :
    {A : Type 0} ⦃e : Eq A⦄ (h : Hasher A)
    → IsInjective h.parent_of
    → (p q : MerkleProof A) → p.root ≡ q.root
    → p.index ≡ q.index
    → length p.siblings ≡ length q.siblings
    → verify_proof h p ≡ true
    → verify_proof h q ≡ true
    → (p.leaf ≡ q.leaf) × (p.siblings ≡ q.siblings)
unfolding verify_proof
verify_proof-binding ⦃e⦄ h inj p q r i n vp vq =
    let ep = (e.beq_iff _ _).0 vp in
    let eq = (e.beq_iff _ _).0 vq in
    merkle_root_inj h inj p.index p.leaf q.leaf p.siblings q.siblings n
      (ep ∙ r ∙ sym eq ∙ ap (λ j. merkle_root h j q.leaf q.siblings) (sym i))
