-- ===== src/Tree/LightRollUp/Sound.antt =====
-- What a starting leaf proof proves, if the hash is injective: no leaf stands at its position or
-- behind, and its siblings are those of the tree with this root.
use zkopru.Base.{
  ℕ, zero, suc, ◌+◌, ◌*◌, ◌/◌, ◌%◌, ◌^◌, ◌≤◌, ◌<◌, ◌≡◌, sym, ap, ◌∙◌, ◌⊎◌, inl, inr, true, false,
  some, List, ◌∷◌, arith, ◌==◌, Eq, length, tail, Bool-cases, Option-cases,
}
use zkopru.Base.Bits.{div-pow-suc}
use native.Mathlib.Nat.{two-pow-succ}
use zkopru.Tree.Hasher.{Hasher, hasher_of}
use zkopru.Tree.Spec.{
  node, zero_node, node-zero, sibling_of, IsInjective, path_siblings, path_siblings-IsPath,
  length-path_siblings, node_inj_empty,
}
use zkopru.Tree.PreHash.{Covers, Covers-head, Covers-tail, hasher_of-Covers}
use zkopru.Tree.MerkleProof.{verify_proof, merkle_root, right_siblings_empty, starting_leaf_proof}
use zkopru.Tree.MerkleProof.Laws.{merkle_root_path, merkle_root_inj}
use zkopru.Tree.LightRollUp.{TreeData}
use zkopru.Tree.LightRollUp.Climb.{Fits}
use zkopru.Tree.LightRollUp.Represents.{Represents}

module _ {A : Type 0} ⦃e : Eq A⦄ (h : Hasher A) (z : A) (f : ℕ → A) (i : ℕ) where
  pub path_siblings-Fits :
      (l n : ℕ) → Fits h.parent_of f l i (path_siblings h.parent_of f l n (i / 2 ^ l))
  unfolding path_siblings
  path_siblings-Fits l zero = tt
  path_siblings-Fits l (suc n) = (
    λ odd.
        let same : sibling_of (i / 2 ^ l) ≡ i / 2 ^ l / 2 * 2 = omega arith in
        ap (λ k. node h.parent_of l k f) same,
    rw (div-pow-suc i l) at (path_siblings-Fits (suc l) n),
  )

  -- The check of one level, and that of the levels above it.
  right_check :
      (l n : ℕ) (pre : List A) (s : A) (ss : List A)
      → Covers h z l pre (suc n)
      → right_siblings_empty (i / 2 ^ l) pre (s ∷ ss) ≡ some true
      → (i / 2 ^ l % 2 ≡ 0 → s ≡ zero_node h.parent_of z l)
        × (right_siblings_empty (i / 2 ^ suc l) (tail pre) ss ≡ some true)
  unfolding right_siblings_empty
  right_check l n pre s ss covers passed =
      let top = Covers-head h z l (suc n) pre covers in
      let q = div-pow-suc i l in
      elim (Bool-cases (i / 2 ^ l % 2 == 0)) [
        | inl even ↦
            let passed' = rw (even, top) at passed in
            elim (Bool-cases (e.beq s (zero_node h.parent_of z l))) [
              | inl same ↦ (λ _. (e.beq_iff _ _).0 same, rw q (rw same at passed'))
              | inr other ↦ let no_pass = rw other at passed' in cc
            ]
        | inr odd ↦ (λ p. absurd (ground arith), rw q (rw odd at passed))
      ]

  -- A position behind `i` lies in a subtree that some level checks.
  right_siblings_empty_sound :
      IsInjective h.parent_of
      → (l n : ℕ) (pre : List A) → Covers h z l pre n
      → right_siblings_empty (i / 2 ^ l) pre (path_siblings h.parent_of f l n (i / 2 ^ l))
        ≡ some true
      → (j : ℕ) → i / 2 ^ l < j / 2 ^ l
      → j / 2 ^ l < 2 ^ n
      → f j ≡ z
  unfolding path_siblings
  right_siblings_empty_sound inj l zero pre covers passed j behind small = absurd (omega arith)
  right_siblings_empty_sound inj l (suc n) pre covers passed j behind small =
      let k = i / 2 ^ l in
      let m = j / 2 ^ l in
      let qi = div-pow-suc i l in
      let qj = div-pow-suc j l in
      let (here, above) = right_check l n pre _ _ covers passed in
      let pow = two-pow-succ n in
      let apart : (k / 2 ≡ m / 2) ⊎ (k / 2 < m / 2) = omega arith in
      elim apart [
        | inl same ↦
            node_inj_empty h.parent_of inj z l (sibling_of k) f (here (omega arith)) j (omega arith)
        | inr further ↦
            right_siblings_empty_sound inj (suc l) n (tail pre) (Covers-tail h z l n pre covers)
              (rw (← qi) at above) j (omega arith) (omega arith)
      ]

starting_leaf_proof_parts :
    {A : Type 0} ⦃e : Eq A⦄ (parent : A → A → A) (z : A) (height : ℕ) (d : TreeData A)
    → let h = hasher_of parent z height in
      starting_leaf_proof h d.root d.index d.siblings ≡ some true
      → (right_siblings_empty d.index h.pre_hash d.siblings ≡ some true)
        × (merkle_root h d.index z d.siblings ≡ d.root)
unfolding starting_leaf_proof hasher_of verify_proof
starting_leaf_proof_parts ⦃e⦄ parent z height d passed =
    let h = hasher_of parent z height in
    elim (Option-cases (right_siblings_empty d.index h.pre_hash d.siblings)) [
      | inl n ↦ let no_pass = rw n at passed in cc
      | inr (true, n) ↦
          let got = rw n at passed in
          let same : e.beq (merkle_root h d.index z d.siblings) d.root ≡ true = cc in
          (n, (e.beq_iff _ _).0 same)
      | inr (false, n) ↦ let no_pass = rw n at passed in cc
    ]

-- Under an injective hash with enough prehashed levels, when the root of the data is that of the
-- Merkle tree over some leaves, of which those beyond the depth are empty, when there is a sibling
-- for each level and the index is in range, and when `startingLeafProof` accepts root, index and
-- siblings, then the data stand for this tree: every leaf from the index on is empty, and the
-- siblings are the ones that the next append needs.
pub starting_leaf_proof-Represents :
    {A : Type 0} ⦃e : Eq A⦄ (parent : A → A → A) (z : A) (height depth : ℕ) (f : ℕ → A)
    (d : TreeData A)
    → IsInjective parent
    → depth ≤ height
    → length d.siblings ≡ depth
    → d.index < 2 ^ depth
    → ((j : ℕ) → 2 ^ depth ≤ j → f j ≡ z)
    → d.root ≡ node parent depth 0 f
    → starting_leaf_proof (hasher_of parent z height) d.root d.index d.siblings ≡ some true
    → Represents parent z depth f d
unfolding starting_leaf_proof hasher_of
starting_leaf_proof-Represents {A} ⦃e⦄ parent z height depth f d inj enough len room outside root
      passed =
    let h = hasher_of parent z height in
    let i = d.index in
    let self : i / 2 ^ 0 ≡ i = omega arith in
    let paths = path_siblings parent f 0 depth i in
    let long = length-path_siblings parent f 0 depth i in
    let (right, reached) = starting_leaf_proof_parts parent z height d passed in
    let climbed =
      merkle_root_path h f 0 i paths (path_siblings-IsPath parent f 0 depth i) (rw long room) in
    let up : 0 + length paths ≡ depth = omega (arith, long) in
    let top = ap (λ k. node parent k 0 f) up in
    let (leaf, same) =
      merkle_root_inj h inj i z (node parent 0 i f) d.siblings paths (len ∙ sym long)
        (reached ∙ root ∙ sym top ∙ sym climbed) in
    let covers = hasher_of-Covers parent z height depth enough in
    let right' = rw (same, ← self) at right in
    let position : (j : ℕ) → i ≤ j → (j ≡ i) ⊎ (((i < j) × (j < 2 ^ depth)) ⊎ (2 ^ depth ≤ j)) =
      λ j p. grind arith in
    record {
      root = root;
      levels = len;
      empty = λ j p. elim (position j p) [
        | inl here ↦ ap f here ∙ sym (node-zero parent i f) ∙ sym leaf
        | inr (inl (behind, inside)) ↦
            right_siblings_empty_sound h z f i inj 0 depth h.pre_hash covers right' j (omega arith)
              (omega arith)
        | inr (inr beyond) ↦ outside j beyond
      ];
      fits = rw (same) (rw self at (path_siblings-Fits h z f i 0 depth));
    }
