-- ===== src/Tree/LightRollUp/Bootstrap.antt =====
-- The starting leaf proof, with which a light tree is handed over: a tree in use gives one that
-- verifies, and, under an injective hash, one that verifies is the data of the tree with this root.
use zkopru.Base.{
  ℕ, zero, suc, ◌*◌, ◌/◌, ◌%◌, ◌^◌, ◌≤◌, ◌<◌, ◌≡◌, refl, ap, ◌∙◌, inl, inr, true, some, List, [],
  ◌∷◌, arith, ◌==◌, Eq, beq_refl, length, tail, Bool-cases,
}
use zkopru.Base.Bits.{div-pow-suc}
use zkopru.Tree.Hasher.{Hasher, hasher_of}
use zkopru.Tree.Spec.{node, zero_node, sibling_of, path_siblings, node-empty}
use zkopru.Tree.MerkleProof.{verify_proof, right_siblings_empty, starting_leaf_proof}
use zkopru.Tree.MerkleProof.Laws.{verify_proof-path_siblings}
use zkopru.Tree.PreHash.{Covers, Covers-head, Covers-tail, hasher_of-Covers}
use zkopru.Tree.LightRollUp.{
  TreeData, LightRollUpTree, latest_leaf_index, starting_siblings, get_starting_leaf_proof,
}
use zkopru.Tree.LightRollUp.Climb.{Fits}
use zkopru.Tree.LightRollUp.Represents.{Represents}

module _ {A : Type 0} (h : Hasher A) (z : A) (f : ℕ → A) (i : ℕ)
    (empty : (j : ℕ) → i < j → f j ≡ z) where
  -- On an even path the other child is the root of an empty tree.
  right_empty :
      (l : ℕ)
      → i / 2 ^ l % 2 ≡ 0
      → node h.parent_of l (sibling_of (i / 2 ^ l)) f ≡ zero_node h.parent_of z l
  right_empty l even = node-empty h.parent_of z l (sibling_of (i / 2 ^ l)) f i empty (omega arith)

  starting_siblings_lem :
      (l : ℕ) (pre ss : List A)
      → Covers h z l pre (length ss)
      → Fits h.parent_of f l i ss
      → starting_siblings (i / 2 ^ l) pre ss
        ≡ some (path_siblings h.parent_of f l (length ss) (i / 2 ^ l))
  unfolding starting_siblings path_siblings
  starting_siblings_lem l pre [] covers fits = refl
  starting_siblings_lem l pre (s ∷ ss) covers fits =
      let k = i / 2 ^ l in
      let above = rw (div-pow-suc i l) at (
        starting_siblings_lem (suc l) (tail pre) ss (Covers-tail h z l (length ss) pre covers)
          fits.1) in
      let top = Covers-head h z l (suc (length ss)) pre covers in
      elim (Bool-cases (k % 2 == 0)) [
        | inl even ↦ rw (even, top, above, right_empty l (ground arith)) refl
        | inr odd ↦
            let e : k % 2 ≡ 1 = ground arith in
            let same : k / 2 * 2 ≡ sibling_of k = ground arith in
            rw (odd, above)
              (ap (λ w. some (w ∷ path_siblings h.parent_of f (suc l) (length ss) (k / 2)))
                (fits.0 e ∙ ap (λ j. node h.parent_of l j f) same))
      ]

module _ {A : Type 0} ⦃e : Eq A⦄ (h : Hasher A) (z : A) (f : ℕ → A) (i : ℕ)
    (empty : (j : ℕ) → i < j → f j ≡ z) where
  right_siblings_empty_lem :
      (l n : ℕ) (pre : List A)
      → Covers h z l pre n
      → right_siblings_empty (i / 2 ^ l) pre (path_siblings h.parent_of f l n (i / 2 ^ l))
        ≡ some true
  unfolding right_siblings_empty path_siblings
  right_siblings_empty_lem l zero pre covers = refl
  right_siblings_empty_lem l (suc n) pre covers =
      let k = i / 2 ^ l in
      let above =
        rw (div-pow-suc i l) at
          (right_siblings_empty_lem (suc l) n (tail pre) (Covers-tail h z l n pre covers)) in
      let top = Covers-head h z l (suc n) pre covers in
      elim (Bool-cases (k % 2 == 0)) [
        | inl even ↦
            let same = right_empty h z f i empty l (ground arith) in
            rw (even, top, same, beq_refl (zero_node h.parent_of z l)) above
        | inr odd ↦ rw odd above
      ]

-- The data of the proof that a tree over the leaves `f` gives.
abbrev pub own_proof : {A : Type 0} → (A → A → A) → LightRollUpTree A → (ℕ → A) → TreeData A
own_proof parent t f = record {
  root = t.data_of.root;
  index = t.data_of.index;
  siblings = path_siblings parent f 0 t.depth t.data_of.index;
}

pub get_starting_leaf_proof_lem :
    {A : Type 0} ⦃e : Eq A⦄ (parent : A → A → A) (z : A) (height : ℕ) (t : LightRollUpTree A)
    (f : ℕ → A)
    → t.config.hasher ≡ hasher_of parent z height
    → t.depth ≤ height
    → latest_leaf_index t < 2 ^ t.depth
    → Represents parent z t.depth f t.data_of
    → let d = own_proof parent t f in
      (get_starting_leaf_proof t ≡ some d)
      × (starting_leaf_proof t.config.hasher d.root d.index d.siblings ≡ some true)
unfolding get_starting_leaf_proof starting_leaf_proof latest_leaf_index hasher_of
get_starting_leaf_proof_lem {A} ⦃e⦄ parent z height t f hasher enough room rep =
    let h = hasher_of parent z height in
    let i = t.data_of.index in
    let empty : (j : ℕ) → i < j → f j ≡ z = λ j p. rep.empty j (omega arith) in
    let d = own_proof parent t f in
    let self : i / 2 ^ 0 ≡ i = omega arith in
    let n = length t.data_of.siblings in
    let covers = hasher_of-Covers parent z height n (omega (arith, rep.levels)) in
    let sibs : starting_siblings i h.pre_hash t.data_of.siblings ≡ some d.siblings =
      rw (self, rep.levels) at
        (starting_siblings_lem h z f i empty 0 h.pre_hash t.data_of.siblings covers rep.fits) in
    let right : right_siblings_empty i h.pre_hash d.siblings ≡ some true =
      rw (self, rep.levels) at (right_siblings_empty_lem h z f i empty 0 n h.pre_hash covers) in
    let leaf = rep.empty i (omega arith) in
    let whole : verify_proof h
          (record { root = d.root; index = i; leaf = z; siblings = d.siblings })
        ≡ true =
      rw rep.root (rw leaf at (verify_proof-path_siblings h f t.depth i room)) in
    (rw (hasher, sibs) refl, rw (hasher, right, whole) refl)

-- On a tree whose hasher is made from a hash and a zero value with at least as many prehashed
-- levels as the tree has, that is not full, and whose data stand for the Merkle tree over some
-- leaves, `getStartingLeafProof` does not throw, and `startingLeafProof` accepts what it returns.
pub get_starting_leaf_proof-verifies :
    {A : Type 0} ⦃e : Eq A⦄ (parent : A → A → A) (z : A) (height : ℕ) (t : LightRollUpTree A)
    (f : ℕ → A)
    → t.config.hasher ≡ hasher_of parent z height
    → t.depth ≤ height
    → latest_leaf_index t < 2 ^ t.depth
    → Represents parent z t.depth f t.data_of
    → (d : TreeData A) × (get_starting_leaf_proof t ≡ some d)
      × (starting_leaf_proof t.config.hasher d.root d.index d.siblings ≡ some true)
get_starting_leaf_proof-verifies parent z height t f hasher enough room rep =
    let (gave, passes) = get_starting_leaf_proof_lem parent z height t f hasher enough room rep in
    (own_proof parent t f, gave, passes)
