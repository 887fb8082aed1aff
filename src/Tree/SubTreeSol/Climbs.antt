-- ===== src/Tree/SubTreeSol/Climbs.antt =====
-- The climb of `appendSubTree` of merkle-tree-sol.ts from the root of a sub tree to that of the tree:
-- `f` are the leaves before, `g` those after.
use zkopru.Base.{
  ℕ, zero, suc, ◌+◌, ◌*◌, ◌/◌, ◌%◌, ◌^◌, ◌<◌, ◌≡◌, refl, sym, ap, ◌∙◌, inl, inr, some, List, [],
  ◌∷◌, arith, ◌==◌, length, tail, Bool-cases,
}
use zkopru.Base.Bits.{div-pow-suc}
use native.Mathlib.Nat.{two-pow-succ, mul_assoc}
use zkopru.Tree.Hasher.{Hasher}
use zkopru.Tree.Spec.{node, node_left, node_right, node-constant, sibling_of, path_siblings}
use zkopru.Tree.PreHash.{Covers, Covers-head, Covers-tail}
use zkopru.Tree.SubTreeSol.{sub_tree_level, sub_tree_levels}

module _ {A : Type 0} (parent : A → A → A) where
  -- A node depends on the leaves below it only.
  pub node_agree :
      (l k : ℕ) (f g : ℕ → A)
      → ((j : ℕ) → j / 2 ^ l ≡ k → f j ≡ g j)
      → node parent l k f ≡ node parent l k g
  unfolding node
  node_agree zero k f g same = same k (omega arith)
  node_agree (suc l) k f g same =
      let left =
        node_agree l (k * 2) f g (λ j e. let q = div-pow-suc j l in same j (omega arith)) in
      let right =
        node_agree l (k * 2 + 1) f g (λ j e. let q = div-pow-suc j l in same j (omega arith)) in
      λ i. parent (left i) (right i)

  -- The node of a sub tree is the root of the tree over its leaves.
  pub node_shift :
      (l q c o : ℕ) (f g : ℕ → A)
      → o ≡ c * 2 ^ l
      → ((j : ℕ) → j / 2 ^ l ≡ q → f j ≡ g (j + o))
      → node parent l q f ≡ node parent l (q + c) g
  unfolding node
  node_shift zero q c o f g offset same =
      let at : q + o ≡ q + c = omega arith in same q (omega arith) ∙ ap g at
  node_shift (suc l) q c o f g offset same =
      let pow = two-pow-succ l in
      let pow2 : 2 ^ suc l ≡ 2 * 2 ^ l = omega arith in
      let twice : o ≡ c * 2 * 2 ^ l = offset ∙ ap (λ m. c * m) pow2 ∙ sym (mul_assoc c 2 (2 ^ l)) in
      let first : q * 2 + c * 2 ≡ (q + c) * 2 = omega arith in
      let second : q * 2 + 1 + c * 2 ≡ (q + c) * 2 + 1 = omega arith in
      let left =
        node_shift l (q * 2) (c * 2) o f g twice
          (λ j e. let d = div-pow-suc j l in same j (omega arith))
        ∙ ap (λ k. node parent l k g) first in
      let right =
        node_shift l (q * 2 + 1) (c * 2) o f g twice
          (λ j e. let d = div-pow-suc j l in same j (omega arith))
        ∙ ap (λ k. node parent l k g) second in
      λ i. parent (left i) (right i)

  -- On an odd path the sibling is the left child.
  abbrev pub FitsAt : (ℕ → A) → ℕ → ℕ → List A → Type 0
  FitsAt f l p [] = Unit
  FitsAt f l p (s ∷ ss) =
      (p % 2 ≡ 1 → s ≡ node parent l (p / 2 * 2) f) × FitsAt f (suc l) (p / 2) ss

  pub path_siblings-FitsAt : (f : ℕ → A) (l n p : ℕ) → FitsAt f l p (path_siblings parent f l n p)
  unfolding path_siblings
  path_siblings-FitsAt f l zero p = tt
  path_siblings-FitsAt f l (suc n) p = (
    λ odd. let same : sibling_of p ≡ p / 2 * 2 = omega arith in ap (λ k. node parent l k f) same,
    path_siblings-FitsAt f (suc l) n (p / 2),
  )

  -- The left children on the path of the node `p`.
  abbrev pub left_at : (ℕ → A) → ℕ → ℕ → ℕ → List A
  left_at f l p zero = []
  left_at f l p (suc n) = node parent l (p / 2 * 2) f ∷ left_at f (suc l) (p / 2) n

  pub length-left_at : (f : ℕ → A) (l p n : ℕ) → length (left_at f l p n) ≡ n
  length-left_at f l p zero = refl
  length-left_at f l p (suc n) = ap suc (length-left_at f (suc l) (p / 2) n)

  -- They fit the path itself, and that of the next node.
  left_at-FitsAt : (f : ℕ → A) (l p n : ℕ) → FitsAt f l p (left_at f l p n)
  left_at-FitsAt f l p zero = tt
  left_at-FitsAt f l p (suc n) = (λ odd. refl, left_at-FitsAt f (suc l) (p / 2) n)

  pub left_at-FitsAt_next : (f : ℕ → A) (l p n : ℕ) → FitsAt f l (p + 1) (left_at f l p n)
  left_at-FitsAt_next f l p zero = tt
  left_at-FitsAt_next f l p (suc n) = elim (Bool-cases (p % 2 == 0)) [
    | inl even ↦
        let half : (p + 1) / 2 ≡ p / 2 = ground arith in
        (
          λ odd. ap (λ k. node parent l (k * 2) f) (sym half),
          rw half (left_at-FitsAt f (suc l) (p / 2) n),
        )
    | inr odd ↦
        let half : (p + 1) / 2 ≡ p / 2 + 1 = ground arith in
        (λ e. absurd (ground arith), rw half (left_at-FitsAt_next f (suc l) (p / 2) n))
  ]

module _ {A : Type 0} (h : Hasher A) (z : A) (f g : ℕ → A) where
  sub_tree_level_lem :
      (l p : ℕ) (pre : List A) (s : A) (n : ℕ)
      → Covers h z l pre (suc n)
      → (p % 2 ≡ 1 → s ≡ node h.parent_of l (p / 2 * 2) f)
      → ((j : ℕ) → j / 2 ^ l < p → f j ≡ g j)
      → ((j : ℕ) → p < j / 2 ^ l → g j ≡ z)
      → sub_tree_level h (p % 2 == 0) pre s (node h.parent_of l p g)
        ≡ some (node h.parent_of (suc l) (p / 2) g, node h.parent_of l (p / 2 * 2) g)
  unfolding sub_tree_level
  sub_tree_level_lem l p pre s n covers fits kept fresh = elim (Bool-cases (p % 2 == 0)) [
    | inl even ↦
        let e : p % 2 ≡ 0 = ground arith in
        let self : p ≡ p / 2 * 2 = omega arith in
        let top = Covers-head h z l (suc n) pre covers in
        let behind =
          node_agree h.parent_of l (p + 1) g (λ _. z) (λ j q. fresh j (omega arith))
          ∙ node-constant h.parent_of z l (p + 1) in
        let up =
          ap (h.parent_of (node h.parent_of l p g)) (sym behind) ∙ node_left h.parent_of l p g e in
        rw (even, top, up)
          (ap (λ k. some (node h.parent_of (suc l) (p / 2) g, node h.parent_of l k g)) self)
    | inr odd ↦
        let e : p % 2 ≡ 1 = ground arith in
        let old = fits e ∙ node_agree h.parent_of l (p / 2 * 2) f g (λ j q. kept j (omega arith)) in
        rw (odd, old, node_right h.parent_of l p g e) refl
  ]

  pub sub_tree_levels_lem :
      (l p : ℕ) (pre ss : List A) (v : A)
      → p < 2 ^ length ss
      → Covers h z l pre (length ss)
      → FitsAt h.parent_of f l p ss
      → ((j : ℕ) → j / 2 ^ l < p → f j ≡ g j)
      → ((j : ℕ) → p < j / 2 ^ l → g j ≡ z)
      → v ≡ node h.parent_of l p g
      → sub_tree_levels h p pre ss v
        ≡ some (node h.parent_of (l + length ss) 0 g, left_at h.parent_of g l p (length ss))
  unfolding sub_tree_levels
  sub_tree_levels_lem l p pre [] v small covers fits kept fresh e =
      let top : p ≡ 0 = omega arith in let same : l + 0 ≡ l = omega arith in rw (e, top, same) refl
  sub_tree_levels_lem l p pre (s ∷ ss) v small covers fits kept fresh e =
      let n = length ss in
      let pow = two-pow-succ n in
      let step = sub_tree_level_lem l p pre s n covers fits.0 kept fresh in
      let above =
        sub_tree_levels_lem (suc l) (p / 2) (tail pre) ss (node h.parent_of (suc l) (p / 2) g)
          (omega arith) (Covers-tail h z l n pre covers) fits.1
          (λ j q. let d = div-pow-suc j l in kept j (omega arith))
          (λ j q. let d = div-pow-suc j l in fresh j (omega arith)) refl in
      let depth : suc l + n ≡ l + suc n = omega arith in rw (e, step, above, depth) refl
