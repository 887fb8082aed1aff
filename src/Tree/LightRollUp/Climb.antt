-- ===== src/Tree/LightRollUp/Climb.antt =====
-- The loop over the levels of light-rollup-tree.ts computes the root of the tree with the new
-- leaf, and keeps the left siblings of its path.
use zkopru.Base.{
  ℕ, zero, suc, ◌+◌, ◌*◌, ◌/◌, ◌%◌, ◌^◌, ◌<◌, ◌≡◌, refl, sym, ap, ◌∙◌, ◌⊎◌, inl, inr, some, List,
  [], ◌∷◌, arith, ◌==◌, length, head?, tail, Bool-cases,
}
use zkopru.Base.Bits.{div-pow-suc}
use native.Mathlib.Nat.{two-pow-succ}
use zkopru.Tree.Hasher.{Hasher}
use zkopru.Tree.Spec.{node, zero_node, update, node_left, node_right, node-update_ne, node-empty}
use zkopru.Tree.PreHash.{Covers, Covers-head, Covers-tail}
use zkopru.Tree.LightRollUp.{climb_level, climb}

-- The step from one position to the next, at each level.
pub div-pow-next : (i l : ℕ) → ((i + 1) / 2 ^ l ≡ i / 2 ^ l) ⊎ ((i + 1) / 2 ^ l ≡ i / 2 ^ l + 1)
div-pow-next i zero = inr (omega arith)
div-pow-next i (suc l) =
    let a = div-pow-suc i l in
    let b = div-pow-suc (i + 1) l in
    elim (div-pow-next i l) [ inl e ↦ inl (omega arith) | inr e ↦ ground arith ]

module _ {A : Type 0} (parent : A → A → A) where
  -- What the siblings from the level `l` on must be for the next leaf to go to position `i`.
  abbrev pub Fits : (ℕ → A) → ℕ → ℕ → List A → Type 0
  Fits f l i [] = Unit
  Fits f l i (s ∷ ss) =
      (i / 2 ^ l % 2 ≡ 1 → s ≡ node parent l (i / 2 ^ l / 2 * 2) f) × Fits f (suc l) i ss

  -- The left siblings on the path of position `i`, over `n` levels.
  pub left_siblings : (ℕ → A) → ℕ → ℕ → ℕ → List A
  left_siblings f l i zero = []
  left_siblings f l i (suc n) = node parent l (i / 2 ^ l / 2 * 2) f ∷ left_siblings f (suc l) i n

  pub length-left_siblings : (f : ℕ → A) (l i n : ℕ) → length (left_siblings f l i n) ≡ n
  unfolding left_siblings
  length-left_siblings f l i zero = refl
  length-left_siblings f l i (suc n) = ap suc (length-left_siblings f (suc l) i n)

  -- They fit the next position.
  pub left_siblings-Fits : (f : ℕ → A) (l i n : ℕ) → Fits f l (i + 1) (left_siblings f l i n)
  unfolding left_siblings
  left_siblings-Fits f l i zero = tt
  left_siblings-Fits f l i (suc n) = (
    λ odd.
        let same : i / 2 ^ l / 2 * 2 ≡ (i + 1) / 2 ^ l / 2 * 2 = elim (div-pow-next i l) [
          | inl e ↦ omega arith
          | inr e ↦ omega arith
        ] in
        ap (λ k. node parent l k f) same,
    left_siblings-Fits f (suc l) i n,
  )

module _ {A : Type 0} (h : Hasher A) (z : A) (f : ℕ → A) (i : ℕ) (x : A)
    (empty : (j : ℕ) → i < j → f j ≡ z) where
  abbrev grown : ℕ → A
  grown = update f i x

  grown-empty : (j : ℕ) → i < j → grown j ≡ z
  grown-empty j p = ground (arith, empty j p)

  climb_level_lem :
      (l path : ℕ) (pre : List A) (s : A)
      → path % 2 ≡ i / 2 ^ l % 2
      → head? pre ≡ some (zero_node h.parent_of z l)
      → (i / 2 ^ l % 2 ≡ 1 → s ≡ node h.parent_of l (i / 2 ^ l / 2 * 2) f)
      → climb_level h path pre s (node h.parent_of l (i / 2 ^ l) grown)
        ≡ some (
          node h.parent_of (suc l) (i / 2 ^ l / 2) grown,
          node h.parent_of l (i / 2 ^ l / 2 * 2) grown,
        )
  unfolding climb_level
  climb_level_lem l path pre s parity top fits =
      let k = i / 2 ^ l in
      elim (Bool-cases (path % 2 == 0)) [
        | inl even ↦
            let e : k % 2 ≡ 0 = ground arith in
            let self : k ≡ k / 2 * 2 = omega arith in
            let behind = node-empty h.parent_of z l (k + 1) grown i grown-empty (omega arith) in
            let up =
              ap (h.parent_of (node h.parent_of l k grown)) (sym behind)
              ∙ node_left h.parent_of l k grown e in
            rw (even, top, up)
              (ap (λ j. some (node h.parent_of (suc l) (k / 2) grown, node h.parent_of l j grown))
                self)
        | inr odd ↦
            let e : k % 2 ≡ 1 = ground arith in
            let keeps = node-update_ne h.parent_of l (k / 2 * 2) f i x (omega arith) in
            let old = fits e ∙ sym keeps in rw (odd, old, node_right h.parent_of l k grown e) refl
      ]

  pub climb_lem :
      (l p : ℕ) (pre ss : List A) (v : A)
      → p / 2 ^ l ≡ 2 ^ length ss + i / 2 ^ l
      → i / 2 ^ l < 2 ^ length ss
      → Covers h z l pre (length ss)
      → Fits h.parent_of f l i ss
      → v ≡ node h.parent_of l (i / 2 ^ l) grown
      → climb h p l pre ss v
        ≡ some (
          node h.parent_of (l + length ss) 0 grown,
          left_siblings h.parent_of grown l i (length ss),
        )
  unfolding climb left_siblings
  climb_lem l p pre [] v path small covers fits e =
      let top : i / 2 ^ l ≡ 0 = omega arith in
      let same : l + 0 ≡ l = omega arith in rw (e, top, same) refl
  climb_lem l p pre (s ∷ ss) v path small covers fits e =
      let n = length ss in
      let pow = two-pow-succ n in
      let step =
        climb_level_lem l (p / 2 ^ l) pre s (omega arith) (Covers-head h z l (suc n) pre covers)
          fits.0 in
      let q = div-pow-suc i l in
      let r = div-pow-suc p l in
      let above =
        climb_lem (suc l) p (tail pre) ss (node h.parent_of (suc l) (i / 2 ^ l / 2) grown)
          (omega arith) (omega arith) (Covers-tail h z l n pre covers) fits.1
          (ap (λ k. node h.parent_of (suc l) k grown) (sym q)) in
      let depth : suc l + n ≡ l + suc n = omega arith in rw (e, step, above, depth) refl
