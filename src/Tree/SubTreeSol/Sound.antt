-- ===== src/Tree/SubTreeSol/Sound.antt =====
-- `appendAsSubTrees` of merkle-tree-sol.ts computes the root of the tree with the leaves put behind the
-- old ones, which is the root that the light tree has after their append.
use zkopru.Base.{
  ℕ, zero, suc, ◌+◌, ◌*◌, ◌/◌, ◌%◌, ◌^◌, ◌≤◌, ◌<◌, ◌≡◌, refl, sym, ap, ◌∙◌, inl, inr, true, false,
  some, Eq, List, [], ◌∷◌, arith, ◌==◌, ==_iff, Option-cases, length, tail, drop, get_or,
}
use zkopru.Base.Bits.{pow_pos}
use mathlib.Core.Option.{some-injective, none-ne-some}
use native.Mathlib.Nat.{
  mul-div_left, div-lt_iff_lt-mul, le-div_iff_mul-le, add-mul, mul-add, mul_comm, div-add-mod,
  two-pow-succ,
}
use zkopru.Tree.Hasher.{Hasher, hasher_of, get_pre_hash}
use zkopru.Tree.Spec.{node, zero_node, IsInjective}
use zkopru.Tree.PreHash.{
  Covers, Covers-tail, hasher_of-Covers, get_elem?-hasher_of, length-hasher_of,
}
use zkopru.Tree.SolRoot.{sol_merkle_root, sol_merkle_root_sound}
use zkopru.Tree.LightRollUp.{TreeData}
use zkopru.Tree.LightRollUp.Represents.{grow}
use zkopru.Tree.Grove.Padding.{grow-empty}
use zkopru.Tree.SubTreeSol.{
  append_sub_tree, append_sub_trees, split_groups, num_of_sub_trees, split_to_sub_trees,
  siblings_fit, empty_sub_tree_proof, append_as_sub_trees,
}
use zkopru.Tree.SubTreeSol.Floors.{sub_tree_root_full}
use zkopru.Tree.SubTreeSol.Climbs.{
  node_shift, FitsAt, left_at, length-left_at, left_at-FitsAt_next, path_siblings-FitsAt,
  sub_tree_levels_lem,
}
use zkopru.Tree.SubTreeSol.Groups.{
  first_group, length-first_group, grow-first_group, grow-before, grow-at, length-drop,
  num_of_sub_trees-covers,
}

pow-add : (k n : ℕ) → 2 ^ (k + n) ≡ 2 ^ n * 2 ^ k
pow-add zero n =
    let same : 0 + n ≡ n = omega arith in
    let one : 2 ^ n * 2 ^ 0 ≡ 2 ^ n = omega arith in ap (λ m. 2 ^ m) same ∙ sym one
pow-add (suc k) n =
    let same : suc k + n ≡ suc (k + n) = omega arith in
    let up = ap (λ m. 2 ^ m) same in
    omega (
      arith,
      two-pow-succ (k + n),
      pow-add k n,
      two-pow-succ k,
      ap (λ m. 2 ^ n * m) (two-pow-succ k),
      mul-add (2 ^ n) (2 ^ k) (2 ^ k),
    )

drop-tail : {A : Type 0} (k : ℕ) (xs : List A) → drop (suc k) xs ≡ drop k (tail xs)
drop-tail zero [] = refl
drop-tail (suc k) [] = refl
drop-tail k (x ∷ xs) = refl

module _ {A : Type 0} (parent : A → A → A) (z : A) (k n : ℕ) where
  abbrev hashes : Hasher A
  hashes = hasher_of parent z (k + n)

  drop-Covers :
      (m l : ℕ) (pre : List A)
      → Covers hashes z l pre (m + n)
      → Covers hashes z (l + m) (drop m pre) n
  drop-Covers zero l pre covers =
      let same : 0 + n ≡ n = omega arith in
      let at : l + 0 ≡ l = omega arith in rw at (rw same at covers)
  drop-Covers (suc m) l pre covers =
      let same : suc m + n ≡ suc (m + n) = omega arith in
      let at : l + suc m ≡ suc l + m = omega arith in
      rw (at, drop-tail m pre)
        (drop-Covers m (suc l) (tail pre) (Covers-tail hashes z l (m + n) pre (rw same at covers)))

  -- The tree over `f` from the node `p` of level `k` on: its root, and the siblings of this node.
  record At (f : ℕ → A) (p : ℕ) (d : TreeData A) : Type 0 where
    root : d.root ≡ node parent (k + n) 0 f
    index : d.index ≡ p * 2 ^ k
    levels : length d.siblings ≡ n
    fits : FitsAt parent f k p d.siblings
    empty : (j : ℕ) → d.index ≤ j → f j ≡ z

  append_sub_tree_lem :
      (f : ℕ → A) (p : ℕ) (group : List A) (d : TreeData A)
      → p < 2 ^ n
      → length group ≡ 2 ^ k
      → At f p d
      → (d' : TreeData A) × (append_sub_tree hashes k group d ≡ some d')
        × (d'.index ≡ d.index + 2 ^ k)
        × At (grow f d.index group) (p + 1) d'
  unfolding append_sub_tree hasher_of
  append_sub_tree_lem f p group d room full at =
      let g = grow f d.index group in
      let pos : 0 < 2 ^ k = omega (arith, pow_pos k) in
      let path : d.index / 2 ^ k ≡ p = ap (λ i. i / 2 ^ k) at.index ∙ mul-div_left p pos in
      let ss = d.siblings in
      let top : Covers hashes z (0 + k) (drop k (hashes.pre_hash)) n =
        drop-Covers k 0 (hashes.pre_hash)
          (hasher_of-Covers parent z (k + n) (k + n) (omega arith)) in
      let covers : Covers hashes z k (drop k (hashes.pre_hash)) (length ss) =
        let zero_k : 0 + k ≡ k = omega arith in rw at.levels (rw zero_k at top) in
      let before : (j : ℕ) → j / 2 ^ k < p → j < d.index =
        λ j q. omega (arith, (div-lt_iff_lt-mul pos).0 q, at.index) in
      let zero_p : 0 + p ≡ p = omega arith in
      let start : node parent k 0 (λ i. get_or group i z) ≡ node parent k p g =
        node_shift parent k 0 p d.index (λ i. get_or group i z) g at.index
          (λ j e.
            let small : j < 1 * 2 ^ k = (div-lt_iff_lt-mul pos).0 (omega arith) in
            sym (grow-at f d.index group j z (omega arith)))
        ∙ ap (λ q. node parent k q g) zero_p in
      let next = add-mul p 1 (2 ^ k) in
      let climbed =
        sub_tree_levels_lem hashes z f g k p (drop k (hashes.pre_hash)) ss _ (rw at.levels room)
          covers at.fits (λ j q. sym (grow-before f d.index group j (before j q)))
          (λ j q.
            let far : (p + 1) * 2 ^ k ≤ j = (le-div_iff_mul-le pos).0 (omega arith) in
            grow-empty z f d.index group at.empty j (omega (arith, at.index)))
          start in
      let made = sub_tree_root_full hashes z k group full in
      let d' : TreeData A = record {
        root = node parent (k + n) 0 g;
        index = d.index + 2 ^ k;
        siblings = left_at parent g k p n;
      } in
      (
        d',
        rw (path, made, climbed, at.levels) refl,
        refl,
        record {
          root = refl;
          index = omega (arith, at.index);
          levels = length-left_at parent g k p n;
          fits = left_at-FitsAt_next parent g k p n;
          empty = λ j q. grow-empty z f d.index group at.empty j (omega arith);
        },
      )

  append_sub_trees_lem :
      (m : ℕ) (f : ℕ → A) (p : ℕ) (leaves : List A) (d : TreeData A)
      → p + m ≤ 2 ^ n
      → length leaves ≤ m * 2 ^ k
      → At f p d
      → (d' : TreeData A) × (append_sub_trees hashes k (split_groups z (2 ^ k) m leaves) d
          ≡ some d')
        × (d'.root ≡ node parent (k + n) 0 (grow f d.index leaves))
  unfolding append_sub_trees split_groups
  append_sub_trees_lem zero f p [] d room few at = (d, refl, at.root)
  append_sub_trees_lem zero f p (x ∷ xs) d room few at = absurd (omega arith)
  append_sub_trees_lem (suc m) f p leaves d room few at =
      let size = 2 ^ k in
      let group = first_group z size leaves in
      let (d1, ran, index, at1) =
        append_sub_tree_lem f p group d (omega arith) (length-first_group z size leaves) at in
      let left = length-drop size leaves in
      let more = add-mul m 1 size in
      let count : suc m * size ≡ (m + 1) * size =
        let same : suc m ≡ m + 1 = omega arith in ap (λ c. c * size) same in
      let (d2, ran', root) =
        append_sub_trees_lem m (grow f d.index group) (p + 1) (drop size leaves) d1 (omega arith)
          (omega arith) at1 in
      (
        d2,
        rw ran ran',
        root
            ∙ ap (λ i. node parent (k + n) 0 (grow (grow f d.index group) i (drop size leaves)))
                index
            ∙ ap (node parent (k + n) 0) (grow-first_group z size f d.index leaves at.empty),
      )

  -- An accepted proof has the siblings of the tree.
  empty_sub_tree_proof-FitsAt :
      IsInjective parent
      → (f : ℕ → A) (p : ℕ) (d : TreeData A) ⦃e : Eq A⦄ → p < 2 ^ n
      → d.index / 2 ^ k ≡ p
      → length d.siblings ≡ n
      → d.root ≡ node parent (k + n) 0 f
      → empty_sub_tree_proof hashes k d ≡ some true
      → FitsAt parent f k p d.siblings
  unfolding empty_sub_tree_proof hasher_of
  empty_sub_tree_proof-FitsAt inj f p d ⦃e⦄ room path len root passed =
      let ss = d.siblings in
      let empty = get_elem?-hasher_of parent z (k + n) k (omega arith) in
      let fit = siblings_fit (d.index / 2 ^ k) (drop k (hashes.pre_hash)) ss in
      let reached = sol_merkle_root hashes (zero_node parent z k) (d.index / 2 ^ k) ss in
      elim (Option-cases fit) [
        | inl ran ↦ absurd (none-ne-some _ (rw ran at passed))
        | inr (false, ran) ↦ let never = some-injective _ _ (rw ran at passed) in cc
        | inr (true, ran) ↦
            let same : e.beq reached d.root ≡ true =
              some-injective _ _ (rw empty at (rw ran at passed)) in
            let (leaf, sibs) =
              sol_merkle_root_sound hashes inj f k n p (zero_node parent z k) ss room len (
                ap (λ q. sol_merkle_root hashes (zero_node parent z k) q ss) (sym path)
                ∙ (e.beq_iff _ _).0 same
                ∙ root) in
            rw sibs (path_siblings-FitsAt parent f k n p)
      ]

  pub append_as_sub_trees_sound :
      IsInjective parent
      → (f : ℕ → A) (leaves : List A) (d : TreeData A) ⦃e : Eq A⦄ → d.root ≡ node parent (k + n) 0 f
      → length d.siblings ≡ n
      → d.index % 2 ^ k ≡ 0
      → d.index < 2 ^ (k + n)
      → d.index + num_of_sub_trees (2 ^ k) (length leaves) * 2 ^ k ≤ 2 ^ (k + n)
      → ((j : ℕ) → d.index ≤ j → f j ≡ z)
      → empty_sub_tree_proof hashes k d ≡ some true
      → append_as_sub_trees hashes k leaves d ≡ some (node parent (k + n) 0 (grow f d.index leaves))
  unfolding append_as_sub_trees split_to_sub_trees hasher_of get_pre_hash
  append_as_sub_trees_sound inj f leaves d root len whole small room empty passed =
      let size = 2 ^ k in
      let m = num_of_sub_trees size (length leaves) in
      let p = d.index / size in
      let pos : 0 < size = omega (arith, pow_pos k) in
      let product = pow-add k n in
      let parts = div-add-mod d.index size in
      let index : d.index ≡ p * size = omega (arith, mul_comm size p) in
      let path : p < 2 ^ n = (div-lt_iff_lt-mul pos).1 (omega arith) in
      let groups = add-mul p m size in
      let all : p + m ≤ 2 ^ n =
        let within : p + m ≤ 2 ^ n * size / size = (le-div_iff_mul-le pos).1 (omega arith) in
        omega (arith, mul-div_left (2 ^ n) pos) in
      let fits = empty_sub_tree_proof-FitsAt inj f p d path refl len root passed in
      let (d', ran, top) =
        append_sub_trees_lem m f p leaves d all (num_of_sub_trees-covers size (length leaves) pos)
          (record { root = root; index = index; levels = len; fits = fits; empty = empty }) in
      let aligned : (d.index % size == 0) ≡ true = (==_iff _ _).1 whole in
      let count : (length (hashes.pre_hash) == k + length d.siblings + 1) ≡ true =
        (==_iff _ _).1 (omega (arith, length-hasher_of parent z (k + n))) in
      rw (aligned, count, passed, ran) (ap some top)
