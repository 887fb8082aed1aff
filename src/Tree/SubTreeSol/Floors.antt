-- ===== src/Tree/SubTreeSol/Floors.antt =====
-- `subTreeRoot` of merkle-tree-sol.ts, for a full sub tree and for one that is not full.
use zkopru.Base.{
  ℕ, zero, suc, ◌+◌, ◌-◌, ◌*◌, ◌/◌, ◌^◌, ◌≤◌, ◌<◌, ◌≡◌, refl, sym, ap, ◌∙◌, Option, none, some,
  true, false, List, [], ◌∷◌, arith, position, Option-cases, inl, inr, length, get_elem?, get_or,
  leb, le→leb, ==_iff, ◌==◌,
}
use zkopru.Base.Bits.{div-pow-suc}
use native.Mathlib.Nat.{two-pow-succ}
use zkopru.Tree.Hasher.{Hasher}
use zkopru.Tree.Spec.{node, node-zero}
use zkopru.Tree.SubTreeSol.{NodeArray, store, node_value, fill_floor, fill_floors, sub_tree_root}

get_elem?-get_or :
    {A : Type 0} (xs : List A) (i : ℕ) (z : A)
    → i < length xs
    → get_elem? xs i ≡ some (get_or xs i z)
get_elem?-get_or [] i z h = absurd (omega arith)
get_elem?-get_or (x ∷ xs) zero z h = refl
get_elem?-get_or (x ∷ xs) (suc i) z h = get_elem?-get_or xs i z (omega arith)

module _ {A : Type 0} (h : Hasher A) (leaves : List A) (tree_size : ℕ) where
  -- A floor whose rounds do not throw.
  pub fill_floor_lem :
      (level empty_node left : ℕ) (v : ℕ → Option A) (n : ℕ) (nodes : NodeArray A)
      → n ≤ left
      → ((m : NodeArray A)
          → ((j : ℕ) → 2 * left ≤ j → m j ≡ nodes j)
          → (i : ℕ) → i < left
          → node_value h leaves tree_size level empty_node m (left + i) ≡ some (v i))
      → (nodes' : NodeArray A) × (fill_floor h leaves tree_size level empty_node left n nodes
          ≡ some nodes')
        × ((i : ℕ) → i < n → nodes' (left + i) ≡ v i)
        × ((j : ℕ) → left + n ≤ j → nodes' j ≡ nodes j)
  unfolding fill_floor
  fill_floor_lem level empty_node left v zero nodes small make =
      (nodes, refl, λ i p. absurd (omega arith), λ j p. refl)
  fill_floor_lem level empty_node left v (suc n) nodes small make =
      let here = make nodes (λ j p. refl) n (omega arith) in
      let next = store nodes (left + n) (v n) in
      let far : (j : ℕ) → left + suc n ≤ j → next j ≡ nodes j = λ j p. ground arith in
      let (nodes', ran, made, kept) =
        fill_floor_lem level empty_node left v n next (omega arith)
          (λ m same. make m (λ j p. same j p ∙ far j (omega arith))) in
      (
        nodes',
        rw here ran,
        λ i p. elim (position i n) [
          | inl before ↦ made i before
          | inr (inl same) ↦ rw same (
              kept (left + n) (omega arith)
              ∙ (let at : (left + n == left + n) ≡ true = (==_iff _ _).1 refl in rw at refl))
          | inr (inr behind) ↦ absurd (omega arith)
        ],
        λ j p. kept j (omega arith) ∙ far j p,
      )

  -- A floor with a round that throws.
  pub fill_floor_throws :
      (level empty_node left i n : ℕ) (nodes : NodeArray A)
      → n ≤ left
      → i < n
      → ((m : NodeArray A)
          → ((j : ℕ) → 2 * left ≤ j → m j ≡ nodes j)
          → node_value h leaves tree_size level empty_node m (left + i) ≡ none)
      → fill_floor h leaves tree_size level empty_node left n nodes ≡ none
  unfolding fill_floor
  fill_floor_throws level empty_node left i zero nodes small inside throws = absurd (omega arith)
  fill_floor_throws level empty_node left i (suc n) nodes small inside throws =
      elim (Option-cases (node_value h leaves tree_size level empty_node nodes (left + n))) [
        | inl e ↦ rw e refl
        | inr (v, e) ↦ elim (position i n) [
          | inl before ↦
              let far : (j : ℕ) → 2 * left ≤ j → store nodes (left + n) v j ≡ nodes j =
                λ j p. ground arith in
              rw e (
                fill_floor_throws level empty_node left i n (store nodes (left + n) v) (omega arith)
                  before (λ m same. throws m (λ j p. same j p ∙ far j p)))
          | inr (inl same) ↦ rw (← same) (rw (throws nodes (λ j p. refl)) refl)
          | inr (inr behind) ↦ absurd (omega arith)
        ]
      ]

  pub floors_step :
      (n level empty_node left : ℕ) (nodes nodes' : NodeArray A) (r : Option (NodeArray A))
      → tree_size / 2 ^ level ≡ left
      → fill_floor h leaves tree_size level empty_node left left nodes ≡ some nodes'
      → fill_floors h leaves tree_size n (suc level) (empty_node / 2) nodes' ≡ r
      → fill_floors h leaves tree_size (suc n) level empty_node nodes ≡ r
  unfolding fill_floors
  floors_step n level empty_node left nodes nodes' r size ran rest = rw (size, ran) rest

module _ {A : Type 0} (h : Hasher A) (leaves : List A) (tree_size : ℕ) (f : ℕ → A) where
  -- A floor of parents, when the floor below has its nodes.
  parent_floor :
      (l empty_node m : ℕ) (nodes : NodeArray A)
      → 2 * 2 ^ m ≤ empty_node
      → ((i : ℕ) → i < 2 * 2 ^ m → nodes (2 * 2 ^ m + i) ≡ some (node h.parent_of l i f))
      → (nodes' : NodeArray A) × (fill_floor h leaves tree_size
            (suc l)
            empty_node
            (2 ^ m)
            (2 ^ m)
            nodes
          ≡ some nodes')
        × ((i : ℕ) → i < 2 ^ m → nodes' (2 ^ m + i) ≡ some (node h.parent_of (suc l) i f))
  unfolding node node_value
  parent_floor l empty_node m nodes full below =
      let left = 2 ^ m in
      let (nodes', ran, made, kept) =
        fill_floor_lem h leaves tree_size (suc l) empty_node left
          (λ i. some (node h.parent_of (suc l) i f)) left nodes (omega arith)
          (λ m' same i p.
            let here : leb (left + i) empty_node ≡ true = le→leb _ _ (omega arith) in
            let up : (suc l == 0) ≡ false = ground arith in
            let two : (left + i) * 2 ≡ 2 * left + i * 2 = omega arith in
            let next : (left + i) * 2 + 1 ≡ 2 * left + (i * 2 + 1) = omega arith in
            let first = same (2 * left + i * 2) (omega arith) ∙ below (i * 2) (omega arith) in
            let second =
              same (2 * left + (i * 2 + 1)) (omega arith) ∙ below (i * 2 + 1) (omega arith) in
            rw (here, up, next, two, first, second) refl) in
      (nodes', ran, made)

  parent_floors :
      (m l empty_node : ℕ) (nodes : NodeArray A)
      → tree_size / 2 ^ suc l ≡ 2 ^ m
      → 2 * 2 ^ m ≤ empty_node
      → ((i : ℕ) → i < 2 * 2 ^ m → nodes (2 * 2 ^ m + i) ≡ some (node h.parent_of l i f))
      → (nodes' : NodeArray A) × (fill_floors h leaves tree_size (suc m) (suc l) empty_node nodes
          ≡ some nodes')
        × (nodes' 1 ≡ some (node h.parent_of (suc l + m) 0 f))
  unfolding fill_floors
  parent_floors zero l empty_node nodes size full below =
      let (nodes', ran, made) = parent_floor l empty_node 0 nodes full below in
      let up : suc l ≡ suc l + 0 = omega arith in
      (
        nodes',
        floors_step h leaves tree_size 0 (suc l) empty_node 1 nodes nodes' _ size ran refl,
        made 0 (omega arith) ∙ ap (λ n. some (node h.parent_of n 0 f)) up,
      )
  parent_floors (suc m) l empty_node nodes size full below =
      let (nodes', ran, made) = parent_floor l empty_node (suc m) nodes full below in
      let pow = two-pow-succ m in
      let half = div-pow-suc tree_size (suc l) in
      let pow2 : 2 ^ suc m ≡ 2 * 2 ^ m = omega arith in
      let (nodes'', ran', top) =
        parent_floors m (suc l) (empty_node / 2) nodes' (omega arith) (omega arith)
          (rw pow2 at made) in
      let up : suc (suc l) + m ≡ suc l + suc m = omega arith in
      (
        nodes'',
        floors_step h leaves tree_size (suc m) (suc l) empty_node (2 ^ suc m) nodes nodes' _ size
            ran ran',
        top ∙ ap (λ n. some (node h.parent_of n 0 f)) up,
      )

module _ {A : Type 0} (h : Hasher A) (z : A) where
  -- The leaves of a full sub tree.
  leaf_floor :
      (leaves : List A) (k : ℕ)
      → length leaves ≡ 2 ^ k
      → (nodes' : NodeArray A) × (fill_floor h leaves
            (2 ^ k)
            0
            (2 ^ k + length leaves)
            (2 ^ k)
            (2 ^ k)
            (λ _. none)
          ≡ some nodes')
        × ((i : ℕ) → i < 2 ^ k → nodes' (2 ^ k + i) ≡ some (get_or leaves i z))
  unfolding node_value
  leaf_floor leaves k full =
      let left = 2 ^ k in
      let (nodes', ran, made, kept) =
        fill_floor_lem h leaves left 0 (left + length leaves) left (λ i. some (get_or leaves i z))
          left (λ _. none) (omega arith)
          (λ m' same i p.
            let here : leb (left + i) (left + length leaves) ≡ true = le→leb _ _ (omega arith) in
            let at : left + i - left ≡ i = omega arith in
            rw (here, at) (ap some (get_elem?-get_or leaves i z (omega arith)))) in
      (nodes', ran, made)

  -- The root of a full sub tree.
  pub sub_tree_root_full :
      (k : ℕ) (leaves : List A)
      → length leaves ≡ 2 ^ k
      → sub_tree_root h k leaves ≡ some (node h.parent_of k 0 (λ i. get_or leaves i z))
  unfolding sub_tree_root fill_floors
  sub_tree_root_full zero leaves full =
      let (nodes, ran, made) = leaf_floor leaves 0 full in
      let fits : leb (length leaves) (2 ^ 0) ≡ true = le→leb _ _ (omega arith) in
      let top =
        made 0 (omega arith) ∙ ap some (sym (node-zero h.parent_of 0 (λ i. get_or leaves i z))) in
      let all =
        floors_step h leaves 1 0 0 (1 + length leaves) 1 (λ _. none) nodes _ refl ran refl in
      rw (fits, all) top
  sub_tree_root_full (suc m) leaves full =
      let k = suc m in
      let (nodes, ran, made) = leaf_floor leaves k full in
      let fits : leb (length leaves) (2 ^ k) ≡ true = le→leb _ _ (omega arith) in
      let pow = two-pow-succ m in
      let pow2 : 2 ^ suc m ≡ 2 * 2 ^ m = omega arith in
      let one : 2 ^ k / 2 ^ 0 ≡ 2 ^ k = omega arith in
      let leaf : (i : ℕ)
          → i < 2 ^ k
          → nodes (2 ^ k + i) ≡ some (node h.parent_of 0 i (λ i. get_or leaves i z)) =
        λ i p. made i p ∙ ap some (sym (node-zero h.parent_of i (λ i. get_or leaves i z))) in
      let (nodes', ran', top) =
        parent_floors h leaves (2 ^ k) (λ i. get_or leaves i z) m 0 ((2 ^ k + length leaves) / 2)
          nodes (omega arith) (omega arith) (rw pow2 at leaf) in
      let all =
        floors_step h leaves (2 ^ k) k 0 (2 ^ k + length leaves) (2 ^ k) (λ _. none) nodes _ one ran
          ran' in
      let up : 1 + m ≡ suc m = omega arith in
      rw (fits, all) (top ∙ ap (λ n. some (node h.parent_of n 0 (λ i. get_or leaves i z))) up)
