-- ===== src/Tree/Nullifier/Spend.antt =====
-- The nullifier tree stands for the set of spent notes: `nullify` accepts leaves that are not
-- filled yet, and moves to the tree with them filled; it rejects a leaf that is filled already.
use mathlib.Core.Option.{get_or}
use native.Mathlib.Nat.{div-eq_of_lt}
use zkopru.Base.{
  ℕ, ◌/◌, ◌^◌, ◌<◌, ◌≡◌, ◌≢◌, refl, sym, ap, ◌∙◌, inl, inr, true, false, none, some, List, [], ◌∷◌,
  ◌++◌, arith, All, All-split, Bool-cases, Option-cases, map, Eq, beq_refl, leb, lt→leb, fun_ext,
}
use zkopru.Base.Bits.{pow_pos, bit_or_pow}
use zkopru.Tree.Hasher.{hasher_of, genesis_root}
use zkopru.Tree.Spec.{node, zero_node, update, IsInjective, node_inj, node-zero}
use zkopru.Tree.PreHash.{genesis_root-hasher_of}
use zkopru.Tree.NodeIndex.{node_index}
use zkopru.Tree.Nodes.{NodeMap, find, view, Distinct}
use zkopru.Tree.Nullifier.{
  NullifierTree, Leaf, get_root_node, sibling_indices, node_indices, update_leaves,
}
use zkopru.Tree.Nullifier.Path.{Shows, Shows-mixed, update_path_lem}

module _ {A : Type 0} where
  -- Leaves of the tree with none filled with `x`, and none twice.
  abbrev pub Fresh : ℕ → A → (ℕ → A) → List ℕ → Type 0
  Fresh depth x f [] = Unit
  Fresh depth x f (i ∷ is) = (i < 2 ^ depth) × (f i ≢ x) × Fresh depth x (update f i x) is

  abbrev pub fill : A → (ℕ → A) → List ℕ → ℕ → A
  fill x f [] = f
  fill x f (i ∷ is) = fill x (update f i x) is

  abbrev pub leaves_of : A → List ℕ → List (Leaf A)
  leaves_of x = map (λ i. record { index = i; val = x })

module _ {A : Type 0} (parent : A → A → A) (z : A) where
  -- The object and its rows show the tree over the leaves `f`.
  pub record Stands (f : ℕ → A) (t : NullifierTree A) : Type 0 where
    pub hashes : t.hasher ≡ hasher_of parent z t.depth
    pub cached : (r : A) → t.root_node ≡ some r → r ≡ node parent t.depth 0 f
    pub top : get_or (find 1 t.rows) (zero_node parent z t.depth) ≡ node parent t.depth 0 f
    pub below : Shows parent z t.depth (λ _. f) (λ k. find k t.rows)

  pub get_root_node_lem :
      (f : ℕ → A) (t : NullifierTree A)
      → Stands f t
      → get_root_node t
        ≡ some (node parent t.depth 0 f, record t { root_node = some (node parent t.depth 0 f) })
  unfolding get_root_node
  get_root_node_lem f t st = elim (Option-cases t.root_node) [
    | inr (r, e) ↦ ground (arith, e, st.cached r e)
    | inl e ↦ elim (Option-cases (find 1 t.rows)) [
      | inr (r, n) ↦ ground (arith, e, n, st.top)
      | inl n ↦
          ground (
            arith,
            e,
            n,
            st.top,
            ap genesis_root st.hashes ∙ genesis_root-hasher_of parent z t.depth,
          )
    ]
  ]

  -- A new leaf changes the root.
  root_changes :
      IsInjective parent
      → (depth i : ℕ) (f : ℕ → A) (x : A) → i < 2 ^ depth
      → f i ≢ x
      → node parent depth 0 f ≢ node parent depth 0 (update f i x)
  root_changes inj depth i f x small ne same =
      let at = node_inj parent inj depth 0 f (update f i x) same i (div-eq_of_lt small) in
      let here : update f i x i ≡ x = ground arith in ne (at ∙ here)

  -- Filling it again does not.
  update_same : (i : ℕ) (f : ℕ → A) (x : A) → f i ≡ x → update f i x ≡ f
  update_same i f x e = fun_ext (λ j. ground (arith, e))

  first_node : (i : ℕ) (f : ℕ → A) (x : A) → x ≡ node parent 0 (i / 2 ^ 0) (update f i x)
  first_node i f x =
      let self : i / 2 ^ 0 ≡ i = omega arith in
      let at : update f i x i ≡ x = ground arith in
      sym (ap (λ k. node parent 0 k (update f i x)) self ∙ node-zero parent i (update f i x) ∙ at)

  module _ ⦃e : Eq A⦄ where
    pub update_leaves_lem :
        IsInjective parent
        → (depth : ℕ) (x : A) (stored rows : NodeMap A) (is : List ℕ) (f : ℕ → A)
          (updated : NodeMap A)
        → All (λ k. find k stored ≡ find k rows) (node_indices depth is)
        → Fresh depth x f is
        → Distinct updated
        → Shows parent z depth (λ _. f) (view updated rows)
        → (updated' : NodeMap A) × ((rest : List (Leaf A))
            → update_leaves
                (hasher_of parent z depth)
                depth
                true
                stored
                (leaves_of x is ++ rest)
                (node parent depth 0 f)
                updated
              ≡ update_leaves
                  (hasher_of parent z depth)
                  depth
                  true
                  stored
                  rest
                  (node parent depth 0 (fill x f is))
                  updated')
          × Distinct updated'
          × Shows parent z depth (λ _. fill x f is) (view updated' rows)
    unfolding update_leaves node_indices
    update_leaves_lem inj depth x stored rows [] f updated agree fresh distinct shows =
        (updated, λ rest. refl, distinct, shows)
    update_leaves_lem inj depth x stored rows (i ∷ is) f updated agree fresh distinct shows =
        let (here, later) =
          All-split (λ k. find k stored ≡ find k rows)
            (sibling_indices (node_index depth i) 0 depth) (node_indices depth is) agree in
        let leaf = first_node i f x in
        let (mid, ran, distinct', shows') =
          update_path_lem parent z depth f i x stored rows 0 depth x updated fresh.0 (omega arith)
            here leaf distinct (Shows-mixed parent z depth f i x (view updated rows) shows) in
        let inside : leb (node_index depth i) i ≡ false =
          lt→leb _ i (omega (arith, bit_or_pow depth i fresh.0, pow_pos depth)) in
        let moved : e.beq (node parent depth 0 f) (node parent depth 0 (update f i x)) ≡ false =
          elim (Bool-cases (e.beq (node parent depth 0 f) (node parent depth 0 (update f i x)))) [
            | inl same ↦
                absurd (root_changes inj depth i f x fresh.0 fresh.1 ((e.beq_iff _ _).0 same))
            | inr other ↦ other
          ] in
        let rest =
          update_leaves_lem inj depth x stored rows is (update f i x) mid later fresh.2 distinct'
            shows' in
        (rest.0, λ more. rw (inside, ran, moved) (rest.1 more), rest.2, rest.3)

    -- The loop stops at a leaf that is filled.
    pub update_leaves_filled :
        (depth : ℕ) (x : A) (stored rows : NodeMap A) (i : ℕ) (f : ℕ → A) (updated : NodeMap A)
        (rest : List (Leaf A))
        → All (λ k. find k stored ≡ find k rows) (sibling_indices (node_index depth i) 0 depth)
        → i < 2 ^ depth
        → f i ≡ x
        → Distinct updated
        → Shows parent z depth (λ _. f) (view updated rows)
        → update_leaves
            (hasher_of parent z depth)
            depth
            true
            stored
            (record { index = i; val = x } ∷ rest)
            (node parent depth 0 f)
            updated
          ≡ none
    unfolding update_leaves
    update_leaves_filled depth x stored rows i f updated rest agree small filled distinct shows =
        let leaf = first_node i f x in
        let (mid, ran, _, _) =
          update_path_lem parent z depth f i x stored rows 0 depth x updated small (omega arith)
            agree leaf distinct (Shows-mixed parent z depth f i x (view updated rows) shows) in
        let inside : leb (node_index depth i) i ≡ false =
          lt→leb _ i (omega (arith, bit_or_pow depth i small, pow_pos depth)) in
        let same : node parent depth 0 (update f i x) ≡ node parent depth 0 f =
          ap (node parent depth 0) (update_same i f x filled) in
        rw (inside, ran, same, beq_refl (node parent depth 0 f)) refl
