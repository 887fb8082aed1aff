-- ===== src/Tree/Nullifier/Nullify.antt =====
-- `nullify` as a whole: the transaction of fresh nullifiers, and the rejected double spend.
use native.Mathlib.Nat.{two-pow-succ}
use mathlib.Core.List.{append-nil, append_assoc, map-append}
use zkopru.Base.{
  ℕ, suc, ◌+◌, ◌^◌, ◌<◌, ◌≡◌, refl, sym, ap, ◌∙◌, true, false, none, some, List, [], ◌∷◌, ◌++◌,
  arith, ◌==◌, if◌then◌else◌, map, Eq, All, All-split, subst,
}
use zkopru.Base.Bits.{pow_pos}
use zkopru.Tree.Hasher.{hasher_of}
use zkopru.Tree.Spec.{node, IsInjective}
use zkopru.Tree.NodeIndex.{node_index}
use zkopru.Tree.Nodes.{
  NodeMap, find, find_many, upsert, upsert_all, find-upsert, upsert-Distinct, view, Distinct,
  find-upsert_all, find-find_many,
}
use zkopru.Tree.Nullifier.{
  NullifierTree, sibling_indices, node_indices, update_leaves, nullify, commit,
}
use zkopru.Tree.Nullifier.Spend.{
  Stands, Fresh, fill, leaves_of, get_root_node_lem, update_leaves_lem, update_leaves_filled,
}

node_indices-append :
    (depth : ℕ) (is js : List ℕ)
    → node_indices depth (is ++ js) ≡ node_indices depth is ++ node_indices depth js
unfolding node_indices
node_indices-append depth [] js = refl
node_indices-append depth (i ∷ is) js = rw (node_indices-append depth is js) (
    sym (
      append_assoc (sibling_indices (node_index depth i) 0 depth) (node_indices depth is)
        (node_indices depth js)))

module _ {A : Type 0} where
  indices-leaves_of : (x : A) (is : List ℕ) → map (λ leaf. leaf.index) (leaves_of x is) ≡ is
  indices-leaves_of x [] = refl
  indices-leaves_of x (i ∷ is) = ap (◌∷◌ i) (indices-leaves_of x is)

  -- What the transaction leaves in the rows.
  find-commit :
      (root : A) (updated rows : NodeMap A) (k : ℕ)
      → Distinct updated
      → find k (upsert_all (upsert 1 root updated) rows)
        ≡ (if 1 == k then some root else view updated rows k)
  find-commit root updated rows k d =
      let all = find-upsert_all (upsert 1 root updated) rows k (upsert-Distinct 1 root updated d) in
      ground (arith, all, find-upsert k 1 root updated)

module _ {A : Type 0} ⦃e : Eq A⦄ (parent : A → A → A) (z : A) (inj : IsInjective parent) where
  -- Under an injective hash, on a nullifier tree whose cached root and rows show the sparse Merkle
  -- tree over some leaves, and for indices in range that are neither filled nor repeated,
  -- `nullify` succeeds; the root of the new object is that of the tree with these leaves filled,
  -- and after the commit object and rows show this tree.
  pub nullify-Stands :
      (f : ℕ → A) (t : NullifierTree A) (x : A) (is : List ℕ)
      → Stands parent z f t
      → Fresh t.depth x f is
      → (r : NullifierTree A × NodeMap A) × (nullify x t is ≡ some r)
        × (r.0.root_node ≡ some (node parent t.depth 0 (fill x f is)))
        × Stands parent z (fill x f is) (commit r)
  unfolding nullify commit find
  nullify-Stands f t x is st fresh =
      let h = hasher_of parent z t.depth in
      let stored = find_many (node_indices t.depth is) t.rows in
      let g = fill x f is in
      let root = node parent t.depth 0 g in
      let (updated, ran, distinct, shows) =
        update_leaves_lem parent z inj t.depth x stored t.rows is f []
          (find-find_many (node_indices t.depth is) t.rows) fresh tt st.below in
      let result : update_leaves t.hasher t.depth true stored (leaves_of x is)
            (node parent t.depth 0 f) []
          ≡ some (root, updated) =
        ap (λ w. update_leaves w t.depth true stored (leaves_of x is) (node parent t.depth 0 f) [])
          st.hashes
        ∙ ap (λ w. update_leaves h t.depth true stored w (node parent t.depth 0 f) [])
            (sym (append-nil (leaves_of x is)))
        ∙ ran [] in
      let written = λ (k : ℕ). find-commit root updated t.rows k distinct in
      let recorded : find 1 (upsert 1 root updated) ≡ some root = find-upsert 1 1 root updated in
      let t' = record t { root_node = some root } in
      (
        (t', upsert 1 root updated),
        rw (indices-leaves_of x is, get_root_node_lem parent z f t st, result)
            (ap (λ w. some (record t { root_node = w }, upsert 1 root updated)) recorded),
        refl,
        record {
          hashes = st.hashes;
          cached = λ r same. cc;
          top = rw (written 1) refl;
          below = λ l n k at small.
              let apart : (1 == 2 ^ suc n + k) ≡ false =
                ground (arith, two-pow-succ n, pow_pos n) in
              rw (written (2 ^ suc n + k), apart) (shows l n k at small);
        },
      )

  -- Under an injective hash, on a nullifier tree whose cached root and rows show the sparse Merkle
  -- tree over some leaves, a batch that comes, after indices in range that are neither filled nor
  -- repeated, to an index in range whose leaf is filled by then, whether before the batch or by
  -- it, makes `nullify` throw.
  pub nullify_filled :
      (f : ℕ → A) (t : NullifierTree A) (x : A) (before : List ℕ) (i : ℕ) (after : List ℕ)
      → Stands parent z f t
      → Fresh t.depth x f before
      → i < 2 ^ t.depth
      → fill x f before i ≡ x
      → nullify x t (before ++ i ∷ after) ≡ none
  unfolding nullify node_indices find
  nullify_filled f t x before i after st fresh small filled =
      let d = t.depth in
      let is = before ++ i ∷ after in
      let g = fill x f before in
      let stored = find_many (node_indices d is) t.rows in
      let agree =
        subst (All (λ k. find k stored ≡ find k t.rows)) (node_indices-append d before (i ∷ after))
          (find-find_many (node_indices d is) t.rows) in
      let (first, later) =
        All-split (λ k. find k stored ≡ find k t.rows) (node_indices d before)
          (node_indices d (i ∷ after)) agree in
      let (second, _) =
        All-split (λ k. find k stored ≡ find k t.rows) (sibling_indices (node_index d i) 0 d)
          (node_indices d after) later in
      let (updated, ran, distinct, shows) =
        update_leaves_lem parent z inj d x stored t.rows before f [] first fresh tt st.below in
      let stop =
        update_leaves_filled parent z d x stored t.rows i g updated (leaves_of x after) second small
          filled distinct shows in
      let split : leaves_of x is ≡ leaves_of x before ++ leaves_of x (i ∷ after) =
        map-append (λ j. record { index = j; val = x }) before (i ∷ after) in
      rw
        (
          indices-leaves_of x is,
          get_root_node_lem parent z f t st,
          st.hashes,
          split,
          ran (leaves_of x (i ∷ after)),
          stop,
        )
        refl
