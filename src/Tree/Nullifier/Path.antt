-- ===== src/Tree/Nullifier/Path.antt =====
-- One leaf of `dryRun`: the loop over the levels computes the root of the tree with the new leaf,
-- and what it updates is what the tree with the new leaf has at these nodes.
use Prim.Native.Nat.{bit_xor}
use mathlib.Core.Option.{get_or}
use zkopru.Base.{
  ℕ, zero, suc, ◌+◌, ◌-◌, ◌*◌, ◌/◌, ◌%◌, ◌^◌, ◌<◌, ◌≡◌, ◌≢◌, refl, sym, ap, ◌∙◌, inl, inr, true,
  false, Option, some, arith, ◌==◌, ltb, lt→ltb, or_else-get_or, position, if◌then◌else◌, All,
  Bool-cases,
}
use zkopru.Base.Bits.{div-pow-suc}
use native.Mathlib.Nat.{two-pow-succ}
use zkopru.Tree.Hasher.{Hasher, hasher_of}
use zkopru.Tree.Spec.{node, zero_node, update, sibling_of, node_left, node_right, node-update_ne}
use zkopru.Tree.PreHash.{get_elem?-hasher_of}
use zkopru.Tree.NodeIndex.{
  node_index, node_index-path, bit_xor-sibling, sibling_of-lt, index_inj, bit_length-index,
}
use zkopru.Tree.Nodes.{NodeMap, find, upsert, find-upsert, view, Distinct, upsert-Distinct}
use zkopru.Tree.Nullifier.{get_sibling, update_path, sibling_indices}

module _ {A : Type 0} (parent : A → A → A) (z : A) (depth : ℕ) where
  -- The nodes below the root that `look` finds are those of the tree over the leaves `g l` at each
  -- level `l`; one that it does not find is empty.
  abbrev pub Shows : (ℕ → ℕ → A) → (ℕ → Option A) → Type 0
  Shows g look =
      (l n k : ℕ)
      → l + suc n ≡ depth
      → k < 2 ^ suc n
      → get_or (look (2 ^ suc n + k)) (zero_node parent z l) ≡ node parent l k (g l)

  -- Below the level `l` the new leaf is in.
  abbrev pub mixed : (ℕ → A) → ℕ → A → ℕ → ℕ → ℕ → A
  mixed f i x l j = if ltb j l then update f i x else f

  pub get_sibling_lem :
      (g : ℕ → ℕ → A) (updated stored rows : NodeMap A) (l n k : ℕ)
      → l + suc n ≡ depth
      → k < 2 ^ suc n
      → find (bit_xor 1 (2 ^ suc n + k)) stored ≡ find (bit_xor 1 (2 ^ suc n + k)) rows
      → Shows g (view updated rows)
      → get_sibling (hasher_of parent z depth) depth updated stored (2 ^ suc n + k)
        ≡ some (node parent l (sibling_of k) (g l))
  unfolding get_sibling
  get_sibling_lem g updated stored rows l n k e small same shows =
      let at_sibling = bit_xor-sibling n k in
      let shown = shows l n (sibling_of k) e (sibling_of-lt n k small) in
      let long = bit_length-index (suc n) k small in
      let level : depth - (suc (suc n) - 1) ≡ l = omega arith in
      let zero_hash = get_elem?-hasher_of parent z depth l (omega arith) in
      let found = rw at_sibling at same in
      let at_updated = find (2 ^ suc n + sibling_of k) updated in
      let at_row = find (2 ^ suc n + sibling_of k) rows in
      rw (at_sibling, found, long, level, zero_hash, get_sibling)
        (or_else-get_or at_updated at_row (zero_node parent z l) ∙ ap some shown)

  mixed_step :
      (f : ℕ → A) (i : ℕ) (x : A) (l j k : ℕ)
      → (j ≡ l → k ≢ i / 2 ^ l)
      → node parent j k (mixed f i x l j) ≡ node parent j k (mixed f i x (suc l) j)
  mixed_step f i x l j k apart = elim (position j l) [
    | inl below ↦ rw (lt→ltb j l below, lt→ltb j (suc l) (omega arith)) refl
    | inr (inl here) ↦
        let a : ltb j l ≡ false = ground arith in
        let b : ltb j (suc l) ≡ true = ground arith in
        let same : i / 2 ^ j ≡ i / 2 ^ l = ap (λ t. i / 2 ^ t) here in
        rw (a, b) (sym (node-update_ne parent j k f i x (λ e. apart here (e ∙ same))))
    | inr (inr above) ↦
        let a : ltb j l ≡ false = ground arith in
        let b : ltb j (suc l) ≡ false = ground arith in rw (a, b) refl
  ]

  -- Writing the node of the path at the level `l`.
  upsert-Shows :
      (f : ℕ → A) (i : ℕ) (x : A) (updated rows : NodeMap A) (l n : ℕ) (v : A)
      → l + suc n ≡ depth
      → i / 2 ^ l < 2 ^ suc n
      → v ≡ node parent l (i / 2 ^ l) (update f i x)
      → Shows (mixed f i x l) (view updated rows)
      → Shows (mixed f i x (suc l)) (view (upsert (2 ^ suc n + i / 2 ^ l) v updated) rows)
  upsert-Shows f i x updated rows l n v e small isnode shows j m k e' small' =
      let key = 2 ^ suc n + i / 2 ^ l in
      let key' = 2 ^ suc m + k in
      let law = find-upsert key' key v updated in
      elim (Bool-cases (key == key')) [
        | inl same ↦
            let (levels, at) =
              index_inj (suc n) (suc m) (i / 2 ^ l) k small small' (ground arith) in
            let here : j ≡ l = omega arith in
            let b : ltb j (suc l) ≡ true = ground arith in
            let top =
              ap (λ t. node parent t (i / 2 ^ l) (update f i x)) (sym here)
              ∙ ap (λ t. node parent j t (update f i x)) at in
            rw (law, same, b) (isnode ∙ top)
        | inr other ↦
            let apart : j ≡ l → k ≢ i / 2 ^ l = λ here at.
              let levels : m ≡ n = omega arith in
              let equal : key ≡ key' =
                ap (λ t. 2 ^ suc t + i / 2 ^ l) (sym levels) ∙ ap (λ t. 2 ^ suc m + t) (sym at) in
              absurd (ground (arith, other, equal)) in
            rw (law, other) (shows j m k e' small' ∙ mixed_step f i x l j k apart)
      ]

  -- The parent of a node of the path and its sibling.
  parent_step :
      (g : ℕ → A) (l k path : ℕ)
      → path % 2 ≡ k % 2
      → (if path % 2 == 0
          then parent (node parent l k g) (node parent l (sibling_of k) g)
          else parent (node parent l (sibling_of k) g) (node parent l k g))
        ≡ node parent (suc l) (k / 2) g
  parent_step g l k path parity = elim (Bool-cases (path % 2 == 0)) [
    | inl even ↦
        let at : sibling_of k ≡ k + 1 = ground arith in
        rw (even, at) (node_left parent l k g (ground arith))
    | inr odd ↦
        let at : sibling_of k ≡ k / 2 * 2 = ground arith in
        rw (odd, at) (node_right parent l k g (ground arith))
  ]

  update_path_step :
      (h : Hasher A) (stored : NodeMap A) (leaf_index l n key : ℕ) (v s : A) (updated : NodeMap A)
      → leaf_index / 2 ^ l ≡ key
      → get_sibling h depth (upsert key v updated) stored key ≡ some s
      → update_path h depth stored leaf_index l (suc n) v updated
        ≡ update_path h depth stored leaf_index
            (suc l)
            n
            (if key % 2 == 0 then h.parent_of v s else h.parent_of s v)
            (upsert key v updated)
  unfolding update_path
  update_path_step h stored leaf_index l n key v s updated path sib = rw (path, sib) refl

  pub update_path_lem :
      (f : ℕ → A) (i : ℕ) (x : A) (stored rows : NodeMap A) (l levels : ℕ) (v : A)
      (updated : NodeMap A)
      → i < 2 ^ depth
      → l + levels ≡ depth
      → All (λ k. find k stored ≡ find k rows) (sibling_indices (node_index depth i) l levels)
      → v ≡ node parent l (i / 2 ^ l) (update f i x)
      → Distinct updated
      → Shows (mixed f i x l) (view updated rows)
      → (updated' : NodeMap A) × (update_path
            (hasher_of parent z depth)
            depth
            stored
            (node_index depth i)
            l
            levels
            v
            updated
          ≡ some (node parent depth 0 (update f i x), updated'))
        × Distinct updated'
        × Shows (λ _. update f i x) (view updated' rows)
  unfolding update_path sibling_indices hasher_of
  update_path_lem f i x stored rows l zero v updated small e agree isnode distinct shows =
      let (path, low) = node_index-path depth i l zero small e in
      let top : i / 2 ^ l ≡ 0 = omega arith in
      let here : l ≡ depth = omega arith in
      (
        updated,
        rw isnode (λ j. some (node parent (here j) (top j) (update f i x), updated)),
        distinct,
        λ j m k e' small'. rw (lt→ltb j l (omega arith)) at (shows j m k e' small'),
      )
  update_path_lem f i x stored rows l (suc n) v updated small e agree isnode distinct shows =
      let g = update f i x in
      let k = i / 2 ^ l in
      let (path, low) = node_index-path depth i l (suc n) small e in
      let key = 2 ^ suc n + k in
      let updated' = upsert key v updated in
      let shows' = upsert-Shows f i x updated rows l n v e low isnode shows in
      let here : ltb l (suc l) ≡ true = ground arith in
      let sib =
        get_sibling_lem (mixed f i x (suc l)) updated' stored rows l n k e low (rw path at agree.0)
          shows' in
      let sib' : get_sibling (hasher_of parent z depth) depth updated' stored key
          ≡ some (node parent l (sibling_of k) g) =
        rw here at sib in
      let q = div-pow-suc i l in
      let s = node parent l (sibling_of k) g in
      let step =
        update_path_step (hasher_of parent z depth) stored (node_index depth i) l n key v s updated
          path sib' in
      let up =
        ap (λ w. if key % 2 == 0 then parent w s else parent s w) isnode
        ∙ parent_step g l k key (omega (arith, two-pow-succ n)) in
      let rest =
        update_path_lem f i x stored rows (suc l) n (node parent (suc l) (k / 2) g) updated' small
          (omega arith) agree.1 (ap (λ t. node parent (suc l) t g) (sym q))
          (upsert-Distinct key v updated distinct) shows' in
      (
        rest.0,
        step
            ∙ ap
                (λ w.
                  update_path (hasher_of parent z depth) depth stored (node_index depth i) (suc l) n
                    w updated')
                up
            ∙ rest.1,
        rest.2,
        rest.3,
      )

  pub Shows-mixed :
      (f : ℕ → A) (i : ℕ) (x : A) (look : ℕ → Option A)
      → Shows (λ _. f) look
      → Shows (mixed f i x 0) look
  Shows-mixed f i x look shows l n k e small =
      let none_below : ltb l 0 ≡ false = ground arith in rw none_below (shows l n k e small)
