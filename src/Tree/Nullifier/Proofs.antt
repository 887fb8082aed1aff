-- ===== src/Tree/Nullifier/Proofs.antt =====
-- `getSiblings`, `getInclusionProof` and `getNonInclusionProof` of nullifier-tree.ts, on a tree whose
-- node cache agrees with the database.
use Prim.Native.Nat.{bit_xor}
use zkopru.Base.{
  ℕ, zero, suc, ◌+◌, ◌/◌, ◌^◌, ◌<◌, ◌≡◌, ◌≢◌, refl, sym, ap, ◌∙◌, inl, inr, Bool, true, false,
  Option, none, some, List, [], ◌∷◌, arith, if◌then◌else◌, ◌>>=◌, All, Bool-cases, Eq, get_elem?,
  or_else, subst,
}
use mathlib.Core.Option.{get_or}
use zkopru.Base.Bits.{div-pow-suc}
use zkopru.Tree.Hasher.{Hasher, hasher_of}
use zkopru.Tree.Spec.{node, zero_node, sibling_of, path_siblings, IsInjective}
use zkopru.Tree.PreHash.{get_elem?-hasher_of}
use zkopru.Tree.NodeIndex.{node_index, node_index-path, bit_xor-sibling, sibling_of-lt}
use zkopru.Tree.Nodes.{NodeMap, find, find_many, find-find_many}
use zkopru.Tree.MerkleProof.{MerkleProof, verify_proof}
use zkopru.Tree.MerkleProof.Laws.{verify_proof-path_siblings, verify_proof-binding}
use zkopru.Tree.Nullifier.{NullifierTree, get_root_node, sibling_indices}
use zkopru.Tree.Nullifier.Path.{Shows}
use zkopru.Tree.Nullifier.Spend.{Stands, get_root_node_lem}

module _ {A : Type 0} where
  -- The loop of `getSiblings`, over `levels` levels from `level` on.
  unfoldable pub read_siblings : Hasher A → NodeMap A → ℕ → ℕ → ℕ → Option (List A)
  read_siblings h cached leaf_index level zero = some []
  read_siblings h cached leaf_index level (suc levels) =
      or_else (find (bit_xor 1 (leaf_index / 2 ^ level)) cached) (get_elem? h.pre_hash level)
      >>= λ s. read_siblings h cached leaf_index (suc level) levels >>= λ ss. some (s ∷ ss)

  unfoldable pub get_siblings : NullifierTree A → ℕ → Option (List A)
  get_siblings t index =
      let leaf_index = node_index t.depth index in
      read_siblings t.hasher (find_many (sibling_indices leaf_index 0 t.depth) t.rows) leaf_index 0
        t.depth

  module _ ⦃e : Eq A⦄ where
    -- The proof of a leaf with this value, and the object, which has the root cached. A proof that does
    -- not verify makes it throw.
    unfoldable pub prove_leaf : A → NullifierTree A → ℕ → Option (MerkleProof A × NullifierTree A)
    prove_leaf leaf t index = get_siblings t index >>= λ ss. get_root_node t >>= λ r.
        let proof : MerkleProof A = record {
          root = r.0;
          index = index;
          leaf = leaf;
          siblings = ss;
        } in
        if verify_proof t.hasher proof then some (proof, r.1) else none

    -- `getInclusionProof` and `getNonInclusionProof`, where `filled` and `empty` are the leaf values.
    unfoldable pub get_inclusion_proof :
        A → NullifierTree A → ℕ → Option (MerkleProof A × NullifierTree A)
    get_inclusion_proof filled t index = prove_leaf filled t index

    unfoldable pub get_non_inclusion_proof :
        A → NullifierTree A → ℕ → Option (MerkleProof A × NullifierTree A)
    get_non_inclusion_proof empty t index = prove_leaf empty t index

module _ {A : Type 0} (parent : A → A → A) (z : A) (depth : ℕ) where
  or_else-some : (a b : Option A) (d v : A) → b ≡ some d → get_or a d ≡ v → or_else a b ≡ some v
  or_else-some none b d v e h = e ∙ ap some h
  or_else-some (some a) b d v e h = ap some h

  read_siblings_lem :
      (f : ℕ → A) (i : ℕ) (cached rows : NodeMap A) (l levels : ℕ)
      → i < 2 ^ depth
      → l + levels ≡ depth
      → All (λ k. find k cached ≡ find k rows) (sibling_indices (node_index depth i) l levels)
      → Shows parent z depth (λ _. f) (λ k. find k rows)
      → read_siblings (hasher_of parent z depth) cached (node_index depth i) l levels
        ≡ some (path_siblings parent f l levels (i / 2 ^ l))
  unfolding read_siblings sibling_indices path_siblings
  read_siblings_lem f i cached rows l zero small e agree shows = refl
  read_siblings_lem f i cached rows l (suc n) small e agree shows =
      let k = i / 2 ^ l in
      let (path, low) = node_index-path depth i l (suc n) small e in
      let at_sibling = bit_xor-sibling n k in
      let found = rw (path, at_sibling) at agree.0 in
      let shown = shows l n (sibling_of k) e (sibling_of-lt n k low) in
      let zero_hash = get_elem?-hasher_of parent z depth l (omega arith) in
      let here =
        or_else-some (find (2 ^ suc n + sibling_of k) rows) _ (zero_node parent z l)
          (node parent l (sibling_of k) f) zero_hash shown in
      let rest = read_siblings_lem f i cached rows (suc l) n small (omega arith) agree.1 shows in
      let q = div-pow-suc i l in rw (path, at_sibling, found, here, rest, q) refl

module _ {A : Type 0} ⦃e : Eq A⦄ (parent : A → A → A) (z : A) where
  get_siblings_lem :
      (f : ℕ → A) (t : NullifierTree A) (i : ℕ)
      → Stands parent z f t
      → i < 2 ^ t.depth
      → get_siblings t i ≡ some (path_siblings parent f 0 t.depth i)
  unfolding get_siblings
  get_siblings_lem f t i st small =
      let path = sibling_indices (node_index t.depth i) 0 t.depth in
      let self : i / 2 ^ 0 ≡ i = omega arith in
      let h = st.hashes in
      let read =
        read_siblings_lem parent z t.depth f i (find_many path t.rows) t.rows 0 t.depth small
          (omega arith) (find-find_many path t.rows) st.below in
      rw (h) (rw self at read)

  -- The proof of the tree over the leaves `f` for this position, with this leaf.
  abbrev pub proof_of : (ℕ → A) → ℕ → ℕ → A → MerkleProof A
  proof_of f depth i leaf = record {
    root = node parent depth 0 f;
    index = i;
    leaf = leaf;
    siblings = path_siblings parent f 0 depth i;
  }

  prove_leaf_lem :
      (f : ℕ → A) (t : NullifierTree A) (i : ℕ) (leaf : A) (b : Bool)
      → Stands parent z f t
      → i < 2 ^ t.depth
      → verify_proof t.hasher (proof_of f t.depth i leaf) ≡ b
      → prove_leaf leaf t i ≡ (
          if b
          then some
              (proof_of f t.depth i leaf, record t { root_node = some (node parent t.depth 0 f) })
          else none)
  unfolding prove_leaf
  prove_leaf_lem f t i leaf b st small verified =
      let ss = get_siblings_lem f t i st small in
      let root = get_root_node_lem parent z f t st in rw (ss, root, verified) refl

  -- On a nullifier tree whose cached root and rows show the sparse Merkle tree over some leaves,
  -- for an index in range whose leaf is filled, `getInclusionProof` does not throw; its proof has
  -- the root of the tree, the index and the filled leaf, and verifies.
  pub get_inclusion_proof-Stands :
      (f : ℕ → A) (t : NullifierTree A) (filled : A) (i : ℕ)
      → Stands parent z f t
      → i < 2 ^ t.depth
      → f i ≡ filled
      → (r : MerkleProof A × NullifierTree A) × (get_inclusion_proof filled t i ≡ some r)
        × (r.0.root ≡ node parent t.depth 0 f)
        × (r.0.index ≡ i)
        × (r.0.leaf ≡ filled)
        × (verify_proof t.hasher r.0 ≡ true)
  unfolding get_inclusion_proof hasher_of
  get_inclusion_proof-Stands f t filled i st small spent =
      let verified : verify_proof t.hasher (proof_of f t.depth i filled) ≡ true =
        subst (λ h. verify_proof h (proof_of f t.depth i filled) ≡ true) (sym st.hashes)
          (subst (λ x. verify_proof (hasher_of parent z t.depth) (proof_of f t.depth i x) ≡ true)
            spent (verify_proof-path_siblings (hasher_of parent z t.depth) f t.depth i small)) in
      (
        (proof_of f t.depth i filled, record t { root_node = some (node parent t.depth 0 f) }),
        prove_leaf_lem f t i filled true st small verified,
        refl,
        refl,
        refl,
        verified,
      )

  -- Under an injective hash, on a nullifier tree whose cached root and rows show the sparse Merkle
  -- tree over some leaves, for an index in range whose leaf is not empty, `getNonInclusionProof`
  -- throws: a spent nullifier cannot be proved unspent.
  pub get_non_inclusion_proof_filled :
      IsInjective parent
      → (f : ℕ → A) (t : NullifierTree A) (empty : A) (i : ℕ) → Stands parent z f t
      → i < 2 ^ t.depth
      → f i ≢ empty
      → get_non_inclusion_proof empty t i ≡ none
  unfolding get_non_inclusion_proof hasher_of
  get_non_inclusion_proof_filled inj f t empty i st small spent =
      elim (Bool-cases (verify_proof t.hasher (proof_of f t.depth i empty))) [
        | inl passed ↦
            let h = hasher_of parent z t.depth in
            let passed' =
              subst (λ h. verify_proof h (proof_of f t.depth i empty) ≡ true) st.hashes passed in
            let same =
              verify_proof-binding h inj (proof_of f t.depth i (f i)) (proof_of f t.depth i empty)
                refl refl refl (verify_proof-path_siblings h f t.depth i small) passed' in
            absurd (spent same.0)
        | inr failed ↦ prove_leaf_lem f t i empty false st small failed
      ]
