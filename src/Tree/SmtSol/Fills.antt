-- ===== src/Tree/SmtSol/Fills.antt =====
-- What `batchFill` of smt-sol.ts proves of a tree.
use zkopru.Base.{
  ℕ, zero, suc, ◌+◌, ◌/◌, ◌^◌, ◌<◌, ◌≡◌, ap, ◌∙◌, sym, inl, inr, some, Eq, List, [], ◌∷◌, arith,
  ◌==◌, length, All, Bool-cases, Option-cases,
}
use mathlib.Core.Option.{some-injective, none-ne-some}
use zkopru.Base.Bits.{div-pow-suc}
use zkopru.Tree.Hasher.{Hasher, hasher_of}
use zkopru.Tree.Spec.{
  node, node-zero, update, IsPath, IsInjective, sibling_of, path_siblings, length-path_siblings,
  node-update_ne,
}
use zkopru.Tree.PreHash.{length-hasher_of}
use zkopru.Tree.SolRoot.{sol_merkle_root, sol_merkle_root_sound, sol_merkle_root_path}
use zkopru.Tree.Nullifier.Spend.{fill}
use zkopru.Tree.SmtSol.{calculate_root, smt_merkle_proof, smt_fill, fill_each, batch_fill, AreOpen}

module _ {A : Type 0} (parent : A → A → A) where
  -- The siblings on the path of a leaf stay when the leaf is changed.
  update-IsPath :
      (f : ℕ → A) (i : ℕ) (x : A) (l n : ℕ)
      → IsPath parent (update f i x) l (i / 2 ^ l) (path_siblings parent f l n (i / 2 ^ l))
  unfolding path_siblings
  update-IsPath f i x l zero = tt
  update-IsPath f i x l (suc n) = (
    sym (node-update_ne parent l (sibling_of (i / 2 ^ l)) f i x (λ e. absurd (omega arith))),
    rw (div-pow-suc i l) at (update-IsPath f i x (suc l) n),
  )

  module _ ⦃e : Eq A⦄ (exist non_exist : A) (z : A) (depth : ℕ) (inj : IsInjective parent) where
    abbrev hashes : Hasher A
    hashes = hasher_of parent z depth

    new_root :
        (f : ℕ → A) (i : ℕ) (ss : List A)
        → i < 2 ^ depth
        → ss ≡ path_siblings parent f 0 depth i
        → sol_merkle_root hashes exist i ss ≡ node parent depth 0 (update f i exist)
    unfolding hasher_of
    new_root f i ss room same =
        let self : i / 2 ^ 0 ≡ i = omega arith in
        let here : exist ≡ update f i exist i = ground arith in
        let path = rw self at (update-IsPath f i exist 0 depth) in
        let long = length-path_siblings parent f 0 depth i in
        rw same (
          sol_merkle_root_path hashes (update f i exist) depth i exist
            (path_siblings parent f 0 depth i) here long room path)

    pub smt_fill_sound :
        (f : ℕ → A) (i : ℕ) (ss : List A) (r : A)
        → i < 2 ^ depth
        → smt_fill exist non_exist hashes (node parent depth 0 f) i ss ≡ some r
        → (f i ≡ non_exist) × (r ≡ node parent depth 0 (update f i exist))
    unfolding smt_fill smt_merkle_proof calculate_root hasher_of
    smt_fill_sound f i ss r room ran =
        let old = sol_merkle_root hashes non_exist i ss in
        let next = sol_merkle_root hashes exist i ss in
        let top = node parent depth 0 f in
        elim (Bool-cases (length ss + 1 == length hashes.pre_hash)) [
          | inr wrong ↦ absurd (none-ne-some _ (rw wrong at ran))
          | inl enough ↦ elim (Bool-cases (e.beq top old)) [
            | inr other ↦ absurd (none-ne-some _ (rw (enough, other) at ran))
            | inl same ↦ elim (Bool-cases (e.beq next top)) [
              | inl filled ↦ absurd (none-ne-some _ (rw (enough, same, filled) at ran))
              | inr changed ↦
                  let made : next ≡ r = some-injective _ _ (rw (enough, same, changed) at ran) in
                  let len = length-hasher_of parent z depth in
                  let levels : length ss ≡ depth = ground (arith, len) in
                  let up : 0 + depth ≡ depth = omega arith in
                  let inj' : IsInjective hashes.parent_of = inj in
                  let (leaf, sibs) =
                    sol_merkle_root_sound hashes inj' f 0 depth i non_exist ss room levels
                      (sym ((e.beq_iff _ _).0 same) ∙ ap (λ m. node parent m 0 f) (sym up)) in
                  (sym (leaf ∙ node-zero parent i f), sym made ∙ new_root f i ss room sibs)
            ]
          ]
        ]

    fill_each_sound :
        (f : ℕ → A) (is : List ℕ) (sss : List (List A)) (r : A)
        → All (λ i. i < 2 ^ depth) is
        → fill_each exist non_exist hashes (node parent depth 0 f) is sss ≡ some r
        → AreOpen exist non_exist f is × (r ≡ node parent depth 0 (fill exist f is))
    unfolding fill_each
    fill_each_sound f [] sss r rooms ran = (tt, sym (some-injective _ _ ran))
    fill_each_sound f (i ∷ is) [] r rooms ran = absurd (none-ne-some _ ran)
    fill_each_sound f (i ∷ is) (ss ∷ sss) r rooms ran =
        elim (Option-cases (smt_fill exist non_exist hashes (node parent depth 0 f) i ss)) [
          | inl n ↦ absurd (none-ne-some _ (rw n at ran))
          | inr (next, n) ↦
              let (open_, same) = smt_fill_sound f i ss next rooms.0 n in
              let (rest, end) =
                fill_each_sound (update f i exist) is sss r rooms.1 (rw same at (rw n at ran)) in
              ((open_, rest), end)
        ]

    -- Under an injective hash, for leaves in range, when `batchFill` of smt-sol.ts takes the root
    -- of a sparse Merkle tree and any siblings to a new root, then each leaf had the value for
    -- leaves that are not filled when its turn came, and the new root is that of the tree with the
    -- leaves filled.
    pub batch_fill_sound :
        (f : ℕ → A) (is : List ℕ) (sss : List (List A)) (r : A)
        → All (λ i. i < 2 ^ depth) is
        → batch_fill exist non_exist hashes (node parent depth 0 f) is sss ≡ some r
        → AreOpen exist non_exist f is × (r ≡ node parent depth 0 (fill exist f is))
    unfolding batch_fill
    batch_fill_sound f is sss r rooms ran = elim (Bool-cases (length is == length sss)) [
      | inl same ↦ fill_each_sound f is sss r rooms (rw same at ran)
      | inr other ↦ absurd (none-ne-some _ (rw other at ran))
    ]
