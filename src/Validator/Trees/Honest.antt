-- ===== src/Validator/Trees/Honest.antt =====
-- The validators of the trees against `dryPatch` of grove.ts, by which a block is proposed.
use zkopru.Base.{
  ℕ, ◌+◌, ◌%◌, ◌^◌, ◌≤◌, ◌<◌, ◌≡◌, refl, sym, ap, ◌∙◌, inl, inr, Bool, true, not, some, nat_eq,
  List, [], ◌∷◌, ◌++◌, arith, ◌==◌, ltb, if◌then◌else◌, length, map, filter, traverse, Option-cases,
}
use mathlib.Core.Option.{some-injective, none-ne-some}
use zkopru.Transaction.Fp.{from_number}
use zkopru.Transaction.ZkTx.{ZkOutflow, ZkTx}
use zkopru.Block.Types.{SolTypes}
use zkopru.Block.Migrations.{SolNumbers, outflows_of}
use zkopru.Tree.Hasher.{hasher_of}
use zkopru.Tree.Spec.{node, IsInjective}
use zkopru.Tree.LightRollUp.{Leaf, LightRollUpTree, latest_leaf_index}
use zkopru.Tree.LightRollUp.Represents.{grow}
use zkopru.Tree.Grove.{GrovePatch, fixed_size_len}
use zkopru.Tree.Grove.Appends.{Holds, hashes_of}
use zkopru.Tree.SubTreeSol.{num_of_sub_trees, empty_sub_tree_proof, append_as_sub_trees}
use zkopru.Tree.SubTreeSol.Agrees.{submitted, append_as_sub_trees-grow}
use zkopru.Validator.Migration.{Code, Validation}
use zkopru.Validator.Trees.{
  is_withdrawal, utxo_notes, hash_of_withdrawal, withdrawal_hashes, withdrawal_leaf,
  get_grove_patch, next_index,
}

-- A tree that starts a sub tree with `2 ^ k` leaves, with `n` levels above it, and the siblings of the
-- sub tree, which are accepted.
pub record IsProved (parent : ℕ → ℕ → ℕ) (k n : ℕ) (f : ℕ → ℕ) (t : LightRollUpTree ℕ)
    (siblings : List ℕ) : Type 0 where
  pub holds : Holds parent 0 (k + n) f t
  pub deep : t.depth ≡ k + n
  pub levels : length siblings ≡ n
  pub aligned : latest_leaf_index t % 2 ^ k ≡ 0
  pub not_full : latest_leaf_index t < 2 ^ t.depth
  pub accepted :
      empty_sub_tree_proof (hasher_of parent 0 (k + n)) k (submitted t siblings) ≡ some true

-- What the header says of a light tree, and the field elements made from it.
pub record Shows (root index root_value index_value : ℕ) (t : LightRollUpTree ℕ) : Type 0 where
  pub root_shown : root ≡ t.data_of.root
  pub index_shown : index ≡ latest_leaf_index t
  pub root_read : root_value ≡ t.data_of.root
  pub index_read : index_value ≡ latest_leaf_index t

abbrev pub note_of : ZkOutflow → ℕ
note_of o = o.note

-- The test of the index, where the maximum is the size of the tree.
pub index_verdict :
    (max claimed next : ℕ) (above other : Validation)
    → next ≤ max
    → above.slashable ≡ true
    → other.slashable ≡ not (claimed == next)
    → (if ltb max claimed then above else other).slashable ≡ not (claimed == next)
index_verdict max claimed next above other within slashed judged = ground arith

hashes_of-leaves :
    (tracked : ℕ → Bool) (hs : List ℕ)
    → hashes_of (map (λ h. record { hash = h; should_track = tracked h }) hs) ≡ hs
hashes_of-leaves tracked [] = refl
hashes_of-leaves tracked (h ∷ hs) = ap (◌∷◌ h) (hashes_of-leaves tracked hs)

module _ (sha3 : List ℕ → List ℕ) (tracked : ℕ → Bool) where
  withdrawal_leaves :
      (os : List ZkOutflow) (leaves : List (Leaf ℕ))
      → traverse (withdrawal_leaf sha3 tracked) os ≡ some leaves
      → traverse (hash_of_withdrawal sha3) os ≡ some (hashes_of leaves)
  unfolding withdrawal_leaf
  withdrawal_leaves [] leaves made = ap (λ ls. some (hashes_of ls)) (some-injective _ _ made)
  withdrawal_leaves (o ∷ os) leaves made = elim (Option-cases (hash_of_withdrawal sha3 o)) [
    | inl n ↦ absurd (none-ne-some _ (rw n at made))
    | inr (h, n) ↦ elim (Option-cases (traverse (withdrawal_leaf sha3 tracked) os)) [
      | inl n' ↦ absurd (none-ne-some _ (rw (n, n') at made))
      | inr (ls, n') ↦
          rw (n, withdrawal_leaves os ls n')
            (ap (λ ls. some (hashes_of ls)) (some-injective _ _ (rw (n, n') at made)))
    ]
  ]

  -- The leaves of the patch of a block.
  pub patch_leaves :
      (notes : List ℕ) (header : ℕ) (txs : List ZkTx) (patch : GrovePatch ℕ ℕ)
      → get_grove_patch sha3 notes tracked header txs ≡ some patch
      → (hashes_of patch.utxos ≡ map from_number notes ++ utxo_notes txs)
        × (withdrawal_hashes sha3 txs ≡ some (hashes_of patch.withdrawals))
  unfolding get_grove_patch withdrawal_hashes
  patch_leaves notes header txs patch made =
      let out = filter is_withdrawal (outflows_of txs) in
      elim (Option-cases (traverse (withdrawal_leaf sha3 tracked) out)) [
        | inl n ↦ absurd (none-ne-some _ (rw n at made))
        | inr (ls, n) ↦
            let same = some-injective _ _ (rw n at made) in
            (
              ap (λ q. hashes_of q.utxos) (sym same)
                  ∙ hashes_of-leaves tracked (map from_number notes ++ utxo_notes txs),
              withdrawal_leaves out ls n ∙ ap (λ q. some (hashes_of q.withdrawals)) same,
            )
      ]

-- The computation of a root from what the header shows of a tree.
pub proved_root :
    (parent : ℕ → ℕ → ℕ) (k n : ℕ) (f : ℕ → ℕ) (t : LightRollUpTree ℕ) (siblings hs : List ℕ)
    (root index root_value index_value : ℕ)
    → IsInjective parent
    → IsProved parent k n f t siblings
    → Shows root index root_value index_value t
    → latest_leaf_index t + fixed_size_len (2 ^ k) (length hs) ≤ 2 ^ t.depth
    → append_as_sub_trees
        (hasher_of parent 0 (k + n))
        k
        hs
        (record { root = root_value; index = index_value; siblings = siblings })
      ≡ some (node parent t.depth 0 (grow f (latest_leaf_index t) hs))
proved_root parent k n f t siblings hs root index root_value index_value inj proved shows room =
    (λ i.
      append_as_sub_trees (hasher_of parent 0 (k + n)) k hs
        (record { root = shows.root_read i; index = shows.index_read i; siblings = siblings }))
    ∙ append_as_sub_trees-grow parent 0 k n inj t f siblings hs proved.holds proved.deep
        proved.levels proved.aligned proved.not_full room proved.accepted

module _ (s : SolTypes) (n : SolNumbers s) where
  -- The index of the dry run, from that of the parent.
  pub next_index_lem :
      (k size i count leaves next : ℕ) (index : s.Uint256)
      → n.uint256_number index ≡ i
      → size ≡ 2 ^ k
      → leaves ≡ count
      → next ≡ i + fixed_size_len size leaves
      → next_index s n (2 ^ k) index count ≡ next
  unfolding next_index num_of_sub_trees fixed_size_len
  next_index_lem k size i count leaves next index shown same counted end =
      (λ j. shown j + fixed_size_len (sym same j) (sym counted j)) ∙ sym end

  -- The test of the index in a validation: slashable exactly if the header has another index than the
  -- dry run.
  pub judged_index :
      (k size i count leaves next max claimed : ℕ) (above other : Code) (index : s.Uint256)
      → n.uint256_number index ≡ i
      → size ≡ 2 ^ k
      → leaves ≡ count
      → next ≡ i + fixed_size_len size leaves
      → next ≤ max
      → (v : Validation) × ((if ltb max claimed
            then record { slashable = true; reason = above }
            else record {
              slashable = not (claimed == next_index s n (2 ^ k) index count);
              reason = other;
            })
          ≡ v)
        × (v.slashable ≡ not (claimed == next))
  judged_index k size i count leaves next max claimed above other index shown same counted end
        within =
      let computed = next_index_lem k size i count leaves next index shown same counted end in
      (
        _,
        refl,
        index_verdict max claimed next (record { slashable = true; reason = above })
            (record {
              slashable = not (claimed == next_index s n (2 ^ k) index count);
              reason = other;
            })
            within refl (ap (λ x. not (claimed == x)) computed),
      )
