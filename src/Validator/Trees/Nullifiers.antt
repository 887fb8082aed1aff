-- ===== src/Validator/Trees/Nullifiers.antt =====
-- `validateNullifierRollUp` of offchain-nullifier-tree-validator.ts on the tree of nullifier-tree.ts,
-- whose leaves are 0 and, once filled, 1.
use zkopru.Base.{
  ℕ, ◌^◌, ◌<◌, ◌≡◌, refl, ◌⊎◌, inl, inr, true, ◌&&◌, none, some, Eq, nat_eq, List, [], ◌∷◌, arith,
  ◌==◌, map, length, length-map, All, if◌then◌else◌, ◌>>=◌, ◌∙◌, Option-cases,
}
use zkopru.Block.Types.{SolTypes, Header}
use zkopru.Block.Whole.{Block}
use zkopru.Block.Migrations.{SolNumbers}
use zkopru.Tree.Hasher.{hasher_of}
use zkopru.Tree.Spec.{node, IsInjective}
use zkopru.Tree.SmtSol.{exist_bn, non_exist_bn, fill_each, batch_fill}
use zkopru.Tree.SmtSol.Fills.{batch_fill_sound}
use zkopru.Validator.Migration.{n1}
use zkopru.Validator.Trees.{bytes_number, nullifiers_of, follows, validate_nullifier_roll_up}

module _ (keccak : ℕ → ℕ → ℕ) (depth : ℕ) (f : ℕ → ℕ) (inj : IsInjective keccak)
    (binary : (i : ℕ) → (f i ≡ 0) ⊎ (f i ≡ 1)) where
  -- No nullifier can be filled.
  batch_fill_binary :
      (is : List ℕ) (sss : List (List ℕ))
      → All (λ i. i < 2 ^ depth) is
      → batch_fill exist_bn non_exist_bn (hasher_of keccak 0 depth) (node keccak depth 0 f) is sss
        ≡ (if length is == 0 && length sss == 0 then some (node keccak depth 0 f) else none)
  unfolding batch_fill fill_each non_exist_bn
  batch_fill_binary [] [] rooms = refl
  batch_fill_binary [] (ss ∷ sss) rooms = ground arith
  batch_fill_binary (i ∷ is) sss rooms =
      let filled =
        batch_fill exist_bn non_exist_bn (hasher_of keccak 0 depth) (node keccak depth 0 f) (i ∷ is)
          sss in
      elim (Option-cases filled) [
        | inl threw ↦ threw ∙ ground arith
        | inr (r, ran) ↦
            let (open_, same) =
              batch_fill_sound keccak exist_bn non_exist_bn 0 depth inj f (i ∷ is) sss r rooms
                ran in
            let bit = binary i in absurd (omega (arith, bit, open_.0))
      ]

-- The two tests of a number and of two lengths.
counts :
    {A : Type 0} (count len lists : ℕ) (root : ℕ) (judge : ℕ → A)
    → (if count == len
        then ((if len == 0 && lists == 0 then some root else none) >>= λ r. some (judge r))
        else none)
      ≡ (if len == 0 && (count == 0 && lists == 0) then some (judge root) else none)
counts count len lists root judge = ground arith

module _ (s : SolTypes) (n : SolNumbers s) ⦃e : Eq s.Bytes32⦄ (sha3 : List ℕ → List ℕ)
    (keccak : ℕ → ℕ → ℕ) (depth : ℕ) (f : ℕ → ℕ) (b : Block s) (parent : Header s) where
  -- Under an injective hash, when each leaf of a sparse Merkle tree is 0 or 1, as those of
  -- nullifier-tree.ts are, the parent header has this tree's root, the block has the hash of the
  -- parent, and its nullifiers are in range, `validateNullifierRollUp` throws, whatever number of
  -- nullifiers and siblings it is given, unless the block has no nullifier, the number is 0 and
  -- there are no siblings; then it finds the block slashable exactly if its header keeps the
  -- parent's nullifier root.
  pub validate_nullifier_roll_up_lem :
      (num_of_nullifiers : ℕ) (siblings : List (List s.Bytes32))
      → IsInjective keccak
      → ((i : ℕ) → (f i ≡ 0) ⊎ (f i ≡ 1))
      → All (λ i. i < 2 ^ depth) (nullifiers_of b.body.txs)
      → follows s n sha3 b parent ≡ some true
      → bytes_number s n parent.nullifier_root ≡ node keccak depth 0 f
      → validate_nullifier_roll_up s n sha3
          (hasher_of keccak 0 depth)
          b
          parent
          num_of_nullifiers
          siblings
        ≡ (if length (nullifiers_of b.body.txs) == 0
              && (num_of_nullifiers == 0 && length siblings == 0)
            then some record {
              slashable =
                  bytes_number s n parent.nullifier_root
                  == bytes_number s n (b.header.nullifier_root);
              reason = n1;
            }
            else none)
  unfolding validate_nullifier_roll_up
  validate_nullifier_roll_up_lem num_of_nullifiers siblings inj binary rooms follow shown =
      let spent = nullifiers_of b.body.txs in
      let submitted = map (map (bytes_number s n)) siblings in
      let filled = batch_fill_binary keccak depth f inj binary spent submitted rooms in
      let count = length-map (map (bytes_number s n)) siblings in
      rw (follow, shown, filled, count)
        (counts num_of_nullifiers (length spent) (length siblings) (node keccak depth 0 f) (λ r.
          record { slashable = r == bytes_number s n (b.header.nullifier_root); reason = n1 }))
