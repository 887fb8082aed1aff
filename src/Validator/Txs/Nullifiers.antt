-- ===== src/Validator/Txs/Nullifiers.antt =====
-- The validations of nullifiers in a block: of one that is used twice, and of one that was used before.
use zkopru.Base.{
  ℕ, ◌+◌, ◌^◌, ◌<◌, ◌≡◌, refl, ◌⊎◌, inl, inr, true, Option, none, some, nat_eq, List, [], ◌∷◌, ◌++◌,
  arith, leb, if◌then◌else◌, map, get_elem?, count, Option-cases,
}
use zkopru.Transaction.ZkTx.{ZkInflow, ZkTx}
use zkopru.Tree.Hasher.{hasher_of}
use zkopru.Tree.Spec.{node, IsInjective}
use zkopru.Tree.SmtSol.{exist_bn, non_exist_bn, smt_fill}
use zkopru.Tree.SmtSol.Fills.{smt_fill_sound}
use zkopru.Validator.Migration.{t9, t10}
use zkopru.Validator.Trees.{nullifiers_of}
use zkopru.Validator.Txs.{
  thrown, count_inflows, count_txs, validate_duplicated_nullifier, validate_used_nullifier,
}

-- How often a nullifier is among some, after it was seen `seen` times: `none` from two on.
abbrev counted : ℕ → ℕ → Option ℕ
counted seen more = if leb 2 (seen + more) then none else some (seen + more)

count_inflows_lem :
    (nullifier : ℕ) (is : List ZkInflow) (seen : ℕ)
    → seen < 2
    → count_inflows nullifier is seen ≡ counted seen (count nullifier (map (λ i. i.nullifier) is))
unfolding count_inflows
count_inflows_lem nullifier [] seen small = ground arith
count_inflows_lem nullifier (i ∷ is) seen small =
    ground (arith, count_inflows_lem nullifier is seen, count_inflows_lem nullifier is (seen + 1))

count-append : (x : ℕ) (xs ys : List ℕ) → count x (xs ++ ys) ≡ count x xs + count x ys
count-append x [] ys = omega arith
count-append x (y ∷ xs) ys = ground (arith, count-append x xs ys)

count_txs_lem :
    (nullifier : ℕ) (txs : List ZkTx) (seen : ℕ)
    → seen < 2
    → count_txs nullifier txs seen ≡ counted seen (count nullifier (nullifiers_of txs))
unfolding count_txs nullifiers_of
count_txs_lem nullifier [] seen small = ground arith
count_txs_lem nullifier (tx ∷ txs) seen small =
    let here = map (λ i. i.nullifier) tx.inflow in
    ground (
      arith,
      count_inflows_lem nullifier tx.inflow seen,
      count-append nullifier here (nullifiers_of txs),
      count_txs_lem nullifier txs (seen + count nullifier here),
    )

-- `validateDuplicatedNullifier` finds a block slashable exactly if the nullifier is twice among those
-- of its transactions.
pub validate_duplicated_nullifier-count :
    (txs : List ZkTx) (nullifier : ℕ)
    → validate_duplicated_nullifier txs nullifier
      ≡ record { slashable = leb 2 (count nullifier (nullifiers_of txs)); reason = t10 }
unfolding validate_duplicated_nullifier thrown
validate_duplicated_nullifier-count txs nullifier = ground (arith, count_txs_lem nullifier txs 0)

-- Under an injective hash, for an inflow that the block has, whose nullifier is in range and whose
-- leaf in the nullifier tree of the parent is 0 or 1, `validateUsedNullifier` with the constants
-- of smt-sol.ts finds the transaction slashable, whatever siblings are given, although the
-- nullifier may be unspent.
pub validate_used_nullifier_any :
    (parent : ℕ → ℕ → ℕ) (depth : ℕ) (f : ℕ → ℕ) (txs : List ZkTx) (i j : ℕ) (tx : ZkTx)
    (inflow : ZkInflow) (siblings : List ℕ)
    → IsInjective parent
    → get_elem? txs i ≡ some tx
    → get_elem? tx.inflow j ≡ some inflow
    → inflow.nullifier < 2 ^ depth
    → (f inflow.nullifier ≡ 0) ⊎ (f inflow.nullifier ≡ 1)
    → validate_used_nullifier exist_bn non_exist_bn
        (hasher_of parent 0 depth)
        (node parent depth 0 f)
        txs
        i
        j
        siblings
      ≡ some record { slashable = true; reason = t9 }
unfolding validate_used_nullifier thrown non_exist_bn
validate_used_nullifier_any parent depth f txs i j tx inflow siblings inj at_tx at_inflow small
      leaf =
    let k = inflow.nullifier in
    let filled =
      smt_fill exist_bn non_exist_bn (hasher_of parent 0 depth) (node parent depth 0 f) k
        siblings in
    elim (Option-cases filled) [
      | inl threw ↦ rw (at_tx, at_inflow, threw) refl
      | inr (r, ran) ↦
          let (open_, same) =
            smt_fill_sound parent exist_bn non_exist_bn 0 depth inj f k siblings r small ran in
          absurd (omega arith)
    ]
