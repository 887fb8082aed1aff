-- ===== src/Validator/Migration/Judges.antt =====
-- The validators of offchain-migration-validator.ts on a migration that `getMassMigrationForToken` of
-- packages/core/src/block/utils.ts made.
use zkopru.Base.{
  ℕ, suc, zero, ◌≤◌, ◌<◌, ◌≡◌, refl, sym, ap, ◌∙◌, Bool, true, false, ◌&&◌, some, List, [], ◌∷◌,
  ◌++◌, ◌==◌, arith, All, filter, get_elem?, length, ==_iff,
}
use mathlib.Core.Option.{some-injective, none-ne-some}
use zkopru.Transaction.ZkTx.{ZkOutflow, ZkTx}
use zkopru.Transaction.ZkTx.Writes.{sum_map}
use zkopru.Block.Types.{SolTypes, IsSolTypes, Body, MassMigration}
use zkopru.Block.Migrations.{
  SolNumbers, eth_of, amount_of, fee_of, is_to, is_token, is_migration, outflows_of,
  migrating_notes, get_mass_migration_for_token,
}
use zkopru.Block.Migrations.Single.{
  IsSolNumbers, IsMigrating, IsSmall, totals, totals_of, get_mass_migration_for_token_lem,
}
use zkopru.Block.Migrations.Keys.{notes_for}
use zkopru.Validator.Migration.{
  m2, m3, m5, matching, outflows_for, validate_eth_migration, validate_erc20_migration,
  validate_migration_fee,
}

abbrev goes_to : ℕ → ℕ → ZkOutflow → Bool
goes_to d t o = is_to d o && is_token t o

filter-append :
    {A : Type 0} (p : A → Bool) (xs ys : List A) → filter p (xs ++ ys) ≡ filter p xs ++ filter p ys
filter-append p [] ys = refl
filter-append p (x ∷ xs) ys = ground (arith, filter-append p xs ys)

matching-filter :
    (d t : ℕ) (txs : List ZkTx) → matching d t txs ≡ filter (goes_to d t) (outflows_of txs)
unfolding matching outflows_of
matching-filter d t [] = refl
matching-filter d t (tx ∷ txs) =
    ap (λ os. filter (goes_to d t) tx.outflow ++ os) (matching-filter d t txs)
    ∙ sym (filter-append (goes_to d t) tx.outflow (outflows_of txs))

-- What goes to the address with the token migrates.
abbrev pub OnlyMigrations : ℕ → ℕ → List ZkOutflow → Type 0
OnlyMigrations d t os = All (λ o. is_to d o ≡ true → is_token t o ≡ true → is_migration o ≡ true) os

only_migrations :
    (d t : ℕ) (os : List ZkOutflow)
    → OnlyMigrations d t os
    → filter (goes_to d t) os ≡ notes_for (filter is_migration os) d t
only_migrations d t [] only = refl
only_migrations d t (o ∷ os) only = ground (arith, only.0, only_migrations d t os only.1)

sum_all :
    (f : ZkOutflow → ℕ) (d t : ℕ) (os : List ZkOutflow)
    → sum_map f (notes_for (filter is_migration os) d t) ≤ sum_map f (filter (goes_to d t) os)
sum_all f d t [] = omega arith
sum_all f d t (o ∷ os) = ground (arith, sum_all f d t os)

-- An outflow that goes there but does not migrate counts only for the validators.
sum_more :
    (f : ZkOutflow → ℕ) (d t : ℕ) (os : List ZkOutflow) (k : ℕ) (o : ZkOutflow)
    → get_elem? os k ≡ some o
    → goes_to d t o ≡ true
    → is_migration o ≡ false
    → 0 < f o
    → sum_map f (notes_for (filter is_migration os) d t) < sum_map f (filter (goes_to d t) os)
sum_more f d t [] k o at_k goes stays pos = absurd (none-ne-some o at_k)
sum_more f d t (x ∷ os) zero o at_k goes stays pos =
    let same = some-injective _ _ at_k in rw (same, stays, goes) (omega (arith, sum_all f d t os))
sum_more f d t (x ∷ os) (suc k) o at_k goes stays pos =
    ground (arith, sum_more f d t os k o at_k goes stays pos)

module _ (s : SolTypes) (n : SolNumbers s) (sol : IsSolTypes s) (num : IsSolNumbers s n) where
  -- The migration `i` of a block is what `getMassMigrationForToken` makes of its migrating notes, of
  -- which there is one for the destination and the token.
  pub record IsMade (b : Body s) (i : ℕ) (m : MassMigration s) (dest token : s.Address)
      : Type 0 where
    pub at_index : get_elem? b.mass_migrations i ≡ some m
    pub made : get_mass_migration_for_token s n dest token (migrating_notes b.txs) ≡ some m
    pub good :
        All IsMigrating
          (notes_for (migrating_notes b.txs) (n.address_number dest) (n.address_number token))
    pub present :
        0
        < length
            (notes_for (migrating_notes b.txs) (n.address_number dest) (n.address_number token))
    pub small :
        IsSmall (notes_for (migrating_notes b.txs) (n.address_number dest) (n.address_number token))

  made_totals :
      (b : Body s) (i : ℕ) (m : MassMigration s) (dest token : s.Address)
      → IsMade b i m dest token
      → (totals s n m
          ≡ totals_of
              (notes_for (migrating_notes b.txs) (n.address_number dest) (n.address_number token)))
        × (outflows_for s n b m
            ≡ filter (goes_to (n.address_number dest) (n.address_number token)) (outflows_of b.txs))
  unfolding outflows_for
  made_totals b i m dest token h =
      let (m', made, same, to, tok) =
        get_mass_migration_for_token_lem s n sol num dest token (migrating_notes b.txs) h.good
          h.present h.small in
      let e : m ≡ m' = some-injective _ _ (sym h.made ∙ made) in
      let to' : n.address_number m.destination ≡ n.address_number dest =
        ap n.address_number (ap (λ m. m.destination) e ∙ to) in
      let tok' : n.address_number (m.asset.token) ≡ n.address_number token =
        ap n.address_number (ap (λ m. m.asset.token) e ∙ tok) in
      (ap (totals s n) e ∙ same, (λ i. matching (to' i) (tok' i) b.txs) ∙ matching-filter _ _ b.txs)

  -- When soltypes keeps the bytes and numbers of its values and hashes have 32 bytes, a migration
  -- that `getMassMigrationForToken` made of the migrating notes of the block, some of which go to
  -- its destination with its token, fit their fields and sum up below the order of the field, is
  -- found slashable neither for its ETH nor for its ERC20 amount nor for its fee, if all outflows
  -- of the block to the destination with the token are migrations.
  pub validations-accept :
      (b : Body s) (i : ℕ) (m : MassMigration s) (dest token : s.Address)
      → IsMade b i m dest token
      → OnlyMigrations (n.address_number dest) (n.address_number token) (outflows_of b.txs)
      → (validate_eth_migration s n b i ≡ some record { slashable = false; reason = m2 })
        × (validate_erc20_migration s n b i ≡ some record { slashable = false; reason = m3 })
        × (validate_migration_fee s n b i ≡ some record { slashable = false; reason = m5 })
  unfolding validate_eth_migration validate_erc20_migration validate_migration_fee migrating_notes
  validations-accept b i m dest token h only =
      let (same, sought) = made_totals b i m dest token h in
      let all =
        sought
        ∙ only_migrations (n.address_number dest) (n.address_number token) (outflows_of b.txs)
            only in
      let eth = ap (sum_map eth_of) all ∙ sym (ap (λ r. r.0) same) in
      let amount = ap (sum_map amount_of) all ∙ sym (ap (λ r. r.1) same) in
      let fee = ap (sum_map fee_of) all ∙ sym (ap (λ r. r.2) same) in
      (
        rw (h.at_index, (==_iff _ _).1 eth) refl,
        rw (h.at_index, (==_iff _ _).1 amount) refl,
        rw (h.at_index, (==_iff _ _).1 fee) refl,
      )

  -- When soltypes keeps the bytes and numbers of its values and hashes have 32 bytes, a migration
  -- that `getMassMigrationForToken` made of the migrating notes of the block, some of which go to
  -- its destination with its token, fit their fields and sum up below the order of the field, is
  -- all the same found slashable for its ETH, if another outflow with ETH, which is no migration,
  -- goes to the destination with the token.
  pub validate_eth_migration_withdrawal :
      (b : Body s) (i : ℕ) (m : MassMigration s) (dest token : s.Address) (k : ℕ) (o : ZkOutflow)
      → IsMade b i m dest token
      → get_elem? (outflows_of b.txs) k ≡ some o
      → goes_to (n.address_number dest) (n.address_number token) o ≡ true
      → is_migration o ≡ false
      → 0 < eth_of o
      → validate_eth_migration s n b i ≡ some record { slashable = true; reason = m2 }
  unfolding validate_eth_migration migrating_notes
  validate_eth_migration_withdrawal b i m dest token k o h at_k goes stays pos =
      let (same, sought) = made_totals b i m dest token h in
      let more =
        sum_more eth_of (n.address_number dest) (n.address_number token) (outflows_of b.txs) k o
          at_k goes stays pos in
      let total = ap (sum_map eth_of) sought in
      let claimed = ap (λ r. r.0) same in
      let apart : (sum_map eth_of (outflows_for s n b m) == n.uint256_number (m.asset.eth))
          ≡ false =
        differs _ _ (omega (arith, more, total, claimed)) in
      rw (h.at_index, apart) refl
    where
      differs : (a b : ℕ) → b < a → (a == b) ≡ false
      differs a b h = ground (arith, h)
