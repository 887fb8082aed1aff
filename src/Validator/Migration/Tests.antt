-- ===== src/Validator/Migration/Tests.antt =====
-- Runs of the validators of migrations, on a block with a migration that is made of one note, and on
-- one in which a withdrawal has the same address and token.
use zkopru.Base.{
  ℕ, ◌^◌, ◌<◌, ◌≡◌, refl, sym, subst, ◌&&◌, get_elem?, true, false, some, List, [], ◌∷◌, arith,
  length, All,
}
use zkopru.Transaction.Fp.{order}
use zkopru.Transaction.ZkTx.{ZkOutflow, ZkTx}
use zkopru.Block.Types.{Body, MassMigration}
use zkopru.Block.Samples.{Word, words, words-IsSolTypes}
use zkopru.Block.Migrations.{is_to, is_token, is_migration, outflows_of, migrating_notes}
use zkopru.Block.Migrations.Samples.{
  numbers, numbers-IsSolNumbers, migrating, migrating-IsMigrating, with_two,
}
use zkopru.Block.Migrations.Single.{IsMigrating, IsSmall, get_mass_migration_for_token_lem}
use zkopru.Block.Migrations.Keys.{notes_for}
use zkopru.Validator.Migration.{
  m2, m3, m5, validate_eth_migration, validate_erc20_migration, validate_migration_fee,
}
use zkopru.Validator.Migration.Judges.{
  IsMade, OnlyMigrations, validations-accept, validate_eth_migration_withdrawal,
}

-- The addresses with the numbers 7 and 8.
abbrev made_address : (x : ℕ) → x < 256 ^ 20 → Word 20
made_address x small = let r = numbers-IsSolNumbers.address_made x small in r.0

abbrev seven : Word 20
seven = made_address 7 (omega arith)

abbrev eight : Word 20
eight = made_address 8 (omega arith)

seven_number : numbers.address_number seven ≡ 7
seven_number = let r = numbers-IsSolNumbers.address_made 7 (omega arith) in r.2

eight_number : numbers.address_number eight ≡ 8
eight_number = let r = numbers-IsSolNumbers.address_made 8 (omega arith) in r.2

-- A withdrawal, with an amount of ETH.
abbrev withdrawing : ZkOutflow
withdrawing = record (migrating 7 8) { outflow_type = 1 }

abbrev honest : List ZkTx
honest = with_two (migrating 7 8) (migrating 10 9)

abbrev mixed : List ZkTx
mixed = with_two (migrating 7 8) withdrawing

abbrev sought : List ZkTx → List ZkOutflow
sought txs =
    notes_for (migrating_notes txs) (numbers.address_number seven) (numbers.address_number eight)

honest_notes : sought honest ≡ migrating 7 8 ∷ []
unfolding migrating_notes outflows_of is_migration is_to is_token
honest_notes = rw (seven_number, eight_number) refl

mixed_notes : sought mixed ≡ migrating 7 8 ∷ []
unfolding migrating_notes outflows_of is_migration is_to is_token
mixed_notes = rw (seven_number, eight_number) refl

one-IsSmall : IsSmall (migrating 7 8 ∷ [])
unfolding order
one-IsSmall = record {
  eth_fits = omega arith;
  amount_fits = omega arith;
  total_fee_fits = omega arith;
}

one_good : All IsMigrating (migrating 7 8 ∷ [])
one_good = (migrating-IsMigrating 7 8 (omega arith) (omega arith), tt)

module _ (txs : List ZkTx) (e : sought txs ≡ migrating 7 8 ∷ []) where
  good : All IsMigrating (sought txs)
  good = subst (All IsMigrating) (sym e) one_good

  present : 0 < length (sought txs)
  present = subst (λ os. 0 < length os) (sym e) (omega arith)

  small : IsSmall (sought txs)
  small = subst IsSmall (sym e) one-IsSmall

  abbrev made : MassMigration words
  made =
      let r =
        get_mass_migration_for_token_lem words numbers words-IsSolTypes numbers-IsSolNumbers seven
          eight (migrating_notes txs) good present small in
      r.0

  abbrev body : Body words
  body = record { txs = txs; mass_deposits = []; mass_migrations = made ∷ [] }

  made-IsMade : IsMade words numbers words-IsSolTypes numbers-IsSolNumbers body 0 made seven eight
  made-IsMade = record {
    at_index = refl;
    made =
        let r =
          get_mass_migration_for_token_lem words numbers words-IsSolTypes numbers-IsSolNumbers seven
            eight (migrating_notes txs) good present small in
        r.1;
    good = good;
    present = present;
    small = small;
  }

honest-OnlyMigrations :
    OnlyMigrations
      (numbers.address_number seven)
      (numbers.address_number eight)
      (outflows_of honest)
unfolding outflows_of is_to is_token is_migration
honest-OnlyMigrations =
    rw (seven_number, eight_number)
      (
        λ h k. absurd (ground (arith, h)),
        (λ h k. absurd (ground (arith, h)), (λ h k. refl, (λ h k. refl, tt))),
      )

validations-accept_example :
    (validate_eth_migration words numbers (body honest honest_notes) 0
      ≡ some record { slashable = false; reason = m2 })
    × (validate_erc20_migration words numbers (body honest honest_notes) 0
        ≡ some record { slashable = false; reason = m3 })
    × (validate_migration_fee words numbers (body honest honest_notes) 0
        ≡ some record { slashable = false; reason = m5 })
validations-accept_example =
    validations-accept words numbers words-IsSolTypes numbers-IsSolNumbers
      (body honest honest_notes) 0 (made honest honest_notes) seven eight
      (made-IsMade honest honest_notes) honest-OnlyMigrations

withdrawing_there : get_elem? (outflows_of mixed) 3 ≡ some withdrawing
unfolding outflows_of
withdrawing_there = refl

withdrawing_goes :
    (is_to (numbers.address_number seven) withdrawing
      && is_token (numbers.address_number eight) withdrawing)
    ≡ true
unfolding is_to is_token
withdrawing_goes = rw (seven_number, eight_number) refl

withdrawing_stays : is_migration withdrawing ≡ false
unfolding is_migration
withdrawing_stays = refl

validate_eth_migration_withdrawal_example :
    validate_eth_migration words numbers (body mixed mixed_notes) 0
    ≡ some record { slashable = true; reason = m2 }
validate_eth_migration_withdrawal_example =
    validate_eth_migration_withdrawal words numbers words-IsSolTypes numbers-IsSolNumbers
      (body mixed mixed_notes) 0 (made mixed mixed_notes) seven eight 3 withdrawing
      (made-IsMade mixed mixed_notes) withdrawing_there withdrawing_goes withdrawing_stays
      (omega arith)
