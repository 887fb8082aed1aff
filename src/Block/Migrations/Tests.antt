-- ===== src/Block/Migrations/Tests.antt =====
-- Runs of `getMassMigrations` on blocks with one transaction.
use zkopru.Base.{◌≡◌, none, some, List}
use zkopru.Transaction.Fp.{read_hex}
use zkopru.Transaction.ZkTx.Writes.{sum_map}
use zkopru.Block.Types.{MassMigration}
use zkopru.Block.Samples.{word_bytes, words, words-IsSolTypes}
use zkopru.Block.Migrations.{eth_of, amount_of, fee_of, migrating_notes, get_mass_migrations}
use zkopru.Block.Migrations.Conserves.{get_mass_migrations-conserves}
use zkopru.Block.Migrations.Missing.{get_mass_migrations_missing}
use zkopru.Block.Migrations.Samples.{
  numbers, numbers-IsSolNumbers, migrating, with_two, one_destination-IsMigratable,
  two_destinations, two_destinations-IsMigrating, has_destination, has_token, no_note,
}

get_mass_migrations-conserves_example :
    let notes = migrating_notes (with_two (migrating 7 8) (migrating 7 9)) in
    (ms : List (MassMigration words)) × (get_mass_migrations words numbers
        (with_two (migrating 7 8) (migrating 7 9))
      ≡ some ms)
    × (sum_map (λ m. read_hex 0 (word_bytes 32 (m.asset.eth))) ms ≡ sum_map eth_of notes)
    × (sum_map (λ m. read_hex 0 (word_bytes 32 (m.asset.amount))) ms ≡ sum_map amount_of notes)
    × (sum_map (λ m. read_hex 0 (word_bytes 32 (m.deposit_for_dest.fee))) ms ≡ sum_map fee_of notes)
get_mass_migrations-conserves_example =
    get_mass_migrations-conserves words numbers words-IsSolTypes numbers-IsSolNumbers
      (with_two (migrating 7 8) (migrating 7 9)) one_destination-IsMigratable

get_mass_migrations_missing_example : get_mass_migrations words numbers two_destinations ≡ none
get_mass_migrations_missing_example =
    get_mass_migrations_missing words numbers words-IsSolTypes numbers-IsSolNumbers two_destinations
      7 9 two_destinations-IsMigrating has_destination has_token no_note
