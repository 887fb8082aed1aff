-- ===== src/Validator/Tests.antt =====
-- Runs of the validators, on blocks with one transaction and on a block with one mass migration.
use zkopru.Base.{◌≡◌, refl, false, some, beq_refl}
use zkopru.Utils.Root.{root, root_on}
use zkopru.Block.Mass.{mass_migration_bytes}
use zkopru.Block.Whole.{Block, mass_migration_hash}
use zkopru.Block.Samples.{
  Word, words, words-IsSolTypes, hash, hash-free, hash_word, hash_made, word_eq, word_parent,
  word_parent-IsInjective, fill, block, header, migration,
}
use zkopru.Validator.Migration.{h3}
use zkopru.Validator.Header.{validate_migration_root}
use zkopru.Validator.Header.Roots.{validate_migration_root-binding}
use zkopru.Block.Migrations.Samples.{numbers}

abbrev migration_hash : Word 32
migration_hash = hash_word (mass_migration_bytes words migration)

abbrev rooted : Block words
rooted = record block { header = record header { migration_root = migration_hash } }

migration_hashed_again : mass_migration_hash words hash migration ≡ some migration_hash
unfolding mass_migration_hash mass_migration_bytes
migration_hashed_again = hash_made (mass_migration_bytes words migration)

rooted-accepted :
    validate_migration_root words numbers word_parent (fill 32 0) hash rooted
    ≡ some record { slashable = false; reason = h3 }
unfolding validate_migration_root root root_on
rooted-accepted = rw (migration_hashed_again, beq_refl migration_hash) refl

validate_migration_root-binding_example : rooted.body.mass_migrations ≡ rooted.body.mass_migrations
validate_migration_root-binding_example =
    validate_migration_root-binding words numbers word_parent (fill 32 0) words-IsSolTypes hash
      hash-free word_parent-IsInjective rooted rooted refl refl rooted-accepted rooted-accepted
