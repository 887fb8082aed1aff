-- ===== src/Block/Samples.antt =====
-- A block with two transactions, over the values of Words.
pub mod Words
pub use Words.{
  Word, word_bytes, word_from, word_size, word_again, word_kept, words, words-IsSolTypes, hash,
  hash-free, fill, hash_word, hash_made, word_made, word_eq, word_parent, word_parent-IsInjective,
  word_parent_ne,
}
use zkopru.Base.{
  Bool, true, ◌&&◌, ◌==◌, ==_iff, ◌↔◌, Eq, take, drop, take-append, drop-append, ℕ, zero, suc, ◌+◌,
  ◌*◌, ◌<◌, ◌≡◌, refl, sym, ap, ◌∙◌, Option, none, some, List, [], ◌∷◌, ◌++◌, ◌>>=◌, length,
  replicate, arith, cons_inj, Option-cases, inl, inr, subst,
}
use mathlib.Core.Option.{some-injective, none-ne-some}
use zkopru.Transaction.ZkTx.{encode}
use zkopru.Tree.Spec.{IsInjective}
use zkopru.Transaction.Samples.{writer, writer-IsBigEndian, payment, payment-IsEncodable}
use zkopru.Block.Header.{serialize_header}
use zkopru.Block.Mass.{mass_migration_bytes}
use zkopru.Block.Txs.{serialize_tx}
use zkopru.Block.Agrees.{serialize_tx-encode}
use zkopru.Block.Whole.{Block, header_hash, mass_migration_hash, serialize_block, block_from}
use zkopru.Block.RoundTrip.{IsSerializable, plain_body, block_from-serialize_block}
use zkopru.Block.Binding.{header_hash-binding, mass_migration_hash-binding, checksum-binding}
use zkopru.Block.Types.{SolTypes, IsSolTypes, Header, MassDeposit, MassMigration, Body}

abbrev pub header : Header words
header = record {
  proposer = fill 20 1;
  parent_block = fill 32 2;
  fee = fill 32 3;
  utxo_root = fill 32 4;
  utxo_index = fill 32 5;
  nullifier_root = fill 32 6;
  withdrawal_root = fill 32 7;
  withdrawal_index = fill 32 8;
  tx_root = fill 32 9;
  deposit_root = fill 32 10;
  migration_root = fill 32 11;
}

abbrev pub deposit : MassDeposit words
deposit = record { merged = fill 32 12; fee = fill 32 13 }

abbrev pub migration : MassMigration words
migration = record {
  destination = fill 20 14;
  asset = record { eth = fill 32 15; token = fill 20 16; amount = fill 32 17 };
  deposit_for_dest = deposit;
}

-- Two transactions, a mass deposit and a mass migration.
abbrev pub block : Block words
block = record {
  hash = fill 32 0;
  header = header;
  body = record {
    txs = payment ∷ payment ∷ [];
    mass_deposits = deposit ∷ [];
    mass_migrations = migration ∷ [];
  };
  slashed = none;
  verified = none;
  bootstrap = none;
}

pub block-IsSerializable : IsSerializable words block.body
block-IsSerializable = record {
  listable = record {
    encodable = (payment-IsEncodable, (payment-IsEncodable, tt));
    few = omega arith;
  };
  few_deposits = omega arith;
  few_migrations = omega arith;
}

abbrev pub block_hash : Word 32
block_hash = hash_word (serialize_header words header)

pub header_hashed : header_hash words hash header ≡ some block_hash
unfolding header_hash serialize_header
header_hashed = hash_made (serialize_header words header)
