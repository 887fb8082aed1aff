-- ===== src/Block/Migrations/Samples.antt =====
-- Numbers for the values of the samples of Block, and blocks with one transaction whose notes migrate.
use zkopru.Base.{
  ℕ, ◌^◌, ◌<◌, ◌≡◌, refl, ap, ◌∙◌, true, none, some, List, [], ◌∷◌, ◌++◌, arith, replicate, map,
  All, member,
}
use zkopru.Utils.Numbers.{digits, length-digits, read_hex-digits}
use zkopru.Transaction.Fp.{order, read_hex}
use zkopru.Transaction.ZkTx.{ZkOutflow, ZkTx}
use zkopru.Transaction.Samples.{payment}
use zkopru.Block.Samples.{word_bytes, word_from, word_kept, word_made, words}
use zkopru.Block.Migrations.{
  SolNumbers, is_to, is_token, is_migration, outflows_of, migrating_notes,
}
use zkopru.Block.Migrations.Single.{IsSolNumbers, IsMigrating}
use zkopru.Block.Migrations.Keys.{key_to, key_token, notes_for}
use zkopru.Block.Migrations.Conserves.{IsMigratable}

abbrev pub numbers : SolNumbers words
numbers = record {
  address_number = λ a. read_hex 0 (word_bytes 20 a);
  uint256_number = λ u. read_hex 0 (word_bytes 32 u);
  address_of_hex = λ x. word_from 20 (digits 20 x);
  uint256_of = λ x. word_from 32 (digits 32 x);
  uint256_empty = none;
  sha3_two = λ xs ys. replicate 32 0;
}

pub numbers-IsSolNumbers : IsSolNumbers words numbers
numbers-IsSolNumbers = record {
  bytes32_made = word_made 32;
  uint_value = λ b. refl;
  address_made = λ x small.
      let (a, made) = word_made 20 (digits 20 x) (length-digits 20 x) in
      (a, made, ap (read_hex 0) (word_kept 20 (digits 20 x) a made) ∙ read_hex-digits 20 x small);
  uint256_made = λ x small.
      let (u, made) = word_made 32 (digits 32 x) (length-digits 32 x) in
      (u, made, ap (read_hex 0) (word_kept 32 (digits 32 x) u made) ∙ read_hex-digits 32 x small);
  sha3_size = λ xs ys. refl;
}

-- A note that migrates to `to` with tokens of `token`.
abbrev pub migrating : ℕ → ℕ → ZkOutflow
migrating to token = record {
  note = 3;
  outflow_type = 2;
  data_of =
      some record { to = to; eth = 4; token_addr = token; erc20_amount = 5; nft = 0; fee = 6 };
}

pub migrating-IsMigrating :
    (to token : ℕ) → to < 256 ^ 20 → token < 256 ^ 20 → IsMigrating (migrating to token)
unfolding order
migrating-IsMigrating to token h k = record {
  content = record { to = to; eth = 4; token_addr = token; erc20_amount = 5; nft = 0; fee = 6 };
  has = refl;
  to_fits = h;
  token_fits = k;
  note_fits = omega arith;
  fee_fits = omega arith;
}

-- A transaction with its outflows, of which one stays and one is withdrawn, and two more.
abbrev pub with_two : ZkOutflow → ZkOutflow → List ZkTx
with_two a b = record payment { outflow = payment.outflow ++ a ∷ b ∷ [] } ∷ []

pub one_destination-IsMigratable :
    IsMigratable (migrating_notes (with_two (migrating 7 8) (migrating 7 9)))
unfolding migrating_notes outflows_of is_migration is_to is_token order
one_destination-IsMigratable = record {
  migrating = (
    migrating-IsMigrating 7 8 (omega arith) (omega arith),
    (migrating-IsMigrating 7 9 (omega arith) (omega arith), tt),
  );
  crossed = λ d t hd ht. ground (arith, hd, ht);
  small = record {
    eth_fits = omega arith;
    amount_fits = omega arith;
    total_fee_fits = omega arith;
  };
}

-- Two destinations with a token each: no migration has the first destination and the second token.
abbrev pub two_destinations : List ZkTx
two_destinations = with_two (migrating 7 8) (migrating 10 9)

pub two_destinations-IsMigrating : All IsMigrating (migrating_notes two_destinations)
unfolding migrating_notes outflows_of is_migration
two_destinations-IsMigrating = (
  migrating-IsMigrating 7 8 (omega arith) (omega arith),
  (migrating-IsMigrating 10 9 (omega arith) (omega arith), tt),
)

pub has_destination : member 7 (map key_to (migrating_notes two_destinations)) ≡ true
unfolding migrating_notes outflows_of is_migration
has_destination = refl

pub has_token : member 9 (map key_token (migrating_notes two_destinations)) ≡ true
unfolding migrating_notes outflows_of is_migration
has_token = refl

pub no_note : notes_for (migrating_notes two_destinations) 7 9 ≡ []
unfolding migrating_notes outflows_of is_migration is_to is_token
no_note = refl
