-- ===== src/Block/Tests.antt =====
-- Runs of the serialization of blocks on a block with two transactions.
use zkopru.Base.{true, ℕ, ◌≡◌, refl, none, some, List}
use zkopru.Transaction.Samples.{writer, writer-IsBigEndian}
use zkopru.Block.Whole.{serialize_block, block_from}
use zkopru.Block.RoundTrip.{plain_body, block_from-serialize_block}
use zkopru.Block.Binding.{checksum-binding}
use zkopru.Block.Samples.{
  words, words-IsSolTypes, hash, hash-free, header, block, block-IsSerializable, block_hash,
  header_hashed,
}

block_from-serialize_block_example :
    (bs : List ℕ) × (serialize_block words writer block ≡ some bs)
    × (block_from words hash bs (some true)
        ≡ some record {
          hash = block_hash;
          header = header;
          body = plain_body words block.body;
          slashed = none;
          verified = some true;
          bootstrap = none;
        })
block_from-serialize_block_example =
    block_from-serialize_block words writer writer-IsBigEndian words-IsSolTypes hash block
      block_hash (some true) block-IsSerializable header_hashed

checksum-binding_example :
    (block.header ≡ block.header) × (plain_body words block.body ≡ plain_body words block.body)
checksum-binding_example =
    checksum-binding words words-IsSolTypes hash hash-free writer writer-IsBigEndian block block
      block_hash block_hash block-IsSerializable block-IsSerializable header_hashed header_hashed
      refl
