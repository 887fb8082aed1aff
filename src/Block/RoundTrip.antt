-- ===== src/Block/RoundTrip.antt =====
-- `serializeBlock` and `Block.from` of packages/core/src/block/block.ts against each other, and what
-- the hash and the checksum of a block bind.
use zkopru.Base.{ℕ, ◌<◌, ◌≡◌, ◌∙◌, Bool, Option, none, some, List, [], ◌++◌, ◌>>=◌, map, length}
use zkopru.Transaction.Fp.{BigNumber, IsBigEndian}
use zkopru.Transaction.Buffer.{concat}
use zkopru.Transaction.ZkTx.Writes.{++-[]}
use zkopru.Block.Parsing.{Parsing, parse_reading, Parses-reading}
use zkopru.Block.Types.{SolTypes, IsSolTypes, Body}
use zkopru.Block.Header.{serialize_header, deserialize_header_from, Parses-header}
use zkopru.Block.Mass.{
  deserialize_mass_deposits, deserialize_mass_migrations, Parses-mass_deposits,
  Parses-mass_migrations,
}
use zkopru.Block.Txs.{deserialize_txs_from}
use zkopru.Block.Agrees.{uncached}
use zkopru.Block.TxsRoundTrip.{IsListable, writes-txs}
use zkopru.Block.Whole.{Block, header_hash, serialize_body, serialize_block, block_from}

-- Four parts, each read from what the one before it left.
four_steps :
    {A B C D E : Type 0} (p : Parsing A) (q : Parsing B) (r : Parsing C) (t : Parsing D)
    (f : A → B → C → D → Option E) {q1 q2 q3 q4 q5 : List ℕ} {a : A} {b : B} {c : C} {d : D}
    → p q1 ≡ some (a, q2)
    → q q2 ≡ some (b, q3)
    → r q3 ≡ some (c, q4)
    → t q4 ≡ some (d, q5)
    → (p q1 >>= λ x. q x.1 >>= λ y. r y.1 >>= λ z. t z.1 >>= λ w. f x.0 y.0 z.0 w.0) ≡ f a b c d
four_steps p q r t f hp hq hr ht = rw (hp, hq, hr, ht)

module _ (s : SolTypes) where
  -- A body whose parts fit the fields of the serialization.
  pub record IsSerializable (b : Body s) : Type 0 where
    pub listable : IsListable b.txs
    pub few_deposits : length b.mass_deposits < 256
    pub few_migrations : length b.mass_migrations < 256

  -- The body as it is read again: without the cached sizes and hashes of the transactions.
  abbrev pub plain_body : Body s → Body s
  plain_body b = record b { txs = map uncached b.txs }

  module _ (bn : BigNumber) (big : IsBigEndian bn) (sol : IsSolTypes s)
      (sha3 : List ℕ → List ℕ) where
    -- When BN.js writes numbers big-endian in the given width and soltypes keeps the bytes of its
    -- values, a block with fewer than 65536 transactions whose parts fit their fields, with fewer
    -- than 256 mass deposits and 256 mass migrations, and whose header has a hash, is serialized
    -- without an error, and `Block.from` reads from these bytes a block with this hash, the same
    -- header and the same body, without the hashes and sizes cached in its transactions.
    pub block_from-serialize_block :
        (b : Block s) (hash : s.Bytes32) (verified : Option Bool)
        → IsSerializable b.body
        → header_hash s sha3 b.header ≡ some hash
        → (bs : List ℕ) × (serialize_block s bn b ≡ some bs)
          × (block_from s sha3 bs verified
              ≡ some record {
                hash = hash;
                header = b.header;
                body = plain_body b.body;
                slashed = none;
                verified = verified;
                bootstrap = none;
              })
    unfolding serialize_block serialize_body concat block_from
    block_from-serialize_block b hash verified ok hashed =
        let h = Parses-header s sol b.header in
        let hs = serialize_header s b.header in
        let w = writes-txs bn big b.body.txs ok.listable in
        let t = Parses-reading w in
        let (ds, made_ds, d) = Parses-mass_deposits s sol b.body.mass_deposits ok.few_deposits in
        let (ms, made_ms, m) =
          Parses-mass_migrations s sol b.body.mass_migrations ok.few_migrations in
        let end = ms ++ [] in
        (
          hs ++ ((w.bytes ++ (ds ++ (ms ++ []))) ++ []),
          rw (w.made, made_ds, made_ms),
          rw (++-[] (w.bytes ++ (ds ++ (ms ++ [])))) (
              four_steps (deserialize_header_from s) (parse_reading deserialize_txs_from)
                (deserialize_mass_deposits s) (deserialize_mass_migrations s)
                (λ h t d m. header_hash s sha3 h >>= λ hash. some record {
                  hash = hash;
                  header = h;
                  body = record { txs = t; mass_deposits = d; mass_migrations = m };
                  slashed = none;
                  verified = verified;
                  bootstrap = none;
                })
                (h.reads (w.bytes ++ (ds ++ (ms ++ [])))) (t.reads (ds ++ (ms ++ [])))
                (d.reads (ms ++ [])) (m.reads [])
              ∙ rw hashed),
        )
