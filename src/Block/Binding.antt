-- ===== src/Block/Binding.antt =====
-- What the hashes of packages/core/src/block/utils.ts and the checksum of block.ts commit to, when the
-- hash is free of collisions.
use zkopru.Base.{ℕ, ◌≡◌, sym, ap, ◌∙◌, subst, Option, none, some, List, [], ◌>>=◌}
use mathlib.Core.Option.{some-injective}
use zkopru.Transaction.Fp.{BigNumber, IsBigEndian}
use zkopru.Block.Parsing.{Parsing, Parses}
use zkopru.Block.Types.{SolTypes, IsSolTypes, Header, MassMigration}
use zkopru.Block.Header.{serialize_header, deserialize_header_from, Parses-header}
use zkopru.Block.Mass.{mass_migration_bytes, parse_mass_migration, Parses-mass_migration}
use zkopru.Block.Whole.{Block, header_hash, mass_migration_hash, checksum, block_from}
use zkopru.Block.RoundTrip.{IsSerializable, plain_body, block_from-serialize_block}

Parses-inj :
    {A : Type 0} {p : Parsing A} {bs : List ℕ} {a b : A} → Parses bs p a → Parses bs p b → a ≡ b
Parses-inj h k = ap (λ r. r.0) (some-injective _ _ (sym (h.reads []) ∙ k.reads []))

module _ (s : SolTypes) (sol : IsSolTypes s) (sha3 : List ℕ → List ℕ)
    (free : (xs ys : List ℕ) → sha3 xs ≡ sha3 ys → xs ≡ ys) where
  same_input :
      (xs ys : List ℕ) (hash : s.Bytes32)
      → s.bytes32_from (sha3 xs) ≡ some hash
      → s.bytes32_from (sha3 ys) ≡ some hash
      → xs ≡ ys
  same_input xs ys hash e k =
      free xs ys (sym (sol.bytes32_kept (sha3 xs) hash e) ∙ sol.bytes32_kept (sha3 ys) hash k)

  -- When the hash is free of collisions and soltypes keeps the bytes of its values, two headers
  -- with the same hash are equal.
  pub header_hash-binding :
      (h h' : Header s) (hash : s.Bytes32)
      → header_hash s sha3 h ≡ some hash
      → header_hash s sha3 h' ≡ some hash
      → h ≡ h'
  unfolding header_hash serialize_header
  header_hash-binding h h' hash e k =
      let same : serialize_header s h ≡ serialize_header s h' = same_input _ _ hash e k in
      Parses-inj (Parses-header s sol h)
        (subst (λ bs. Parses bs (deserialize_header_from s) h') (sym same) (Parses-header s sol h'))

  pub mass_migration_hash-binding :
      (m m' : MassMigration s) (hash : s.Bytes32)
      → mass_migration_hash s sha3 m ≡ some hash
      → mass_migration_hash s sha3 m' ≡ some hash
      → m ≡ m'
  unfolding mass_migration_hash mass_migration_bytes
  mass_migration_hash-binding m m' hash e k =
      let same : mass_migration_bytes s m ≡ mass_migration_bytes s m' = same_input _ _ hash e k in
      Parses-inj (Parses-mass_migration s sol m) (
        subst (λ bs. Parses bs (parse_mass_migration s) m') (sym same)
          (Parses-mass_migration s sol m'))

  sum_of :
      {o : Option (List ℕ)} {bs : List ℕ}
      → o ≡ some bs
      → (o >>= λ bs. some (sha3 bs)) ≡ some (sha3 bs)
  sum_of e = ap (λ o. o >>= λ bs. some (sha3 bs)) e

  module _ (bn : BigNumber) (big : IsBigEndian bn) where
    -- When the hash is free of collisions, BN.js writes numbers big-endian in the given width and
    -- soltypes keeps the bytes of its values, two blocks whose parts fit their fields, whose
    -- headers have hashes, and that have the same checksum have the same header and, but for what
    -- is cached in the transactions, the same body.
    pub checksum-binding :
        (b b' : Block s) (hash hash' : s.Bytes32)
        → IsSerializable s b.body
        → IsSerializable s b'.body
        → header_hash s sha3 b.header ≡ some hash
        → header_hash s sha3 b'.header ≡ some hash'
        → checksum s bn sha3 b ≡ checksum s bn sha3 b'
        → (b.header ≡ b'.header) × (plain_body s b.body ≡ plain_body s b'.body)
    unfolding checksum
    checksum-binding b b' hash hash' ok ok' hb hb' same =
        let (bs, made, read) = block_from-serialize_block s bn big sol sha3 b hash none ok hb in
        let (bs', made', read') =
          block_from-serialize_block s bn big sol sha3 b' hash' none ok' hb' in
        let sums : some (sha3 bs) ≡ some (sha3 bs') = sym (sum_of made) ∙ (same ∙ sum_of made') in
        let e = free bs bs' (some-injective _ _ sums) in
        let blocks =
          some-injective _ _ (sym read ∙ (ap (λ x. block_from s sha3 x none) e ∙ read')) in
        (ap (λ b. b.header) blocks, ap (λ b. b.body) blocks)
