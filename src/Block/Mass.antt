-- ===== src/Block/Mass.antt =====
-- Mass deposits and mass migrations, serialized and read again by packages/core/src/block/utils.ts.
use zkopru.Base.{ℕ, ◌≡◌, ◌<◌, ◌++◌, Option, some, List, [], ◌∷◌, ◌>>=◌, map, length, arith, subst}
use zkopru.Transaction.ZkTx.Writes.{++-[]}
use zkopru.Utils.Numbers.{num_to_buffer, dequeue_to_number, writes-number}
use zkopru.Block.Parsing.{
  Parsing, parsed, ◌|>◌, parse_reading, parse_many, join, Parses, Parses-nil, Parses-then,
  Parses-reading, Parses-many,
}
use zkopru.Block.Types.{SolTypes, IsSolTypes, MassDeposit, MassMigration}
use zkopru.Block.Header.{
  dequeue_to_address, dequeue_to_bytes32, dequeue_to_uint256, Parses-address, Parses-bytes32,
  Parses-uint256,
}

module _ (s : SolTypes) where
  unfoldable pub mass_deposit_bytes : MassDeposit s → List ℕ
  mass_deposit_bytes d = join (s.bytes32_bytes d.merged ∷ s.uint256_bytes d.fee ∷ [])

  unfoldable pub serialize_mass_deposits : List (MassDeposit s) → Option (List ℕ)
  serialize_mass_deposits ds =
      num_to_buffer (length ds) 1 >>= λ n. some (n ++ join (map mass_deposit_bytes ds))

  unfoldable pub mass_migration_bytes : MassMigration s → List ℕ
  mass_migration_bytes m = join (
      s.address_bytes m.destination
      ∷ s.uint256_bytes (m.asset.eth)
      ∷ s.address_bytes (m.asset.token)
      ∷ s.uint256_bytes (m.asset.amount)
      ∷ s.bytes32_bytes (m.deposit_for_dest.merged)
      ∷ s.uint256_bytes (m.deposit_for_dest.fee)
      ∷ [])

  unfoldable pub serialize_mass_migrations : List (MassMigration s) → Option (List ℕ)
  serialize_mass_migrations ms =
      num_to_buffer (length ms) 1 >>= λ n. some (n ++ join (map mass_migration_bytes ms))

  unfoldable pub parse_mass_deposit : Parsing (MassDeposit s)
  parse_mass_deposit = dequeue_to_bytes32 s |> λ b.
      dequeue_to_uint256 s |> λ f. parsed record { merged = b; fee = f }

  unfoldable pub deserialize_mass_deposits : Parsing (List (MassDeposit s))
  deserialize_mass_deposits =
      parse_reading (dequeue_to_number 1) |> λ n. parse_many n parse_mass_deposit |> λ ds. parsed ds

  unfoldable pub parse_mass_migration : Parsing (MassMigration s)
  parse_mass_migration = dequeue_to_address s |> λ d. dequeue_to_uint256 s |> λ e.
      dequeue_to_address s |> λ t. dequeue_to_uint256 s |> λ a. dequeue_to_bytes32 s |> λ b.
      dequeue_to_uint256 s |> λ f. parsed record {
        destination = d;
        asset = record { eth = e; token = t; amount = a };
        deposit_for_dest = record { merged = b; fee = f };
      }

  unfoldable pub deserialize_mass_migrations : Parsing (List (MassMigration s))
  deserialize_mass_migrations = parse_reading (dequeue_to_number 1) |> λ n.
      parse_many n parse_mass_migration |> λ ms. parsed ms

  module _ (sol : IsSolTypes s) where
    Parses-mass_deposit : (d : MassDeposit s) → Parses (mass_deposit_bytes d) parse_mass_deposit d
    unfolding mass_deposit_bytes parse_mass_deposit join
    Parses-mass_deposit d =
        Parses-then _ (Parses-bytes32 s sol d.merged)
          (Parses-then _ (Parses-uint256 s sol d.fee) (Parses-nil d))

    pub Parses-mass_migration :
        (m : MassMigration s) → Parses (mass_migration_bytes m) parse_mass_migration m
    unfolding mass_migration_bytes parse_mass_migration join
    Parses-mass_migration m = Parses-then _ (Parses-address s sol m.destination) (
        Parses-then _ (Parses-uint256 s sol (m.asset.eth)) (
          Parses-then _ (Parses-address s sol (m.asset.token)) (
            Parses-then _ (Parses-uint256 s sol (m.asset.amount)) (
              Parses-then _ (Parses-bytes32 s sol (m.deposit_for_dest.merged))
                (Parses-then _ (Parses-uint256 s sol (m.deposit_for_dest.fee)) (Parses-nil m))))))

  -- Items behind their number in a byte.
  Parses-counted :
      {A : Type 0} (enc : A → List ℕ) (p : Parsing A)
      → ((x : A) → Parses (enc x) p x)
      → (xs : List A) → length xs < 256
      → (bs : List ℕ) × ((num_to_buffer (length xs) 1 >>= λ n. some (n ++ join (map enc xs)))
          ≡ some bs)
        × Parses bs
            (parse_reading (dequeue_to_number 1) |> λ n. parse_many n p |> λ ys. parsed ys)
            xs
  Parses-counted enc p each xs few =
      let w = writes-number (length xs) 1 (omega arith) in
      let items = Parses-many enc p (λ ys. parsed ys) each xs (Parses-nil xs) in
      let same = ++-[] (join (map enc xs)) in
      (
        w.bytes ++ join (map enc xs),
        rw (w.made),
        Parses-then _ (Parses-reading w)
            (subst (λ bs. Parses bs (parse_many (length xs) p |> λ ys. parsed ys) xs) same items),
      )

  module _ (sol : IsSolTypes s) where
    pub Parses-mass_deposits :
        (ds : List (MassDeposit s))
        → length ds < 256
        → (bs : List ℕ) × (serialize_mass_deposits ds ≡ some bs)
          × Parses bs deserialize_mass_deposits ds
    unfolding serialize_mass_deposits deserialize_mass_deposits
    Parses-mass_deposits =
        Parses-counted mass_deposit_bytes parse_mass_deposit (Parses-mass_deposit sol)

    pub Parses-mass_migrations :
        (ms : List (MassMigration s))
        → length ms < 256
        → (bs : List ℕ) × (serialize_mass_migrations ms ≡ some bs)
          × Parses bs deserialize_mass_migrations ms
    unfolding serialize_mass_migrations deserialize_mass_migrations
    Parses-mass_migrations =
        Parses-counted mass_migration_bytes parse_mass_migration (Parses-mass_migration sol)
