-- ===== src/Block/Migrations/Conserves.antt =====
-- `getMassMigrations` of packages/core/src/block/utils.ts: nothing of the migrating notes is lost.
use zkopru.Base.{
  ℕ, ◌^◌, ◌≤◌, ◌<◌, ◌≡◌, refl, sym, ap, ◌∙◌, subst, fun_ext, true, some, List, [], ◌∷◌, ◌++◌, arith,
  All, All-map, map, length, filter, traverse, unique, member,
}
use mathlib.Core.List.{map-append}
use zkopru.Transaction.ZkTx.{ZkOutflow, ZkTx}
use zkopru.Transaction.ZkTx.Writes.{sum_map}
use zkopru.Block.Types.{SolTypes, IsSolTypes, MassMigration}
use zkopru.Block.Migrations.{
  SolNumbers, eth_of, amount_of, fee_of, is_to, is_token, to_of, token_of, migrating_notes,
  get_mass_migration_for_token, migrations_for, get_mass_migrations,
}
use zkopru.Block.Migrations.Sums.{
  sum_map-filter_le, All-filter, sum_map-map, traverse-All, All-of-map, All-to-map,
  All-unique_after, All-member,
}
use zkopru.Block.Migrations.Single.{
  IsSolNumbers, IsMigrating, Totals, totals, totals_of, IsSmall, get_mass_migration_for_token_lem,
}
use zkopru.Block.Migrations.Keys.{
  key_to, key_token, notes_for, sum_notes_for, grid, sum_map-grid, read_keys, to_of_key,
  token_of_key, token_small, to_small,
}

-- Notes that migrate: each destination takes some note of each token.
pub record IsMigratable (notes : List ZkOutflow) : Type 0 where
  pub migrating : All IsMigrating notes
  pub crossed :
      (d t : ℕ)
      → member d (map key_to notes) ≡ true
      → member t (map key_token notes) ≡ true
      → 0 < length (notes_for notes d t)
  pub small : IsSmall notes

IsSmall-notes_for :
    (notes : List ZkOutflow) (d t : ℕ) → IsSmall notes → IsSmall (notes_for notes d t)
IsSmall-notes_for notes d t h =
    let below = λ (f : ZkOutflow → ℕ).
      let one = sum_map-filter_le f (is_to d) notes in
      let two = sum_map-filter_le f (is_token t) (filter (is_to d) notes) in le_trans two one in
    record {
      eth_fits = omega (arith, below eth_of, h.eth_fits);
      amount_fits = omega (arith, below amount_of, h.amount_fits);
      total_fee_fits = omega (arith, below fee_of, h.total_fee_fits);
    }
  where
    le_trans : {a b c : ℕ} → a ≤ b → b ≤ c → a ≤ c
    le_trans p q = omega arith

module _ (s : SolTypes) (n : SolNumbers s) (sol : IsSolTypes s) (num : IsSolNumbers s n) where
  abbrev total_for : List ZkOutflow → s.Address → s.Address → Totals
  total_for notes d t = totals_of (notes_for notes (n.address_number d) (n.address_number t))

  migrations_for_lem :
      (notes : List ZkOutflow) (dests tokens : List s.Address)
      → IsMigratable notes
      → All (λ a. member (n.address_number a) (map key_to notes) ≡ true) dests
      → All (λ a. member (n.address_number a) (map key_token notes) ≡ true) tokens
      → (ms : List (MassMigration s)) × (migrations_for s n dests tokens notes ≡ some ms)
        × (map (totals s n) ms ≡ grid (total_for notes) dests tokens)
  unfolding migrations_for
  migrations_for_lem notes [] tokens ok in_d in_t = ([], refl, refl)
  migrations_for_lem notes (d ∷ ds) tokens ok in_d in_t =
      let row =
        traverse-All (λ a. member (n.address_number a) (map key_token notes) ≡ true)
          (λ t. get_mass_migration_for_token s n d t notes) (totals s n) (total_for notes d)
          (λ t h.
            let (m, made, same, _, _) =
              get_mass_migration_for_token_lem s n sol num d t notes
                (All-filter IsMigrating (is_token (n.address_number t)) _
                  (All-filter IsMigrating (is_to (n.address_number d)) notes ok.migrating))
                (ok.crossed _ _ in_d.0 h) (IsSmall-notes_for notes _ _ ok.small) in
            (m, made, same))
          tokens in_t in
      let (rest, made, same) = migrations_for_lem notes ds tokens ok in_d.1 in_t in
      (
        row.0 ++ rest,
        rw (row.1, made) refl,
        map-append (totals s n) row.0 rest ∙ (λ i. row.2 i ++ same i),
      )

  -- The addresses of the keys.
  pub addresses_lem :
      (keys : List ℕ)
      → All (λ k. k < 256 ^ 20) keys
      → (found : List s.Address) × (traverse n.address_of_hex (unique keys) ≡ some found)
        × (map n.address_number found ≡ unique keys)
        × All (λ a. member (n.address_number a) keys ≡ true) found
  addresses_lem keys fit =
      let (found, made, same) =
        traverse-All (λ k. k < 256 ^ 20) n.address_of_hex n.address_number (λ k. k) num.address_made
          (unique keys) (All-unique_after (λ k. k < 256 ^ 20) [] keys fit) in
      let numbers = same ∙ map_id (unique keys) in
      (
        found,
        made,
        numbers,
        All-of-map (λ k. member k keys ≡ true) n.address_number found
            (subst (All (λ k. member k keys ≡ true)) (sym numbers)
              (All-unique_after (λ k. member k keys ≡ true) [] keys (All-member keys))),
      )
    where
      map_id : (ks : List ℕ) → map (λ k. k) ks ≡ ks
      map_id [] = refl
      map_id (k ∷ ks) = ap (◌∷◌ k) (map_id ks)

  -- The totals of the grid are those of the notes.
  sum_grid :
      (p : Totals → ℕ) (f : ZkOutflow → ℕ) (notes : List ZkOutflow) (dests tokens : List s.Address)
      → ((os : List ZkOutflow) → p (totals_of os) ≡ sum_map f os)
      → All IsMigrating notes
      → map n.address_number dests ≡ unique (map key_to notes)
      → map n.address_number tokens ≡ unique (map key_token notes)
      → sum_map p (grid (total_for notes) dests tokens) ≡ sum_map f notes
  sum_grid p f notes dests tokens part all e k =
      let ts = unique (map key_token notes) in
      sum_map-grid p (total_for notes) dests tokens
      ∙ (ap (λ g. sum_map g dests)
            (fun_ext (λ d.
              ap (λ g. sum_map g tokens)
                (fun_ext (λ t. part (notes_for notes (n.address_number d) (n.address_number t))))
              ∙ (sym (
                    sum_map-map (λ t. sum_map f (notes_for notes (n.address_number d) t))
                      n.address_number tokens)
                  ∙ ap (sum_map (λ t. sum_map f (notes_for notes (n.address_number d) t))) k)))
          ∙ (sym (
                sum_map-map (λ d. sum_map (λ t. sum_map f (notes_for notes d t)) ts)
                  n.address_number dests)
              ∙ (ap (sum_map (λ d. sum_map (λ t. sum_map f (notes_for notes d t)) ts)) e
                  ∙ sum_notes_for f notes all)))

  -- When soltypes keeps the bytes and numbers of its values and hashes have 32 bytes, for
  -- transactions whose migrating notes have data that fit their fields, sum up below the order of
  -- the field, and leave no destination without a note of some token, `getMassMigrations` does not
  -- throw, and the ETH, the ERC20 amounts and the fees of all of its migrations sum up to those of
  -- the migrating notes.
  pub get_mass_migrations-conserves :
      (txs : List ZkTx)
      → IsMigratable (migrating_notes txs)
      → let notes = migrating_notes txs in
        (ms : List (MassMigration s)) × (get_mass_migrations s n txs ≡ some ms)
        × (sum_map (λ m. n.uint256_number (m.asset.eth)) ms ≡ sum_map eth_of notes)
        × (sum_map (λ m. n.uint256_number (m.asset.amount)) ms ≡ sum_map amount_of notes)
        × (sum_map (λ m. n.uint256_number (m.deposit_for_dest.fee)) ms ≡ sum_map fee_of notes)
  unfolding get_mass_migrations
  get_mass_migrations-conserves txs ok =
      let notes = migrating_notes txs in
      let all = ok.migrating in
      let (tokens, made_t, num_t, in_t) =
        addresses_lem (map key_token notes)
          (All-to-map (λ k. k < 256 ^ 20) key_token notes (All-map notes token_small all)) in
      let (dests, made_d, num_d, in_d) =
        addresses_lem (map key_to notes)
          (All-to-map (λ k. k < 256 ^ 20) key_to notes (All-map notes to_small all)) in
      let (ms, made, same) = migrations_for_lem notes dests tokens ok in_d in_t in
      let whole =
        λ (p : Totals → ℕ) (f : ZkOutflow → ℕ)
            (part : (os : List ZkOutflow) → p (totals_of os) ≡ sum_map f os).
          sym (sum_map-map p (totals s n) ms)
          ∙ (ap (sum_map p) same ∙ sum_grid p f notes dests tokens part all num_d num_t) in
      (
        ms,
        rw
            (
              read_keys token_of key_token token_of_key notes all,
              made_t,
              read_keys to_of key_to to_of_key notes all,
              made_d,
            )
            made,
        whole (λ r. r.0) eth_of (λ os. refl),
        whole (λ r. r.1) amount_of (λ os. refl),
        whole (λ r. r.2) fee_of (λ os. refl),
      )
