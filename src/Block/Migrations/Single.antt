-- ===== src/Block/Migrations/Single.antt =====
-- `getMassMigrationForToken` of packages/core/src/block/utils.ts: the totals of the migration that it
-- makes of some notes.
use zkopru.Base.{
  ℕ, ◌+◌, ◌^◌, ◌<◌, ◌≡◌, refl, sym, ap, ◌∙◌, some, List, [], ◌∷◌, arith, All, map, length,
  length-map, filter,
}
use zkopru.Utils.Numbers.{digits, length-digits, read_hex-digits}
use zkopru.Transaction.Fp.{order, read_hex}
use zkopru.Transaction.ZkTx.{PublicData, ZkOutflow}
use zkopru.Transaction.ZkTx.Writes.{sum_map}
use zkopru.Block.Types.{SolTypes, IsSolTypes, MassDeposit, MassMigration}
use zkopru.Block.Migrations.{
  SolNumbers, eth_of, amount_of, fee_of, reduce_fp, to_bytes32, to_uint256, merge_loop,
  merge_deposits, deposit_of, get_mass_migration_for_token, is_token, is_to,
}
use zkopru.Block.Migrations.Sums.{reduce_fp_total, traverse-All, sum_map-map}

-- What soltypes and the hash document: 32 bytes make a value, whose number they write; a number that
-- fits makes a value; a hash has 32 bytes.
pub record IsSolNumbers (s : SolTypes) (n : SolNumbers s) : Type 0 where
  pub bytes32_made : (bs : List ℕ) → length bs ≡ 32 → (b : s.Bytes32) × (s.bytes32_from bs ≡ some b)
  pub uint_value : (b : s.Bytes32) → n.uint256_number (s.to_uint b) ≡ read_hex 0 (s.bytes32_bytes b)
  pub address_made :
      (x : ℕ)
      → x < 256 ^ 20
      → (a : s.Address) × (n.address_of_hex x ≡ some a) × (n.address_number a ≡ x)
  pub uint256_made :
      (x : ℕ)
      → x < 256 ^ 32
      → (u : s.Uint256) × (n.uint256_of x ≡ some u) × (n.uint256_number u ≡ x)
  pub sha3_size : (xs ys : List ℕ) → length (n.sha3_two xs ys) ≡ 32

-- A note with data whose parts fit their fields.
pub record IsMigrating (o : ZkOutflow) : Type 0 where
  pub content : PublicData
  pub has : o.data_of ≡ some content
  pub to_fits : content.to < 256 ^ 20
  pub token_fits : content.token_addr < 256 ^ 20
  pub note_fits : o.note < order
  pub fee_fits : content.fee < order

-- ETH, ERC20 and fee.
abbrev pub Totals : Type 0
Totals = ℕ × ℕ × ℕ

abbrev pub totals_of : List ZkOutflow → Totals
totals_of os = (sum_map eth_of os, sum_map amount_of os, sum_map fee_of os)

pub record IsSmall (os : List ZkOutflow) : Type 0 where
  pub eth_fits : sum_map eth_of os < order
  pub amount_fits : sum_map amount_of os < order
  pub total_fee_fits : sum_map fee_of os < order

sum_of_maps :
    {A B : Type 0} (f : A → ℕ) (g : B → ℕ) (xs : List A) (ys : List B)
    → map f xs ≡ map g ys
    → sum_map f xs ≡ sum_map g ys
sum_of_maps f g xs ys e =
    sym (sum_map-map (λ k. k) f xs) ∙ (ap (sum_map (λ k. k)) e ∙ sum_map-map (λ k. k) g ys)

length_of_maps :
    {A B : Type 0} (f : A → ℕ) (g : B → ℕ) (xs : List A) (ys : List B)
    → map f xs ≡ map g ys
    → length xs ≡ length ys
length_of_maps f g xs ys e = sym (length-map f xs) ∙ (ap length e ∙ length-map g ys)

field-fits : (x : ℕ) → x < order → x < 256 ^ 32
unfolding order
field-fits x h = omega arith

module _ (s : SolTypes) (n : SolNumbers s) where
  abbrev pub totals : MassMigration s → Totals
  totals m = (
    n.uint256_number (m.asset.eth),
    n.uint256_number (m.asset.amount),
    n.uint256_number (m.deposit_for_dest.fee),
  )

  module _ (sol : IsSolTypes s) (num : IsSolNumbers s n) where
    pub to_uint256_lem :
        (x : ℕ)
        → x < order
        → (u : s.Uint256) × (to_uint256 s n x ≡ some u) × (n.uint256_number u ≡ x)
    unfolding to_uint256 to_bytes32
    to_uint256_lem x small =
        let (b, made) = num.bytes32_made (digits 32 x) (length-digits 32 x) in
        (
          s.to_uint b,
          rw made refl,
          num.uint_value b
              ∙ (ap (read_hex 0) (sol.bytes32_kept _ b made)
                  ∙ read_hex-digits 32 x (field-fits x small)),
        )

    deposit_of_lem :
        (o : ZkOutflow)
        → IsMigrating o
        → (d : s.Bytes32 × s.Uint256) × (deposit_of s n o ≡ some d)
          × (n.uint256_number d.1 ≡ fee_of o)
    unfolding deposit_of to_bytes32
    deposit_of_lem o h =
        let (b, made) = num.bytes32_made (digits 32 o.note) (length-digits 32 o.note) in
        let (u, made_u, value) = to_uint256_lem h.content.fee h.fee_fits in
        ((b, u), rw (made, h.has, made_u) refl, rw h.has value)

    merge_loop_lem :
        (ds : List (s.Bytes32 × s.Uint256)) (merged : List ℕ) (fee : ℕ)
        → ((merge_loop s n ds merged fee).1 ≡ fee + sum_map (λ d. n.uint256_number d.1) ds)
          × ((length merged ≡ 32) → length ((merge_loop s n ds merged fee).0) ≡ 32)
    unfolding merge_loop
    merge_loop_lem [] merged fee = (omega arith, λ h. h)
    merge_loop_lem (d ∷ ds) merged fee =
        let r =
          merge_loop_lem ds (n.sha3_two merged (s.bytes32_bytes d.0))
            (fee + n.uint256_number d.1) in
        (omega (arith, r.0), λ h. r.1 (num.sha3_size _ _))

    merge_deposits_lem :
        (ds : List (s.Bytes32 × s.Uint256))
        → 0 < length ds
        → sum_map (λ d. n.uint256_number d.1) ds < order
        → (m : MassDeposit s) × (merge_deposits s n ds ≡ some m)
          × (n.uint256_number m.fee ≡ sum_map (λ d. n.uint256_number d.1) ds)
    unfolding merge_deposits merge_loop
    merge_deposits_lem [] some_ small = absurd (omega arith)
    merge_deposits_lem (d ∷ ds) some_ small =
        let start = n.sha3_two [] (s.bytes32_bytes d.0) in
        let r = merge_loop_lem ds start (0 + n.uint256_number d.1) in
        let (b, made) = num.bytes32_made _ (r.1 (num.sha3_size _ _)) in
        let total : 0 + n.uint256_number d.1 + sum_map (λ d. n.uint256_number d.1) ds
            ≡ n.uint256_number d.1 + sum_map (λ d. n.uint256_number d.1) ds =
          omega arith in
        let (f, made_f, value) = num.uint256_made _ (field-fits _ small) in
        (record { merged = b; fee = f }, rw (made, r.0, total, made_f) refl, value)

    pub get_mass_migration_for_token_lem :
        (dest token : s.Address) (migrating : List ZkOutflow)
        → let notes =
            filter
              (is_token (n.address_number token))
              (filter (is_to (n.address_number dest)) migrating) in
          All IsMigrating notes
          → 0 < length notes
          → IsSmall notes
          → (m : MassMigration s) × (get_mass_migration_for_token s n dest token migrating ≡ some m)
            × (totals m ≡ totals_of notes)
            × (m.destination ≡ dest)
            × (m.asset.token ≡ token)
    unfolding get_mass_migration_for_token
    get_mass_migration_for_token_lem dest token migrating all some_ small =
        let notes =
          filter (is_token (n.address_number token))
            (filter (is_to (n.address_number dest)) migrating) in
        let eth_sum : reduce_fp eth_of 0 notes ≡ sum_map eth_of notes =
          reduce_fp_total eth_of notes small.eth_fits in
        let amount_sum : reduce_fp amount_of 0 notes ≡ sum_map amount_of notes =
          reduce_fp_total amount_of notes small.amount_fits in
        let (e, made_e, value_e) = to_uint256_lem (sum_map eth_of notes) small.eth_fits in
        let (a, made_a, value_a) = to_uint256_lem (sum_map amount_of notes) small.amount_fits in
        let (ds, made_ds, same) =
          traverse-All IsMigrating (deposit_of s n) (λ d. n.uint256_number d.1) fee_of
            deposit_of_lem notes all in
        let fees = sum_of_maps (λ d. n.uint256_number d.1) fee_of ds notes same in
        let sizes = length_of_maps (λ d. n.uint256_number d.1) fee_of ds notes same in
        let (d, made_d, value_d) =
          merge_deposits_lem ds (omega (arith, sizes))
            (omega (arith, fees, small.total_fee_fits)) in
        let value_f = value_d ∙ fees in
        (
          record {
            destination = dest;
            asset = record { eth = e; token = token; amount = a };
            deposit_for_dest = d;
          },
          rw (eth_sum, made_e, amount_sum, made_a, made_ds, made_d) refl,
          λ i. (value_e i, value_a i, value_f i),
          refl,
          refl,
        )
