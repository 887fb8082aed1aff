-- ===== src/Block/Migrations/Missing.antt =====
-- `getMassMigrations` of packages/core/src/block/utils.ts where a destination takes no note of some
-- token: the migration for this pair merges nothing, and its hash is made from the empty string.
use zkopru.Base.{
  ℕ, ◌^◌, ◌<◌, ◌≡◌, refl, sym, ap, ◌∙◌, subst, true, Option, Option-cases, inl, inr, none, List, [],
  ◌∷◌, arith, ◌==◌, Bool-cases, ==_iff, All, All-map, map, traverse, unique, count, member, length,
}
use mathlib.Core.Option.{none-ne-some}
use zkopru.Transaction.ZkTx.{ZkOutflow, ZkTx}
use zkopru.Block.Types.{SolTypes, IsSolTypes}
use zkopru.Block.Migrations.{
  SolNumbers, to_uint256, merge_loop, merge_deposits, reduce_fp, migrating_notes, to_of, token_of,
  get_mass_migration_for_token, migrations_for, get_mass_migrations,
}
use zkopru.Block.Migrations.Sums.{count-unique, All-to-map}
use zkopru.Block.Migrations.Single.{IsSolNumbers, IsMigrating}
use zkopru.Block.Migrations.Keys.{
  notes_for, key_to, key_token, read_keys, to_of_key, token_of_key, token_small, to_small,
}
use zkopru.Block.Migrations.Conserves.{addresses_lem}

traverse-none :
    {A B : Type 0} (g : A → Option B) (key : A → ℕ) (k : ℕ)
    → ((x : A) → key x ≡ k → g x ≡ none)
    → (xs : List A) → member k (map key xs) ≡ true
    → traverse g xs ≡ none
traverse-none g key k stop [] h = absurd (ground (arith, h))
traverse-none g key k stop (x ∷ xs) h = elim (Option-cases (g x)) [
  | inl e ↦ rw e refl
  | inr (y, e) ↦ elim (Bool-cases (k == key x)) [
    | inl same ↦ absurd (none-ne-some y (sym (stop x (sym ((==_iff k (key x)).0 same))) ∙ e))
    | inr other ↦ rw (e, traverse-none g key k stop xs (ground (arith, h, other))) refl
  ]
]

count-member : (k : ℕ) (ks : List ℕ) → 0 < count k ks → member k ks ≡ true
count-member k [] h = absurd (omega arith)
count-member k (x ∷ xs) h = ground (arith, h, count-member k xs)

member-unique : (k : ℕ) (ks : List ℕ) → member k ks ≡ true → member k (unique ks) ≡ true
member-unique k ks h = count-member k (unique ks) (omega (arith, count-unique k ks h))

module _ (s : SolTypes) (n : SolNumbers s) (refused : s.bytes32_from [] ≡ none) where
  nothing_merged :
      (dest token : s.Address) (notes : List ZkOutflow)
      → notes_for notes (n.address_number dest) (n.address_number token) ≡ []
      → get_mass_migration_for_token s n dest token notes ≡ none
  unfolding get_mass_migration_for_token merge_deposits merge_loop reduce_fp
  nothing_merged dest token notes e = elim (Option-cases (to_uint256 s n 0)) [
    | inl u ↦ rw (e, u) refl
    | inr (z, u) ↦ rw (e, u, refused) refl
  ]

  migrations_for_missing :
      (d t : ℕ) (notes : List ZkOutflow) (dests tokens : List s.Address)
      → notes_for notes d t ≡ []
      → member d (map n.address_number dests) ≡ true
      → member t (map n.address_number tokens) ≡ true
      → migrations_for s n dests tokens notes ≡ none
  unfolding migrations_for
  migrations_for_missing d t notes [] tokens e in_d in_t = absurd (ground (arith, in_d))
  migrations_for_missing d t notes (a ∷ as') tokens e in_d in_t =
      elim (Bool-cases (d == n.address_number a)) [
        | inl same ↦
            let row =
              traverse-none (λ b. get_mass_migration_for_token s n a b notes) n.address_number t
                (λ b h. nothing_merged a b notes (
                  ap (λ k. notes_for notes k (n.address_number b))
                    (sym ((==_iff d (n.address_number a)).0 same))
                  ∙ (ap (notes_for notes d) h ∙ e)))
                tokens in_t in
            rw row refl
        | inr other ↦
            let rest =
              migrations_for_missing d t notes as' tokens e (ground (arith, in_d, other)) in_t in
            elim (Option-cases
              (traverse (λ b. get_mass_migration_for_token s n a b notes) tokens)) [
                | inl none_ ↦ rw none_ refl
                | inr (ms, some_) ↦ rw (some_, rest) refl
              ]
      ]

module _ (s : SolTypes) (n : SolNumbers s) (sol : IsSolTypes s) (num : IsSolNumbers s n) where
  -- A value of 32 bytes is not made from none.
  empty_refused : s.bytes32_from [] ≡ none
  empty_refused = elim (Option-cases (s.bytes32_from [])) [
    | inl e ↦ e
    | inr (b, e) ↦ absurd (omega (arith, sol.bytes32_size b, ap length (sol.bytes32_kept [] b e)))
  ]

  -- When soltypes keeps the bytes and numbers of its values and hashes have 32 bytes, for
  -- transactions whose migrating notes have data that fit their fields, and among which one
  -- destination and one token occur but no note has both, `getMassMigrations` throws.
  pub get_mass_migrations_missing :
      (txs : List ZkTx) (d t : ℕ)
      → All IsMigrating (migrating_notes txs)
      → member d (map key_to (migrating_notes txs)) ≡ true
      → member t (map key_token (migrating_notes txs)) ≡ true
      → notes_for (migrating_notes txs) d t ≡ []
      → get_mass_migrations s n txs ≡ none
  unfolding get_mass_migrations
  get_mass_migrations_missing txs d t all in_d in_t e =
      let notes = migrating_notes txs in
      let (tokens, made_t, num_t, _) =
        addresses_lem s n sol num (map key_token notes)
          (All-to-map (λ k. k < 256 ^ 20) key_token notes (All-map notes token_small all)) in
      let (dests, made_d, num_d, _) =
        addresses_lem s n sol num (map key_to notes)
          (All-to-map (λ k. k < 256 ^ 20) key_to notes (All-map notes to_small all)) in
      rw
        (
          read_keys token_of key_token token_of_key notes all,
          made_t,
          read_keys to_of key_to to_of_key notes all,
          made_d,
        )
        (migrations_for_missing s n empty_refused d t notes dests tokens e
          (subst (λ ks. member d ks ≡ true) (sym num_d) (member-unique d (map key_to notes) in_d))
          (subst (λ ks. member t ks ≡ true) (sym num_t)
            (member-unique t (map key_token notes) in_t)))
