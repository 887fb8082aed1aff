-- ===== src/Validator/Header/Roots.antt =====
-- What the roots in the header of a block commit to, as offchain-header-validator.ts checks them.
use zkopru.Base.{
  ℕ, suc, ◌≡◌, refl, sym, ap, ◌∙◌, Bool, true, false, not, Option, Option-cases, inl, inr, some,
  List, [], ◌∷◌, arith, traverse, Eq, length, cons_inj,
}
use mathlib.Core.Option.{some-injective, none-ne-some}
use zkopru.Tree.Spec.{IsInjective}
use zkopru.Utils.Root.{root, root_inj}
use zkopru.Block.Types.{SolTypes, IsSolTypes}
use zkopru.Block.Whole.{Block, mass_migration_hash}
use zkopru.Block.Binding.{mass_migration_hash-binding}
use zkopru.Block.Migrations.{SolNumbers}
use zkopru.Validator.Migration.{h3}
use zkopru.Validator.Header.{validate_migration_root}

traverse-cons :
    {A B : Type 0} (g : A → Option B) (x : A) (xs : List A) (ys : List B)
    → traverse g (x ∷ xs) ≡ some ys
    → (y : B) × (zs : List B) × (g x ≡ some y) × (traverse g xs ≡ some zs) × (y ∷ zs ≡ ys)
traverse-cons g x xs ys e = elim (Option-cases (g x)) [
  | inl n ↦ absurd (none-ne-some ys (sym (rw n refl) ∙ e))
  | inr (y, m) ↦ elim (Option-cases (traverse g xs)) [
    | inl n ↦ absurd (none-ne-some ys (sym (rw (m, n) refl) ∙ e))
    | inr (zs, k) ↦
        let whole : traverse g (x ∷ xs) ≡ some (y ∷ zs) = rw (m, k) refl in
        (y, zs, m, k, some-injective _ _ (sym whole ∙ e))
  ]
]

pub traverse-length :
    {A B : Type 0} (g : A → Option B) (xs : List A) (ys : List B)
    → traverse g xs ≡ some ys
    → length ys ≡ length xs
traverse-length g [] ys e = ap length (sym (some-injective _ _ e))
traverse-length g (x ∷ xs) ys e =
    let (y, zs, m, k, same) = traverse-cons g x xs ys e in
    ap length (sym same) ∙ ap suc (traverse-length g xs zs k)

-- A callback with different results on different elements.
traverse_inj :
    {A B : Type 0} (g : A → Option B)
    → ((x x' : A) (y : B) → g x ≡ some y → g x' ≡ some y → x ≡ x')
    → (xs xs' : List A) (ys : List B) → traverse g xs ≡ some ys
    → traverse g xs' ≡ some ys
    → xs ≡ xs'
traverse_inj g inj [] [] ys e k = refl
traverse_inj g inj [] (x' ∷ xs') ys e k =
    absurd (omega (arith, traverse-length g [] ys e, traverse-length g (x' ∷ xs') ys k))
traverse_inj g inj (x ∷ xs) [] ys e k =
    absurd (omega (arith, traverse-length g [] ys k, traverse-length g (x ∷ xs) ys e))
traverse_inj g inj (x ∷ xs) (x' ∷ xs') ys e k =
    let (y, zs, m, r, same) = traverse-cons g x xs ys e in
    let (y', zs', m', r', same') = traverse-cons g x' xs' ys k in
    let (heads, tails) = cons_inj y' y zs' zs (same' ∙ sym same) in
    let here = inj x x' y m (m' ∙ ap some heads) in
    let rest = traverse_inj g inj xs xs' zs r (r' ∙ ap some tails) in λ i. here i ∷ rest i

module _ (s : SolTypes) (n : SolNumbers s) ⦃e : Eq s.Bytes32⦄
    (parent_of : s.Bytes32 → s.Bytes32 → s.Bytes32) (zero_bytes : s.Bytes32) (sol : IsSolTypes s)
    (sha3 : List ℕ → List ℕ) (free : (xs ys : List ℕ) → sha3 xs ≡ sha3 ys → xs ≡ ys)
    (free_parents : IsInjective parent_of) where
  accepted :
      (b : Block s)
      → validate_migration_root s n parent_of zero_bytes sha3 b
        ≡ some record { slashable = false; reason = h3 }
      → (hs : List s.Bytes32) × (traverse (mass_migration_hash s sha3) (b.body.mass_migrations)
          ≡ some hs)
        × (b.header.migration_root ≡ root parent_of zero_bytes hs)
  unfolding validate_migration_root
  accepted b ok =
      elim (Option-cases (traverse (mass_migration_hash s sha3) (b.body.mass_migrations))) [
        | inl m ↦ absurd (none-ne-some _ (sym (rw m refl) ∙ ok))
        | inr (hs, m) ↦
            let whole : validate_migration_root s n parent_of zero_bytes sha3 b
                ≡ some record {
                  slashable = not (e.beq (b.header.migration_root) (root parent_of zero_bytes hs));
                  reason = h3;
                } =
              rw m refl in
            let test = ap (λ v. v.slashable) (some-injective _ _ (sym whole ∙ ok)) in
            (hs, m, (e.beq_iff _ _).0 (not_false _ test))
      ]
    where
      not_false : (b : Bool) → not b ≡ false → b ≡ true
      not_false true h = refl
      not_false false h = absurd (ground (arith, h))

  -- When the hash of bytes is free of collisions, that of two values is injective, and soltypes
  -- keeps the bytes of its values, two blocks with the same migration root and equally many mass
  -- migrations that `validateMigrationRoot` does not find slashable have the same mass migrations.
  pub validate_migration_root-binding :
      (b b' : Block s)
      → b.header.migration_root ≡ b'.header.migration_root
      → length (b.body.mass_migrations) ≡ length (b'.body.mass_migrations)
      → validate_migration_root s n parent_of zero_bytes sha3 b
        ≡ some record { slashable = false; reason = h3 }
      → validate_migration_root s n parent_of zero_bytes sha3 b'
        ≡ some record { slashable = false; reason = h3 }
      → b.body.mass_migrations ≡ b'.body.mass_migrations
  validate_migration_root-binding b b' same_root same_length ok ok' =
      let hash = mass_migration_hash s sha3 in
      let (hs, made, root_b) = accepted b ok in
      let (hs', made', root_b') = accepted b' ok' in
      let l = traverse-length hash (b.body.mass_migrations) hs made in
      let l' = traverse-length hash (b'.body.mass_migrations) hs' made' in
      let hashes =
        root_inj parent_of zero_bytes free_parents hs hs' (omega (arith, l, l', same_length))
          (sym root_b ∙ (same_root ∙ root_b')) in
      traverse_inj hash (λ m m' h. mass_migration_hash-binding s sol sha3 free m m' h)
        (b.body.mass_migrations) (b'.body.mass_migrations) hs' (made ∙ ap some hashes) made'
