-- ===== src/Validator/Trees/Deposits.antt =====
-- `checkSubmittedDeposits` of offchain-utxo-tree-validator.ts: which deposits belong to the mass deposits
-- of a block.
use zkopru.Base.{
  ℕ, suc, ◌+◌, ◌≡◌, ◌≢◌, ◌↔◌, refl, sym, ap, ◌∙◌, inl, inr, true, false, some, Eq, List, [], ◌∷◌,
  ◌++◌, arith, length, Bool-cases, Option-cases, beq_ne,
}
use mathlib.Core.Bool.{false≢true}
use mathlib.Core.Option.{some-injective, none-ne-some}
use mathlib.Core.List.{reverse_aux}
use zkopru.Block.Types.{SolTypes, MassDeposit}
use zkopru.Block.Migrations.{SolNumbers}
use zkopru.Validator.Trees.{consume_deposits, check_submitted_deposits}

module _ (s : SolTypes) (merge : s.Bytes32 → s.Uint256 → s.Bytes32) (zero_bytes : s.Bytes32) where
  -- The merged leaves of some notes, after other ones.
  abbrev pub merge_all : s.Bytes32 → List s.Uint256 → s.Bytes32
  merge_all merged [] = merged
  merge_all merged (d ∷ ds) = merge_all (merge merged d) ds

  -- The deposits are those of the mass deposits, one after the other.
  abbrev pub Belong : List (MassDeposit s) → List s.Uint256 → Type 0
  Belong [] ds = ds ≡ []
  Belong (m ∷ ms) ds =
      (own : List s.Uint256) × (rest : List s.Uint256) × (ds ≡ own ++ rest)
      × (m.merged ≡ merge_all zero_bytes own)
      × Belong ms rest

  -- The notes do not collide, and do not merge to the bytes from which the merge starts.
  pub record IsFree : Type 0 where
    pub inj : (a b : s.Bytes32) (x y : s.Uint256) → merge a x ≡ merge b y → (a ≡ b) × (x ≡ y)
    pub started : (a : s.Bytes32) (x : s.Uint256) → merge a x ≢ zero_bytes

  abbrev last_first : List s.Uint256 → s.Bytes32
  last_first [] = zero_bytes
  last_first (d ∷ ds) = merge (last_first ds) d

  last_first-length :
      IsFree → (xs ys : List s.Uint256) → last_first xs ≡ last_first ys → length xs ≡ length ys
  last_first-length free [] [] same = refl
  last_first-length free [] (y ∷ ys) same = absurd (free.started _ y (sym same))
  last_first-length free (x ∷ xs) [] same = absurd (free.started _ x same)
  last_first-length free (x ∷ xs) (y ∷ ys) same =
      ap suc (last_first-length free xs ys ((free.inj _ _ x y same).0))

  merge_all-last_first :
      (ds seen : List s.Uint256) → merge_all (last_first seen) ds ≡ last_first (reverse_aux ds seen)
  merge_all-last_first [] seen = refl
  merge_all-last_first (d ∷ ds) seen = merge_all-last_first ds (d ∷ seen)

  length-reverse_aux :
      (ds seen : List s.Uint256) → length (reverse_aux ds seen) ≡ length ds + length seen
  length-reverse_aux [] seen = omega arith
  length-reverse_aux (d ∷ ds) seen =
      let rest = length-reverse_aux ds (d ∷ seen) in omega (arith, rest)

  module _ ⦃e : Eq s.Bytes32⦄ (n : SolNumbers s) (sha3 : List ℕ → List ℕ) where
    consume_sound :
        (target merged : s.Bytes32) (ds rest : List s.Uint256)
        → consume_deposits s n sha3 merge target merged ds ≡ some rest
        → (own : List s.Uint256) × (ds ≡ own ++ rest) × (target ≡ merge_all merged own)
    unfolding consume_deposits
    consume_sound target merged [] rest ran = elim (Bool-cases (e.beq target merged)) [
      | inl same ↦ ([], some-injective _ _ (rw same at ran), (e.beq_iff _ _).0 same)
      | inr other ↦ absurd (none-ne-some _ (rw other at ran))
    ]
    consume_sound target merged (d ∷ ds) rest ran = elim (Bool-cases (e.beq target merged)) [
      | inl same ↦ ([], some-injective _ _ (rw same at ran), (e.beq_iff _ _).0 same)
      | inr other ↦
          let (own, split, made) =
            consume_sound target (merge merged d) ds rest (rw other at ran) in
          (d ∷ own, ap (◌∷◌ d) split, made)
    ]

    consume_none :
        (target merged : s.Bytes32) (rest : List s.Uint256)
        → target ≡ merged
        → consume_deposits s n sha3 merge target merged rest ≡ some rest
    unfolding consume_deposits
    consume_none target merged [] same = rw ((e.beq_iff _ _).1 same) refl
    consume_none target merged (d ∷ ds) same = rw ((e.beq_iff _ _).1 same) refl

    consume_complete :
        IsFree
        → (target : s.Bytes32) (own rest seen : List s.Uint256)
        → target ≡ merge_all (last_first seen) own
        → consume_deposits s n sha3 merge target (last_first seen) (own ++ rest) ≡ some rest
    unfolding consume_deposits
    consume_complete free target [] rest seen made = consume_none target (last_first seen) rest made
    consume_complete free target (d ∷ own) rest seen made =
        let not_yet : e.beq target (last_first seen) ≡ false = beq_ne _ _ (λ same.
          let lengths =
            last_first-length free _ seen
              (sym (merge_all-last_first own (d ∷ seen)) ∙ sym made ∙ same) in
          let counted = length-reverse_aux own (d ∷ seen) in
          absurd (omega (arith, lengths, counted))) in
        rw not_yet (consume_complete free target own rest (d ∷ seen) made)

    check_sound :
        (ms : List (MassDeposit s)) (ds : List s.Uint256)
        → check_submitted_deposits s n sha3 merge zero_bytes ms ds ≡ some true
        → Belong ms ds
    unfolding check_submitted_deposits
    check_sound [] [] ran = refl
    check_sound [] (d ∷ ds) ran = absurd (false≢true (some-injective _ _ ran))
    check_sound (m ∷ ms) ds ran =
        elim (Option-cases (consume_deposits s n sha3 merge m.merged zero_bytes ds)) [
          | inl n' ↦ absurd (none-ne-some _ (rw n' at ran))
          | inr (rest, n') ↦
              let (own, split, made) = consume_sound m.merged zero_bytes ds rest n' in
              (own, rest, split, made, check_sound ms rest (rw n' at ran))
        ]

    -- When the hash of merged leaves with a note is injective and never gives the bytes that the
    -- merging starts from, `checkSubmittedDeposits` accepts some deposits exactly if they split
    -- up, in order, into one list for each mass deposit, whose notes merge to the merged leaves of
    -- this mass deposit.
    pub check_submitted_deposits_iff :
        IsFree
        → (ms : List (MassDeposit s)) (ds : List s.Uint256)
        → (check_submitted_deposits s n sha3 merge zero_bytes ms ds ≡ some true) ↔ Belong ms ds
    unfolding check_submitted_deposits
    check_submitted_deposits_iff free ms ds = (check_sound ms ds, complete ms ds)
      where
        complete :
            (ms' : List (MassDeposit s)) (ds' : List s.Uint256)
            → Belong ms' ds'
            → check_submitted_deposits s n sha3 merge zero_bytes ms' ds' ≡ some true
        complete [] ds' none_left = rw none_left refl
        complete (m ∷ ms') ds' (own, rest, split, made, more) =
            let taken = consume_complete free m.merged own rest [] made in
            rw (split, taken) (complete ms' rest more)
