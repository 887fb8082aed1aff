-- ===== src/Validator/Trees/SpendTests.antt =====
-- The validators of nullifiers and deposits on the samples.
use zkopru.Base.{◌^◌, ◌<◌, ◌≡◌, ◌↔◌, refl, true, none, some, nat_eq, [], ◌∷◌, arith, All, inl}
use zkopru.Block.Types.{MassDeposit}
use zkopru.Validator.Trees.Deposits.{IsFree, Belong, check_submitted_deposits_iff}
use zkopru.Block.Samples.{
  Word, words, hash, word_eq, fill, word_parent, word_parent-IsInjective, word_parent_ne,
}
use zkopru.Block.Migrations.Samples.{numbers}
use zkopru.Tree.Hasher.{hasher_of}
use zkopru.Tree.Spec.{node}
use zkopru.Validator.Trees.{check_submitted_deposits, nullifiers_of, validate_nullifier_roll_up}
use zkopru.Validator.Trees.Nullifiers.{validate_nullifier_roll_up_lem}
use zkopru.Validator.Trees.Samples.{
  square_pair, square_pair_inj, zeros, index_word, sibling_word, root_value, genesis, spend, child,
  child-follows,
}

spend_rooms : All (λ i. i < 2 ^ 2) (nullifiers_of (spend ∷ []))
unfolding nullifiers_of
spend_rooms = (omega arith, tt)

validate_nullifier_roll_up_lem_example :
    validate_nullifier_roll_up words numbers hash
      (hasher_of square_pair 0 2)
      child
      genesis
      1
      ((index_word ∷ sibling_word ∷ []) ∷ [])
    ≡ none
unfolding node nullifiers_of
validate_nullifier_roll_up_lem_example =
    validate_nullifier_roll_up_lem words numbers hash square_pair 2 zeros child genesis 1
      ((index_word ∷ sibling_word ∷ []) ∷ []) square_pair_inj (λ i. inl refl) spend_rooms
      child-follows root_value

-- A mass deposit of one note.
abbrev note_word : Word 32
note_word = fill 32 7

abbrev merged_one : MassDeposit words
merged_one = record { merged = word_parent (fill 32 1) note_word; fee = fill 32 0 }

merges-IsFree : IsFree words word_parent (fill 32 1)
merges-IsFree = record {
  inj = λ a b x y. word_parent-IsInjective a x b y;
  started = word_parent_ne;
}

check_submitted_deposits_iff_example :
    (check_submitted_deposits words numbers hash word_parent
        (fill 32 1)
        (merged_one ∷ [])
        (note_word ∷ [])
      ≡ some true)
    ↔ Belong words word_parent (fill 32 1) (merged_one ∷ []) (note_word ∷ [])
check_submitted_deposits_iff_example =
    check_submitted_deposits_iff words word_parent (fill 32 1) numbers hash merges-IsFree
      (merged_one ∷ []) (note_word ∷ [])
