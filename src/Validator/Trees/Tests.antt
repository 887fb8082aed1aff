-- ===== src/Validator/Trees/Tests.antt =====
-- The validators of the trees on the samples.
use zkopru.Base.{
  ℕ, ◌+◌, ◌^◌, ◌<◌, ◌≤◌, ◌≡◌, refl, ap, ◌∙◌, Bool, true, false, not, Option, none, some, nat_eq, [],
  ◌∷◌, arith, ◌==◌, map,
}
use zkopru.Transaction.Fp.{from_number, from_number-small, order}
use zkopru.Utils.Numbers.{num_to_buffer}
use zkopru.Block.Samples.{Word, words, hash, word_eq}
use zkopru.Block.Migrations.{outflows_of}
use zkopru.Block.Migrations.Samples.{numbers}
use zkopru.Tree.Hasher.{hasher_of}
use zkopru.Tree.LightRollUp.{
  dry_append, dry_append_items, dry_append_item, siblings, latest_leaf_index,
}
use zkopru.Tree.Grove.{
  Grove, GrovePatch, GroveSnapshot, fixed_size_len, dry_patch, dry_nullifier_root, untracked,
}
use zkopru.Tree.SubTreeSol.{empty_sub_tree_proof}
use zkopru.Validator.Migration.{Validation, u3, w3}
use zkopru.Validator.Trees.{
  withdrawal_hash, get_grove_patch, deposits_and_parent, check_submitted_deposits, fp_from, is_utxo,
  is_withdrawal, utxo_notes, nullifiers_of, hash_of_withdrawal, withdrawal_leaf,
  validate_utxo_index, validate_utxo_root, validate_withdrawal_index, validate_withdrawal_root,
}
use zkopru.Validator.Trees.Honest.{IsProved}
use zkopru.Validator.Trees.Utxo.{validate_utxo-dry_patch}
use zkopru.Validator.Trees.Withdrawal.{validate_withdrawal-dry_patch}
use zkopru.Validator.Trees.Samples.{
  square_pair, square_pair_inj, zeros, index_word, sibling_word, root_word, index_value,
  sibling_value, root_value, genesis, spend, child, child-follows, empty_tree, empty_tree-Holds,
}

abbrev grove : Grove ℕ ℕ
grove = record {
  config = record { utxo_sub_tree_size = 2; withdrawal_sub_tree_size = 2; full_sync = true };
  utxo_tree = empty_tree;
  withdrawal_tree = empty_tree;
  nullifier_tree = none;
}

abbrev none_tracked : ℕ → Bool
none_tracked note = false

abbrev or_zero : Option ℕ → ℕ
or_zero none = 0
or_zero (some x) = x

abbrev withdrawn : ℕ
withdrawn = or_zero (
    withdrawal_hash hash 14
      (record { to = 15; eth = 16; token_addr = 17; erc20_amount = 18; nft = 19; fee = 20 }))

abbrev patch : GrovePatch ℕ ℕ
patch = record {
  header = some 0;
  utxos = record { hash = 13; should_track = false } ∷ [];
  withdrawals = record { hash = withdrawn; should_track = false } ∷ [];
  nullifiers = 3 ∷ [];
}

patch_made : get_grove_patch hash [] none_tracked 0 (spend ∷ []) ≡ some patch
unfolding get_grove_patch withdrawal_leaf hash_of_withdrawal utxo_notes nullifiers_of is_utxo
    is_withdrawal outflows_of withdrawal_hash num_to_buffer
patch_made = refl

abbrev snapshot : GroveSnapshot ℕ ℕ
snapshot = record {
  utxo_tree_index = 2;
  utxo_tree_root = square_pair (square_pair 13 0) 1;
  withdrawal_tree_index = 2;
  withdrawal_tree_root = square_pair (square_pair withdrawn 0) 1;
  nullifier_tree_root = none;
}

dry : dry_patch 0 0 1 grove patch ≡ some snapshot
unfolding dry_patch dry_append latest_leaf_index fixed_size_len dry_append_items dry_append_item
    siblings hasher_of dry_nullifier_root untracked withdrawal_hash
dry = refl

accepted :
    empty_sub_tree_proof
      (hasher_of square_pair 0 2)
      1
      (record { root = 6; index = 0; siblings = 1 ∷ [] })
    ≡ some true
unfolding empty_sub_tree_proof hasher_of
accepted = refl

room : (0 < 2) × (latest_leaf_index empty_tree + fixed_size_len 2 1 ≤ 2 ^ 2)
unfolding latest_leaf_index fixed_size_len
room = (omega arith, omega arith)

proved : IsProved square_pair 1 1 zeros empty_tree (1 ∷ [])
unfolding latest_leaf_index
proved = record {
  holds = empty_tree-Holds;
  deep = refl;
  levels = refl;
  aligned = refl;
  not_full = omega arith;
  accepted = accepted;
}

field_of :
    (u : Word 32) (x : ℕ) → numbers.uint256_number u ≡ x → x < order → fp_from words numbers u ≡ x
field_of u x value small = ap from_number value ∙ from_number-small x small

sibling_shown : map numbers.uint256_number (sibling_word ∷ []) ≡ 1 ∷ []
sibling_shown = ap (λ x. x ∷ []) sibling_value

sibling_field : map (fp_from words numbers) (sibling_word ∷ []) ≡ 1 ∷ []
unfolding order
sibling_field = ap (λ x. x ∷ []) (field_of sibling_word 1 sibling_value (omega arith))

no_merge : Word 32 → Word 32 → Word 32
no_merge merged note = merged

no_deposits :
    deposits_and_parent words numbers hash no_merge index_word child genesis [] ≡ some true
unfolding deposits_and_parent check_submitted_deposits
no_deposits = child-follows

validate_utxo-dry_patch_example :
    (v : Validation) × (validate_utxo_index words numbers hash no_merge index_word 4 2 child genesis
        []
      ≡ some v)
    × (v.slashable
        ≡ not (numbers.uint256_number (child.header.utxo_index) == snapshot.utxo_tree_index))
    × (validate_utxo_root words numbers hash no_merge index_word
          (hasher_of square_pair 0 2)
          1
          child
          genesis
          []
          (sibling_word ∷ [])
        ≡ some record {
          slashable =
              not (snapshot.utxo_tree_root == numbers.uint256_number (child.header.utxo_root));
          reason = u3;
        })
unfolding order latest_leaf_index
validate_utxo-dry_patch_example =
    validate_utxo-dry_patch words numbers hash square_pair square_pair 1 none_tracked grove zeros
      zeros 1 1 1 1 child genesis [] 0 patch snapshot (sibling_word ∷ []) no_merge index_word []
      square_pair_inj (rw sibling_field proved) refl room empty_tree-Holds room
      (record {
        root_shown = root_value;
        index_shown = index_value;
        root_read = field_of root_word 6 root_value (omega arith);
        index_read = field_of index_word 0 index_value (omega arith);
      })
      no_deposits refl patch_made dry

validate_withdrawal-dry_patch_example :
    (v : Validation) × (validate_withdrawal_index words numbers hash 4 2 child genesis ≡ some v)
    × (v.slashable
        ≡ not (
            numbers.uint256_number (child.header.withdrawal_index)
            == snapshot.withdrawal_tree_index))
    × (validate_withdrawal_root words numbers hash
          (hasher_of square_pair 0 2)
          1
          child
          genesis
          (sibling_word ∷ [])
        ≡ some record {
          slashable = not (
              snapshot.withdrawal_tree_root
              == numbers.uint256_number (child.header.withdrawal_root));
          reason = w3;
        })
unfolding latest_leaf_index
validate_withdrawal-dry_patch_example =
    validate_withdrawal-dry_patch words numbers hash square_pair square_pair 1 none_tracked grove
      zeros zeros 1 1 1 1 child genesis [] 0 patch snapshot (sibling_word ∷ []) square_pair_inj
      (rw sibling_shown proved) refl room empty_tree-Holds room
      (record {
        root_shown = root_value;
        index_shown = index_value;
        root_read = root_value;
        index_read = index_value;
      })
      child-follows patch_made dry
