-- ===== src/Validator/Trees/Samples.antt =====
-- A parent and a block with one transaction, over small numbers as hashes: its trees are empty and
-- have four leaves.
use zkopru.Base.{
  ℕ, ◌+◌, ◌*◌, ◌≡◌, ◌≤◌, ◌⊎◌, refl, ap, inl, inr, true, false, none, some, nat_eq, [], ◌∷◌, arith,
  beq_refl, ◌<◌,
}
use native.Mathlib.Nat.{mul-le-mul_left, mul-le-mul_right, mul-add, add-mul}
use zkopru.Transaction.ZkTx.{ZkTx}
use zkopru.Transaction.Samples.{payment}
use zkopru.Block.Types.{Header}
use zkopru.Block.Header.{serialize_header}
use zkopru.Block.Whole.{Block, header_hash}
use zkopru.Block.Samples.{Word, words, hash, hash_word, hash_made, word_eq, header, block}
use zkopru.Block.Migrations.Samples.{numbers, numbers-IsSolNumbers}
use zkopru.Tree.Hasher.{hasher_of}
use zkopru.Tree.Spec.{node, IsInjective}
use zkopru.Tree.LightRollUp.{TreeData, LightRollUpTree}
use zkopru.Tree.Grove.Appends.{Holds}
use zkopru.Validator.Trees.{follows}

-- An injective hash of two numbers.
abbrev pub square_pair : ℕ → ℕ → ℕ
square_pair a b = (a + b) * (a + b) + a + 1

below_square : (m n a c : ℕ) → m < n → a < m + 1 → m * m + a + 1 < n * n + c + 1
below_square m n a c less small =
    let once : (m + 1) * (m + 1) ≤ (m + 1) * n = mul-le-mul_left (m + 1) (omega (arith, less)) in
    let twice : (m + 1) * n ≤ n * n = mul-le-mul_right n (omega (arith, less)) in
    let split : (m + 1) * (m + 1) ≡ m * m + m + m + 1 =
      omega (arith, mul-add (m + 1) m 1, add-mul m 1 m) in
    omega (arith, once, twice, split)

pub square_pair_inj : IsInjective square_pair
square_pair_inj a b c d same = elim (orders (a + b) (c + d)) [
  | inl less ↦
      let far = below_square (a + b) (c + d) a c less (omega arith) in
      absurd (omega (arith, far, same))
  | inr (inl more) ↦
      let far = below_square (c + d) (a + b) c a more (omega arith) in
      absurd (omega (arith, far, same))
  | inr (inr level) ↦
      let squares : (a + b) * (a + b) ≡ (c + d) * (c + d) = ap (λ x. x * x) level in
      (omega (arith, squares, same), omega (arith, squares, same, level))
]
  where
    orders : (m n : ℕ) → (m < n) ⊎ ((n < m) ⊎ (m ≡ n))
    orders m n = omega arith

abbrev pub zeros : ℕ → ℕ
zeros i = 0

-- The values of words: an index, the root of an empty sub tree, and that of an empty tree.
abbrev pub index_word : Word 32
index_word = (numbers-IsSolNumbers.uint256_made 0 (omega arith)).0

abbrev pub sibling_word : Word 32
sibling_word = (numbers-IsSolNumbers.uint256_made 1 (omega arith)).0

abbrev pub root_word : Word 32
root_word = (numbers-IsSolNumbers.uint256_made 6 (omega arith)).0

pub index_value : numbers.uint256_number index_word ≡ 0
index_value = (numbers-IsSolNumbers.uint256_made 0 (omega arith)).2

pub sibling_value : numbers.uint256_number sibling_word ≡ 1
sibling_value = (numbers-IsSolNumbers.uint256_made 1 (omega arith)).2

pub root_value : numbers.uint256_number root_word ≡ 6
root_value = (numbers-IsSolNumbers.uint256_made 6 (omega arith)).2

abbrev pub genesis : Header words
genesis = record header {
  utxo_root = root_word;
  utxo_index = index_word;
  nullifier_root = root_word;
  withdrawal_root = root_word;
  withdrawal_index = index_word;
}

-- A transaction that spends a note, with a note and a withdrawal.
abbrev pub spend : ZkTx
spend = record payment { inflow = record { nullifier = 3; root = 12 } ∷ []; swap = none }

abbrev pub child : Block words
child = record block {
  header = record header { parent_block = hash_word (serialize_header words genesis) };
  body = record { txs = spend ∷ []; mass_deposits = []; mass_migrations = [] };
}

genesis_hashed : header_hash words hash genesis ≡ some (hash_word (serialize_header words genesis))
unfolding header_hash serialize_header
genesis_hashed = hash_made (serialize_header words genesis)

pub child-follows : follows words numbers hash child genesis ≡ some true
unfolding follows
child-follows = rw genesis_hashed (ap some (beq_refl (hash_word (serialize_header words genesis))))

abbrev pub empty_data : TreeData ℕ
empty_data = record { root = 6; index = 0; siblings = 0 ∷ 1 ∷ [] }

abbrev pub empty_tree : LightRollUpTree ℕ
empty_tree = record {
  config = record { hasher = hasher_of square_pair 0 2; force_update = false; full_sync = true };
  metadata = record { start = 0; end = 0 };
  data_of = empty_data;
  depth = 2;
  rows = [];
}

pub empty_tree-Holds : Holds square_pair 0 2 zeros empty_tree
unfolding node
empty_tree-Holds = record {
  hasher = refl;
  enough = omega arith;
  stands = record {
    root = refl;
    levels = refl;
    empty = λ j p. refl;
    fits = (λ h. absurd (ground (arith, h)), (λ h. absurd (ground (arith, h)), tt));
  };
}
