-- ===== src/Tree/Hasher.antt =====
-- packages/tree/src/hasher.ts. The two-to-one hash of the source (keccak, Poseidon) is third-party
-- code: the function `parent` of the model, over any type of hash values.
use zkopru.Base.{ℕ, zero, suc, Option, none, some, List, [], ◌∷◌}

-- `Hasher<T>`
pub record Hasher (A : Type 0) : Type 0 where
  pub parent_of : A → A → A
  pub pre_hash : List A

module _ {A : Type 0} (parent_of : A → A → A) where
  -- What the loop of `getPreHash` pushes behind `top_value` in the levels that are left.
  unfoldable pub push_levels : ℕ → A → List A
  push_levels zero top_value = []
  push_levels (suc levels) top_value =
      let next = parent_of top_value top_value in next ∷ push_levels levels next

  unfoldable pub get_pre_hash : A → ℕ → List A
  unfolding push_levels
  get_pre_hash zero_value depth = zero_value ∷ push_levels depth zero_value

  -- `keccakHasher` and `poseidonHasher`, by the hash function and the value of an empty leaf.
  unfoldable pub hasher_of : A → ℕ → Hasher A
  unfolding get_pre_hash
  hasher_of zero_value depth = record {
    parent_of = parent_of;
    pre_hash = get_pre_hash zero_value depth;
  }

-- `slice(-1)[0]`
unfoldable pub last? : {A : Type 0} → List A → Option A
last? [] = none
last? (x ∷ []) = some x
last? (x ∷ y ∷ xs) = last? (y ∷ xs)

unfoldable pub genesis_root : {A : Type 0} → Hasher A → Option A
unfolding last?
genesis_root h = last? h.pre_hash
