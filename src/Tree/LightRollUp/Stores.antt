-- ===== src/Tree/LightRollUp/Stores.antt =====
-- The storing of nodes in `_append` of light-rollup-tree.ts: within the tree no shift of `shouldTrack`
-- is by a negative number.
use Prim.Native.Nat.{bit_xor}
use zkopru.Base.{
  ℕ, suc, ◌-◌, ◌/◌, ◌%◌, ◌^◌, ◌<◌, ◌≡◌, refl, inl, inr, Bool, true, false, ◌&&◌, Option, some, List,
  [], ◌∷◌, arith, ◌==◌, ltb, if◌then◌else◌, Bool-cases,
}
use zkopru.Tree.NodeIndex.{node_index, bit_length, bit_length-le, path-lt, bit_xor-one-lt}
use zkopru.Tree.Nodes.{NodeMap, upsert}
use zkopru.Tree.LightRollUp.{TreeConfig}
use zkopru.Tree.LightRollUp.Append.{should_track, stores, store_level}

should_track-within :
    (depth : ℕ) (tracking : List ℕ) (k : ℕ)
    → k < 2 ^ suc depth
    → (b : Bool) × (should_track depth tracking k ≡ some b)
unfolding should_track
should_track-within depth [] k small = (false, refl)
should_track-within depth (leaf ∷ leaves) k small =
    let leaf_index = node_index depth leaf in
    let fits : ltb (bit_length leaf_index) (bit_length k) ≡ false =
      ground (arith, bit_length-le depth leaf k small) in
    let path_index = leaf_index / 2 ^ (bit_length leaf_index - bit_length k) in
    elim (Bool-cases (bit_xor path_index k == 1)) [
      | inl sibling ↦ (true, rw (fits, sibling) refl)
      | inr other ↦
          let (b, rest) = should_track-within depth leaves k small in (b, rw (fits, other) rest)
    ]

stores-within :
    (full_sync : Bool) (depth : ℕ) (tracking : List ℕ) (k : ℕ)
    → k < 2 ^ suc depth
    → (b : Bool) × (stores full_sync depth tracking k ≡ some b)
unfolding stores
stores-within true depth tracking k small = (true, refl)
stores-within false depth tracking k small = should_track-within depth tracking k small

guarded-within :
    (test : Bool) (o : Option Bool)
    → ((b : Bool) × (o ≡ some b))
    → (b : Bool) × ((if test then o else some false) ≡ some b)
guarded-within true o made = made
guarded-within false o made = (false, refl)

module _ {A : Type 0} where
  pub store_level-within :
      (config : TreeConfig A) (depth : ℕ) (tracking : List ℕ) (index level : ℕ) (sibling node : A)
      (cached : NodeMap A)
      → index < 2 ^ depth
      → (stored : NodeMap A) × (store_level config depth tracking index level sibling node cached
          ≡ some stored)
  unfolding store_level
  store_level-within config depth tracking index level sibling node cached small =
      let path_index = node_index depth index / 2 ^ level in
      let prev = bit_xor 1 (node_index depth (index - 1) / 2 ^ level) in
      let (here, made) =
        stores-within config.full_sync depth tracking path_index
          (path-lt depth index level small) in
      let bound =
        bit_xor-one-lt depth (node_index depth (index - 1) / 2 ^ level)
          (path-lt depth (index - 1) level (omega (arith, small))) in
      let (before, made') =
        guarded-within (ltb 0 index && prev % 2 == 0) (stores config.full_sync depth tracking prev)
          (stores-within config.full_sync depth tracking prev bound) in
      let cached_node = if here then upsert path_index node cached else cached in
      (if before then upsert prev sibling cached_node else cached_node, rw (made, made') refl)
