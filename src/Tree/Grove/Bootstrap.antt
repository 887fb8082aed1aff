-- ===== src/Tree/Grove/Bootstrap.antt =====
-- `bootstrapUtxoTree`, `bootstrapWithdrawalTree` and `applyBootstrap` of grove.ts: light trees that
-- start from a proof of another node, or empty. The hasher and the flags of the grove's configuration
-- are those of its trees, and the row of a tree keeps its id, so that its tree nodes stay.
use zkopru.Base.{
  ℕ, zero, suc, ◌/◌, ◌^◌, ◌<◌, ◌≡◌, refl, sym, ap, ◌∙◌, Option, none, some, Eq, List, [], ◌∷◌,
  arith, length, if◌then◌else◌, ◌>>=◌,
}
use zkopru.Base.Bits.{div-pow-suc}
use zkopru.Tree.Hasher.{Hasher, hasher_of, get_pre_hash, push_levels, genesis_root}
use zkopru.Tree.Spec.{node, zero_node, node-constant, length-path_siblings}
use zkopru.Tree.PreHash.{genesis_root-hasher_of}
use zkopru.Tree.Nodes.{NodeMap}
use zkopru.Tree.MerkleProof.{MerkleProof, starting_leaf_proof}
use zkopru.Tree.LightRollUp.{
  TreeData, TreeConfig, LightRollUpTree, latest_leaf_index, get_starting_leaf_proof,
}
use zkopru.Tree.LightRollUp.Climb.{Fits}
use zkopru.Tree.LightRollUp.Bootstrap.{own_proof, get_starting_leaf_proof_lem}
use zkopru.Tree.LightRollUp.Sound.{path_siblings-Fits}
use zkopru.Tree.Grove.{Grove}
use zkopru.Tree.Grove.Appends.{Holds}

-- `slice(0, -1)`
unfoldable pub drop_last : {A : Type 0} → List A → List A
drop_last [] = []
drop_last (x ∷ []) = []
drop_last (x ∷ y ∷ xs) = x ∷ drop_last (y ∷ xs)

module _ {A : Type 0} ⦃e : Eq A⦄ where
  unfoldable pub bootstrap_data : Hasher A → Option (MerkleProof A) → Option (TreeData A)
  bootstrap_data h none = genesis_root h >>= λ root.
      some (record { root = root; index = 0; siblings = drop_last h.pre_hash })
  bootstrap_data h (some proof) =
      starting_leaf_proof h proof.root proof.index proof.siblings >>= λ valid.
      if valid
      then some (record { root = proof.root; index = proof.index; siblings = proof.siblings })
      else none

  unfoldable pub bootstrap_tree :
      TreeConfig A → NodeMap A → Option (MerkleProof A) → Option (LightRollUpTree A)
  unfolding bootstrap_data
  bootstrap_tree config rows proof = bootstrap_data config.hasher proof >>= λ d. some (record {
    config = config;
    metadata = record { start = d.index; end = d.index };
    data_of = d;
    depth = length d.siblings;
    rows = rows;
  })

unfoldable pub apply_bootstrap :
    {A B : Type 0} ⦃e : Eq A⦄ ⦃e' : Eq B⦄
    → MerkleProof A
    → MerkleProof B
    → Grove A B
    → Option (Grove A B)
unfolding bootstrap_tree
apply_bootstrap utxo_proof withdrawal_proof g =
    bootstrap_tree g.utxo_tree.config g.utxo_tree.rows (some utxo_proof) >>= λ u.
    bootstrap_tree g.withdrawal_tree.config g.withdrawal_tree.rows (some withdrawal_proof) >>= λ w.
    some (record g { utxo_tree = u; withdrawal_tree = w })

-- The proof that a node hands on, with any leaf: the receiver does not read it.
abbrev pub handed_on : {A : Type 0} → A → TreeData A → MerkleProof A
handed_on leaf d = record { root = d.root; index = d.index; leaf = leaf; siblings = d.siblings }

-- The tree object of such a row.
abbrev booted : {A : Type 0} → TreeConfig A → NodeMap A → TreeData A → LightRollUpTree A
booted config rows d = record {
  config = config;
  metadata = record { start = d.index; end = d.index };
  data_of = d;
  depth = length d.siblings;
  rows = rows;
}

zero-div_pow : (l : ℕ) → 0 / 2 ^ l ≡ 0
zero-div_pow zero = refl
zero-div_pow (suc l) = let q = div-pow-suc 0 l in let r = zero-div_pow l in omega arith

module _ {A : Type 0} (parent : A → A → A) where
  length-drop_last : (m : ℕ) (w : A) → length (drop_last (w ∷ push_levels parent m w)) ≡ m
  unfolding drop_last push_levels
  length-drop_last zero w = refl
  length-drop_last (suc m) w = ap suc (length-drop_last m (parent w w))

  -- The first leaf needs no sibling.
  first-Fits : (f : ℕ → A) (l : ℕ) (ss : List A) → Fits parent f l 0 ss
  first-Fits f l [] = tt
  first-Fits f l (s ∷ ss) =
      (λ odd. let q = zero-div_pow l in absurd (omega arith), first-Fits f (suc l) ss)

-- Without a proof, for a hasher that is made from a hash and a zero value with some prehashed
-- levels, the bootstrap does not throw, and the new tree has this many levels, index 0, and stands
-- for the Merkle tree with no leaf.
pub bootstrap_tree-genesis :
    {A : Type 0} ⦃e : Eq A⦄ (parent : A → A → A) (z : A) (height : ℕ) (config : TreeConfig A)
    (rows : NodeMap A)
    → config.hasher ≡ hasher_of parent z height
    → (t : LightRollUpTree A) × (bootstrap_tree config rows none ≡ some t)
      × (latest_leaf_index t ≡ 0)
      × (t.depth ≡ height)
      × Holds parent z height (λ _. z) t
unfolding bootstrap_tree hasher_of get_pre_hash latest_leaf_index
bootstrap_tree-genesis {A} parent z height config rows hasher =
    let d : TreeData A = record {
      root = zero_node parent z height;
      index = 0;
      siblings = drop_last (get_pre_hash parent z height);
    } in
    let levels : length d.siblings ≡ height = length-drop_last parent height z in
    let top = genesis_root-hasher_of parent z height in
    let made : bootstrap_tree config rows none ≡ some (booted config rows d) =
      rw hasher (rw top refl) in
    (
      booted config rows d,
      made,
      refl,
      levels,
      record {
        hasher = hasher;
        enough = omega (arith, levels);
        stands = record {
          root =
              sym (node-constant parent z height 0)
              ∙ ap (λ n. node parent n 0 (λ _. z)) (sym levels);
          levels = refl;
          empty = λ j p. refl;
          fits = first-Fits parent (λ _. z) 0 d.siblings;
        };
      },
    )

-- The proof that a tree gives is taken, by a tree with the same hasher.
own_proof_taken :
    {A : Type 0} ⦃e : Eq A⦄ (parent : A → A → A) (z : A) (height : ℕ) (t : LightRollUpTree A)
    (f : ℕ → A) (config : TreeConfig A) (rows : NodeMap A) (x : A)
    → Holds parent z height f t
    → latest_leaf_index t < 2 ^ t.depth
    → config.hasher ≡ t.config.hasher
    → let d = own_proof parent t f in
      (get_starting_leaf_proof t ≡ some d)
      × (bootstrap_tree config rows (some (handed_on x d)) ≡ some (booted config rows d))
      × Holds parent z height f (booted config rows d)
unfolding bootstrap_tree hasher_of
own_proof_taken {A} parent z height t f config rows x holds room same =
    let i = t.data_of.index in
    let d = own_proof parent t f in
    let (gave, passes) =
      get_starting_leaf_proof_lem parent z height t f holds.hasher holds.enough room holds.stands in
    let levels : length d.siblings ≡ t.depth = length-path_siblings parent f 0 t.depth i in
    let self : i / 2 ^ 0 ≡ i = omega arith in
    let h = hasher_of parent z height in
    (
      gave,
      rw (same, passes) refl,
      record {
        hasher = same ∙ holds.hasher;
        enough = rw levels holds.enough;
        stands = record {
          root = holds.stands.root ∙ ap (λ n. node parent n 0 f) (sym levels);
          levels = refl;
          empty = holds.stands.empty;
          fits = rw self at (path_siblings-Fits h z f i 0 t.depth);
        };
      },
    )

-- When the light trees of one node are made from hashes and zero values with enough prehashed
-- levels, are not full, and stand for two Merkle trees, and those of another node have the same
-- hashers, then the first node gives its starting leaf proofs, and the other node's
-- `applyBootstrap` takes them: its trees have the first node's indices and stand for the same
-- Merkle trees, its nullifier tree is the same as before.
pub apply_bootstrap-Holds :
    {A B : Type 0} ⦃e : Eq A⦄ ⦃e' : Eq B⦄ (parent : A → A → A) (parent' : B → B → B) (z : A)
    (z' : B) (height height' : ℕ) (u : LightRollUpTree A) (w : LightRollUpTree B) (f : ℕ → A)
    (f' : ℕ → B) (g : Grove A B)
    → Holds parent z height f u
    → Holds parent' z' height' f' w
    → latest_leaf_index u < 2 ^ u.depth
    → latest_leaf_index w < 2 ^ w.depth
    → g.utxo_tree.config.hasher ≡ u.config.hasher
    → g.withdrawal_tree.config.hasher ≡ w.config.hasher
    → (g' : Grove A B) × ((get_starting_leaf_proof u >>= λ d.
          get_starting_leaf_proof w >>= λ d'. apply_bootstrap (handed_on z d) (handed_on z' d') g)
        ≡ some g')
      × Holds parent z height f g'.utxo_tree
      × Holds parent' z' height' f' g'.withdrawal_tree
      × (latest_leaf_index g'.utxo_tree ≡ latest_leaf_index u)
      × (latest_leaf_index g'.withdrawal_tree ≡ latest_leaf_index w)
      × (g'.nullifier_tree ≡ g.nullifier_tree)
unfolding apply_bootstrap latest_leaf_index
apply_bootstrap-Holds {A} {B} parent parent' z z' height height' u w f f' g hu hw room room' same
      same' =
    let (gave, taken, holds) =
      own_proof_taken parent z height u f g.utxo_tree.config g.utxo_tree.rows z hu room same in
    let (gave', taken', holds') =
      own_proof_taken parent' z' height' w f' g.withdrawal_tree.config g.withdrawal_tree.rows z' hw
        room' same' in
    let g' : Grove A B = record g {
      utxo_tree = booted g.utxo_tree.config g.utxo_tree.rows (own_proof parent u f);
      withdrawal_tree =
          booted g.withdrawal_tree.config g.withdrawal_tree.rows (own_proof parent' w f');
    } in
    (g', rw (gave, gave', taken, taken') refl, holds, holds', refl, refl, refl)
