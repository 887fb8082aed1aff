-- ===== src/Tree/Grove/Keeps.antt =====
-- What `applyGrovePatch` of grove.ts leaves: the three trees with the leaves of the patch.
use zkopru.Base.{ℕ, ◌≡◌, refl, none, some, Option, List, [], Eq, if◌then◌else◌}
use zkopru.Tree.Spec.{IsInjective}
use zkopru.Tree.Nodes.{NodeMap}
use zkopru.Tree.LightRollUp.{latest_leaf_index}
use zkopru.Tree.LightRollUp.Append as Append
use zkopru.Tree.LightRollUp.Represents.{grow}
use zkopru.Tree.Nullifier.{NullifierTree}
use zkopru.Tree.Nullifier.Spend.{Stands, Fresh, fill}
use zkopru.Tree.Nullifier.Nullify.{nullify-Stands}
use zkopru.Tree.Grove.{
  Grove, GrovePatch, Pending, apply_grove_patch, mark_as_nullified, commit, commit_nullifiers,
  record_bootstrap,
}
use zkopru.Tree.Grove.Appends.{Holds, HasRoom, hashes_of, append_padded-Holds}

module _ {B : Type 0} (parent : B → B → B) (z : B) where
  -- A light node has no tree of nullifiers.
  abbrev pub StandsIf : (ℕ → B) → Option (NullifierTree B) → Type 0
  StandsIf f none = Unit
  StandsIf f (some t) = Stands parent z f t

module _ {B : Type 0} (filled : B) where
  abbrev pub FreshIf : (ℕ → B) → List ℕ → Option (NullifierTree B) → Type 0
  FreshIf f is none = Unit
  FreshIf f is (some t) = Fresh t.depth filled f is

module _ {B : Type 0} ⦃e : Eq B⦄ (parent : B → B → B) (z : B) (filled : B) where
  mark_as_nullified-StandsIf :
      IsInjective parent
      → (f : ℕ → B) (is : List ℕ) (n : Option (NullifierTree B)) → StandsIf parent z f n
      → FreshIf filled f is n
      → (r : Option (NullifierTree B) × NodeMap B) × (mark_as_nullified filled is n ≡ some r)
        × StandsIf parent z (fill filled f is) (commit_nullifiers r.1 r.0)
  unfolding mark_as_nullified commit_nullifiers
  mark_as_nullified-StandsIf inj f is none st fresh = ((none, []), refl, tt)
  mark_as_nullified-StandsIf inj f is (some t) st fresh =
      let (r, ran, top, after) = nullify-Stands parent z inj f t filled is st fresh in
      ((some r.0, r.1), rw ran refl, after)

module _ {A B : Type 0} (filled : B) where
  -- The patch fits: room for leaves and padding, and nullifiers in range that are neither filled nor
  -- repeated.
  pub record FitsPatch (nullifiers : ℕ → B) (g : Grove A B) (patch : GrovePatch A B) : Type 0 where
    pub utxo_room : HasRoom g.config.utxo_sub_tree_size g.utxo_tree patch.utxos
    pub withdrawal_room :
        HasRoom g.config.withdrawal_sub_tree_size g.withdrawal_tree patch.withdrawals
    pub fresh : FreshIf filled nullifiers patch.nullifiers g.nullifier_tree

module _ {A B : Type 0} ⦃e : Eq B⦄ (zero_utxo : A) (zero_withdrawal : B) (filled : B)
    (parent_utxo : A → A → A) (parent_withdrawal : B → B → B)
    (height_utxo height_withdrawal : ℕ) where
  -- The grove stands for a tree of notes, a tree of withdrawals and, on a full node, a tree of
  -- nullifiers.
  pub record GroveHolds (utxos : ℕ → A) (withdrawals : ℕ → B) (nullifiers : ℕ → B) (g : Grove A B)
      : Type 0 where
    pub utxo : Holds parent_utxo zero_utxo height_utxo utxos g.utxo_tree
    pub withdrawal :
        Holds parent_withdrawal zero_withdrawal height_withdrawal withdrawals g.withdrawal_tree
    pub nullifier : StandsIf parent_withdrawal zero_withdrawal nullifiers g.nullifier_tree

  -- Under an injective hash of the nullifier tree, on a grove whose light trees stand for two
  -- Merkle trees and whose nullifier tree, if there is one, shows a sparse Merkle tree, and for a
  -- patch with room for its leaves and their padding in subtrees of a size that is not 0, and with
  -- nullifiers in range that are neither filled nor repeated, `applyGrovePatch` succeeds; after
  -- the commit the trees stand for those with the notes and withdrawals of the patch put behind
  -- the old leaves and with its nullifiers filled.
  pub apply_grove_patch-GroveHolds :
      (g : Grove A B) (patch : GrovePatch A B) (f : ℕ → A) (w n : ℕ → B)
      (tracked_utxos tracked_withdrawals : List ℕ)
      → IsInjective parent_withdrawal
      → GroveHolds f w n g
      → FitsPatch filled n g patch
      → (r : Grove A B × Pending A B) × (apply_grove_patch zero_utxo zero_withdrawal filled
            tracked_utxos tracked_withdrawals g patch
          ≡ some r)
        × GroveHolds
            (grow f (latest_leaf_index g.utxo_tree) (hashes_of patch.utxos))
            (grow w (latest_leaf_index g.withdrawal_tree) (hashes_of patch.withdrawals))
            (fill filled n patch.nullifiers)
            (commit r)
  unfolding apply_grove_patch commit Append.commit
  apply_grove_patch-GroveHolds g patch f w n tracked_utxos tracked_withdrawals inj holds fits =
      let (u', rows_u, made_u, deep_u, end_u, holds_u) =
        append_padded-Holds parent_utxo zero_utxo height_utxo g.config.utxo_sub_tree_size
          g.utxo_tree f tracked_utxos patch.utxos holds.utxo fits.utxo_room in
      let (w', rows_w, made_w, deep_w, end_w, holds_w) =
        append_padded-Holds parent_withdrawal zero_withdrawal height_withdrawal
          g.config.withdrawal_sub_tree_size g.withdrawal_tree w tracked_withdrawals
          patch.withdrawals holds.withdrawal fits.withdrawal_room in
      let (r, ran, after) =
        mark_as_nullified-StandsIf parent_withdrawal zero_withdrawal filled inj n patch.nullifiers
          g.nullifier_tree holds.nullifier fits.fresh in
      let g' : Grove A B = record g {
        utxo_tree = u';
        withdrawal_tree = w';
        nullifier_tree = r.0;
      } in
      let p : Pending A B = record {
        utxo_rows = rows_u;
        withdrawal_rows = rows_w;
        nullifier_rows = r.1;
        bootstrap = if g.config.full_sync then some (record_bootstrap patch.header u' w') else none;
        block_row = if g.config.full_sync then patch.header else none;
      } in
      (
        (g', p),
        rw (made_u, made_w, ran) refl,
        record {
          utxo = record {
            hasher = holds_u.hasher;
            enough = holds_u.enough;
            stands = holds_u.stands;
          };
          withdrawal = record {
            hasher = holds_w.hasher;
            enough = holds_w.enough;
            stands = holds_w.stands;
          };
          nullifier = after;
        },
      )
