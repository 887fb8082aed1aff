-- ===== src/Tree/SmtSol.antt =====
-- packages/tree/src/utils/smt-sol.ts: the sparse tree the way the contract SMT.sol fills it. The file's
-- constants `EXISBN` and `NON_EXISBN`, for a leaf that is filled and one that is not, are `exist` and
-- `non_exist`. An assertion that fails returns `none`.
pub mod Fills
mod Tests
use zkopru.Base.{
  ℕ, ◌+◌, ◌≡◌, Bool, Option, none, some, Eq, List, [], ◌∷◌, ◌==◌, if◌then◌else◌, ◌>>=◌, length,
}
use zkopru.Tree.Hasher.{Hasher}
use zkopru.Tree.Spec.{update}
use zkopru.Tree.SolRoot.{sol_merkle_root}

-- `EXISBN` and `NON_EXISBN`, as the assertions of the file give them.
unfoldable pub exist_bn : ℕ
exist_bn = 0xb0b4e07bb5592f3d3821b2c1331b436763d7be555cf452d6c6836f74d5201e85

unfoldable pub non_exist_bn : ℕ
non_exist_bn = 0x290decd9548b62a8d60345a988386fc84ba6bc95484008f6362f93160ef3e563

module _ {A : Type 0} ⦃e : Eq A⦄ (exist non_exist : A) where
  unfoldable pub calculate_root : Hasher A → ℕ → A → List A → Option A
  unfolding sol_merkle_root
  calculate_root h leaf value siblings =
      if length siblings + 1 == length h.pre_hash
      then some (sol_merkle_root h value leaf siblings)
      else none

  unfoldable pub smt_merkle_proof : Hasher A → A → ℕ → A → List A → Option Bool
  smt_merkle_proof h root leaf value siblings =
      calculate_root h leaf value siblings >>= λ calculated. some (e.beq root calculated)

  unfoldable pub smt_fill : Hasher A → A → ℕ → List A → Option A
  smt_fill h prev_root leaf siblings =
      smt_merkle_proof h prev_root leaf non_exist siblings >>= λ open_.
      if open_
      then (calculate_root h leaf exist siblings >>= λ next_root.
          if e.beq next_root prev_root then none else some next_root)
      else none

  unfoldable pub fill_each : Hasher A → A → List ℕ → List (List A) → Option A
  fill_each h root [] siblings = some root
  fill_each h root (leaf ∷ leaves) [] = none
  fill_each h root (leaf ∷ leaves) (ss ∷ siblings) =
      smt_fill h root leaf ss >>= λ next. fill_each h next leaves siblings

  unfoldable pub batch_fill : Hasher A → A → List ℕ → List (List A) → Option A
  unfolding fill_each
  batch_fill h prev_root leaves siblings =
      if length leaves == length siblings then fill_each h prev_root leaves siblings else none

  -- The leaves are not filled, each in the tree with the ones before it filled.
  abbrev pub AreOpen : (ℕ → A) → List ℕ → Type 0
  AreOpen f [] = Unit
  AreOpen f (i ∷ is) = (f i ≡ non_exist) × AreOpen (update f i exist) is
