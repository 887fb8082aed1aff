-- ===== src/Tree/Grove/Appends.antt =====
-- `appendUTXOs` and `appendWithdrawals` of grove.ts on one light tree, against its `dryAppend`.
use zkopru.Base.{
  ℕ, ◌+◌, ◌-◌, ◌^◌, ◌≤◌, ◌<◌, ◌≡◌, refl, sym, ap, ◌∙◌, subst, none, some, Option, List, [], ◌∷◌,
  arith, map, length, le→leb, length-map, ◌>>=◌,
}
use mathlib.Core.Option.{some-injective, none-ne-some}
use zkopru.Tree.Hasher.{hasher_of}
use zkopru.Tree.Nodes.{NodeMap}
use zkopru.Tree.LightRollUp.{
  Leaf, TreeData, LightRollUpTree, max_size, latest_leaf_index, dry_append,
}
use zkopru.Tree.LightRollUp.Append.{append}
use zkopru.Tree.LightRollUp.Agrees.{new_data, append-dry_append}
use zkopru.Tree.LightRollUp.Represents.{Represents, grow, dry_append-Represents}
use zkopru.Tree.Grove.{fixed_size_len, padded, append_padded, untracked}
use zkopru.Tree.Grove.Padding.{grow-padded, hashes_padded, length-padded}

abbrev pub hashes_of : {A : Type 0} → List (Leaf A) → List A
hashes_of leaves = map (λ leaf. leaf.hash) leaves

-- The light tree is built on a hash with enough prehashed levels, and stands for the tree over `f`.
pub record Holds {A : Type 0} (parent : A → A → A) (z : A) (height : ℕ) (f : ℕ → A)
    (t : LightRollUpTree A) : Type 0 where
  pub hasher : t.config.hasher ≡ hasher_of parent z height
  pub enough : t.depth ≤ height
  pub stands : Represents parent z t.depth f t.data_of

-- There is room for the leaves and their padding.
abbrev pub HasRoom : {A : Type 0} → ℕ → LightRollUpTree A → List (Leaf A) → Type 0
HasRoom size t leaves =
    (0 < size) × (latest_leaf_index t + fixed_size_len size (length leaves) ≤ 2 ^ t.depth)

-- A result that keeps the configuration and the depth.
keeps_of :
    {A B : Type 0} (t t' : LightRollUpTree A) (rows : NodeMap A)
    (g : B → LightRollUpTree A × NodeMap A) (o : Option B)
    → ((s : B) → ((g s).0.config ≡ t.config) × ((g s).0.depth ≡ t.depth))
    → (o >>= λ s. some (g s)) ≡ some (t', rows)
    → (t'.config ≡ t.config) × (t'.depth ≡ t.depth)
keeps_of t t' rows g none keep e = absurd (none-ne-some _ e)
keeps_of t t' rows g (some s) keep e =
    let same = some-injective _ _ e in
    (ap (λ r. r.0.config) (sym same) ∙ (keep s).0, ap (λ r. r.0.depth) (sym same) ∙ (keep s).1)

append_keeps :
    {A : Type 0} (t t' : LightRollUpTree A) (tracking : List ℕ) (leaves : List (Leaf A))
    (rows : NodeMap A)
    → append t tracking leaves ≡ some (t', rows)
    → (t'.config ≡ t.config) × (t'.depth ≡ t.depth)
unfolding append
append_keeps t t' tracking leaves rows e = keeps_of t t' rows _ _ (λ s. (refl, refl)) e

data_made :
    {A : Type 0} (o : Option (LightRollUpTree A × NodeMap A)) (d : TreeData A)
    → new_data o ≡ some d
    → (t' : LightRollUpTree A) × (rows : NodeMap A) × (o ≡ some (t', rows)) × (t'.data_of ≡ d)
data_made none d e = absurd (none-ne-some _ e)
data_made (some (t', rows)) d e = (t', rows, refl, some-injective _ _ e)

module _ {A : Type 0} (parent : A → A → A) (z : A) (height : ℕ) where
  moved :
      {d d' : TreeData A} {depth depth' : ℕ} {f f' : ℕ → A}
      → depth' ≡ depth
      → d' ≡ d
      → f' ≡ f
      → Represents parent z depth f' d
      → Represents parent z depth' f d'
  moved {d = d} {depth = depth} {depth' = depth'} {f = f} e p q rep =
      subst (λ x. Represents parent z depth' f x) (sym p)
        (subst (λ k. Represents parent z k f d) (sym e)
          (subst (λ g. Represents parent z depth g d) q rep))

  pub append_padded-Holds :
      (size : ℕ) (t : LightRollUpTree A) (f : ℕ → A) (tracking : List ℕ) (leaves : List (Leaf A))
      → Holds parent z height f t
      → HasRoom size t leaves
      → (t' : LightRollUpTree A) × (rows : NodeMap A) × (append_padded z size t tracking leaves
          ≡ some (t', rows))
        × (t'.depth ≡ t.depth)
        × (latest_leaf_index t' ≡ latest_leaf_index t + fixed_size_len size (length leaves))
        × Holds parent z height (grow f (latest_leaf_index t) (hashes_of leaves)) t'
  unfolding append_padded max_size latest_leaf_index
  append_padded-Holds size t f tracking leaves holds room =
      let all = padded z size leaves in
      let i = latest_leaf_index t in
      let n = length-padded z size leaves room.0 in
      let open_ = le→leb (i + fixed_size_len size (length leaves)) (2 ^ t.depth) room.1 in
      let (d, ran, end, rep) =
        dry_append-Represents parent z height t f all holds.hasher holds.enough (omega arith)
          holds.stands in
      let (t', rows, made, kept) =
        data_made (append t tracking all) d
          (append-dry_append t tracking all (omega arith) ∙ ran) in
      let keep = append_keeps t t' tracking all rows made in
      let same : grow f i (hashes_of all) ≡ grow f i (hashes_of leaves) =
        ap (grow f i) (hashes_padded z size leaves)
        ∙ grow-padded z f i (fixed_size_len size (length leaves) - length leaves) (hashes_of leaves)
            holds.stands.empty in
      (
        t',
        rows,
        rw open_ made,
        keep.1,
        ap (λ d. d.index) kept ∙ omega arith,
        record {
          hasher = ap (λ c. c.hasher) keep.0 ∙ holds.hasher;
          enough = omega (arith, keep.1, holds.enough);
          stands = moved keep.1 kept same rep;
        },
      )

  -- The data that the dry run returns, without the padding.
  pub dry_append-Holds :
      (t : LightRollUpTree A) (f : ℕ → A) (leaves : List (Leaf A))
      → Holds parent z height f t
      → latest_leaf_index t + length leaves ≤ 2 ^ t.depth
      → (d : TreeData A) × (dry_append t (map untracked leaves) ≡ some d)
        × (d.index ≡ latest_leaf_index t + length leaves)
        × Represents parent z t.depth (grow f (latest_leaf_index t) (hashes_of leaves)) d
  unfolding untracked
  dry_append-Holds t f leaves holds room =
      let plain = map untracked leaves in
      let n = length-map untracked leaves in
      let (d, ran, end, rep) =
        dry_append-Represents parent z height t f plain holds.hasher holds.enough (omega arith)
          holds.stands in
      (
        d,
        ran,
        omega arith,
        moved refl refl (ap (grow f (latest_leaf_index t)) (hashes_untracked leaves)) rep,
      )
    where
      hashes_untracked :
          (leaves : List (Leaf A)) → hashes_of (map untracked leaves) ≡ hashes_of leaves
      hashes_untracked [] = refl
      hashes_untracked (x ∷ xs) = ap (◌∷◌ (x.hash)) (hashes_untracked xs)
