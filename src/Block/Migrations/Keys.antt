-- ===== src/Block/Migrations/Keys.antt =====
-- The destinations and the tokens of the migrating notes of a block, and the sums over the notes for
-- each of them.
use zkopru.Base.{
  ℕ, ◌^◌, ◌<◌, ◌≡◌, refl, ap, ◌∙◌, fun_ext, true, Option, some, List, [], ◌∷◌, ◌++◌, arith, ◌==◌,
  All, All-map, map, filter, traverse, unique, count, member,
}
use zkopru.Transaction.ZkTx.{ZkOutflow}
use zkopru.Transaction.ZkTx.Writes.{sum_map}
use zkopru.Block.Migrations.{of_data, is_to, is_token, to_of, token_of}
use zkopru.Block.Migrations.Sums.{
  sum_map-append, sum_by_key, count-unique, All-filter, filter-All, sum_map-map, All-of-map,
  All-member,
}
use zkopru.Block.Migrations.Single.{IsMigrating}

abbrev pub key_to : ZkOutflow → ℕ
key_to = of_data 0 (λ d. d.to)

abbrev pub key_token : ZkOutflow → ℕ
key_token = of_data 0 (λ d. d.token_addr)

-- The notes for one destination and one token.
abbrev pub notes_for : List ZkOutflow → ℕ → ℕ → List ZkOutflow
notes_for notes d t = filter (is_token t) (filter (is_to d) notes)

is_to_key : (d : ℕ) (o : ZkOutflow) → IsMigrating o → is_to d o ≡ (key_to o == d)
unfolding is_to
is_to_key d o h = rw h.has refl

is_token_key : (t : ℕ) (o : ZkOutflow) → IsMigrating o → is_token t o ≡ (key_token o == t)
unfolding is_token
is_token_key t o h = rw h.has refl

-- The key of each note is there once among the unique keys.
keys_once :
    (key : ZkOutflow → ℕ) (notes : List ZkOutflow)
    → All (λ o. count (key o) (unique (map key notes)) ≡ 1) notes
keys_once key notes =
    All-map notes (λ o h. count-unique (key o) (map key notes) h)
      (All-of-map (λ k. member k (map key notes) ≡ true) key notes (All-member (map key notes)))

-- Over all destinations and tokens the notes make the whole.
pub sum_notes_for :
    (f : ZkOutflow → ℕ) (notes : List ZkOutflow)
    → All IsMigrating notes
    → sum_map
        (λ d. sum_map (λ t. sum_map f (notes_for notes d t)) (unique (map key_token notes)))
        (unique (map key_to notes))
      ≡ sum_map f notes
sum_notes_for f notes all =
    let ts = unique (map key_token notes) in
    let ds = unique (map key_to notes) in
    let inner : (d : ℕ)
        → sum_map (λ t. sum_map f (notes_for notes d t)) ts ≡ sum_map f (filter (is_to d) notes) =
      λ d.
        let some_ = filter (is_to d) notes in
        let good = All-filter IsMigrating (is_to d) notes all in
        sum_map-all
          (λ t. ap (sum_map f) (
            filter-All IsMigrating (is_token t) (λ o. key_token o == t) (is_token_key t) some_
              good))
          ts
        ∙ sum_by_key f key_token some_ ts (
            All-filter (λ o. count (key_token o) ts ≡ 1) (is_to d) notes
              (keys_once key_token notes)) in
    sum_map-all inner ds
    ∙ (sum_map-all
          (λ d.
            ap (sum_map f)
              (filter-All IsMigrating (is_to d) (λ o. key_to o == d) (is_to_key d) notes all))
          ds
        ∙ sum_by_key f key_to notes ds (keys_once key_to notes))
  where
    sum_map-all :
        {g h : ℕ → ℕ} → ((k : ℕ) → g k ≡ h k) → (ks : List ℕ) → sum_map g ks ≡ sum_map h ks
    sum_map-all {g = g} {h = h} e ks = ap (λ f. sum_map f ks) (fun_ext e)

-- `T` of every pair, in the order of the loops.
abbrev pub grid : {A B C : Type 0} → (A → B → C) → List A → List B → List C
grid T [] ts = []
grid T (d ∷ ds) ts = map (T d) ts ++ grid T ds ts

pub sum_map-grid :
    {A B C : Type 0} (f : C → ℕ) (T : A → B → C) (ds : List A) (ts : List B)
    → sum_map f (grid T ds ts) ≡ sum_map (λ d. sum_map (λ t. f (T d t)) ts) ds
sum_map-grid f T [] ts = refl
sum_map-grid f T (d ∷ ds) ts = omega (
  arith,
  sum_map-append f (map (T d) ts) (grid T ds ts),
  sum_map-map f (T d) ts,
  sum_map-grid f T ds ts,
)

pub read_keys :
    (read : ZkOutflow → Option ℕ) (key : ZkOutflow → ℕ)
    → ((o : ZkOutflow) → IsMigrating o → read o ≡ some (key o))
    → (notes : List ZkOutflow) → All IsMigrating notes
    → traverse read notes ≡ some (map key notes)
read_keys read key same [] all = refl
read_keys read key same (o ∷ os) all = rw (same o all.0, read_keys read key same os all.1) refl

pub to_of_key : (o : ZkOutflow) → IsMigrating o → to_of o ≡ some (key_to o)
unfolding to_of
to_of_key o h = rw h.has refl

pub token_of_key : (o : ZkOutflow) → IsMigrating o → token_of o ≡ some (key_token o)
unfolding token_of
token_of_key o h = rw h.has refl

pub token_small : (o : ZkOutflow) → IsMigrating o → key_token o < 256 ^ 20
token_small o h = rw h.has (h.token_fits)

pub to_small : (o : ZkOutflow) → IsMigrating o → key_to o < 256 ^ 20
to_small o h = rw h.has (h.to_fits)
