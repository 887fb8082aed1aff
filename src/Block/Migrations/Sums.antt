-- ===== src/Block/Migrations/Sums.antt =====
-- Sums over the notes of a block, and over its notes for each destination and token.
use zkopru.Base.{
  ℕ, ◌+◌, ◌%◌, ◌≤◌, ◌<◌, ◌≡◌, refl, ap, ◌∙◌, Bool, true, false, Option, some, List, [], ◌∷◌, ◌++◌,
  arith, ◌==◌, if◌then◌else◌, All, map, filter, traverse, count, member, unique, unique_after,
  count-unique_after, All-map,
}
use zkopru.Transaction.Fp.{order}
use zkopru.Transaction.ZkTx.{ZkOutflow}
use zkopru.Transaction.ZkTx.Writes.{sum_map}
use zkopru.Block.Migrations.{reduce_fp}

pub sum_map-append :
    {A : Type 0} (f : A → ℕ) (xs ys : List A) → sum_map f (xs ++ ys) ≡ sum_map f xs + sum_map f ys
sum_map-append f [] ys = omega arith
sum_map-append f (x ∷ xs) ys = omega (arith, sum_map-append f xs ys)

pub sum_map-filter_le :
    {A : Type 0} (f : A → ℕ) (p : A → Bool) (xs : List A) → sum_map f (filter p xs) ≤ sum_map f xs
sum_map-filter_le f p [] = omega arith
sum_map-filter_le f p (x ∷ xs) = ground (arith, sum_map-filter_le f p xs)

-- The sum in the field is the sum, as long as that is below the order.
reduce_fp-sum_map :
    (f : ZkOutflow → ℕ) (acc : ℕ) (os : List ZkOutflow)
    → acc + sum_map f os < order
    → reduce_fp f acc os ≡ acc + sum_map f os
unfolding reduce_fp order
reduce_fp-sum_map f acc [] small = omega arith
reduce_fp-sum_map f acc (o ∷ os) small =
    let e : (acc + f o) % order ≡ acc + f o = omega arith in
    ap (λ k. reduce_fp f k os) e ∙ (reduce_fp-sum_map f (acc + f o) os (omega arith) ∙ omega arith)

pub reduce_fp_total :
    (f : ZkOutflow → ℕ) (os : List ZkOutflow)
    → sum_map f os < order
    → reduce_fp f 0 os ≡ sum_map f os
reduce_fp_total f os small = omega (arith, reduce_fp-sum_map f 0 os (omega arith))

module _ {A : Type 0} (f : A → ℕ) (key : A → ℕ) where
  -- What the keys in `ks` pick of `x`.
  picked : A → List ℕ → ℕ
  picked x ks = sum_map (λ k. if key x == k then f x else 0) ks

  picked_absent : (x : A) (ks : List ℕ) → count (key x) ks ≡ 0 → picked x ks ≡ 0
  unfolding picked
  picked_absent x [] h = refl
  picked_absent x (k ∷ ks) h = ground (arith, picked_absent x ks)

  picked_once : (x : A) (ks : List ℕ) → count (key x) ks ≡ 1 → picked x ks ≡ f x
  unfolding picked
  picked_once x [] h = absurd (omega arith)
  picked_once x (k ∷ ks) h = ground (arith, picked_absent x ks, picked_once x ks)

  abbrev pub for_key : ℕ → List A → List A
  for_key k xs = filter (λ x. key x == k) xs

  split_one :
      (x : A) (xs : List A) (ks : List ℕ)
      → sum_map (λ k. sum_map f (for_key k (x ∷ xs))) ks
        ≡ picked x ks + sum_map (λ k. sum_map f (for_key k xs)) ks
  unfolding picked
  split_one x xs [] = refl
  split_one x xs (k ∷ ks) = ground (arith, split_one x xs ks)

  sum_zero : (ks : List ℕ) → sum_map (λ k. sum_map f (for_key k [])) ks ≡ 0
  sum_zero [] = refl
  sum_zero (k ∷ ks) = omega (arith, sum_zero ks)

  -- When the key of each element is there once, the sums for the keys make the whole sum.
  pub sum_by_key :
      (xs : List A) (ks : List ℕ)
      → All (λ x. count (key x) ks ≡ 1) xs
      → sum_map (λ k. sum_map f (for_key k xs)) ks ≡ sum_map f xs
  sum_by_key [] ks all = sum_zero ks
  sum_by_key (x ∷ xs) ks all =
      omega (arith, split_one x xs ks, picked_once x ks all.0, sum_by_key xs ks all.1)

pub count-unique : (x : ℕ) (xs : List ℕ) → member x xs ≡ true → count x (unique xs) ≡ 1
count-unique x xs h = ground (arith, count-unique_after x [] xs)

choose : {A : Type 0} (P : A → Type 0) (b : Bool) (x y : A) → P x → P y → P (if b then x else y)
choose P true x y h k = h
choose P false x y h k = k

pub All-filter :
    {A : Type 0} (P : A → Type 0) (p : A → Bool) (xs : List A) → All P xs → All P (filter p xs)
All-filter P p [] all = tt
All-filter P p (x ∷ xs) all =
    let rest = All-filter P p xs all.1 in
    choose (All P) (p x) (x ∷ filter p xs) (filter p xs) (all.0, rest) rest

pub filter-All :
    {A : Type 0} (P : A → Type 0) (p q : A → Bool)
    → ((x : A) → P x → p x ≡ q x)
    → (xs : List A) → All P xs
    → filter p xs ≡ filter q xs
filter-All P p q same [] all = refl
filter-All P p q same (x ∷ xs) all = rw (same x all.0, filter-All P p q same xs all.1) refl

pub sum_map-map :
    {A B : Type 0} (f : B → ℕ) (g : A → B) (xs : List A)
    → sum_map f (map g xs) ≡ sum_map (λ x. f (g x)) xs
sum_map-map f g [] = refl
sum_map-map f g (x ∷ xs) = ap (λ n. f (g x) + n) (sum_map-map f g xs)

pub sum_map-All :
    {A : Type 0} (P : A → Type 0) (f g : A → ℕ)
    → ((x : A) → P x → f x ≡ g x)
    → (xs : List A) → All P xs
    → sum_map f xs ≡ sum_map g xs
sum_map-All P f g same [] all = refl
sum_map-All P f g same (x ∷ xs) all = omega (arith, same x all.0, sum_map-All P f g same xs all.1)

-- A callback that throws on none of the elements, and a view of its results.
pub traverse-All :
    {A B C : Type 0} (P : A → Type 0) (g : A → Option B) (view : B → C) (want : A → C)
    → ((x : A) → P x → (y : B) × (g x ≡ some y) × (view y ≡ want x))
    → (xs : List A) → All P xs
    → (ys : List B) × (traverse g xs ≡ some ys) × (map view ys ≡ map want xs)
traverse-All P g view want each [] all = ([], refl, refl)
traverse-All P g view want each (x ∷ xs) all =
    let (y, made, same) = each x all.0 in
    let (ys, made_all, same_all) = traverse-All P g view want each xs all.1 in
    (y ∷ ys, rw (made, made_all) refl, λ i. same i ∷ same_all i)

pub All-of-map :
    {A B : Type 0} (P : B → Type 0) (h : A → B) (xs : List A)
    → All P (map h xs)
    → All (λ x. P (h x)) xs
All-of-map P h [] all = tt
All-of-map P h (x ∷ xs) all = (all.0, All-of-map P h xs all.1)

pub All-to-map :
    {A B : Type 0} (P : B → Type 0) (h : A → B) (xs : List A)
    → All (λ x. P (h x)) xs
    → All P (map h xs)
All-to-map P h [] all = tt
All-to-map P h (x ∷ xs) all = (all.0, All-to-map P h xs all.1)

pub All-unique_after : (P : ℕ → Type 0) (seen xs : List ℕ) → All P xs → All P (unique_after seen xs)
All-unique_after P seen [] all = tt
All-unique_after P seen (x ∷ xs) all =
    choose (All P) (member x seen) (unique_after seen xs) (x ∷ unique_after (x ∷ seen) xs)
      (All-unique_after P seen xs all.1) (all.0, All-unique_after P (x ∷ seen) xs all.1)

pub All-member : (xs : List ℕ) → All (λ x. member x xs ≡ true) xs
All-member [] = tt
All-member (x ∷ xs) = (ground arith, All-map xs (λ y h. ground (arith, h)) (All-member xs))
