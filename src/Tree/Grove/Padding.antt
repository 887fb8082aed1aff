-- ===== src/Tree/Grove/Padding.antt =====
-- The padding of grove.ts: zero leaves behind the leaves, which do not change the tree.
use zkopru.Base.{
  ℕ, zero, suc, ◌+◌, ◌-◌, ◌/◌, ◌≤◌, ◌<◌, ◌≡◌, refl, ap, ◌∙◌, fun_ext, List, [], ◌∷◌, ◌++◌, arith,
  map, length, replicate, length-append, length-replicate, false,
}
use mathlib.Core.List.{map-append}
use native.Mathlib.Nat.{div-add-mod, mod-lt, mul-add, zero-mod, zero-div, mul-zero}
use zkopru.Tree.Spec.{update}
use zkopru.Tree.LightRollUp.{Leaf}
use zkopru.Tree.LightRollUp.Represents.{grow}
use zkopru.Tree.Grove.{fixed_size_len, padding, padded}

pub fixed_size_len-covers : (size n : ℕ) → 0 < size → n ≤ fixed_size_len size n
unfolding fixed_size_len
fixed_size_len-covers size n pos =
    let whole = div-add-mod n size in
    let small = mod-lt n pos in ground (arith, mul-add size (n / size) 1)

pub fixed_size_len-zero : (size : ℕ) → 0 < size → fixed_size_len size 0 ≡ 0
unfolding fixed_size_len
fixed_size_len-zero size pos = rw (zero-mod size, zero-div size, mul-zero size) refl

module _ {A : Type 0} (z : A) where
  pub grow-append :
      (f : ℕ → A) (i : ℕ) (xs ys : List A)
      → grow f i (xs ++ ys) ≡ grow (grow f i xs) (i + length xs) ys
  grow-append f i [] ys = let e : i ≡ i + 0 = omega arith in ap (λ k. grow f k ys) e
  grow-append f i (x ∷ xs) ys =
      let e : i + 1 + length xs ≡ i + suc (length xs) = omega arith in
      grow-append (update f i x) (i + 1) xs ys
      ∙ ap (λ k. grow (grow (update f i x) (i + 1) xs) k ys) e

  pub grow-empty :
      (f : ℕ → A) (i : ℕ) (xs : List A)
      → ((j : ℕ) → i ≤ j → f j ≡ z)
      → (j : ℕ) → i + length xs ≤ j
      → grow f i xs j ≡ z
  grow-empty f i [] empty j h = empty j (omega arith)
  grow-empty f i (x ∷ xs) empty j h =
      grow-empty (update f i x) (i + 1) xs (λ k p. ground (arith, empty k)) j (omega arith)

  grow-zeros : (f : ℕ → A) (i n : ℕ) → ((j : ℕ) → i ≤ j → f j ≡ z) → grow f i (replicate n z) ≡ f
  grow-zeros f i zero empty = refl
  grow-zeros f i (suc n) empty =
      let same : update f i z ≡ f = fun_ext (λ j. ground (arith, empty j)) in
      ap (λ g. grow g (i + 1) (replicate n z)) same
      ∙ grow-zeros f (i + 1) n (λ j p. empty j (omega arith))

  pub grow-padded :
      (f : ℕ → A) (i n : ℕ) (xs : List A)
      → ((j : ℕ) → i ≤ j → f j ≡ z)
      → grow f i (xs ++ replicate n z) ≡ grow f i xs
  grow-padded f i n xs empty =
      grow-append f i xs (replicate n z)
      ∙ grow-zeros (grow f i xs) (i + length xs) n (grow-empty f i xs empty)

  pub hashes_padded :
      (size : ℕ) (leaves : List (Leaf A))
      → map (λ leaf. leaf.hash) (padded z size leaves)
        ≡ map (λ leaf. leaf.hash) leaves
          ++ replicate (fixed_size_len size (length leaves) - length leaves) z
  unfolding padded padding
  hashes_padded size leaves =
      map-append (λ (leaf : Leaf A). leaf.hash) leaves (replicate _ _)
      ∙ ap (λ ys. map (λ leaf. leaf.hash) leaves ++ ys) (hashes_zero _)
    where
      hashes_zero :
          (n : ℕ)
          → map
              (λ (leaf : Leaf A). leaf.hash)
              (replicate n record { hash = z; should_track = false })
            ≡ replicate n z
      hashes_zero zero = refl
      hashes_zero (suc n) = ap (◌∷◌ z) (hashes_zero n)

  pub length-padded :
      (size : ℕ) (leaves : List (Leaf A))
      → 0 < size
      → length (padded z size leaves) ≡ fixed_size_len size (length leaves)
  unfolding padded padding
  length-padded size leaves pos =
      let n = length leaves in
      rw (length-append leaves (padding z (fixed_size_len size n - n)), length-replicate)
        (omega (arith, fixed_size_len-covers size n pos))
