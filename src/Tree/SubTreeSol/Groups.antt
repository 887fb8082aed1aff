-- ===== src/Tree/SubTreeSol/Groups.antt =====
-- The groups of `splitToSubTrees` of merkle-tree-sol.ts, put one after the other behind the leaves.
use zkopru.Base.{
  ℕ, zero, suc, ◌+◌, ◌-◌, ◌*◌, ◌/◌, ◌≤◌, ◌<◌, ◌≡◌, refl, sym, ap, ◌∙◌, inl, inr, List, [], ◌∷◌,
  ◌++◌, arith, position, length, take, drop, get_or, replicate, length-append, length-replicate,
}
use mathlib.Core.List.{append-nil}
use native.Mathlib.Nat.{div-add-mod, mod-lt, mul_comm, add-mul}
use zkopru.Tree.Spec.{update}
use zkopru.Tree.LightRollUp.Represents.{grow}
use zkopru.Tree.Grove.Padding.{grow-append, grow-padded}
use zkopru.Tree.SubTreeSol.{num_of_sub_trees}

pub num_of_sub_trees-covers : (size n : ℕ) → 0 < size → n ≤ num_of_sub_trees size n * size
unfolding num_of_sub_trees
num_of_sub_trees-covers size n pos =
    let whole = div-add-mod n size in
    let small = mod-lt n pos in ground (arith, mul_comm size (n / size), add-mul (n / size) 1 size)

module _ {A : Type 0} where
  take-drop : (n : ℕ) (xs : List A) → take n xs ++ drop n xs ≡ xs
  take-drop zero xs = refl
  take-drop (suc n) [] = refl
  take-drop (suc n) (x ∷ xs) = ap (◌∷◌ x) (take-drop n xs)

  length-take : (n : ℕ) (xs : List A) → n ≤ length xs → length (take n xs) ≡ n
  length-take zero xs h = refl
  length-take (suc n) [] h = absurd (omega arith)
  length-take (suc n) (x ∷ xs) h = ap suc (length-take n xs (omega arith))

  take-all : (n : ℕ) (xs : List A) → length xs ≤ n → take n xs ≡ xs
  take-all zero [] h = refl
  take-all zero (x ∷ xs) h = absurd (omega arith)
  take-all (suc n) [] h = refl
  take-all (suc n) (x ∷ xs) h = ap (◌∷◌ x) (take-all n xs (omega arith))

  pub length-drop : (n : ℕ) (xs : List A) → length (drop n xs) ≡ length xs - n
  length-drop zero xs = omega arith
  length-drop (suc n) [] = omega arith
  length-drop (suc n) (x ∷ xs) = omega (arith, length-drop n xs)

  drop-all : (n : ℕ) (xs : List A) → length xs ≤ n → drop n xs ≡ []
  drop-all zero [] h = refl
  drop-all zero (x ∷ xs) h = absurd (omega arith)
  drop-all (suc n) [] h = refl
  drop-all (suc n) (x ∷ xs) h = drop-all n xs (omega arith)

  -- The leaves grow at their positions only.
  pub grow-before : (f : ℕ → A) (i : ℕ) (xs : List A) (j : ℕ) → j < i → grow f i xs j ≡ f j
  grow-before f i [] j h = refl
  grow-before f i (x ∷ xs) j h =
      let same : update f i x j ≡ f j = ground arith in
      grow-before (update f i x) (i + 1) xs j (omega arith) ∙ same

  pub grow-at :
      (f : ℕ → A) (i : ℕ) (xs : List A) (j : ℕ) (z : A)
      → j < length xs
      → grow f i xs (j + i) ≡ get_or xs j z
  grow-at f i [] j z h = absurd (omega arith)
  grow-at f i (x ∷ xs) zero z h =
      let at : 0 + i ≡ i = omega arith in
      let same : update f i x i ≡ x = ground arith in
      rw at (grow-before (update f i x) (i + 1) xs i (omega arith) ∙ same)
  grow-at f i (x ∷ xs) (suc j) z h =
      let at : suc j + i ≡ j + (i + 1) = omega arith in
      rw at (grow-at (update f i x) (i + 1) xs j z (omega arith))

-- The first group of the leaves, filled up with the empty leaf.
abbrev pub first_group : {A : Type 0} → A → ℕ → List A → List A
first_group z size leaves = take size leaves ++ replicate (size - length (take size leaves)) z

module _ {A : Type 0} (z : A) (size : ℕ) where
  pub length-first_group : (leaves : List A) → length (first_group z size leaves) ≡ size
  length-first_group leaves =
      let taken = take size leaves in
      let n = length-append taken (replicate (size - length taken) z) in
      let r = length-replicate (size - length taken) z in
      omega (arith, n, r, length-take-le size leaves)
    where
      length-take-le : (n : ℕ) (xs : List A) → length (take n xs) ≤ n
      length-take-le zero xs = omega arith
      length-take-le (suc n) [] = omega arith
      length-take-le (suc n) (x ∷ xs) = omega (arith, length-take-le n xs)

  -- The group and then the leaves behind it are the leaves.
  pub grow-first_group :
      (f : ℕ → A) (i : ℕ) (leaves : List A)
      → ((j : ℕ) → i ≤ j → f j ≡ z)
      → grow (grow f i (first_group z size leaves)) (i + size) (drop size leaves) ≡ grow f i leaves
  grow-first_group f i leaves empty = elim (position (length leaves) (suc size)) [
    | inl few ↦
        rw (drop-all size leaves (omega arith), take-all size leaves (omega arith))
          (grow-padded z f i (size - length leaves) leaves empty)
    | inr more ↦
        let taken = take size leaves in
        let full : length taken ≡ size = length-take size leaves (omega arith) in
        let none_left : size - length taken ≡ 0 = omega arith in
        let whole : first_group z size leaves ≡ taken =
          ap (λ n. taken ++ replicate n z) none_left ∙ append-nil taken in
        ap (λ g. grow (grow f i g) (i + size) (drop size leaves)) whole
        ∙ ap (λ n. grow (grow f i taken) (i + n) (drop size leaves)) (sym full)
        ∙ sym (grow-append z f i taken (drop size leaves))
        ∙ ap (grow f i) (take-drop size leaves)
  ]
