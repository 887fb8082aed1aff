-- ===== src/Utils/Root.antt =====
-- `root` of packages/utils/src/index.ts, the Merkle root of the transactions, withdrawals or
-- migrations of a block. `parent_of` is the hash of two values, `zero_bytes` the value of an empty list.
use zkopru.Base.{ℕ, zero, suc, ◌≤◌, ◌≡◌, refl, ap, ◌∙◌, List, [], ◌∷◌, length, arith, cons_inj}
use zkopru.Tree.Spec.{IsInjective}

module _ {A : Type 0} (parent_of : A → A → A) (zero_bytes : A) where
  -- The loop that makes `parents`: a last value with no partner is hashed with itself.
  unfoldable pub parents : List A → List A
  parents [] = []
  parents (x ∷ []) = parent_of x x ∷ []
  parents (x ∷ y ∷ hashes) = parent_of x y ∷ parents hashes

  -- The recursion, on fuel: every round leaves fewer values.
  unfoldable pub root_on : ℕ → List A → A
  root_on n [] = zero_bytes
  root_on n (x ∷ []) = x
  root_on zero (x ∷ y ∷ hashes) = zero_bytes
  root_on (suc n) (x ∷ y ∷ hashes) = root_on n (parents (x ∷ y ∷ hashes))

  unfoldable pub root : List A → A
  root hashes = root_on (length hashes) hashes

  length-parents : (xs : List A) → length (parents xs) ≤ length xs
  unfolding parents
  length-parents [] = omega arith
  length-parents (x ∷ []) = omega arith
  length-parents (x ∷ y ∷ xs) = omega (arith, length-parents xs)

  length-parents_eq :
      (xs ys : List A) → length xs ≡ length ys → length (parents xs) ≡ length (parents ys)
  unfolding parents
  length-parents_eq [] [] h = refl
  length-parents_eq [] (y ∷ ys) h = absurd (omega arith)
  length-parents_eq (x ∷ xs) [] h = absurd (omega arith)
  length-parents_eq (x ∷ []) (y ∷ []) h = refl
  length-parents_eq (x ∷ []) (y ∷ y' ∷ ys) h = absurd (omega arith)
  length-parents_eq (x ∷ x' ∷ xs) (y ∷ []) h = absurd (omega arith)
  length-parents_eq (x ∷ x' ∷ xs) (y ∷ y' ∷ ys) h =
      omega (arith, length-parents_eq xs ys (omega arith))

  -- The recursion of `root` ends: when the fuel covers every value, more fuel changes nothing.
  pub root_on-enough :
      (n m : ℕ) (xs : List A) → length xs ≤ n → length xs ≤ m → root_on n xs ≡ root_on m xs
  unfolding root_on parents
  root_on-enough n m [] hn hm = refl
  root_on-enough n m (x ∷ []) hn hm = refl
  root_on-enough zero m (x ∷ y ∷ xs) hn hm = absurd (omega arith)
  root_on-enough (suc n) zero (x ∷ y ∷ xs) hn hm = absurd (omega arith)
  root_on-enough (suc n) (suc m) (x ∷ y ∷ xs) hn hm =
      root_on-enough n m (parent_of x y ∷ parents xs) (omega (arith, length-parents xs))
        (omega (arith, length-parents xs))

  module _ (inj : IsInjective parent_of) where
    parents_inj : (xs ys : List A) → length xs ≡ length ys → parents xs ≡ parents ys → xs ≡ ys
    unfolding parents
    parents_inj [] [] h e = refl
    parents_inj [] (y ∷ ys) h e = absurd (omega arith)
    parents_inj (x ∷ xs) [] h e = absurd (omega arith)
    parents_inj (x ∷ []) (y ∷ []) h e =
        let same = inj x x y y ((cons_inj _ _ _ _ e).0) in ap (λ z. z ∷ []) same.0
    parents_inj (x ∷ []) (y ∷ y' ∷ ys) h e = absurd (omega arith)
    parents_inj (x ∷ x' ∷ xs) (y ∷ []) h e = absurd (omega arith)
    parents_inj (x ∷ x' ∷ xs) (y ∷ y' ∷ ys) h e =
        let (first, rest) = cons_inj _ _ _ _ e in
        let (p, q) = inj x x' y y' first in
        let tails = parents_inj xs ys (omega arith) rest in λ i. p i ∷ q i ∷ tails i

    root_on_inj :
        (n : ℕ) (xs ys : List A)
        → length xs ≤ n
        → length xs ≡ length ys
        → root_on n xs ≡ root_on n ys
        → xs ≡ ys
    unfolding root_on parents
    root_on_inj n [] [] s h e = refl
    root_on_inj n [] (y ∷ ys) s h e = absurd (omega arith)
    root_on_inj n (x ∷ xs) [] s h e = absurd (omega arith)
    root_on_inj n (x ∷ []) (y ∷ []) s h e = ap (λ z. z ∷ []) e
    root_on_inj n (x ∷ []) (y ∷ y' ∷ ys) s h e = absurd (omega arith)
    root_on_inj n (x ∷ x' ∷ xs) (y ∷ []) s h e = absurd (omega arith)
    root_on_inj zero (x ∷ x' ∷ xs) (y ∷ y' ∷ ys) s h e = absurd (omega arith)
    root_on_inj (suc n) (x ∷ x' ∷ xs) (y ∷ y' ∷ ys) s h e =
        parents_inj (x ∷ x' ∷ xs) (y ∷ y' ∷ ys) h (
          root_on_inj n (parents (x ∷ x' ∷ xs)) (parents (y ∷ y' ∷ ys))
            (omega (arith, length-parents xs)) (length-parents_eq (x ∷ x' ∷ xs) (y ∷ y' ∷ ys) h) e)

  -- When the hash is injective, `root` binds a list of known length: two lists of the same length
  -- with the same root are equal.
  pub root_inj :
      IsInjective parent_of → (xs ys : List A) → length xs ≡ length ys → root xs ≡ root ys → xs ≡ ys
  unfolding root
  root_inj inj xs ys h e =
      root_on_inj inj (length xs) xs ys (omega arith) h
        (e ∙ root_on-enough (length ys) (length xs) ys (omega arith) (omega arith))
