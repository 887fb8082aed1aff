-- ===== src/Block/Samples/Words.antt =====
-- Values of a fixed number of bytes in the place of soltypes, and an injective function into 32
-- numbers for the hash.
use zkopru.Base.{
  Bool, true, ◌&&◌, ◌==◌, ==_iff, ◌↔◌, Eq, take, drop, take-append, drop-append, ℕ, zero, suc, ◌+◌,
  ◌*◌, ◌<◌, ◌≡◌, ◌≢◌, refl, sym, ap, ◌∙◌, Option, none, some, List, [], ◌∷◌, ◌++◌, ◌>>=◌, length,
  replicate, arith, cons_inj, Option-cases, inl, inr, subst,
}
use mathlib.Core.Option.{some-injective, none-ne-some}
use zkopru.Tree.Spec.{IsInjective}
use zkopru.Block.Types.{SolTypes, IsSolTypes}

-- A fixed number of numbers.
pub Word : ℕ → Type 0
Word zero = Unit
Word (suc n) = ℕ × Word n

pub word_bytes : (n : ℕ) → Word n → List ℕ
unfolding Word
word_bytes zero w = []
word_bytes (suc n) w = w.0 ∷ word_bytes n w.1

pub word_from : (n : ℕ) → List ℕ → Option (Word n)
unfolding Word
word_from zero [] = some tt
word_from zero (x ∷ xs) = none
word_from (suc n) [] = none
word_from (suc n) (x ∷ xs) = word_from n xs >>= λ w. some (x, w)

pub word_size : (n : ℕ) (w : Word n) → length (word_bytes n w) ≡ n
unfolding word_bytes
word_size zero w = refl
word_size (suc n) w = ap suc (word_size n w.1)

pub word_again : (n : ℕ) (w : Word n) → word_from n (word_bytes n w) ≡ some w
unfolding word_from word_bytes
word_again zero w = refl
word_again (suc n) w = rw (word_again n w.1)

pub word_kept : (n : ℕ) (xs : List ℕ) (w : Word n) → word_from n xs ≡ some w → word_bytes n w ≡ xs
unfolding word_from word_bytes
word_kept zero [] w h = refl
word_kept zero (x ∷ xs) w h = absurd (none-ne-some w h)
word_kept (suc n) [] w h = absurd (none-ne-some w h)
word_kept (suc n) (x ∷ xs) w h = elim (Option-cases (word_from n xs)) [
  | inl e ↦ absurd (none-ne-some w (sym (ap (λ o. o >>= λ w. some (x, w)) e) ∙ h))
  | inr (v, e) ↦
      let same = some-injective _ _ (sym (ap (λ o. o >>= λ w. some (x, w)) e) ∙ h) in
      subst (λ w. w.0 ∷ word_bytes n w.1 ≡ x ∷ xs) same (ap (◌∷◌ x) (word_kept n xs v e))
]

abbrev pub words : SolTypes
words = record {
  Address = Word 20;
  Bytes32 = Word 32;
  Uint256 = Word 32;
  address_from = word_from 20;
  bytes32_from = word_from 32;
  to_uint = λ b. b;
  address_bytes = word_bytes 20;
  bytes32_bytes = word_bytes 32;
  uint256_bytes = word_bytes 32;
}

pub words-IsSolTypes : IsSolTypes words
words-IsSolTypes = record {
  address_size = word_size 20;
  address_again = word_again 20;
  bytes32_size = word_size 32;
  bytes32_again = word_again 32;
  bytes32_kept = word_kept 32;
  uint256_size = word_size 32;
  uint256_again = λ u. (u, word_again 32 u, refl);
}

-- `2 ^ x * (2 * rest + 1)`
push : ℕ → ℕ → ℕ
push zero rest = 2 * rest + 1
push (suc x) rest = 2 * push x rest

code : List ℕ → ℕ
code [] = 0
code (x ∷ xs) = push x (code xs)

push_pos : (x rest : ℕ) → 0 < push x rest
unfolding push
push_pos zero rest = omega arith
push_pos (suc x) rest = omega (arith, push_pos x rest)

push_inj : (x y r t : ℕ) → push x r ≡ push y t → (x ≡ y) × (r ≡ t)
unfolding push
push_inj zero zero r t e = (refl, omega (arith, e))
push_inj zero (suc y) r t e = absurd (omega (arith, e))
push_inj (suc x) zero r t e = absurd (omega (arith, e))
push_inj (suc x) (suc y) r t e = let h = push_inj x y r t (omega (arith, e)) in (ap suc h.0, h.1)

code_inj : (xs ys : List ℕ) → code xs ≡ code ys → xs ≡ ys
unfolding code
code_inj [] [] e = refl
code_inj [] (y ∷ ys) e = absurd (omega (arith, push_pos y (code ys)))
code_inj (x ∷ xs) [] e = absurd (omega (arith, push_pos x (code xs)))
code_inj (x ∷ xs) (y ∷ ys) e =
    let (p, q) = push_inj x y (code xs) (code ys) e in let q' = code_inj xs ys q in λ i. p i ∷ q' i

pub hash : List ℕ → List ℕ
hash xs = code xs ∷ replicate 31 0

pub hash-free : (xs ys : List ℕ) → hash xs ≡ hash ys → xs ≡ ys
unfolding hash
hash-free xs ys e = code_inj xs ys ((cons_inj _ _ _ _ e).0)

pub fill : (n : ℕ) → ℕ → Word n
unfolding Word
fill zero x = tt
fill (suc n) x = (x, fill n x)

pub hash_word : List ℕ → Word 32
unfolding Word
hash_word xs = (code xs, fill 31 0)

pub hash_made : (xs : List ℕ) → word_from 32 (hash xs) ≡ some (hash_word xs)
unfolding word_from hash hash_word fill
hash_made xs = refl

pub word_made : (n : ℕ) (xs : List ℕ) → length xs ≡ n → (w : Word n) × (word_from n xs ≡ some w)
unfolding Word word_from
word_made zero [] h = (tt, refl)
word_made zero (x ∷ xs) h = absurd (omega (arith, h))
word_made (suc n) [] h = absurd (omega (arith, h))
word_made (suc n) (x ∷ xs) h =
    let (w, made) = word_made n xs (omega (arith, h)) in ((x, w), rw made refl)

pub word_beq : (n : ℕ) → Word n → Word n → Bool
unfolding Word
word_beq zero v w = true
word_beq (suc n) v w = v.0 == w.0 && word_beq n v.1 w.1

pub word_beq_iff : (n : ℕ) (v w : Word n) → (word_beq n v w ≡ true) ↔ (v ≡ w)
unfolding Word word_beq
word_beq_iff zero v w = (λ h. refl, λ h. refl)
word_beq_iff (suc n) v w =
    let rest = word_beq_iff n v.1 w.1 in
    let first = ==_iff v.0 w.0 in
    (
      λ h.
          let both : ((v.0 == w.0) ≡ true) × (word_beq n v.1 w.1 ≡ true) = ground (arith, h) in
          let p = first.0 both.0 in let q = rest.0 both.1 in λ i. (p i, q i),
      λ e. rw (first.1 (ap (λ u. u.0) e), rest.1 (ap (λ u. u.1) e)) refl,
    )

instance abbrev pub word_eq : Eq (Word 32)
word_eq = record { beq = word_beq 32; beq_iff = word_beq_iff 32 }

-- An injective hash of two words.
pub word_parent : Word 32 → Word 32 → Word 32
word_parent v w = hash_word (word_bytes 32 v ++ word_bytes 32 w)

word_bytes_inj : (v w : Word 32) → word_bytes 32 v ≡ word_bytes 32 w → v ≡ w
word_bytes_inj v w e =
    some-injective _ _ (sym (word_again 32 v) ∙ (ap (word_from 32) e ∙ word_again 32 w))

pub word_parent-IsInjective : IsInjective word_parent
unfolding word_parent hash_word Word
word_parent-IsInjective a b c d e =
    let same =
      code_inj (word_bytes 32 a ++ word_bytes 32 b) (word_bytes 32 c ++ word_bytes 32 d)
        (ap (λ u. u.0) e) in
    let firsts = word_first a b ∙ (ap (take 32) same ∙ sym (word_first c d)) in
    let seconds = word_second a b ∙ (ap (drop 32) same ∙ sym (word_second c d)) in
    (word_bytes_inj a c firsts, word_bytes_inj b d seconds)
  where
    word_first : (v w : Word 32) → word_bytes 32 v ≡ take 32 (word_bytes 32 v ++ word_bytes 32 w)
    word_first v w =
        subst (λ k. word_bytes 32 v ≡ take k (word_bytes 32 v ++ word_bytes 32 w)) (word_size 32 v)
          (sym (take-append (word_bytes 32 v) (word_bytes 32 w)))

    word_second : (v w : Word 32) → word_bytes 32 w ≡ drop 32 (word_bytes 32 v ++ word_bytes 32 w)
    word_second v w =
        subst (λ k. word_bytes 32 w ≡ drop k (word_bytes 32 v ++ word_bytes 32 w)) (word_size 32 v)
          (sym (drop-append (word_bytes 32 v) (word_bytes 32 w)))

pub word_parent_ne : (v w : Word 32) → word_parent v w ≢ fill 32 1
unfolding Word fill hash_word word_parent
word_parent_ne v w e = let one = ap (λ (x : Word 32). x.1.0) e in absurd (omega (arith, one))
