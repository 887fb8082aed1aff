-- ===== src/Base/Terms.antt =====
-- Free terms: hash values for the tests, of which no two pairs are equal.
use mathlib.Core.Path.{◌≡◌, refl, ap, sym}
use mathlib.Core.Bool.{Bool, true, false, ◌&&◌}
use Prim.Native.Nat.{ℕ}
use native.Mathlib.Omega.{arith}
use zkopru.Base.Tests.{Eq, ◌==◌, ==_iff}

pub data Term : Type 0 where
  leaf : ℕ → Term
  pair : Term → Term → Term

abbrev pub number : Term → ℕ
number (leaf n) = n
number (pair s t) = 0

abbrev left : Term → Term
left (leaf n) = leaf n
left (pair s t) = s

abbrev right : Term → Term
right (leaf n) = leaf n
right (pair s t) = t

abbrev is_leaf : Term → Bool
is_leaf (leaf n) = true
is_leaf (pair s t) = false

abbrev term_beq : Term → Term → Bool
term_beq (leaf n) (leaf m) = n == m
term_beq (leaf n) (pair s t) = false
term_beq (pair s t) (leaf m) = false
term_beq (pair s t) (pair u v) = term_beq s u && term_beq t v

pub term_beq_sound : (s t : Term) → term_beq s t ≡ true → s ≡ t
term_beq_sound (leaf n) (leaf m) h = ap leaf ((==_iff n m).0 h)
term_beq_sound (leaf n) (pair s t) h = absurd (ground arith)
term_beq_sound (pair s t) (leaf m) h = absurd (ground arith)
term_beq_sound (pair s t) (pair u v) h =
    let both : (term_beq s u ≡ true) × (term_beq t v ≡ true) = ground arith in
    let p = term_beq_sound s u both.0 in let q = term_beq_sound t v both.1 in λ i. pair (p i) (q i)

term_beq_refl : (s : Term) → term_beq s s ≡ true
term_beq_refl (leaf n) = (==_iff n n).1 refl
term_beq_refl (pair s t) = rw (term_beq_refl s, term_beq_refl t)

pub term_beq_complete : (s t : Term) → s ≡ t → term_beq s t ≡ true
term_beq_complete s t e = rw (sym e) (term_beq_refl s)

instance abbrev pub term_eq : Eq Term
term_eq = record { beq = term_beq; beq_iff = λ s t. (term_beq_sound s t, term_beq_complete s t) }

pub pair_inj : (a b c d : Term) → pair a b ≡ pair c d → (a ≡ c) × (b ≡ d)
pair_inj a b c d e = (ap left e, ap right e)
