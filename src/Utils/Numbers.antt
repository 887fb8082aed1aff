-- ===== src/Utils/Numbers.antt =====
-- `numToBuffer` and `StringifiedHexQueue.dequeueToNumber` of packages/utils/src/index.ts: numbers
-- written in a fixed number of bytes.
use native.Mathlib.Nat.{pow-suc}
use zkopru.Base.{
  ℕ, zero, suc, ◌+◌, ◌*◌, ◌/◌, ◌%◌, ◌^◌, ◌<◌, ◌≡◌, refl, subst, Option, none, some, List, [], ◌∷◌,
  ◌++◌, arith, ltb, lt→ltb, if◌then◌else◌, length, length-append, take-append, drop-append,
}
use zkopru.Transaction.Buffer.{Reading, done, ◌>>◌, dequeue}
use zkopru.Transaction.Fp.{read_hex}
use zkopru.Transaction.ZkTx.Writes.{Writes}

-- The bytes of a number, with zeros before them.
unfoldable pub digits : ℕ → ℕ → List ℕ
digits zero n = []
digits (suc w) n = digits w (n / 256) ++ n % 256 ∷ []

-- `numToBuffer(n, len)`
unfoldable pub num_to_buffer : ℕ → ℕ → Option (List ℕ)
num_to_buffer n len = if ltb n (256 ^ len) then some (digits len n) else none

-- `dequeueToNumber(n)`. Past the end it is NaN, which a loop bound and the bits of an indicator
-- take for 0.
unfoldable pub dequeue_to_number : ℕ → Reading ℕ
dequeue_to_number n = dequeue n >> λ bs. done (read_hex 0 bs)

pub length-digits : (w n : ℕ) → length (digits w n) ≡ w
unfolding digits
length-digits zero n = refl
length-digits (suc w) n = rw (length-append) (omega (arith, length-digits w (n / 256)))

read_hex-append : (xs : List ℕ) (a b : ℕ) → read_hex a (xs ++ b ∷ []) ≡ read_hex a xs * 256 + b
unfolding read_hex
read_hex-append [] a b = refl
read_hex-append (x ∷ xs) a b = read_hex-append xs (a * 256 + x) b

pub read_hex-digits : (w n : ℕ) → n < 256 ^ w → read_hex 0 (digits w n) ≡ n
unfolding digits read_hex
read_hex-digits zero n small = omega arith
read_hex-digits (suc w) n small =
    let e = pow-suc 256 w in
    let rest = read_hex-digits w (n / 256) (omega arith) in
    rw (read_hex-append (digits w (n / 256)) 0 (n % 256), rest) (omega arith)

read_digits :
    (len n : ℕ) (rest : List ℕ)
    → n < 256 ^ len
    → dequeue_to_number len (digits len n ++ rest) ≡ (n, rest)
unfolding dequeue_to_number dequeue ◌>>◌
read_digits len n rest small =
    subst (λ k. dequeue_to_number k (digits len n ++ rest) ≡ (n, rest)) (length-digits len n)
      (rw (take-append, drop-append, read_hex-digits len n small))

pub writes-number :
    (n len : ℕ) → n < 256 ^ len → Writes (num_to_buffer n len) (dequeue_to_number len) n len
unfolding num_to_buffer
writes-number n len small = record {
  bytes = digits len n;
  made = rw (lt→ltb n (256 ^ len) small);
  size = length-digits len n;
  reads = λ rest. read_digits len n rest small;
}
