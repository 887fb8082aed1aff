-- ===== src/Block/Parsing.antt =====
-- Code that reads from the `StringifiedHexQueue` of packages/utils/src/index.ts and may throw. The
-- queue stands for the bytes after its cursor; what remains of it is what `dequeueAll` returns.
use zkopru.Base.{
  ℕ, zero, suc, ◌≡◌, refl, ap, Option, none, some, List, [], ◌∷◌, ◌++◌, ◌>>=◌, map, length, take,
  drop, take-append, drop-append, subst,
}
use zkopru.Transaction.Buffer.{Reading}
use zkopru.Transaction.ZkTx.Writes.{Writes}

abbrev pub Parsing : Type 0 → Type 0
Parsing A = List ℕ → Option (A × List ℕ)

abbrev pub parsed : {A : Type 0} → A → Parsing A
parsed a queue = some (a, queue)

infixl 5 ◌|>◌
unfoldable pub ◌|>◌ : {A B : Type 0} → Parsing A → (A → Parsing B) → Parsing B
(p |> f) queue = p queue >>= λ r. f r.0 r.1

-- Code that cannot throw.
abbrev pub parse_reading : {A : Type 0} → Reading A → Parsing A
parse_reading p queue = some (p queue)

-- A constructor that may throw, on the next `n` bytes.
unfoldable pub parse_bytes : {A : Type 0} → ℕ → (List ℕ → Option A) → Parsing A
parse_bytes n from queue = from (take n queue) >>= λ a. some (a, drop n queue)

-- `while (items.length < n) { items.push(...) }`
unfoldable pub parse_many : {A : Type 0} → ℕ → Parsing A → Parsing (List A)
parse_many zero p = parsed []
parse_many (suc n) p = p |> λ a. parse_many n p |> λ rest. parsed (a ∷ rest)

-- `Buffer.concat` of parts that are made without an error.
unfoldable pub join : List (List ℕ) → List ℕ
join [] = []
join (part ∷ parts) = part ++ join parts

-- The parser reads the bytes as the value, whatever follows them.
pub record Parses {A : Type 0} (bs : List ℕ) (p : Parsing A) (a : A) : Type 0 where
  pub reads : (rest : List ℕ) → p (bs ++ rest) ≡ some (a, rest)

++-assoc : (xs ys zs : List ℕ) → (xs ++ ys) ++ zs ≡ xs ++ (ys ++ zs)
++-assoc [] ys zs = refl
++-assoc (x ∷ xs) ys zs = ap (◌∷◌ x) (++-assoc xs ys zs)

pub Parses-nil : {A : Type 0} (a : A) → Parses [] (parsed a) a
Parses-nil a = record { reads = λ rest. refl }

pub Parses-then :
    {A B : Type 0} {bs cs : List ℕ} {p : Parsing A} {a : A} {b : B} (f : A → Parsing B)
    → Parses bs p a
    → Parses cs (f a) b
    → Parses (bs ++ cs) (p |> f) b
unfolding ◌|>◌
Parses-then {bs = bs} {cs = cs} f h k = record {
  reads = λ rest. rw (++-assoc bs cs rest, h.reads (cs ++ rest), k.reads rest);
}

-- What code makes and a reading reads back, made by code that may throw.
pub Parses-reading :
    {A : Type 0} {e : Option (List ℕ)} {p : Reading A} {a : A} {n : ℕ} (w : Writes e p a n)
    → Parses w.bytes (parse_reading p) a
Parses-reading w = record { reads = λ rest. rw (w.reads rest) }

pub Parses-bytes :
    {A : Type 0} (n : ℕ) (bs : List ℕ) (from : List ℕ → Option A) (a : A)
    → length bs ≡ n
    → from bs ≡ some a
    → Parses bs (parse_bytes n from) a
unfolding parse_bytes
Parses-bytes n bs from a size e =
    subst (λ k. Parses bs (parse_bytes k from) a) size
      record { reads = λ rest. rw (take-append, drop-append, e) }

abbrev cons_result : {A : Type 0} → A → List A × List ℕ → List A × List ℕ
cons_result x r = (x ∷ r.0, r.1)

Parses-many_step :
    {A B : Type 0} (enc : A → List ℕ) (p : Parsing A) (f : List A → Parsing B) (cs : List ℕ) (x : A)
    (xs : List A) (b : B)
    → Parses (enc x) p x
    → Parses (join (map enc xs) ++ cs) (parse_many (length xs) p |> λ rest. f (x ∷ rest)) b
    → Parses (join (map enc (x ∷ xs)) ++ cs) (parse_many (length (x ∷ xs)) p |> f) b
unfolding parse_many ◌|>◌ join
Parses-many_step {A = A} enc p f cs x xs b h k = record {
  reads = λ rest.
      rw
        (
          ++-assoc (enc x) (join (map enc xs)) cs,
          ++-assoc (enc x) (join (map enc xs) ++ cs) rest,
          h.reads ((join (map enc xs) ++ cs) ++ rest),
          regroup (parse_many (length xs) p ((join (map enc xs) ++ cs) ++ rest)),
        )
        (k.reads rest);
}
  where
    regroup :
        (o : Option (List A × List ℕ))
        → ((o >>= λ r. some (cons_result x r)) >>= λ r. f r.0 r.1) ≡ (o >>= λ r. f (x ∷ r.0) r.1)
    regroup none = refl
    regroup (some r) = refl

pub Parses-many :
    {A B : Type 0} {cs : List ℕ} {b : B} (enc : A → List ℕ) (p : Parsing A) (f : List A → Parsing B)
    → ((x : A) → Parses (enc x) p x)
    → (xs : List A) → Parses cs (f xs) b
    → Parses (join (map enc xs) ++ cs) (parse_many (length xs) p |> f) b
unfolding parse_many ◌|>◌ join
Parses-many enc p f each [] w = record { reads = w.reads }
Parses-many {cs = cs} {b = b} enc p f each (x ∷ xs) w =
    Parses-many_step enc p f cs x xs b (each x) (Parses-many enc p (λ rest. f (x ∷ rest)) each xs w)
