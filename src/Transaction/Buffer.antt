-- ===== src/Transaction/Buffer.antt =====
-- `Buffer.concat` over parts whose making may throw, and the `Queue` of packages/utils/src/index.ts.
use zkopru.Base.{ℕ, suc, zero, Option, some, List, [], ◌∷◌, ◌++◌, ◌>>=◌, take, drop}

-- `Buffer.concat([...])`: the parts are made from left to right, and one that throws ends it.
unfoldable pub concat : List (Option (List ℕ)) → Option (List ℕ)
concat [] = some []
concat (part ∷ parts) = part >>= λ bs. concat parts >>= λ rest. some (bs ++ rest)

-- Code that reads from a queue, which stands for the bytes after its cursor, and moves the cursor.
abbrev pub Reading : Type 0 → Type 0
Reading A = List ℕ → A × List ℕ

abbrev pub done : {A : Type 0} → A → Reading A
done a queue = (a, queue)

infixl 5 ◌>>◌
unfoldable pub ◌>>◌ : {A B : Type 0} → Reading A → (A → Reading B) → Reading B
(p >> f) queue = let r = p queue in f r.0 r.1

-- `dequeue`: a slice that ends early at the end of the buffer.
unfoldable pub dequeue : ℕ → Reading (List ℕ)
dequeue n queue = (take n queue, drop n queue)

-- `for (let i = 0; i < n; i += 1) { ...push(...) }`
unfoldable pub read_many : {A : Type 0} → ℕ → Reading A → Reading (List A)
read_many zero p = done []
read_many (suc n) p = p >> λ a. read_many n p >> λ rest. done (a ∷ rest)
