-- ===== src/Transaction/ZkTx/Writes.antt =====
-- Code that makes the parts of a buffer, and code that reads them back: `Writes e p a n` says that
-- `e` makes `n` bytes which `p` reads as `a`, whatever follows them.
use zkopru.Base.{
  ℕ, ◌+◌, ◌%◌, ◌<◌, ◌^◌, ◌≡◌, refl, sym, ap, ◌∙◌, subst, Option, some, List, [], ◌∷◌, ◌++◌, map,
  length, All, length-append, take-append, drop-append, arith, ◌>>=◌, none, Option-cases, inl, inr,
}
use zkopru.Transaction.Buffer.{concat, Reading, done, ◌>>◌, dequeue, read_many}
use zkopru.Transaction.Fp.{BigNumber, IsBigEndian, order, from_buffer, read_hex, from_number-small}
use zkopru.Transaction.ZkTx.{read_fp, read_byte, byte}

pub record Writes {A : Type 0} (e : Option (List ℕ)) (p : Reading A) (a : A) (n : ℕ) : Type 0 where
  pub bytes : List ℕ
  pub made : e ≡ some bytes
  pub size : length bytes ≡ n
  pub reads : (rest : List ℕ) → p (bytes ++ rest) ≡ (a, rest)

-- The same of the parts of a `Buffer.concat`.
pub record WritesAll {A : Type 0} (es : List (Option (List ℕ))) (p : Reading A) (a : A) (n : ℕ)
    : Type 0 where
  pub whole : Writes (concat es) p a n

++-assoc : (xs ys zs : List ℕ) → (xs ++ ys) ++ zs ≡ xs ++ (ys ++ zs)
++-assoc [] ys zs = refl
++-assoc (x ∷ xs) ys zs = ap (◌∷◌ x) (++-assoc xs ys zs)

pub writes-nil : {A : Type 0} (a : A) → WritesAll [] (done a) a 0
unfolding concat
writes-nil a = record {
  whole = record { bytes = []; made = refl; size = refl; reads = λ rest. refl };
}

pub writes-cons :
    {A B : Type 0} {e : Option (List ℕ)} {es : List (Option (List ℕ))} {p : Reading A} {a : A}
    {b : B} {n m : ℕ} (f : A → Reading B)
    → Writes e p a n
    → WritesAll es (f a) b m
    → WritesAll (e ∷ es) (p >> f) b (n + m)
unfolding concat ◌>>◌
writes-cons {p = p} f w ws =
    let w' = ws.whole in
    record {
      whole = record {
        bytes = w.bytes ++ w'.bytes;
        made = rw (w.made, w'.made);
        size = rw (length-append, w.size, w'.size);
        reads = λ rest. rw (++-assoc, w.reads, w'.reads);
      };
    }

pub ++-[] : {A : Type 0} (xs : List A) → xs ++ [] ≡ xs
++-[] [] = refl
++-[] (x ∷ xs) = ap (◌∷◌ x) (++-[] xs)

pub writes-last :
    {A : Type 0} {e : Option (List ℕ)} {p : Reading A} {a : A} {n : ℕ}
    → Writes e p a n
    → WritesAll (e ∷ []) p a n
unfolding concat
writes-last w = record {
  whole = record { bytes = w.bytes; made = rw (w.made, ++-[]); size = w.size; reads = w.reads };
}

concat-append :
    (es es' : List (Option (List ℕ)))
    → concat (es ++ es') ≡ (concat es >>= λ x. concat es' >>= λ y. some (x ++ y))
unfolding concat
concat-append [] es' = elim (Option-cases (concat es')) [ inl e ↦ rw e | inr (y, e) ↦ rw e ]
concat-append (none ∷ es) es' = refl
concat-append (some bs ∷ es) es' =
    ap (λ o. o >>= λ z. some (bs ++ z)) (concat-append es es') ∙ regroup (concat es) (concat es')
  where
    regroup :
        (o o' : Option (List ℕ))
        → ((o >>= λ x. o' >>= λ y. some (x ++ y)) >>= λ z. some (bs ++ z))
          ≡ ((o >>= λ z. some (bs ++ z)) >>= λ x. o' >>= λ y. some (x ++ y))
    regroup none o' = refl
    regroup (some x) none = refl
    regroup (some x) (some y) = ap some (sym (++-assoc bs x y))

pub writes-append :
    {A B : Type 0} {es es' : List (Option (List ℕ))} {p : Reading A} {a : A} {b : B} {n m : ℕ}
    (f : A → Reading B)
    → WritesAll es p a n
    → WritesAll es' (f a) b m
    → WritesAll (es ++ es') (p >> f) b (n + m)
unfolding ◌>>◌
writes-append f ws ws' =
    let w = ws.whole in
    let w' = ws'.whole in
    record {
      whole = record {
        bytes = w.bytes ++ w'.bytes;
        made = rw (concat-append, w.made, w'.made);
        size = rw (length-append, w.size, w'.size);
        reads = λ rest. rw (++-assoc, w.reads, w'.reads);
      };
    }

pub writes-some : {A : Type 0} (a : A) → Writes (some []) (done a) a 0
writes-some a = record { bytes = []; made = refl; size = refl; reads = λ rest. refl }

abbrev pub sum_map : {A : Type 0} → (A → ℕ) → List A → ℕ
sum_map f [] = 0
sum_map f (x ∷ xs) = f x + sum_map f xs

pub writes-map :
    {A B : Type 0} {e : Option (List ℕ)} {p : Reading A} {a : A} {n : ℕ} (g : A → B)
    → Writes e p a n
    → Writes e (p >> λ a. done (g a)) (g a) n
unfolding ◌>>◌
writes-map g w = record {
  bytes = w.bytes;
  made = w.made;
  size = w.size;
  reads = λ rest. rw w.reads;
}

pub writes-many :
    {A B : Type 0} {es : List (Option (List ℕ))} {b : B} {m : ℕ} (P : A → Type 0)
    (enc : A → Option (List ℕ)) (p : Reading A) (cost : A → ℕ) (f : List A → Reading B)
    → ((x : A) → P x → Writes (enc x) p x (cost x))
    → (xs : List A) → All P xs
    → WritesAll es (f xs) b m
    → WritesAll (map enc xs ++ es) (read_many (length xs) p >> f) b (sum_map cost xs + m)
unfolding read_many ◌>>◌
writes-many {b = b} P enc p cost f each [] all w = subst (WritesAll _ _ b) (omega arith) w
writes-many {b = b} P enc p cost f each (x ∷ xs) all w = subst (WritesAll _ _ b) (omega arith) (
    writes-cons {p = p} (λ a. read_many (length xs) p >> λ rest. f (a ∷ rest)) (each x all.0)
      (writes-many P enc p cost (λ rest. f (x ∷ rest)) each xs all.1 w))

pub writes-dequeue : (bs : List ℕ) → Writes (some bs) (dequeue (length bs)) bs (length bs)
unfolding dequeue
writes-dequeue bs = record {
  bytes = bs;
  made = refl;
  size = refl;
  reads = λ rest. rw (take-append, drop-append);
}

pub writes-byte : (n : ℕ) → n < 256 → Writes (byte n) read_byte n 1
unfolding byte read_byte dequeue ◌>>◌
writes-byte n small =
    let e : n % 256 ≡ n = omega arith in
    record { bytes = n ∷ []; made = rw e; size = refl; reads = λ rest. refl }

read_width :
    (width n : ℕ) (rest bs : List ℕ)
    → n < order
    → length bs ≡ width
    → read_hex 0 bs ≡ n
    → read_fp width (bs ++ rest) ≡ (n, rest)
unfolding read_fp dequeue from_buffer ◌>>◌
read_width width n rest bs small size value =
    subst (λ w. read_fp w (bs ++ rest) ≡ (n, rest)) size
      (rw (take-append, drop-append, value, from_number-small n small))

module _ (bn : BigNumber) (big : IsBigEndian bn) where
  pub writes-fp :
      (width n : ℕ)
      → n < 256 ^ width
      → n < order
      → Writes (bn.to_array width n) (read_fp width) n width
  writes-fp width n fits small =
      let (bs, made, size, value) = big.fits width n fits in
      record {
        bytes = bs;
        made = made;
        size = size;
        reads = λ rest. read_width width n rest bs small size value;
      }

  -- One byte, read as the byte that it is.
  pub writes-small : (n : ℕ) → n < 256 → Writes (bn.to_array 1 n) read_byte n 1
  unfolding read_byte dequeue ◌>>◌ read_hex
  writes-small n small =
      let (bs, made, size, value) = big.fits 1 n (omega arith) in only_byte bs made size value
    where
      only_byte :
          (bs : List ℕ)
          → bn.to_array 1 n ≡ some bs
          → length bs ≡ 1
          → read_hex 0 bs ≡ n
          → Writes (bn.to_array 1 n) read_byte n 1
      only_byte [] made size value = absurd (omega arith)
      only_byte (b ∷ []) made size value =
          let e : b ≡ n = omega (arith, value) in
          record { bytes = b ∷ []; made = made; size = refl; reads = λ rest. ap (λ m. (m, rest)) e }
      only_byte (b ∷ c ∷ bs) made size value = absurd (omega arith)

  -- A length, kept as the bytes that write it.
  pub writes-length :
      (n : ℕ)
      → n < 65536
      → (bs : List ℕ) × (read_hex 0 bs ≡ n) × Writes (bn.to_array 2 n) (dequeue 2) bs 2
  unfolding dequeue writes-dequeue
  writes-length n small =
      let (bs, made, size, value) = big.fits 2 n (omega arith) in
      let w = writes-dequeue bs in
      (
        bs,
        value,
        record {
          bytes = bs;
          made = made;
          size = size;
          reads = subst (λ k. (rest : List ℕ) → dequeue k (bs ++ rest) ≡ (bs, rest)) size w.reads;
        },
      )
