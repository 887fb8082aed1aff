-- ===== src/Transaction/ZkTx/Switch.antt =====
-- The switch byte of zk-tx.ts, and the swap and the memo that it announces.
use zkopru.Base.{
  ℕ, ◌+◌, ◌<◌, ◌≡◌, ◌⊎◌, inl, inr, refl, sym, subst, Option, some, none, List, [], ◌∷◌, length,
  arith,
}
use zkopru.Transaction.Buffer.{concat, Reading, done, ◌>>◌, dequeue}
use zkopru.Transaction.Fp.{
  BigNumber, IsBigEndian, order-big, from_number, from_number-small, read_hex,
}
use zkopru.Transaction.ZkTx.{
  Memo, memo_switch, swap_switch, encode_swap, encode_memo, read_fp, read_swap, read_memo,
}
use zkopru.Transaction.ZkTx.Encodable.{IsSwap, IsMemo, swap_size, memo_size}
use zkopru.Transaction.ZkTx.Writes.{
  Writes, WritesAll, writes-cons, writes-map, writes-length, writes-dequeue, writes-some,
  writes-last,
}
use zkopru.Transaction.ZkTx.Parts.{writes-field}

-- The values of the switch byte, as far as the memo sets them.
abbrev pub IsSwitch : ℕ → Type 0
IsSwitch c = (c ≡ 0) ⊎ ((c ≡ 2) ⊎ (c ≡ 4))

pub IsSwitch-cases : (m : Option Memo) → IsMemo m → IsSwitch (memo_switch m)
unfolding memo_switch
IsSwitch-cases none h = inl refl
IsSwitch-cases (some m) (inl (v, l)) = inr (inl (rw v))
IsSwitch-cases (some m) (inr (v, l)) = inr (inr (rw v))

pub IsSwitch-small : (s : Option ℕ) (c : ℕ) → IsSwitch c → swap_switch s + c < 256
unfolding swap_switch
IsSwitch-small none c h = omega arith
IsSwitch-small (some s) c h = omega arith

read_no_swap : (c : ℕ) → IsSwitch c → read_swap (0 + c) ≡ done none
unfolding read_swap
read_no_swap c (inl e) = rw e
read_no_swap c (inr (inl e)) = rw e
read_no_swap c (inr (inr e)) = rw e

read_one_swap : (c : ℕ) → IsSwitch c → read_swap (1 + c) ≡ (read_fp 32 >> λ s. done (some s))
unfolding read_swap
read_one_swap c (inl e) = rw e
read_one_swap c (inr (inl e)) = rw e
read_one_swap c (inr (inr e)) = rw e

abbrev memo_v1 : Reading (Option Memo)
memo_v1 = dequeue 81 >> λ bs. done (some record { version = 1; content = bs })

abbrev memo_v2 : Reading (Option Memo)
memo_v2 = dequeue 2 >> λ l.
    dequeue (read_hex 0 l) >> λ bs. done (some record { version = 2; content = bs })

read_no_memo : (s : Option ℕ) → read_memo (swap_switch s + 0) ≡ done none
unfolding read_memo swap_switch
read_no_memo none = refl
read_no_memo (some s) = refl

read_memo_v1 : (s : Option ℕ) → read_memo (swap_switch s + 2) ≡ memo_v1
unfolding read_memo swap_switch
read_memo_v1 none = refl
read_memo_v1 (some s) = refl

read_memo_v2 : (s : Option ℕ) → read_memo (swap_switch s + 4) ≡ memo_v2
unfolding read_memo swap_switch
read_memo_v2 none = refl
read_memo_v2 (some s) = refl

module _ (bn : BigNumber) (big : IsBigEndian bn) where
  pub writes-swap :
      (s : Option ℕ) (c : ℕ)
      → IsSwap s
      → IsSwitch c
      → Writes (encode_swap bn s) (read_swap (swap_switch s + c)) s (swap_size s)
  unfolding encode_swap swap_switch
  writes-swap none c h cs =
      subst (λ p. Writes (some []) p none 0) (sym (read_no_swap c cs)) (writes-some none)
  writes-swap (some s) c h cs =
      subst (λ p. Writes (bn.to_array 32 s) p (some s) 32) (sym (read_one_swap c cs))
        (writes-map some (writes-field bn big s h))

  version_1 :
      (bytes : List ℕ)
      → length bytes ≡ 81
      → Writes (some bytes) memo_v1 (some record { version = 1; content = bytes }) (length bytes)
  version_1 bytes l =
      writes-map (λ bs. some record { version = 1; content = bs })
        (subst (λ k. Writes (some bytes) (dequeue k) bytes (length bytes)) l (writes-dequeue bytes))

  version_2 :
      (bytes : List ℕ)
      → length bytes < 65536
      → Writes
          (concat (bn.to_array 2 (from_number (length bytes)) ∷ some bytes ∷ []))
          memo_v2
          (some record { version = 2; content = bytes })
          (2 + length bytes)
  version_2 bytes l =
      let (bs, value, w) = writes-length bn big (length bytes) l in
      let e = from_number-small (length bytes) (omega (arith, order-big)) in
      let body : Writes (some bytes) (dequeue (read_hex 0 bs)) bytes (length bytes) =
        subst (λ k. Writes (some bytes) (dequeue k) bytes (length bytes)) (sym value)
          (writes-dequeue bytes) in
      let start = subst (λ k. Writes (bn.to_array 2 k) (dequeue 2) bs 2) (sym e) w in
      let whole : WritesAll (bn.to_array 2 (from_number (length bytes)) ∷ some bytes ∷ []) memo_v2
          (some record { version = 2; content = bytes }) (2 + length bytes) =
        writes-cons _ start (writes-last (writes-map _ body)) in
      whole.whole

  pub writes-memo :
      (s : Option ℕ) (m : Option Memo)
      → IsMemo m
      → Writes (encode_memo bn m) (read_memo (swap_switch s + memo_switch m)) m (memo_size m)
  unfolding encode_memo memo_switch
  writes-memo s none h =
      subst (λ p. Writes (some []) p none 0) (sym (read_no_memo s)) (writes-some none)
  writes-memo s (some m) (inl (v, l)) =
      let e : m ≡ record { version = 1; content = m.content } =
        λ i. record { version = v i; content = m.content } in
      subst
        (λ m.
          Writes (encode_memo bn (some m)) (read_memo (swap_switch s + memo_switch (some m)))
            (some m) (memo_size (some m)))
        (sym e)
        (subst
          (λ p.
            Writes (some m.content) p (some record { version = 1; content = m.content })
              (length m.content))
          (sym (read_memo_v1 s)) (version_1 m.content l))
  writes-memo s (some m) (inr (v, l)) =
      let e : m ≡ record { version = 2; content = m.content } =
        λ i. record { version = v i; content = m.content } in
      subst
        (λ m.
          Writes (encode_memo bn (some m)) (read_memo (swap_switch s + memo_switch (some m)))
            (some m) (memo_size (some m)))
        (sym e)
        (subst
          (λ p.
            Writes (concat (bn.to_array 2 (from_number (length m.content)) ∷ some m.content ∷ [])) p
              (some record { version = 2; content = m.content }) (2 + length m.content))
          (sym (read_memo_v2 s)) (version_2 m.content l))
