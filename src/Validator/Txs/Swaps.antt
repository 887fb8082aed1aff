-- ===== src/Validator/Txs/Swaps.antt =====
-- `validateAtomicSwap` of offchain-tx-validator.ts against `pickTxs` of the pool.
use zkopru.Base.{
  nat_eq, subst, ℕ, zero, suc, ◌≡◌, ◌≢◌, refl, sym, ap, ◌∙◌, ◌⊎◌, inl, inr, true, false, not, some,
  List, [], ◌∷◌, ◌++◌, ◌==◌, ◌>>=◌, get_elem?, All, Bool-cases, beq_ne,
}
use mathlib.Core.Option.{some-injective, none-ne-some}
use zkopru.Transaction.ZkTx.{ZkOutflow, ZkTx}
use zkopru.Coordinator.TxPool.{TxMemPool, has_note, pick_txs}
use zkopru.Coordinator.TxPool.Swaps.{Swaps, Settled, nothing, alone, swapped, pick_txs-Settled}
use zkopru.Validator.Migration.{t8}
use zkopru.Validator.Txs.{
  any_note, has_swap, include_swap_note, is_counterpart, find_counterpart, validate_atomic_swap,
}

abbrev Has : ZkTx → List ZkTx → Type 0
Has tx txs = (i : ℕ) × (get_elem? txs i ≡ some tx)

Has-left :
    (tx : ZkTx) (txs more : List ZkTx) (i : ℕ) → get_elem? txs i ≡ some tx → Has tx (txs ++ more)
Has-left tx [] more i found = absurd (none-ne-some _ found)
Has-left tx (t ∷ txs) more zero found = (0, found)
Has-left tx (t ∷ txs) more (suc i) found = let (j, at) = Has-left tx txs more i found in (suc j, at)

Has-right : (tx : ZkTx) (txs more : List ZkTx) → Has tx more → Has tx (txs ++ more)
Has-right tx [] more has = has
Has-right tx (t ∷ txs) more has = let (j, at) = Has-right tx txs more has in (suc j, at)

Has-split :
    (tx : ZkTx) (txs more : List ZkTx) (i : ℕ)
    → get_elem? (txs ++ more) i ≡ some tx
    → Has tx txs ⊎ Has tx more
Has-split tx [] more i found = inr (i, found)
Has-split tx (t ∷ txs) more zero found = inl (0, found)
Has-split tx (t ∷ txs) more (suc i) found = elim (Has-split tx txs more i found) [
  | inl (j, at) ↦ inl (suc j, at)
  | inr has ↦ inr has
]

Swaps-sym : (a b : ZkTx) → Swaps a b → Swaps b a
Swaps-sym a b (x, y, p, q, r, s) = (y, x, q, p, s, r)

-- Beside a transaction with a swap is the other side.
Settled-counterpart :
    (txs : List ZkTx) (a : ZkTx) (i asked : ℕ)
    → Settled txs
    → get_elem? txs i ≡ some a
    → a.swap ≡ some asked
    → (b : ZkTx) × Has b txs × Swaps a b
Settled-counterpart _ a i asked nothing found asks = absurd (none-ne-some _ found)
Settled-counterpart _ a i asked (alone txs tx plain rest) found asks =
    elim (Has-split a txs (tx ∷ []) i found) [
      | inl (j, at) ↦
          let (b, (k, there), swap) = Settled-counterpart txs a j asked rest at asks in
          (b, Has-left b txs (tx ∷ []) k there, swap)
      | inr (zero, at) ↦
          absurd (none-ne-some _ (sym plain ∙ ap (λ t. t.swap) (some-injective _ _ at) ∙ asks))
      | inr (suc j, at) ↦ absurd (none-ne-some _ at)
    ]
Settled-counterpart _ a i asked (swapped txs c d swap rest) found asks =
    let both = c ∷ d ∷ [] in
    elim (Has-split a txs both i found) [
      | inl (j, at) ↦
          let (b, (k, there), with) = Settled-counterpart txs a j asked rest at asks in
          (b, Has-left b txs both k there, with)
      | inr (zero, at) ↦ (d, Has-right d txs both (1, refl), rw (sym (some-injective _ _ at)) swap)
      | inr (suc zero, at) ↦
          (c, Has-right c txs both (0, refl), rw (sym (some-injective _ _ at)) (Swaps-sym c d swap))
      | inr (suc (suc j), at) ↦ absurd (none-ne-some _ at)
    ]

has_note-any_note :
    (note : ℕ) (os : List ZkOutflow) → has_note note os ≡ true → any_note note os ≡ true
unfolding has_note any_note
has_note-any_note note [] h = h
has_note-any_note note (o ∷ os) h = elim (Bool-cases (o.note == note)) [
  | inl e ↦ rw e refl
  | inr e ↦ rw e (has_note-any_note note os (rw e at h))
]

include_lem :
    (tx : ZkTx) (swap note : ℕ)
    → tx.swap ≡ some swap
    → tx.swap ≢ some 0
    → has_note note tx.outflow ≡ true
    → include_swap_note tx note ≡ true
unfolding include_swap_note has_swap
include_lem tx swap note is proper has =
    let positive : (swap == 0) ≡ false = beq_ne swap 0 (λ e. proper (is ∙ ap some e)) in
    rw (is, positive, has_note-any_note note tx.outflow has) refl

find_counterpart_lem :
    (a b : ZkTx) (asked : ℕ) (txs : List ZkTx) (i : ℕ)
    → get_elem? txs i ≡ some b
    → is_counterpart a asked b b.swap ≡ true
    → find_counterpart a asked txs ≡ true
unfolding find_counterpart
find_counterpart_lem a b asked [] i found good = absurd (none-ne-some _ found)
find_counterpart_lem a b asked (t ∷ txs) zero found good = rw (some-injective _ _ found, good) refl
find_counterpart_lem a b asked (t ∷ txs) (suc i) found good =
    let rest = find_counterpart_lem a b asked txs i found good in
    elim (Bool-cases (is_counterpart a asked t t.swap)) [
      | inl e ↦ rw e refl
      | inr e ↦ rw (e, rest) refl
    ]

all_at :
    (P : ZkTx → Type 0) (txs : List ZkTx) (tx : ZkTx) (i : ℕ)
    → All P txs
    → get_elem? txs i ≡ some tx
    → P tx
all_at P [] tx i all found = absurd (none-ne-some _ found)
all_at P (t ∷ txs) tx zero all found = subst P (some-injective _ _ found) (all.0)
all_at P (t ∷ txs) tx (suc i) all found = all_at P txs tx i (all.1) found

abbrev pub IsProper : ZkTx → Type 0
IsProper tx = tx.swap ≢ some 0

Settled-atomic :
    (txs : List ZkTx) (a : ZkTx) (i asked : ℕ)
    → Settled txs
    → All IsProper txs
    → get_elem? txs i ≡ some a
    → a.swap ≡ some asked
    → validate_atomic_swap txs i ≡ some record { slashable = false; reason = t8 }
unfolding validate_atomic_swap is_counterpart
Settled-atomic txs a i asked settled proper found asks =
    let (b, (j, there), (for_a, for_b, a_asks, b_asks, b_has, a_has)) =
      Settled-counterpart txs a i asked settled found asks in
    let same : for_a ≡ asked = some-injective _ _ (sym a_asks ∙ asks) in
    let left = include_lem a asked for_b asks (all_at IsProper txs a i proper found) a_has in
    let right =
      include_lem b for_b asked b_asks (all_at IsProper txs b j proper there) (rw same at b_has) in
    let counterpart : is_counterpart a asked b b.swap ≡ true = rw (b_asks, left, right) refl in
    let there_is = find_counterpart_lem a b asked txs j there counterpart in
    rw found (λ k.
      asks k >>= λ note. some record { slashable = not (find_counterpart a note txs); reason = t8 })
    ∙ (λ k. some record { slashable = not (there_is k); reason = t8 })

module _ (hash_of : ZkTx → ℕ) (size_of : ZkTx → ℕ) (min_price : ℕ) where
  -- In a block of the transactions that `pickTxs` returns, none of which swaps for the note 0,
  -- `validateAtomicSwap` finds no transaction that swaps slashable.
  pub validate_atomic_swap-pick_txs :
      (sort : List ZkTx → List ZkTx) (verified : List ℕ) (max_bytes : ℕ) (pool : TxMemPool)
      (i asked : ℕ) (a : ZkTx)
      → All IsProper
          (let r = pick_txs hash_of size_of sort verified max_bytes min_price pool in r.1)
      → get_elem? (let r = pick_txs hash_of size_of sort verified max_bytes min_price pool in r.1) i
        ≡ some a
      → a.swap ≡ some asked
      → validate_atomic_swap
          (let r = pick_txs hash_of size_of sort verified max_bytes min_price pool in r.1)
          i
        ≡ some record { slashable = false; reason = t8 }
  validate_atomic_swap-pick_txs sort verified max_bytes pool i asked a proper found asks =
      Settled-atomic _ a i asked
        (pick_txs-Settled hash_of size_of min_price sort verified max_bytes pool) proper found asks
