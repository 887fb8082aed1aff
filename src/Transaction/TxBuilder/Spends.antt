-- ===== src/Transaction/TxBuilder/Spends.antt =====
-- Which notes the loop of tx-builder.ts spends for its ETH.
use zkopru.Base.{
  ◌*◌, ◌%◌, ◌≤◌, leb, length, map, if◌then◌else◌, ◌+◌, nat_eq, ℕ, zero, suc, ◌<◌, ◌≡◌, refl, sym,
  ap, ◌∙◌, ◌⊎◌, inl, inr, Bool, true, false, none, some, List, [], ◌∷◌, ◌++◌, arith, ltb, filter,
  take, Bool-cases,
}
use mathlib.Core.List.{append-nil, append_assoc}
use zkopru.Transaction.Fp.{order}
use zkopru.Transaction.Size.{tx_size_calculator}
use zkopru.Transaction.NoteSum.{Asset, ether_from}
use zkopru.Transaction.NoteSum.Totals.{total, ether_from-total}
use zkopru.Transaction.TxBuilder.{Outgoing, too_little, get_required_eth, spend_ether}

abbrev pub has_ether : Asset → Bool
has_ether a = ltb 0 a.eth

-- The notes spent before, and the next ones that have ETH.
abbrev pub spent_with : List Asset → List Asset → ℕ → List Asset
spent_with spendings spendables k = spendings ++ take k (filter has_ether spendables)

module _ (o : Outgoing) where
  abbrev Fails : List Asset → List Asset → Type 0
  Fails spendables spendings =
      (spend_ether o spendables spendings ≡ none)
      × ((k : ℕ) → too_little o (spent_with spendings spendables k) ≡ true)

  abbrev Spends : List Asset → List Asset → Type 0
  Spends spendables spendings =
      (k : ℕ) × (spend_ether o spendables spendings ≡ some (spent_with spendings spendables k))
      × (too_little o (spent_with spendings spendables k) ≡ false)
      × ((j : ℕ) → j < k → too_little o (spent_with spendings spendables j) ≡ true)

  at_once :
      (spendables spendings : List Asset)
      → too_little o spendings ≡ false
      → spend_ether o spendables spendings ≡ some spendings
      → Spends spendables spendings
  at_once spendables spendings enough ran =
      let same : spent_with spendings spendables 0 ≡ spendings = append-nil spendings in
      (0, ran ∙ ap some (sym same), rw same enough, λ j less. absurd (omega (arith, less)))

  -- One round: the loop goes on with `spendings'`, and what it spends from then on is the same.
  one_round :
      (u : Asset) (us spendings spendings' : List Asset) (shift : ℕ → ℕ)
      → spend_ether o (u ∷ us) spendings ≡ spend_ether o us spendings'
      → ((k : ℕ) → spent_with spendings (u ∷ us) (shift k) ≡ spent_with spendings' us k)
      → ((k : ℕ)
          → (too_little o (spent_with spendings (u ∷ us) k) ≡ true)
            ⊎ ((j : ℕ) × (k ≡ shift j) × ((i : ℕ) → k < shift i → j < i)))
      → Fails us spendings' ⊎ Spends us spendings'
      → Fails (u ∷ us) spendings ⊎ Spends (u ∷ us) spendings
  one_round u us spendings spendings' shift ran same cases (inl (failed, all)) = inl (
    ran ∙ failed,
    λ k. elim (cases k) [
      | inl little ↦ little
      | inr (j, at, below) ↦
          ap (λ x. too_little o (spent_with spendings (u ∷ us) x)) at
          ∙ ap (too_little o) (same j)
          ∙ all j
    ],
  )
  one_round u us spendings spendings' shift ran same cases (inr (k, made, enough, before)) = inr (
    shift k,
    ran ∙ made ∙ ap some (sym (same k)),
    ap (too_little o) (same k) ∙ enough,
    λ i less. elim (cases i) [
      | inl little ↦ little
      | inr (j, at, below) ↦
          ap (λ x. too_little o (spent_with spendings (u ∷ us) x)) at
          ∙ ap (too_little o) (same j)
          ∙ before j (below k less)
    ],
  )

  nothing_left : (spendings : List Asset) (k : ℕ) → spent_with spendings [] k ≡ spendings
  nothing_left spendings zero = append-nil spendings
  nothing_left spendings (suc k) = append-nil spendings

  first_or_later :
      (spendables spendings : List Asset)
      → too_little o spendings ≡ true
      → (k : ℕ)
      → (too_little o (spent_with spendings spendables k) ≡ true)
        ⊎ ((j : ℕ) × (k ≡ suc j) × ((i : ℕ) → k < suc i → j < i))
  first_or_later spendables spendings little zero =
      inl (ap (too_little o) (append-nil spendings) ∙ little)
  first_or_later spendables spendings little (suc j) = inr (j, refl, λ i less. omega (arith, less))

  spend_ether-cases :
      (spendables spendings : List Asset) → Fails spendables spendings ⊎ Spends spendables spendings
  unfolding spend_ether
  spend_ether-cases [] spendings = elim (Bool-cases (too_little o spendings)) [
    | inr enough ↦ inr (at_once [] spendings enough (rw enough refl))
    | inl little ↦ inl (rw little refl, λ k. ap (too_little o) (nothing_left spendings k) ∙ little)
  ]
  spend_ether-cases (u ∷ us) spendings = elim (Bool-cases (too_little o spendings)) [
    | inr enough ↦ inr (at_once (u ∷ us) spendings enough (rw enough refl))
    | inl little ↦ elim (Bool-cases (has_ether u)) [
      | inr empty ↦
          one_round u us spendings spendings (λ k. k) (rw (little, empty) refl) (λ k. rw empty refl)
            (λ k. inr (k, refl, λ i less. less)) (spend_ether-cases us spendings)
      | inl ether ↦
          one_round u us spendings (spendings ++ u ∷ []) suc (rw (little, ether) refl)
            (λ k. rw ether (sym (append_assoc spendings (u ∷ []) (take k (filter has_ether us)))))
            (first_or_later (u ∷ us) spendings little) (spend_ether-cases us (spendings ++ u ∷ []))
    ]
  ]

-- The ETH of some notes together.
abbrev pub worth : List Asset → ℕ
worth assets = total (map (λ a. a.eth) assets) % order

-- The ETH that is sent with `n` notes, and the fees: 64 bytes for each of these, 33 for each outflow,
-- of which one is for the change, 168 more for each with data, 32 for a swap, and 340 for the rest.
abbrev pub cost : Outgoing → ℕ → ℕ
cost o n =
    (o.eth
      + o.l1_fee
      + o.fee_per_byte
        * (64 * n
            + 33 * (o.sendings + o.changes + 1)
            + 168 * o.with_data
            + (if o.swaps then 32 else 0)
            + 340))
    % order

bytes_lem :
    (spent outflows with_data : ℕ) (swaps : Bool)
    → tx_size_calculator spent outflows with_data swaps false
      ≡ 64 * spent + 33 * outflows + 168 * with_data + (if swaps then 32 else 0) + 340
unfolding tx_size_calculator
bytes_lem spent outflows with_data swaps = ground arith

get_required_eth-cost : (o : Outgoing) (n : ℕ) → get_required_eth o n ≡ cost o n
unfolding get_required_eth order
get_required_eth-cost o n =
    let bytes =
      ap (λ b. o.fee_per_byte * b) (bytes_lem n (o.sendings + o.changes + 1) o.with_data o.swaps) in
    omega (arith, bytes)

worth_lem : (assets : List Asset) → ether_from 0 assets ≡ worth assets
unfolding order
worth_lem assets = let sum = ether_from-total assets 0 (omega arith) in omega (arith, sum)

too_little-compare :
    (o : Outgoing) (spent : List Asset)
    → too_little o spent ≡ leb (worth spent) (cost o (length spent))
unfolding too_little
too_little-compare o spent = λ i. leb (worth_lem spent i) (get_required_eth-cost o (length spent) i)

module _ (o : Outgoing) (spendables spendings : List Asset) where
  -- What is spent with the next `k` notes that have ETH does not have more than it costs, or has.
  abbrev pub IsShort : ℕ → Type 0
  IsShort k = let spent = spent_with spendings spendables k in worth spent ≤ cost o (length spent)

  abbrev pub IsEnough : ℕ → Type 0
  IsEnough k = let spent = spent_with spendings spendables k in cost o (length spent) < worth spent

  short : (k : ℕ) → too_little o (spent_with spendings spendables k) ≡ true → IsShort k
  short k h =
      let test = sym (too_little-compare o (spent_with spendings spendables k)) ∙ h in
      ground (arith, test)

  enough : (k : ℕ) → too_little o (spent_with spendings spendables k) ≡ false → IsEnough k
  enough k h =
      let test = sym (too_little-compare o (spent_with spendings spendables k)) ∙ h in
      ground (arith, test)

  -- Take the notes with ETH in the order in which they are popped. The worth of the notes spent is
  -- the sum of their ETH, their cost the ETH of the sendings and `l1Fee`, added to `feePerByte`
  -- times the transaction's size, which for n notes spent is 64n bytes, 33 for each sending, each
  -- change and one output more, 168 for each sending that has data, 32 if there is a swap, and 340
  -- more, both modulo the order of the field. Then the loop that spends ETH either throws, and the
  -- notes spent before with any first few of those with ETH are worth no more than they cost, or
  -- it adds the first k of them, where the notes are then worth more than they cost, and with
  -- fewer than k they are not.
  pub spend_ether-greedy :
      ((spend_ether o spendables spendings ≡ none) × ((k : ℕ) → IsShort k))
      ⊎ ((k : ℕ) × (spend_ether o spendables spendings ≡ some (spent_with spendings spendables k))
          × IsEnough k
          × ((j : ℕ) → j < k → IsShort j))
  spend_ether-greedy = elim (spend_ether-cases o spendables spendings) [
    | inl (failed, all) ↦ inl (failed, λ k. short k (all k))
    | inr (k, made, more, before) ↦ inr (k, made, enough k more, λ j less. short j (before j less))
  ]
