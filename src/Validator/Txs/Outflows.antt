-- ===== src/Validator/Txs/Outflows.antt =====
-- `validateOutflow` of offchain-tx-validator.ts: which outflows a transaction may have.
use zkopru.Base.{
  nat_eq, ℕ, ◌≤◌, ◌≡◌, ◌≢◌, ◌↔◌, refl, sym, ap, ◌∙◌, inl, inr, true, false, Option, none, some,
  List, [], ◌∷◌, arith, ◌==◌, ==_iff, get_elem?, All, Bool-cases, Option-cases,
}
use mathlib.Core.Bool.{true≢false}
use mathlib.Core.Option.{some-injective, none-ne-some}
use zkopru.Transaction.ZkTx.{PublicData, ZkOutflow, ZkTx}
use zkopru.Validator.Migration.{t2}
use zkopru.Validator.Txs.{
  TokenInfo, is_empty, judge_token, judge_data, judge_outflow, verdict, judge_outflows,
  validate_outflow,
}

-- What an outflow may carry of a token: an ERC20 token has no NFT, an ERC721 token has one and no amount.
abbrev pub Carries : PublicData → TokenInfo → Type 0
Carries d info =
    (info.is_erc20 ≡ true → d.nft ≡ 0)
    × (info.is_erc20 ≡ false → info.is_erc721 ≡ true → (d.erc20_amount ≡ 0) × (d.nft ≢ 0))

-- The token is that of the address 0, of which there are neither NFTs nor amounts, or is registered.
abbrev pub IsPublic : (ℕ → Option (Option TokenInfo)) → Option PublicData → Type 0
IsPublic registry none = ⊥
IsPublic registry (some d) =
    (d.token_addr ≡ 0 → (d.erc20_amount ≡ 0) × (d.nft ≡ 0))
    × (d.token_addr ≢ 0
        → (info : TokenInfo) × (registry d.token_addr ≡ some (some info)) × Carries d info)

abbrev pub IsBlank : Option PublicData → Type 0
IsBlank none = Unit
IsBlank (some d) =
    (d.to ≡ 0) × (d.eth ≡ 0) × (d.token_addr ≡ 0) × (d.erc20_amount ≡ 0) × (d.nft ≡ 0) × (d.fee ≡ 0)

-- A note stays in the tree without data, a withdrawal or a migration has data.
abbrev pub IsLawful : (ℕ → Option (Option TokenInfo)) → ZkOutflow → Type 0
IsLawful registry o =
    (o.outflow_type ≤ 2)
    × (o.outflow_type ≡ 0 → IsBlank o.data_of)
    × (o.outflow_type ≢ 0 → IsPublic registry o.data_of)

is_empty_iff : (d : Option PublicData) → (is_empty d ≡ true) ↔ IsBlank d
unfolding is_empty
is_empty_iff none = (λ h. tt, λ h. refl)
is_empty_iff (some d) = ground arith

judge_token_iff :
    (d : PublicData) (info : TokenInfo) → (judge_token d (some info) ≡ none) ↔ Carries d info
unfolding judge_token
judge_token_iff d info = ground arith

judge_data_iff :
    (registry : ℕ → Option (Option TokenInfo)) (d : Option PublicData)
    → (judge_data registry d ≡ some none) ↔ IsPublic registry d
unfolding judge_data judge_token
judge_data_iff registry none =
    (λ h. absurd (none-ne-some _ (sym (some-injective _ _ h))), λ h. absurd h)
judge_data_iff registry (some d) = elim (Bool-cases (d.token_addr == 0)) [
  | inl ether ↦
      let at : d.token_addr ≡ 0 = (==_iff _ _).0 ether in
      rw ether (
        λ h. (λ same. ground (arith, some-injective _ _ h), λ differs. absurd (differs at)),
        λ lawful. let none_there = lawful.0 at in ground arith,
      )
  | inr token ↦
      let off : d.token_addr ≢ 0 = λ e. true≢false (sym ((==_iff _ _).1 e) ∙ token) in
      elim (Option-cases (registry d.token_addr)) [
        | inl n ↦ (
          λ h. absurd (none-ne-some _ (rw (token, n) at h)),
          λ lawful.
              let (info, found, carries) = lawful.1 off in absurd (none-ne-some _ (sym n ∙ found)),
        )
        | inr (row, n) ↦ (
          λ h.
              let (info, same, carries) =
                token_row d row (some-injective _ _ (rw (token, n) at h)) in
              (λ at. absurd (off at), λ differs. (info, n ∙ ap some same, carries)),
          λ lawful.
              let (info, found, carries) = lawful.1 off in
              rw (token, found) (ap some ((judge_token_iff d info).1 carries)),
        )
      ]
]
  where
    token_row :
        (d' : PublicData) (row : Option TokenInfo)
        → judge_token d' row ≡ none
        → (info : TokenInfo) × (row ≡ some info) × Carries d' info
    token_row d' none h = absurd (none-ne-some _ (sym h))
    token_row d' (some info) h = (info, refl, (judge_token_iff d' info).0 h)

judge_outflow_iff :
    (registry : ℕ → Option (Option TokenInfo)) (o : ZkOutflow)
    → (judge_outflow registry o ≡ some none) ↔ IsLawful registry o
unfolding judge_outflow
judge_outflow_iff registry o =
    ground (arith, is_empty_iff o.data_of, judge_data_iff registry o.data_of)

judge_outflows_iff :
    (registry : ℕ → Option (Option TokenInfo)) (os : List ZkOutflow)
    → (judge_outflows registry os ≡ some record { slashable = false; reason = t2 })
      ↔ All (IsLawful registry) os
unfolding judge_outflows verdict
judge_outflows_iff registry [] = (λ h. tt, λ h. refl)
judge_outflows_iff registry (o ∷ os) =
    let rest = judge_outflows_iff registry os in
    let here = judge_outflow_iff registry o in
    elim (Option-cases (judge_outflow registry o)) [
      | inl n ↦ (
        λ h. absurd (none-ne-some _ (rw n at h)),
        λ all. absurd (none-ne-some _ (sym n ∙ here.1 (all.0))),
      )
      | inr (none, n) ↦ rw n (λ h. (here.0 n, rest.0 h), λ all. rest.1 (all.1))
      | inr (some code, n) ↦ (
        λ h. absurd (true≢false (ap (λ v. v.slashable) (some-injective _ _ (rw n at h)))),
        λ all. absurd (none-ne-some _ (some-injective _ _ (sym (here.1 (all.0)) ∙ n))),
      )
    ]

-- For a transaction that the block has, `validateOutflow` ends without finding it slashable
-- exactly if each of its outflows has a type up to 2, a note that stays has no data or only zeros,
-- and another outflow has data, in which the token address 0 goes with no amount and no NFT, and
-- any other token is registered, an ERC20 token with no NFT, another ERC721 token with an NFT and
-- no amount.
pub validate_outflow_iff :
    (registry : ℕ → Option (Option TokenInfo)) (txs : List ZkTx) (i : ℕ) (tx : ZkTx)
    → get_elem? txs i ≡ some tx
    → (validate_outflow registry txs i ≡ some record { slashable = false; reason = t2 })
      ↔ All (IsLawful registry) tx.outflow
unfolding validate_outflow
validate_outflow_iff registry txs i tx found = rw found (judge_outflows_iff registry tx.outflow)
