-- ===== src/Transaction/ZkTx/Encodable.antt =====
-- The transactions whose parts fit the fields of the encoding of zk-tx.ts, and the bytes they take.
use zkopru.Base.{
  ℕ, ◌+◌, ◌<◌, ◌^◌, ◌≡◌, ◌≢◌, ◌⊎◌, Option, some, none, List, [], ◌∷◌, length, All, ◌==◌,
  if◌then◌else◌,
}
use zkopru.Transaction.Fp.{order}
use zkopru.Transaction.ZkTx.{ZkInflow, PublicData, ZkOutflow, Snark, Memo, ZkTx}

-- A field element that its 20 bytes hold.
abbrev pub IsAddress : ℕ → Type 0
IsAddress n = (n < 256 ^ 20) × (n < order)

abbrev pub IsInflow : ZkInflow → Type 0
IsInflow i = (i.root < order) × (i.nullifier < order)

abbrev pub IsData : PublicData → Type 0
IsData d =
    IsAddress d.to
    × (d.eth < order)
    × IsAddress d.token_addr
    × (d.erc20_amount < order)
    × (d.nft < order)
    × (d.fee < order)

-- Data stands with every type but 0, a note that stays in the rollup.
abbrev pub IsTyped : ℕ → Option PublicData → Type 0
IsTyped t none = t ≡ 0
IsTyped t (some d) = (t ≢ 0) × IsData d

abbrev pub IsOutflow : ZkOutflow → Type 0
IsOutflow o = (o.note < order) × (o.outflow_type < 256) × IsTyped o.outflow_type o.data_of

abbrev pub IsPoint : List ℕ → Type 0
IsPoint xs = (a b : ℕ) × (xs ≡ a ∷ b ∷ []) × (a < order) × (b < order)

abbrev pub IsPoints : List (List ℕ) → Type 0
IsPoints xss = (xs ys : List ℕ) × (xss ≡ xs ∷ ys ∷ []) × IsPoint xs × IsPoint ys

abbrev pub IsSnark : Option Snark → Type 0
IsSnark none = ⊥
IsSnark (some p) = IsPoint p.pi_a × IsPoints p.pi_b × IsPoint p.pi_c

abbrev pub IsSwap : Option ℕ → Type 0
IsSwap none = Unit
IsSwap (some s) = s < order

abbrev pub IsMemo : Option Memo → Type 0
IsMemo none = Unit
IsMemo (some m) =
    ((m.version ≡ 1) × (length m.content ≡ 81)) ⊎ ((m.version ≡ 2) × (length m.content < 65536))

pub record IsEncodable (tx : ZkTx) : Type 0 where
  pub few_inflows : length tx.inflow < 256
  pub few_outflows : length tx.outflow < 256
  pub inflows : All IsInflow tx.inflow
  pub outflows : All IsOutflow tx.outflow
  pub fee_fits : tx.fee < order
  pub proven : IsSnark tx.proof
  pub swap_fits : IsSwap tx.swap
  pub memo_fits : IsMemo tx.memo

-- The bytes that the parts take.
abbrev pub data_size : Option PublicData → ℕ
data_size none = 0
data_size (some d) = 168

abbrev pub outflow_size : ZkOutflow → ℕ
outflow_size o = 33 + data_size o.data_of

abbrev pub swap_size : Option ℕ → ℕ
swap_size none = 0
swap_size (some s) = 32

abbrev pub memo_size : Option Memo → ℕ
memo_size none = 0
memo_size (some m) = if m.version == 1 then length m.content else 2 + length m.content
