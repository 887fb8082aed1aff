-- ===== src/Transaction/ZkTx.antt =====
-- packages/transaction/src/zk-tx.ts: the shielded transaction, `encode`, `decode`, `size` and `hash`.
-- A field element is a number below `order`; a method that throws returns `none`.
pub mod Encodable
pub mod Writes
pub mod Parts
pub mod Switch
pub mod RoundTrip
pub mod Cached
use Prim.Native.Nat.{bit_and}
use zkopru.Base.{
  ℕ, zero, suc, ◌+◌, ◌%◌, Bool, true, false, not, Option, none, some, List, [], ◌∷◌, ◌++◌, ◌==◌,
  if◌then◌else◌, ◌>>=◌, get_elem?, get_or, map, length,
}
use zkopru.Transaction.Fp.{BigNumber, from_buffer, from_number, read_hex}
use zkopru.Transaction.Buffer.{concat, Reading, done, ◌>>◌, dequeue, read_many}

pub record ZkInflow : Type 0 where
  pub nullifier : ℕ
  pub root : ℕ

pub record PublicData : Type 0 where
  pub to : ℕ
  pub eth : ℕ
  pub token_addr : ℕ
  pub erc20_amount : ℕ
  pub nft : ℕ
  pub fee : ℕ

pub record ZkOutflow : Type 0 where
  pub note : ℕ
  pub outflow_type : ℕ
  pub data_of : Option PublicData

pub record Snark : Type 0 where
  pub pi_a : List ℕ
  pub pi_b : List (List ℕ)
  pub pi_c : List ℕ

pub record Memo : Type 0 where
  pub version : ℕ
  pub content : List ℕ

pub record ZkTx : Type 0 where
  pub inflow : List ZkInflow
  pub outflow : List ZkOutflow
  pub fee : ℕ
  pub proof : Option Snark
  pub swap : Option ℕ
  pub memo : Option Memo
  pub cached_hash : Option (List ℕ)
  pub cached_size : Option ℕ

-- The switch byte of the memo.
unfoldable pub memo_switch : Option Memo → ℕ
memo_switch none = 0
memo_switch (some m) = if m.version == 1 then 2 else (if m.version == 2 then 4 else 0)

unfoldable pub swap_switch : Option ℕ → ℕ
swap_switch none = 0
swap_switch (some s) = 1

-- `Uint8Array.from([n])` keeps the low byte of `n`.
unfoldable pub byte : ℕ → Option (List ℕ)
byte n = some (n % 256 ∷ [])

-- `a[i]`, written to a buffer: it throws when there is none.
module _ (bn : BigNumber) where
  unfoldable pub element : List ℕ → ℕ → Option (List ℕ)
  element xs i = get_elem? xs i >>= λ x. bn.to_array 32 x

  unfoldable pub element2 : List (List ℕ) → ℕ → ℕ → Option (List ℕ)
  element2 xss i j = get_elem? xss i >>= λ xs. element xs j

  unfoldable pub encode_inflow : ZkInflow → Option (List ℕ)
  encode_inflow i = concat (bn.to_array 32 i.root ∷ bn.to_array 32 i.nullifier ∷ [])

  unfoldable pub encode_data : Option PublicData → Option (List ℕ)
  encode_data none = some []
  encode_data (some d) = concat (
      bn.to_array 20 d.to
      ∷ bn.to_array 32 d.eth
      ∷ bn.to_array 20 d.token_addr
      ∷ bn.to_array 32 d.erc20_amount
      ∷ bn.to_array 32 d.nft
      ∷ bn.to_array 32 d.fee
      ∷ [])

  unfoldable pub encode_outflow : ZkOutflow → Option (List ℕ)
  encode_outflow o =
      concat (bn.to_array 32 o.note ∷ bn.to_array 1 o.outflow_type ∷ encode_data o.data_of ∷ [])

  unfoldable pub encode_swap : Option ℕ → Option (List ℕ)
  encode_swap none = some []
  encode_swap (some s) = bn.to_array 32 s

  unfoldable pub encode_memo : Option Memo → Option (List ℕ)
  encode_memo none = some []
  encode_memo (some m) =
      if m.version == 1
      then some m.content
      else (if m.version == 2
          then concat (bn.to_array 2 (from_number (length m.content)) ∷ some m.content ∷ [])
          else some [])

  unfoldable pub encode_proof : Snark → List (Option (List ℕ))
  encode_proof p =
      (element p.pi_a 0
        ∷ element p.pi_a 1
        ∷ element2 p.pi_b 0 1
        ∷ element2 p.pi_b 0 0
        ∷ element2 p.pi_b 1 1
        ∷ element2 p.pi_b 1 0
        ∷ element p.pi_c 0
        ∷ element p.pi_c 1
        ∷ [])

  unfoldable pub encode : ZkTx → Option (List ℕ)
  encode tx = tx.proof >>= λ p. concat (
      byte (length tx.inflow) ∷ map encode_inflow tx.inflow
      ++ (byte (length tx.outflow) ∷ map encode_outflow tx.outflow
          ++ (bn.to_array 32 tx.fee ∷ encode_proof p
              ++ (byte (swap_switch tx.swap + memo_switch tx.memo)
                  ∷ encode_swap tx.swap
                  ∷ encode_memo tx.memo
                  ∷ []))))

-- `Fp.fromBuffer(queue.dequeue(width))`
unfoldable pub read_fp : ℕ → Reading ℕ
read_fp width = dequeue width >> λ bs. done (from_buffer bs)

-- `queue.dequeue(1)[0]`; past the end it is undefined, which its uses take for 0.
unfoldable pub read_byte : Reading ℕ
read_byte = dequeue 1 >> λ bs. done (get_or bs 0 0)

unfoldable pub read_inflow : Reading ZkInflow
read_inflow = read_fp 32 >> λ r. read_fp 32 >> λ n. done record { nullifier = n; root = r }

unfoldable pub read_data : Reading PublicData
read_data = read_fp 20 >> λ a. read_fp 32 >> λ b. read_fp 20 >> λ c. read_fp 32 >> λ d.
    read_fp 32 >> λ e. read_fp 32 >> λ f.
    done record { to = a; eth = b; token_addr = c; erc20_amount = d; nft = e; fee = f }

unfoldable pub read_outflow : Reading ZkOutflow
read_outflow = read_fp 32 >> λ n. read_byte >> λ b.
    if not (from_number b == 0)
    then (read_data >> λ d.
        done record { note = n; outflow_type = from_number b; data_of = some d })
    else done record { note = n; outflow_type = from_number b; data_of = none }

-- The brackets are reversed pairwise, as they are written.
unfoldable pub read_proof : Reading Snark
read_proof = read_fp 32 >> λ a. read_fp 32 >> λ b. read_fp 32 >> λ c. read_fp 32 >> λ d.
    read_fp 32 >> λ e. read_fp 32 >> λ f. read_fp 32 >> λ g. read_fp 32 >> λ h.
    done record { pi_a = a ∷ b ∷ []; pi_b = (d ∷ c ∷ []) ∷ (f ∷ e ∷ []) ∷ []; pi_c = g ∷ h ∷ [] }

unfoldable pub read_swap : ℕ → Reading (Option ℕ)
read_swap switch = if bit_and switch 1 == 0 then done none else (read_fp 32 >> λ s. done (some s))

unfoldable pub read_memo : ℕ → Reading (Option Memo)
read_memo switch =
    if not (bit_and switch 2 == 0)
    then (dequeue 81 >> λ bs. done (some record { version = 1; content = bs }))
    else (if not (bit_and switch 4 == 0)
        then (dequeue 2 >> λ l.
            dequeue (read_hex 0 l) >> λ bs. done (some record { version = 2; content = bs }))
        else done none)

unfoldable pub read_tx : ℕ → Reading ZkTx
read_tx size = read_byte >> λ n_in. read_many n_in read_inflow >> λ inflow. read_byte >> λ n_out.
    read_many n_out read_outflow >> λ outflow. read_fp 32 >> λ fee. read_proof >> λ proof.
    read_byte >> λ switch. read_swap switch >> λ swap. read_memo switch >> λ memo. done record {
      inflow = inflow;
      outflow = outflow;
      fee = fee;
      proof = some proof;
      swap = swap;
      memo = memo;
      cached_hash = none;
      cached_size = some size;
    }

unfoldable pub decode : List ℕ → ZkTx
decode buff = let r = read_tx (length buff) buff in r.0
