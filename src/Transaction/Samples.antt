-- ===== src/Transaction/Samples.antt =====
-- A writer of numbers digit by digit, in the place of BN.js, and a transaction with a note that stays
-- and a withdrawal.
use zkopru.Base.{◌^◌, refl, none, some, [], ◌∷◌, arith, ltb, lt→ltb, if◌then◌else◌, replicate, inl}
use zkopru.Utils.Numbers.{digits, length-digits, read_hex-digits}
use zkopru.Transaction.Fp.{BigNumber, IsBigEndian, order}
use zkopru.Transaction.ZkTx.{ZkTx}
use zkopru.Transaction.ZkTx.Encodable.{IsEncodable}

abbrev pub writer : BigNumber
writer = record {
  to_array = λ width n. if ltb n (256 ^ width) then some (digits width n) else none;
}

pub writer-IsBigEndian : IsBigEndian writer
writer-IsBigEndian = record {
  fits = λ width n small. (
    digits width n,
    rw (lt→ltb n (256 ^ width) small),
    length-digits width n,
    read_hex-digits width n small,
  );
}

-- One note is spent; one new note stays in the rollup and one is withdrawn.
abbrev pub payment : ZkTx
payment = record {
  inflow = record { nullifier = 11; root = 12 } ∷ [];
  outflow =
      record { note = 13; outflow_type = 0; data_of = none }
      ∷ record {
        note = 14;
        outflow_type = 1;
        data_of =
            some
              record { to = 15; eth = 16; token_addr = 17; erc20_amount = 18; nft = 19; fee = 20 };
      }
      ∷ [];
  fee = 21;
  proof =
      some record { pi_a = 1 ∷ 2 ∷ []; pi_b = (3 ∷ 4 ∷ []) ∷ (5 ∷ 6 ∷ []) ∷ []; pi_c = 7 ∷ 8 ∷ [] };
  swap = some 22;
  memo = some record { version = 1; content = replicate 81 9 };
  cached_hash = none;
  cached_size = none;
}

pub payment-IsEncodable : IsEncodable payment
unfolding order
payment-IsEncodable = record {
  few_inflows = omega arith;
  few_outflows = omega arith;
  inflows = ((omega arith, omega arith), tt);
  outflows = (
    (omega arith, omega arith, refl),
    (
      (
        omega arith,
        omega arith,
        (
          λ e. absurd (omega (arith, e)),
          (
            (omega arith, omega arith),
            omega arith,
            (omega arith, omega arith),
            omega arith,
            omega arith,
            omega arith,
          ),
        ),
      ),
      tt,
    ),
  );
  fee_fits = omega arith;
  proven = (
    (1, 2, refl, omega arith, omega arith),
    (
      (3 ∷ 4 ∷ []),
      (5 ∷ 6 ∷ []),
      refl,
      (3, 4, refl, omega arith, omega arith),
      (5, 6, refl, omega arith, omega arith),
    ),
    (7, 8, refl, omega arith, omega arith),
  );
  swap_fits = omega arith;
  memo_fits = inl (refl, refl);
}
