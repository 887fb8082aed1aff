-- ===== src/Transaction/ZkTx/Parts.antt =====
-- `ZkTx.encode` and `ZkTx.decode` against each other, part by part, on transactions whose parts fit
-- their fields.
use zkopru.Base.{
  ℕ, ◌+◌, ◌<◌, ◌^◌, ◌≡◌, refl, sym, subst, Option, some, none, List, [], ◌∷◌, arith, get_elem?,
  ◌>>=◌, ◌==◌, not, if◌then◌else◌, Bool, false,
}
use zkopru.Transaction.Buffer.{Reading, done, ◌>>◌}
use zkopru.Transaction.Fp.{BigNumber, IsBigEndian, order, order-big, from_number, from_number-small}
use zkopru.Transaction.ZkTx.{
  ZkInflow, PublicData, ZkOutflow, Snark, element, element2, encode_inflow, encode_data,
  encode_outflow, encode_proof, read_fp, read_byte, read_inflow, read_data, read_outflow,
  read_proof,
}
use zkopru.Transaction.ZkTx.Encodable.{
  IsAddress, IsInflow, IsData, IsTyped, IsOutflow, IsSnark, data_size, outflow_size,
}
use zkopru.Transaction.ZkTx.Writes.{
  Writes, WritesAll, writes-nil, writes-cons, writes-map, writes-fp, writes-small, writes-some,
  writes-last,
}

abbrev outflow : ℕ → ℕ → Option PublicData → ZkOutflow
outflow n t d = record { note = n; outflow_type = t; data_of = d }

-- What `decode` reads after the type of a note.
abbrev typed_if : Bool → ℕ → ℕ → Reading ZkOutflow
typed_if zero_type n t =
    if not zero_type
    then (read_data >> λ d. done (outflow n t (some d)))
    else done (outflow n t none)

abbrev typed : ℕ → ℕ → Reading ZkOutflow
typed n t = typed_if (t == 0) n t

field-fits : (n : ℕ) → n < order → n < 256 ^ 32
unfolding order
field-fits n small = omega arith

module _ (bn : BigNumber) (big : IsBigEndian bn) where
  pub writes-field : (n : ℕ) → n < order → Writes (bn.to_array 32 n) (read_fp 32) n 32
  writes-field n small = writes-fp bn big 32 n (field-fits n small) small

  pub writes-address : (n : ℕ) → IsAddress n → Writes (bn.to_array 20 n) (read_fp 20) n 20
  writes-address n h = writes-fp bn big 20 n h.0 h.1

  pub writes-inflow : (i : ZkInflow) → IsInflow i → Writes (encode_inflow bn i) read_inflow i 64
  unfolding encode_inflow read_inflow
  writes-inflow i h =
      let w : WritesAll (bn.to_array 32 i.root ∷ bn.to_array 32 i.nullifier ∷ []) read_inflow i 64 =
        writes-cons _ (writes-field i.root h.0)
          (writes-cons _ (writes-field i.nullifier h.1) (writes-nil i)) in
      w.whole

  pub writes-data : (d : PublicData) → IsData d → Writes (encode_data bn (some d)) read_data d 168
  unfolding encode_data read_data
  writes-data d h =
      let w =
        writes-cons
          (λ a. read_fp 32 >> λ b. read_fp 20 >> λ c. read_fp 32 >> λ x. read_fp 32 >> λ e.
            read_fp 32 >> λ f.
            done record { to = a; eth = b; token_addr = c; erc20_amount = x; nft = e; fee = f })
          (writes-address d.to h.0)
          (writes-cons _ (writes-field d.eth h.1) (
            writes-cons _ (writes-address d.token_addr h.2) (
              writes-cons _ (writes-field d.erc20_amount h.3) (
                writes-cons _ (writes-field d.nft h.4)
                  (writes-cons _ (writes-field d.fee h.5) (writes-nil d)))))) in
      w.whole

  pub writes-typed :
      (n t : ℕ) (d : Option PublicData)
      → t < 256
      → IsTyped t d
      → Writes (encode_data bn d) (typed n (from_number t)) (outflow n t d) (data_size d)
  unfolding encode_data
  writes-typed n t d small h =
      subst (λ k. Writes (encode_data bn d) (typed n k) (outflow n t d) (data_size d))
        (sym (from_number-small t (omega (arith, order-big)))) (by_data d h)
    where
      by_data :
          (d : Option PublicData)
          → IsTyped t d
          → Writes (encode_data bn d) (typed n t) (outflow n t d) (data_size d)
      by_data none h =
          subst (λ k. Writes (some []) (typed n k) (outflow n k none) 0) (sym h)
            (writes-some (outflow n 0 none))
      by_data (some d) h =
          let e : (t == 0) ≡ false = ground (arith, h.0) in
          subst (λ b. Writes (encode_data bn (some d)) (typed_if b n t) (outflow n t (some d)) 168)
            (sym e) (writes-map (λ d. outflow n t (some d)) (writes-data d h.1))

  pub writes-outflow :
      (o : ZkOutflow) → IsOutflow o → Writes (encode_outflow bn o) read_outflow o (outflow_size o)
  unfolding encode_outflow read_outflow
  writes-outflow o h =
      let w : WritesAll
          (bn.to_array 32 o.note ∷ bn.to_array 1 o.outflow_type ∷ encode_data bn o.data_of ∷ [])
          read_outflow o (32 + (1 + data_size o.data_of)) =
        writes-cons (λ n. read_byte >> λ b. typed n (from_number b)) (writes-field o.note h.0)
          (writes-cons (λ b. typed o.note (from_number b)) (writes-small bn big o.outflow_type h.1)
            (writes-last (writes-typed o.note o.outflow_type o.data_of h.1 h.2))) in
      subst (Writes _ _ o) (omega arith) (w.whole)

  pub writes-element :
      (xs : List ℕ) (i x : ℕ)
      → get_elem? xs i ≡ some x
      → x < order
      → Writes (element bn xs i) (read_fp 32) x 32
  unfolding element
  writes-element xs i x at_i h =
      subst (λ o. Writes (o >>= λ x. bn.to_array 32 x) (read_fp 32) x 32) (sym at_i)
        (writes-field x h)

  pub writes-element2 :
      (xss : List (List ℕ)) (xs : List ℕ) (i j x : ℕ)
      → get_elem? xss i ≡ some xs
      → get_elem? xs j ≡ some x
      → x < order
      → Writes (element2 bn xss i j) (read_fp 32) x 32
  unfolding element2
  writes-element2 xss xs i j x at_i at_j h =
      subst (λ o. Writes (o >>= λ xs. element bn xs j) (read_fp 32) x 32) (sym at_i)
        (writes-element xs j x at_j h)

  snark-eq :
      (p : Snark) (xs zs : List ℕ) (yss : List (List ℕ))
      → p.pi_a ≡ xs
      → p.pi_b ≡ yss
      → p.pi_c ≡ zs
      → p ≡ record { pi_a = xs; pi_b = yss; pi_c = zs }
  snark-eq p xs zs yss ea eb ec i = record { pi_a = ea i; pi_b = eb i; pi_c = ec i }

  pub writes-snark : (p : Snark) → IsSnark (some p) → WritesAll (encode_proof bn p) read_proof p 256
  unfolding encode_proof read_proof
  writes-snark p
        (
          (a, b, ea, la, lb),
          (xs, ys, exy, (c, d, ex, lc, ld), (e, f, ey, le, lf)),
          (g, h, eg, lg, lh),
        ) =
      let eb : p.pi_b ≡ (c ∷ d ∷ []) ∷ (e ∷ f ∷ []) ∷ [] = rw (exy, ex, ey) in
      let q : Snark = record {
        pi_a = a ∷ b ∷ [];
        pi_b = (c ∷ d ∷ []) ∷ (e ∷ f ∷ []) ∷ [];
        pi_c = g ∷ h ∷ [];
      } in
      let whole : WritesAll (encode_proof bn q) read_proof q 256 =
        writes-cons _ (writes-element (a ∷ b ∷ []) 0 a refl la) (
          writes-cons _ (writes-element (a ∷ b ∷ []) 1 b refl lb) (
            writes-cons _ (writes-element2 q.pi_b (c ∷ d ∷ []) 0 1 d refl refl ld) (
              writes-cons _ (writes-element2 q.pi_b (c ∷ d ∷ []) 0 0 c refl refl lc) (
                writes-cons _ (writes-element2 q.pi_b (e ∷ f ∷ []) 1 1 f refl refl lf) (
                  writes-cons _ (writes-element2 q.pi_b (e ∷ f ∷ []) 1 0 e refl refl le) (
                    writes-cons _ (writes-element (g ∷ h ∷ []) 0 g refl lg) (
                      writes-cons _ (writes-element (g ∷ h ∷ []) 1 h refl lh)
                        (writes-nil q)))))))) in
      subst (λ p. WritesAll (encode_proof bn p) read_proof p 256) (sym (snark-eq p _ _ _ ea eb eg))
        whole
