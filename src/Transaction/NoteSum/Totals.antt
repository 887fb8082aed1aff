-- ===== src/Transaction/NoteSum/Totals.antt =====
-- What `Sum.from` says of some notes.
use zkopru.Base.{
  nat_eq, ℕ, ◌+◌, ◌%◌, ◌<◌, ◌≡◌, refl, sym, ap, ◌∙◌, inl, inr, ◌&&◌, Option, some, List, [], ◌∷◌,
  ◌++◌, arith, ◌==◌, ==_iff, if◌then◌else◌, Bool-cases, map, filter, All,
}
use mathlib.Core.List.{append-nil, append_assoc}
use zkopru.Transaction.Fp.{order}
use zkopru.Tree.Nodes.{NodeMap, find, upsert, find-upsert}
use zkopru.Transaction.NoteSum.{
  Asset, Sum, get_erc20, get_nfts, ether_from, is_erc20, is_nft, erc20_from, nfts_from, sum_from,
}

abbrev pub total : List ℕ → ℕ
total [] = 0
total (x ∷ xs) = x + total xs

pub ether_from-total :
    (assets : List Asset) (sum : ℕ)
    → sum < order
    → ether_from sum assets ≡ (sum + total (map (λ a. a.eth) assets)) % order
unfolding ether_from order
ether_from-total [] sum small = omega arith
ether_from-total (a ∷ assets) sum small =
    ether_from-total assets ((sum + a.eth) % order) (omega arith) ∙ omega arith

module _ (address_of : ℕ → Option ℕ) (key_of : ℕ → ℕ) where
  -- The address of the note's token has a key.
  abbrev pub HasKey : Asset → Type 0
  HasKey a = address_of a.token_addr ≡ some (key_of a.token_addr)

  -- The amounts of the notes with ERC20 tokens of this key, and the NFTs of this key.
  abbrev pub amounts_at : ℕ → List Asset → List ℕ
  amounts_at key assets =
      map (λ a. a.erc20_amount) (filter (λ a. is_erc20 a && key_of a.token_addr == key) assets)

  abbrev pub nfts_at : ℕ → List Asset → List ℕ
  nfts_at key assets =
      map (λ a. a.nft) (filter (λ a. is_nft a && key_of a.token_addr == key) assets)

  get_erc20-upsert :
      (key k amount : ℕ) (erc20 : NodeMap ℕ)
      → get_erc20 (upsert k amount erc20) key ≡ (if k == key then amount else get_erc20 erc20 key)
  unfolding get_erc20
  get_erc20-upsert key k amount erc20 =
      rw (find-upsert key k amount erc20)
        (elim (Bool-cases (k == key)) [ inl e ↦ rw e refl | inr e ↦ rw e refl ])

  get_nfts-upsert :
      (key k : ℕ) (nfts : List ℕ) (erc721 : NodeMap (List ℕ))
      → get_nfts (upsert k nfts erc721) key ≡ (if k == key then nfts else get_nfts erc721 key)
  unfolding get_nfts
  get_nfts-upsert key k nfts erc721 =
      rw (find-upsert key k nfts erc721)
        (elim (Bool-cases (k == key)) [ inl e ↦ rw e refl | inr e ↦ rw e refl ])

  erc20_from-total :
      (assets : List Asset) (erc20 : NodeMap ℕ)
      → All HasKey assets
      → (m : NodeMap ℕ) × (erc20_from address_of erc20 assets ≡ some m)
        × ((key : ℕ)
            → get_erc20 erc20 key < order
            → get_erc20 m key ≡ (get_erc20 erc20 key + total (amounts_at key assets)) % order)
  unfolding erc20_from order
  erc20_from-total [] erc20 keys = (erc20, refl, λ key small. omega (arith, small))
  erc20_from-total (a ∷ assets) erc20 keys =
      let k = key_of a.token_addr in
      elim (Bool-cases (is_erc20 a)) [
        | inr other ↦
            let (m, ran, same) = erc20_from-total assets erc20 (keys.1) in
            (m, rw (keys.0, other) ran, λ key small. rw other (same key small))
        | inl fungible ↦
            let next = upsert k ((get_erc20 erc20 k + a.erc20_amount) % order) erc20 in
            let (m, ran, same) = erc20_from-total assets next (keys.1) in
            (
              m,
              rw (keys.0, fungible) ran,
              λ key small.
                  let put =
                    get_erc20-upsert key k ((get_erc20 erc20 k + a.erc20_amount) % order) erc20 in
                  rw fungible (elim (Bool-cases (k == key)) [
                    | inl e ↦
                        let held : get_erc20 erc20 k ≡ get_erc20 erc20 key =
                          ap (get_erc20 erc20) ((==_iff _ _).0 e) in
                        let here = rw e at put in
                        let after = same key (omega (arith, here)) in
                        rw e (omega (arith, held, here, after))
                    | inr e ↦
                        let here = rw e at put in
                        let after = same key (omega (arith, here, small)) in
                        rw e (omega (arith, here, after))
                  ]),
            )
      ]

  nfts_from-lists :
      (assets : List Asset) (erc721 : NodeMap (List ℕ))
      → All HasKey assets
      → (m : NodeMap (List ℕ)) × (nfts_from address_of erc721 assets ≡ some m)
        × ((key : ℕ) → get_nfts m key ≡ get_nfts erc721 key ++ nfts_at key assets)
  unfolding nfts_from
  nfts_from-lists [] erc721 keys = (erc721, refl, λ key. sym (append-nil (get_nfts erc721 key)))
  nfts_from-lists (a ∷ assets) erc721 keys =
      let k = key_of a.token_addr in
      elim (Bool-cases (is_nft a)) [
        | inr other ↦
            let (m, ran, same) = nfts_from-lists assets erc721 (keys.1) in
            (m, rw (keys.0, other) ran, λ key. rw other (same key))
        | inl unique ↦
            let added = get_nfts erc721 k ++ a.nft ∷ [] in
            let (m, ran, same) = nfts_from-lists assets (upsert k added erc721) (keys.1) in
            (
              m,
              rw (keys.0, unique) ran,
              λ key.
                  let put = get_nfts-upsert key k added erc721 in
                  rw unique (elim (Bool-cases (k == key)) [
                    | inl e ↦
                        let held : get_nfts erc721 k ≡ get_nfts erc721 key =
                          ap (get_nfts erc721) ((==_iff _ _).0 e) in
                        rw e (
                          same key
                          ∙ ap (λ xs. xs ++ nfts_at key assets)
                              ((rw e at put) ∙ ap (λ xs. xs ++ a.nft ∷ []) held)
                          ∙ append_assoc (get_nfts erc721 key) (a.nft ∷ []) (nfts_at key assets))
                    | inr e ↦ rw e (same key ∙ ap (λ xs. xs ++ nfts_at key assets) (rw e at put))
                  ]),
            )
      ]

  -- When the address of each note's token has a key, `Sum.from` does not throw; its ETH is the sum
  -- of the notes' ETH, `getERC20` of a key the sum of the amounts of the notes with this key, an
  -- amount and no NFT, both modulo the order of the field, and `getNFTs` the list of the NFTs of
  -- the notes with this key, an NFT and no amount.
  pub sum_from-totals :
      (assets : List Asset)
      → All HasKey assets
      → (sum : Sum) × (sum_from address_of assets ≡ some sum)
        × (sum.eth ≡ total (map (λ a. a.eth) assets) % order)
        × ((key : ℕ)
            → (get_erc20 sum.erc20 key ≡ total (amounts_at key assets) % order)
              × (get_nfts sum.erc721 key ≡ nfts_at key assets))
  unfolding sum_from get_erc20 get_nfts find order
  sum_from-totals assets keys =
      let (erc20, made, amounts) = erc20_from-total assets [] keys in
      let (erc721, made', nfts) = nfts_from-lists assets [] keys in
      (
        record { eth = ether_from 0 assets; erc20 = erc20; erc721 = erc721 },
        rw (made, made') refl,
        (let ether = ether_from-total assets 0 (omega arith) in omega (arith, ether)),
        λ key. (let amount = amounts key (omega arith) in omega (arith, amount), nfts key),
      )
