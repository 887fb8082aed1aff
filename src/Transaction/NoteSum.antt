-- ===== src/Transaction/NoteSum.antt =====
-- packages/transaction/src/note-sum.ts: the assets of some notes, as a sum. How the key of a token is
-- made from its address, which may throw, is a parameter.
pub mod Totals
use zkopru.Base.{
  Eq, nat_eq, ℕ, zero, suc, ◌+◌, ◌%◌, ◌<◌, ◌≡◌, refl, sym, ap, ◌∙◌, inl, inr, Bool, true, false,
  not, ◌&&◌, Option, none, some, List, [], ◌∷◌, ◌++◌, arith, ◌==◌, ==_iff, if◌then◌else◌, ◌>>=◌,
  Bool-cases, Option-cases, map, filter,
}
use mathlib.Core.Option.{some-injective, none-ne-some}
use zkopru.Transaction.Fp.{order}
use zkopru.Tree.Nodes.{NodeMap, find, upsert, find-upsert}

-- The asset of a note.
pub record Asset : Type 0 where
  pub eth : ℕ
  pub token_addr : ℕ
  pub erc20_amount : ℕ
  pub nft : ℕ

-- The values of the maps are never zero, so that `||` and `?` see what is missing only.
pub record Sum : Type 0 where
  pub eth : ℕ
  pub erc20 : NodeMap ℕ
  pub erc721 : NodeMap (List ℕ)

abbrev get_or : {A : Type 0} → A → Option A → A
get_or a none = a
get_or a (some b) = b

unfoldable pub get_erc20 : NodeMap ℕ → ℕ → ℕ
get_erc20 erc20 address = get_or 0 (find address erc20)

unfoldable pub get_nfts : NodeMap (List ℕ) → ℕ → List ℕ
get_nfts erc721 address = get_or [] (find address erc721)

-- The loop of `etherFrom`, from a sum on.
unfoldable pub ether_from : ℕ → List Asset → ℕ
ether_from sum [] = sum
ether_from sum (a ∷ assets) = ether_from ((sum + a.eth) % order) assets

abbrev pub is_erc20 : Asset → Bool
is_erc20 a = not (a.erc20_amount == 0) && a.nft == 0

abbrev pub is_nft : Asset → Bool
is_nft a = a.erc20_amount == 0 && not (a.nft == 0)

module _ (address_of : ℕ → Option ℕ) where
  -- The loop of `erc20From`.
  unfoldable pub erc20_from : NodeMap ℕ → List Asset → Option (NodeMap ℕ)
  unfolding get_erc20
  erc20_from erc20 [] = some erc20
  erc20_from erc20 (a ∷ assets) = address_of a.token_addr >>= λ addr.
      erc20_from
        (if is_erc20 a
          then upsert addr ((get_erc20 erc20 addr + a.erc20_amount) % order) erc20
          else erc20)
        assets

  -- The loop of `nftsFrom`.
  unfoldable pub nfts_from : NodeMap (List ℕ) → List Asset → Option (NodeMap (List ℕ))
  unfolding get_nfts
  nfts_from erc721 [] = some erc721
  nfts_from erc721 (a ∷ assets) = address_of a.token_addr >>= λ addr.
      nfts_from
        (if is_nft a then upsert addr (get_nfts erc721 addr ++ a.nft ∷ []) erc721 else erc721)
        assets

  unfoldable pub sum_from : List Asset → Option Sum
  unfolding ether_from
  sum_from assets = erc20_from [] assets >>= λ erc20. nfts_from [] assets >>= λ erc721.
      some record { eth = ether_from 0 assets; erc20 = erc20; erc721 = erc721 }
