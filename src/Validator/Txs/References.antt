-- ===== src/Validator/Txs/References.antt =====
-- `isValidRef` of offchain-tx-validator.ts: which roots a transaction may refer to.
use zkopru.Base.{
  ℕ, zero, suc, ◌≡◌, refl, ◌↔◌, ◌⊎◌, inl, inr, Bool, true, false, Option, none, some, ◌==◌, ==_iff,
  sym, ◌∙◌, if◌then◌else◌, Bool-cases, Option-cases,
}
use zkopru.Validator.Txs.{PrecedentRow, precedes, is_valid_ref}

module _ {H : Type 0} (rows : H → Option (PrecedentRow H)) (ref : ℕ) where
  -- From a block, at most as many steps as the depth lead over blocks that are there and not slashed
  -- to a block with this root.
  pub data Precedes : ℕ → H → Type 0 where
    here :
        (depth : ℕ) (hash : H) (r : PrecedentRow H)
        → rows hash ≡ some r
        → r.slashed ≡ false
        → ref ≡ r.utxo_root
        → Precedes (suc depth) hash
    before :
        (depth : ℕ) (hash : H) (r : PrecedentRow H)
        → rows hash ≡ some r
        → r.slashed ≡ false
        → Precedes depth r.parent_block
        → Precedes (suc depth) hash

  precedes_row :
      (depth : ℕ) (hash : H) (r : PrecedentRow H)
      → rows hash ≡ some r
      → precedes rows ref (suc depth) hash ≡ (
          if r.slashed
          then false
          else if ref == r.utxo_root
          then true
          else precedes rows ref depth r.parent_block)
  unfolding precedes
  precedes_row depth hash r found = rw (found, precedes) refl

  precedes_missing :
      (depth : ℕ) (hash : H) → rows hash ≡ none → precedes rows ref (suc depth) hash ≡ false
  unfolding precedes
  precedes_missing depth hash missing = rw (missing, precedes) refl

  precedes_sound :
      (depth : ℕ) (hash : H) → precedes rows ref depth hash ≡ true → Precedes depth hash
  unfolding precedes
  precedes_sound zero hash found = cc
  precedes_sound (suc depth) hash found = elim (Option-cases (rows hash)) [
    | inl n ↦ let never = sym (precedes_missing depth hash n) ∙ found in cc
    | inr (r, n) ↦
        let test = sym (precedes_row depth hash r n) ∙ found in
        elim (Bool-cases r.slashed) [
          | inl dead ↦ let never = rw dead at test in cc
          | inr alive ↦ elim (Bool-cases (ref == r.utxo_root)) [
            | inl same ↦ here depth hash r n alive ((==_iff _ _).0 same)
            | inr other ↦
                before depth hash r n alive
                  (precedes_sound depth r.parent_block (rw (alive, other) at test))
          ]
        ]
  ]

  precedes_complete :
      (depth : ℕ) (hash : H) → Precedes depth hash → precedes rows ref depth hash ≡ true
  precedes_complete _ _ (here depth hash r found alive same) =
      precedes_row depth hash r found ∙ rw (alive, (==_iff _ _).1 same) refl
  precedes_complete _ _ (before depth hash r found alive rest) =
      precedes_row depth hash r found
      ∙ rw (alive, precedes_complete depth r.parent_block rest)
          (elim (Bool-cases (ref == r.utxo_root)) [
            | inl same ↦ rw same refl
            | inr other ↦ rw other refl
          ])

  -- `isValidRef` accepts a root exactly if a finalized block has it, or if a block with it is
  -- reached from the given one in fewer steps to parents than the reference depth, where all
  -- blocks up to it are in the database and not slashed.
  pub is_valid_ref_iff :
      (finalized : ℕ → Bool) (depth : ℕ) (hash : H)
      → (is_valid_ref rows finalized depth hash ref ≡ true)
        ↔ ((finalized ref ≡ true) ⊎ Precedes depth hash)
  unfolding is_valid_ref
  is_valid_ref_iff finalized depth hash = elim (Bool-cases (finalized ref)) [
    | inl done ↦ (λ h. inl done, λ h. rw done refl)
    | inr open_ ↦ (
      λ h. inr (precedes_sound depth hash (rw open_ at h)),
      λ h. elim h [
        | inl done ↦ let never = sym open_ ∙ done in cc
        | inr chain ↦ rw open_ (precedes_complete depth hash chain)
      ],
    )
  ]
