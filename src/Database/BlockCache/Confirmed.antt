-- ===== src/Database/BlockCache/Confirmed.antt =====
-- What reaches the database through the cache of block-cache.ts: only writes of blocks that have their
-- confirmations and were not taken back.
use mathlib.Core.Option.{some-injective}
use zkopru.Base.{
  ℕ, ◌+◌, ◌≤◌, ◌≡◌, ◌≢◌, ◌⊎◌, inl, inr, refl, Bool, true, false, Option, none, some, List, [], ◌∷◌,
  ◌++◌, ◌==◌, ltb, if◌then◌else◌, ◌>>=◌, arith, Bool-cases, All, subst, lt→ltb, position,
}
use zkopru.Database.BlockCache.{
  PendingOperation, Db, BlockCache, write_change, too_new, write_changes, on_header, clear,
  clear_changes_for_block_hash, cache_operation,
}

module _ {Doc S : Type 0} (api : Db Doc S) (block_confirmations : ℕ) where
  -- The block of the operation has its confirmations at `current`.
  abbrev pub IsConfirmed : ℕ → PendingOperation Doc → Type 0
  IsConfirmed current op = op.block_number + block_confirmations ≤ current

  -- A state of the database after writes, in order, of operations that satisfy `P`.
  pub data Written (P : PendingOperation Doc → Type 0) : S → S → Type 0 where
    nothing : (s : S) → Written P s s
    write :
        (s s' s'' : S) (op : PendingOperation Doc)
        → P op
        → write_change api block_confirmations op.change s ≡ some s'
        → Written P s' s''
        → Written P s s''

  -- The write of an operation, in a round at block `current`.
  abbrev attempt : ℕ → PendingOperation Doc → S → Option S
  attempt current op s =
      if too_new api block_confirmations current op
      then none
      else write_change api block_confirmations op.change s

  attempt-IsConfirmed :
      (current : ℕ) (op : PendingOperation Doc) (s s' : S)
      → attempt current op s ≡ some s'
      → IsConfirmed current op × (write_change api block_confirmations op.change s ≡ some s')
  unfolding too_new
  attempt-IsConfirmed current op s s' h =
      elim (position current (op.block_number + block_confirmations)) [
        | inl early ↦
            let t = lt→ltb current (op.block_number + block_confirmations) early in
            let none_written : none ≡ some s' = rw t at h in absurd (ground arith)
        | inr late ↦
            let t : ltb current (op.block_number + block_confirmations) ≡ false = ground arith in
            (omega arith, rw t at h)
      ]

  abbrev Result : (PendingOperation Doc → Type 0) → ℕ → S → List (PendingOperation Doc) × S → Type 0
  Result P current s r = Written (λ op. P op × IsConfirmed current op) s r.1 × All P r.0

  round-Written :
      (P : PendingOperation Doc → Type 0) (current : ℕ) (op : PendingOperation Doc)
      (ops : List (PendingOperation Doc)) (s : S)
      → P op
      → ((s : S) → Result P current s (write_changes api block_confirmations current ops s))
      → (o : Option S) → attempt current op s ≡ o
      → Result P current s (elim o [
        | none ↦ let r = write_changes api block_confirmations current ops s in (op ∷ r.0, r.1)
        | some s' ↦ write_changes api block_confirmations current ops s'
      ])
  round-Written P current op ops s p ih none e = let h = ih s in (h.0, (p, h.1))
  round-Written P current op ops s p ih (some s') e =
      let h = ih s' in
      let (confirmed, written) = attempt-IsConfirmed current op s s' e in
      (write s s' _ op (p, confirmed) written h.0, h.1)

  write_changes-Written :
      (P : PendingOperation Doc → Type 0) (current : ℕ) (ops : List (PendingOperation Doc)) (s : S)
      → All P ops
      → Result P current s (write_changes api block_confirmations current ops s)
  unfolding write_changes
  write_changes-Written P current [] s all = (nothing s, tt)
  write_changes-Written P current (op ∷ ops) s all =
      round-Written P current op ops s all.0 (λ s. write_changes-Written P current ops s all.1) _
        refl

  -- What the property demands of the operations that are not of the block holds of all that are left.
  clear-All :
      (P : PendingOperation Doc → Type 0) (hash : ℕ) (ops : List (PendingOperation Doc))
      → All (λ op. op.block_hash ≢ hash → P op) ops
      → All P (clear api block_confirmations hash ops)
  unfolding clear
  clear-All P hash [] all = tt
  clear-All P hash (op ∷ ops) all = elim (Bool-cases (op.block_hash == hash)) [
    | inl e ↦ rw e (clear-All P hash ops all.1)
    | inr e ↦ rw e (all.0 (λ same. ground (arith, e, same)), clear-All P hash ops all.1)
  ]

  -- The steps of a cache in which only operations with a property are added: new headers, operations,
  -- blocks taken back.
  pub data Steps (P : PendingOperation Doc → Type 0)
      : BlockCache Doc S → BlockCache Doc S → Type 0 where
    stay : (c : BlockCache Doc S) → Steps P c c
    header :
        (c c' : BlockCache Doc S) (number : ℕ)
        → Steps P c c'
        → Steps P c (on_header api block_confirmations number c')
    cached :
        (c c' c'' : BlockCache Doc S) (op : PendingOperation Doc)
        → P op
        → Steps P c c'
        → cache_operation api block_confirmations op c' ≡ some c''
        → Steps P c c''
    cleared :
        (c c' : BlockCache Doc S) (other : ℕ)
        → Steps P c c'
        → Steps P c (clear_changes_for_block_hash api block_confirmations other c')

  Written-trans :
      {P : PendingOperation Doc → Type 0} {s s' s'' : S}
      → Written P s s'
      → Written P s' s''
      → Written P s s''
  Written-trans (nothing s) v = v
  Written-trans (write s s1 _ op p e w) v = write s s1 _ op p e (Written-trans w v)

  Written-weaken :
      {P Q : PendingOperation Doc → Type 0} {s s' : S}
      → ((op : PendingOperation Doc) → P op → Q op)
      → Written P s s'
      → Written Q s s'
  Written-weaken f (nothing s) = nothing s
  Written-weaken f (write s s1 _ op p e w) = write s s1 _ op (f op p) e (Written-weaken f w)

  -- When all pending operations satisfy a predicate, a new block header changes the database only
  -- by writes of operations that satisfy it and whose block has its confirmations at the number of
  -- the header, and the operations that stay pending satisfy it.
  pub on_header-Written :
      (P : PendingOperation Doc → Type 0) (number : ℕ) (c : BlockCache Doc S)
      → All P c.pending_operations
      → let c' = on_header api block_confirmations number c in
        Written (λ op. P op × IsConfirmed number op) c.db c'.db × All P c'.pending_operations
  unfolding on_header
  on_header-Written P number c all = write_changes-Written P number c.pending_operations c.db all

  clear-keeps :
      (P : PendingOperation Doc → Type 0) (hash : ℕ) (ops : List (PendingOperation Doc))
      → All P ops
      → All P (clear api block_confirmations hash ops)
  unfolding clear
  clear-keeps P hash [] all = tt
  clear-keeps P hash (op ∷ ops) all = elim (Bool-cases (op.block_hash == hash)) [
    | inl e ↦ rw e (clear-keeps P hash ops all.1)
    | inr e ↦ rw e (all.0, clear-keeps P hash ops all.1)
  ]

  All-snoc :
      (P : PendingOperation Doc → Type 0) (ops : List (PendingOperation Doc))
      (op : PendingOperation Doc)
      → All P ops
      → P op
      → All P (ops ++ op ∷ [])
  All-snoc P [] op all p = (p, tt)
  All-snoc P (x ∷ ops) op all p = (all.0, All-snoc P ops op all.1 p)

  abbrev Kept : (PendingOperation Doc → Type 0) → S → BlockCache Doc S → Type 0
  Kept P s c = Written P s c.db × All P c.pending_operations

  -- The three outcomes of `cache_operation`.
  cache_operation-cases :
      (op : PendingOperation Doc) (c : BlockCache Doc S) (b : Bool) (s : Option S)
      (c' : BlockCache Doc S)
      → (if b
          then (s >>= λ s. some (record c { db = s }))
          else some (record c { pending_operations = c.pending_operations ++ op ∷ [] }))
        ≡ some c'
      → ((s' : S) × (s ≡ some s') × (record c { db = s' } ≡ c'))
        ⊎ (record c { pending_operations = c.pending_operations ++ op ∷ [] } ≡ c')
  cache_operation-cases op c true none c' h = absurd (ground arith)
  cache_operation-cases op c true (some s) c' h = inl (s, refl, some-injective _ _ h)
  cache_operation-cases op c false s c' h = inr (some-injective _ _ h)

  Steps-Kept :
      (P : PendingOperation Doc → Type 0) (s : S) (c c' : BlockCache Doc S)
      → Steps P c c'
      → Kept P s c
      → Kept P s c'
  unfolding on_header clear_changes_for_block_hash cache_operation
  Steps-Kept P s _ _ (stay c) kept = kept
  Steps-Kept P s _ _ (header c c' number steps) kept =
      let before = Steps-Kept P s c c' steps kept in
      let after = write_changes-Written P number c'.pending_operations c'.db before.1 in
      (Written-trans before.0 (Written-weaken (λ op p. p.0) after.0), after.1)
  Steps-Kept P s _ _ (cleared c c' other steps) kept =
      let before = Steps-Kept P s c c' steps kept in
      (before.0, clear-keeps P other c'.pending_operations before.1)
  Steps-Kept P s _ _ (cached c c' c'' op p steps h) kept =
      let before = Steps-Kept P s c c' steps kept in
      elim (cache_operation-cases op c' _ _ c'' h) [
        | inl (s', written, e) ↦
            subst (Kept P s) e
              (Written-trans before.0 (write c'.db s' s' op p written (nothing s')), before.1)
        | inr e ↦ subst (Kept P s) e (before.0, All-snoc P c'.pending_operations op before.1 p)
      ]

  -- Let every pending operation whose block hash is not a given one satisfy a predicate. Once the
  -- changes of the block with that hash are taken back, whatever headers, cached operations that
  -- satisfy the predicate and further retractions follow, the database changes only by writes of
  -- operations that satisfy it.
  pub clear_changes-Written :
      (P : PendingOperation Doc → Type 0) (hash : ℕ) (c c' : BlockCache Doc S)
      → All (λ op. op.block_hash ≢ hash → P op) c.pending_operations
      → Steps P (clear_changes_for_block_hash api block_confirmations hash c) c'
      → Written P c.db c'.db
  unfolding clear_changes_for_block_hash
  clear_changes-Written P hash c c' all steps =
      let kept =
        Steps-Kept P c.db _ c' steps (nothing c.db, clear-All P hash c.pending_operations all) in
      kept.0
