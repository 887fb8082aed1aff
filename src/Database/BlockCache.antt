-- ===== src/Database/BlockCache.antt =====
-- packages/database/src/block-cache.ts: `BlockCache`. The database behind it is a parameter: its
-- operations take its state and return the state after, or `none` when they throw. `BLOCK_CONFIRMATIONS`
-- is a parameter too. Block hashes are numbers.
pub mod Confirmed
use zkopru.Base.{
  ℕ, ◌+◌, Bool, true, false, not, ◌||◌, Option, none, some, List, [], ◌∷◌, ◌++◌, ◌==◌, leb, ltb,
  if◌then◌else◌, ◌>>=◌,
}

-- The operations, with the documents and conditions that they carry; `Doc` is the type of those.
pub data Operation (Doc : Type 0) : Type 0 where
  create : ℕ → Doc → Operation Doc
  upsert : ℕ → Doc → Doc → Doc → Operation Doc
  update : ℕ → Doc → Doc → Operation Doc
  delete : ℕ → Doc → Operation Doc

pub data Change (Doc : Type 0) : Type 0 where
  one : Operation Doc → Change Doc
  transaction : List (Operation Doc) → Change Doc

pub record PendingOperation (Doc : Type 0) : Type 0 where
  pub block_number : ℕ
  pub block_hash : ℕ
  pub change : Change Doc

-- `DB`: a transaction makes all of its operations or throws.
pub record Db (Doc S : Type 0) : Type 0 where
  pub create : ℕ → Doc → S → Option S
  pub upsert : ℕ → Doc → Doc → Doc → S → Option S
  pub update : ℕ → Doc → Doc → S → Option S
  pub delete : ℕ → Doc → S → Option S
  pub transaction : List (Operation Doc) → S → Option S

pub record BlockCache (Doc S : Type 0) : Type 0 where
  pub pending_operations : List (PendingOperation Doc)
  pub current_block_number : ℕ
  pub db : S

module _ {Doc S : Type 0} (api : Db Doc S) (block_confirmations : ℕ) where
  unfoldable pub write_change : Change Doc → S → Option S
  write_change (one (create c doc)) s = api.create c doc s
  write_change (one (upsert c where_ create_ update_)) s = api.upsert c where_ create_ update_ s
  write_change (one (update c where_ update_)) s = api.update c where_ update_ s
  write_change (one (delete c where_)) s = api.delete c where_ s
  write_change (transaction ops) s = api.transaction ops s

  -- `currentBlockNumber - blockNumber < BLOCK_CONFIRMATIONS`, where the difference may be negative.
  unfoldable pub too_new : ℕ → PendingOperation Doc → Bool
  too_new current op = ltb current (op.block_number + block_confirmations)

  -- The loop of `writeChangesIfNeeded`: the operations that are kept, and the database after. An
  -- operation whose write throws is kept for the next block.
  unfoldable pub write_changes :
      ℕ → List (PendingOperation Doc) → S → List (PendingOperation Doc) × S
  write_changes current [] s = ([], s)
  write_changes current (op ∷ ops) s =
      elim (if too_new current op then none else write_change op.change s) [
        | none ↦ let r = write_changes current ops s in (op ∷ r.0, r.1)
        | some s' ↦ write_changes current ops s'
      ]

  -- The handler of a new block header.
  unfoldable pub on_header : ℕ → BlockCache Doc S → BlockCache Doc S
  on_header number cache =
      let r = write_changes number cache.pending_operations cache.db in
      record { pending_operations = r.0; current_block_number = number; db = r.1 }

  unfoldable pub clear : ℕ → List (PendingOperation Doc) → List (PendingOperation Doc)
  clear hash [] = []
  clear hash (op ∷ ops) = if op.block_hash == hash then clear hash ops else op ∷ clear hash ops

  unfoldable pub clear_changes_for_block_hash : ℕ → BlockCache Doc S → BlockCache Doc S
  clear_changes_for_block_hash hash cache = record cache {
    pending_operations = clear hash cache.pending_operations;
  }

  -- `upsertCache` and `updateCache`, once the current block number is known.
  unfoldable pub cache_operation :
      PendingOperation Doc → BlockCache Doc S → Option (BlockCache Doc S)
  cache_operation op cache =
      if block_confirmations == 0 || not (too_new cache.current_block_number op)
      then (write_change op.change cache.db >>= λ s. some (record cache { db = s }))
      else some (record cache { pending_operations = cache.pending_operations ++ op ∷ [] })

  -- `transactionCache`, with the operations that the callback makes, in order, on the database that it
  -- is handed: one pending operation holds them all.
  unfoldable pub transaction_cache :
      List (Operation Doc) → ℕ → ℕ → BlockCache Doc S → Option (BlockCache Doc S)
  transaction_cache operations number hash cache =
      cache_operation
        (record { block_number = number; block_hash = hash; change = transaction operations }) cache
