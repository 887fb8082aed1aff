-- ===== src/Database/Tests.antt =====
-- Runs of the block cache over a database that keeps the documents that it was told to create.
use zkopru.Base.{ℕ, ◌≤◌, ◌≡◌, refl, none, some, List, [], ◌∷◌, All, arith}
use zkopru.Database.BlockCache.{
  create, one, PendingOperation, Db, BlockCache, on_header, clear_changes_for_block_hash,
}
use zkopru.Database.BlockCache.Confirmed.{
  IsConfirmed, Written, stay, header, on_header-Written, clear_changes-Written,
}

abbrev store : Db ℕ (List ℕ)
store = record {
  create = λ c doc docs. some (doc ∷ docs);
  upsert = λ c w doc u docs. some (doc ∷ docs);
  update = λ c w u docs. some docs;
  delete = λ c w docs. some docs;
  transaction = λ ops docs. none;
}

abbrev insert : ℕ → ℕ → ℕ → PendingOperation ℕ
insert number hash doc = record {
  block_number = number;
  block_hash = hash;
  change = one (create 0 doc);
}

-- Two operations, of the blocks 10 and 14.
abbrev waiting : BlockCache ℕ (List ℕ)
waiting = record {
  pending_operations = insert 10 100 1 ∷ insert 14 140 2 ∷ [];
  current_block_number = 14;
  db = [];
}

on_header-Written_example :
    let c' = on_header store 8 18 waiting in
    Written store 8 (λ op. (op.block_number ≤ 14) × IsConfirmed store 8 18 op) [] c'.db
    × All (λ op. op.block_number ≤ 14) c'.pending_operations
on_header-Written_example =
    on_header-Written store 8 (λ op. op.block_number ≤ 14) 18 waiting
      (omega arith, (omega arith, tt))

-- The write of the document 1.
abbrev IsFirst : PendingOperation ℕ → Type 0
IsFirst op = op.change ≡ one (create 0 1)

clear_changes-Written_example :
    let c' = on_header store 8 30 (clear_changes_for_block_hash store 8 140 waiting) in
    Written store 8 IsFirst [] c'.db
clear_changes-Written_example =
    clear_changes-Written store 8 IsFirst 140 waiting _
      (λ other. refl, (λ other. absurd (other refl), tt))
      (header (clear_changes_for_block_hash store 8 140 waiting)
        (clear_changes_for_block_hash store 8 140 waiting) 30
        (stay (clear_changes_for_block_hash store 8 140 waiting)))
