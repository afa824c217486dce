-- ===== src/Db/Database/Tests.antt =====
-- Queries and insertions over the tree of Db/BTree/Tests.
use c_book.Prelude.{bytes_eq, false, ◌⊎◌, ◌≡◌, refl, [], ◌∷◌, codes, true, ok, arith, throw, some}
use c_book.Db.Wal.{replay}
use c_book.Prelude.Int.{pos}
use c_book.Db.Sql.Parser.{Statement, new_statement}
use c_book.Db.BTree.Tests.{memory_store, state, two_leaves, represents, pages}
use c_book.Db.Database.{
  unknown_table, select_rows, plan_select, primary_lookup, row_word, one, few, many,
}
use c_book.Db.Database.Plans.{SelectsAll, execute_select-run_full_scan}
use c_book.Db.Database.Selecting.{explained, execute_select}
use c_book.Db.BTree.Inserting.Tests.{two_leaves-IsTree}
use c_book.Db.Database.Changes.{
  ChangeError, Database, unknown_table, expected_two_values, execute_insert, checkpoint,
}
use c_book.Db.Database.Checkpoint.{open_rows-checkpoint}
use c_book.Db.Database.Inserting.{insert_each}
use c_book.Db.Database.Recovery.{StartsWith, open_rows-insert_each}

abbrev by_id : Statement
by_id = record new_statement {
  table = codes "items";
  has_where = true;
  where_col = codes "id";
  where_op = codes "=";
  where_val = pos 8;
}

-- `value >= 3` over two rows, with the cells in the order of the columns.
by_value :
    select_rows
      (codes "id")
      (record by_id { where_col = codes "value"; where_op = codes ">="; where_val = pos 3 })
      (codes "value" ∷ codes "id" ∷ [])
      ((pos 1, pos 2) ∷ (pos 2, pos 3) ∷ [])
    ≡ ok ((pos 3 ∷ pos 2 ∷ []) ∷ [])
unfolding select_rows
by_value = refl

index_on_id : plan_select (codes "id") true by_id ≡ primary_lookup
unfolding plan_select
index_on_id = refl

eleven : (row_word 11 ≡ many) × (row_word 21 ≡ one) × (row_word 22 ≡ few)
unfolding row_word
eleven = (refl, refl, refl)

abbrev database : Database memory_store
database = record {
  table_name = codes "items";
  id_name = codes "id";
  value_name = codes "value";
  tree = state;
  wal = [];
  indexes = [];
}

three_values :
    execute_insert memory_store 3 (record by_id { values = pos 1 ∷ pos 2 ∷ pos 3 ∷ [] }) database
    ≡ (throw expected_two_values, database)
unfolding execute_insert
three_values = refl

open_rows-insert_each_example :
    (db' : Database memory_store) × (insert_each memory_store 6
        ((pos 5, pos 50) ∷ (pos 6, pos 60) ∷ [])
        database
      ≡ (ok tt, db'))
    × StartsWith memory_store 6 (pos 5) (some (pos 50)) db'.wal pages 4
    × StartsWith memory_store 6
        (pos 5)
        (some (pos 50))
        db'.wal
        (memory_store.view db'.tree.pm)
        (memory_store.page_count db'.tree.pm)
open_rows-insert_each_example =
    open_rows-insert_each memory_store 6 1 two_leaves ((pos 5, pos 50) ∷ (pos 6, pos 60) ∷ [])
      database (pos 5) two_leaves-IsTree refl refl (omega arith) (omega arith)
      ((omega arith, omega arith), ((omega arith, omega arith), tt))

open_rows-checkpoint_example :
    (db' : Database memory_store) × (insert_each memory_store 6
        ((pos 5, pos 50) ∷ (pos 6, pos 60) ∷ [])
        database
      ≡ (ok tt, db'))
    × (let (o, db'') = checkpoint memory_store db' in
        (o ≡ ok tt
          → (db''.wal ≡ [])
            × StartsWith memory_store 6
                (pos 5)
                (some (pos 50))
                db''.wal
                (memory_store.disk db''.tree.pm)
                (memory_store.page_count db''.tree.pm))
        × ((e : ChangeError)
            → o ≡ throw e
            → (replay db''.wal ≡ (pos 5, pos 50) ∷ (pos 6, pos 60) ∷ [])
              × StartsWith memory_store 6 (pos 5) (some (pos 50)) db''.wal pages 4))
open_rows-checkpoint_example =
    open_rows-checkpoint memory_store 6 1 two_leaves ((pos 5, pos 50) ∷ (pos 6, pos 60) ∷ [])
      database (pos 5) two_leaves-IsTree refl refl (omega arith) (omega arith)
      ((omega arith, omega arith), ((omega arith, omega arith), tt))

execute_select-run_full_scan_example :
    let t = bytes_eq (codes "items") (codes "items") in
    ((t ≡ false)
      × (execute_select memory_store 2 by_id database ≡ (ok (throw unknown_table), database)))
    ⊎ ((t ≡ true)
        × (((false ≡ true)
              × (execute_select memory_store 2 by_id database
                  ≡ (ok (ok (explained (plan_select (codes "id") false by_id))), database)))
            ⊎ ((false ≡ false) × SelectsAll memory_store 2 by_id database)))
execute_select-run_full_scan_example =
    execute_select-run_full_scan memory_store 2 1 two_leaves by_id database represents (omega arith)
      (omega arith) refl

explain_test :
    execute_select memory_store 2 (record by_id { is_explain = true }) database
    ≡ (ok (ok (explained primary_lookup)), database)
unfolding execute_select
explain_test = refl

unknown_table_test :
    execute_select memory_store 2 (record by_id { table = codes "things" }) database
    ≡ (ok (throw unknown_table), database)
unfolding execute_select
unknown_table_test = refl
