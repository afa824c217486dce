-- ===== src/Db/Database/Changes.antt =====
-- The INSERT of demo-db/src/database.cpp, and what its constructor does with the tree and the log of
-- the table. Each row goes to a log before it goes to a tree. The map of the indexes is a list, in the
-- order in which the loop goes through it. A truncation of a log that fails is left out.
use c_book.Prelude.{ℕ, not, List, [], ◌∷◌, Outcome, ok, throw, bytes_eq, if◌then◌else◌}
use c_book.Prelude.Int.{ℤ}
use c_book.Prelude.Tables.{Table}
use c_book.Db.Wal.{Row, log_insert, replay, truncate}
use c_book.Db.Sql.Parser.{Statement}
use c_book.Db.PageStore.{PageStore}
use c_book.Db.BTree.{BPlusTree, TreeError, Exec, ◌>>=◌, call, return, open_tree}
use c_book.Db.BTree.Insertion.{insert, insert_dup}

-- An index: its tree and its log.
pub record SecondaryIndex (P : PageStore) : Type 0 where
  pub tree : BPlusTree P
  pub wal : List ℕ

-- The members but for the directory and the names of the indexes. The names of the two columns are
-- `id_name` and `value_name`.
pub record Database (P : PageStore) : Type 0 where
  pub table_name : List ℕ
  pub id_name : List ℕ
  pub value_name : List ℕ
  pub tree : BPlusTree P
  pub wal : List ℕ
  pub indexes : Table (SecondaryIndex P)

pub data ChangeError : Type 0 where
  unknown_table expected_two_values : ChangeError
  tree_error : TreeError → ChangeError

module _ (P : PageStore) where
  -- The loop over the indexes: the log first, then the tree.
  unfoldable pub update_indexes :
      ℕ
      → List ℕ
      → ℤ
      → ℤ
      → Table (SecondaryIndex P)
      → Outcome ChangeError Unit × Table (SecondaryIndex P)
  unfolding bytes_eq
  update_indexes fuel id_name id value [] = (ok tt, [])
  update_indexes fuel id_name id value ((col, idx) ∷ rest) =
      let key = if bytes_eq col id_name then id else value in
      let (o, t) = insert_dup P fuel key id idx.tree in
      let idx' : SecondaryIndex P = record { tree = t; wal = log_insert idx.wal key id } in
      elim o [
        | throw e ↦ (throw (tree_error e), (col, idx') ∷ rest)
        | ok u ↦
            let (o', rest') = update_indexes fuel id_name id value rest in (o', (col, idx') ∷ rest')
      ]

  unfoldable pub insert_values : ℕ → ℤ → ℤ → Database P → Outcome ChangeError Unit × Database P
  unfolding insert update_indexes
  insert_values fuel id value db =
      let wal = log_insert db.wal id value in
      let (o, t) = insert P fuel id value db.tree in
      elim o [
        | throw e ↦ (throw (tree_error e), record db { wal = wal; tree = t })
        | ok u ↦
            let (o', indexes) = update_indexes fuel db.id_name id value db.indexes in
            (o', record db { wal = wal; tree = t; indexes = indexes })
      ]

  unfoldable pub execute_insert : ℕ → Statement → Database P → Outcome ChangeError Unit × Database P
  unfolding bytes_eq insert_values
  execute_insert fuel st db =
      if not (bytes_eq st.table db.table_name) then (throw unknown_table, db) else (elim st.values [
        | [] ↦ (throw expected_two_values, db)
        | id ∷ more ↦ elim more [
          | [] ↦ (throw expected_two_values, db)
          | value ∷ more' ↦ elim more' [
            | [] ↦ insert_values fuel id value db
            | x ∷ xs ↦ (throw expected_two_values, db)
          ]
        ]
      ])

  -- The callback of the replay, for one row after another.
  unfoldable pub insert_rows : ℕ → List Row → Exec P Unit
  unfolding insert
  insert_rows fuel [] = return tt
  insert_rows fuel ((k, v) ∷ rows) = insert P fuel k v >>= λ u. insert_rows fuel rows

  -- The tree and the log of the table in the constructor.
  unfoldable pub open_rows : ℕ → List ℕ → P.State → Outcome TreeError Unit × BPlusTree P
  unfolding insert_rows
  open_rows fuel wal s =
      let (o, t) = open_tree P s in
      elim o [ throw e ↦ (throw e, t) | ok u ↦ insert_rows fuel (replay wal) t ]

  -- The loop over the indexes.
  unfoldable pub checkpoint_indexes :
      Table (SecondaryIndex P) → Outcome ChangeError Unit × Table (SecondaryIndex P)
  unfolding truncate
  checkpoint_indexes [] = (ok tt, [])
  checkpoint_indexes ((col, idx) ∷ rest) =
      let (o, t) = call P P.sync idx.tree in
      elim o [
        | throw e ↦ (throw (tree_error e), (col, record idx { tree = t }) ∷ rest)
        | ok u ↦
            let (o', rest') = checkpoint_indexes rest in
            (o', (col, record idx { tree = t; wal = truncate idx.wal }) ∷ rest')
      ]

  -- What follows the first `sync`.
  unfoldable pub after_sync :
      Outcome TreeError Unit → Database P → Outcome ChangeError Unit × Database P
  unfolding truncate checkpoint_indexes
  after_sync (throw e) db = (throw (tree_error e), db)
  after_sync (ok u) db =
      let (o, indexes) = checkpoint_indexes db.indexes in
      (o, record db { wal = truncate db.wal; indexes = indexes })

  unfoldable pub checkpoint : Database P → Outcome ChangeError Unit × Database P
  unfolding after_sync
  checkpoint db = let (o, t) = call P P.sync db.tree in after_sync o (record db { tree = t })
