-- ===== src/Db/Database/Selecting.antt =====
-- `execute_select` of demo-db/src/database.cpp: the checks, the columns and the choice of the plan. What
-- it prints is its result; the output before an exception is left out.
use c_book.Prelude.{
  ℕ, not, ◌&&◌, List, [], ◌∷◌, Option, none, some, Outcome, ok, throw, codes, bytes_eq,
  if◌then◌else◌, Bool, true, false,
}
use c_book.Prelude.Int.{ℤ}
use c_book.Prelude.Tables.{find_key, assign}
use c_book.Db.Sql.Parser.{Statement}
use c_book.Db.PageStore.{PageStore}
use c_book.Db.BTree.{TreeError, Exec}
use c_book.Db.Database.{
  DbError, unknown_table, Plan, plan_select, run_full_scan, run_primary_eq, run_secondary,
}
use c_book.Db.Database.Changes.{SecondaryIndex, Database}

-- The line that EXPLAIN prints, or the header and the rows.
pub data Selected : Type 0 where
  explained : Plan → Selected
  selected : List (List ℕ) → List (List ℤ) → Selected

abbrev pub report : List (List ℕ) → Outcome DbError (List (List ℤ)) → Outcome DbError Selected
report cols (throw e) = throw e
report cols (ok rows) = ok (selected cols rows)

abbrev pub is_star : List (List ℕ) → Bool
is_star [] = false
is_star (c ∷ []) = bytes_eq c (codes "*")
is_star (c ∷ d ∷ cs) = false

abbrev pub has_index : {A : Type 0} → Option A → Bool
has_index none = false
has_index (some i) = true

module _ (P : PageStore) where
  abbrev pub columns : Statement → Database P → List (List ℕ)
  columns st db =
      if is_star st.select_columns then db.id_name ∷ db.value_name ∷ [] else st.select_columns

  abbrev pub Select : Type 0
  Select = Database P → Outcome TreeError (Outcome DbError Selected) × Database P

  -- A plan over the tree of the table.
  abbrev pub on_table : List (List ℕ) → Exec P (Outcome DbError (List (List ℤ))) → Select
  on_table cols plan db =
      let (o, t) = plan db.tree in
      (elim o [ throw e ↦ throw e | ok out ↦ ok (report cols out) ], record db { tree = t })

  -- `run_secondary` with an index of the table.
  abbrev pub on_index : ℕ → List (List ℕ) → Statement → SecondaryIndex P → Select
  on_index fuel cols st idx db =
      let (o, (t, i)) = run_secondary P P fuel db.id_name st cols (db.tree, idx.tree) in
      (
        elim o [ throw e ↦ throw e | ok rows ↦ ok (ok (selected cols rows)) ],
        record db { tree = t; indexes = assign st.where_col (record idx { tree = i }) db.indexes },
      )

  -- Behind the header.
  abbrev pub run_select : ℕ → List (List ℕ) → Statement → Option (SecondaryIndex P) → Select
  run_select fuel cols st index db =
      if not st.has_where
      then on_table cols (run_full_scan P fuel db.id_name st cols) db
      else if bytes_eq st.where_col db.id_name && bytes_eq st.where_op (codes "=")
      then on_table cols (run_primary_eq P fuel db.id_name st cols) db
      else (elim index [
        | some idx ↦ on_index fuel cols st idx db
        | none ↦ on_table cols (run_full_scan P fuel db.id_name st cols) db
      ])

  unfoldable pub execute_select : ℕ → Statement → Select
  unfolding plan_select run_full_scan run_primary_eq run_secondary bytes_eq
  execute_select fuel st db =
      let index = find_key st.where_col db.indexes in
      if not (bytes_eq st.table db.table_name)
      then (ok (throw unknown_table), db)
      else if st.is_explain
      then (ok (ok (explained (plan_select db.id_name (has_index index) st))), db)
      else run_select fuel (columns st db) st index db
