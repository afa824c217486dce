-- ===== src/Db/Database.antt =====
-- demo-db/include/database.h and demo-db/src/database.cpp: which rows a SELECT on the primary tree
-- gives, and by which plan. A row of the output is the list of its cells; the layout of the text and
-- the header line are left out. SELECT as a whole is in Database/Selecting, what changes the rows in
-- Database/Changes.
pub mod Plans
pub mod Changes
pub mod Selecting
pub mod Inserting
pub mod Recovery
pub mod Checkpoint
mod Tests
use c_book.Prelude.{
  ℕ, Bool, true, false, not, ◌&&◌, ◌||◌, List, [], ◌∷◌, map, Option, none, some, Outcome, ok, throw,
  codes, bytes_eq, ◌%◌, ◌==◌, leb, ltb, if◌then◌else◌,
}
use c_book.Prelude.Int.{ℤ, ltb_ℤ}
use c_book.Db.Wal.{Row}
use c_book.Db.Sql.Parser.{Statement}
use c_book.Db.PageStore.{PageStore}
use c_book.Db.BTree.{BPlusTree, TreeError, Exec, ◌>>=◌, return, scan, find, find_all}
use c_book.Db.BTree.Search.{eqb_ℤ}

pub data DbError : Type 0 where
  unknown_operator unknown_table : DbError

-- The name of the first column decides; any other name stands for the second.
pub matches_where : List ℕ → Statement → ℤ → ℤ → Outcome DbError Bool
unfolding bytes_eq
matches_where id_name st id value =
    let left = if bytes_eq st.where_col id_name then id else value in
    let r = st.where_val in
    if not st.has_where
    then ok true
    else if bytes_eq st.where_op (codes "=")
    then ok (eqb_ℤ left r)
    else if bytes_eq st.where_op (codes "!=")
    then ok (not (eqb_ℤ left r))
    else if bytes_eq st.where_op (codes "<")
    then ok (ltb_ℤ left r)
    else if bytes_eq st.where_op (codes "<=")
    then ok (not (ltb_ℤ r left))
    else if bytes_eq st.where_op (codes ">")
    then ok (ltb_ℤ r left)
    else if bytes_eq st.where_op (codes ">=")
    then ok (not (ltb_ℤ left r))
    else throw unknown_operator

-- The cells of a row, in the columns that are asked for.
pub cells : List ℕ → List (List ℕ) → ℤ → ℤ → List ℤ
unfolding bytes_eq
cells id_name cols id value = map (λ c. if bytes_eq c id_name then id else value) cols

-- The callback of `run_full_scan` over the rows of the scan.
pub select_rows : List ℕ → Statement → List (List ℕ) → List Row → Outcome DbError (List (List ℤ))
unfolding matches_where cells
select_rows id_name st cols [] = ok []
select_rows id_name st cols ((id, value) ∷ rows) =
    let rest = select_rows id_name st cols rows in
    elim (matches_where id_name st id value) [
      | throw e ↦ throw e
      | ok false ↦ rest
      | ok true ↦ elim rest [ throw e ↦ throw e | ok out ↦ ok (cells id_name cols id value ∷ out) ]
    ]

-- The one row of `run_primary_eq`, or none.
pub primary_rows : List ℕ → Statement → List (List ℕ) → Option ℤ → List (List ℤ)
unfolding cells
primary_rows id_name st cols none = []
primary_rows id_name st cols (some v) = cells id_name cols st.where_val v ∷ []

module _ (P : PageStore) where
  pub run_full_scan :
      ℕ → List ℕ → Statement → List (List ℕ) → Exec P (Outcome DbError (List (List ℤ)))
  unfolding select_rows
  run_full_scan fuel id_name st cols =
      scan P fuel >>= λ rows. return (select_rows id_name st cols rows)

  pub run_primary_eq :
      ℕ → List ℕ → Statement → List (List ℕ) → Exec P (Outcome DbError (List (List ℤ)))
  unfolding primary_rows
  run_primary_eq fuel id_name st cols =
      find P fuel st.where_val >>= λ v. return (ok (primary_rows id_name st cols v))

-- The test of `run_secondary` on the keys of an index, for every operator but `=`.
pub key_matches : Statement → ℤ → Bool
unfolding bytes_eq
key_matches st key =
    let r = st.where_val in
    bytes_eq st.where_op (codes "<") && ltb_ℤ key r
    || bytes_eq st.where_op (codes "<=") && not (ltb_ℤ r key)
    || bytes_eq st.where_op (codes ">") && ltb_ℤ r key
    || bytes_eq st.where_op (codes ">=") && not (ltb_ℤ key r)
    || bytes_eq st.where_op (codes "!=") && not (eqb_ℤ key r)

pub matching_ids : Statement → List Row → List ℤ
unfolding key_matches
matching_ids st [] = []
matching_ids st ((key, row_id) ∷ rows) =
    let rest = matching_ids st rows in if key_matches st key then row_id ∷ rest else rest

-- `emit` for one row id after another. It reads the table only, and what calls it the index only, so
-- the ids stand in a list.
pub emit_rows : (P : PageStore) → ℕ → List ℕ → List (List ℕ) → List ℤ → Exec P (List (List ℤ))
unfolding cells
emit_rows P fuel id_name cols [] = return []
emit_rows P fuel id_name cols (row_id ∷ ids) = do
  found ← find P fuel row_id
  out ← emit_rows P fuel id_name cols ids
  return (elim found [ none ↦ out | some v ↦ cells id_name cols row_id v ∷ out ])

-- The row ids that an index gives for a condition.
pub index_ids : (Q : PageStore) → ℕ → Statement → Exec Q (List ℤ)
unfolding matching_ids bytes_eq
index_ids Q fuel st =
    if bytes_eq st.where_op (codes "=")
    then find_all Q fuel st.where_val
    else scan Q fuel >>= λ rows. return (matching_ids st rows)

-- Over the trees of the table and of the index; an exception of either ends it.
pub run_secondary :
    (P Q : PageStore)
    → ℕ
    → List ℕ
    → Statement
    → List (List ℕ)
    → BPlusTree P × BPlusTree Q
    → Outcome TreeError (List (List ℤ)) × (BPlusTree P × BPlusTree Q)
unfolding index_ids emit_rows
run_secondary P Q fuel id_name st cols (t, idx) =
    let (ids, idx') = index_ids Q fuel st idx in
    elim ids [
      | throw e ↦ (throw e, (t, idx'))
      | ok l ↦ let (out, t') = emit_rows P fuel id_name cols l t in (out, (t', idx'))
    ]

-- The plan that EXPLAIN prints, without its text. `indexed` is whether the column has an index.
pub data Plan : Type 0 where
  full_scan primary_lookup secondary_lookup secondary_scan full_scan_with_filter : Plan

pub plan_select : List ℕ → Bool → Statement → Plan
unfolding bytes_eq
plan_select id_name indexed st =
    if not st.has_where
    then full_scan
    else if bytes_eq st.where_col id_name && bytes_eq st.where_op (codes "=")
    then primary_lookup
    else if indexed
    then if bytes_eq st.where_op (codes "=") then secondary_lookup else secondary_scan
    else full_scan_with_filter

-- The form of the word behind the number of rows: строка, строки, строк.
pub data RowWord : Type 0 where
  one few many : RowWord

pub row_word : ℕ → RowWord
row_word rows =
    let last_two = rows % 100 in
    let last = rows % 10 in
    if last == 1 && not (last_two == 11)
    then one
    else if leb 2 last && leb last 4 && (ltb last_two 12 || ltb 14 last_two)
    then few
    else many
