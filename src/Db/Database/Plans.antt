-- ===== src/Db/Database/Plans.antt =====
-- The plans of demo-db/src/database.cpp give the rows of a full scan.
use c_book.Prelude.{
  ◌⊎◌, not, ◌&&◌, ℕ, zero, suc, ◌<◌, ◌≤◌, ◌≡◌, refl, sym, ap, ap₂, throw, ◌∙◌, subst, Bool, true,
  false, List, [], ◌∷◌, ◌++◌, append-nil, Option, none, some, Outcome, ok, codes, bytes_eq, All,
  All-append, All-map, arith, if◌then◌else◌, inl, inr, Bool-cases,
}
use c_book.Prelude.Int.{eq_of_parts, ℤ, ◌<ℤ◌}
use c_book.Db.Wal.{Row}
use c_book.Db.Sql.Parser.{Statement}
use c_book.Db.PageStore.{PageStore}
use c_book.Db.BTree.{Exec, BPlusTree, scan, find}
use c_book.Db.BTree.Search.{eqb_ℤ}
use c_book.Db.BTree.Shape.{
  Tree, rows_in, behind, value_at, AreRising, IsBelow, Chained, IsOrdered, leaves_in,
}
use c_book.Db.BTree.Lookup.{IsBelow-trans, AreWithin, Chained-within, ordered-within}
use c_book.Db.BTree.Reading.{Returns, Same-refl, continued}
use c_book.Db.BTree.Finding.{Represents, find-value_at}
use c_book.Db.BTree.Scanning.{scan-rows_in}
use c_book.Db.Database.{
  DbError, matches_where, cells, select_rows, primary_rows, run_full_scan, run_primary_eq,
  unknown_table, plan_select,
}
use c_book.Prelude.Tables.{find_key}
use c_book.Db.BTree.Reading.{Same}
use c_book.Db.Database.Changes.{Database}
use c_book.Db.Database.Selecting.{explained, report, columns, on_table, run_select, execute_select}

-- Rising rows below a key, and rising rows from it on.
AreRising-append :
    (k : ℤ) (hi : Option ℤ) (xs ys : List Row)
    → IsBelow hi k
    → AreRising (some k) xs
    → AreRising hi ys
    → AreWithin (some k) hi ys
    → AreRising hi (xs ++ ys)
AreRising-append k hi [] ys b r q w = q
AreRising-append k hi ((x, v) ∷ xs) ys b (l, below, r) q w = (
  All-append (λ r. x <ℤ r.0) xs ys l (All-map (λ r p. omega (arith, p.0, below)) ys w),
  IsBelow-trans hi k x b below,
  AreRising-append k hi xs ys b r q w,
)

module _ {T : Type 0} (rows : T → List Row) (Q : Option ℤ → Option ℤ → T → Type 0)
    (within : (lo hi : Option ℤ) (t : T) → Q lo hi t → AreWithin lo hi (rows t))
    (rising : (lo hi : Option ℤ) (t : T) → Q lo hi t → AreRising hi (rows t)) where
  Chained-AreRising :
      (lo hi : Option ℤ) (t : T) (cs : List (ℤ × T))
      → Chained Q lo hi t cs
      → AreRising hi (rows t ++ behind rows cs)
  Chained-AreRising lo hi t [] h =
      subst (AreRising hi) (sym (append-nil (rows t))) (rising lo hi t h)
  Chained-AreRising lo hi t ((k, u) ∷ cs) (p, a, b, c) =
      AreRising-append k hi (rows t) (rows u ++ behind rows cs) b (rising lo (some k) t p)
        (Chained-AreRising (some k) hi u cs c) (Chained-within rows Q within (some k) hi u cs c)

-- The keys of an ordered tree rise from leaf to leaf.
pub ordered-AreRising :
    (lo hi : Option ℤ) (h : ℕ) (t : Tree h) → IsOrdered lo hi h t → AreRising hi (rows_in h t)
ordered-AreRising lo hi zero t o = o.0
ordered-AreRising lo hi (suc h) (page, (first, rest)) o =
    Chained-AreRising (rows_in h) (λ l u t. IsOrdered l u h t) (λ l u t. ordered-within l u h t)
      (λ l u t. ordered-AreRising l u h t) lo hi first rest o

-- A condition on the first column with `=`.
pub record IsLookup (id_name : List ℕ) (st : Statement) : Type 0 where
  pub has : st.has_where ≡ true
  pub column : bytes_eq st.where_col id_name ≡ true
  pub operator : bytes_eq st.where_op (codes "=") ≡ true

matches_where-IsLookup :
    (id_name : List ℕ) (st : Statement) (id value : ℤ)
    → IsLookup id_name st
    → matches_where id_name st id value ≡ ok (eqb_ℤ id st.where_val)
unfolding matches_where
matches_where-IsLookup id_name st id value l = rw (matches_where, l.has, l.column, l.operator) refl

select_rows-absent :
    (id_name : List ℕ) (st : Statement) (cols : List (List ℕ)) (k : ℤ) (rows : List Row)
    → IsLookup id_name st
    → All (λ r. k <ℤ r.0) rows
    → eqb_ℤ k st.where_val ≡ true
    → select_rows id_name st cols rows ≡ ok []
unfolding select_rows
select_rows-absent id_name st cols k [] l h e = refl
select_rows-absent id_name st cols k ((x, v) ∷ rows) l h e =
    let no_match : matches_where id_name st x v ≡ ok false =
      matches_where-IsLookup id_name st x v l ∙ ap ok (ground arith) in
    rw (select_rows, no_match) (select_rows-absent id_name st cols k rows l h.1 e)

select_rows-primary_rows :
    (hi : Option ℤ) (id_name : List ℕ) (st : Statement) (cols : List (List ℕ)) (rows : List Row)
    → IsLookup id_name st
    → AreRising hi rows
    → select_rows id_name st cols rows
      ≡ ok (primary_rows id_name st cols (value_at st.where_val rows))
unfolding select_rows primary_rows
select_rows-primary_rows hi id_name st cols [] l r = refl
select_rows-primary_rows hi id_name st cols ((x, v) ∷ rows) l (above, b, r) =
    elim (Bool-cases (eqb_ℤ x st.where_val)) [
      | inl same ↦
          ap₂ step (matches_where-IsLookup id_name st x v l ∙ ap ok same)
            (select_rows-absent id_name st cols x rows l above same)
          ∙ ap (λ k. ok (cells id_name cols k v ∷ [])) (eq_of_parts x st.where_val (ground arith))
          ∙ ap given (sym same)
      | inr other ↦
          ap₂ step (matches_where-IsLookup id_name st x v l ∙ ap ok other) refl
          ∙ select_rows-primary_rows hi id_name st cols rows l r
          ∙ ap given (sym other)
    ]
  where
    step : Outcome DbError Bool → Outcome DbError (List (List ℤ)) → Outcome DbError (List (List ℤ))
    step m rest = elim m [
      | throw e ↦ throw e
      | ok false ↦ rest
      | ok true ↦ elim rest [ throw e ↦ throw e | ok out ↦ ok (cells id_name cols x v ∷ out) ]
    ]

    given : Bool → Outcome DbError (List (List ℤ))
    given found =
        ok (primary_rows id_name st cols (if found then some v else value_at st.where_val rows))

module _ (P : PageStore) (fuel h : ℕ) (u : Tree h) (t : BPlusTree P) (id_name : List ℕ)
    (st : Statement) (cols : List (List ℕ)) (r : Represents P t h u) (enough : h < fuel)
    (chain : leaves_in h u ≤ fuel) where
  -- What a plan and the full scan both give.
  abbrev Agrees : Exec P (Outcome DbError (List (List ℤ))) → Type 0
  Agrees plan =
      (out : Outcome DbError (List (List ℤ))) × Returns P plan out t
      × Returns P (run_full_scan P fuel id_name st cols) out t

  run_full_scan-Returns :
      Returns P (run_full_scan P fuel id_name st cols) (select_rows id_name st cols (rows_in h u)) t
  unfolding run_full_scan
  run_full_scan-Returns =
      continued P (scan P fuel) _ (rows_in h u) _ t (scan-rows_in P fuel h u t r enough chain)
        (λ t' s. (t', refl, Same-refl P t' s.ready))

  scan-Agrees : Agrees (run_full_scan P fuel id_name st cols)
  scan-Agrees =
      (select_rows id_name st cols (rows_in h u), run_full_scan-Returns, run_full_scan-Returns)

  lookup-Agrees : IsLookup id_name st → Agrees (run_primary_eq P fuel id_name st cols)
  unfolding run_primary_eq
  lookup-Agrees l =
      let same =
        select_rows-primary_rows none id_name st cols (rows_in h u) l
          (ordered-AreRising none none h u r.ordered) in
      (
        ok (primary_rows id_name st cols (value_at st.where_val (rows_in h u))),
        continued P (find P fuel st.where_val) _ (value_at st.where_val (rows_in h u)) _ t
            (find-value_at P fuel h u st.where_val t r enough)
            (λ t' s. (t', refl, Same-refl P t' s.ready)),
        subst (λ out. Returns P (run_full_scan P fuel id_name st cols) out t) same
            run_full_scan-Returns,
      )

  abbrev chosen : Bool → Bool → Bool → Exec P (Outcome DbError (List (List ℤ)))
  chosen has column operator =
      if not has
      then run_full_scan P fuel id_name st cols
      else if column && operator
      then run_primary_eq P fuel id_name st cols
      else run_full_scan P fuel id_name st cols

  plan-Agrees :
      (has column operator : Bool)
      → st.has_where ≡ has
      → bytes_eq st.where_col id_name ≡ column
      → bytes_eq st.where_op (codes "=") ≡ operator
      → Agrees (chosen has column operator)
  plan-Agrees false column operator a b c = scan-Agrees
  plan-Agrees true false operator a b c = scan-Agrees
  plan-Agrees true true false a b c = scan-Agrees
  plan-Agrees true true true a b c = lookup-Agrees (record { has = a; column = b; operator = c })

module _ (P : PageStore) (fuel : ℕ) (st : Statement) (db : Database P) where
  -- The rows of a SELECT, which are those of a full scan, and the database after it.
  pub record SelectsAll : Type 0 where
    pub out : Outcome DbError (List (List ℤ))
    pub tree : BPlusTree P
    pub selects :
        execute_select P fuel st db ≡ (ok (report (columns P st db) out), record db { tree = tree })
    pub same : Same P db.tree tree
    pub scans : Returns P (run_full_scan P fuel db.id_name st (columns P st db)) out db.tree

  -- Without an index, one of two plans over the tree of the table runs.
  run_select-chosen :
      (cols : List (List ℕ)) (h : ℕ) (u : Tree h) (has column operator : Bool)
      → st.has_where ≡ has
      → bytes_eq st.where_col db.id_name ≡ column
      → bytes_eq st.where_op (codes "=") ≡ operator
      → (r : Represents P db.tree h u) (enough : h < fuel) (chain : leaves_in h u ≤ fuel)
      → run_select P fuel cols st none db
        ≡ on_table P cols
            (chosen P fuel h u db.tree db.id_name st cols r enough chain has column operator)
            db
  run_select-chosen cols h u false column operator a b c r enough chain = rw a refl
  run_select-chosen cols h u true false operator a b c r enough chain = rw (a, b) refl
  run_select-chosen cols h u true true false a b c r enough chain = rw (a, b, c) refl
  run_select-chosen cols h u true true true a b c r enough chain = rw (a, b, c) refl

  execute_select-foreign :
      bytes_eq st.table db.table_name ≡ false
      → execute_select P fuel st db ≡ (ok (throw unknown_table), db)
  unfolding execute_select
  execute_select-foreign e = rw e

  execute_select-explain :
      bytes_eq st.table db.table_name ≡ true
      → st.is_explain ≡ true
      → find_key st.where_col db.indexes ≡ none
      → execute_select P fuel st db ≡ (ok (ok (explained (plan_select db.id_name false st))), db)
  unfolding execute_select
  execute_select-explain e x i = rw (e, x, i) refl

  execute_select-runs :
      bytes_eq st.table db.table_name ≡ true
      → st.is_explain ≡ false
      → find_key st.where_col db.indexes ≡ none
      → execute_select P fuel st db ≡ run_select P fuel (columns P st db) st none db
  unfolding execute_select
  execute_select-runs e x i = rw (e, x, i) refl

  runs-SelectsAll :
      (h : ℕ) (u : Tree h)
      → Represents P db.tree h u
      → h < fuel
      → leaves_in h u ≤ fuel
      → execute_select P fuel st db ≡ run_select P fuel (columns P st db) st none db
      → SelectsAll
  runs-SelectsAll h u r enough chain runs =
      let cols = columns P st db in
      let (out, (t', e, same), scans) =
        plan-Agrees P fuel h u db.tree db.id_name st cols r enough chain st.has_where
          (bytes_eq st.where_col db.id_name) (bytes_eq st.where_op (codes "=")) refl refl refl in
      record {
        out = out;
        tree = t';
        selects =
            runs
            ∙ run_select-chosen cols h u st.has_where (bytes_eq st.where_col db.id_name)
                (bytes_eq st.where_op (codes "=")) refl refl refl r enough chain
            ∙ ap
                (λ p. (
                  elim p.0 [ throw x ↦ throw x | ok y ↦ ok (report cols y) ],
                  record db { tree = p.1 },
                ))
                e;
        same = same;
        scans = scans;
      }

-- What a SELECT does on a tree that represents an ordered tree, with fuel enough, where no index is on
-- the column of its condition. For another table it throws. With EXPLAIN it gives the plan and changes
-- nothing. Otherwise it returns, also where it only looks a key up, and gives what a scan of the whole
-- table with that condition gives, an unknown operator included; the scan returns as well, and the
-- pages stay.
pub execute_select-run_full_scan :
    (P : PageStore) (fuel h : ℕ) (u : Tree h) (st : Statement) (db : Database P)
    → Represents P db.tree h u
    → h < fuel
    → leaves_in h u ≤ fuel
    → find_key st.where_col db.indexes ≡ none
    → ((bytes_eq st.table db.table_name ≡ false)
        × (execute_select P fuel st db ≡ (ok (throw unknown_table), db)))
      ⊎ ((bytes_eq st.table db.table_name ≡ true)
          × (((st.is_explain ≡ true)
                × (execute_select P fuel st db
                    ≡ (ok (ok (explained (plan_select db.id_name false st))), db)))
              ⊎ ((st.is_explain ≡ false) × SelectsAll P fuel st db)))
execute_select-run_full_scan P fuel h u st db r enough chain bare =
    elim (Bool-cases (bytes_eq st.table db.table_name)) [
      | inr foreign ↦ inl (foreign, execute_select-foreign P fuel st db foreign)
      | inl here ↦ inr (
        here,
        elim (Bool-cases st.is_explain) [
          | inl explain ↦ inl (explain, execute_select-explain P fuel st db here explain bare)
          | inr plain ↦ inr (
            plain,
            runs-SelectsAll P fuel st db h u r enough chain
                (execute_select-runs P fuel st db here plain bare),
          )
        ],
      )
    ]
