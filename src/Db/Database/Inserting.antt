-- ===== src/Db/Database/Inserting.antt =====
-- INSERTs of demo-db/src/database.cpp one after another, and what its constructor makes of the log of
-- these: the rows that both leave in the tree.
use c_book.Prelude.{
  ℕ, ◌+◌, ◌^◌, ◌<◌, ◌≤◌, ◌≡◌, ◌⊎◌, refl, ap, ◌∙◌, sym, subst, true, List, [], ◌∷◌, ◌++◌, append-nil,
  none, some, Outcome, ok, throw, All, length, arith, Bool-cases, inl, inr,
}
use c_book.Prelude.Int.{ℤ}
use c_book.Db.Wal.{Row, log_insert, replay}
use c_book.Db.Wal.Records.{IsInt64}
use c_book.Db.Wal.Replay.{log_all, replay-log_all}
use c_book.Db.PageStore.{PageStore}
use c_book.Db.Database.Changes.{
  Database, ChangeError, tree_error, update_indexes, insert_values, insert_rows, open_rows,
}
use c_book.Db.BTree.Search.{eqb_ℤ}
use c_book.Db.BTree.Shape.{Tree, page_of, rows_in, value_at}
use c_book.Db.BTree.Insertion.{insert}
use c_book.Db.BTree.{BPlusTree, find, ◌>>=◌}
use c_book.Db.BTree.Reading.{Returns}
use c_book.Db.BTree.Finding.{find-value_at}
use c_book.Db.BTree.Inserting.Sound.{HasPage-bounds, page_of-HasPage}
use c_book.Db.BTree.Inserting.Rows.{put_row}
use c_book.Db.BTree.Inserting.Roots.{IsTree, IsTree-Represents, insert-put_row}
use c_book.Db.BTree.Inserting.Clients.{
  put_all, new_pages, new_pages_mono, insert_all, insert_all-put_all, value_at-put_row_ne,
}
use c_book.Db.BTree.Inserting.Reopening.{open_tree-IsTree}

value_at-put_row_same :
    (k v key : ℤ) (rows : List Row) → eqb_ℤ k key ≡ true → value_at key (put_row k v rows) ≡ some v
value_at-put_row_same k v key [] e = ground arith
value_at-put_row_same k v key ((j, w) ∷ rows) e =
    ground (arith, value_at-put_row_same k v key rows e)

-- What rows that are put in make of the value of a key: the same, whatever rows were there, or the value
-- that was there.
value_at-put_all :
    (key : ℤ) (news : List Row)
    → ((v : ℤ) × ((rows : List Row) → value_at key (put_all news rows) ≡ some v))
      ⊎ ((rows : List Row) → value_at key (put_all news rows) ≡ value_at key rows)
value_at-put_all key [] = inr (λ rows. refl)
value_at-put_all key ((k, v) ∷ news) = elim (value_at-put_all key news) [
  | inl (w, f) ↦ inl (w, λ rows. f (put_row k v rows))
  | inr g ↦ elim (Bool-cases (eqb_ℤ k key)) [
    | inl same ↦ inl (v, λ rows. g (put_row k v rows) ∙ value_at-put_row_same k v key rows same)
    | inr other ↦ inr (λ rows. g (put_row k v rows) ∙ value_at-put_row_ne k v key rows other)
  ]
]

-- Putting rows in a second time changes no value.
pub put_all-put_all :
    (key : ℤ) (news rows : List Row)
    → value_at key (put_all news (put_all news rows)) ≡ value_at key (put_all news rows)
put_all-put_all key news rows = elim (value_at-put_all key news) [
  | inl (v, f) ↦ f (put_all news rows) ∙ sym (f rows)
  | inr g ↦ g (put_all news rows)
]

pub replay-nil : replay [] ≡ []
unfolding replay
replay-nil = refl

pub replay-log_fresh :
    (news : List Row) (wal : List ℕ)
    → wal ≡ []
    → All (λ r. IsInt64 r.0 × IsInt64 r.1) news
    → replay (log_all wal news) ≡ news
replay-log_fresh news wal fresh ints =
    ap (λ w. replay (log_all w news)) fresh
    ∙ ap replay (sym (append-nil (log_all [] news)))
    ∙ replay-log_all news [] ints
    ∙ ap (λ l. news ++ l) replay-nil
    ∙ append-nil news

module _ (P : PageStore) where
  insert_rows-insert_all :
      (fuel : ℕ) (rows : List Row) → insert_rows P fuel rows ≡ insert_all P fuel rows
  unfolding insert_rows
  insert_rows-insert_all fuel [] = refl
  insert_rows-insert_all fuel ((k, v) ∷ rows) =
      ap (λ m. insert P fuel k v >>= λ u. m) (insert_rows-insert_all fuel rows)

  -- INSERTs, one for each row, up to the first exception.
  abbrev pub insert_each : ℕ → List Row → Database P → Outcome ChangeError Unit × Database P
  insert_each fuel [] db = (ok tt, db)
  insert_each fuel ((k, v) ∷ rows) db =
      let (o, db') = insert_values P fuel k v db in
      elim o [ throw e ↦ (throw e, db') | ok u ↦ insert_each fuel rows db' ]

  -- After INSERTs that returned.
  pub record Grew (h : ℕ) (u : Tree h) (news : List Row) (t t' : BPlusTree P) (h' : ℕ)
      (u' : Tree h') : Type 0 where
    pub tree : IsTree P t' h' u'
    pub rows : rows_in h' u' ≡ put_all news (rows_in h u)
    pub height : h' ≤ h + length news
    pub count : P.page_count t'.pm ≤ P.page_count t.pm + new_pages h news

  insert_values-insert :
      (fuel : ℕ) (k v : ℤ) (db : Database P) (t : BPlusTree P)
      → db.indexes ≡ []
      → insert P fuel k v db.tree ≡ (ok tt, t)
      → insert_values P fuel k v db
        ≡ (ok tt, record db { wal = log_insert db.wal k v; tree = t; indexes = [] })
  unfolding insert_values update_indexes
  insert_values-insert fuel k v db t bare e =
      ap
        (λ o. elim o.0 [
          | throw e ↦ (throw (tree_error e), record db { wal = log_insert db.wal k v; tree = o.1 })
          | ok u ↦
              let (o', indexes) = update_indexes P fuel db.id_name k v db.indexes in
              (o', record db { wal = log_insert db.wal k v; tree = o.1; indexes = indexes })
        ])
        e
      ∙ ap
          (λ i.
            let (o', indexes) = update_indexes P fuel db.id_name k v i in
            (o', record db { wal = log_insert db.wal k v; tree = t; indexes = indexes }))
          bare

  pub insert_each-put_all :
      (fuel h : ℕ) (u : Tree h) (news : List Row) (db : Database P)
      → IsTree P db.tree h u
      → db.indexes ≡ []
      → h + length news < fuel
      → P.page_count db.tree.pm + new_pages h news < 2 ^ 32
      → All (λ r. IsInt64 r.0 × IsInt64 r.1) news
      → (t' : BPlusTree P) × (h' : ℕ) × (u' : Tree h') × (insert_each fuel news db
          ≡ (ok tt, record db { wal = log_all db.wal news; tree = t'; indexes = [] }))
        × Grew h u news db.tree t' h' u'
  insert_each-put_all fuel h u [] db whole bare enough small ints = (
    db.tree,
    h,
    u,
    ap (λ i. (ok tt, record db { indexes = i })) bare,
    record { tree = whole; rows = refl; height = omega arith; count = omega arith },
  )
  insert_each-put_all fuel h u ((k, v) ∷ news) db whole bare enough small ((ik, iv), ints) =
      let (t1, h1, u1, e1, done) =
        insert-put_row P fuel h u k v db.tree whole (omega arith) (omega arith) ik iv in
      let wal = log_insert db.wal k v in
      let db1 : Database P = record db { wal = wal; tree = t1; indexes = [] } in
      let mono = new_pages_mono h1 (h + 1) news done.height in
      let (t2, h2, u2, e2, g) =
        insert_each-put_all fuel h1 u1 news db1 done.tree refl (omega (arith, done.height))
          (omega (arith, done.count, mono)) ints in
      (
        t2,
        h2,
        u2,
        ap (λ o. elim o.0 [ throw e ↦ (throw e, o.1) | ok u ↦ insert_each fuel news o.1 ])
              (insert_values-insert fuel k v db t1 bare e1)
            ∙ e2,
        record {
          tree = g.tree;
          rows = g.rows ∙ ap (put_all news) done.rows;
          height = omega (arith, g.height, done.height);
          count = omega (arith, g.count, done.count, mono);
        },
      )

  -- The constructor gives the rows of the log to the tree that the pages have.
  pub open_rows-put_all :
      (fuel h : ℕ) (u : Tree h) (news : List Row) (wal : List ℕ) (t : BPlusTree P)
      → IsTree P t h u
      → replay wal ≡ news
      → h + length news < fuel
      → P.page_count t.pm + new_pages h news < 2 ^ 32
      → All (λ r. IsInt64 r.0 × IsInt64 r.1) news
      → (key : ℤ)
      → (t' : BPlusTree P) × (open_rows P fuel wal t.pm ≡ (ok tt, t'))
        × ((rounds : ℕ) × Returns P
              (find P rounds key)
              (value_at key (put_all news (rows_in h u)))
              t')
  unfolding open_rows
  open_rows-put_all fuel h u news wal t whole logged enough small ints key =
      let page =
        HasPage-bounds (P.page_count t.pm) (P.view t.pm) h none none 0 u whole.sound (page_of h u)
          (page_of-HasPage h u) in
      let (t1, e1, whole1, count) = open_tree-IsTree P h u t whole (omega (arith, page.1)) in
      let (t2, h2, u2, e2, whole2, rows2) =
        insert_all-put_all P fuel h u news t1 whole1 enough (omega (arith, count)) ints in
      (
        t2,
        ap (λ o. elim o.0 [ throw e ↦ (throw e, o.1) | ok x ↦ insert_rows P fuel (replay wal) o.1 ])
              e1
            ∙ ap (λ l. insert_rows P fuel l t1) logged
            ∙ ap (λ m. m t1) (insert_rows-insert_all fuel news)
            ∙ e2,
        (
          h2 + 1,
          subst (λ l. Returns P (find P (h2 + 1) key) (value_at key l) t2) rows2
              (find-value_at P (h2 + 1) h2 u2 key t2 (IsTree-Represents P t2 h2 u2 whole2)
                (omega arith)),
        ),
      )
