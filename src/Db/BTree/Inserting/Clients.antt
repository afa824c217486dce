-- ===== src/Db/BTree/Inserting/Clients.antt =====
-- What a client of demo-db/src/btree.cpp sees of its insertions: in `find`, and in `scan` after many of
-- them.
use c_book.Prelude.{
  ℕ, ◌+◌, ◌^◌, ◌<◌, ◌≤◌, ◌≡◌, refl, ap, ◌∙◌, subst, false, List, [], ◌∷◌, some, ok, All, length,
  arith,
}
use c_book.Prelude.Int.{ℤ}
use c_book.Db.Wal.{Row}
use c_book.Db.Wal.Records.{IsInt64}
use c_book.Db.PageStore.{PageStore}
use c_book.Db.BTree.Search.{eqb_ℤ}
use c_book.Db.BTree.Shape.{Tree, Leaf, rows_in, value_at, leaves_in}
use c_book.Db.BTree.Insertion.{insert}
use c_book.Db.BTree.{BPlusTree, Exec, ◌>>◌, return, find, scan}
use c_book.Db.BTree.Reading.{Returns, proceed}
use c_book.Db.BTree.Finding.{Represents, find-value_at}
use c_book.Db.BTree.Scanning.{scan-rows_in}
use c_book.Db.BTree.Inserting.Rows.{put_row}
use c_book.Db.BTree.Inserting.Roots.{IsTree, IsTree-Represents, insert-put_row}

pub value_at-put_row :
    (key value : ℤ) (rows : List Row) → value_at key (put_row key value rows) ≡ some value
value_at-put_row key value [] = ground arith
value_at-put_row key value ((k, v) ∷ rows) = ground (arith, value_at-put_row key value rows)

pub value_at-put_row_ne :
    (key value other : ℤ) (rows : List Row)
    → eqb_ℤ key other ≡ false
    → value_at other (put_row key value rows) ≡ value_at other rows
value_at-put_row_ne key value other [] e = ground arith
value_at-put_row_ne key value other ((k, v) ∷ rows) e =
    ground (arith, value_at-put_row_ne key value other rows e)

-- After an insertion into a tree, `find` gives the value that was put under its key.
pub find-insert :
    (P : PageStore) (fuel h : ℕ) (u : Tree h) (key value : ℤ) (t : BPlusTree P)
    → IsTree P t h u
    → h + 1 < fuel
    → P.page_count t.pm + h + 2 < 2 ^ 32
    → IsInt64 key
    → IsInt64 value
    → (t' : BPlusTree P) × (insert P fuel key value t ≡ (ok tt, t'))
      × Returns P (find P fuel key) (some value) t'
find-insert P fuel h u key value t whole enough small ik iv =
    let (t', h', u', e, done) =
      insert-put_row P fuel h u key value t whole (omega arith) small ik iv in
    (
      t',
      e,
      subst (λ o. Returns P (find P fuel key) o t')
          (ap (value_at key) done.rows ∙ value_at-put_row key value (rows_in h u))
          (find-value_at P fuel h' u' key t' (IsTree-Represents P t' h' u' done.tree)
            (omega (arith, done.height))),
    )

-- The rows after many insertions, and the pages that these may take.
abbrev pub put_all : List Row → List Row → List Row
put_all [] rows = rows
put_all ((k, v) ∷ news) rows = put_all news (put_row k v rows)

abbrev pub new_pages : ℕ → List Row → ℕ
new_pages h [] = 0
new_pages h (r ∷ news) = h + 2 + new_pages (h + 1) news

pub new_pages_mono : (h h' : ℕ) (news : List Row) → h ≤ h' → new_pages h news ≤ new_pages h' news
new_pages_mono h h' [] le = omega arith
new_pages_mono h h' (r ∷ news) le =
    omega (arith, new_pages_mono (h + 1) (h' + 1) news (omega arith))

module _ (P : PageStore) where
  -- Calls of `insert`, one for each row.
  abbrev pub insert_all : ℕ → List Row → Exec P Unit
  insert_all fuel [] = return tt
  insert_all fuel ((k, v) ∷ news) = insert P fuel k v >> insert_all fuel news

  pub insert_all-put_all :
      (fuel h : ℕ) (u : Tree h) (news : List Row) (t : BPlusTree P)
      → IsTree P t h u
      → h + length news < fuel
      → P.page_count t.pm + new_pages h news < 2 ^ 32
      → All (λ r. IsInt64 r.0 × IsInt64 r.1) news
      → (t' : BPlusTree P) × (h' : ℕ) × (u' : Tree h') × (insert_all fuel news t ≡ (ok tt, t'))
        × IsTree P t' h' u'
        × (rows_in h' u' ≡ put_all news (rows_in h u))
  insert_all-put_all fuel h u [] t whole enough small ints = (t, h, u, refl, whole, refl)
  insert_all-put_all fuel h u ((k, v) ∷ news) t whole enough small ((ik, iv), ints) =
      let (t1, h1, u1, e1, done) =
        insert-put_row P fuel h u k v t whole (omega arith) (omega arith) ik iv in
      let (t2, h2, u2, e2, whole2, rows2) =
        insert_all-put_all fuel h1 u1 news t1 done.tree (omega (arith, done.height))
          (omega (arith, done.count, new_pages_mono h1 (h + 1) news done.height)) ints in
      (
        t2,
        h2,
        u2,
        proceed P (insert P fuel k v) (λ _. insert_all fuel news) tt t t1 e1 ∙ e2,
        whole2,
        rows2 ∙ ap (put_all news) done.rows,
      )

-- Any number of insertions into a tree return, with fuel for a level more for each and with page numbers
-- for the new pages, and `scan`, with enough fuel, then gives the rows of before with all of them put in,
-- one after the other.
pub insert_all-scan :
    (P : PageStore) (fuel h : ℕ) (u : Tree h) (news : List Row) (t : BPlusTree P)
    → IsTree P t h u
    → h + length news < fuel
    → P.page_count t.pm + new_pages h news < 2 ^ 32
    → All (λ r. IsInt64 r.0 × IsInt64 r.1) news
    → (t' : BPlusTree P) × (insert_all P fuel news t ≡ (ok tt, t'))
      × ((rounds : ℕ) × Returns P (scan P rounds) (put_all news (rows_in h u)) t')
insert_all-scan P fuel h u news t whole enough small ints =
    let (t', h', u', e, whole', rows) =
      insert_all-put_all P fuel h u news t whole enough small ints in
    (
      t',
      e,
      (
        h' + 1 + leaves_in h' u',
        subst (λ l. Returns P (scan P (h' + 1 + leaves_in h' u')) l t') rows
            (scan-rows_in P (h' + 1 + leaves_in h' u') h' u' t'
              (IsTree-Represents P t' h' u' whole') (omega arith) (omega arith)),
      ),
    )

-- A tree of one leaf, as the constructor leaves it on a file without pages.
pub Represents-IsTree :
    (P : PageStore) (t : BPlusTree P) (u : Leaf)
    → Represents P t 0 u
    → length u.rows ≤ 4
    → IsTree P t 0 u
Represents-IsTree P t u r few = record {
  ready = r.ready;
  root = r.root;
  meta = r.meta;
  sound = (r.stored, r.ordered.0, r.ordered.1, r.linked, few);
}
