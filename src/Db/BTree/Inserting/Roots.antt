-- ===== src/Db/BTree/Inserting/Roots.antt =====
-- `insert` of demo-db/src/btree.cpp on the whole tree: a root that was split gets a new one over it.
use c_book.Prelude.{
  ℕ, suc, ◌+◌, ◌^◌, ◌<◌, ◌≤◌, ◌≡◌, refl, sym, ap, ◌∙◌, false, List, [], ◌∷◌, none, some, ok, arith,
  append-nil,
}
use c_book.Prelude.Int.{ℤ}
use c_book.Db.Wal.Records.{IsInt64}
use c_book.Db.PageManager.{Page}
use c_book.Db.PageStore.{PageStore}
use c_book.Db.BTree.Layout.{internal}
use c_book.Db.BTree.Shape.{Tree, page_of, node_of, first_page, rows_in, leaf_for, trail}
use c_book.Db.BTree.Insertion.{insert, insert_in_parent, new_root}
use c_book.Db.BTree.{metadata, BPlusTree, Exec, ◌>>◌, call, find_leaf, write_node, save_metadata}
use c_book.Db.BTree.Reading.{proceed, after}
use c_book.Db.BTree.Finding.{Represents, find_leaf-Returns}
use c_book.Db.BTree.Writing.{replaced, save_metadata-Wrote}
use c_book.Db.BTree.Inserting.Chains.{HasAny, Chain-imp}
use c_book.Db.BTree.Inserting.Sound.{
  HasPage, Sound, HasPage-bounds, page_of-HasPage, Sound-frame, Holds-frame, Chain-HasAny,
  Sound-IsStored, Sound-IsOrdered, Sound-IsLinked,
}
use c_book.Db.BTree.Inserting.Rows.{put_row}
use c_book.Db.BTree.Inserting.Effects.{internal-IsNode, write_node-Placed, allocate_page-Added}
use c_book.Db.BTree.Inserting.Growth.{place, finish, Grown, SoundIn}
use c_book.Db.BTree.Inserting.Levels.{tree-Grows}

-- The invariant of the tree: what `Represents` says, four keys at most in a node, and a page of its own
-- for each.
pub record IsTree (P : PageStore) (t : BPlusTree P) (h : ℕ) (u : Tree h) : Type 0 where
  pub ready : P.IsReady t.pm
  pub root : t.root_page_id ≡ page_of h u
  pub meta : P.view t.pm 0 ≡ metadata (page_of h u)
  pub sound : SoundIn P t h none none 0 u

pub IsTree-Represents :
    (P : PageStore) (t : BPlusTree P) (h : ℕ) (u : Tree h) → IsTree P t h u → Represents P t h u
IsTree-Represents P t h u s = record {
  ready = s.ready;
  root = s.root;
  meta = s.meta;
  stored = Sound-IsStored (P.page_count t.pm) (P.view t.pm) h none none 0 u s.sound;
  ordered = Sound-IsOrdered (P.page_count t.pm) (P.view t.pm) h none none 0 u s.sound;
  linked = Sound-IsLinked (P.page_count t.pm) (P.view t.pm) h none none 0 u s.sound;
}

-- After an insertion that returned.
pub record Inserted (P : PageStore) (key value : ℤ) (h : ℕ) (u : Tree h) (t t' : BPlusTree P)
    (h' : ℕ) (u' : Tree h') : Type 0 where
  pub tree : IsTree P t' h' u'
  pub rows : rows_in h' u' ≡ put_row key value (rows_in h u)
  pub height : h' ≤ h + 1
  pub count : P.page_count t'.pm ≤ P.page_count t.pm + h + 2

module _ (P : PageStore) (key value : ℤ) (h : ℕ) (u : Tree h) (t t' : BPlusTree P)
    (whole : IsTree P t h u) where
  bounds : (q : ℕ) → HasPage h u q → (0 < q) × (q < P.page_count t.pm)
  bounds = HasPage-bounds (P.page_count t.pm) (P.view t.pm) h none none 0 u whole.sound

  abbrev Below : Tree h → List (ℤ × Tree h) → Type 0
  Below l more = Grown P key value h none none 0 u [] t t' l more

  settled : (l : Tree h) → Below l [] → Inserted P key value h u t t' h l
  settled l g = record {
    tree = record {
      ready = g.ready;
      root = g.root ∙ whole.root ∙ sym g.page;
      meta =
          g.stays 0 (omega (arith, bounds (page_of h u) (page_of-HasPage h u)))
            (λ m. omega (arith, (bounds 0 m).0))
          ∙ whole.meta
          ∙ ap metadata (sym g.page);
      sound = g.sound;
    };
    rows = sym (append-nil (rows_in h l)) ∙ g.rows;
    height = omega arith;
    count = omega (arith, g.bounded);
  }

  raised :
      (l r : Tree h) (sep : ℤ)
      → Below l ((sep, r) ∷ [])
      → P.page_count t.pm + h + 2 < 2 ^ 32
      → (t5 : BPlusTree P) × (u' : Tree (suc h)) × (insert_in_parent P [] sep (page_of h r) t'
          ≡ (ok tt, t5))
        × Inserted P key value h u t t5 (suc h) u'
  unfolding insert_in_parent new_root
  raised l r sep g small =
      let (sl, over, below, apart, sr) = g.sound in
      let lb =
        HasPage-bounds (P.page_count t'.pm) (P.view t'.pm) h none (some sep) (first_page h r) l sl
          (page_of h l) (page_of-HasPage h l) in
      let rb =
        HasPage-bounds (P.page_count t'.pm) (P.view t'.pm) h (some sep) none 0 r sr (page_of h r)
          (page_of-HasPage h r) in
      let pid = P.page_count t'.pm in
      let top : Tree (suc h) = (pid, (l, (sep, r) ∷ [])) in
      let (t3, e3, z) = allocate_page-Added P t' g.ready (omega (arith, g.bounded)) in
      let (t4, e4, p) =
        write_node-Placed P pid (node_of (suc h) top) t3 z.ready (omega (arith, lb.0, lb.1))
          (omega (arith, z.count))
          (internal-IsNode h pid l ((sep, r) ∷ []) (omega arith) g.separators
            (omega (arith, lb.1, g.bounded), (omega (arith, rb.1, g.bounded), tt))) in
      let t4' : BPlusTree P = record t4 { root_page_id = pid } in
      let (t5, e5, w) = save_metadata-Wrote P t4' p.ready (omega (arith, p.count, z.count)) in
      let inside : (q : ℕ)
          → HasAny (first_page h) (HasPage h) l ((sep, r) ∷ []) q
          → (0 < q) × (q < pid) =
        Chain-HasAny (first_page h) (HasPage h) (SoundIn P t' h) (λ q. (0 < q) × (q < pid)) none
          none 0 l ((sep, r) ∷ []) (HasPage-bounds pid (P.view t'.pm) h) g.sound in
      let later : (q : ℕ) → 0 < q → P.view t5.pm q ≡ P.view t4.pm q =
        λ q a. ap (λ v. v q) w.pages ∙ elsewhere (metadata pid) (P.view t4.pm) q a in
      (
        t5,
        top,
        proceed P (call P P.allocate_page) (λ (n : ℕ) (s : BPlusTree P). topped n s.root_page_id s)
              pid t' t3 e3
            ∙ ap (λ n. topped pid n t3) (z.root ∙ g.root ∙ whole.root ∙ sym g.page)
            ∙ proceed P (write_node P pid (node_of (suc h) top)) (λ _. recorded pid) tt t3 t4 e4
            ∙ e5,
        record {
          tree = record {
            ready = w.ready;
            root = w.root;
            meta = ap (λ v. v 0) w.pages;
            sound = (
              Holds-frame (P.page_count t4.pm) (P.page_count t5.pm) (P.view t4.pm) (P.view t5.pm)
                  pid (node_of (suc h) top) (omega (arith, w.count))
                  (later pid (omega (arith, lb.0, lb.1))) p.holds,
              omega arith,
              (λ m. omega (arith, (inside pid m).1)),
              Chain-imp (first_page h) (HasPage h) (SoundIn P t' h) (SoundIn P t5 h) none none 0 l
                  ((sep, r) ∷ [])
                  (λ a b n v sub s.
                    Sound-frame pid (P.page_count t5.pm) (P.view t'.pm) (P.view t5.pm) h a b n v
                      (omega (arith, w.count, p.count, z.count))
                      (λ q m.
                        let in_pages = inside q (sub q m) in
                        later q in_pages.0
                        ∙ p.others q (λ e. omega (arith, e, in_pages.1))
                        ∙ z.others q in_pages.1)
                      s)
                  g.sound,
            );
          };
          rows = g.rows;
          height = omega arith;
          count = omega (arith, w.count, p.count, z.count, g.bounded);
        },
      )
    where
      recorded : ℕ → Exec P (Unit {0})
      recorded n s = save_metadata P (record s { root_page_id = n })

      topped : ℕ → ℕ → Exec P (Unit {0})
      topped n old =
          write_node P n (record {
            type = internal;
            keys = sep ∷ [];
            values = [];
            children = old ∷ page_of h r ∷ [];
            next_leaf = 0;
          })
          >> (λ s. save_metadata P (record s { root_page_id = n }))

      elsewhere : (x : Page) (v : ℕ → Page) (q : ℕ) → 0 < q → replaced 0 x v q ≡ v q
      elsewhere x v q a = ground arith

ended :
    (P : PageStore) (h : ℕ) (u : Tree h) (key value : ℤ) (t t' : BPlusTree P)
    → IsTree P t h u
    → (l : Tree h) (more : List (ℤ × Tree h)) → Grown P key value h none none 0 u [] t t' l more
    → P.page_count t.pm + h + 2 < 2 ^ 32
    → (t'' : BPlusTree P) × (h' : ℕ) × (u' : Tree h') × (finish P [] h more t' ≡ (ok tt, t''))
      × Inserted P key value h u t t'' h' u'
ended P h u key value t t' whole l [] g small =
    (t', h, l, refl, settled P key value h u t t' whole l g)
ended P h u key value t t' whole l ((sep, r) ∷ []) g small =
    let (t'', u', e, done) = raised P key value h u t t' whole l r sep g small in
    (t'', suc h, u', e, done)
ended P h u key value t t' whole l (c ∷ d ∷ more) g small = absurd (omega (arith, g.single))

-- `insert` on a tree returns, within as many rounds as the tree has levels and as long as there are page
-- numbers for the new pages, and what it leaves is a tree again: its rows are those of before with the
-- row put in at its place, or with the new value where the key was there.
pub insert-put_row :
    (P : PageStore) (fuel h : ℕ) (u : Tree h) (key value : ℤ) (t : BPlusTree P)
    → IsTree P t h u
    → h < fuel
    → P.page_count t.pm + h + 2 < 2 ^ 32
    → IsInt64 key
    → IsInt64 value
    → (t' : BPlusTree P) × (h' : ℕ) × (u' : Tree h') × (insert P fuel key value t ≡ (ok tt, t'))
      × Inserted P key value h u t t' h' u'
unfolding insert
insert-put_row P fuel h u key value t whole enough small ik iv =
    let (t1, e1, same) =
      find_leaf-Returns P fuel h u key t (IsTree-Represents P t h u whole) enough in
    let sound = after P (λ c v. Sound c v h none none 0 u) t t1 same whole.sound in
    let whole1 : IsTree P t1 h u = record {
      ready = same.ready;
      root = same.root ∙ whole.root;
      meta = ap (λ v. v 0) same.pages ∙ whole.meta;
      sound = sound;
    } in
    let (t2, l, more, g) =
      tree-Grows P key value h none none 0 u [] t1 same.ready sound tt tt ik iv
        (omega (arith, same.count)) in
    let run : insert P fuel key value t ≡ finish P [] h more t2 =
      proceed P (find_leaf P fuel key false) (place P key value)
        ((leaf_for key h u).page, trail key h u []) t t1 e1
      ∙ g.ran in
    let (t', h', u', e, done) =
      ended P h u key value t1 t2 whole1 l more g (omega (arith, same.count)) in
    (
      t',
      h',
      u',
      run ∙ e,
      record {
        tree = done.tree;
        rows = done.rows;
        height = done.height;
        count = omega (arith, done.count, same.count);
      },
    )
