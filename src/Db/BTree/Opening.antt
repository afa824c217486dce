-- ===== src/Db/BTree/Opening.antt =====
-- Opening a tree: a fresh file gets an empty one, and the pages of a tree give it back.
use c_book.Prelude.{
  ℕ, ◌^◌, ◌<◌, ◌≡◌, ◌==◌, refl, sym, ap, ◌∙◌, subst, false, List, [], ◌∷◌, ◌++◌, ok, arith, set,
  if◌then◌else◌, inl,
}
use mathlib.Core.Path.{fun_ext}
use c_book.Bytes.Laws.{le_bytes, read_u32-le_bytes}
use c_book.Db.PageStore.{PageStore}
use c_book.Db.BTree.Layout.{encode_node, decode_node, read_u32_at, write_u32_at}
use c_book.Db.BTree.Codec.{zeros, write_u32_at_lem, make_page_lem}
use c_book.Db.BTree.Decode.{IsNode, decode_node-encode_node, zeros-AreBytes}
use c_book.Db.BTree.Shape.{Tree, Leaf, page_of, IsStored}
use c_book.Db.BTree.{
  ◌>>◌, lifted, BPlusTree, call, write_node, metadata, load_metadata, take_metadata, save_metadata,
  create, open_tree, empty_leaf, format_version,
}
use c_book.Db.BTree.Reading.{call-ok, proceed, page-Holds}
use c_book.Db.BTree.Finding.{Represents}
use c_book.Db.BTree.Writing.{write_node-Wrote, save_metadata-Wrote, allocate_page-Allocated}

abbrev tagged : ℕ → List ℕ → List ℕ
tagged root rest = le_bytes 4 root ++ (0x4D ∷ 0x44 ∷ 0x42 ∷ format_version ∷ rest)

metadata_lem : (root : ℕ) → metadata root ≡ tagged root (zeros 4088)
unfolding metadata
metadata_lem root =
    ap (λ p. set (set (set (set p 4 0x4D) 5 0x44) 6 0x42) 7 format_version)
      (ap (write_u32_at 0 root) (make_page_lem 4096 refl)
        ∙ write_u32_at_lem 0 root [] (zeros 4) (zeros 4 ++ zeros 4088) refl refl)

root_read : (root : ℕ) → root < 2 ^ 32 → read_u32_at 0 (tagged root (zeros 4088)) ≡ root
unfolding read_u32_at
root_read root h =
    read_u32-le_bytes (0x4D ∷ 0x44 ∷ 0x42 ∷ format_version ∷ zeros 4088)
      (omega arith, (omega arith, (omega arith, (omega arith, zeros-AreBytes 4088)))) root h

module _ (P : PageStore) where
  take_metadata-metadata :
      (root : ℕ) (t : BPlusTree P)
      → root < 2 ^ 32
      → take_metadata P (metadata root) t ≡ (ok tt, record t { root_page_id = root })
  unfolding take_metadata
  take_metadata-metadata root t small =
      ap (λ p. take_metadata P p t) (metadata_lem root)
      ∙ ap (λ r. (ok tt, record t { root_page_id = r })) (root_read root small)

-- The tree is opened again, and no page is added.
pub open_tree-same :
    (P : PageStore) (h : ℕ) (u : Tree h) (t : BPlusTree P)
    → Represents P t h u
    → page_of h u < 2 ^ 32
    → (t' : BPlusTree P) × (open_tree P t.pm ≡ (ok tt, t'))
      × Represents P t' h u
      × (P.page_count t'.pm ≡ P.page_count t.pm)
unfolding open_tree load_metadata
open_tree-same P h u t r small =
    let low = some_page P h u t r in
    let t0 : BPlusTree P = record { pm = t.pm; root_page_id = 0 } in
    let (s, e, ready, c, v) = P.reads 0 t.pm r.ready low in
    let t1 : BPlusTree P = record { pm = s; root_page_id = 0 } in
    let pages = fun_ext v in
    (
      record { pm = s; root_page_id = page_of h u },
      ap (λ b. if b then create P t0 else load_metadata P t0) (not_empty (P.page_count t.pm) low)
          ∙ proceed P (call P (P.read_page 0)) (take_metadata P) (P.view t.pm 0) t0 t1
              (call-ok P (P.read_page 0) (P.view t.pm 0) t0 s e)
          ∙ ap (λ p. take_metadata P p t1) r.meta
          ∙ take_metadata-metadata P (page_of h u) t1 small,
      record {
        ready = ready;
        root = refl;
        meta = v 0 ∙ r.meta;
        stored =
            subst (λ n. IsStored n (P.view s) h u) (sym c)
              (subst (λ w. IsStored (P.page_count t.pm) w h u) (sym pages) r.stored);
        ordered = r.ordered;
        linked = r.linked;
      },
      c,
    )
  where
    not_empty : (n : ℕ) → 0 < n → (n == 0) ≡ false
    not_empty n h = ground arith

    some_page :
        (P : PageStore) (h : ℕ) (u : Tree h) (t : BPlusTree P)
        → Represents P t h u
        → 0 < P.page_count t.pm
    some_page P h u t r =
        let (low, decoded, node, above) = page-Holds P h u t r.stored in omega arith

-- A tree is opened again from its pages: the constructor returns, takes the root that page 0 has, and
-- what it leaves represents the same tree.
pub open_tree-Represents :
    (P : PageStore) (h : ℕ) (u : Tree h) (t : BPlusTree P)
    → Represents P t h u
    → page_of h u < 2 ^ 32
    → (t' : BPlusTree P) × (open_tree P t.pm ≡ (ok tt, t')) × Represents P t' h u
open_tree-Represents P h u t r small =
    let (t', e, again, count) = open_tree-same P h u t r small in (t', e, again)

abbrev pub no_rows : Leaf
no_rows = record { page = 1; rows = []; next = 0 }

empty_leaf-IsNode : IsNode empty_leaf
empty_leaf-IsNode = record {
  fits = refl;
  keys = tt;
  next = omega arith;
  kind = inl (refl, refl, tt, refl);
}

-- The constructor on a ready store without pages: what it leaves represents the tree without rows, of
-- one leaf in page 1, and it returns unless its call of `sync` throws.
pub open_tree-create :
    (P : PageStore) (s : P.State)
    → P.IsReady s
    → P.page_count s ≡ 0
    → Represents P (open_tree P s).1 0 no_rows
      × ((s' : P.State) × ((open_tree P s).0 ≡ lifted (P.sync s').0))
unfolding open_tree create
open_tree-create P s ready none_yet =
    let t0 : BPlusTree P = record { pm = s; root_page_id = 0 } in
    let (t1, e1, a1) = allocate_page-Allocated P t0 ready (omega arith) in
    let n1 : P.page_count t1.pm ≡ 1 = omega (arith, a1.count) in
    let (t2, e2, a2) = allocate_page-Allocated P t1 a1.ready (omega arith) in
    let n2 : P.page_count t2.pm ≡ 2 = omega (arith, a2.count) in
    let (t3, e3, w3) = write_node-Wrote P 1 empty_leaf t2 a2.ready (omega arith) refl in
    let t3' : BPlusTree P = record t3 { root_page_id = 1 } in
    let n3 : P.page_count t3.pm ≡ 2 = w3.count ∙ n2 in
    let (t4, e4, w4) = save_metadata-Wrote P t3' w3.ready (omega arith) in
    let (r5, c5, v5, d5) = P.syncs t4.pm w4.ready in
    let n5 : P.page_count (P.sync t4.pm).1 ≡ 2 = c5 ∙ w4.count ∙ n3 in
    let e : open_tree P s ≡ call P P.sync t4 =
      ap (λ (n : ℕ). if n == 0 then create P t0 else load_metadata P t0) none_yet
      ∙ proceed P (call P P.allocate_page) _ _ t0 t1 e1
      ∙ proceed P (call P P.allocate_page) _ _ t1 t2 e2
      ∙ ap
          (λ root.
            (write_node P root empty_leaf
                >> ((λ t. save_metadata P (record t { root_page_id = root })) >> call P P.sync))
              t2)
          n1
      ∙ proceed P (write_node P 1 empty_leaf) _ tt t2 t3 e3
      ∙ proceed P (λ t. save_metadata P (record t { root_page_id = 1 })) _ tt t3 t4 e4 in
    let page0 : P.view (P.sync t4.pm).1 0 ≡ metadata 1 = v5 0 ∙ ap (λ v. v 0) w4.pages in
    let page1 : P.view (P.sync t4.pm).1 1 ≡ encode_node empty_leaf =
      v5 1 ∙ ap (λ v. v 1) w4.pages ∙ ap (λ v. v 1) w3.pages in
    (
      subst (λ o. Represents P o.1 0 no_rows) (sym e)
          (record {
            ready = r5;
            root = w4.root;
            meta = page0;
            stored = (
              omega (arith, n5),
              ap decode_node page1 ∙ decode_node-encode_node empty_leaf empty_leaf-IsNode,
              empty_leaf-IsNode,
              omega arith,
            );
            ordered = (tt, tt);
            linked = refl;
          }),
      (t4.pm, ap (λ o. o.0) e),
    )
