-- ===== src/Db/BTree/Inserting/Effects.antt =====
-- What the writes of demo-db/src/btree.cpp leave: one more node in its page, or one more page.
use c_book.Prelude.{
  ℕ, suc, ◌+◌, ◌^◌, ◌<◌, ◌≤◌, ◌≡◌, ◌≢◌, refl, sym, ap, ◌∙◌, List, [], ◌∷◌, map, ok, All, length,
  arith, inl, inr,
}
use c_book.Prelude.Int.{ℤ}
use c_book.Db.Wal.{Row}
use c_book.Db.Wal.Records.{IsInt64}
use c_book.Db.PageManager.{Page}
use c_book.Db.PageStore.{PageStore}
use c_book.Db.BTree.Layout.{NodeData, encode_node, decode_node}
use c_book.Db.BTree.Decode.{IsNode, decode_node-encode_node}
use c_book.Db.BTree.Shape.{Leaf, Tree, node_of, page_of, children_of, Holds}
use c_book.Db.BTree.{BPlusTree, call, write_node}
use c_book.Db.BTree.Writing.{replaced, write_node-Wrote, allocate_page-Allocated}

pub length-map : {A B : Type 0} (f : A → B) (xs : List A) → length (map f xs) ≡ length xs
length-map f [] = refl
length-map f (x ∷ xs) = ap suc (length-map f xs)

pub leaf-IsNode :
    (l : Leaf)
    → length l.rows ≤ 5
    → All IsInt64 (map (λ r. r.0) l.rows)
    → All IsInt64 (map (λ r. r.1) l.rows)
    → l.next < 2 ^ 32
    → IsNode (node_of 0 l)
leaf-IsNode l few keys values next = record {
  fits =
      ground
        (arith, few, length-map (λ (r : Row). r.0) l.rows, length-map (λ (r : Row). r.1) l.rows);
  keys = keys;
  next = next;
  kind = inl (
    refl,
    length-map (λ (r : Row). r.1) l.rows ∙ sym (length-map (λ (r : Row). r.0) l.rows),
    values,
    refl,
  );
}

pub internal-IsNode :
    (h : ℕ) (page : ℕ) (first : Tree h) (rest : List (ℤ × Tree h))
    → length rest ≤ 5
    → All IsInt64 (map (λ c. c.0) rest)
    → All (λ c. c < 2 ^ 32) (page_of h first ∷ children_of h rest)
    → IsNode (node_of (suc h) (page, (first, rest)))
internal-IsNode h page first rest few keys children = record {
  fits = ground (
    arith,
    few,
    length-map (λ (c : ℤ × Tree h). c.0) rest,
    length-map (λ (c : ℤ × Tree h). page_of h c.1) rest,
  );
  keys = keys;
  next = omega arith;
  kind = inr (
    refl,
    omega (
      arith,
      length-map (λ (c : ℤ × Tree h). c.0) rest,
      length-map (λ (c : ℤ × Tree h). page_of h c.1) rest,
    ),
    children,
    refl,
  );
}

module _ (P : PageStore) where
  -- After a node was written to its page.
  pub record Placed (pid : ℕ) (n : NodeData) (t t' : BPlusTree P) : Type 0 where
    pub ready : P.IsReady t'.pm
    pub count : P.page_count t'.pm ≡ P.page_count t.pm
    pub root : t'.root_page_id ≡ t.root_page_id
    pub holds : Holds (P.page_count t'.pm) (P.view t'.pm) pid n
    pub others : (q : ℕ) → q ≢ pid → P.view t'.pm q ≡ P.view t.pm q

  pub write_node-Placed :
      (pid : ℕ) (n : NodeData) (t : BPlusTree P)
      → P.IsReady t.pm
      → 0 < pid
      → pid < P.page_count t.pm
      → IsNode n
      → (t' : BPlusTree P) × (write_node P pid n t ≡ (ok tt, t')) × Placed pid n t t'
  write_node-Placed pid n t ready above low node =
      let (t', e, w) = write_node-Wrote P pid n t ready low node.fits in
      (
        t',
        e,
        record {
          ready = w.ready;
          count = w.count;
          root = w.root;
          holds = (
            omega (arith, w.count),
            ap (λ v. decode_node (v pid)) w.pages
                ∙ ap decode_node (here pid (encode_node n) (P.view t.pm))
                ∙ decode_node-encode_node n node,
            node,
            above,
          );
          others =
              λ q other. ap (λ v. v q) w.pages ∙ there pid (encode_node n) (P.view t.pm) q other;
        },
      )
    where
      here : (p : ℕ) (x : Page) (v : ℕ → Page) → replaced p x v p ≡ x
      here p x v = ground arith

      there : (p : ℕ) (x : Page) (v : ℕ → Page) (q : ℕ) → q ≢ p → replaced p x v q ≡ v q
      there p x v q other = ground arith

  -- After a page was added.
  pub record Added (t t' : BPlusTree P) : Type 0 where
    pub ready : P.IsReady t'.pm
    pub count : P.page_count t'.pm ≡ P.page_count t.pm + 1
    pub root : t'.root_page_id ≡ t.root_page_id
    pub others : (q : ℕ) → q < P.page_count t.pm → P.view t'.pm q ≡ P.view t.pm q

  pub allocate_page-Added :
      (t : BPlusTree P)
      → P.IsReady t.pm
      → P.page_count t.pm + 1 < 2 ^ 32
      → (t' : BPlusTree P) × (call P P.allocate_page t ≡ (ok (P.page_count t.pm), t')) × Added t t'
  allocate_page-Added t ready small =
      let (t', e, a) = allocate_page-Allocated P t ready small in
      (
        t',
        e,
        record {
          ready = a.ready;
          count = a.count;
          root = a.root;
          others = λ q low. ap (λ v. v q) a.pages ∙ there (P.page_count t.pm) _ (P.view t.pm) q low;
        },
      )
    where
      there : (p : ℕ) (x : Page) (v : ℕ → Page) (q : ℕ) → q < p → replaced p x v q ≡ v q
      there p x v q low = ground arith
