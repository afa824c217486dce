-- ===== src/Db/BTree/Inserting/Leaves.antt =====
-- `insert` of demo-db/src/btree.cpp at the leaf of the key: the leaf is written with the row, or split
-- into two where it has five.
use c_book.Prelude.{
  ℕ, Bool, ◌+◌, ◌^◌, ◌<◌, ◌≤◌, ◌≡◌, refl, sym, ap, ap₂, ◌∙◌, subst, true, List, [], ◌∷◌, append-nil,
  Option, All, length, leb, get_or, ok, set, arith, inl, inr, Bool-cases, if◌then◌else◌,
}
use c_book.Prelude.Int.{ℤ, pos}
use c_book.Db.Wal.{Row}
use c_book.Db.Wal.Records.{IsInt64}
use c_book.Db.PageStore.{PageStore}
use c_book.Db.BTree.Search.{lower_bound}
use c_book.Db.BTree.Layout.{NodeData, leaf}
use c_book.Db.BTree.Decode.{IsNode}
use c_book.Db.BTree.Shape.{Leaf, node_of, IsAbove, IsBelow, AreRising}
use c_book.Db.BTree.Insertion.{
  store_leaf, split_leaf, insert_in_parent, with_row, left_half, right_half,
}
use c_book.Db.BTree.{BPlusTree, ◌>>=◌, ◌>>◌, return, call, read_node, write_node}
use c_book.Db.BTree.Reading.{Same, proceed, read_node-Holds}
use c_book.Db.BTree.Inserting.Chains.{IsOver-trans}
use c_book.Db.BTree.Inserting.Sound.{Holds-frame}
use c_book.Db.BTree.Inserting.Rows.{put_row}
use c_book.Db.BTree.Inserting.Places.{
  five_lem, row_keys, row_values, is_at, put_row-found, put_row-absent, put_row-keys,
  put_row-values, put_row-above, put_row-AreRising,
}
use c_book.Db.BTree.Inserting.Effects.{
  length-map, leaf-IsNode, write_node-Placed, allocate_page-Added,
}
use c_book.Db.BTree.Inserting.Growth.{place, placed, Grows, SoundIn}

leaf_values : (n : NodeData) → n.type ≡ leaf → IsNode n → All IsInt64 n.values
leaf_values n l node = elim node.kind [
  | inl (x, y, values, z) ↦ values
  | inr (i, y, z, w) ↦ absurd (omega (arith, l, i))
]

-- The leaf with other rows.
abbrev with_rows : Leaf → List Row → Leaf
with_rows u rows = record u { rows = rows }

node_with :
    (u : Leaf) (rows : List Row) (ks vs : List ℤ)
    → row_keys rows ≡ ks
    → row_values rows ≡ vs
    → record (node_of 0 u) { keys = ks; values = vs } ≡ node_of 0 (with_rows u rows)
node_with u rows ks vs a b =
    ap₂ (λ k v. record { type = leaf; keys = k; values = v; children = []; next_leaf = u.next })
      (sym a) (sym b)

split_leaf_run :
    (P : PageStore) (u : Leaf) (rows : List Row) (sep : ℤ) (pid : ℕ) (t1 t2 t3 t4 : BPlusTree P)
    → get_or (right_half (node_of 0 (with_rows u rows))).keys 0 (pos 0) ≡ sep
    → call P P.allocate_page t1 ≡ (ok pid, t2)
    → write_node P u.page (left_half pid (node_of 0 (with_rows u rows))) t2 ≡ (ok tt, t3)
    → write_node P pid (right_half (node_of 0 (with_rows u rows))) t3 ≡ (ok tt, t4)
    → split_leaf P u.page (node_of 0 (with_rows u rows)) t1 ≡ (ok (sep, pid), t4)
unfolding split_leaf
split_leaf_run P u rows sep pid t1 t2 t3 t4 e e2 e3 e4 =
    let n = node_of 0 (with_rows u rows) in
    let last = λ (r : ℕ). return {P = P} (get_or (right_half n).keys 0 (pos 0), r) in
    let right = λ (r : ℕ). write_node P r (right_half n) >> last r in
    let left = λ (r : ℕ). write_node P u.page (left_half r n) >> right r in
    proceed P (call P P.allocate_page) left pid t1 t2 e2
    ∙ proceed P (write_node P u.page (left_half pid n)) (λ _. right pid) tt t2 t3 e3
    ∙ proceed P (write_node P pid (right_half n)) (λ _. last pid) tt t3 t4 e4
    ∙ ap (λ s. (ok (s, pid), t4)) e

module _ (P : PageStore) (key value : ℤ) (lo hi : Option ℤ) (after : ℕ) (u : Leaf) (path : List ℕ)
    (t t1 : BPlusTree P) (same : Same P t t1) (sound : SoundIn P t 0 lo hi after u) where
  -- The rows after the insertion.
  record Filled (rows : List Row) : Type 0 where
    put : rows ≡ put_row key value u.rows
    keys : All IsInt64 (row_keys rows)
    values : All IsInt64 (row_values rows)
    above : All (λ r. IsAbove lo r.0) rows
    rising : AreRising hi rows

  rewritten :
      (rows : List Row)
      → Filled rows
      → length rows ≤ 4
      → place P key value (u.page, path) t ≡ write_node P u.page (node_of 0 (with_rows u rows)) t1
      → Grows P key value 0 lo hi after u path t
  rewritten rows f few e =
      let ((low, decoded, node, above), rising, lows, next, old) = sound in
      let (t2, e2, p) =
        write_node-Placed P u.page (node_of 0 (with_rows u rows)) t1 same.ready above
          (omega (arith, same.count))
          (leaf-IsNode (with_rows u rows) (omega arith) f.keys f.values node.next) in
      (
        t2,
        with_rows u rows,
        [],
        record {
          ran = e ∙ e2;
          ready = p.ready;
          root = p.root ∙ same.root;
          grows = omega (arith, p.count, same.count);
          bounded = omega (arith, p.count, same.count);
          sound = (p.holds, f.rising, f.above, next, few);
          page = refl;
          start = refl;
          owns = λ q m. inl m;
          stays = λ q l other. p.others q other ∙ ap (λ v. v q) same.pages;
          rows = append-nil rows ∙ f.put;
          separators = tt;
          single = omega arith;
        },
      )

  divided :
      (a b c d x : Row)
      → Filled (a ∷ b ∷ c ∷ d ∷ x ∷ [])
      → P.page_count t.pm + 1 < 2 ^ 32
      → place P key value (u.page, path) t
        ≡ store_leaf P u.page path (node_of 0 (with_rows u (a ∷ b ∷ c ∷ d ∷ x ∷ []))) t1
      → Grows P key value 0 lo hi after u path t
  unfolding store_leaf left_half right_half
  divided a b c d x f small e =
      let ((low, decoded, node, above), rising, lows, next, old) = sound in
      let pid = P.page_count t1.pm in
      let left : Leaf = record { page = u.page; rows = a ∷ b ∷ []; next = pid } in
      let right : Leaf = record { page = pid; rows = c ∷ d ∷ x ∷ []; next = u.next } in
      let five : List Row = a ∷ b ∷ c ∷ d ∷ x ∷ [] in
      let (t2, e2, g) = allocate_page-Added P t1 same.ready (omega (arith, same.count)) in
      let (ka, (kb, (kc, (kd, (kx, nok))))) = f.keys in
      let (va, (vb, (vc, (vd, (vx, nov))))) = f.values in
      let (ia, (ib, (ic, others))) = f.above in
      let ((ab, (ac, far)), ba, ((bc, far'), bb, third)) = f.rising in
      let (t3, e3, p) =
        write_node-Placed P u.page (node_of 0 left) t2 g.ready above
          (omega (arith, same.count, g.count))
          (leaf-IsNode left (omega arith) (ka, (kb, tt)) (va, (vb, tt))
            (omega (arith, same.count))) in
      let (t4, e4, q) =
        write_node-Placed P pid (node_of 0 right) t3 p.ready (omega (arith, same.count))
          (omega (arith, same.count, g.count, p.count))
          (leaf-IsNode right (omega arith) (kc, (kd, (kx, tt))) (vc, (vd, (vx, tt))) node.next) in
      (
        t4,
        left,
        (c.0, right) ∷ [],
        record {
          ran =
              e
              ∙ proceed P (split_leaf P u.page (node_of 0 (with_rows u five)))
                  (λ (o : ℤ × ℕ). insert_in_parent P path o.0 o.1) (c.0, pid) t1 t4
                  (split_leaf_run P u five c.0 pid t1 t2 t3 t4 refl e2 e3 e4);
          ready = q.ready;
          root = q.root ∙ p.root ∙ g.root ∙ same.root;
          grows = omega (arith, q.count, p.count, g.count, same.count);
          bounded = omega (arith, q.count, p.count, g.count, same.count);
          sound = (
            (
              Holds-frame (P.page_count t3.pm) (P.page_count t4.pm) (P.view t3.pm) (P.view t4.pm)
                  u.page (node_of 0 left) (omega (arith, q.count))
                  (q.others u.page (λ e. omega (arith, e, same.count))) p.holds,
              ((ab, tt), ac, (tt, bc, tt)),
              (ia, (ib, tt)),
              refl,
              omega arith,
            ),
            IsOver-trans lo a.0 c.0 ia ac,
            third.1,
            (λ r m n. omega (arith, m, n, same.count)),
            (
              q.holds,
              third,
              (omega arith, (omega (arith, third.0.0), (omega (arith, third.0.1.0), tt))),
              next,
              omega arith,
            ),
          );
          page = refl;
          start = refl;
          owns = λ r m. elim m [ inl i ↦ inl i | inr i ↦ inr (omega (arith, i, same.count)) ];
          stays = λ r l other.
              q.others r (λ e. omega (arith, e, same.count))
              ∙ p.others r other
              ∙ g.others r (omega (arith, same.count))
              ∙ ap (λ v. v r) same.pages;
          rows = f.put;
          separators = (kc, tt);
          single = omega arith;
        },
      )

store_leaf-fits :
    (P : PageStore) (pid : ℕ) (path : List ℕ) (n : NodeData) (t : BPlusTree P)
    → leb (length n.keys) 4 ≡ true
    → store_leaf P pid path n t ≡ write_node P pid n t
unfolding store_leaf
store_leaf-fits P pid path n t e =
    ap
      (λ b.
        (if b
            then write_node P pid n
            else (split_leaf P pid n >>= λ (o : ℤ × ℕ). insert_in_parent P path o.0 o.1))
          t)
      e

-- The leaf of the key.
pub leaf-Grows :
    (P : PageStore) (key value : ℤ) (lo hi : Option ℤ) (after : ℕ) (u : Leaf) (path : List ℕ)
    (t : BPlusTree P)
    → P.IsReady t.pm
    → SoundIn P t 0 lo hi after u
    → IsAbove lo key
    → IsBelow hi key
    → IsInt64 key
    → IsInt64 value
    → P.page_count t.pm + 1 < 2 ^ 32
    → Grows P key value 0 lo hi after u path t
unfolding with_row
leaf-Grows P key value lo hi after u path t ready sound above below ik iv small =
    let (holds, rising, lows, next, few) = sound in
    let (t1, e1, same) = read_node-Holds P u.page (node_of 0 u) t ready holds in
    let rows = put_row key value u.rows in
    let idx = lower_bound (row_keys u.rows) key in
    let node = holds.2 in
    let changed : NodeData = record (node_of 0 u) { values = set (row_values u.rows) idx value } in
    let choose = λ (b : Bool).
      (if b
          then write_node P u.page changed
          else store_leaf P u.page path (with_row idx key value (node_of 0 u)))
        t1 in
    let run : place P key value (u.page, path) t ≡ choose (is_at idx key (row_keys u.rows)) =
      proceed P (read_node P u.page) (placed P key value u.page path) (node_of 0 u) t t1 e1 in
    let filled : Filled P key value lo hi after u path t t1 same sound rows = record {
      put = refl;
      keys = put_row-keys IsInt64 key value u.rows ik node.keys;
      values = put_row-values IsInt64 key value u.rows iv (leaf_values (node_of 0 u) refl node);
      above = put_row-above lo key value u.rows above lows;
      rising = put_row-AreRising hi key value u.rows below rising;
    } in
    elim (Bool-cases (is_at idx key (row_keys u.rows))) [
      | inl found ↦
          let (a, b, c) = put_row-found key value u.rows found in
          rewritten P key value lo hi after u path t t1 same sound rows filled
            (omega (arith, c, few))
            (run ∙ ap choose found ∙ ap (λ n. write_node P u.page n t1) (node_with u rows _ _ a b))
      | inr absent ↦
          let (a, b, c) = put_row-absent key value u.rows absent in
          let stored =
            run
            ∙ ap choose absent
            ∙ ap (λ n. store_leaf P u.page path n t1) (node_with u rows _ _ a b) in
          elim (Bool-cases (leb (length (row_keys rows)) 4)) [
            | inl fits ↦
                rewritten P key value lo hi after u path t t1 same sound rows filled
                  (ground (arith, length-map (λ (r : Row). r.0) rows))
                  (stored ∙ store_leaf-fits P u.page path (node_of 0 (with_rows u rows)) t1 fits)
            | inr full ↦
                let (p, q, r, s, x, five) =
                  five_lem rows (ground (arith, length-map (λ (r : Row). r.0) rows)) in
                divided P key value lo hi after u path t t1 same sound p q r s x
                  (subst (Filled P key value lo hi after u path t t1 same sound) five filled) small
                  (stored ∙ ap (λ l. store_leaf P u.page path (node_of 0 (with_rows u l)) t1) five)
          ]
    ]
