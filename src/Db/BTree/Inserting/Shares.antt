-- ===== src/Db/BTree/Inserting/Shares.antt =====
-- `insert_in_parent` of demo-db/src/btree.cpp where the parent is full, and is split with
-- `split_internal`.
use c_book.Prelude.{
  ℕ, suc, ◌+◌, ◌^◌, ◌/◌, ◌<◌, ◌≤◌, ◌≡◌, ◌⊎◌, refl, sym, ap, ◌∙◌, subst, List, [], ◌∷◌, ◌++◌, Option,
  All, length, get_or, ok, arith, inl, inr,
}
use c_book.Prelude.Int.{ℤ, pos}
use c_book.Db.Wal.Records.{IsInt64}
use c_book.Db.PageStore.{PageStore}
use c_book.Db.BTree.Layout.{NodeData}
use c_book.Db.BTree.Shape.{Tree, page_of, children_of, node_of, first_page, rows_in, behind}
use c_book.Db.BTree.Insertion.{insert_in_parent, split_internal, left_node, right_node}
use c_book.Db.BTree.{BPlusTree, ◌>>◌, return, call, write_node}
use c_book.Db.BTree.Reading.{proceed}
use c_book.Db.BTree.Inserting.Chains.{HasAny, HasAny-left, HasAny-right, HasAny-select, Chain-split}
use c_book.Db.BTree.Inserting.Sound.{HasPage, Holds-frame}
use c_book.Db.BTree.Inserting.Rows.{rows_split, keys_of}
use c_book.Db.BTree.Inserting.Effects.{internal-IsNode, write_node-Placed, allocate_page-Added}
use c_book.Db.BTree.Inserting.Growth.{Grows, SoundIn, ChainIn}
use c_book.Db.BTree.Inserting.Nodes.{spliced-owns, spliced-rows, spliced-start}
use c_book.Db.BTree.Inserting.Parents.{
  Child, page-free, grown, grown-keys, grown-children, grown-Chain, above, reached, grown_bounds,
}

split_internal_run :
    (P : PageStore) (page : ℕ) (n : NodeData) (sep : ℤ) (pid : ℕ) (t1 t2 t3 t4 : BPlusTree P)
    → get_or n.keys (length n.keys / 2) (pos 0) ≡ sep
    → call P P.allocate_page t1 ≡ (ok pid, t2)
    → write_node P page (left_node n) t2 ≡ (ok tt, t3)
    → write_node P pid (right_node n) t3 ≡ (ok tt, t4)
    → split_internal P page n t1 ≡ (ok (sep, pid), t4)
unfolding split_internal
split_internal_run P page n sep pid t1 t2 t3 t4 e e2 e3 e4 =
    let last = λ (r : ℕ). return {P = P} (get_or n.keys (length n.keys / 2) (pos 0), r) in
    let right = λ (r : ℕ). write_node P r (right_node n) >> last r in
    let left = λ (r : ℕ). write_node P page (left_node n) >> right r in
    proceed P (call P P.allocate_page) left pid t1 t2 e2
    ∙ proceed P (write_node P page (left_node n)) (λ _. right pid) tt t2 t3 e3
    ∙ proceed P (write_node P pid (right_node n)) (λ _. last pid) tt t3 t4 e4
    ∙ ap (λ s. (ok (s, pid), t4)) e

module _ (P : PageStore) (key value : ℤ) (h : ℕ) (lo hi : Option ℤ) (after : ℕ) (page : ℕ)
    (first : Tree h) (rest : List (ℤ × Tree h)) (path : List ℕ) (t t' : BPlusTree P) (l : Tree h)
    (sound : SoundIn P t (suc h) lo hi after (page, (first, rest))) (sep : ℤ) (r' : Tree h)
    (g : Child P key value h lo hi after page first rest path t t' l sound ((sep, r') ∷ [])) where
  -- Five keys: the parent is split, and its middle key goes up.
  pub shared :
      (a b c d x : ℤ × Tree h)
      → (grown P key value h lo hi after page first rest path t t' l sound sep r' g).1
        ≡ a ∷ b ∷ c ∷ d ∷ x ∷ []
      → P.page_count t.pm + suc (suc h) < 2 ^ 32
      → Grows P key value (suc h) lo hi after (page, (first, rest)) path t
  unfolding left_node right_node
  shared a b c d x five small =
      let (t2, e2, same) =
        (reached P key value h lo hi after page first rest path t t' l sound sep r' g) in
      let low : P.page_count t'.pm < 2 ^ 32 = omega (arith, g.bounded) in
      let pid = P.page_count t2.pm in
      let f = (grown P key value h lo hi after page first rest path t t' l sound sep r' g).0 in
      let lefts : List (ℤ × Tree h) = a ∷ b ∷ [] in
      let rights : List (ℤ × Tree h) = d ∷ x ∷ [] in
      let all : List (ℤ × Tree h) = a ∷ b ∷ c ∷ d ∷ x ∷ [] in
      let left : Tree (suc h) = (page, (f, lefts)) in
      let right : Tree (suc h) = (pid, (c.1, rights)) in
      let (ka, (kb, (kc, (kd, (kx, nok))))) =
        subst (λ l. All IsInt64 (keys_of l)) five
          (grown-keys P key value h lo hi after page first rest path t t' l sound sep r' g) in
      let (cf, (ca, (cb, (cc, (cd, (cx, noc)))))) =
        subst (λ l. All (λ c. c < 2 ^ 32) (page_of h f ∷ children_of h l)) five
          ((grown-children P key value h lo hi after page first rest path t t' l sound sep r' g)
            low) in
      let (t3, e3, z) =
        allocate_page-Added P t2 same.ready (omega (arith, same.count, g.bounded)) in
      let (t4, e4, p) =
        write_node-Placed P page (node_of (suc h) left) t3 z.ready sound.0.3
          (omega (arith, same.count, g.grows, sound.0.0, z.count))
          (internal-IsNode h page f lefts (omega arith) (ka, (kb, tt)) (cf, (ca, (cb, tt)))) in
      let (t5, e5, q) =
        write_node-Placed P pid (node_of (suc h) right) t4 p.ready
          (omega (arith, same.count, g.grows, sound.0.0)) (omega (arith, p.count, z.count))
          (internal-IsNode h pid c.1 rights (omega arith) (kd, (kx, tt)) (cc, (cd, (cx, tt)))) in
      let frame : (r : ℕ)
          → HasAny (first_page h) (HasPage h) f
              (grown P key value h lo hi after page first rest path t t' l sound sep r' g).1 r
          → P.view t5.pm r ≡ P.view t'.pm r =
        λ r m.
          q.others r (λ e. omega (
            arith,
            e,
            same.count,
            ((grown_bounds P key value h lo hi after page first rest path t t' l sound sep r' g) r
                m).1,
          ))
          ∙ p.others r (λ e.
            page-free P key value h lo hi after page first rest path t t' l sound ((sep, r') ∷ []) g
              (subst
                (λ i.
                  HasAny (first_page h) (HasPage h) f
                    (grown P key value h lo hi after page first rest path t t' l sound sep r' g).1
                    i)
                e m))
          ∙ z.others r (
              omega (
                arith,
                same.count,
                ((grown_bounds P key value h lo hi after page first rest path t t' l sound sep r' g)
                    r m).1,
              ))
          ∙ ap (λ v. v r) same.pages in
      let counts : P.page_count t5.pm ≡ P.page_count t'.pm + 1 =
        omega (arith, q.count, p.count, z.count, same.count) in
      let (cl, over, below, apart, cr) =
        Chain-split (first_page h) (HasPage h) (SoundIn P t5 h) lo hi after c.0 f c.1 lefts rights (
          subst (λ l. ChainIn P t5 h lo hi after f l) five
            ((grown-Chain P key value h lo hi after page first rest path t t' l sound sep r' g) t5
              (omega (arith, counts)) frame)) in
      let of_left : (r : ℕ)
          → HasAny (first_page h) (HasPage h) f lefts r
          → HasAny (first_page h) (HasPage h) f
              (grown P key value h lo hi after page first rest path t t' l sound sep r' g).1 r =
        λ r m.
          subst (λ l. HasAny (first_page h) (HasPage h) f l r) (sym five)
            (HasAny-left (first_page h) (HasPage h) f c.1 c.0 lefts rights r m) in
      let of_right : (r : ℕ)
          → HasAny (first_page h) (HasPage h) c.1 rights r
          → HasAny (first_page h) (HasPage h) f
              (grown P key value h lo hi after page first rest path t t' l sound sep r' g).1 r =
        λ r m.
          subst (λ l. HasAny (first_page h) (HasPage h) f l r) (sym five)
            (HasAny-right (first_page h) (HasPage h) f c.1 c.0 lefts rights r m) in
      let owned : (r : ℕ)
          → HasAny (first_page h) (HasPage h) f
              (grown P key value h lo hi after page first rest path t t' l sound sep r' g).1 r
          → HasPage (suc h) (page, (first, rest)) r ⊎ (P.page_count t.pm ≤ r) =
        λ r m.
          elim (spliced-owns P key value h lo hi after page first rest path t t' l ((sep, r') ∷ [])
            sound g r m) [ inl j ↦ inl (inr j) | inr far ↦ inr far ] in
      (
        t5,
        left,
        (c.0, right) ∷ [],
        record {
          ran =
              e2
              ∙ ap
                  (λ m.
                    (above P key value h lo hi after page first rest path t t' l sound sep r' g)
                      (node_of (suc h) (page, (f, m))) t2)
                  five
              ∙ proceed P (split_internal P page (node_of (suc h) (page, (f, all))))
                  (λ (o : ℤ × ℕ). insert_in_parent P path o.0 o.1) (c.0, pid) t2 t5
                  (split_internal_run P page (node_of (suc h) (page, (f, all))) c.0 pid t2 t3 t4 t5
                    refl e3 e4 e5);
          ready = q.ready;
          root = q.root ∙ p.root ∙ z.root ∙ same.root ∙ g.root;
          grows = omega (arith, counts, g.grows);
          bounded = omega (arith, counts, g.bounded);
          sound = (
            (
              Holds-frame (P.page_count t4.pm) (P.page_count t5.pm) (P.view t4.pm) (P.view t5.pm)
                  page (node_of (suc h) left) (omega (arith, q.count))
                  (q.others page (λ e. omega (arith, e, same.count, g.grows, sound.0.0))) p.holds,
              omega arith,
              (λ m.
                  page-free P key value h lo hi after page first rest path t t' l sound
                    ((sep, r') ∷ []) g (of_left page m)),
              cl,
            ),
            over,
            below,
            (λ r m n. elim m [
              | inl i ↦ elim n [
                | inl j ↦ omega (arith, i, j, same.count, g.grows, sound.0.0)
                | inr j ↦
                    page-free P key value h lo hi after page first rest path t t' l sound
                      ((sep, r') ∷ []) g
                      (subst
                        (λ o.
                          HasAny (first_page h) (HasPage h) f
                            (grown P key value h lo hi after page first rest path t t' l sound sep
                              r' g).1
                            o)
                        i (of_right r j))
              ]
              | inr i ↦ elim n [
                | inl j ↦ omega (
                  arith,
                  j,
                  same.count,
                  ((grown_bounds P key value h lo hi after page first rest path t t' l sound sep r'
                        g)
                      r (of_left r i)).1,
                )
                | inr j ↦ apart r i j
              ]
            ]),
            (
              q.holds,
              omega arith,
              (λ m. omega (
                arith,
                same.count,
                ((grown_bounds P key value h lo hi after page first rest path t t' l sound sep r' g)
                    pid (of_right pid m)).1,
              )),
              cr,
            ),
          );
          page = refl;
          start =
              spliced-start P key value h lo hi after page first rest path t t' l ((sep, r') ∷ [])
                sound g;
          owns = λ r m. elim m [
            | inl i ↦ elim i [ inl j ↦ inl (inl j) | inr j ↦ owned r (of_left r j) ]
            | inr i ↦ elim i [
              | inl j ↦ inr (omega (arith, j, same.count, g.grows))
              | inr j ↦ owned r (of_right r j)
            ]
          ];
          stays = λ r low other.
              q.others r (λ e. omega (arith, e, same.count, g.grows))
              ∙ p.others r (λ e. other (inl e))
              ∙ z.others r (omega (arith, same.count, g.grows))
              ∙ ap (λ v. v r) same.pages
              ∙ g.stays r low
                  (λ m. other (inr (HasAny-select (first_page h) (HasPage h) key first rest r m)));
          rows =
              rows_split (rows_in h) c.0 f c.1 lefts rights
              ∙ ap (λ m. rows_in h f ++ behind (rows_in h) m) (sym five)
              ∙ spliced-rows P key value h lo hi after page first rest path t t' l ((sep, r') ∷ [])
                  sound g;
          separators = (kc, tt);
          single = omega arith;
        },
      )
