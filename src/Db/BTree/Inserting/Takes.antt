-- ===== src/Db/BTree/Inserting/Takes.antt =====
-- `insert_in_parent` of demo-db/src/btree.cpp where the parent has room for the separator.
use c_book.Prelude.{
  ℕ, suc, ◌^◌, ◌<◌, ◌≤◌, ◌≡◌, refl, ap, ◌∙◌, subst, true, List, [], ◌∷◌, append-nil, Option, length,
  leb, arith, inl, inr, if◌then◌else◌,
}
use c_book.Prelude.Int.{ℤ}
use c_book.Db.PageStore.{PageStore}
use c_book.Db.BTree.Shape.{Tree, first_page}
use c_book.Db.BTree.Insertion.{insert_in_parent, split_internal}
use c_book.Db.BTree.{BPlusTree, ◌>>=◌, write_node}
use c_book.Db.BTree.Inserting.Chains.{HasAny, HasAny-select}
use c_book.Db.BTree.Inserting.Sound.{HasPage}
use c_book.Db.BTree.Inserting.Rows.{keys_of}
use c_book.Db.BTree.Inserting.Effects.{length-map, internal-IsNode, write_node-Placed}
use c_book.Db.BTree.Inserting.Growth.{Grows, SoundIn}
use c_book.Db.BTree.Inserting.Nodes.{spliced-owns, spliced-rows, spliced-start}
use c_book.Db.BTree.Inserting.Parents.{
  Child, page-free, grown, grown_node, grown-keys, grown-children, grown-Chain, above, reached,
}

module _ (P : PageStore) (key value : ℤ) (h : ℕ) (lo hi : Option ℤ) (after : ℕ) (page : ℕ)
    (first : Tree h) (rest : List (ℤ × Tree h)) (path : List ℕ) (t t' : BPlusTree P) (l : Tree h)
    (sound : SoundIn P t (suc h) lo hi after (page, (first, rest))) (sep : ℤ) (r' : Tree h)
    (g : Child P key value h lo hi after page first rest path t t' l sound ((sep, r') ∷ [])) where
  -- Four keys at most: the parent is written.
  pub taken :
      length (grown P key value h lo hi after page first rest path t t' l sound sep r' g).1 ≤ 4
      → P.page_count t'.pm < 2 ^ 32
      → Grows P key value (suc h) lo hi after (page, (first, rest)) path t
  taken few small =
      let (t2, e2, same) =
        (reached P key value h lo hi after page first rest path t t' l sound sep r' g) in
      let (t3, e3, p) =
        write_node-Placed P page
          (grown_node P key value h lo hi after page first rest path t t' l sound sep r' g) t2
          same.ready sound.0.3 (omega (arith, same.count, g.grows, sound.0.0))
          (internal-IsNode h page
            (grown P key value h lo hi after page first rest path t t' l sound sep r' g).0
            (grown P key value h lo hi after page first rest path t t' l sound sep r' g).1
            (omega arith)
            (grown-keys P key value h lo hi after page first rest path t t' l sound sep r' g)
            ((grown-children P key value h lo hi after page first rest path t t' l sound sep r' g)
              small)) in
      (
        t3,
        (page, (grown P key value h lo hi after page first rest path t t' l sound sep r' g)),
        [],
        record {
          ran =
              e2
              ∙ above_fits t2 (
                  ground (
                    arith,
                    length-map (λ (c : ℤ × Tree h). c.0)
                        (grown P key value h lo hi after page first rest path t t' l sound sep r'
                          g).1,
                  ))
              ∙ e3;
          ready = p.ready;
          root = p.root ∙ same.root ∙ g.root;
          grows = omega (arith, p.count, same.count, g.grows);
          bounded = omega (arith, p.count, same.count, g.bounded);
          sound = (
            p.holds,
            few,
            page-free P key value h lo hi after page first rest path t t' l sound ((sep, r') ∷ [])
                g,
            (grown-Chain P key value h lo hi after page first rest path t t' l sound sep r' g) t3
                (omega (arith, p.count, same.count))
                (λ q m.
                  p.others q (λ e.
                    page-free P key value h lo hi after page first rest path t t' l sound
                      ((sep, r') ∷ []) g
                      (subst
                        (λ i.
                          HasAny (first_page h) (HasPage h)
                            (grown P key value h lo hi after page first rest path t t' l sound sep
                              r' g).0
                            (grown P key value h lo hi after page first rest path t t' l sound sep
                              r' g).1
                            i)
                        e m))
                  ∙ ap (λ v. v q) same.pages),
          );
          page = refl;
          start =
              spliced-start P key value h lo hi after page first rest path t t' l ((sep, r') ∷ [])
                sound g;
          owns = λ q m. elim m [
            | inl i ↦ inl (inl i)
            | inr i ↦
                elim (spliced-owns P key value h lo hi after page first rest path t t' l
                  ((sep, r') ∷ []) sound g q i) [ inl j ↦ inl (inr j) | inr far ↦ inr far ]
          ];
          stays = λ q low other.
              p.others q (λ e. other (inl e))
              ∙ ap (λ v. v q) same.pages
              ∙ g.stays q low
                  (λ m. other (inr (HasAny-select (first_page h) (HasPage h) key first rest q m)));
          rows =
              append-nil _
              ∙ spliced-rows P key value h lo hi after page first rest path t t' l ((sep, r') ∷ [])
                  sound g;
          separators = tt;
          single = omega arith;
        },
      )
    where
      above_fits :
          (t2 : BPlusTree P)
          → leb
              (length (
                keys_of
                  (grown P key value h lo hi after page first rest path t t' l sound sep r' g).1))
              4
            ≡ true
          → (above P key value h lo hi after page first rest path t t' l sound sep r' g)
              (grown_node P key value h lo hi after page first rest path t t' l sound sep r' g)
              t2
            ≡ write_node P page
                (grown_node P key value h lo hi after page first rest path t t' l sound sep r' g)
                t2
      above_fits t2 e =
          ap
            (λ b.
              (if b
                  then write_node P page (
                      grown_node P key value h lo hi after page first rest path t t' l sound sep r'
                        g)
                  else (split_internal P page (
                        grown_node P key value h lo hi after page first rest path t t' l sound sep
                          r' g)
                      >>= λ (o : ℤ × ℕ). insert_in_parent P path o.0 o.1))
                t2)
            e
