-- ===== src/Db/BTree/Inserting/Parents.antt =====
-- `insert` of demo-db/src/btree.cpp at the parent of a child that was kept whole, or was split: the
-- parent takes the separator and the right half, and is itself split where it has five keys.
use c_book.Prelude.{
  ℕ, suc, ◌+◌, ◌^◌, ◌<◌, ◌≤◌, ◌≡◌, refl, sym, ap, ap₂, ◌∙◌, subst, List, [], ◌∷◌, append-nil, take,
  Option, All, All-append, All-take, All-drop, length, leb, arith, inl, inr, if◌then◌else◌,
}
use c_book.Prelude.Int.{ℤ}
use c_book.Db.Wal.Records.{IsInt64}
use c_book.Db.PageStore.{PageStore}
use c_book.Db.BTree.Search.{upper_bound, insert_at}
use c_book.Db.BTree.Layout.{NodeData, internal}
use c_book.Db.BTree.Shape.{
  Tree, page_of, children_of, node_of, first_page, select, leaf_for, trail, Holds,
}
use c_book.Db.BTree.Insertion.{insert_in_parent, split_internal, with_child}
use c_book.Db.BTree.{BPlusTree, Exec, ◌>>=◌, read_node, write_node}
use c_book.Db.BTree.Reading.{Same, proceed, read_node-Holds}
use c_book.Db.BTree.Inserting.Chains.{
  IsOver-IsAbove, HasAny, HasAny-select, Chain-imp, splice, low_at, high_at, after_at, start-splice,
}
use c_book.Db.BTree.Inserting.Sound.{
  Chain-HasAny, HasPage, HasPage-bounds, page_of-HasPage, Sound-frame, Holds-frame, Chain-All,
}
use c_book.Db.BTree.Inserting.Rows.{
  keys_of, keys-splice, keys-splice_same, pages-splice, pages-splice_same, length-splice,
}
use c_book.Db.BTree.Inserting.Places.{All-to_map}
use c_book.Db.BTree.Inserting.Growth.{place, Grows, Grown, SoundIn, ChainIn}
use c_book.Db.BTree.Inserting.Nodes.{spliced-owns, spliced-Chain, spliced-rows, spliced-start}

abbrev node_over : List ℤ → List ℕ → NodeData
node_over ks cs = record { type = internal; keys = ks; values = []; children = cs; next_leaf = 0 }

module _ (P : PageStore) (key value : ℤ) (h : ℕ) (lo hi : Option ℤ) (after : ℕ) (page : ℕ)
    (first : Tree h) (rest : List (ℤ × Tree h)) (path : List ℕ) (t t' : BPlusTree P) (l : Tree h)
    (sound : SoundIn P t (suc h) lo hi after (page, (first, rest))) where
  abbrev pub Child : List (ℤ × Tree h) → Type 0
  Child more =
      Grown P key value h (low_at key lo rest) (high_at key hi rest)
        (after_at (first_page h) key after rest) (select key first rest) (page ∷ path) t t' l more

  -- The node's page is no page of its children, and so stays.
  pub page-stays : (more : List (ℤ × Tree h)) → Child more → P.view t'.pm page ≡ P.view t.pm page
  page-stays more g =
      g.stays page sound.0.0
        (λ m. sound.2 (HasAny-select (first_page h) (HasPage h) key first rest page m))

  -- Nor is it one of theirs afterwards.
  pub page-free :
      (more : List (ℤ × Tree h)) (g : Child more)
      → let (f, r) = splice key l more first rest in ¬ HasAny (first_page h) (HasPage h) f r page
  page-free more g m =
      elim (spliced-owns P key value h lo hi after page first rest path t t' l more sound g page
        m) [ inl i ↦ sound.2 i | inr far ↦ omega (arith, far, sound.0.0) ]

  pub kept : Child [] → Grows P key value (suc h) lo hi after (page, (first, rest)) path t
  kept g =
      let (f, r) = splice key l [] first rest in
      let same_node = ap₂ node_over (sym (keys-splice_same key l first rest)) (
        sym (
          ap₂ (λ n m. n ∷ m) (start-splice (page_of h) (HasPage h) key l first [] rest g.page)
            (pages-splice_same (page_of h) key l first rest g.page))) in
      (
        t',
        (page, (f, r)),
        [],
        record {
          ran = g.ran;
          ready = g.ready;
          root = g.root;
          grows = g.grows;
          bounded = omega (arith, g.bounded);
          sound = (
            subst (λ n. Holds (P.page_count t'.pm) (P.view t'.pm) page n) same_node
                (Holds-frame (P.page_count t.pm) (P.page_count t'.pm) (P.view t.pm) (P.view t'.pm)
                  page _ g.grows (page-stays [] g) sound.0),
            omega (arith, length-splice key l first [] rest, sound.1),
            page-free [] g,
            spliced-Chain P key value h lo hi after page first rest path t t' l [] sound g,
          );
          page = refl;
          start = spliced-start P key value h lo hi after page first rest path t t' l [] sound g;
          owns = λ q m. elim m [
            | inl i ↦ inl (inl i)
            | inr i ↦
                elim (spliced-owns P key value h lo hi after page first rest path t t' l [] sound g
                  q i) [ inl j ↦ inl (inr j) | inr far ↦ inr far ]
          ];
          stays = λ q low other.
              g.stays q low
                (λ m. other (inr (HasAny-select (first_page h) (HasPage h) key first rest q m)));
          rows =
              append-nil _
              ∙ spliced-rows P key value h lo hi after page first rest path t t' l [] sound g;
          separators = tt;
          single = omega arith;
        },
      )

  module _ (sep : ℤ) (r' : Tree h) (g : Child ((sep, r') ∷ [])) where
    abbrev pub grown : Tree h × List (ℤ × Tree h)
    grown = splice key l ((sep, r') ∷ []) first rest

    -- The parent with the separator and the right half put in.
    abbrev pub grown_node : NodeData
    grown_node = node_of (suc h) (page, grown)

    grown_node_lem :
        with_child sep (page_of h r') (node_of (suc h) (page, (first, rest))) ≡ grown_node
    unfolding with_child
    grown_node_lem =
        let (s, over, below, away, s') = g.sound in
        let above = IsOver-IsAbove (low_at key lo rest) sep over in
        ap₂ node_over
          (sym (
            keys-splice (first_page h) (HasPage h) (SoundIn P t h) key sep lo hi after l r' first
              rest sound.3 above below))
          (at_next (page_of h first) (page_of h r') (upper_bound (keys_of rest) sep)
              (children_of h rest)
            ∙ sym (
                ap₂ (λ n m. n ∷ m)
                  (start-splice (page_of h) (HasPage h) key l first ((sep, r') ∷ []) rest g.page)
                  (pages-splice (first_page h) (HasPage h) (SoundIn P t h) (page_of h) key sep lo hi
                    after l r' first rest sound.3 above below g.page)))
      where
        at_next : (a x n : ℕ) (cs : List ℕ) → insert_at (n + 1) x (a ∷ cs) ≡ a ∷ insert_at n x cs
        at_next a x n cs =
            let e : suc n ≡ n + 1 = omega arith in
            subst (λ m. insert_at m x (a ∷ cs) ≡ a ∷ insert_at n x cs) e refl

    pub grown-keys : All IsInt64 (keys_of grown.1)
    grown-keys =
        let (s, over, below, away, s') = g.sound in
        let idx = upper_bound (keys_of rest) sep in
        subst (All IsInt64)
          (sym (
            keys-splice (first_page h) (HasPage h) (SoundIn P t h) key sep lo hi after l r' first
              rest sound.3 (IsOver-IsAbove (low_at key lo rest) sep over) below))
          (All-append IsInt64 (take idx (keys_of rest)) _
            (All-take IsInt64 idx (keys_of rest) sound.0.2.keys)
            (g.separators.0, All-drop IsInt64 idx (keys_of rest) sound.0.2.keys))

    pub grown-children :
        P.page_count t'.pm < 2 ^ 32
        → All (λ c. c < 2 ^ 32) (page_of h grown.0 ∷ children_of h grown.1)
    grown-children small =
        let (a, b) =
          Chain-All (first_page h) (HasPage h) (SoundIn P t' h) (λ v. page_of h v < 2 ^ 32) lo hi
            after grown.0 grown.1
            (λ a b n v s.
              let low =
                HasPage-bounds (P.page_count t'.pm) (P.view t'.pm) h a b n v s (page_of h v)
                  (page_of-HasPage h v) in
              omega (arith, low.1))
            (spliced-Chain P key value h lo hi after page first rest path t t' l ((sep, r') ∷ [])
              sound g) in
        (a, All-to_map (λ c. c < 2 ^ 32) (λ (c : ℤ × Tree h). page_of h c.1) grown.1 b)

    pub grown-Chain :
        (t3 : BPlusTree P)
        → P.page_count t'.pm ≤ P.page_count t3.pm
        → ((q : ℕ)
            → HasAny (first_page h) (HasPage h) grown.0 grown.1 q
            → P.view t3.pm q ≡ P.view t'.pm q)
        → ChainIn P t3 h lo hi after grown.0 grown.1
    grown-Chain t3 more e =
        Chain-imp (first_page h) (HasPage h) (SoundIn P t' h) (SoundIn P t3 h) lo hi after grown.0
          grown.1
          (λ a b n v sub s.
            Sound-frame (P.page_count t'.pm) (P.page_count t3.pm) (P.view t'.pm) (P.view t3.pm) h a
              b n v more (λ q m. e q (sub q m)) s)
          (spliced-Chain P key value h lo hi after page first rest path t t' l ((sep, r') ∷ [])
            sound g)

    -- What `insert_in_parent` does with the parent that it has read and changed.
    abbrev pub above : NodeData → Exec P Unit
    above n =
        if leb (length n.keys) 4
        then write_node P page n
        else (split_internal P page n >>= λ (o : ℤ × ℕ). insert_in_parent P path o.0 o.1)

    pub reached :
        (t2 : BPlusTree P) × (place P key value
            (
              (leaf_for key (suc h) (page, (first, rest))).page,
              trail key (suc h) (page, (first, rest)) path,
            )
            t
          ≡ above grown_node t2)
        × Same P t' t2
    unfolding insert_in_parent
    reached =
        let n = node_of (suc h) (page, (first, rest)) in
        let (t2, e, same) = read_node-Holds P page n t' g.ready (
          Holds-frame (P.page_count t.pm) (P.page_count t'.pm) (P.view t.pm) (P.view t'.pm) page n
            g.grows (page-stays ((sep, r') ∷ []) g) sound.0) in
        (
          t2,
          g.ran
              ∙ proceed P (read_node P page) (λ m. above (with_child sep (page_of h r') m)) n t' t2
                  e
              ∙ ap (λ m. above m t2) grown_node_lem,
          same,
        )

    pub grown_bounds :
        (q : ℕ)
        → HasAny (first_page h) (HasPage h) grown.0 grown.1 q
        → (0 < q) × (q < P.page_count t'.pm)
    grown_bounds =
        Chain-HasAny (first_page h) (HasPage h) (SoundIn P t' h)
          (λ q. (0 < q) × (q < P.page_count t'.pm)) lo hi after grown.0 grown.1
          (HasPage-bounds (P.page_count t'.pm) (P.view t'.pm) h)
          (spliced-Chain P key value h lo hi after page first rest path t t' l ((sep, r') ∷ [])
            sound g)
