-- ===== src/Db/BTree/Inserting/Sound.antt =====
-- What the pages of demo-db/src/btree.cpp keep across insertions: each node on a page of its own, with
-- four keys at most, the keys in order, and the leaves linked.
use c_book.Prelude.{
  ℕ, zero, suc, ◌<◌, ◌≤◌, ◌≡◌, refl, ap, ◌∙◌, List, [], ◌∷◌, Option, some, All, ◌⊎◌, length, arith,
  inl, inr,
}
use c_book.Prelude.Int.{ℤ}
use c_book.Db.PageManager.{Page}
use c_book.Db.BTree.Layout.{NodeData, decode_node}
use c_book.Db.BTree.Shape.{
  Tree, page_of, node_of, first_page, Holds, IsStored, IsAbove, AreRising, Chained, IsOrdered,
  Linked, IsLinked,
}
use c_book.Db.BTree.Inserting.Chains.{IsOver-IsAbove, HasAny, Chain, Chain-imp}

-- The pages of a tree.
abbrev pub HasPage : (h : ℕ) → Tree h → ℕ → Type 0
HasPage zero t q = q ≡ t.page
HasPage (suc h) (page, (first, rest)) q =
    (q ≡ page) ⊎ HasAny (first_page h) (HasPage h) first rest q

abbrev pub Sound : ℕ → (ℕ → Page) → (h : ℕ) → Option ℤ → Option ℤ → ℕ → Tree h → Type 0
Sound count view zero lo hi after t =
    Holds count view t.page (node_of zero t)
    × AreRising hi t.rows
    × All (λ r. IsAbove lo r.0) t.rows
    × (t.next ≡ after)
    × (length t.rows ≤ 4)
Sound count view (suc h) lo hi after (page, (first, rest)) =
    Holds count view page (node_of (suc h) (page, (first, rest)))
    × (length rest ≤ 4)
    × (¬ HasAny (first_page h) (HasPage h) first rest page)
    × Chain (first_page h) (HasPage h) (Sound count view h) lo hi after first rest

module _ {T : Type 0} (start : T → ℕ) (has : T → ℕ → Type 0)
    (Q : Option ℤ → Option ℤ → ℕ → T → Type 0) where
  pub Chain-All :
      (P : T → Type 0) (lo hi : Option ℤ) (after : ℕ) (t : T) (cs : List (ℤ × T))
      → ((a b : Option ℤ) (n : ℕ) (v : T) → Q a b n v → P v)
      → Chain start has Q lo hi after t cs
      → P t × All (λ c. P c.1) cs
  Chain-All P lo hi after t [] f c = (f lo hi after t c, tt)
  Chain-All P lo hi after t ((k, u) ∷ cs) f (p, a, b, away, c) =
      (f lo (some k) (start u) t p, Chain-All P (some k) hi after u cs f c)

  pub Chain-Chained :
      (P : Option ℤ → Option ℤ → T → Type 0) (lo hi : Option ℤ) (after : ℕ) (t : T)
      (cs : List (ℤ × T))
      → ((a b : Option ℤ) (n : ℕ) (v : T) → Q a b n v → P a b v)
      → Chain start has Q lo hi after t cs
      → Chained P lo hi t cs
  Chain-Chained P lo hi after t [] f c = f lo hi after t c
  Chain-Chained P lo hi after t ((k, u) ∷ cs) f (p, a, b, away, c) = (
    f lo (some k) (start u) t p,
    IsOver-IsAbove lo k a,
    b,
    Chain-Chained P (some k) hi after u cs f c,
  )

  Chain-Linked :
      (P : ℕ → T → Type 0) (lo hi : Option ℤ) (after : ℕ) (t : T) (cs : List (ℤ × T))
      → ((a b : Option ℤ) (n : ℕ) (v : T) → Q a b n v → P n v)
      → Chain start has Q lo hi after t cs
      → Linked P start after t cs
  Chain-Linked P lo hi after t [] f c = f lo hi after t c
  Chain-Linked P lo hi after t ((k, u) ∷ cs) f (p, a, b, away, c) =
      (f lo (some k) (start u) t p, Chain-Linked P (some k) hi after u cs f c)

  pub Chain-HasAny :
      (P : ℕ → Type 0) (lo hi : Option ℤ) (after : ℕ) (t : T) (cs : List (ℤ × T))
      → ((a b : Option ℤ) (n : ℕ) (v : T) → Q a b n v → (q : ℕ) → has v q → P q)
      → Chain start has Q lo hi after t cs
      → (q : ℕ) → HasAny start has t cs q
      → P q
  Chain-HasAny P lo hi after t [] f c q m = f lo hi after t c q m
  Chain-HasAny P lo hi after t ((k, u) ∷ cs) f (p, a, b, away, c) q (inl m) =
      f lo (some k) (start u) t p q m
  Chain-HasAny P lo hi after t ((k, u) ∷ cs) f (p, a, b, away, c) q (inr m) =
      Chain-HasAny P (some k) hi after u cs f c q m

module _ (count : ℕ) (view : ℕ → Page) where
  pub Sound-IsStored :
      (h : ℕ) (lo hi : Option ℤ) (after : ℕ) (u : Tree h)
      → Sound count view h lo hi after u
      → IsStored count view h u
  Sound-IsStored zero lo hi after u s = s.0
  Sound-IsStored (suc h) lo hi after (page, (first, rest)) (here, few, away, c) =
      let (a, b) =
        Chain-All (first_page h) (HasPage h) (Sound count view h) (IsStored count view h) lo hi
          after first rest (Sound-IsStored h) c in
      (here, a, b)

  pub Sound-IsOrdered :
      (h : ℕ) (lo hi : Option ℤ) (after : ℕ) (u : Tree h)
      → Sound count view h lo hi after u
      → IsOrdered lo hi h u
  Sound-IsOrdered zero lo hi after u s = (s.1, s.2)
  Sound-IsOrdered (suc h) lo hi after (page, (first, rest)) (here, few, away, c) =
      Chain-Chained (first_page h) (HasPage h) (Sound count view h) (λ l m t. IsOrdered l m h t) lo
        hi after first rest (λ a b n v s. Sound-IsOrdered h a b n v s) c

  pub Sound-IsLinked :
      (h : ℕ) (lo hi : Option ℤ) (after : ℕ) (u : Tree h)
      → Sound count view h lo hi after u
      → IsLinked after h u
  Sound-IsLinked zero lo hi after u s = s.3
  Sound-IsLinked (suc h) lo hi after (page, (first, rest)) (here, few, away, c) =
      Chain-Linked (first_page h) (HasPage h) (Sound count view h) (λ n t. IsLinked n h t) lo hi
        after first rest (λ a b n v s. Sound-IsLinked h a b n v s) c

  pub HasPage-bounds :
      (h : ℕ) (lo hi : Option ℤ) (after : ℕ) (u : Tree h)
      → Sound count view h lo hi after u
      → (q : ℕ) → HasPage h u q
      → (0 < q) × (q < count)
  HasPage-bounds zero lo hi after u ((low, decoded, node, above), s, i, n, few) q m =
      (omega (arith, m), omega (arith, m))
  HasPage-bounds (suc h) lo hi after (page, (first, rest)) ((low, d, node, above), few, i, c) q
        (inl m) =
      (omega (arith, m), omega (arith, m))
  HasPage-bounds (suc h) lo hi after (page, (first, rest)) (here, few, away, c) q (inr m) =
      Chain-HasAny (first_page h) (HasPage h) (Sound count view h) (λ p. (0 < p) × (p < count)) lo
        hi after first rest (HasPage-bounds h) c q m

pub page_of-HasPage : (h : ℕ) (u : Tree h) → HasPage h u (page_of h u)
page_of-HasPage zero u = refl
page_of-HasPage (suc h) u = inl refl

pub Holds-frame :
    (count count' : ℕ) (view view' : ℕ → Page) (page : ℕ) (n : NodeData)
    → count ≤ count'
    → view' page ≡ view page
    → Holds count view page n
    → Holds count' view' page n
Holds-frame count count' view view' page n more e (low, decoded, node, above) =
    (omega arith, ap decode_node e ∙ decoded, node, above)

-- A tree stays where its pages stay.
pub Sound-frame :
    (count count' : ℕ) (view view' : ℕ → Page) (h : ℕ) (lo hi : Option ℤ) (after : ℕ) (u : Tree h)
    → count ≤ count'
    → ((q : ℕ) → HasPage h u q → view' q ≡ view q)
    → Sound count view h lo hi after u
    → Sound count' view' h lo hi after u
Sound-frame count count' view view' zero lo hi after u more e (here, s, i, n, few) = (
  Holds-frame count count' view view' u.page (node_of 0 u) more (e u.page refl) here,
  s,
  i,
  n,
  few,
)
Sound-frame count count' view view' (suc h) lo hi after (page, (first, rest)) more e
      (here, few, away, c) =
    (
      Holds-frame count count' view view' page (node_of (suc h) (page, (first, rest))) more
          (e page (inl refl)) here,
      few,
      away,
      Chain-imp (first_page h) (HasPage h) (Sound count view h) (Sound count' view' h) lo hi after
          first rest
          (λ a b n v sub s.
            Sound-frame count count' view view' h a b n v more (λ q m. e q (inr (sub q m))) s)
          c,
    )
