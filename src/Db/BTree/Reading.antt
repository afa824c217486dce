-- ===== src/Db/BTree/Reading.antt =====
-- The descents of demo-db/src/btree.cpp over a stored tree: they end, within as many rounds as the
-- tree has levels, and change no page that a client sees.
use c_book.Prelude.{
  ℕ, zero, suc, ◌<◌, ◌≡◌, refl, sym, ap, ◌∙◌, subst, false, List, ◌∷◌, Outcome, ok, All, arith,
  if◌then◌else◌,
}
use mathlib.Core.Path.{fun_ext}
use c_book.Prelude.Int.{ℤ}
use c_book.Db.PageManager.{Page, PageError}
use c_book.Db.PageStore.{PageStore}
use c_book.Db.BTree.Layout.{NodeData, fits_page}
use c_book.Db.BTree.Shape.{
  Tree, page_of, node_of, Holds, IsStored, select, leaf_for, trail, All-select,
}
use c_book.Db.BTree.Lookup.{select_page}
use c_book.Db.BTree.{
  BPlusTree, read_node, find_leaf_loop, Exec, continue, call, ◌>>=◌, lifted, fail, return,
  undefined_access,
}

module _ (P : PageStore) where
  -- After a call that reads: the store is ready and shows the same pages, the root stays.
  pub record Same (t t' : BPlusTree P) : Type 0 where
    pub ready : P.IsReady t'.pm
    pub count : P.page_count t'.pm ≡ P.page_count t.pm
    pub pages : P.view t'.pm ≡ P.view t.pm
    pub root : t'.root_page_id ≡ t.root_page_id

  -- A call that returned, and what it left.
  abbrev pub Returns : {A : Type 0} → Exec P A → A → BPlusTree P → Type 0
  Returns m a t = (t' : BPlusTree P) × (m t ≡ (ok a, t')) × Same t t'

  pub proceed :
      {A B : Type 0} (m : Exec P A) (f : A → Exec P B) (a : A) (t t' : BPlusTree P)
      → m t ≡ (ok a, t')
      → ◌>>=◌ m f t ≡ f a t'
  proceed m f a t t' e = ap (λ o. continue o.0 f o.1) e

  pub call-ok :
      {A : Type 0} (f : P.State → Outcome PageError A × P.State) (a : A) (t : BPlusTree P)
      (s : P.State)
      → f t.pm ≡ (ok a, s)
      → call P f t ≡ (ok a, record t { pm = s })
  call-ok f a t s e = ap (λ o. (lifted o.0, record t { pm = o.1 })) e

  pub Same-refl : (t : BPlusTree P) → P.IsReady t.pm → Same t t
  Same-refl t r = record { ready = r; count = refl; pages = refl; root = refl }

  pub Same-trans : (a b c : BPlusTree P) → Same a b → Same b c → Same a c
  Same-trans a b c x y = record {
    ready = y.ready;
    count = y.count ∙ x.count;
    pages = y.pages ∙ x.pages;
    root = y.root ∙ x.root;
  }

  -- What depends on the pages alone still holds after a call that reads.
  pub after {κ} :
      (Q : ℕ → (ℕ → Page) → Type κ) (t t' : BPlusTree P)
      → Same t t'
      → Q (P.page_count t.pm) (P.view t.pm)
      → Q (P.page_count t'.pm) (P.view t'.pm)
  after Q t t' same q =
      subst (λ c. Q c (P.view t'.pm)) (sym same.count)
        (subst (λ v. Q (P.page_count t.pm) v) (sym same.pages) q)

  abbrev pub HoldsIn : BPlusTree P → ℕ → NodeData → Type 0
  HoldsIn t = Holds (P.page_count t.pm) (P.view t.pm)

  abbrev pub IsStoredIn : BPlusTree P → (h : ℕ) → Tree h → Type 0
  IsStoredIn t = IsStored (P.page_count t.pm) (P.view t.pm)

  pub read_node-Holds :
      (pid : ℕ) (n : NodeData) (t : BPlusTree P)
      → P.IsReady t.pm
      → HoldsIn t pid n
      → Returns (read_node P pid) n t
  unfolding read_node
  read_node-Holds pid n t ready (low, decoded, node, above) =
      let (s, e, r, c, v) = P.reads pid t.pm ready low in
      let t' : BPlusTree P = record t { pm = s } in
      (
        t',
        proceed (call P (P.read_page pid)) _ (P.view t.pm pid) t t'
              (call-ok (P.read_page pid) (P.view t.pm pid) t s e)
            ∙ ap (λ m. (if fits_page m then return m else fail undefined_access) t') decoded
            ∙ ap (λ b. (if b then return n else fail undefined_access) t') node.fits,
        record { ready = r; count = c; pages = fun_ext v; root = refl },
      )

  -- Going on after a call that returned.
  pub continued :
      {A B : Type 0} (m : Exec P A) (f : A → Exec P B) (a : A) (b : B) (t : BPlusTree P)
      → Returns m a t
      → ((t' : BPlusTree P) → Same t t' → Returns (f a) b t')
      → Returns (◌>>=◌ m f) b t
  continued m f a b t (t', e, same) next =
      let (t'', e', same') = next t' same in
      (t'', proceed m f a t t' e ∙ e', Same-trans t t' t'' same same')

  pub page-Holds :
      (h : ℕ) (u : Tree h) (t : BPlusTree P)
      → IsStoredIn t h u
      → HoldsIn t (page_of h u) (node_of h u)
  page-Holds zero u t h = h
  page-Holds (suc h) u t k = k.0

  pub find_leaf_loop-Returns :
      (h rounds : ℕ) (u : Tree h) (key : ℤ) (path : List ℕ) (t : BPlusTree P)
      → P.IsReady t.pm
      → IsStoredIn t h u
      → h < rounds
      → Returns
          (find_leaf_loop P rounds key false (page_of h u) path)
          ((leaf_for key h u).page, trail key h u path)
          t
  unfolding find_leaf_loop
  find_leaf_loop-Returns h zero u key path t ready stored enough = absurd (omega arith)
  find_leaf_loop-Returns zero (suc rounds) u key path t ready stored enough =
      continued (read_node P u.page) _ (node_of zero u) _ t
        (read_node-Holds u.page (node_of zero u) t ready stored)
        (λ t' same. (t', refl, Same-refl t' same.ready))
  find_leaf_loop-Returns (suc h) (suc rounds) (page, (first, rest)) key path t ready
        (here, one, others) enough =
      continued (read_node P page) _ (node_of (suc h) (page, (first, rest))) _ t
        (read_node-Holds page (node_of (suc h) (page, (first, rest))) t ready here)
        (λ t' same.
          subst
            (λ q.
              Returns (find_leaf_loop P rounds key false q (page ∷ path))
                (
                  (leaf_for key h (select key first rest)).page,
                  trail key h (select key first rest) (page ∷ path),
                )
                t')
            (sym (select_page h key first rest))
            (find_leaf_loop-Returns h rounds (select key first rest) key (page ∷ path) t' same.ready
              (All-select (IsStoredIn t' h) key first rest
                (after (λ c v. IsStored c v h first) t t' same one)
                (after (λ c v. All (λ x. IsStored c v h x.1) rest) t t' same others))
              (omega arith)))
