-- ===== src/Db/BTree/Inserting/Chains.antt =====
-- The children of an internal node of demo-db/src/btree.cpp as a chain: each over its own interval of
-- keys, linked to the next one, on pages of its own; and a child replaced by its two halves.
use c_book.Prelude.{
  ℕ, ◌<◌, ◌≤◌, ◌≡◌, refl, sym, subst, List, [], ◌∷◌, ◌++◌, Option, none, some, ◌⊎◌, arith, inl, inr,
  Bool-cases, if◌then◌else◌,
}
use c_book.Prelude.Int.{ℤ, ltb_ℤ, ◌<ℤ◌}
use c_book.Db.BTree.Shape.{IsAbove, IsBelow, select}
use c_book.Db.BTree.Lookup.{IsBelow-trans}

abbrev pub IsApart : (ℕ → Type 0) → (ℕ → Type 0) → Type 0
IsApart A B = (q : ℕ) → A q → ¬ B q

abbrev pub IsOver : Option ℤ → ℤ → Type 0
IsOver none k = Unit
IsOver (some b) k = b <ℤ k

pub IsOver-IsAbove : (lo : Option ℤ) (k : ℤ) → IsOver lo k → IsAbove lo k
IsOver-IsAbove none k o = tt
IsOver-IsAbove (some b) k o = omega arith

pub IsOver-trans : (lo : Option ℤ) (k x : ℤ) → IsAbove lo k → k <ℤ x → IsOver lo x
IsOver-trans none k x a l = tt
IsOver-trans (some b) k x a l = omega arith

-- The bounds and the next leaf of the child that `select` chooses.
abbrev pub low_at : {T : Type 0} → ℤ → Option ℤ → List (ℤ × T) → Option ℤ
low_at key lo [] = lo
low_at key lo ((k, u) ∷ cs) = let rest = low_at key (some k) cs in if ltb_ℤ key k then lo else rest

abbrev pub high_at : {T : Type 0} → ℤ → Option ℤ → List (ℤ × T) → Option ℤ
high_at key hi [] = hi
high_at key hi ((k, u) ∷ cs) = let rest = high_at key hi cs in if ltb_ℤ key k then some k else rest

abbrev pub after_at : {T : Type 0} → (T → ℕ) → ℤ → ℕ → List (ℤ × T) → ℕ
after_at start key after [] = after
after_at start key after ((k, u) ∷ cs) =
    let rest = after_at start key after cs in if ltb_ℤ key k then start u else rest

-- The child over the key gives way to `l` and the children `more` behind it.
abbrev pub splice : {T : Type 0} → ℤ → T → List (ℤ × T) → T → List (ℤ × T) → T × List (ℤ × T)
splice key l more t [] = (l, more)
splice key l more t ((k, u) ∷ cs) =
    let rest = splice key l more u cs in
    if ltb_ℤ key k then (l, more ++ (k, u) ∷ cs) else (t, (k, rest.0) ∷ rest.1)

pub low_at-IsAbove :
    {T : Type 0} (key : ℤ) (lo : Option ℤ) (cs : List (ℤ × T))
    → IsAbove lo key
    → IsAbove (low_at key lo cs) key
low_at-IsAbove key lo [] a = a
low_at-IsAbove key lo ((k, u) ∷ cs) a = elim (Bool-cases (ltb_ℤ key k)) [
  | inl low ↦ rw low a
  | inr high ↦ rw high (low_at-IsAbove key (some k) cs (ground arith))
]

pub high_at-IsBelow :
    {T : Type 0} (key : ℤ) (hi : Option ℤ) (cs : List (ℤ × T))
    → IsBelow hi key
    → IsBelow (high_at key hi cs) key
high_at-IsBelow key hi [] b = b
high_at-IsBelow key hi ((k, u) ∷ cs) b = elim (Bool-cases (ltb_ℤ key k)) [
  | inl low ↦ rw low (ground arith)
  | inr high ↦ rw high (high_at-IsBelow key hi cs b)
]

module _ {T : Type 0} (start : T → ℕ) (has : T → ℕ → Type 0) where
  -- The pages of some child.
  abbrev pub HasAny : T → List (ℤ × T) → ℕ → Type 0
  HasAny t [] q = has t q
  HasAny t ((k, u) ∷ cs) q = has t q ⊎ HasAny u cs q

  abbrev pub Chain :
      (Option ℤ → Option ℤ → ℕ → T → Type 0) → Option ℤ → Option ℤ → ℕ → T → List (ℤ × T) → Type 0
  Chain Q lo hi after t [] = Q lo hi after t
  Chain Q lo hi after t ((k, u) ∷ cs) =
      Q lo (some k) (start u) t
      × IsOver lo k
      × IsBelow hi k
      × IsApart (has t) (HasAny u cs)
      × Chain Q (some k) hi after u cs

  pub HasAny-append :
      (t u : T) (k : ℤ) (cs ds : List (ℤ × T)) (q : ℕ)
      → HasAny t (cs ++ (k, u) ∷ ds) q
      → HasAny t cs q ⊎ HasAny u ds q
  HasAny-append t u k [] ds q m = m
  HasAny-append t u k ((j, v) ∷ cs) ds q (inl m) = inl (inl m)
  HasAny-append t u k ((j, v) ∷ cs) ds q (inr m) = elim (HasAny-append v u k cs ds q m) [
    | inl a ↦ inl (inr a)
    | inr b ↦ inr b
  ]

  pub HasAny-left :
      (t u : T) (k : ℤ) (cs ds : List (ℤ × T)) (q : ℕ)
      → HasAny t cs q
      → HasAny t (cs ++ (k, u) ∷ ds) q
  HasAny-left t u k [] ds q m = inl m
  HasAny-left t u k ((j, v) ∷ cs) ds q (inl m) = inl m
  HasAny-left t u k ((j, v) ∷ cs) ds q (inr m) = inr (HasAny-left v u k cs ds q m)

  pub HasAny-right :
      (t u : T) (k : ℤ) (cs ds : List (ℤ × T)) (q : ℕ)
      → HasAny u ds q
      → HasAny t (cs ++ (k, u) ∷ ds) q
  HasAny-right t u k [] ds q m = inr m
  HasAny-right t u k ((j, v) ∷ cs) ds q m = inr (HasAny-right v u k cs ds q m)

  pub HasAny-first : (t : T) (cs : List (ℤ × T)) (q : ℕ) → has t q → HasAny t cs q
  HasAny-first t [] q m = m
  HasAny-first t ((k, u) ∷ cs) q m = inl m

  pub HasAny-select :
      (key : ℤ) (t : T) (cs : List (ℤ × T)) (q : ℕ) → has (select key t cs) q → HasAny t cs q
  HasAny-select key t [] q = λ m. m
  HasAny-select key t ((k, u) ∷ cs) q = elim (Bool-cases (ltb_ℤ key k)) [
    | inl low ↦ rw low (λ m. inl m)
    | inr high ↦ rw high (λ m. inr (HasAny-select key u cs q m))
  ]

  pub HasAny-splice :
      (key : ℤ) (l t : T) (more cs : List (ℤ × T)) (q : ℕ)
      → HasAny (splice key l more t cs).0 (splice key l more t cs).1 q
      → HasAny l more q ⊎ HasAny t cs q
  HasAny-splice key l t more [] q = λ m. inl m
  HasAny-splice key l t more ((k, u) ∷ cs) q = elim (Bool-cases (ltb_ℤ key k)) [
    | inl low ↦
        rw low (λ m. elim (HasAny-append l u k more cs q m) [ inl a ↦ inl a | inr b ↦ inr (inr b) ])
    | inr high ↦ rw high (λ m. elim m [
      | inl a ↦ inr (inl a)
      | inr b ↦ elim (HasAny-splice key l u more cs q b) [ inl x ↦ inl x | inr y ↦ inr (inr y) ]
    ])
  ]

  pub start-splice :
      (key : ℤ) (l t : T) (more cs : List (ℤ × T))
      → start l ≡ start (select key t cs)
      → start (splice key l more t cs).0 ≡ start t
  start-splice key l t more [] = λ e. e
  start-splice key l t more ((k, u) ∷ cs) = elim (Bool-cases (ltb_ℤ key k)) [
    | inl low ↦ rw low (λ e. e)
    | inr high ↦ rw high (λ e. refl)
  ]

  pub Chain-append :
      (Q : Option ℤ → Option ℤ → ℕ → T → Type 0) (lo hi : Option ℤ) (after : ℕ) (k : ℤ) (t u : T)
      (cs ds : List (ℤ × T))
      → Chain Q lo (some k) (start u) t cs
      → IsOver lo k
      → IsBelow hi k
      → IsApart (HasAny t cs) (HasAny u ds)
      → Chain Q (some k) hi after u ds
      → Chain Q lo hi after t (cs ++ (k, u) ∷ ds)
  Chain-append Q lo hi after k t u [] ds c a b apart d = (c, a, b, apart, d)
  Chain-append Q lo hi after k t u ((j, v) ∷ cs) ds (p, x, y, away, c) a b apart d = (
    p,
    x,
    IsBelow-trans hi k j b y,
    λ q m n. elim (HasAny-append v u k cs ds q n) [
      | inl i ↦ away q m i
      | inr i ↦ apart q (inl m) i
    ],
    Chain-append Q (some j) hi after k v u cs ds c (omega arith) b (λ q m n. apart q (inr m) n) d,
  )

  -- A chain in two, at one of its separators.
  pub Chain-split :
      (Q : Option ℤ → Option ℤ → ℕ → T → Type 0) (lo hi : Option ℤ) (after : ℕ) (k : ℤ) (t u : T)
      (cs ds : List (ℤ × T))
      → Chain Q lo hi after t (cs ++ (k, u) ∷ ds)
      → Chain Q lo (some k) (start u) t cs
        × IsOver lo k
        × IsBelow hi k
        × IsApart (HasAny t cs) (HasAny u ds)
        × Chain Q (some k) hi after u ds
  Chain-split Q lo hi after k t u [] ds (p, a, b, away, c) = (p, a, b, away, c)
  Chain-split Q lo hi after k t u ((j, v) ∷ cs) ds (p, a, b, away, c) =
      let (c', over, below, apart, d) = Chain-split Q (some j) hi after k v u cs ds c in
      (
        (p, a, over, (λ q m n. away q m (HasAny-left v u k cs ds q n)), c'),
        IsOver-trans lo j k (IsOver-IsAbove lo j a) over,
        below,
        (λ q m n. elim m [ inl i ↦ away q i (HasAny-right v u k cs ds q n) | inr i ↦ apart q i n ]),
        d,
      )

  pub Chain-imp :
      (Q Q' : Option ℤ → Option ℤ → ℕ → T → Type 0) (lo hi : Option ℤ) (after : ℕ) (t : T)
      (cs : List (ℤ × T))
      → ((l m : Option ℤ) (a : ℕ) (v : T)
          → ((q : ℕ) → has v q → HasAny t cs q)
          → Q l m a v
          → Q' l m a v)
      → Chain Q lo hi after t cs
      → Chain Q' lo hi after t cs
  Chain-imp Q Q' lo hi after t [] f c = f lo hi after t (λ q m. m) c
  Chain-imp Q Q' lo hi after t ((k, u) ∷ cs) f (p, a, b, away, c) = (
    f lo (some k) (start u) t (λ q m. inl m) p,
    a,
    b,
    away,
    Chain-imp Q Q' (some k) hi after u cs (λ l m x v g. f l m x v (λ q n. inr (g q n))) c,
  )

  pub Chain-select :
      (Q : Option ℤ → Option ℤ → ℕ → T → Type 0) (key : ℤ) (lo hi : Option ℤ) (after : ℕ) (t : T)
      (cs : List (ℤ × T))
      → Chain Q lo hi after t cs
      → Q (low_at key lo cs) (high_at key hi cs) (after_at start key after cs) (select key t cs)
  Chain-select Q key lo hi after t [] c = c
  Chain-select Q key lo hi after t ((k, u) ∷ cs) (p, a, b, away, c) =
      elim (Bool-cases (ltb_ℤ key k)) [
        | inl low ↦ rw low p
        | inr high ↦ rw high (Chain-select Q key (some k) hi after u cs c)
      ]

  pub Chain-splice :
      (Q Q' : Option ℤ → Option ℤ → ℕ → T → Type 0) (count : ℕ) (key : ℤ) (lo hi : Option ℤ)
      (after : ℕ) (l t : T) (more cs : List (ℤ × T))
      → Chain Q lo hi after t cs
      → ((q : ℕ) → HasAny t cs q → q < count)
      → Chain Q' (low_at key lo cs) (high_at key hi cs) (after_at start key after cs) l more
      → start l ≡ start (select key t cs)
      → ((q : ℕ) → HasAny l more q → has (select key t cs) q ⊎ (count ≤ q))
      → ((a b : Option ℤ) (n : ℕ) (v : T)
          → IsApart (has v) (has (select key t cs))
          → ((q : ℕ) → has v q → HasAny t cs q)
          → Q a b n v
          → Q' a b n v)
      → Chain Q' lo hi after (splice key l more t cs).0 (splice key l more t cs).1
  Chain-splice Q Q' count key lo hi after l t more [] c old = λ new s g f. new
  Chain-splice Q Q' count key lo hi after l t more ((k, u) ∷ cs) (p, a, b, away, c) old =
      elim (Bool-cases (ltb_ℤ key k)) [
        | inl low ↦ rw low (λ new s g f.
            Chain-append Q' lo hi after k l u more cs new a b
              (λ q m n. elim (g q m) [
                | inl i ↦ away q i n
                | inr far ↦ omega (arith, far, old q (inr n))
              ])
              (Chain-imp Q Q' (some k) hi after u cs
                (λ x y z v sub o. f x y z v (λ q m n. away q n (sub q m)) (λ q m. inr (sub q m)) o)
                c))
        | inr high ↦ rw high (λ new s g f. (
          subst (λ n. Q' lo (some k) n t) (sym (start-splice key l u more cs s))
              (f lo (some k) (start u) t (λ q m n. away q m (HasAny-select key u cs q n))
                (λ q m. inl m) p),
          a,
          b,
          (λ q m n. elim (HasAny-splice key l u more cs q n) [
            | inl i ↦ elim (g q i) [
              | inl j ↦ away q m (HasAny-select key u cs q j)
              | inr far ↦ omega (arith, far, old q (inl m))
            ]
            | inr i ↦ away q m i
          ]),
          Chain-splice Q Q' count key (some k) hi after l u more cs c (λ q m. old q (inr m)) new s g
              (λ x y z v d sub o. f x y z v d (λ q m. inr (sub q m)) o),
        ))
      ]
