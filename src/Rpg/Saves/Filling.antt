-- ===== src/Rpg/Saves/Filling.antt =====
-- The end of `read` of demo-rpg/src/save_manager.cpp: the items of the save go to the locations of a
-- world whose locations are those of the world that was written.
use c_book.Prelude.{
  ℕ, ◌≡◌, refl, ap, ◌∙◌, sym, subst, true, false, List, [], ◌∷◌, ◌++◌, append_assoc, append-nil,
  none, some, Option-cases, All, bytes_eq, bytes_eq_refl, bytes_eq_iff, Bool-cases, inl, inr,
  if◌then◌else◌, arith, ok, throw,
}
use c_book.Prelude.Tables.{Table, find_key, assign}
use c_book.Rpg.Items.{Item, Inventory, add}
use c_book.Rpg.Places.{Location, World, find_location}
use c_book.Rpg.Saves.Writing.{unknown_location}
use c_book.Rpg.Saves.Reading.{push_item, add_items, clear_world, fill_world, check_locations}
use c_book.Rpg.Saves.Lines.{push_items, push_world, IsPlace}

bytes_eq_sym : (x y : List ℕ) → bytes_eq x y ≡ false → bytes_eq y x ≡ false
bytes_eq_sym x y h = elim (Bool-cases (bytes_eq y x)) [
  | inl same ↦
      let e : bytes_eq x y ≡ true = ap (bytes_eq x) ((bytes_eq_iff y x).0 same) ∙ bytes_eq_refl x in
      absurd cc
  | inr e ↦ e
]

module _ {V : Type 0} where
  -- No entry has the key.
  abbrev pub IsNew : List ℕ → Table V → Type 0
  IsNew k t = find_key k t ≡ none

  abbrev pub AreDistinct : Table V → Type 0
  AreDistinct [] = Unit
  AreDistinct ((k, v) ∷ t) = IsNew k t × AreDistinct t

  find_key-append :
      (k : List ℕ) (v : V) (t rest : Table V) → IsNew k t → find_key k (t ++ (k, v) ∷ rest) ≡ some v
  find_key-append k v [] rest h = rw (bytes_eq_refl k) refl
  find_key-append k v ((j, x) ∷ t) rest h = ground (arith, find_key-append k v t rest)

  assign-append :
      (k : List ℕ) (v x : V) (t rest : Table V)
      → IsNew k t
      → assign k v (t ++ (k, x) ∷ rest) ≡ t ++ (k, v) ∷ rest
  assign-append k v x [] rest h = rw (bytes_eq_refl k) refl
  assign-append k v x ((j, y) ∷ t) rest h = ground (arith, assign-append k v x t rest)

  pub assign-new : (k : List ℕ) (v : V) (t : Table V) → IsNew k t → assign k v t ≡ t ++ (k, v) ∷ []
  assign-new k v [] h = refl
  assign-new k v ((j, y) ∷ t) h = ground (arith, assign-new k v t)

  pub IsNew-append :
      (k j : List ℕ) (v : V) (t : Table V)
      → IsNew k t
      → bytes_eq j k ≡ false
      → IsNew k (t ++ (j, v) ∷ [])
  IsNew-append k j v [] h e = rw e refl
  IsNew-append k j v ((i, y) ∷ t) h e = ground (arith, IsNew-append k j v t)

  pub new-differs : (k : List ℕ) (t : Table V) → IsNew k t → All (λ c. bytes_eq k c.0 ≡ false) t
  new-differs k [] h = tt
  new-differs k ((j, v) ∷ t) h = elim (Bool-cases (bytes_eq j k)) [
    | inl e ↦ absurd (some_none v (subst (λ b. (if b then some v else find_key k t) ≡ none) e h))
    | inr e ↦ (
      bytes_eq_sym j k e,
      new-differs k t (subst (λ b. (if b then some v else find_key k t) ≡ none) e h),
    )
  ]
    where
      some_none : (v : V) → ¬ (some v ≡ none)
      some_none v e = cc

-- The entries for the locations that have items.
abbrev pub kept_place : List ℕ → Inventory → Table Inventory → Table Inventory
kept_place id [] rest = rest
kept_place id (i ∷ items) rest = (id, i ∷ items) ∷ rest

abbrev pub kept : World → Table Inventory
kept [] = []
kept ((key, l) ∷ w) = kept_place l.id l.items (kept w)

push_items-append :
    (id : List ℕ) (items js : Inventory) (t : Table Inventory)
    → IsNew id t
    → push_items id items (t ++ (id, js) ∷ []) ≡ t ++ (id, js ++ items) ∷ []
unfolding push_item
push_items-append id [] js t h = ap (λ l. t ++ (id, l) ∷ []) (sym (append-nil js))
push_items-append id (i ∷ items) js t h =
    ap (push_items id items) (
      ap (λ o. assign id ((elim o [ none ↦ [] | some l ↦ l ]) ++ i ∷ []) (t ++ (id, js) ∷ []))
        (find_key-append id js t [] h)
      ∙ assign-append id (js ++ i ∷ []) js t [] h)
    ∙ push_items-append id items (js ++ i ∷ []) t h
    ∙ ap (λ l. t ++ (id, l) ∷ []) (append_assoc js (i ∷ []) items)

push_items-new :
    (id : List ℕ) (i : Item) (items : Inventory) (t : Table Inventory)
    → IsNew id t
    → push_items id (i ∷ items) t ≡ t ++ (id, i ∷ items) ∷ []
unfolding push_item
push_items-new id i items t h =
    ap (push_items id items) (
      ap (λ o. assign id ((elim o [ none ↦ [] | some l ↦ l ]) ++ i ∷ []) t) h
      ∙ assign-new id (i ∷ []) t h)
    ∙ push_items-append id items (i ∷ []) t h

-- Whose keys are new to a table.
abbrev AreNew : {V : Type 0} → World → Table V → Type 0
AreNew w t = All (λ c. IsNew c.0 t) w

news-append :
    {V : Type 0} (k : List ℕ) (v : V) (w : World) (t : Table V)
    → AreNew w t
    → All (λ c. bytes_eq k c.0 ≡ false) w
    → AreNew w (t ++ (k, v) ∷ [])
news-append k v [] t h e = tt
news-append k v ((j, l) ∷ w) t h e = (IsNew-append j k v t h.0 e.0, news-append k v w t h.1 e.1)

push_world-place :
    (id : List ℕ) (items : Inventory) (w : World) (t : Table Inventory)
    → IsNew id t
    → IsNew id w
    → AreNew w t
    → ((t' : Table Inventory) → AreNew w t' → push_world w t' ≡ t' ++ kept w)
    → push_world w (push_items id items t) ≡ t ++ kept_place id items (kept w)
push_world-place id [] w t a b n ih = ih t n
push_world-place id (i ∷ items) w t a b n ih =
    ap (push_world w) (push_items-new id i items t a)
    ∙ ih (t ++ (id, i ∷ items) ∷ []) (news-append id (i ∷ items) w t n (new-differs id w b))
    ∙ append_assoc t ((id, i ∷ items) ∷ []) (kept w)

pub push_world-kept :
    (w : World) (t : Table Inventory)
    → All IsPlace w
    → AreDistinct w
    → AreNew w t
    → push_world w t ≡ t ++ kept w
push_world-kept [] t p d n = sym (append-nil t)
push_world-kept ((key, l) ∷ w) t p d n =
    push_world-place l.id l.items w t (subst (λ k. IsNew k t) p.0.0 n.0)
      (subst (λ k. IsNew k w) p.0.0 d.0) n.1 (λ t' m. push_world-kept w t' p.1 d.1 m)

pub add_items-append : (items more : Inventory) → add_items more items ≡ items ++ more
unfolding add_items add
add_items-append items [] = sym (append-nil items)
add_items-append items (i ∷ more) =
    add_items-append (items ++ i ∷ []) more ∙ append_assoc items (i ∷ []) more

abbrev cleared : Location → Location
cleared l = record l { items = [] }

fill_place :
    (l : Location) (items : Inventory) (w before : World) (rest : Table Inventory)
    → l.items ≡ items
    → IsNew l.id before
    → fill_world (kept_place l.id items rest) (before ++ (l.id, cleared l) ∷ clear_world w)
      ≡ fill_world rest (before ++ (l.id, l) ∷ clear_world w)
unfolding fill_world find_location
fill_place l [] w before rest e n =
    ap (λ x. fill_world rest (before ++ (l.id, record l { items = x }) ∷ clear_world w)) (sym e)
fill_place l (i ∷ items) w before rest e n =
    let more = i ∷ items in
    ap (fill_world rest) (
      ap
        (λ o. elim o [
          | none ↦ before ++ (l.id, cleared l) ∷ clear_world w
          | some x ↦
              assign l.id (record x { items = add_items more x.items })
                (before ++ (l.id, cleared l) ∷ clear_world w)
        ])
        (find_key-append l.id (cleared l) before (clear_world w) n)
      ∙ assign-append l.id _ (cleared l) before (clear_world w) n
      ∙ ap (λ x. before ++ (l.id, record l { items = x }) ∷ clear_world w)
          (add_items-append [] more ∙ sym e))

fill_world-before :
    (w before : World)
    → All IsPlace w
    → AreDistinct w
    → AreNew w before
    → fill_world (kept w) (before ++ clear_world w) ≡ before ++ w
unfolding fill_world clear_world
fill_world-before [] before p d n = refl
fill_world-before ((key, l) ∷ w) before p d n =
    let id : key ≡ l.id = p.0.0 in
    ap
      (λ k.
        fill_world (kept_place l.id l.items (kept w)) (before ++ (k, cleared l) ∷ clear_world w))
      id
    ∙ fill_place l l.items w before (kept w) refl (subst (λ k. IsNew k before) id n.0)
    ∙ ap (fill_world (kept w)) (sym (append_assoc before ((l.id, l) ∷ []) (clear_world w)))
    ∙ fill_world-before w (before ++ (l.id, l) ∷ []) p.1 d.1
        (news-append l.id l w before n.1 (new-differs l.id w (subst (λ k. IsNew k w) id d.0)))
    ∙ append_assoc before ((l.id, l) ∷ []) w
    ∙ ap (λ k. before ++ (k, l) ∷ w) (sym id)

-- The locations take the items that they had when they were written.
pub fill_world-clear_world :
    (w : World) → All IsPlace w → AreDistinct w → fill_world (kept w) (clear_world w) ≡ w
fill_world-clear_world w p d = fill_world-before w [] p d (none_new w)
  where
    none_new : (w : World) → All (λ c. IsNew {V = Location} c.0 []) w
    none_new [] = tt
    none_new (c ∷ w) = (refl, none_new w)

abbrev pub IsFound : List ℕ → World → Type 0
IsFound id w = (l : Location) × (find_key id w ≡ some l)

found-clear :
    (id : List ℕ) (w : World)
    → find_key id (clear_world w)
      ≡ (elim (find_key id w) [ none ↦ none | some l ↦ some (cleared l) ])
unfolding clear_world
found-clear id [] = refl
found-clear id ((key, l) ∷ w) = ground (arith, found-clear id w)

-- What one of two worlds with the same locations has, the other has.
pub found-other :
    (id : List ℕ) (w o : World) → clear_world w ≡ clear_world o → IsFound id w → IsFound id o
found-other id w o e (l, f) = elim (Option-cases (find_key id o)) [
  | inl missing ↦ let x = found-clear id w in let y = found-clear id o in absurd (ground (arith, e))
  | inr found ↦ found
]

check_place :
    (o : World) (id : List ℕ) (items : Inventory) (rest : Table Inventory)
    → IsFound id o
    → check_locations o rest ≡ ok tt
    → check_locations o (kept_place id items rest) ≡ ok tt
unfolding check_locations find_location
check_place o id [] rest f e = e
check_place o id (i ∷ items) rest (l, f) e =
    ap (λ x. elim x [ none ↦ throw unknown_location | some l ↦ check_locations o rest ]) f ∙ e

pub check_locations-kept :
    (o w : World) → All (λ c. IsFound c.1.id o) w → check_locations o (kept w) ≡ ok tt
unfolding check_locations
check_locations-kept o [] f = refl
check_locations-kept o ((key, l) ∷ w) f =
    check_place o l.id l.items (kept w) f.0 (check_locations-kept o w f.1)

found-before :
    (w before : World)
    → All IsPlace w
    → AreDistinct w
    → AreNew w before
    → All (λ c. IsFound c.1.id (before ++ w)) w
found-before [] before p d n = tt
found-before ((key, l) ∷ w) before p d n =
    let id : key ≡ l.id = p.0.0 in
    (
      subst (λ k. IsFound k (before ++ (key, l) ∷ w)) id (l, find_key-append key l before w n.0),
      subst (λ v. All (λ c. IsFound c.1.id v) w) (append_assoc before ((key, l) ∷ []) w)
          (found-before w (before ++ (key, l) ∷ []) p.1 d.1
            (news-append key l w before n.1 (new-differs key w d.0))),
    )

pub all_found : (w : World) → All IsPlace w → AreDistinct w → All (λ c. IsFound c.1.id w) w
all_found w p d = found-before w [] p d (none_new w)
  where
    none_new : (w : World) → All (λ c. IsNew {V = Location} c.0 []) w
    none_new [] = tt
    none_new (c ∷ w) = (refl, none_new w)
