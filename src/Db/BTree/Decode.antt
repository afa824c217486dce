-- ===== src/Db/BTree/Decode.antt =====
-- `read_node` of demo-db/src/btree.cpp reads back what `write_node` stored.
use c_book.Prelude.{
  ℕ, zero, suc, ◌+◌, ◌*◌, ◌%◌, ◌^◌, ◌<◌, ◌≡◌, refl, sym, ap, ◌∙◌, ◌⊎◌, ◌==◌, subst, true, List, [],
  ◌∷◌, ◌++◌, append_assoc, length, length-append, arith, drop-append, All, All-append, ap₂, inl,
  inr, Bool-cases, if◌then◌else◌,
}
use c_book.Prelude.Int.{ℤ}
use c_book.Bytes.{IsByte, AreBytes, read_u32, read_u64}
use c_book.Bytes.Laws.{
  le_bytes, length-le_bytes, le_bytes-AreBytes, read_u16-le_bytes, read_u32-le_bytes,
  read_u64-le_bytes,
}
use c_book.Db.Wal.{to_u64, of_u64}
use c_book.Db.Wal.Records.{IsInt64, of_u64-to_u64, to_u64-lt}
use c_book.Db.PageManager.Transfer.{page_size}
use c_book.Db.BTree.Layout.{
  NodeData, internal, leaf, is_leaf, read_u16_at, read_u32_at, read_i64_at, read_i64s, read_u32s,
  encode_node, decode_node, fits_page,
}
use c_book.Db.BTree.Codec.{
  le_i64, i64s, u32s, tail_bytes, room_of, bytes_of, header, zeros, length-i64s, length-u32s,
  length-header, length-zeros, encode_node_lem,
}

module _ (rest : List ℕ) (bytes : AreBytes rest) where
  i64s-AreBytes : (l : List ℤ) → AreBytes (i64s l ++ rest)
  i64s-AreBytes [] = bytes
  i64s-AreBytes (x ∷ l) =
      All-append IsByte (le_i64 x) _ (le_bytes-AreBytes 8 (to_u64 x)) (i64s-AreBytes l)

  u32s-AreBytes : (l : List ℕ) → AreBytes (u32s l ++ rest)
  u32s-AreBytes [] = bytes
  u32s-AreBytes (x ∷ l) =
      All-append IsByte (le_bytes 4 x) _ (le_bytes-AreBytes 4 x) (u32s-AreBytes l)

-- Reading back, at any place of the page.
module _ (rest : List ℕ) (bytes : AreBytes rest) where
  read_i64s-i64s :
      (ks : List ℤ) (off : ℕ) (front : List ℕ)
      → length front ≡ off
      → All IsInt64 ks
      → read_i64s (length ks) off (front ++ (i64s ks ++ rest)) ≡ ks
  unfolding read_i64s read_i64_at
  read_i64s-i64s [] off front e h = refl
  read_i64s-i64s (k ∷ ks) off front e h =
      ap₂ {A = ℤ} {B = List ℤ} {C = List ℤ} (λ x l. x ∷ l)
        (ap (λ p. of_u64 (read_u64 p)) (drop-append off front _ e)
          ∙ ap (λ p. of_u64 (read_u64 p)) (append_assoc (le_i64 k) (i64s ks) rest)
          ∙ ap of_u64 (
              read_u64-le_bytes (i64s ks ++ rest) (i64s-AreBytes rest bytes ks) (to_u64 k)
                (to_u64-lt k))
          ∙ of_u64-to_u64 k h.0)
        (ap (λ p. read_i64s (length ks) (off + 8) p)
            (ap (λ l. front ++ l) (append_assoc (le_i64 k) (i64s ks) rest)
              ∙ sym (append_assoc front (le_i64 k) (i64s ks ++ rest)))
          ∙ read_i64s-i64s ks (off + 8) (front ++ le_i64 k)
              (omega (arith, length-append front (le_i64 k), length-le_bytes 8 (to_u64 k))) h.1)

  read_u32s-u32s :
      (cs : List ℕ) (off : ℕ) (front : List ℕ)
      → length front ≡ off
      → All (λ c. c < 2 ^ 32) cs
      → read_u32s (length cs) off (front ++ (u32s cs ++ rest)) ≡ cs
  unfolding read_u32s read_u32_at
  read_u32s-u32s [] off front e h = refl
  read_u32s-u32s (c ∷ cs) off front e h =
      ap₂ {A = ℕ} {B = List ℕ} {C = List ℕ} (λ x l. x ∷ l)
        (ap read_u32 (drop-append off front _ e)
          ∙ ap read_u32 (append_assoc (le_bytes 4 c) (u32s cs) rest)
          ∙ read_u32-le_bytes (u32s cs ++ rest) (u32s-AreBytes rest bytes cs) c h.0)
        (ap (λ p. read_u32s (length cs) (off + 4) p)
            (ap (λ l. front ++ l) (append_assoc (le_bytes 4 c) (u32s cs) rest)
              ∙ sym (append_assoc front (le_bytes 4 c) (u32s cs ++ rest)))
          ∙ read_u32s-u32s cs (off + 4) (front ++ le_bytes 4 c)
              (omega (arith, length-append front (le_bytes 4 c), length-le_bytes 4 c)) h.1)

pub zeros-AreBytes : (n : ℕ) → AreBytes (zeros n)
zeros-AreBytes zero = tt
zeros-AreBytes (suc n) = (omega arith, zeros-AreBytes n)

-- A node of one of the two kinds, whose numbers fit their fields and whose layout fits a page.
pub record IsNode (n : NodeData) : Type 0 where
  pub fits : fits_page n ≡ true
  pub keys : All IsInt64 n.keys
  pub next : n.next_leaf < 2 ^ 32
  pub kind :
      ((n.type ≡ leaf)
        × (length n.values ≡ length n.keys)
        × All IsInt64 n.values
        × (n.children ≡ []))
      ⊎ ((n.type ≡ internal)
          × (length n.children ≡ length n.keys + 1)
          × All (λ c. c < 2 ^ 32) n.children
          × (n.values ≡ []))

node_eq :
    (a b : NodeData)
    → a.type ≡ b.type
    → a.keys ≡ b.keys
    → a.values ≡ b.values
    → a.children ≡ b.children
    → a.next_leaf ≡ b.next_leaf
    → a ≡ b
node_eq a b t k v c l = cc

field-AreBytes : (n v : ℕ) (rest : List ℕ) → AreBytes rest → AreBytes (le_bytes n v ++ rest)
field-AreBytes n v rest h = All-append IsByte (le_bytes n v) rest (le_bytes-AreBytes n v) h

module _ (n : NodeData) (h : IsNode n) where
  few_keys : length n.keys < 2 ^ 16
  few_keys = let f = h.fits in ground arith

  small_type : n.type < 2 ^ 16
  small_type = elim h.kind [ inl k ↦ omega (arith, k.0) | inr k ↦ omega (arith, k.0) ]

  room-AreBytes : AreBytes (zeros (room_of n))
  room-AreBytes = zeros-AreBytes (room_of n)

  tail-AreBytes : AreBytes (tail_bytes n ++ zeros (room_of n))
  tail-AreBytes = elim (Bool-cases (is_leaf n)) [
    | inl l ↦
        subst (λ b. AreBytes ((if b then i64s n.values else u32s n.children) ++ zeros (room_of n)))
          (sym l) (i64s-AreBytes _ room-AreBytes n.values)
    | inr l ↦
        subst (λ b. AreBytes ((if b then i64s n.values else u32s n.children) ++ zeros (room_of n)))
          (sym l) (u32s-AreBytes _ room-AreBytes n.children)
  ]

  abbrev behind_next : List ℕ
  behind_next = zeros 8 ++ (i64s n.keys ++ (tail_bytes n ++ zeros (room_of n)))

  behind-AreBytes : AreBytes behind_next
  behind-AreBytes =
      All-append IsByte (zeros 8) _ (zeros-AreBytes 8) (i64s-AreBytes _ tail-AreBytes n.keys)

  abbrev behind_count : List ℕ
  behind_count = le_bytes 4 n.next_leaf ++ behind_next

  behind_count-AreBytes : AreBytes behind_count
  behind_count-AreBytes = field-AreBytes 4 n.next_leaf behind_next behind-AreBytes

  count_read : read_u16_at 2 (bytes_of n) ≡ length n.keys
  unfolding read_u16_at
  count_read =
      read_u16-le_bytes behind_count behind_count-AreBytes (length n.keys % 2 ^ 16) (omega arith)
      ∙ omega (arith, few_keys)

  type_read : read_u16_at 0 (bytes_of n) ≡ n.type
  unfolding read_u16_at
  type_read =
      read_u16-le_bytes (le_bytes 2 (length n.keys % 2 ^ 16) ++ behind_count)
        (field-AreBytes 2 _ behind_count behind_count-AreBytes) n.type small_type

  next_read : read_u32_at 4 (bytes_of n) ≡ n.next_leaf
  unfolding read_u32_at
  next_read = read_u32-le_bytes behind_next behind-AreBytes n.next_leaf h.next

  keys_read : read_i64s (length n.keys) 16 (bytes_of n) ≡ n.keys
  keys_read = read_i64s-i64s _ tail-AreBytes n.keys 16 (header n []) refl h.keys

  abbrev off : ℕ
  off = 16 + 8 * length n.keys

  off_lem : length (header n (i64s n.keys)) ≡ off
  off_lem = omega (arith, length-i64s n.keys, length-header n (i64s n.keys))

  values_read :
      n.type ≡ leaf
      → length n.values ≡ length n.keys
      → All IsInt64 n.values
      → read_i64s (length n.keys) off (bytes_of n) ≡ n.values
  values_read l e v =
      let tail : tail_bytes n ≡ i64s n.values = ground arith in
      ap₂ {A = ℕ} {B = List ℕ}
        (λ k t. read_i64s k off (header n (i64s n.keys) ++ (t ++ zeros (room_of n)))) (sym e) tail
      ∙ read_i64s-i64s _ room-AreBytes n.values off (header n (i64s n.keys)) off_lem v

  children_read :
      n.type ≡ internal
      → length n.children ≡ length n.keys + 1
      → All (λ c. c < 2 ^ 32) n.children
      → read_u32s (length n.keys + 1) off (bytes_of n) ≡ n.children
  children_read l e v =
      let tail : tail_bytes n ≡ u32s n.children = ground arith in
      ap₂ {A = ℕ} {B = List ℕ}
        (λ k t. read_u32s k off (header n (i64s n.keys) ++ (t ++ zeros (room_of n)))) (sym e) tail
      ∙ read_u32s-u32s _ room-AreBytes n.children off (header n (i64s n.keys)) off_lem v

-- A node that fits a page and its fields, with as many values as keys or with one child more, comes
-- back from the page that `write_node` makes of it.
pub decode_node-encode_node : (n : NodeData) → IsNode n → decode_node (encode_node n) ≡ n
unfolding decode_node
decode_node-encode_node n h = ap decode_node (encode_node_lem n h.fits) ∙ elim h.kind [
  | inl (l, e, v, c) ↦
      node_eq (decode_node (bytes_of n)) n (type_read n h) keys
        (values_by l
          ∙ ap (λ k. read_i64s k (16 + 8 * k) (bytes_of n)) (count_read n h)
          ∙ values_read n h l e v)
        (children_none l ∙ sym c) (next_read n h)
  | inr (l, e, v, c) ↦
      node_eq (decode_node (bytes_of n)) n (type_read n h) keys (values_none l ∙ sym c)
        (children_by l
          ∙ ap (λ (k : ℕ). read_u32s (k + 1) (16 + 8 * k) (bytes_of n)) (count_read n h)
          ∙ children_read n h l e v)
        (next_read n h)
]
  where
    keys : read_i64s (read_u16_at 2 (bytes_of n)) 16 (bytes_of n) ≡ n.keys
    keys = ap (λ k. read_i64s k 16 (bytes_of n)) (count_read n h) ∙ keys_read n h

    typed : n.type ≡ leaf → read_u16_at 0 (bytes_of n) ≡ leaf
    typed l = type_read n h ∙ l

    untyped : n.type ≡ internal → read_u16_at 0 (bytes_of n) ≡ internal
    untyped l = type_read n h ∙ l

    nk : ℕ
    nk = read_u16_at 2 (bytes_of n)

    values_by :
        n.type ≡ leaf → (decode_node (bytes_of n)).values ≡ read_i64s nk (16 + 8 * nk) (bytes_of n)
    values_by l =
        ap (λ (t : ℕ). if t == leaf then read_i64s nk (16 + 8 * nk) (bytes_of n) else []) (typed l)

    children_none : n.type ≡ leaf → (decode_node (bytes_of n)).children ≡ []
    children_none l =
        ap (λ (t : ℕ). if t == leaf then [] else read_u32s (nk + 1) (16 + 8 * nk) (bytes_of n))
          (typed l)

    values_none : n.type ≡ internal → (decode_node (bytes_of n)).values ≡ []
    values_none l =
        ap (λ (t : ℕ). if t == leaf then read_i64s nk (16 + 8 * nk) (bytes_of n) else [])
          (untyped l)

    children_by :
        n.type ≡ internal
        → (decode_node (bytes_of n)).children ≡ read_u32s (nk + 1) (16 + 8 * nk) (bytes_of n)
    children_by l =
        ap (λ (t : ℕ). if t == leaf then [] else read_u32s (nk + 1) (16 + 8 * nk) (bytes_of n))
          (untyped l)

pub length-encode_node : (n : NodeData) → fits_page n ≡ true → length (encode_node n) ≡ page_size
length-encode_node n fits =
    let body = tail_bytes n ++ zeros (room_of n) in
    ap length (encode_node_lem n fits)
    ∙ ground (
      arith,
      length-header n (i64s n.keys ++ body),
      length-append (i64s n.keys) body,
      length-append (tail_bytes n) (zeros (room_of n)),
      length-zeros (room_of n),
      length-i64s n.keys,
      length-i64s n.values,
      length-u32s n.children,
    )
