-- ===== src/Db/BTree/Codec.antt =====
-- What `write_node` of demo-db/src/btree.cpp stores, as one list of bytes.
use c_book.Prelude.{
  ℕ, zero, suc, ◌+◌, ◌-◌, ◌*◌, ◌/◌, ◌%◌, ◌^◌, ◌≡◌, refl, sym, ap, ◌∙◌, true, List, [], ◌∷◌, ◌++◌,
  append_assoc, length, length-append, set, replicate, arith, set-append_right, inl, inr,
  Bool-cases, if◌then◌else◌,
}
use c_book.Prelude.Int.{ℤ}
use c_book.Bytes.Laws.{le_bytes, length-le_bytes, shift_next, div-one}
use c_book.Db.Wal.{to_u64}
use c_book.Db.PageManager.{make_page}
use c_book.Db.PageManager.Transfer.{page_size}
use c_book.Db.BTree.Layout.{
  NodeData, is_leaf, write_at, write_u16_at, write_u32_at, write_i64_at, write_i64s, write_u32s,
  write_header, encode_node, fits_page, end_of_node,
}

-- `set` just behind `front`.
set_next :
    (front rest : List ℕ) (old b i : ℕ)
    → length front ≡ i
    → set (front ++ old ∷ rest) i b ≡ (front ++ b ∷ []) ++ rest
set_next front rest old b i h =
    set-append_right front (old ∷ rest) i 0 b (omega arith) ∙ sym (append_assoc front (b ∷ []) rest)

write_at_lem :
    (n i off v : ℕ) (front old rest : List ℕ)
    → length old ≡ n
    → length front ≡ off + i
    → write_at n i off v (front ++ (old ++ rest)) ≡ front ++ (le_bytes n (v / 2 ^ (i * 8)) ++ rest)
unfolding write_at
write_at_lem zero i off v front [] rest h e = refl
write_at_lem zero i off v front (o ∷ old) rest h e = absurd (omega arith)
write_at_lem (suc n) i off v front [] rest h e = absurd (omega arith)
write_at_lem (suc n) i off v front (o ∷ old) rest h e =
    let b = v / 2 ^ (i * 8) % 256 in
    ap (write_at n (i + 1) off v) (set_next front (old ++ rest) o b (off + i) e)
    ∙ write_at_lem n (i + 1) off v (front ++ b ∷ []) old rest (omega arith)
        (omega (arith, length-append front (b ∷ [])))
    ∙ append_assoc front (b ∷ []) _
    ∙ ap (λ t. front ++ b ∷ (le_bytes n t ++ rest)) (shift_next v i)

-- The next field: `old` gives way to it.
write_u16_at_lem :
    (off v : ℕ) (front rest : List ℕ) (o o' : ℕ)
    → length front ≡ off
    → write_u16_at off v (front ++ o ∷ o' ∷ rest) ≡ front ++ (le_bytes 2 v ++ rest)
unfolding write_u16_at
write_u16_at_lem off v front rest o o' e =
    ap (λ p. set p (off + 1) (v / 2 ^ 8 % 256)) (set_next front (o' ∷ rest) o (v % 256) off e)
    ∙ set_next (front ++ (v % 256) ∷ []) rest o' (v / 2 ^ 8 % 256) (off + 1)
        (omega (arith, length-append front ((v % 256) ∷ [])))
    ∙ append_assoc (front ++ (v % 256) ∷ []) _ rest
    ∙ append_assoc front ((v % 256) ∷ []) _

pub write_u32_at_lem :
    (off v : ℕ) (front old rest : List ℕ)
    → length old ≡ 4
    → length front ≡ off
    → write_u32_at off v (front ++ (old ++ rest)) ≡ front ++ (le_bytes 4 v ++ rest)
unfolding write_u32_at
write_u32_at_lem off v front old rest h e =
    write_at_lem 4 0 off v front old rest h (omega arith)
    ∙ ap (λ t. front ++ (le_bytes 4 t ++ rest)) (div-one v)

abbrev pub le_i64 : ℤ → List ℕ
le_i64 k = le_bytes 8 (to_u64 k)

write_i64_at_lem :
    (off : ℕ) (k : ℤ) (front old rest : List ℕ)
    → length old ≡ 8
    → length front ≡ off
    → write_i64_at off k (front ++ (old ++ rest)) ≡ front ++ (le_i64 k ++ rest)
unfolding write_i64_at
write_i64_at_lem off k front old rest h e =
    write_at_lem 8 0 off (to_u64 k) front old rest h (omega arith)
    ∙ ap (λ t. front ++ (le_bytes 8 t ++ rest)) (div-one (to_u64 k))

abbrev pub zeros : ℕ → List ℕ
zeros n = replicate n 0

zeros_add : (a b : ℕ) → zeros (a + b) ≡ zeros a ++ zeros b
zeros_add zero b = let e : zero + b ≡ b = omega arith in rw e
zeros_add (suc a) b =
    let e : suc a + b ≡ suc (a + b) = omega arith in rw e (ap (λ l. 0 ∷ l) (zeros_add a b))

pub length-zeros : (n : ℕ) → length (zeros n) ≡ n
length-zeros zero = refl
length-zeros (suc n) = ap suc (length-zeros n)

-- The bytes of the keys and values, and of the children.
abbrev pub i64s : List ℤ → List ℕ
i64s [] = []
i64s (k ∷ ks) = le_i64 k ++ i64s ks

abbrev pub u32s : List ℕ → List ℕ
u32s [] = []
u32s (c ∷ cs) = le_bytes 4 c ++ u32s cs

pub length-i64s : (ks : List ℤ) → length (i64s ks) ≡ 8 * length ks
length-i64s [] = refl
length-i64s (k ∷ ks) =
    omega (arith, length-i64s ks, length-append (le_i64 k) (i64s ks), length-le_bytes 8 (to_u64 k))

pub length-u32s : (cs : List ℕ) → length (u32s cs) ≡ 4 * length cs
length-u32s [] = refl
length-u32s (c ∷ cs) =
    omega (arith, length-u32s cs, length-append (le_bytes 4 c) (u32s cs), length-le_bytes 4 c)

write_i64s_lem :
    (ks : List ℤ) (off room : ℕ) (front : List ℕ)
    → length front ≡ off
    → write_i64s ks off (front ++ zeros (8 * length ks + room)) ≡ front ++ (i64s ks ++ zeros room)
unfolding write_i64s
write_i64s_lem [] off room front e = let z : 8 * 0 + room ≡ room = omega arith in rw z
write_i64s_lem (k ∷ ks) off room front e =
    let more = 8 * length ks + room in
    let z : 8 * length (k ∷ ks) + room ≡ 8 + more = omega arith in
    rw (z, zeros_add 8 more)
      (ap (write_i64s ks (off + 8)) (
          write_i64_at_lem off k front (zeros 8) (zeros more) (length-zeros 8) e
          ∙ sym (append_assoc front (le_i64 k) (zeros more)))
        ∙ write_i64s_lem ks (off + 8) room (front ++ le_i64 k)
            (omega (arith, length-append front (le_i64 k), length-le_bytes 8 (to_u64 k)))
        ∙ append_assoc front (le_i64 k) _
        ∙ ap (λ l. front ++ l) (sym (append_assoc (le_i64 k) (i64s ks) (zeros room))))

write_u32s_lem :
    (cs : List ℕ) (off room : ℕ) (front : List ℕ)
    → length front ≡ off
    → write_u32s cs off (front ++ zeros (4 * length cs + room)) ≡ front ++ (u32s cs ++ zeros room)
unfolding write_u32s
write_u32s_lem [] off room front e = let z : 4 * 0 + room ≡ room = omega arith in rw z
write_u32s_lem (c ∷ cs) off room front e =
    let more = 4 * length cs + room in
    let z : 4 * length (c ∷ cs) + room ≡ 4 + more = omega arith in
    rw (z, zeros_add 4 more)
      (ap (write_u32s cs (off + 4)) (
          write_u32_at_lem off c front (zeros 4) (zeros more) (length-zeros 4) e
          ∙ sym (append_assoc front (le_bytes 4 c) (zeros more)))
        ∙ write_u32s_lem cs (off + 4) room (front ++ le_bytes 4 c)
            (omega (arith, length-append front (le_bytes 4 c), length-le_bytes 4 c))
        ∙ append_assoc front (le_bytes 4 c) _
        ∙ ap (λ l. front ++ l) (sym (append_assoc (le_bytes 4 c) (u32s cs) (zeros room))))

-- The first 16 bytes: type, number of keys, next leaf, 8 reserved.
abbrev pub header : NodeData → List ℕ → List ℕ
header n rest =
    le_bytes 2 n.type
    ++ (le_bytes 2 (length n.keys % 2 ^ 16) ++ (le_bytes 4 n.next_leaf ++ (zeros 8 ++ rest)))

write_header_lem : (n : NodeData) (m : ℕ) → write_header n (zeros (16 + m)) ≡ header n (zeros m)
unfolding write_header
write_header_lem n m =
    let nk = length n.keys % 2 ^ 16 in
    let t = le_bytes 2 n.type in
    let c = le_bytes 2 nk in
    rw (zeros_add 16 m) (
      ap (λ p. write_u32_at 4 n.next_leaf (write_u16_at 2 nk p))
        (write_u16_at_lem 0 n.type [] (zeros 14 ++ zeros m) 0 0 refl)
      ∙ ap (write_u32_at 4 n.next_leaf) (write_u16_at_lem 2 nk t (zeros 12 ++ zeros m) 0 0 refl)
      ∙ ap (write_u32_at 4 n.next_leaf) (sym (append_assoc t c (zeros 12 ++ zeros m)))
      ∙ write_u32_at_lem 4 n.next_leaf (t ++ c) (zeros 4) (zeros 8 ++ zeros m) refl refl
      ∙ append_assoc t c _)

-- The bytes behind the keys.
abbrev pub tail_bytes : NodeData → List ℕ
tail_bytes n = if is_leaf n then i64s n.values else u32s n.children

abbrev pub room_of : NodeData → ℕ
room_of n = page_size - end_of_node n

abbrev pub bytes_of : NodeData → List ℕ
bytes_of n = header n (i64s n.keys ++ (tail_bytes n ++ zeros (room_of n)))

header-append : (n : NodeData) (xs ys : List ℕ) → header n (xs ++ ys) ≡ header n xs ++ ys
header-append n xs ys = refl

pub length-header : (n : NodeData) (xs : List ℕ) → length (header n xs) ≡ 16 + length xs
length-header n xs = omega arith

pub make_page_lem : (m : ℕ) → page_size ≡ m → make_page ≡ zeros m
unfolding make_page
make_page_lem m e = ap (λ (k : ℕ). replicate k 0) e

-- The page with its header and its keys, `m` bytes before its end.
write_keys_lem :
    (n : NodeData) (m : ℕ)
    → page_size ≡ 16 + (8 * length n.keys + m)
    → write_i64s n.keys 16 (write_header n make_page) ≡ header n (i64s n.keys) ++ zeros m
write_keys_lem n m e =
    ap (λ p. write_i64s n.keys 16 (write_header n p)) (make_page_lem _ e)
    ∙ ap (write_i64s n.keys 16) (write_header_lem n (8 * length n.keys + m))
    ∙ write_i64s_lem n.keys 16 m (header n []) refl

pub encode_node_lem : (n : NodeData) → fits_page n ≡ true → encode_node n ≡ bytes_of n
unfolding encode_node
encode_node_lem n fits = elim (Bool-cases (is_leaf n)) [
  | inl l ↦
      let m = page_size - (16 + 8 * length n.keys + 8 * length n.values) in
      let z : page_size ≡ 16 + (8 * length n.keys + (8 * length n.values + m)) = ground arith in
      rw l (
        ap (write_i64s n.values (16 + 8 * length n.keys)) (write_keys_lem n _ z)
        ∙ write_i64s_lem n.values (16 + 8 * length n.keys) m (header n (i64s n.keys))
            (omega (arith, length-i64s n.keys, length-header n (i64s n.keys))))
  | inr l ↦
      let m = page_size - (16 + 8 * length n.keys + 4 * length n.children) in
      let z : page_size ≡ 16 + (8 * length n.keys + (4 * length n.children + m)) = ground arith in
      rw l (
        ap (write_u32s n.children (16 + 8 * length n.keys)) (write_keys_lem n _ z)
        ∙ write_u32s_lem n.children (16 + 8 * length n.keys) m (header n (i64s n.keys))
            (omega (arith, length-i64s n.keys, length-header n (i64s n.keys))))
]
