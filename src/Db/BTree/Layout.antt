-- ===== src/Db/BTree/Layout.antt =====
-- The nodes of demo-db/src/btree.cpp and their layout in a page: the fields at fixed offsets, the
-- keys, and the values of a leaf or the children of an internal node.
use c_book.Prelude.{
  ℕ, zero, suc, ◌+◌, ◌*◌, ◌/◌, ◌%◌, ◌^◌, Bool, List, [], ◌∷◌, length, drop, set, leb, ◌==◌,
  if◌then◌else◌,
}
use c_book.Prelude.Int.{ℤ}
use c_book.Bytes.{read_u16, read_u32, read_u64}
use c_book.Db.Wal.{to_u64, of_u64}
use c_book.Db.PageManager.{Page, make_page}
use c_book.Db.PageManager.Transfer.{page_size}

-- `type` is what `enum NodeType : std::uint16_t` holds: any 16-bit number may come from a page.
pub record NodeData : Type 0 where
  pub type : ℕ
  pub keys : List ℤ
  pub values : List ℤ
  pub children : List ℕ
  pub next_leaf : ℕ

abbrev pub internal : ℕ
internal = 0

abbrev pub leaf : ℕ
leaf = 1

abbrev pub is_leaf : NodeData → Bool
is_leaf n = n.type == leaf

abbrev pub header_bytes : ℕ
header_bytes = 16

-- The rounds of `for (i = 0; i < n; ++i) p[off + i] = (v >> (i * 8)) & 0xFF` from `i` on.
unfoldable pub write_at : ℕ → ℕ → ℕ → ℕ → Page → Page
write_at zero i off v p = p
write_at (suc n) i off v p = write_at n (i + 1) off v (set p (off + i) (v / 2 ^ (i * 8) % 256))

unfoldable pub write_u16_at : ℕ → ℕ → Page → Page
write_u16_at off v p = set (set p off (v % 256)) (off + 1) (v / 2 ^ 8 % 256)

unfoldable pub write_u32_at : ℕ → ℕ → Page → Page
unfolding write_at
write_u32_at off v p = write_at 4 0 off v p

unfoldable pub write_i64_at : ℕ → ℤ → Page → Page
unfolding write_at to_u64
write_i64_at off v p = write_at 8 0 off (to_u64 v) p

unfoldable pub read_u16_at : ℕ → Page → ℕ
unfolding read_u16
read_u16_at off p = read_u16 (drop off p)

unfoldable pub read_u32_at : ℕ → Page → ℕ
unfolding read_u32
read_u32_at off p = read_u32 (drop off p)

unfoldable pub read_i64_at : ℕ → Page → ℤ
unfolding read_u64 of_u64
read_i64_at off p = of_u64 (read_u64 (drop off p))

-- The loops over the keys, the values and the children; `off` moves on with each.
unfoldable pub write_i64s : List ℤ → ℕ → Page → Page
unfolding write_i64_at
write_i64s [] off p = p
write_i64s (k ∷ ks) off p = write_i64s ks (off + 8) (write_i64_at off k p)

unfoldable pub write_u32s : List ℕ → ℕ → Page → Page
unfolding write_u32_at
write_u32s [] off p = p
write_u32s (c ∷ cs) off p = write_u32s cs (off + 4) (write_u32_at off c p)

unfoldable pub read_i64s : ℕ → ℕ → Page → List ℤ
unfolding read_i64_at
read_i64s zero off p = []
read_i64s (suc n) off p = read_i64_at off p ∷ read_i64s n (off + 8) p

unfoldable pub read_u32s : ℕ → ℕ → Page → List ℕ
unfolding read_u32_at
read_u32s zero off p = []
read_u32s (suc n) off p = read_u32_at off p ∷ read_u32s n (off + 4) p

-- The header of a node, by `write_node`.
unfoldable pub write_header : NodeData → Page → Page
unfolding write_u16_at write_u32_at
write_header n p =
    write_u32_at 4 n.next_leaf (write_u16_at 2 (length n.keys % 2 ^ 16) (write_u16_at 0 n.type p))

-- The page that `write_node` makes.
unfoldable pub encode_node : NodeData → Page
unfolding write_header write_i64s write_u32s make_page
encode_node n =
    let keyed = write_i64s n.keys header_bytes (write_header n make_page) in
    let off = header_bytes + 8 * length n.keys in
    if is_leaf n then write_i64s n.values off keyed else write_u32s n.children off keyed

-- Where the layout ends; beyond the page, `p[off]` is undefined.
abbrev pub end_of_node : NodeData → ℕ
end_of_node n =
    header_bytes
    + 8 * length n.keys
    + (if is_leaf n then 8 * length n.values else 4 * length n.children)

abbrev pub fits_page : NodeData → Bool
fits_page n = leb (end_of_node n) page_size

-- What `read_node` makes of a page.
unfoldable pub decode_node : Page → NodeData
unfolding read_u16_at read_u32_at read_i64s read_u32s
decode_node p =
    let nk = read_u16_at 2 p in
    let off = header_bytes + 8 * nk in
    let type = read_u16_at 0 p in
    record {
      type = type;
      keys = read_i64s nk header_bytes p;
      values = (if type == leaf then read_i64s nk off p else []);
      children = (if type == leaf then [] else read_u32s (nk + 1) off p);
      next_leaf = read_u32_at 4 p;
    }
