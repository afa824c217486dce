-- ===== src/Db/BTree/Tests.antt =====
-- The tree on small inputs: over pages in memory.
use c_book.Prelude.{
  true, ℕ, ◌+◌, ◌≡◌, refl, [], ◌∷◌, ok, some, arith, ◌==◌, if◌then◌else◌, inl, inr,
}
use c_book.Prelude.Int.{pos, negsuc}
use c_book.Db.PageManager.{Page, make_page}
use c_book.Db.PageManager.{PageManager, open_file}
use c_book.Db.PageManager.Transfer.{moved, interrupted}
use c_book.Db.PageManager.Allocation.{IsFile}
use c_book.Db.PageManager.Invariant.{length-make_page}
use c_book.Db.PageManager.Store.{page_store}
use c_book.Db.BTree.OnPages.{open_tree-open_file}
use c_book.Db.PageStore.{PageStore}
use c_book.Db.BTree
use c_book.Db.BTree.Layout.{encode_node, decode_node}
use c_book.Db.BTree.Shape.{Tree, Leaf, node_of}
use c_book.Db.BTree.Decode.{IsNode, decode_node-encode_node}
use c_book.Db.BTree.Reading.{Returns}
use c_book.Db.BTree.Finding.{Represents, find-value_at}
use c_book.Db.BTree.Opening.{open_tree-Represents, open_tree-create, no_rows}
use c_book.Db.BTree.Scanning.{scan-rows_in}

-- Pages in memory, with no limit on the calls: how many there are, what a client sees, and what the
-- last `sync` left in the file.
abbrev pub Memory : Type 0
Memory = ℕ × (ℕ → Page) × (ℕ → Page)

abbrev pub memory_store : PageStore
memory_store = record {
  State = Memory;
  page_count = λ m. m.0;
  read_page = λ p m. (ok (m.1 p), m);
  write_page = λ p page m. (ok tt, (m.0, (λ q. if p == q then page else m.1 q), m.2));
  allocate_page = λ m. (ok m.0, (m.0 + 1, (λ q. if m.0 == q then make_page else m.1 q), m.2));
  sync = λ m. (ok tt, (m.0, m.1, m.1));
  view = λ m. m.1;
  disk = λ m. m.2;
  IsReady = λ m. Unit;
  reads = λ p s r low. (s, refl, tt, refl, λ q. refl);
  writes = λ p page s r low size.
      ((s.0, (λ q. if p == q then page else s.1 q), s.2), refl, tt, refl, λ q. refl);
  syncs = λ s r. (tt, refl, (λ q. refl), (λ done q. refl));
  allocates = λ s r small.
      ((s.0 + 1, (λ q. if s.0 == q then make_page else s.1 q), s.2), refl, tt, refl, λ q. refl);
}

abbrev pub low_leaf : Leaf
low_leaf = record { page = 1; rows = (negsuc 4, pos 10) ∷ (pos 2, pos 20) ∷ []; next = 2 }

abbrev pub high_leaf : Leaf
high_leaf = record { page = 2; rows = (pos 3, pos 30) ∷ (pos 8, negsuc 0) ∷ []; next = 0 }

abbrev pub two_leaves : Tree 1
two_leaves = (3, (low_leaf, (pos 3, high_leaf) ∷ []))

abbrev pub pages : ℕ → Page
pages q =
    if q == 1
    then encode_node (node_of 0 low_leaf)
    else if q == 2
    then encode_node (node_of 0 high_leaf)
    else if q == 3
    then encode_node (node_of 1 two_leaves)
    else BTree.metadata 3

abbrev pub state : BTree.BPlusTree memory_store
state = record { pm = (4, pages, pages); root_page_id = 3 }

low_IsNode : IsNode (node_of 0 low_leaf)
low_IsNode = record {
  fits = refl;
  keys = (omega arith, (omega arith, tt));
  next = omega arith;
  kind = inl (refl, refl, (omega arith, (omega arith, tt)), refl);
}

high_IsNode : IsNode (node_of 0 high_leaf)
high_IsNode = record {
  fits = refl;
  keys = (omega arith, (omega arith, tt));
  next = omega arith;
  kind = inl (refl, refl, (omega arith, (omega arith, tt)), refl);
}

root_IsNode : IsNode (node_of 1 two_leaves)
root_IsNode = record {
  fits = refl;
  keys = (omega arith, tt);
  next = omega arith;
  kind = inr (refl, refl, (omega arith, (omega arith, tt)), refl);
}

pub represents : Represents memory_store state 1 two_leaves
represents = record {
  ready = tt;
  root = refl;
  meta = refl;
  stored = (
    (
      omega arith,
      decode_node-encode_node (node_of 1 two_leaves) root_IsNode,
      root_IsNode,
      omega arith,
    ),
    (omega arith, decode_node-encode_node (node_of 0 low_leaf) low_IsNode, low_IsNode, omega arith),
    (
      (
        omega arith,
        decode_node-encode_node (node_of 0 high_leaf) high_IsNode,
        high_IsNode,
        omega arith,
      ),
      tt,
    ),
  );
  ordered = (
    (((omega arith, tt), omega arith, (tt, omega arith, tt)), (tt, (tt, tt))),
    tt,
    tt,
    (((omega arith, tt), tt, (tt, tt, tt)), (omega arith, (omega arith, tt))),
  );
  linked = (refl, refl);
}

decode_node-encode_node_example :
    decode_node (encode_node (node_of 1 two_leaves)) ≡ node_of 1 two_leaves
decode_node-encode_node_example = decode_node-encode_node (node_of 1 two_leaves) root_IsNode

find-value_at_example :
    Returns memory_store (BTree.find memory_store 2 (pos 3)) (some (pos 30)) state
find-value_at_example =
    find-value_at memory_store 2 1 two_leaves (pos 3) state represents (omega arith)

scan-rows_in_example :
    Returns memory_store
      (BTree.scan memory_store 2)
      ((negsuc 4, pos 10) ∷ (pos 2, pos 20) ∷ (pos 3, pos 30) ∷ (pos 8, negsuc 0) ∷ [])
      state
scan-rows_in_example =
    scan-rows_in memory_store 2 1 two_leaves state represents (omega arith) (omega arith)

open_tree-Represents_example :
    (t' : BTree.BPlusTree memory_store) × (BTree.open_tree memory_store (4, pages, pages)
      ≡ (ok tt, t'))
    × Represents memory_store t' 1 two_leaves
open_tree-Represents_example =
    open_tree-Represents memory_store 1 two_leaves state represents (omega arith)

abbrev no_pages : Memory
no_pages = (0, (λ q. make_page), (λ q. make_page))

open_tree-create_example :
    Represents memory_store (BTree.open_tree memory_store no_pages).1 0 no_rows
    × ((s' : Memory) × ((BTree.open_tree memory_store no_pages).0
          ≡ BTree.lifted (memory_store.sync s').0))
open_tree-create_example = open_tree-create memory_store no_pages tt refl

abbrev zero_disk : ℕ → Page
zero_disk p = make_page

zero_disk-IsFile : IsFile zero_disk 0
zero_disk-IsFile = record { disk_sized = λ p. length-make_page; past_end = λ p h. refl }

open_tree-open_file_example :
    (s : PageManager) × (open_file true true 0 8 zero_disk (moved 100 ∷ interrupted ∷ []) ≡ ok s)
    × Represents page_store (BTree.open_tree page_store s).1 0 no_rows
open_tree-open_file_example =
    open_tree-open_file 8 zero_disk (moved 100 ∷ interrupted ∷ []) zero_disk-IsFile (omega arith) tt
