-- ===== src/Db/BTree.antt =====
-- demo-db/include/btree.h and demo-db/src/btree.cpp: the B+ tree over a store of pages, which the
-- page manager is. The descents and the chain of leaves are loops on fuel, `fuel` pages at most; a
-- corrupt file can make the code go round forever.
pub mod Layout
pub mod Search
pub mod Insertion
pub mod Codec
pub mod Decode
pub mod Shape
pub mod Lookup
pub mod Reading
pub mod Finding
pub mod Scanning
pub mod Writing
pub mod Opening
pub mod Inserting
pub mod OnPages
pub mod Tests
use c_book.Prelude.{
  ℕ, zero, suc, ◌+◌, ◌*◌, ◌/◌, ◌%◌, ◌^◌, Bool, true, false, not, ◌&&◌, ◌||◌, List, [], ◌∷◌, ◌++◌,
  Option, none, some, Outcome, ok, throw, length, take, drop, set, get_or, ltb, leb, ◌==◌,
  if◌then◌else◌,
}
use c_book.Prelude.Int.{ℤ, pos, ltb_ℤ}
use c_book.Db.Wal.{Row}
use c_book.Db.PageManager.{Page, make_page, PageError}
use c_book.Db.PageManager.Transfer.{page_size}
use c_book.Db.PageStore.{PageStore}
use Layout.{
  NodeData, internal, leaf, is_leaf, write_u32_at, read_u32_at, encode_node, decode_node, fits_page,
}
use Search.{eqb_ℤ, found_value, lower_bound, upper_bound, insert_at}

abbrev pub max_keys : ℕ
max_keys = 4

abbrev pub format_version : ℕ
format_version = 1

-- `undefined_access` is a use of bytes beyond the page, `out_of_fuel` a descent or a chain that is
-- longer than the fuel; the others are the exceptions of the code.
-- Where `scan` or `find_all` throws, the rows that the callback had before are not kept.
pub data TreeError : Type 0 where
  page_error : PageError → TreeError
  no_magic undefined_access out_of_fuel : TreeError
  unsupported_version : ℕ → TreeError

pub record BPlusTree (P : PageStore) : Type 0 where
  pub pm : P.State
  pub root_page_id : ℕ

abbrev pub Exec : PageStore → Type 0 → Type 0
Exec P A = BPlusTree P → Outcome TreeError A × BPlusTree P

module _ {P : PageStore} where
  abbrev pub continue : {A B : Type 0} → Outcome TreeError A → (A → Exec P B) → Exec P B
  continue (ok a) f t = f a t
  continue (throw e) f t = (throw e, t)

  infixl 5 ◌>>=◌ ◌>>◌
  abbrev pub ◌>>=◌ : {A B : Type 0} → Exec P A → (A → Exec P B) → Exec P B
  ◌>>=◌ m f t = let (r, t') = m t in continue r f t'

  abbrev pub ◌>>◌ : {A B : Type 0} → Exec P A → Exec P B → Exec P B
  m >> k = m >>= λ a. k

  abbrev pub return : {A : Type 0} → A → Exec P A
  return a t = (ok a, t)

  abbrev pub fail : {A : Type 0} → TreeError → Exec P A
  fail e t = (throw e, t)

abbrev pub lifted : {A : Type 0} → Outcome PageError A → Outcome TreeError A
lifted (ok a) = ok a
lifted (throw e) = throw (page_error e)

abbrev pub empty_leaf : NodeData
empty_leaf = record { type = leaf; keys = []; values = []; children = []; next_leaf = 0 }

-- The bytes of page 0: the root, 'M', 'D', 'B' and the version.
pub metadata : ℕ → Page
unfolding write_u32_at make_page
metadata root =
    set (set (set (set (write_u32_at 0 root make_page) 4 0x4D) 5 0x44) 6 0x42) 7 format_version

-- The values of one leaf that `find_all` gives to its callback, and whether the leaf goes on past
-- the key, where `find_all` returns.
pub matches : ℤ → List ℤ → List ℤ → List ℤ × Bool
matches key [] values = ([], false)
matches key (k ∷ ks) values =
    let (found, stop) = matches key ks (drop 1 values) in
    if ltb_ℤ k key
    then (found, stop)
    else if ltb_ℤ key k
    then ([], true)
    else (get_or values 0 (pos 0) ∷ found, stop)

pub rows_of : List ℤ → List ℤ → List Row
rows_of [] values = []
rows_of (k ∷ ks) values = (k, get_or values 0 (pos 0)) ∷ rows_of ks (drop 1 values)

module _ (P : PageStore) where
  -- A call of the page manager.
  abbrev pub call : {A : Type 0} → (P.State → Outcome PageError A × P.State) → Exec P A
  call f t = let (r, s) = f t.pm in (lifted r, record t { pm = s })

  pub read_node : ℕ → Exec P NodeData
  unfolding decode_node
  read_node pid = do
    p ← call (P.read_page pid)
    let n = decode_node p in if fits_page n then return n else fail undefined_access

  pub write_node : ℕ → NodeData → Exec P Unit
  unfolding encode_node
  write_node pid n =
      if fits_page n then call (P.write_page pid (encode_node n)) else fail undefined_access

  pub save_metadata : Exec P Unit
  unfolding metadata
  save_metadata t = call (P.write_page 0 (metadata t.root_page_id)) t

  -- The checks of `load_metadata` on page 0, and the root that it takes from there.
  pub take_metadata : Page → Exec P Unit
  unfolding read_u32_at
  take_metadata meta t =
      if not (get_or meta 4 0 == 0x4D)
        || not (get_or meta 5 0 == 0x44)
        || not (get_or meta 6 0 == 0x42)
      then (throw no_magic, t)
      else if not (get_or meta 7 0 == format_version)
      then (throw (unsupported_version (get_or meta 7 0)), t)
      else (ok tt, record t { root_page_id = read_u32_at 0 meta })

  pub load_metadata : Exec P Unit
  unfolding take_metadata
  load_metadata = call (P.read_page 0) >>= take_metadata

  -- `find_leaf`: the page of the leaf, and the pages of `path`, the last one first.
  pub find_leaf_loop : ℕ → ℤ → Bool → ℕ → List ℕ → Exec P (ℕ × List ℕ)
  unfolding read_node lower_bound upper_bound
  find_leaf_loop zero key lower pid path = fail out_of_fuel
  find_leaf_loop (suc fuel) key lower pid path = do
    n ← read_node pid
    let idx = if lower then lower_bound n.keys key else upper_bound n.keys key in
        if is_leaf n
        then return (pid, path)
        else find_leaf_loop fuel key lower (get_or n.children idx 0) (pid ∷ path)

  pub find_leaf : ℕ → ℤ → Bool → Exec P (ℕ × List ℕ)
  unfolding find_leaf_loop
  find_leaf fuel key lower t = find_leaf_loop fuel key lower t.root_page_id [] t

  -- `out_value` where the key is found.
  pub find : ℕ → ℤ → Exec P (Option ℤ)
  unfolding find_leaf found_value
  find fuel key = do
    (leaf_pid, path) ← find_leaf fuel key false
    n ← read_node leaf_pid
    return (found_value n.keys n.values key)

  pub height_loop : ℕ → ℕ → ℕ → Exec P ℕ
  unfolding read_node
  height_loop zero h pid = fail out_of_fuel
  height_loop (suc fuel) h pid = do
    n ← read_node pid
    if is_leaf n then return h else height_loop fuel (h + 1) (get_or n.children 0 0)

  pub height : ℕ → Exec P ℕ
  unfolding height_loop
  height fuel t = height_loop fuel 1 t.root_page_id t

  pub find_all_loop : ℕ → ℤ → ℕ → Exec P (List ℤ)
  unfolding read_node matches
  find_all_loop fuel key zero = return []
  find_all_loop zero key (suc pid) = fail out_of_fuel
  find_all_loop (suc fuel) key (suc pid) = do
    n ← read_node (suc pid)
    let (found, stop) = matches key n.keys n.values in
        if stop
        then return found
        else do rest ← find_all_loop fuel key n.next_leaf; return (found ++ rest)

  -- The values given to the callback, in order.
  pub find_all : ℕ → ℤ → Exec P (List ℤ)
  unfolding find_leaf find_all_loop
  find_all fuel key = do (pid, path) ← find_leaf fuel key true; find_all_loop fuel key pid

  pub leftmost_loop : ℕ → ℕ → Exec P ℕ
  unfolding read_node
  leftmost_loop zero pid = fail out_of_fuel
  leftmost_loop (suc fuel) pid = do
    n ← read_node pid
    if is_leaf n then return pid else leftmost_loop fuel (get_or n.children 0 0)

  pub scan_loop : ℕ → ℕ → Exec P (List Row)
  unfolding read_node rows_of
  scan_loop fuel zero = return []
  scan_loop zero (suc pid) = fail out_of_fuel
  scan_loop (suc fuel) (suc pid) = do
    n ← read_node (suc pid)
    rest ← scan_loop fuel n.next_leaf
    return (rows_of n.keys n.values ++ rest)

  pub scan : ℕ → Exec P (List Row)
  unfolding leftmost_loop scan_loop
  scan fuel t = (do pid ← leftmost_loop fuel t.root_page_id; scan_loop fuel pid) t

  -- The pages of a fresh file.
  pub create : Exec P Unit
  unfolding write_node save_metadata
  create = do
    meta ← call P.allocate_page
    root ← call P.allocate_page
    write_node root empty_leaf
    (λ t. save_metadata (record t { root_page_id = root }))
    call P.sync

  -- The constructor.
  pub open_tree : P.State → Outcome TreeError Unit × BPlusTree P
  unfolding create load_metadata
  open_tree s =
      let t : BPlusTree P = record { pm = s; root_page_id = 0 } in
      if P.page_count s == 0 then create t else load_metadata t
