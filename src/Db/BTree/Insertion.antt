-- ===== src/Db/BTree/Insertion.antt =====
-- The insertions of demo-db/src/btree.cpp: into a leaf, and from a split on up the path.
use c_book.Prelude.{
  ℕ, ◌+◌, ◌/◌, false, ◌&&◌, List, [], ◌∷◌, length, take, drop, set, get_or, ltb, leb, if◌then◌else◌,
}
use c_book.Prelude.Int.{ℤ, pos}
use c_book.Db.PageStore.{PageStore}
use c_book.Db.BTree.Layout.{NodeData, internal, leaf}
use c_book.Db.BTree.Search.{eqb_ℤ, lower_bound, upper_bound, insert_at}
use c_book.Db.BTree.{
  max_keys, Exec, ◌>>=◌, ◌>>◌, return, call, read_node, write_node, save_metadata, find_leaf,
}

-- The left and the right half of a full leaf; `right_pid` is the page of the right one.
unfoldable pub left_half : ℕ → NodeData → NodeData
left_half right_pid n =
    let mid = length n.keys / 2 in
    record n { keys = take mid n.keys; values = take mid n.values; next_leaf = right_pid }

unfoldable pub right_half : NodeData → NodeData
right_half n =
    let mid = length n.keys / 2 in
    record n { type = leaf; keys = drop mid n.keys; values = drop mid n.values; children = [] }

-- The middle key goes to the parent.
unfoldable pub left_node : NodeData → NodeData
left_node n =
    let mid = length n.keys / 2 in
    record n { keys = take mid n.keys; children = take (mid + 1) n.children }

unfoldable pub right_node : NodeData → NodeData
right_node n =
    let mid = length n.keys / 2 in
    record {
      type = internal;
      keys = drop (mid + 1) n.keys;
      values = [];
      children = drop (mid + 1) n.children;
      next_leaf = 0;
    }

-- The parent with the separator and the right child put in.
unfoldable pub with_child : ℤ → ℕ → NodeData → NodeData
unfolding upper_bound
with_child sep_key right_child n =
    let idx = upper_bound n.keys sep_key in
    record n {
      keys = insert_at idx sep_key n.keys;
      children = insert_at (idx + 1) right_child n.children;
    }

-- The leaf with a row put in before index `idx`.
unfoldable pub with_row : ℕ → ℤ → ℤ → NodeData → NodeData
with_row idx key value n = record n {
  keys = insert_at idx key n.keys;
  values = insert_at idx value n.values;
}

module _ (P : PageStore) where
  -- `sep_key` and the page of the right half.
  unfoldable pub split_leaf : ℕ → NodeData → Exec P (ℤ × ℕ)
  unfolding left_half right_half write_node
  split_leaf leaf_pid n = do
    right_pid ← call P P.allocate_page
    write_node P leaf_pid (left_half right_pid n)
    write_node P right_pid (right_half n)
    return (get_or (right_half n).keys 0 (pos 0), right_pid)

  unfoldable pub split_internal : ℕ → NodeData → Exec P (ℤ × ℕ)
  unfolding left_node right_node write_node
  split_internal int_pid n = do
    right_pid ← call P P.allocate_page
    write_node P int_pid (left_node n)
    write_node P right_pid (right_node n)
    return (get_or n.keys (length n.keys / 2) (pos 0), right_pid)

  -- A new root over the old one and `right_child`.
  unfoldable pub new_root : ℤ → ℕ → Exec P Unit
  unfolding write_node save_metadata
  new_root sep_key right_child = do
    root ← call P P.allocate_page
    λ t.
        (do
          write_node P root (record {
            type = internal;
            keys = sep_key ∷ [];
            values = [];
            children = t.root_page_id ∷ right_child ∷ [];
            next_leaf = 0;
          })
          λ t'. save_metadata P (record t' { root_page_id = root }))
          t

  -- `path` has the parent first.
  unfoldable pub insert_in_parent : List ℕ → ℤ → ℕ → Exec P Unit
  unfolding new_root read_node with_child write_node split_internal
  insert_in_parent [] sep_key right_child = new_root sep_key right_child
  insert_in_parent (parent_pid ∷ grand_path) sep_key right_child = do
    n ← read_node P parent_pid
    let parent = with_child sep_key right_child n in
        if leb (length parent.keys) max_keys then write_node P parent_pid parent else do
          (new_sep, new_right) ← split_internal parent_pid parent
          insert_in_parent grand_path new_sep new_right

  -- The end of `insert` and of `insert_dup`: the leaf is written, or split where it is too full.
  unfoldable pub store_leaf : ℕ → List ℕ → NodeData → Exec P Unit
  unfolding write_node split_leaf insert_in_parent
  store_leaf leaf_pid path n =
      if leb (length n.keys) max_keys
      then write_node P leaf_pid n
      else do (sep, right) ← split_leaf leaf_pid n; insert_in_parent path sep right

  unfoldable pub insert : ℕ → ℤ → ℤ → Exec P Unit
  unfolding find_leaf read_node lower_bound write_node with_row store_leaf
  insert fuel key value = do
    (leaf_pid, path) ← find_leaf P fuel key false
    n ← read_node P leaf_pid
    let idx = lower_bound n.keys key in
        if ltb idx (length n.keys) && eqb_ℤ (get_or n.keys idx (pos 0)) key
        then write_node P leaf_pid (record n { values = set n.values idx value })
        else store_leaf leaf_pid path (with_row idx key value n)

  pub insert_dup : ℕ → ℤ → ℤ → Exec P Unit
  unfolding find_leaf read_node upper_bound with_row store_leaf
  insert_dup fuel key value = do
    (leaf_pid, path) ← find_leaf P fuel key false
    n ← read_node P leaf_pid
    store_leaf leaf_pid path (with_row (upper_bound n.keys key) key value n)
