-- ===== src/Shm/Tree.antt =====
-- sentinel_shm.c: the red-black tree over the nodes of a zone, ordered by hash and key bytes.
-- `ngx_memn2cmp` is a parameter; the colours and the rotations are nginx's.
mod Tests
pub mod Order
pub mod Find
pub mod Insert
pub mod Index
pub mod Write
pub mod Steps
use nginx_http_sentinel_modu.Prelude.{
  ℕ, Bool, true, false, List, [], ◌∷◌, ◌++◌, Option, none, some, ltb, if◌then◌else◌, Bytes,
}
use nginx_http_sentinel_modu.Prelude.Int.{ℤ, is_zero, is_neg}
use nginx_http_sentinel_modu.Shm.Zone.{Node}

-- `ngx_rbtree_node_t` with its `key`, a hash, and the node that it heads; `sentinel` is the leaf.
pub data Tree : Type 0 where
  sentinel : Tree
  branch : ℕ → Node → Tree → Tree → Tree

-- `sentinel_shm_lookup`
unfoldable pub tree_lookup : (Bytes → Bytes → ℤ) → ℕ → Bytes → Tree → Option Node
tree_lookup memn2cmp hash key sentinel = none
tree_lookup memn2cmp hash key (branch h n l r) =
    let left = tree_lookup memn2cmp hash key l in
    let right = tree_lookup memn2cmp hash key r in
    let rc = memn2cmp key n.key in
    if ltb hash h
    then left
    else if ltb h hash
    then right
    else if is_zero rc
    then some n
    else if is_neg rc
    then left
    else right

-- `sentinel_shm_rbtree_insert`, from the place of `temp` down.
unfoldable pub rbtree_insert : (Bytes → Bytes → ℤ) → ℕ → Node → Tree → Tree
rbtree_insert memn2cmp hash n sentinel = branch hash n sentinel sentinel
rbtree_insert memn2cmp hash n (branch h nt l r) =
    let left = branch h nt (rbtree_insert memn2cmp hash n l) r in
    let right = branch h nt l (rbtree_insert memn2cmp hash n r) in
    if ltb hash h
    then left
    else if ltb h hash
    then right
    else if is_neg (memn2cmp n.key nt.key)
    then left
    else right

-- The nodes with their hashes, from the leftmost to the rightmost.
abbrev pub inorder : Tree → List (ℕ × Node)
inorder sentinel = []
inorder (branch h n l r) = inorder l ++ ((h, n) ∷ inorder r)
